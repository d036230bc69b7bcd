-- ===== src/Keyvalue/Laws.antt =====
-- About what a store of keyvalue/keyvalue.go gives back after a change.
use session_scheduler.Base.{
  String, Bool, true, false, ◌≡◌, ◌≢◌, refl, ap, sym, ◌∙◌, Option, none, some, [], ◌∷◌, ==_iff,
  ==_refl, string_key, arith,
}
use session_scheduler.Errors.{wrapped}
use session_scheduler.Tx.{Res, ok, err, Fault, fault_error, is_busy, is_locked, is_broken}
use session_scheduler.Keyvalue.{
  KeyValues, look_up, get, put, set, ExchangeFaults, old_value, commit_exchange, exchange_value,
  exchange, value_of, bool_to_string, string_to_bool, get_bool_def, bool_result, exchange_bool,
}

pub look_up-put :
    (key value : String) (kvs : KeyValues) → look_up key (put key value kvs) ≡ ok value
look_up-put key value [] = rw (==_refl key) refl
look_up-put key value ((k, v) ∷ kvs) = ground (arith, look_up-put key value kvs)

pub look_up-put_ne :
    (key other value : String) (kvs : KeyValues)
    → other ≢ key
    → look_up other (put key value kvs) ≡ look_up other kvs
look_up-put_ne key other value [] ne = grind (arith, ==_iff key other, ne)
look_up-put_ne key other value ((k, v) ∷ kvs) ne =
    grind (arith, ==_iff k key, ==_iff k other, ne, look_up-put_ne key other value kvs ne)

pub string_to_bool-bool_to_string : (b : Bool) → string_to_bool (bool_to_string b) ≡ b
unfolding string_to_bool bool_to_string
string_to_bool-bool_to_string true = refl
string_to_bool-bool_to_string false = refl

old_value_lem : (r : Res String) (old : String) → old_value r ≡ ok old → value_of r ≡ old
old_value_lem (ok v) old h = ground arith
old_value_lem (err e) old h = ground arith

-- A key that is not there reads as "".
pub old_value-look_up :
    (key : String) (kvs : KeyValues) → old_value (look_up key kvs) ≡ ok (value_of (look_up key kvs))
old_value-look_up key [] = refl
old_value-look_up key ((k, v) ∷ kvs) = ground (arith, old_value-look_up key kvs)

exchange_value_lem :
    (fs : ExchangeFaults) (key value old : String) (kvs kvs' : KeyValues)
    → fs.commit ≡ none
    → exchange_value fs key value kvs ≡ (ok old, kvs')
    → (old_value (get fs.get key kvs) ≡ ok old) × (kvs' ≡ put key value kvs)
unfolding exchange_value set
exchange_value_lem fs key value old kvs kvs' c h =
    go (old_value (get fs.get key kvs)) fs.set fs.commit c h
  where
    go :
        (r : Res String) (s m : Option Fault)
        → m ≡ none
        → elim r [ err e ↦ (err e, kvs) | ok v ↦ commit_exchange m v kvs (set s key value kvs) ]
          ≡ (ok old, kvs')
        → (r ≡ ok old) × (kvs' ≡ put key value kvs)
    go (err e) s m c h = absurd (ground arith)
    go (ok v) s (some f) c h = absurd (ground arith)
    go (ok v) (some f) none c h = absurd (ground arith)
    go (ok v) none none c h = (ground arith, ground arith)

got :
    (g : Option Fault) (key old : String) (kvs : KeyValues)
    → old_value (get g key kvs) ≡ ok old
    → value_of (look_up key kvs) ≡ old
unfolding get
got none key old kvs h = old_value_lem (look_up key kvs) old h
got (some is_busy) key old kvs h = absurd (ground arith)
got (some is_locked) key old kvs h = absurd (ground arith)
got (some is_broken) key old kvs h = absurd (ground arith)

exchange_lem :
    (fs : ExchangeFaults) (key value old : String) (kvs kvs' : KeyValues)
    → fs.commit ≡ none
    → exchange fs key value kvs ≡ (ok old, kvs')
    → (value_of (look_up key kvs) ≡ old) × (kvs' ≡ put key value kvs)
unfolding exchange
exchange_lem fs key value old kvs kvs' c h = go fs.begin h
  where
    go :
        (b : Option Fault)
        → elim b [
          | some f ↦ (err (wrapped "Starting transaction" (fault_error f)), kvs)
          | none ↦ exchange_value fs key value kvs
        ]
          ≡ (ok old, kvs')
        → (value_of (look_up key kvs) ≡ old) × (kvs' ≡ put key value kvs)
    go (some f) k = absurd (ground arith)
    go none k =
        let (p, q) = exchange_value_lem fs key value old kvs kvs' c k in
        (got fs.get key old kvs p, q)

-- When ExchangeBool reports no error and its commit does not fail, it has returned what GetBoolDef
-- read before; GetBoolDef reads the new value after it, and Get reads every other key as before.
pub exchange_bool_reads_back :
    (fs : ExchangeFaults) (key other : String) (val old : Bool) (kvs kvs' : KeyValues)
    → other ≢ key
    → fs.commit ≡ none
    → exchange_bool fs key val kvs ≡ (ok old, kvs')
    → (old ≡ get_bool_def none key kvs)
      × (get_bool_def none key kvs' ≡ val)
      × (get none other kvs' ≡ get none other kvs)
unfolding exchange_bool get_bool_def get
exchange_bool_reads_back fs key other val old kvs kvs' ne c h =
    go (exchange fs key (bool_to_string val) kvs) refl h
  where
    go :
        (x : Res String × KeyValues)
        → exchange fs key (bool_to_string val) kvs ≡ x
        → ◌≡◌ {A = Res Bool × KeyValues} (bool_result x.0, x.1) (ok old, kvs')
        → (old ≡ string_to_bool (value_of (look_up key kvs)))
          × (string_to_bool (value_of (look_up key kvs')) ≡ val)
          × (look_up other kvs' ≡ look_up other kvs)
    go (err e, k) p q = absurd (ground arith)
    go (ok v, k) p q =
        let (was, now) = exchange_lem fs key (bool_to_string val) v kvs k c p in
        let put_it : kvs' ≡ put key (bool_to_string val) kvs = sym (ap (λ z. z.1) q) ∙ now in
        (
          rw was (ground arith),
          rw put_it
              (rw (look_up-put key (bool_to_string val) kvs) (string_to_bool-bool_to_string val)),
          rw put_it (look_up-put_ne key other (bool_to_string val) kvs ne),
        )
