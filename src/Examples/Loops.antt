-- ===== src/Examples/Loops.antt =====
-- The loops round transactions and statements, and the key-value store, with faults of the driver.
use session_scheduler.Base.{
  ℕ, suc, ◌+◌, ◌≡◌, refl, true, false, none, some, List, [], ◌∷◌, ◌++◌, arith,
}
use session_scheduler.Errors.{should_retry}
use session_scheduler.Tx.{Res, ok, Tx, is_busy, tx_loop, tx_loop_from, tx_round, exec, ◌>>=◌}
use session_scheduler.Tx.Atomic.{Outcome, tx_loop_atomic, tx_loop_ends}
use session_scheduler.Keyvalue.{
  KeyValues, get, set, unset, exchange, exchange_value, bool_to_string, string_to_bool,
  get_bool_def, exchange_bool,
}
use session_scheduler.Keyvalue.Laws.{exchange_bool_reads_back}
use session_scheduler.Keyvalue.Refinement.{
  Call, getting, setting, unsetting, exchanging, call, run, view, replay, run-replay,
}
use session_scheduler.Sql.{select, delete_where}
use session_scheduler.Examples.{quiet, contended, late}

-- A body that adds to a counter and then doubles it.
unfoldable double_after : Tx ℕ ℕ
double_after =
    exec (λ (n : ℕ). ok (suc n, tt)) >>= (λ (u : Unit {0}). exec (λ (n : ℕ). ok (n + n, n)))

tx_loop_atomic_example : Outcome double_after 3 (ok 4, 8)
unfolding double_after tx_loop tx_loop_from tx_round exec ◌>>=◌ should_retry
tx_loop_atomic_example = tx_loop_atomic double_after (contended ∷ quiet ∷ []) 3 (ok 4, 8) refl

tx_loop_ends_example :
    (y : Res ℕ × ℕ) × (tx_loop double_after ((late ∷ late ∷ late ∷ late ∷ late ∷ []) ++ late ∷ []) 3
      ≡ some y)
tx_loop_ends_example =
    tx_loop_ends double_after (late ∷ late ∷ late ∷ late ∷ late ∷ []) late [] 3 (omega arith)
      (omega arith)

abbrev settings : KeyValues
settings = ("open", "false") ∷ ("title", "x") ∷ []

exchange_bool_reads_back_example :
    (false ≡ get_bool_def none "open" settings)
    × (get_bool_def none "open" (("open", "true") ∷ ("title", "x") ∷ []) ≡ true)
    × (get none "title" (("open", "true") ∷ ("title", "x") ∷ []) ≡ get none "title" settings)
unfolding exchange_bool exchange exchange_value get set bool_to_string string_to_bool
exchange_bool_reads_back_example =
    exchange_bool_reads_back (record { begin = none; get = none; set = none; commit = none }) "open"
      "title" true false settings (("open", "true") ∷ ("title", "x") ∷ []) (λ h. cc) refl refl

-- An exchange whose commit fails answers with the old value and stores nothing.
abbrev calls : List Call
calls =
    exchanging none none none (some is_busy) "open" "true"
    ∷ getting none "open"
    ∷ setting none "open" "true"
    ∷ unsetting none "title"
    ∷ exchanging none none none none "hall" "big"
    ∷ setting (some is_busy) "hall" "small"
    ∷ getting none "title"
    ∷ []

run-replay_example :
    (
      some "false" ∷ some "false" ∷ some "" ∷ some "" ∷ some "" ∷ none ∷ none ∷ [],
      view (("open", "true") ∷ ("hall", "big") ∷ []),
    )
    ≡ replay calls (view settings)
unfolding run call exchange exchange_value get set unset select delete_where
run-replay_example = run-replay calls settings
