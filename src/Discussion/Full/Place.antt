-- ===== src/Discussion/Full/Place.antt =====
-- Where the schedule has a discussion (event/discussion.go, discussionFindByIdFullTx).
use session_scheduler.Base.{
  ℕ, ◌≡◌, ◌⊎◌, inl, inr, refl, ap, sym, ◌∙◌, String, Bool, true, false, Option, none, some, List,
  [], ◌∷◌, arith, Bool-cases, suc, All, get_elem?, ◌==◌, ==_iff, string_key, some_inj,
}
use session_scheduler.Sql.{first_where}
use session_scheduler.Db.{Location, Slot, Scheduled, Db}
use session_scheduler.Db.Keys.{is_location, is_slot}
use session_scheduler.Discussion.Full.{
  zero_location, ScheduleInfo, schedule_info, join_info, join_entry, first_joined,
}

abbrev pub IsUnplaced : Location → Option ℕ → Bool → Type 0
IsUnplaced l t final = (l ≡ zero_location) × (t ≡ none) × (final ≡ false)

-- An entry of the schedule that gives a discussion its location and its slot.
pub record IsPlaced (did : String) (db : Db) (l : Location) (t : Option ℕ) (final : Bool)
    : Type 0 where
  pub index : ℕ
  pub entry : Scheduled
  pub slot : Slot
  pub scheduled : get_elem? db.schedule index ≡ some entry
  pub mine : entry.discussion_id ≡ did
  pub at_location : first_where (is_location entry.location_id) db.locations ≡ some l
  pub at_slot : first_where (is_slot entry.slot_id) db.slots ≡ some slot
  pub timed : t ≡ some slot.slot_time
  pub finality : final ≡ slot.is_locked

-- The entry gives the discussion no place: it is another's, or its location or slot has no row.
abbrev pub IsNoPlace : String → Db → Scheduled → Type 0
IsNoPlace did db e =
    ((e.discussion_id == did) ≡ false)
    ⊎ (first_where (is_location e.location_id) db.locations ≡ none)
    ⊎ (first_where (is_slot e.slot_id) db.slots ≡ none)

join_entry-some :
    (db : Db) (e : Scheduled) (i : ScheduleInfo)
    → join_entry db e ≡ some i
    → (s : Slot) × (first_where (is_location e.location_id) db.locations ≡ some i.location)
      × (first_where (is_slot e.slot_id) db.slots ≡ some s)
      × (i.slot_time ≡ s.slot_time)
      × (i.is_locked ≡ s.is_locked)
join_entry-some db e i h =
    go (first_where (is_location e.location_id) db.locations)
      (first_where (is_slot e.slot_id) db.slots) refl refl h
  where
    go :
        (l : Option Location) (s : Option Slot)
        → first_where (is_location e.location_id) db.locations ≡ l
        → first_where (is_slot e.slot_id) db.slots ≡ s
        → join_info l s ≡ some i
        → (s : Slot) × (first_where (is_location e.location_id) db.locations ≡ some i.location)
          × (first_where (is_slot e.slot_id) db.slots ≡ some s)
          × (i.slot_time ≡ s.slot_time)
          × (i.is_locked ≡ s.is_locked)
    go none s p q k = absurd (ground arith)
    go (some l) none p q k = absurd (ground arith)
    go (some l) (some s) p q k =
        let made = some_inj k in
        (
          s,
          p ∙ ap (λ x. some x.location) made,
          q,
          sym (ap ScheduleInfo.slot_time made),
          sym (ap ScheduleInfo.is_locked made),
        )

join_entry-none :
    (did : String) (db : Db) (e : Scheduled) → join_entry db e ≡ none → IsNoPlace did db e
join_entry-none did db e h =
    go (first_where (is_location e.location_id) db.locations)
      (first_where (is_slot e.slot_id) db.slots) refl refl h
  where
    go :
        (l : Option Location) (s : Option Slot)
        → first_where (is_location e.location_id) db.locations ≡ l
        → first_where (is_slot e.slot_id) db.slots ≡ s
        → join_info l s ≡ none
        → IsNoPlace did db e
    go none s p q k = inr (inl p)
    go (some l) none p q k = inr (inr q)
    go (some l) (some s) p q k = absurd (ground arith)

first_joined-some :
    (did : String) (db : Db) (es : List Scheduled) (i : ScheduleInfo)
    → first_joined did db es ≡ some i
    → (n : ℕ) × (e : Scheduled) × (get_elem? es n ≡ some e)
      × (e.discussion_id ≡ did)
      × (join_entry db e ≡ some i)
first_joined-some did db [] i h = absurd (ground arith)
first_joined-some did db (e ∷ es) i h =
    go (Bool-cases (e.discussion_id == did)) (join_entry db e) refl (first_joined-some did db es i)
  where
    Found : Type 0
    Found =
        (n : ℕ) × (d : Scheduled) × (get_elem? (e ∷ es) n ≡ some d)
        × (d.discussion_id ≡ did)
        × (join_entry db d ≡ some i)

    further :
        (n : ℕ) × (d : Scheduled) × (get_elem? es n ≡ some d)
          × (d.discussion_id ≡ did)
          × (join_entry db d ≡ some i)
        → Found
    further (n, d, at, own, joined) = (suc n, d, at, own, joined)

    go :
        ((e.discussion_id == did) ≡ true) ⊎ ((e.discussion_id == did) ≡ false)
        → (o : Option ScheduleInfo) → join_entry db e ≡ o
        → (first_joined did db es ≡ some i
            → (n : ℕ) × (d : Scheduled) × (get_elem? es n ≡ some d)
              × (d.discussion_id ≡ did)
              × (join_entry db d ≡ some i))
        → Found
    go (inr other) o p ih = further (ih (ground arith))
    go (inl own) none p ih = further (ih (ground arith))
    go (inl own) (some j) p ih = (0, e, refl, (==_iff e.discussion_id did).0 own, ground arith)

first_joined-none :
    (did : String) (db : Db) (es : List Scheduled)
    → first_joined did db es ≡ none
    → All (IsNoPlace did db) es
first_joined-none did db [] h = tt
first_joined-none did db (e ∷ es) h =
    go (Bool-cases (e.discussion_id == did)) (join_entry db e) refl (first_joined-none did db es)
  where
    go :
        ((e.discussion_id == did) ≡ true) ⊎ ((e.discussion_id == did) ≡ false)
        → (o : Option ScheduleInfo) → join_entry db e ≡ o
        → (first_joined did db es ≡ none → All (IsNoPlace did db) es)
        → All (IsNoPlace did db) (e ∷ es)
    go (inr other) o p ih = (inl other, ih (ground arith))
    go (inl own) none p ih = (join_entry-none did db e p, ih (ground arith))
    go (inl own) (some j) p ih = absurd (ground arith)

pub info-IsPlaced :
    (id : String) (db : Db) (i : ScheduleInfo)
    → schedule_info id db ≡ some i
    → IsPlaced id db i.location (some i.slot_time) i.is_locked
unfolding schedule_info
info-IsPlaced id db i h =
    let (n, e, at, own, joined) = first_joined-some id db db.schedule i h in
    let (s, hall, when, time, final) = join_entry-some db e i joined in
    record {
      index = n;
      entry = e;
      slot = s;
      scheduled = at;
      mine = own;
      at_location = hall;
      at_slot = when;
      timed = ap some time;
      finality = final;
    }

pub info-IsNoPlace :
    (id : String) (db : Db) → schedule_info id db ≡ none → All (IsNoPlace id db) db.schedule
unfolding schedule_info
info-IsNoPlace id db h = first_joined-none id db db.schedule h
