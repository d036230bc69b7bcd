-- ===== src/Discussion/Full/Laws.antt =====
-- About the lookup of a discussion (event/discussion.go).
use session_scheduler.Base.{
  ◌≡◌, ◌⊎◌, inl, inr, refl, ap, sym, subst, ◌∙◌, String, false, Option, none, some, List, [], ◌∷◌,
  arith, Bool-cases, All, string_key,
}
use session_scheduler.Sql.{first_where}
use session_scheduler.Tx.{
  Res, ok, err, Conn, Fault, Round, exec, get_row, query, is_no_rows, pure, ◌>>=◌,
}
use session_scheduler.Tx.Atomic.{start}
use session_scheduler.Tx.Variable.{get_row_into}
use session_scheduler.Tx.Variable.Laws.{
  VarOutcome, RowOutcome, row-RowOutcome, tx_loop_var-VarOutcome,
}
use session_scheduler.Db.{User, Discussion, Db}
use session_scheduler.Db.Keys.{is_discussion, is_user}
use session_scheduler.User.Find.{zero_user, user_get_tx}
use session_scheduler.Discussion.Possible.{DisplaySlot, discussion_get_possible_slots_tx}
use session_scheduler.Discussion.Full.Slots.{IsListed, possible_slots-IsListed}
use session_scheduler.Discussion.Full.Place.{
  IsUnplaced, IsPlaced, IsNoPlace, info-IsPlaced, info-IsNoPlace,
}
use session_scheduler.Discussion.Full.{
  DiscussionFull, zero_discussion, zero_location, zero_full, ScheduleInfo, schedule_info, Look,
  use_slots, read_slots, use_schedule, read_schedule, use_owner, read_owner, use_discussion,
  discussion_find_by_id_full_tx, discussion_find_by_id_full,
}

module _ (did : String) (db : Db) where
  abbrev pub HasRow : DiscussionFull → Type 0
  HasRow df = first_where (is_discussion did) db.discussions ≡ some df.discussion

  abbrev pub HasOwner : DiscussionFull → Type 0
  HasOwner df = first_where (is_user df.discussion.owner) db.users ≡ some df.owner_info

  abbrev pub HasPlace : DiscussionFull → Type 0
  HasPlace df =
      IsPlaced df.discussion.discussion_id db df.location df.time df.is_final
      ⊎ (All (IsNoPlace df.discussion.discussion_id db) db.schedule
          × IsUnplaced df.location df.time df.is_final)

  -- What the tables say of a discussion.
  abbrev pub IsFull : DiscussionFull → Type 0
  IsFull df =
      HasRow df
      × HasOwner df
      × HasPlace df
      × IsListed df.discussion.discussion_id db df.possible_slots

  -- What is in the variable where an error is reported.
  abbrev pub AtMost : Option DiscussionFull → Type 0
  AtMost none = Unit
  AtMost (some df) = (df.discussion ≡ zero_discussion) ⊎ HasRow df

  abbrev pub FullOutcome : Option DiscussionFull → Res (Unit {0}) → Type 0
  FullOutcome none (ok u) = first_where (is_discussion did) db.discussions ≡ none
  FullOutcome (some df) (ok u) = IsFull df
  FullOutcome disc (err e) = AtMost disc

  abbrev LookOutcome : Look → Type 0
  LookOutcome x = FullOutcome x.0 x.1.0 × (x.1.1.db ≡ db)

  -- The connection, where its database is known.
  at : (c : Conn Db) → c.db ≡ db → start db c.faults ≡ c
  at c same = ap (λ d. start d c.faults) (sym same)

  read :
      {A : Type 0} (a : A) (f : Db → Option A) (c : Conn Db)
      → c.db ≡ db
      → RowOutcome (f db) db (exec (get_row f) c)
  unfolding get_row_into
  read a f c same =
      subst (λ x. RowOutcome (f db) db (exec (get_row f) x)) (at c same)
        (row-RowOutcome (some a) f db c.faults)

  abbrev SlotsOutcome : String → Res (List DisplaySlot) × Conn Db → Type 0
  SlotsOutcome id (ok ps, c) = IsListed id db ps × (c.db ≡ db)
  SlotsOutcome id (err e, c) = c.db ≡ db

  slots_at :
      (id : String) (fs : List (Option Fault))
      → SlotsOutcome id (discussion_get_possible_slots_tx id (start db fs))
  unfolding discussion_get_possible_slots_tx exec query pure ◌>>=◌
  slots_at id [] = (possible_slots-IsListed id db, refl)
  slots_at id (none ∷ fs) = (possible_slots-IsListed id db, refl)
  slots_at id (some e ∷ fs) = refl

  read_slots-LookOutcome :
      (df : DiscussionFull) (c : Conn Db)
      → HasRow df
      → HasOwner df
      → HasPlace df
      → c.db ≡ db
      → LookOutcome (read_slots df c)
  unfolding read_slots
  read_slots-LookOutcome df c row owner place same =
      go (discussion_get_possible_slots_tx df.discussion.discussion_id c) (
        subst
          (λ x.
            SlotsOutcome df.discussion.discussion_id
              (discussion_get_possible_slots_tx df.discussion.discussion_id x))
          (at c same) (slots_at df.discussion.discussion_id c.faults))
    where
      go :
          (x : Res (List DisplaySlot) × Conn Db)
          → SlotsOutcome df.discussion.discussion_id x
          → LookOutcome (use_slots df x)
      go (ok ps, c') (listed, kept) = ((row, owner, place, listed), kept)
      go (err e, c') kept = (inr row, kept)

  read_schedule-LookOutcome :
      (df : DiscussionFull) (c : Conn Db)
      → HasRow df
      → HasOwner df
      → IsUnplaced df.location df.time df.is_final
      → c.db ≡ db
      → LookOutcome (read_schedule df c)
  unfolding read_schedule
  read_schedule-LookOutcome df c row owner unplaced same =
      go (exec (get_row (schedule_info df.discussion.discussion_id)) c)
        (read nowhere (schedule_info df.discussion.discussion_id) c same)
    where
      nowhere : ScheduleInfo
      nowhere = record { location = zero_location; slot_time = 0; is_locked = false }

      go :
          (x : Res ScheduleInfo × Conn Db)
          → RowOutcome (schedule_info df.discussion.discussion_id db) db x
          → LookOutcome (use_schedule df x)
      go (ok i, c') (found, kept) =
          read_slots-LookOutcome
            (record df { location = i.location; time = some i.slot_time; is_final = i.is_locked })
            c' row owner (inl (info-IsPlaced df.discussion.discussion_id db i found)) kept
      go (err e, c') (missing, kept) = elim (Bool-cases (is_no_rows e)) [
        | inl absent ↦ rw absent (
            read_slots-LookOutcome df c' row owner
              (elim missing [
                | inl k ↦ absurd (ground arith)
                | inr o ↦ inr (info-IsNoPlace df.discussion.discussion_id db o, unplaced)
              ])
              kept)
        | inr other ↦ rw other (inr row, kept)
      ]

  read_owner-LookOutcome :
      (df : DiscussionFull) (c : Conn Db)
      → HasRow df
      → IsUnplaced df.location df.time df.is_final
      → c.db ≡ db
      → LookOutcome (read_owner df c)
  unfolding read_owner user_get_tx get_row_into
  read_owner-LookOutcome df c row unplaced same =
      go (user_get_tx (some zero_user) df.discussion.owner c)
        (read zero_user (λ (d : Db). first_where (is_user df.discussion.owner) d.users) c same)
    where
      go :
          (x : Res User × Conn Db)
          → RowOutcome (first_where (is_user df.discussion.owner) db.users) db x
          → LookOutcome (use_owner df x)
      go (ok u, c') (found, kept) =
          read_schedule-LookOutcome (record df { owner_info = u }) c' row found unplaced kept
      go (err e, c') (missing, kept) = elim (Bool-cases (is_no_rows e)) [
        | inl absent ↦ rw absent (inr row, kept)
        | inr other ↦ rw other (inr row, kept)
      ]

  full_tx-LookOutcome :
      (disc : Option DiscussionFull) (fs : List (Option Fault))
      → LookOutcome (discussion_find_by_id_full_tx did disc (start db fs))
  unfolding discussion_find_by_id_full_tx
  full_tx-LookOutcome disc fs =
      go (exec (get_row (λ (d : Db). first_where (is_discussion did) d.discussions)) (start db fs))
        (read zero_discussion (λ (d : Db). first_where (is_discussion did) d.discussions)
          (start db fs) refl)
    where
      go :
          (x : Res Discussion × Conn Db)
          → RowOutcome (first_where (is_discussion did) db.discussions) db x
          → LookOutcome (use_discussion x)
      go (ok d, c) (found, kept) =
          read_owner-LookOutcome (record zero_full { discussion = d }) c found (refl, refl, refl)
            kept
      go (err e, c) (missing, kept) = elim (Bool-cases (is_no_rows e)) [
        | inl absent ↦ rw absent (elim missing [ inl k ↦ absurd (ground arith) | inr o ↦ o ], kept)
        | inr other ↦ rw other (inl refl, kept)
      ]

  pub at_most :
      (disc : Option DiscussionFull) (r : Res (Unit {0})) → FullOutcome disc r → AtMost disc
  at_most none r h = tt
  at_most (some df) (ok u) h = inr h.0
  at_most (some df) (err e) h = h

  module _ (rs : List Round) (db' : Db) (disc : Option DiscussionFull) (r : Res (Unit {0})) where
    -- However DiscussionFindByIdFull ends, with whatever driver faults, the database is as it was. It
    -- reports no error only with nil where no discussion has the identifier, and otherwise with the
    -- discussion's row, its owner's row, the location and slot of one of its own schedule entries, or
    -- none of both where no entry of it has a location and a slot, and every slot that is no break
    -- once, by day and index, checked if a row names it for the discussion or no row names any. What
    -- it returns beside an error has either no identifier and no text at all or those of the
    -- discussion's row.
    pub discussion_find_by_id_full-FullOutcome :
        discussion_find_by_id_full did rs db ≡ some (disc, (r, db'))
        → FullOutcome disc r × (db' ≡ db)
    unfolding discussion_find_by_id_full
    discussion_find_by_id_full-FullOutcome h = go r (
        tx_loop_var-VarOutcome (discussion_find_by_id_full_tx did) AtMost db
          (λ w fs _. at_most _ _ (full_tx-LookOutcome w fs).0) rs none disc (r, db') tt h)
      where
        go :
            (r : Res (Unit {0}))
            → VarOutcome (discussion_find_by_id_full_tx did) AtMost db disc (r, db')
            → FullOutcome disc r × (db' ≡ db)
        go (err e) (a, same) = (a, same)
        go (ok u) (w, fs, _, assigned, ran, same) =
            let (out, kept) = full_tx-LookOutcome w fs in
            (
              subst (λ x. FullOutcome x (ok u)) assigned (subst (FullOutcome _) ran out),
              same ∙ kept,
            )
