-- ===== src/Spool/Progress.antt =====
-- What the results of a response remove from the spool, and that no event is lost by them.
use token_pilot.Base.{
  ℕ, ◌+◌, ◌≡◌, ◌≤◌, ◌<◌, refl, ap, ◌∙◌, Bool, true, false, Option, none, some, List, [], ◌∷◌, map,
  length, find, any, ◌==◌, same_option, Bool-cases, inl, inr, arith, ==_iff, find-test,
  length-append,
}
use token_pilot.Base.Search.{any-find-none, any-find}
use token_pilot.Spool.{
  EventRow, RejectedRow, Spool, SpooledUsageEvent, has_event_id, has_rejected_id, delete_event,
  remove_event, acknowledge, copy_rejected, reject,
}
use token_pilot.Spool.Invariant.{Inv, any-delete, delete_absent, length-delete}
use token_pilot.Spool.Reporter.{
  BatchResult, Flushing, subject, is_delivered, deliver, refuse, reason_of, apply_named,
  apply_results,
}
use token_pilot.Spool.View.Steps.{remove_event-Inv}
use token_pilot.Spool.View.Rejects.{reject-promised}

-- The rows that are left after the removal of the events that the results name.
abbrev pub without : Option ℕ → List EventRow → List EventRow
without none rows = rows
without (some id) rows = delete_event id rows

abbrev pub remaining : List (Option ℕ) → List EventRow → List EventRow
remaining [] rows = rows
remaining (o ∷ os) rows = remaining os (without o rows)

abbrev pub names : ℕ → List (Option ℕ) → Bool
names id os = any (λ o. same_option o (some id)) os

delete-le : (id : ℕ) (rows : List EventRow) → length (delete_event id rows) ≤ length rows
delete-le id [] = omega arith
delete-le id (row ∷ rows) = ground (arith, delete-le id rows)

delete-lt :
    (id : ℕ) (rows : List EventRow)
    → any (has_event_id id) rows ≡ true
    → length (delete_event id rows) < length rows
delete-lt id [] h = cc
delete-lt id (row ∷ rows) h = ground (arith, delete-le id rows, delete-lt id rows)

without-le : (o : Option ℕ) (rows : List EventRow) → length (without o rows) ≤ length rows
without-le none rows = omega arith
without-le (some id) rows = delete-le id rows

pub remaining-le :
    (os : List (Option ℕ)) (rows : List EventRow) → length (remaining os rows) ≤ length rows
remaining-le [] rows = omega arith
remaining-le (o ∷ os) rows = omega (arith, remaining-le os (without o rows), without-le o rows)

-- A result that names a row makes the table shorter.
pub remaining-lt :
    (id : ℕ) (os : List (Option ℕ)) (rows : List EventRow)
    → names id os ≡ true
    → any (has_event_id id) rows ≡ true
    → length (remaining os rows) < length rows
remaining-lt id [] rows h here = cc
remaining-lt id (none ∷ os) rows h here = remaining-lt id os rows h here
remaining-lt id (some j ∷ os) rows h here = elim (Bool-cases (j == id)) [
  | inl hit ↦
      let same : j ≡ id = (==_iff j id).0 hit in
      omega (arith, remaining-le os (delete_event j rows), delete-lt j rows (rw same here))
  | inr miss ↦
      let still : any (has_event_id id) (delete_event j rows) ≡ true =
        any-delete j id rows ∙ ground arith in
      omega (arith, remaining-lt id os (delete_event j rows) (rw miss at h) still, delete-le j rows)
]

apply_named-events :
    (now : ℕ) (item : BatchResult) (o : Option ℕ) (run : Flushing)
    → (apply_named now item o run).spool.usage_events ≡ without o run.spool.usage_events
unfolding apply_named acknowledge reject remove_event
apply_named-events now item none run = refl
apply_named-events now item (some id) run = ground arith

pub apply_results-events :
    (now : ℕ) (batch : List SpooledUsageEvent) (items : List BatchResult) (run : Flushing)
    → (apply_results now batch items run).spool.usage_events
      ≡ remaining (map (subject batch) items) run.spool.usage_events
unfolding apply_results
apply_results-events now batch [] run = refl
apply_results-events now batch (item ∷ items) run =
    apply_results-events now batch items (apply_named now item (subject batch item) run)
    ∙ ap (remaining (map (subject batch) items))
        (apply_named-events now item (subject batch item) run)

-- The events that the flush has dealt with or has still to deal with.
abbrev pub total : Flushing → ℕ
total run = length run.spool.usage_events + (run.delivered + length run.spool.usage_rejected)

length-copy :
    (reason : List ℕ) (now : ℕ) (row : EventRow) (rows : List RejectedRow)
    → any (has_rejected_id row.event_id) rows ≡ false
    → length (copy_rejected reason now (some row) rows) ≡ length rows + 1
unfolding copy_rejected
length-copy reason now row rows h = rw h (length-append rows _)

module _ (id : ℕ) (reason : List ℕ) (now : ℕ) (spool : Spool) (inv : Inv spool) where
  found_total :
      (row : EventRow)
      → find (has_event_id id) spool.usage_events ≡ some row
      → length (delete_event id spool.usage_events)
          + length (copy_rejected reason now (some row) spool.usage_rejected)
        ≡ length spool.usage_events + length spool.usage_rejected
  found_total row e =
      let here = any-find (has_event_id id) spool.usage_events row e in
      let same : row.event_id ≡ id =
        (==_iff row.event_id id).0 (find-test (has_event_id id) spool.usage_events row e) in
      let shorter : length (delete_event id spool.usage_events) + 1 ≡ length spool.usage_events =
        rw here at (length-delete id spool.usage_events inv.unique) in
      omega (
        arith,
        shorter,
        length-copy reason now row spool.usage_rejected (rw same (inv.apart id here)),
      )

  rejected_total :
      (o : Option EventRow)
      → find (has_event_id id) spool.usage_events ≡ o
      → length (delete_event id spool.usage_events)
          + length (copy_rejected reason now o spool.usage_rejected)
        ≡ length spool.usage_events + length spool.usage_rejected
  unfolding copy_rejected
  rejected_total none e =
      let absent_here = any-find-none (has_event_id id) spool.usage_events e in
      rw (delete_absent id spool.usage_events absent_here) refl
  rejected_total (some row) e = found_total row e

  reject-total :
      length (reject id reason now spool).usage_events
        + length (reject id reason now spool).usage_rejected
      ≡ length spool.usage_events + length spool.usage_rejected
  unfolding reject remove_event
  reject-total = rejected_total _ refl

deliver-total :
    (id : ℕ) (run : Flushing)
    → Inv run.spool
    → Inv (deliver id run).spool × (total (deliver id run) ≡ total run)
unfolding acknowledge remove_event
deliver-total id run inv =
    (remove_event-Inv id run.spool inv, omega (arith, delete-le id run.spool.usage_events))

refuse-total :
    (now id : ℕ) (item : BatchResult) (run : Flushing)
    → Inv run.spool
    → Inv (refuse now id item run).spool × (total (refuse now id item run) ≡ total run)
refuse-total now id item run inv =
    let reason = reason_of item.code item.status in
    (
      (reject-promised id reason now run.spool inv).0,
      omega (arith, reject-total id reason now run.spool inv),
    )

apply_named-total :
    (now : ℕ) (item : BatchResult) (o : Option ℕ) (run : Flushing)
    → Inv run.spool
    → Inv (apply_named now item o run).spool × (total (apply_named now item o run) ≡ total run)
unfolding apply_named
apply_named-total now item none run inv = (inv, refl)
apply_named-total now item (some id) run inv = elim (Bool-cases (is_delivered item.status)) [
  | inl hit ↦ rw hit (deliver-total id run inv)
  | inr miss ↦ rw miss (refuse-total now id item run inv)
]

-- The results of a response keep the keys apart and lose no event.
pub apply_results-total :
    (now : ℕ) (batch : List SpooledUsageEvent) (items : List BatchResult) (run : Flushing)
    → Inv run.spool
    → Inv (apply_results now batch items run).spool
      × (total (apply_results now batch items run) ≡ total run)
unfolding apply_results
apply_results-total now batch [] run inv = (inv, refl)
apply_results-total now batch (item ∷ items) run inv =
    let (kept, same) = apply_named-total now item (subject batch item) run inv in
    let (kept', same') =
      apply_results-total now batch items (apply_named now item (subject batch item) run) kept in
    (kept', same' ∙ same)
