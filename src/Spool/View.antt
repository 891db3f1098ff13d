-- ===== src/Spool/View.antt =====
-- What the spool promises: each identifier is absent, pending or rejected, and the calls of the
-- spool change that, whatever the order of its rows.
pub mod Steps
pub mod Rejects
pub mod Refines
use token_pilot.Base.{
  ℕ, ◌+◌, Bool, true, false, not, Option, none, some, List, [], ◌∷◌, find, take, ltb, ◌==◌,
  if◌then◌else◌,
}
use token_pilot.Spool.{
  UsageEvent, EventRow, RejectedRow, Spool, Enqueued, answered, invalid_event, capacity_error,
  has_event_id, has_rejected_id, enqueue, acknowledge, reject,
}

pub data Standing : Type 0 where
  absent : Standing
  pending_as : UsageEvent → Standing
  rejected_as : UsageEvent → List ℕ → Standing

abbrev pub standing : Option EventRow → Option RejectedRow → Standing
standing (some row) rejected = pending_as row.payload
standing none (some row) = rejected_as row.payload row.reason_code
standing none none = absent

unfoldable pub view : Spool → ℕ → Standing
view spool id =
    standing (find (has_event_id id) spool.usage_events)
      (find (has_rejected_id id) spool.usage_rejected)

pub data Call : Type 0 where
  enqueue_call : ℕ → ℕ → UsageEvent → Call
  acknowledge_call : List ℕ → Call
  reject_call : ℕ → List ℕ → ℕ → Call

pub data Answer : Type 0 where
  was_added : Bool → Answer
  refused_event : Answer
  over_capacity : ℕ → ℕ → Answer
  removed : ℕ → Answer
  done : Answer

abbrev pub is_absent : Standing → Bool
is_absent absent = true
is_absent _ = false

abbrev pub pending_count : Standing → ℕ
pending_count (pending_as event) = 1
pending_count _ = 0

abbrev pub forgotten : Standing → Standing
forgotten (pending_as event) = absent
forgotten other = other

abbrev pub turned_down : List ℕ → Standing → Standing
turned_down reason (pending_as event) = rejected_as event (take 120 reason)
turned_down reason other = other

abbrev pub change : ℕ → (Standing → Standing) → (ℕ → Standing) → ℕ → Standing
change id f m j = if j == id then f (m j) else m j

unfoldable pub promised_acknowledge : List ℕ → (ℕ → Standing) → ℕ × (ℕ → Standing)
promised_acknowledge [] m = (0, m)
promised_acknowledge (id ∷ ids) m =
    let (rest, left) = promised_acknowledge ids (change id forgotten m) in
    (pending_count (m id) + rest, left)

abbrev pub enqueue_answer : Spool → Enqueued → Answer × Spool
enqueue_answer spool (answered b left) = (was_added b, left)
enqueue_answer spool invalid_event = (refused_event, spool)
enqueue_answer spool (capacity_error current maximum) = (over_capacity current maximum, spool)

module _ (schema_accepts : UsageEvent → Bool) (byte_length : List ℕ → ℕ) (maximum_bytes : ℕ) where
  -- One call of the spool. One that throws leaves the spool as it was.
  unfoldable pub perform : Call → Spool → Answer × Spool
  perform (enqueue_call current now event) spool =
      enqueue_answer spool
        (enqueue schema_accepts byte_length maximum_bytes current now event spool)
  perform (acknowledge_call ids) spool = let (n, left) = acknowledge ids spool in (removed n, left)
  perform (reject_call id reason now) spool = (done, reject id reason now spool)

  -- What the call promises of the identifiers.
  unfoldable pub promised : Call → (ℕ → Standing) → Answer × (ℕ → Standing)
  promised (enqueue_call current now event) m =
      if not (schema_accepts event)
      then (refused_event, m)
      else if not (is_absent (m event.event_id))
      then (was_added false, m)
      else if ltb maximum_bytes (current + byte_length event.text)
      then (over_capacity current maximum_bytes, m)
      else (was_added true, change event.event_id (λ _. pending_as event) m)
  promised (acknowledge_call ids) m =
      let (n, left) = promised_acknowledge ids m in (removed n, left)
  promised (reject_call id reason now) m = (done, change id (turned_down reason) m)

  unfoldable pub perform_all : List Call → Spool → List Answer × Spool
  perform_all [] spool = ([], spool)
  perform_all (call ∷ calls) spool =
      let (answer, next) = perform call spool in
      let (answers, left) = perform_all calls next in (answer ∷ answers, left)

  unfoldable pub promised_all : List Call → (ℕ → Standing) → List Answer × (ℕ → Standing)
  promised_all [] m = ([], m)
  promised_all (call ∷ calls) m =
      let (answer, next) = promised call m in
      let (answers, left) = promised_all calls next in (answer ∷ answers, left)
