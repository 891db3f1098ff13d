-- ===== src/Spool/View/Refines.antt =====
-- Any sequence of calls of the spool does what it promises.
use mathlib.Core.Path.{fun_ext, ap₂}
use token_pilot.Base.{
  ℕ, ◌+◌, ◌≡◌, refl, ap, Bool, true, false, not, ◌||◌, Option, none, some, List, [], ◌∷◌, ◌++◌,
  find, any, ltb, ◌==◌, Bool-cases, inl, inr, arith, ==_iff, ==-self, or-false,
}
use token_pilot.Base.Search.{any-find-none, any-append, find-append_one, find-append_miss, any-find}
use token_pilot.Spool.{
  UsageEvent, EventRow, RejectedRow, Spool, has_event_id, has_rejected_id, known, insert_event,
  enqueue, enqueue_new,
}
use token_pilot.Spool.Invariant.{Inv, UniqueIds-append}
use token_pilot.Spool.View.{
  Standing, pending_as, standing, view, change, is_absent, Call, enqueue_call, acknowledge_call,
  reject_call, Answer, was_added, enqueue_answer, perform, promised, perform_all, promised_all,
}
use token_pilot.Spool.View.Steps.{acknowledge-promised}
use token_pilot.Spool.View.Rejects.{reject-promised}

known_of :
    (id : ℕ) (spool : Spool) (o : Option EventRow) (r : Option RejectedRow)
    → find (has_event_id id) spool.usage_events ≡ o
    → find (has_rejected_id id) spool.usage_rejected ≡ r
    → known id spool ≡ not (is_absent (standing o r))
unfolding known
known_of id spool (some row) r e e' = rw (any-find (has_event_id id) spool.usage_events row e) refl
known_of id spool none (some row) e e' =
    rw (any-find (has_rejected_id id) spool.usage_rejected row e') (ground arith)
known_of id spool none none e e' =
    rw
      (
        any-find-none (has_event_id id) spool.usage_events e,
        any-find-none (has_rejected_id id) spool.usage_rejected e',
      )
      refl

pub known-absent : (id : ℕ) (spool : Spool) → known id spool ≡ not (is_absent (view spool id))
unfolding view
known-absent id spool = known_of id spool _ _ refl refl

-- A row with a new identifier.
module _ (row : EventRow) (spool : Spool) (inv : Inv spool)
    (new : any (has_event_id row.event_id) spool.usage_events ≡ false)
    (new' : any (has_rejected_id row.event_id) spool.usage_rejected ≡ false) where
  abbrev added : Spool
  added = record spool { usage_events = spool.usage_events ++ (row ∷ []) }

  added-Inv : Inv added
  added-Inv = record {
    unique = UniqueIds-append spool.usage_events row new inv.unique;
    apart = λ j h.
        let h' : (any (has_event_id j) spool.usage_events || any (has_event_id j) (row ∷ []))
            ≡ true =
          rw (any-append (has_event_id j) spool.usage_events (row ∷ [])) at h in
        elim (Bool-cases (row.event_id == j)) [
          | inl hit ↦ let same = (==_iff row.event_id j).0 hit in rw (← same) new'
          | inr miss ↦ inv.apart j (ground arith)
        ];
  }

  added_at :
      (j : ℕ) → view added j ≡ change row.event_id (λ _. pending_as row.payload) (view spool) j
  unfolding view
  added_at j = elim (Bool-cases (j == row.event_id)) [
    | inl hit ↦
        let same : j ≡ row.event_id = (==_iff j row.event_id).0 hit in
        rw
          (
            same,
            find-append_one (has_event_id row.event_id) spool.usage_events row new,
            ==-self row.event_id,
          )
          refl
    | inr miss ↦
        let off : (row.event_id == j) ≡ false = ground arith in
        rw (find-append_miss (has_event_id j) spool.usage_events row off, miss) refl
  ]

-- What a call leaves and answers, beside what it promises.
abbrev Kept : Answer × Spool → Answer × (ℕ → Standing) → Type 0
Kept (answer, spool) (answer', m) = Inv spool × (answer ≡ answer') × (view spool ≡ m)

module _ (schema_accepts : UsageEvent → Bool) (byte_length : List ℕ → ℕ) (maximum_bytes : ℕ) where
  abbrev step : Call → Spool → Answer × Spool
  step = perform schema_accepts byte_length maximum_bytes

  abbrev promise : Call → (ℕ → Standing) → Answer × (ℕ → Standing)
  promise = promised schema_accepts byte_length maximum_bytes

  new_row :
      (row : EventRow) (spool : Spool)
      → Inv spool
      → known row.event_id spool ≡ false
      → Kept
          (enqueue_answer spool (insert_event row spool))
          (was_added true, change row.event_id (λ _. pending_as row.payload) (view spool))
  unfolding known insert_event
  new_row row spool inv h =
      let (new, new') =
        or-false (any (has_event_id row.event_id) spool.usage_events)
          (any (has_rejected_id row.event_id) spool.usage_rejected) h in
      rw new (added-Inv row spool inv new new', refl, fun_ext (added_at row spool inv new new'))

  enqueue-promised :
      (current now : ℕ) (event : UsageEvent) (spool : Spool)
      → Inv spool
      → Kept
          (step (enqueue_call current now event) spool)
          (promise (enqueue_call current now event) (view spool))
  unfolding enqueue enqueue_new perform promised
  enqueue-promised current now event spool inv = elim (Bool-cases (schema_accepts event)) [
    | inr bad ↦ rw bad (inv, refl, refl)
    | inl good ↦
        rw (good, ← known-absent event.event_id spool)
          (elim (Bool-cases (known event.event_id spool)) [
            | inl old ↦ rw old (inv, refl, refl)
            | inr new ↦
                rw new (elim (Bool-cases (ltb maximum_bytes (current + byte_length event.text))) [
                  | inl over ↦ rw over (inv, refl, refl)
                  | inr room ↦ rw room (new_row _ spool inv new)
                ])
          ])
  ]

  perform-promised :
      (call : Call) (spool : Spool) → Inv spool → Kept (step call spool) (promise call (view spool))
  unfolding perform promised
  perform-promised (enqueue_call current now event) spool inv =
      enqueue-promised current now event spool inv
  perform-promised (acknowledge_call ids) spool inv =
      let (kept, n, seen) = acknowledge-promised ids spool inv in (kept, ap Answer.removed n, seen)
  perform-promised (reject_call id reason now) spool inv =
      let (kept, seen) = reject-promised id reason now spool inv in (kept, refl, seen)

  -- From a spool whose tables share no identifier, any sequence of calls gives the answers, and
  -- leaves each identifier with the standing, that the calls promise: an event is added while it is
  -- absent and the files have room, an acknowledgement makes the pending events absent and counts
  -- them, and a rejection turns a pending event into a rejected one. The tables still share no
  -- identifier.
  pub perform_all-Refines :
      (calls : List Call) (spool : Spool)
      → Inv spool
      → Inv (perform_all schema_accepts byte_length maximum_bytes calls spool).1
        × ((perform_all schema_accepts byte_length maximum_bytes calls spool).0
            ≡ (promised_all schema_accepts byte_length maximum_bytes calls (view spool)).0)
        × (view (perform_all schema_accepts byte_length maximum_bytes calls spool).1
            ≡ (promised_all schema_accepts byte_length maximum_bytes calls (view spool)).1)
  unfolding perform_all promised_all
  perform_all-Refines [] spool inv = (inv, refl, refl)
  perform_all-Refines (call ∷ calls) spool inv =
      let (kept, same, seen) = perform-promised call spool inv in
      let (kept', answers, seen') = perform_all-Refines calls (step call spool).1 kept in
      (kept', ap₂ (λ a b. a ∷ b) same (rw seen at answers), rw seen at seen')
