-- ===== src/Spool/View/Rejects.antt =====
-- A rejection moves the event from one table to the other.
use mathlib.Core.Path.{fun_ext}
use token_pilot.Base.{
  ℕ, ◌≡◌, refl, ◌∙◌, true, false, not, ◌&&◌, ◌||◌, Option, none, some, List, find, any, take, ◌==◌,
  if◌then◌else◌, Bool-cases, inl, inr, arith, ==_iff, ==-self, find-test,
}
use token_pilot.Base.Search.{any-append, find-append_one, find-append_miss, any-find}
use token_pilot.Spool.{
  EventRow, RejectedRow, Spool, has_event_id, has_rejected_id, remove_event, copy_rejected, reject,
}
use token_pilot.Spool.Invariant.{Inv, find-delete, any-delete, UniqueIds-delete}
use token_pilot.Spool.View.{standing, view, forgotten, turned_down, change}
use token_pilot.Spool.View.Steps.{remove_event-Inv, view-remove}

-- What the copy of a row adds to the rejected ones.
module _ (reason : List ℕ) (now : ℕ) (rows : List RejectedRow) (row : EventRow)
    (fresh : any (has_rejected_id row.event_id) rows ≡ false) where
  find-copy :
      (j : ℕ)
      → find (has_rejected_id j) (copy_rejected reason now (some row) rows) ≡ (
          if j == row.event_id
          then some (record {
            event_id = row.event_id;
            payload = row.payload;
            reason_code = take 120 reason;
            rejected_at = now;
          })
          else find (has_rejected_id j) rows)
  unfolding copy_rejected
  find-copy j = rw fresh (elim (Bool-cases (j == row.event_id)) [
    | inl hit ↦
        let same : j ≡ row.event_id = (==_iff j row.event_id).0 hit in
        let here : (row.event_id == j) ≡ true = ground arith in
        rw hit (find-append_one (has_rejected_id j) rows _ (rw same fresh) ∙ rw here refl)
    | inr miss ↦ rw miss (find-append_miss (has_rejected_id j) rows _ (ground arith))
  ])

  any-copy :
      (j : ℕ)
      → any (has_rejected_id j) (copy_rejected reason now (some row) rows)
        ≡ (any (has_rejected_id j) rows || j == row.event_id)
  unfolding copy_rejected
  any-copy j = rw fresh (any-append (has_rejected_id j) rows _ ∙ ground arith)

module _ (id : ℕ) (reason : List ℕ) (now : ℕ) (spool : Spool) (inv : Inv spool) where
  abbrev copied : Option EventRow → Spool
  copied o =
      remove_event id
        (record spool { usage_rejected = copy_rejected reason now o spool.usage_rejected })

  fresh_of :
      (row : EventRow)
      → find (has_event_id id) spool.usage_events ≡ some row
      → (row.event_id ≡ id) × (any (has_rejected_id row.event_id) spool.usage_rejected ≡ false)
  fresh_of row e =
      let same : row.event_id ≡ id =
        (==_iff row.event_id id).0 (find-test (has_event_id id) spool.usage_events row e) in
      (same, rw same (inv.apart id (any-find (has_event_id id) spool.usage_events row e)))

  copied-Inv :
      (o : Option EventRow) → find (has_event_id id) spool.usage_events ≡ o → Inv (copied o)
  unfolding remove_event copy_rejected
  copied-Inv none e = remove_event-Inv id spool inv
  copied-Inv (some row) e =
      let (same, fresh) = fresh_of row e in
      record {
        unique = UniqueIds-delete id spool.usage_events inv.unique;
        apart = λ j h.
            let h' : (not (j == id) && any (has_event_id j) spool.usage_events) ≡ true =
              rw (any-delete id j spool.usage_events) at h in
            let kept = inv.apart j (ground arith) in
            any-copy reason now spool.usage_rejected row fresh j ∙ ground arith;
      }

  unchanged :
      (j : ℕ) (o : Option EventRow) (r : Option RejectedRow)
      → (j ≡ id → o ≡ none)
      → (if j == id then forgotten (standing o r) else standing o r)
        ≡ (if j == id then turned_down reason (standing o r) else standing o r)
  unchanged j none none h = refl
  unchanged j none (some row) h = refl
  unchanged j (some row) r h = elim (Bool-cases (j == id)) [
    | inl hit ↦ let none_here = h ((==_iff j id).0 hit) in cc
    | inr miss ↦ rw miss refl
  ]

  moved :
      (row : EventRow) (j : ℕ)
      → find (has_event_id id) spool.usage_events ≡ some row
      → row.event_id ≡ id
      → any (has_rejected_id row.event_id) spool.usage_rejected ≡ false
      → view (copied (some row)) j ≡ change id (turned_down reason) (view spool) j
  unfolding view remove_event
  moved row j e same fresh =
      rw
        (
          find-delete id j spool.usage_events,
          find-copy reason now spool.usage_rejected row fresh j,
          same,
        )
        (elim (Bool-cases (j == id)) [
          | inl hit ↦ rw ((==_iff j id).0 hit, e, ==-self id) refl
          | inr miss ↦ rw miss refl
        ])

  copied-view :
      (o : Option EventRow)
      → find (has_event_id id) spool.usage_events ≡ o
      → view (copied o) ≡ change id (turned_down reason) (view spool)
  unfolding view remove_event copy_rejected
  copied-view none e = view-remove id spool inv ∙ fun_ext (λ j. unchanged j _ _ (λ same. rw same e))
  copied-view (some row) e =
      let (same, fresh) = fresh_of row e in fun_ext (λ j. moved row j e same fresh)

  pub reject-promised :
      Inv (reject id reason now spool)
      × (view (reject id reason now spool) ≡ change id (turned_down reason) (view spool))
  unfolding reject
  reject-promised = (copied-Inv _ refl, copied-view _ refl)
