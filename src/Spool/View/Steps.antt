-- ===== src/Spool/View/Steps.antt =====
-- Each call keeps the keys apart and does to its identifiers what it promises.
use mathlib.Core.Path.{fun_ext, ap₂}
use mathlib.Core.Bool.{true≢false}
use token_pilot.Base.{
  ℕ, ◌+◌, ◌≡◌, refl, sym, ◌∙◌, true, not, ◌&&◌, Option, none, some, List, [], ◌∷◌, find, any, ◌==◌,
  if◌then◌else◌, Bool-cases, inl, inr, arith,
}
use token_pilot.Base.Search.{any-find, find-any}
use token_pilot.Spool.{
  EventRow, RejectedRow, Spool, has_event_id, has_rejected_id, remove_event, changes, acknowledge,
}
use token_pilot.Spool.Invariant.{Inv, find-delete, any-delete, length-delete, UniqueIds-delete}
use token_pilot.Spool.View.{standing, view, pending_count, forgotten, change, promised_acknowledge}

none_pending : (r : Option RejectedRow) → pending_count (standing none r) ≡ 0
none_pending none = refl
none_pending (some row) = refl

-- A removal of an identifier.
module _ (id : ℕ) (spool : Spool) (inv : Inv spool) where
  pub remove_event-Inv : Inv (remove_event id spool)
  unfolding remove_event
  remove_event-Inv = record {
    unique = UniqueIds-delete id spool.usage_events inv.unique;
    apart = λ j h.
        let h' : (not (j == id) && any (has_event_id j) spool.usage_events) ≡ true =
          rw (any-delete id j spool.usage_events) at h in
        inv.apart j (ground arith);
  }

  pub changes-remove :
      changes spool (remove_event id spool)
      ≡ (if any (has_event_id id) spool.usage_events then 1 else 0)
  unfolding remove_event
  changes-remove = omega (arith, length-delete id spool.usage_events inv.unique)

  removed_standing :
      (j : ℕ) (o : Option EventRow) (r : Option RejectedRow)
      → find (has_event_id j) spool.usage_events ≡ o
      → find (has_rejected_id j) spool.usage_rejected ≡ r
      → standing (if j == id then none else o) r
        ≡ (if j == id then forgotten (standing o r) else standing o r)
  removed_standing j none none e e' = ground arith
  removed_standing j none (some row) e e' = ground arith
  removed_standing j (some row) none e e' = ground arith
  removed_standing j (some row) (some row') e e' =
      let here = any-find (has_event_id j) spool.usage_events row e in
      let there = any-find (has_rejected_id j) spool.usage_rejected row' e' in
      absurd (true≢false (sym there ∙ inv.apart j here))

  pub view-remove : view (remove_event id spool) ≡ change id forgotten (view spool)
  unfolding view remove_event
  view-remove =
      fun_ext (λ j. rw (find-delete id j spool.usage_events) (removed_standing j _ _ refl refl))

  pending_changes :
      (o : Option EventRow) (r : Option RejectedRow)
      → find (has_event_id id) spool.usage_events ≡ o
      → (if any (has_event_id id) spool.usage_events then 1 else 0) ≡ pending_count (standing o r)
  pending_changes (some row) r e = rw (any-find (has_event_id id) spool.usage_events row e) refl
  pending_changes none r e = elim (Bool-cases (any (has_event_id id) spool.usage_events)) [
    | inl hit ↦ let (row, e') = find-any (has_event_id id) spool.usage_events hit in cc
    | inr miss ↦ rw miss (sym (none_pending r))
  ]

  pub changes-pending_count : changes spool (remove_event id spool) ≡ pending_count (view spool id)
  unfolding view
  changes-pending_count = changes-remove ∙ pending_changes _ _ refl

pub acknowledge-promised :
    (ids : List ℕ) (spool : Spool)
    → Inv spool
    → Inv (acknowledge ids spool).1
      × ((acknowledge ids spool).0 ≡ (promised_acknowledge ids (view spool)).0)
      × (view (acknowledge ids spool).1 ≡ (promised_acknowledge ids (view spool)).1)
unfolding acknowledge promised_acknowledge
acknowledge-promised [] spool inv = (inv, refl, refl)
acknowledge-promised (id ∷ ids) spool inv =
    let (kept, n, seen) =
      acknowledge-promised ids (remove_event id spool) (remove_event-Inv id spool inv) in
    let here = view-remove id spool inv in
    (kept, ap₂ (λ a b. a + b) (changes-pending_count id spool inv) (rw here at n), rw here at seen)
