-- ===== src/Spool/Invariant.antt =====
-- The keys of the spool's tables: no identifier stands in two rows.
use token_pilot.Base.{
  ℕ, ◌+◌, ◌≡◌, refl, true, false, not, ◌&&◌, none, List, [], ◌∷◌, ◌++◌, length, find, any, ◌==◌,
  if◌then◌else◌, Bool-cases, inl, inr, arith, ==_iff,
}
use token_pilot.Base.Search.{any-append}
use token_pilot.Spool.{EventRow, Spool, has_event_id, has_rejected_id, delete_event}

abbrev pub UniqueIds : List EventRow → Type 0
UniqueIds [] = Unit
UniqueIds (row ∷ rows) = (any (has_event_id row.event_id) rows ≡ false) × UniqueIds rows

-- No identifier has two rows, in one of the tables or in both.
pub record Inv (spool : Spool) : Type 0 where
  pub unique : UniqueIds spool.usage_events
  pub apart :
      (id : ℕ)
      → any (has_event_id id) spool.usage_events ≡ true
      → any (has_rejected_id id) spool.usage_rejected ≡ false

pub find-delete :
    (id j : ℕ) (rows : List EventRow)
    → find (has_event_id j) (delete_event id rows)
      ≡ (if j == id then none else find (has_event_id j) rows)
find-delete id j [] = ground arith
find-delete id j (row ∷ rows) = ground (arith, find-delete id j rows)

pub any-delete :
    (id j : ℕ) (rows : List EventRow)
    → any (has_event_id j) (delete_event id rows) ≡ (not (j == id) && any (has_event_id j) rows)
any-delete id j [] = ground arith
any-delete id j (row ∷ rows) = ground (arith, any-delete id j rows)

pub delete_absent :
    (id : ℕ) (rows : List EventRow)
    → any (has_event_id id) rows ≡ false
    → delete_event id rows ≡ rows
delete_absent id [] h = refl
delete_absent id (row ∷ rows) h = ground (arith, delete_absent id rows)

-- A removal deletes the one row that its key finds.
pub length-delete :
    (id : ℕ) (rows : List EventRow)
    → UniqueIds rows
    → length (delete_event id rows) + (if any (has_event_id id) rows then 1 else 0) ≡ length rows
length-delete id [] u = refl
length-delete id (row ∷ rows) (fresh, u) = elim (Bool-cases (row.event_id == id)) [
  | inl hit ↦
      let same : row.event_id ≡ id = (==_iff row.event_id id).0 hit in
      rw hit (rw (delete_absent id rows (rw same at fresh)) (omega arith))
  | inr miss ↦ rw miss (omega (arith, length-delete id rows u))
]

pub UniqueIds-delete :
    (id : ℕ) (rows : List EventRow) → UniqueIds rows → UniqueIds (delete_event id rows)
UniqueIds-delete id [] u = tt
UniqueIds-delete id (row ∷ rows) (fresh, u) = elim (Bool-cases (row.event_id == id)) [
  | inl hit ↦ rw hit (UniqueIds-delete id rows u)
  | inr miss ↦
      rw miss (
        (rw (any-delete id row.event_id rows) (rw fresh (ground arith))),
        UniqueIds-delete id rows u,
      )
]

pub UniqueIds-append :
    (rows : List EventRow) (row : EventRow)
    → any (has_event_id row.event_id) rows ≡ false
    → UniqueIds rows
    → UniqueIds (rows ++ (row ∷ []))
UniqueIds-append [] row fresh u = (refl, tt)
UniqueIds-append (r ∷ rows) row fresh (f, u) = (
  (rw (any-append (has_event_id r.event_id) rows (row ∷ [])) (rw f (ground arith))),
  UniqueIds-append rows row (ground arith) u,
)
