-- ===== src/Pipeline/Ends.antt =====
-- How an attempt of apps/worker/src/pipeline/processor.ts ends.
use token_pilot.Base.{ℕ, ◌+◌, ◌≡◌, ◌≤◌, true, some, List, ◌∷◌}
use token_pilot.Pipeline.{InboxStatus, InboxRow, Database, DeadLetterEvent, DeadLetterStatus}
use token_pilot.Pipeline.Inbox.{is_leased}
use token_pilot.Pipeline.Inbox.Calls.{CommitTimes, dead_letter}
use token_pilot.Pipeline.Once.{Consistent}
use token_pilot.Pipeline.Attempt.{OutcomeStatus, PipelineOutcome, Surroundings}
use token_pilot.Pipeline.Attempts.{Respects}

-- The worker no longer owned the row at an instant: the row is gone, or nobody holds it, or another
-- worker does, or the lease has run out or has no end.
abbrev pub Lost : ℕ → ℕ → ℕ → Database → Type 0
Lost now owner id db =
    (row : InboxRow) (expires_at : ℕ)
    → db.inbox id ≡ some row
    → is_leased row.status ≡ true
    → row.lease_owner ≡ some owner
    → row.lease_expires_at ≡ some expires_at
    → expires_at ≤ now

-- What the database holds of the row `id` when an attempt of `owner` that failed at `failed_at` has
-- ended. The store's clock may be read at each call.
abbrev pub Ended : (ℕ → CommitTimes) → ℕ → ℕ → ℕ → OutcomeStatus → Database → Type 0
Ended clock failed_at owner id OutcomeStatus.completed db =
    (row : InboxRow) × (db.inbox id ≡ some row)
    × (row.status ≡ InboxStatus.completed)
    × (db.settled id ≡ 1)
Ended clock failed_at owner id OutcomeStatus.retry_scheduled db =
    (row : InboxRow) × (db.inbox id ≡ some row)
    × (row.status ≡ InboxStatus.failed)
    × ((at : ℕ) × (row.next_retry_at ≡ some at) × (failed_at ≤ at) × (at ≤ failed_at + 300000000))
Ended clock failed_at owner id OutcomeStatus.dead_lettered db =
    (row : InboxRow) × (db.inbox id ≡ some row)
    × (row.status ≡ InboxStatus.dead_letter)
    × ((event : DeadLetterEvent) × (older : List DeadLetterEvent) × (db.dead_letters
          ≡ event ∷ older)
        × (event.inbox_id ≡ id)
        × (event.status ≡ DeadLetterStatus.open_))
Ended clock failed_at owner id OutcomeStatus.failed db =
    (call : ℕ) × Lost (clock call).locked_at owner id db

module _ {E N A R : Type 0} (u : Surroundings E N A R) (id owner : ℕ) (env : Respects u owner) where
  abbrev EndedSo : PipelineOutcome R × Database → Type 0
  EndedSo end = Consistent end.1 × Ended u.clock u.failed_at owner id end.0.status end.1
