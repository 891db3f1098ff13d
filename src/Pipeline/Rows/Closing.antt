-- ===== src/Pipeline/Rows/Closing.antt =====
-- What the end of an attempt does to the row of a lease.
use token_pilot.Base.{ℕ, ◌≡◌, refl, Option, none, some, ◌∷◌}
use token_pilot.Base.Table.{put}
use token_pilot.Pipeline.{PipelineStage, InboxStatus, InboxRow, InboxLease, Database}
use token_pilot.Pipeline.Errors.{PipelineFailure}
use token_pilot.Pipeline.Inbox.{ok, owned_row, update_registry}
use token_pilot.Pipeline.Inbox.Calls.{
  complete_owned, complete, completed_row, retry_owned, retry, retried_row, dead_letter_owned,
  dead_letter, dead_row, resolve_queued, error_text, dead_letter_event,
}
use token_pilot.Pipeline.Rows.{Rewrite, rewritten, update_registry-inbox, update_registry-settled}

module _ (now ttl_days : ℕ) (lease : InboxLease) (db db' : Database) where
  complete_owned-Rewrite :
      (o : Option InboxRow)
      → owned_row now lease db ≡ o
      → complete_owned now ttl_days lease db o ≡ ok (tt, db')
      → (row : InboxRow) × Rewrite lease row InboxStatus.completed PipelineStage.completed 0 db db'
  unfolding complete_owned
  complete_owned-Rewrite none mine h = cc
  complete_owned-Rewrite (some row) mine h =
      let row' = completed_row now ttl_days row in
      let written =
        update_registry row.event_id lease.application_id
          (λ e. record e { processing_stage = PipelineStage.completed })
          (record db { inbox = put db.inbox lease.id row' }) in
      let left : resolve_queued now lease.id written ≡ db' = cc in
      (
        row,
        rewritten now lease db db' row row' mine (rw (← left) (update_registry-inbox _ _ _ _))
            (rw (← left) (update_registry-settled _ _ _ _)) refl refl _ _ refl refl,
      )

  pub complete-Rewrite :
      complete now ttl_days lease db ≡ ok (tt, db')
      → (row : InboxRow) × Rewrite lease row InboxStatus.completed PipelineStage.completed 0 db db'
  unfolding complete
  complete-Rewrite h = complete_owned-Rewrite (owned_row now lease db) refl h

module _ (now : ℕ) (lease : InboxLease) (failure : PipelineFailure) (db db' : Database) where
  retry_owned-Rewrite :
      (retry_at : ℕ) (o : Option InboxRow)
      → owned_row now lease db ≡ o
      → retry_owned lease failure retry_at db o ≡ ok (tt, db')
      → (row : InboxRow) × Rewrite lease row InboxStatus.failed row.stage 0 db db'
  unfolding retry_owned
  retry_owned-Rewrite retry_at none mine h = cc
  retry_owned-Rewrite retry_at (some row) mine h =
      let row' = retried_row retry_at (error_text failure) row in
      let left : record db { inbox = put db.inbox lease.id row' } ≡ db' = cc in
      (
        row,
        rewritten now lease db db' row row' mine (rw (← left) refl) (rw (← left) refl) refl refl _ _
            refl refl,
      )

  pub retry-Rewrite :
      (retry_at : ℕ)
      → retry now lease failure retry_at db ≡ ok (tt, db')
      → (row : InboxRow) × Rewrite lease row InboxStatus.failed row.stage 0 db db'
  unfolding retry
  retry-Rewrite retry_at h = retry_owned-Rewrite retry_at (owned_row now lease db) refl h

  dead_letter_owned-Rewrite :
      (id : ℕ) (o : Option InboxRow)
      → owned_row now lease db ≡ o
      → dead_letter_owned now id lease failure db o ≡ ok (tt, db')
      → (row : InboxRow) × Rewrite lease row InboxStatus.dead_letter PipelineStage.dead_letter 0 db
          db'
  unfolding dead_letter_owned
  dead_letter_owned-Rewrite id none mine h = cc
  dead_letter_owned-Rewrite id (some row) mine h =
      let row' = dead_row (error_text failure) row in
      let db1 = resolve_queued now lease.id db in
      let written =
        update_registry lease.event_id lease.application_id
          (λ e. record e {
            processing_stage = PipelineStage.dead_letter;
            last_error = some (error_text failure);
          })
          (record db1 {
            dead_letters = dead_letter_event id lease failure ∷ db1.dead_letters;
            inbox = put db1.inbox lease.id row';
          }) in
      let left : written ≡ db' = cc in
      (
        row,
        rewritten now lease db db' row row' mine (rw (← left) (update_registry-inbox _ _ _ _))
            (rw (← left) (update_registry-settled _ _ _ _)) refl refl _ _ refl refl,
      )

  pub dead_letter-Rewrite :
      (id : ℕ)
      → dead_letter now id lease failure db ≡ ok (tt, db')
      → (row : InboxRow) × Rewrite lease row InboxStatus.dead_letter PipelineStage.dead_letter 0 db
          db'
  unfolding dead_letter
  dead_letter-Rewrite id h = dead_letter_owned-Rewrite id (owned_row now lease db) refl h
