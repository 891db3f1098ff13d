-- ===== src/Pipeline/Once/Calls.antt =====
-- Each call of a worker keeps the invariant.
use token_pilot.Base.{ℕ, ◌+◌, ◌≡◌, ◌≢◌, refl, ◌∙◌, true, false, List, arith}
use token_pilot.Pipeline.{
  PipelineStage, is_before, InboxStatus, InboxRow, InboxLease, Database, OutboxMessage,
}
use token_pilot.Pipeline.Errors.{PipelineFailure}
use token_pilot.Pipeline.Inbox.{Answer, ok, is_leased}
use token_pilot.Pipeline.Inbox.Calls.{
  advance, CommitTimes, commit_official, complete, retry, dead_letter,
}
use token_pilot.Pipeline.Rows.{Rewrite, advance-Advanced}
use token_pilot.Pipeline.Rows.Commit.{commit_official-Committed}
use token_pilot.Pipeline.Rows.Closing.{complete-Rewrite, retry-Rewrite, dead_letter-Rewrite}
use token_pilot.Pipeline.Once.{
  Consistent, Counted, Counted-le, Counted-now, InSync, Rewrite-Consistent, Rewrite-InSync_closed,
  Rewrite-InSync_other, Rewrite-InSync_self, after_commit, before_commit, commit_lem, failed-fits,
  fits, fits_now, stage_now, target-fits,
}

-- What a call for a lease keeps: the invariant, its own lease in step, and those of other owners.
pub record Keeps (lease lease' : InboxLease) (db db' : Database) : Type 0 where
  pub consistent : Consistent db'
  pub in_sync : InSync lease' db'
  pub same_id : lease'.id ≡ lease.id
  pub same_owner : lease'.lease_owner ≡ lease.lease_owner
  pub others_in_sync :
      (other : InboxLease)
      → other.lease_owner ≢ lease.lease_owner
      → InSync other db
      → InSync other db'

module _ (lease : InboxLease) (db : Database) (c : Consistent db) (sync : InSync lease db) where
  pub advance-Keeps :
      (now duration : ℕ) (target : PipelineStage) (lease' : InboxLease) (db' : Database)
      → is_before lease.stage target ≡ true
      → is_before target PipelineStage.official_committed ≡ true
      → advance now duration lease target db ≡ ok (lease', db')
      → Keeps lease lease' db db'
  advance-Keeps now duration target lease' db' behind early h =
      let a = advance-Advanced now duration lease lease' target db db' h in
      let r = a.rewrite in
      let row = a.row in
      let stage_eq = stage_now lease row _ _ _ db db' r sync in
      record {
        consistent =
            Rewrite-Consistent lease row _ _ _ db db' r c
              (before_commit row.stage target (db.settled lease.id) (rw stage_eq behind) early
                (Counted-now lease row _ _ _ db db' r c))
              (target-fits target early);
        in_sync =
            Rewrite-InSync_self lease row _ _ _ db db' r lease'
              (a.lease_id ∙ (c lease.id row r.found).keyed) a.lease_stage;
        same_id = a.lease_id ∙ (c lease.id row r.found).keyed;
        same_owner = a.lease_owner;
        others_in_sync = Rewrite-InSync_other lease row _ _ _ db db' r;
      }

  pub commit-Keeps :
      {A : Type 0} (times : CommitTimes) (duration application_id : ℕ)
      (written : Answer (List OutboxMessage × A)) (base : Answer (List OutboxMessage))
      (lease' : InboxLease) (report : A) (db' : Database)
      → is_before lease.stage PipelineStage.outbox_created ≡ true
      → commit_official times duration lease application_id written base db
        ≡ ok ((lease', report), db')
      → Keeps lease lease' db db' × (lease'.stage ≡ PipelineStage.outbox_created)
  commit-Keeps times duration application_id written base lease' report db' behind h =
      let (row, r, same_id, same_owner, same_stage) =
        commit_official-Committed times duration lease lease' application_id written base report db
          db' (λ k row e. (c k row e).keyed) h in
      let stage_eq = stage_now lease row _ _ _ db db' r sync in
      let none_yet : db.settled lease.id ≡ 0 =
        commit_lem row.stage (db.settled lease.id) (rw stage_eq behind)
          (Counted-now lease row _ _ _ db db' r c) in
      (
        record {
          consistent =
              Rewrite-Consistent lease row _ _ _ db db' r c (rw none_yet (omega arith)) refl;
          in_sync =
              Rewrite-InSync_self lease row _ _ _ db db' r lease'
                (same_id ∙ (c lease.id row r.found).keyed) same_stage;
          same_id = same_id ∙ (c lease.id row r.found).keyed;
          same_owner = same_owner;
          others_in_sync = Rewrite-InSync_other lease row _ _ _ db db' r;
        },
        same_stage,
      )

  closed-Keeps :
      (row : InboxRow) (status : InboxStatus) (stage : PipelineStage) (db' : Database)
      → Rewrite lease row status stage 0 db db'
      → is_leased status ≡ false
      → Counted stage (db.settled lease.id)
      → fits status stage ≡ true
      → Keeps lease lease db db'
  closed-Keeps row status stage db' r closed counted fitting = record {
    consistent =
        Rewrite-Consistent lease row status stage 0 db db' r c
          (let e : db.settled lease.id + 0 ≡ db.settled lease.id = omega arith in rw e counted)
          fitting;
    in_sync = Rewrite-InSync_closed lease row status stage 0 db db' r closed lease sync;
    same_id = refl;
    same_owner = refl;
    others_in_sync = Rewrite-InSync_other lease row status stage 0 db db' r;
  }

  -- A completion is called when the row has its outbox messages.
  pub complete-Keeps :
      (now ttl_days : ℕ) (db' : Database)
      → is_before lease.stage PipelineStage.outbox_created ≡ false
      → complete now ttl_days lease db ≡ ok (tt, db')
      → Keeps lease lease db db'
  complete-Keeps now ttl_days db' ahead h =
      let (row, r) = complete-Rewrite now ttl_days lease db db' h in
      closed-Keeps row _ _ db' r refl
        (after_commit row.stage (db.settled lease.id)
          (rw (stage_now lease row _ _ _ db db' r sync) ahead) (fits_now lease row _ _ _ db db' r c)
          (Counted-now lease row _ _ _ db db' r c))
        refl

  pub retry-Keeps :
      (now retry_at : ℕ) (failure : PipelineFailure) (db' : Database)
      → retry now lease failure retry_at db ≡ ok (tt, db')
      → Keeps lease lease db db'
  retry-Keeps now retry_at failure db' h =
      let (row, r) = retry-Rewrite now lease failure db db' retry_at h in
      closed-Keeps row _ _ db' r refl (Counted-now lease row _ _ _ db db' r c)
        (failed-fits row.stage (fits_now lease row _ _ _ db db' r c))

  pub dead_letter-Keeps :
      (now id : ℕ) (failure : PipelineFailure) (db' : Database)
      → dead_letter now id lease failure db ≡ ok (tt, db')
      → Keeps lease lease db db'
  dead_letter-Keeps now id failure db' h =
      let (row, r) = dead_letter-Rewrite now lease failure db db' id h in
      closed-Keeps row _ _ db' r refl
        (Counted-le row.stage (db.settled lease.id) (Counted-now lease row _ _ _ db db' r c)) refl
