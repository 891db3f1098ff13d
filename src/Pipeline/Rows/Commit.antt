-- ===== src/Pipeline/Rows/Commit.antt =====
-- What a commit does to the row of a lease.
use token_pilot.Base.{ℕ, ◌+◌, ◌≡◌, refl, ◌∙◌, ap, Option, none, some, List, arith}
use token_pilot.Pipeline.{PipelineStage, InboxStatus, InboxRow, InboxLease, Database, OutboxMessage}
use token_pilot.Pipeline.Inbox.{Answer, ok, thrown, ◌>>=◌, owned_row, >>=-ok}
use token_pilot.Pipeline.Inbox.Calls.{
  advance, CommitTimes, settle, create_outboxes, commit_locked, commit_official,
}
use token_pilot.Pipeline.Rows.{Rewrite, advance-Advanced}

-- One rewrite after another of the same row, by leases of the same owner.
module _ (lease lease1 : InboxLease) (row row1 : InboxRow) (status1 status : InboxStatus)
    (stage1 stage : PipelineStage) (n m : ℕ) (db db1 mid db2 : Database)
    (first : Rewrite lease row status1 stage1 n db db1) (inbox_eq : mid.inbox ≡ db1.inbox)
    (settled_eq : mid.settled ≡ db1.settled) (same : lease1.id ≡ lease.id)
    (then_ : Rewrite lease1 row1 status stage m mid db2) where
  middle_row : row1 ≡ first.row'
  middle_row =
      let a : db1.inbox lease.id ≡ some row1 = rw (same, inbox_eq) at then_.found in cc (first.here)

  Rewrite-trans : Rewrite lease row status stage (n + m) db db2
  Rewrite-trans = record {
    row' = then_.row';
    found = first.found;
    is_held = first.is_held;
    owner = first.owner;
    here = rw same at then_.here;
    same_id = then_.same_id ∙ rw middle_row first.same_id;
    same_owner = then_.same_owner ∙ rw middle_row first.same_owner;
    now_status = then_.now_status;
    now_stage = then_.now_stage;
    elsewhere = λ k off.
        then_.elsewhere k (λ e. off (e ∙ same)) ∙ (rw inbox_eq refl ∙ first.elsewhere k off);
    settled_here =
        let a : db2.settled lease.id ≡ mid.settled lease.id + m = rw same at then_.settled_here in
        let b : db2.settled lease.id ≡ db1.settled lease.id + m = rw settled_eq at a in
        omega (arith, first.settled_here);
    settled_elsewhere = λ k off.
        then_.settled_elsewhere k (λ e. off (e ∙ same))
        ∙ (rw settled_eq refl ∙ first.settled_elsewhere k off);
  }

-- A rewrite after the settlement was counted.
Rewrite-settle :
    (lease : InboxLease) (row : InboxRow) (status : InboxStatus) (stage : PipelineStage)
    (db db' : Database)
    → Rewrite lease row status stage 0 (settle lease.id db) db'
    → Rewrite lease row status stage 1 db db'
Rewrite-settle lease row status stage db db' r = record {
  row' = r.row';
  found = r.found;
  is_held = r.is_held;
  owner = r.owner;
  here = r.here;
  same_id = r.same_id;
  same_owner = r.same_owner;
  now_status = r.now_status;
  now_stage = r.now_stage;
  elsewhere = r.elsewhere;
  settled_here = ground (arith, r.settled_here);
  settled_elsewhere = λ k off. ground (arith, r.settled_elsewhere k off);
}

module _ {A : Type 0} (times : CommitTimes) (duration : ℕ) (lease lease' : InboxLease)
    (application_id : ℕ) (written : Answer (List OutboxMessage × A))
    (base : Answer (List OutboxMessage)) (report : A) (db db' : Database)
    (keyed : (k : ℕ) (r : InboxRow) → db.inbox k ≡ some r → r.id ≡ k) where
  -- What a commit leaves.
  abbrev Committed : Type 0
  Committed =
      (row : InboxRow) × Rewrite lease row InboxStatus.leased PipelineStage.outbox_created 1 db db'
      × (lease'.id ≡ row.id)
      × (lease'.lease_owner ≡ lease.lease_owner)
      × (lease'.stage ≡ PipelineStage.outbox_created)

  two_advances-Committed :
      (current : InboxLease) (db1 mid : Database)
      → advance times.committed_at duration lease PipelineStage.official_committed
          (settle lease.id db)
        ≡ ok (current, db1)
      → mid.inbox ≡ db1.inbox
      → mid.settled ≡ db1.settled
      → advance times.outbox_at duration current PipelineStage.outbox_created mid ≡ ok (lease', db')
      → Committed
  two_advances-Committed current db1 mid e2 inbox_eq settled_eq e4 =
      let first =
        advance-Advanced times.committed_at duration lease current PipelineStage.official_committed
          (settle lease.id db) db1 e2 in
      let second =
        advance-Advanced times.outbox_at duration current lease' PipelineStage.outbox_created mid
          db' e4 in
      let start = Rewrite-settle lease first.row _ _ db db1 first.rewrite in
      let same : current.id ≡ lease.id = first.lease_id ∙ keyed lease.id first.row start.found in
      let middle =
        middle_row lease current first.row second.row _ _ _ _ 1 0 db db1 mid db' start inbox_eq
          settled_eq same second.rewrite in
      (
        first.row,
        Rewrite-trans lease current first.row second.row _ _ _ _ 1 0 db db1 mid db' start inbox_eq
            settled_eq same second.rewrite,
        second.lease_id ∙ (ap (λ (r : InboxRow). r.id) middle ∙ start.same_id),
        second.lease_owner ∙ first.lease_owner,
        second.lease_stage,
      )

  last_answer :
      (r : Answer (InboxLease × Database)) (metrics : A)
      → ◌>>=◌ {B = (InboxLease × A) × Database} r (λ (final, db2). ok ((final, metrics), db2))
        ≡ ok ((lease', report), db')
      → r ≡ ok (lease', db')
  last_answer (ok (final, db2)) metrics h = cc
  last_answer (thrown e) metrics h = cc

  commit_locked-Committed :
      (o : Option InboxRow)
      → commit_locked times duration lease application_id written base db o
        ≡ ok ((lease', report), db')
      → Committed
  unfolding commit_locked
  commit_locked-Committed none h = cc
  commit_locked-Committed (some row) h =
      let ((further, metrics), e1, h1) = >>=-ok written _ ((lease', report), db') h in
      let ((current, db1), e2, h2) =
        >>=-ok
          (advance times.committed_at duration lease PipelineStage.official_committed
            (settle lease.id db))
          _ ((lease', report), db') h1 in
      let (messages, e3, h3) = >>=-ok base _ ((lease', report), db') h2 in
      let mid : Database = record db1 {
        outbox =
            create_outboxes application_id further
              (create_outboxes application_id messages db1.outbox);
      } in
      two_advances-Committed current db1 mid e2 refl refl (
        last_answer (advance times.outbox_at duration current PipelineStage.outbox_created mid)
          metrics h3)

  pub commit_official-Committed :
      commit_official times duration lease application_id written base db
        ≡ ok ((lease', report), db')
      → Committed
  unfolding commit_official
  commit_official-Committed h = commit_locked-Committed (owned_row times.locked_at lease db) h
