-- ===== src/Pipeline/Once.antt =====
-- The invariant of the inbox: the official settlement of a row is committed once from queueing to
-- completion, whichever workers process it.
pub mod Calls
use token_pilot.Base.{ℕ, ◌+◌, ◌≡◌, ◌≢◌, ◌≤◌, sym, ◌∙◌, Bool, true, false, some, not, arith}
use native.Mathlib.Decide.{ℕ_discrete}
use token_pilot.Pipeline.{PipelineStage, is_before, InboxStatus, InboxRow, InboxLease, Database}
use token_pilot.Pipeline.Inbox.{is_leased, is_finished}
use token_pilot.Pipeline.Inbox.Calls.{dead_letter}
use token_pilot.Pipeline.Rows.{Rewrite}

-- Before its commit a row has no settlement, after it one. No transaction leaves a row between the
-- commit and the outbox.
abbrev pub Counted : PipelineStage → ℕ → Type 0
Counted PipelineStage.received n = n ≡ 0
Counted PipelineStage.normalized n = n ≡ 0
Counted PipelineStage.model_resolved n = n ≡ 0
Counted PipelineStage.provider_cost_rated n = n ≡ 0
Counted PipelineStage.aiu_rated n = n ≡ 0
Counted PipelineStage.quota_settled n = n ≡ 0
Counted PipelineStage.official_committed n = ⊥
Counted PipelineStage.outbox_created n = n ≡ 1
Counted PipelineStage.completed n = n ≡ 1
Counted PipelineStage.dead_letter n = n ≤ 1

-- The status and the stage end together.
abbrev pub fits : InboxStatus → PipelineStage → Bool
fits InboxStatus.pending stage = not (is_finished stage)
fits InboxStatus.leased stage = not (is_finished stage)
fits InboxStatus.failed stage = not (is_finished stage)
fits InboxStatus.completed PipelineStage.completed = true
fits InboxStatus.completed stage = false
fits InboxStatus.dead_letter PipelineStage.dead_letter = true
fits InboxStatus.dead_letter stage = false

pub record RowOk (k : ℕ) (row : InboxRow) (n : ℕ) : Type 0 where
  pub keyed : row.id ≡ k
  pub counted : Counted row.stage n
  pub fitting : fits row.status row.stage ≡ true

abbrev pub Consistent : Database → Type 0
Consistent db = (k : ℕ) (row : InboxRow) → db.inbox k ≡ some row → RowOk k row (db.settled k)

-- While the lease owns its row, it has the row's stage.
abbrev pub InSync : InboxLease → Database → Type 0
InSync lease db =
    (row : InboxRow)
    → db.inbox lease.id ≡ some row
    → is_leased row.status ≡ true
    → row.lease_owner ≡ some lease.lease_owner
    → row.stage ≡ lease.stage

-- The stages before the commit.
pub commit_lem :
    (stage : PipelineStage) (n : ℕ)
    → is_before stage PipelineStage.outbox_created ≡ true
    → Counted stage n
    → n ≡ 0
commit_lem stage n h c = ground arith

pub before_commit :
    (stage target : PipelineStage) (n : ℕ)
    → is_before stage target ≡ true
    → is_before target PipelineStage.official_committed ≡ true
    → Counted stage n
    → Counted target (n + 0)
before_commit stage target n h t c =
    let zero_yet : n ≡ 0 = commit_lem stage n (ground arith) c in rw zero_yet (early target t)
  where
    early : (s : PipelineStage) → is_before s PipelineStage.official_committed ≡ true → Counted s 0
    early s e = ground arith

pub target-fits :
    (target : PipelineStage)
    → is_before target PipelineStage.official_committed ≡ true
    → fits InboxStatus.leased target ≡ true
target-fits target h = ground arith

pub after_commit :
    (stage : PipelineStage) (n : ℕ)
    → is_before stage PipelineStage.outbox_created ≡ false
    → fits InboxStatus.leased stage ≡ true
    → Counted stage n
    → n ≡ 1
after_commit stage n h f c = ground arith

pub Counted-le : (stage : PipelineStage) (n : ℕ) → Counted stage n → n ≤ 1
Counted-le stage n c = ground arith

leased-fits :
    (status : InboxStatus) (stage : PipelineStage)
    → is_leased status ≡ true
    → fits status stage ≡ true
    → fits InboxStatus.leased stage ≡ true
leased-fits status stage h f = ground arith

pub failed-fits :
    (stage : PipelineStage)
    → fits InboxStatus.leased stage ≡ true
    → fits InboxStatus.failed stage ≡ true
failed-fits stage h = ground arith

-- A rewrite keeps the invariant if the new row is as it should be, and every lease of another owner
-- in step.
module _ (lease : InboxLease) (row : InboxRow) (status : InboxStatus) (stage : PipelineStage)
    (n : ℕ) (db db' : Database) (r : Rewrite lease row status stage n db db') where
  pub Rewrite-Consistent :
      Consistent db
      → Counted stage (db.settled lease.id + n)
      → fits status stage ≡ true
      → Consistent db'
  Rewrite-Consistent c counted fitting k row1 e = elim (ℕ_discrete k lease.id) [
    | yes at ↦
        let found : db'.inbox lease.id ≡ some row1 = rw at at e in
        let same : r.row' ≡ row1 = cc (r.here) in
        rw (at, ← same)
          (record {
            keyed = r.same_id ∙ (c lease.id row r.found).keyed;
            counted = rw (r.now_stage, r.settled_here) counted;
            fitting = rw (r.now_stage, r.now_status) fitting;
          })
    | no off ↦ rw (r.settled_elsewhere k off) (c k row1 (sym (r.elsewhere k off) ∙ e))
  ]

  pub Rewrite-InSync_other :
      (other : InboxLease)
      → other.lease_owner ≢ lease.lease_owner
      → InSync other db
      → InSync other db'
  Rewrite-InSync_other other apart sync row1 e held owner = elim (ℕ_discrete other.id lease.id) [
    | yes at ↦
        let found : db'.inbox lease.id ≡ some row1 = rw at at e in
        absurd (apart (cc (r.here, r.same_owner, r.owner)))
    | no off ↦ sync row1 (sym (r.elsewhere other.id off) ∙ e) held owner
  ]

  -- A lease for the same row that has the new stage.
  pub Rewrite-InSync_self :
      (other : InboxLease) → other.id ≡ lease.id → other.stage ≡ stage → InSync other db'
  Rewrite-InSync_self other same_id same_stage row1 e held owner =
      let found : db'.inbox lease.id ≡ some row1 = rw same_id at e in
      let same : r.row' ≡ row1 = cc (r.here) in rw (← same) (r.now_stage ∙ sym same_stage)

  pub Counted-now : Consistent db → Counted row.stage (db.settled lease.id)
  Counted-now c = (c lease.id row r.found).counted

  pub fits_now : Consistent db → fits InboxStatus.leased row.stage ≡ true
  fits_now c = leased-fits row.status row.stage r.is_held (c lease.id row r.found).fitting

  pub stage_now : InSync lease db → row.stage ≡ lease.stage
  stage_now sync = sync row r.found r.is_held r.owner

  pub Rewrite-InSync_closed :
      is_leased status ≡ false → (other : InboxLease) → InSync other db → InSync other db'
  Rewrite-InSync_closed closed other sync row1 e held owner = elim (ℕ_discrete other.id lease.id) [
    | yes at ↦
        let found : db'.inbox lease.id ≡ some row1 = rw at at e in
        let same : r.row' ≡ row1 = cc (r.here) in
        let open_ : is_leased r.row'.status ≡ true = rw same held in
        let shut : is_leased r.row'.status ≡ false = rw r.now_status closed in cc
    | no off ↦ sync row1 (sym (r.elsewhere other.id off) ∙ e) held owner
  ]
