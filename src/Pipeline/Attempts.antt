-- ===== src/Pipeline/Attempts.antt =====
-- What holds after an attempt of apps/worker/src/pipeline/processor.ts, whatever the stages make or
-- throw and whatever the other workers do between its calls.
use token_pilot.Base.{ℕ, ◌≡◌, refl, ◌∙◌, Bool, true, false, Option, some, Bool-cases, inl, inr}
use token_pilot.Pipeline.{PipelineStage, is_before, InboxStatus, InboxRow, InboxLease, Database}
use token_pilot.Pipeline.Inbox.{Answer, ok, thrown}
use token_pilot.Pipeline.Inbox.Calls.{advance, commit_official, complete}
use token_pilot.Pipeline.Rows.Closing.{complete-Rewrite}
use token_pilot.Pipeline.Once.{Consistent, InSync}
use token_pilot.Pipeline.Once.Calls.{Keeps, advance-Keeps, commit-Keeps, complete-Keeps}
use token_pilot.Pipeline.Attempt.{
  MetricStage, SettlementContext, Surroundings, Running, M, bound, ◌>>=◌, ◌>>◌, lift, enter,
  note_unmapped,
}
use token_pilot.Pipeline.Processor.{
  called, arrived, call_store, checkpoint_to, take_checkpoint, advance_if_needed, take_commit,
  commit_call, commit_if_needed, complete_call, lease_of, run_stages, attempt_body,
}

-- What the other workers and the replays leave of the rows and of the lease of the attempt.
pub record Respects {E N A R : Type 0} (u : Surroundings E N A R) (owner : ℕ) : Type 0 where
  pub keeps_rows : (n : ℕ) (db : Database) → Consistent db → Consistent (u.others n db)
  pub keeps_lease :
      (n : ℕ) (db : Database) (l : InboxLease)
      → l.lease_owner ≡ owner
      → InSync l db
      → InSync l (u.others n db)

-- The attempt works for the row `id` as `owner`, with a lease in step.
pub record Good {R : Type 0} (id owner : ℕ) (t : Running R) : Type 0 where
  pub consistent : Consistent t.database
  pub in_sync : InSync t.lease t.database
  pub row_id : t.lease.id ≡ id
  pub mine : t.lease.lease_owner ≡ owner

abbrev pub Holds : {R B : Type 0} → (Running R → Type 0) → Answer B × Running R → Type 0
Holds Q (ok b, t) = Q t
Holds Q (thrown e, t) = Unit

module _ {E N A R : Type 0} (u : Surroundings E N A R) (id owner : ℕ) (env : Respects u owner) where
  -- A statement keeps the attempt good, and ends in `Q` where it throws nothing.
  abbrev pub Safe : {B : Type 0} → M R B → (Running R → Type 0) → Type 0
  Safe m Q = (t : Running R) → Good id owner t → Good id owner (m t).1 × Holds Q (m t)

  abbrev pub Any : Running R → Type 0
  Any t = Unit

  bound-Safe :
      {B C : Type 0} (f : B → M R C) (Q : Running R → Type 0) (r : Answer B × Running R)
      → Good id owner r.1
      → ((b : B) → Safe (f b) Q)
      → Good id owner (bound r f).1 × Holds Q (bound r f)
  bound-Safe f Q (ok b, t) g k = k b t g
  bound-Safe f Q (thrown e, t) g k = (g, tt)

  >>=-Safe :
      {B C : Type 0} (m : M R B) (f : B → M R C) (Q : Running R → Type 0)
      → Safe m Any
      → ((b : B) → Safe (f b) Q)
      → Safe (m >>= f) Q
  unfolding ◌>>=◌
  >>=-Safe m f Q s k t g = bound-Safe f Q (m t) (s t g).0 k

  >>-Safe :
      {C : Type 0} (m : M R (Unit {0})) (k : M R C) (Q : Running R → Type 0)
      → Safe m Any
      → Safe k Q
      → Safe (m >> k) Q
  unfolding ◌>>◌
  >>-Safe m k Q s c t g = bound-Safe (λ _. k) Q (m t) (s t g).0 (λ _. c)

  lift-Safe : {B : Type 0} (answer : Answer B) → Safe (lift answer) Any
  lift-Safe (ok b) t g = (g, tt)
  lift-Safe (thrown e) t g = (g, tt)

  enter-Safe : (stage : MetricStage) → Safe (enter stage) Any
  enter-Safe stage t g = (
    record { consistent = g.consistent; in_sync = g.in_sync; row_id = g.row_id; mine = g.mine },
    tt,
  )

  -- What the other workers do before a call leaves the attempt good.
  pub arrived-Good : (t : Running R) → Good id owner t → Good id owner (arrived u t)
  arrived-Good t g = record {
    consistent = env.keeps_rows t.calls t.database g.consistent;
    in_sync = env.keeps_lease t.calls t.database t.lease g.mine g.in_sync;
    row_id = g.row_id;
    mine = g.mine;
  }

  -- A renewed lease that the attempt takes; the variables that are only reported do not matter.
  pub taken-Good :
      (t t' : Running R) (lease' : InboxLease)
      → Good id owner t
      → Keeps t.lease lease' (arrived u t).database t'.database
      → t'.lease ≡ lease'
      → Good id owner t'
  taken-Good t t' lease' g k e = record {
    consistent = k.consistent;
    in_sync = rw e k.in_sync;
    row_id = rw e (k.same_id ∙ g.row_id);
    mine = rw e (k.same_owner ∙ g.mine);
  }

  checkpoint_answer :
      (target : PipelineStage) (stage : MetricStage) (t : Running R)
      (r : Answer (InboxLease × Database))
      → Good id owner t
      → is_before t.lease.stage target ≡ true
      → is_before target PipelineStage.official_committed ≡ true
      → advance (u.clock t.calls).locked_at u.lease_duration t.lease target (arrived u t).database
        ≡ r
      → Good id owner (bound (called u r (arrived u t)) (take_checkpoint u stage)).1
  unfolding take_checkpoint ◌>>=◌ ◌>>◌
  checkpoint_answer target stage t (thrown e) g behind early h = arrived-Good t g
  checkpoint_answer target stage t (ok (l', db')) g behind early h =
      let g' = arrived-Good t g in
      taken-Good t _ l' g
        (advance-Keeps t.lease (arrived u t).database g'.consistent g'.in_sync
          (u.clock t.calls).locked_at u.lease_duration target l' db' behind early h)
        refl

  Holds-Any : {B : Type 0} (r : Answer B × Running R) → Holds Any r
  Holds-Any (ok b, t) = tt
  Holds-Any (thrown e, t) = tt

  advance_if_needed-Safe :
      (target : PipelineStage) (stage : MetricStage)
      → is_before target PipelineStage.official_committed ≡ true
      → Safe (advance_if_needed u target stage) Any
  unfolding advance_if_needed ◌>>=◌ checkpoint_to call_store
  advance_if_needed-Safe target stage early t g =
      elim (Bool-cases (is_before t.lease.stage target)) [
        | inl behind ↦
            rw behind (checkpoint_answer target stage t _ g behind early refl, Holds-Any _)
        | inr past ↦ rw past (g, tt)
      ]

  -- The row has its outbox messages.
  abbrev Ahead : Running R → Type 0
  Ahead t = is_before t.lease.stage PipelineStage.outbox_created ≡ false

  commit_answer :
      (context : SettlementContext E N A) (is_first : Bool) (t : Running R)
      (r : Answer ((InboxLease × Option R) × Database))
      → Good id owner t
      → is_before t.lease.stage PipelineStage.outbox_created ≡ true
      → commit_official
          (u.clock t.calls)
          u.lease_duration
          t.lease
          context.application_id
          (u.write_official context)
          (u.base_messages context t.lease.payload_hash)
          (arrived u t).database
        ≡ r
      → let end = bound (called u r (arrived u t)) (take_commit u is_first) in
        Good id owner end.1 × Holds Ahead end
  unfolding take_commit ◌>>=◌ ◌>>◌
  commit_answer context is_first t (thrown e) g behind h = (arrived-Good t g, tt)
  commit_answer context is_first t (ok ((l', report), db')) g behind h =
      let g' = arrived-Good t g in
      let (k, stage) =
        commit-Keeps t.lease (arrived u t).database g'.consistent g'.in_sync (u.clock t.calls)
          u.lease_duration context.application_id (u.write_official context)
          (u.base_messages context t.lease.payload_hash) l' report db' behind h in
      measured is_first k stage
    where
      measured :
          (first : Bool)
          → Keeps t.lease l' (arrived u t).database db'
          → l'.stage ≡ PipelineStage.outbox_created
          → let end =
              bound (called u (ok ((l', report), db')) (arrived u t)) (take_commit u first) in
            Good id owner end.1 × Holds Ahead end
      measured true k stage = (taken-Good t _ l' g k refl, rw stage refl)
      measured false k stage = (taken-Good t _ l' g k refl, rw stage refl)

  commit_if_needed-Safe :
      (context : SettlementContext E N A) → Safe (commit_if_needed u context) Ahead
  unfolding commit_if_needed ◌>>=◌ commit_call call_store
  commit_if_needed-Safe context t g =
      elim (Bool-cases (is_before t.lease.stage PipelineStage.outbox_created)) [
        | inl behind ↦ rw behind (
            commit_answer context (is_before t.lease.stage PipelineStage.official_committed) t _ g
              behind refl)
        | inr past ↦ rw past (g, past)
      ]

  -- The row is completed, and its settlement was committed once.
  abbrev pub Completed : Running R → Type 0
  Completed t =
      (row : InboxRow) × (t.database.inbox id ≡ some row)
      × (row.status ≡ InboxStatus.completed)
      × (t.database.settled id ≡ 1)

  abbrev After : {B : Type 0} → (Running R → Type 0) → M R B → (Running R → Type 0) → Type 0
  After P m Q = (t : Running R) → Good id owner t → P t → Good id owner (m t).1 × Holds Q (m t)

  complete_answer :
      (t : Running R) (r : Answer (Unit {0} × Database))
      → Good id owner t
      → Ahead t
      → complete (u.clock t.calls).locked_at u.payload_ttl_days t.lease (arrived u t).database ≡ r
      → let end = called u r (arrived u t) in Good id owner end.1 × Holds Completed end
  complete_answer t (thrown e) g ahead h = (arrived-Good t g, tt)
  complete_answer t (ok (tt, db')) g ahead h =
      let g' = arrived-Good t g in
      let k =
        complete-Keeps t.lease (arrived u t).database g'.consistent g'.in_sync
          (u.clock t.calls).locked_at u.payload_ttl_days db' ahead h in
      let (row, r) =
        complete-Rewrite (u.clock t.calls).locked_at u.payload_ttl_days t.lease
          (arrived u t).database db' h in
      let here : db'.inbox id ≡ some r.row' = rw g.row_id at r.here in
      let counted = (k.consistent id r.row' here).counted in
      (taken-Good t _ t.lease g k refl, (r.row', here, r.now_status, rw r.now_stage at counted))

  complete_call-After : After Ahead (complete_call u) Completed
  unfolding complete_call call_store
  complete_call-After t g ahead = complete_answer t _ g ahead refl

  >>-After :
      {C : Type 0} (m : M R (Unit {0})) (k : M R C) (P Q : Running R → Type 0)
      → Safe m P
      → After P k Q
      → Safe (m >> k) Q
  unfolding ◌>>◌
  >>-After m k P Q s c t g = go (m t) (s t g)
    where
      go :
          (r : Answer (Unit {0}) × Running R)
          → Good id owner r.1 × Holds P r
          → Good id owner (bound r (λ _. k)).1 × Holds Q (bound r (λ _. k))
      go (ok x, t1) (g1, p) = c t1 g1 p
      go (thrown e, t1) (g1, p) = (g1, tt)

  lease_of-Safe : Safe (lease_of u) Any
  lease_of-Safe t g = (g, tt)

  note_unmapped-Safe : (b : Bool) → Safe (note_unmapped b) Any
  note_unmapped-Safe false t g = (g, tt)
  note_unmapped-Safe true t g = (
    record { consistent = g.consistent; in_sync = g.in_sync; row_id = g.row_id; mine = g.mine },
    tt,
  )

  last_call-After : After Ahead (enter MetricStage.outbox >> complete_call u) Completed
  unfolding ◌>>◌
  last_call-After t g ahead = complete_call-After _ (enter-Safe MetricStage.outbox t g).0 ahead

  -- One stage: enter it, make its artifact for the lease, and advance.
  stage-Safe :
      {B C : Type 0} (metric : MetricStage) (make : InboxLease → Answer B) (target : PipelineStage)
      (rest : InboxLease → B → Bool → M R C) (Q : Running R → Type 0)
      → is_before target PipelineStage.official_committed ≡ true
      → ((l : InboxLease) (b : B) (a : Bool) → Safe (rest l b a) Q)
      → Safe
          (enter metric
            >> (lease_of u >>= λ l.
                lift (make l) >>= λ b. advance_if_needed u target metric >>= λ a. rest l b a))
          Q
  stage-Safe metric make target rest Q early k = >>-Safe _ _ Q (enter-Safe metric) (
      >>=-Safe _ _ Q lease_of-Safe (λ l.
        >>=-Safe _ _ Q (lift-Safe (make l))
          (λ b. >>=-Safe _ _ Q (advance_if_needed-Safe target metric early) (λ a. k l b a))))

  run_stages-Safe : (event : E) (usage : N) → Safe (run_stages u event usage) Completed
  unfolding run_stages
  run_stages-Safe event usage =
      >>=-Safe _ _ Completed
        (advance_if_needed-Safe PipelineStage.normalized MetricStage.normalization refl)
        (λ _.
          stage-Safe MetricStage.model_resolution _ PipelineStage.model_resolved _ Completed refl
            (λ lease1 resolution resolved. >>-Safe _ _ Completed (note_unmapped-Safe _) (
              stage-Safe MetricStage.provider_cost _ PipelineStage.provider_cost_rated _ Completed
                refl
                (λ lease2 cost _.
                  stage-Safe MetricStage.aiu _ PipelineStage.aiu_rated _ Completed refl
                    (λ lease3 aiu _.
                      stage-Safe MetricStage.quota _ PipelineStage.quota_settled _ Completed refl
                        (λ lease4 quota _.
                          >>-Safe _ _ Completed (enter-Safe MetricStage.official_commit) (
                            >>=-Safe _ _ Completed lease_of-Safe (λ lease5.
                              >>-After _ _ Ahead Completed (commit_if_needed-Safe _)
                                last_call-After))))))))

  pub attempt_body-Safe : Safe (attempt_body u) Completed
  unfolding attempt_body
  attempt_body-Safe = >>=-Safe _ _ Completed lease_of-Safe (λ lease.
      >>=-Safe _ _ Completed (lift-Safe _)
        (λ event. >>=-Safe _ _ Completed (lift-Safe _) (λ usage. run_stages-Safe event usage)))
