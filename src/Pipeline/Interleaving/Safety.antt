-- ===== src/Pipeline/Interleaving/Safety.antt =====
-- Every step keeps the invariant.
use token_pilot.Base.{ℕ, ◌+◌, ◌*◌, ◌≡◌, refl, sym, ◌∙◌, ap, true, none, some}
use native.Mathlib.Decide.{ℕ_discrete}
use token_pilot.Base.Table.{put, put_self, put_ne}
use token_pilot.Pipeline.{InboxRow, InboxLease, Database}
use token_pilot.Pipeline.Inbox.{ok, can_be_leased, registry_of, map_lease}
use token_pilot.Pipeline.Inbox.Leasing.{lease_row}
use token_pilot.Pipeline.Replay.{reset_inbox}
use token_pilot.Pipeline.Rows.{map_lease-facts}
use token_pilot.Pipeline.Once.{Counted, Consistent, InSync}
use token_pilot.Pipeline.Once.Calls.{
  Keeps, advance-Keeps, commit-Keeps, complete-Keeps, retry-Keeps, dead_letter-Keeps,
}
use token_pilot.Pipeline.Interleaving.{
  Inv, Reach, Step, World, checkpoints, commits, completes, gives_up, here, leases, next, replays,
  resets_, retries,
}
use token_pilot.Pipeline.Interleaving.Requeue.{
  can_be_leased-open, lease_joined-facts, leased-RowOk, put-Consistent, put-InSync,
  replay_dead_letter-Requeued, reset_one-RowOk, reset_one-leased,
}

module _ (R : Type 0) (w : World) (i : Inv w) where
  open w use {database, held}

  -- The lease of an owner is replaced after a call.
  kept-Inv :
      (owner : ℕ) (l l' : InboxLease) (db' : Database)
      → held owner ≡ some l
      → Keeps l l' database db'
      → Inv (record { database = db'; held = put held owner l' })
  kept-Inv owner l l' db' e keeps = record {
    consistent = keeps.consistent;
    owned = λ o m f. elim (ℕ_discrete o owner) [
      | yes at ↦
          let g : put held owner l' owner ≡ some m = rw at at f in
          let same : l' ≡ m = cc (put_self held owner l') in
          rw (← same, at) (keeps.same_owner ∙ i.owned owner l e)
      | no off ↦ i.owned o m (sym (put_ne held owner l' o off) ∙ f)
    ];
    in_sync = λ o m f. elim (ℕ_discrete o owner) [
      | yes at ↦
          let g : put held owner l' owner ≡ some m = rw at at f in
          let same : l' ≡ m = cc (put_self held owner l') in rw same at keeps.in_sync
      | no off ↦
          let g : held o ≡ some m = sym (put_ne held owner l' o off) ∙ f in
          keeps.others_in_sync m (λ p. off (sym (i.owned o m g) ∙ (p ∙ i.owned owner l e)))
            (i.in_sync o m g)
    ];
  }

  -- The worker goes on with the lease that it had.
  same-Inv :
      (owner : ℕ) (l : InboxLease) (db' : Database)
      → held owner ≡ some l
      → Keeps l l database db'
      → Inv (record w { database = db' })
  same-Inv owner l db' e keeps = record {
    consistent = keeps.consistent;
    owned = i.owned;
    in_sync = λ o m f. elim (ℕ_discrete o owner) [
      | yes at ↦
          let g : held owner ≡ some m = rw at at f in
          let same : l ≡ m = cc in rw same at keeps.in_sync
      | no off ↦
          keeps.others_in_sync m (λ p. off (sym (i.owned o m f) ∙ (p ∙ i.owned owner l e)))
            (i.in_sync o m f)
    ];
  }

  leased-Inv :
      (k owner now duration hash : ℕ) (row row' : InboxRow) (l : InboxLease) (db' : Database)
      → database.inbox k ≡ some row
      → can_be_leased now row ≡ true
      → held owner ≡ none
      → lease_row owner now duration row database ≡ (some (row', hash), db')
      → map_lease row' hash owner (now + duration * 1000) ≡ ok l
      → Inv (record { database = db'; held = put held owner l })
  unfolding lease_row
  leased-Inv k owner now duration hash row row' l db' found free new h mapped =
      let (made, inbox_eq, settled_eq) =
        lease_joined-facts owner now duration hash row row' database db' (registry_of database row)
          h in
      let good = i.consistent k row found in
      let (same_id, same_owner, same_stage) = map_lease-facts row' hash owner _ l mapped in
      let at_row : row'.id ≡ row.id = ap (λ (r : InboxRow). r.id) made in
      let its_owner : row'.lease_owner ≡ some owner = ap (λ (r : InboxRow). r.lease_owner) made in
      record {
        consistent =
            put-Consistent row.id row' database db' inbox_eq (λ j off. rw settled_eq refl)
              i.consistent
              (leased-RowOk k owner (now + duration * 1000) row row' database db' good
                (can_be_leased-open now row free) made settled_eq);
        owned = λ o m f. elim (ℕ_discrete o owner) [
          | yes at ↦
              let g : put held owner l owner ≡ some m = rw at at f in
              let same : l ≡ m = cc (put_self held owner l) in rw (← same, at) same_owner
          | no off ↦ i.owned o m (sym (put_ne held owner l o off) ∙ f)
        ];
        in_sync = λ o m f. elim (ℕ_discrete o owner) [
          | yes at ↦
              let g : put held owner l owner ≡ some m = rw at at f in
              let same : l ≡ m = cc (put_self held owner l) in
              let in_step : InSync l db' = λ row1 e _ _.
                let e' : put database.inbox row.id row' row.id ≡ some row1 =
                  rw (same_id ∙ at_row, inbox_eq) at e in
                let it : row' ≡ row1 = cc (put_self database.inbox row.id row') in
                rw (← it) (sym same_stage) in
              rw same at in_step
          | no off ↦
              let g : held o ≡ some m = sym (put_ne held owner l o off) ∙ f in
              put-InSync row.id row' database db' inbox_eq (λ j _. rw settled_eq refl) m
                (λ _ p. let q : owner ≡ m.lease_owner = cc in off (sym (i.owned o m g) ∙ sym q))
                (i.in_sync o m g)
        ];
      }

  -- A change of the inbox that leaves every lease in step.
  moved-Inv :
      (db' : Database)
      → Consistent db'
      → ((l : InboxLease) → InSync l database → InSync l db')
      → Inv (record w { database = db' })
  moved-Inv db' c sync = record {
    consistent = c;
    owned = i.owned;
    in_sync = λ o m f. sync m (i.in_sync o m f);
  }

  -- Every step keeps the invariant.
  pub Step-Inv : {w' : World} → Step R w w' → Inv w'
  unfolding reset_inbox
  Step-Inv (leases k owner now duration hash row row' l db' found free new h mapped) =
      leased-Inv k owner now duration hash row row' l db' found free new h mapped
  Step-Inv (checkpoints owner now duration target l l' db' e behind early h) =
      kept-Inv owner l l' db' e (
        advance-Keeps l database i.consistent (i.in_sync owner l e) now duration target l' db'
          behind early h)
  Step-Inv (commits owner times duration application_id written base l l' report db' e behind h) =
      kept-Inv owner l l' db' e
        (commit-Keeps l database i.consistent (i.in_sync owner l e) times duration application_id
          written base l' report db' behind h).0
  Step-Inv (completes owner now ttl_days l db' e ahead h) =
      same-Inv owner l db' e
        (complete-Keeps l database i.consistent (i.in_sync owner l e) now ttl_days db' ahead h)
  Step-Inv (retries owner now retry_at failure l db' e h) =
      same-Inv owner l db' e
        (retry-Keeps l database i.consistent (i.in_sync owner l e) now retry_at failure db' h)
  Step-Inv (gives_up owner now id failure l db' e h) =
      same-Inv owner l db' e
        (dead_letter-Keeps l database i.consistent (i.in_sync owner l e) now id failure db' h)
  Step-Inv (replays now id application_id db' h) =
      let (c, sync) =
        replay_dead_letter-Requeued now id application_id database db' i.consistent h in
      moved-Inv db' c sync
  Step-Inv (resets_ now intent range) =
      moved-Inv (reset_inbox now intent range database)
        (λ k row e.
          reset_one-RowOk k now intent range database (database.inbox k) row (i.consistent k) e)
        (λ l sync row e held_ owner.
          sync row (reset_one-leased now intent range database (database.inbox l.id) row e held_)
            held_ owner)

pub Reach-Inv : (R : Type 0) (w : World) → Inv w → {w' : World} → Reach R w w' → Inv w'
Reach-Inv R w i here = i
Reach-Inv R w i (next {v} r step) = Step-Inv R v (Reach-Inv R w i r) step

-- However the workers and the replays take turns, from consistent rows with every lease in step: the
-- official settlement of a row was committed once since the row was last queued if its outbox was
-- created or it is completed, not yet in an earlier stage, and at most once if it is a dead letter;
-- no row is left between the commit and the outbox.
pub Reach-Counted :
    (R : Type 0) (w w' : World) (k : ℕ) (row : InboxRow)
    → Inv w
    → Reach R w w'
    → w'.database.inbox k ≡ some row
    → Counted row.stage (w'.database.settled k)
Reach-Counted R w w' k row i r e = ((Reach-Inv R w i r).consistent k row e).counted
