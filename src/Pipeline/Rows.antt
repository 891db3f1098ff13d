-- ===== src/Pipeline/Rows.antt =====
-- What the operations of the inbox store do to the row of a lease.
pub mod Commit
pub mod Closing
use token_pilot.Base.{
  ℕ, ◌+◌, ◌≡◌, ◌≢◌, refl, true, Option, none, some, same_option_iff, Bool-cases, inl, inr, arith,
}
use token_pilot.Base.Table.{put, put_self, put_ne}
use token_pilot.Pipeline.{PipelineStage, InboxStatus, InboxRow, InboxLease, RegistryRow, Database}
use token_pilot.Pipeline.Inbox.{
  ok, is_leased, owns, owned_of, owned_row, >>=-ok, registry_of, update_registry, map_lease,
}
use token_pilot.Pipeline.Inbox.Calls.{expiry_after, advance_row, advance_owned, advance}

-- The row of the lease, which the lease owns, gets the status and the stage and keeps its owner; `n`
-- more settlements of it are counted, and the other rows stay.
pub record Rewrite (lease : InboxLease) (row : InboxRow) (status : InboxStatus)
    (stage : PipelineStage) (n : ℕ) (db db' : Database) : Type 0 where
  pub row' : InboxRow
  pub found : db.inbox lease.id ≡ some row
  pub is_held : is_leased row.status ≡ true
  pub owner : row.lease_owner ≡ some lease.lease_owner
  pub here : db'.inbox lease.id ≡ some row'
  pub same_id : row'.id ≡ row.id
  pub same_owner : row'.lease_owner ≡ row.lease_owner
  pub now_status : row'.status ≡ status
  pub now_stage : row'.stage ≡ stage
  pub elsewhere : (k : ℕ) → k ≢ lease.id → db'.inbox k ≡ db.inbox k
  pub settled_here : db'.settled lease.id ≡ db.settled lease.id + n
  pub settled_elsewhere : (k : ℕ) → k ≢ lease.id → db'.settled k ≡ db.settled k

-- A later lease for the same row by the same owner.
pub record Renewed (lease lease' : InboxLease) : Type 0 where
  pub same_id : lease'.id ≡ lease.id
  pub same_owner : lease'.lease_owner ≡ lease.lease_owner

owns-facts :
    (now : ℕ) (lease : InboxLease) (row : InboxRow)
    → owns now lease row ≡ true
    → (is_leased row.status ≡ true) × (row.lease_owner ≡ some lease.lease_owner)
unfolding owns
owns-facts now lease row h =
    (ground arith, (same_option_iff row.lease_owner (some lease.lease_owner)).0 (ground arith))

owned_of-facts :
    (now : ℕ) (lease : InboxLease) (o : Option InboxRow) (row : InboxRow)
    → owned_of now lease o ≡ some row
    → (o ≡ some row) × (is_leased row.status ≡ true) × (row.lease_owner ≡ some lease.lease_owner)
unfolding owned_of
owned_of-facts now lease none row h = cc
owned_of-facts now lease (some r) row h = elim (Bool-cases (owns now lease r)) [
  | inl mine ↦
      let h' : some r ≡ some row = rw mine at h in
      let same : r ≡ row = cc in
      let (held, owner) = owns-facts now lease r mine in (h', rw same at held, rw same at owner)
  | inr other ↦ let h' : none ≡ some row = rw other at h in cc
]

pub owned_row-facts :
    (now : ℕ) (lease : InboxLease) (db : Database) (row : InboxRow)
    → owned_row now lease db ≡ some row
    → (db.inbox lease.id ≡ some row)
      × (is_leased row.status ≡ true)
      × (row.lease_owner ≡ some lease.lease_owner)
unfolding owned_row
owned_row-facts now lease db row h = owned_of-facts now lease (db.inbox lease.id) row h

module _ (event_id application_id : ℕ) (f : RegistryRow → RegistryRow) (db : Database) where
  pub update_registry-inbox : (update_registry event_id application_id f db).inbox ≡ db.inbox
  unfolding update_registry
  update_registry-inbox = ground arith

  pub update_registry-settled : (update_registry event_id application_id f db).settled ≡ db.settled
  unfolding update_registry
  update_registry-settled = ground arith

-- A row is put in the place of the one that is owned, whatever else is written.
module _ (now : ℕ) (lease : InboxLease) (db db' : Database) (row row' : InboxRow)
    (mine : owned_row now lease db ≡ some row) (inbox_eq : db'.inbox ≡ put db.inbox lease.id row')
    (settled_eq : db'.settled ≡ db.settled) (same_id : row'.id ≡ row.id)
    (same_owner : row'.lease_owner ≡ row.lease_owner) (status : InboxStatus) (stage : PipelineStage)
    (now_status : row'.status ≡ status) (now_stage : row'.stage ≡ stage) where
  pub rewritten : Rewrite lease row status stage 0 db db'
  rewritten =
      let (found, held, owner) = owned_row-facts now lease db row mine in
      record {
        row' = row';
        found = found;
        is_held = held;
        owner = owner;
        here = rw inbox_eq (put_self db.inbox lease.id row');
        same_id = same_id;
        same_owner = same_owner;
        now_status = now_status;
        now_stage = now_stage;
        elsewhere = λ k off. rw inbox_eq (put_ne db.inbox lease.id row' k off);
        settled_here = rw settled_eq (omega arith);
        settled_elsewhere = λ k off. rw settled_eq refl;
      }

pub map_lease-facts :
    (row : InboxRow) (hash owner expires : ℕ) (lease : InboxLease)
    → map_lease row hash owner expires ≡ ok lease
    → (lease.id ≡ row.id) × (lease.lease_owner ≡ owner) × (lease.stage ≡ row.stage)
unfolding map_lease
map_lease-facts row hash owner expires lease h = ground arith

is_leased-eq : (status : InboxStatus) → is_leased status ≡ true → status ≡ InboxStatus.leased
is_leased-eq status h = ground arith

-- What an advance of the lease leaves: the row in the stage, and a lease that says so.
pub record Advanced (lease : InboxLease) (stage : PipelineStage) (lease' : InboxLease)
    (db db' : Database) : Type 0 where
  pub row : InboxRow
  pub rewrite : Rewrite lease row InboxStatus.leased stage 0 db db'
  pub lease_id : lease'.id ≡ row.id
  pub lease_owner : lease'.lease_owner ≡ lease.lease_owner
  pub lease_stage : lease'.stage ≡ stage

module _ (now duration : ℕ) (lease lease' : InboxLease) (stage : PipelineStage)
    (db db' : Database) where
  advance_row-Advanced :
      (row : InboxRow) (entry : Option RegistryRow)
      → owned_row now lease db ≡ some row
      → advance_row now duration lease stage db row entry ≡ ok (lease', db')
      → Advanced lease stage lease' db db'
  unfolding advance_row
  advance_row-Advanced row none mine h = cc
  advance_row-Advanced row (some entry) mine h =
      let expires = expiry_after now duration row.lease_expires_at in
      let row' : InboxRow = record row { stage = stage; lease_expires_at = some expires } in
      let written : Database =
        update_registry lease.event_id lease.application_id
          (λ e. record e { processing_stage = stage })
          (record db { inbox = put db.inbox lease.id row' }) in
      let (mapped, e, done) =
        >>=-ok (map_lease row' entry.payload_hash lease.lease_owner expires) (λ l. ok (l, written))
          (lease', db') h in
      let (id, owner, at_stage) =
        map_lease-facts row' entry.payload_hash lease.lease_owner expires mapped e in
      let same : mapped ≡ lease' = cc in
      let left : written ≡ db' = cc in
      let held = (owned_row-facts now lease db row mine).1 in
      record {
        row = row;
        rewrite =
            rewritten now lease db db' row row' mine (rw (← left) (update_registry-inbox _ _ _ _))
              (rw (← left) (update_registry-settled _ _ _ _)) refl refl InboxStatus.leased stage
              (is_leased-eq row.status held) refl;
        lease_id = rw same at id;
        lease_owner = rw same at owner;
        lease_stage = rw same at at_stage;
      }

  advance_owned-Advanced :
      (o : Option InboxRow)
      → owned_row now lease db ≡ o
      → advance_owned now duration lease stage db o ≡ ok (lease', db')
      → Advanced lease stage lease' db db'
  unfolding advance_owned
  advance_owned-Advanced none mine h = cc
  advance_owned-Advanced (some row) mine h = advance_row-Advanced row (registry_of db row) mine h

  pub advance-Advanced :
      advance now duration lease stage db ≡ ok (lease', db') → Advanced lease stage lease' db db'
  unfolding advance
  advance-Advanced h = advance_owned-Advanced (owned_row now lease db) refl h
