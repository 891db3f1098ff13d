-- ===== src/Pipeline/Inbox/Leasing.antt =====
-- Leasing rows of the inbox: leaseInbox of apps/worker/src/pipeline/prisma-inbox-store.ts.
use token_pilot.Base.{
  ℕ, ◌+◌, ◌*◌, Bool, Option, none, some, List, [], ◌∷◌, keep, take, ◌&&◌, ◌||◌, ◌==◌, ltb, not,
  if◌then◌else◌,
}
use token_pilot.Base.Sort.{sort_by}
use token_pilot.Base.Table.{Table, put}
use token_pilot.Pipeline.{InboxStatus, InboxRow, InboxLease, RegistryRow, Database}
use token_pilot.Pipeline.Inbox.{
  Answer, can_be_leased, map_lease, ok, range_error, registry_of, thrown, ◌>>=◌,
}

abbrev pub leased_row : ℕ → ℕ → InboxRow → InboxRow
leased_row owner expires row = record row {
  status = InboxStatus.leased;
  attempt_count = row.attempt_count + 1;
  lease_owner = some owner;
  lease_expires_at = some expires;
  next_retry_at = none;
  last_error = none;
}

-- What the UPDATE does to one candidate; a row that joins no entry of the registry stays.
unfoldable pub lease_joined :
    ℕ → ℕ → ℕ → InboxRow → Database → Option RegistryRow → Option (InboxRow × ℕ) × Database
lease_joined owner now duration row db none = (none, db)
lease_joined owner now duration row db (some entry) =
    let row' = leased_row owner (now + duration * 1000) row in
    (some (row', entry.payload_hash), record db { inbox = put db.inbox row.id row' })

unfoldable pub lease_row : ℕ → ℕ → ℕ → InboxRow → Database → Option (InboxRow × ℕ) × Database
lease_row owner now duration row db = lease_joined owner now duration row db (registry_of db row)

abbrev pub older : InboxRow → InboxRow → Bool
older a b = ltb a.available_at b.available_at || (a.available_at == b.available_at && ltb a.id b.id)

-- The rows of the table, by the list of its keys.
unfoldable pub rows_of : Table InboxRow → List ℕ → List InboxRow
rows_of table [] = []
rows_of table (id ∷ ids) =
    let rest = rows_of table ids in elim (table id) [ none ↦ rest | some row ↦ row ∷ rest ]

unfoldable pub lease_candidates : ℕ → ℕ → (ℕ → Bool) → List ℕ → Database → List InboxRow
lease_candidates limit now is_locked ids db = take limit (
    sort_by older
      (keep (λ row. can_be_leased now row && not (is_locked row.id)) (rows_of db.inbox ids)))

-- A row that was leased, with what its lease is mapped from.
pub record LeasedRow : Type 0 where
  pub row : InboxRow
  pub payload_hash : ℕ
  pub owner : ℕ
  pub expires : ℕ

module _ (owner_text : ℕ → ℕ) (now duration : ℕ) where
  unfoldable pub lease_rows : List InboxRow → Database → List LeasedRow × Database
  lease_rows [] db = ([], db)
  lease_rows (row ∷ rows) db =
      let (one, db') = lease_row (owner_text row.id) now duration row db in
      let (rest, db'') = lease_rows rows db' in
      (
        elim one [
          | none ↦ rest
          | some (row', hash) ↦
              record {
                row = row';
                payload_hash = hash;
                owner = owner_text row.id;
                expires = now + duration * 1000;
              }
              ∷ rest
        ],
        db'',
      )

unfoldable pub map_leases : List LeasedRow → Answer (List InboxLease)
map_leases [] = ok []
map_leases (l ∷ ls) = map_lease l.row l.payload_hash l.owner l.expires >>= λ lease.
    map_leases ls >>= λ leases. ok (lease ∷ leases)

-- `leaseInbox`: the transaction is over when the rows are mapped. The owner is a text of its own for
-- each row and call, and rows that another transaction has locked are skipped.
unfoldable pub lease_inbox :
    (ℕ → ℕ) → ℕ → ℕ → (ℕ → Bool) → List ℕ → ℕ → Database → Answer (List InboxLease) × Database
lease_inbox owner_text now duration is_locked ids limit db =
    if ltb limit 1 || ltb 1000 limit
    then (thrown (range_error "Inbox lease batch size must be between 1 and 1000"), db)
    else (let (rows, db') =
          lease_rows owner_text now duration (lease_candidates limit now is_locked ids db) db in
        (map_leases rows, db'))
