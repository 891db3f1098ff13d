-- ===== src/Pipeline/Interleaving/Requeue.antt =====
-- Leasing a row, and queueing a row again, keep the invariant.
use token_pilot.Base.{
  ℕ, ◌+◌, ◌*◌, ◌≡◌, ◌≢◌, refl, sym, ◌∙◌, true, false, Option, none, some, find, if◌then◌else◌,
  Bool-cases, inl, inr, arith,
}
use mathlib.Core.Path.{subst}
use native.Mathlib.Decide.{ℕ_discrete}
use token_pilot.Base.Table.{put, put_self, put_ne}
use token_pilot.Pipeline.{
  InboxRow, InboxLease, RegistryRow, DeadLetterEvent, DeadLetterStatus, Database, ReplayIntent,
}
use token_pilot.Pipeline.Inbox.{is_leased, is_finished, can_be_leased}
use token_pilot.Pipeline.Inbox.Leasing.{leased_row, lease_joined}
use token_pilot.Pipeline.Replay.{
  ReplayRange, queued, payload_gone, idempotent, not_open, queued_database, queue_replay,
  has_payload, replay_open, pending_row, replay_by_status, replay_found, replay_dead_letter,
  is_event, requeued_row, is_reset, reset_one, resets,
}
use token_pilot.Pipeline.Once.{Counted, RowOk, Consistent, InSync}

-- A row that is put in a database where nothing else of the inbox changes.
module _ (k : ℕ) (row' : InboxRow) (db db' : Database) (inbox_eq : db'.inbox ≡ put db.inbox k row')
    (settled_eq : (j : ℕ) → j ≢ k → db'.settled j ≡ db.settled j) where
  pub put-Consistent : Consistent db → RowOk k row' (db'.settled k) → Consistent db'
  put-Consistent c good j row e = elim (ℕ_discrete j k) [
    | yes at ↦
        let found : put db.inbox k row' k ≡ some row = rw (at, inbox_eq) at e in
        let same : row' ≡ row = cc (put_self db.inbox k row') in rw (at, ← same) good
    | no off ↦
        let found : put db.inbox k row' j ≡ some row = rw inbox_eq at e in
        rw (settled_eq j off) (c j row (sym (put_ne db.inbox k row' j off) ∙ found))
  ]

  -- A lease stays in step that does not own the row.
  pub put-InSync :
      (other : InboxLease)
      → (is_leased row'.status ≡ true → row'.lease_owner ≢ some other.lease_owner)
      → InSync other db
      → InSync other db'
  put-InSync other apart sync row e held owner = elim (ℕ_discrete other.id k) [
    | yes at ↦
        let found : put db.inbox k row' k ≡ some row = rw (at, inbox_eq) at e in
        let same : row' ≡ row = cc (put_self db.inbox k row') in
        absurd (apart (rw same held) (rw same owner))
    | no off ↦
        let found : put db.inbox k row' other.id ≡ some row = rw inbox_eq at e in
        sync row (sym (put_ne db.inbox k row' other.id off) ∙ found) held owner
  ]

pub can_be_leased-open :
    (now : ℕ) (row : InboxRow) → can_be_leased now row ≡ true → is_finished row.stage ≡ false
unfolding can_be_leased
can_be_leased-open now row h = ground arith

-- What leasing a row does to it.
pub lease_joined-facts :
    (owner now duration hash : ℕ) (row row' : InboxRow) (db db' : Database) (o : Option RegistryRow)
    → lease_joined owner now duration row db o ≡ (some (row', hash), db')
    → (row' ≡ leased_row owner (now + duration * 1000) row)
      × (db'.inbox ≡ put db.inbox row.id row')
      × (db'.settled ≡ db.settled)
unfolding lease_joined
lease_joined-facts owner now duration hash row row' db db' none h = cc
lease_joined-facts owner now duration hash row row' db db' (some entry) h =
    let made = leased_row owner (now + duration * 1000) row in
    let same : row' ≡ made = cc in
    let left : record db { inbox = put db.inbox row.id made } ≡ db' = cc in
    (same, rw (← left, same) refl, rw (← left) refl)

pub leased-RowOk :
    (k owner expires : ℕ) (row row' : InboxRow) (db db' : Database)
    → RowOk k row (db.settled k)
    → is_finished row.stage ≡ false
    → row' ≡ leased_row owner expires row
    → db'.settled ≡ db.settled
    → RowOk row.id row' (db'.settled row.id)
leased-RowOk k owner expires row row' db db' good open_ made settled_eq =
    rw (made, settled_eq)
      (record {
        keyed = refl;
        counted = subst (λ j. Counted row.stage (db.settled j)) (sym good.keyed) good.counted;
        fitting = rw open_ refl;
      })

requeued-RowOk :
    (k now n : ℕ) (intent : Option ReplayIntent) (row : InboxRow)
    → row.id ≡ k
    → n ≡ 0
    → RowOk k (requeued_row now intent row) n
requeued-RowOk k now n intent row e z = record { keyed = e; counted = z; fitting = refl }

-- A replayed dead letter.
module _ (now : ℕ) (event : DeadLetterEvent) (db db' : Database) (c : Consistent db) where
  -- What queueing a row again keeps.
  abbrev Requeued : Type 0
  Requeued = Consistent db' × ((l : InboxLease) → InSync l db → InSync l db')

  queue_replay-Requeued :
      (row : InboxRow) (entry : Option RegistryRow)
      → queue_replay now event row db entry ≡ queued db'
      → Requeued
  unfolding queue_replay
  queue_replay-Requeued row none h = cc
  queue_replay-Requeued row (some entry) h =
      let row' = requeued_row now row.replay_intent row in
      let left : queued_database now event row entry db ≡ db' = cc in
      let eq : db'.inbox ≡ put db.inbox row.id row' = rw (← left) refl in
      let off_row : (j : ℕ) → j ≢ row.id → db'.settled j ≡ db.settled j =
        λ j off. rw (← left) (ground arith) in
      (
        put-Consistent row.id row' db db' eq off_row c (
            requeued-RowOk row.id now (db'.settled row.id) row.replay_intent row refl
              (rw (← left) (ground arith))),
        λ l. put-InSync row.id row' db db' eq off_row l (λ f. cc),
      )

  replay_open-Requeued : (o : Option InboxRow) → replay_open now event db o ≡ queued db' → Requeued
  unfolding replay_open
  replay_open-Requeued none h = cc
  replay_open-Requeued (some row) h = elim (Bool-cases (has_payload row.payload)) [
    | inl there ↦ queue_replay-Requeued row _ (rw there at h)
    | inr gone ↦ let h' : payload_gone ≡ queued db' = rw gone at h in cc
  ]

  replay_by_status-Requeued :
      (status : DeadLetterStatus) → replay_by_status status now event db ≡ queued db' → Requeued
  unfolding replay_by_status
  replay_by_status-Requeued DeadLetterStatus.open_ h =
      replay_open-Requeued (db.inbox event.inbox_id) h
  replay_by_status-Requeued DeadLetterStatus.replay_queued h =
      elim (Bool-cases (pending_row (db.inbox event.inbox_id))) [
        | inl p ↦ let h' : idempotent ≡ queued db' = rw p at h in cc
        | inr p ↦ let h' : not_open ≡ queued db' = rw p at h in cc
      ]
  replay_by_status-Requeued DeadLetterStatus.resolved h = cc
  replay_by_status-Requeued DeadLetterStatus.ignored h = cc

not_found_lem :
    (now : ℕ) (db db' : Database)
    → replay_found now db none ≡ queued db'
    → Consistent db' × ((l : InboxLease) → InSync l db → InSync l db')
unfolding replay_found
not_found_lem now db db' h = cc

found_lem :
    (now : ℕ) (event : DeadLetterEvent) (db db' : Database)
    → Consistent db
    → replay_found now db (some event) ≡ queued db'
    → Consistent db' × ((l : InboxLease) → InSync l db → InSync l db')
unfolding replay_found
found_lem now event db db' c h = replay_by_status-Requeued now event db db' c event.status h

pub replay_dead_letter-Requeued :
    (now id application_id : ℕ) (db db' : Database)
    → Consistent db
    → replay_dead_letter now id application_id db ≡ queued db'
    → Consistent db' × ((l : InboxLease) → InSync l db → InSync l db')
unfolding replay_dead_letter
replay_dead_letter-Requeued now id application_id db db' c h =
    found (find (is_event id application_id) db.dead_letters) h
  where
    found :
        (o : Option DeadLetterEvent)
        → replay_found now db o ≡ queued db'
        → Consistent db' × ((l : InboxLease) → InSync l db → InSync l db')
    found none f = not_found_lem now db db' f
    found (some event) f = found_lem now event db db' c f

-- A replay of a range of events.
pub reset_one-RowOk :
    (k now : ℕ) (intent : ReplayIntent) (range : ReplayRange) (db : Database) (o : Option InboxRow)
    (row : InboxRow)
    → ((r : InboxRow) → o ≡ some r → RowOk k r (db.settled k))
    → reset_one now intent range db o ≡ some row
    → RowOk k row (if resets range db o then 0 else db.settled k)
reset_one-RowOk k now intent range db none row good h = cc
reset_one-RowOk k now intent range db (some r) row good h =
    elim (Bool-cases (is_reset range db r)) [
      | inl hit ↦
          let h' : some (requeued_row now (some intent) r) ≡ some row = rw hit at h in
          let same : requeued_row now (some intent) r ≡ row = cc in
          rw (hit, ← same) (requeued-RowOk k now 0 (some intent) r (good r refl).keyed refl)
      | inr miss ↦
          let h' : some r ≡ some row = rw miss at h in
          let same : r ≡ row = cc in rw (miss, ← same) (good r refl)
    ]

pub reset_one-leased :
    (now : ℕ) (intent : ReplayIntent) (range : ReplayRange) (db : Database) (o : Option InboxRow)
    (row : InboxRow)
    → reset_one now intent range db o ≡ some row
    → is_leased row.status ≡ true
    → o ≡ some row
reset_one-leased now intent range db none row h held = cc
reset_one-leased now intent range db (some r) row h held = elim (Bool-cases (is_reset range db r)) [
  | inl hit ↦
      let h' : some (requeued_row now (some intent) r) ≡ some row = rw hit at h in
      let same : requeued_row now (some intent) r ≡ row = cc in
      let shut : is_leased row.status ≡ false = rw (← same) refl in cc
  | inr miss ↦ rw miss at h
]
