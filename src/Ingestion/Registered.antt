-- ===== src/Ingestion/Registered.antt =====
-- What the writes of one event leave in the registry, among writers who never take an event out of it
-- nor change its hash.
use token_pilot.Base.{
  ◌&&◌, ℕ, ◌≡◌, ◌≢◌, refl, sym, ◌∙◌, true, Option, none, some, [], ◌∷◌, find, any, ◌==◌, Bool-cases,
  Option-cases, inl, inr, arith, ==_iff,
}
use token_pilot.Base.Search.{find-none, find-any, find-append_one, find-append_hit}
use token_pilot.Ingestion.{
  UsageEventRegistry, ApplicationUser, Tables, Texts, uuid_or_null, storable, is_event,
  find_registry, is_user, upsert_user, see_user,
}
use token_pilot.Ingestion.Persist.{
  UsageIngestionStatus, accepted, duplicate, conflict, rejected, ValidatedUsageEvent, Serving,
  Persisted, Written, written, unique_conflict, refused_value, told, registry_row, create_registry,
  write_event, status_for_existing, let_others, reread, commit_event, persist_new, persist_event,
}

-- The event is in the registry, with the hash.
pub record Registered (app event_id hash : ℕ) (tables : Tables) : Type 0 where
  pub row : UsageEventRegistry
  pub found : find_registry app event_id tables ≡ some row
  pub same_hash : row.payload_hash ≡ hash

abbrev pub Kept : Tables → Tables → Type 0
Kept before after =
    (app event_id hash : ℕ)
    → Registered app event_id hash before
    → Registered app event_id hash after

pub absent_before :
    (app event_id : ℕ) (before after : Tables)
    → Kept before after
    → find_registry app event_id after ≡ none
    → find_registry app event_id before ≡ none
absent_before app event_id before after kept h =
    elim (Option-cases (find_registry app event_id before)) [
      | inl e ↦ e
      | inr (row, e) ↦
          let r =
            kept app event_id row.payload_hash
              (record { row = row; found = e; same_hash = refl }) in
          let clash : none ≡ some r.row = sym h ∙ r.found in cc
    ]

-- What a status says of the registry.
abbrev pub Told : ℕ → ValidatedUsageEvent → Tables → Tables → UsageIngestionStatus → Type 0
Told app input before after accepted =
    (find_registry app input.event.event_id before ≡ none)
    × Registered app input.event.event_id input.payload_hash after
Told app input before after duplicate = Registered app input.event.event_id input.payload_hash after
Told app input before after conflict =
    (hash : ℕ) × (hash ≢ input.payload_hash) × Registered app input.event.event_id hash after
Told app input before after rejected = ⊥

pub Kept-then : (a b c : Tables) → Kept a b → Kept b c → Kept a c
Kept-then a b c h k app event_id hash r = k app event_id hash (h app event_id hash r)

-- A status stays true when more was kept before and after.
pub Told-wider :
    (app : ℕ) (input : ValidatedUsageEvent) (a b c d : Tables) (status : UsageIngestionStatus)
    → Kept a b
    → Kept c d
    → Told app input b c status
    → Told app input a d status
Told-wider app input a b c d accepted h k (fresh, r) =
    (absent_before app input.event.event_id a b h fresh, k _ _ _ r)
Told-wider app input a b c d duplicate h k r = k _ _ _ r
Told-wider app input a b c d conflict h k (hash, other, r) = (hash, other, k _ _ _ r)
Told-wider app input a b c d rejected h k r = r

-- The registry is the same list.
same-Kept : (before after : Tables) → after.registry ≡ before.registry → Kept before after
unfolding find_registry
same-Kept before after same app event_id hash r = record {
  row = r.row;
  found = rw same r.found;
  same_hash = r.same_hash;
}

upsert_user-registry :
    (app : ℕ) (input : ValidatedUsageEvent) (tables : Tables) (o : Option ApplicationUser)
    → (upsert_user app input.event tables o).1.registry ≡ tables.registry
unfolding upsert_user
upsert_user-registry app input tables none = refl
upsert_user-registry app input tables (some user) = refl

see_user-registry :
    (app time : ℕ) (user : ApplicationUser) (tables : Tables)
    → (see_user app time user tables).registry ≡ tables.registry
unfolding see_user
see_user-registry app time user tables = refl

-- What an insert of the event into the registry leaves.
pub data Inserted (app event_id hash : ℕ) (tables : Tables) : Written → Type 0 where
  clash :
      (old : UsageEventRegistry)
      → find_registry app event_id tables ≡ some old
      → Inserted app event_id hash tables unique_conflict
  inserted :
      (after : Tables)
      → find_registry app event_id tables ≡ none
      → Kept tables after
      → Registered app event_id hash after
      → Inserted app event_id hash tables (written after)

create_registry-Inserted :
    (texts : Texts) (row : UsageEventRegistry) (tables : Tables)
    → (uuid_or_null texts row.reservation_id && texts.fits_columns row.inbox_payload) ≡ true
    → Inserted row.application_id row.event_id row.payload_hash tables
        (create_registry texts row tables)
unfolding create_registry find_registry
create_registry-Inserted texts row tables fits =
    rw fits (elim (Bool-cases (any (is_event row.application_id row.event_id) tables.registry)) [
      | inl taken ↦
          let (old, e) =
            find-any (is_event row.application_id row.event_id) tables.registry taken in
          rw taken (clash old e)
      | inr free ↦
          let here : is_event row.application_id row.event_id row ≡ true = ground arith in
          rw free (
            inserted _ (find-none (is_event row.application_id row.event_id) tables.registry free)
              (λ app event_id hash r. record {
                row = r.row;
                found =
                    find-append_hit (is_event app event_id) tables.registry (row ∷ []) r.row
                      r.found;
                same_hash = r.same_hash;
              })
              (record {
                row = row;
                found =
                    find-append_one (is_event row.application_id row.event_id) tables.registry row
                      free
                    ∙ rw here refl;
                same_hash = refl;
              }))
    ])

-- The tables that an insert starts from may differ outside the registry.
before_Inserted :
    (app event_id hash : ℕ) (before tables : Tables) (after : Written)
    → tables.registry ≡ before.registry
    → Inserted app event_id hash tables after
    → Inserted app event_id hash before after
unfolding find_registry
before_Inserted app event_id hash before tables unique_conflict same (clash old e) =
    clash old (rw same at e)
before_Inserted app event_id hash before tables refused_value same i = elim i [ ]
before_Inserted app event_id hash before tables (written after) same (inserted _ e kept r) =
    inserted after (rw same at e)
      (λ a i h held. kept a i h (same-Kept before tables same a i h held)) r

module _ (texts : Texts) (app : ℕ) (input : ValidatedUsageEvent)
    (fits : storable texts input.event ≡ true) where
  write_event-Inserted :
      (tables : Tables)
      → Inserted app input.event.event_id input.payload_hash tables
          (write_event texts app input tables)
  unfolding write_event registry_row
  write_event-Inserted tables =
      let (user, upserted) =
        upsert_user app input.event tables
          (find (is_user app input.event.user.user_id) tables.users) in
      let seen_user = see_user app input.event.event_time user upserted in
      before_Inserted app input.event.event_id input.payload_hash tables seen_user _
        (see_user-registry app input.event.event_time user upserted
          ∙ upsert_user-registry app input tables _)
        (create_registry-Inserted texts _ seen_user fits)

  module _ (others : ℕ → Tables → Tables)
      (others-Kept : (n : ℕ) (tables : Tables) → Kept tables (others n tables)) where
    -- How the write of the event ends.
    abbrev pub Ends : Serving → Persisted → Type 0
    Ends serving persisted =
        (status : UsageIngestionStatus) × (after : Serving) × (persisted ≡ told status after)
        × Kept serving.tables after.tables
        × Told app input serving.tables after.tables status

    status-Told :
        (before after : Tables) (row : UsageEventRegistry)
        → find_registry app input.event.event_id after ≡ some row
        → Told app input before after (status_for_existing row input.payload_hash)
    status-Told before after row e = elim (Bool-cases (row.payload_hash == input.payload_hash)) [
      | inl same ↦ rw same (record {
        row = row;
        found = e;
        same_hash = (==_iff row.payload_hash input.payload_hash).0 same;
      })
      | inr differ ↦
          rw differ
            (row.payload_hash, ground arith, record { row = row; found = e; same_hash = refl })
    ]

    commit_event-Ends :
        (serving : Serving) (o : Written)
        → Inserted app input.event.event_id input.payload_hash serving.tables o
        → Ends serving (commit_event texts others app input o serving)
    unfolding commit_event reread
    commit_event-Ends serving (written after) (inserted _ fresh kept r) =
        (accepted, record serving { tables = after }, refl, kept, (fresh, r))
    commit_event-Ends serving refused_value i = elim i [ ]
    commit_event-Ends serving unique_conflict (clash old e) =
        let kept = others-Kept serving.turns serving.tables in
        let r =
          kept app input.event.event_id old.payload_hash
            (record { row = old; found = e; same_hash = refl }) in
        (
          status_for_existing r.row input.payload_hash,
          let_others texts others app input serving,
          rw r.found refl,
          kept,
          status-Told serving.tables (others serving.turns serving.tables) r.row r.found,
        )

    after_turn :
        (serving : Serving) (persisted : Persisted)
        → Ends (let_others texts others app input serving) persisted
        → Ends serving persisted
    after_turn serving persisted (status, after, e, kept, true_of) =
        let now = others serving.turns serving.tables in
        let turn = others-Kept serving.turns serving.tables in
        (
          status,
          after,
          e,
          Kept-then serving.tables now after.tables turn kept,
          Told-wider app input serving.tables now after.tables after.tables status turn
              (λ _ _ _ r. r) true_of,
        )

    persist_new-Ends :
        (serving : Serving) (o : Option UsageEventRegistry)
        → find_registry app input.event.event_id serving.tables ≡ o
        → Ends serving (persist_new texts others app input o serving)
    unfolding persist_new
    persist_new-Ends serving (some row) e = (
      status_for_existing row input.payload_hash,
      serving,
      refl,
      (λ _ _ _ r. r),
      status-Told serving.tables serving.tables row e,
    )
    persist_new-Ends serving none e = after_turn serving _ (
        commit_event-Ends (let_others texts others app input serving) _
          (write_event-Inserted (others serving.turns serving.tables)))

    -- The write of an event that the columns take always ends with a status, which is true of the registry, and keeps what
    -- was in it.
    pub persist_event-Ends :
        (serving : Serving) → Ends serving (persist_event texts others app input serving)
    unfolding persist_event
    persist_event-Ends serving = after_turn serving _ (persist_new-Ends _ _ refl)
