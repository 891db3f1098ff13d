-- ===== src/Ingestion/Persist.antt =====
-- The write of one event, among the writes of others: persistEvent of
-- apps/api/src/usage-ingestion.service.ts.
use token_pilot.Base.{
  not, ◌&&◌, ℕ, suc, Option, none, some, [], ◌∷◌, ◌++◌, find, any, ◌==◌, if◌then◌else◌,
}
use token_pilot.Ingestion.{
  UsageEvent, uuid_or_null, ApplicationUser, CallConnection, ModelDefinition, UsageEventRegistry,
  Tables, Texts, is_event, find_registry, is_user, upsert_user, see_user, valid_id, find_connection,
  find_model, model_id_of, connection_id_of, driver_of, reason_of, fallback_of,
}

pub data UsageIngestionStatus : Type 0 where
  accepted : UsageIngestionStatus
  duplicate : UsageIngestionStatus
  conflict : UsageIngestionStatus
  rejected : UsageIngestionStatus

pub record ValidatedUsageEvent : Type 0 where
  pub index : ℕ
  pub event : UsageEvent
  pub payload_hash : ℕ

unfoldable pub registry_row :
    Texts
    → ℕ
    → ValidatedUsageEvent
    → ApplicationUser
    → Option CallConnection
    → Option ModelDefinition
    → UsageEventRegistry
registry_row texts app input user connection model =
    let event = input.event in
    record {
      application_id = app;
      application_version = event.application_version;
      sdk_version = event.sdk_version;
      connector_version = event.connector_version;
      config_version = event.config_version;
      external_user_id = event.user.user_id;
      user_name = event.user.display_user;
      event_properties = event.event_properties;
      user_properties = event.user_properties;
      application_user_id = user.id;
      virtual_model = event.model.virtual_model;
      real_model_id = model_id_of model;
      request_model = event.model.request_model;
      connection_id = connection_id_of model connection;
      connection_driver = driver_of texts event model connection;
      reservation_id = event.request.reservation_id;
      event_id = event.event_id;
      schema_version = event.schema_version;
      payload_hash = input.payload_hash;
      request_id = event.request.request_id;
      attempt_id = event.request.attempt_id;
      attempt_index = event.request.attempt_index;
      is_final_attempt = event.request.is_final_attempt;
      operation_id = event.request.operation_id;
      instance_id = event.instance_id;
      provider = event.model.provider;
      result_status = event.result_status;
      route_reason = reason_of event.route;
      fallback_from = fallback_of event.route;
      event_time = event.event_time;
      source_type = event.source_type;
      analytics_dimensions = event.analytics_dimensions;
      inbox_payload = event;
    }

-- How the writes of a transaction end.
pub data Written : Type 0 where
  written : Tables → Written
  unique_conflict : Written
  refused_value : Written

-- The insert into the registry and its inbox. The database refuses a value that is not of its
-- column's type, and a second row of an event.
unfoldable pub create_registry : Texts → UsageEventRegistry → Tables → Written
create_registry texts row tables =
    if not (uuid_or_null texts row.reservation_id && texts.fits_columns row.inbox_payload)
    then refused_value
    else if any (is_event row.application_id row.event_id) tables.registry
    then unique_conflict
    else written (record tables { registry = tables.registry ++ (row ∷ []) })

-- The writes of the transaction after its first read.
unfoldable pub write_event : Texts → ℕ → ValidatedUsageEvent → Tables → Written
write_event texts app input tables =
    let event = input.event in
    let (user, upserted) =
      upsert_user app event tables (find (is_user app event.user.user_id) tables.users) in
    let seen_user = see_user app event.event_time user upserted in
    let connection = find_connection app seen_user (valid_id texts event.model.connection_id) in
    let model = find_model app event seen_user connection (valid_id texts event.model.model_id) in
    create_registry texts (registry_row texts app input user connection model) seen_user

abbrev pub status_for_existing : UsageEventRegistry → ℕ → UsageIngestionStatus
status_for_existing existing payload_hash =
    if existing.payload_hash == payload_hash then duplicate else conflict

-- The committed tables, and how often the others had a turn.
pub record Serving : Type 0 where
  pub tables : Tables
  pub turns : ℕ

pub data Persisted : Type 0 where
  told : UsageIngestionStatus → Serving → Persisted
  thrown : Persisted

-- `others` is what other writers commit in between.
module _ (texts : Texts) (others : ℕ → Tables → Tables) (app : ℕ)
    (input : ValidatedUsageEvent) where
  abbrev pub let_others : Serving → Serving
  let_others serving = record {
    tables = others serving.turns serving.tables;
    turns = suc serving.turns;
  }

  -- After a unique conflict: the transaction is undone, and the hash is read again.
  unfoldable pub reread : Option UsageEventRegistry → Serving → Persisted
  reread none serving = thrown
  reread (some existing) serving = told (status_for_existing existing input.payload_hash) serving

  unfoldable pub commit_event : Written → Serving → Persisted
  commit_event (written tables) serving = told accepted (record serving { tables = tables })
  commit_event refused_value serving = thrown
  commit_event unique_conflict serving =
      let later = let_others serving in
      reread (find_registry app input.event.event_id later.tables) later

  unfoldable pub persist_new : Option UsageEventRegistry → Serving → Persisted
  persist_new (some existing) serving =
      told (status_for_existing existing input.payload_hash) serving
  persist_new none serving =
      let later = let_others serving in
      commit_event (write_event texts app input later.tables) later

  unfoldable pub persist_event : Serving → Persisted
  persist_event serving =
      let now = let_others serving in
      persist_new (find_registry app input.event.event_id now.tables) now
