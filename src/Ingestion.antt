-- ===== src/Ingestion.antt =====
-- The tables that the ingestion of usage events reads and writes, and the write of one event:
-- persistEvent of apps/api/src/usage-ingestion.service.ts.
pub mod Persist
pub mod Service
pub mod Registered
pub mod Truth
pub mod Client
pub mod Properties
mod Tests
use token_pilot.Base.{
  ℕ, suc, ◌+◌, Bool, true, ◌&&◌, ◌||◌, Option, none, some, List, [], ◌∷◌, ◌++◌, find, update_where,
  ltb, ◌==◌, if◌then◌else◌,
}

-- The event, with the members that are written to the tables. `body` is the whole.
pub record EventUser : Type 0 where
  pub user_id : ℕ
  pub display_user : Option ℕ

pub record EventModel : Type 0 where
  pub model_id : Option ℕ
  pub connection_id : Option ℕ
  pub connection_driver : Option ℕ
  pub virtual_model : Option ℕ
  pub request_model : ℕ
  pub provider : Option ℕ

pub record EventRequest : Type 0 where
  pub request_id : ℕ
  pub attempt_id : ℕ
  pub attempt_index : ℕ
  pub is_final_attempt : Bool
  pub operation_id : ℕ
  pub reservation_id : Option ℕ

pub record EventRoute : Type 0 where
  pub reason : Option ℕ
  pub fallback_from : Option ℕ

pub record UsageEvent : Type 0 where
  pub event_id : ℕ
  pub schema_version : ℕ
  pub event_time : ℕ
  pub application_version : Option ℕ
  pub sdk_version : Option ℕ
  pub connector_version : Option ℕ
  pub config_version : Option ℕ
  pub user : EventUser
  pub model : EventModel
  pub request : EventRequest
  pub route : Option EventRoute
  pub instance_id : ℕ
  pub source_type : ℕ
  pub result_status : ℕ
  pub event_properties : Option ℕ
  pub user_properties : Option ℕ
  pub analytics_dimensions : ℕ
  pub body : ℕ

pub record ApplicationUser : Type 0 where
  pub id : ℕ
  pub application_id : ℕ
  pub external_id : ℕ
  pub name : Option ℕ
  pub properties : Option ℕ
  pub first_seen_at : ℕ
  pub last_seen_at : ℕ

pub record CallConnection : Type 0 where
  pub id : ℕ
  pub application_id : ℕ
  pub driver : ℕ

-- `driver` is that of the definition's connection.
pub record ModelDefinition : Type 0 where
  pub id : ℕ
  pub application_id : ℕ
  pub connection_id : ℕ
  pub request_model : ℕ
  pub enabled : Bool
  pub driver : ℕ

-- A row of the registry. `inbox_payload` is that of its row in the inbox, created with it.
pub record UsageEventRegistry : Type 0 where
  pub application_id : ℕ
  pub application_version : Option ℕ
  pub sdk_version : Option ℕ
  pub connector_version : Option ℕ
  pub config_version : Option ℕ
  pub external_user_id : ℕ
  pub user_name : Option ℕ
  pub event_properties : Option ℕ
  pub user_properties : Option ℕ
  pub application_user_id : ℕ
  pub virtual_model : Option ℕ
  pub real_model_id : Option ℕ
  pub request_model : ℕ
  pub connection_id : Option ℕ
  pub connection_driver : Option ℕ
  pub reservation_id : Option ℕ
  pub event_id : ℕ
  pub schema_version : ℕ
  pub payload_hash : ℕ
  pub request_id : ℕ
  pub attempt_id : ℕ
  pub attempt_index : ℕ
  pub is_final_attempt : Bool
  pub operation_id : ℕ
  pub instance_id : ℕ
  pub provider : Option ℕ
  pub result_status : ℕ
  pub route_reason : Option ℕ
  pub fallback_from : Option ℕ
  pub event_time : ℕ
  pub source_type : ℕ
  pub analytics_dimensions : ℕ
  pub inbox_payload : UsageEvent

-- `next_id` is the identifier that the database gives to the next user.
pub record Tables : Type 0 where
  pub registry : List UsageEventRegistry
  pub users : List ApplicationUser
  pub connections : List CallConnection
  pub models : List ModelDefinition
  pub next_id : ℕ

abbrev pub is_event : ℕ → ℕ → UsageEventRegistry → Bool
is_event app event_id row = row.application_id == app && row.event_id == event_id

unfoldable pub find_registry : ℕ → ℕ → Tables → Option UsageEventRegistry
find_registry app event_id tables = find (is_event app event_id) tables.registry

abbrev pub is_user : ℕ → ℕ → ApplicationUser → Bool
is_user app external_id user = user.application_id == app && user.external_id == external_id

abbrev pub or_none : Option ℕ → Option ℕ → Option ℕ
or_none (some a) other = some a
or_none none other = other

-- The `update` of the upsert, which leaves out what the event does not have.
abbrev pub update_user : UsageEvent → ApplicationUser → ApplicationUser
update_user event user = record user {
  name = or_none event.user.display_user user.name;
  properties = or_none event.user_properties user.properties;
}

abbrev pub new_user : ℕ → UsageEvent → ℕ → ApplicationUser
new_user app event id = record {
  id = id;
  application_id = app;
  external_id = event.user.user_id;
  name = event.user.display_user;
  properties = event.user_properties;
  first_seen_at = event.event_time;
  last_seen_at = event.event_time;
}

-- The user's row after the upsert, and the users with it.
unfoldable pub upsert_user :
    ℕ → UsageEvent → Tables → Option ApplicationUser → ApplicationUser × Tables
upsert_user app event tables (some user) = (
  update_user event user,
  record tables {
    users = update_where (is_user app event.user.user_id) (update_user event) tables.users;
  },
)
upsert_user app event tables none =
    let user = new_user app event tables.next_id in
    (user, record tables { users = tables.users ++ (user ∷ []); next_id = suc tables.next_id })

-- The two `updateMany`, which widen the time in which the user was seen.
abbrev pub seen : ℕ → ApplicationUser → ApplicationUser
seen time user = record user {
  first_seen_at = if ltb time user.first_seen_at then time else user.first_seen_at;
  last_seen_at = if ltb user.last_seen_at time then time else user.last_seen_at;
}

unfoldable pub see_user : ℕ → ℕ → ApplicationUser → Tables → Tables
see_user app time user tables = record tables {
  users = update_where (λ u. u.id == user.id && u.application_id == app) (seen time) tables.users;
}

-- The tests of an identifier and of a text that the program takes from its libraries, and what the
-- columns of the database take.
pub record Texts : Type 0 where
  pub is_uuid : ℕ → Bool
  pub to_lower_case : ℕ → ℕ
  -- Whether the database reads a text as a UUID.
  pub is_uuid_value : ℕ → Bool
  -- Whether the other members of an event fit the types of their columns.
  pub fits_columns : UsageEvent → Bool

abbrev pub uuid_or_null : Texts → Option ℕ → Bool
uuid_or_null texts none = true
uuid_or_null texts (some id) = texts.is_uuid_value id

-- What the columns take: `reservation_id` is a UUID or null, where the contract allows any identifier.
abbrev pub storable : Texts → UsageEvent → Bool
storable texts event = uuid_or_null texts event.request.reservation_id && texts.fits_columns event

abbrev pub valid_id : Texts → Option ℕ → Option ℕ
valid_id texts none = none
valid_id texts (some id) = if texts.is_uuid id then some id else none

abbrev pub find_connection : ℕ → Tables → Option ℕ → Option CallConnection
find_connection app tables none = none
find_connection app tables (some id) =
    find (λ c. c.id == id && c.application_id == app) tables.connections

abbrev pub connection_fits : Option CallConnection → ModelDefinition → Bool
connection_fits none model = true
connection_fits (some connection) model = model.connection_id == connection.id

unfoldable pub find_model :
    ℕ → UsageEvent → Tables → Option CallConnection → Option ℕ → Option ModelDefinition
find_model app event tables connection (some id) =
    find
      (λ m.
        m.id == id
        && (m.application_id == app
            && (m.request_model == event.model.request_model && connection_fits connection m)))
      tables.models
find_model app event tables none none = none
find_model app event tables (some connection) none =
    find
      (λ m.
        m.application_id == app
        && (m.connection_id == connection.id
            && (m.request_model == event.model.request_model && m.enabled)))
      tables.models

abbrev pub model_id_of : Option ModelDefinition → Option ℕ
model_id_of none = none
model_id_of (some model) = some model.id

abbrev pub connection_id_of : Option ModelDefinition → Option CallConnection → Option ℕ
connection_id_of (some model) connection = some model.connection_id
connection_id_of none (some connection) = some connection.id
connection_id_of none none = none

abbrev pub driver_of :
    Texts → UsageEvent → Option ModelDefinition → Option CallConnection → Option ℕ
driver_of texts event (some model) connection = some (texts.to_lower_case model.driver)
driver_of texts event none (some connection) = some (texts.to_lower_case connection.driver)
driver_of texts event none none = event.model.connection_driver

abbrev pub reason_of : Option EventRoute → Option ℕ
reason_of none = none
reason_of (some route) = route.reason

abbrev pub fallback_of : Option EventRoute → Option ℕ
fallback_of none = none
fallback_of (some route) = route.fallback_from
