-- ===== src/Ingestion/Tests.antt =====
-- An empty registry, two events of one user, and one that the schema refuses.
use token_pilot.Base.{
  All, ltb, ◌≢◌, Bool, ℕ, suc, ◌+◌, ◌≡◌, ◌≤◌, refl, sym, true, Option, none, some, List, [], ◌∷◌,
  map, ap, length, arith,
}
use token_pilot.Spool.{SpooledUsageEvent, EventRow, depth}
use token_pilot.Spool.Invariant.{Inv}
use token_pilot.Spool.Reporter.{Flushing, delivered_all, flush}
use token_pilot.Ingestion.{
  storable, UsageEvent, Tables, Texts, find_registry, upsert_user, see_user, find_model,
}
use token_pilot.Ingestion.Persist.{
  UsageIngestionStatus, Serving, registry_row, create_registry, write_event, reread, commit_event,
  persist_new, persist_event,
}
use token_pilot.Ingestion.Service.{
  UsageIngestionOptions, UsageIngestionItemResult, Checks, Ingested, responded, batch_response,
  item_result, validate_canonical, validate_parsed, validate_event, after_event, ingest_one,
  ingest_all, ingest_events, ingest,
}
use token_pilot.Ingestion.Registered.{Kept}
use token_pilot.Ingestion.Truth.{AllTrue, ingest-True}
use token_pilot.Ingestion.Client.{Wording, service}
use token_pilot.Ingestion.Client.Delivery.{Sound, flush-service}

abbrev event : ℕ → ℕ → UsageEvent
event id body = record {
  event_id = id;
  schema_version = 20;
  event_time = 1000;
  application_version = none;
  sdk_version = none;
  connector_version = none;
  config_version = none;
  user = record { user_id = 70; display_user = some 71 };
  model = record {
    model_id = none;
    connection_id = some 80;
    connection_driver = none;
    virtual_model = some 81;
    request_model = 82;
    provider = none;
  };
  request = record {
    request_id = 90;
    attempt_id = 91;
    attempt_index = 0;
    is_final_attempt = true;
    operation_id = 92;
    reservation_id = some 50;
  };
  route = none;
  instance_id = 1;
  source_type = 2;
  result_status = 3;
  event_properties = none;
  user_properties = none;
  analytics_dimensions = 4;
  body = body;
}

-- An event whose text has three units is what they say; the schema refuses the others.
abbrev parse_text : ℕ → List ℕ → Option UsageEvent
parse_text id (a ∷ b ∷ c ∷ []) = some (event id b)
parse_text id _ = none

abbrev checks : Checks SpooledUsageEvent
checks = record {
  parse = λ item. parse_text item.event_id item.payload.text;
  possible_event_id = λ item. none;
  property_error = λ event. none;
  canonical_bytes = λ event. 300;
  canonical_payload_hash = λ event. event.body;
}

abbrev options : UsageIngestionOptions
options = record { max_batch_size = 1000; max_batch_bytes = 10485760; max_event_bytes = 1048576 }

abbrev texts : Texts
texts = record {
  is_uuid = λ id. ltb id 100;
  is_uuid_value = λ id. ltb id 100;
  to_lower_case = λ text. text;
  fits_columns = λ event. true;
}

abbrev alone : ℕ → Tables → Tables
alone n tables = tables

alone-Kept : (n : ℕ) (tables : Tables) → Kept tables (alone n tables)
alone-Kept n tables app event_id hash r = r

abbrev empty : Serving
empty = record {
  tables = record { registry = []; users = []; connections = []; models = []; next_id = 1 };
  turns = 0;
}

abbrev item : ℕ → ℕ → SpooledUsageEvent
item id body = record {
  event_id = id;
  payload = record { event_id = id; text = 123 ∷ body ∷ 125 ∷ [] };
}

abbrev broken : SpooledUsageEvent
broken = record { event_id = 12; payload = record { event_id = 12; text = [] } }

abbrev batch : List SpooledUsageEvent
batch = item 11 5 ∷ item 11 6 ∷ broken ∷ item 11 5 ∷ []

abbrev id_or : ℕ → Option UsageEvent → ℕ
id_or id (some e) = e.event_id
id_or id none = id

parse_text-keyed :
    (id : ℕ) (text : List ℕ) (e : UsageEvent) → parse_text id text ≡ some e → e.event_id ≡ id
parse_text-keyed id (a ∷ b ∷ c ∷ []) e h = ap (id_or id) (sym h)
parse_text-keyed id [] e h = cc
parse_text-keyed id (a ∷ []) e h = cc
parse_text-keyed id (a ∷ b ∷ []) e h = cc
parse_text-keyed id (a ∷ b ∷ c ∷ d ∷ rest) e h = cc

abbrev able_or : Option UsageEvent → Bool
able_or (some e) = storable texts e
able_or none = true

parse_text_able :
    (id : ℕ) (text : List ℕ) (e : UsageEvent)
    → parse_text id text ≡ some e
    → storable texts e ≡ true
parse_text_able id (a ∷ b ∷ c ∷ []) e h = ap able_or (sym h)
parse_text_able id [] e h = cc
parse_text_able id (a ∷ []) e h = cc
parse_text_able id (a ∷ b ∷ []) e h = cc
parse_text_able id (a ∷ b ∷ c ∷ d ∷ rest) e h = cc

every-Sound : (i : SpooledUsageEvent) → Sound checks texts i
every-Sound i = record {
  keyed = λ e h. parse_text-keyed i.event_id i.payload.text e h;
  possible = λ id h. cc;
  able = λ e h. parse_text_able i.event_id i.payload.text e h;
}

able_items :
    (items : List SpooledUsageEvent)
    → All (λ i. (e : UsageEvent) → checks.parse i ≡ some e → storable texts e ≡ true) items
able_items [] = tt
able_items (i ∷ items) = ((every-Sound i).able, able_items items)

some_event : batch ≢ []
some_event h = cc

ingest-True_example :
    (results : List UsageIngestionItemResult) × (after : Serving) × (ingest checks options texts
        alone 7
        (record { encoded_bytes = 900; events = some batch })
        empty
      ≡ responded (batch_response results) after)
    × Kept empty.tables after.tables
    × AllTrue checks options 7 0 empty.tables after.tables batch results
ingest-True_example =
    ingest-True checks options 7 texts alone alone-Kept 900 batch empty some_event
      (able_items batch) (omega arith) (omega arith)

abbrev statuses : Ingested → List UsageIngestionStatus
statuses (responded r serving) = map (λ result. result.status) r.results
statuses _ = []

-- Accepted, another text under its identifier, refused, and the first again.
batch-statuses :
    statuses (
      ingest checks options texts alone 7
        (record { encoded_bytes = 900; events = some batch })
        empty)
    ≡ UsageIngestionStatus.accepted ∷ UsageIngestionStatus.conflict ∷ UsageIngestionStatus.rejected
      ∷ UsageIngestionStatus.duplicate ∷ []
unfolding ingest ingest_events ingest_all ingest_one after_event validate_event validate_parsed
    validate_canonical item_result batch_response persist_event persist_new commit_event reread
    write_event create_registry registry_row find_registry upsert_user see_user find_model
batch-statuses = refl

abbrev wording : Wording
wording = record { code_text = λ code. 67 ∷ []; message_text = λ message. [] }

abbrev batch_bytes : List SpooledUsageEvent → ℕ
batch_bytes items = 100 + length items

small :
    (items : List SpooledUsageEvent)
    → length items ≤ 50
    → batch_bytes items ≤ options.max_batch_bytes
small items h = omega (arith, h)

abbrev row : ℕ → EventRow
row id = record {
  event_id = id;
  payload = record { event_id = id; text = 123 ∷ 5 ∷ 125 ∷ [] };
  created_at = 5;
}

abbrev run : Flushing
run = record {
  spool = record { usage_events = row 11 ∷ row 12 ∷ []; usage_rejected = [] };
  delivered = 0;
  errors = [];
  requests = 0;
}

run-Inv : Inv run.spool
run-Inv = record { unique = (refl, (refl, tt)); apart = λ id h. refl }

abbrev states : ℕ → Serving
states n = empty

abbrev clock : ℕ → ℕ
clock n = n

flush-service_example :
    (end : Flushing) × (flush
        (service checks options texts alone 7 wording batch_bytes states)
        clock
        50
        (suc (depth run.spool))
        run
      ≡ delivered_all end.delivered end)
    × (end.spool.usage_events ≡ [])
    × (end.delivered + length end.spool.usage_rejected
        ≡ depth run.spool + length run.spool.usage_rejected)
flush-service_example =
    flush-service checks options texts alone alone-Kept 7 wording batch_bytes states clock 50
      (omega arith) (omega arith) small run run-Inv (every-Sound _, (every-Sound _, tt))

-- An identifier of a reservation that is not a UUID.
abbrev odd_event : UsageEvent
odd_event = record (event 11 5) {
  request = record {
    request_id = 90;
    attempt_id = 91;
    attempt_index = 0;
    is_final_attempt = true;
    operation_id = 92;
    reservation_id = some 500;
  };
}

abbrev odd_checks : Checks SpooledUsageEvent
odd_checks = record checks { parse = λ i. some odd_event }
