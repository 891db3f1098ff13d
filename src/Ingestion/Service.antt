-- ===== src/Ingestion/Service.antt =====
-- The ingestion of a batch: ingest and validateEvent of apps/api/src/usage-ingestion.service.ts.
use token_pilot.Base.{
  ℕ, suc, Bool, true, false, Option, none, some, List, [], ◌∷◌, length, count_where, ltb,
  if◌then◌else◌,
}
use token_pilot.Ingestion.{UsageEvent, Texts, Tables}
use token_pilot.Ingestion.Persist.{
  UsageIngestionStatus, accepted, duplicate, conflict, rejected, ValidatedUsageEvent, Serving,
  Persisted, told, thrown, persist_event,
}

pub data ItemCode : Type 0 where
  invalid_event : ItemCode
  invalid_property : ItemCode
  event_too_large : ItemCode
  payload_hash_conflict : ItemCode

-- The messages, by what is written into them.
pub data ItemMessage : Type 0 where
  not_satisfied : ItemMessage
  of_property : ℕ → ItemMessage
  exceeds_bytes : ℕ → ItemMessage
  different_hash : ItemMessage

pub record UsageIngestionItemResult : Type 0 where
  pub index : ℕ
  pub event_id : Option ℕ
  pub status : UsageIngestionStatus
  pub code : Option ItemCode
  pub message : Option ItemMessage

pub record UsageIngestionOptions : Type 0 where
  pub max_batch_size : ℕ
  pub max_batch_bytes : ℕ
  pub max_event_bytes : ℕ

-- The checks of one member of a batch: the event schema, the identifier of what fails it, the
-- properties by their definitions, the bytes of the canonical JSON text and its hash.
pub record Checks {ℓ} (Candidate : Type ℓ) : Type ℓ where
  pub parse : Candidate → Option UsageEvent
  pub possible_event_id : Candidate → Option ℕ
  pub property_error : UsageEvent → Option ℕ
  pub canonical_bytes : UsageEvent → ℕ
  pub canonical_payload_hash : UsageEvent → ℕ

pub data Validated : Type 0 where
  refused : UsageIngestionItemResult → Validated
  valid : ValidatedUsageEvent → Validated

abbrev pub rejected_item : ℕ → Option ℕ → ItemCode → ItemMessage → UsageIngestionItemResult
rejected_item index event_id code message = record {
  index = index;
  event_id = event_id;
  status = rejected;
  code = some code;
  message = some message;
}

unfoldable pub item_result : ValidatedUsageEvent → UsageIngestionStatus → UsageIngestionItemResult
item_result input conflict = record {
  index = input.index;
  event_id = some input.event.event_id;
  status = conflict;
  code = some payload_hash_conflict;
  message = some different_hash;
}
item_result input status = record {
  index = input.index;
  event_id = some input.event.event_id;
  status = status;
  code = none;
  message = none;
}

abbrev pub same_status : UsageIngestionStatus → UsageIngestionStatus → Bool
same_status accepted accepted = true
same_status duplicate duplicate = true
same_status conflict conflict = true
same_status rejected rejected = true
same_status _ _ = false

abbrev pub has_status : UsageIngestionStatus → UsageIngestionItemResult → Bool
has_status status item = same_status status item.status

pub record UsageBatchResponse : Type 0 where
  pub accepted : ℕ
  pub duplicates : ℕ
  pub conflicts : ℕ
  pub rejected : ℕ
  pub results : List UsageIngestionItemResult

-- A request: the bytes of its JSON text, and its events where the rest of the envelope is right.
pub record BatchInput {ℓ} (Candidate : Type ℓ) : Type ℓ where
  pub encoded_bytes : ℕ
  pub events : Option (List Candidate)

pub data Looped : Type 0 where
  looped : List UsageIngestionItemResult → Serving → Looped
  stopped : Looped

pub data Ingested : Type 0 where
  responded : UsageBatchResponse → Serving → Ingested
  payload_too_large : Ingested
  bad_request : Ingested
  internal_error : Ingested

abbrev pub with_item : UsageIngestionItemResult → Looped → Looped
with_item item (looped items serving) = looped (item ∷ items) serving
with_item item stopped = stopped

unfoldable pub batch_response : List UsageIngestionItemResult → UsageBatchResponse
batch_response items = record {
  accepted = count_where (has_status accepted) items;
  duplicates = count_where (has_status duplicate) items;
  conflicts = count_where (has_status conflict) items;
  rejected = count_where (has_status rejected) items;
  results = items;
}

abbrev pub answer_of : Looped → Ingested
answer_of (looped items serving) = responded (batch_response items) serving
answer_of stopped = internal_error

module _ {ℓ} {Candidate : Type ℓ} (checks : Checks Candidate)
    (options : UsageIngestionOptions) where
  unfoldable pub validate_canonical : ℕ → UsageEvent → Option ℕ → Validated
  validate_canonical index event (some error) =
      refused (rejected_item index (some event.event_id) invalid_property (of_property error))
  validate_canonical index event none =
      if ltb options.max_event_bytes (checks.canonical_bytes event)
      then refused (
          rejected_item index (some event.event_id) event_too_large
            (exceeds_bytes options.max_event_bytes))
      else valid (record {
        index = index;
        event = event;
        payload_hash = checks.canonical_payload_hash event;
      })

  unfoldable pub validate_parsed : ℕ → Candidate → Option UsageEvent → Validated
  validate_parsed index candidate none =
      refused (rejected_item index (checks.possible_event_id candidate) invalid_event not_satisfied)
  validate_parsed index candidate (some event) =
      validate_canonical index event (checks.property_error event)

  unfoldable pub validate_event : ℕ → Candidate → Validated
  validate_event index candidate = validate_parsed index candidate (checks.parse candidate)

  module _ (texts : Texts) (others : ℕ → Tables → Tables) (app : ℕ) where
    -- The rest of the loop after what was written for one event.
    unfoldable pub after_event : (Serving → Looped) → ValidatedUsageEvent → Persisted → Looped
    after_event rest input (told status serving) =
        with_item (item_result input status) (rest serving)
    after_event rest input thrown = stopped

    unfoldable pub ingest_one : (Serving → Looped) → Validated → Serving → Looped
    ingest_one rest (refused item) serving = with_item item (rest serving)
    ingest_one rest (valid input) serving =
        after_event rest input (persist_event texts others app input serving)

    unfoldable pub ingest_all : ℕ → List Candidate → Serving → Looped
    ingest_all index [] serving = looped [] serving
    ingest_all index (candidate ∷ candidates) serving =
        ingest_one (ingest_all (suc index) candidates) (validate_event index candidate) serving

    unfoldable pub ingest_events : Option (List Candidate) → Serving → Ingested
    ingest_events none serving = bad_request
    ingest_events (some []) serving = bad_request
    ingest_events (some (first ∷ rest)) serving =
        if ltb options.max_batch_size (length (first ∷ rest))
        then payload_too_large
        else answer_of (ingest_all 0 (first ∷ rest) serving)

    unfoldable pub ingest : BatchInput Candidate → Serving → Ingested
    ingest input serving =
        if ltb options.max_batch_bytes input.encoded_bytes
        then payload_too_large
        else ingest_events input.events serving
