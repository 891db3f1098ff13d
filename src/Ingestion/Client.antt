-- ===== src/Ingestion/Client.antt =====
-- The upload of the SDK's spool (Spool.Reporter) to the service: what the service responds passes the
-- check of the client and is about the events of the batch.
pub mod Delivery
pub mod Blocked
use token_pilot.Base.{
  ℕ, suc, ◌+◌, ◌≡◌, ◌≢◌, ◌≤◌, refl, ap, ◌∙◌, Bool, true, false, ◌&&◌, ◌||◌, Option, none, some,
  List, [], ◌∷◌, map, includes, count_where, ◌==◌, if◌then◌else◌, arith,
}
use token_pilot.Spool.Reporter.{
  ResultStatus, BatchResult, BatchIngestionResponse, Reply, request_failed, response, all_unique,
  counted, is_accepted, is_duplicate, is_conflict, is_rejected,
}
use token_pilot.Spool.{SpooledUsageEvent}
use token_pilot.Ingestion.{Tables, Texts}
use token_pilot.Ingestion.Persist.{
  Serving, UsageIngestionStatus, accepted, duplicate, conflict, rejected,
}
use token_pilot.Ingestion.Service.{
  Checks, UsageIngestionOptions, ingest, ItemCode, ItemMessage, UsageIngestionItemResult,
  same_status, has_status, UsageBatchResponse, Ingested, responded, payload_too_large, bad_request,
  internal_error,
}

abbrev pub wire_status : UsageIngestionStatus → ResultStatus
wire_status accepted = ResultStatus.accepted
wire_status duplicate = ResultStatus.duplicate
wire_status conflict = ResultStatus.conflict
wire_status rejected = ResultStatus.rejected

-- The texts of the codes and the messages.
pub record Wording : Type 0 where
  pub code_text : ItemCode → List ℕ
  pub message_text : ItemMessage → List ℕ

abbrev pub worded {ℓ κ} : {A : Type ℓ} {B : Type κ} → (A → B) → Option A → Option B
worded f none = none
worded f (some a) = some (f a)

abbrev pub wire_item : Wording → UsageIngestionItemResult → BatchResult
wire_item wording item = record {
  index = item.index;
  event_id = item.event_id;
  status = wire_status item.status;
  code = worded wording.code_text item.code;
  message = worded wording.message_text item.message;
}

-- The response as the client reads it.
abbrev pub wire : Wording → UsageBatchResponse → BatchIngestionResponse
wire wording r = record {
  accepted = r.accepted;
  duplicates = r.duplicates;
  conflicts = r.conflicts;
  rejected = r.rejected;
  results = map (wire_item wording) r.results;
}

-- A request that the service does not respond to with a batch response throws in the client.
abbrev pub reply_of : Wording → Ingested → Reply
reply_of wording (responded r serving) = response (wire wording r)
reply_of wording payload_too_large = request_failed
reply_of wording bad_request = request_failed
reply_of wording internal_error = request_failed

-- The service as the client meets it: the request `n` finds it in the state `states n`.
module _ (checks : Checks SpooledUsageEvent) (options : UsageIngestionOptions) (texts : Texts)
    (others : ℕ → Tables → Tables) (app : ℕ) (wording : Wording)
    (batch_bytes : List SpooledUsageEvent → ℕ) (states : ℕ → Serving) where
  abbrev pub service : ℕ → List SpooledUsageEvent → Reply
  service n batch = reply_of wording (
      ingest checks options texts others app
        (record { encoded_bytes = batch_bytes batch; events = some batch }) (states n))

pub count_wire :
    (wording : Wording) (p : ResultStatus → Bool) (s : UsageIngestionStatus)
    → ((item : UsageIngestionItemResult) → p (wire_status item.status) ≡ has_status s item)
    → (items : List UsageIngestionItemResult)
    → counted p (map (wire_item wording) items) ≡ count_where (has_status s) items
count_wire wording p s same [] = refl
count_wire wording p s same (item ∷ items) =
    rw (same item)
      (ap (λ n. (if has_status s item then 1 else 0) + n) (count_wire wording p s same items))

pub accepted_wire :
    (s : UsageIngestionStatus) → is_accepted (wire_status s) ≡ same_status accepted s
accepted_wire s = ground arith

pub duplicate_wire :
    (s : UsageIngestionStatus) → is_duplicate (wire_status s) ≡ same_status duplicate s
duplicate_wire s = ground arith

pub conflict_wire :
    (s : UsageIngestionStatus) → is_conflict (wire_status s) ≡ same_status conflict s
conflict_wire s = ground arith

pub rejected_wire :
    (s : UsageIngestionStatus) → is_rejected (wire_status s) ≡ same_status rejected s
rejected_wire s = ground arith

-- The numbers from the index on.
abbrev pub upwards : ℕ → List UsageIngestionItemResult → List ℕ
upwards index [] = []
upwards index (item ∷ items) = index ∷ upwards (suc index) items

upwards-above :
    (low index : ℕ) (items : List UsageIngestionItemResult)
    → suc low ≤ index
    → includes low (upwards index items) ≡ false
upwards-above low index [] h = refl
upwards-above low index (item ∷ items) h = ground (arith, upwards-above low (suc index) items)

pub upwards_unique :
    (index : ℕ) (items : List UsageIngestionItemResult) → all_unique (upwards index items) ≡ true
upwards_unique index [] = refl
upwards_unique index (item ∷ items) =
    rw (upwards-above index (suc index) items (omega arith)) (upwards_unique (suc index) items)
