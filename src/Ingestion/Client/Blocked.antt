-- ===== src/Ingestion/Client/Blocked.antt =====
-- An event whose reservation is not a UUID is never stored, and blocks the spool.
use token_pilot.Base.{ℕ, ◌≡◌, ◌≤◌, false, none, some}
use token_pilot.Spool.{EventRow, SpooledUsageEvent, spooled}
use token_pilot.Ingestion.{Tables, Texts, UsageEvent, find_registry, uuid_or_null}
use token_pilot.Ingestion.Persist.{ValidatedUsageEvent}
use token_pilot.Ingestion.Service.{UsageIngestionOptions, Checks}

-- An event that passes the checks, but has a reservation that is no UUID, and that no other writer
-- registers.
module _ (checks : Checks SpooledUsageEvent) (options : UsageIngestionOptions) (texts : Texts)
    (others : ℕ → Tables → Tables) (app : ℕ) (row : EventRow) (event : UsageEvent)
    (parsed : checks.parse (spooled row) ≡ some event) (proper : checks.property_error event ≡ none)
    (small_event : checks.canonical_bytes event ≤ options.max_event_bytes)
    (no_uuid : uuid_or_null texts event.request.reservation_id ≡ false)
    (others_absent : (n : ℕ) (tables : Tables)
      → find_registry app event.event_id tables ≡ none
      → find_registry app event.event_id (others n tables) ≡ none) where
  abbrev input_of : ValidatedUsageEvent
  input_of = record { index = 0; event = event; payload_hash = checks.canonical_payload_hash event }
