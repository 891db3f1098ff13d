-- ===== src/Ingestion/Client/Delivery.antt =====
-- The upload of the SDK's spool to the service ends.
use mathlib.Core.Path.{ap₂}
use token_pilot.Base.{
  ℕ, suc, ◌+◌, ◌≡◌, ◌≢◌, ◌≤◌, refl, ap, ◌∙◌, true, Option, none, some, List, [], ◌∷◌, map, length,
  count_where, ltb, ==-self, All, All-map, Bool-cases, inl, inr, arith,
}
use token_pilot.Spool.{SpooledUsageEvent, depth, spooled}
use token_pilot.Spool.Invariant.{Inv}
use token_pilot.Spool.Reporter.{
  Reply, Flushing, delivered_all, response_valid, or_else, subject, nth, flush, is_accepted,
  is_duplicate, is_conflict, is_rejected,
}
use token_pilot.Spool.Flush.{Answers, flush-Delivered_where}
use token_pilot.Spool.Progress.{names}
use token_pilot.Ingestion.{Tables, Texts, UsageEvent, storable}
use token_pilot.Ingestion.Persist.{accepted, duplicate, conflict, rejected, Serving}
use token_pilot.Ingestion.Service.{
  UsageIngestionItemResult, UsageIngestionOptions, Checks, Validated, refused, valid, has_status,
  batch_response, validate_event, validate_parsed, validate_canonical,
}
use token_pilot.Ingestion.Registered.{Kept}
use token_pilot.Ingestion.Truth.{TrueOf, AllTrue, ingest-True}
use token_pilot.Ingestion.Client.{
  Wording, service, wire_item, wire, count_wire, accepted_wire, duplicate_wire, conflict_wire,
  rejected_wire, upwards, upwards_unique,
}

-- What the checks make of an event has its position, and its identifier where it has one.
abbrev About : ℕ → ℕ → Validated → Type 0
About index id (refused item) = (item.index ≡ index) × (or_else item.event_id (some id) ≡ some id)
About index id (valid input) = (input.index ≡ index) × (input.event.event_id ≡ id)

-- An event of the spool: what the service parses it to, or reads as its identifier, has the
-- identifier of its row, and the columns of the database take what it is parsed to.
pub record Sound (checks : Checks SpooledUsageEvent) (texts : Texts) (item : SpooledUsageEvent)
    : Type 0 where
  pub keyed : (event : UsageEvent) → checks.parse item ≡ some event → event.event_id ≡ item.event_id
  pub possible : (id : ℕ) → checks.possible_event_id item ≡ some id → id ≡ item.event_id
  pub able : (event : UsageEvent) → checks.parse item ≡ some event → storable texts event ≡ true

module _ (checks : Checks SpooledUsageEvent) (options : UsageIngestionOptions) (texts : Texts) where
  abbrev pub Fine : SpooledUsageEvent → Type 0
  Fine = Sound checks texts

  canonical-About :
      (index id : ℕ) (event : UsageEvent) (o : Option ℕ)
      → event.event_id ≡ id
      → About index id (validate_canonical checks options index event o)
  unfolding validate_canonical
  canonical-About index id event (some error) e = (refl, ap some e)
  canonical-About index id event none e =
      elim (Bool-cases (ltb options.max_event_bytes (checks.canonical_bytes event))) [
        | inl large ↦ rw large (refl, ap some e)
        | inr small ↦ rw small (refl, e)
      ]

  possible_about :
      (id : ℕ) (o : Option ℕ) → ((i : ℕ) → o ≡ some i → i ≡ id) → or_else o (some id) ≡ some id
  possible_about id none h = refl
  possible_about id (some i) h = ap some (h i refl)

  parsed-About :
      (index : ℕ) (item : SpooledUsageEvent) (o : Option UsageEvent)
      → Fine item
      → checks.parse item ≡ o
      → About index item.event_id (validate_parsed checks options index item o)
  unfolding validate_parsed
  parsed-About index item none fine e =
      (refl, possible_about item.event_id (checks.possible_event_id item) fine.possible)
  parsed-About index item (some event) fine e =
      canonical-About index item.event_id event (checks.property_error event) (fine.keyed event e)

  event-About :
      (index : ℕ) (item : SpooledUsageEvent)
      → Fine item
      → About index item.event_id (validate_event checks options index item)
  unfolding validate_event
  event-About index item fine = parsed-About index item _ fine refl

  result-About :
      (app index id : ℕ) (before after : Tables) (checked : Validated)
      (result : UsageIngestionItemResult)
      → About index id checked
      → TrueOf app before after checked result
      → (result.index ≡ index) × (or_else result.event_id (some id) ≡ some id)
  result-About app index id before after (refused item) result about same = rw same about
  result-About app index id before after (valid input) result (at_index, its_id) (e, e', said) =
      (e ∙ at_index, rw e' (ap some its_id))

  indexes :
      (app index : ℕ) (before after : Tables) (wording : Wording) (items : List SpooledUsageEvent)
      (results : List UsageIngestionItemResult)
      → All Fine items
      → AllTrue checks options app index before after items results
      → map (λ r. r.index) (map (wire_item wording) results) ≡ upwards index results
  indexes app index before after wording [] [] fine h = refl
  indexes app index before after wording [] (r ∷ rs) fine h = absurd h
  indexes app index before after wording (x ∷ xs) [] fine h = absurd h
  indexes app index before after wording (x ∷ xs) (r ∷ rs) (fine, later) (t, ts) =
      ap₂ (λ a b. a ∷ b)
        (result-About app index x.event_id before after _ r (event-About index x fine) t).0
        (indexes app (suc index) before after wording xs rs later ts)

  response-valid :
      (app : ℕ) (before after : Tables) (wording : Wording) (items : List SpooledUsageEvent)
      (results : List UsageIngestionItemResult)
      → All Fine items
      → AllTrue checks options app 0 before after items results
      → response_valid (wire wording (batch_response results)) ≡ true
  unfolding response_valid batch_response
  response-valid app before after wording items results fine h =
      rw
        (
          indexes app 0 before after wording items results fine h,
          upwards_unique 0 results,
          count_wire wording is_accepted accepted (λ item. accepted_wire item.status) results,
          count_wire wording is_duplicate duplicate (λ item. duplicate_wire item.status) results,
          count_wire wording is_conflict conflict (λ item. conflict_wire item.status) results,
          count_wire wording is_rejected rejected (λ item. rejected_wire item.status) results,
        )
        (rw (==-self (count_where (has_status accepted) results)) (
          rw (==-self (count_where (has_status duplicate) results)) (
            rw (==-self (count_where (has_status conflict) results))
              (rw (==-self (count_where (has_status rejected) results)) refl))))

  first_named :
      (app : ℕ) (before after : Tables) (wording : Wording) (item : SpooledUsageEvent)
      (items : List SpooledUsageEvent) (results : List UsageIngestionItemResult)
      → Fine item
      → AllTrue checks options app 0 before after (item ∷ items) results
      → names item.event_id (map (subject (item ∷ items)) (map (wire_item wording) results)) ≡ true
  unfolding nth
  first_named app before after wording item items [] fine h = absurd h
  first_named app before after wording item items (r ∷ rs) fine (t, ts) =
      let (index, id) =
        result-About app 0 item.event_id before after _ r (event-About 0 item fine) t in
      rw index (rw id (rw (==-self item.event_id) refl))

  -- The service, in whatever state each request finds it.
  module _ (others : ℕ → Tables → Tables)
      (others-Kept : (n : ℕ) (tables : Tables) → Kept tables (others n tables)) (app : ℕ)
      (wording : Wording) (batch_bytes : List SpooledUsageEvent → ℕ) (states : ℕ → Serving)
      (clock : ℕ → ℕ) (batch_size : ℕ) (some_room : 1 ≤ batch_size)
      (few : batch_size ≤ options.max_batch_size)
      (small : (batch : List SpooledUsageEvent)
        → length batch ≤ batch_size
        → batch_bytes batch ≤ options.max_batch_bytes) where
    abbrev the_service : ℕ → List SpooledUsageEvent → Reply
    the_service = service checks options texts others app wording batch_bytes states

    service-Answers :
        (n : ℕ) (batch : List SpooledUsageEvent)
        → batch ≢ []
        → length batch ≤ batch_size
        → All Fine batch
        → Answers batch (the_service n batch)
    unfolding batch_response
    service-Answers n [] h short fine = absurd (h refl)
    service-Answers n (item ∷ items) h short (fine, later) =
        let (results, after, done, kept, ts) =
          ingest-True checks options app texts others others-Kept (batch_bytes (item ∷ items))
            (item ∷ items) (states n) h (All-map (λ x f. f.able) (item ∷ items) (fine, later))
            (small (item ∷ items) short) (omega (arith, short, few)) in
        record {
          body = wire wording (batch_response results);
          is_response = rw done refl;
          valid =
              response-valid app (states n).tables after.tables wording (item ∷ items) results
                (fine, later) ts;
          id = item.event_id;
          asked = rw (==-self item.event_id) refl;
          named = first_named app (states n).tables after.tables wording item items results fine ts;
        }

    -- The upload of the spool to this service ends, in one round more than there are pending events at
    -- most, whatever state each request finds the service in, and whatever other writers do who never
    -- take an event out of the registry nor change its hash: then nothing is pending, and each event
    -- that was pending is counted as delivered or stands among the rejected ones. The batch size is
    -- not zero and within the limit of the service, and so are the bytes of each batch; the tables of
    -- the spool share no identifier; what the service parses a pending event to, or reads as its
    -- identifier, has the identifier of the event; and the columns of the database take each pending
    -- event that the service parses, whose reservation is then absent or a UUID.
    pub flush-service :
        (run : Flushing)
        → Inv run.spool
        → All (λ row. Fine (spooled row)) run.spool.usage_events
        → (end : Flushing) × (flush
              (service checks options texts others app wording batch_bytes states)
              clock
              batch_size
              (suc (depth run.spool))
              run
            ≡ delivered_all end.delivered end)
          × (end.spool.usage_events ≡ [])
          × (end.delivered + length end.spool.usage_rejected
              ≡ depth run.spool + length run.spool.usage_rejected)
    flush-service run inv fine =
        flush-Delivered_where the_service clock batch_size some_room Fine service-Answers run inv
          fine
