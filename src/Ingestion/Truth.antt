-- ===== src/Ingestion/Truth.antt =====
-- What the response of a batch says is true of the registry.
use token_pilot.Base.{
  ℕ, suc, ◌≡◌, ◌≢◌, ◌≤◌, refl, ap, true, false, All, Option, none, Bool-cases, inl, inr, some, List,
  [], ◌∷◌, length, ltb, arith,
}
use token_pilot.Ingestion.{UsageEvent, Tables, Texts, storable}
use token_pilot.Ingestion.Persist.{
  UsageIngestionStatus, accepted, duplicate, conflict, rejected, ValidatedUsageEvent, Serving,
}
use token_pilot.Ingestion.Service.{
  UsageIngestionItemResult, UsageIngestionOptions, Checks, Validated, refused, valid, item_result,
  Looped, looped, responded, batch_response, validate_canonical, validate_parsed, validate_event,
  after_event, ingest_one, ingest_all, ingest_events, ingest,
}
use token_pilot.Ingestion.Registered.{Kept, Kept-then, Told, Told-wider, persist_event-Ends}

-- A result about one event: what its checks refused it for, or a status that is true of the registry.
abbrev pub TrueOf : ℕ → Tables → Tables → Validated → UsageIngestionItemResult → Type 0
TrueOf app before after (refused item) result = result ≡ item
TrueOf app before after (valid input) result =
    (result.index ≡ input.index)
    × (result.event_id ≡ some input.event.event_id)
    × Told app input before after result.status

pub TrueOf-wider :
    (app : ℕ) (a b c d : Tables) (checked : Validated) (result : UsageIngestionItemResult)
    → Kept a b
    → Kept c d
    → TrueOf app b c checked result
    → TrueOf app a d checked result
TrueOf-wider app a b c d (refused item) result h k same = same
TrueOf-wider app a b c d (valid input) result h k (index, event_id, said) =
    (index, event_id, Told-wider app input a b c d result.status h k said)

valid-eq : (a b : ValidatedUsageEvent) → valid a ≡ valid b → a ≡ b
valid-eq a b h = cc

module _ {ℓ} {Candidate : Type ℓ} (checks : Checks Candidate) (options : UsageIngestionOptions)
    (app : ℕ) where
  -- The results are about the events, one by one and in their order.
  abbrev pub AllTrue : ℕ → Tables → Tables → List Candidate → List UsageIngestionItemResult → Type 0
  AllTrue index before after [] [] = Unit
  AllTrue index before after (c ∷ cs) (r ∷ rs) =
      TrueOf app before after (validate_event checks options index c) r
      × AllTrue (suc index) before after cs rs
  AllTrue index before after [] (r ∷ rs) = ⊥
  AllTrue index before after (c ∷ cs) [] = ⊥

  pub AllTrue-wider :
      (index : ℕ) (a b c d : Tables) (cs : List Candidate) (rs : List UsageIngestionItemResult)
      → Kept a b
      → Kept c d
      → AllTrue index b c cs rs
      → AllTrue index a d cs rs
  AllTrue-wider index a b c d [] [] h k t = tt
  AllTrue-wider index a b c d [] (r ∷ rs) h k t = t
  AllTrue-wider index a b c d (x ∷ xs) [] h k t = t
  AllTrue-wider index a b c d (x ∷ xs) (r ∷ rs) h k (t, ts) =
      (TrueOf-wider app a b c d _ r h k t, AllTrue-wider (suc index) a b c d xs rs h k ts)

  module _ (texts : Texts) (others : ℕ → Tables → Tables)
      (others-Kept : (n : ℕ) (tables : Tables) → Kept tables (others n tables)) where
    -- What the columns of the database take, if the schema takes it.
    abbrev pub Storable : Candidate → Type 0
    Storable candidate =
        (event : UsageEvent) → checks.parse candidate ≡ some event → storable texts event ≡ true

    canonical-parsed :
        (index : ℕ) (event : UsageEvent) (o : Option ℕ) (input : ValidatedUsageEvent)
        → validate_canonical checks options index event o ≡ valid input
        → event ≡ input.event
    unfolding validate_canonical
    canonical-parsed index event (some error) input h = cc
    canonical-parsed index event none input h =
        elim (Bool-cases (ltb options.max_event_bytes (checks.canonical_bytes event))) [
          | inl large ↦ let h' = rw large at h in cc
          | inr small ↦
              let h' : valid (record {
                index = index;
                event = event;
                payload_hash = checks.canonical_payload_hash event;
              })
                  ≡ valid input =
                rw small at h in
              ap (λ i. i.event) (valid-eq _ input h')
        ]

    parsed-parsed :
        (index : ℕ) (candidate : Candidate) (o : Option UsageEvent) (input : ValidatedUsageEvent)
        → validate_parsed checks options index candidate o ≡ valid input
        → o ≡ some input.event
    unfolding validate_parsed
    parsed-parsed index candidate none input h = cc
    parsed-parsed index candidate (some event) input h =
        ap some (canonical-parsed index event (checks.property_error event) input h)

    validate_event-parsed :
        (index : ℕ) (candidate : Candidate) (input : ValidatedUsageEvent)
        → validate_event checks options index candidate ≡ valid input
        → checks.parse candidate ≡ some input.event
    unfolding validate_event
    validate_event-parsed index candidate input h =
        parsed-parsed index candidate (checks.parse candidate) input h

    -- How the loop over the events ends.
    abbrev LoopEnds : ℕ → List Candidate → Serving → Looped → Type 0
    LoopEnds index candidates serving loop =
        (results : List UsageIngestionItemResult) × (after : Serving) × (loop
          ≡ looped results after)
        × Kept serving.tables after.tables
        × AllTrue index serving.tables after.tables candidates results

    item_result-True :
        (before after : Tables) (input : ValidatedUsageEvent) (status : UsageIngestionStatus)
        → Told app input before after status
        → TrueOf app before after (valid input) (item_result input status)
    unfolding item_result
    item_result-True before after input accepted said = (refl, refl, said)
    item_result-True before after input duplicate said = (refl, refl, said)
    item_result-True before after input conflict said = (refl, refl, said)
    item_result-True before after input rejected said = absurd said

    ingest_one-Ends :
        (index : ℕ) (candidates : List Candidate) (candidate : Candidate) (serving : Serving)
        → ((next : Serving)
            → LoopEnds
                (suc index)
                candidates
                next
                (ingest_all checks options texts others app (suc index) candidates next))
        → Storable candidate
        → (checked : Validated) → validate_event checks options index candidate ≡ checked
        → LoopEnds index (candidate ∷ candidates) serving (
            ingest_one checks options texts others app
              (ingest_all checks options texts others app (suc index) candidates)
              checked
              serving)
    unfolding ingest_one after_event
    ingest_one-Ends index candidates candidate serving rest able (refused item) e =
        let (results, after, done, kept, ts) = rest serving in
        (item ∷ results, after, rw done refl, kept, (rw e refl, ts))
    ingest_one-Ends index candidates candidate serving rest able (valid input) e =
        let (status, mid, told_it, kept, said) =
          persist_event-Ends texts app input
            (able input.event (validate_event-parsed index candidate input e)) others others-Kept
            serving in
        let (results, after, done, kept', ts) = rest mid in
        (
          item_result input status ∷ results,
          after,
          rw told_it (rw done refl),
          Kept-then serving.tables mid.tables after.tables kept kept',
          (
            rw e (
                item_result-True serving.tables after.tables input status (
                  Told-wider app input serving.tables serving.tables mid.tables after.tables status
                    (λ _ _ _ r. r) kept' said)),
            AllTrue-wider (suc index) serving.tables mid.tables after.tables after.tables candidates
                results kept (λ _ _ _ r. r) ts,
          ),
        )

    ingest_all-Ends :
        (index : ℕ) (candidates : List Candidate) (serving : Serving)
        → All Storable candidates
        → LoopEnds index candidates serving
            (ingest_all checks options texts others app index candidates serving)
    unfolding ingest_all
    ingest_all-Ends index [] serving able = ([], serving, refl, (λ _ _ _ r. r), tt)
    ingest_all-Ends index (candidate ∷ candidates) serving (able, later) =
        ingest_one-Ends index candidates candidate serving
          (λ next. ingest_all-Ends (suc index) candidates next later) able _ refl

    -- A batch that is not empty, of a size and a length within the limits, in which the columns of the
    -- database take every event that the schema takes (its reservation is absent or a UUID), gets a
    -- response, whatever other writers do meanwhile who never take an event out of the registry nor
    -- change its hash. Its results are
    -- about the events of the batch, in their order: one that the checks refused is rejected for that;
    -- one that is accepted was not in the registry before and is there with its hash afterwards; a
    -- duplicate is there with its hash, and a conflict with another one. What was in the registry
    -- stays there.
    pub ingest-True :
        (bytes : ℕ) (events : List Candidate) (serving : Serving)
        → events ≢ []
        → All Storable events
        → bytes ≤ options.max_batch_bytes
        → length events ≤ options.max_batch_size
        → (results : List UsageIngestionItemResult) × (after : Serving) × (ingest checks options
              texts others app
              (record { encoded_bytes = bytes; events = some events })
              serving
            ≡ responded (batch_response results) after)
          × Kept serving.tables after.tables
          × AllTrue 0 serving.tables after.tables events results
    unfolding ingest ingest_events
    ingest-True bytes [] serving some_event able small short = absurd (some_event refl)
    ingest-True bytes (first ∷ rest) serving some_event able small short =
        let (results, after, done, kept, ts) = ingest_all-Ends 0 (first ∷ rest) serving able in
        let fits : ltb options.max_batch_bytes bytes ≡ false = ground arith in
        let few : ltb options.max_batch_size (length (first ∷ rest)) ≡ false = ground arith in
        (results, after, rw fits (rw few (rw done refl)), kept, ts)
