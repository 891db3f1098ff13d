-- ===== src/Spool/Tests.antt =====
-- A spool with two pending events and one that was rejected.
use token_pilot.Base.{
  ℕ, suc, ◌+◌, ◌≡◌, ◌≢◌, ◌≤◌, refl, true, false, none, List, [], ◌∷◌, length, any, arith, Bool,
}
use token_pilot.Spool.{
  UsageEvent, EventRow, Spool, SpooledUsageEvent, has_event_id, has_rejected_id, depth, known,
  insert_event, enqueue, enqueue_new, remove_event, acknowledge, copy_rejected, reject,
}
use token_pilot.Spool.Invariant.{Inv}
use token_pilot.Spool.Reporter.{
  ResultStatus, Flushing, Reply, response, delivered_all, still_running, response_valid, nth, flush,
}
use token_pilot.Spool.View.{
  view, Call, enqueue_call, acknowledge_call, reject_call, was_added, over_capacity, removed, done,
  perform, perform_all, promised_all,
}
use token_pilot.Spool.View.Refines.{perform_all-Refines}
use token_pilot.Spool.Flush.{Answers, flush-Delivered}
use token_pilot.Spool.Stuck.{Silent, flush-still_running}

abbrev event : ℕ → UsageEvent
event id = record { event_id = id; text = 123 ∷ id ∷ 125 ∷ [] }

abbrev event_row : ℕ → EventRow
event_row id = record { event_id = id; payload = event id; created_at = 5 }

abbrev spool : Spool
spool = record {
  usage_events = event_row 11 ∷ event_row 12 ∷ [];
  usage_rejected =
      record { event_id = 13; payload = event 13; reason_code = 88 ∷ []; rejected_at = 6 } ∷ [];
}

eleven_or_twelve :
    (id : ℕ)
    → any (has_event_id id) spool.usage_events ≡ true
    → any (has_rejected_id id) spool.usage_rejected ≡ false
eleven_or_twelve id h = ground arith

spool-Inv : Inv spool
spool-Inv = record { unique = (refl, (refl, tt)); apart = eleven_or_twelve }

abbrev accept_all : UsageEvent → Bool
accept_all _ = true

abbrev calls : List Call
calls =
    enqueue_call 10 7 (event 14)
    ∷ enqueue_call 10 7 (event 13)
    ∷ enqueue_call 99 7 (event 15)
    ∷ acknowledge_call (11 ∷ 13 ∷ [])
    ∷ reject_call 12 (89 ∷ []) 8
    ∷ []

abbrev byte_length : List ℕ → ℕ
byte_length text = length text

-- The answers of the five calls.
calls_answers :
    (perform_all accept_all byte_length 100 calls spool).0
    ≡ was_added true ∷ was_added false ∷ over_capacity 99 100 ∷ removed 1 ∷ done ∷ []
unfolding perform_all perform enqueue enqueue_new insert_event known acknowledge remove_event reject
    copy_rejected
calls_answers = refl

perform_all-Refines_example :
    Inv (perform_all accept_all byte_length 100 calls spool).1
    × ((perform_all accept_all byte_length 100 calls spool).0
        ≡ (promised_all accept_all byte_length 100 calls (view spool)).0)
    × (view (perform_all accept_all byte_length 100 calls spool).1
        ≡ (promised_all accept_all byte_length 100 calls (view spool)).1)
perform_all-Refines_example = perform_all-Refines accept_all byte_length 100 calls spool spool-Inv

-- A server that accepts the first event of a batch.
abbrev first_only : ℕ → List SpooledUsageEvent → Reply
first_only n batch = response (record {
  accepted = 1;
  duplicates = 0;
  conflicts = 0;
  rejected = 0;
  results =
      record {
        index = 0;
        event_id = none;
        status = ResultStatus.accepted;
        code = none;
        message = none;
      }
      ∷ [];
})

first_only-Answers :
    (n : ℕ) (batch : List SpooledUsageEvent)
    → batch ≢ []
    → length batch ≤ 50
    → Answers batch (first_only n batch)
unfolding response_valid nth
first_only-Answers n [] h few = absurd (h refl)
first_only-Answers n (item ∷ items) h few = record {
  body = _;
  is_response = refl;
  valid = refl;
  id = item.event_id;
  asked = ground arith;
  named = ground arith;
}

abbrev run : Flushing
run = record { spool = spool; delivered = 0; errors = []; requests = 0 }

abbrev clock : ℕ → ℕ
clock n = n

flush-Delivered_example :
    (end : Flushing) × (flush first_only clock 50 (suc (depth run.spool)) run
      ≡ delivered_all end.delivered end)
    × (end.spool.usage_events ≡ [])
    × (end.delivered + length end.spool.usage_rejected
        ≡ depth run.spool + length run.spool.usage_rejected)
flush-Delivered_example =
    flush-Delivered first_only clock 50 (omega arith) first_only-Answers run spool-Inv

abbrev no_result : ℕ → List SpooledUsageEvent → Reply
no_result n batch =
    response (record { accepted = 0; duplicates = 0; conflicts = 0; rejected = 0; results = [] })

no_result-Silent : (n : ℕ) (batch : List SpooledUsageEvent) → Silent (no_result n batch)
unfolding response_valid
no_result-Silent n batch = record { body = _; is_response = refl; valid = refl; no_results = refl }

some_event : run.spool.usage_events ≢ []
some_event h = cc

flush-still_running_example :
    (end : Flushing) × (flush no_result clock 50 9 run ≡ still_running end)
    × (end.spool ≡ run.spool)
    × (end.requests ≡ run.requests + 9)
flush-still_running_example =
    flush-still_running no_result clock 50 (omega arith) no_result-Silent 9 run some_event
