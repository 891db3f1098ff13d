-- ===== src/Spool/Reporter.antt =====
-- The upload of the spool: sdks/node/src/runtime/runtime-usage-reporter.ts, with the check of a
-- response in packages/contracts/src/machine-contracts.ts.
use token_pilot.Base.{
  ℕ, zero, suc, ◌+◌, Bool, true, false, not, ◌&&◌, Option, none, some, List, [], ◌∷◌, ◌++◌, map,
  count_where, includes, ◌==◌, if◌then◌else◌,
}
use token_pilot.Spool.{Spool, SpooledUsageEvent, pending, acknowledge, reject}

pub data ResultStatus : Type 0 where
  accepted : ResultStatus
  duplicate : ResultStatus
  conflict : ResultStatus
  rejected : ResultStatus

pub record BatchResult : Type 0 where
  pub index : ℕ
  pub event_id : Option ℕ
  pub status : ResultStatus
  pub code : Option (List ℕ)
  pub message : Option (List ℕ)

pub record BatchIngestionResponse : Type 0 where
  pub accepted : ℕ
  pub duplicates : ℕ
  pub conflicts : ℕ
  pub rejected : ℕ
  pub results : List BatchResult

abbrev pub is_accepted : ResultStatus → Bool
is_accepted accepted = true
is_accepted _ = false

abbrev pub is_duplicate : ResultStatus → Bool
is_duplicate duplicate = true
is_duplicate _ = false

abbrev pub is_conflict : ResultStatus → Bool
is_conflict conflict = true
is_conflict _ = false

abbrev pub is_rejected : ResultStatus → Bool
is_rejected rejected = true
is_rejected _ = false

abbrev pub all_unique : List ℕ → Bool
all_unique [] = true
all_unique (n ∷ ns) = not (includes n ns) && all_unique ns

abbrev pub counted : (ResultStatus → Bool) → List BatchResult → ℕ
counted p results = count_where (λ result. p result.status) results

-- The refinements of the response's schema.
unfoldable pub response_valid : BatchIngestionResponse → Bool
response_valid response =
    counted is_accepted response.results == response.accepted
    && (counted is_duplicate response.results == response.duplicates
        && (counted is_conflict response.results == response.conflicts
            && (counted is_rejected response.results == response.rejected
                && all_unique (map (λ result. result.index) response.results))))

-- What `onError` was called with: a result that was not accepted, or what a flush threw.
pub data Reported : Type 0 where
  event_rejected : ℕ → ResultStatus → Option (List ℕ) → Reported
  upload_failed : Reported

-- The spool, the number of events delivered so far, the errors reported, and the number of requests
-- sent, by which the surroundings answer.
pub record Flushing : Type 0 where
  pub spool : Spool
  pub delivered : ℕ
  pub errors : List Reported
  pub requests : ℕ

unfoldable pub nth : ℕ → List SpooledUsageEvent → Option ℕ
nth n [] = none
nth zero (item ∷ items) = some item.event_id
nth (suc n) (item ∷ items) = nth n items

abbrev pub or_else : Option ℕ → Option ℕ → Option ℕ
or_else (some id) other = some id
or_else none other = other

-- The event that a result is about.
abbrev pub subject : List SpooledUsageEvent → BatchResult → Option ℕ
subject batch item = or_else item.event_id (nth item.index batch)

-- `item.status.toUpperCase()`, for the two statuses that need it.
abbrev pub status_code : ResultStatus → List ℕ
status_code accepted = 65 ∷ 67 ∷ 67 ∷ 69 ∷ 80 ∷ 84 ∷ 69 ∷ 68 ∷ []
status_code duplicate = 68 ∷ 85 ∷ 80 ∷ 76 ∷ 73 ∷ 67 ∷ 65 ∷ 84 ∷ 69 ∷ []
status_code conflict = 67 ∷ 79 ∷ 78 ∷ 70 ∷ 76 ∷ 73 ∷ 67 ∷ 84 ∷ []
status_code rejected = 82 ∷ 69 ∷ 74 ∷ 69 ∷ 67 ∷ 84 ∷ 69 ∷ 68 ∷ []

abbrev pub reason_of : Option (List ℕ) → ResultStatus → List ℕ
reason_of (some code) status = code
reason_of none status = status_code status

abbrev pub is_delivered : ResultStatus → Bool
is_delivered accepted = true
is_delivered duplicate = true
is_delivered conflict = false
is_delivered rejected = false

abbrev pub deliver : ℕ → Flushing → Flushing
deliver id run =
    let (removed, left) = acknowledge (id ∷ []) run.spool in
    record run { spool = left; delivered = run.delivered + removed }

abbrev pub refuse : ℕ → ℕ → BatchResult → Flushing → Flushing
refuse now id item run = record run {
  spool = reject id (reason_of item.code item.status) now run.spool;
  errors = run.errors ++ (event_rejected id item.status item.message ∷ []);
}

unfoldable pub apply_named : ℕ → BatchResult → Option ℕ → Flushing → Flushing
apply_named now item none run = run
apply_named now item (some id) run =
    if is_delivered item.status then deliver id run else refuse now id item run

unfoldable pub apply_results : ℕ → List SpooledUsageEvent → List BatchResult → Flushing → Flushing
apply_results now batch [] run = run
apply_results now batch (item ∷ items) run =
    apply_results now batch items (apply_named now item (subject batch item) run)

-- What a request gives: it throws, or its response is parsed.
pub data Reply : Type 0 where
  request_failed : Reply
  response : BatchIngestionResponse → Reply

pub data Round : Type 0 where
  finished : Flushing → Round
  threw : Flushing → Round
  continued : Flushing → Round

pub data Flushed : Type 0 where
  delivered_all : ℕ → Flushing → Flushed
  failed : Flushing → Flushed
  still_running : Flushing → Flushed

abbrev pub sent : Flushing → Flushing
sent run = record run { requests = suc run.requests }

-- `answer` is the server, which may answer each request in its own way, and `clock` the clock.
module _ (answer : ℕ → List SpooledUsageEvent → Reply) (clock : ℕ → ℕ) (batch_size : ℕ) where
  unfoldable pub apply_reply : List SpooledUsageEvent → Reply → Flushing → Round
  apply_reply batch request_failed run = threw (sent run)
  apply_reply batch (response r) run =
      if response_valid r
      then continued (apply_results (clock run.requests) batch r.results (sent run))
      else threw (sent run)

  unfoldable pub round_of : List SpooledUsageEvent → Flushing → Round
  round_of [] run = finished run
  round_of (item ∷ items) run = apply_reply (item ∷ items) (answer run.requests (item ∷ items)) run

  unfoldable pub round : Flushing → Round
  round run = round_of (pending batch_size run.spool) run

  abbrev pub flush_after : (Flushing → Flushed) → Round → Flushed
  flush_after loop (finished run) = delivered_all run.delivered run
  flush_after loop (threw run) = failed run
  flush_after loop (continued run) = loop run

  -- The `while (true)` of `flush`, for a number of rounds.
  unfoldable pub flush_loop : ℕ → Flushing → Flushed
  flush_loop zero run = still_running run
  flush_loop (suc fuel) run = flush_after (λ next. flush_loop fuel next) (round run)

  unfoldable pub flush : ℕ → Flushing → Flushed
  flush fuel run = flush_loop fuel (record run { delivered = 0 })

  -- `flushQuietly` of a reporter that has opened its spool.
  abbrev pub quiet_after : Flushed → Flushed
  quiet_after (failed run) = failed (record run { errors = run.errors ++ (upload_failed ∷ []) })
  quiet_after flushed = flushed

  abbrev pub flush_quietly : ℕ → Flushing → Flushed
  flush_quietly fuel run = quiet_after (flush fuel run)
