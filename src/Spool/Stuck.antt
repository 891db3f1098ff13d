-- ===== src/Spool/Stuck.antt =====
-- A server whose valid responses say nothing of the events keeps the upload busy.
use token_pilot.Base.{ℕ, zero, suc, ◌+◌, ◌≡◌, ◌≢◌, ◌≤◌, refl, true, List, [], ◌∷◌, map, take, arith}
use token_pilot.Spool.{EventRow, SpooledUsageEvent, spooled, pending}
use token_pilot.Spool.Reporter.{
  BatchIngestionResponse, Flushing, Reply, response, continued, still_running, response_valid,
  apply_results, sent, apply_reply, round_of, round, flush_loop, flush,
}

-- A valid response with no results.
pub record Silent (reply : Reply) : Type 0 where
  pub body : BatchIngestionResponse
  pub is_response : reply ≡ response body
  pub valid : response_valid body ≡ true
  pub no_results : body.results ≡ []

batch_of :
    (limit : ℕ) (rows : List EventRow)
    → 1 ≤ limit
    → rows ≢ []
    → (item : SpooledUsageEvent) × (items : List SpooledUsageEvent) × (map spooled (take limit rows)
        ≡ item ∷ items)
batch_of zero rows h some_row = absurd (omega (arith, h))
batch_of (suc limit) [] h some_row = absurd (some_row refl)
batch_of (suc limit) (row ∷ rows) h some_row = (spooled row, map spooled (take limit rows), refl)

module _ (answer : ℕ → List SpooledUsageEvent → Reply) (clock : ℕ → ℕ) (batch_size : ℕ)
    (some_room : 1 ≤ batch_size)
    (silent : (n : ℕ) (batch : List SpooledUsageEvent) → Silent (answer n batch)) where
  round-sent :
      (run : Flushing)
      → run.spool.usage_events ≢ []
      → round answer clock batch_size run ≡ continued (sent run)
  unfolding round round_of apply_reply pending apply_results
  round-sent run some_row =
      let (item, items, e) = batch_of batch_size run.spool.usage_events some_room some_row in
      let s = silent run.requests (item ∷ items) in
      rw e (rw s.is_response (rw s.valid (rw s.no_results refl)))

  loop_running :
      (fuel : ℕ) (run : Flushing)
      → run.spool.usage_events ≢ []
      → (end : Flushing) × (flush_loop answer clock batch_size fuel run ≡ still_running end)
        × (end.spool ≡ run.spool)
        × (end.requests ≡ run.requests + fuel)
  unfolding flush_loop
  loop_running zero run some_row = (run, refl, refl, omega arith)
  loop_running (suc fuel) run some_row =
      let (end, e, same, n) = loop_running fuel (sent run) some_row in
      rw (round-sent run some_row) (end, e, same, omega (arith, n))

  -- A server whose every response is valid but has no results keeps a flush going for ever, once an
  -- event is pending: whatever the number of rounds, the flush has not returned, the spool is as it
  -- was, and a request has been sent in each round. The batch size is not zero.
  pub flush-still_running :
      (fuel : ℕ) (run : Flushing)
      → run.spool.usage_events ≢ []
      → (end : Flushing) × (flush answer clock batch_size fuel run ≡ still_running end)
        × (end.spool ≡ run.spool)
        × (end.requests ≡ run.requests + fuel)
  unfolding flush
  flush-still_running fuel run some_row = loop_running fuel (record run { delivered = 0 }) some_row
