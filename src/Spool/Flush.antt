-- ===== src/Spool/Flush.antt =====
-- The loop of the upload ends when the server says something of each batch.
use token_pilot.Base.{
  ℕ, zero, suc, ◌+◌, ◌≡◌, ◌≢◌, ◌≤◌, ◌<◌, refl, ap, ◌∙◌, Bool, true, List, [], ◌∷◌, map, length, any,
  take, ◌==◌, arith, All, All-kept, Option, none, some, not,
}
use token_pilot.Spool.{EventRow, SpooledUsageEvent, has_event_id, spooled, pending, depth}
use token_pilot.Spool.Invariant.{Inv}
use token_pilot.Spool.Reporter.{
  BatchIngestionResponse, Flushing, Reply, response, finished, continued, Flushed, delivered_all,
  subject, response_valid, apply_results, sent, apply_reply, round_of, round, flush_loop, flush,
}
use token_pilot.Spool.Progress.{
  names, total, without, remaining, remaining-lt, apply_results-events, apply_results-total,
}

abbrev pub batch_has : ℕ → List SpooledUsageEvent → Bool
batch_has id batch = any (λ item. item.event_id == id) batch

-- A valid response in which a result is about an event of the request.
pub record Answers (batch : List SpooledUsageEvent) (reply : Reply) : Type 0 where
  pub body : BatchIngestionResponse
  pub is_response : reply ≡ response body
  pub valid : response_valid body ≡ true
  pub id : ℕ
  pub asked : batch_has id batch ≡ true
  pub named : names id (map (subject batch) body.results) ≡ true

batch_has-row :
    (id limit : ℕ) (rows : List EventRow)
    → batch_has id (map spooled (take limit rows)) ≡ true
    → any (has_event_id id) rows ≡ true
batch_has-row id zero rows h = cc
batch_has-row id (suc limit) [] h = cc
batch_has-row id (suc limit) (row ∷ rows) h = ground (arith, batch_has-row id limit rows)

pending-eq :
    (limit : ℕ) (run : Flushing)
    → map spooled (take limit run.spool.usage_events) ≡ pending limit run.spool
unfolding pending
pending-eq limit run = refl

pending-le : (limit : ℕ) (rows : List EventRow) → length (map spooled (take limit rows)) ≤ limit
pending-le zero rows = omega arith
pending-le (suc limit) [] = omega arith
pending-le (suc limit) (row ∷ rows) = omega (arith, pending-le limit rows)

All-taken :
    (P : SpooledUsageEvent → Type 0) (limit : ℕ) (rows : List EventRow)
    → All (λ row. P (spooled row)) rows
    → All P (map spooled (take limit rows))
All-taken P zero rows h = tt
All-taken P (suc limit) [] h = tt
All-taken P (suc limit) (row ∷ rows) (h, hs) = (h, All-taken P limit rows hs)

All-without :
    (P : EventRow → Type 0) (o : Option ℕ) (rows : List EventRow)
    → All P rows
    → All P (without o rows)
All-without P none rows h = h
All-without P (some id) rows h = All-kept P (λ row. not (has_event_id id row)) rows h

All-remaining :
    (P : EventRow → Type 0) (os : List (Option ℕ)) (rows : List EventRow)
    → All P rows
    → All P (remaining os rows)
All-remaining P [] rows h = h
All-remaining P (o ∷ os) rows h = All-remaining P os (without o rows) (All-without P o rows h)

take-nil :
    (limit : ℕ) (rows : List EventRow) → 1 ≤ limit → map spooled (take limit rows) ≡ [] → rows ≡ []
take-nil zero rows h e = absurd (omega (arith, h))
take-nil (suc limit) [] h e = refl
take-nil (suc limit) (row ∷ rows) h e = cc

module _ (answer : ℕ → List SpooledUsageEvent → Reply) (clock : ℕ → ℕ) (batch_size : ℕ)
    (some_room : 1 ≤ batch_size) (P : SpooledUsageEvent → Type 0)
    (answers : (n : ℕ) (batch : List SpooledUsageEvent)
      → batch ≢ []
      → length batch ≤ batch_size
      → All P batch
      → Answers batch (answer n batch)) where
  -- No identifier has two rows, and every pending event has the property.
  abbrev Good : Flushing → Type 0
  Good run = Inv run.spool × All (λ row. P (spooled row)) run.spool.usage_events

  -- The loop goes on with less to do, and nothing lost.
  record Shorter (run : Flushing) (next : Flushing) : Type 0 where
    pub goes_on : round answer clock batch_size run ≡ continued next
    pub good : Good next
    pub shorter : depth next.spool < depth run.spool
    pub same : total next ≡ total run

  round-Shorter :
      (run : Flushing) (item : SpooledUsageEvent) (items : List SpooledUsageEvent)
      → Good run
      → pending batch_size run.spool ≡ item ∷ items
      → Answers (item ∷ items) (answer run.requests (item ∷ items))
      → (next : Flushing) × Shorter run next
  unfolding round round_of apply_reply
  round-Shorter run item items (inv, fine) e a =
      let batch = item ∷ items in
      let next = apply_results (clock run.requests) batch a.body.results (sent run) in
      let (kept, same) =
        apply_results-total (clock run.requests) batch a.body.results (sent run) inv in
      let here : any (has_event_id a.id) run.spool.usage_events ≡ true =
        batch_has-row a.id batch_size run.spool.usage_events
          (ap (batch_has a.id) (pending-eq batch_size run) ∙ ap (batch_has a.id) e ∙ a.asked) in
      (
        next,
        record {
          goes_on = rw (e, a.is_response, a.valid) refl;
          good = (
            kept,
            rw (apply_results-events (clock run.requests) batch a.body.results (sent run)) (
                All-remaining (λ row. P (spooled row)) (map (subject batch) a.body.results)
                  run.spool.usage_events fine),
          );
          shorter = rw (apply_results-events (clock run.requests) batch a.body.results (sent run)) (
              remaining-lt a.id (map (subject batch) a.body.results) run.spool.usage_events a.named
                here);
          same = same;
        },
      )

  round-finished :
      (run : Flushing)
      → pending batch_size run.spool ≡ []
      → round answer clock batch_size run ≡ finished run
  unfolding round round_of
  round-finished run e = rw e refl

  -- A flush that ended, and what its events came to.
  abbrev pub Delivered : Flushing → Flushed → Type 0
  Delivered run flushed =
      (end : Flushing) × (flushed ≡ delivered_all end.delivered end)
      × (end.spool.usage_events ≡ [])
      × (total end ≡ total run)

  by_batch :
      (fuel : ℕ) (run : Flushing) (batch : List SpooledUsageEvent)
      → Good run
      → depth run.spool < suc fuel
      → pending batch_size run.spool ≡ batch
      → ((next : Flushing)
          → Good next
          → depth next.spool < fuel
          → Delivered next (flush_loop answer clock batch_size fuel next))
      → Delivered run (flush_loop answer clock batch_size (suc fuel) run)
  unfolding flush_loop
  by_batch fuel run [] inv h e rest = rw (round-finished run e) (
    run,
    refl,
    take-nil batch_size run.spool.usage_events some_room (pending-eq batch_size run ∙ e),
    refl,
  )
  by_batch fuel run (item ∷ items) inv h e rest =
      let few : length (item ∷ items) ≤ batch_size =
        rw (pending-eq batch_size run ∙ e) at (pending-le batch_size run.spool.usage_events) in
      let (next, step) = round-Shorter run item items inv e (
        answers run.requests (item ∷ items) (λ h. cc) few
          (rw (pending-eq batch_size run ∙ e) at
            (All-taken P batch_size run.spool.usage_events inv.1))) in
      let (end, ended, empty, same) = rest next step.good (omega (arith, step.shorter, h)) in
      rw step.goes_on (end, ended, empty, same ∙ step.same)

  flush_loop-Delivered :
      (fuel : ℕ) (run : Flushing)
      → Good run
      → depth run.spool < fuel
      → Delivered run (flush_loop answer clock batch_size fuel run)
  flush_loop-Delivered zero run inv h = absurd (omega (arith, h))
  flush_loop-Delivered (suc fuel) run inv h =
      by_batch fuel run _ inv h refl (flush_loop-Delivered fuel)

  -- The flush of a spool whose pending events have the property.
  pub flush-Delivered_where :
      (run : Flushing)
      → Inv run.spool
      → All (λ row. P (spooled row)) run.spool.usage_events
      → (end : Flushing) × (flush answer clock batch_size (suc (depth run.spool)) run
          ≡ delivered_all end.delivered end)
        × (end.spool.usage_events ≡ [])
        × (end.delivered + length end.spool.usage_rejected
            ≡ depth run.spool + length run.spool.usage_rejected)
  unfolding flush
  flush-Delivered_where run inv fine =
      let (end, ended, empty, same) =
        flush_loop-Delivered (suc (depth run.spool)) (record run { delivered = 0 }) (inv, fine)
          (omega arith) in
      let no_row : length end.spool.usage_events ≡ 0 = rw empty refl in
      (end, ended, empty, omega (arith, same, no_row))

All-Unit : (rows : List EventRow) → All (λ row. Unit {0}) rows
All-Unit [] = tt
All-Unit (row ∷ rows) = (tt, All-Unit rows)

module _ (answer : ℕ → List SpooledUsageEvent → Reply) (clock : ℕ → ℕ) (batch_size : ℕ)
    (some_room : 1 ≤ batch_size)
    (answers : (n : ℕ) (batch : List SpooledUsageEvent)
      → batch ≢ []
      → length batch ≤ batch_size
      → Answers batch (answer n batch)) where
  -- A server that answers each request of at most the batch size with a valid response about one of
  -- its events at least makes the flush end, in one round more than there are pending events at
  -- most: the flush returns the number of delivered events, nothing is pending, and every event that
  -- was pending is counted as delivered or stands among the rejected ones. The batch size is not
  -- zero, and the tables share no identifier.
  pub flush-Delivered :
      (run : Flushing)
      → Inv run.spool
      → (end : Flushing) × (flush answer clock batch_size (suc (depth run.spool)) run
          ≡ delivered_all end.delivered end)
        × (end.spool.usage_events ≡ [])
        × (end.delivered + length end.spool.usage_rejected
            ≡ depth run.spool + length run.spool.usage_rejected)
  flush-Delivered run inv =
      flush-Delivered_where answer clock batch_size some_room (λ item. Unit {0})
        (λ n batch h few _. answers n batch h few) run inv (All-Unit run.spool.usage_events)
