-- ===== src/Poller/Safety.antt =====
-- Iterations do not overlap, and a poller that was closed begins none.
use mathlib.Core.Bool.{true≢false}
use token_pilot.Base.{
  ℕ, ◌^◌, ◌-◌, ◌≡◌, ◌≤◌, refl, sym, ap, ◌∙◌, Bool, true, false, not, ◌||◌, none, some, [], ◌∷◌,
  length, includes, ltb, ◌==◌, ==-self, if◌then◌else◌, or-false, Bool-cases, inl, inr, arith,
}
use token_pilot.Poller.{
  SerialPoller, stopped_poller, new_poller, schedule, start, clear_timer, pause, resume, close,
  fire, finish, is_set, Step, starts, pauses, resumes, closes, fires, finishes, Reach, here, next,
}

pub record Idle (poller : SerialPoller) : Type 0 where
  pub no_timer : poller.timer ≡ none
  pub no_timers : poller.timers ≡ []
  pub inactive : poller.active ≡ none
  pub none_running : poller.running ≡ []

-- The one timer that is set.
pub record Waiting (poller : SerialPoller) : Type 0 where
  pub id : ℕ
  pub delay_ms : ℕ
  pub its_timer : poller.timer ≡ some id
  pub one_timer : poller.timers ≡ record { id = id; delay_ms = delay_ms } ∷ []
  pub inactive : poller.active ≡ none
  pub none_running : poller.running ≡ []
  pub is_started : poller.stopped ≡ false
  pub is_resumed : poller.paused ≡ false

-- The one iteration that is under way.
pub record Running (poller : SerialPoller) : Type 0 where
  pub id : ℕ
  pub no_timer : poller.timer ≡ none
  pub no_timers : poller.timers ≡ []
  pub its_active : poller.active ≡ some id
  pub one_running : poller.running ≡ id ∷ []

-- What the poller does: nothing, it waits for a timer, or it runs an iteration.
pub data Inv (poller : SerialPoller) : Type 0 where
  idle : Idle poller → Inv poller
  waiting : Waiting poller → Inv poller
  running : Running poller → Inv poller

schedule-Inv : (delay : ℕ) (poller : SerialPoller) → Idle poller → Inv (schedule delay poller)
unfolding schedule
schedule-Inv delay poller i = elim (Bool-cases (poller.stopped || poller.paused)) [
  | inl off ↦ rw off (idle i)
  | inr on ↦
      let (started, resumed) = or-false poller.stopped poller.paused on in
      rw on (
        waiting (record {
          id = poller.next_id;
          delay_ms = delay;
          its_timer = refl;
          one_timer = rw i.no_timers refl;
          inactive = i.inactive;
          none_running = i.none_running;
          is_started = started;
          is_resumed = resumed;
        }))
]

-- The timer is cleared, and the iteration that is under way goes on.
clear_timer-Inv :
    (poller : SerialPoller) (stopped paused : Bool)
    → Inv poller
    → Inv (clear_timer (record poller { stopped = stopped; paused = paused }))
unfolding clear_timer
clear_timer-Inv poller stopped paused (idle i) = idle (record {
  no_timer = refl;
  no_timers = rw i.no_timer i.no_timers;
  inactive = i.inactive;
  none_running = i.none_running;
})
clear_timer-Inv poller stopped paused (waiting w) = idle (record {
  no_timer = refl;
  no_timers = rw w.its_timer (rw w.one_timer (rw (==-self w.id) refl));
  inactive = w.inactive;
  none_running = w.none_running;
})
clear_timer-Inv poller stopped paused (running r) = running (record {
  id = r.id;
  no_timer = refl;
  no_timers = rw r.no_timer r.no_timers;
  its_active = r.its_active;
  one_running = r.one_running;
})

-- A poller in which nothing runs and that is off does nothing.
off-Idle :
    (poller : SerialPoller)
    → Inv poller
    → poller.running ≡ []
    → (poller.stopped || poller.paused) ≡ true
    → Idle poller
off-Idle poller (idle i) none_here off = i
off-Idle poller (waiting w) none_here off =
    let on : (poller.stopped || poller.paused) ≡ false = rw (w.is_started, w.is_resumed) refl in
    absurd (true≢false (sym off ∙ on))
off-Idle poller (running r) none_here off =
    let some_here : r.id ∷ [] ≡ [] = sym r.one_running ∙ none_here in cc

start_if :
    (poller : SerialPoller) (stopped : Bool)
    → poller.running ≡ []
    → Inv poller
    → poller.stopped ≡ stopped
    → Inv (
        if not stopped
        then poller
        else schedule 0 (record poller { stopped = false; paused = false }))
start_if poller false none_here inv e = inv
start_if poller true none_here inv e =
    let i = off-Idle poller inv none_here (rw e refl) in
    schedule-Inv 0 (record poller { stopped = false; paused = false })
      (record {
        no_timer = i.no_timer;
        no_timers = i.no_timers;
        inactive = i.inactive;
        none_running = i.none_running;
      })

start-Inv : (poller : SerialPoller) → poller.running ≡ [] → Inv poller → Inv (start poller)
unfolding start
start-Inv poller none_here inv = start_if poller poller.stopped none_here inv refl

pause-Inv : (poller : SerialPoller) → Inv poller → Inv (pause poller)
unfolding pause
pause-Inv poller inv = elim (Bool-cases (poller.stopped || poller.paused)) [
  | inl off ↦ rw off inv
  | inr on ↦ rw on (clear_timer-Inv poller poller.stopped true inv)
]

resume-Inv : (poller : SerialPoller) → poller.running ≡ [] → Inv poller → Inv (resume poller)
unfolding resume
resume-Inv poller none_here inv = elim (Bool-cases (poller.stopped || not poller.paused)) [
  | inl on ↦ rw on inv
  | inr off ↦
      let off' : (poller.stopped || poller.paused) ≡ true = ground arith in
      let i = off-Idle poller inv none_here off' in
      rw off (
        schedule-Inv 0 (record poller { paused = false })
          (record {
            no_timer = i.no_timer;
            no_timers = i.no_timers;
            inactive = i.inactive;
            none_running = i.none_running;
          }))
]

fire-Inv :
    (id : ℕ) (poller : SerialPoller) → is_set id poller ≡ true → Inv poller → Inv (fire id poller)
unfolding fire
fire-Inv id poller set (idle i) = absurd (true≢false (sym set ∙ rw i.no_timers refl))
fire-Inv id poller set (running r) = absurd (true≢false (sym set ∙ rw r.no_timers refl))
fire-Inv id poller set (waiting w) =
    let one : (w.id == id || false) ≡ true = rw w.one_timer at set in
    let same : w.id ≡ id = ground arith in
    running (record {
      id = poller.next_id;
      no_timer = refl;
      no_timers = rw w.one_timer (rw same (rw (==-self id) refl));
      its_active = refl;
      one_running = rw w.none_running refl;
    })

finish-Inv :
    (id : ℕ) (poller : SerialPoller)
    → includes id poller.running ≡ true
    → Inv poller
    → Inv (finish id poller)
unfolding finish
finish-Inv id poller under_way (idle i) =
    absurd (true≢false (sym under_way ∙ rw i.none_running refl))
finish-Inv id poller under_way (waiting w) =
    absurd (true≢false (sym under_way ∙ rw w.none_running refl))
finish-Inv id poller under_way (running r) =
    let one : (id == r.id || false) ≡ true = rw r.one_running at under_way in
    let same : id ≡ r.id = ground arith in
    schedule-Inv poller.interval_ms _ (record {
      no_timer = r.no_timer;
      no_timers = r.no_timers;
      inactive = refl;
      none_running = rw r.one_running (rw same (rw (==-self r.id) refl));
    })

pub Step-Inv : (before after : SerialPoller) → Step before after → Inv before → Inv after
unfolding close
Step-Inv before _ (starts none_here) inv = start-Inv before none_here inv
Step-Inv before _ pauses inv = pause-Inv before inv
Step-Inv before _ (resumes none_here) inv = resume-Inv before none_here inv
Step-Inv before _ closes inv = clear_timer-Inv before true true inv
Step-Inv before _ (fires id set) inv = fire-Inv id before set inv
Step-Inv before _ (finishes id under_way) inv = finish-Inv id before under_way inv

pub Reach-Inv : (first after : SerialPoller) → Reach first after → Inv first → Inv after
Reach-Inv first _ here inv = inv
Reach-Inv first _ (next mid after reach step) inv =
    Step-Inv mid after step (Reach-Inv first mid reach inv)

-- No two iterations, the active one is the one under way, and what is off has no timer.
abbrev pub Serial : SerialPoller → Type 0
Serial poller =
    (length poller.running ≤ 1)
    × ((id : ℕ) → includes id poller.running ≡ true → poller.active ≡ some id)
    × ((poller.stopped || poller.paused) ≡ true → poller.timers ≡ [])

Inv-Serial : (poller : SerialPoller) → Inv poller → Serial poller
Inv-Serial poller (idle i) = (
  rw i.none_running (omega arith),
  (λ id h. absurd (true≢false (sym h ∙ rw i.none_running refl))),
  λ off. i.no_timers,
)
Inv-Serial poller (waiting w) = (
  rw w.none_running (omega arith),
  (λ id h. absurd (true≢false (sym h ∙ rw w.none_running refl))),
  λ off. (let i = off-Idle poller (waiting w) w.none_running off in i.no_timers),
)
Inv-Serial poller (running r) = (
  rw r.one_running (omega arith),
  (λ id h.
      let one : (id == r.id || false) ≡ true = rw r.one_running at h in
      let same : r.id ≡ id = ground arith in r.its_active ∙ ap some same),
  λ off. r.no_timers,
)

new_poller-Inv :
    (interval : ℕ) (poller : SerialPoller) → new_poller interval ≡ some poller → Inv poller
unfolding new_poller
new_poller-Inv interval poller e =
    elim (Bool-cases (ltb interval 10 || ltb (2 ^ 53 - 1) interval)) [
      | inl bad ↦ let none_made : none ≡ some poller = rw bad at e in cc
      | inr good ↦
          let made : some (stopped_poller interval) ≡ some poller = rw good at e in
          let same : stopped_poller interval ≡ poller = cc in
          rw (← same) (
            idle
              (record { no_timer = refl; no_timers = refl; inactive = refl; none_running = refl }))
    ]

-- However a poller is started, paused, resumed and closed, when it is started and resumed only while
-- no iteration is under way, and however its timers fire and its iterations end: no two iterations
-- are under way at once, the active one is the one under way, so that `pause` and `close` wait for it,
-- and while the poller is stopped or paused no timer is set that could begin another.
pub Reach-Serial :
    (interval : ℕ) (first after : SerialPoller)
    → new_poller interval ≡ some first
    → Reach first after
    → Serial after
Reach-Serial interval first after e reach =
    Inv-Serial after (Reach-Inv first after reach (new_poller-Inv interval first e))
