-- ===== src/Poller.antt =====
-- The poll loop of the worker: apps/worker/src/serial-poller.ts.
pub mod Safety
pub mod Overlap
mod Tests
use token_pilot.Base.{
  ℕ, suc, ◌^◌, ◌-◌, ◌≡◌, Bool, true, false, not, ◌||◌, Option, none, some, List, [], ◌∷◌, ◌++◌,
  keep, any, includes, ltb, ◌==◌, if◌then◌else◌,
}

-- A timer that was set and has neither fired nor been cleared.
pub record Timer : Type 0 where
  pub id : ℕ
  pub delay_ms : ℕ

-- The members `timer`, `active`, `stopped` and `paused` of the poller, by identifiers of timers and
-- of iterations, with what they are about: the timers that are set and the iterations that have
-- begun and not ended. `next_id` is the identifier of the next timer or iteration.
pub record SerialPoller : Type 0 where
  pub interval_ms : ℕ
  pub timer : Option ℕ
  pub active : Option ℕ
  pub stopped : Bool
  pub paused : Bool
  pub timers : List Timer
  pub running : List ℕ
  pub next_id : ℕ

abbrev pub stopped_poller : ℕ → SerialPoller
stopped_poller interval = record {
  interval_ms = interval;
  timer = none;
  active = none;
  stopped = true;
  paused = false;
  timers = [];
  running = [];
  next_id = 0;
}

-- The constructor, which throws for an interval that is too short or no safe integer.
unfoldable pub new_poller : ℕ → Option SerialPoller
new_poller interval =
    if ltb interval 10 || ltb (2 ^ 53 - 1) interval then none else some (stopped_poller interval)

unfoldable pub schedule : ℕ → SerialPoller → SerialPoller
schedule delay poller = if poller.stopped || poller.paused then poller else record poller {
  timer = some poller.next_id;
  timers = record { id = poller.next_id; delay_ms = delay } ∷ poller.timers;
  next_id = suc poller.next_id;
}

unfoldable pub start : SerialPoller → SerialPoller
start poller =
    if not poller.stopped
    then poller
    else schedule 0 (record poller { stopped = false; paused = false })

abbrev pub without_timer : Option ℕ → List Timer → List Timer
without_timer none timers = timers
without_timer (some id) timers = keep (λ timer. not (timer.id == id)) timers

-- `clearTimeout(this.timer)` and `this.timer = null`.
unfoldable pub clear_timer : SerialPoller → SerialPoller
clear_timer poller = record poller {
  timer = none;
  timers = without_timer poller.timer poller.timers;
}

-- What `pause` does before it waits for the active iteration.
unfoldable pub pause : SerialPoller → SerialPoller
pause poller =
    if poller.stopped || poller.paused
    then poller
    else clear_timer (record poller { paused = true })

unfoldable pub resume : SerialPoller → SerialPoller
resume poller =
    if poller.stopped || not poller.paused
    then poller
    else schedule 0 (record poller { paused = false })

-- What `close` does before it waits for the active iteration.
unfoldable pub close : SerialPoller → SerialPoller
close poller = clear_timer (record poller { stopped = true; paused = true })

-- The callback of a timer, which begins an iteration.
unfoldable pub fire : ℕ → SerialPoller → SerialPoller
fire id poller = record poller {
  timer = none;
  timers = without_timer (some id) poller.timers;
  active = some poller.next_id;
  running = poller.next_id ∷ poller.running;
  next_id = suc poller.next_id;
}

-- The end of an iteration, whether `run` has thrown or not.
unfoldable pub finish : ℕ → SerialPoller → SerialPoller
finish id poller =
    schedule poller.interval_ms
      (record poller { active = none; running = keep (λ other. not (other == id)) poller.running })

abbrev pub is_set : ℕ → SerialPoller → Bool
is_set id poller = any (λ timer. timer.id == id) poller.timers

-- A step of the poller and its surroundings. Callers start or resume it when no iteration is under
-- way, as they do who wait for `pause` and `close`.
pub data Step (poller : SerialPoller) : SerialPoller → Type 0 where
  starts : poller.running ≡ [] → Step poller (start poller)
  pauses : Step poller (pause poller)
  resumes : poller.running ≡ [] → Step poller (resume poller)
  closes : Step poller (close poller)
  fires : (id : ℕ) → is_set id poller ≡ true → Step poller (fire id poller)
  finishes : (id : ℕ) → includes id poller.running ≡ true → Step poller (finish id poller)

pub data Reach (poller : SerialPoller) : SerialPoller → Type 0 where
  here : Reach poller poller
  next : (mid after : SerialPoller) → Reach poller mid → Step mid after → Reach poller after
