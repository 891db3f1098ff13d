-- ===== src/Poller/Tests.antt =====
-- A poller that is started, runs once, is paused and resumed.
use token_pilot.Base.{◌≡◌, refl, true, false, none, some, [], ◌∷◌, includes}
use token_pilot.Poller.{
  SerialPoller, stopped_poller, new_poller, schedule, start, clear_timer, pause, resume, close,
  fire, finish, is_set, starts, closes, fires, finishes, Reach, here, next,
}
use token_pilot.Poller.Safety.{Serial, Reach-Serial}
use token_pilot.Poller.Overlap.{resume-overlaps}

abbrev first : SerialPoller
first = stopped_poller 500

first-made : new_poller 500 ≡ some first
unfolding new_poller
first-made = refl

abbrev started : SerialPoller
started = start first

abbrev busy : SerialPoller
busy = fire 0 started

started-set : is_set 0 started ≡ true
unfolding start schedule
started-set = refl

busy-running : includes 1 busy.running ≡ true
unfolding start schedule fire
busy-running = refl

closed_run : Reach first (close (finish 1 busy))
closed_run =
    next (finish 1 busy) (close (finish 1 busy))
      (next busy (finish 1 busy)
        (next started busy (next first started here (starts refl)) (fires 0 started-set))
        (finishes 1 busy-running))
      closes

Reach-Serial_example : Serial (close (finish 1 busy))
Reach-Serial_example = Reach-Serial 500 first (close (finish 1 busy)) first-made closed_run

-- After the close nothing is set and nothing runs.
closed-still : ((close (finish 1 busy)).timers ≡ []) × ((close (finish 1 busy)).running ≡ [])
unfolding start schedule fire finish close clear_timer
closed-still = (refl, refl)

abbrev one_running : SerialPoller
one_running = record {
  interval_ms = 500;
  timer = none;
  active = some 1;
  stopped = false;
  paused = false;
  timers = [];
  running = 1 ∷ [];
  next_id = 2;
}

resume-overlaps_example :
    (is_set 2 (resume (pause one_running)) ≡ true)
    × ((fire 2 (resume (pause one_running))).running ≡ 3 ∷ 1 ∷ [])
    × ((fire 2 (resume (pause one_running))).active ≡ some 3)
resume-overlaps_example = resume-overlaps one_running 1 refl refl refl
