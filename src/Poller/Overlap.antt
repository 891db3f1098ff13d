-- ===== src/Poller/Overlap.antt =====
-- What happens when a poller is resumed before its iteration has ended.
use token_pilot.Base.{ℕ, suc, ◌≡◌, refl, true, false, some, [], ◌∷◌, ==-self}
use token_pilot.Poller.{SerialPoller, schedule, clear_timer, pause, resume, fire, is_set}

-- When a poller that runs an iteration is paused, and resumed without waiting for the iteration, a
-- timer is set; when it fires, a second iteration begins beside the first, which the poller no longer
-- waits for: its active iteration is the second.
pub resume-overlaps :
    (poller : SerialPoller) (id : ℕ)
    → poller.running ≡ id ∷ []
    → poller.stopped ≡ false
    → poller.paused ≡ false
    → (is_set poller.next_id (resume (pause poller)) ≡ true)
      × ((fire poller.next_id (resume (pause poller))).running ≡ suc poller.next_id ∷ id ∷ [])
      × ((fire poller.next_id (resume (pause poller))).active ≡ some (suc poller.next_id))
unfolding pause resume schedule clear_timer fire
resume-overlaps poller id one on awake =
    rw on (rw awake (rw (==-self poller.next_id) (refl, rw one refl, refl)))
