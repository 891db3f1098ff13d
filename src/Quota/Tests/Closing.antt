-- ===== src/Quota/Tests/Closing.antt =====
-- Settlements of the reservation of the store.
use token_pilot.Base.{◌≡◌, refl, arith}
use token_pilot.Base.Int.{pos, ◌+ℤ◌, ◌-ℤ◌}
use token_pilot.Quota.Types.{Store, Reservation}
use token_pilot.Quota.Store.{
  Result, ok, err, counters_ok, ◌>>=◌, ◌>>◌, throw_if, put, write_checked, update_row, update_quota,
  update_reservations, create_entry, conflict, already_settled,
}
use token_pilot.Quota.Claims.{
  Transition, reservation_claims, same_claims, lineage_holds, remaining_aiu, user_summary,
  transition_result, quota_row, find_reservation,
}
use token_pilot.Quota.Balance.{Inv}
use token_pilot.Quota.Transition.{
  settle, transition, transition_found, transition_body, by_status, close_row,
}
use token_pilot.Quota.Transition.Safety.{transition-Inv, transition-Effect, Effect}
use token_pilot.Quota.Transition.Replay.{settle_again, settle_other}
use token_pilot.Quota.Tests.{quota, row, before, codec, left, answer, before-Inv}

abbrev settled_call : Result (Transition × Store)
settled_call = transition codec 7 9 1009 settle (pos 30) 800 before

abbrev no_transition : Transition
no_transition = transition_result row quota

settled_success : settled_call ≡ ok (answer no_transition settled_call, left settled_call)
unfolding transition transition_body transition_found by_status close_row ◌>>=◌ ◌>>◌ throw_if put
    write_checked update_row update_quota update_reservations create_entry counters_ok
    find_reservation quota_row lineage_holds same_claims reservation_claims transition_result
    user_summary remaining_aiu ◌+ℤ◌ ◌-ℤ◌
settled_success = refl

transition-Inv_example : Inv (left settled_call)
transition-Inv_example =
    transition-Inv codec 7 9 1009 settle (pos 30) 800 before (left settled_call)
      (answer no_transition settled_call) settled_success before-Inv

transition-Effect_example :
    (row : Reservation) × Effect 7 9 settle (pos 30) before (left settled_call) row
transition-Effect_example =
    transition-Effect codec 7 9 1009 settle (pos 30) 800 before (left settled_call)
      (answer no_transition settled_call) settled_success

settle_again_example :
    transition codec 7 9 1009 settle (pos 30) 850 (left settled_call)
    ≡ ok (answer no_transition settled_call, left settled_call)
settle_again_example =
    settle_again codec 7 9 1009 (pos 30) 800 850 before (left settled_call)
      (answer no_transition settled_call) settled_success

settle_other_example :
    transition codec 7 9 1009 settle (pos 31) 850 (left settled_call)
    ≡ err (conflict already_settled)
settle_other_example =
    settle_other codec 7 9 1009 (pos 30) 800 850 before (left settled_call)
      (answer no_transition settled_call) settled_success (pos 31) (λ h. ground arith)
