-- ===== src/Quota/Tests/Charging.antt =====
-- Charging usage events to the quota of the store, and sweeping it.
use token_pilot.Base.{◌≡◌, refl, Option, some, none}
use token_pilot.Base.Int.{pos, ◌+ℤ◌, ◌-ℤ◌}
use token_pilot.Quota.Types.{Store}
use token_pilot.Quota.Store.{
  Result, ok, counters_ok, ◌>>=◌, ◌>>◌, throw_if, put, write_checked, update_row, update_quota,
  update_reservations, create_entry,
}
use token_pilot.Quota.Claims.{quota_row, find_reservation}
use token_pilot.Quota.Balance.{Inv}
use token_pilot.Quota.Settle.{
  Consumption, apply_user_aiu, settle_found, settle_by_status, settle_row,
}
use token_pilot.Quota.Settle.Safety.{apply_user_aiu-Inv}
use token_pilot.Quota.Sweep.{sweep}
use token_pilot.Quota.Sweep.Safety.{sweep-Inv}
use token_pilot.Quota.Tests.{before, left, answer, before-Inv}

abbrev charged_call : Result (Option Consumption × Store)
charged_call = apply_user_aiu 7 1 (some 9) 21 (some (pos 30)) 800 before

charged_success : charged_call ≡ ok (answer none charged_call, left charged_call)
unfolding apply_user_aiu settle_found settle_by_status settle_row ◌>>=◌ ◌>>◌ throw_if put
    write_checked update_row update_quota update_reservations create_entry counters_ok
    find_reservation quota_row ◌+ℤ◌ ◌-ℤ◌
charged_success = refl

apply_user_aiu-Inv_example : Inv (left charged_call)
apply_user_aiu-Inv_example =
    apply_user_aiu-Inv 7 1 (some 9) 21 (some (pos 30)) 800 before (left charged_call)
      (answer none charged_call) before-Inv charged_success

sweep-Inv_example : Inv (sweep 10 1000 before).1
sweep-Inv_example = sweep-Inv 10 1000 before before-Inv
