-- ===== src/Quota/Tests/Reserving.antt =====
-- A reservation by the user of the store, under one rule.
use token_pilot.Base.{ℕ, ◌+◌, ◌≡◌, refl, true, none, List, [], ◌∷◌}
use token_pilot.Base.Int.{pos, ◌+ℤ◌, ◌-ℤ◌}
use token_pilot.Quota.Types.{Store, PeriodType}
use token_pilot.Quota.Store.{
  Result, ok, counters_ok, ◌>>=◌, ◌>>◌, throw_if, put, write_checked, update_row, update_quota,
  update_reservations, create_entry, create_reservation,
}
use token_pilot.Quota.Claims.{
  reservation_claims, remaining_aiu, user_summary, quota_row, find_reservation,
}
use token_pilot.Quota.Balance.{Inv}
use token_pilot.Quota.Settle.{find_quota, find_entry}
use token_pilot.Quota.Policy.Precedence.{Chosen, resolve_policy-Chosen}
use token_pilot.Quota.Policy.{Policy, Scope, candidates, resolve_policy}
use token_pilot.Quota.Materialize.{
  materialize, materialize_from, regrant, withdraw, set_quota, create_quota, policy_window,
  period_window, period_changed, unchanged,
}
use token_pilot.Quota.Rollover.{rollover, rollover_from, renew}
use token_pilot.Quota.Reserve.{
  Request, Outcome, granted, user_blocked, denied, reserve_transaction, reserve_user, reserve_from,
  reserve_or_hold, hold, existing, find_user,
}
use token_pilot.Quota.Reserve.Safety.{reserve-Inv, reserve-Within, Within}
use token_pilot.Quota.Tests.{before, codec, left, answer, before-Inv}

abbrev request : Request
request = record {
  user_id = 3;
  operation_id = 12;
  virtual_model = 2;
  candidate_model_ids = none;
  estimated = pos 60;
}

abbrev calendar : PeriodType → ℕ → ℕ × ℕ
calendar p now = (now, now + 1000)

abbrev rules : List Policy
rules =
    record {
      id = 31;
      application_id = 7;
      enabled = true;
      scope = Scope.application;
      user_id = none;
      group = none;
      priority = 1;
      updated_at = 5;
      limit = pos 600;
      hard_limit = true;
      period_type = PeriodType.lifetime;
      starts_at = none;
      ends_at = none;
    }
    ∷ []

abbrev reserve_call : Result (Outcome × Store)
reserve_call = reserve_transaction codec 7 calendar rules 1 6 10 41 request (4 ∷ []) 800 300 before

abbrev no_outcome : Outcome
no_outcome = denied 1 user_blocked none

reserve_success : reserve_call ≡ ok (answer no_outcome reserve_call, left reserve_call)
unfolding reserve_transaction reserve_user reserve_from reserve_or_hold hold existing find_user
    materialize materialize_from regrant withdraw set_quota create_quota policy_window period_window
    period_changed unchanged rollover rollover_from renew candidates resolve_policy find_quota
    find_entry ◌>>=◌ ◌>>◌ throw_if put write_checked update_row update_quota update_reservations
    create_entry create_reservation counters_ok find_reservation quota_row reservation_claims
    user_summary remaining_aiu ◌+ℤ◌ ◌-ℤ◌
reserve_success = refl

reserve-Inv_example : Inv (left reserve_call)
reserve-Inv_example =
    reserve-Inv calendar codec 7 request 10 (4 ∷ []) 800 300 rules 1 6 41 before (left reserve_call)
      (answer no_outcome reserve_call) reserve_success before-Inv

reserve_granted : (answer no_outcome reserve_call).reason ≡ granted
unfolding reserve_transaction reserve_user reserve_from reserve_or_hold hold existing find_user
    materialize materialize_from regrant withdraw set_quota create_quota policy_window period_window
    period_changed unchanged rollover rollover_from renew candidates resolve_policy find_quota
    find_entry ◌>>=◌ ◌>>◌ throw_if put write_checked update_row update_quota update_reservations
    create_entry create_reservation counters_ok find_reservation quota_row reservation_claims
    user_summary remaining_aiu ◌+ℤ◌ ◌-ℤ◌
reserve_granted = refl

reserve-Within_example : Within 7 1 (left reserve_call)
reserve-Within_example =
    reserve-Within calendar codec 7 request 10 (4 ∷ []) 800 300 rules 1 6 41 before
      (left reserve_call) (answer no_outcome reserve_call) reserve_success before-Inv refl
      reserve_granted refl

resolve_policy-Chosen_example : Chosen 7 1 rules (resolve_policy 7 1 rules)
resolve_policy-Chosen_example = resolve_policy-Chosen 7 1 rules
