-- ===== src/Governance/Tests.antt =====
-- The theorems on the governance, applied to sample values.
use pantheon_chain.Prelude.{◌+◌, ◌*◌, ◌<◌, ◌≤◌, ◌≡◌, refl, true, false, some, List, [], ◌∷◌, arith}
use pantheon_chain.Prelude.Maps.{find, insert, bytes_beq, bytes_blt, nat_key}
use pantheon_chain.Governance.Emergency.{
  EmergencyCouncil, pause_governance, is_guardian, any_guardian, is_expired,
  has_sufficient_signatures, propose_action, sign_action, execute_action,
}
use pantheon_chain.Governance.Emergency.Quorum.{
  HasQuorum, Step, proposes, signs, executes, take_step, take_steps, take_steps-HasQuorum,
  execute_action_once,
}
use pantheon_chain.Governance.FeeRouter.{
  l1_utxo, default_config, is_valid, share, split_fee, share_bounds, split_fee_conserves,
}
use pantheon_chain.Governance.Vesting.{
  VestingSchedule, VestingRegistry, compute_vested, claim, revoke,
}
use pantheon_chain.Governance.Vesting.Formula.{
  FitsSchedule, vested_at, compute_vested-eq-vested_at, compute_vested_bounds,
}
use pantheon_chain.Governance.Vesting.Steps.{revoke_settles}
use pantheon_chain.Governance.Vesting.Claims.{
  Call, claims, revokes, Holds, paid_all, perform_all, perform_all-Holds,
}

abbrev grant : VestingSchedule
grant = record {
  schedule_id = 1;
  beneficiary = 7 ∷ [];
  total_amount = 12_000;
  start_block = 100;
  cliff_blocks = 1_000;
  duration_blocks = 11_000;
  claimed_amount = 0;
  revoked = false;
  revoked_at_block = 0;
  grant_id = 0;
}

abbrev registry : VestingRegistry
registry = record { schedules = (1, grant) ∷ []; next_id = 2 }

grant-FitsSchedule : FitsSchedule grant
grant-FitsSchedule = record {
  amount_word = omega arith;
  some_duration = omega arith;
  duration_fits = omega arith;
  end_word = omega arith;
}

stands : find 1 registry.schedules ≡ some grant
unfolding find
stands = refl

registry-Holds : Holds 1 12_000 0 registry
registry-Holds = record {
  schedule = grant;
  stands = stands;
  fits = grant-FitsSchedule;
  amount = refl;
  claimed_so_far = refl;
  within = omega arith;
  older = omega arith;
}

-- A claim before the cliff, one halfway, a revocation, and a claim after it.
abbrev calls : List Call
calls = claims 1 500 ∷ claims 1 6_600 ∷ revokes 1 9 8_000 ∷ claims 1 9_000 ∷ []

perform_all-Holds_example :
    Holds 1 12_000 (0 + paid_all 1 calls registry) (perform_all calls registry)
perform_all-Holds_example = perform_all-Holds 1 12_000 0 calls registry (omega arith) registry-Holds

compute_vested-eq-vested_at_example : compute_vested grant 6_600 ≡ vested_at grant 6_600
compute_vested-eq-vested_at_example = compute_vested-eq-vested_at grant 6_600 grant-FitsSchedule

compute_vested_bounds_example :
    (compute_vested grant 2_000 ≤ compute_vested grant 3_000)
    × (compute_vested grant 3_000 ≤ 12_000)
compute_vested_bounds_example =
    compute_vested_bounds grant 2_000 3_000 grant-FitsSchedule (omega arith)

revoke_settles_example :
    (0 + (revoke 1 9 6_600 registry).0 ≤ 12_000)
    × (claim 1 7_000 (revoke 1 9 6_600 registry).1 ≡ (0, (revoke 1 9 6_600 registry).1))
revoke_settles_example =
    revoke_settles 1 9 6_600 7_000 registry grant stands (omega arith) (omega arith) (omega arith)

share_bounds_example :
    (share 12_345 8_000 * 10_000 ≤ 12_345 * 8_000)
    × (12_345 * 8_000 < share 12_345 8_000 * 10_000 + (8_000 + 1) * 10_000)
share_bounds_example = share_bounds 12_345 8_000 (omega arith) (omega arith)

l1_utxo_valid : is_valid (default_config l1_utxo) ≡ true
unfolding is_valid default_config
l1_utxo_valid = refl

split_fee_conserves_example :
    (split_fee (default_config l1_utxo) 12_345).producer_amount
      + (split_fee (default_config l1_utxo) 12_345).treasury_amount
      + (split_fee (default_config l1_utxo) 12_345).burn_amount
    ≡ 12_345
split_fee_conserves_example =
    split_fee_conserves (default_config l1_utxo) 12_345 l1_utxo_valid (omega arith)

abbrev council : EmergencyCouncil
council = record {
  required_sigs = 2;
  action_ttl = 1_200;
  governance_paused = false;
  guardians =
      record { address = 1 ∷ []; role = []; added_at_block = 0 }
      ∷ record { address = 2 ∷ []; role = []; added_at_block = 0 }
      ∷ [];
  actions = [];
  next_action_id = 1;
}

council-HasQuorum : HasQuorum council
unfolding find
council-HasQuorum id a e done = absurd (ground arith)

-- A pause that two guardians sign.
abbrev steps : List Step
steps =
    proposes pause_governance [] (1 ∷ []) 0 10
    ∷ executes 1 11
    ∷ signs 1 (2 ∷ []) 12
    ∷ executes 1 13
    ∷ []

take_steps-HasQuorum_example : HasQuorum (take_steps steps council)
take_steps-HasQuorum_example = take_steps-HasQuorum steps council council-HasQuorum

abbrev signed : EmergencyCouncil
signed = take_steps (proposes pause_governance [] (1 ∷ []) 0 10 ∷ signs 1 (2 ∷ []) 12 ∷ []) council

executed_once : (execute_action 1 13 signed).0 ≡ true
unfolding execute_action find take_steps take_step sign_action is_guardian any_guardian
    propose_action bytes_beq insert is_expired has_sufficient_signatures bytes_blt
executed_once = refl

execute_action_once_example :
    (execute_action 1 14 (execute_action 1 13 signed).1 ≡ (false, (execute_action 1 13 signed).1))
    × (sign_action 1 (2 ∷ []) 14 (execute_action 1 13 signed).1
        ≡ (false, (execute_action 1 13 signed).1))
execute_action_once_example = execute_action_once 1 13 14 (2 ∷ []) signed executed_once
