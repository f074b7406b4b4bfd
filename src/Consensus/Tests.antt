-- ===== src/Consensus/Tests.antt =====
-- The theorems on the consensus rules, applied to sample values.
use pantheon_chain.Prelude.{ℕ, ◌*◌, ◌/◌, ◌≤◌, ◌≡◌, ◌↔◌, true, some, arith}
use pantheon_chain.Primitives.Bytes.{IsBytes}
use pantheon_chain.Primitives.Asset.{
  talanton, drachma, halving_interval, get_achievable_supply, get_max_supply,
}
use pantheon_chain.Primitives.Transaction.{zero_hash}
use pantheon_chain.Consensus.Issuance.{
  get_block_reward, calculate_supply_at_height, is_valid_block_reward,
}
use pantheon_chain.Consensus.Issuance.Caps.{
  issued, is_valid_block_reward_iff, calculate_supply_at_height-eq-issued,
  calculate_supply_at_height-capped,
}
use pantheon_chain.Consensus.Difficulty.{
  check_proof_of_work, calculate_next_difficulty, target_timespan,
}
use pantheon_chain.Consensus.Difficulty.Work.{numeral}
use pantheon_chain.Consensus.Difficulty.Targets.{target_value, check_proof_of_work-target_value}
use pantheon_chain.Consensus.Difficulty.Retarget.{
  IsCompact, calculate_next_difficulty-IsCompact, calculate_next_difficulty_steady,
}

-- In the middle of the second epoch of an asset that starts late.
calculate_supply_at_height-eq-issued_example :
    calculate_supply_at_height (halving_interval * 5 / 2) drachma
    ≡ issued drachma (halving_interval * 5 / 2)
calculate_supply_at_height-eq-issued_example =
    calculate_supply_at_height-eq-issued drachma (halving_interval * 5 / 2)

calculate_supply_at_height-capped_example :
    (calculate_supply_at_height 100_000_000 talanton ≤ get_achievable_supply talanton)
    × (calculate_supply_at_height 100_000_000 talanton ≤ get_max_supply talanton)
calculate_supply_at_height-capped_example = calculate_supply_at_height-capped talanton 100_000_000

is_valid_block_reward_iff_example :
    (is_valid_block_reward 7 talanton 5_000_000_000 ≡ true)
    ↔ (5_000_000_000 ≤ get_block_reward 7 talanton)
is_valid_block_reward_iff_example = is_valid_block_reward_iff 7 talanton 5_000_000_000

zero_hash-IsBytes : IsBytes zero_hash
zero_hash-IsBytes = ground arith

check_proof_of_work-target_value_example :
    (check_proof_of_work zero_hash 0x1D00FFFF ≡ true)
    ↔ (numeral 32 zero_hash ≤ target_value 0x1D00FFFF)
check_proof_of_work-target_value_example =
    check_proof_of_work-target_value zero_hash 0x1D00FFFF zero_hash-IsBytes

calculate_next_difficulty-IsCompact_example :
    (next : ℕ) × (calculate_next_difficulty 0x1D00FFFF 1_000_000 target_timespan ≡ some next)
    × IsCompact next
calculate_next_difficulty-IsCompact_example =
    calculate_next_difficulty-IsCompact 0x1D00FFFF 1_000_000 target_timespan (omega arith)
      (omega arith) (omega arith)

calculate_next_difficulty_steady_example :
    calculate_next_difficulty 0x1B0404CB target_timespan target_timespan ≡ some 0x1B0404CB
calculate_next_difficulty_steady_example =
    calculate_next_difficulty_steady 0x1B0404CB target_timespan (omega arith) (omega arith)
      (omega arith, omega arith) (omega arith) (omega arith)
