-- ===== src/Chainstate/Samples.antt =====
-- Sample coins and a chain for the tests.
use pantheon_chain.Prelude.{ℕ, ◌≡◌, refl, Bool, true, false, some, List, [], ◌∷◌}
use pantheon_chain.Primitives.Asset.{AssetId, talanton, get_achievable_supply, get_max_supply}
use pantheon_chain.Primitives.Transaction.{Hash, zero_hash, OutPoint, TxOutput, outpoint_beq_iff}
use pantheon_chain.Primitives.Samples.{length_hash, old_point, other_point, pays, transfer, block}
use pantheon_chain.Chainstate.Utxo.{UtxoSet, Coin, get_coin, spend_coin}
use pantheon_chain.Chainstate.Amounts.{amount_of}
use pantheon_chain.Chainstate.Spending.{validate_transaction, collect_inputs}
use pantheon_chain.Chainstate.Chain.{Chain, connect_block, disconnect_block}
use pantheon_chain.Chainstate.Chain
use pantheon_chain.Primitives.Block.Validity
use pantheon_chain.Primitives.Transaction.{
  is_coinbase, outputs_valid, output_is_valid, no_duplicates, seen_before, outpoint_beq,
  outpoint_blt,
}
use pantheon_chain.Prelude.Maps.{bytes_beq, bytes_key, erase, find, insert, bytes_blt}
use pantheon_chain.Primitives.Wire
use pantheon_chain.Primitives.Bytes.{write_u16, write_u32, write_u64}
use pantheon_chain.Primitives.Compact.{write_compact_size}
use pantheon_chain.Primitives.Block.{serialize_header}
use pantheon_chain.Primitives.Merkle.{
  calculate_merkle_root, calculate_root, get_tx_id, hash_nodes, next_level, root_loop,
}
use pantheon_chain.Chainstate.Amounts.{accumulate, add_amount, all_entries}
use pantheon_chain.Chainstate.Spending.{
  add_outputs, check_collected, connect_rest, connect_transaction, covers, spend_inputs,
}
use pantheon_chain.Chainstate.Utxo.{add_coin, is_spendable}
use pantheon_chain.Consensus.Difficulty.{
  at_most, check_proof_of_work, compact_to_bits256, placed_target, small_target, compare256,
  compare_from,
}
use pantheon_chain.Consensus.Issuance.{
  blocks_in_epoch, calculate_supply_at_height, get_block_reward, get_initial_reward,
  is_valid_block_reward, reward_after, reward_from, start_height, supply_from, supply_loop,
}
use pantheon_chain.Chainstate.Chain.{
  check_coinbase, connect_coinbase, connect_from, connect_transactions, extend_chain, update_supply,
  work_after,
}
use pantheon_chain.Chainstate.Supply.{add_supplies}
use pantheon_chain.Primitives.Asset
use pantheon_chain.Primitives.Transaction

abbrev pub coin : ℕ → Coin
coin amount = record { output = pays amount; height = 0; is_coinbase = false }

abbrev pub coins : UtxoSet
coins = (old_point, coin 40) ∷ (other_point, coin 5) ∷ []

abbrev pub genesis : Chain
genesis = record Chain.initial { utxo_set = coins }

abbrev pub connected : Bool × Chain × List (List Coin)
connected = connect_block length_hash block genesis []

-- The block is connected: both of its transactions pass.
pub connects : connect_block length_hash block genesis [] ≡ (true, connected.1, connected.2)
unfolding Wire.serialize Wire.serialize_all Wire.serialize_input Wire.serialize_output
    Wire.serialize_outpoint write_u16 write_u32 write_u64 write_compact_size Asset.serialize
    serialize_header connect_block Validity.is_valid Validity.coinbase_first Validity.any_coinbase
    Validity.all_valid Validity.merkle_root_matches Validity.get_hash
    Validity.meets_difficulty_target is_coinbase outputs_valid output_is_valid no_duplicates
    seen_before outpoint_beq outpoint_blt bytes_beq bytes_blt erase find insert
    calculate_merkle_root calculate_root get_tx_id hash_nodes next_level root_loop accumulate
    add_amount all_entries add_outputs check_collected connect_rest connect_transaction covers
    spend_inputs add_coin is_spendable at_most check_proof_of_work compact_to_bits256 placed_target
    small_target compare256 compare_from blocks_in_epoch calculate_supply_at_height get_block_reward
    get_initial_reward is_valid_block_reward reward_after reward_from start_height supply_from
    supply_loop check_coinbase connect_coinbase Chain.initial connect_from connect_transactions
    extend_chain update_supply work_after add_supplies Asset.is_valid Asset.is_valid_amount
    get_max_supply Transaction.is_valid collect_inputs validate_transaction spend_coin get_coin
    amount_of
connects = refl

pub regular : is_coinbase transfer ≡ false
unfolding is_coinbase
regular = refl

pub accepted : validate_transaction coins 1 transfer ≡ some (coin 40 ∷ coin 5 ∷ [])
unfolding validate_transaction is_coinbase collect_inputs get_coin find outpoint_beq bytes_beq
    is_spendable check_collected covers all_entries accumulate add_amount insert amount_of
accepted = refl
