-- ===== src/Chainstate/Tests.antt =====
-- The theorems on the chain state, applied to sample values.
use pantheon_chain.Prelude.{◌+◌, ◌%◌, ◌<◌, ◌≤◌, ◌≡◌, refl, true, none, some, [], ◌∷◌, arith}
use pantheon_chain.Prelude.Words.{u64_mod, u32_mod}
use pantheon_chain.Primitives.Asset.{AssetId, talanton, get_achievable_supply, get_max_supply}
use pantheon_chain.Primitives.Samples.{length_hash, transfer, coinbase, block}
use pantheon_chain.Chainstate.Utxo.{get_coin}
use pantheon_chain.Chainstate.Amounts.{amount_of, values, total_of, AllValid}
use pantheon_chain.Chainstate.Supply
use pantheon_chain.Chainstate.Supply.Caps.{apply_blocks, apply_blocks-capped}
use pantheon_chain.Chainstate.Spending.{validate_transaction, collect_inputs}
use pantheon_chain.Chainstate.Chain.{Chain, connect_block, disconnect_block}
use pantheon_chain.Chainstate.Chain
use pantheon_chain.Chainstate.Chain.Conservation.{
  Names, coin_values, validate_transaction_sound, validate_transaction-conserves,
  validate_transaction_complete,
}
use pantheon_chain.Chainstate.Chain.Supplies.{SuppliesFit}
use pantheon_chain.Chainstate.Chain.Undo.{Missing, Missing-created}
use pantheon_chain.Chainstate.Chain.Reorg.{FreshBlock, Restores, disconnect-connect_block}
use pantheon_chain.Primitives.Block.Validity
use pantheon_chain.Primitives.Transaction.{outpoint_beq, outpoint_blt}
use pantheon_chain.Prelude.Maps.{bytes_beq, bytes_key, find, insert, bytes_blt}
use pantheon_chain.Primitives.Wire
use pantheon_chain.Primitives.Bytes.{write_u16, write_u32, write_u64}
use pantheon_chain.Primitives.Compact.{write_compact_size}
use pantheon_chain.Primitives.Merkle.{get_tx_id}
use pantheon_chain.Chainstate.Amounts.{add_amount}
use pantheon_chain.Chainstate.Spending.{add_outputs}
use pantheon_chain.Chainstate.Utxo.{add_coin, is_spendable}
use pantheon_chain.Chainstate.Chain.{
  check_coinbase, connect_coinbase, connect_from, connect_transactions, extend_chain, update_supply,
  work_after,
}
use pantheon_chain.Chainstate.Supply.{add_supplies}
use pantheon_chain.Primitives.Asset
use pantheon_chain.Chainstate.Samples.{coin, coins, genesis, connected, connects, regular, accepted}

coinbase-Missing : Missing (get_tx_id length_hash coinbase) 0 coinbase.outputs genesis.utxo_set
unfolding Wire.serialize Wire.serialize_all Wire.serialize_input Wire.serialize_output
    Wire.serialize_outpoint write_u16 write_u32 write_u64 write_compact_size Asset.serialize
    get_tx_id Chain.initial get_coin find outpoint_beq bytes_beq
coinbase-Missing = (refl, tt)

transfer-Missing :
    Missing
      (get_tx_id length_hash transfer)
      0
      transfer.outputs
      (connect_coinbase length_hash (genesis.height + 1) coinbase genesis.utxo_set)
unfolding Wire.serialize Wire.serialize_all Wire.serialize_input Wire.serialize_output
    Wire.serialize_outpoint write_u16 write_u32 write_u64 write_compact_size Asset.serialize
    get_tx_id Chain.initial get_coin find outpoint_beq bytes_beq connect_coinbase add_outputs
    add_coin insert outpoint_blt bytes_blt
transfer-Missing = (refl, (refl, tt))

genesis_fit : SuppliesFit genesis.total_supply
unfolding Chain.initial amount_of find
genesis_fit asset = ground arith

fresh : FreshBlock length_hash (genesis.height + 1) block.transactions genesis.utxo_set
fresh = (
  λ o.
      Missing-created o (get_tx_id length_hash coinbase) 0 coinbase.outputs genesis.utxo_set
        coinbase-Missing,
  (
    λ o.
        Missing-created o (get_tx_id length_hash transfer) 0 transfer.outputs
          (connect_coinbase length_hash (genesis.height + 1) coinbase genesis.utxo_set)
          transfer-Missing,
    tt,
  ),
)

start : genesis.height + 1 < u32_mod
unfolding Chain.initial
start = omega arith

parent_is_tip : block.header.prev_block_hash ≡ genesis.tip_hash
unfolding Chain.initial
parent_is_tip = refl

hash_is_new :
    find ⦃o = bytes_key⦄ (Validity.get_hash length_hash block.header) genesis.block_index ≡ none
unfolding Chain.initial find
hash_is_new = refl

disconnect-connect_block_example :
    (d : Chain) × (disconnect_block length_hash block connected.2 connected.1 ≡ (true, d))
    × Restores length_hash d genesis
disconnect-connect_block_example =
    disconnect-connect_block length_hash block genesis connected.1 connected.2 connects fresh start
      parent_is_tip hash_is_new genesis_fit

found :
    collect_inputs coins 1 transfer.inputs [] ≡ some ((talanton, 45) ∷ [], coin 40 ∷ coin 5 ∷ [])
unfolding collect_inputs get_coin find outpoint_beq bytes_beq is_spendable add_amount insert
    amount_of
found = refl

validate_transaction_sound_example :
    Names coins 1 transfer.inputs (coin 40 ∷ coin 5 ∷ [])
    × ((asset : AssetId)
        → total_of asset (values transfer.outputs) % u64_mod
          ≤ total_of asset (coin_values (coin 40 ∷ coin 5 ∷ [])) % u64_mod)
validate_transaction_sound_example =
    validate_transaction_sound coins 1 transfer (coin 40 ∷ coin 5 ∷ []) regular accepted

valid : AllValid (values transfer.outputs)
unfolding Asset.is_valid Asset.is_valid_amount get_max_supply
valid = (refl, (refl, tt))

validate_transaction-conserves_example :
    total_of talanton (values transfer.outputs)
    ≤ total_of talanton (coin_values (coin 40 ∷ coin 5 ∷ []))
validate_transaction-conserves_example =
    validate_transaction-conserves coins 1 transfer (coin 40 ∷ coin 5 ∷ []) talanton regular
      accepted valid (omega arith)

validate_transaction_complete_example :
    validate_transaction coins 1 transfer ≡ some (coin 40 ∷ coin 5 ∷ [])
validate_transaction_complete_example =
    validate_transaction_complete coins 1 transfer ((talanton, 45) ∷ []) (coin 40 ∷ coin 5 ∷ [])
      regular found (λ asset. ground arith)

apply_blocks-capped_example :
    (amount_of talanton (apply_blocks length_hash (block ∷ []) Supply.initial).total_supply
      ≤ get_achievable_supply talanton)
    × (amount_of talanton (apply_blocks length_hash (block ∷ []) Supply.initial).total_supply
        ≤ get_max_supply talanton)
apply_blocks-capped_example = apply_blocks-capped length_hash (block ∷ []) talanton (omega arith)
