-- ===== src/Chainstate/Chain.antt =====
-- `Chain`: connecting and disconnecting blocks
-- (layer1-talanton/core/chainstate/chain.h and chain.cpp). `sha256d` is `crypto::SHA256d`.
pub mod Undo
pub mod Supplies
pub mod Sequence
pub mod Reorg
pub mod Conservation
use pantheon_chain.Prelude.{
  ℕ, zero, suc, ◌+◌, ◌-◌, ◌%◌, Bool, true, false, not, ◌&&◌, ◌||◌, Option, none, some, List, [],
  ◌∷◌, ◌++◌, ltb, ◌==◌, if◌then◌else◌, length,
}
use mathlib.Core.Option
use mathlib.Core.List.{reverse}
use pantheon_chain.Prelude.Words.{u32_mod, add64, sub64}
use pantheon_chain.Prelude.Maps.{Map, find, insert, erase, bytes_beq, nat_key, bytes_key}
use pantheon_chain.Primitives.Asset.{AssetId, get_max_supply, talanton, drachma, obolos}
use pantheon_chain.Primitives.Transaction.{
  Hash, zero_hash, OutPoint, TxInput, TxOutput, Transaction, is_coinbase,
}
use pantheon_chain.Primitives.Merkle.{get_tx_id}
use pantheon_chain.Primitives.Block.{BlockHeader, Block}
use pantheon_chain.Primitives.Block.Validity.{get_hash}
use pantheon_chain.Primitives.Block.Validity
use pantheon_chain.Consensus.Issuance.{is_valid_block_reward}
use pantheon_chain.Consensus.Difficulty.{check_proof_of_work}
use pantheon_chain.Chainstate.Utxo.{UtxoSet, Coin, is_spendable, add_coin, get_coin, spend_coin}
use pantheon_chain.Chainstate.Amounts.{
  Amounts, amount_of, add_amount, accumulate, values, all_entries,
}
use pantheon_chain.Chainstate.Supply.{no_supply, add_supplies}
use pantheon_chain.Chainstate.Spending.{
  BlockUndo, collect_inputs, covers, check_collected, validate_transaction, add_outputs,
  remove_outputs, spend_inputs, restore_inputs, connect_transaction, connect_rest,
  disconnect_transaction, disconnect_rest,
}

pub record BlockIndex : Type 0 where
  pub hash : Hash
  pub prev_hash : Hash
  pub height : ℕ
  pub timestamp : ℕ
  pub bits : ℕ
  pub chain_work : ℕ

pub record Chain : Type 0 where
  pub utxo_set : UtxoSet
  pub height : ℕ
  pub tip_hash : Hash
  pub block_index : Map Hash BlockIndex
  pub total_supply : Amounts

-- Also what `Reset` leaves.
unfoldable pub initial : Chain
initial = record {
  utxo_set = [];
  height = 0;
  tip_hash = zero_hash;
  block_index = [];
  total_supply = no_supply;
}

-- The supply test of `ConnectBlock`; `total_supply_[asset]` makes an entry for a new asset.
unfoldable pub check_coinbase : ℕ → Amounts → Amounts → Bool × Amounts
check_coinbase block_height [] supply = (true, supply)
check_coinbase block_height ((asset, amount) ∷ rest) supply =
    if not (is_valid_block_reward block_height asset amount)
    then (false, supply)
    else let current = amount_of asset supply in
      let touched = insert asset current supply in
      let later = check_coinbase block_height rest touched in
      if ltb (add64 current amount) current
      then (false, touched)
      else if ltb (get_max_supply asset) (add64 current amount)
      then (false, touched)
      else later

pub subtract_supplies : Amounts → Amounts → Amounts
subtract_supplies [] supply = supply
subtract_supplies ((asset, amount) ∷ rest) supply =
    subtract_supplies rest (insert asset (sub64 (amount_of asset supply) amount) supply)

-- `UpdateSupply(coinbase, connect)`
unfoldable pub update_supply : Transaction → Bool → Amounts → Amounts
update_supply coinbase connect supply =
    if not (is_coinbase coinbase)
    then supply
    else if connect
    then add_supplies (accumulate (values coinbase.outputs) []) supply
    else subtract_supplies (accumulate (values coinbase.outputs) []) supply

module _ (sha256d : List ℕ → Hash) where
  unfoldable pub connect_coinbase : ℕ → Transaction → UtxoSet → UtxoSet
  connect_coinbase height tx u = add_outputs (get_tx_id sha256d tx) height true 0 tx.outputs u

  -- One more than the work of the parent, where the parent is known.
  unfoldable pub work_after : ℕ → BlockHeader → Map Hash BlockIndex → ℕ
  work_after height header index =
      if ltb 1 height
      then elim (find header.prev_block_hash index) [ none ↦ 1 | some i ↦ add64 i.chain_work 1 ]
      else 1

  -- The update of the chain once every transaction is connected.
  unfoldable pub extend_chain : ℕ → Block → Transaction → UtxoSet → Amounts → Chain → Chain
  extend_chain height b coinbase u supply c = record {
    utxo_set = u;
    height = height;
    tip_hash = get_hash sha256d b.header;
    block_index =
        insert (get_hash sha256d b.header)
          (record {
            hash = get_hash sha256d b.header;
            prev_hash = b.header.prev_block_hash;
            height = height;
            timestamp = b.header.timestamp;
            bits = b.header.bits;
            chain_work = work_after height b.header c.block_index;
          })
          c.block_index;
    total_supply = update_supply coinbase true supply;
  }

  -- The transactions, after the tests of the coinbase.
  unfoldable pub connect_transactions :
      ℕ
      → Block
      → Transaction
      → List Transaction
      → Amounts
      → Chain
      → BlockUndo
      → Bool × Chain × BlockUndo
  connect_transactions height b coinbase rest supply c undo =
      let (done, u, undo') =
        connect_rest sha256d height rest (connect_coinbase height coinbase c.utxo_set) undo in
      if done
      then (true, extend_chain height b coinbase u supply c, undo')
      else (false, record c { utxo_set = u; total_supply = supply }, undo')

  unfoldable pub connect_from :
      List Transaction → Block → Chain → BlockUndo → Bool × Chain × BlockUndo
  connect_from [] b c undo = (false, c, undo)
  connect_from (coinbase ∷ rest) b c undo =
      let height = (c.height + 1) % u32_mod in
      let (sound, supply) =
        check_coinbase height (accumulate (values coinbase.outputs) []) c.total_supply in
      if not (is_coinbase coinbase)
      then (false, c, undo)
      else if not sound
      then (false, record c { total_supply = supply }, undo)
      else connect_transactions height b coinbase rest supply c undo

  -- `ConnectBlock` returns its result, and changes the chain and the undo data.
  unfoldable pub connect_block : Block → Chain → BlockUndo → Bool × Chain × BlockUndo
  connect_block b c undo =
      if not (Validity.is_valid sha256d b)
      then (false, c, undo)
      else if not (check_proof_of_work (get_hash sha256d b.header) b.header.bits)
      then (false, c, undo)
      else connect_from b.transactions b c undo

  pub disconnect_from : List Transaction → Block → BlockUndo → Chain → Bool × Chain
  disconnect_from [] b undo c = (false, c)
  disconnect_from (coinbase ∷ rest) b undo c =
      let (done, u) = disconnect_rest sha256d (reverse rest) (reverse undo) c.utxo_set in
      if not done then (false, record c { utxo_set = u }) else (
        true,
        record {
          utxo_set = remove_outputs (get_tx_id sha256d coinbase) 0 coinbase.outputs u;
          height = c.height - 1;
          tip_hash = b.header.prev_block_hash;
          block_index = erase (get_hash sha256d b.header) c.block_index;
          total_supply = update_supply coinbase false c.total_supply;
        },
      )

  -- `DisconnectBlock`, for a block that has transactions (an empty one has no `transactions[0]`).
  pub disconnect_block : Block → BlockUndo → Chain → Bool × Chain
  disconnect_block b undo c =
      if c.height == 0
      then (false, c)
      else if not (bytes_beq (get_hash sha256d b.header) c.tip_hash)
      then (false, c)
      else disconnect_from b.transactions b undo c
