-- ===== src/Chainstate/Spending.antt =====
-- What a transaction does to the coins: `Chain::ValidateTransaction` and the loops of `ConnectBlock` and
-- `DisconnectBlock` (layer1-talanton/core/chainstate/chain.cpp). `sha256d` is `crypto::SHA256d`.
use pantheon_chain.Prelude.{
  ℕ, ◌+◌, Bool, true, false, not, Option, none, some, List, [], ◌∷◌, ◌++◌, ltb, ◌==◌, if◌then◌else◌,
  length,
}
use mathlib.Core.Option
use pantheon_chain.Prelude.Maps.{nat_key, bytes_key}
use pantheon_chain.Primitives.Transaction.{Hash, TxInput, TxOutput, Transaction, is_coinbase}
use pantheon_chain.Primitives.Merkle.{get_tx_id}
use pantheon_chain.Chainstate.Utxo.{UtxoSet, Coin, is_spendable, add_coin, get_coin, spend_coin}
use pantheon_chain.Chainstate.Amounts.{
  Amounts, amount_of, add_amount, accumulate, values, all_entries,
}

-- The coins that each transaction but the coinbase has spent.
abbrev pub BlockUndo : Type 0
BlockUndo = List (List Coin)

-- The loop over the inputs: their coins, in order, and the amounts they bring.
unfoldable pub collect_inputs : UtxoSet → ℕ → List TxInput → Amounts → Option (Amounts × List Coin)
collect_inputs u height [] amounts = some (amounts, [])
collect_inputs u height (i ∷ is) amounts = elim (get_coin i.prevout u) [
  | none ↦ none
  | some c ↦
      if not (is_spendable c height)
      then none
      else Option.map (λ r. (r.0, c ∷ r.1))
          (collect_inputs u height is (add_amount c.output.value amounts))
]

-- `input_amounts[asset] < amount` for no entry of the outputs.
unfoldable pub covers : Amounts → Amounts → Bool
covers input_amounts output_amounts =
    all_entries (λ asset amount. not (ltb (amount_of asset input_amounts) amount)) output_amounts

unfoldable pub check_collected : Transaction → Amounts × List Coin → Option (List Coin)
check_collected tx (input_amounts, coins) =
    if covers input_amounts (accumulate (values tx.outputs) []) then some coins else none

-- `ValidateTransaction`: the coins of the inputs, if the transaction is valid.
unfoldable pub validate_transaction : UtxoSet → ℕ → Transaction → Option (List Coin)
validate_transaction u height tx =
    if is_coinbase tx then some [] else elim (collect_inputs u height tx.inputs []) [
      | none ↦ none
      | some collected ↦ check_collected tx collected
    ]

-- The loops that add the outputs of a transaction, remove them, and spend its inputs.
unfoldable pub add_outputs : Hash → ℕ → Bool → ℕ → List TxOutput → UtxoSet → UtxoSet
add_outputs txid height coinbase vout [] u = u
add_outputs txid height coinbase vout (o ∷ os) u = add_outputs txid height coinbase (vout + 1) os (
    add_coin (record { txid = txid; vout = vout })
      (record { output = o; height = height; is_coinbase = coinbase }) u)

unfoldable pub remove_outputs : Hash → ℕ → List TxOutput → UtxoSet → UtxoSet
remove_outputs txid vout [] u = u
remove_outputs txid vout (o ∷ os) u =
    remove_outputs txid (vout + 1) os (spend_coin (record { txid = txid; vout = vout }) u).1

unfoldable pub spend_inputs : List TxInput → UtxoSet → UtxoSet
spend_inputs [] u = u
spend_inputs (i ∷ is) u = spend_inputs is (spend_coin i.prevout u).1

unfoldable pub restore_inputs : List TxInput → List Coin → UtxoSet → UtxoSet
restore_inputs [] coins u = u
restore_inputs (i ∷ is) [] u = u
restore_inputs (i ∷ is) (c ∷ cs) u = restore_inputs is cs (add_coin i.prevout c u)

module _ (sha256d : List ℕ → Hash) where
  -- A regular transaction: its outputs replace its inputs.
  unfoldable pub connect_transaction : ℕ → Transaction → UtxoSet → UtxoSet
  connect_transaction height tx u =
      add_outputs (get_tx_id sha256d tx) height false 0 tx.outputs (spend_inputs tx.inputs u)

  -- The loop over the transactions after the coinbase. A failure leaves what was done before it.
  unfoldable pub connect_rest :
      ℕ → List Transaction → UtxoSet → BlockUndo → Bool × UtxoSet × BlockUndo
  connect_rest height [] u undo = (true, u, undo)
  connect_rest height (tx ∷ txs) u undo = elim (validate_transaction u height tx) [
    | none ↦ (false, u, undo)
    | some coins ↦ connect_rest height txs (connect_transaction height tx u) (undo ++ coins ∷ [])
  ]

  -- A transaction taken back: its outputs go, its inputs return.
  unfoldable pub disconnect_transaction : Transaction → List Coin → UtxoSet → UtxoSet
  disconnect_transaction tx coins u =
      restore_inputs tx.inputs coins (remove_outputs (get_tx_id sha256d tx) 0 tx.outputs u)

  -- The loop of `DisconnectBlock` over the regular transactions, the last first, with the undo data
  -- from its end; the Boolean is false where the data is missing or does not match.
  unfoldable pub disconnect_rest : List Transaction → BlockUndo → UtxoSet → Bool × UtxoSet
  disconnect_rest [] undo u = (true, u)
  disconnect_rest (tx ∷ txs) [] u = (false, remove_outputs (get_tx_id sha256d tx) 0 tx.outputs u)
  disconnect_rest (tx ∷ txs) (coins ∷ undo) u =
      let rest = disconnect_rest txs undo (disconnect_transaction tx coins u) in
      if length coins == length tx.inputs
      then rest
      else (false, remove_outputs (get_tx_id sha256d tx) 0 tx.outputs u)
