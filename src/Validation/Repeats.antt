-- ===== src/Validation/Repeats.antt =====
-- A transaction that stands twice in a block: `ValidateBlock` of
-- layer1-talanton/core/validation/validation.cpp beside `Chain::ConnectBlock` of
-- layer1-talanton/core/chainstate/chain.cpp.
use pantheon_chain.Prelude.{
  ℕ, ◌+◌, ◌%◌, ◌≡◌, refl, ap, inl, inr, Bool, false, none, List, [], ◌∷◌, ◌++◌, All, Option-cases,
  arith,
}
use pantheon_chain.Prelude.Words.{u32_mod}
use pantheon_chain.Primitives.Transaction.{
  Hash, OutPoint, TxInput, Transaction, is_coinbase, outpoint_beq_iff,
}
use pantheon_chain.Primitives.Merkle.{get_tx_id}
use pantheon_chain.Primitives.Block.{Block}
use pantheon_chain.Chainstate.Utxo.{UtxoSet, get_coin}
use pantheon_chain.Chainstate.Spending.{
  BlockUndo, collect_inputs, validate_transaction, connect_transaction, connect_rest, spend_inputs,
}
use pantheon_chain.Chainstate.Chain.{
  Chain, connect_transactions, connect_coinbase, connect_from, connect_block,
}
use pantheon_chain.Chainstate.Chain.Undo.{
  created, spent, get_coin-add_outputs, get_coin-spend_inputs,
}
use pantheon_chain.Validation.{
  validate_coinbase, validate_block_structure, validate_pow, validate_one, validate_rest,
  validate_block, after_coinbase,
}

module _ (sha256d : List ℕ → Hash) where
  -- No output of the transaction stands at the outpoint.
  abbrev pub LeavesOut : OutPoint → Transaction → Type 0
  LeavesOut o tx = created o (get_tx_id sha256d tx) 0 tx.outputs ≡ false

  get_coin_spent :
      (height : ℕ) (tx : Transaction) (i : TxInput) (is : List TxInput) (u : UtxoSet)
      → tx.inputs ≡ i ∷ is
      → LeavesOut i.prevout tx
      → get_coin i.prevout (connect_transaction sha256d height tx u) ≡ none
  unfolding connect_transaction spent
  get_coin_spent height tx i is u first apart = ground (
    arith,
    outpoint_beq_iff i.prevout i.prevout,
    get_coin-add_outputs i.prevout (get_tx_id sha256d tx) height false 0 tx.outputs
        (spend_inputs tx.inputs u) apart,
    get_coin-spend_inputs i.prevout tx.inputs u,
  )

  get_coin_missing :
      (height : ℕ) (tx : Transaction) (o : OutPoint) (u : UtxoSet)
      → LeavesOut o tx
      → get_coin o u ≡ none
      → get_coin o (connect_transaction sha256d height tx u) ≡ none
  unfolding connect_transaction
  get_coin_missing height tx o u apart missing = ground (
    arith,
    get_coin-add_outputs o (get_tx_id sha256d tx) height false 0 tx.outputs
        (spend_inputs tx.inputs u) apart,
    get_coin-spend_inputs o tx.inputs u,
    missing,
  )

  validate_missing :
      (height : ℕ) (tx : Transaction) (i : TxInput) (is : List TxInput) (u : UtxoSet)
      → is_coinbase tx ≡ false
      → tx.inputs ≡ i ∷ is
      → get_coin i.prevout u ≡ none
      → validate_transaction u height tx ≡ none
  unfolding validate_transaction collect_inputs
  validate_missing height tx i is u regular first missing =
      rw (regular, first, collect_inputs, missing) refl

  -- The loop fails where its rest fails after the first transaction.
  connect_rest_fails :
      (height : ℕ) (t : Transaction) (txs : List Transaction) (u : UtxoSet) (undo : BlockUndo)
      → ((later : BlockUndo)
          → (connect_rest sha256d height txs (connect_transaction sha256d height t u) later).0
            ≡ false)
      → (connect_rest sha256d height (t ∷ txs) u undo).0 ≡ false
  unfolding connect_rest
  connect_rest_fails height t txs u undo h = elim (Option-cases (validate_transaction u height t)) [
    | inl e ↦ rw (e, connect_rest) refl
    | inr (coins, e) ↦ rw (e, connect_rest) (h (undo ++ coins ∷ []))
  ]

  -- It fails at a transaction whose coin is missing, whatever stands before that makes no such coin.
  connect_rest_missing :
      (height : ℕ) (between after : List Transaction) (tx : Transaction) (i : TxInput)
      (is : List TxInput) (u : UtxoSet) (undo : BlockUndo)
      → is_coinbase tx ≡ false
      → tx.inputs ≡ i ∷ is
      → All (LeavesOut i.prevout) between
      → get_coin i.prevout u ≡ none
      → (connect_rest sha256d height (between ++ tx ∷ after) u undo).0 ≡ false
  unfolding connect_rest
  connect_rest_missing height [] after tx i is u undo regular first apart missing =
      rw (connect_rest, validate_missing height tx i is u regular first missing) refl
  connect_rest_missing height (t ∷ between) after tx i is u undo regular first apart missing =
      connect_rest_fails height t (between ++ tx ∷ after) u undo λ later.
        connect_rest_missing height between after tx i is (connect_transaction sha256d height t u)
          later regular first apart.1 (get_coin_missing height t i.prevout u apart.0 missing)

  connect_rest_twice :
      (height : ℕ) (before between after : List Transaction) (tx : Transaction) (i : TxInput)
      (is : List TxInput) (u : UtxoSet) (undo : BlockUndo)
      → is_coinbase tx ≡ false
      → tx.inputs ≡ i ∷ is
      → All (LeavesOut i.prevout) (tx ∷ between)
      → (connect_rest sha256d height (before ++ tx ∷ between ++ tx ∷ after) u undo).0 ≡ false
  connect_rest_twice height [] between after tx i is u undo regular first apart =
      connect_rest_fails height tx (between ++ tx ∷ after) u undo λ later.
        connect_rest_missing height between after tx i is (connect_transaction sha256d height tx u)
          later regular first apart.1 (get_coin_spent height tx i is u first apart.0)
  connect_rest_twice height (t ∷ before) between after tx i is u undo regular first apart =
      connect_rest_fails height t (before ++ tx ∷ between ++ tx ∷ after) u undo λ later.
        connect_rest_twice height before between after tx i is
          (connect_transaction sha256d height t u) later regular first apart

  -- `ConnectBlock` fails where the loop over the transactions after the coinbase fails on every coins.
  connect_block_fails :
      (b : Block) (coinbase : Transaction) (rest : List Transaction) (c : Chain) (undo : BlockUndo)
      → b.transactions ≡ coinbase ∷ rest
      → ((height : ℕ) (u : UtxoSet) → (connect_rest sha256d height rest u undo).0 ≡ false)
      → (connect_block sha256d b c undo).0 ≡ false
  unfolding connect_block connect_from connect_transactions
  connect_block_fails b coinbase rest c undo txs h =
      let height = (c.height + 1) % u32_mod in
      rw (connect_block, txs)
        (ground (arith, h height (connect_coinbase sha256d height coinbase c.utxo_set)))

module _ (sha256 : List ℕ → Hash) (schnorr_key : List ℕ → Bool)
    (schnorr_verify : List ℕ → Hash → List ℕ → Bool) where
  validate_rest-member :
      (u : UtxoSet) (height : ℕ) (t : Transaction) (txs : List Transaction)
      → validate_rest sha256 schnorr_key schnorr_verify u height (t ∷ txs) ≡ none
      → (validate_one sha256 schnorr_key schnorr_verify u height t ≡ none)
        × (validate_rest sha256 schnorr_key schnorr_verify u height txs ≡ none)
  unfolding validate_rest
  validate_rest-member u height t txs h = ground (arith, h)

  validate_rest_more :
      (u : UtxoSet) (height : ℕ) (t : Transaction) (between after : List Transaction)
      → validate_one sha256 schnorr_key schnorr_verify u height t ≡ none
      → validate_rest sha256 schnorr_key schnorr_verify u height (between ++ after) ≡ none
      → validate_rest sha256 schnorr_key schnorr_verify u height (between ++ t ∷ after) ≡ none
  unfolding validate_rest
  validate_rest_more u height t [] after one h = rw (validate_rest, one) h
  validate_rest_more u height t (x ∷ between) after one h =
      let (first, later) = validate_rest-member u height x (between ++ after) h in
      rw (validate_rest, first) (validate_rest_more u height t between after one later)

  validate_rest_twice :
      (u : UtxoSet) (height : ℕ) (t : Transaction) (before between after : List Transaction)
      → validate_rest sha256 schnorr_key schnorr_verify u height (before ++ t ∷ between ++ after)
        ≡ none
      → validate_rest sha256 schnorr_key schnorr_verify u height
          (before ++ t ∷ between ++ t ∷ after)
        ≡ none
  unfolding validate_rest
  validate_rest_twice u height t [] between after h =
      let (first, later) = validate_rest-member u height t (between ++ after) h in
      rw (validate_rest, first) (validate_rest_more u height t between after first later)
  validate_rest_twice u height t (x ∷ before) between after h =
      let (first, later) = validate_rest-member u height x (before ++ t ∷ between ++ after) h in
      rw (validate_rest, first) (validate_rest_twice u height t before between after later)

  -- A block in which a regular transaction stands twice after the coinbase, with any transactions before,
  -- between and after, none from the first copy to the second creating its first input: `ConnectBlock`
  -- refuses it. `BlockValidator`, with the coins and supplies of the same chain at its next height, accepts
  -- it if it finds no error in its structure, proof of work and coinbase, and none in its other transactions
  -- with the second copy left out.
  pub validate-connect_block_twice :
      (sha256d : List ℕ → Hash) (b : Block) (c : Chain) (undo : BlockUndo)
      (coinbase tx : Transaction) (before between after : List Transaction) (i : TxInput)
      (is : List TxInput)
      → b.transactions ≡ coinbase ∷ before ++ tx ∷ between ++ tx ∷ after
      → is_coinbase tx ≡ false
      → tx.inputs ≡ i ∷ is
      → All (LeavesOut sha256d i.prevout) (tx ∷ between)
      → validate_block_structure sha256d b ≡ none
      → validate_pow sha256d b ≡ none
      → validate_coinbase b.transactions ((c.height + 1) % u32_mod) c.total_supply ≡ none
      → validate_rest sha256 schnorr_key schnorr_verify c.utxo_set
          ((c.height + 1) % u32_mod)
          (before ++ tx ∷ between ++ after)
        ≡ none
      → ((connect_block sha256d b c undo).0 ≡ false)
        × (validate_block sha256 schnorr_key schnorr_verify sha256d b c.utxo_set
              ((c.height + 1) % u32_mod)
              c.total_supply
            ≡ none)
  unfolding validate_block after_coinbase
  validate-connect_block_twice sha256d b c undo coinbase tx before between after i is txs regular
        first apart structure pow amounts one =
      (
        connect_block_fails sha256d b coinbase (before ++ tx ∷ between ++ tx ∷ after) c undo txs
            (λ height u.
              connect_rest_twice sha256d height before between after tx i is u undo regular first
                apart),
        rw
            (
              validate_block,
              structure,
              pow,
              amounts,
              ap (after_coinbase sha256 schnorr_key schnorr_verify) txs,
            )
            (validate_rest_twice c.utxo_set ((c.height + 1) % u32_mod) tx before between after one),
      )
