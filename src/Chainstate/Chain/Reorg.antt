-- ===== src/Chainstate/Chain/Reorg.antt =====
-- A block that is disconnected after it was connected
-- (`Chain::ConnectBlock` and `Chain::DisconnectBlock` of layer1-talanton/core/chainstate/chain.cpp).
use mathlib.Core.List.{reverse}
use pantheon_chain.Prelude.{
  ℕ, suc, ◌+◌, ◌-◌, ◌%◌, ◌<◌, ◌≡◌, refl, sym, ap, ◌∙◌, subst, true, false, none, List, [], ◌∷◌,
  arith,
}
use pantheon_chain.Primitives.Transaction.{Hash, Transaction}
use pantheon_chain.Primitives.Merkle.{get_tx_id}
use pantheon_chain.Prelude.Words.{u32_mod}
use pantheon_chain.Prelude.Maps.{
  Map, Key, find, insert, erase, find-insert, find-erase, bytes_beq_iff, bytes_key, nat_key,
}
use pantheon_chain.Primitives.Asset.{AssetId}
use pantheon_chain.Primitives.Block.{Block}
use pantheon_chain.Primitives.Block.Validity.{any_coinbase, coinbase_first, get_hash}
use pantheon_chain.Primitives.Block.Validity
use pantheon_chain.Chainstate.Utxo.{UtxoSet}
use pantheon_chain.Chainstate.Amounts.{Amounts, amount_of, accumulate, values}
use pantheon_chain.Chainstate.Chain.Sequence.{connect_rest-Undoes}
use pantheon_chain.Chainstate.Chain.Supplies.{
  SuppliesFit, amount_of-update_supply, amount_of-check_coinbase,
}
use pantheon_chain.Chainstate.Spending.{BlockUndo, connect_rest, disconnect_rest, remove_outputs}
use pantheon_chain.Chainstate.Chain.{
  Chain, check_coinbase, update_supply, connect_coinbase, extend_chain, connect_transactions,
  connect_from, connect_block, disconnect_from, disconnect_block,
}
use pantheon_chain.Chainstate.Chain.Undo.{SameCoins, FreshAll, FreshOutputs, remove-add_outputs}

-- An entry that was new and is gone again.
find-erase-insert {ℓ κ} :
    {K : Type ℓ} {V : Type κ} ⦃o : Key K⦄ (j k : K) (v : V) (m : Map K V)
    → find k m ≡ none
    → find j (erase k (insert k v m)) ≡ find j m
find-erase-insert ⦃o⦄ j k v m new =
    ground (arith, o.beq_iff j k, find-erase j k (insert k v m), find-insert j k v m)

module _ (sha256d : List ℕ → Hash) where
  -- The same for the transactions of a block, the coinbase first.
  abbrev pub FreshBlock : ℕ → List Transaction → UtxoSet → Type 0
  FreshBlock height [] u = Unit {0}
  FreshBlock height (coinbase ∷ rest) u =
      FreshOutputs (get_tx_id sha256d coinbase) coinbase.outputs u
      × FreshAll sha256d height rest (connect_coinbase sha256d height coinbase u)

  -- What a connected block has passed and done.
  abbrev pub Connects : Block → Chain → BlockUndo → Chain → BlockUndo → Type 0
  Connects b c undo c' undo' =
      (coinbase : Transaction) × (rest : List Transaction) × (u : UtxoSet) × (supply : Amounts)
      × (b.transactions ≡ coinbase ∷ rest)
      × (any_coinbase rest ≡ false)
      × ((asset : AssetId) → amount_of asset supply ≡ amount_of asset c.total_supply)
      × (connect_rest sha256d ((c.height + 1) % u32_mod) rest
            (connect_coinbase sha256d ((c.height + 1) % u32_mod) coinbase c.utxo_set) undo
          ≡ (true, u, undo'))
      × (c' ≡ extend_chain sha256d ((c.height + 1) % u32_mod) b coinbase u supply c)

  pub connect_from-Connects :
      (txs : List Transaction) (b : Block) (c c' : Chain) (undo undo' : BlockUndo)
      → b.transactions ≡ txs
      → coinbase_first txs ≡ true
      → connect_from sha256d txs b c undo ≡ (true, c', undo')
      → Connects b c undo c' undo'
  unfolding connect_from connect_transactions coinbase_first
  connect_from-Connects [] b c c' undo undo' e first h = absurd (ground arith)
  connect_from-Connects (coinbase ∷ rest) b c c' undo undo' e first h =
      let height = (c.height + 1) % u32_mod in
      let tested = check_coinbase height (accumulate (values coinbase.outputs) []) c.total_supply in
      let run =
        connect_rest sha256d height rest (connect_coinbase sha256d height coinbase c.utxo_set)
          undo in
      (
        coinbase,
        rest,
        run.1,
        tested.1,
        e,
        ground arith,
        λ asset.
            amount_of-check_coinbase asset height (accumulate (values coinbase.outputs) [])
              c.total_supply,
        ground arith,
        ground arith,
      )

  connect_block-Connects :
      (b : Block) (c c' : Chain) (undo undo' : BlockUndo)
      → connect_block sha256d b c undo ≡ (true, c', undo')
      → Connects b c undo c' undo'
  unfolding connect_block Validity.is_valid
  connect_block-Connects b c c' undo undo' h =
      connect_from-Connects b.transactions b c c' undo undo' refl (ground arith) (ground arith)

  -- The chain `d` is the chain `c` as far as its readers can tell.
  abbrev pub Restores : Chain → Chain → Type 0
  Restores d c =
      SameCoins d.utxo_set c.utxo_set
      × (d.height ≡ c.height)
      × (d.tip_hash ≡ c.tip_hash)
      × ((asset : AssetId) → amount_of asset d.total_supply ≡ amount_of asset c.total_supply)
      × ((hash : Hash) → find hash d.block_index ≡ find hash c.block_index)

  -- The chain that taking the coinbase back leaves, once the other transactions are undone.
  abbrev pub retract_chain : Block → Transaction → UtxoSet → Chain → Chain
  retract_chain b coinbase w c = record {
    utxo_set = remove_outputs (get_tx_id sha256d coinbase) 0 coinbase.outputs w;
    height = c.height - 1;
    tip_hash = b.header.prev_block_hash;
    block_index = erase (get_hash sha256d b.header) c.block_index;
    total_supply = update_supply coinbase false c.total_supply;
  }

  disconnect_block_done :
      (height : ℕ) (b : Block) (c : Chain) (coinbase : Transaction) (rest : List Transaction)
      (u w : UtxoSet) (supply : Amounts) (undo : BlockUndo)
      → b.transactions ≡ coinbase ∷ rest
      → disconnect_rest sha256d (reverse rest) (reverse undo) u ≡ (true, w)
      → disconnect_block sha256d b undo (extend_chain sha256d (suc height) b coinbase u supply c)
        ≡ (
          true,
          retract_chain b coinbase w (extend_chain sha256d (suc height) b coinbase u supply c),
        )
  unfolding disconnect_block disconnect_from extend_chain
  disconnect_block_done height b c coinbase rest u w supply undo e back =
      ground (arith, (bytes_beq_iff (get_hash sha256d b.header) (get_hash sha256d b.header)).1 refl)

  retract-extend_chain :
      (height : ℕ) (b : Block) (c : Chain) (coinbase : Transaction) (u w : UtxoSet)
      (supply : Amounts)
      → height ≡ c.height
      → FreshOutputs (get_tx_id sha256d coinbase) coinbase.outputs c.utxo_set
      → SameCoins w (connect_coinbase sha256d (suc height) coinbase c.utxo_set)
      → b.header.prev_block_hash ≡ c.tip_hash
      → find (get_hash sha256d b.header) c.block_index ≡ none
      → SuppliesFit c.total_supply
      → ((asset : AssetId) → amount_of asset supply ≡ amount_of asset c.total_supply)
      → Restores
          (retract_chain b coinbase w (extend_chain sha256d (suc height) b coinbase u supply c))
          c
  unfolding extend_chain connect_coinbase
  retract-extend_chain height b c coinbase u w supply level fresh same parent new fit kept = (
    remove-add_outputs (get_tx_id sha256d coinbase) (suc height) true coinbase.outputs c.utxo_set w
        fresh same,
    omega (arith, level),
    parent,
    λ asset.
        amount_of-update_supply asset coinbase supply (λ a. omega (arith, kept a, fit a))
        ∙ kept asset,
    λ hash. find-erase-insert hash (get_hash sha256d b.header) _ c.block_index new,
  )

  -- A block that is connected to its parent and then disconnected with its undo data leaves the coins,
  -- the height, the tip, the supplies and the block index as they were before, provided that its
  -- outputs take outpoints without a coin, its hash is new to the index, the height stays below 2^32,
  -- and the supplies are 64-bit words.
  pub disconnect-connect_block :
      (b : Block) (c c' : Chain) (undo : BlockUndo)
      → connect_block sha256d b c [] ≡ (true, c', undo)
      → FreshBlock (c.height + 1) b.transactions c.utxo_set
      → c.height + 1 < u32_mod
      → b.header.prev_block_hash ≡ c.tip_hash
      → find (get_hash sha256d b.header) c.block_index ≡ none
      → SuppliesFit c.total_supply
      → (d : Chain) × (disconnect_block sha256d b undo c' ≡ (true, d)) × Restores d c
  disconnect-connect_block b c c' undo h fresh low parent new fit =
      let (coinbase, rest, u, supply, e, regular, kept, run, ec) =
        connect_block-Connects b c c' [] undo h in
      let low' : (c.height + 1) % u32_mod ≡ suc c.height = omega arith in
      let next : c.height + 1 ≡ suc c.height = omega arith in
      let start = connect_coinbase sha256d (suc c.height) coinbase c.utxo_set in
      let fresh' : FreshBlock (suc c.height) (coinbase ∷ rest) c.utxo_set =
        subst (λ n. FreshBlock n (coinbase ∷ rest) c.utxo_set) next
          (subst (λ txs. FreshBlock (c.height + 1) txs c.utxo_set) e fresh) in
      let (extra, told, l, (w, back, same)) =
        connect_rest-Undoes sha256d (suc c.height) rest start u u [] undo regular fresh'.1
          (subst
            (λ n.
              connect_rest sha256d n rest (connect_coinbase sha256d n coinbase c.utxo_set) []
              ≡ (true, u, undo))
            low' run)
          (λ o. refl) in
      (
        retract_chain b coinbase w (extend_chain sha256d (suc c.height) b coinbase u supply c),
        subst
            (λ x. disconnect_block sha256d b undo x ≡ (
              true,
              retract_chain b coinbase w
                  (extend_chain sha256d (suc c.height) b coinbase u supply c),
            ))
            (sym (ec ∙ ap (λ n. extend_chain sha256d n b coinbase u supply c) low'))
            (disconnect_block_done c.height b c coinbase rest u w supply undo e (
              subst (λ z. disconnect_rest sha256d (reverse rest) (reverse z) u ≡ (true, w))
                (sym told) back)),
        retract-extend_chain c.height b c coinbase u w supply refl fresh'.0 same parent new fit
            kept,
      )
