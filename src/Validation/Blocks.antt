-- ===== src/Validation/Blocks.antt =====
-- `BlockValidator` of layer1-talanton/core/validation/validation.cpp beside `Chain::ConnectBlock` of
-- layer1-talanton/core/chainstate/chain.cpp.
use pantheon_chain.Prelude.{ℕ, ◌+◌, ◌%◌, ◌≡◌, ◌↔◌, refl, true, none, List, [], ◌∷◌, arith}
use pantheon_chain.Prelude.Words.{u32_mod}
use pantheon_chain.Prelude.Maps.{insert, nat_key}
use pantheon_chain.Primitives.Asset.{AssetId}
use pantheon_chain.Primitives.Transaction.{Hash, Transaction}
use pantheon_chain.Primitives.Block.{Block}
use pantheon_chain.Primitives.Block.Validity.{is_valid, coinbase_first, merkle_root_matches}
use pantheon_chain.Chainstate.Amounts.{Amounts, amount_of, accumulate, values}
use pantheon_chain.Chainstate.Spending.{BlockUndo}
use pantheon_chain.Chainstate.Chain.{Chain, check_coinbase, connect_from, connect_block}
use pantheon_chain.Chainstate.Chain.Supplies.{amount_of-insert}
use pantheon_chain.Validation.{
  validate_amounts, validate_coinbase, structure_of, validate_block_structure, validate_pow_hash,
  validate_pow,
}

-- `ConnectBlock` reads the supplies from the map that it fills on the way.
validate_amounts_iff :
    (height : ℕ) (m supply filled : Amounts)
    → ((asset : AssetId) → amount_of asset filled ≡ amount_of asset supply)
    → (validate_amounts height supply m ≡ none) ↔ ((check_coinbase height m filled).0 ≡ true)
unfolding validate_amounts check_coinbase
validate_amounts_iff height [] supply filled h = (λ e. refl, λ e. refl)
validate_amounts_iff height ((k, v) ∷ m) supply filled h =
    let later =
      validate_amounts_iff height m supply (insert k (amount_of k filled) filled)
        (λ asset. ground (arith, h asset, amount_of-insert asset k (amount_of k filled) filled)) in
    ground (arith, h k, later)

module _ (sha256d : List ℕ → Hash) where
  connect_from-validated :
      (txs : List Transaction) (b : Block) (c d : Chain) (undo undo' : BlockUndo)
      → connect_from sha256d txs b c undo ≡ (true, d, undo')
      → coinbase_first txs ≡ true
      → merkle_root_matches sha256d b ≡ true
      → (structure_of sha256d b txs ≡ none)
        × (validate_coinbase txs ((c.height + 1) % u32_mod) c.total_supply ≡ none)
  unfolding connect_from structure_of coinbase_first validate_coinbase
  connect_from-validated [] b c d undo undo' h first root = absurd (ground arith)
  connect_from-validated (coinbase ∷ rest) b c d undo undo' h first root =
      let height = (c.height + 1) % u32_mod in
      let amounts = accumulate (values coinbase.outputs) [] in
      ground
        (arith, validate_amounts_iff height amounts c.total_supply c.total_supply (λ asset. refl))

  -- A block that `ConnectBlock` accepts passes the tests of `BlockValidator` on the structure, the proof of
  -- work and the coinbase, at the next height and against the supplies of the chain.
  pub connect_block-validated :
      (b : Block) (c d : Chain) (undo undo' : BlockUndo)
      → connect_block sha256d b c undo ≡ (true, d, undo')
      → (validate_block_structure sha256d b ≡ none)
        × (validate_pow sha256d b ≡ none)
        × (validate_coinbase b.transactions ((c.height + 1) % u32_mod) c.total_supply ≡ none)
  unfolding connect_block is_valid validate_pow validate_pow_hash validate_block_structure
  connect_block-validated b c d undo undo' h =
      ground (arith, connect_from-validated b.transactions b c d undo undo')
