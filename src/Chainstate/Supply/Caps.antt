-- ===== src/Chainstate/Supply/Caps.antt =====
-- The supplies of `ChainState` stay within the issuance schedule and below the caps
-- (layer1-talanton/core/chainstate/chainstate.cpp).
use pantheon_chain.Prelude.{
  ℕ, suc, ◌+◌, ◌<◌, ◌≤◌, ◌≡◌, refl, ap, ◌⊎◌, inl, inr, Bool-cases, some, List, [], ◌∷◌,
  Option-cases, length, arith,
}
use pantheon_chain.Prelude.Words.{u64_mod, add64}
use pantheon_chain.Prelude.Maps.{find, nat_key}
use pantheon_chain.Primitives.Asset.{
  AssetId, get_max_supply, get_achievable_supply, get_achievable_supply_lt,
  get_achievable_supply-le-get_max_supply,
}
use pantheon_chain.Primitives.Transaction.{Hash, Transaction}
use pantheon_chain.Primitives.Block.{Block}
use pantheon_chain.Consensus.Issuance.{get_block_reward, is_valid_block_reward}
use pantheon_chain.Consensus.Issuance.Caps.{
  issued, is_valid_block_reward_iff, calculate_supply_at_height-eq-issued,
  calculate_supply_at_height-capped,
}
use pantheon_chain.Chainstate.Amounts.{Amounts, amount_of, values}
use pantheon_chain.Chainstate.Supply.{
  ChainState, Verdict, accepts, refuses, throws, get_coinbase_outputs, check_entry, check_entries,
  validate_coinbase, validate_first, validate_block, add_coinbase, apply_block, initial,
}
use pantheon_chain.Chainstate.Tallies.{
  accumulate-Ascending, amount_of-none, amount_of-some, amount_of-add_supplies,
}

check_entries-find :
    (height asset amount : ℕ) (supply m : Amounts)
    → check_entries height supply m ≡ accepts
    → find asset m ≡ some amount
    → check_entry height supply asset amount ≡ accepts
unfolding check_entries find
check_entries-find height asset amount supply [] h e = cc
check_entries-find height asset amount supply ((k, v) ∷ m) h e =
    ground (arith, check_entries-find height asset amount supply m)

-- An accepted entry pays at most the block reward.
check_entry-accepts :
    (height asset amount : ℕ) (supply : Amounts)
    → check_entry height supply asset amount ≡ accepts
    → amount ≤ get_block_reward height asset
unfolding check_entry
check_entry-accepts height asset amount supply h =
    elim (Bool-cases (is_valid_block_reward height asset amount)) [
      | inl good ↦ (is_valid_block_reward_iff height asset amount).0 good
      | inr bad ↦ ground (arith, bad)
    ]

-- So does, for each asset, all that an accepted coinbase pays.
check_entries-accepts :
    (height asset : ℕ) (supply m : Amounts)
    → check_entries height supply m ≡ accepts
    → amount_of asset m ≤ get_block_reward height asset
check_entries-accepts height asset supply m h = elim (Option-cases (find asset m)) [
  | inl e ↦ omega (arith, amount_of-none asset m e)
  | inr (amount, e) ↦ omega (
    arith,
    amount_of-some asset amount m e,
    check_entry-accepts height asset amount supply
        (check_entries-find height asset amount supply m h e),
  )
]

issued-suc :
    (asset height : ℕ)
    → issued asset (suc height) ≡ issued asset height + get_block_reward height asset
unfolding issued
issued-suc asset height = refl

issued_le : (asset height : ℕ) → issued asset height ≤ get_achievable_supply asset
issued_le asset height = omega (
  arith,
  calculate_supply_at_height-eq-issued asset height,
  (calculate_supply_at_height-capped asset height).0,
)

-- The supply of each asset is at most the sum of the block rewards up to the height.
abbrev pub IsScheduled : ChainState → Type 0
IsScheduled s = (asset : AssetId) → amount_of asset s.total_supply ≤ issued asset (suc s.height)

Verdict-cases : (v : Verdict) → (v ≡ accepts) ⊎ ((v ≡ refuses) ⊎ (v ≡ throws))
Verdict-cases accepts = inl refl
Verdict-cases refuses = inr (inl refl)
Verdict-cases throws = inr (inr refl)

module _ (sha256d : List ℕ → Hash) where
  validate_coinbase-accepts :
      (s : ChainState) (b : Block) (coinbase : Transaction)
      → validate_coinbase sha256d s b coinbase ≡ accepts
      → check_entries (add64 s.height 1) s.total_supply (get_coinbase_outputs coinbase) ≡ accepts
  unfolding validate_coinbase
  validate_coinbase-accepts s b coinbase h = ground arith

  -- The supply after an accepted list of transactions.
  add_coinbase-within :
      (s : ChainState) (b : Block) (txs : List Transaction) (asset : AssetId)
      → validate_first sha256d s b txs ≡ accepts
      → amount_of asset s.total_supply < u64_mod
      → amount_of asset (add_coinbase sha256d txs s.total_supply)
        ≤ amount_of asset s.total_supply + get_block_reward (add64 s.height 1) asset
  unfolding validate_first add_coinbase get_coinbase_outputs
  add_coinbase-within s b [] asset h p = cc
  add_coinbase-within s b (coinbase ∷ rest) asset h p =
      let paid = get_coinbase_outputs coinbase in
      omega (
        arith,
        amount_of-add_supplies asset 0 paid s.total_supply
            (accumulate-Ascending (values coinbase.outputs) [] tt) p,
        check_entries-accepts (add64 s.height 1) asset s.total_supply paid
            (validate_coinbase-accepts s b coinbase h),
      )

  validate_block-first :
      (s : ChainState) (b : Block)
      → validate_block sha256d s b ≡ accepts
      → validate_first sha256d s b b.transactions ≡ accepts
  unfolding validate_block
  validate_block-first s b h = ground arith

  -- A block, accepted or not, keeps each supply within the block rewards up to the height.
  pub apply_block-IsScheduled :
      (b : Block) (s : ChainState)
      → s.height + 1 < u64_mod
      → IsScheduled s
      → IsScheduled (apply_block sha256d b s).1
  unfolding apply_block
  apply_block-IsScheduled b s room h asset = elim (Verdict-cases (validate_block sha256d s b)) [
    | inl e ↦
        let next : add64 s.height 1 ≡ suc s.height = omega arith in
        rw (e, apply_block)
          (rw next (
            omega (
              arith,
              issued-suc asset (suc s.height),
              h asset,
              issued_le asset (suc s.height),
              get_achievable_supply_lt asset,
              ap (λ t. get_block_reward t asset) next,
              add_coinbase-within s b b.transactions asset (validate_block-first s b e) (
                  omega (
                    arith,
                    h asset,
                    issued_le asset (suc s.height),
                    get_achievable_supply_lt asset,
                  )),
            )))
    | inr (inl e) ↦ rw (e, apply_block) (h asset)
    | inr (inr e) ↦ rw (e, apply_block) (h asset)
  ]

  height-apply_block :
      (b : Block) (s : ChainState)
      → s.height + 1 < u64_mod
      → (apply_block sha256d b s).1.height ≤ s.height + 1
  unfolding apply_block
  height-apply_block b s room = ground arith

  -- The blocks of a history, one after the other.
  pub apply_blocks : List Block → ChainState → ChainState
  apply_blocks [] s = s
  apply_blocks (b ∷ bs) s = apply_blocks bs (apply_block sha256d b s).1

  apply_blocks-IsScheduled :
      (bs : List Block) (s : ChainState)
      → s.height + length bs < u64_mod
      → IsScheduled s
      → IsScheduled (apply_blocks bs s)
  unfolding apply_blocks
  apply_blocks-IsScheduled [] s room h = h
  apply_blocks-IsScheduled (b ∷ bs) s room h =
      apply_blocks-IsScheduled bs (apply_block sha256d b s).1
        (omega (arith, height-apply_block b s (omega arith)))
        (apply_block-IsScheduled b s (omega arith) h)

  initial-IsScheduled : IsScheduled initial
  unfolding amount_of find
  initial-IsScheduled asset = ground arith

  -- From the initial state, no history of fewer than 2^64 blocks, valid or not, brings the supply of an
  -- asset above its achievable supply or its hard cap.
  pub apply_blocks-capped :
      (bs : List Block) (asset : AssetId)
      → length bs < u64_mod
      → (amount_of asset (apply_blocks bs initial).total_supply ≤ get_achievable_supply asset)
        × (amount_of asset (apply_blocks bs initial).total_supply ≤ get_max_supply asset)
  apply_blocks-capped bs asset room =
      let final = apply_blocks bs initial in
      let least : amount_of asset final.total_supply ≤ get_achievable_supply asset = omega (
        arith,
        apply_blocks-IsScheduled bs initial (omega arith) initial-IsScheduled asset,
        issued_le asset (suc final.height),
      ) in
      (least, omega (arith, least, get_achievable_supply-le-get_max_supply asset))
