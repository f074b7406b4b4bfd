-- ===== src/Consensus/Issuance.antt =====
-- The issuance schedule (layer1-talanton/core/consensus/issuance.cpp).
pub mod Supply
pub mod Caps
use pantheon_chain.Prelude.{
  ℕ, zero, suc, ◌+◌, ◌-◌, ◌*◌, ◌/◌, ◌^◌, ◌<◌, ◌≤◌, ◌≡◌, Bool, true, false, not, Option, none, some,
  ltb, leb, ◌==◌, if◌then◌else◌, arith,
}
use pantheon_chain.Prelude.Words.{u64_mod, add64, sub64, mul64}
use pantheon_chain.Primitives.Asset.{
  AssetId, talanton, drachma, obolos, base_unit, halving_interval, get_max_supply,
}

unfoldable pub get_initial_reward : AssetId → ℕ
get_initial_reward asset =
    if asset == talanton
    then 50 * base_unit
    else if asset == drachma
    then 97 * base_unit
    else if asset == obolos
    then 145 * base_unit
    else 0

-- The launch height of an asset; `none` is the default case, which returns 0.
unfoldable pub start_height : AssetId → Option ℕ
start_height asset =
    if asset == talanton
    then some 0
    else if asset == drachma
    then some halving_interval
    else if asset == obolos
    then some (2 * halving_interval)
    else none

-- `GetInitialReward(asset) >> halvings`
unfoldable pub reward_after : AssetId → ℕ → ℕ
reward_after asset halvings = get_initial_reward asset / 2 ^ halvings

unfoldable pub reward_from : AssetId → ℕ → ℕ → ℕ
reward_from asset height start =
    if ltb height start
    then 0
    else if leb 64 ((height - start) / halving_interval)
    then 0
    else reward_after asset ((height - start) / halving_interval)

unfoldable pub get_block_reward : ℕ → AssetId → ℕ
get_block_reward height asset = elim (start_height asset) [
  | none ↦ 0
  | some start ↦ reward_from asset height start
]

unfoldable pub blocks_in_epoch : ℕ → ℕ
blocks_in_epoch remaining = if ltb halving_interval remaining then halving_interval else remaining

-- The loop of `CalculateSupplyAtHeight`, on the epochs left of 64. `none` is the early return of
-- the maximum on an overflow.
unfoldable pub supply_loop : ℕ → AssetId → ℕ → ℕ → ℕ → Option ℕ
supply_loop zero asset remaining halvings total = some total
supply_loop (suc epochs) asset remaining halvings total =
    let blocks = blocks_in_epoch remaining in
    let reward = reward_after asset halvings in
    let epoch_supply = mul64 blocks reward in
    let rest =
      supply_loop epochs asset (remaining - blocks) (halvings + 1) (add64 total epoch_supply) in
    if remaining == 0
    then some total
    else if not (epoch_supply / blocks == reward)
    then none
    else if ltb (add64 total epoch_supply) total
    then none
    else rest

unfoldable pub supply_from : AssetId → ℕ → ℕ → ℕ
supply_from asset height start =
    if ltb height start then 0 else elim (supply_loop 64 asset (height - start) 0 0) [
      | none ↦ get_max_supply asset
      | some total ↦ total
    ]

unfoldable pub calculate_supply_at_height : ℕ → AssetId → ℕ
calculate_supply_at_height height asset = elim (start_height asset) [
  | none ↦ 0
  | some start ↦ supply_from asset height start
]

unfoldable pub is_valid_block_reward : ℕ → AssetId → ℕ → Bool
is_valid_block_reward height asset amount =
    if ltb (get_block_reward height asset) amount
    then false
    else if ltb (get_max_supply asset) (calculate_supply_at_height (add64 height 1) asset)
    then false
    else true
