-- ===== src/Primitives/Asset.antt =====
-- `AssetID`, `AssetSupply` and `AssetAmount` (layer1-talanton/core/primitives/asset.h and asset.cpp).
-- `AssetID` is an enum over `uint8_t` and `Deserialize` casts any byte to it, so an asset is its number.
use pantheon_chain.Prelude.{
  ℕ, ◌*◌, ◌<◌, ◌≤◌, ◌≡◌, Bool, List, [], ◌∷◌, ◌++◌, leb, ◌==◌, if◌then◌else◌, arith,
}
use pantheon_chain.Prelude.Words.{u64_mod, byte_at}
use pantheon_chain.Primitives.Bytes.{write_u64, read_u64, read-write_u64}

abbrev pub AssetId : Type 0
AssetId = ℕ

abbrev pub talanton : AssetId
talanton = 0

abbrev pub drachma : AssetId
drachma = 1

abbrev pub obolos : AssetId
obolos = 2

abbrev pub base_unit : ℕ
base_unit = 100_000_000

abbrev pub halving_interval : ℕ
halving_interval = 210_000

-- The default case of the switch is 0.
unfoldable pub get_max_supply : AssetId → ℕ
get_max_supply asset =
    if asset == talanton
    then 21_000_000 * base_unit
    else if asset == drachma
    then 41_000_000 * base_unit
    else if asset == obolos
    then 61_000_000 * base_unit
    else 0

unfoldable pub get_achievable_supply : AssetId → ℕ
get_achievable_supply asset =
    if asset == talanton
    then 21_000_000 * base_unit
    else if asset == drachma
    then 40_740_000 * base_unit
    else if asset == obolos
    then 60_900_000 * base_unit
    else 0

unfoldable pub is_valid_amount : AssetId → ℕ → Bool
is_valid_amount asset amount = leb amount (get_max_supply asset)

pub record AssetAmount : Type 0 where
  pub asset : AssetId
  pub amount : ℕ

unfoldable pub is_valid : AssetAmount → Bool
unfolding is_valid_amount
is_valid v = is_valid_amount v.asset v.amount

-- One byte for the asset, eight for the amount.
unfoldable pub serialize : AssetAmount → List ℕ
serialize v = byte_at v.asset 0 ∷ write_u64 v.amount

-- `input[0]`, and the amount in `input[1..8]`.
unfoldable pub deserialize : List ℕ → AssetAmount
deserialize [] = record { asset = 0; amount = 0 }
deserialize (b ∷ rest) = record { asset = b; amount = read_u64 rest }

pub record IsAssetAmount (v : AssetAmount) : Type 0 where
  pub asset_byte : v.asset < 256
  pub amount_word : v.amount < u64_mod

pub deserialize-serialize :
    (v : AssetAmount) (rest : List ℕ) → IsAssetAmount v → deserialize (serialize v ++ rest) ≡ v
unfolding deserialize serialize
deserialize-serialize v rest h = ground (arith, read-write_u64 v.amount rest h.amount_word)

pub get_max_supply_le : (asset : AssetId) → get_max_supply asset ≤ 61_000_000 * base_unit
unfolding get_max_supply
get_max_supply_le asset = ground arith

pub get_achievable_supply-le-get_max_supply :
    (asset : AssetId) → get_achievable_supply asset ≤ get_max_supply asset
unfolding get_max_supply get_achievable_supply
get_achievable_supply-le-get_max_supply asset = ground arith

pub get_achievable_supply_lt : (asset : AssetId) → get_achievable_supply asset < u64_mod
unfolding get_achievable_supply
get_achievable_supply_lt asset = ground arith
