-- ===== src/Chainstate/Amounts.antt =====
-- The amounts per asset that `ChainState::GetCoinbaseOutputs`, `Chain::ValidateTransaction` and
-- validation.cpp add up in a `std::map<AssetID, uint64_t>`.
use native.Mathlib.Nat.{zero-add}
use pantheon_chain.Prelude.{
  ℕ, ◌+◌, ◌*◌, ◌%◌, ◌<◌, ◌≤◌, ◌≡◌, ap, ◌∙◌, Bool, true, none, some, List, [], ◌∷◌, ◌&&◌, ◌==◌,
  if◌then◌else◌, length, All, arith,
}
use pantheon_chain.Prelude.Words.{u64_mod, add64}
use pantheon_chain.Prelude.Maps.{Map, find, insert, find-insert, nat_key}
use pantheon_chain.Primitives.Asset.{AssetId, AssetAmount}
use pantheon_chain.Primitives.Asset
use pantheon_chain.Primitives.Transaction.{TxOutput}

abbrev pub Amounts : Type 0
Amounts = Map AssetId ℕ

-- `m[asset]`, which is 0 for a new key.
unfoldable pub amount_of : AssetId → Amounts → ℕ
amount_of asset m = elim (find asset m) [ none ↦ 0 | some v ↦ v ]

-- `m[asset] += amount` on `uint64_t`.
unfoldable pub add_amount : AssetAmount → Amounts → Amounts
add_amount v m = insert v.asset (add64 (amount_of v.asset m) v.amount) m

unfoldable pub accumulate : List AssetAmount → Amounts → Amounts
accumulate [] m = m
accumulate (v ∷ vs) m = accumulate vs (add_amount v m)

abbrev pub values : List TxOutput → List AssetAmount
values [] = []
values (o ∷ os) = o.value ∷ values os

-- A test of every entry, in the order of the map.
unfoldable pub all_entries : (AssetId → ℕ → Bool) → Amounts → Bool
all_entries p [] = true
all_entries p ((asset, amount) ∷ m) = p asset amount && all_entries p m

-- The sum as a natural number.
abbrev pub total_of : AssetId → List AssetAmount → ℕ
total_of asset [] = 0
total_of asset (v ∷ vs) = (if asset == v.asset then v.amount else 0) + total_of asset vs

pub amount_of-add_amount :
    (asset : AssetId) (v : AssetAmount) (m : Amounts)
    → amount_of asset (add_amount v m)
      ≡ (if asset == v.asset then add64 (amount_of asset m) v.amount else amount_of asset m)
unfolding amount_of add_amount
amount_of-add_amount asset v m =
    ground (arith, find-insert asset v.asset (add64 (amount_of v.asset m) v.amount) m)

amount_of-accumulate_from :
    (asset : AssetId) (vs : List AssetAmount) (m : Amounts)
    → amount_of asset m < u64_mod
    → amount_of asset (accumulate vs m) ≡ (amount_of asset m + total_of asset vs) % u64_mod
unfolding accumulate
amount_of-accumulate_from asset [] m h = omega arith
amount_of-accumulate_from asset (v ∷ vs) m h =
    ground
      (arith, amount_of-add_amount asset v m, amount_of-accumulate_from asset vs (add_amount v m))

-- What the map holds for an asset is the sum of its amounts modulo 2^64.
pub amount_of-accumulate :
    (asset : AssetId) (vs : List AssetAmount)
    → amount_of asset (accumulate vs []) ≡ total_of asset vs % u64_mod
unfolding amount_of find
amount_of-accumulate asset vs =
    amount_of-accumulate_from asset vs [] (omega arith)
    ∙ ap (λ (t : ℕ). t % u64_mod) (zero-add (total_of asset vs))

-- Amounts that are valid for their asset.
abbrev pub AllValid : List AssetAmount → Type 0
AllValid = All (λ v. Asset.is_valid v ≡ true)

total_of-le :
    (asset : AssetId) (vs : List AssetAmount)
    → AllValid vs
    → total_of asset vs ≤ length vs * (61_000_000 * Asset.base_unit)
unfolding Asset.is_valid
total_of-le asset [] h = omega arith
total_of-le asset (v ∷ vs) h =
    ground (arith, Asset.get_max_supply_le v.asset, total_of-le asset vs h.1, h.0)

-- Up to 3,024 valid amounts cannot wrap: the map holds their exact sum.
pub amount_of-accumulate_exact :
    (asset : AssetId) (vs : List AssetAmount)
    → AllValid vs
    → length vs ≤ 3024
    → amount_of asset (accumulate vs []) ≡ total_of asset vs
amount_of-accumulate_exact asset vs h n =
    omega (arith, amount_of-accumulate asset vs, total_of-le asset vs h)

-- A test that holds of every entry holds of the amount found for an asset.
pub all_entries-find :
    (p : AssetId → ℕ → Bool) (asset amount : ℕ) (m : Amounts)
    → all_entries p m ≡ true
    → find asset m ≡ some amount
    → p asset amount ≡ true
unfolding all_entries find
all_entries-find p asset amount [] h e = cc
all_entries-find p asset amount ((k, v) ∷ m) h e = ground (arith, all_entries-find p asset amount m)
