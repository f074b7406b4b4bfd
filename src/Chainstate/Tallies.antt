-- ===== src/Chainstate/Tallies.antt =====
-- Tallies of amounts per asset, entry by entry
-- (the maps of layer1-talanton/core/chainstate/chainstate.cpp and chain.cpp).
use pantheon_chain.Prelude.{
  ℕ, suc, ◌<◌, ◌≡◌, refl, none, some, List, [], ◌∷◌, ◌==◌, if◌then◌else◌, arith,
}
use pantheon_chain.Prelude.Words.{u64_mod, add64}
use pantheon_chain.Prelude.Maps.{find, nat_key}
use pantheon_chain.Prelude.Ascending.{Ascending, find-Ascending, insert-Ascending}
use pantheon_chain.Primitives.Asset.{AssetId, AssetAmount}
use pantheon_chain.Chainstate.Amounts.{
  Amounts, amount_of, add_amount, accumulate, amount_of-add_amount,
}
use pantheon_chain.Chainstate.Supply.{add_supplies}

pub accumulate-Ascending :
    (vs : List AssetAmount) (m : Amounts) → Ascending 0 m → Ascending 0 (accumulate vs m)
unfolding accumulate add_amount
accumulate-Ascending [] m h = h
accumulate-Ascending (v ∷ vs) m h =
    accumulate-Ascending vs _ (insert-Ascending v.asset 0 _ m h (omega arith))

pub amount_of-none : (asset : AssetId) (m : Amounts) → find asset m ≡ none → amount_of asset m ≡ 0
unfolding amount_of
amount_of-none asset m e = rw (e, amount_of)

pub amount_of-some :
    (asset amount : ℕ) (m : Amounts) → find asset m ≡ some amount → amount_of asset m ≡ amount
unfolding amount_of
amount_of-some asset amount m e = rw (e, amount_of)

pub amount_of-cons :
    (asset k v : ℕ) (m : Amounts)
    → amount_of asset ((k, v) ∷ m) ≡ (if asset == k then v else amount_of asset m)
unfolding amount_of find
amount_of-cons asset k v m = ground arith

-- Each entry is added once.
pub amount_of-add_supplies :
    (asset low : ℕ) (m supply : Amounts)
    → Ascending low m
    → amount_of asset supply < u64_mod
    → amount_of asset (add_supplies m supply) ≡ add64 (amount_of asset supply) (amount_of asset m)
unfolding add_supplies find
amount_of-add_supplies asset low [] supply h p = omega (arith, amount_of-none asset [] refl)
amount_of-add_supplies asset low ((k, v) ∷ m) supply h p =
    let added : Amounts = add_amount (record { asset = k; amount = v }) supply in
    ground (
      arith,
      amount_of-cons asset k v m,
      amount_of-add_amount asset (record { asset = k; amount = v }) supply,
      amount_of-add_supplies asset (suc k) m added h.1,
      find-Ascending k (suc k) m h.1,
      amount_of-none asset m,
    )
