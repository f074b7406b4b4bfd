-- ===== src/Chainstate/Chain/Supplies.antt =====
-- The supplies of `Chain` under the tests and updates of a coinbase
-- (`UpdateSupply` of layer1-talanton/core/chainstate/chain.cpp).
use pantheon_chain.Prelude.{
  ℕ, suc, ◌<◌, ◌≡◌, refl, true, false, [], ◌∷◌, ◌==◌, if◌then◌else◌, arith,
}
use pantheon_chain.Primitives.Transaction.{Transaction}
use pantheon_chain.Prelude.Words.{u64_mod, sub64}
use pantheon_chain.Prelude.Maps.{find, insert, find-insert, bytes_key, nat_key}
use pantheon_chain.Prelude.Ascending.{Ascending, find-Ascending}
use pantheon_chain.Primitives.Asset.{AssetId}
use pantheon_chain.Chainstate.Amounts.{Amounts, amount_of, accumulate, values, amount_of-accumulate}
use pantheon_chain.Chainstate.Supply.{add_supplies}
use pantheon_chain.Chainstate.Tallies.{
  accumulate-Ascending, amount_of-none, amount_of-cons, amount_of-add_supplies,
}
use pantheon_chain.Chainstate.Chain.{check_coinbase, subtract_supplies, update_supply}

pub amount_of-insert :
    (asset k v : ℕ) (m : Amounts)
    → amount_of asset (insert k v m) ≡ (if asset == k then v else amount_of asset m)
unfolding amount_of
amount_of-insert asset k v m = ground (arith, find-insert asset k v m)

amount_of-subtract_supplies :
    (asset low : ℕ) (m supply : Amounts)
    → Ascending low m
    → amount_of asset supply < u64_mod
    → amount_of asset (subtract_supplies m supply)
      ≡ sub64 (amount_of asset supply) (amount_of asset m)
unfolding subtract_supplies find
amount_of-subtract_supplies asset low [] supply h p = omega (arith, amount_of-none asset [] refl)
amount_of-subtract_supplies asset low ((k, v) ∷ m) supply h p =
    let taken : Amounts = insert k (sub64 (amount_of k supply) v) supply in
    ground (
      arith,
      amount_of-cons asset k v m,
      amount_of-insert asset k (sub64 (amount_of k supply) v) supply,
      amount_of-subtract_supplies asset (suc k) m taken h.1,
      find-Ascending k (suc k) m h.1,
      amount_of-none asset m,
    )

-- The test of a coinbase may add entries, and leaves every amount as it was.
pub amount_of-check_coinbase :
    (asset height : ℕ) (m supply : Amounts)
    → amount_of asset (check_coinbase height m supply).1 ≡ amount_of asset supply
unfolding check_coinbase
amount_of-check_coinbase asset height [] supply = refl
amount_of-check_coinbase asset height ((k, v) ∷ m) supply =
    let touched : Amounts = insert k (amount_of k supply) supply in
    ground (
      arith,
      amount_of-insert asset k (amount_of k supply) supply,
      amount_of-check_coinbase asset height m touched,
    )

-- Supplies that are words.
abbrev pub SuppliesFit : Amounts → Type 0
SuppliesFit supply = (asset : AssetId) → amount_of asset supply < u64_mod

-- What a connected coinbase adds to a supply, a disconnected one takes back.
pub amount_of-update_supply :
    (asset : AssetId) (coinbase : Transaction) (supply : Amounts)
    → SuppliesFit supply
    → amount_of asset (update_supply coinbase false (update_supply coinbase true supply))
      ≡ amount_of asset supply
unfolding update_supply
amount_of-update_supply asset coinbase supply fit =
    let tally = accumulate (values coinbase.outputs) [] in
    let up = accumulate-Ascending (values coinbase.outputs) [] tt in
    ground (
      arith,
      fit asset,
      amount_of-accumulate asset (values coinbase.outputs),
      amount_of-add_supplies asset 0 tally supply up,
      amount_of-subtract_supplies asset 0 tally (add_supplies tally supply) up,
    )
