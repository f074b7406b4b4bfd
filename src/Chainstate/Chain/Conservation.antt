-- ===== src/Chainstate/Chain/Conservation.antt =====
-- What `Chain::ValidateTransaction` of layer1-talanton/core/chainstate/chain.cpp accepts, asset by asset.
use pantheon_chain.Prelude.{
  ℕ, suc, ◌%◌, ◌≤◌, ◌≡◌, ◌↔◌, refl, sym, subst, inl, inr, true, false, not, some, List, [], ◌∷◌,
  ltb, Option-cases, length, arith,
}
use pantheon_chain.Prelude.Words.{u64_mod}
use pantheon_chain.Prelude.Maps.{find, nat_key}
use pantheon_chain.Prelude.Ascending.{Ascending, find-Ascending}
use pantheon_chain.Primitives.Asset.{AssetId, AssetAmount}
use pantheon_chain.Primitives.Transaction.{TxInput, Transaction, is_coinbase}
use pantheon_chain.Chainstate.Utxo.{UtxoSet, Coin, is_spendable, get_coin}
use pantheon_chain.Chainstate.Amounts.{
  Amounts, amount_of, add_amount, accumulate, values, total_of, all_entries, AllValid,
  amount_of-accumulate, amount_of-accumulate_exact, all_entries-find,
}
use pantheon_chain.Chainstate.Tallies.{
  accumulate-Ascending, amount_of-none, amount_of-some, amount_of-cons,
}
use pantheon_chain.Chainstate.Spending.{
  collect_inputs, covers, check_collected, validate_transaction,
}

abbrev pub coin_values : List Coin → List AssetAmount
coin_values [] = []
coin_values (c ∷ cs) = c.output.value ∷ coin_values cs

-- The coins are those that the inputs name, in order, and each may be spent.
abbrev pub Names : UtxoSet → ℕ → List TxInput → List Coin → Type 0
Names u height [] [] = Unit {0}
Names u height [] (c ∷ cs) = ⊥
Names u height (i ∷ is) [] = ⊥
Names u height (i ∷ is) (c ∷ cs) =
    (get_coin i.prevout u ≡ some c) × (is_spendable c height ≡ true) × Names u height is cs

pub collect_inputs-Names :
    (u : UtxoSet) (height : ℕ) (is : List TxInput) (start amounts : Amounts) (coins : List Coin)
    → collect_inputs u height is start ≡ some (amounts, coins)
    → Names u height is coins × (amounts ≡ accumulate (coin_values coins) start)
unfolding collect_inputs accumulate
collect_inputs-Names u height [] start amounts [] h = (tt, cc)
collect_inputs-Names u height [] start amounts (c ∷ cs) h = cc
collect_inputs-Names u height (i ∷ is) start amounts [] h = ground arith
collect_inputs-Names u height (i ∷ is) start amounts (c ∷ cs) h =
    ground (arith, collect_inputs-Names u height is (add_amount c.output.value start) amounts cs)

-- Entry by entry, which is asset by asset.
covers-le :
    (asset : AssetId) (inputs outputs : Amounts)
    → covers inputs outputs ≡ true
    → amount_of asset outputs ≤ amount_of asset inputs
unfolding covers
covers-le asset inputs outputs h = elim (Option-cases (find asset outputs)) [
  | inl e ↦ omega (arith, amount_of-none asset outputs e)
  | inr (amount, e) ↦ ground (
    arith,
    amount_of-some asset amount outputs e,
    all_entries-find (λ k v. not (ltb (amount_of k inputs) v)) asset amount outputs h e,
  )
]

all_entries_of_le :
    (low : ℕ) (inputs outputs : Amounts)
    → Ascending low outputs
    → ((asset : AssetId) → amount_of asset outputs ≤ amount_of asset inputs)
    → all_entries (λ k v. not (ltb (amount_of k inputs) v)) outputs ≡ true
unfolding all_entries
all_entries_of_le low inputs [] up h = refl
all_entries_of_le low inputs ((k, v) ∷ m) up h = ground (
  arith,
  h k,
  amount_of-cons k k v m,
  all_entries_of_le (suc k) inputs m up.1 (λ asset. ground (
    arith,
    h asset,
    amount_of-cons asset k v m,
    find-Ascending k (suc k) m up.1,
    amount_of-none asset m,
  )),
)

-- The comparison of two tallies is that of the sums modulo 2^64.
pub covers_iff :
    (inputs outputs : List AssetAmount)
    → (covers (accumulate inputs []) (accumulate outputs []) ≡ true)
      ↔ ((asset : AssetId) → total_of asset outputs % u64_mod ≤ total_of asset inputs % u64_mod)
covers_iff inputs outputs = (
  λ h asset. omega (
    arith,
    covers-le asset (accumulate inputs []) (accumulate outputs []) h,
    amount_of-accumulate asset inputs,
    amount_of-accumulate asset outputs,
  ),
  λ h.
      unfold covers in
      all_entries_of_le 0 (accumulate inputs []) (accumulate outputs [])
        (accumulate-Ascending outputs [] tt)
        (λ asset.
          omega (
            arith,
            h asset,
            amount_of-accumulate asset inputs,
            amount_of-accumulate asset outputs,
          )),
)

pub validate_transaction-collects :
    (u : UtxoSet) (height : ℕ) (tx : Transaction) (coins : List Coin)
    → is_coinbase tx ≡ false
    → validate_transaction u height tx ≡ some coins
    → (amounts : Amounts) × (collect_inputs u height tx.inputs [] ≡ some (amounts, coins))
      × (covers amounts (accumulate (values tx.outputs) []) ≡ true)
unfolding validate_transaction check_collected
validate_transaction-collects u height tx coins regular h =
    elim (Option-cases (collect_inputs u height tx.inputs [])) [
      | inl e ↦ absurd (ground arith)
      | inr ((amounts, cs), e) ↦ (amounts, ground arith, ground arith)
    ]

-- A regular transaction that `ValidateTransaction` accepts spends coins of the set that may be spent,
-- and for each asset its outputs sum to at most its inputs, both sums taken modulo 2^64.
pub validate_transaction_sound :
    (u : UtxoSet) (height : ℕ) (tx : Transaction) (coins : List Coin)
    → is_coinbase tx ≡ false
    → validate_transaction u height tx ≡ some coins
    → Names u height tx.inputs coins
      × ((asset : AssetId)
          → total_of asset (values tx.outputs) % u64_mod
            ≤ total_of asset (coin_values coins) % u64_mod)
validate_transaction_sound u height tx coins regular h =
    let (amounts, found, enough) = validate_transaction-collects u height tx coins regular h in
    let (named, sums) = collect_inputs-Names u height tx.inputs [] amounts coins found in
    (
      named,
      (covers_iff (coin_values coins) (values tx.outputs)).0
          (subst (λ a. covers a (accumulate (values tx.outputs) []) ≡ true) sums enough),
    )

mod_le : (a : ℕ) → a % u64_mod ≤ a
mod_le a = omega arith

-- An accepted transaction that is no coinbase, with at most 3,024 outputs, all of valid amounts, creates
-- nothing: for each asset its outputs sum to at most its inputs.
pub validate_transaction-conserves :
    (u : UtxoSet) (height : ℕ) (tx : Transaction) (coins : List Coin) (asset : AssetId)
    → is_coinbase tx ≡ false
    → validate_transaction u height tx ≡ some coins
    → AllValid (values tx.outputs)
    → length (values tx.outputs) ≤ 3024
    → total_of asset (values tx.outputs) ≤ total_of asset (coin_values coins)
validate_transaction-conserves u height tx coins asset regular h valid few = omega (
  arith,
  (validate_transaction_sound u height tx coins regular h).1 asset,
  amount_of-accumulate asset (values tx.outputs),
  amount_of-accumulate_exact asset (values tx.outputs) valid few,
  mod_le (total_of asset (coin_values coins)),
)

-- A regular transaction whose inputs name spendable coins is accepted where, for each asset, its outputs
-- sum to at most its inputs modulo 2^64, so also where the true sum of the outputs is larger and wraps.
pub validate_transaction_complete :
    (u : UtxoSet) (height : ℕ) (tx : Transaction) (amounts : Amounts) (coins : List Coin)
    → is_coinbase tx ≡ false
    → collect_inputs u height tx.inputs [] ≡ some (amounts, coins)
    → ((asset : AssetId)
        → total_of asset (values tx.outputs) % u64_mod
          ≤ total_of asset (coin_values coins) % u64_mod)
    → validate_transaction u height tx ≡ some coins
unfolding validate_transaction check_collected
validate_transaction_complete u height tx amounts coins regular found h =
    let (_, sums) = collect_inputs-Names u height tx.inputs [] amounts coins found in
    let enough : covers amounts (accumulate (values tx.outputs) []) ≡ true =
      subst (λ a. covers a (accumulate (values tx.outputs) []) ≡ true) (sym sums)
        ((covers_iff (coin_values coins) (values tx.outputs)).1 h) in
    ground arith
