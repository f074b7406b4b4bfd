-- ===== src/Validation/Agreement.antt =====
-- `TransactionValidator::ValidateAgainstUTXO` of layer1-talanton/core/validation/validation.cpp beside
-- `Chain::ValidateTransaction` of layer1-talanton/core/chainstate/chain.cpp.
use pantheon_chain.Prelude.{
  ℕ, ◌≡◌, ◌↔◌, refl, inl, inr, true, Option, none, some, List, [], ◌∷◌, ◌++◌, append_assoc,
  append-nil, ap, Option-cases, Bool-cases, arith,
}
use pantheon_chain.Prelude.Maps.{insert, nat_key}
use pantheon_chain.Primitives.Asset.{AssetId}
use pantheon_chain.Primitives.Transaction.{TxInput, TxOutput, Transaction, is_coinbase}
use pantheon_chain.Chainstate.Utxo.{UtxoSet, Coin, get_coin}
use pantheon_chain.Chainstate.Amounts.{
  Amounts, amount_of, add_amount, accumulate, values, all_entries,
}
use pantheon_chain.Chainstate.Spending.{
  collect_inputs, covers, check_collected, validate_transaction,
}
use pantheon_chain.Chainstate.Chain.Supplies.{amount_of-insert}
use pantheon_chain.Validation.{
  ErrorType, UtxoValidationResult, no_result, gather, conserve, check_outputs,
  validate_against_utxo,
}

gather-collect_some :
    (u : UtxoSet) (height : ℕ) (is : List TxInput) (r : UtxoValidationResult) (amounts : Amounts)
    (coins : List Coin)
    → collect_inputs u height is r.input_amounts ≡ some (amounts, coins)
    → gather u height is r
      ≡ (none, record r { input_amounts = amounts; input_coins = r.input_coins ++ coins })
unfolding gather collect_inputs
gather-collect_some u height [] r amounts [] h =
    rw (append-nil r.input_coins)
      (ap (λ (a : Amounts). (none, record r { input_amounts = a })) (ground arith))
gather-collect_some u height [] r amounts (c ∷ cs) h = cc
gather-collect_some u height (i ∷ is) r amounts [] h = absurd (ground arith)
gather-collect_some u height (i ∷ is) r amounts (c ∷ cs) h = ground (
  arith,
  append_assoc r.input_coins (c ∷ []) cs,
  gather-collect_some u height is
      (record r {
        input_amounts = add_amount c.output.value r.input_amounts;
        input_coins = r.input_coins ++ c ∷ [];
      })
      amounts cs,
)

gather-collect_none :
    (u : UtxoSet) (height : ℕ) (is : List TxInput) (r : UtxoValidationResult)
    → collect_inputs u height is r.input_amounts ≡ none
    → ¬ ((gather u height is r).0 ≡ none)
unfolding gather collect_inputs
gather-collect_none u height [] r h = cc
gather-collect_none u height (i ∷ is) r h = elim (Option-cases (get_coin i.prevout u)) [
  | inl e ↦ λ none_left. ground arith
  | inr (c, e) ↦ λ none_left. ground (
    arith,
    gather-collect_none u height is (record r {
      input_amounts = add_amount c.output.value r.input_amounts;
      input_coins = r.input_coins ++ c ∷ [];
    }),
  )
]

-- The entries that the loop makes leave every amount as it was.
conserve_iff :
    (m : Amounts) (r : UtxoValidationResult) (amounts : Amounts)
    → ((asset : AssetId) → amount_of asset r.input_amounts ≡ amount_of asset amounts)
    → ((conserve m r).0 ≡ none) ↔ (covers amounts m ≡ true)
unfolding conserve covers all_entries
conserve_iff [] r amounts h = (λ e. refl, λ e. refl)
conserve_iff ((k, v) ∷ m) r amounts h =
    let touched : Amounts = insert k (amount_of k r.input_amounts) r.input_amounts in
    let later =
      conserve_iff m (record r { input_amounts = touched }) amounts
        (λ asset. ground (
          arith,
          h asset,
          amount_of-insert asset k (amount_of k r.input_amounts) r.input_amounts,
        )) in
    ground (arith, h k, later)

conserve-coins :
    (m : Amounts) (r : UtxoValidationResult) → (conserve m r).1.input_coins ≡ r.input_coins
unfolding conserve
conserve-coins [] r = refl
conserve-coins ((k, v) ∷ m) r = ground (
  arith,
  conserve-coins m
      (record r { input_amounts = insert k (amount_of k r.input_amounts) r.input_amounts }),
)

check_outputs_iff :
    (tx : Transaction) (r : UtxoValidationResult) (coins : List Coin)
    → r.output_amounts ≡ []
    → (((check_outputs tx.outputs (none, r)).0 ≡ none)
        × ((check_outputs tx.outputs (none, r)).1.input_coins ≡ coins))
      ↔ (check_collected tx (r.input_amounts, r.input_coins) ≡ some coins)
unfolding check_outputs check_collected
check_outputs_iff tx r coins fresh =
    let tally : Amounts = accumulate (values tx.outputs) [] in
    let filled : UtxoValidationResult = record r { output_amounts = tally } in
    rw fresh (elim (Bool-cases (covers r.input_amounts tally)) [
      | inl e ↦ ground (
        arith,
        e,
        conserve_iff tally filled r.input_amounts (λ asset. refl),
        conserve-coins tally filled,
      )
      | inr e ↦ ground (
        arith,
        e,
        conserve_iff tally filled r.input_amounts (λ asset. refl),
        conserve-coins tally filled,
      )
    ])

check_outputs-error :
    (outputs : List TxOutput) (result : Option ErrorType × UtxoValidationResult)
    → ¬ (result.0 ≡ none)
    → ¬ ((check_outputs outputs result).0 ≡ none)
unfolding check_outputs
check_outputs-error outputs (none, r) h = absurd (h refl)
check_outputs-error outputs (some e, r) h = h

-- `ValidateAgainstUTXO` finds no error in a transaction and gathers these coins exactly where
-- `Chain::ValidateTransaction` accepts the transaction with these coins.
pub validate_against_utxo_iff :
    (u : UtxoSet) (height : ℕ) (tx : Transaction) (coins : List Coin)
    → (((validate_against_utxo u height tx).0 ≡ none)
        × ((validate_against_utxo u height tx).1.input_coins ≡ coins))
      ↔ (validate_transaction u height tx ≡ some coins)
unfolding validate_against_utxo validate_transaction
validate_against_utxo_iff u height tx coins = elim (Bool-cases (is_coinbase tx)) [
  | inl e ↦ rw e (λ h. rw (h.1) refl, λ h. (refl, ground arith))
  | inr e ↦ rw e (elim (Option-cases (collect_inputs u height tx.inputs [])) [
    | inl missing ↦ rw missing (
      λ h. absurd (
          check_outputs-error tx.outputs (gather u height tx.inputs no_result)
            (gather-collect_none u height tx.inputs no_result missing) h.0),
      λ h. cc,
    )
    | inr ((amounts, cs), found) ↦
        rw (gather-collect_some u height tx.inputs no_result amounts cs found, found)
          (check_outputs_iff tx (record no_result { input_amounts = amounts; input_coins = cs })
            coins refl)
  ])
]
