-- ===== src/Chainstate/Chain/Sequence.antt =====
-- The transactions of a block after its coinbase, connected and then disconnected
-- (layer1-talanton/core/chainstate/chain.cpp).
use mathlib.Core.List.{reverse, reverse-cons}
use pantheon_chain.Prelude.{
  ℕ, suc, ◌≡◌, refl, ap, inl, inr, true, false, some, List, [], ◌∷◌, ◌++◌, append_assoc, append-nil,
  Option-cases, length, length-append, arith,
}
use pantheon_chain.Primitives.Transaction.{Hash, Transaction, is_coinbase}
use pantheon_chain.Prelude.Maps.{bytes_key, nat_key}
use pantheon_chain.Primitives.Block.Validity.{any_coinbase}
use pantheon_chain.Chainstate.Utxo.{UtxoSet, Coin}
use pantheon_chain.Chainstate.Spending.{
  BlockUndo, validate_transaction, connect_transaction, connect_rest, disconnect_transaction,
  disconnect_rest,
}
use pantheon_chain.Chainstate.Chain.Undo.{
  SameCoins, FreshAll, length-Names, validate_transaction-Names, disconnect-connect_transaction,
  disconnect_rest-append,
}

length-reverse {ℓ} : {A : Type ℓ} (xs : List A) → length (reverse xs) ≡ length xs
length-reverse [] = refl
length-reverse (x ∷ xs) =
    rw (reverse-cons x xs) omega (arith, length-append (reverse xs) (x ∷ []), length-reverse xs)

module _ (sha256d : List ℕ → Hash) where
  -- What undoing the list from the coins `w` with the undo data `undo` comes to.
  abbrev pub Undoes : List Transaction → BlockUndo → UtxoSet → UtxoSet → Type 0
  Undoes txs undo w u =
      (w' : UtxoSet) × (disconnect_rest sha256d (reverse txs) (reverse undo) w ≡ (true, w'))
      × SameCoins w' u

  Undoes-cons :
      (height : ℕ) (tx : Transaction) (txs : List Transaction) (coins : List Coin)
      (undo : BlockUndo) (u w : UtxoSet)
      → is_coinbase tx ≡ false
      → validate_transaction u height tx ≡ some coins
      → FreshAll sha256d height (tx ∷ txs) u
      → length undo ≡ length txs
      → Undoes txs undo w (connect_transaction sha256d height tx u)
      → Undoes (tx ∷ txs) (coins ∷ undo) w u
  Undoes-cons height tx txs coins undo u w regular ok fresh e (w', back, same) =
      let named = validate_transaction-Names u height tx coins regular ok in
      (
        disconnect_transaction sha256d tx coins w',
        rw (reverse-cons tx txs, reverse-cons coins undo)
            (disconnect_rest-append sha256d (reverse txs) (reverse undo) tx coins w w'
              (omega (arith, length-reverse undo, length-reverse txs, e))
              (length-Names u height tx.inputs coins named) back),
        disconnect-connect_transaction sha256d height tx coins u w' named fresh.0 same,
      )

  -- A list of regular transactions that are connected one after the other, each with outputs that are
  -- new, gives undo data that takes the coins back to what they were.
  pub connect_rest-Undoes :
      (height : ℕ) (txs : List Transaction) (u u' w : UtxoSet) (undo undo' : BlockUndo)
      → any_coinbase txs ≡ false
      → FreshAll sha256d height txs u
      → connect_rest sha256d height txs u undo ≡ (true, u', undo')
      → SameCoins w u'
      → (extra : BlockUndo) × (undo' ≡ undo ++ extra)
        × (length extra ≡ length txs)
        × Undoes txs extra w u
  unfolding connect_rest any_coinbase disconnect_rest
  connect_rest-Undoes height [] u u' w undo undo' regular fresh h same =
      ([], ground (arith, append-nil undo), refl, (w, refl, λ o. ground (arith, same o)))
  connect_rest-Undoes height (tx ∷ txs) u u' w undo undo' regular fresh h same =
      elim (Option-cases (validate_transaction u height tx)) [
        | inl e ↦ absurd (ground arith)
        | inr (coins, e) ↦
            let v = connect_transaction sha256d height tx u in
            let (extra, told, l, undone) =
              connect_rest-Undoes height txs v u' w (undo ++ coins ∷ []) undo' (ground arith)
                fresh.1 (ground arith) same in
            (
              coins ∷ extra,
              ground (arith, told, append_assoc undo (coins ∷ []) extra),
              ap suc l,
              Undoes-cons height tx txs coins extra u w (ground arith) e fresh l undone,
            )
      ]
