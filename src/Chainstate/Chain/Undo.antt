-- ===== src/Chainstate/Chain/Undo.antt =====
-- The coins before a list of transactions are those after connecting and disconnecting it
-- (layer1-talanton/core/chainstate/chain.cpp). Two coin sets are compared by what they hold.
use pantheon_chain.Prelude.{
  ℕ, suc, ◌+◌, ◌≡◌, refl, sym, ap, ◌∙◌, inl, inr, Bool, true, false, ◌||◌, none, some, List, [],
  ◌∷◌, ◌++◌, if◌then◌else◌, Bool-cases, length, arith,
}
use pantheon_chain.Primitives.Transaction.{
  Hash, OutPoint, TxInput, TxOutput, Transaction, is_coinbase, outpoint_beq, outpoint_beq_iff,
}
use pantheon_chain.Primitives.Merkle.{get_tx_id}
use pantheon_chain.Chainstate.Utxo.{
  UtxoSet, Coin, add_coin, get_coin, spend_coin, get_coin-add_coin, get_coin-spend_coin,
}
use pantheon_chain.Chainstate.Spending.{
  BlockUndo, validate_transaction, add_outputs, remove_outputs, spend_inputs, restore_inputs,
  connect_transaction, disconnect_transaction, disconnect_rest,
}
use pantheon_chain.Chainstate.Chain.Conservation.{
  Names, collect_inputs-Names, validate_transaction-collects,
}

abbrev pub SameCoins : UtxoSet → UtxoSet → Type 0
SameCoins u v = (o : OutPoint) → get_coin o u ≡ get_coin o v

-- The outpoint is one of the outputs from `vout` on, or one of the inputs.
unfoldable pub created : OutPoint → Hash → ℕ → List TxOutput → Bool
created o txid vout [] = false
created o txid vout (x ∷ xs) =
    outpoint_beq o (record { txid = txid; vout = vout }) || created o txid (vout + 1) xs

unfoldable pub spent : OutPoint → List TxInput → Bool
spent o [] = false
spent o (i ∷ is) = outpoint_beq o i.prevout || spent o is

get_coin-remove_outputs :
    (o : OutPoint) (txid : Hash) (vout : ℕ) (xs : List TxOutput) (u : UtxoSet)
    → get_coin o (remove_outputs txid vout xs u)
      ≡ (if created o txid vout xs then none else get_coin o u)
unfolding remove_outputs created
get_coin-remove_outputs o txid vout [] u = refl
get_coin-remove_outputs o txid vout (x ∷ xs) u =
    let p : OutPoint = record { txid = txid; vout = vout } in
    ground (
      arith,
      get_coin-spend_coin o p u,
      get_coin-remove_outputs o txid (vout + 1) xs (spend_coin p u).1,
    )

pub get_coin-add_outputs :
    (o : OutPoint) (txid : Hash) (height : ℕ) (coinbase : Bool) (vout : ℕ) (xs : List TxOutput)
    (u : UtxoSet)
    → created o txid vout xs ≡ false
    → get_coin o (add_outputs txid height coinbase vout xs u) ≡ get_coin o u
unfolding add_outputs created
get_coin-add_outputs o txid height coinbase vout [] u h = refl
get_coin-add_outputs o txid height coinbase vout (x ∷ xs) u h =
    let p : OutPoint = record { txid = txid; vout = vout } in
    let c : Coin = record { output = x; height = height; is_coinbase = coinbase } in
    ground (
      arith,
      get_coin-add_coin o p c u,
      get_coin-add_outputs o txid height coinbase (vout + 1) xs (add_coin p c u),
    )

pub get_coin-spend_inputs :
    (o : OutPoint) (is : List TxInput) (u : UtxoSet)
    → get_coin o (spend_inputs is u) ≡ (if spent o is then none else get_coin o u)
unfolding spend_inputs spent
get_coin-spend_inputs o [] u = refl
get_coin-spend_inputs o (i ∷ is) u = ground (
  arith,
  get_coin-spend_coin o i.prevout u,
  get_coin-spend_inputs o is (spend_coin i.prevout u).1,
)

-- The coins that were spent come back, and nothing else changes.
get_coin-restore_inputs :
    (o : OutPoint) (is : List TxInput) (cs : List Coin) (height : ℕ) (u w : UtxoSet)
    → Names u height is cs
    → get_coin o (restore_inputs is cs w) ≡ (if spent o is then get_coin o u else get_coin o w)
unfolding restore_inputs spent
get_coin-restore_inputs o [] [] height u w h = refl
get_coin-restore_inputs o [] (c ∷ cs) height u w h = refl
get_coin-restore_inputs o (i ∷ is) [] height u w h = absurd h
get_coin-restore_inputs o (i ∷ is) (c ∷ cs) height u w h = ground (
  arith,
  h.0,
  outpoint_beq_iff o i.prevout,
  get_coin-add_coin o i.prevout c w,
  get_coin-restore_inputs o is cs height u (add_coin i.prevout c w) h.2,
)

pub length-Names :
    (u : UtxoSet) (height : ℕ) (is : List TxInput) (cs : List Coin)
    → Names u height is cs
    → length cs ≡ length is
length-Names u height [] [] h = refl
length-Names u height [] (c ∷ cs) h = absurd h
length-Names u height (i ∷ is) [] h = absurd h
length-Names u height (i ∷ is) (c ∷ cs) h = ap suc (length-Names u height is cs h.2)

pub validate_transaction-Names :
    (u : UtxoSet) (height : ℕ) (tx : Transaction) (coins : List Coin)
    → is_coinbase tx ≡ false
    → validate_transaction u height tx ≡ some coins
    → Names u height tx.inputs coins
validate_transaction-Names u height tx coins regular h =
    let (amounts, found, _) = validate_transaction-collects u height tx coins regular h in
    (collect_inputs-Names u height tx.inputs [] amounts coins found).0

-- No coin of the set stands at an outpoint that the outputs will take.
abbrev pub FreshOutputs : Hash → List TxOutput → UtxoSet → Type 0
FreshOutputs txid xs u = (o : OutPoint) → created o txid 0 xs ≡ true → get_coin o u ≡ none

pub remove-add_outputs :
    (txid : Hash) (height : ℕ) (coinbase : Bool) (xs : List TxOutput) (u w : UtxoSet)
    → FreshOutputs txid xs u
    → SameCoins w (add_outputs txid height coinbase 0 xs u)
    → SameCoins (remove_outputs txid 0 xs w) u
remove-add_outputs txid height coinbase xs u w fresh same o =
    elim (Bool-cases (created o txid 0 xs)) [
      | inl mine ↦ rw (get_coin-remove_outputs o txid 0 xs w, mine) (sym (fresh o mine))
      | inr other ↦
          rw (get_coin-remove_outputs o txid 0 xs w, other)
            (same o ∙ get_coin-add_outputs o txid height coinbase 0 xs u other)
    ]

-- No coin stands at the outpoints of the outputs, numbered from `vout` on.
abbrev pub Missing : Hash → ℕ → List TxOutput → UtxoSet → Type 0
Missing txid vout [] u = Unit {0}
Missing txid vout (x ∷ xs) u =
    (get_coin (record { txid = txid; vout = vout }) u ≡ none) × Missing txid (vout + 1) xs u

pub Missing-created :
    (o : OutPoint) (txid : Hash) (vout : ℕ) (xs : List TxOutput) (u : UtxoSet)
    → Missing txid vout xs u
    → created o txid vout xs ≡ true
    → get_coin o u ≡ none
unfolding created
Missing-created o txid vout [] u h e = cc
Missing-created o txid vout (x ∷ xs) u h e =
    let p : OutPoint = record { txid = txid; vout = vout } in
    ground (arith, outpoint_beq_iff o p, Missing-created o txid (vout + 1) xs u h.1, h.0)

module _ (sha256d : List ℕ → Hash) where
  FreshOutputs-spend :
      (tx : Transaction) (u : UtxoSet)
      → FreshOutputs (get_tx_id sha256d tx) tx.outputs u
      → FreshOutputs (get_tx_id sha256d tx) tx.outputs (spend_inputs tx.inputs u)
  FreshOutputs-spend tx u fresh o mine =
      ground (arith, fresh o mine, get_coin-spend_inputs o tx.inputs u)

  -- One transaction, connected and disconnected.
  pub disconnect-connect_transaction :
      (height : ℕ) (tx : Transaction) (coins : List Coin) (u w : UtxoSet)
      → Names u height tx.inputs coins
      → FreshOutputs (get_tx_id sha256d tx) tx.outputs u
      → SameCoins w (connect_transaction sha256d height tx u)
      → SameCoins (disconnect_transaction sha256d tx coins w) u
  unfolding connect_transaction disconnect_transaction
  disconnect-connect_transaction height tx coins u w named fresh same o =
      let txid = get_tx_id sha256d tx in
      let before = remove_outputs txid 0 tx.outputs w in
      let back =
        remove-add_outputs txid height false tx.outputs (spend_inputs tx.inputs u) w
          (FreshOutputs-spend tx u fresh) same o in
      ground (
        arith,
        back,
        get_coin-restore_inputs o tx.inputs coins height u before named,
        get_coin-spend_inputs o tx.inputs u,
      )

  -- At each transaction of the list its outputs are new to the coins that it finds.
  abbrev pub FreshAll : ℕ → List Transaction → UtxoSet → Type 0
  FreshAll height [] u = Unit {0}
  FreshAll height (tx ∷ txs) u =
      FreshOutputs (get_tx_id sha256d tx) tx.outputs u
      × FreshAll height txs (connect_transaction sha256d height tx u)

  pub disconnect_rest-append :
      (txs : List Transaction) (undo : BlockUndo) (tx : Transaction) (coins : List Coin)
      (w w' : UtxoSet)
      → length undo ≡ length txs
      → length coins ≡ length tx.inputs
      → disconnect_rest sha256d txs undo w ≡ (true, w')
      → disconnect_rest sha256d (txs ++ tx ∷ []) (undo ++ coins ∷ []) w
        ≡ (true, disconnect_transaction sha256d tx coins w')
  unfolding disconnect_rest
  disconnect_rest-append [] [] tx coins w w' e k h = ground arith
  disconnect_rest-append [] (c ∷ undo) tx coins w w' e k h = absurd (omega arith)
  disconnect_rest-append (t ∷ txs) [] tx coins w w' e k h = absurd (omega arith)
  disconnect_rest-append (t ∷ txs) (c ∷ undo) tx coins w w' e k h = ground (
    arith,
    disconnect_rest-append txs undo tx coins (disconnect_transaction sha256d t c w) w' (omega arith)
        k,
  )
