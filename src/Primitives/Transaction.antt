-- ===== src/Primitives/Transaction.antt =====
-- `OutPoint`, `TxInput`, `TxOutput` and `Transaction` with their structural checks
-- (layer1-talanton/core/primitives/transaction.h and transaction.cpp).
use pantheon_chain.Prelude.{
  ℕ, ◌<◌, ◌≡◌, ◌↔◌, inl, inr, Bool, true, false, not, ◌&&◌, ◌||◌, List, [], ◌∷◌, ltb, ◌==◌,
  if◌then◌else◌, Bool-cases, length, All, arith,
}
use pantheon_chain.Prelude.Maps.{Key, bytes_beq, bytes_beq_iff, bytes_key}
use pantheon_chain.Primitives.Asset.{AssetAmount}
use pantheon_chain.Primitives.Asset

abbrev pub Hash : Type 0
Hash = List ℕ

-- `std::array<uint8_t, 32>{}`
abbrev pub zero_hash : Hash
zero_hash =
    0 ∷ 0 ∷ 0 ∷ 0 ∷ 0 ∷ 0 ∷ 0 ∷ 0 ∷ 0 ∷ 0 ∷ 0 ∷ 0 ∷ 0 ∷ 0 ∷ 0 ∷ 0 ∷ 0 ∷ 0 ∷ 0 ∷ 0 ∷ 0 ∷ 0 ∷ 0 ∷ 0
    ∷ 0 ∷ 0 ∷ 0 ∷ 0 ∷ 0 ∷ 0 ∷ 0 ∷ 0 ∷ []

abbrev pub coinbase_vout_index : ℕ
coinbase_vout_index = 0xFFFF_FFFF

pub record OutPoint : Type 0 where
  pub txid : Hash
  pub vout : ℕ

pub record TxInput : Type 0 where
  pub prevout : OutPoint
  pub signature_script : List ℕ
  pub sequence : ℕ

pub record TxOutput : Type 0 where
  pub value : AssetAmount
  pub pubkey_script : List ℕ

pub record Transaction : Type 0 where
  pub version : ℕ
  pub inputs : List TxInput
  pub outputs : List TxOutput
  pub locktime : ℕ

-- `operator==` and `operator<` of `OutPoint`.
unfoldable pub outpoint_beq : OutPoint → OutPoint → Bool
outpoint_beq a b = bytes_beq a.txid b.txid && a.vout == b.vout

unfoldable pub outpoint_blt : OutPoint → OutPoint → Bool
outpoint_blt a b =
    if not (bytes_beq a.txid b.txid) then bytes_key.blt a.txid b.txid else ltb a.vout b.vout

pub outpoint_beq_iff : (a b : OutPoint) → (outpoint_beq a b ≡ true) ↔ (a ≡ b)
unfolding outpoint_beq
outpoint_beq_iff a b = (
  λ h. ground (arith, bytes_beq_iff a.txid b.txid),
  λ h. ground (arith, bytes_beq_iff a.txid b.txid),
)

instance abbrev pub outpoint_key : Key OutPoint
outpoint_key = record { beq = outpoint_beq; blt = outpoint_blt; beq_iff = outpoint_beq_iff }

unfoldable pub output_is_valid : TxOutput → Bool
output_is_valid o = Asset.is_valid o.value && not (length o.pubkey_script == 0)

marks_coinbase : List TxInput → Bool
marks_coinbase [] = false
marks_coinbase (i ∷ []) =
    i.prevout.vout == coinbase_vout_index && bytes_beq i.prevout.txid zero_hash
marks_coinbase (i ∷ j ∷ rest) = false

unfoldable pub is_coinbase : Transaction → Bool
unfolding marks_coinbase
is_coinbase tx = marks_coinbase tx.inputs

-- `seen_inputs.count(prevout) > 0`
unfoldable pub seen_before : OutPoint → List OutPoint → Bool
seen_before o [] = false
seen_before o (p ∷ ps) = outpoint_beq o p || seen_before o ps

-- The loop over `tx.inputs` that refuses an outpoint it has met.
unfoldable pub no_duplicates : List OutPoint → List TxInput → Bool
no_duplicates seen [] = true
no_duplicates seen (i ∷ is) =
    if seen_before i.prevout seen then false else no_duplicates (i.prevout ∷ seen) is

unfoldable pub outputs_valid : List TxOutput → Bool
outputs_valid [] = true
outputs_valid (o ∷ os) = if not (output_is_valid o) then false else outputs_valid os

unfoldable pub is_valid : Transaction → Bool
is_valid tx =
    if length tx.inputs == 0 || length tx.outputs == 0
    then false
    else if not (outputs_valid tx.outputs)
    then false
    else is_coinbase tx || no_duplicates [] tx.inputs

-- The outpoint of no input stands among `seen` or in an earlier input.
abbrev pub Fresh : OutPoint → List OutPoint → Type 0
Fresh o = All (λ p. ¬ (o ≡ p))

abbrev pub Distinct : List OutPoint → List TxInput → Type 0
Distinct seen [] = Unit {0}
Distinct seen (i ∷ is) = Fresh i.prevout seen × Distinct (i.prevout ∷ seen) is

seen_before-Fresh : (o : OutPoint) (ps : List OutPoint) → seen_before o ps ≡ false → Fresh o ps
unfolding seen_before
seen_before-Fresh o [] h = tt
seen_before-Fresh o (p ∷ ps) h =
    (λ e. ground (arith, outpoint_beq_iff o p), seen_before-Fresh o ps (ground arith))

no_duplicates-Distinct :
    (seen : List OutPoint) (is : List TxInput) → no_duplicates seen is ≡ true → Distinct seen is
unfolding no_duplicates
no_duplicates-Distinct seen [] h = tt
no_duplicates-Distinct seen (i ∷ is) h = (
  seen_before-Fresh i.prevout seen (ground arith),
  no_duplicates-Distinct (i.prevout ∷ seen) is (ground arith),
)

single_Distinct : (is : List TxInput) → marks_coinbase is ≡ true → Distinct [] is
unfolding marks_coinbase
single_Distinct [] h = tt
single_Distinct (i ∷ []) h = (tt, tt)
single_Distinct (i ∷ j ∷ is) h = cc

abbrev IsValidOutput : TxOutput → Type 0
IsValidOutput o = output_is_valid o ≡ true

outputs_valid-All : (os : List TxOutput) → outputs_valid os ≡ true → All IsValidOutput os
unfolding outputs_valid
outputs_valid-All [] h = tt
outputs_valid-All (o ∷ os) h = (ground arith, outputs_valid-All os (ground arith))

is_coinbase-Distinct : (tx : Transaction) → is_coinbase tx ≡ true → Distinct [] tx.inputs
unfolding is_coinbase
is_coinbase-Distinct tx h = single_Distinct tx.inputs h

inputs_Distinct :
    (tx : Transaction)
    → (is_coinbase tx || no_duplicates [] tx.inputs) ≡ true
    → Distinct [] tx.inputs
inputs_Distinct tx h = elim (Bool-cases (is_coinbase tx)) [
  | inl e ↦ is_coinbase-Distinct tx e
  | inr e ↦ no_duplicates-Distinct [] tx.inputs (ground arith)
]

-- A transaction that passes `IsValid` has at least one input and one output, spends no outpoint twice,
-- and each of its outputs is valid.
pub is_valid-Distinct :
    (tx : Transaction)
    → is_valid tx ≡ true
    → (0 < length tx.inputs)
      × (0 < length tx.outputs)
      × Distinct [] tx.inputs
      × All (λ o. output_is_valid o ≡ true) tx.outputs
unfolding is_valid
is_valid-Distinct tx h = (
  ground arith,
  ground arith,
  inputs_Distinct tx (ground arith),
  outputs_valid-All tx.outputs (ground arith),
)
