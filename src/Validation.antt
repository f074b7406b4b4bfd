-- ===== src/Validation.antt =====
-- `TransactionValidator` and `BlockValidator`
-- (layer1-talanton/core/validation/validation.h and validation.cpp). An error is its type; the message,
-- a text for the reader, is left out.
pub mod Agreement
pub mod Repeats
pub mod Blocks
mod Tests
use pantheon_chain.Prelude.{
  ℕ, zero, suc, ◌+◌, Bool, true, false, not, ◌&&◌, Option, none, some, List, [], ◌∷◌, ◌++◌, ltb,
  ◌==◌, if◌then◌else◌, length,
}
use pantheon_chain.Prelude.Words.{add64}
use pantheon_chain.Prelude.Maps.{find, insert, bytes_beq, nat_key}
use pantheon_chain.Primitives.Asset
use pantheon_chain.Primitives.Asset.{AssetId, get_max_supply}
use pantheon_chain.Primitives.Transaction.{
  Hash, TxInput, TxOutput, Transaction, is_coinbase, no_duplicates,
}
use pantheon_chain.Primitives.Wire.Signing.{serialize_for_signing}
use pantheon_chain.Primitives.Block.{Block}
use pantheon_chain.Primitives.Block.Validity.{any_coinbase, merkle_root_matches, get_hash}
use pantheon_chain.Consensus.Issuance.{is_valid_block_reward}
use pantheon_chain.Consensus.Difficulty.{check_proof_of_work}
use pantheon_chain.Chainstate.Utxo.{UtxoSet, Coin, is_spendable, get_coin}
use pantheon_chain.Chainstate.Amounts.{Amounts, amount_of, add_amount, accumulate, values}

pub data ErrorType : Type 0 where
  tx_no_inputs tx_no_outputs tx_duplicate_inputs : ErrorType
  tx_missing_input tx_immature_coinbase tx_invalid_signature : ErrorType
  tx_asset_conservation tx_invalid_amount block_no_transactions : ErrorType
  block_no_coinbase block_multiple_coinbase block_invalid_merkle_root : ErrorType
  block_invalid_pow block_invalid_coinbase_reward block_exceeds_supply_cap : ErrorType
  block_invalid_transaction unknown : ErrorType

unfoldable pub amounts_valid : List TxOutput → Bool
amounts_valid [] = true
amounts_valid (o ∷ os) = if not (Asset.is_valid o.value) then false else amounts_valid os

unfoldable pub validate_structure : Transaction → Option ErrorType
validate_structure tx =
    if not (is_coinbase tx) && length tx.inputs == 0
    then some tx_no_inputs
    else if length tx.outputs == 0
    then some tx_no_outputs
    else if not (no_duplicates [] tx.inputs)
    then some tx_duplicate_inputs
    else if not (amounts_valid tx.outputs)
    then some tx_invalid_amount
    else none

pub record UtxoValidationResult : Type 0 where
  pub input_amounts : Amounts
  pub output_amounts : Amounts
  pub input_coins : List Coin

abbrev pub no_result : UtxoValidationResult
no_result = record { input_amounts = []; output_amounts = []; input_coins = [] }

-- The loop over the inputs. An error leaves what was gathered before it.
unfoldable pub gather :
    UtxoSet → ℕ → List TxInput → UtxoValidationResult → Option ErrorType × UtxoValidationResult
gather u height [] r = (none, r)
gather u height (i ∷ is) r = elim (get_coin i.prevout u) [
  | none ↦ (some tx_missing_input, r)
  | some c ↦
      if not (is_spendable c height)
      then (some tx_immature_coinbase, r)
      else gather u height is (record r {
        input_amounts = add_amount c.output.value r.input_amounts;
        input_coins = r.input_coins ++ c ∷ [];
      })
]

-- The loop over the output amounts; `input_amounts[asset]` makes an entry for a new asset.
unfoldable pub conserve : Amounts → UtxoValidationResult → Option ErrorType × UtxoValidationResult
conserve [] r = (none, r)
conserve ((asset, amount) ∷ rest) r =
    let touched = record r {
      input_amounts = insert asset (amount_of asset r.input_amounts) r.input_amounts;
    } in
    let later = conserve rest touched in
    if ltb (amount_of asset r.input_amounts) amount
    then (some tx_asset_conservation, touched)
    else later

unfoldable pub check_outputs :
    List TxOutput
    → Option ErrorType × UtxoValidationResult
    → Option ErrorType × UtxoValidationResult
check_outputs outputs (some e, r) = (some e, r)
check_outputs outputs (none, r) =
    conserve (accumulate (values outputs) r.output_amounts)
      (record r { output_amounts = accumulate (values outputs) r.output_amounts })

unfoldable pub validate_against_utxo :
    UtxoSet → ℕ → Transaction → Option ErrorType × UtxoValidationResult
validate_against_utxo u height tx =
    if is_coinbase tx
    then (none, no_result)
    else check_outputs tx.outputs (gather u height tx.inputs no_result)

unfoldable pub validate_pow_hash : Hash → ℕ → Option ErrorType
validate_pow_hash hash bits =
    if not (check_proof_of_work hash bits) then some block_invalid_pow else none

-- The reward and the cap of each amount, against the supply before the block.
unfoldable pub validate_amounts : ℕ → Amounts → Amounts → Option ErrorType
validate_amounts height supply [] = none
validate_amounts height supply ((asset, amount) ∷ rest) =
    let later = validate_amounts height supply rest in
    if not (is_valid_block_reward height asset amount)
    then some block_invalid_coinbase_reward
    else if ltb (add64 (amount_of asset supply) amount) (amount_of asset supply)
    then some block_exceeds_supply_cap
    else if ltb (get_max_supply asset) (add64 (amount_of asset supply) amount)
    then some block_exceeds_supply_cap
    else later

-- For a block that has transactions (an empty one has no `transactions[0]`).
unfoldable pub validate_coinbase : List Transaction → ℕ → Amounts → Option ErrorType
validate_coinbase [] height supply = none
validate_coinbase (coinbase ∷ rest) height supply =
    validate_amounts height supply (accumulate (values coinbase.outputs) [])

-- `sha256d` is `crypto::SHA256d`.
module _ (sha256d : List ℕ → Hash) where
  unfoldable pub structure_of : Block → List Transaction → Option ErrorType
  structure_of b [] = some block_no_transactions
  structure_of b (coinbase ∷ rest) =
      if not (is_coinbase coinbase)
      then some block_no_coinbase
      else if any_coinbase rest
      then some block_multiple_coinbase
      else if not (merkle_root_matches sha256d b)
      then some block_invalid_merkle_root
      else none

  unfoldable pub validate_block_structure : Block → Option ErrorType
  validate_block_structure b = structure_of b b.transactions

  unfoldable pub validate_pow : Block → Option ErrorType
  validate_pow b = validate_pow_hash (get_hash sha256d b.header) b.header.bits

-- `sha256` is `crypto::SHA256::Hash256`, `schnorr_key` and `schnorr_verify` are `Schnorr::ValidatePublicKey` and `Schnorr::Verify`.
module _ (sha256 : List ℕ → Hash) (schnorr_key : List ℕ → Bool)
    (schnorr_verify : List ℕ → Hash → List ℕ → Bool) where
  unfoldable pub get_signature_hash : ℕ → Transaction → Hash
  get_signature_hash index tx = sha256 (serialize_for_signing index tx)

  unfoldable pub signature_error : Transaction → ℕ → TxInput → Coin → Option ErrorType
  signature_error tx index i c =
      if not (length c.output.pubkey_script == 32)
      then some tx_invalid_signature
      else if not (schnorr_key c.output.pubkey_script)
      then some tx_invalid_signature
      else if not (length i.signature_script == 64)
      then some tx_invalid_signature
      else if not
          (schnorr_verify c.output.pubkey_script (get_signature_hash index tx) i.signature_script)
      then some tx_invalid_signature
      else none

  -- The loop over the inputs, from the index of the first.
  unfoldable pub signatures_from : UtxoSet → Transaction → ℕ → List TxInput → Option ErrorType
  signatures_from u tx index [] = none
  signatures_from u tx index (i ∷ is) =
      let later = signatures_from u tx (suc index) is in
      elim (get_coin i.prevout u) [
        | none ↦ some tx_missing_input
        | some c ↦ elim (signature_error tx index i c) [ none ↦ later | some e ↦ some e ]
      ]

  unfoldable pub validate_signatures : UtxoSet → Transaction → Option ErrorType
  validate_signatures u tx = if is_coinbase tx then none else signatures_from u tx 0 tx.inputs

  -- Each transaction after the coinbase, all against the same coins.
  unfoldable pub validate_one : UtxoSet → ℕ → Transaction → Option ErrorType
  validate_one u height tx = elim (validate_structure tx) [
    | some e ↦ some block_invalid_transaction
    | none ↦ elim (validate_against_utxo u height tx).0 [
      | some e ↦ some block_invalid_transaction
      | none ↦ elim (validate_signatures u tx) [
        | some e ↦ some block_invalid_transaction
        | none ↦ none
      ]
    ]
  ]

  unfoldable pub validate_rest : UtxoSet → ℕ → List Transaction → Option ErrorType
  validate_rest u height [] = none
  validate_rest u height (tx ∷ txs) =
      let later = validate_rest u height txs in
      elim (validate_one u height tx) [ none ↦ later | some e ↦ some e ]

  unfoldable pub after_coinbase : List Transaction → List Transaction
  after_coinbase [] = []
  after_coinbase (coinbase ∷ rest) = rest

  unfoldable pub validate_block : (List ℕ → Hash) → Block → UtxoSet → ℕ → Amounts → Option ErrorType
  validate_block sha256d b u height supply = elim (validate_block_structure sha256d b) [
    | some e ↦ some e
    | none ↦ elim (validate_pow sha256d b) [
      | some e ↦ some e
      | none ↦ elim (validate_coinbase b.transactions height supply) [
        | some e ↦ some e
        | none ↦ validate_rest u height (after_coinbase b.transactions)
      ]
    ]
  ]
