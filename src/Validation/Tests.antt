-- ===== src/Validation/Tests.antt =====
-- The theorems on validation, applied to sample values.
use pantheon_chain.Prelude.{
  ℕ, zero, suc, ◌+◌, ◌%◌, ◌≡◌, refl, Bool, true, false, none, List, [], ◌∷◌, All,
}
use pantheon_chain.Prelude.Words.{u32_mod}
use pantheon_chain.Primitives.Asset
use pantheon_chain.Primitives.Asset.{get_max_supply}
use pantheon_chain.Primitives.Bytes.{write_u16, write_u32, write_u64}
use pantheon_chain.Primitives.Compact.{write_compact_size}
use pantheon_chain.Primitives.Wire
use pantheon_chain.Primitives.Merkle.{get_tx_id}
use pantheon_chain.Prelude.Maps.{bytes_beq, bytes_blt, find, insert}
use pantheon_chain.Primitives.Transaction.{
  Hash, OutPoint, Transaction, TxInput, TxOutput, is_coinbase, no_duplicates, seen_before,
  outpoint_beq, outpoint_blt,
}
use pantheon_chain.Primitives.Samples.{
  length_hash, old_point, other_point, pays, unsigned, transfer, coinbase, block,
}
use pantheon_chain.Chainstate.Utxo.{UtxoSet, get_coin, is_spendable}
use pantheon_chain.Chainstate.Amounts.{accumulate, add_amount, amount_of}
use pantheon_chain.Chainstate.Chain.Undo.{created}
use pantheon_chain.Chainstate.Samples.{coin, coins, genesis, connected, connects, accepted}
use pantheon_chain.Validation.{
  amounts_valid, validate_structure, gather, conserve, check_outputs, validate_against_utxo,
  validate_block_structure, validate_pow, validate_coinbase, signature_error, signatures_from,
  validate_signatures, validate_one, validate_rest, structure_of, validate_block,
}
use pantheon_chain.Validation.Agreement.{validate_against_utxo_iff}
use pantheon_chain.Validation.Blocks.{connect_block-validated}
use pantheon_chain.Validation.Repeats.{LeavesOut, validate-connect_block_twice}
use pantheon_chain.Primitives.Block.{Block}
use pantheon_chain.Primitives.Block.Validity
use pantheon_chain.Primitives.Merkle.{
  calculate_merkle_root, calculate_root, hash_nodes, next_level, root_loop,
}
use pantheon_chain.Chainstate.Chain.{Chain, connect_block}
use pantheon_chain.Chainstate.Chain

validate_against_utxo_iff_example :
    ((validate_against_utxo coins 1 transfer).0 ≡ none)
    × ((validate_against_utxo coins 1 transfer).1.input_coins ≡ coin 40 ∷ coin 5 ∷ [])
validate_against_utxo_iff_example =
    (validate_against_utxo_iff coins 1 transfer (coin 40 ∷ coin 5 ∷ [])).1 accepted

connect_block-validated_example :
    (validate_block_structure length_hash block ≡ none)
    × (validate_pow length_hash block ≡ none)
    × (validate_coinbase block.transactions ((genesis.height + 1) % u32_mod) genesis.total_supply
        ≡ none)
connect_block-validated_example =
    connect_block-validated length_hash block genesis connected.1 [] connected.2 connects

-- Scripts of the lengths of a key and of a signature, under checks that accept every one.
abbrev bytes : ℕ → List ℕ
bytes zero = []
bytes (suc n) = 7 ∷ bytes n

abbrev any_key : List ℕ → Bool
any_key key = true

abbrev any_signature : List ℕ → Hash → List ℕ → Bool
any_signature key message signature = true

abbrev keyed : ℕ → TxOutput
keyed amount = record (pays amount) { pubkey_script = bytes 32 }

abbrev keyed_coins : UtxoSet
keyed_coins =
    (old_point, record (coin 40) { output = keyed 40 })
    ∷ (other_point, record (coin 40) { output = keyed 40 })
    ∷ []

abbrev signed : OutPoint → TxInput
signed o = record (unsigned o) { signature_script = bytes 64 }

abbrev payment : OutPoint → Transaction
payment o = record { version = 1; inputs = signed o ∷ []; outputs = keyed 30 ∷ []; locktime = 0 }

-- One payment stands twice, with another between.
abbrev repeating : Block
repeating = record block {
  transactions = coinbase ∷ payment old_point ∷ payment other_point ∷ payment old_point ∷ [];
}

abbrev chain : Chain
chain = record genesis { utxo_set = keyed_coins }

payment_regular : is_coinbase (payment old_point) ≡ false
unfolding is_coinbase
payment_regular = refl

payments_apart :
    All (LeavesOut length_hash old_point) (payment old_point ∷ payment other_point ∷ [])
unfolding created get_tx_id outpoint_beq bytes_beq Wire.serialize Wire.serialize_all
    Wire.serialize_input Wire.serialize_output Wire.serialize_outpoint write_u16 write_u32 write_u64
    write_compact_size Asset.serialize
payments_apart = (refl, (refl, tt))

repeating_structure : validate_block_structure length_hash repeating ≡ none
unfolding validate_block_structure structure_of Wire.serialize Wire.serialize_all
    Wire.serialize_input Wire.serialize_output Wire.serialize_outpoint write_u16 write_u32 write_u64
    write_compact_size Asset.serialize Validity.any_coinbase Validity.merkle_root_matches
    is_coinbase bytes_beq calculate_merkle_root calculate_root get_tx_id hash_nodes next_level
    root_loop outpoint_beq
repeating_structure = refl

payments_valid :
    validate_rest length_hash any_key any_signature keyed_coins
      ((chain.height + 1) % u32_mod)
      (payment old_point ∷ payment other_point ∷ [])
    ≡ none
unfolding validate_rest validate_one validate_structure amounts_valid validate_against_utxo gather
    conserve check_outputs signature_error signatures_from validate_signatures is_coinbase
    no_duplicates seen_before outpoint_beq outpoint_blt bytes_beq bytes_blt find insert get_coin
    is_spendable accumulate add_amount amount_of Asset.is_valid Asset.is_valid_amount get_max_supply
    Chain.initial
payments_valid = refl

sample_accepted :
    (validate_block_structure length_hash block ≡ none)
    × (validate_pow length_hash block ≡ none)
    × (validate_coinbase block.transactions ((genesis.height + 1) % u32_mod) genesis.total_supply
        ≡ none)
sample_accepted =
    connect_block-validated length_hash block genesis connected.1 [] connected.2 connects

repeating_coinbase :
    validate_coinbase repeating.transactions ((chain.height + 1) % u32_mod) chain.total_supply
    ≡ none
unfolding validate_coinbase
repeating_coinbase = sample_accepted.2

repeating_pow : validate_pow length_hash repeating ≡ none
unfolding validate_pow
repeating_pow = sample_accepted.1

validate-connect_block_twice_example :
    ((connect_block length_hash repeating chain []).0 ≡ false)
    × (validate_block length_hash any_key any_signature length_hash repeating chain.utxo_set
          ((chain.height + 1) % u32_mod)
          chain.total_supply
        ≡ none)
validate-connect_block_twice_example =
    validate-connect_block_twice length_hash any_key any_signature length_hash repeating chain []
      coinbase (payment old_point) [] (payment other_point ∷ []) [] (signed old_point) [] refl
      payment_regular refl payments_apart repeating_structure repeating_pow repeating_coinbase
      payments_valid
