-- ===== src/Primitives/Tests.antt =====
-- The theorems on the primitives, applied to sample values.
use pantheon_chain.Prelude.{
  ℕ, ◌^◌, ◌<◌, ◌≡◌, ◌≢◌, refl, true, some, [], ◌∷◌, ◌++◌, All, length, arith,
}
use pantheon_chain.Prelude.Words.{u64_mod, u32_mod}
use pantheon_chain.Prelude.Maps.{bytes_beq}
use pantheon_chain.Primitives.SafeMath
use pantheon_chain.Primitives.Asset
use pantheon_chain.Primitives.Compact.{parsed, write_compact_size}
use pantheon_chain.Primitives.Transaction.{
  Hash, zero_hash, OutPoint, Distinct, output_is_valid, is_coinbase, outputs_valid, no_duplicates,
  seen_before, outpoint_beq, is_valid, is_valid-Distinct,
}
use pantheon_chain.Primitives.Wire.{serialize, deserialize_prefix, deserialize_output}
use pantheon_chain.Primitives.Wire.Items.{IsInput, IsOutput}
use pantheon_chain.Primitives.Wire.RoundTrip.{IsTransaction, deserialize_prefix-serialize}
use pantheon_chain.Primitives.Wire.Signing.{
  serialize_for_signing, put_signature, serialize_for_signing-put_signature,
  serialize_for_signing-put_own_signature,
}
use pantheon_chain.Primitives.Wire.Sizes.{outcome, deserialize_output-outcome}
use pantheon_chain.Primitives.Block
use pantheon_chain.Primitives.Block.RoundTrip.{IsBlock, deserialize-serialize_block}
use pantheon_chain.Primitives.Merkle.{calculate_root, calculate_root_total, calculate_root_repeat}
use pantheon_chain.Primitives.Samples.{
  length_hash, old_point, other_point, coinbase_point, unsigned, pays, transfer, coinbase, block,
}

unsigned-IsInput : (o : OutPoint) → length o.txid ≡ 32 → o.vout < u32_mod → IsInput (unsigned o)
unsigned-IsInput o h k = record {
  point = record { id_bytes = h; vout_word = k };
  script_fits = omega arith;
  sequence_word = omega arith;
}

pays-IsOutput : (amount : ℕ) → amount < u64_mod → IsOutput (pays amount)
pays-IsOutput amount h = record {
  amount = record { asset_byte = omega arith; amount_word = h };
  script_fits = omega arith;
}

transfer-IsTransaction : IsTransaction transfer
transfer-IsTransaction = record {
  version_word = omega arith;
  input_count = omega arith;
  each_input = (
    unsigned-IsInput old_point refl (omega arith),
    (unsigned-IsInput other_point refl (omega arith), tt),
  );
  output_count = omega arith;
  each_output = (pays-IsOutput 30 (omega arith), (pays-IsOutput 12 (omega arith), tt));
  locktime_word = omega arith;
}

coinbase-IsTransaction : IsTransaction coinbase
coinbase-IsTransaction = record {
  version_word = omega arith;
  input_count = omega arith;
  each_input = (unsigned-IsInput coinbase_point refl (omega arith), tt);
  output_count = omega arith;
  each_output = (pays-IsOutput 5_000_000_000 (omega arith), tt);
  locktime_word = omega arith;
}

block-IsBlock : IsBlock block
block-IsBlock = record {
  header_words = record {
    version_word = omega arith;
    prev_bytes = refl;
    root_bytes = refl;
    timestamp_word = omega arith;
    bits_word = omega arith;
    nonce_word = omega arith;
    base_fee_word = omega arith;
    gas_used_word = omega arith;
    gas_limit_word = omega arith;
  };
  some_transaction = omega arith;
  count_fits = omega arith;
  each_transaction = (coinbase-IsTransaction, (transfer-IsTransaction, tt));
}

transfer_valid : is_valid transfer ≡ true
unfolding is_valid is_coinbase outputs_valid output_is_valid no_duplicates seen_before outpoint_beq
    Asset.is_valid bytes_beq Asset.get_max_supply
transfer_valid = refl

ops-exact_example : SafeMath.add 7 5 ≡ SafeMath.exact 12
ops-exact_example = (SafeMath.ops-exact 7 5 (omega arith) (omega arith)).0

is_valid-Distinct_example :
    (0 < length transfer.inputs)
    × (0 < length transfer.outputs)
    × Distinct [] transfer.inputs
    × All (λ o. output_is_valid o ≡ true) transfer.outputs
is_valid-Distinct_example = is_valid-Distinct transfer transfer_valid

deserialize_prefix-serialize_example :
    deserialize_prefix (serialize transfer ++ 1 ∷ 2 ∷ []) ≡ parsed transfer (1 ∷ 2 ∷ [])
deserialize_prefix-serialize_example =
    deserialize_prefix-serialize transfer (1 ∷ 2 ∷ []) transfer-IsTransaction

serialize_for_signing-put_signature_example :
    serialize_for_signing 0 (put_signature 1 (5 ∷ 6 ∷ []) transfer)
    ≡ serialize_for_signing 0 transfer
serialize_for_signing-put_signature_example =
    serialize_for_signing-put_signature 0 1 (5 ∷ 6 ∷ []) transfer (omega arith)

serialize_for_signing-put_own_signature_example :
    serialize_for_signing 1 (put_signature 1 (5 ∷ 6 ∷ []) transfer)
    ≢ serialize_for_signing 1 transfer
serialize_for_signing-put_own_signature_example =
    serialize_for_signing-put_own_signature 1 (5 ∷ 6 ∷ []) transfer refl (omega arith)

-- A declared script size of 2^63 and no byte after it.
deserialize_output-outcome_example :
    deserialize_output (Asset.serialize (pays 3).value ++ (write_compact_size (2 ^ 63) ++ []))
    ≡ outcome (pays 3).value (2 ^ 63) []
deserialize_output-outcome_example =
    deserialize_output-outcome (pays 3).value (2 ^ 63) []
      (record { asset_byte = omega arith; amount_word = omega arith }) (omega arith) (omega arith)

deserialize-serialize_block_example : Block.deserialize (Block.serialize block) ≡ parsed block []
deserialize-serialize_block_example = deserialize-serialize_block block block-IsBlock

calculate_root_total_example :
    (root : Hash) × (calculate_root length_hash (zero_hash ∷ zero_hash ∷ zero_hash ∷ [])
      ≡ some root)
calculate_root_total_example =
    calculate_root_total length_hash (zero_hash ∷ zero_hash ∷ zero_hash ∷ [])

calculate_root_repeat_example :
    calculate_root length_hash (zero_hash ∷ zero_hash ∷ [] ++ zero_hash ∷ zero_hash ∷ [])
    ≡ calculate_root length_hash (zero_hash ∷ zero_hash ∷ [] ++ zero_hash ∷ [])
calculate_root_repeat_example =
    calculate_root_repeat length_hash zero_hash zero_hash [] zero_hash refl
