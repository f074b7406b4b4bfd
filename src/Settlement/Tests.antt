-- ===== src/Settlement/Tests.antt =====
-- The theorems on settlement, applied to sample values.
use pantheon_chain.Prelude.{
  ℕ, ◌≤◌, ◌≡◌, ◌↔◌, refl, true, false, Option, List, [], ◌∷◌, ◌++◌, length, All, arith,
}
use pantheon_chain.Primitives.Samples.{length_hash}
use pantheon_chain.Primitives.Transaction.{Hash}
use pantheon_chain.Prelude.Maps.{bytes_beq, bytes_blt}
use pantheon_chain.Prelude.{Bool}
use pantheon_chain.Settlement.Multisig.{
  MultisigPolicy, no_signatures, get_n, insert_sorted, sort, repeats_after, has_repeat, is_valid,
  has_index, add_signature, key_at, verify_schnorr_signature, count_valid, verify_signatures,
}
use pantheon_chain.Settlement.Multisig.Quorum.{add_all, Signs, verify_signatures_sound}
use pantheon_chain.Settlement.Multisig.Keys.{Distinct, keys_of}
use pantheon_chain.Settlement.Escrow.{
  Escrow, conditional_lock, no_timelock, no_hashlock, serialize, deserialize, is_releasable,
}
use pantheon_chain.Settlement.DestinationTag.{
  validate_memo, valid_utf8, next_character, finish_character, read_continuation, is_refused,
}
use pantheon_chain.Settlement.DestinationTag.Utf8.{encode_all, IsScalar}
use pantheon_chain.Settlement.DestinationTag.Utf8.Decode.{validate_memo_iff}
use pantheon_chain.Settlement.Escrow.RoundTrip.{IsEscrow, deserialize-serialize_escrow}

-- Two of three keys; a key signs by its first byte.
abbrev policy : MultisigPolicy
policy = record { m = 2; pubkeys = (2 ∷ 10 ∷ []) ∷ (2 ∷ 20 ∷ []) ∷ (2 ∷ 30 ∷ []) ∷ [] }

abbrev matches : List ℕ → Hash → List ℕ → Bool
matches key message signature = bytes_beq key signature

abbrev pairs : List (ℕ × List ℕ)
pairs = (2, 30 ∷ []) ∷ (0, 10 ∷ []) ∷ (2, 9 ∷ []) ∷ []

accepts : verify_signatures length_hash matches policy (add_all pairs no_signatures) (1 ∷ []) ≡ true
unfolding verify_signatures count_valid verify_schnorr_signature key_at is_valid has_repeat
    repeats_after sort insert_sorted bytes_beq bytes_blt add_all add_signature has_index get_n
accepts = refl

verify_signatures_sound_example :
    (signers : List ℕ) × Distinct (keys_of signers policy.pubkeys)
    × All
        (Signs length_hash matches policy (add_all pairs no_signatures).signatures (1 ∷ []))
        signers
    × (policy.m ≤ length signers)
verify_signatures_sound_example =
    verify_signatures_sound length_hash matches policy pairs (1 ∷ []) accepts

abbrev escrow : Escrow
escrow = record {
  type = conditional_lock;
  timelock = no_timelock;
  hashlock = no_hashlock;
  conditional = record { locktime = 500; hash = length_hash [] };
}

escrow-IsEscrow : IsEscrow escrow
escrow-IsEscrow = record {
  known = omega arith;
  time_word = omega arith;
  hash_bytes = refl;
  condition_word = omega arith;
  condition_bytes = refl;
}

deserialize-serialize_escrow_example :
    ((deserialize (serialize escrow ++ 7 ∷ [])).1 ≡ 7 ∷ [])
    × ((deserialize (serialize escrow ++ 7 ∷ [])).0.type ≡ escrow.type)
    × ((time : ℕ) (preimage : Option (List ℕ))
        → is_releasable length_hash (deserialize (serialize escrow ++ 7 ∷ [])).0 time preimage
          ≡ is_releasable length_hash escrow time preimage)
deserialize-serialize_escrow_example =
    deserialize-serialize_escrow length_hash escrow (7 ∷ []) escrow-IsEscrow

-- The bytes of "é", and a surrogate.
abbrev memo : List ℕ
memo = 195 ∷ 169 ∷ []

validate_memo_iff_example :
    (validate_memo memo ≡ true)
    ↔ ((length memo ≤ 256) × ((cps : List ℕ) × All IsScalar cps × (memo ≡ encode_all cps)))
validate_memo_iff_example = validate_memo_iff memo

refuses-surrogate : validate_memo (237 ∷ 160 ∷ 128 ∷ []) ≡ false
unfolding validate_memo valid_utf8 next_character finish_character read_continuation is_refused
refuses-surrogate = refl
