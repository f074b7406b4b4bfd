-- ===== src/Settlement/Multisig.antt =====
-- `MultisigPolicy`, `AggregatedSignature` and `MultisigValidator`
-- (layer1-talanton/settlement/multisig.h and multisig.cpp). A reader takes the bytes from its position on,
-- and leaves those after it; where it refuses, the position stays.
pub mod Keys
pub mod Quorum
use pantheon_chain.Prelude.{
  ℕ, zero, suc, ◌+◌, ◌*◌, ◌%◌, Bool, true, false, not, ◌||◌, Option, none, some, List, [], ◌∷◌,
  ◌++◌, ltb, leb, ◌==◌, if◌then◌else◌, length, take, drop,
}
use pantheon_chain.Prelude.Maps.{bytes_beq, bytes_blt}
use pantheon_chain.Primitives.Bytes.{byte}
use pantheon_chain.Primitives.Transaction.{Hash}

abbrev pub max_keys : ℕ
max_keys = 15

pub record MultisigPolicy : Type 0 where
  pub m : ℕ
  pub pubkeys : List (List ℕ)

abbrev pub no_policy : MultisigPolicy
no_policy = record { m = 0; pubkeys = [] }

unfoldable pub get_n : MultisigPolicy → ℕ
get_n p = length p.pubkeys % 256

-- `std::sort`
unfoldable pub insert_sorted : List ℕ → List (List ℕ) → List (List ℕ)
insert_sorted k [] = k ∷ []
insert_sorted k (x ∷ xs) =
    let rest = insert_sorted k xs in if bytes_blt x k then x ∷ rest else k ∷ x ∷ xs

unfoldable pub sort : List (List ℕ) → List (List ℕ)
sort [] = []
sort (x ∷ xs) = insert_sorted x (sort xs)

unfoldable pub repeats_after : List ℕ → List (List ℕ) → Bool
repeats_after k [] = false
repeats_after k (x ∷ xs) = let rest = repeats_after x xs in if bytes_beq x k then true else rest

unfoldable pub has_repeat : List (List ℕ) → Bool
has_repeat [] = false
has_repeat (x ∷ xs) = repeats_after x xs

unfoldable pub is_valid : MultisigPolicy → Bool
is_valid p =
    if p.m == 0 || ltb (length p.pubkeys) p.m
    then false
    else if ltb max_keys (length p.pubkeys)
    then false
    else not (has_repeat (sort p.pubkeys))

unfoldable pub has_key : List ℕ → List (List ℕ) → Bool
has_key k [] = false
has_key k (x ∷ xs) = bytes_beq x k || has_key k xs

unfoldable pub add_pub_key : List ℕ → MultisigPolicy → Bool × MultisigPolicy
add_pub_key k p =
    if leb max_keys (length p.pubkeys)
    then (false, p)
    else if has_key k p.pubkeys
    then (false, p)
    else (true, record p { pubkeys = p.pubkeys ++ k ∷ [] })

unfoldable pub join : List (List ℕ) → List ℕ
join [] = []
join (k ∷ ks) = k ++ join ks

unfoldable pub serialize_policy : MultisigPolicy → List ℕ
serialize_policy p = p.m ∷ length p.pubkeys % 256 ∷ join p.pubkeys

unfoldable pub read_keys : ℕ → List ℕ → List (List ℕ) × List ℕ
read_keys zero input = ([], input)
read_keys (suc n) input =
    let (keys, rest) = read_keys n (drop 33 input) in (take 33 input ∷ keys, rest)

-- The position has moved past the two bytes where the test of the keys refuses.
unfoldable pub deserialize_policy : List ℕ → MultisigPolicy × List ℕ
deserialize_policy [] = (no_policy, [])
deserialize_policy (m ∷ []) = (no_policy, m ∷ [])
deserialize_policy (m ∷ n ∷ input) =
    let (keys, rest) = read_keys n input in
    if ltb max_keys n || ltb (length input) (n * 33)
    then (no_policy, input)
    else (record { m = m; pubkeys = keys }, rest)

-- The signatures with the index of their key.
pub record AggregatedSignature : Type 0 where
  pub signatures : List (ℕ × List ℕ)

abbrev pub no_signatures : AggregatedSignature
no_signatures = record { signatures = [] }

unfoldable pub has_index : ℕ → List (ℕ × List ℕ) → Bool
has_index i [] = false
has_index i ((j, s) ∷ sigs) = j == i || has_index i sigs

unfoldable pub has_signature : ℕ → AggregatedSignature → Bool
has_signature i a = has_index i a.signatures

unfoldable pub add_signature : ℕ → List ℕ → AggregatedSignature → AggregatedSignature
add_signature i s a =
    if has_index i a.signatures then a else record { signatures = a.signatures ++ (i, s) ∷ [] }

unfoldable pub join_signatures : List (ℕ × List ℕ) → List ℕ
join_signatures [] = []
join_signatures ((i, s) ∷ sigs) = i ∷ s ++ join_signatures sigs

unfoldable pub serialize_signatures : AggregatedSignature → List ℕ
serialize_signatures a = length a.signatures % 256 ∷ join_signatures a.signatures

unfoldable pub read_signatures : ℕ → List ℕ → AggregatedSignature → AggregatedSignature × List ℕ
read_signatures zero input a = (a, input)
read_signatures (suc n) input a =
    read_signatures n (drop 65 input) (add_signature (byte input 0) (take 64 (drop 1 input)) a)

unfoldable pub deserialize_signatures : List ℕ → AggregatedSignature × List ℕ
deserialize_signatures [] = (no_signatures, [])
deserialize_signatures (count ∷ input) =
    if ltb max_keys count || ltb (length input) (count * 65)
    then (no_signatures, input)
    else read_signatures count input no_signatures

-- `pubkeys[key_index]`, for an index that was tested.
unfoldable pub key_at : ℕ → List (List ℕ) → List ℕ
key_at i [] = []
key_at zero (k ∷ ks) = k
key_at (suc i) (k ∷ ks) = key_at i ks

-- `sha256` is `crypto::SHA256::Hash256`, `schnorr_verify` is `crypto::Schnorr::Verify`.
module _ (sha256 : List ℕ → Hash) (schnorr_verify : List ℕ → Hash → List ℕ → Bool) where
  -- The first byte of the 33-byte key is left out.
  unfoldable pub verify_schnorr_signature : List ℕ → List ℕ → List ℕ → Bool
  verify_schnorr_signature pubkey sig message = schnorr_verify (drop 1 pubkey) (sha256 message) sig

  -- The loop over the signatures with its 8-bit counter; an index out of range ends it.
  unfoldable pub count_valid : MultisigPolicy → List ℕ → List (ℕ × List ℕ) → ℕ → Option ℕ
  count_valid p message [] count = some count
  count_valid p message ((i, s) ∷ sigs) count =
      if not (ltb i (get_n p))
      then none
      else count_valid p message sigs (
          if verify_schnorr_signature (key_at i p.pubkeys) s message
          then (count + 1) % 256
          else count)

  unfoldable pub verify_signatures : MultisigPolicy → AggregatedSignature → List ℕ → Bool
  verify_signatures p a message =
      if not (is_valid p)
      then false
      else if ltb (length a.signatures) p.m
      then false
      else elim (count_valid p message a.signatures 0) [ none ↦ false | some count ↦ leb p.m count ]
