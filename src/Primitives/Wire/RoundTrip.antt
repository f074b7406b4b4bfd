-- ===== src/Primitives/Wire/RoundTrip.antt =====
-- Reading a transaction back: `Deserialize` of transaction.cpp undoes `Serialize`.
use pantheon_chain.Prelude.{
  ℕ, ◌<◌, ◌≤◌, ◌≡◌, refl, List, [], ◌∷◌, ◌++◌, append_assoc, append-nil, le→ltb, length,
  length-append, All, arith,
}
use pantheon_chain.Prelude.Words.{u32_mod}
use pantheon_chain.Primitives.Bytes.{write_u32, read-write_u32}
use pantheon_chain.Primitives.Compact.{
  Parser, parsed, ◌>>=◌, write_compact_size, read-write_compact_size, length-write_compact_size,
}
use pantheon_chain.Primitives.Transaction.{Transaction}
use pantheon_chain.Primitives.Wire.{
  serialize_input, deserialize_input, serialize_output, deserialize_output, serialize_all,
  deserialize_all, serialize, deserialize, deserialize_prefix, read_word, counted, max_count,
}
use pantheon_chain.Primitives.Wire.Items.{
  IsInput, IsOutput, drop_of_length, not_short, length-write_u32, deserialize-serialize_input,
  deserialize-serialize_output,
}

-- The words of the transaction are in range, and its counts pass the sanity checks.
pub record IsTransaction (tx : Transaction) : Type 0 where
  pub version_word : tx.version < u32_mod
  pub input_count : length tx.inputs ≤ max_count
  pub each_input : All IsInput tx.inputs
  pub output_count : length tx.outputs ≤ max_count
  pub each_output : All IsOutput tx.outputs
  pub locktime_word : tx.locktime < u32_mod

-- A list of items is read back if each item is.
pub deserialize-serialize_all {ℓ κ} :
    {A : Type ℓ} (Ok : A → Type κ) (p : Parser A) (f : A → List ℕ)
    → ((x : A) (rest : List ℕ) → Ok x → p (f x ++ rest) ≡ parsed x rest)
    → (xs : List A) (rest : List ℕ) → All Ok xs
    → deserialize_all p (length xs) (serialize_all f xs ++ rest) ≡ parsed xs rest
unfolding deserialize_all serialize_all
deserialize-serialize_all Ok p f each [] rest h = refl
deserialize-serialize_all Ok p f each (x ∷ xs) rest h = rw (
  append_assoc (f x) (serialize_all f xs) rest,
  each x (serialize_all f xs ++ rest) h.0,
  deserialize-serialize_all Ok p f each xs rest h.1,
  ◌>>=◌,
)

counted_lem {ℓ κ} :
    {A : Type ℓ} (Ok : A → Type κ) (p : Parser A) (f : A → List ℕ)
    → ((x : A) (rest : List ℕ) → Ok x → p (f x ++ rest) ≡ parsed x rest)
    → (xs : List A) (rest : List ℕ) → length xs ≤ max_count
    → All Ok xs
    → counted p (length xs) (serialize_all f xs ++ rest) ≡ parsed xs rest
unfolding counted
counted_lem Ok p f each xs rest n h =
    rw (le→ltb max_count (length xs) n) (deserialize-serialize_all Ok p f each xs rest h)

read_word_lem :
    (v : ℕ) (rest : List ℕ) → v < u32_mod → read_word (write_u32 v ++ rest) ≡ parsed v rest
unfolding read_word
read_word_lem v rest h = rw (
  not_short 4 (write_u32 v) rest (omega (arith, length-write_u32 v)),
  read-write_u32 v rest h,
  drop_of_length 4 (write_u32 v) rest (length-write_u32 v),
)

pub length-serialize : (tx : Transaction) → 10 ≤ length (serialize tx)
unfolding serialize
length-serialize tx = grind (
  arith,
  length-append,
  length-write_u32 tx.version,
  length-write_u32 tx.locktime,
  length-write_compact_size (length tx.inputs),
  length-write_compact_size (length tx.outputs),
)

-- A transaction whose fields fit their C++ types, with at most 100,000 inputs and 100,000 outputs, is
-- read back from its bytes, whatever follows them.
pub deserialize_prefix-serialize :
    (tx : Transaction) (rest : List ℕ)
    → IsTransaction tx
    → deserialize_prefix (serialize tx ++ rest) ≡ parsed tx rest
unfolding deserialize_prefix serialize
deserialize_prefix-serialize tx rest h =
    let lock = write_u32 tx.locktime ++ rest in
    let outs = serialize_all serialize_output tx.outputs ++ lock in
    let m = write_compact_size (length tx.outputs) ++ outs in
    let ins = serialize_all serialize_input tx.inputs ++ m in
    let n = write_compact_size (length tx.inputs) ++ ins in
    rw (not_short 10 (serialize tx) rest (length-serialize tx)) (
      simp append_assoc (
        rw (
          read_word_lem tx.version n h.version_word,
          read-write_compact_size (length tx.inputs) ins (omega (arith, h.input_count)),
          counted_lem IsInput deserialize_input serialize_input deserialize-serialize_input
              tx.inputs m h.input_count h.each_input,
          read-write_compact_size (length tx.outputs) outs (omega (arith, h.output_count)),
          counted_lem IsOutput deserialize_output serialize_output deserialize-serialize_output
              tx.outputs lock h.output_count h.each_output,
          read_word_lem tx.locktime rest h.locktime_word,
          ◌>>=◌,
        )))

-- A transaction whose fields fit their C++ types is what `Deserialize` returns on the bytes of
-- `Serialize`.
pub deserialize-serialize_transaction :
    (tx : Transaction) → IsTransaction tx → deserialize (serialize tx) ≡ parsed tx []
unfolding deserialize
deserialize-serialize_transaction tx h =
    rw (← append-nil (serialize tx)) (rw (deserialize_prefix-serialize tx [] h, deserialize))
