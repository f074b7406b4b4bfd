-- ===== src/Primitives/Wire/Sizes.antt =====
-- What `TxOutput::Deserialize` of transaction.cpp does with every declared script size.
use pantheon_chain.Prelude.{
  ℕ, ◌^◌, ◌<◌, ◌≤◌, ◌≡◌, inl, inr, Bool-cases, ltb→le, le→leb, lt→leb, List, ◌++◌, ltb,
  if◌then◌else◌, length, take, drop, arith,
}
use pantheon_chain.Prelude.Words.{u64_mod}
use pantheon_chain.Primitives.Compact.{
  parsed, rejected, thrown, ◌>>=◌, Parse, write_compact_size, read-write_compact_size,
}
use pantheon_chain.Primitives.Asset
use pantheon_chain.Primitives.Transaction.{TxOutput}
use pantheon_chain.Primitives.Wire.{deserialize_output, read_pubkey_script, short_of, resize_copy}
use pantheon_chain.Primitives.Wire.Items.{not_short, drop_of_length, length-serialize_amount}

-- A size below 2^63 is refused or copied by comparing it with the bytes left; a larger one throws.
abbrev pub outcome : Asset.AssetAmount → ℕ → List ℕ → Parse TxOutput
outcome v n rest =
    if ltb n (2 ^ 63)
    then if ltb (length rest) n
      then rejected
      else parsed (record { value = v; pubkey_script = take n rest }) (drop n rest)
    else thrown

resize_copy_within :
    (n : ℕ) (rest : List ℕ)
    → n ≤ length rest
    → resize_copy n rest ≡ parsed (take n rest) (drop n rest)
unfolding resize_copy
resize_copy_within n rest h = rw (le→leb n (length rest) h)

resize_copy_beyond : (n : ℕ) (rest : List ℕ) → length rest < n → resize_copy n rest ≡ thrown
unfolding resize_copy
resize_copy_beyond n rest h = rw (lt→leb n (length rest) h)

read_pubkey_script-outcome :
    (v : Asset.AssetAmount) (n : ℕ) (rest : List ℕ)
    → length rest < 2 ^ 63
    → read_pubkey_script v n rest ≡ outcome v n rest
unfolding read_pubkey_script short_of
read_pubkey_script-outcome v n rest h = elim (Bool-cases (ltb n (2 ^ 63))) [
  | inl small ↦ elim (Bool-cases (ltb (length rest) n)) [
    | inl short ↦ rw (small, short)
    | inr enough ↦
        rw (small, enough) (rw (resize_copy_within n rest (ltb→le (length rest) n enough), ◌>>=◌))
  ]
  | inr large ↦
      let past : 2 ^ 63 ≤ n = ltb→le n (2 ^ 63) large in
      rw large (rw (resize_copy_beyond n rest (omega (arith, past)), ◌>>=◌))
]

-- With fewer than 2^63 bytes after it, a declared script size from 2^63 on makes the reader throw, and
-- any smaller size is refused if too few bytes are left and is copied otherwise.
pub deserialize_output-outcome :
    (v : Asset.AssetAmount) (n : ℕ) (rest : List ℕ)
    → Asset.IsAssetAmount v
    → n < u64_mod
    → length rest < 2 ^ 63
    → deserialize_output (Asset.serialize v ++ (write_compact_size n ++ rest)) ≡ outcome v n rest
unfolding deserialize_output
deserialize_output-outcome v n rest h p q =
    rw
      (
        not_short 9 (Asset.serialize v) (write_compact_size n ++ rest)
            (omega (arith, length-serialize_amount v)),
        Asset.deserialize-serialize v (write_compact_size n ++ rest) h,
        drop_of_length 9 (Asset.serialize v) (write_compact_size n ++ rest)
            (length-serialize_amount v),
      )
      (rw (read-write_compact_size n rest p, ◌>>=◌) (read_pubkey_script-outcome v n rest q))
