-- ===== src/Primitives/Wire/Items.antt =====
-- Reading an outpoint, an input and an output of transaction.cpp back from what was written for it.
use pantheon_chain.Prelude.{
  ℕ, ◌-◌, ◌^◌, ◌<◌, ◌≤◌, ◌≡◌, refl, List, ◌++◌, append_assoc, false, ltb, length, length-append,
  take, drop, take-length_append, drop-length_append, arith,
}
use pantheon_chain.Prelude.Words.{u32_mod, add64}
use pantheon_chain.Primitives.Bytes.{write_u32, read-write_u32, write_u64}
use pantheon_chain.Primitives.Compact.{parsed, ◌>>=◌, write_compact_size, read-write_compact_size}
use pantheon_chain.Primitives.Asset
use pantheon_chain.Primitives.Transaction.{OutPoint, TxInput, TxOutput}
use pantheon_chain.Primitives.Wire.{
  serialize_outpoint, deserialize_outpoint, serialize_input, deserialize_input, serialize_output,
  deserialize_output, short_of, resize_copy, read_sequence, read_script_sequence,
  read_pubkey_script,
}

-- The values that the C++ types hold: words in range, 32-byte ids, scripts that fit in memory.
abbrev pub max_script : ℕ
max_script = 2 ^ 63 - 5

pub record IsOutPoint (o : OutPoint) : Type 0 where
  pub id_bytes : length o.txid ≡ 32
  pub vout_word : o.vout < u32_mod

pub record IsInput (i : TxInput) : Type 0 where
  pub point : IsOutPoint i.prevout
  pub script_fits : length i.signature_script ≤ max_script
  pub sequence_word : i.sequence < u32_mod

pub record IsOutput (o : TxOutput) : Type 0 where
  pub amount : Asset.IsAssetAmount o.value
  pub script_fits : length o.pubkey_script ≤ max_script

pub take_of_length : (n : ℕ) (xs ys : List ℕ) → length xs ≡ n → take n (xs ++ ys) ≡ xs
take_of_length n xs ys h = rw (← h) (take-length_append xs ys)

pub drop_of_length : (n : ℕ) (xs ys : List ℕ) → length xs ≡ n → drop n (xs ++ ys) ≡ ys
drop_of_length n xs ys h = rw (← h) (drop-length_append xs ys)

pub not_short : (n : ℕ) (xs ys : List ℕ) → n ≤ length xs → ltb (length (xs ++ ys)) n ≡ false
not_short n xs ys h = ground (arith, length-append xs ys)

pub length-write_u32 : (v : ℕ) → length (write_u32 v) ≡ 4
unfolding write_u32
length-write_u32 v = refl

length-serialize_outpoint : (o : OutPoint) → IsOutPoint o → length (serialize_outpoint o) ≡ 36
unfolding serialize_outpoint
length-serialize_outpoint o h =
    omega (arith, length-append o.txid (write_u32 o.vout), length-write_u32 o.vout, h.id_bytes)

pub deserialize-serialize_outpoint :
    (o : OutPoint) (rest : List ℕ)
    → IsOutPoint o
    → deserialize_outpoint (serialize_outpoint o ++ rest) ≡ o
unfolding deserialize_outpoint serialize_outpoint
deserialize-serialize_outpoint o rest h = rw (
  append_assoc o.txid (write_u32 o.vout) rest,
  take_of_length 32 o.txid (write_u32 o.vout ++ rest) h.id_bytes,
  drop_of_length 32 o.txid (write_u32 o.vout ++ rest) h.id_bytes,
  read-write_u32 o.vout rest h.vout_word,
)

resize_copy_lem : (xs rest : List ℕ) → resize_copy (length xs) (xs ++ rest) ≡ parsed xs rest
unfolding resize_copy
resize_copy_lem xs rest =
    rw (take-length_append xs rest, drop-length_append xs rest)
      (ground (arith, length-append xs rest))

read_sequence_lem :
    (v : ℕ) (rest : List ℕ) → v < u32_mod → read_sequence (write_u32 v ++ rest) ≡ parsed v rest
unfolding read_sequence
read_sequence_lem v rest h =
    rw (read-write_u32 v rest h, drop_of_length 4 (write_u32 v) rest (length-write_u32 v))

short_of_script :
    (n k : ℕ) (xs ys : List ℕ)
    → length xs ≡ n
    → n ≤ max_script
    → k ≤ length ys
    → k ≤ 4
    → short_of (add64 n k) (xs ++ ys) ≡ false
unfolding short_of
short_of_script n k xs ys e h p q = ground (arith, length-append xs ys)

read_script_sequence_lem :
    (i : TxInput) (rest : List ℕ)
    → IsInput i
    → read_script_sequence i.prevout
        (length i.signature_script)
        (i.signature_script ++ (write_u32 i.sequence ++ rest))
      ≡ parsed i rest
unfolding read_script_sequence
read_script_sequence_lem i rest h =
    rw
      (short_of_script (length i.signature_script) 4 i.signature_script
        (write_u32 i.sequence ++ rest) refl h.script_fits
        (omega (arith, length-append (write_u32 i.sequence) rest, length-write_u32 i.sequence))
        (omega arith))
      (rw (
        resize_copy_lem i.signature_script (write_u32 i.sequence ++ rest),
        read_sequence_lem i.sequence rest h.sequence_word,
        ◌>>=◌,
      ))

-- An input is read back from its bytes, whatever follows them.
pub deserialize-serialize_input :
    (i : TxInput) (rest : List ℕ)
    → IsInput i
    → deserialize_input (serialize_input i ++ rest) ≡ parsed i rest
unfolding deserialize_input serialize_input
deserialize-serialize_input i rest h = rw (append_assoc (serialize_outpoint i.prevout) _ rest) (
    rw
      (not_short 36 (serialize_outpoint i.prevout) _
        (omega (arith, length-serialize_outpoint i.prevout h.point)))
      (rw
        (
          deserialize-serialize_outpoint i.prevout _ h.point,
          drop_of_length 36 (serialize_outpoint i.prevout) _
              (length-serialize_outpoint i.prevout h.point),
          append_assoc (write_compact_size (length i.signature_script)) _ rest,
          append_assoc i.signature_script _ rest,
        )
        (rw
          (
            read-write_compact_size (length i.signature_script)
                (i.signature_script ++ (write_u32 i.sequence ++ rest))
                (omega (arith, h.script_fits)),
            ◌>>=◌,
          )
          (read_script_sequence_lem i rest h))))

pub length-serialize_amount : (v : Asset.AssetAmount) → length (Asset.serialize v) ≡ 9
unfolding Asset.serialize write_u64
length-serialize_amount v = refl

short_of_pubkey :
    (xs ys : List ℕ) → length xs ≤ max_script → short_of (length xs) (xs ++ ys) ≡ false
unfolding short_of
short_of_pubkey xs ys h = ground (arith, length-append xs ys)

read_pubkey_script_lem :
    (o : TxOutput) (rest : List ℕ)
    → IsOutput o
    → read_pubkey_script o.value (length o.pubkey_script) (o.pubkey_script ++ rest) ≡ parsed o rest
unfolding read_pubkey_script
read_pubkey_script_lem o rest h =
    rw (short_of_pubkey o.pubkey_script rest h.script_fits)
      (rw (resize_copy_lem o.pubkey_script rest, ◌>>=◌))

-- An output is read back from its bytes, whatever follows them.
pub deserialize-serialize_output :
    (o : TxOutput) (rest : List ℕ)
    → IsOutput o
    → deserialize_output (serialize_output o ++ rest) ≡ parsed o rest
unfolding deserialize_output serialize_output
deserialize-serialize_output o rest h =
    let sized = length-serialize_amount o.value in
    let script = write_compact_size (length o.pubkey_script) in
    rw
      (
        append_assoc (Asset.serialize o.value) (script ++ o.pubkey_script) rest,
        append_assoc script o.pubkey_script rest,
      )
      (rw
        (
          not_short 9 (Asset.serialize o.value) (script ++ (o.pubkey_script ++ rest)) (omega arith),
          Asset.deserialize-serialize o.value (script ++ (o.pubkey_script ++ rest)) h.amount,
          drop_of_length 9 (Asset.serialize o.value) (script ++ (o.pubkey_script ++ rest)) sized,
        )
        (rw
          (
            read-write_compact_size (length o.pubkey_script) (o.pubkey_script ++ rest)
                (omega (arith, h.script_fits)),
            ◌>>=◌,
          )
          (read_pubkey_script_lem o rest h)))
