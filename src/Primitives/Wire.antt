-- ===== src/Primitives/Wire.antt =====
-- The byte encoding of transactions and its reader (layer1-talanton/core/primitives/transaction.cpp).
-- A buffer is the list of the bytes that are left; `input` and `end` of the source are its two ends.
pub mod Items
pub mod RoundTrip
pub mod Signing
pub mod Sizes
use pantheon_chain.Prelude.{
  ℕ, zero, suc, ◌^◌, List, [], ◌∷◌, ◌++◌, Bool, ◌&&◌, ltb, leb, ◌==◌, if◌then◌else◌, length, take,
  drop,
}
use pantheon_chain.Prelude.Words.{add64}
use pantheon_chain.Primitives.Bytes.{write_u32, read_u32}
use pantheon_chain.Primitives.Compact.{
  Parse, Parser, parsed, rejected, thrown, ◌>>=◌, pure, write_compact_size,
  read_compact_size_checked,
}
use pantheon_chain.Primitives.Asset
use pantheon_chain.Primitives.Transaction.{OutPoint, TxInput, TxOutput, Transaction}

unfoldable pub serialize_outpoint : OutPoint → List ℕ
serialize_outpoint o = o.txid ++ write_u32 o.vout

pub deserialize_outpoint : List ℕ → OutPoint
deserialize_outpoint input = record { txid = take 32 input; vout = read_u32 (drop 32 input) }

unfoldable pub serialize_input : TxInput → List ℕ
serialize_input i =
    serialize_outpoint i.prevout
    ++ (write_compact_size (length i.signature_script)
        ++ (i.signature_script ++ write_u32 i.sequence))

-- `end - input < static_cast<ptrdiff_t>(n)`: the cast of 2^63 or more is negative.
pub short_of : ℕ → List ℕ → Bool
short_of n input = ltb n (2 ^ 63) && ltb (length input) n

-- `resize(n)` and the copy of `n` bytes. After the tests of the two callers an `n` beyond the bytes left
-- is 2^63 - 4 or more, and `resize` throws (`std::length_error` or `std::bad_alloc`).
pub resize_copy : ℕ → Parser (List ℕ)
resize_copy n input = if leb n (length input) then parsed (take n input) (drop n input) else thrown

read_sequence : Parser ℕ
read_sequence input = parsed (read_u32 input) (drop 4 input)

read_script_sequence : OutPoint → ℕ → Parser TxInput
read_script_sequence prevout script_len input =
    if short_of (add64 script_len 4) input
    then rejected
    else (do
      script ← resize_copy script_len
      sequence ← read_sequence
      pure (record { prevout = prevout; signature_script = script; sequence = sequence }))
        input

pub deserialize_input : Parser TxInput
deserialize_input input =
    if ltb (length input) 36
    then rejected
    else (read_compact_size_checked >>= read_script_sequence (deserialize_outpoint input))
        (drop 36 input)

unfoldable pub serialize_output : TxOutput → List ℕ
serialize_output o =
    Asset.serialize o.value ++ (write_compact_size (length o.pubkey_script) ++ o.pubkey_script)

read_pubkey_script : Asset.AssetAmount → ℕ → Parser TxOutput
read_pubkey_script value script_len input =
    if short_of script_len input
    then rejected
    else (do
      script ← resize_copy script_len
      pure (record { value = value; pubkey_script = script }))
        input

pub deserialize_output : Parser TxOutput
deserialize_output input =
    if ltb (length input) 9
    then rejected
    else (read_compact_size_checked >>= read_pubkey_script (Asset.deserialize input)) (drop 9 input)

-- The loops over inputs and outputs.
unfoldable pub serialize_all {ℓ} : {A : Type ℓ} → (A → List ℕ) → List A → List ℕ
serialize_all f [] = []
serialize_all f (x ∷ xs) = f x ++ serialize_all f xs

pub deserialize_all {ℓ} : {A : Type ℓ} → Parser A → ℕ → Parser (List A)
deserialize_all p zero = pure []
deserialize_all p (suc n) = do x ← p; xs ← deserialize_all p n; pure (x ∷ xs)

unfoldable pub serialize : Transaction → List ℕ
serialize tx =
    write_u32 tx.version
    ++ (write_compact_size (length tx.inputs)
        ++ (serialize_all serialize_input tx.inputs
            ++ (write_compact_size (length tx.outputs)
                ++ (serialize_all serialize_output tx.outputs ++ write_u32 tx.locktime))))

-- A 4-byte word, if there are four bytes left.
pub read_word : Parser ℕ
read_word input = if ltb (length input) 4 then rejected else parsed (read_u32 input) (drop 4 input)

abbrev pub max_count : ℕ
max_count = 100_000

-- A count, its sanity check, and that many items.
pub counted {ℓ} : {A : Type ℓ} → Parser A → ℕ → Parser (List A)
counted p count input = if ltb max_count count then rejected else deserialize_all p count input

-- `Deserialize(data, len, consumed)`: `consumed` is what the rest lacks of `len`.
pub deserialize_prefix : Parser Transaction
deserialize_prefix input =
    if ltb (length input) 10
    then rejected
    else (do
      version ← read_word
      input_count ← read_compact_size_checked
      inputs ← counted deserialize_input input_count
      output_count ← read_compact_size_checked
      outputs ← counted deserialize_output output_count
      locktime ← read_word
      pure (record { version = version; inputs = inputs; outputs = outputs; locktime = locktime }))
        input

-- `Deserialize(data, len)` wants every byte consumed.
pub deserialize : List ℕ → Parse Transaction
deserialize input = elim (deserialize_prefix input) [
  | parsed tx rest ↦ if length rest == 0 then parsed tx rest else rejected
  | rejected ↦ rejected
  | thrown ↦ thrown
]
