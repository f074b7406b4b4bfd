-- ===== src/Primitives/Compact.antt =====
-- The variable-length sizes of layer1-talanton/core/primitives/transaction.cpp, and the outcome of
-- reading bytes up to the end of a buffer.
use pantheon_chain.Prelude.{
  ℕ, ◌<◌, ◌≤◌, ◌≡◌, List, [], ◌∷◌, ◌++◌, ltb, leb, ◌==◌, if◌then◌else◌, length, drop, arith,
}
use pantheon_chain.Prelude.Words.{u64_mod, byte_at}
use pantheon_chain.Primitives.Bytes.{write_u16, write_u32, write_u64, read_u16, read_u32, read_u64}

-- Reading returns a value and leaves the bytes after it, or it is refused (`nullopt`, `false`), or
-- `resize` to an impossible size throws.
pub data Parse {ℓ} (A : Type ℓ) : Type ℓ where
  parsed : A → List ℕ → Parse A
  rejected : Parse A
  thrown : Parse A

abbrev pub Parser {ℓ} : Type ℓ → Type ℓ
Parser A = List ℕ → Parse A

infixl 5 ◌>>=◌
abbrev pub ◌>>=◌ {ℓ κ} : {A : Type ℓ} {B : Type κ} → Parser A → (A → Parser B) → Parser B
◌>>=◌ p f input = elim (p input) [
  | parsed a rest ↦ f a rest
  | rejected ↦ rejected
  | thrown ↦ thrown
]

abbrev pub pure {ℓ} : {A : Type ℓ} → A → Parser A
pure a input = parsed a input

unfoldable pub write_compact_size : ℕ → List ℕ
write_compact_size size =
    if ltb size 253
    then byte_at size 0 ∷ []
    else if leb size 0xFFFF
    then 253 ∷ write_u16 size
    else if leb size 0xFFFF_FFFF
    then 254 ∷ write_u32 size
    else 255 ∷ write_u64 size

-- `ReadCompactSizeChecked`: a test of the bytes left, then the word.
sized : ℕ → (List ℕ → ℕ) → Parser ℕ
sized n read rest = if ltb (length rest) n then rejected else parsed (read rest) (drop n rest)

pub read_compact_size_checked : Parser ℕ
unfolding sized
read_compact_size_checked [] = rejected
read_compact_size_checked (first ∷ rest) =
    if ltb first 253
    then parsed first rest
    else if first == 253
    then sized 2 read_u16 rest
    else if first == 254
    then sized 4 read_u32 rest
    else sized 8 read_u64 rest

-- Every 64-bit size is read back from what is written for it, whatever follows.
pub read-write_compact_size :
    (size : ℕ) (rest : List ℕ)
    → size < u64_mod
    → read_compact_size_checked (write_compact_size size ++ rest) ≡ parsed size rest
unfolding read_compact_size_checked write_compact_size write_u16 write_u32 write_u64 read_u16
    read_u32 read_u64
read-write_compact_size size rest h = ground arith

-- A size takes one, three, five or nine bytes.
pub length-write_compact_size :
    (size : ℕ) → (1 ≤ length (write_compact_size size)) × (length (write_compact_size size) ≤ 9)
unfolding write_compact_size write_u16 write_u32 write_u64
length-write_compact_size size = ground arith
