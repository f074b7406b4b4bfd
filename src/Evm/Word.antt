-- ===== src/Evm/Word.antt =====
-- The 256-bit words of the virtual machine and their operations
-- (layer3-obolos/evm/state.h and vm.cpp): 32 bytes, the most significant first.
pub mod Value
pub mod Linear
pub mod Bits
pub mod Division
pub mod Product
use Prim.Native.Nat.{bit_and, bit_or, bit_xor}
use pantheon_chain.Prelude.{
  ℕ, zero, suc, ◌+◌, ◌-◌, ◌*◌, ◌/◌, ◌%◌, ◌^◌, Bool, true, false, not, ◌&&◌, List, [], ◌∷◌, ◌++◌,
  ltb, leb, ◌==◌, if◌then◌else◌, take, drop,
}
use pantheon_chain.Prelude.Words.{u64_mod, byte_at}
use pantheon_chain.Prelude.Maps.{bytes_beq}
use pantheon_chain.Primitives.Bytes.{byte}
use pantheon_chain.Primitives.Transaction.{zero_hash}

-- `uint256_t`
abbrev pub Word : Type 0
Word = List ℕ

abbrev pub zeros : ℕ → List ℕ
zeros zero = []
zeros (suc n) = 0 ∷ zeros n

unfoldable pub to_uint256 : ℕ → Word
to_uint256 v =
    zeros 24
    ++ byte_at v 56
      ∷ byte_at v 48
      ∷ byte_at v 40
      ∷ byte_at v 32
      ∷ byte_at v 24
      ∷ byte_at v 16
      ∷ byte_at v 8
      ∷ byte_at v 0
      ∷ []

-- The bytes are joined by `|` at disjoint positions, which is addition.
unfoldable pub to_uint64 : Word → ℕ
to_uint64 w =
    byte w 31
    + byte w 30 * 2 ^ 8
    + byte w 29 * 2 ^ 16
    + byte w 28 * 2 ^ 24
    + byte w 27 * 2 ^ 32
    + byte w 26 * 2 ^ 40
    + byte w 25 * 2 ^ 48
    + byte w 24 * 2 ^ 56

-- The loops from the last byte to the first, with the carry that each step hands to the next.
unfoldable pub add_from : Word → Word → Word × ℕ
add_from [] ys = ([], 0)
add_from (x ∷ xs) [] = ([], 0)
add_from (x ∷ xs) (y ∷ ys) =
    let (rest, carry) = add_from xs ys in ((x + y + carry) % 256 ∷ rest, (x + y + carry) / 256)

unfoldable pub add : Word → Word → Word
add a b = (add_from a b).0

-- A byte difference below zero gains 256 and borrows.
unfoldable pub sub_from : Word → Word → Word × ℕ
sub_from [] ys = ([], 0)
sub_from (x ∷ xs) [] = ([], 0)
sub_from (x ∷ xs) (y ∷ ys) =
    let (rest, borrow) = sub_from xs ys in
    if ltb x (y + borrow) then ((x + 256 - y - borrow) ∷ rest, 1) else ((x - y - borrow) ∷ rest, 0)

unfoldable pub sub : Word → Word → Word
sub a b = (sub_from a b).0

-- The loop over the bytes of `a` for one byte of the multiplier, from the last byte to the first.
unfoldable pub mul_row : Word → ℕ → Word → Word × ℕ
mul_row [] k rs = ([], 0)
mul_row (x ∷ xs) k [] = ([], 0)
mul_row (x ∷ xs) k (r ∷ rs) =
    let (rest, carry) = mul_row xs k rs in
    ((x * k + r + carry) % 256 ∷ rest, (x * k + r + carry) / 256)

-- For the byte `i` of the multiplier, byte `j` of `a` meets byte `j + (31 - i)` of the result, and is
-- skipped where there is none: bytes 0 to `i` of `a` meet the bytes of the result from `31 - i` on.
unfoldable pub mul_byte : Word → ℕ → ℕ → Word → Word
mul_byte a i k result =
    if k == 0
    then result
    else take (31 - i) result ++ (mul_row (take (suc i) a) k (drop (31 - i) result)).0

unfoldable pub mul_loop : ℕ → Word → Word → Word → Word
mul_loop zero a b result = result
mul_loop (suc i) a b result = mul_loop i a b (mul_byte a i (byte b i) result)

unfoldable pub mul : Word → Word → Word
mul a b = mul_loop 32 a b zero_hash

unfoldable pub lt : Word → Word → Bool
lt [] ys = false
lt (x ∷ xs) [] = false
lt (x ∷ xs) (y ∷ ys) =
    let rest = lt xs ys in if ltb x y then true else if ltb y x then false else rest

unfoldable pub gt : Word → Word → Bool
gt a b = lt b a

unfoldable pub eq : Word → Word → Bool
eq a b = bytes_beq a b

unfoldable pub is_zero : Word → Bool
is_zero [] = true
is_zero (x ∷ xs) = let rest = is_zero xs in if not (x == 0) then false else rest

-- The bits of a word, from the most significant: bit `i` is `(a[i / 8] >> (7 - i % 8)) & 1`.
unfoldable pub bits_of : Word → List ℕ
bits_of [] = []
bits_of (x ∷ xs) =
    x / 128 % 2
    ∷ x / 64 % 2
    ∷ x / 32 % 2
    ∷ x / 16 % 2
    ∷ x / 8 % 2
    ∷ x / 4 % 2
    ∷ x / 2 % 2
    ∷ x % 2
    ∷ bits_of xs

-- The bytes whose bits these are.
unfoldable pub pack : List ℕ → Word
pack (a ∷ b ∷ c ∷ d ∷ e ∷ f ∷ g ∷ h ∷ ds) =
    (a * 128 + b * 64 + c * 32 + d * 16 + e * 8 + f * 4 + g * 2 + h) ∷ pack ds
pack _ = []

-- `remainder` shifted left by one. The bit that the source then sets in the last byte, whose lowest bit
-- is 0 after the shift, is the carry into that byte.
unfoldable pub shift_in : ℕ → Word → Word × ℕ
shift_in bit [] = ([], bit)
shift_in bit (x ∷ xs) =
    let (rest, carry) = shift_in bit xs in ((x * 2 + carry) % 256 ∷ rest, (x * 2 + carry) / 256)

-- The loop of long division over the bits of the dividend: the bits of the quotient, and the remainder.
unfoldable pub long_division : List ℕ → Word → Word → List ℕ × Word
long_division [] b remainder = ([], remainder)
long_division (d ∷ ds) b remainder =
    let shifted = (shift_in d remainder).0 in
    elim (lt shifted b) [
      | true ↦ let (qs, r) = long_division ds b shifted in (0 ∷ qs, r)
      | false ↦ let (qs, r) = long_division ds b (sub shifted b) in (1 ∷ qs, r)
    ]

unfoldable pub div : Word → Word → Word
div a b = if is_zero b then zero_hash else pack (long_division (bits_of a) b zero_hash).0

unfoldable pub mod' : Word → Word → Word
mod' a b = if is_zero b then zero_hash else (long_division (bits_of a) b zero_hash).1

-- The loop of `Exp` over the bits of the exponent, from the least significant.
unfoldable pub exp_loop : ℕ → ℕ → Word → Word → Word → Word
exp_loop zero i exponent current result = result
exp_loop (suc n) i exponent current result =
    let result' =
      if byte exponent (31 - i / 8) / 2 ^ (i % 8) % 2 == 1 then mul result current else result in
    let squared = mul current current in
    elim (is_zero squared) [
      | true ↦ result'
      | false ↦ elim (eq squared (to_uint256 1) && not (eq result' (to_uint256 1))) [
        | true ↦ result'
        | false ↦ exp_loop n (suc i) exponent squared result'
      ]
    ]

unfoldable pub exp : Word → Word → Word
exp base exponent =
    if is_zero exponent
    then to_uint256 1
    else if is_zero base
    then zero_hash
    else exp_loop 256 0 exponent base (to_uint256 1)

unfoldable pub map_two : (ℕ → ℕ → ℕ) → Word → Word → Word
map_two f [] ys = []
map_two f (x ∷ xs) [] = []
map_two f (x ∷ xs) (y ∷ ys) = f x y ∷ map_two f xs ys

unfoldable pub and' : Word → Word → Word
and' a b = map_two bit_and a b

unfoldable pub or' : Word → Word → Word
or' a b = map_two bit_or a b

unfoldable pub xor' : Word → Word → Word
xor' a b = map_two bit_xor a b

unfoldable pub not' : Word → Word
not' [] = []
not' (x ∷ xs) = (255 - x) ∷ not' xs

-- The part of a shift below a byte, to the left and to the right.
unfoldable pub shift_left_bits : ℕ → Word → Word × ℕ
shift_left_bits n [] = ([], 0)
shift_left_bits n (x ∷ xs) =
    let (rest, carry) = shift_left_bits n xs in ((x * 2 ^ n % 256 + carry) ∷ rest, x / 2 ^ (8 - n))

unfoldable pub shift_right_bits : ℕ → ℕ → Word → Word
shift_right_bits n carry [] = []
shift_right_bits n carry (x ∷ xs) =
    (x / 2 ^ n + carry) ∷ shift_right_bits n (x * 2 ^ (8 - n) % 256) xs

unfoldable pub shl : Word → Word → Word
shl shift value =
    if leb 256 (to_uint64 shift)
    then zero_hash
    else let bytes = to_uint64 shift / 8 in
      let moved = drop bytes value ++ zeros bytes in
      if ltb 0 (to_uint64 shift % 8) then (shift_left_bits (to_uint64 shift % 8) moved).0 else moved

unfoldable pub shr : Word → Word → Word
shr shift value =
    if leb 256 (to_uint64 shift)
    then zero_hash
    else let bytes = to_uint64 shift / 8 in
      let moved = zeros bytes ++ take (32 - bytes) value in
      if ltb 0 (to_uint64 shift % 8) then shift_right_bits (to_uint64 shift % 8) 0 moved else moved
