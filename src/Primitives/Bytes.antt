-- ===== src/Primitives/Bytes.antt =====
-- The little-endian codes of 16, 32 and 64 bits that layer1-talanton/core/primitives writes out byte by
-- byte, and their readers. The source joins bytes by `|` at disjoint positions, which is addition.
use pantheon_chain.Prelude.{ℕ, zero, suc, ◌+◌, ◌*◌, ◌^◌, ◌<◌, ◌≡◌, List, [], ◌∷◌, ◌++◌, All, arith}
use pantheon_chain.Prelude.Words.{u64_mod, u32_mod, byte_at}

-- `input[i]`; the readers below are called only after a test of the bytes that are left.
abbrev pub byte : List ℕ → ℕ → ℕ
byte [] i = 0
byte (x ∷ xs) zero = x
byte (x ∷ xs) (suc i) = byte xs i

unfoldable pub write_u16 : ℕ → List ℕ
write_u16 v = byte_at v 0 ∷ byte_at v 8 ∷ []

unfoldable pub write_u32 : ℕ → List ℕ
write_u32 v = byte_at v 0 ∷ byte_at v 8 ∷ byte_at v 16 ∷ byte_at v 24 ∷ []

unfoldable pub write_u64 : ℕ → List ℕ
write_u64 v =
    byte_at v 0
    ∷ byte_at v 8
    ∷ byte_at v 16
    ∷ byte_at v 24
    ∷ byte_at v 32
    ∷ byte_at v 40
    ∷ byte_at v 48
    ∷ byte_at v 56
    ∷ []

unfoldable pub read_u16 : List ℕ → ℕ
read_u16 b = byte b 0 + byte b 1 * 2 ^ 8

unfoldable pub read_u32 : List ℕ → ℕ
read_u32 b = byte b 0 + byte b 1 * 2 ^ 8 + byte b 2 * 2 ^ 16 + byte b 3 * 2 ^ 24

unfoldable pub read_u64 : List ℕ → ℕ
read_u64 b =
    byte b 0
    + byte b 1 * 2 ^ 8
    + byte b 2 * 2 ^ 16
    + byte b 3 * 2 ^ 24
    + byte b 4 * 2 ^ 32
    + byte b 5 * 2 ^ 40
    + byte b 6 * 2 ^ 48
    + byte b 7 * 2 ^ 56

abbrev pub IsBytes : List ℕ → Type 0
IsBytes = All (λ b. b < 256)

pub read-write_u16 : (v : ℕ) (rest : List ℕ) → v < 0x10000 → read_u16 (write_u16 v ++ rest) ≡ v
unfolding read_u16 write_u16
read-write_u16 v rest h = omega arith

pub read-write_u32 : (v : ℕ) (rest : List ℕ) → v < u32_mod → read_u32 (write_u32 v ++ rest) ≡ v
unfolding read_u32 write_u32
read-write_u32 v rest h = omega arith

pub read-write_u64 : (v : ℕ) (rest : List ℕ) → v < u64_mod → read_u64 (write_u64 v ++ rest) ≡ v
unfolding read_u64 write_u64
read-write_u64 v rest h = omega arith

pub write_u64-IsBytes : (v : ℕ) → IsBytes (write_u64 v)
unfolding write_u64
write_u64-IsBytes v = omega arith

-- Reading eight bytes and writing them again gives the same bytes.
pub write-read_u64 :
    (a b c d e f g h : ℕ)
    → IsBytes (a ∷ b ∷ c ∷ d ∷ e ∷ f ∷ g ∷ h ∷ [])
    → write_u64 (read_u64 (a ∷ b ∷ c ∷ d ∷ e ∷ f ∷ g ∷ h ∷ [])) ≡ a ∷ b ∷ c ∷ d ∷ e ∷ f ∷ g ∷ h ∷ []
unfolding read_u64 write_u64
write-read_u64 a b c d e f g h k = ground arith
