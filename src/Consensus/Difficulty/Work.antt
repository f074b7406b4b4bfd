-- ===== src/Consensus/Difficulty/Work.antt =====
-- `Compare256` and `CheckProofOfWork` of layer1-talanton/core/consensus/difficulty.cpp compare the
-- numbers that the byte arrays stand for.
use native.Mathlib.Nat.{pow-suc}
use pantheon_chain.Prelude.{
  ℕ, zero, suc, ◌+◌, ◌*◌, ◌^◌, ◌<◌, ◌≤◌, ◌≡◌, ◌↔◌, refl, inl, inr, true, [], ◌∷◌, ltb, Bool-cases,
  ltb→lt, ltb→le, arith,
}
use pantheon_chain.Primitives.Bytes.{byte, IsBytes}
use pantheon_chain.Primitives.Transaction.{Hash}
use pantheon_chain.Consensus.Difficulty.{
  compact_to_bits256, Comparison, less, equal, greater, compare_from, compare256, at_most,
  check_proof_of_work,
}

-- The number whose `n` lowest bytes are those of the array.
unfoldable pub numeral : ℕ → Hash → ℕ
numeral zero a = 0
numeral (suc i) a = numeral i a + byte a i * 256 ^ i

pub byte_lt : (a : Hash) (i : ℕ) → IsBytes a → byte a i < 256
byte_lt [] i h = omega arith
byte_lt (x ∷ xs) zero h = h.0
byte_lt (x ∷ xs) (suc i) h = byte_lt xs i h.1

numeral_lt : (i : ℕ) (a : Hash) → IsBytes a → numeral i a < 256 ^ i
unfolding numeral
numeral_lt zero a h = omega arith
numeral_lt (suc i) a h =
    let digit : byte a i * 256 ^ i ≤ 255 * 256 ^ i = grind (arith, byte_lt a i h) in
    omega (arith, pow-suc 256 i, numeral_lt i a h, digit)

-- A greater digit outweighs all lower ones.
digit_decides : (x y p m n : ℕ) → x < y → m < p → m + x * p < n + y * p
digit_decides x y p m n h k = let above : (x + 1) * p ≤ y * p = grind arith in omega (arith, above)

abbrev Compares : Comparison → ℕ → ℕ → Type 0
Compares less m n = m < n
Compares equal m n = m ≡ n
Compares greater m n = n < m

Compares-add : (c : Comparison) (m n k : ℕ) → Compares c m n → Compares c (m + k) (n + k)
Compares-add less m n k h = omega arith
Compares-add equal m n k h = omega arith
Compares-add greater m n k h = omega arith

compare_from-Compares :
    (i : ℕ) (a b : Hash)
    → IsBytes a
    → IsBytes b
    → Compares (compare_from i a b) (numeral i a) (numeral i b)
unfolding compare_from numeral
compare_from-Compares zero a b p q = refl
compare_from-Compares (suc i) a b p q = elim (Bool-cases (ltb (byte a i) (byte b i))) [
  | inl lt ↦ rw lt (
      digit_decides (byte a i) (byte b i) (256 ^ i) (numeral i a) (numeral i b)
        (ltb→lt (byte a i) (byte b i) lt) (numeral_lt i a p))
  | inr ge ↦ elim (Bool-cases (ltb (byte b i) (byte a i))) [
    | inl gt ↦
        rw (ge, gt)
          (digit_decides (byte b i) (byte a i) (256 ^ i) (numeral i b) (numeral i a)
            (ltb→lt (byte b i) (byte a i) gt) (numeral_lt i b q))
    | inr le ↦
        let same : byte b i ≡ byte a i =
          omega (arith, ltb→le (byte a i) (byte b i) ge, ltb→le (byte b i) (byte a i) le) in
        rw (ge, le)
          (rw same (
            Compares-add (compare_from i a b) (numeral i a) (numeral i b) (byte a i * 256 ^ i)
              (compare_from-Compares i a b p q)))
  ]
]

at_most_iff : (c : Comparison) (m n : ℕ) → Compares c m n → (at_most c ≡ true) ↔ (m ≤ n)
unfolding at_most
at_most_iff less m n h = (λ e. omega arith, λ e. refl)
at_most_iff equal m n h = (λ e. omega arith, λ e. refl)
at_most_iff greater m n h = (λ e. cc, λ e. absurd (omega arith))

-- A hash passes `CheckProofOfWork` exactly when the number of its 32 bytes is at most the number of the
-- target's 32 bytes.
pub check_proof_of_work_iff :
    (hash : Hash) (bits : ℕ)
    → IsBytes hash
    → IsBytes (compact_to_bits256 bits)
    → (check_proof_of_work hash bits ≡ true)
      ↔ (numeral 32 hash ≤ numeral 32 (compact_to_bits256 bits))
unfolding check_proof_of_work compare256
check_proof_of_work_iff hash bits p q =
    at_most_iff (compare_from 32 hash (compact_to_bits256 bits)) (numeral 32 hash)
      (numeral 32 (compact_to_bits256 bits))
      (compare_from-Compares 32 hash (compact_to_bits256 bits) p q)
