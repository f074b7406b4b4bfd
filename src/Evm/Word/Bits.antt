-- ===== src/Evm/Word/Bits.antt =====
-- The bits of 256-bit words, as `Div` and `Mod` read and write them (layer3-obolos/evm/vm.cpp).
use native.Mathlib.Nat.{pow-suc, two-pow-succ}
use pantheon_chain.Prelude.{
  ℕ, zero, suc, ◌+◌, ◌*◌, ◌/◌, ◌%◌, ◌^◌, ◌<◌, ◌≡◌, refl, ap, sym, ◌∙◌, subst, List, [], ◌∷◌, length,
  All, arith,
}
use pantheon_chain.Primitives.Bytes.{IsBytes}
use pantheon_chain.Evm.Word.{Word, bits_of, pack, shift_in}
use pantheon_chain.Evm.Word.Value.{value, carry_digit}
use pantheon_chain.Evm.Word.Linear.{IsWord}

abbrev pub IsBits : List ℕ → Type 0
IsBits = All (λ d. d < 2)

-- The number of a list of bits, the most significant first.
abbrev pub bin : List ℕ → ℕ
bin [] = 0
bin (d ∷ ds) = d * 2 ^ length ds + bin ds

pub length-bits_of : (xs : Word) → length (bits_of xs) ≡ 8 * length xs
unfolding bits_of
length-bits_of [] = refl
length-bits_of (x ∷ xs) = omega (arith, length-bits_of xs)

pub bits_of-IsBits : (xs : Word) → IsBits (bits_of xs)
unfolding bits_of
bits_of-IsBits [] = tt
bits_of-IsBits (x ∷ xs) = (
  omega arith,
  (
    omega arith,
    (
      omega arith,
      (omega arith, (omega arith, (omega arith, (omega arith, (omega arith, bits_of-IsBits xs))))),
    ),
  ),
)

pub double : (m : ℕ) → 2 ^ suc m ≡ 2 * 2 ^ m
double m = omega (arith, two-pow-succ m)

two_pow_eight : (m : ℕ) → 2 ^ suc (suc (suc (suc (suc (suc (suc (suc m))))))) ≡ 256 * 2 ^ m
two_pow_eight m = omega (
  arith,
  two-pow-succ (suc (suc (suc (suc (suc (suc (suc (m)))))))),
  two-pow-succ (suc (suc (suc (suc (suc (suc (m))))))),
  two-pow-succ (suc (suc (suc (suc (suc (m)))))),
  two-pow-succ (suc (suc (suc (suc (m))))),
  two-pow-succ (suc (suc (suc (m)))),
  two-pow-succ (suc (suc (m))),
  two-pow-succ (suc (m)),
  two-pow-succ (m),
)

pow_bytes : (n : ℕ) → 2 ^ (8 * n) ≡ 256 ^ n
pow_bytes zero = refl
pow_bytes (suc n) =
    let eight : 8 * suc n ≡ suc (suc (suc (suc (suc (suc (suc (suc (8 * n)))))))) = omega arith in
    ap (λ (t : ℕ). 2 ^ t) eight
    ∙ (two_pow_eight (8 * n) ∙ omega (arith, pow-suc 256 n, pow_bytes n))

-- Eight bits are a byte at its place.
bin-byte :
    (a b c d e f g h : ℕ) (ds : List ℕ)
    → bin (a ∷ b ∷ c ∷ d ∷ e ∷ f ∷ g ∷ h ∷ ds)
      ≡ (a * 128 + b * 64 + c * 32 + d * 16 + e * 8 + f * 4 + g * 2 + h) * 2 ^ length ds + bin ds
bin-byte a b c d e f g h ds =
    rw
      (
        double (suc (suc (suc (suc (suc (suc (length ds))))))),
        double (suc (suc (suc (suc (suc (length ds)))))),
        double (suc (suc (suc (suc (length ds))))),
        double (suc (suc (suc (length ds)))),
        double (suc (suc (length ds))),
        double (suc (length ds)),
        double (length ds),
      )
      (omega arith)

pub bin-bits_of : (xs : Word) → IsBytes xs → bin (bits_of xs) ≡ value xs
unfolding bits_of
bin-bits_of [] h = refl
bin-bits_of (x ∷ xs) h =
    let digits : x / 128 % 2 * 128
          + x / 64 % 2 * 64
          + x / 32 % 2 * 32
          + x / 16 % 2 * 16
          + x / 8 % 2 * 8
          + x / 4 % 2 * 4
          + x / 2 % 2 * 2
          + x % 2
        ≡ x =
      omega (arith, h.0) in
    let place : 2 ^ length (bits_of xs) ≡ 256 ^ length xs =
      ap (λ (t : ℕ). 2 ^ t) (length-bits_of xs) ∙ pow_bytes (length xs) in
    bin-byte _ _ _ _ _ _ _ _ (bits_of xs) ∙ rw (digits, place, bin-bits_of xs h.1) refl

pub pack_value :
    (n : ℕ) (ds : List ℕ)
    → IsBits ds
    → length ds ≡ 8 * n
    → (value (pack ds) ≡ bin ds) × (length (pack ds) ≡ n)
unfolding pack
pack_value n [] bits e = (refl, omega (arith, e))
pack_value n (a ∷ []) bits l = absurd (omega (arith, l))
pack_value n (a ∷ b ∷ []) bits l = absurd (omega (arith, l))
pack_value n (a ∷ b ∷ c ∷ []) bits l = absurd (omega (arith, l))
pack_value n (a ∷ b ∷ c ∷ d ∷ []) bits l = absurd (omega (arith, l))
pack_value n (a ∷ b ∷ c ∷ d ∷ e ∷ []) bits l = absurd (omega (arith, l))
pack_value n (a ∷ b ∷ c ∷ d ∷ e ∷ f ∷ []) bits l = absurd (omega (arith, l))
pack_value n (a ∷ b ∷ c ∷ d ∷ e ∷ f ∷ g ∷ []) bits l = absurd (omega (arith, l))
pack_value zero (a ∷ b ∷ c ∷ d ∷ e ∷ f ∷ g ∷ h ∷ ds) bits l = absurd (omega (arith, l))
pack_value (suc n) (a ∷ b ∷ c ∷ d ∷ e ∷ f ∷ g ∷ h ∷ ds) bits l =
    let count : length ds ≡ 8 * n = omega (arith, l) in
    let (rest, size) = pack_value n ds bits.1.1.1.1.1.1.1.1 count in
    let place : 2 ^ length ds ≡ 256 ^ length (pack ds) =
      ap (λ (t : ℕ). 2 ^ t) (count ∙ ap (λ (t : ℕ). 8 * t) (sym size))
      ∙ pow_bytes (length (pack ds)) in
    (rw (← place, rest) (sym (bin-byte a b c d e f g h ds)), omega (arith, size))

length-shift_in : (d : ℕ) (xs : Word) → length (shift_in d xs).0 ≡ length xs
unfolding shift_in
length-shift_in d [] = refl
length-shift_in d (x ∷ xs) = omega (arith, length-shift_in d xs)

shift_in-IsBytes : (d : ℕ) (xs : Word) → IsBytes (shift_in d xs).0
unfolding shift_in
shift_in-IsBytes d [] = tt
shift_in-IsBytes d (x ∷ xs) = (omega arith, shift_in-IsBytes d xs)

shift_in_value :
    (d : ℕ) (xs : Word)
    → value (shift_in d xs).0 + (shift_in d xs).1 * 256 ^ length xs ≡ 2 * value xs + d
unfolding shift_in
shift_in_value d [] = omega arith
shift_in_value d (x ∷ xs) =
    let p = 256 ^ length xs in
    let s = x * 2 + (shift_in d xs).1 in
    rw (length-shift_in d xs, pow-suc 256 (length xs))
      (omega (arith, carry_digit s p, shift_in_value d xs))

pub shift_in-IsWord : (d : ℕ) (r : Word) → IsWord r → IsWord (shift_in d r).0
shift_in-IsWord d r h = record { size = length-shift_in d r ∙ h.size; bytes = shift_in-IsBytes d r }

-- Where nothing is shifted out, the shift doubles and adds the bit.
pub shift_in_exact :
    (d : ℕ) (r : Word)
    → IsWord r
    → 2 * value r + d < 2 ^ 256
    → value (shift_in d r).0 ≡ 2 * value r + d
shift_in_exact d r h room =
    let sums =
      subst (λ n. value (shift_in d r).0 + (shift_in d r).1 * 256 ^ n ≡ 2 * value r + d) h.size
        (shift_in_value d r) in
    omega (arith, sums, room)
