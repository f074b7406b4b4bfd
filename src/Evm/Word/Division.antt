-- ===== src/Evm/Word/Division.antt =====
-- Long division of 256-bit words (`Div` and `Mod` of layer3-obolos/evm/vm.cpp).
use native.Mathlib.Nat.{
  mul-le-mul_right, one-le-pow, mul-add-div_right, div-eq_of_lt, mod-eq_of_lt,
  mul-add-mod_self_right,
}
use pantheon_chain.Prelude.{
  ℕ, ◌+◌, ◌-◌, ◌*◌, ◌/◌, ◌%◌, ◌^◌, ◌<◌, ◌≤◌, ◌≡◌, refl, ap, sym, ◌∙◌, ltb, ltb→lt, ltb→le, ◌==◌,
  if◌then◌else◌, false, inl, inr, Bool-cases, List, [], ◌∷◌, length, arith,
}
use pantheon_chain.Primitives.Transaction.{zero_hash}
use pantheon_chain.Evm.Word.{
  Word, is_zero, bits_of, pack, shift_in, long_division, div, mod', lt, sub,
}
use pantheon_chain.Evm.Word.Value.{value}
use pantheon_chain.Evm.Word.Linear.{IsWord, value_fits, sub-IsWord, words-numbers}
use pantheon_chain.Evm.Word.Bits.{
  IsBits, bin, double, length-bits_of, bits_of-IsBits, bin-bits_of, pack_value, shift_in-IsWord,
  shift_in_exact,
}

-- What long division leaves of a dividend with these bits below a remainder.
pub record Divides (ds : List ℕ) (b r : Word) (result : List ℕ × Word) : Type 0 where
  pub exact : bin result.0 * value b + value result.1 ≡ value r * 2 ^ length ds + bin ds
  pub below : value result.1 < value b
  pub is_word : IsWord result.1
  pub is_bits : IsBits result.0
  pub size : length result.0 ≡ length ds

-- One more bit in front: its digit of the quotient takes the divisor off the shifted remainder.
next_bit :
    (q d : ℕ) (ds : List ℕ) (b r s : Word) (result : List ℕ × Word)
    → d < 2
    → q < 2
    → value s + q * value b ≡ 2 * value r + d
    → Divides ds b s result
    → Divides (d ∷ ds) b r (q ∷ result.0, result.1)
next_bit q d ds b r s result bit digit step rest = record {
  exact = rw (rest.size) (
      omega (
        arith,
        rest.exact,
        ap (λ (t : ℕ). value r * t) (double (length ds)),
        ap (λ (t : ℕ). t * 2 ^ length ds) step,
      ));
  below = rest.below;
  is_word = rest.is_word;
  is_bits = (digit, rest.is_bits);
  size = omega (arith, rest.size);
}

long_division-Divides :
    (ds : List ℕ) (b r : Word)
    → IsBits ds
    → IsWord b
    → IsWord r
    → value r < value b
    → (value r + 1) * 2 ^ length ds ≤ 2 ^ 256
    → Divides ds b r (long_division ds b r)
unfolding long_division
long_division-Divides [] b r bits h k low room = record {
  exact = omega arith;
  below = low;
  is_word = k;
  is_bits = tt;
  size = refl;
}
long_division-Divides (d ∷ ds) b r bits h k low room =
    let s : Word = (shift_in d r).0 in
    let word : IsWord s = shift_in-IsWord d r k in
    let p = 2 ^ length ds in
    let twice = double (length ds) in
    let roomy : (2 * value r + d + 1) * p ≤ 2 ^ 256 = omega (
      arith,
      room,
      ap (λ (t : ℕ). (value r + 1) * t) twice,
      mul-le-mul_right {m = d} {n = 1} p (omega (arith, bits.0)),
    ) in
    let exact : value s ≡ 2 * value r + d = shift_in_exact d r k (
      omega (
        arith,
        roomy,
        mul-le-mul_right {m = 1} {n = p} (2 * value r + d + 1)
            (one-le-pow (length ds) 2 (omega arith)),
      )) in
    let room_of : (w : Word) → value w ≤ value s → (value w + 1) * p ≤ 2 ^ 256 = λ w le. omega (
      arith,
      roomy,
      mul-le-mul_right {m = value w + 1} {n = 2 * value r + d + 1} p (omega (arith, le, exact)),
    ) in
    let compare = (words-numbers s b word h).2 in
    elim (Bool-cases (lt s b)) [
      | inl e ↦
          let less : value s < value b = ltb→lt (value s) (value b) (sym compare ∙ e) in
          rw (e, long_division)
            (next_bit 0 d ds b r s _ bits.0 (omega arith) (omega (arith, exact))
              (long_division-Divides ds b s bits.1 h word less (room_of s (omega arith))))
      | inr e ↦
          let more : value b ≤ value s = ltb→le (value s) (value b) (sym compare ∙ e) in
          let rest : Word = sub s b in
          let rest_value : value rest ≡ value s - value b =
            omega (arith, (words-numbers s b word h).1, more, value_fits s word) in
          rw (e, long_division)
            (next_bit 1 d ds b r rest _ bits.0 (omega arith)
              (omega (arith, exact, rest_value, more))
              (long_division-Divides ds b rest bits.1 h (sub-IsWord s b word h)
                (omega (arith, rest_value, exact, low, bits.0, more))
                (room_of rest (omega (arith, rest_value)))))
    ]

is_zero-value : (w : Word) → is_zero w ≡ ltb (value w) 1
unfolding is_zero
is_zero-value [] = refl
is_zero-value (x ∷ w) =
    let place = one-le-pow (length w) 256 (omega arith) in
    ground (arith, is_zero-value w, place, mul-le-mul_right {m = 1} {n = x} (256 ^ length w))

zero-IsWord : IsWord zero_hash
zero-IsWord = record { size = refl; bytes = omega arith }

-- Division of a word by a word that is not zero.
divided :
    (a b : Word)
    → IsWord a
    → IsWord b
    → 0 < value b
    → Divides (bits_of a) b zero_hash (long_division (bits_of a) b zero_hash)
divided a b h k positive =
    let count : 2 ^ length (bits_of a) ≡ 2 ^ 256 =
      ap (λ (t : ℕ). 2 ^ t) (length-bits_of a ∙ ap (λ (t : ℕ). 8 * t) h.size) in
    long_division-Divides (bits_of a) b zero_hash (bits_of-IsBits a) k zero-IsWord
      (omega (arith, positive)) (omega (arith, count))

quotient_value :
    (a b : Word) (result : List ℕ × Word)
    → IsWord a
    → Divides (bits_of a) b zero_hash result
    → (value (pack result.0) ≡ value a / value b) × (value result.1 ≡ value a % value b)
quotient_value a b result h done =
    let count : length result.0 ≡ 8 * 32 =
      done.size ∙ (length-bits_of a ∙ ap (λ (t : ℕ). 8 * t) h.size) in
    let packed = (pack_value 32 result.0 done.is_bits count).0 in
    let whole : bin result.0 * value b + value result.1 ≡ value a =
      done.exact ∙ (omega (arith, bin-bits_of a h.bytes)) in
    let positive : 0 < value b = omega (arith, done.below) in
    (
      packed
          ∙ rw (← whole) (
              sym (
                mul-add-div_right positive (bin result.0) (value result.1)
                ∙ omega (arith, div-eq_of_lt done.below))),
      rw (← whole) (
          sym (
            mul-add-mod_self_right (bin result.0) (value b) (value result.1)
            ∙ mod-eq_of_lt done.below)),
    )

-- `Div` and `Mod` of two words are the quotient and the remainder of their numbers; where the divisor is
-- zero, both are zero.
pub div-mod_value :
    (a b : Word)
    → IsWord a
    → IsWord b
    → (value (div a b) ≡ (if value b == 0 then 0 else value a / value b))
      × (value (mod' a b) ≡ (if value b == 0 then 0 else value a % value b))
unfolding div mod'
div-mod_value a b h k = elim (Bool-cases (is_zero b)) [
  | inl e ↦
      let none_at_all : value b ≡ 0 =
        omega (arith, ltb→lt (value b) 1 (sym (is_zero-value b) ∙ e)) in
      rw (e, none_at_all) (refl, refl)
  | inr e ↦
      let positive : 0 < value b = ltb→le (value b) 1 (sym (is_zero-value b) ∙ e) in
      let done = divided a b h k positive in
      let values = quotient_value a b (long_division (bits_of a) b zero_hash) h done in
      let some_test : (value b == 0) ≡ false = ground (arith, positive) in rw (e, some_test) values
]
