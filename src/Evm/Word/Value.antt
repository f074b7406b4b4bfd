-- ===== src/Evm/Word/Value.antt =====
-- The numbers that words stand for, and the loops with a carry (layer3-obolos/evm/vm.cpp).
use native.Mathlib.Nat.{pow-suc, mul-le-mul_right, mod-add-div'}
use pantheon_chain.Prelude.{
  ℕ, suc, ◌+◌, ◌-◌, ◌*◌, ◌/◌, ◌%◌, ◌^◌, ◌<◌, ◌≤◌, ◌≡◌, refl, ap, sym, ltb, ltb→lt, ltb→le,
  Bool-cases, inl, inr, List, [], ◌∷◌, length, arith,
}
use pantheon_chain.Primitives.Bytes.{IsBytes}
use pantheon_chain.Evm.Word.{Word, add_from, sub_from, lt}

-- The most significant byte first.
abbrev pub value : List ℕ → ℕ
value [] = 0
value (x ∷ xs) = x * 256 ^ length xs + value xs

pub value-lt : (xs : List ℕ) → IsBytes xs → value xs < 256 ^ length xs
value-lt [] h = omega arith
value-lt (x ∷ xs) h = omega (
  arith,
  pow-suc 256 (length xs),
  mul-le-mul_right {m = x} {n = 255} (256 ^ length xs) (omega (arith, h.0)),
  value-lt xs h.1,
)

-- A digit and a carry, at their places.
pub carry_digit : (s p : ℕ) → s % 256 * p + s / 256 * (256 * p) ≡ s * p
carry_digit s p = omega (arith, ap (λ (t : ℕ). t * p) (mod-add-div' s 256))

pub length-add_from : (xs ys : Word) → length xs ≡ length ys → length (add_from xs ys).0 ≡ length xs
unfolding add_from
length-add_from [] ys e = refl
length-add_from (x ∷ xs) [] e = absurd (omega (arith, e))
length-add_from (x ∷ xs) (y ∷ ys) e = omega (arith, length-add_from xs ys (omega (arith, e)))

pub add_from_value :
    (xs ys : Word)
    → length xs ≡ length ys
    → value (add_from xs ys).0 + (add_from xs ys).1 * 256 ^ length xs ≡ value xs + value ys
unfolding add_from
add_from_value [] [] e = refl
add_from_value [] (y ∷ ys) e = absurd (omega (arith, e))
add_from_value (x ∷ xs) [] e = absurd (omega (arith, e))
add_from_value (x ∷ xs) (y ∷ ys) e =
    let same : length xs ≡ length ys = omega (arith, e) in
    let p = 256 ^ length xs in
    let s = x + y + (add_from xs ys).1 in
    rw (length-add_from xs ys same, pow-suc 256 (length xs), sym same)
      (omega (arith, carry_digit s p, add_from_value xs ys same))

pub add_from-IsBytes : (xs ys : Word) → IsBytes (add_from xs ys).0
unfolding add_from
add_from-IsBytes [] ys = tt
add_from-IsBytes (x ∷ xs) [] = tt
add_from-IsBytes (x ∷ xs) (y ∷ ys) = (omega arith, add_from-IsBytes xs ys)

pub length-sub_from : (xs ys : Word) → length xs ≡ length ys → length (sub_from xs ys).0 ≡ length xs
unfolding sub_from
length-sub_from [] ys e = refl
length-sub_from (x ∷ xs) [] e = absurd (omega (arith, e))
length-sub_from (x ∷ xs) (y ∷ ys) e = ground (arith, length-sub_from xs ys (omega (arith, e)))

pub borrow-le : (xs ys : Word) → (sub_from xs ys).1 ≤ 1
unfolding sub_from
borrow-le [] ys = omega arith
borrow-le (x ∷ xs) [] = omega arith
borrow-le (x ∷ xs) (y ∷ ys) = ground arith

pub sub_from_value :
    (xs ys : Word)
    → length xs ≡ length ys
    → IsBytes ys
    → value (sub_from xs ys).0 + value ys ≡ value xs + (sub_from xs ys).1 * 256 ^ length xs
unfolding sub_from
sub_from_value [] [] e h = refl
sub_from_value [] (y ∷ ys) e h = absurd (omega (arith, e))
sub_from_value (x ∷ xs) [] e h = absurd (omega (arith, e))
sub_from_value (x ∷ xs) (y ∷ ys) e h =
    let same : length xs ≡ length ys = omega (arith, e) in
    let p = 256 ^ length xs in
    let rest = sub_from_value xs ys same h.1 in
    let digit = y + (sub_from xs ys).1 in
    elim (Bool-cases (ltb x digit)) [
      | inl l ↦
          let below = ltb→lt x digit l in
          let whole : x + 256 - y - (sub_from xs ys).1 + (y + (sub_from xs ys).1) ≡ x + 256 =
            omega (arith, below, h.0, borrow-le xs ys) in
          rw (l, length-sub_from xs ys same, pow-suc 256 (length xs), sym same)
            (omega (arith, rest, ap (λ (t : ℕ). t * p) whole))
      | inr l ↦
          let above = ltb→le x digit l in
          let whole : x - y - (sub_from xs ys).1 + (y + (sub_from xs ys).1) ≡ x =
            omega (arith, above) in
          rw (l, length-sub_from xs ys same, sym same)
            (omega (arith, rest, ap (λ (t : ℕ). t * p) whole))
    ]

pub sub_from-IsBytes : (xs ys : Word) → IsBytes xs → IsBytes (sub_from xs ys).0
unfolding sub_from
sub_from-IsBytes [] ys h = tt
sub_from-IsBytes (x ∷ xs) [] h = tt
sub_from-IsBytes (x ∷ xs) (y ∷ ys) h = ground (arith, sub_from-IsBytes xs ys h.1, h.0)

-- The comparison of words is that of their numbers.
pub lt-value :
    (xs ys : Word)
    → length xs ≡ length ys
    → IsBytes xs
    → IsBytes ys
    → lt xs ys ≡ ltb (value xs) (value ys)
unfolding lt
lt-value [] [] e h k = refl
lt-value [] (y ∷ ys) e h k = absurd (omega (arith, e))
lt-value (x ∷ xs) [] e h k = absurd (omega (arith, e))
lt-value (x ∷ xs) (y ∷ ys) e h k =
    let same : length xs ≡ length ys = omega (arith, e) in
    let p = 256 ^ length xs in
    let rest = lt-value xs ys same h.1 k.1 in
    rw (sym same) (
      ground (
        arith,
        rest,
        value-lt xs h.1,
        value-lt ys k.1,
        same,
        mul-le-mul_right {m = suc x} {n = y} p,
        mul-le-mul_right {m = suc y} {n = x} p,
      ))
