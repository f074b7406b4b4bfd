-- ===== src/Primitives/SafeMath.antt =====
-- `SafeMath` (layer1-talanton/core/primitives/safe_math.h). Arguments stand for `uint64_t` values;
-- a machine operation is written with its wrap-around.
use pantheon_chain.Prelude.{
  ℕ, ◌+◌, ◌-◌, ◌*◌, ◌/◌, ◌%◌, ◌<◌, ◌≡◌, ◌↔◌, ◌||◌, true, Option, none, some, inl, inr, refl, ltb,
  ◌==◌, ==_iff, if◌then◌else◌, Bool-cases, arith,
}
use pantheon_chain.Prelude.Words.{u64_mod, u64_max, add64, sub64, mul64}

unfoldable pub add : ℕ → ℕ → Option ℕ
add a b = if ltb (u64_max - b) a then none else some (add64 a b)

unfoldable pub sub : ℕ → ℕ → Option ℕ
sub a b = if ltb a b then none else some (sub64 a b)

unfoldable pub mul : ℕ → ℕ → Option ℕ
mul a b =
    if a == 0 || b == 0 then some 0 else if ltb (u64_max / b) a then none else some (mul64 a b)

unfoldable pub div : ℕ → ℕ → Option ℕ
div a b = if b == 0 then none else some (a / b)

unfoldable pub mod' : ℕ → ℕ → Option ℕ
mod' a b = if b == 0 then none else some (a % b)

pub percentage : ℕ → ℕ → ℕ → Option ℕ
percentage amount percent divisor = elim (mul amount percent) [
  | none ↦ none
  | some product ↦ div product divisor
]

-- An exception of a checked operation.
pub data Fault : Type 0 where
  overflow underflow division_by_zero : Fault

pub data Checked : Type 0 where
  returns : ℕ → Checked
  throws : Fault → Checked

or_throw : Option ℕ → Fault → Checked
or_throw none f = throws f
or_throw (some v) f = returns v

pub checked_add : ℕ → ℕ → Checked
unfolding or_throw
checked_add a b = or_throw (add a b) overflow

pub checked_sub : ℕ → ℕ → Checked
unfolding or_throw
checked_sub a b = or_throw (sub a b) underflow

pub checked_mul : ℕ → ℕ → Checked
unfolding or_throw
checked_mul a b = or_throw (mul a b) overflow

pub checked_div : ℕ → ℕ → Checked
unfolding or_throw
checked_div a b = or_throw (div a b) division_by_zero

-- The result of an exact operation on naturals, if 64 bits hold it.
abbrev pub exact : ℕ → Option ℕ
exact v = if ltb v u64_mod then some v else none

pub add-exact : (a b : ℕ) → a < u64_mod → b < u64_mod → add a b ≡ exact (a + b)
unfolding add
add-exact a b p q = ground arith

pub sub-exact : (a b : ℕ) → a < u64_mod → sub a b ≡ (if ltb a b then none else some (a - b))
unfolding sub
sub-exact a b p = ground arith

-- `a > MAX / b` is the test for the overflow of `a * b`.
div_test : (a b : ℕ) → 0 < b → (u64_max / b < a) ↔ (u64_max < a * b)
div_test a b h = (λ k. grind arith, λ k. grind arith)

zero_product : (a b : ℕ) → (a == 0 || b == 0) ≡ true → a * b ≡ 0
zero_product a b h = elim (Bool-cases (a == 0)) [
  | inl e ↦ rw ((==_iff a 0).0 e) (omega arith)
  | inr e ↦ let z : b ≡ 0 = ground arith in rw z (omega arith)
]

pub mul-exact : (a b : ℕ) → mul a b ≡ exact (a * b)
unfolding mul
mul-exact a b = elim (Bool-cases (a == 0 || b == 0)) [
  | inl e ↦ rw (e, zero_product a b e)
  | inr e ↦ ground (arith, div_test a b, e)
]

-- `Add`, `Sub`, `Mul` and `Div` are the exact operations on 64-bit values: they give the exact result
-- where 64 bits hold it, and `nullopt` in every other case.
pub ops-exact :
    (a b : ℕ)
    → a < u64_mod
    → b < u64_mod
    → (add a b ≡ exact (a + b))
      × (sub a b ≡ (if ltb a b then none else some (a - b)))
      × (mul a b ≡ exact (a * b))
      × (div a b ≡ (if b == 0 then none else some (a / b)))
unfolding div
ops-exact a b p q = (add-exact a b p q, sub-exact a b p, mul-exact a b, refl)

-- The throwing variants return the exact result or throw the fault of their operation.
pub checked-exact :
    (a b : ℕ)
    → a < u64_mod
    → b < u64_mod
    → (checked_add a b ≡ (if ltb (a + b) u64_mod then returns (a + b) else throws overflow))
      × (checked_sub a b ≡ (if ltb a b then throws underflow else returns (a - b)))
      × (checked_mul a b ≡ (if ltb (a * b) u64_mod then returns (a * b) else throws overflow))
      × (checked_div a b ≡ (if b == 0 then throws division_by_zero else returns (a / b)))
unfolding checked_add checked_sub checked_mul checked_div div
checked-exact a b p q = (
  rw (add-exact a b p q) (ground arith),
  rw (sub-exact a b p) (ground arith),
  rw (mul-exact a b) (ground arith),
  ground arith,
)

-- A percentage whose product fits in 64 bits is the rounded-down quotient, and `nullopt` stands for an
-- overflow of the product or a zero divisor.
pub percentage-exact :
    (amount percent divisor : ℕ)
    → percentage amount percent divisor ≡ (
        if ltb (amount * percent) u64_mod
        then if divisor == 0 then none else some (amount * percent / divisor)
        else none)
unfolding percentage div
percentage-exact amount percent divisor = rw (mul-exact amount percent, percentage) (ground arith)
