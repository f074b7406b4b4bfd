-- ===== src/Primitives/Amount.antt =====
-- `Amount` (layer1-talanton/core/primitives/amount.h and amount.cpp). An amount is its `uint64_t`.
use pantheon_chain.Prelude.{
  ℕ, ◌-◌, ◌/◌, ◌<◌, ◌≡◌, ◌++◌, Bool, false, Option, none, some, List, ltb, ◌==◌, ◌||◌,
  if◌then◌else◌, arith, refl,
}
use pantheon_chain.Prelude.Words.{u64_mod, u64_max, add64, sub64, mul64}
use pantheon_chain.Primitives.Bytes.{write_u64, read_u64, read-write_u64}
use pantheon_chain.Primitives.SafeMath

would_add_overflow : ℕ → ℕ → Bool
would_add_overflow a b = ltb (u64_max - b) a

would_subtract_underflow : ℕ → ℕ → Bool
would_subtract_underflow a b = ltb a b

would_multiply_overflow : ℕ → ℕ → Bool
would_multiply_overflow a b = if a == 0 || b == 0 then false else ltb (u64_max / b) a

pub add : ℕ → ℕ → Option ℕ
unfolding would_add_overflow
add value other = if would_add_overflow value other then none else some (add64 value other)

pub subtract : ℕ → ℕ → Option ℕ
unfolding would_subtract_underflow
subtract value other =
    if would_subtract_underflow value other then none else some (sub64 value other)

pub multiply : ℕ → ℕ → Option ℕ
unfolding would_multiply_overflow
multiply value multiplier =
    if would_multiply_overflow value multiplier then none else some (mul64 value multiplier)

pub divide : ℕ → ℕ → Option ℕ
divide value divisor = if divisor == 0 then none else some (value / divisor)

-- `Serialize` writes the eight bytes of the value, least significant first.
pub serialize : ℕ → List ℕ
serialize value = write_u64 value

pub deserialize : List ℕ → ℕ
deserialize input = read_u64 input

-- On 64-bit values the four operations of `Amount` are those of `SafeMath`.
pub ops-eq-SafeMath :
    (a b : ℕ)
    → (add a b ≡ SafeMath.add a b)
      × (subtract a b ≡ SafeMath.sub a b)
      × (multiply a b ≡ SafeMath.mul a b)
      × (divide a b ≡ SafeMath.div a b)
unfolding add subtract multiply divide SafeMath.add SafeMath.sub SafeMath.mul SafeMath.div
ops-eq-SafeMath a b = (refl, refl, ground arith, refl)

-- Subtracting what was added gives the first amount back.
pub add-subtract :
    (a b : ℕ) {c : ℕ} → a < u64_mod → b < u64_mod → add a b ≡ some c → subtract c b ≡ some a
unfolding add subtract
add-subtract a b p q h = ground arith

pub deserialize-serialize :
    (v : ℕ) (rest : List ℕ) → v < u64_mod → deserialize (serialize v ++ rest) ≡ v
unfolding deserialize serialize
deserialize-serialize v rest h = read-write_u64 v rest h
