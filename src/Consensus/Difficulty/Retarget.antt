-- ===== src/Consensus/Difficulty/Retarget.antt =====
-- `CalculateNextDifficulty` and the compact form it returns
-- (layer1-talanton/core/consensus/difficulty.cpp).
use native.Mathlib.Nat.{pow-suc, div-le_self, mul-div_cancel}
use pantheon_chain.Prelude.{
  ℕ, zero, suc, ◌+◌, ◌*◌, ◌/◌, ◌^◌, ◌<◌, ◌≤◌, ◌≡◌, refl, ap, ◌∙◌, some, arith,
}
use pantheon_chain.Consensus.Difficulty.{
  exponent_of, mantissa_of, min_timespan, max_timespan, clamp_timespan, shift_down, shift_up,
  finish, normalize, calculate_next_difficulty,
}

-- Five rounds bring a 64-bit mantissa below 2^24.
shift_down_lt : (fuel exp m : ℕ) → m < 2 ^ 24 * 256 ^ fuel → (shift_down fuel exp m).1 < 2 ^ 24
unfolding shift_down
shift_down_lt zero exp m h = omega arith
shift_down_lt (suc fuel) exp m h =
    ground (arith, pow-suc 256 fuel, shift_down_lt fuel (exp + 1) (m / 2 ^ 8))

shift_up_lt : (exp m : ℕ) → m < 2 ^ 24 → (shift_up exp m).1 < 2 ^ 24
unfolding shift_up
shift_up_lt zero m h = h
shift_up_lt (suc exp) m h = ground (arith, shift_up_lt exp (m * 2 ^ 8))

-- What `finish` returns has an exponent of at most 32 and a mantissa without the sign bit.
abbrev pub IsCompact : ℕ → Type 0
IsCompact bits = (exponent_of bits ≤ 32) × (mantissa_of bits < 2 ^ 23)

finish-IsCompact : (p : ℕ × ℕ) → p.1 < 2 ^ 24 → IsCompact (finish p)
unfolding finish
finish-IsCompact (exp, m) h = ground arith

clamp_timespan_bounds :
    (t : ℕ) → (min_timespan ≤ clamp_timespan t) × (clamp_timespan t ≤ max_timespan)
unfolding clamp_timespan
clamp_timespan_bounds t = ground arith

clamp_timespan_within : (t : ℕ) → min_timespan ≤ t → t ≤ max_timespan → clamp_timespan t ≡ t
unfolding clamp_timespan
clamp_timespan_within t p q = ground arith

normalize_lem : (exp m : ℕ) → normalize (exp, m) ≡ finish (shift_up exp m)
unfolding normalize
normalize_lem exp m = refl

scaled_lt : (m t expected : ℕ) → m < 2 ^ 24 → t ≤ max_timespan → m * t / expected < 2 ^ 24 * 256 ^ 5
scaled_lt m t expected h k =
    let product : m * t ≤ 2 ^ 24 * max_timespan = grind arith in
    omega (arith, product, div-le_self (m * t) expected)

retargeted :
    (bits time_span expected_time : ℕ)
    → 0 < exponent_of bits
    → 0 < mantissa_of bits
    → 0 < expected_time
    → calculate_next_difficulty bits time_span expected_time
      ≡ some (
          normalize (
            shift_down 5
              (exponent_of bits)
              (mantissa_of bits * clamp_timespan time_span / expected_time)))
unfolding calculate_next_difficulty
retargeted bits time_span expected_time p q r = ground arith

normalize-IsCompact : (p : ℕ × ℕ) → p.1 < 2 ^ 24 → IsCompact (normalize p)
unfolding normalize
normalize-IsCompact (exp, m) h = finish-IsCompact (shift_up exp m) (shift_up_lt exp m h)

-- From a target that is not zero, whatever the time span, the retarget succeeds for every positive
-- expected time, with an exponent of at most 32 and a mantissa without the sign bit.
pub calculate_next_difficulty-IsCompact :
    (bits time_span expected_time : ℕ)
    → 0 < exponent_of bits
    → 0 < mantissa_of bits
    → 0 < expected_time
    → (next : ℕ) × (calculate_next_difficulty bits time_span expected_time ≡ some next)
      × IsCompact next
calculate_next_difficulty-IsCompact bits time_span expected_time p q r =
    let m = mantissa_of bits * clamp_timespan time_span / expected_time in
    let bound =
      scaled_lt (mantissa_of bits) (clamp_timespan time_span) expected_time (omega arith)
        (clamp_timespan_bounds time_span).1 in
    let reduced = shift_down 5 (exponent_of bits) m in
    (
      normalize reduced,
      retargeted bits time_span expected_time p q r,
      normalize-IsCompact reduced (shift_down_lt 5 (exponent_of bits) m bound),
    )

shift_down-small : (exp m : ℕ) → m < 2 ^ 24 → shift_down 5 exp m ≡ (exp, m)
unfolding shift_down
shift_down-small exp m h = ground arith

shift_up-large : (exp m : ℕ) → 2 ^ 16 ≤ m → shift_up exp m ≡ (exp, m)
unfolding shift_up
shift_up-large zero m h = refl
shift_up-large (suc exp) m h = ground arith

finish-normal : (exp m : ℕ) → exp ≤ 32 → m < 2 ^ 23 → finish (exp, m) ≡ exp * 2 ^ 24 + m
unfolding finish
finish-normal exp m h k = ground arith

-- Blocks that came exactly at the expected pace leave a target as it is, where its exponent is from 1 to
-- 32 and its mantissa from 2^16 to below 2^23, and where the expected time is one that the clamp leaves
-- alone: from `MIN_TIMESPAN` to `MAX_TIMESPAN`.
pub calculate_next_difficulty_steady :
    (bits time_span : ℕ)
    → 0 < exponent_of bits
    → 2 ^ 16 ≤ mantissa_of bits
    → IsCompact bits
    → min_timespan ≤ time_span
    → time_span ≤ max_timespan
    → calculate_next_difficulty bits time_span time_span ≡ some bits
calculate_next_difficulty_steady bits time_span p q c low high =
    let e = exponent_of bits in
    let m = mantissa_of bits in
    rw
      (
        retargeted bits time_span time_span p (omega arith) (omega arith),
        clamp_timespan_within time_span low high,
        mul-div_cancel m {n = time_span} (omega arith),
        shift_down-small e m (omega arith),
      )
      (ap some (
        normalize_lem e m
        ∙ ap finish (shift_up-large e m q)
        ∙ finish-normal e m c.0 c.1
        ∙ omega arith))
