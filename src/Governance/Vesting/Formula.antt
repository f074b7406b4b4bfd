-- ===== src/Governance/Vesting/Formula.antt =====
-- `ComputeVested` of layer1-talanton/governance/vesting.cpp against the formula of vesting.h.
use native.Mathlib.Nat.{
  mod-lt, mul-le-mul_left, mul-le-mul_right, mod-add-div', add-mul-div_right, div-mul-le_self,
  div-le_of_le-mul, div-lt_iff_lt-mul,
}
use pantheon_chain.Prelude.{
  ℕ, ◌+◌, ◌-◌, ◌*◌, ◌/◌, ◌%◌, ◌^◌, ◌<◌, ◌≤◌, ◌≡◌, inl, inr, Bool-cases, ltb→lt, ltb→le, ltb, leb,
  if◌then◌else◌, arith,
}
use pantheon_chain.Prelude.Words.{u64_mod}
use pantheon_chain.Governance.Vesting.{VestingSchedule, linear, vested_from, compute_vested}

-- The words of a schedule, its end below 2^64 and its duration at most 2^32.
pub record FitsSchedule (s : VestingSchedule) : Type 0 where
  pub amount_word : s.total_amount < u64_mod
  pub some_duration : 0 < s.duration_blocks
  pub duration_fits : s.duration_blocks ≤ 2 ^ 32
  pub end_word : s.start_block + s.cliff_blocks + s.duration_blocks < u64_mod

-- The formula of vesting.h.
abbrev pub vested_at : VestingSchedule → ℕ → ℕ
vested_at s block =
    if ltb block (s.start_block + s.cliff_blocks)
    then 0
    else if leb (s.start_block + s.cliff_blocks + s.duration_blocks) block
    then s.total_amount
    else s.total_amount * (block - (s.start_block + s.cliff_blocks)) / s.duration_blocks

-- Whole shares and the rest of the division, each times the elapsed blocks.
split_quotient : (t d e : ℕ) → 0 < d → t * e / d ≡ t / d * e + t % d * e / d
split_quotient t d e h =
    let whole : t * e ≡ t % d * e + t / d * e * d = grind (arith, mod-add-div' t d) in
    rw whole omega (arith, add-mul-div_right (t % d * e) (t / d * e) h)

linear-exact : (t d e : ℕ) → t < u64_mod → 0 < d → d ≤ 2 ^ 32 → e < d → linear t d e ≡ t * e / d
unfolding linear
linear-exact t d e ht hd hs he =
    let rest : t % d * e ≤ 2 ^ 32 * e = mul-le-mul_right e (omega (arith, mod-lt t hd)) in
    let shares : t / d * e ≤ t / d * d = mul-le-mul_left (t / d) (omega arith) in
    let below : t * e ≤ t * d = mul-le-mul_left t (omega arith) in
    let least : t * e / d ≤ t = div-le_of_le-mul d (grind (arith, below)) in
    let small : t % d * e % u64_mod ≡ t % d * e = omega (arith, rest) in
    rw small omega (arith, shares, least, div-mul-le_self t d, split_quotient t d e hd)

-- Where its end is below 2^64 and its duration at most 2^32, the amount that a schedule has vested is
-- that of the formula of vesting.h, in exact arithmetic.
pub compute_vested-eq-vested_at :
    (s : VestingSchedule) (block : ℕ) → FitsSchedule s → compute_vested s block ≡ vested_at s block
unfolding compute_vested vested_from
compute_vested-eq-vested_at s block h = ground (
  arith,
  linear-exact s.total_amount s.duration_blocks (block - (s.start_block + s.cliff_blocks)),
  h.amount_word,
  h.some_duration,
  h.duration_fits,
  h.end_word,
)

part-le : (t d e : ℕ) → e ≤ d → t * e / d ≤ t
part-le t d e h =
    let below : t * e ≤ t * d = mul-le-mul_left t h in div-le_of_le-mul d (grind (arith, below))

part_mono : (t d e f : ℕ) → 0 < d → e ≤ f → t * e / d ≤ t * f / d
part_mono t d e f p h =
    let more : t * e ≤ t * f = mul-le-mul_left t h in
    let least = div-mul-le_self (t * e) d in
    elim (Bool-cases (ltb (t * f / d) (t * e / d))) [
      | inl falls ↦
          let short =
            (div-lt_iff_lt-mul {x = t * f} {y = t * e / d} p).0
              (ltb→lt (t * f / d) (t * e / d) falls) in
          absurd (omega (arith, more, least, short))
      | inr keeps ↦ ltb→le (t * f / d) (t * e / d) keeps
    ]

vested_at-le :
    (s : VestingSchedule) (block : ℕ) → FitsSchedule s → vested_at s block ≤ s.total_amount
vested_at-le s block h =
    let elapsed = block - (s.start_block + s.cliff_blocks) in
    ground (arith, part-le s.total_amount s.duration_blocks elapsed)

-- What a schedule has vested is at most its amount, and does not fall as blocks pass, where the amount
-- and the last block of the schedule fit in 64 bits and the duration is positive and at most 2^32.
pub compute_vested_bounds :
    (s : VestingSchedule) (block later : ℕ)
    → FitsSchedule s
    → block ≤ later
    → (compute_vested s block ≤ compute_vested s later) × (compute_vested s later ≤ s.total_amount)
compute_vested_bounds s block later h le =
    let cliff_end = s.start_block + s.cliff_blocks in
    rw (compute_vested-eq-vested_at s block h, compute_vested-eq-vested_at s later h)
      (
        ground (
          arith,
          vested_at-le s block h,
          part_mono s.total_amount s.duration_blocks (block - cliff_end) (later - cliff_end),
        ),
        vested_at-le s later h,
      )
