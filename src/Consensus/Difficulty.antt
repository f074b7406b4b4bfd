-- ===== src/Consensus/Difficulty.antt =====
-- Difficulty targets and proof of work (layer1-talanton/core/consensus/difficulty.h and
-- difficulty.cpp). A 256-bit number is its 32 bytes, least significant first.
pub mod Targets
pub mod Work
pub mod Retarget
use pantheon_chain.Prelude.{
  ℕ, zero, suc, ◌+◌, ◌-◌, ◌*◌, ◌/◌, ◌%◌, ◌^◌, Bool, true, false, not, ◌&&◌, ◌||◌, Option, none,
  some, List, ltb, leb, ◌==◌, if◌then◌else◌, set,
}
use pantheon_chain.Prelude.Words.{byte_at}
use pantheon_chain.Primitives.Bytes.{byte}
use pantheon_chain.Primitives.Transaction.{Hash, zero_hash}

abbrev pub target_timespan : ℕ
target_timespan = 2016 * 600

abbrev pub min_timespan : ℕ
min_timespan = target_timespan / 4

abbrev pub max_timespan : ℕ
max_timespan = target_timespan * 4

-- `compact >> 24` and `compact & 0x00FFFFFF`
abbrev pub exponent_of : ℕ → ℕ
exponent_of compact = compact / 2 ^ 24

abbrev pub mantissa_of : ℕ → ℕ
mantissa_of compact = compact % 2 ^ 24

-- A mantissa of an exponent up to 3 is shifted down.
unfoldable pub small_target : ℕ → ℕ → Hash
small_target exponent shifted =
    let low = set zero_hash 0 (byte_at shifted 0) in
    let middle = if leb 2 exponent then set low 1 (byte_at shifted 8) else low in
    if leb 3 exponent then set middle 2 (byte_at shifted 16) else middle

unfoldable pub placed_target : ℕ → ℕ → Hash
placed_target offset mantissa =
    set (set (set zero_hash offset (byte_at mantissa 0)) (offset + 1) (byte_at mantissa 8))
      (offset + 2) (byte_at mantissa 16)

unfoldable pub compact_to_bits256 : ℕ → Hash
compact_to_bits256 compact =
    if exponent_of compact == 0
    then zero_hash
    else if leb (exponent_of compact) 3
    then small_target (exponent_of compact)
        (mantissa_of compact / 2 ^ (8 * (3 - exponent_of compact)))
    else if leb (exponent_of compact) 32
    then placed_target (exponent_of compact - 3) (mantissa_of compact)
    else zero_hash

-- The position above the most significant byte that is not zero.
pub significant : ℕ → Hash → ℕ
significant zero target = zero
significant (suc i) target = if byte target i == 0 then significant i target else suc i

pub leading_mantissa : ℕ → Hash → ℕ
leading_mantissa exponent target =
    if leb 3 exponent
    then byte target (exponent - 1) * 2 ^ 16
      + byte target (exponent - 2) * 2 ^ 8
      + byte target (exponent - 3)
    else if exponent == 2
    then byte target 1 * 2 ^ 8 + byte target 0
    else byte target 0

-- `mantissa & 0x00800000`
abbrev pub has_sign_bit : ℕ → Bool
has_sign_bit mantissa = mantissa / 2 ^ 23 % 2 == 1

pub join_compact : ℕ → ℕ → ℕ
join_compact exponent mantissa =
    if has_sign_bit mantissa
    then (exponent + 1) * 2 ^ 24 + mantissa / 2 ^ 8
    else exponent * 2 ^ 24 + mantissa

pub bits256_to_compact : Hash → ℕ
bits256_to_compact target =
    let exponent = significant 32 target in
    if exponent == 0 then 0 else join_compact exponent (leading_mantissa exponent target)

pub data Comparison : Type 0 where
  less equal greater : Comparison

-- The loop of `Compare256`, from the most significant byte of the `i` lowest down.
unfoldable pub compare_from : ℕ → Hash → Hash → Comparison
compare_from zero a b = equal
compare_from (suc i) a b =
    if ltb (byte a i) (byte b i)
    then less
    else if ltb (byte b i) (byte a i)
    then greater
    else compare_from i a b

unfoldable pub compare256 : Hash → Hash → Comparison
compare256 a b = compare_from 32 a b

unfoldable pub at_most : Comparison → Bool
at_most less = true
at_most equal = true
at_most greater = false

unfoldable pub check_proof_of_work : Hash → ℕ → Bool
check_proof_of_work hash compact_bits = at_most (compare256 hash (compact_to_bits256 compact_bits))

-- The two clamps of the time span.
pub clamp_timespan : ℕ → ℕ
clamp_timespan time_span =
    let low = if ltb time_span min_timespan then min_timespan else time_span in
    if ltb max_timespan low then max_timespan else low

-- `while (new_mantissa >= 0x1000000)`, on fuel: a 64-bit mantissa needs at most five rounds.
pub shift_down : ℕ → ℕ → ℕ → ℕ × ℕ
shift_down zero exp mantissa = (exp, mantissa)
shift_down (suc fuel) exp mantissa =
    let rest = shift_down fuel (exp + 1) (mantissa / 2 ^ 8) in
    if leb (2 ^ 24) mantissa then rest else (exp, mantissa)

-- `while (new_mantissa < 0x010000 && exp > 3)`
pub shift_up : ℕ → ℕ → ℕ × ℕ
shift_up zero mantissa = (zero, mantissa)
shift_up (suc exp) mantissa =
    let rest = shift_up exp (mantissa * 2 ^ 8) in
    if ltb mantissa (2 ^ 16) && ltb 3 (suc exp) then rest else (suc exp, mantissa)

-- The sign bit, the clamp of the exponent, and the joined result.
pub finish : ℕ × ℕ → ℕ
finish (exp, mantissa) =
    let e = if has_sign_bit mantissa then exp + 1 else exp in
    let m = if has_sign_bit mantissa then mantissa / 2 ^ 8 else mantissa in
    (if ltb 32 e then 32 else e) * 2 ^ 24 + m % 2 ^ 24

pub normalize : ℕ × ℕ → ℕ
normalize (exp, mantissa) = finish (shift_up exp mantissa)

-- `none` is the division by an expected time of zero.
pub calculate_next_difficulty : ℕ → ℕ → ℕ → Option ℕ
calculate_next_difficulty current_bits time_span expected_time =
    let exp = exponent_of current_bits in
    let mantissa = mantissa_of current_bits in
    if exp == 0 || mantissa == 0
    then some current_bits
    else if expected_time == 0
    then none
    else some (normalize (shift_down 5 exp (mantissa * clamp_timespan time_span / expected_time)))
