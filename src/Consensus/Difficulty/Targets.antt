-- ===== src/Consensus/Difficulty/Targets.antt =====
-- The number that `CompactToBits256` of layer1-talanton/core/consensus/difficulty.cpp writes out.
use native.Mathlib.Decide.{ℕ_discrete}
use native.Mathlib.Nat.{pow-suc}
use native.Mathlib.Numerals.{add-one, add-two}
use pantheon_chain.Prelude.{
  ℕ, zero, suc, ◌+◌, ◌-◌, ◌*◌, ◌/◌, ◌^◌, ◌<◌, ◌≤◌, ◌≡◌, ◌≢◌, ◌↔◌, refl, ap, ◌∙◌, ◌%◌, inl, inr,
  true, [], ◌∷◌, leb, ◌==◌, if◌then◌else◌, Bool-cases, set, length, All, arith,
}
use pantheon_chain.Primitives.Bytes.{byte, IsBytes}
use pantheon_chain.Primitives.Transaction.{Hash, zero_hash}
use pantheon_chain.Consensus.Difficulty.{
  exponent_of, mantissa_of, small_target, placed_target, compact_to_bits256, check_proof_of_work,
}
use pantheon_chain.Consensus.Difficulty.Work.{numeral, check_proof_of_work_iff}

pub byte-set_self : (xs : Hash) (i v : ℕ) → i < length xs → byte (set xs i v) i ≡ v
byte-set_self [] i v h = absurd (omega arith)
byte-set_self (x ∷ xs) zero v h = refl
byte-set_self (x ∷ xs) (suc i) v h = byte-set_self xs i v (omega arith)

pub byte-set_ne : (xs : Hash) (i j v : ℕ) → i ≢ j → byte (set xs i v) j ≡ byte xs j
byte-set_ne [] i j v h = refl
byte-set_ne (x ∷ xs) zero zero v h = absurd (h refl)
byte-set_ne (x ∷ xs) zero (suc j) v h = refl
byte-set_ne (x ∷ xs) (suc i) zero v h = refl
byte-set_ne (x ∷ xs) (suc i) (suc j) v h = byte-set_ne xs i j v (omega arith)

pub length-set : (xs : Hash) (i v : ℕ) → length (set xs i v) ≡ length xs
length-set [] i v = refl
length-set (x ∷ xs) zero v = refl
length-set (x ∷ xs) (suc i) v = omega (arith, length-set xs i v)

numeral-set_above : (n : ℕ) (xs : Hash) (i v : ℕ) → n ≤ i → numeral n (set xs i v) ≡ numeral n xs
unfolding numeral
numeral-set_above zero xs i v h = refl
numeral-set_above (suc n) xs i v h =
    rw (numeral-set_above n xs i v (omega arith), byte-set_ne xs i n v (omega arith))

-- Writing a byte where a zero stood adds it at its place.
numeral-set :
    (n : ℕ) (xs : Hash) (i v : ℕ)
    → i < n
    → i < length xs
    → byte xs i ≡ 0
    → numeral n (set xs i v) ≡ numeral n xs + v * 256 ^ i
unfolding numeral
numeral-set zero xs i v h p z = absurd (omega arith)
numeral-set (suc n) xs i v h p z = elim (ℕ_discrete i n) [
  | yes e ↦
      rw (← e, numeral-set_above i xs i v (omega arith), byte-set_self xs i v p, z) (omega arith)
  | no ne ↦ rw (numeral-set n xs i v (omega arith) p z, byte-set_ne xs i n v ne) (omega arith)
]

pub byte-zero_hash : (i : ℕ) → byte zero_hash i ≡ 0
byte-zero_hash i = all_zero zero_hash i (omega arith)
  where
    all_zero : (xs : Hash) (j : ℕ) → All (λ b. b ≡ 0) xs → byte xs j ≡ 0
    all_zero [] j h = refl
    all_zero (x ∷ xs) zero h = h.0
    all_zero (x ∷ xs) (suc j) h = all_zero xs j h.1

numeral-zero_hash : (n : ℕ) → numeral n zero_hash ≡ 0
unfolding numeral
numeral-zero_hash zero = refl
numeral-zero_hash (suc n) = rw (numeral-zero_hash n, byte-zero_hash n) (omega arith)

-- Three bytes side by side.
numeral-three :
    (o a b c : ℕ)
    → o ≤ 29
    → numeral 32 (set (set (set zero_hash o a) (o + 1) b) (o + 2) c)
      ≡ a * 256 ^ o + b * 256 ^ (o + 1) + c * 256 ^ (o + 2)
numeral-three o a b c h =
    let one = set zero_hash o a in
    let two = set one (o + 1) b in
    let size1 = length-set zero_hash o a in
    let size2 = length-set one (o + 1) b in
    let free1 : byte one (o + 1) ≡ 0 =
      byte-set_ne zero_hash o (o + 1) a (omega arith) ∙ byte-zero_hash (o + 1) in
    let free2 : byte two (o + 2) ≡ 0 =
      byte-set_ne one (o + 1) (o + 2) b (omega arith)
      ∙ byte-set_ne zero_hash o (o + 2) a (omega arith)
      ∙ byte-zero_hash (o + 2) in
    omega (
      arith,
      numeral-set 32 two (o + 2) c (omega arith) (omega arith) free2,
      numeral-set 32 one (o + 1) b (omega arith) (omega arith) free1,
      numeral-set 32 zero_hash o a (omega arith) (omega arith) (byte-zero_hash o),
      numeral-zero_hash 32,
    )

three_digits :
    (m p : ℕ)
    → m < 2 ^ 24
    → m / 2 ^ 0 % 256 * p + m / 2 ^ 8 % 256 * (p * 256) + m / 2 ^ 16 % 256 * (p * 256 * 256) ≡ m * p
three_digits m p h =
    let e : m / 2 ^ 0 % 256 + m / 2 ^ 8 % 256 * 256 + m / 2 ^ 16 % 256 * 65536 ≡ m = omega arith in
    omega (arith, ap (λ (t : ℕ). t * p) e)

numeral-placed_target :
    (o m : ℕ) → o ≤ 29 → m < 2 ^ 24 → numeral 32 (placed_target o m) ≡ m * 256 ^ o
unfolding placed_target
numeral-placed_target o m h k =
    let p = 256 ^ o in
    let p1 : 256 ^ (o + 1) ≡ p * 256 = rw (add-one o) (pow-suc 256 o) in
    let p2 : 256 ^ (o + 2) ≡ p * 256 * 256 =
      rw (add-two o) (pow-suc 256 (suc o) ∙ ap (λ (t : ℕ). t * 256) (pow-suc 256 o)) in
    numeral-three o (m / 2 ^ 0 % 256) (m / 2 ^ 8 % 256) (m / 2 ^ 16 % 256) h
    ∙ rw (p1, p2) (three_digits m p k)

numeral-small_target : (e s : ℕ) → 0 < e → e ≤ 3 → s < 256 ^ e → numeral 32 (small_target e s) ≡ s
unfolding small_target
numeral-small_target zero s p q h = absurd (omega arith)
numeral-small_target (suc zero) s p q h = omega (
  arith,
  numeral-set 32 zero_hash 0 (s / 2 ^ 0 % 256) (omega arith) (omega arith) refl,
  numeral-zero_hash 32,
)
numeral-small_target (suc (suc zero)) s p q h =
    omega (arith, numeral-three 0 (s / 2 ^ 0 % 256) (s / 2 ^ 8 % 256) 0 (omega arith))
numeral-small_target (suc (suc (suc zero))) s p q h =
    omega
      (arith, numeral-three 0 (s / 2 ^ 0 % 256) (s / 2 ^ 8 % 256) (s / 2 ^ 16 % 256) (omega arith))
numeral-small_target (suc (suc (suc (suc e)))) s p q h = absurd (omega arith)

-- The number that a compact target stands for: its mantissa times 256 to the exponent less 3.
abbrev pub target_value : ℕ → ℕ
target_value compact =
    if exponent_of compact == 0
    then 0
    else if leb (exponent_of compact) 3
    then mantissa_of compact / 2 ^ (8 * (3 - exponent_of compact))
    else if leb (exponent_of compact) 32
    then mantissa_of compact * 256 ^ (exponent_of compact - 3)
    else 0

shifted_lt : (e m : ℕ) → 0 < e → e ≤ 3 → m < 2 ^ 24 → m / 2 ^ (8 * (3 - e)) < 256 ^ e
shifted_lt zero m p q h = absurd (omega arith)
shifted_lt (suc zero) m p q h = omega arith
shifted_lt (suc (suc zero)) m p q h = omega arith
shifted_lt (suc (suc (suc zero))) m p q h = omega arith
shifted_lt (suc (suc (suc (suc e)))) m p q h = absurd (omega arith)

-- The 32 bytes of `CompactToBits256` are those of the number that the compact form stands for, at every
-- exponent; an exponent of 0 or above 32 gives 0.
pub numeral-compact_to_bits256 :
    (compact : ℕ) → numeral 32 (compact_to_bits256 compact) ≡ target_value compact
unfolding compact_to_bits256
numeral-compact_to_bits256 compact =
    let e = exponent_of compact in
    let m = mantissa_of compact in
    let small = numeral-small_target e (m / 2 ^ (8 * (3 - e))) in
    elim (Bool-cases (e == 0)) [
      | inl z ↦ rw z (numeral-zero_hash 32)
      | inr nz ↦ elim (Bool-cases (leb e 3)) [
        | inl low ↦
            let pos : 0 < e = ground arith in
            let top : e ≤ 3 = ground arith in
            rw (nz, low) (small pos top (shifted_lt e m pos top (omega arith)))
        | inr high ↦ elim (Bool-cases (leb e 32)) [
          | inl fits ↦
              rw (nz, high, fits) (numeral-placed_target (e - 3) m (ground arith) (omega arith))
          | inr over ↦ rw (nz, high, over) (numeral-zero_hash 32)
        ]
      ]
    ]

set-IsBytes : (xs : Hash) (i v : ℕ) → v < 256 → IsBytes xs → IsBytes (set xs i v)
set-IsBytes [] i v p h = h
set-IsBytes (x ∷ xs) zero v p h = (p, h.1)
set-IsBytes (x ∷ xs) (suc i) v p h = (h.0, set-IsBytes xs i v p h.1)

placed_target-IsBytes : (o m : ℕ) → IsBytes (placed_target o m)
unfolding placed_target
placed_target-IsBytes o m =
    set-IsBytes _ (o + 2) _ (omega arith) (
      set-IsBytes _ (o + 1) _ (omega arith) (set-IsBytes zero_hash o _ (omega arith) (omega arith)))

small_target-IsBytes : (e s : ℕ) → IsBytes (small_target e s)
unfolding small_target
small_target-IsBytes e s = ground arith

compact_to_bits256-IsBytes : (compact : ℕ) → IsBytes (compact_to_bits256 compact)
unfolding compact_to_bits256
compact_to_bits256-IsBytes compact =
    let e = exponent_of compact in
    let m = mantissa_of compact in
    let zeros : IsBytes zero_hash = omega arith in
    ground (
      arith,
      zeros,
      small_target-IsBytes e (m / 2 ^ (8 * (3 - e))),
      placed_target-IsBytes (e - 3) m,
    )

-- A block hash of byte values meets a compact target exactly when its number, read from the least significant byte, is
-- at most the number that the target stands for.
pub check_proof_of_work-target_value :
    (hash : Hash) (bits : ℕ)
    → IsBytes hash
    → (check_proof_of_work hash bits ≡ true) ↔ (numeral 32 hash ≤ target_value bits)
check_proof_of_work-target_value hash bits h =
    rw (← numeral-compact_to_bits256 bits)
      (check_proof_of_work_iff hash bits h (compact_to_bits256-IsBytes bits))
