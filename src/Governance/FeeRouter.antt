-- ===== src/Governance/FeeRouter.antt =====
-- How `FeeRouter::Route` splits a fee, and its configurations
-- (layer1-talanton/governance/fee_router.h and fee_router.cpp).
pub mod Route
use native.Mathlib.Nat.{mul-le-mul_left, mul-le-mul_right, div-mul-le_self}
use pantheon_chain.Prelude.{
  ℕ, ◌+◌, ◌*◌, ◌/◌, ◌<◌, ◌≤◌, ◌≡◌, inl, inr, Bool, true, ◌||◌, leb, ◌==◌, ==_iff, if◌then◌else◌,
  Bool-cases, arith,
}
use pantheon_chain.Governance.Treasury.{
  Track, core_development, grants_track, operations, uncategorized,
}
use pantheon_chain.Prelude.Words.{u64_mod, u64_max, mul64, sub64}

pub record SplitConfig : Type 0 where
  pub producer_bps : ℕ
  pub treasury_bps : ℕ
  pub burn_bps : ℕ
  pub treasury_track : Track

unfoldable pub is_valid : SplitConfig → Bool
is_valid c = c.producer_bps + c.treasury_bps + c.burn_bps == 10000

pub data FeeSource : Type 0 where
  l1_utxo l2_validator l3_base_fee l3_priority_fee bridge_fee protocol_fee : FeeSource

-- The configurations that the constructor installs.
unfoldable pub default_config : FeeSource → SplitConfig
default_config l1_utxo = record {
  producer_bps = 8000;
  treasury_bps = 1500;
  burn_bps = 500;
  treasury_track = core_development;
}
default_config l2_validator = record {
  producer_bps = 7000;
  treasury_bps = 2000;
  burn_bps = 1000;
  treasury_track = operations;
}
default_config l3_base_fee = record {
  producer_bps = 0;
  treasury_bps = 5000;
  burn_bps = 5000;
  treasury_track = grants_track;
}
default_config l3_priority_fee = record {
  producer_bps = 10000;
  treasury_bps = 0;
  burn_bps = 0;
  treasury_track = uncategorized;
}
default_config bridge_fee = record {
  producer_bps = 0;
  treasury_bps = 10000;
  burn_bps = 0;
  treasury_track = operations;
}
default_config protocol_fee = record {
  producer_bps = 0;
  treasury_bps = 10000;
  burn_bps = 0;
  treasury_track = uncategorized;
}

-- `total_fee * bps / 10000`, with the division first where the product would not fit.
pub share : ℕ → ℕ → ℕ
share total_fee bps =
    if bps == 0 || leb total_fee (u64_max / bps)
    then mul64 total_fee bps / 10000
    else mul64 (total_fee / 10000) bps

pub record Split : Type 0 where
  pub producer_amount : ℕ
  pub treasury_amount : ℕ
  pub burn_amount : ℕ

pub split_fee : SplitConfig → ℕ → Split
split_fee c total_fee = record {
  producer_amount = share total_fee c.producer_bps;
  treasury_amount = share total_fee c.treasury_bps;
  burn_amount =
      sub64 (sub64 total_fee (share total_fee c.producer_bps)) (share total_fee c.treasury_bps);
}

-- A product that passes the test fits in 64 bits.
product_fits : (a b : ℕ) → (b == 0 || leb a (u64_max / b)) ≡ true → a * b ≤ u64_max
product_fits a b h = elim (Bool-cases (b == 0)) [
  | inl none ↦ let zero_factor : b ≡ 0 = (==_iff b 0).0 none in rw zero_factor omega arith
  | inr some ↦
      let least : a ≤ u64_max / b = ground arith in
      let product : a * b ≤ u64_max / b * b = mul-le-mul_right b least in
      omega (arith, product, div-mul-le_self u64_max b)
]

-- Dividing first loses what the last digits of the fee would give.
divided_bounds :
    (a b : ℕ)
    → b ≤ 10000
    → (a / 10000 * b ≤ a)
      × (a / 10000 * b * 10000 ≤ a * b)
      × (a * b ≤ a / 10000 * b * 10000 + b * 10000)
divided_bounds a b h =
    let q = a / 10000 in
    let first : q * b ≤ q * 10000 = mul-le-mul_left q h in
    let low : q * 10000 * b ≤ a * b = mul-le-mul_right b (omega arith) in
    let high : a * b ≤ (q * 10000 + 10000) * b = mul-le-mul_right b (omega arith) in
    let swap : q * 10000 * b ≡ q * b * 10000 = grind arith in
    let spread : (q * 10000 + 10000) * b ≡ q * 10000 * b + 10000 * b = grind arith in
    (omega (arith, first), omega (arith, low, swap), omega (arith, high, swap, spread))

-- A share of at most 10,000 basis points of a 64-bit fee is at most the exact share, and less than
-- `bps + 1` units below it.
pub share_bounds :
    (total_fee bps : ℕ)
    → total_fee < u64_mod
    → bps ≤ 10000
    → (share total_fee bps * 10000 ≤ total_fee * bps)
      × (total_fee * bps < share total_fee bps * 10000 + (bps + 1) * 10000)
unfolding share
share_bounds total_fee bps h k = elim (Bool-cases (bps == 0 || leb total_fee (u64_max / bps))) [
  | inl fits ↦
      let small = product_fits total_fee bps fits in
      let all : share total_fee bps ≡ total_fee * bps / 10000 =
        rw (share, fits) omega (arith, small) in
      rw all (omega arith, omega arith)
  | inr large ↦
      let (word, low, high) = divided_bounds total_fee bps k in
      let all : share total_fee bps ≡ total_fee / 10000 * bps =
        rw (share, large) omega (arith, word) in
      rw all (low, omega (arith, high))
]

-- With valid shares and a 64-bit fee, the three parts add up to the fee.
pub split_fee_conserves :
    (c : SplitConfig) (total_fee : ℕ)
    → is_valid c ≡ true
    → total_fee < u64_mod
    → (split_fee c total_fee).producer_amount
        + (split_fee c total_fee).treasury_amount
        + (split_fee c total_fee).burn_amount
      ≡ total_fee
unfolding split_fee is_valid
split_fee_conserves c total_fee v h =
    let sum : c.producer_bps + c.treasury_bps + c.burn_bps ≡ 10000 =
      (==_iff (c.producer_bps + c.treasury_bps + c.burn_bps) 10000).0 v in
    let most : total_fee * (c.producer_bps + c.treasury_bps) ≤ total_fee * 10000 =
      mul-le-mul_left total_fee (omega arith) in
    let spread : total_fee * (c.producer_bps + c.treasury_bps)
        ≡ total_fee * c.producer_bps + total_fee * c.treasury_bps =
      grind arith in
    omega (
      arith,
      most,
      spread,
      (share_bounds total_fee c.producer_bps h (omega arith)).0,
      (share_bounds total_fee c.treasury_bps h (omega arith)).0,
    )
