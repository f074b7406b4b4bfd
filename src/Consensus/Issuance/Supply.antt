-- ===== src/Consensus/Issuance/Supply.antt =====
-- The loop of `CalculateSupplyAtHeight` (layer1-talanton/core/consensus/issuance.cpp) against the sum
-- of the block rewards, and the supply caps.
use native.Mathlib.Nat.{
  zero-add, add-zero, suc-add, div-div-eq-div-mul, pow-suc, mul-div_cancel_left,
}
use native.Mathlib.Numerals.{add-one}
use pantheon_chain.Prelude.{
  ℕ, zero, suc, ◌+◌, ◌-◌, ◌*◌, ◌/◌, ◌^◌, ◌<◌, ◌≤◌, ◌≡◌, refl, sym, ap, ◌∙◌, inl, inr, some, ltb,
  leb, ◌==◌, if◌then◌else◌, Bool-cases, ltb→lt, ltb→le, le→ltb, ==_iff, arith,
}
use pantheon_chain.Prelude.Words.{u64_mod, add64, mul64}
use pantheon_chain.Primitives.Asset.{AssetId, halving_interval}
use pantheon_chain.Consensus.Issuance.{
  get_initial_reward, reward_after, blocks_in_epoch, supply_loop,
}

-- The reward of the block that comes `n` blocks after the launch.
unfoldable pub reward_at : AssetId → ℕ → ℕ
reward_at asset n =
    if leb 64 (n / halving_interval) then 0 else reward_after asset (n / halving_interval)

-- The rewards of `count` blocks from the `n`th on.
unfoldable pub rewards_from : AssetId → ℕ → ℕ → ℕ
rewards_from asset n zero = 0
rewards_from asset n (suc count) = reward_at asset n + rewards_from asset (n + 1) count

pub rewards_from-add :
    (asset n k m : ℕ)
    → rewards_from asset n (k + m) ≡ rewards_from asset n k + rewards_from asset (n + k) m
unfolding rewards_from
rewards_from-add asset n zero m = rw (zero-add m, add-zero n) (omega arith)
rewards_from-add asset n (suc k) m =
    let shift : n + 1 + k ≡ n + suc k = omega arith in
    rw (suc-add k m)
      (omega (arith, rewards_from-add asset (n + 1) k m, ap (λ t. rewards_from asset t m) shift))

reward_at_epoch :
    (asset h j : ℕ)
    → h < 64
    → j < halving_interval
    → reward_at asset (halving_interval * h + j) ≡ reward_after asset h
unfolding reward_at
reward_at_epoch asset h j p q =
    let e : (halving_interval * h + j) / halving_interval ≡ h = omega arith in rw e (ground arith)

rewards_from_epoch :
    (asset h j m : ℕ)
    → h < 64
    → j + m ≤ halving_interval
    → rewards_from asset (halving_interval * h + j) m ≡ m * reward_after asset h
unfolding rewards_from
rewards_from_epoch asset h j zero p q = omega arith
rewards_from_epoch asset h j (suc m) p q =
    let next : halving_interval * h + j + 1 ≡ halving_interval * h + (j + 1) = omega arith in
    grind (
      arith,
      reward_at_epoch asset h j p (omega arith),
      ap (λ t. rewards_from asset t m) next,
      rewards_from_epoch asset h (j + 1) m p (omega arith),
    )

pub rewards_from_late : (asset n m : ℕ) → halving_interval * 64 ≤ n → rewards_from asset n m ≡ 0
unfolding rewards_from reward_at
rewards_from_late asset n zero p = refl
rewards_from_late asset n (suc m) p = ground (arith, rewards_from_late asset (n + 1) m)

-- One halving more at least halves the reward.
pub reward_after-suc : (asset h : ℕ) → 2 * reward_after asset (h + 1) ≤ reward_after asset h
unfolding reward_after
reward_after-suc asset h =
    let r = get_initial_reward asset in
    let e : r / 2 ^ h / 2 ≡ r / 2 ^ (h + 1) =
      div-div-eq-div-mul r (2 ^ h) 2 ∙ ap (λ (t : ℕ). r / t) (rw (add-one h) (sym (pow-suc 2 h))) in
    omega (arith, e)

pub rewards_from-zero : (asset n : ℕ) → rewards_from asset n 0 ≡ 0
unfolding rewards_from
rewards_from-zero asset n = refl

-- Before an epoch the loop has not spent more than this bound allows.
abbrev pub Room : AssetId → ℕ → ℕ → Type 0
Room asset halvings total = total + 2 * (halving_interval * reward_after asset halvings) < u64_mod

pub blocks_in_epoch_bounds :
    (n : ℕ) → 0 < n → (0 < blocks_in_epoch n) × (blocks_in_epoch n ≤ halving_interval)
unfolding blocks_in_epoch
blocks_in_epoch_bounds n h = ground arith

epoch_exact :
    (asset halvings total b : ℕ)
    → 0 < b
    → b ≤ halving_interval
    → Room asset halvings total
    → (mul64 b (reward_after asset halvings) ≡ b * reward_after asset halvings)
      × (b * reward_after asset halvings / b ≡ reward_after asset halvings)
      × (add64 total (b * reward_after asset halvings) ≡ total + b * reward_after asset halvings)
      × Room asset (halvings + 1) (total + b * reward_after asset halvings)
epoch_exact asset halvings total b p q room =
    let r = reward_after asset halvings in
    let most : b * r ≤ halving_interval * r = grind arith in
    let less = reward_after-suc asset halvings in
    (omega arith, mul-div_cancel_left r p, omega arith, omega arith)

whole_epoch :
    (asset h m : ℕ)
    → h < 64
    → m ≤ halving_interval
    → rewards_from asset (halving_interval * h) m ≡ m * reward_after asset h
whole_epoch asset h m p q =
    rw (← add-zero (halving_interval * h)) (rewards_from_epoch asset h 0 m p (omega arith))

pub after_epoch :
    (asset halvings remaining : ℕ)
    → halvings < 64
    → rewards_from asset (halving_interval * halvings) remaining
      ≡ blocks_in_epoch remaining * reward_after asset halvings
        + rewards_from asset
            (halving_interval * (halvings + 1))
            (remaining - blocks_in_epoch remaining)
unfolding blocks_in_epoch
after_epoch asset halvings remaining p = elim (Bool-cases (ltb halving_interval remaining)) [
  | inl more ↦
      let step : halving_interval * halvings + halving_interval
          ≡ halving_interval * (halvings + 1) =
        omega arith in
      let all : halving_interval + (remaining - halving_interval) ≡ remaining =
        omega (arith, ltb→lt halving_interval remaining more) in
      rw more (
        omega (
          arith,
          ap (rewards_from asset (halving_interval * halvings)) all,
          rewards_from-add asset (halving_interval * halvings) halving_interval
              (remaining - halving_interval),
          ap (λ t. rewards_from asset t (remaining - halving_interval)) step,
          whole_epoch asset halvings halving_interval p (omega arith),
        ))
  | inr last ↦
      let none_left : remaining - remaining ≡ 0 = omega arith in
      rw last (
        omega (
          arith,
          ap (rewards_from asset (halving_interval * (halvings + 1))) none_left,
          rewards_from-zero asset (halving_interval * (halvings + 1)),
          whole_epoch asset halvings remaining p (ltb→le halving_interval remaining last),
        ))
]

-- The loop never takes an overflow branch, and adds the rewards of the blocks that remain.
pub supply_loop-rewards_from :
    (epochs asset remaining halvings total : ℕ)
    → epochs + halvings ≡ 64
    → Room asset halvings total
    → supply_loop epochs asset remaining halvings total
      ≡ some (total + rewards_from asset (halving_interval * halvings) remaining)
unfolding supply_loop
supply_loop-rewards_from zero asset remaining halvings total e room =
    rw (
      rewards_from_late asset (halving_interval * halvings) remaining (omega arith),
      add-zero total,
    )
supply_loop-rewards_from (suc epochs) asset remaining halvings total e room =
    elim (Bool-cases (remaining == 0)) [
      | inl done ↦
          let nothing : remaining ≡ 0 = (==_iff remaining 0).0 done in
          rw (done, nothing, rewards_from-zero, add-zero total)
      | inr more ↦
          let b = blocks_in_epoch remaining in
          let p = reward_after asset halvings in
          let bounds = blocks_in_epoch_bounds remaining (ground arith) in
          let exact = epoch_exact asset halvings total b bounds.0 bounds.1 room in
          rw (more, exact.0)
            (rw (exact.1, exact.2)
              (rw
                (
                  (==_iff p p).1 refl,
                  le→ltb (total + b * p) total (omega arith),
                  supply_loop-rewards_from epochs asset (remaining - b) (halvings + 1)
                      (total + b * p) (omega arith) exact.3,
                )
                (ap some (omega (arith, after_epoch asset halvings remaining (omega arith))))))
    ]
