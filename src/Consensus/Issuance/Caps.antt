-- ===== src/Consensus/Issuance/Caps.antt =====
-- `CalculateSupplyAtHeight`, `GetBlockReward` and `IsValidBlockReward` of
-- layer1-talanton/core/consensus/issuance.cpp against each other and against the supply caps.
use native.Mathlib.Nat.{zero-add}
use pantheon_chain.Prelude.{
  ℕ, zero, suc, ◌+◌, ◌-◌, ◌*◌, ◌<◌, ◌≤◌, ◌≡◌, ◌↔◌, refl, sym, ap, ◌∙◌, inl, inr, true, none, some,
  ltb, Bool-cases, Option-cases, ltb→lt, ltb→le, lt→ltb, arith,
}
use pantheon_chain.Prelude.Words.{u64_mod, add64}
use pantheon_chain.Primitives.Asset.{
  AssetId, halving_interval, get_max_supply, get_achievable_supply,
  get_achievable_supply-le-get_max_supply, get_achievable_supply_lt,
}
use pantheon_chain.Consensus.Issuance.{
  get_initial_reward, start_height, reward_after, reward_from, get_block_reward, supply_from,
  calculate_supply_at_height, is_valid_block_reward, blocks_in_epoch,
}
use pantheon_chain.Consensus.Issuance.Supply.{
  reward_at, rewards_from, rewards_from-add, rewards_from-zero, rewards_from_late, reward_after-suc,
  blocks_in_epoch_bounds, after_epoch, supply_loop-rewards_from,
}

-- The sum of the rewards of the blocks below a height.
unfoldable pub issued : AssetId → ℕ → ℕ
issued asset zero = 0
issued asset (suc height) = issued asset height + get_block_reward height asset

-- Twice an epoch at the reward of its beginning bounds all that can still be issued.
rewards_from_bound :
    (epochs asset halvings n : ℕ)
    → epochs + halvings ≡ 64
    → rewards_from asset (halving_interval * halvings) n
      ≤ 2 * (halving_interval * reward_after asset halvings)
rewards_from_bound zero asset halvings n e =
    omega (arith, rewards_from_late asset (halving_interval * halvings) n (omega arith))
rewards_from_bound (suc epochs) asset halvings zero e =
    omega (arith, rewards_from-zero asset (halving_interval * halvings))
rewards_from_bound (suc epochs) asset halvings (suc n) e =
    let b = blocks_in_epoch (suc n) in
    let r = reward_after asset halvings in
    let most : b * r ≤ halving_interval * r = grind (arith, blocks_in_epoch_bounds (suc n)) in
    omega (
      arith,
      most,
      reward_after-suc asset halvings,
      after_epoch asset halvings (suc n) (omega arith),
      rewards_from_bound epochs asset (halvings + 1) (suc n - b) (omega arith),
    )

-- What the halving series can reach is the achievable supply of the asset table.
achievable :
    (asset : AssetId) → 2 * (halving_interval * reward_after asset 0) ≡ get_achievable_supply asset
unfolding reward_after get_initial_reward get_achievable_supply
achievable asset = ground arith

room : (asset : AssetId) → 2 * (halving_interval * reward_after asset 0) < u64_mod
room asset = omega (arith, achievable asset, get_achievable_supply_lt asset)

supply_from-rewards_from :
    (asset height start : ℕ)
    → supply_from asset height start ≡ rewards_from asset 0 (height - start)
unfolding supply_from
supply_from-rewards_from asset height start = elim (Bool-cases (ltb height start)) [
  | inl before ↦
      let early : height - start ≡ 0 = omega (arith, ltb→lt height start before) in
      rw (before, early, rewards_from-zero asset 0)
  | inr after ↦ rw after (
      rw
        (
          supply_loop-rewards_from 64 asset (height - start) 0 0 refl (omega (arith, room asset)),
          supply_from,
        )
        (omega arith))
]

reward_from-reward_at :
    (asset height start : ℕ)
    → start ≤ height
    → reward_from asset height start ≡ reward_at asset (height - start)
unfolding reward_from reward_at
reward_from-reward_at asset height start h = ground arith

single : (asset n : ℕ) → rewards_from asset (0 + n) 1 ≡ reward_at asset n
unfolding rewards_from
single asset n = omega (arith, ap (reward_at asset) (zero-add n))

rewards_from-snoc :
    (asset n : ℕ) → rewards_from asset 0 (suc n) ≡ rewards_from asset 0 n + reward_at asset n
rewards_from-snoc asset n =
    let last : n + 1 ≡ suc n = omega arith in
    ap (rewards_from asset 0) (sym last)
    ∙ rewards_from-add asset 0 n 1
    ∙ ap (◌+◌ (rewards_from asset 0 n)) (single asset n)

launched_reward :
    (asset start height : ℕ)
    → start_height asset ≡ some start
    → get_block_reward height asset ≡ reward_from asset height start
unfolding get_block_reward
launched_reward asset start height e = rw (e, get_block_reward)

unlaunched_reward :
    (asset height : ℕ) → start_height asset ≡ none → get_block_reward height asset ≡ 0
unfolding get_block_reward
unlaunched_reward asset height e = rw (e, get_block_reward)

early_reward : (asset start height : ℕ) → height < start → reward_from asset height start ≡ 0
unfolding reward_from
early_reward asset start height h = rw (lt→ltb height start h)

-- What the blocks below a height are worth, for an asset that starts at `start`.
issued_from :
    (asset start height : ℕ)
    → start_height asset ≡ some start
    → issued asset height ≡ rewards_from asset 0 (height - start)
unfolding issued
issued_from asset start zero e =
    let early : 0 - start ≡ 0 = omega arith in rw early (sym (rewards_from-zero asset 0))
issued_from asset start (suc height) e = elim (Bool-cases (ltb height start)) [
  | inl before ↦
      let now : suc height - start ≡ 0 = omega (arith, ltb→lt height start before) in
      let then' : height - start ≡ 0 = omega (arith, ltb→lt height start before) in
      rw
        (
          issued_from asset start height e,
          launched_reward asset start height e,
          now,
          then',
          early_reward asset start height (ltb→lt height start before),
        )
        (omega (arith, rewards_from-zero asset 0))
  | inr after ↦
      let next : suc height - start ≡ suc (height - start) =
        omega (arith, ltb→le height start after) in
      rw (issued_from asset start height e, launched_reward asset start height e, next)
        (rw (
          reward_from-reward_at asset height start (ltb→le height start after),
          rewards_from-snoc asset (height - start),
        ))
]

issued_unlaunched : (asset height : ℕ) → start_height asset ≡ none → issued asset height ≡ 0
unfolding issued
issued_unlaunched asset zero e = refl
issued_unlaunched asset (suc height) e =
    rw (issued_unlaunched asset height e, unlaunched_reward asset height e)

-- `CalculateSupplyAtHeight` is the sum of the block rewards below that height.
pub calculate_supply_at_height-eq-issued :
    (asset height : ℕ) → calculate_supply_at_height height asset ≡ issued asset height
unfolding calculate_supply_at_height
calculate_supply_at_height-eq-issued asset height = elim (Option-cases (start_height asset)) [
  | inl e ↦ rw (e, calculate_supply_at_height) (sym (issued_unlaunched asset height e))
  | inr (start, e) ↦
      rw (e, calculate_supply_at_height)
        (supply_from-rewards_from asset height start ∙ sym (issued_from asset start height e))
]

-- At no height does the supply of an asset exceed its achievable supply, nor that its hard cap.
pub calculate_supply_at_height-capped :
    (asset height : ℕ)
    → (calculate_supply_at_height height asset ≤ get_achievable_supply asset)
      × (calculate_supply_at_height height asset ≤ get_max_supply asset)
calculate_supply_at_height-capped asset height =
    let cap = get_achievable_supply-le-get_max_supply asset in
    let most : calculate_supply_at_height height asset ≤ get_achievable_supply asset =
      elim (Option-cases (start_height asset)) [
        | inl e ↦ omega (
          arith,
          calculate_supply_at_height-eq-issued asset height,
          issued_unlaunched asset height e,
        )
        | inr (start, e) ↦ omega (
          arith,
          calculate_supply_at_height-eq-issued asset height,
          issued_from asset start height e,
          rewards_from_bound 64 asset 0 (height - start) refl,
          achievable asset,
        )
      ] in
    (most, omega (arith, most, cap))

-- The test of the projected supply never fails, so a coinbase amount is a valid reward exactly when it
-- is at most the block reward of its height.
pub is_valid_block_reward_iff :
    (height asset amount : ℕ)
    → (is_valid_block_reward height asset amount ≡ true) ↔ (amount ≤ get_block_reward height asset)
unfolding is_valid_block_reward
is_valid_block_reward_iff height asset amount =
    let cap = (calculate_supply_at_height-capped asset (add64 height 1)).1 in
    (λ h. ground arith, λ h. ground (arith, cap))
