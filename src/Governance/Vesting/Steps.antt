-- ===== src/Governance/Vesting/Steps.antt =====
-- What each call of the vesting registry does to the schedules that are looked up
-- (layer1-talanton/governance/vesting.cpp).
use pantheon_chain.Prelude.{
  ℕ, ◌+◌, ◌<◌, ◌≤◌, ◌≡◌, refl, ◌||◌, Option-cases, Bool, true, false, some, ◌==◌, inl, inr,
  Bool-cases, ==_iff, length, arith,
}
use pantheon_chain.Prelude.Words.{u64_mod, add64}
use pantheon_chain.Prelude.Maps.{find, find-insert, nat_key}
use pantheon_chain.Governance.Vesting.{
  VestingSchedule, VestingRegistry, Grant, compute_vested, create_schedule, get_claimable,
  get_reclaimable, claim, revoke,
}
use pantheon_chain.Governance.Vesting.Formula.{FitsSchedule, compute_vested_bounds}

pub find-create_schedule :
    (id : ℕ) (g : Grant) (r : VestingRegistry)
    → id < r.next_id
    → r.next_id + 1 < u64_mod
    → (find id (create_schedule g r).1.schedules ≡ find id r.schedules)
      × (id < (create_schedule g r).1.next_id)
unfolding create_schedule
find-create_schedule id g r older room =
    elim (Bool-cases
      (length g.beneficiary == 0 || (g.total_amount == 0 || g.duration_blocks == 0))) [
        | inl bad ↦ rw bad (refl, older)
        | inr good ↦ rw good (rw (find-insert id r.next_id _ r.schedules) ground arith, omega arith)
      ]

pub claim-next_id : (id block : ℕ) (r : VestingRegistry) → (claim id block r).1.next_id ≡ r.next_id
unfolding claim
claim-next_id id block r = ground arith

pub find-claim_other :
    (id j block : ℕ) (r : VestingRegistry)
    → (id == j) ≡ false
    → find id (claim j block r).1.schedules ≡ find id r.schedules
unfolding claim
find-claim_other id j block r other = elim (Option-cases (find j r.schedules)) [
  | inl e ↦ rw (e, claim) refl
  | inr (s, e) ↦
      rw (e, claim) ground
        (
          arith,
          find-insert id j
              (record s { claimed_amount = add64 s.claimed_amount (get_claimable j block r) })
              r.schedules,
        )
]

-- What a claim pays stays within the amount of the schedule, and is added to what was claimed.
pub claim_own :
    (id block : ℕ) (r : VestingRegistry) (s : VestingSchedule)
    → find id r.schedules ≡ some s
    → FitsSchedule s
    → s.claimed_amount ≤ s.total_amount
    → (s.claimed_amount + (claim id block r).0 ≤ s.total_amount)
      × (find id (claim id block r).1.schedules
          ≡ some (record s { claimed_amount = s.claimed_amount + (claim id block r).0 }))
unfolding claim get_claimable
claim_own id block r s e fits le =
    let c = get_claimable id block r in
    let later : VestingSchedule = record s { claimed_amount = add64 s.claimed_amount c } in
    let bound = compute_vested_bounds s block block fits (omega arith) in
    rw (e, claim, get_claimable) ground
      (arith, ==_iff id id, bound, fits.amount_word, find-insert id id later r.schedules)

pub revoke-next_id :
    (id proposal block : ℕ) (r : VestingRegistry)
    → (revoke id proposal block r).1.next_id ≡ r.next_id
unfolding revoke
revoke-next_id id proposal block r = ground arith

pub find-revoke_other :
    (id j proposal block : ℕ) (r : VestingRegistry)
    → (id == j) ≡ false
    → find id (revoke j proposal block r).1.schedules ≡ find id r.schedules
unfolding revoke
find-revoke_other id j proposal block r other = elim (Option-cases (find j r.schedules)) [
  | inl e ↦ rw (e, revoke) ground arith
  | inr (s, e) ↦
      rw (e, revoke) ground
        (
          arith,
          find-insert id j (record s { revoked = true; revoked_at_block = block }) r.schedules,
        )
]

-- A revocation changes nothing of a schedule but its two marks.
pub revoke_own :
    (id proposal block : ℕ) (r : VestingRegistry) (s : VestingSchedule)
    → find id r.schedules ≡ some s
    → (marked : Bool) × (at : ℕ) × (find id (revoke id proposal block r).1.schedules
        ≡ some (record s { revoked = marked; revoked_at_block = at }))
unfolding revoke
revoke_own id proposal block r s e = elim (Bool-cases (proposal == 0 || s.revoked)) [
  | inl idle ↦ (s.revoked, s.revoked_at_block, rw (e, revoke) ground arith)
  | inr acts ↦ (
    true,
    block,
    rw (e, revoke) ground
        (
          arith,
          ==_iff id id,
          find-insert id id (record s { revoked = true; revoked_at_block = block }) r.schedules,
        ),
  )
]

-- A revocation of a known schedule, under a proposal number above zero, returns at most what was not
-- claimed, if no more was claimed than the amount and than had vested by its block, and a claim after it
-- pays nothing and changes nothing.
pub revoke_settles :
    (id proposal block later : ℕ) (r : VestingRegistry) (s : VestingSchedule)
    → find id r.schedules ≡ some s
    → 0 < proposal
    → s.claimed_amount ≤ s.total_amount
    → s.claimed_amount ≤ compute_vested s block
    → (s.claimed_amount + (revoke id proposal block r).0 ≤ s.total_amount)
      × (claim id later (revoke id proposal block r).1 ≡ (0, (revoke id proposal block r).1))
unfolding revoke get_reclaimable claim
revoke_settles id proposal block later r s e p h le =
    let marked : VestingSchedule = record s { revoked = true; revoked_at_block = block } in
    (
      ground arith,
      rw (e, revoke) ground (arith, ==_iff id id, find-insert id id marked r.schedules),
    )
