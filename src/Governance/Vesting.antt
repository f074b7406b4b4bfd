-- ===== src/Governance/Vesting.antt =====
-- `VestingRegistry`: cliff and linear vesting schedules
-- (layer1-talanton/governance/vesting.h and vesting.cpp).
pub mod Formula
pub mod Steps
pub mod Claims
use pantheon_chain.Prelude.{
  ℕ, ◌+◌, ◌-◌, ◌*◌, ◌/◌, ◌%◌, Bool, true, false, ◌||◌, Option, none, some, List, [], ◌∷◌, ltb, leb,
  ◌==◌, if◌then◌else◌, length,
}
use pantheon_chain.Prelude.Words.{add64, mul64}
use pantheon_chain.Prelude.Maps.{Map, find, insert, bytes_beq, nat_key}

pub record VestingSchedule : Type 0 where
  pub schedule_id : ℕ
  pub beneficiary : List ℕ
  pub total_amount : ℕ
  pub start_block : ℕ
  pub cliff_blocks : ℕ
  pub duration_blocks : ℕ
  pub claimed_amount : ℕ
  pub revoked : Bool
  pub revoked_at_block : ℕ
  pub grant_id : ℕ

pub record VestingRegistry : Type 0 where
  pub schedules : Map ℕ VestingSchedule
  pub next_id : ℕ

abbrev pub empty_registry : VestingRegistry
empty_registry = record { schedules = []; next_id = 1 }

-- The part of the amount that `elapsed` of `duration` blocks release, in 64-bit arithmetic.
pub linear : ℕ → ℕ → ℕ → ℕ
linear total duration elapsed =
    add64 (mul64 (total / duration) elapsed) (mul64 (total % duration) elapsed / duration)

pub vested_from : VestingSchedule → ℕ → ℕ → ℕ
vested_from s cliff_end current_block =
    if ltb current_block cliff_end
    then 0
    else if leb (add64 cliff_end s.duration_blocks) current_block
    then s.total_amount
    else linear s.total_amount s.duration_blocks (current_block - cliff_end)

pub compute_vested : VestingSchedule → ℕ → ℕ
compute_vested s current_block =
    if s.total_amount == 0 || s.duration_blocks == 0
    then 0
    else vested_from s (add64 s.start_block s.cliff_blocks) current_block

-- The arguments of `CreateSchedule`.
pub record Grant : Type 0 where
  pub beneficiary : List ℕ
  pub total_amount : ℕ
  pub start_block : ℕ
  pub cliff_blocks : ℕ
  pub duration_blocks : ℕ
  pub grant_id : ℕ

pub create_schedule : Grant → VestingRegistry → ℕ × VestingRegistry
create_schedule g r =
    if length g.beneficiary == 0 || (g.total_amount == 0 || g.duration_blocks == 0)
    then (0, r)
    else (
      r.next_id,
      record {
        schedules =
            insert r.next_id
              (record {
                schedule_id = r.next_id;
                beneficiary = g.beneficiary;
                total_amount = g.total_amount;
                start_block = g.start_block;
                cliff_blocks = g.cliff_blocks;
                duration_blocks = g.duration_blocks;
                claimed_amount = 0;
                revoked = false;
                revoked_at_block = 0;
                grant_id = g.grant_id;
              })
              r.schedules;
        next_id = add64 r.next_id 1;
      },
    )

unfoldable pub get_schedule : ℕ → VestingRegistry → Option VestingSchedule
get_schedule schedule_id r = find schedule_id r.schedules

unfoldable pub get_total_vested : ℕ → ℕ → VestingRegistry → ℕ
get_total_vested schedule_id current_block r = elim (find schedule_id r.schedules) [
  | none ↦ 0
  | some s ↦
      if s.revoked then compute_vested s s.revoked_at_block else compute_vested s current_block
]

pub get_claimable : ℕ → ℕ → VestingRegistry → ℕ
get_claimable schedule_id current_block r = elim (find schedule_id r.schedules) [
  | none ↦ 0
  | some s ↦
      if s.revoked
      then 0
      else if ltb s.claimed_amount (compute_vested s current_block)
      then compute_vested s current_block - s.claimed_amount
      else 0
]

pub get_reclaimable : ℕ → ℕ → VestingRegistry → ℕ
get_reclaimable schedule_id current_block r = elim (find schedule_id r.schedules) [
  | none ↦ 0
  | some s ↦
      if s.revoked
      then 0
      else if ltb (compute_vested s current_block) s.total_amount
      then s.total_amount - compute_vested s current_block
      else 0
]

-- The amount that is paid out, and the registry after it.
pub claim : ℕ → ℕ → VestingRegistry → ℕ × VestingRegistry
claim schedule_id current_block r = elim (find schedule_id r.schedules) [
  | none ↦ (0, r)
  | some s ↦
      if s.revoked
      then (0, r)
      else if get_claimable schedule_id current_block r == 0
      then (0, r)
      else (
        get_claimable schedule_id current_block r,
        record r {
          schedules =
              insert schedule_id
                (record s {
                  claimed_amount =
                      add64 s.claimed_amount (get_claimable schedule_id current_block r);
                })
                r.schedules;
        },
      )
]

-- The amount that goes back to the treasury, and the registry after it.
pub revoke : ℕ → ℕ → ℕ → VestingRegistry → ℕ × VestingRegistry
revoke schedule_id proposal_id current_block r =
    if proposal_id == 0 then (0, r) else elim (find schedule_id r.schedules) [
      | none ↦ (0, r)
      | some s ↦ if s.revoked then (0, r) else (
        get_reclaimable schedule_id current_block r,
        record r {
          schedules =
              insert schedule_id (record s { revoked = true; revoked_at_block = current_block })
                r.schedules;
        },
      )
    ]

-- The schedules of a beneficiary, in the order of their numbers.
unfoldable pub schedules_of : List ℕ → Map ℕ VestingSchedule → List VestingSchedule
schedules_of beneficiary [] = []
schedules_of beneficiary ((id, s) ∷ m) =
    let rest = schedules_of beneficiary m in
    if bytes_beq s.beneficiary beneficiary then s ∷ rest else rest
