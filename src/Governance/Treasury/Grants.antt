-- ===== src/Governance/Treasury/Grants.antt =====
-- Milestone grants (layer1-talanton/governance/treasury.cpp).
use Prim.Native.String.{String}
use pantheon_chain.Prelude.{
  ℕ, zero, suc, ◌-◌, Bool, true, false, not, ◌||◌, Option, none, some, List, [], ◌∷◌, ltb, ◌==◌,
  if◌then◌else◌, length,
}
use pantheon_chain.Prelude.Words.{add64}
use pantheon_chain.Prelude.Maps.{find, insert, nat_key}
use pantheon_chain.Governance.Vesting.{VestingRegistry, create_schedule}
use pantheon_chain.Governance.Treasury.{grants_track, Milestone, Grant, Treasury, record_tx}
use pantheon_chain.Governance.Treasury.Funds.{entry, touch}

unfoldable pub total_of_milestones : List (String × ℕ) → ℕ → ℕ
total_of_milestones [] total = total
total_of_milestones ((d, a) ∷ ms) total = total_of_milestones ms (add64 total a)

unfoldable pub open_milestones : List (String × ℕ) → List Milestone
open_milestones [] = []
open_milestones ((d, a) ∷ ms) =
    record { description = d; amount = a; released = false; released_at_block = 0 }
    ∷ open_milestones ms

-- The schedule is made where a registry is attached and a duration is given.
unfoldable pub vest : List ℕ → ℕ → ℕ → ℕ → ℕ → ℕ → Option VestingRegistry → Option VestingRegistry
vest recipient total block_height cliff duration grant_id none = none
vest recipient total block_height cliff duration grant_id (some r) =
    if ltb 0 duration
    then some
        (create_schedule
          (record {
            beneficiary = recipient;
            total_amount = total;
            start_block = block_height;
            cliff_blocks = cliff;
            duration_blocks = duration;
            grant_id = grant_id;
          })
          r).1
    else some r

-- The rest of `CreateGrant`, once the total is known.
unfoldable pub open_grant :
    ℕ → ℕ → List ℕ → String → List (String × ℕ) → ℕ → ℕ → ℕ → Treasury → ℕ × Treasury
open_grant total proposal_id recipient purpose milestones block_height cliff duration t =
    if total == 0
    then (0, t)
    else if ltb (entry grants_track t.balances) total
    then (0, touch grants_track t)
    else (
      t.next_grant_id,
      record t {
        next_grant_id = add64 t.next_grant_id 1;
        balances = insert grants_track (entry grants_track t.balances - total) t.balances;
        grants =
            insert t.next_grant_id
              (record {
                grant_id = t.next_grant_id;
                proposal_id = proposal_id;
                recipient = recipient;
                purpose = purpose;
                total_amount = total;
                released_amount = 0;
                revoked = false;
                created_at_block = block_height;
                milestones = open_milestones milestones;
              })
              t.grants;
        vesting_registry =
            vest recipient total block_height cliff duration t.next_grant_id t.vesting_registry;
      },
    )

unfoldable pub create_grant :
    ℕ → List ℕ → String → List (String × ℕ) → ℕ → ℕ → ℕ → Treasury → ℕ × Treasury
create_grant proposal_id recipient purpose milestones block_height cliff duration t =
    if proposal_id == 0 || (length recipient == 0 || length milestones == 0)
    then (0, t)
    else open_grant (total_of_milestones milestones 0) proposal_id recipient purpose milestones
        block_height cliff duration t

unfoldable pub milestone_at : ℕ → List Milestone → Option Milestone
milestone_at i [] = none
milestone_at zero (m ∷ ms) = some m
milestone_at (suc i) (m ∷ ms) = milestone_at i ms

unfoldable pub mark_released : ℕ → ℕ → List Milestone → List Milestone
mark_released i block_height [] = []
mark_released zero block_height (m ∷ ms) =
    record m { released = true; released_at_block = block_height } ∷ ms
mark_released (suc i) block_height (m ∷ ms) = m ∷ mark_released i block_height ms

-- A milestone that was found in a grant.
unfoldable pub pay_milestone : ℕ → ℕ → ℕ → ℕ → Grant → Milestone → Treasury → Bool × Treasury
pay_milestone grant_id index proposal_id block_height g m t = if m.released then (false, t) else (
  true,
  record_tx false m.amount g.recipient grants_track proposal_id grant_id g.purpose block_height
      (record t {
        grants =
            insert grant_id
              (record g {
                milestones = mark_released index block_height g.milestones;
                released_amount = add64 g.released_amount m.amount;
              })
              t.grants;
      }),
)

unfoldable pub release_milestone : ℕ → ℕ → ℕ → ℕ → Treasury → Bool × Treasury
release_milestone grant_id milestone_index proposal_id block_height t =
    if proposal_id == 0 then (false, t) else elim (find grant_id t.grants) [
      | none ↦ (false, t)
      | some g ↦
          if g.revoked then (false, t) else elim (milestone_at milestone_index g.milestones) [
            | none ↦ (false, t)
            | some m ↦ pay_milestone grant_id milestone_index proposal_id block_height g m t
          ]
    ]

unfoldable pub unreleased : List Milestone → ℕ → ℕ
unreleased [] refund = refund
unreleased (m ∷ ms) refund =
    unreleased ms (if not m.released then add64 refund m.amount else refund)

unfoldable pub revoke_found : ℕ → ℕ → ℕ → Grant → Treasury → Bool × Treasury
revoke_found grant_id proposal_id block_height g t = if g.revoked then (false, t) else (
  true,
  record_tx true (unreleased g.milestones 0) g.recipient grants_track proposal_id grant_id
      "grant revoked – refund" block_height
      (record t {
        balances =
            insert grants_track (add64 (entry grants_track t.balances) (unreleased g.milestones 0))
              t.balances;
        grants = insert grant_id (record g { revoked = true }) t.grants;
      }),
)

unfoldable pub revoke_grant : ℕ → ℕ → ℕ → Treasury → Bool × Treasury
revoke_grant grant_id proposal_id block_height t =
    if proposal_id == 0 then (false, t) else elim (find grant_id t.grants) [
      | none ↦ (false, t)
      | some g ↦ revoke_found grant_id proposal_id block_height g t
    ]
