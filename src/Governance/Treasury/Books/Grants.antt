-- ===== src/Governance/Treasury/Books/Grants.antt =====
-- Grants against the holdings: what is set aside is paid by milestones or comes back
-- (layer1-talanton/governance/treasury.cpp).
use Prim.Native.String.{String}
use pantheon_chain.Prelude.{
  ℕ, ◌+◌, ◌-◌, ◌<◌, ◌≤◌, ◌≡◌, ap, ◌∙◌, true, false, ◌||◌, none, some, List, ltb, ◌==◌,
  if◌then◌else◌, inl, inr, Option-cases, Bool-cases, ltb→le, length, arith,
}
use pantheon_chain.Prelude.Words.{u64_mod, add64}
use pantheon_chain.Prelude.Maps.{find, find-insert, nat_key}
use pantheon_chain.Prelude.Ascending.{insert-Ascending}
use pantheon_chain.Prelude.Sums.{sum_by, weight_of, weight_of-le}
use pantheon_chain.Governance.Treasury.{grants_track, Milestone, Grant, Treasury, record_tx}
use pantheon_chain.Governance.Treasury.Funds.{entry}
use pantheon_chain.Governance.Treasury.Grants.{
  total_of_milestones, open_milestones, open_grant, create_grant, milestone_at, mark_released,
  pay_milestone, release_milestone, unreleased, revoke_found, revoke_grant,
}
use pantheon_chain.Governance.Treasury.Books.{
  IsSound, Moves, holdings, pledged_in, pledged, stays, sum-insert-entry, entry-le, touch-Moves,
}
use pantheon_chain.Governance.Treasury.Books.Milestones.{
  asked, total_of_milestones-asked, pledged_in-open_milestones, unreleased-pledged_in,
  pledged_in-mark_released, sum-insert_grant, insert-new,
}

open_grant-Moves :
    (total proposal_id : ℕ) (recipient : List ℕ) (purpose : String) (milestones : List (String × ℕ))
    (block_height cliff duration : ℕ) (t : Treasury)
    → IsSound t
    → total ≡ asked milestones
    → t.next_grant_id + 1 < u64_mod
    → Moves 0 0 t
        (open_grant total proposal_id recipient purpose milestones block_height cliff duration t).1
unfolding open_grant
open_grant-Moves total proposal_id recipient purpose milestones block_height cliff duration t h sum
      room =
    elim (Bool-cases (total == 0)) [
      | inl nothing ↦ rw nothing (stays t h)
      | inr something ↦ elim (Bool-cases (ltb (entry grants_track t.balances) total)) [
        | inl short ↦ rw (something, short) (touch-Moves grants_track t h)
        | inr covered ↦
            let v = entry grants_track t.balances - total in
            let enough = ltb→le (entry grants_track t.balances) total covered in
            let g : Grant = record {
              grant_id = t.next_grant_id;
              proposal_id = proposal_id;
              recipient = recipient;
              purpose = purpose;
              total_amount = total;
              released_amount = 0;
              revoked = false;
              created_at_block = block_height;
              milestones = open_milestones milestones;
            } in
            let free : weight_of pledged (find t.next_grant_id t.grants) ≡ 0 =
              ap (weight_of pledged) (h.2 t.next_grant_id (omega arith)) in
            rw (something, covered)
              (
                (
                  insert-Ascending grants_track 0 v t.balances h.0 (omega arith),
                  insert-Ascending t.next_grant_id 0 g t.grants h.1 (omega arith),
                  λ j le. ground (arith, room, h.2 j, find-insert j t.next_grant_id g t.grants),
                ),
                omega (
                  arith,
                  enough,
                  sum,
                  sum-insert-entry grants_track v t.balances h.0,
                  sum-insert_grant t.next_grant_id g t.grants h.1,
                  free,
                  pledged_in-open_milestones milestones,
                ),
              )
      ]
    ]

-- Where the sum of the milestones fits in 64 bits, a grant only sets an amount aside.
pub create_grant-Moves :
    (proposal_id : ℕ) (recipient : List ℕ) (purpose : String) (milestones : List (String × ℕ))
    (block_height cliff duration : ℕ) (t : Treasury)
    → IsSound t
    → asked milestones < u64_mod
    → t.next_grant_id + 1 < u64_mod
    → Moves 0 0 t
        (create_grant proposal_id recipient purpose milestones block_height cliff duration t).1
unfolding create_grant
create_grant-Moves proposal_id recipient purpose milestones block_height cliff duration t h fits
      room =
    elim (Bool-cases (proposal_id == 0 || (length recipient == 0 || length milestones == 0))) [
      | inl bad ↦ rw bad (stays t h)
      | inr good ↦ rw good (
          open_grant-Moves (total_of_milestones milestones 0) proposal_id recipient purpose
            milestones block_height cliff duration t h
            (omega (arith, total_of_milestones-asked milestones 0 (omega (arith, fits)))) room)
    ]

pay_milestone-Moves :
    (grant_id index proposal_id block_height : ℕ) (g : Grant) (m : Milestone) (t : Treasury)
    → IsSound t
    → find grant_id t.grants ≡ some g
    → g.revoked ≡ false
    → milestone_at index g.milestones ≡ some m
    → Moves 0
        (if (pay_milestone grant_id index proposal_id block_height g m t).0 then m.amount else 0)
        t
        (pay_milestone grant_id index proposal_id block_height g m t).1
unfolding pay_milestone record_tx
pay_milestone-Moves grant_id index proposal_id block_height g m t h e alive at =
    elim (Bool-cases m.released) [
      | inl gone ↦ rw gone (stays t h)
      | inr open_still ↦
          let g' : Grant = record g {
            milestones = mark_released index block_height g.milestones;
            released_amount = add64 g.released_amount m.amount;
          } in
          let before : weight_of pledged (find grant_id t.grants) ≡ pledged_in g.milestones =
            ap (weight_of pledged) e ∙ ground arith in
          let after : pledged g' ≡ pledged_in (mark_released index block_height g.milestones) =
            ground arith in
          rw open_still (
            (
              h.0,
              insert-Ascending grant_id 0 g' t.grants h.1 (omega arith),
              insert-new grant_id t.next_grant_id g g' t.grants h.2 e,
            ),
            omega (
              arith,
              before,
              after,
              sum-insert_grant grant_id g' t.grants h.1,
              pledged_in-mark_released index block_height g.milestones m at open_still,
            ),
          )
    ]

revoke_found-Moves :
    (grant_id proposal_id block_height : ℕ) (g : Grant) (t : Treasury)
    → IsSound t
    → holdings t < u64_mod
    → find grant_id t.grants ≡ some g
    → Moves 0 0 t (revoke_found grant_id proposal_id block_height g t).1
unfolding revoke_found record_tx
revoke_found-Moves grant_id proposal_id block_height g t h fits e = elim (Bool-cases g.revoked) [
  | inl gone ↦ rw gone (stays t h)
  | inr alive ↦
      let g' : Grant = record g { revoked = true } in
      let back = unreleased g.milestones 0 in
      let v = add64 (entry grants_track t.balances) back in
      let before : weight_of pledged (find grant_id t.grants) ≡ pledged_in g.milestones =
        ap (weight_of pledged) e ∙ ground arith in
      let least : pledged_in g.milestones ≤ sum_by pledged t.grants =
        omega (arith, before, weight_of-le pledged grant_id t.grants) in
      let exact : back ≡ pledged_in g.milestones =
        omega (arith, fits, least, unreleased-pledged_in g.milestones 0) in
      rw alive (
        (
          insert-Ascending grants_track 0 v t.balances h.0 (omega arith),
          insert-Ascending grant_id 0 g' t.grants h.1 (omega arith),
          insert-new grant_id t.next_grant_id g g' t.grants h.2 e,
        ),
        omega (
          arith,
          fits,
          least,
          exact,
          before,
          entry-le grants_track t.balances,
          sum-insert-entry grants_track v t.balances h.0,
          sum-insert_grant grant_id g' t.grants h.1,
        ),
      )
]

pub revoke_grant-Moves :
    (grant_id proposal_id block_height : ℕ) (t : Treasury)
    → IsSound t
    → holdings t < u64_mod
    → Moves 0 0 t (revoke_grant grant_id proposal_id block_height t).1
unfolding revoke_grant
revoke_grant-Moves grant_id proposal_id block_height t h fits =
    elim (Bool-cases (proposal_id == 0)) [
      | inl bad ↦ rw bad (stays t h)
      | inr good ↦ elim (Option-cases (find grant_id t.grants)) [
        | inl unknown ↦ rw (good, unknown, revoke_grant) (stays t h)
        | inr (g, e) ↦
            rw (good, e, revoke_grant)
              (revoke_found-Moves grant_id proposal_id block_height g t h fits e)
      ]
    ]

-- The amount of a milestone, where the release pays it.
abbrev pub paid_by_release : ℕ → ℕ → ℕ → ℕ → Treasury → ℕ
paid_by_release grant_id index proposal_id block_height t =
    if (release_milestone grant_id index proposal_id block_height t).0
    then elim (find grant_id t.grants) [
      | none ↦ 0
      | some g ↦ elim (milestone_at index g.milestones) [ none ↦ 0 | some m ↦ m.amount ]
    ]
    else 0

pub release_milestone-Moves :
    (grant_id index proposal_id block_height : ℕ) (t : Treasury)
    → IsSound t
    → Moves 0
        (paid_by_release grant_id index proposal_id block_height t)
        t
        (release_milestone grant_id index proposal_id block_height t).1
unfolding release_milestone
release_milestone-Moves grant_id index proposal_id block_height t h =
    elim (Bool-cases (proposal_id == 0)) [
      | inl bad ↦ rw bad (stays t h)
      | inr good ↦ elim (Option-cases (find grant_id t.grants)) [
        | inl unknown ↦ rw (good, unknown, release_milestone) (stays t h)
        | inr (g, e) ↦ elim (Bool-cases g.revoked) [
          | inl gone ↦ rw (good, e, release_milestone, gone) (stays t h)
          | inr alive ↦ elim (Option-cases (milestone_at index g.milestones)) [
            | inl missing ↦ rw (good, e, release_milestone, alive, missing) (stays t h)
            | inr (m, at) ↦
                rw (good, e, release_milestone, alive, at)
                  (pay_milestone-Moves grant_id index proposal_id block_height g m t h e alive at)
          ]
        ]
      ]
    ]
