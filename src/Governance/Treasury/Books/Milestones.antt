-- ===== src/Governance/Treasury/Books/Milestones.antt =====
-- Sums over the milestones of a grant and over the grants (layer1-talanton/governance/treasury.cpp).
use Prim.Native.String.{String}
use pantheon_chain.Prelude.{
  ℕ, zero, suc, ◌+◌, ◌<◌, ◌≤◌, ◌≡◌, refl, subst, false, none, some, List, [], ◌∷◌, arith,
}
use pantheon_chain.Prelude.Words.{u64_mod, add64}
use pantheon_chain.Prelude.Maps.{Map, find, insert, find-insert, nat_key}
use pantheon_chain.Prelude.Ascending.{Ascending}
use pantheon_chain.Prelude.Sums.{sum_by, sum_by-insert, weight_of, weight_of-le}
use pantheon_chain.Governance.Treasury.{Milestone, Grant}
use pantheon_chain.Governance.Treasury.Grants.{
  total_of_milestones, open_milestones, milestone_at, mark_released, unreleased,
}
use pantheon_chain.Governance.Treasury.Books.{pledged_in, pledged}

-- The sum as a natural number.
abbrev pub asked : List (String × ℕ) → ℕ
asked [] = 0
asked ((d, a) ∷ ms) = a + asked ms

pub total_of_milestones-asked :
    (ms : List (String × ℕ)) (total : ℕ)
    → total + asked ms < u64_mod
    → total_of_milestones ms total ≡ total + asked ms
unfolding total_of_milestones
total_of_milestones-asked [] total h = omega arith
total_of_milestones-asked ((d, a) ∷ ms) total h =
    omega (arith, total_of_milestones-asked ms (add64 total a) (omega (arith, h)))

pub pledged_in-open_milestones :
    (ms : List (String × ℕ)) → pledged_in (open_milestones ms) ≡ asked ms
unfolding open_milestones
pledged_in-open_milestones [] = refl
pledged_in-open_milestones ((d, a) ∷ ms) = omega (arith, pledged_in-open_milestones ms)

pub unreleased-pledged_in :
    (ms : List Milestone) (refund : ℕ)
    → refund + pledged_in ms < u64_mod
    → unreleased ms refund ≡ refund + pledged_in ms
unfolding unreleased
unreleased-pledged_in [] refund h = omega arith
unreleased-pledged_in (m ∷ ms) refund h =
    ground
      (arith, unreleased-pledged_in ms refund, unreleased-pledged_in ms (add64 refund m.amount))

pub pledged_in-mark_released :
    (i block_height : ℕ) (ms : List Milestone) (m : Milestone)
    → milestone_at i ms ≡ some m
    → m.released ≡ false
    → pledged_in (mark_released i block_height ms) + m.amount ≡ pledged_in ms
unfolding milestone_at mark_released
pledged_in-mark_released i block_height [] m e h = cc
pledged_in-mark_released zero block_height (x ∷ ms) m e h = ground arith
pledged_in-mark_released (suc i) block_height (x ∷ ms) m e h =
    ground (arith, pledged_in-mark_released i block_height ms m)

-- A grant written under a number, as a change of what is pledged.
pub sum-insert_grant :
    (k : ℕ) (g : Grant) (m : Map ℕ Grant)
    → Ascending 0 m
    → sum_by pledged (insert k g m) + weight_of pledged (find k m) ≡ sum_by pledged m + pledged g
sum-insert_grant k g m h = sum_by-insert pledged k 0 g m h

pub pledged-le :
    (k : ℕ) (g : Grant) (m : Map ℕ Grant) → find k m ≡ some g → pledged g ≤ sum_by pledged m
pledged-le k g m e =
    subst (λ o. weight_of pledged o ≤ sum_by pledged m) e (weight_of-le pledged k m)

-- Writing where a grant stands leaves the numbers to come free.
pub insert-new :
    (k next : ℕ) (g v : Grant) (m : Map ℕ Grant)
    → ((j : ℕ) → next ≤ j → find j m ≡ none)
    → find k m ≡ some g
    → (j : ℕ) → next ≤ j
    → find j (insert k v m) ≡ none
insert-new k next g v m new e j le = ground (arith, new j le, new k, find-insert j k v m)
