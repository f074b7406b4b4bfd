-- ===== src/Governance/Treasury/Tests.antt =====
-- The theorems on the treasury and the fee router, applied to sample values.
use pantheon_chain.Prelude.{◌+◌, ◌≡◌, refl, true, none, some, List, [], ◌∷◌, All, arith}
use pantheon_chain.Prelude.Maps.{find, nat_key}
use pantheon_chain.Prelude.Sums.{sum_by}
use pantheon_chain.Governance.Treasury.{Treasury, new_treasury, grants_track, emergency}
use pantheon_chain.Governance.Treasury.Books.{IsSound, Moves}
use pantheon_chain.Governance.Treasury.Books.History.{
  Call, deposits, spends, opens, releases, revokes, sets_registry, sets_required, sets_ratio,
  FitsCall, came_all, went_all, perform_all, perform_all-Moves,
}
use pantheon_chain.Governance.FeeRouter.{l1_utxo, is_valid, default_config}
use pantheon_chain.Governance.FeeRouter.Route.{FeeRouter, new_router, route, route-Moves}

abbrev treasury : Treasury
treasury = new_treasury 2 1_000

treasury-IsSound : IsSound treasury
unfolding find
treasury-IsSound = (
  (omega arith, (omega arith, (omega arith, (omega arith, (omega arith, tt))))),
  tt,
  λ k le. refl,
)

-- Two deposits, a grant of two milestones, one of them released, the grant revoked, the setters, a spend.
abbrev calls : List Call
calls =
    deposits 500 (1 ∷ []) grants_track 10
    ∷ deposits 100 (1 ∷ []) emergency 11
    ∷ opens 7 (2 ∷ []) "research" (("first", 200) ∷ ("second", 100) ∷ []) 12 0 0
    ∷ releases 1 0 8 13
    ∷ revokes 1 9 14
    ∷ sets_ratio 500
    ∷ sets_required 1
    ∷ sets_registry none
    ∷ spends 50 (3 ∷ []) 10 grants_track "tools" 15
    ∷ []

calls_fit : All FitsCall calls
calls_fit = (tt, (tt, (omega arith, (tt, (tt, (tt, (tt, (tt, (tt, tt)))))))))

perform_all-Moves_example :
    Moves (came_all calls treasury) (went_all calls treasury) treasury (perform_all calls treasury)
unfolding sum_by
perform_all-Moves_example =
    perform_all-Moves calls treasury treasury-IsSound calls_fit (omega arith) (omega arith)

abbrev router : FeeRouter
router = new_router (some treasury) none

router_valid : is_valid (router.configs l1_utxo) ≡ true
unfolding is_valid default_config
router_valid = refl

route-Moves_example :
    (t : Treasury) × ((route l1_utxo 1_000 (1 ∷ []) 5 router).1.treasury ≡ some t)
    × Moves (route l1_utxo 1_000 (1 ∷ []) 5 router).0.treasury_amount 0 treasury t
    × ((route l1_utxo 1_000 (1 ∷ []) 5 router).0.producer_amount
          + (route l1_utxo 1_000 (1 ∷ []) 5 router).0.treasury_amount
          + (route l1_utxo 1_000 (1 ∷ []) 5 router).0.burn_amount
        ≡ 1_000)
unfolding sum_by
route-Moves_example =
    route-Moves l1_utxo 1_000 (1 ∷ []) 5 router treasury router_valid (omega arith) refl
      treasury-IsSound (omega arith)
