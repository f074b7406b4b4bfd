-- ===== src/Governance/Treasury/Books/History.antt =====
-- The holdings over any sequence of calls of the treasury (layer1-talanton/governance/treasury.cpp).
use Prim.Native.String.{String}
use pantheon_chain.Prelude.{
  refl, Option, ℕ, ◌+◌, ◌<◌, ◌≤◌, ◌≡◌, List, [], ◌∷◌, if◌then◌else◌, All, length, arith,
}
use pantheon_chain.Prelude.Words.{u64_mod}
use pantheon_chain.Prelude.Maps.{Map, nat_key}
use pantheon_chain.Governance.Vesting.{VestingRegistry}
use pantheon_chain.Governance.Treasury.{
  Track, Treasury, record_tx, set_vesting_registry, set_multi_sig_required, set_reserve_ratio_bps,
}
use pantheon_chain.Governance.Treasury.Funds.{deposit, spend, touch, create_budget_period}
use pantheon_chain.Governance.Treasury.Reserve.{
  add_guardian, remove_guardian, propose_multi_sig_spend, sign_multi_sig_spend, pay_out,
  execute_multi_sig_spend,
}
use pantheon_chain.Governance.Treasury.Grants.{
  create_grant, open_grant, release_milestone, pay_milestone, revoke_grant, revoke_found,
}
use pantheon_chain.Governance.Treasury.Books.{IsSound, Moves, holdings, stays}
use pantheon_chain.Governance.Treasury.Books.Funds.{
  deposit-Moves, spend-Moves, paid_by_execution, execute_multi_sig_spend-Moves,
}
use pantheon_chain.Governance.Treasury.Books.Milestones.{asked}
use pantheon_chain.Governance.Treasury.Books.Grants.{
  create_grant-Moves, paid_by_release, release_milestone-Moves, revoke_grant-Moves,
}
use pantheon_chain.Governance.Treasury.Books.Neutral.{
  SameBooks-Moves, add_guardian-SameBooks, remove_guardian-SameBooks,
  propose_multi_sig_spend-SameBooks, sign_multi_sig_spend-SameBooks, create_budget_period-SameBooks,
}

pub data Call : Type 0 where
  deposits : ℕ → List ℕ → Track → ℕ → Call
  spends : ℕ → List ℕ → ℕ → Track → String → ℕ → Call
  adds : List ℕ → Call
  removes : List ℕ → Call
  proposes : ℕ → List ℕ → String → List ℕ → ℕ → Call
  signs : ℕ → List ℕ → Call
  executes : ℕ → ℕ → Call
  budgets : ℕ → ℕ → Map Track ℕ → ℕ → Call
  opens : ℕ → List ℕ → String → List (String × ℕ) → ℕ → ℕ → ℕ → Call
  releases : ℕ → ℕ → ℕ → ℕ → Call
  revokes : ℕ → ℕ → ℕ → Call
  sets_registry : Option VestingRegistry → Call
  sets_required : ℕ → Call
  sets_ratio : ℕ → Call

unfoldable pub perform : Call → Treasury → Treasury
perform (deposits amount from track block) t = (deposit amount from track block t).1
perform (spends amount to proposal track purpose block) t =
    (spend amount to proposal track purpose block t).1
perform (adds address) t = (add_guardian address t).1
perform (removes address) t = (remove_guardian address t).1
perform (proposes amount to purpose initiator block) t =
    (propose_multi_sig_spend amount to purpose initiator block t).1
perform (signs id guardian) t = (sign_multi_sig_spend id guardian t).1
perform (executes id block) t = (execute_multi_sig_spend id block t).1
perform (budgets start end limits proposal) t = (create_budget_period start end limits proposal t).1
perform (opens proposal recipient purpose milestones block cliff duration) t =
    (create_grant proposal recipient purpose milestones block cliff duration t).1
perform (releases id index proposal block) t = (release_milestone id index proposal block t).1
perform (revokes id proposal block) t = (revoke_grant id proposal block t).1
perform (sets_registry registry) t = set_vesting_registry registry t
perform (sets_required n) t = set_multi_sig_required n t
perform (sets_ratio bps) t = set_reserve_ratio_bps bps t

-- What a call brings in and what it pays out, where it succeeds.
unfoldable pub came : Call → Treasury → ℕ
came (deposits amount from track block) t =
    if (deposit amount from track block t).0 then amount else 0
came _ t = 0

unfoldable pub went : Call → Treasury → ℕ
went (spends amount to proposal track purpose block) t =
    if (spend amount to proposal track purpose block t).0 then amount else 0
went (executes id block) t = paid_by_execution id block t
went (releases id index proposal block) t = paid_by_release id index proposal block t
went _ t = 0

unfoldable pub perform_all : List Call → Treasury → Treasury
perform_all [] t = t
perform_all (c ∷ cs) t = perform_all cs (perform c t)

unfoldable pub came_all : List Call → Treasury → ℕ
came_all [] t = 0
came_all (c ∷ cs) t = came c t + came_all cs (perform c t)

unfoldable pub went_all : List Call → Treasury → ℕ
went_all [] t = 0
went_all (c ∷ cs) t = went c t + went_all cs (perform c t)

-- What the deposits of a list of calls offer in all.
abbrev pub offered : List Call → ℕ
offered [] = 0
offered (deposits amount from track block ∷ cs) = amount + offered cs
offered (_ ∷ cs) = offered cs

-- The milestones of a grant sum to a 64-bit number.
abbrev pub FitsCall : Call → Type 0
FitsCall (opens proposal recipient purpose milestones block cliff duration) =
    asked milestones < u64_mod
FitsCall _ = Unit

perform-Moves :
    (c : Call) (t : Treasury)
    → IsSound t
    → FitsCall c
    → holdings t + offered (c ∷ []) < u64_mod
    → t.next_grant_id + 1 < u64_mod
    → Moves (came c t) (went c t) t (perform c t)
unfolding perform came went set_vesting_registry set_multi_sig_required set_reserve_ratio_bps
perform-Moves (deposits amount from track block) t h fits room free =
    deposit-Moves amount from track block t h (omega (arith, room))
perform-Moves (spends amount to proposal track purpose block) t h fits room free =
    spend-Moves amount to proposal track purpose block t h
perform-Moves (adds address) t h fits room free =
    SameBooks-Moves t (add_guardian address t).1 (add_guardian-SameBooks address t) h
perform-Moves (removes address) t h fits room free =
    SameBooks-Moves t (remove_guardian address t).1 (remove_guardian-SameBooks address t) h
perform-Moves (proposes amount to purpose initiator block) t h fits room free =
    SameBooks-Moves t (propose_multi_sig_spend amount to purpose initiator block t).1
      (propose_multi_sig_spend-SameBooks amount to purpose initiator block t) h
perform-Moves (signs id guardian) t h fits room free =
    SameBooks-Moves t (sign_multi_sig_spend id guardian t).1
      (sign_multi_sig_spend-SameBooks id guardian t) h
perform-Moves (executes id block) t h fits room free = execute_multi_sig_spend-Moves id block t h
perform-Moves (budgets start end limits proposal) t h fits room free =
    SameBooks-Moves t (create_budget_period start end limits proposal t).1
      (create_budget_period-SameBooks start end limits proposal t) h
perform-Moves (opens proposal recipient purpose milestones block cliff duration) t h fits room
      free =
    create_grant-Moves proposal recipient purpose milestones block cliff duration t h fits free
perform-Moves (releases id index proposal block) t h fits room free =
    release_milestone-Moves id index proposal block t h
perform-Moves (revokes id proposal block) t h fits room free =
    revoke_grant-Moves id proposal block t h (omega (arith, room))
perform-Moves (sets_registry registry) t h fits room free =
    SameBooks-Moves t (set_vesting_registry registry t) (refl, refl, refl) h
perform-Moves (sets_required n) t h fits room free =
    SameBooks-Moves t (set_multi_sig_required n t) (refl, refl, refl) h
perform-Moves (sets_ratio bps) t h fits room free =
    SameBooks-Moves t (set_reserve_ratio_bps bps t) (refl, refl, refl) h

next_grant_id-perform :
    (c : Call) (t : Treasury)
    → t.next_grant_id + 1 < u64_mod
    → (perform c t).next_grant_id ≤ t.next_grant_id + 1
unfolding perform deposit spend touch record_tx add_guardian remove_guardian propose_multi_sig_spend
    sign_multi_sig_spend execute_multi_sig_spend pay_out create_budget_period create_grant
    open_grant release_milestone pay_milestone revoke_grant revoke_found set_vesting_registry
    set_multi_sig_required set_reserve_ratio_bps
next_grant_id-perform (deposits amount from track block) t h = ground arith
next_grant_id-perform (spends amount to proposal track purpose block) t h = ground arith
next_grant_id-perform (adds address) t h = ground arith
next_grant_id-perform (removes address) t h = ground arith
next_grant_id-perform (proposes amount to purpose initiator block) t h = ground arith
next_grant_id-perform (signs id guardian) t h = ground arith
next_grant_id-perform (executes id block) t h = ground arith
next_grant_id-perform (budgets start end limits proposal) t h = ground arith
next_grant_id-perform (opens proposal recipient purpose milestones block cliff duration) t h =
    ground arith
next_grant_id-perform (releases id index proposal block) t h = ground arith
next_grant_id-perform (revokes id proposal block) t h = ground arith
next_grant_id-perform (sets_registry registry) t h = omega arith
next_grant_id-perform (sets_required n) t h = omega arith
next_grant_id-perform (sets_ratio bps) t h = omega arith

offered-cons :
    (c : Call) (cs : List Call) (t : Treasury)
    → (offered (c ∷ cs) ≡ offered (c ∷ []) + offered cs) × (came c t ≤ offered (c ∷ []))
unfolding came
offered-cons (deposits amount from track block) cs t = (omega arith, ground arith)
offered-cons (spends amount to proposal track purpose block) cs t = (omega arith, ground arith)
offered-cons (adds address) cs t = (omega arith, ground arith)
offered-cons (removes address) cs t = (omega arith, ground arith)
offered-cons (proposes amount to purpose initiator block) cs t = (omega arith, ground arith)
offered-cons (signs id guardian) cs t = (omega arith, ground arith)
offered-cons (executes id block) cs t = (omega arith, ground arith)
offered-cons (budgets start end limits proposal) cs t = (omega arith, ground arith)
offered-cons (opens proposal recipient purpose milestones block cliff duration) cs t =
    (omega arith, ground arith)
offered-cons (releases id index proposal block) cs t = (omega arith, ground arith)
offered-cons (revokes id proposal block) cs t = (omega arith, ground arith)
offered-cons (sets_registry registry) cs t = (omega arith, ground arith)
offered-cons (sets_required n) cs t = (omega arith, ground arith)
offered-cons (sets_ratio bps) cs t = (omega arith, ground arith)

-- From sound books, whatever is called, in whatever order: the books stay sound, and what the treasury
-- holds and has paid out is what it held and was given. For this, what it holds at first and all that the
-- deposits offer sum to a 64-bit number, so do the milestones of each grant that is asked for, and
-- the number of the next grant and the number of calls sum to a 64-bit number too.
pub perform_all-Moves :
    (cs : List Call) (t : Treasury)
    → IsSound t
    → All FitsCall cs
    → holdings t + offered cs < u64_mod
    → t.next_grant_id + length cs < u64_mod
    → Moves (came_all cs t) (went_all cs t) t (perform_all cs t)
unfolding perform_all came_all went_all
perform_all-Moves [] t h fits room free = stays t h
perform_all-Moves (c ∷ cs) t h fits room free =
    let (sound, moved) =
      perform-Moves c t h fits.0 (omega (arith, room, (offered-cons c cs t).0))
        (omega (arith, free)) in
    let (sound', moved') =
      perform_all-Moves cs (perform c t) sound fits.1
        (omega (arith, room, moved, offered-cons c cs t))
        (omega (arith, free, next_grant_id-perform c t)) in
    (sound', omega (arith, moved, moved'))
