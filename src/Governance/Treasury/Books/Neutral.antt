-- ===== src/Governance/Treasury/Books/Neutral.antt =====
-- The calls that move nothing: guardians, proposals and their signatures, budgets
-- (layer1-talanton/governance/treasury.cpp).
use Prim.Native.String.{String}
use pantheon_chain.Prelude.{ℕ, ◌+◌, ◌≡◌, sym, ap, subst, ◌∙◌, none, List, arith}
use pantheon_chain.Prelude.Maps.{Map, find, nat_key}
use pantheon_chain.Prelude.Ascending.{Ascending}
use pantheon_chain.Governance.Treasury.{Track, Treasury}
use pantheon_chain.Governance.Treasury.Funds.{create_budget_period}
use pantheon_chain.Governance.Treasury.Reserve.{
  add_guardian, remove_guardian, propose_multi_sig_spend, sign_multi_sig_spend,
}
use pantheon_chain.Governance.Treasury.Books.{IsSound, Moves, holdings_of}

-- A call that leaves balances, grants and their numbers as they are.
abbrev pub SameBooks : Treasury → Treasury → Type 0
SameBooks t t' =
    (t'.balances ≡ t.balances) × (t'.grants ≡ t.grants) × (t'.next_grant_id ≡ t.next_grant_id)

pub SameBooks-Moves : (t t' : Treasury) → SameBooks t t' → IsSound t → Moves 0 0 t t'
SameBooks-Moves t t' (b, g, n) h = (
  (
    subst (λ m. Ascending 0 m) (sym b) h.0,
    subst (λ m. Ascending 0 m) (sym g) h.1,
    λ k le. subst (λ m. find k m ≡ none) (sym g) (h.2 k (omega (arith, n, le))),
  ),
  ap (λ m. holdings_of m t'.grants + 0) b ∙ ap (λ m. holdings_of t.balances m + 0) g,
)

pub add_guardian-SameBooks :
    (address : List ℕ) (t : Treasury) → SameBooks t (add_guardian address t).1
unfolding add_guardian
add_guardian-SameBooks address t = (ground arith, ground arith, ground arith)

pub remove_guardian-SameBooks :
    (address : List ℕ) (t : Treasury) → SameBooks t (remove_guardian address t).1
unfolding remove_guardian
remove_guardian-SameBooks address t = (ground arith, ground arith, ground arith)

pub propose_multi_sig_spend-SameBooks :
    (amount : ℕ) (to : List ℕ) (purpose : String) (initiator : List ℕ) (block : ℕ) (t : Treasury)
    → SameBooks t (propose_multi_sig_spend amount to purpose initiator block t).1
unfolding propose_multi_sig_spend
propose_multi_sig_spend-SameBooks amount to purpose initiator block t =
    (ground arith, ground arith, ground arith)

pub sign_multi_sig_spend-SameBooks :
    (id : ℕ) (guardian : List ℕ) (t : Treasury) → SameBooks t (sign_multi_sig_spend id guardian t).1
unfolding sign_multi_sig_spend
sign_multi_sig_spend-SameBooks id guardian t = (ground arith, ground arith, ground arith)

pub create_budget_period-SameBooks :
    (start end : ℕ) (limits : Map Track ℕ) (proposal : ℕ) (t : Treasury)
    → SameBooks t (create_budget_period start end limits proposal t).1
unfolding create_budget_period
create_budget_period-SameBooks start end limits proposal t =
    (ground arith, ground arith, ground arith)
