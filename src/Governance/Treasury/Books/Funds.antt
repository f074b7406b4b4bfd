-- ===== src/Governance/Treasury/Books/Funds.antt =====
-- Deposits and spending against the holdings (layer1-talanton/governance/treasury.cpp).
use Prim.Native.String.{String}
use pantheon_chain.Prelude.{
  ℕ, ◌+◌, ◌-◌, ◌<◌, ◌≡◌, false, not, ◌||◌, none, some, List, ltb, ◌==◌, if◌then◌else◌, inl, inr,
  Option-cases, Bool-cases, ltb→le, arith,
}
use pantheon_chain.Prelude.Words.{u64_mod, add64}
use pantheon_chain.Prelude.Maps.{find, nat_key}
use pantheon_chain.Prelude.Ascending.{insert-Ascending}
use pantheon_chain.Governance.Treasury.{Track, emergency, MultiSigSpend, Treasury, record_tx}
use pantheon_chain.Governance.Treasury.Funds.{
  entry, touch, deposit, is_within_budget, violates_reserve, spend,
}
use pantheon_chain.Governance.Treasury.Reserve.{
  has_sufficient_signatures, pay_out, execute_multi_sig_spend,
}
use pantheon_chain.Governance.Treasury.Books.{
  IsSound, Moves, holdings, stays, sum-insert-entry, entry-le, touch-Moves,
}

-- A deposit brings its amount.
pub deposit-Moves :
    (amount : ℕ) (from : List ℕ) (track : Track) (block_height : ℕ) (t : Treasury)
    → IsSound t
    → holdings t + amount < u64_mod
    → Moves
        (if (deposit amount from track block_height t).0 then amount else 0)
        0
        t
        (deposit amount from track block_height t).1
unfolding deposit record_tx
deposit-Moves amount from track block_height t h room = elim (Bool-cases (amount == 0)) [
  | inl nothing ↦ rw nothing (stays t h)
  | inr something ↦
      let v = add64 (entry track t.balances) amount in
      rw something (
        (insert-Ascending track 0 v t.balances h.0 (omega arith), h.1, h.2),
        omega (arith, room, sum-insert-entry track v t.balances h.0, entry-le track t.balances),
      )
]

pub spend-Moves :
    (amount : ℕ) (to : List ℕ) (proposal_id : ℕ) (track : Track) (purpose : String)
    (block_height : ℕ) (t : Treasury)
    → IsSound t
    → Moves 0
        (if (spend amount to proposal_id track purpose block_height t).0 then amount else 0)
        t
        (spend amount to proposal_id track purpose block_height t).1
unfolding spend record_tx
spend-Moves amount to proposal_id track purpose block_height t h =
    elim (Bool-cases (proposal_id == 0 || (amount == 0 || track == emergency))) [
      | inl bad ↦ rw bad (stays t h)
      | inr good ↦
          elim (Bool-cases (
            ltb (entry track t.balances) amount
            || (not (is_within_budget track amount block_height t)
                || violates_reserve amount (touch track t)))) [
                  | inl refused ↦ rw (good, refused) (touch-Moves track t h)
                  | inr allowed ↦
                      let v = entry track t.balances - amount in
                      let covered : ltb (entry track t.balances) amount ≡ false = ground arith in
                      let enough = ltb→le (entry track t.balances) amount covered in
                      rw (good, allowed)
                        (
                          (insert-Ascending track 0 v t.balances h.0 (omega arith), h.1, h.2),
                          omega (arith, enough, sum-insert-entry track v t.balances h.0),
                        )
                ]
    ]

-- The amount of a multi-signature spend, where the execution pays it.
abbrev pub paid_by_execution : ℕ → ℕ → Treasury → ℕ
paid_by_execution spend_id block_height t =
    if (execute_multi_sig_spend spend_id block_height t).0
    then elim (find spend_id t.multisig_spends) [ none ↦ 0 | some s ↦ s.amount ]
    else 0

pay_out-Moves :
    (spend_id : ℕ) (s : MultiSigSpend) (block_height : ℕ) (t : Treasury)
    → IsSound t
    → Moves 0
        (if (pay_out spend_id s block_height t).0 then s.amount else 0)
        t
        (pay_out spend_id s block_height t).1
unfolding pay_out record_tx
pay_out-Moves spend_id s block_height t h =
    elim (Bool-cases (ltb (entry emergency t.balances) s.amount)) [
      | inl short ↦ rw short (touch-Moves emergency t h)
      | inr covered ↦
          let v = entry emergency t.balances - s.amount in
          let enough = ltb→le (entry emergency t.balances) s.amount covered in
          rw covered (
            (insert-Ascending emergency 0 v t.balances h.0 (omega arith), h.1, h.2),
            omega (arith, enough, sum-insert-entry emergency v t.balances h.0),
          )
    ]

pub execute_multi_sig_spend-Moves :
    (spend_id block_height : ℕ) (t : Treasury)
    → IsSound t
    → Moves 0
        (paid_by_execution spend_id block_height t)
        t
        (execute_multi_sig_spend spend_id block_height t).1
unfolding execute_multi_sig_spend
execute_multi_sig_spend-Moves spend_id block_height t h =
    elim (Option-cases (find spend_id t.multisig_spends)) [
      | inl unknown ↦ rw (unknown, execute_multi_sig_spend) (stays t h)
      | inr (s, e) ↦ elim (Bool-cases (s.executed || not (has_sufficient_signatures spend_id t))) [
        | inl closed ↦ rw (e, execute_multi_sig_spend, closed) (stays t h)
        | inr ready ↦
            rw (e, execute_multi_sig_spend, ready) (pay_out-Moves spend_id s block_height t h)
      ]
    ]
