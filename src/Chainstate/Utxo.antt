-- ===== src/Chainstate/Utxo.antt =====
-- Coins and the set of unspent outputs (layer1-talanton/core/chainstate/utxo.h and utxo.cpp).
use pantheon_chain.Prelude.{
  ℕ, ◌+◌, ◌%◌, ◌≡◌, Bool, true, false, Option, none, some, leb, if◌then◌else◌, arith,
}
use pantheon_chain.Prelude.Words.{u32_mod}
use pantheon_chain.Prelude.Maps.{Map, find, insert, erase, find-insert, find-erase}
use pantheon_chain.Primitives.Transaction.{
  OutPoint, TxOutput, outpoint_key, outpoint_beq, outpoint_beq_iff,
}

pub record Coin : Type 0 where
  pub output : TxOutput
  pub height : ℕ
  pub is_coinbase : Bool

-- `height + 100` is a `uint32_t`.
unfoldable pub is_spendable : Coin → ℕ → Bool
is_spendable c current_height =
    if c.is_coinbase then leb ((c.height + 100) % u32_mod) current_height else true

abbrev pub UtxoSet : Type 0
UtxoSet = Map OutPoint Coin

unfoldable pub add_coin : OutPoint → Coin → UtxoSet → UtxoSet
add_coin o c u = insert o c u

unfoldable pub get_coin : OutPoint → UtxoSet → Option Coin
get_coin o u = find o u

unfoldable pub have_coin : OutPoint → UtxoSet → Bool
have_coin o u = elim (find o u) [ none ↦ false | some c ↦ true ]

-- The result says whether the coin was there.
unfoldable pub spend_coin : OutPoint → UtxoSet → Bool × UtxoSet
spend_coin o u = elim (find o u) [ none ↦ (false, u) | some c ↦ (true, erase o u) ]

pub get_coin-add_coin :
    (o p : OutPoint) (c : Coin) (u : UtxoSet)
    → get_coin o (add_coin p c u) ≡ (if outpoint_beq o p then some c else get_coin o u)
unfolding get_coin add_coin
get_coin-add_coin o p c u = find-insert o p c u

-- Spending removes the coin and no other, whether or not it was there.
pub get_coin-spend_coin :
    (o p : OutPoint) (u : UtxoSet)
    → get_coin o (spend_coin p u).1 ≡ (if outpoint_beq o p then none else get_coin o u)
unfolding get_coin spend_coin
get_coin-spend_coin o p u = ground (arith, find-erase o p u, outpoint_beq_iff o p)

-- A second spend of the same outpoint fails and changes nothing.
pub spend_coin_twice :
    (o : OutPoint) (u : UtxoSet) → spend_coin o (spend_coin o u).1 ≡ (false, (spend_coin o u).1)
unfolding spend_coin
spend_coin_twice o u = ground (arith, find-erase o o u, outpoint_beq_iff o o)
