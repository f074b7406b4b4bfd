-- ===== src/Governance/Treasury/Reserve.antt =====
-- Guardians and the multi-signature spends of the emergency track
-- (layer1-talanton/governance/treasury.cpp).
use Prim.Native.String.{String}
use pantheon_chain.Prelude.{
  ℕ, ◌-◌, ◌%◌, Bool, true, false, not, ◌||◌, none, some, List, [], ◌∷◌, ◌++◌, ltb, leb, ◌==◌,
  if◌then◌else◌, length,
}
use pantheon_chain.Prelude.Words.{u32_mod, add64}
use pantheon_chain.Prelude.Maps.{find, insert, bytes_beq, nat_key, bytes_key}
use pantheon_chain.Governance.Treasury.{emergency, MultiSigSpend, Treasury, record_tx}
use pantheon_chain.Governance.Treasury.Funds.{entry, touch}

unfoldable pub contains : List ℕ → List (List ℕ) → Bool
contains address [] = false
contains address (g ∷ gs) = bytes_beq g address || contains address gs

unfoldable pub erase_first : List ℕ → List (List ℕ) → List (List ℕ)
erase_first address [] = []
erase_first address (g ∷ gs) =
    let rest = erase_first address gs in if bytes_beq g address then gs else g ∷ rest

unfoldable pub is_guardian : List ℕ → Treasury → Bool
is_guardian address t = contains address t.guardians

unfoldable pub add_guardian : List ℕ → Treasury → Bool × Treasury
add_guardian address t =
    if length address == 0 || is_guardian address t
    then (false, t)
    else (true, record t { guardians = t.guardians ++ address ∷ [] })

unfoldable pub remove_guardian : List ℕ → Treasury → Bool × Treasury
remove_guardian address t =
    if is_guardian address t
    then (true, record t { guardians = erase_first address t.guardians })
    else (false, t)

unfoldable pub propose_multi_sig_spend : ℕ → List ℕ → String → List ℕ → ℕ → Treasury → ℕ × Treasury
propose_multi_sig_spend amount to purpose initiator block_height t =
    if amount == 0 || length to == 0
    then (0, t)
    else if not (is_guardian initiator t)
    then (0, t)
    else (
      t.next_spend_id,
      record t {
        next_spend_id = add64 t.next_spend_id 1;
        multisig_spends =
            insert t.next_spend_id
              (record {
                spend_id = t.next_spend_id;
                amount = amount;
                recipient = to;
                purpose = purpose;
                initiator = initiator;
                created_at_block = block_height;
                executed = false;
                executed_at_block = 0;
                signers = insert ⦃o = bytes_key⦄ initiator tt [];
              })
              t.multisig_spends;
      },
    )

unfoldable pub sign_multi_sig_spend : ℕ → List ℕ → Treasury → Bool × Treasury
sign_multi_sig_spend spend_id guardian t =
    if not (is_guardian guardian t) then (false, t) else elim (find spend_id t.multisig_spends) [
      | none ↦ (false, t)
      | some s ↦ if s.executed then (false, t) else (
        true,
        record t {
          multisig_spends =
              insert spend_id (record s { signers = insert ⦃o = bytes_key⦄ guardian tt s.signers })
                t.multisig_spends;
        },
      )
    ]

unfoldable pub has_sufficient_signatures : ℕ → Treasury → Bool
has_sufficient_signatures spend_id t = elim (find spend_id t.multisig_spends) [
  | none ↦ false
  | some s ↦ leb t.multisig_required (length s.signers % u32_mod)
]

-- A spend that was found, is not executed and has its signatures.
unfoldable pub pay_out : ℕ → MultiSigSpend → ℕ → Treasury → Bool × Treasury
pay_out spend_id s block_height t =
    if ltb (entry emergency t.balances) s.amount then (false, touch emergency t) else (
      true,
      record_tx false s.amount s.recipient emergency 0 0 s.purpose block_height (record t {
        balances = insert emergency (entry emergency t.balances - s.amount) t.balances;
        multisig_spends =
            insert spend_id (record s { executed = true; executed_at_block = block_height })
              t.multisig_spends;
      }),
    )

unfoldable pub execute_multi_sig_spend : ℕ → ℕ → Treasury → Bool × Treasury
execute_multi_sig_spend spend_id block_height t = elim (find spend_id t.multisig_spends) [
  | none ↦ (false, t)
  | some s ↦
      if s.executed || not (has_sufficient_signatures spend_id t)
      then (false, t)
      else pay_out spend_id s block_height t
]
