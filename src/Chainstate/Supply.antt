-- ===== src/Chainstate/Supply.antt =====
-- `ChainState`: the height, the tip and the supplies that mined blocks lead to
-- (layer1-talanton/core/chainstate/chainstate.h and chainstate.cpp).
pub mod Caps
use pantheon_chain.Prelude.{
  ℕ, ◌+◌, Bool, true, false, not, Option, none, some, List, [], ◌∷◌, ltb, ◌==◌, if◌then◌else◌,
}
use pantheon_chain.Prelude.Words.{add64}
use pantheon_chain.Prelude.Maps.{Map, find, insert, bytes_beq, nat_key}
use pantheon_chain.Primitives.Asset.{AssetId, talanton, drachma, obolos, get_max_supply}
use pantheon_chain.Primitives.Transaction.{Hash, zero_hash, Transaction, is_coinbase}
use pantheon_chain.Primitives.Block.{Block}
use pantheon_chain.Primitives.Block.Validity.{get_hash}
use pantheon_chain.Primitives.Block.Validity
use pantheon_chain.Consensus.Issuance.{is_valid_block_reward}
use pantheon_chain.Consensus.Difficulty.{check_proof_of_work}
use pantheon_chain.Chainstate.Amounts.{Amounts, accumulate, values, add_amount}

pub record ChainState : Type 0 where
  pub height : ℕ
  pub tip_hash : Hash
  pub total_supply : Amounts

-- The three assets at zero.
abbrev pub no_supply : Amounts
no_supply = (talanton, 0) ∷ (drachma, 0) ∷ (obolos, 0) ∷ []

abbrev pub initial : ChainState
initial = record { height = 0; tip_hash = zero_hash; total_supply = no_supply }

unfoldable pub get_total_supply : AssetId → ChainState → ℕ
get_total_supply asset s = elim (find asset s.total_supply) [ none ↦ 0 | some v ↦ v ]

unfoldable pub reset : ChainState → ChainState
reset s = record {
  height = 0;
  tip_hash = zero_hash;
  total_supply = insert talanton 0 (insert drachma 0 (insert obolos 0 s.total_supply));
}

-- A validation accepts, refuses, or throws (`std::out_of_range` of `total_supply_.at`).
pub data Verdict : Type 0 where
  accepts refuses throws : Verdict

pub get_coinbase_outputs : Transaction → Amounts
get_coinbase_outputs coinbase = accumulate (values coinbase.outputs) []

-- The test of one entry against the supply so far.
unfoldable pub check_supply : AssetId → ℕ → Option ℕ → Verdict
check_supply asset amount none = throws
check_supply asset amount (some current) =
    if ltb (add64 current amount) current
    then refuses
    else if ltb (get_max_supply asset) (add64 current amount)
    then refuses
    else accepts

pub check_entry : ℕ → Amounts → AssetId → ℕ → Verdict
check_entry block_height supply asset amount =
    if not (is_valid_block_reward block_height asset amount)
    then refuses
    else check_supply asset amount (find asset supply)

pub check_entries : ℕ → Amounts → Amounts → Verdict
check_entries block_height supply [] = accepts
check_entries block_height supply ((asset, amount) ∷ rest) =
    elim (check_entry block_height supply asset amount) [
      | accepts ↦ check_entries block_height supply rest
      | refuses ↦ refuses
      | throws ↦ throws
    ]

-- The test of the parent hash: the first block has none.
unfoldable pub extends_tip : ChainState → Block → Bool
extends_tip s b =
    if s.height == 0
    then bytes_beq b.header.prev_block_hash zero_hash
    else bytes_beq b.header.prev_block_hash s.tip_hash

-- `total_supply_[asset] += amount` for every entry.
unfoldable pub add_supplies : Amounts → Amounts → Amounts
add_supplies [] supply = supply
add_supplies ((asset, amount) ∷ rest) supply =
    add_supplies rest (add_amount (record { asset = asset; amount = amount }) supply)

module _ (sha256d : List ℕ → Hash) where
  pub validate_coinbase : ChainState → Block → Transaction → Verdict
  validate_coinbase s b coinbase =
      if not (is_coinbase coinbase)
      then refuses
      else if not (extends_tip s b)
      then refuses
      else elim (check_entries (add64 s.height 1) s.total_supply (get_coinbase_outputs coinbase)) [
        | accepts ↦
            if not (check_proof_of_work (get_hash sha256d b.header) b.header.bits)
            then refuses
            else accepts
        | refuses ↦ refuses
        | throws ↦ throws
      ]

  pub validate_first : ChainState → Block → List Transaction → Verdict
  validate_first s b [] = refuses
  validate_first s b (coinbase ∷ rest) = validate_coinbase s b coinbase

  pub validate_block : ChainState → Block → Verdict
  validate_block s b =
      if not (Validity.is_valid sha256d b) then refuses else validate_first s b b.transactions

  -- What `ApplyBlock` adds for `block.transactions[0]`.
  pub add_coinbase : List Transaction → Amounts → Amounts
  add_coinbase [] supply = supply
  add_coinbase (coinbase ∷ rest) supply = add_supplies (get_coinbase_outputs coinbase) supply

  pub apply_block : Block → ChainState → Verdict × ChainState
  apply_block b s = elim (validate_block s b) [
    | accepts ↦ (
      accepts,
      record {
        height = add64 s.height 1;
        tip_hash = get_hash sha256d b.header;
        total_supply = add_coinbase b.transactions s.total_supply;
      },
    )
    | refuses ↦ (refuses, s)
    | throws ↦ (throws, s)
  ]
