-- ===== src/Governance/Treasury.antt =====
-- The state of `Treasury`: balances per track, budgets, grants, multi-signature spends and the log
-- (layer1-talanton/governance/treasury.h).
pub mod Funds
pub mod Reserve
pub mod Grants
pub mod Books
pub mod Tests
use Prim.Native.String.{String}
use pantheon_chain.Prelude.{ℕ, Bool, false, Option, none, List, [], ◌∷◌, ◌++◌}
use pantheon_chain.Prelude.Words.{add64}
use pantheon_chain.Prelude.Maps.{Map}
use pantheon_chain.Governance.Vesting.{VestingRegistry}

-- `enum class Track`, as its numbers.
abbrev pub Track : Type 0
Track = ℕ

abbrev pub core_development : Track
core_development = 0

abbrev pub grants_track : Track
grants_track = 1

abbrev pub operations : Track
operations = 2

abbrev pub emergency : Track
emergency = 3

abbrev pub uncategorized : Track
uncategorized = 4

pub record BudgetPeriod : Type 0 where
  pub period_id : ℕ
  pub start_block : ℕ
  pub end_block : ℕ
  pub track_limits : Map Track ℕ
  pub track_spent : Map Track ℕ

pub record Milestone : Type 0 where
  pub description : String
  pub amount : ℕ
  pub released : Bool
  pub released_at_block : ℕ

pub record Grant : Type 0 where
  pub grant_id : ℕ
  pub proposal_id : ℕ
  pub recipient : List ℕ
  pub purpose : String
  pub total_amount : ℕ
  pub released_amount : ℕ
  pub revoked : Bool
  pub created_at_block : ℕ
  pub milestones : List Milestone

-- `std::set` of addresses.
abbrev pub Signers : Type 0
Signers = Map (List ℕ) (Unit {0})

pub record MultiSigSpend : Type 0 where
  pub spend_id : ℕ
  pub amount : ℕ
  pub recipient : List ℕ
  pub purpose : String
  pub initiator : List ℕ
  pub created_at_block : ℕ
  pub executed : Bool
  pub executed_at_block : ℕ
  pub signers : Signers

pub record TxRecord : Type 0 where
  pub tx_id : ℕ
  pub is_deposit : Bool
  pub amount : ℕ
  pub address : List ℕ
  pub track : Track
  pub proposal_id : ℕ
  pub grant_id : ℕ
  pub purpose : String
  pub block_height : ℕ

-- The vesting registry is not owned: what stands here is what the pointer leads to, if it is set.
pub record Treasury : Type 0 where
  pub multisig_required : ℕ
  pub reserve_ratio_bps : ℕ
  pub vesting_registry : Option VestingRegistry
  pub balances : Map Track ℕ
  pub guardians : List (List ℕ)
  pub multisig_spends : Map ℕ MultiSigSpend
  pub budget_periods : List BudgetPeriod
  pub grants : Map ℕ Grant
  pub transactions : List TxRecord
  pub next_spend_id : ℕ
  pub next_period_id : ℕ
  pub next_grant_id : ℕ
  pub next_tx_id : ℕ

-- The constructor.
abbrev pub new_treasury : ℕ → ℕ → Treasury
new_treasury required ratio = record {
  multisig_required = required;
  reserve_ratio_bps = ratio;
  vesting_registry = none;
  balances =
      (core_development, 0)
      ∷ (grants_track, 0)
      ∷ (operations, 0)
      ∷ (emergency, 0)
      ∷ (uncategorized, 0)
      ∷ [];
  guardians = [];
  multisig_spends = [];
  budget_periods = [];
  grants = [];
  transactions = [];
  next_spend_id = 1;
  next_period_id = 1;
  next_grant_id = 1;
  next_tx_id = 1;
}

unfoldable pub record_tx : Bool → ℕ → List ℕ → Track → ℕ → ℕ → String → ℕ → Treasury → Treasury
record_tx is_deposit amount address track proposal_id grant_id purpose block_height t = record t {
  next_tx_id = add64 t.next_tx_id 1;
  transactions =
      t.transactions
      ++ record {
        tx_id = t.next_tx_id;
        is_deposit = is_deposit;
        amount = amount;
        address = address;
        track = track;
        proposal_id = proposal_id;
        grant_id = grant_id;
        purpose = purpose;
        block_height = block_height;
      }
        ∷ [];
}

unfoldable pub set_vesting_registry : Option VestingRegistry → Treasury → Treasury
set_vesting_registry registry t = record t { vesting_registry = registry }

unfoldable pub set_multi_sig_required : ℕ → Treasury → Treasury
set_multi_sig_required n t = record t { multisig_required = n }

unfoldable pub set_reserve_ratio_bps : ℕ → Treasury → Treasury
set_reserve_ratio_bps bps t = record t { reserve_ratio_bps = bps }
