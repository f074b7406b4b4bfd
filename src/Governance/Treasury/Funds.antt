-- ===== src/Governance/Treasury/Funds.antt =====
-- Deposits, budgets and spending from a single track (layer1-talanton/governance/treasury.cpp).
use Prim.Native.String.{String}
use pantheon_chain.Prelude.{
  ℕ, ◌-◌, Bool, true, false, not, ◌||◌, ◌&&◌, Option, none, some, List, [], ◌∷◌, ◌++◌, ltb, leb,
  ◌==◌, if◌then◌else◌,
}
use pantheon_chain.Prelude.Words.{add64, mul64}
use pantheon_chain.Prelude.Maps.{Map, find, insert, nat_key}
use pantheon_chain.Governance.Treasury.{
  Track, emergency, BudgetPeriod, TxRecord, Treasury, record_tx,
}

-- `m[track]`, which is 0 for a new key.
unfoldable pub entry : Track → Map Track ℕ → ℕ
entry track m = elim (find track m) [ none ↦ 0 | some v ↦ v ]

unfoldable pub get_track_balance : Track → Treasury → ℕ
get_track_balance track t = entry track t.balances

unfoldable pub get_reserve_balance : Treasury → ℕ
get_reserve_balance t = get_track_balance emergency t

unfoldable pub total_of_balances : Map Track ℕ → ℕ → ℕ
total_of_balances [] total = total
total_of_balances ((track, b) ∷ m) total = total_of_balances m (add64 total b)

unfoldable pub get_total_balance : Treasury → ℕ
get_total_balance t = total_of_balances t.balances 0

unfoldable pub deposit : ℕ → List ℕ → Track → ℕ → Treasury → Bool × Treasury
deposit amount from track block_height t = if amount == 0 then (false, t) else (
  true,
  record_tx true amount from track 0 0 "deposit" block_height
      (record t { balances = insert track (add64 (entry track t.balances) amount) t.balances }),
)

unfoldable pub violates_reserve : ℕ → Treasury → Bool
violates_reserve debit t =
    if t.reserve_ratio_bps == 0
    then false
    else if leb (get_total_balance t) debit
    then true
    else ltb (mul64 (get_reserve_balance t) 10000)
        (mul64 (get_total_balance t - debit) t.reserve_ratio_bps)

unfoldable pub is_active : BudgetPeriod → ℕ → Bool
is_active bp block_height = leb bp.start_block block_height && leb block_height bp.end_block

unfoldable pub within_limit : BudgetPeriod → Track → ℕ → Option ℕ → Bool
within_limit bp track amount none = true
within_limit bp track amount (some limit) =
    if limit == 0 then true else leb (add64 (entry track bp.track_spent) amount) limit

-- The first period that is active decides.
unfoldable pub within_periods : List BudgetPeriod → Track → ℕ → ℕ → Bool
within_periods [] track amount block_height = true
within_periods (bp ∷ rest) track amount block_height =
    let later = within_periods rest track amount block_height in
    if not (is_active bp block_height)
    then later
    else within_limit bp track amount (find track bp.track_limits)

unfoldable pub is_within_budget : Track → ℕ → ℕ → Treasury → Bool
is_within_budget track amount block_height t =
    within_periods t.budget_periods track amount block_height

unfoldable pub charge_period : Track → ℕ → ℕ → List BudgetPeriod → List BudgetPeriod
charge_period track amount block_height [] = []
charge_period track amount block_height (bp ∷ rest) =
    let later = charge_period track amount block_height rest in
    if is_active bp block_height
    then record bp {
      track_spent = insert track (add64 (entry track bp.track_spent) amount) bp.track_spent;
    }
      ∷ rest
    else bp ∷ later

-- `auto& bal = balances_[track]` makes the entry of a track that has none.
unfoldable pub touch : Track → Treasury → Treasury
touch track t = record t { balances = insert track (entry track t.balances) t.balances }

unfoldable pub spend : ℕ → List ℕ → ℕ → Track → String → ℕ → Treasury → Bool × Treasury
spend amount to proposal_id track purpose block_height t =
    if proposal_id == 0 || (amount == 0 || track == emergency)
    then (false, t)
    else if ltb (entry track t.balances) amount
        || (not (is_within_budget track amount block_height t)
            || violates_reserve amount (touch track t))
    then (false, touch track t)
    else (
      true,
      record_tx false amount to track proposal_id 0 purpose block_height (record t {
        balances = insert track (entry track t.balances - amount) t.balances;
        budget_periods = charge_period track amount block_height t.budget_periods;
      }),
    )

unfoldable pub create_budget_period : ℕ → ℕ → Map Track ℕ → ℕ → Treasury → ℕ × Treasury
create_budget_period start_block end_block limits proposal_id t =
    if proposal_id == 0 || leb end_block start_block then (0, t) else (
      t.next_period_id,
      record t {
        next_period_id = add64 t.next_period_id 1;
        budget_periods =
            t.budget_periods
            ++ record {
              period_id = t.next_period_id;
              start_block = start_block;
              end_block = end_block;
              track_limits = limits;
              track_spent = [];
            }
              ∷ [];
      },
    )

unfoldable pub active_period : ℕ → List BudgetPeriod → Option BudgetPeriod
active_period block_height [] = none
active_period block_height (bp ∷ rest) =
    let later = active_period block_height rest in
    if is_active bp block_height then some bp else later

unfoldable pub transactions_of : Track → List TxRecord → List TxRecord
transactions_of track [] = []
transactions_of track (tx ∷ rest) =
    let later = transactions_of track rest in if tx.track == track then tx ∷ later else later
