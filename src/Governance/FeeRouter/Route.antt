-- ===== src/Governance/FeeRouter/Route.antt =====
-- `FeeRouter` with its treasury, event log and statistics
-- (layer1-talanton/governance/fee_router.h and fee_router.cpp). The router does not own the treasury and
-- the log: what stands here is what its pointers lead to, if they are set.
use pantheon_chain.Prelude.{
  ℕ, ◌+◌, ◌<◌, ◌≡◌, refl, ap, subst, ◌∙◌, ltb→lt, ltb→le, Bool, true, false, Option, none, some,
  List, ltb, ◌==◌, if◌then◌else◌, inl, inr, Bool-cases, arith,
}
use pantheon_chain.Prelude.Words.{u64_mod, add64}
use pantheon_chain.Governance.EventLog.{EventLog, log, treasury_deposit}
use pantheon_chain.Governance.Treasury.{Track, Treasury}
use pantheon_chain.Governance.Treasury.Funds.{deposit}
use pantheon_chain.Governance.Treasury.Books.{IsSound, Moves, holdings, stays}
use pantheon_chain.Governance.Treasury.Books.Funds.{deposit-Moves}
use pantheon_chain.Governance.FeeRouter.{
  FeeSource, l1_utxo, l2_validator, l3_base_fee, l3_priority_fee, bridge_fee, protocol_fee,
  SplitConfig, default_config, is_valid, Split, split_fee, split_fee_conserves,
}

pub record SourceStats : Type 0 where
  pub total_fees_routed : ℕ
  pub total_to_producer : ℕ
  pub total_to_treasury : ℕ
  pub total_burned : ℕ
  pub route_count : ℕ

abbrev pub no_stats : SourceStats
no_stats = record {
  total_fees_routed = 0;
  total_to_producer = 0;
  total_to_treasury = 0;
  total_burned = 0;
  route_count = 0;
}

-- Every source has its entry in the two maps, which are functions here.
pub record FeeRouter : Type 0 where
  pub treasury : Option Treasury
  pub event_log : Option EventLog
  pub configs : FeeSource → SplitConfig
  pub stats : FeeSource → SourceStats

abbrev pub new_router : Option Treasury → Option EventLog → FeeRouter
new_router treasury event_log = record {
  treasury = treasury;
  event_log = event_log;
  configs = default_config;
  stats = λ s. no_stats;
}

unfoldable pub source_number : FeeSource → ℕ
source_number l1_utxo = 0
source_number l2_validator = 1
source_number l3_base_fee = 2
source_number l3_priority_fee = 3
source_number bridge_fee = 4
source_number protocol_fee = 5

-- `m[source] = v`
unfoldable pub put_at {ℓ} : {A : Type ℓ} → FeeSource → A → (FeeSource → A) → FeeSource → A
put_at source v m s = if source_number s == source_number source then v else m s

unfoldable pub set_split_config : FeeSource → SplitConfig → FeeRouter → FeeRouter
set_split_config source cfg r = record r { configs = put_at source cfg r.configs }

unfoldable pub set_treasury : Option Treasury → FeeRouter → FeeRouter
set_treasury treasury r = record r { treasury = treasury }

unfoldable pub set_event_log : Option EventLog → FeeRouter → FeeRouter
set_event_log event_log r = record r { event_log = event_log }

pub record RouteResult : Type 0 where
  pub source : FeeSource
  pub total_fee : ℕ
  pub producer_amount : ℕ
  pub treasury_amount : ℕ
  pub burn_amount : ℕ
  pub treasury_deposited : Bool

unfoldable pub deposit_share : ℕ → List ℕ → Track → ℕ → Option Treasury → Bool × Option Treasury
deposit_share amount from track block_height none = (false, none)
deposit_share amount from track block_height (some t) =
    if ltb 0 amount
    then (
      (deposit amount from track block_height t).0,
      some (deposit amount from track block_height t).1,
    )
    else (false, some t)

unfoldable pub count_split : ℕ → Split → SourceStats → SourceStats
count_split total_fee p st = record {
  total_fees_routed = add64 st.total_fees_routed total_fee;
  total_to_producer = add64 st.total_to_producer p.producer_amount;
  total_to_treasury = add64 st.total_to_treasury p.treasury_amount;
  total_burned = add64 st.total_burned p.burn_amount;
  route_count = add64 st.route_count 1;
}

unfoldable pub log_route : ℕ → List ℕ → Option EventLog → Option EventLog
log_route block_height producer none = none
log_route block_height producer (some l) = some (log treasury_deposit block_height producer 0 l)

unfoldable pub route : FeeSource → ℕ → List ℕ → ℕ → FeeRouter → RouteResult × FeeRouter
route source total_fee producer block_height r =
    let cfg = r.configs source in
    let parts = split_fee cfg total_fee in
    let (deposited, treasury) =
      deposit_share parts.treasury_amount producer cfg.treasury_track block_height r.treasury in
    (
      record {
        source = source;
        total_fee = total_fee;
        producer_amount = parts.producer_amount;
        treasury_amount = parts.treasury_amount;
        burn_amount = parts.burn_amount;
        treasury_deposited = deposited;
      },
      record r {
        treasury = treasury;
        stats = put_at source (count_split total_fee parts (r.stats source)) r.stats;
        event_log = log_route block_height producer r.event_log;
      },
    )

-- What `GetTotalStats` adds up, in the order of the sources.
unfoldable pub add_stats : SourceStats → SourceStats → SourceStats
add_stats a b = record {
  total_fees_routed = add64 a.total_fees_routed b.total_fees_routed;
  total_to_producer = add64 a.total_to_producer b.total_to_producer;
  total_to_treasury = add64 a.total_to_treasury b.total_to_treasury;
  total_burned = add64 a.total_burned b.total_burned;
  route_count = add64 a.route_count b.route_count;
}

unfoldable pub get_total_stats : FeeRouter → SourceStats
get_total_stats r =
    add_stats
      (add_stats
        (add_stats
          (add_stats (add_stats (add_stats no_stats (r.stats l1_utxo)) (r.stats l2_validator))
            (r.stats l3_base_fee))
          (r.stats l3_priority_fee))
        (r.stats bridge_fee))
      (r.stats protocol_fee)

deposit_accepts :
    (amount : ℕ) (from : List ℕ) (track : Track) (block_height : ℕ) (t : Treasury)
    → 0 < amount
    → (deposit amount from track block_height t).0 ≡ true
unfolding deposit
deposit_accepts amount from track block_height t h = ground arith

deposit_share-Moves :
    (amount : ℕ) (from : List ℕ) (track : Track) (block_height : ℕ) (t : Treasury)
    → IsSound t
    → holdings t + amount < u64_mod
    → (t' : Treasury) × ((deposit_share amount from track block_height (some t)).1 ≡ some t')
      × Moves amount 0 t t'
unfolding deposit_share
deposit_share-Moves amount from track block_height t h room = elim (Bool-cases (ltb 0 amount)) [
  | inl something ↦
      let brought : (if (deposit amount from track block_height t).0 then amount else 0) ≡ amount =
        rw (deposit_accepts amount from track block_height t (ltb→lt 0 amount something)) refl in
      (
        (deposit amount from track block_height t).1,
        rw something refl,
        subst (λ n. Moves n 0 t (deposit amount from track block_height t).1) brought
            (deposit-Moves amount from track block_height t h room),
      )
  | inr nothing ↦
      let none_at_all : 0 ≡ amount = omega (arith, ltb→le 0 amount nothing) in
      (t, rw nothing refl, subst (λ n. Moves n 0 t t) none_at_all (stays t h))
]

-- A fee routed with a valid configuration is split without loss, and an attached treasury with sound
-- books and room for the fee holds exactly the treasury's part more afterwards.
pub route-Moves :
    (source : FeeSource) (total_fee : ℕ) (producer : List ℕ) (block_height : ℕ) (r : FeeRouter)
    (t : Treasury)
    → is_valid (r.configs source) ≡ true
    → total_fee < u64_mod
    → r.treasury ≡ some t
    → IsSound t
    → holdings t + total_fee < u64_mod
    → (t' : Treasury) × ((route source total_fee producer block_height r).1.treasury ≡ some t')
      × Moves (route source total_fee producer block_height r).0.treasury_amount 0 t t'
      × ((route source total_fee producer block_height r).0.producer_amount
            + (route source total_fee producer block_height r).0.treasury_amount
            + (route source total_fee producer block_height r).0.burn_amount
          ≡ total_fee)
unfolding route
route-Moves source total_fee producer block_height r t valid word attached h room =
    let cfg = r.configs source in
    let parts = split_fee cfg total_fee in
    let whole = split_fee_conserves cfg total_fee valid word in
    let (t', at, moved) =
      deposit_share-Moves parts.treasury_amount producer cfg.treasury_track block_height t h
        (omega (arith, room, whole)) in
    (
      t',
      ap (λ o. (deposit_share parts.treasury_amount producer cfg.treasury_track block_height o).1)
            attached
          ∙ at,
      moved,
      whole,
    )
