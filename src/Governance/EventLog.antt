-- ===== src/Governance/EventLog.antt =====
-- `GovernanceEventLog`: events in the order in which they were logged
-- (layer1-talanton/governance/eventlog.h and eventlog.cpp). The description of an event, a text for
-- the reader, is left out.
use pantheon_chain.Prelude.{ℕ, Bool, ◌&&◌, List, [], ◌∷◌, ◌++◌, leb, ◌==◌, if◌then◌else◌}
use pantheon_chain.Prelude.Words.{add64}
use pantheon_chain.Prelude.Maps.{bytes_beq}

-- `enum class EventType : uint32_t`, as its numbers.
abbrev pub EventType : Type 0
EventType = ℕ

abbrev pub treasury_deposit : EventType
treasury_deposit = 200

pub record Event : Type 0 where
  pub event_id : ℕ
  pub type : EventType
  pub block_height : ℕ
  pub actor : List ℕ
  pub reference_id : ℕ

pub record EventLog : Type 0 where
  pub events : List Event
  pub next_event_id : ℕ

unfoldable pub log : EventType → ℕ → List ℕ → ℕ → EventLog → EventLog
log type block_height actor reference_id l = record {
  next_event_id = add64 l.next_event_id 1;
  events =
      l.events
      ++ record {
        event_id = l.next_event_id;
        type = type;
        block_height = block_height;
        actor = actor;
        reference_id = reference_id;
      }
        ∷ [];
}

-- The loop of the four queries, with their tests.
unfoldable pub select : (Event → Bool) → List Event → List Event
select test [] = []
select test (e ∷ es) = let rest = select test es in if test e then e ∷ rest else rest

unfoldable pub get_by_type : EventType → EventLog → List Event
get_by_type type l = select (λ e. e.type == type) l.events

unfoldable pub get_by_actor : List ℕ → EventLog → List Event
get_by_actor actor l = select (λ e. bytes_beq e.actor actor) l.events

unfoldable pub get_by_block_range : ℕ → ℕ → EventLog → List Event
get_by_block_range from_block to_block l =
    select (λ e. leb from_block e.block_height && leb e.block_height to_block) l.events

unfoldable pub get_by_reference_id : ℕ → EventLog → List Event
get_by_reference_id reference_id l = select (λ e. e.reference_id == reference_id) l.events
