-- ===== src/Governance/Emergency.antt =====
-- `EmergencyCouncil`: guardians who sign and execute emergency actions
-- (layer1-talanton/governance/emergency.h and emergency.cpp). A text is a list of character codes.
pub mod Quorum
use pantheon_chain.Prelude.{
  ℕ, ◌+◌, ◌%◌, Bool, true, false, not, ◌||◌, Option, none, some, List, [], ◌∷◌, ltb, leb, ◌==◌,
  if◌then◌else◌, length,
}
use pantheon_chain.Prelude.Words.{u32_mod, add64}
use pantheon_chain.Prelude.Maps.{Map, find, insert, bytes_beq, nat_key, bytes_key}

pub data ActionType : Type 0 where
  pause_governance cancel_proposal fast_track_upgrade custom : ActionType

-- `std::set` of addresses.
abbrev pub Signers : Type 0
Signers = Map (List ℕ) (Unit {0})

pub record Action : Type 0 where
  pub action_id : ℕ
  pub type : ActionType
  pub description : List ℕ
  pub initiator : List ℕ
  pub target_proposal_id : ℕ
  pub proposed_at_block : ℕ
  pub expires_at_block : ℕ
  pub executed : Bool
  pub executed_at_block : ℕ
  pub signers : Signers

pub record Guardian : Type 0 where
  pub address : List ℕ
  pub role : List ℕ
  pub added_at_block : ℕ

pub record EmergencyCouncil : Type 0 where
  pub required_sigs : ℕ
  pub action_ttl : ℕ
  pub governance_paused : Bool
  pub guardians : List Guardian
  pub actions : Map ℕ Action
  pub next_action_id : ℕ

unfoldable pub any_guardian : List ℕ → List Guardian → Bool
any_guardian address [] = false
any_guardian address (g ∷ gs) = bytes_beq g.address address || any_guardian address gs

unfoldable pub is_guardian : List ℕ → EmergencyCouncil → Bool
is_guardian address c = any_guardian address c.guardians

unfoldable pub append_guardian : Guardian → List Guardian → List Guardian
append_guardian g [] = g ∷ []
append_guardian g (h ∷ hs) = h ∷ append_guardian g hs

pub add_guardian : List ℕ → List ℕ → ℕ → EmergencyCouncil → Bool × EmergencyCouncil
add_guardian address role block_height c =
    if length address == 0 || is_guardian address c then (false, c) else (
      true,
      record c {
        guardians =
            append_guardian
              (record { address = address; role = role; added_at_block = block_height })
              c.guardians;
      },
    )

-- The first guardian of the address goes.
unfoldable pub erase_guardian : List ℕ → List Guardian → List Guardian
erase_guardian address [] = []
erase_guardian address (g ∷ gs) =
    let rest = erase_guardian address gs in if bytes_beq g.address address then gs else g ∷ rest

pub remove_guardian : List ℕ → EmergencyCouncil → Bool × EmergencyCouncil
remove_guardian address c =
    if is_guardian address c
    then (true, record c { guardians = erase_guardian address c.guardians })
    else (false, c)

unfoldable pub propose_action :
    ActionType → List ℕ → List ℕ → ℕ → ℕ → EmergencyCouncil → ℕ × EmergencyCouncil
propose_action type description initiator target block_height c =
    if not (is_guardian initiator c) then (0, c) else (
      c.next_action_id,
      record c {
        next_action_id = add64 c.next_action_id 1;
        actions =
            insert c.next_action_id
              (record {
                action_id = c.next_action_id;
                type = type;
                description = description;
                initiator = initiator;
                target_proposal_id = target;
                proposed_at_block = block_height;
                expires_at_block = add64 block_height c.action_ttl;
                executed = false;
                executed_at_block = 0;
                signers = insert ⦃o = bytes_key⦄ initiator tt [];
              })
              c.actions;
      },
    )

-- `block_height > expires_at_block`; an unknown action counts as expired.
unfoldable pub is_expired : ℕ → ℕ → EmergencyCouncil → Bool
is_expired action_id block_height c = elim (find action_id c.actions) [
  | none ↦ true
  | some a ↦ ltb a.expires_at_block block_height
]

unfoldable pub has_sufficient_signatures : ℕ → EmergencyCouncil → Bool
has_sufficient_signatures action_id c = elim (find action_id c.actions) [
  | none ↦ false
  | some a ↦ leb c.required_sigs (length a.signers % u32_mod)
]

unfoldable pub sign_action : ℕ → List ℕ → ℕ → EmergencyCouncil → Bool × EmergencyCouncil
sign_action action_id guardian block_height c =
    if not (is_guardian guardian c) then (false, c) else elim (find action_id c.actions) [
      | none ↦ (false, c)
      | some a ↦ if a.executed || is_expired action_id block_height c then (false, c) else (
        true,
        record c {
          actions =
              insert action_id (record a { signers = insert ⦃o = bytes_key⦄ guardian tt a.signers })
                c.actions;
        },
      )
    ]

unfoldable pub pauses : ActionType → Bool → Bool
pauses pause_governance paused = true
pauses cancel_proposal paused = paused
pauses fast_track_upgrade paused = paused
pauses custom paused = paused

unfoldable pub execute_action : ℕ → ℕ → EmergencyCouncil → Bool × EmergencyCouncil
execute_action action_id block_height c = elim (find action_id c.actions) [
  | none ↦ (false, c)
  | some a ↦
      if a.executed || is_expired action_id block_height c
      then (false, c)
      else if not (has_sufficient_signatures action_id c)
      then (false, c)
      else (
        true,
        record c {
          governance_paused = pauses a.type c.governance_paused;
          actions =
              insert action_id (record a { executed = true; executed_at_block = block_height })
                c.actions;
        },
      )
]
