-- ===== src/Governance/Emergency/Quorum.antt =====
-- No emergency action is executed without its quorum, or twice
-- (layer1-talanton/governance/emergency.cpp).
use pantheon_chain.Prelude.{
  ℕ, ◌%◌, ◌≤◌, ◌≡◌, true, false, ◌||◌, some, List, [], ◌∷◌, inl, inr, ==_iff, Option-cases,
  Bool-cases, ◌==◌, length, arith,
}
use pantheon_chain.Prelude.Words.{u32_mod}
use pantheon_chain.Prelude.Maps.{Map, find, insert, find-insert, nat_key, bytes_key}
use pantheon_chain.Governance.Emergency.{
  ActionType, Action, EmergencyCouncil, add_guardian, remove_guardian, propose_action, is_guardian,
  is_expired, has_sufficient_signatures, sign_action, execute_action,
}

-- Each executed action of the map has at least the required number of signers.
abbrev pub QuorumOf : ℕ → Map ℕ Action → Type 0
QuorumOf required m =
    (id : ℕ) (a : Action)
    → find id m ≡ some a
    → a.executed ≡ true
    → required ≤ length a.signers % u32_mod

abbrev pub HasQuorum : EmergencyCouncil → Type 0
HasQuorum c = QuorumOf c.required_sigs c.actions

insert-QuorumOf :
    (required key : ℕ) (b : Action) (m : Map ℕ Action)
    → (b.executed ≡ true → required ≤ length b.signers % u32_mod)
    → QuorumOf required m
    → QuorumOf required (insert key b m)
insert-QuorumOf required key b m new h id a e done =
    ground (arith, new, h id a, find-insert id key b m)

propose_action-HasQuorum :
    (type : ActionType) (description initiator : List ℕ) (target block : ℕ) (c : EmergencyCouncil)
    → HasQuorum c
    → HasQuorum (propose_action type description initiator target block c).1
unfolding propose_action
propose_action-HasQuorum type description initiator target block c h =
    elim (Bool-cases (is_guardian initiator c)) [
      | inl member ↦
          rw member
            (insert-QuorumOf c.required_sigs c.next_action_id _ c.actions (λ done. absurd cc) h)
      | inr stranger ↦ rw stranger h
    ]

sign_action-HasQuorum :
    (action_id : ℕ) (guardian : List ℕ) (block : ℕ) (c : EmergencyCouncil)
    → HasQuorum c
    → HasQuorum (sign_action action_id guardian block c).1
unfolding sign_action
sign_action-HasQuorum action_id guardian block c h = elim (Bool-cases (is_guardian guardian c)) [
  | inr stranger ↦ rw stranger h
  | inl member ↦ elim (Option-cases (find action_id c.actions)) [
    | inl unknown ↦ rw (member, unknown, sign_action) h
    | inr (b, e) ↦ elim (Bool-cases (b.executed || is_expired action_id block c)) [
      | inl closed ↦ rw (member, e, sign_action, closed) h
      | inr open_still ↦
          rw (member, e, sign_action, open_still)
            (insert-QuorumOf c.required_sigs action_id _ c.actions (λ done. absurd (ground arith))
              h)
    ]
  ]
]

sufficient-le :
    (action_id : ℕ) (b : Action) (c : EmergencyCouncil)
    → find action_id c.actions ≡ some b
    → has_sufficient_signatures action_id c ≡ true
    → c.required_sigs ≤ length b.signers % u32_mod
unfolding has_sufficient_signatures
sufficient-le action_id b c e h = ground arith

execute_action-HasQuorum :
    (action_id block : ℕ) (c : EmergencyCouncil)
    → HasQuorum c
    → HasQuorum (execute_action action_id block c).1
unfolding execute_action
execute_action-HasQuorum action_id block c h = elim (Option-cases (find action_id c.actions)) [
  | inl unknown ↦ rw (unknown, execute_action) h
  | inr (b, e) ↦ elim (Bool-cases (b.executed || is_expired action_id block c)) [
    | inl closed ↦ rw (e, execute_action, closed) h
    | inr open_still ↦ elim (Bool-cases (has_sufficient_signatures action_id c)) [
      | inr few ↦ rw (e, execute_action, open_still, few) h
      | inl enough ↦
          rw (e, execute_action, open_still, enough)
            (insert-QuorumOf c.required_sigs action_id _ c.actions
              (λ done. sufficient-le action_id b c e enough) h)
    ]
  ]
]

-- The calls that change the council.
pub data Step : Type 0 where
  adds : List ℕ → List ℕ → ℕ → Step
  removes : List ℕ → Step
  proposes : ActionType → List ℕ → List ℕ → ℕ → ℕ → Step
  signs : ℕ → List ℕ → ℕ → Step
  executes : ℕ → ℕ → Step

unfoldable pub take_step : Step → EmergencyCouncil → EmergencyCouncil
take_step (adds address role block) c = (add_guardian address role block c).1
take_step (removes address) c = (remove_guardian address c).1
take_step (proposes type text initiator target block) c =
    (propose_action type text initiator target block c).1
take_step (signs id guardian block) c = (sign_action id guardian block c).1
take_step (executes id block) c = (execute_action id block c).1

unfoldable pub take_steps : List Step → EmergencyCouncil → EmergencyCouncil
take_steps [] c = c
take_steps (s ∷ ss) c = take_steps ss (take_step s c)

add_guardian-HasQuorum :
    (address role : List ℕ) (block : ℕ) (c : EmergencyCouncil)
    → HasQuorum c
    → HasQuorum (add_guardian address role block c).1
unfolding add_guardian
add_guardian-HasQuorum address role block c h =
    elim (Bool-cases (length address == 0 || is_guardian address c)) [
      | inl bad ↦ rw bad h
      | inr good ↦ rw good h
    ]

remove_guardian-HasQuorum :
    (address : List ℕ) (c : EmergencyCouncil)
    → HasQuorum c
    → HasQuorum (remove_guardian address c).1
unfolding remove_guardian
remove_guardian-HasQuorum address c h = elim (Bool-cases (is_guardian address c)) [
  | inl member ↦ rw member h
  | inr stranger ↦ rw stranger h
]

take_step-HasQuorum : (s : Step) (c : EmergencyCouncil) → HasQuorum c → HasQuorum (take_step s c)
unfolding take_step
take_step-HasQuorum (adds address role block) c h = add_guardian-HasQuorum address role block c h
take_step-HasQuorum (removes address) c h = remove_guardian-HasQuorum address c h
take_step-HasQuorum (proposes type text initiator target block) c h =
    propose_action-HasQuorum type text initiator target block c h
take_step-HasQuorum (signs id guardian block) c h = sign_action-HasQuorum id guardian block c h
take_step-HasQuorum (executes id block) c h = execute_action-HasQuorum id block c h

-- Whatever guardians come and go and whatever they propose, sign and execute, if every executed action
-- had at least the required number of signers before, then so it is afterwards.
pub take_steps-HasQuorum :
    (ss : List Step) (c : EmergencyCouncil) → HasQuorum c → HasQuorum (take_steps ss c)
unfolding take_steps
take_steps-HasQuorum [] c h = h
take_steps-HasQuorum (s ∷ ss) c h =
    take_steps-HasQuorum ss (take_step s c) (take_step-HasQuorum s c h)

-- An action that was executed is neither executed nor signed again: both calls fail and change nothing.
pub execute_action_once :
    (id block later : ℕ) (guardian : List ℕ) (c : EmergencyCouncil)
    → (execute_action id block c).0 ≡ true
    → (execute_action id later (execute_action id block c).1
        ≡ (false, (execute_action id block c).1))
      × (sign_action id guardian later (execute_action id block c).1
          ≡ (false, (execute_action id block c).1))
unfolding execute_action sign_action
execute_action_once id block later guardian c h = elim (Option-cases (find id c.actions)) [
  | inl unknown ↦ absurd (ground arith)
  | inr (b, e) ↦
      let marked : Action = record b { executed = true; executed_at_block = block } in
      let now : find id (execute_action id block c).1.actions ≡ some marked =
        ground (arith, ==_iff id id, find-insert id id marked c.actions) in
      (ground (arith, now), ground (arith, now))
]
