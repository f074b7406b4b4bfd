-- ===== src/Governance/Vesting/Claims.antt =====
-- What a vesting schedule pays over a history of calls
-- (`CreateSchedule`, `Claim` and `Revoke` of layer1-talanton/governance/vesting.cpp).
use native.Mathlib.Nat.{add-zero, add_assoc}
use pantheon_chain.Prelude.{
  ℕ, ◌+◌, ◌<◌, ◌≤◌, ◌≡◌, sym, subst, ◌∙◌, some, List, [], ◌∷◌, ◌==◌, if◌then◌else◌, inl, inr,
  Bool-cases, ==_iff, length, arith,
}
use pantheon_chain.Prelude.Words.{u64_mod}
use pantheon_chain.Prelude.Maps.{find, nat_key}
use pantheon_chain.Governance.Vesting.{
  VestingSchedule, VestingRegistry, Grant, create_schedule, claim, revoke,
}
use pantheon_chain.Governance.Vesting.Formula.{FitsSchedule}
use pantheon_chain.Governance.Vesting.Steps.{
  find-create_schedule, claim-next_id, find-claim_other, claim_own, revoke-next_id,
  find-revoke_other, revoke_own,
}

-- A call, and what it pays for the schedule `id`.
pub data Call : Type 0 where
  creates : Grant → Call
  claims : ℕ → ℕ → Call
  revokes : ℕ → ℕ → ℕ → Call

pub perform : Call → VestingRegistry → VestingRegistry
perform (creates g) r = (create_schedule g r).1
perform (claims id block) r = (claim id block r).1
perform (revokes id proposal block) r = (revoke id proposal block r).1

pub paid : ℕ → Call → VestingRegistry → ℕ
paid id (creates g) r = 0
paid id (claims j block) r = if id == j then (claim j block r).0 else 0
paid id (revokes j proposal block) r = 0

pub perform_all : List Call → VestingRegistry → VestingRegistry
perform_all [] r = r
perform_all (c ∷ cs) r = perform_all cs (perform c r)

pub paid_all : ℕ → List Call → VestingRegistry → ℕ
paid_all id [] r = 0
paid_all id (c ∷ cs) r = paid id c r + paid_all id cs (perform c r)

-- The registry holds a schedule under `id` that has paid `claimed` of `total`.
pub record Holds (id total claimed : ℕ) (r : VestingRegistry) : Type 0 where
  pub schedule : VestingSchedule
  pub stands : find id r.schedules ≡ some schedule
  pub fits : FitsSchedule schedule
  pub amount : schedule.total_amount ≡ total
  pub claimed_so_far : schedule.claimed_amount ≡ claimed
  pub within : claimed ≤ total
  pub older : id < r.next_id

still_Holds :
    (id total claimed : ℕ) (r r' : VestingRegistry)
    → find id r'.schedules ≡ find id r.schedules
    → id < r'.next_id
    → Holds id total claimed r
    → Holds id total claimed r'
still_Holds id total claimed r r' same older h = record {
  schedule = h.schedule;
  stands = same ∙ h.stands;
  fits = h.fits;
  amount = h.amount;
  claimed_so_far = h.claimed_so_far;
  within = h.within;
  older = older;
}

claim_own-Holds :
    (id total claimed block : ℕ) (r : VestingRegistry)
    → Holds id total claimed r
    → Holds id total (claimed + (claim id block r).0) (claim id block r).1
claim_own-Holds id total claimed block r h =
    let s = h.schedule in
    let (bound, found) =
      claim_own id block r s h.stands h.fits
        (omega (arith, h.within, h.amount, h.claimed_so_far)) in
    record {
      schedule = record s { claimed_amount = s.claimed_amount + (claim id block r).0 };
      stands = found;
      fits = record {
        amount_word = h.fits.amount_word;
        some_duration = h.fits.some_duration;
        duration_fits = h.fits.duration_fits;
        end_word = h.fits.end_word;
      };
      amount = h.amount;
      claimed_so_far = omega (arith, h.claimed_so_far);
      within = omega (arith, bound, h.amount, h.claimed_so_far);
      older = omega (arith, claim-next_id id block r, h.older);
    }

revoke_own-Holds :
    (id total claimed proposal block : ℕ) (r : VestingRegistry)
    → Holds id total claimed r
    → Holds id total claimed (revoke id proposal block r).1
revoke_own-Holds id total claimed proposal block r h =
    let s = h.schedule in
    let (marked, at, found) = revoke_own id proposal block r s h.stands in
    record {
      schedule = record s { revoked = marked; revoked_at_block = at };
      stands = found;
      fits = record {
        amount_word = h.fits.amount_word;
        some_duration = h.fits.some_duration;
        duration_fits = h.fits.duration_fits;
        end_word = h.fits.end_word;
      };
      amount = h.amount;
      claimed_so_far = h.claimed_so_far;
      within = h.within;
      older = omega (arith, revoke-next_id id proposal block r, h.older);
    }

claim-Holds :
    (id total claimed j block : ℕ) (r : VestingRegistry)
    → Holds id total claimed r
    → Holds id total (claimed + paid id (claims j block) r) (claim j block r).1
claim-Holds id total claimed j block r h = elim (Bool-cases (id == j)) [
  | inl own ↦
      let all : claimed + (claim j block r).0 ≡ claimed + paid id (claims j block) r =
        unfold paid in ground arith in
      subst (λ n. Holds id total n (claim j block r).1) all
        (subst (λ k. Holds id total (claimed + (claim k block r).0) (claim k block r).1)
          ((==_iff id j).0 own) (claim_own-Holds id total claimed block r h))
  | inr other ↦
      let least : claimed + paid id (claims j block) r ≡ claimed = unfold paid in ground arith in
      subst (λ n. Holds id total n (claim j block r).1) (sym least)
        (still_Holds id total claimed r (claim j block r).1 (find-claim_other id j block r other)
          (omega (arith, claim-next_id j block r, h.older)) h)
]

revoke-Holds :
    (id total claimed j proposal block : ℕ) (r : VestingRegistry)
    → Holds id total claimed r
    → Holds id total claimed (revoke j proposal block r).1
revoke-Holds id total claimed j proposal block r h = elim (Bool-cases (id == j)) [
  | inl own ↦
      subst (λ k. Holds id total claimed (revoke k proposal block r).1) ((==_iff id j).0 own)
        (revoke_own-Holds id total claimed proposal block r h)
  | inr other ↦
      still_Holds id total claimed r (revoke j proposal block r).1
        (find-revoke_other id j proposal block r other)
        (omega (arith, revoke-next_id j proposal block r, h.older)) h
]

perform-Holds :
    (id total claimed : ℕ) (c : Call) (r : VestingRegistry)
    → r.next_id + 1 < u64_mod
    → Holds id total claimed r
    → Holds id total (claimed + paid id c r) (perform c r)
unfolding perform paid
perform-Holds id total claimed (creates g) r room h =
    let (same, older) = find-create_schedule id g r h.older room in
    rw (add-zero claimed) (still_Holds id total claimed r (create_schedule g r).1 same older h)
perform-Holds id total claimed (claims j block) r room h = claim-Holds id total claimed j block r h
perform-Holds id total claimed (revokes j proposal block) r room h =
    rw (add-zero claimed) (revoke-Holds id total claimed j proposal block r h)

next_id-perform :
    (c : Call) (r : VestingRegistry)
    → r.next_id + 1 < u64_mod
    → (perform c r).next_id ≤ r.next_id + 1
unfolding perform create_schedule
next_id-perform (creates g) r h = ground arith
next_id-perform (claims j block) r h = omega (arith, claim-next_id j block r)
next_id-perform (revokes j proposal block) r h = omega (arith, revoke-next_id j proposal block r)

-- Take a schedule that ends below block 2^64, lasts at most 2^32 blocks, and has claimed no more than
-- its amount. Whatever calls follow, in whatever order of blocks, what stands as claimed is what was
-- claimed before and all that was paid out since, and never more than the amount, as long as the
-- numbers of the schedules do not reach 2^64.
pub perform_all-Holds :
    (id total claimed : ℕ) (cs : List Call) (r : VestingRegistry)
    → r.next_id + length cs < u64_mod
    → Holds id total claimed r
    → Holds id total (claimed + paid_all id cs r) (perform_all cs r)
unfolding perform_all paid_all
perform_all-Holds id total claimed [] r room h = rw (add-zero claimed) h
perform_all-Holds id total claimed (c ∷ cs) r room h =
    rw (← add_assoc claimed (paid id c r) (paid_all id cs (perform c r))) (
      perform_all-Holds id total (claimed + paid id c r) cs (perform c r)
        (omega (arith, room, next_id-perform c r))
        (perform-Holds id total claimed c r (omega (arith, room)) h))
