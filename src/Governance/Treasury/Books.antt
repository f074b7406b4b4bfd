-- ===== src/Governance/Treasury/Books.antt =====
-- What the treasury holds: its balances and what it has set aside for grants
-- (layer1-talanton/governance/treasury.cpp). Each operation moves it by what comes in and goes out.
pub mod Funds
pub mod Milestones
pub mod Grants
pub mod Neutral
pub mod History
use pantheon_chain.Prelude.{
  ℕ, zero, suc, ◌+◌, ◌-◌, ◌<◌, ◌≤◌, ◌≡◌, refl, Bool, true, false, not, Option, none, some, List, [],
  ◌∷◌, ◌==◌, if◌then◌else◌, inl, inr, Option-cases, Bool-cases, arith,
}
use pantheon_chain.Prelude.Words.{u64_mod, add64}
use pantheon_chain.Prelude.Maps.{Map, find, insert, find-insert, nat_key}
use pantheon_chain.Prelude.Ascending.{Ascending, insert-Ascending}
use pantheon_chain.Prelude.Sums.{sum_by, sum_by-insert, weight_of}
use pantheon_chain.Governance.Treasury.{Track, Milestone, Grant, Treasury}
use pantheon_chain.Governance.Treasury.Funds.{entry, touch}

-- The amounts of the milestones that are not released.
abbrev pub pledged_in : List Milestone → ℕ
pledged_in [] = 0
pledged_in (m ∷ ms) = (if m.released then 0 else m.amount) + pledged_in ms

abbrev pub pledged : Grant → ℕ
pledged g = if g.revoked then 0 else pledged_in g.milestones

abbrev pub amount_in : ℕ → ℕ
amount_in b = b

abbrev pub holdings_of : Map Track ℕ → Map ℕ Grant → ℕ
holdings_of balances grants = sum_by amount_in balances + sum_by pledged grants

abbrev pub holdings : Treasury → ℕ
holdings t = holdings_of t.balances t.grants

-- The maps are in order, and no grant has a number that is still to be given.
abbrev pub SoundParts : Map Track ℕ → Map ℕ Grant → ℕ → Type 0
SoundParts balances grants next =
    Ascending 0 balances × Ascending 0 grants × ((k : ℕ) → next ≤ k → find k grants ≡ none)

abbrev pub IsSound : Treasury → Type 0
IsSound t = SoundParts t.balances t.grants t.next_grant_id

-- The second state is sound, and holds what the first held and what came in, less what went out.
abbrev pub Moves : ℕ → ℕ → Treasury → Treasury → Type 0
Moves came went t t' = IsSound t' × (holdings t' + went ≡ holdings t + came)

pub stays : (t : Treasury) → IsSound t → Moves 0 0 t t
stays t h = (h, refl)

entry-weight :
    (track : Track) (m : Map Track ℕ) → entry track m ≡ weight_of amount_in (find track m)
unfolding entry
entry-weight track m = elim (Option-cases (find track m)) [
  | inl e ↦ rw (e, entry)
  | inr (v, e) ↦ rw (e, entry)
]

pub sum-insert-entry :
    (track v : ℕ) (m : Map Track ℕ)
    → Ascending 0 m
    → sum_by amount_in (insert track v m) + entry track m ≡ sum_by amount_in m + v
sum-insert-entry track v m h =
    omega (arith, sum_by-insert amount_in track 0 v m h, entry-weight track m)

entry-le_from : (track low : ℕ) (m : Map Track ℕ) → entry track m ≤ sum_by amount_in m
unfolding entry sum_by find
entry-le_from track low [] = omega arith
entry-le_from track low ((k, v) ∷ m) = ground (arith, entry-le_from track low m)

pub entry-le : (track : ℕ) (m : Map Track ℕ) → entry track m ≤ sum_by amount_in m
entry-le track m = entry-le_from track 0 m

pub touch-Moves : (track : Track) (t : Treasury) → IsSound t → Moves 0 0 t (touch track t)
unfolding touch
touch-Moves track t h = (
  (insert-Ascending track 0 (entry track t.balances) t.balances h.0 (omega arith), h.1, h.2),
  omega (arith, sum-insert-entry track (entry track t.balances) t.balances h.0),
)
