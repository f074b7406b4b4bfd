-- ===== src/Prelude/Ascending.antt =====
-- Maps with number keys: the keys ascend, so each stands once.
use Prim.Native.Nat.{ℕ, suc, ◌≤◌, ◌<◌}
use mathlib.Core.Path.{◌≡◌, refl}
use mathlib.Core.Option.{none}
use mathlib.Core.List.{[], ◌∷◌}
use native.Mathlib.Omega.{arith}
use pantheon_chain.Prelude.Maps.{Map, find, insert, nat_key}

module _ {κ} {V : Type κ} where
  abbrev pub Ascending : ℕ → Map ℕ V → Type 0
  Ascending low [] = Unit
  Ascending low ((k, v) ∷ m) = (low ≤ k) × Ascending (suc k) m

  pub find-Ascending : (k low : ℕ) (m : Map ℕ V) → Ascending low m → k < low → find k m ≡ none
  unfolding find
  find-Ascending k low [] h p = refl
  find-Ascending k low ((j, v) ∷ m) h p = ground (arith, find-Ascending k (suc j) m h.1)

  pub insert-Ascending :
      (k low : ℕ) (v : V) (m : Map ℕ V) → Ascending low m → low ≤ k → Ascending low (insert k v m)
  unfolding insert
  insert-Ascending k low v [] h p = (p, tt)
  insert-Ascending k low v ((j, w) ∷ m) h p = ground (arith, insert-Ascending k (suc j) v m h.1)
