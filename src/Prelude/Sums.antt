-- ===== src/Prelude/Sums.antt =====
-- Sums over a map with number keys, each entry with its weight.
use Prim.Native.Nat.{ℕ, suc, ◌+◌, ◌≤◌}
use mathlib.Core.Path.{◌≡◌}
use mathlib.Core.Option.{Option, none, some}
use mathlib.Core.List.{[], ◌∷◌}
use native.Mathlib.Omega.{arith}
use pantheon_chain.Prelude.Maps.{Map, find, insert, nat_key}
use pantheon_chain.Prelude.Ascending.{Ascending, find-Ascending}

module _ {κ} {V : Type κ} (weight : V → ℕ) where
  unfoldable pub sum_by : Map ℕ V → ℕ
  sum_by [] = 0
  sum_by ((k, v) ∷ m) = weight v + sum_by m

  abbrev pub weight_of : Option V → ℕ
  weight_of none = 0
  weight_of (some v) = weight v

  -- A write replaces the weight of the entry that it meets.
  pub sum_by-insert :
      (k low : ℕ) (v : V) (m : Map ℕ V)
      → Ascending low m
      → sum_by (insert k v m) + weight_of (find k m) ≡ sum_by m + weight v
  unfolding sum_by insert find
  sum_by-insert k low v [] h = omega arith
  sum_by-insert k low v ((j, w) ∷ m) h =
      ground (arith, sum_by-insert k (suc j) v m h.1, find-Ascending k (suc j) m h.1)

  pub weight_of-le : (k : ℕ) (m : Map ℕ V) → weight_of (find k m) ≤ sum_by m
  unfolding sum_by find
  weight_of-le k [] = omega arith
  weight_of-le k ((j, w) ∷ m) = ground (arith, weight_of-le k m)
