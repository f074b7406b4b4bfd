-- ===== src/Prelude/Maps.antt =====
-- `std::map`: an association list in the order of its keys.
use Prim.Native.Nat.{ℕ}
use mathlib.Core.Path.{◌≡◌, refl}
use mathlib.Core.Logic.{inl, inr, ◌↔◌}
use mathlib.Core.Bool.{Bool, true, false, ◌&&◌, ◌||◌}
use mathlib.Core.Option.{Option, none, some}
use mathlib.Core.List.{List, [], ◌∷◌}
use native.Mathlib.Omega.{arith}
use pantheon_chain.Prelude.Tests.{ltb, ◌==◌ as nat_beq, ==_iff, if◌then◌else◌, Bool-cases}

-- What a key type gives `std::map`: its equality and its order.
pub record Key {ℓ} (K : Type ℓ) : Type ℓ where
  pub beq : K → K → Bool
  pub blt : K → K → Bool
  pub beq_iff : (a b : K) → (beq a b ≡ true) ↔ (a ≡ b)

infix 50 ◌===◌
abbrev pub ◌===◌ {ℓ} : {K : Type ℓ} ⦃k : Key K⦄ → K → K → Bool
◌===◌ ⦃k⦄ = k.beq

abbrev pub Map {ℓ κ} : Type ℓ → Type κ → Type (ℓ ⊔ κ)
Map K V = List (K × V)

module _ {ℓ κ} {K : Type ℓ} {V : Type κ} ⦃o : Key K⦄ where
  -- `m.find(k)`
  unfoldable pub find : K → Map K V → Option V
  find k [] = none
  find k ((j, v) ∷ m) = if o.beq k j then some v else find k m

  -- `m[k] = v`
  unfoldable pub insert : K → V → Map K V → Map K V
  insert k v [] = (k, v) ∷ []
  insert k v ((j, w) ∷ m) =
      if o.beq k j
      then (k, v) ∷ m
      else if o.blt k j
      then (k, v) ∷ (j, w) ∷ m
      else (j, w) ∷ insert k v m

  -- `m.erase(k)`
  unfoldable pub erase : K → Map K V → Map K V
  erase k [] = []
  erase k ((j, v) ∷ m) = if o.beq k j then erase k m else (j, v) ∷ erase k m

  pub find-insert :
      (j k : K) (v : V) (m : Map K V)
      → find j (insert k v m) ≡ (if o.beq j k then some v else find j m)
  unfolding find insert
  find-insert j k v [] = refl
  find-insert j k v ((i, w) ∷ m) =
      ground (arith, o.beq_iff j k, o.beq_iff k i, o.beq_iff j i, find-insert j k v m)

  pub find-erase :
      (j k : K) (m : Map K V) → find j (erase k m) ≡ (if o.beq j k then none else find j m)
  unfolding find erase
  find-erase j k [] = elim (Bool-cases (o.beq j k)) [ inl e ↦ rw e | inr e ↦ rw e ]
  find-erase j k ((i, w) ∷ m) =
      ground (arith, o.beq_iff j k, o.beq_iff k i, o.beq_iff j i, find-erase j k m)

pub beq_refl {ℓ} : {K : Type ℓ} ⦃o : Key K⦄ (k : K) → o.beq k k ≡ true
beq_refl ⦃o⦄ k = (o.beq_iff k k).1 refl

instance abbrev pub nat_key : Key ℕ
nat_key = record { beq = nat_beq; blt = ltb; beq_iff = ==_iff }

-- The comparison of `std::array` and `std::vector`: lexicographic.
unfoldable pub bytes_beq : List ℕ → List ℕ → Bool
bytes_beq [] [] = true
bytes_beq [] (y ∷ ys) = false
bytes_beq (x ∷ xs) [] = false
bytes_beq (x ∷ xs) (y ∷ ys) = nat_beq x y && bytes_beq xs ys

unfoldable pub bytes_blt : List ℕ → List ℕ → Bool
bytes_blt xs [] = false
bytes_blt [] (y ∷ ys) = true
bytes_blt (x ∷ xs) (y ∷ ys) = ltb x y || (nat_beq x y && bytes_blt xs ys)

bytes_beq_refl : (xs : List ℕ) → bytes_beq xs xs ≡ true
unfolding bytes_beq
bytes_beq_refl [] = refl
bytes_beq_refl (x ∷ xs) = ground (arith, bytes_beq_refl xs)

bytes_eq_of_beq : (xs ys : List ℕ) → bytes_beq xs ys ≡ true → xs ≡ ys
unfolding bytes_beq
bytes_eq_of_beq [] [] h = refl
bytes_eq_of_beq [] (y ∷ ys) h = cc
bytes_eq_of_beq (x ∷ xs) [] h = cc
bytes_eq_of_beq (x ∷ xs) (y ∷ ys) h = ground (arith, bytes_eq_of_beq xs ys)

pub bytes_beq_iff : (xs ys : List ℕ) → (bytes_beq xs ys ≡ true) ↔ (xs ≡ ys)
bytes_beq_iff xs ys = (bytes_eq_of_beq xs ys, λ e. rw e (bytes_beq_refl ys))

instance abbrev pub bytes_key : Key (List ℕ)
bytes_key = record { beq = bytes_beq; blt = bytes_blt; beq_iff = bytes_beq_iff }
