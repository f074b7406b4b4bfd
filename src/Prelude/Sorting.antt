-- ===== src/Prelude/Sorting.antt =====
-- What sorting byte strings brings: strings that are nowhere next to an equal one are all different.
use pantheon_chain.Prelude.{ℕ, ◌≡◌, refl, true, false, List, [], ◌∷◌, arith}
use pantheon_chain.Prelude.Maps.{bytes_blt}

-- The first is not after the second.
abbrev pub AtMost : List ℕ → List ℕ → Type 0
AtMost a b = bytes_blt b a ≡ false

pub AtMost-trans : (a b c : List ℕ) → AtMost a b → AtMost b c → AtMost a c
unfolding bytes_blt
AtMost-trans [] b c p q = refl
AtMost-trans (x ∷ a) [] c p q = absurd (cc p)
AtMost-trans (x ∷ a) (y ∷ b) [] p q = absurd (cc q)
AtMost-trans (x ∷ a) (y ∷ b) (z ∷ c) p q = ground (arith, p, q, AtMost-trans a b c)

pub AtMost-antisym : (a b : List ℕ) → AtMost a b → AtMost b a → a ≡ b
unfolding bytes_blt
AtMost-antisym [] [] p q = refl
AtMost-antisym [] (y ∷ b) p q = absurd (cc q)
AtMost-antisym (x ∷ a) [] p q = absurd (cc p)
AtMost-antisym (x ∷ a) (y ∷ b) p q = ground (arith, p, q, AtMost-antisym a b)

-- One of two strings is not after the other.
pub AtMost-of_blt : (a b : List ℕ) → bytes_blt a b ≡ true → AtMost a b
unfolding bytes_blt
AtMost-of_blt [] [] h = absurd (cc h)
AtMost-of_blt [] (y ∷ b) h = refl
AtMost-of_blt (x ∷ a) [] h = absurd (cc h)
AtMost-of_blt (x ∷ a) (y ∷ b) h = ground (arith, h, AtMost-of_blt a b)
