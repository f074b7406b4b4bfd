-- ===== src/Settlement/Multisig/Keys.antt =====
-- The keys of a policy that `MultisigPolicy::IsValid` of layer1-talanton/settlement/multisig.cpp accepts:
-- it sorts them and looks for equal neighbours.
use pantheon_chain.Prelude.{
  ℕ, zero, suc, ◌<◌, ◌≡◌, ◌≢◌, refl, sym, ap, subst, inl, inr, true, false, List, [], ◌∷◌, length,
  All, Bool-cases, arith,
}
use pantheon_chain.Prelude.Maps.{bytes_blt, bytes_beq_iff}
use pantheon_chain.Prelude.Sorting.{AtMost, AtMost-trans, AtMost-antisym, AtMost-of_blt}
use pantheon_chain.Settlement.Multisig.{
  MultisigPolicy, insert_sorted, sort, repeats_after, has_repeat, is_valid, key_at,
}

abbrev pub Distinct : {A : Type 0} → List A → Type 0
Distinct [] = Unit
Distinct (x ∷ xs) = All (λ y. y ≢ x) xs × Distinct xs

abbrev Sorted : List (List ℕ) → Type 0
Sorted [] = Unit
Sorted (x ∷ xs) = All (AtMost x) xs × Sorted xs

pub All-implied :
    {A : Type 0} {P Q : A → Type 0} (xs : List A) → ((x : A) → P x → Q x) → All P xs → All Q xs
All-implied [] f h = tt
All-implied (x ∷ xs) f h = (f x h.0, All-implied xs f h.1)

insert_sorted_after :
    (k x : List ℕ) (xs : List (List ℕ))
    → bytes_blt x k ≡ true
    → insert_sorted k (x ∷ xs) ≡ x ∷ insert_sorted k xs
unfolding insert_sorted
insert_sorted_after k x xs e = rw e refl

insert_sorted_before :
    (k x : List ℕ) (xs : List (List ℕ))
    → bytes_blt x k ≡ false
    → insert_sorted k (x ∷ xs) ≡ k ∷ x ∷ xs
unfolding insert_sorted
insert_sorted_before k x xs e = rw e refl

module _ (P : List ℕ → Type 0) where
  All-insert_sorted :
      (k : List ℕ) (xs : List (List ℕ)) → P k → All P xs → All P (insert_sorted k xs)
  unfolding insert_sorted
  All-insert_sorted k [] p h = (p, tt)
  All-insert_sorted k (x ∷ xs) p h = elim (Bool-cases (bytes_blt x k)) [
    | inl e ↦ rw e (h.0, All-insert_sorted k xs p h.1)
    | inr e ↦ rw e (p, h)
  ]

  inserted-All : (k : List ℕ) (xs : List (List ℕ)) → All P (insert_sorted k xs) → P k × All P xs
  unfolding insert_sorted
  inserted-All k [] h = (h.0, tt)
  inserted-All k (x ∷ xs) h = elim (Bool-cases (bytes_blt x k)) [
    | inl e ↦
        let g = subst (λ l. All P l) (insert_sorted_after k x xs e) h in
        let (p, later) = inserted-All k xs g.1 in (p, (g.0, later))
    | inr e ↦ subst (λ l. All P l) (insert_sorted_before k x xs e) h
  ]

  sorted-All : (xs : List (List ℕ)) → All P (sort xs) → All P xs
  unfolding sort
  sorted-All [] h = tt
  sorted-All (x ∷ xs) h = let (p, later) = inserted-All x (sort xs) h in (p, sorted-All xs later)

insert_sorted-Sorted : (k : List ℕ) (xs : List (List ℕ)) → Sorted xs → Sorted (insert_sorted k xs)
unfolding insert_sorted
insert_sorted-Sorted k [] h = (tt, tt)
insert_sorted-Sorted k (x ∷ xs) h = elim (Bool-cases (bytes_blt x k)) [
  | inl e ↦
      rw e
        (All-insert_sorted (AtMost x) k xs (AtMost-of_blt x k e) h.0, insert_sorted-Sorted k xs h.1)
  | inr e ↦ rw e ((e, All-implied xs (λ y le. AtMost-trans k x y e le) h.0), h)
]

sort-Sorted : (xs : List (List ℕ)) → Sorted (sort xs)
unfolding sort
sort-Sorted [] = tt
sort-Sorted (x ∷ xs) = insert_sorted-Sorted x (sort xs) (sort-Sorted xs)

-- In order, and no two neighbours equal.
repeats_after-Distinct :
    (k : List ℕ) (xs : List (List ℕ))
    → Sorted (k ∷ xs)
    → repeats_after k xs ≡ false
    → Distinct (k ∷ xs)
unfolding repeats_after
repeats_after-Distinct k [] h none_equal = (tt, tt)
repeats_after-Distinct k (x ∷ xs) h none_equal =
    let apart : x ≢ k = λ same. ground (arith, none_equal, same, bytes_beq_iff x k) in
    let later = repeats_after-Distinct x xs h.1 (ground (arith, none_equal)) in
    (
      (
        apart,
        All-implied xs
            (λ y le same. apart (AtMost-antisym x k (subst (λ z. AtMost x z) same le) h.0.0)) h.1.0,
      ),
      later,
    )

inserted-Distinct :
    (k : List ℕ) (xs : List (List ℕ)) → Distinct (insert_sorted k xs) → Distinct (k ∷ xs)
unfolding insert_sorted
inserted-Distinct k [] h = (tt, tt)
inserted-Distinct k (x ∷ xs) h = elim (Bool-cases (bytes_blt x k)) [
  | inl e ↦
      let g = subst (λ l. Distinct l) (insert_sorted_after k x xs e) h in
      let (other, apart) = inserted-All (λ y. y ≢ x) k xs g.0 in
      let (apart', later) = inserted-Distinct k xs g.1 in
      (((λ same. other (sym same)), apart'), (apart, later))
  | inr e ↦ subst (λ l. Distinct l) (insert_sorted_before k x xs e) h
]

sorted-Distinct : (xs : List (List ℕ)) → Distinct (sort xs) → Distinct xs
unfolding sort
sorted-Distinct [] h = tt
sorted-Distinct (x ∷ xs) h =
    let (apart, later) = inserted-Distinct x (sort xs) h in
    (sorted-All (λ y. y ≢ x) xs apart, sorted-Distinct xs later)

pub pubkeys-Distinct : (p : MultisigPolicy) → is_valid p ≡ true → Distinct p.pubkeys
unfolding is_valid has_repeat
pubkeys-Distinct p h =
    sorted-Distinct p.pubkeys
      (in_order (sort p.pubkeys) (sort-Sorted p.pubkeys) (ground (arith, h)))
  where
    in_order : (xs : List (List ℕ)) → Sorted xs → has_repeat xs ≡ false → Distinct xs
    in_order [] sorted e = tt
    in_order (x ∷ xs) sorted e = repeats_after-Distinct x xs sorted e

-- The keys of different places of a list without repetition differ.
All-key_at :
    (P : List ℕ → Type 0) (i : ℕ) (ks : List (List ℕ)) → i < length ks → All P ks → P (key_at i ks)
unfolding key_at
All-key_at P i [] low h = absurd (omega (arith, low))
All-key_at P zero (k ∷ ks) low h = h.0
All-key_at P (suc i) (k ∷ ks) low h = All-key_at P i ks (omega (arith, low)) h.1

key_at-apart :
    (i j : ℕ) (ks : List (List ℕ))
    → Distinct ks
    → i < length ks
    → j < length ks
    → i ≢ j
    → key_at i ks ≢ key_at j ks
unfolding key_at
key_at-apart i j [] d low low' ne = absurd (omega (arith, low))
key_at-apart zero zero (k ∷ ks) d low low' ne = absurd (ne refl)
key_at-apart zero (suc j) (k ∷ ks) d low low' ne =
    λ same. All-key_at (λ y. y ≢ k) j ks (omega (arith, low')) d.0 (sym same)
key_at-apart (suc i) zero (k ∷ ks) d low low' ne =
    All-key_at (λ y. y ≢ k) i ks (omega (arith, low)) d.0
key_at-apart (suc i) (suc j) (k ∷ ks) d low low' ne =
    key_at-apart i j ks d.1 (omega (arith, low)) (omega (arith, low')) (λ same. ne (ap suc same))

abbrev pub keys_of : List ℕ → List (List ℕ) → List (List ℕ)
keys_of [] ks = []
keys_of (i ∷ is) ks = key_at i ks ∷ keys_of is ks

-- Different places, different keys.
pub keys_of-Distinct :
    (is : List ℕ) (ks : List (List ℕ))
    → Distinct ks
    → Distinct is
    → All (λ i. i < length ks) is
    → Distinct (keys_of is ks)
keys_of-Distinct [] ks d apart low = tt
keys_of-Distinct (i ∷ is) ks d apart low =
    (others is apart.0 low.1, keys_of-Distinct is ks d apart.1 low.1)
  where
    others :
        (js : List ℕ)
        → All (λ j. j ≢ i) js
        → All (λ j. j < length ks) js
        → All (λ k. k ≢ key_at i ks) (keys_of js ks)
    others [] ne lows = tt
    others (j ∷ js) ne lows = (key_at-apart j i ks d lows.0 low.0 ne.0, others js ne.1 lows.1)
