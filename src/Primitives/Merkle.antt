-- ===== src/Primitives/Merkle.antt =====
-- The merkle tree of layer1-talanton/core/primitives/block.cpp. `sha256d` is `crypto::SHA256d`, which is
-- taken as any function on byte strings.
use mathlib.Core.List.{map}
use pantheon_chain.Prelude.{
  ℕ, zero, suc, ◌+◌, ◌%◌, ◌<◌, ◌≤◌, ◌≡◌, refl, sym, ap, ◌∙◌, Option, none, some, List, [], ◌∷◌,
  ◌++◌, length, length-append, arith,
}
use pantheon_chain.Primitives.Transaction.{Hash, zero_hash, Transaction}
use pantheon_chain.Primitives.Wire

module _ (sha256d : List ℕ → Hash) where
  unfoldable pub hash_nodes : Hash → Hash → Hash
  hash_nodes left right = sha256d (left ++ right)

  -- One level: pairs are hashed, and an odd last node with itself.
  unfoldable pub next_level : List Hash → List Hash
  next_level [] = []
  next_level (x ∷ []) = hash_nodes x x ∷ []
  next_level (x ∷ y ∷ rest) = hash_nodes x y ∷ next_level rest

  -- `while (current_level.size() > 1)` on fuel; `none` means that the fuel ran out.
  unfoldable pub root_loop : ℕ → List Hash → Option Hash
  root_loop fuel [] = none
  root_loop fuel (x ∷ []) = some x
  root_loop zero (x ∷ y ∷ rest) = none
  root_loop (suc fuel) (x ∷ y ∷ rest) = root_loop fuel (next_level (x ∷ y ∷ rest))

  unfoldable pub calculate_root : List Hash → Option Hash
  calculate_root [] = some zero_hash
  calculate_root (x ∷ rest) = root_loop (length rest) (x ∷ rest)

  -- `Transaction::GetTxID`, computed afresh: `cached_txid_`, which keeps the first result, is left out, and
  -- agrees with this while no field of the transaction changes after the first call.
  unfoldable pub get_tx_id : Transaction → Hash
  get_tx_id tx = sha256d (Wire.serialize tx)

  unfoldable pub calculate_merkle_root : List Transaction → Option Hash
  calculate_merkle_root txs = calculate_root (map get_tx_id txs)

  length-next_level :
      (x y : Hash) (rest : List Hash) → length (next_level (x ∷ y ∷ rest)) ≤ length rest + 1
  unfolding next_level
  length-next_level x y [] = omega arith
  length-next_level x y (z ∷ []) = omega arith
  length-next_level x y (z ∷ w ∷ rest) = omega (arith, length-next_level z w rest)

  next_level-nonempty : (x : Hash) (rest : List Hash) → 0 < length (next_level (x ∷ rest))
  unfolding next_level
  next_level-nonempty x [] = omega arith
  next_level-nonempty x (y ∷ rest) = omega arith

  root_loop_total :
      (fuel : ℕ) (level : List Hash)
      → 0 < length level
      → length level ≤ suc fuel
      → (root : Hash) × (root_loop fuel level ≡ some root)
  unfolding root_loop
  root_loop_total fuel [] p q = absurd (omega arith)
  root_loop_total fuel (x ∷ []) p q = (x, refl)
  root_loop_total zero (x ∷ y ∷ rest) p q = absurd (omega arith)
  root_loop_total (suc fuel) (x ∷ y ∷ rest) p q =
      root_loop_total fuel (next_level (x ∷ y ∷ rest)) (next_level-nonempty x (y ∷ rest))
        (omega (arith, length-next_level x y rest))

  -- Enough fuel is given: every list of hashes has a root.
  pub calculate_root_total :
      (hashes : List Hash) → (root : Hash) × (calculate_root hashes ≡ some root)
  unfolding calculate_root
  calculate_root_total [] = (zero_hash, refl)
  calculate_root_total (x ∷ rest) =
      root_loop_total (length rest) (x ∷ rest) (omega arith) (omega arith)

  root_loop-suc :
      (fuel : ℕ) (level : List Hash) {root : Hash}
      → root_loop fuel level ≡ some root
      → root_loop (suc fuel) level ≡ some root
  unfolding root_loop
  root_loop-suc fuel [] h = h
  root_loop-suc fuel (x ∷ []) h = h
  root_loop-suc zero (x ∷ y ∷ rest) h = cc
  root_loop-suc (suc fuel) (x ∷ y ∷ rest) h = root_loop-suc fuel (next_level (x ∷ y ∷ rest)) h

  next_level_repeat :
      (xs : List Hash) (z : Hash)
      → length xs % 2 ≡ 0
      → next_level (xs ++ z ∷ z ∷ []) ≡ next_level (xs ++ z ∷ [])
  unfolding next_level
  next_level_repeat [] z h = refl
  next_level_repeat (x ∷ []) z h = absurd (omega arith)
  next_level_repeat (x ∷ y ∷ rest) z h =
      ap (◌∷◌ (hash_nodes x y)) (next_level_repeat rest z (omega arith))

  -- A list of an odd number of hashes above one has the root of the longer list that repeats its last
  -- hash, for every hash function.
  pub calculate_root_repeat :
      (x y : Hash) (xs : List Hash) (z : Hash)
      → length xs % 2 ≡ 0
      → calculate_root (x ∷ y ∷ xs ++ z ∷ z ∷ []) ≡ calculate_root (x ∷ y ∷ xs ++ z ∷ [])
  unfolding calculate_root root_loop
  calculate_root_repeat x y xs z h =
      let level = next_level (x ∷ y ∷ (xs ++ z ∷ [])) in
      let rounds = length (xs ++ z ∷ []) in
      let (root, found) =
        root_loop_total rounds level (next_level-nonempty x (y ∷ (xs ++ z ∷ [])))
          (omega (arith, length-next_level x y (xs ++ z ∷ []))) in
      let longer : length (xs ++ z ∷ z ∷ []) ≡ suc rounds =
        omega (arith, length-append xs (z ∷ z ∷ []), length-append xs (z ∷ [])) in
      let same : next_level (x ∷ y ∷ (xs ++ z ∷ z ∷ [])) ≡ level =
        next_level_repeat (x ∷ y ∷ xs) z (omega arith) in
      ap (root_loop (length (xs ++ z ∷ z ∷ []))) same
      ∙ ap (λ n. root_loop n level) longer
      ∙ root_loop-suc rounds level found
      ∙ sym found
