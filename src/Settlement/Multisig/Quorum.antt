-- ===== src/Settlement/Multisig/Quorum.antt =====
-- What `MultisigValidator::VerifySignatures` of layer1-talanton/settlement/multisig.cpp accepts.
use pantheon_chain.Prelude.{
  ℕ, ◌+◌, ◌%◌, ◌<◌, ◌≤◌, ◌≡◌, ◌≢◌, ◌⊎◌, refl, sym, subst, inl, inr, Bool, true, false, some, List,
  [], ◌∷◌, ◌++◌, ltb→lt, length, All, Bool-cases, Option-cases, arith,
}
use pantheon_chain.Primitives.Transaction.{Hash}
use pantheon_chain.Settlement.Multisig.{
  MultisigPolicy, get_n, AggregatedSignature, no_signatures, has_index, add_signature, key_at,
  verify_schnorr_signature, count_valid, verify_signatures, is_valid,
}
use pantheon_chain.Settlement.Multisig.Keys.{
  Distinct, All-implied, keys_of, keys_of-Distinct, pubkeys-Distinct,
}

abbrev pub Member : {A : Type 0} → A → List A → Type 0
Member x [] = ⊥
Member x (y ∷ ys) = (x ≡ y) ⊎ Member x ys

abbrev indices : List (ℕ × List ℕ) → List ℕ
indices [] = []
indices ((i, s) ∷ sigs) = i ∷ indices sigs

-- Signatures added one by one, in any order.
unfoldable pub add_all : List (ℕ × List ℕ) → AggregatedSignature → AggregatedSignature
add_all [] a = a
add_all ((i, s) ∷ pairs) a = add_all pairs (add_signature i s a)

-- An index that is not there differs from all that are, and may be appended.
append-Distinct :
    (sigs : List (ℕ × List ℕ)) (i : ℕ) (s : List ℕ)
    → has_index i sigs ≡ false
    → Distinct (indices sigs)
    → Distinct (indices (sigs ++ (i, s) ∷ []))
unfolding has_index
append-Distinct [] i s h d = (tt, tt)
append-Distinct ((j, t) ∷ sigs) i s h d =
    (others sigs d.0, append-Distinct sigs i s (ground (arith, h)) d.1)
  where
    others :
        (more : List (ℕ × List ℕ))
        → All (λ y. y ≢ j) (indices more)
        → All (λ y. y ≢ j) (indices (more ++ (i, s) ∷ []))
    others [] e = ((λ same. ground (arith, h, same)), tt)
    others ((k, r) ∷ more) e = (e.0, others more e.1)

add_all-Distinct :
    (pairs : List (ℕ × List ℕ)) (a : AggregatedSignature)
    → Distinct (indices a.signatures)
    → Distinct (indices (add_all pairs a).signatures)
unfolding add_all add_signature
add_all-Distinct [] a d = d
add_all-Distinct ((i, s) ∷ pairs) a d = elim (Bool-cases (has_index i a.signatures)) [
  | inl e ↦ rw (e, add_all) (add_all-Distinct pairs a d)
  | inr e ↦ rw (e, add_all) (add_all-Distinct pairs _ (append-Distinct a.signatures i s e d))
]

-- What holds of every member of a list holds of a list of members.
All-within :
    (P : ℕ → Type 0) (xs ys : List ℕ) → ((i : ℕ) → Member i xs → Member i ys) → All P ys → All P xs
All-within P [] ys sub h = tt
All-within P (x ∷ xs) ys sub h =
    (All-member ys x (sub x (inl refl)) h, All-within P xs ys (λ i m. sub i (inr m)) h)
  where
    All-member : (zs : List ℕ) (x : ℕ) → Member x zs → All P zs → P x
    All-member [] x m h = absurd m
    All-member (z ∷ zs) x (inl e) h = subst P (sym e) h.0
    All-member (z ∷ zs) x (inr m) h = All-member zs x m h.1

module _ (sha256 : List ℕ → Hash) (schnorr_verify : List ℕ → Hash → List ℕ → Bool) where
  -- The key with this index has signed: one of the signatures is valid for it.
  pub record Signs (p : MultisigPolicy) (sigs : List (ℕ × List ℕ)) (message : List ℕ) (i : ℕ)
      : Type 0 where
    pub in_range : i < get_n p
    pub signature : List ℕ
    pub given : Member (i, signature) sigs
    pub verifies :
        verify_schnorr_signature sha256 schnorr_verify (key_at i p.pubkeys) signature message ≡ true

  later_signs :
      (p : MultisigPolicy) (sigs : List (ℕ × List ℕ)) (first : ℕ × List ℕ) (message : List ℕ)
      (signers : List ℕ)
      → All (Signs p sigs message) signers
      → All (Signs p (first ∷ sigs) message) signers
  later_signs p sigs first message [] h = tt
  later_signs p sigs first message (i ∷ is) h = (
    record {
      in_range = h.0.in_range;
      signature = h.0.signature;
      given = inr h.0.given;
      verifies = h.0.verifies;
    },
    later_signs p sigs first message is h.1,
  )

  -- The signers that stand behind a counter: each of them has an index among the signatures.
  record Counted (p : MultisigPolicy) (sigs : List (ℕ × List ℕ)) (message : List ℕ)
      (count total : ℕ) : Type 0 where
    signers : List ℕ
    distinct : Distinct signers
    signed : All (Signs p sigs message) signers
    indexed : (i : ℕ) → Member i signers → Member i (indices sigs)
    enough : total ≤ count + length signers

  count_valid-Counted :
      (p : MultisigPolicy) (message : List ℕ) (sigs : List (ℕ × List ℕ)) (count total : ℕ)
      → Distinct (indices sigs)
      → count_valid sha256 schnorr_verify p message sigs count ≡ some total
      → Counted p sigs message count total
  unfolding count_valid
  count_valid-Counted p message [] count total d h = record {
    signers = [];
    distinct = tt;
    signed = tt;
    indexed = λ i m. m;
    enough = ground (arith, h);
  }
  count_valid-Counted p message ((i, s) ∷ sigs) count total d h =
      let range : i < get_n p = ltb→lt i (get_n p) (ground (arith, h)) in
      elim (Bool-cases
        (verify_schnorr_signature sha256 schnorr_verify (key_at i p.pubkeys) s message)) [
          | inl e ↦
              let rest =
                count_valid-Counted p message sigs ((count + 1) % 256) total d.1
                  (ground (arith, h, e)) in
              record {
                signers = i ∷ rest.signers;
                distinct =
                    (All-within _ rest.signers (indices sigs) rest.indexed d.0, rest.distinct);
                signed = (
                  record { in_range = range; signature = s; given = inl refl; verifies = e },
                  later_signs p sigs (i, s) message rest.signers rest.signed,
                );
                indexed =
                    λ j m. elim m [ inl same ↦ inl same | inr later ↦ inr (rest.indexed j later) ];
                enough = omega (arith, rest.enough);
              }
          | inr e ↦
              let rest =
                count_valid-Counted p message sigs count total d.1 (ground (arith, h, e)) in
              record {
                signers = rest.signers;
                distinct = rest.distinct;
                signed = later_signs p sigs (i, s) message rest.signers rest.signed;
                indexed = λ j m. inr (rest.indexed j m);
                enough = rest.enough;
              }
        ]

  -- Signatures that `VerifySignatures` accepts, added one by one and in any order, contain valid
  -- signatures of at least `m` keys of the policy: each signer is the place of a key with a signature that
  -- is valid for it, and the keys at these places are all different.
  pub verify_signatures_sound :
      (p : MultisigPolicy) (pairs : List (ℕ × List ℕ)) (message : List ℕ)
      → verify_signatures sha256 schnorr_verify p (add_all pairs no_signatures) message ≡ true
      → (signers : List ℕ) × Distinct (keys_of signers p.pubkeys)
        × All (Signs p (add_all pairs no_signatures).signatures message) signers
        × (p.m ≤ length signers)
  unfolding verify_signatures get_n
  verify_signatures_sound p pairs message h =
      let sigs = (add_all pairs no_signatures).signatures in
      let valid : is_valid p ≡ true = ground (arith, h) in
      elim (Option-cases (count_valid sha256 schnorr_verify p message sigs 0)) [
        | inl e ↦ absurd (ground (arith, h, e))
        | inr (total, e) ↦
            let counted =
              count_valid-Counted p message sigs 0 total (add_all-Distinct pairs no_signatures tt)
                e in
            (
              counted.signers,
              keys_of-Distinct counted.signers p.pubkeys (pubkeys-Distinct p valid) counted.distinct
                  (All-implied counted.signers (λ i s. omega (arith, s.in_range)) counted.signed),
              counted.signed,
              ground (arith, h, e, counted.enough),
            )
      ]
