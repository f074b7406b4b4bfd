-- ===== src/Settlement/Escrow/RoundTrip.antt =====
-- An escrow read back from its bytes (layer1-talanton/settlement/escrow.cpp).
use pantheon_chain.Prelude.{
  sym, subst, ℕ, zero, suc, ◌<◌, ◌≡◌, refl, Option, List, ◌++◌, append_assoc, length, length-append,
  arith,
}
use pantheon_chain.Prelude.Words.{u64_mod}
use pantheon_chain.Primitives.Bytes.{write_u64, read-write_u64}
use pantheon_chain.Primitives.Transaction.{Hash}
use pantheon_chain.Primitives.Wire.Items.{take_of_length, drop_of_length, not_short}
use pantheon_chain.Settlement.Escrow.{
  TimeLockEscrow, HashLockEscrow, ConditionalEscrow, Escrow, new_escrow, set_time_lock,
  set_hash_lock, set_conditional, is_releasable, serialize_time_lock, deserialize_time_lock,
  serialize_hash_lock, deserialize_hash_lock, serialize_conditional, deserialize_conditional,
  serialize_lock, serialize, deserialize,
}

-- What the C++ types hold: a type of the enumeration, 64-bit times, 32-byte hashes.
pub record IsEscrow (e : Escrow) : Type 0 where
  pub known : e.type < 3
  pub time_word : e.timelock.locktime < u64_mod
  pub hash_bytes : length e.hashlock.hash ≡ 32
  pub condition_word : e.conditional.locktime < u64_mod
  pub condition_bytes : length e.conditional.hash ≡ 32

length-write_u64 : (v : ℕ) → length (write_u64 v) ≡ 8
unfolding write_u64
length-write_u64 v = refl

deserialize-serialize_time_lock :
    (t : TimeLockEscrow) (rest : List ℕ)
    → t.locktime < u64_mod
    → deserialize_time_lock (serialize_time_lock t ++ rest) ≡ (t, rest)
unfolding deserialize_time_lock serialize_time_lock
deserialize-serialize_time_lock t rest h =
    rw
      (
        not_short 8 (write_u64 t.locktime) rest (omega (arith, length-write_u64 t.locktime)),
        read-write_u64 t.locktime rest h,
        drop_of_length 8 (write_u64 t.locktime) rest (length-write_u64 t.locktime),
      )
      refl

deserialize-serialize_hash_lock :
    (l : HashLockEscrow) (rest : List ℕ)
    → length l.hash ≡ 32
    → deserialize_hash_lock (serialize_hash_lock l ++ rest) ≡ (l, rest)
unfolding deserialize_hash_lock serialize_hash_lock
deserialize-serialize_hash_lock l rest h =
    rw
      (
        not_short 32 l.hash rest (omega (arith, h)),
        take_of_length 32 l.hash rest h,
        drop_of_length 32 l.hash rest h,
      )
      refl

deserialize-serialize_conditional :
    (c : ConditionalEscrow) (rest : List ℕ)
    → c.locktime < u64_mod
    → length c.hash ≡ 32
    → deserialize_conditional (serialize_conditional c ++ rest) ≡ (c, rest)
unfolding deserialize_conditional serialize_conditional
deserialize-serialize_conditional c rest h size =
    rw
      (
        not_short 40 (write_u64 c.locktime ++ c.hash) rest (
            omega (
              arith,
              length-append (write_u64 c.locktime) c.hash,
              length-write_u64 c.locktime,
              size,
            )),
        append_assoc (write_u64 c.locktime) c.hash rest,
        read-write_u64 c.locktime (c.hash ++ rest) h,
        drop_of_length 8 (write_u64 c.locktime) (c.hash ++ rest) (length-write_u64 c.locktime),
        take_of_length 32 c.hash rest size,
        drop_of_length 32 c.hash rest size,
      )
      refl

-- The result of reading is the escrow, but for the locks that its type does not use.
Restores : (List ℕ → Hash) → Escrow → List ℕ → Escrow × List ℕ → Type 0
Restores sha256 e rest result =
    (result.1 ≡ rest)
    × (result.0.type ≡ e.type)
    × ((time : ℕ) (preimage : Option (List ℕ))
        → is_releasable sha256 result.0 time preimage ≡ is_releasable sha256 e time preimage)

by_type :
    (sha256 : List ℕ → Hash) (type : ℕ) (t : TimeLockEscrow) (l : HashLockEscrow)
    (c : ConditionalEscrow) (rest : List ℕ)
    → type < 3
    → t.locktime < u64_mod
    → length l.hash ≡ 32
    → c.locktime < u64_mod
    → length c.hash ≡ 32
    → Restores sha256
        (record { type = type; timelock = t; hashlock = l; conditional = c })
        rest
        (deserialize
          (serialize (record { type = type; timelock = t; hashlock = l; conditional = c }) ++ rest))
unfolding deserialize serialize serialize_lock set_time_lock set_hash_lock set_conditional
    is_releasable Restores
by_type sha256 zero t l c rest known h k m n =
    subst
      (λ r.
        Restores sha256 (record { type = 0; timelock = t; hashlock = l; conditional = c }) rest
          (set_time_lock r.0 (new_escrow 0), r.1))
      (sym (deserialize-serialize_time_lock t rest h)) (refl, refl, λ time preimage. refl)
by_type sha256 (suc zero) t l c rest known h k m n =
    subst
      (λ r.
        Restores sha256 (record { type = 1; timelock = t; hashlock = l; conditional = c }) rest
          (set_hash_lock r.0 (new_escrow 1), r.1))
      (sym (deserialize-serialize_hash_lock l rest k)) (refl, refl, λ time preimage. refl)
by_type sha256 (suc (suc zero)) t l c rest known h k m n =
    subst
      (λ r.
        Restores sha256 (record { type = 2; timelock = t; hashlock = l; conditional = c }) rest
          (set_conditional r.0 (new_escrow 2), r.1))
      (sym (deserialize-serialize_conditional c rest m n)) (refl, refl, λ time preimage. refl)
by_type sha256 (suc (suc (suc type))) t l c rest known h k m n = absurd (omega (arith, known))

-- An escrow whose fields fit their C++ types, read back from its bytes, whatever follows them, is of the
-- same type, leaves what follows, and is releasable at the same times with the same preimages.
pub deserialize-serialize_escrow :
    (sha256 : List ℕ → Hash) (e : Escrow) (rest : List ℕ)
    → IsEscrow e
    → ((deserialize (serialize e ++ rest)).1 ≡ rest)
      × ((deserialize (serialize e ++ rest)).0.type ≡ e.type)
      × ((time : ℕ) (preimage : Option (List ℕ))
          → is_releasable sha256 (deserialize (serialize e ++ rest)).0 time preimage
            ≡ is_releasable sha256 e time preimage)
unfolding Restores
deserialize-serialize_escrow sha256 e rest h =
    by_type sha256 e.type e.timelock e.hashlock e.conditional rest h.known h.time_word h.hash_bytes
      h.condition_word h.condition_bytes
