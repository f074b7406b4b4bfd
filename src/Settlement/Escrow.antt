-- ===== src/Settlement/Escrow.antt =====
-- `TimeLockEscrow`, `HashLockEscrow`, `ConditionalEscrow` and `Escrow`
-- (layer1-talanton/settlement/escrow.h and escrow.cpp). A reader takes the bytes from its position on, and
-- leaves those after it; where it refuses, the position stays. `sha256` is `crypto::SHA256::Hash256`.
pub mod RoundTrip
use pantheon_chain.Prelude.{
  ℕ, Bool, true, false, ◌&&◌, Option, none, some, List, [], ◌∷◌, ◌++◌, ltb, leb, ◌==◌,
  if◌then◌else◌, length, take, drop,
}
use pantheon_chain.Prelude.Maps.{bytes_beq}
use pantheon_chain.Primitives.Bytes.{write_u64, read_u64}
use pantheon_chain.Primitives.Transaction.{Hash, zero_hash}

-- `enum class EscrowType : uint8_t`, as its numbers: a byte that was read may be any.
abbrev pub EscrowType : Type 0
EscrowType = ℕ

abbrev pub time_locked : EscrowType
time_locked = 0

abbrev pub hash_locked : EscrowType
hash_locked = 1

abbrev pub conditional_lock : EscrowType
conditional_lock = 2

pub record TimeLockEscrow : Type 0 where
  pub locktime : ℕ

pub record HashLockEscrow : Type 0 where
  pub hash : Hash

pub record ConditionalEscrow : Type 0 where
  pub locktime : ℕ
  pub hash : Hash

pub record Escrow : Type 0 where
  pub type : EscrowType
  pub timelock : TimeLockEscrow
  pub hashlock : HashLockEscrow
  pub conditional : ConditionalEscrow

abbrev pub no_timelock : TimeLockEscrow
no_timelock = record { locktime = 0 }

abbrev pub no_hashlock : HashLockEscrow
no_hashlock = record { hash = zero_hash }

abbrev pub no_conditional : ConditionalEscrow
no_conditional = record { locktime = 0; hash = zero_hash }

-- `Escrow(type)`
abbrev pub new_escrow : EscrowType → Escrow
new_escrow type = record {
  type = type;
  timelock = no_timelock;
  hashlock = no_hashlock;
  conditional = no_conditional;
}

unfoldable pub set_time_lock : TimeLockEscrow → Escrow → Escrow
set_time_lock timelock e = record e { type = time_locked; timelock = timelock }

unfoldable pub set_hash_lock : HashLockEscrow → Escrow → Escrow
set_hash_lock hashlock e = record e { type = hash_locked; hashlock = hashlock }

unfoldable pub set_conditional : ConditionalEscrow → Escrow → Escrow
set_conditional conditional e = record e { type = conditional_lock; conditional = conditional }

unfoldable pub time_is_releasable : TimeLockEscrow → ℕ → Bool
time_is_releasable t current_time = leb t.locktime current_time

module _ (sha256 : List ℕ → Hash) where
  unfoldable pub verify_preimage : HashLockEscrow → List ℕ → Bool
  verify_preimage h preimage = bytes_beq (sha256 preimage) h.hash

  unfoldable pub conditional_is_releasable : ConditionalEscrow → ℕ → Option (List ℕ) → Bool
  conditional_is_releasable c current_time preimage =
      if ltb current_time c.locktime
      then false
      else elim preimage [ none ↦ false | some image ↦ bytes_beq (sha256 image) c.hash ]

  unfoldable pub is_releasable : Escrow → ℕ → Option (List ℕ) → Bool
  is_releasable e current_time preimage =
      if e.type == time_locked
      then time_is_releasable e.timelock current_time
      else if e.type == hash_locked
      then elim preimage [ none ↦ false | some image ↦ verify_preimage e.hashlock image ]
      else if e.type == conditional_lock
      then conditional_is_releasable e.conditional current_time preimage
      else false

unfoldable pub serialize_time_lock : TimeLockEscrow → List ℕ
serialize_time_lock t = write_u64 t.locktime

unfoldable pub deserialize_time_lock : List ℕ → TimeLockEscrow × List ℕ
deserialize_time_lock input =
    if ltb (length input) 8
    then (no_timelock, input)
    else (record { locktime = read_u64 input }, drop 8 input)

unfoldable pub serialize_hash_lock : HashLockEscrow → List ℕ
serialize_hash_lock h = h.hash

unfoldable pub deserialize_hash_lock : List ℕ → HashLockEscrow × List ℕ
deserialize_hash_lock input =
    if ltb (length input) 32
    then (no_hashlock, input)
    else (record { hash = take 32 input }, drop 32 input)

unfoldable pub serialize_conditional : ConditionalEscrow → List ℕ
serialize_conditional c = write_u64 c.locktime ++ c.hash

unfoldable pub deserialize_conditional : List ℕ → ConditionalEscrow × List ℕ
deserialize_conditional input = if ltb (length input) 40 then (no_conditional, input) else (
  record { locktime = read_u64 input; hash = take 32 (drop 8 input) },
  drop 32 (drop 8 input),
)

unfoldable pub serialize_lock : Escrow → List ℕ
serialize_lock e =
    if e.type == time_locked
    then serialize_time_lock e.timelock
    else if e.type == hash_locked
    then serialize_hash_lock e.hashlock
    else if e.type == conditional_lock
    then serialize_conditional e.conditional
    else []

unfoldable pub serialize : Escrow → List ℕ
serialize e = e.type ∷ serialize_lock e

unfoldable pub deserialize : List ℕ → Escrow × List ℕ
deserialize [] = (new_escrow time_locked, [])
deserialize (type ∷ input) =
    if type == time_locked
    then (
      set_time_lock (deserialize_time_lock input).0 (new_escrow type),
      (deserialize_time_lock input).1,
    )
    else if type == hash_locked
    then (
      set_hash_lock (deserialize_hash_lock input).0 (new_escrow type),
      (deserialize_hash_lock input).1,
    )
    else if type == conditional_lock
    then (
      set_conditional (deserialize_conditional input).0 (new_escrow type),
      (deserialize_conditional input).1,
    )
    else (new_escrow type, input)
