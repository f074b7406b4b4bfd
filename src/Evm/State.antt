-- ===== src/Evm/State.antt =====
-- The accounts and the storage of `WorldState` (layer3-obolos/evm/state.h and state.cpp). `sha256` is
-- `crypto::SHA256`. The roots and their cache are left out, and with them the marks of what is dirty.
use pantheon_chain.Prelude.{
  ℕ, ◌≡◌, ◌↔◌, refl, Bool, true, ◌&&◌, ◌||◌, Option, none, some, List, [], ◌∷◌, ◌==◌, if◌then◌else◌,
  length, arith,
}
use pantheon_chain.Prelude.Maps.{
  Key, Map, find, insert, erase, find-insert, find-erase, bytes_beq, bytes_blt, bytes_beq_iff,
  bytes_key,
}
use pantheon_chain.Primitives.Transaction.{Hash, zero_hash}
use pantheon_chain.Evm.Word.{Word, is_zero}

abbrev pub Address : Type 0
Address = List ℕ

-- The order of `std::pair<Address, uint256_t>`.
abbrev pub StorageKey : Type 0
StorageKey = Address × Word

unfoldable pub slot_beq : StorageKey → StorageKey → Bool
slot_beq (a, k) (b, l) = bytes_beq a b && bytes_beq k l

pub slot_beq_iff : (a b : StorageKey) → (slot_beq a b ≡ true) ↔ (a ≡ b)
unfolding slot_beq
slot_beq_iff (a, k) (b, l) = ground (arith, bytes_beq_iff a b, bytes_beq_iff k l)

instance abbrev pub slot_key : Key StorageKey
slot_key = record {
  beq = slot_beq;
  blt = λ a b. bytes_blt a.0 b.0 || (bytes_beq a.0 b.0 && bytes_blt a.1 b.1);
  beq_iff = slot_beq_iff;
}

pub record AccountState : Type 0 where
  pub nonce : ℕ
  pub balance : Word
  pub code_hash : Hash
  pub storage_root : Hash
  pub code : List ℕ

abbrev pub new_account : AccountState
new_account = record {
  nonce = 0;
  balance = zero_hash;
  code_hash = zero_hash;
  storage_root = zero_hash;
  code = [];
}

pub record WorldState : Type 0 where
  pub accounts : Map Address AccountState
  pub storage : Map StorageKey Word

unfoldable pub get_account : Address → WorldState → Option AccountState
get_account addr w = find addr w.accounts

unfoldable pub set_account : Address → AccountState → WorldState → WorldState
set_account addr a w = record w { accounts = insert addr a w.accounts }

-- `accounts_[addr]`, which makes a new account where there is none.
unfoldable pub account_at : Address → WorldState → AccountState
account_at addr w = elim (find addr w.accounts) [ none ↦ new_account | some a ↦ a ]

unfoldable pub get_storage : Address → Word → WorldState → Word
get_storage addr key w = elim (find (addr, key) w.storage) [ none ↦ zero_hash | some v ↦ v ]

unfoldable pub set_storage : Address → Word → Word → WorldState → WorldState
set_storage addr key value w = record w {
  storage =
      if is_zero value then erase (addr, key) w.storage else insert (addr, key) value w.storage;
}

unfoldable pub get_code : Address → WorldState → List ℕ
get_code addr w = elim (find addr w.accounts) [ none ↦ [] | some a ↦ a.code ]

unfoldable pub set_code : (List ℕ → Hash) → Address → List ℕ → WorldState → WorldState
set_code sha256 addr code w = record w {
  accounts =
      insert addr
        (record (account_at addr w) {
          code = code;
          code_hash = if length code == 0 then zero_hash else sha256 code;
        })
        w.accounts;
}

unfoldable pub get_balance : Address → WorldState → Word
get_balance addr w = elim (find addr w.accounts) [ none ↦ zero_hash | some a ↦ a.balance ]

unfoldable pub set_balance : Address → Word → WorldState → WorldState
set_balance addr balance w = record w {
  accounts = insert addr (record (account_at addr w) { balance = balance }) w.accounts;
}

unfoldable pub get_nonce : Address → WorldState → ℕ
get_nonce addr w = elim (find addr w.accounts) [ none ↦ 0 | some a ↦ a.nonce ]

unfoldable pub set_nonce : Address → ℕ → WorldState → WorldState
set_nonce addr nonce w = record w {
  accounts = insert addr (record (account_at addr w) { nonce = nonce }) w.accounts;
}

unfoldable pub without_slots : Address → Map StorageKey Word → Map StorageKey Word
without_slots addr [] = []
without_slots addr ((k, v) ∷ m) =
    let rest = without_slots addr m in if bytes_beq k.0 addr then rest else (k, v) ∷ rest

unfoldable pub delete_account : Address → WorldState → WorldState
delete_account addr w = record {
  accounts = erase addr w.accounts;
  storage = without_slots addr w.storage;
}

-- Words that are zero are the zero word.
is_zero-eq : (w v : Word) → is_zero w ≡ true → is_zero v ≡ true → length w ≡ length v → w ≡ v
unfolding is_zero
is_zero-eq [] [] h k l = refl
is_zero-eq [] (y ∷ v) h k l = absurd (ground arith)
is_zero-eq (x ∷ w) [] h k l = absurd (ground arith)
is_zero-eq (x ∷ w) (y ∷ v) h k l = ground (arith, is_zero-eq w v)

is_zero_hash : (w : Word) → length w ≡ 32 → is_zero w ≡ true → w ≡ zero_hash
unfolding is_zero
is_zero_hash w size h = is_zero-eq w zero_hash h refl size

-- A slot that was written holds the value written, zero values included, and every other slot of any
-- account holds what it held.
pub get-set_storage :
    (addr : Address) (key value : Word) (w : WorldState) (at : Address) (slot : Word)
    → length value ≡ 32
    → get_storage at slot (set_storage addr key value w)
      ≡ (if bytes_beq at addr && bytes_beq slot key then value else get_storage at slot w)
unfolding get_storage set_storage slot_beq
get-set_storage addr key value w at slot size = ground (
  arith,
  find-erase (at, slot) (addr, key) w.storage,
  find-insert (at, slot) (addr, key) value w.storage,
  is_zero_hash value size,
)

find-without_slots :
    (addr at : Address) (slot : Word) (m : Map StorageKey Word)
    → find (at, slot) (without_slots addr m)
      ≡ (if bytes_beq at addr then none else find (at, slot) m)
unfolding find without_slots slot_beq
find-without_slots addr at slot [] = ground arith
find-without_slots addr at slot (((a, k), v) ∷ m) = ground (
  arith,
  bytes_beq_iff a addr,
  bytes_beq_iff at addr,
  bytes_beq_iff at a,
  find-without_slots addr at slot m,
)
