-- ===== src/Evm/Machine.antt =====
-- The state of the virtual machine and its stack, memory and gas (layer3-obolos/evm/vm.h and vm.cpp).
pub mod Execute
pub mod Bounds
pub mod Runs
pub mod Fuel
use pantheon_chain.Prelude.{
  ℕ, zero, suc, ◌+◌, ◌-◌, ◌*◌, ◌/◌, ◌%◌, ◌^◌, Bool, true, false, not, ◌||◌, Option, none, some,
  List, [], ◌∷◌, ◌++◌, ltb, leb, ◌==◌, if◌then◌else◌, length, take, drop, set,
}
use pantheon_chain.Prelude.Words.{u64_mod, add64, sub64, mul64}
use pantheon_chain.Evm.Word.{Word, zeros}
use pantheon_chain.Evm.State.{Address, WorldState}

pub data ExecResult : Type 0 where
  success returned revert out_of_gas : ExecResult
  stack_underflow stack_overflow invalid_jump invalid_opcode : ExecResult
  static_call_violation depth_exceeded : ExecResult

pub record ExecutionContext : Type 0 where
  pub origin : Address
  pub caller : Address
  pub address : Address
  pub value : Word
  pub input_data : List ℕ
  pub gas_limit : ℕ
  pub gas_price : ℕ
  pub block_number : ℕ
  pub timestamp : ℕ
  pub coinbase : Address
  pub difficulty : ℕ
  pub gas_limit_block : ℕ
  pub chain_id : ℕ
  pub base_fee : ℕ
  pub is_static : Bool
  pub depth : ℕ

-- The stack with its top first. No operation adds to the logs, which are left out. `state` is what the
-- reference to the world state leads to.
pub record Vm : Type 0 where
  pub state : WorldState
  pub ctx : ExecutionContext
  pub stack : List Word
  pub memory : List ℕ
  pub return_data : List ℕ
  pub gas_used : ℕ

abbrev pub new_vm : WorldState → ExecutionContext → Vm
new_vm state ctx = record {
  state = state;
  ctx = ctx;
  stack = [];
  memory = [];
  return_data = [];
  gas_used = 0;
}

abbrev pub max_stack_size : ℕ
max_stack_size = 1024

-- A call gives a value, throws (`std::exception`), or touches memory outside its buffer, which the
-- language leaves undefined. What was changed before a throw stays. An allocation of at most
-- `max_vector_size` bytes is taken to succeed.
pub data Effect {ℓ} (A : Type ℓ) : Type ℓ where
  gives : A → Vm → Effect A
  throws : Vm → Effect A
  out_of_bounds : Effect A

abbrev pub Call {ℓ} : Type ℓ → Type ℓ
Call A = Vm → Effect A

infixl 5 ◌>>=◌
abbrev pub ◌>>=◌ {ℓ κ} : {A : Type ℓ} {B : Type κ} → Call A → (A → Call B) → Call B
◌>>=◌ m f vm = elim (m vm) [
  | gives a vm' ↦ f a vm'
  | throws vm' ↦ throws vm'
  | out_of_bounds ↦ out_of_bounds
]

abbrev pub pure {ℓ} : {A : Type ℓ} → A → Call A
pure a vm = gives a vm

unfoldable pub push : Word → Call (Unit {0})
push v vm =
    if leb max_stack_size (length vm.stack)
    then throws vm
    else gives tt (record vm { stack = v ∷ vm.stack })

unfoldable pub pop_from : List Word → Call Word
pop_from [] vm = throws vm
pop_from (v ∷ vs) vm = gives v (record vm { stack = vs })

unfoldable pub pop : Call Word
pop vm = pop_from vm.stack vm

unfoldable pub word_at : ℕ → List Word → Option Word
word_at i [] = none
word_at zero (v ∷ vs) = some v
word_at (suc i) (v ∷ vs) = word_at i vs

unfoldable pub peek : ℕ → Call Word
peek depth vm = elim (word_at depth vm.stack) [ none ↦ throws vm | some v ↦ gives v vm ]

unfoldable pub dup : ℕ → Call (Unit {0})
dup depth vm =
    if depth == 0 || ltb (length vm.stack) depth then throws vm else (peek (depth - 1) >>= push) vm

-- The top and the word at this depth change places.
unfoldable pub exchange : ℕ → List Word → List Word
exchange depth [] = []
exchange depth (v ∷ vs) = elim (word_at depth (v ∷ vs)) [
  | none ↦ v ∷ vs
  | some w ↦ w ∷ set vs (depth - 1) v
]

unfoldable pub swap : ℕ → Call (Unit {0})
swap depth vm =
    if depth == 0 || leb (length vm.stack) depth
    then throws vm
    else gives tt (record vm { stack = exchange depth vm.stack })

-- The sum is a 64-bit word.
unfoldable pub use_gas : ℕ → Vm → Bool × Vm
use_gas amount vm =
    if ltb vm.ctx.gas_limit (add64 vm.gas_used amount)
    then (false, vm)
    else (true, record vm { gas_used = add64 vm.gas_used amount })

unfoldable pub get_gas_remaining : Vm → ℕ
get_gas_remaining vm = sub64 vm.ctx.gas_limit vm.gas_used

unfoldable pub expansion_cost : ℕ → ℕ → ℕ
expansion_cost size old = mul64 (sub64 (add64 size 31 / 32) (add64 old 31 / 32)) 3

-- The most bytes that a `std::vector<uint8_t>` may hold (`max_size`): beyond it `resize` throws.
abbrev pub max_vector_size : ℕ
max_vector_size = 2 ^ 63 - 1

-- The new bytes are zeros.
unfoldable pub resize_memory : ℕ → Bool × Vm → Effect (Unit {0})
resize_memory size (true, vm) =
    if ltb max_vector_size size
    then throws vm
    else gives tt (record vm { memory = vm.memory ++ zeros (size - length vm.memory) })
resize_memory size (false, vm) = throws vm

unfoldable pub expand_memory : ℕ → Call (Unit {0})
expand_memory size vm =
    if ltb (length vm.memory) size
    then resize_memory size (use_gas (expansion_cost size (length vm.memory)) vm)
    else gives tt vm

-- `memcpy` to and from the memory, which is undefined outside it.
unfoldable pub write_memory : ℕ → List ℕ → Call (Unit {0})
write_memory offset bytes vm =
    if ltb (length vm.memory) (offset + length bytes)
    then out_of_bounds
    else gives tt (record vm {
      memory = take offset vm.memory ++ bytes ++ drop (offset + length bytes) vm.memory;
    })

unfoldable pub read_memory : ℕ → ℕ → Call (List ℕ)
read_memory offset size vm =
    if ltb (length vm.memory) (offset + size)
    then out_of_bounds
    else gives (take size (drop offset vm.memory)) vm

unfoldable pub memory_store : ℕ → Word → Call (Unit {0})
memory_store offset value = do expanded ← expand_memory (add64 offset 32); write_memory offset value

unfoldable pub memory_store8 : ℕ → ℕ → Call (Unit {0})
memory_store8 offset value = do
  expanded ← expand_memory (add64 offset 1)
  write_memory offset (value ∷ [])

unfoldable pub memory_load : ℕ → Call Word
memory_load offset = do expanded ← expand_memory (add64 offset 32); read_memory offset 32
