-- ===== src/Evm/Machine/Execute.antt =====
-- `ExecuteOpcode` and `Execute` (layer3-obolos/evm/vm.cpp).
use pantheon_chain.Prelude.{
  ℕ, zero, suc, ◌+◌, ◌-◌, ◌%◌, Bool, true, false, List, [], ◌++◌, leb, ◌==◌, if◌then◌else◌, length,
  take, drop,
}
use pantheon_chain.Prelude.Words.{add64}
use pantheon_chain.Primitives.Bytes.{byte}
use pantheon_chain.Evm.Word.{
  Word, zeros, to_uint256, to_uint64, add, sub, mul, lt, gt, eq, is_zero, div, mod', exp, and', or',
  xor', not', shl, shr,
}
use pantheon_chain.Evm.State.{get_storage, set_storage}
use pantheon_chain.Evm.Opcodes.{
  Opcode, get_opcode_cost, is_push_op, get_push_size, is_dup_op, get_dup_depth, is_swap_op,
  get_swap_depth,
}
use pantheon_chain.Evm.Machine.{
  ExecResult, success, returned, revert, out_of_gas, invalid_opcode, static_call_violation, Vm,
  Effect, gives, throws, out_of_bounds, Call, ◌>>=◌, pure, push, pop, dup, swap, use_gas,
  get_gas_remaining, expand_memory, read_memory, memory_store, memory_store8, memory_load,
}

-- What an opcode answers: the result and the program counter, which only a push moves.
abbrev pub Answer : Type 0
Answer = ExecResult × ℕ

abbrev pub goes_on : ℕ → Call (Unit {0}) → Call Answer
goes_on pc m = do finished ← m; pure (success, pc)

abbrev pub flag : Bool → Word
flag test = if test then to_uint256 1 else to_uint256 0

-- The second operand is popped first.
abbrev pub binary : (Word → Word → Word) → Call (Unit {0})
binary f = do b ← pop; a ← pop; push (f a b)

abbrev pub unary : (Word → Word) → Call (Unit {0})
unary f = do a ← pop; push (f a)

abbrev pub with_vm {ℓ} : {A : Type ℓ} → (Vm → Call A) → Call A
with_vm f vm = f vm vm

abbrev pub mload : Call (Unit {0})
mload = do offset ← pop; value ← memory_load (to_uint64 offset); push value

abbrev pub mstore : Call (Unit {0})
mstore = do offset ← pop; value ← pop; memory_store (to_uint64 offset) value

abbrev pub mstore8 : Call (Unit {0})
mstore8 = do offset ← pop; value ← pop; memory_store8 (to_uint64 offset) (to_uint64 value % 256)

abbrev pub sload : Call (Unit {0})
sload = do key ← pop; with_vm (λ vm. push (get_storage vm.ctx.address key vm.state))

abbrev pub write_slot : Word → Word → Call (Unit {0})
write_slot key value vm =
    gives tt (record vm { state = set_storage vm.ctx.address key value vm.state })

abbrev pub sstore : Call (Unit {0})
sstore = do key ← pop; value ← pop; write_slot key value

abbrev pub discard : Call (Unit {0})
discard = do popped ← pop; pure tt

-- The bytes after the opcode, filled up with zeros at the end of the code.
unfoldable pub push_value : ℕ → List ℕ → ℕ → Word
push_value size code pc =
    let bytes = take size (drop (suc pc) code) in
    zeros (32 - size) ++ bytes ++ zeros (size - length bytes)

abbrev pub keep_data : List ℕ → Call (Unit {0})
keep_data data_bytes vm = gives tt (record vm { return_data = data_bytes })

-- `RETURN` and `REVERT`
abbrev pub leave : ExecResult → ℕ → Call Answer
leave result pc = do
  offset ← pop
  size ← pop
  expanded ← expand_memory (add64 (to_uint64 offset) (to_uint64 size))
  bytes ← read_memory (to_uint64 offset) (to_uint64 size)
  kept ← keep_data bytes
  pure (result, pc)

-- A 20-byte address at the right of a word.
abbrev pub address_word : List ℕ → Word
address_word address = zeros 12 ++ address

-- The opcodes that push a value of the context.
unfoldable pub context_opcode : Opcode → ℕ → Call Answer
context_opcode op pc =
    if op == 0x30
    then goes_on pc (with_vm (λ vm. push (address_word vm.ctx.address)))
    else if op == 0x33
    then goes_on pc (with_vm (λ vm. push (address_word vm.ctx.caller)))
    else if op == 0x34
    then goes_on pc (with_vm (λ vm. push vm.ctx.value))
    else if op == 0x5A
    then goes_on pc (with_vm (λ vm. push (to_uint256 (get_gas_remaining vm))))
    else if op == 0x3A
    then goes_on pc (with_vm (λ vm. push (to_uint256 vm.ctx.gas_price)))
    else if op == 0x42
    then goes_on pc (with_vm (λ vm. push (to_uint256 vm.ctx.timestamp)))
    else if op == 0x43
    then goes_on pc (with_vm (λ vm. push (to_uint256 vm.ctx.block_number)))
    else if op == 0x44
    then goes_on pc (with_vm (λ vm. push (to_uint256 vm.ctx.difficulty)))
    else if op == 0x45
    then goes_on pc (with_vm (λ vm. push (to_uint256 vm.ctx.gas_limit_block)))
    else if op == 0x46
    then goes_on pc (with_vm (λ vm. push (to_uint256 vm.ctx.chain_id)))
    else if op == 0x48
    then goes_on pc (with_vm (λ vm. push (to_uint256 vm.ctx.base_fee)))
    else if op == 0xF3
    then leave returned pc
    else if op == 0xFD
    then leave revert pc
    else if op == 0x5B
    then pure (success, pc)
    else pure (invalid_opcode, pc)

-- Memory, storage and the stack.
unfoldable pub stack_opcode : Opcode → List ℕ → ℕ → Call Answer
stack_opcode op code pc =
    if op == 0x51
    then goes_on pc mload
    else if op == 0x52
    then goes_on pc mstore
    else if op == 0x53
    then goes_on pc mstore8
    else if op == 0x54
    then goes_on pc sload
    else if op == 0x55
    then with_vm
        (λ vm. if vm.ctx.is_static then pure (static_call_violation, pc) else goes_on pc sstore)
    else if op == 0x50
    then goes_on pc discard
    else if is_push_op op
    then goes_on (pc + get_push_size op) (push (push_value (get_push_size op) code pc))
    else if is_dup_op op
    then goes_on pc (dup (get_dup_depth op))
    else if is_swap_op op
    then goes_on pc (swap (get_swap_depth op))
    else context_opcode op pc

-- `ExecuteOpcode`. `STOP` answers like an opcode that goes on.
unfoldable pub execute_opcode : Opcode → List ℕ → ℕ → Call Answer
execute_opcode op code pc =
    if op == 0x00
    then pure (success, pc)
    else if op == 0x01
    then goes_on pc (binary add)
    else if op == 0x02
    then goes_on pc (binary mul)
    else if op == 0x03
    then goes_on pc (binary sub)
    else if op == 0x04
    then goes_on pc (binary div)
    else if op == 0x06
    then goes_on pc (binary mod')
    else if op == 0x0A
    then goes_on pc (binary exp)
    else if op == 0x10
    then goes_on pc (binary (λ a b. flag (lt a b)))
    else if op == 0x11
    then goes_on pc (binary (λ a b. flag (gt a b)))
    else if op == 0x14
    then goes_on pc (binary (λ a b. flag (eq a b)))
    else if op == 0x15
    then goes_on pc (unary (λ a. flag (is_zero a)))
    else if op == 0x16
    then goes_on pc (binary and')
    else if op == 0x17
    then goes_on pc (binary or')
    else if op == 0x18
    then goes_on pc (binary xor')
    else if op == 0x19
    then goes_on pc (unary not')
    else if op == 0x1B
    then goes_on pc (binary shl)
    else if op == 0x1C
    then goes_on pc (binary shr)
    else stack_opcode op code pc

-- The end of a run; `starved` is a run whose fuel was too small, which the source does not have.
pub data Run : Type 0 where
  ends : ExecResult → List ℕ → Vm → Run
  undefined : Run
  starved : Run

-- The opcode at the program counter, with its gas: what is left to do, or the end of the run.
unfoldable pub after_opcode : (ℕ → Vm → Run) → Effect Answer → Run
after_opcode continue (gives (success, pc) vm) = continue (suc pc) vm
after_opcode continue (gives (result, pc) vm) = ends result vm.return_data vm
after_opcode continue (throws vm) = ends invalid_opcode [] vm
after_opcode continue out_of_bounds = undefined

unfoldable pub charged : (ℕ → Vm → Run) → Opcode → List ℕ → ℕ → Bool × Vm → Run
charged continue op code pc (true, vm) = after_opcode continue (execute_opcode op code pc vm)
charged continue op code pc (false, vm) = ends out_of_gas [] vm

-- The loop of `Execute`. The source also marks the jump destinations, which nothing reads.
unfoldable pub run : ℕ → List ℕ → ℕ → Vm → Run
run zero code pc vm = if leb (length code) pc then ends success [] vm else starved
run (suc fuel) code pc vm = elim (leb (length code) pc) [
  | true ↦ ends success [] vm
  | false ↦
      charged (run fuel code) (byte code pc) code pc (use_gas (get_opcode_cost (byte code pc)) vm)
]

-- Every opcode moves the counter on, so the length of the code is enough fuel.
unfoldable pub execute : List ℕ → Vm → Run
execute code vm = run (length code) code 0 vm
