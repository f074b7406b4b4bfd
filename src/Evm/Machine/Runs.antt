-- ===== src/Evm/Machine/Runs.antt =====
-- Runs of the virtual machine: the bounds at their end, and the fuel they need
-- (`ExecuteOpcode` and `Execute` of layer3-obolos/evm/vm.cpp).
use pantheon_chain.Prelude.{
  ℕ, zero, suc, inl, inr, Bool, true, false, List, if◌then◌else◌, ◌==◌, Bool-cases, length, leb,
}
use pantheon_chain.Primitives.Bytes.{byte}
use pantheon_chain.Evm.Word.{Word, to_uint64}
use pantheon_chain.Prelude.Words.{add64}
use pantheon_chain.Evm.Opcodes.{Opcode, get_opcode_cost}
use pantheon_chain.Evm.Machine.{
  ExecResult, success, static_call_violation, Vm, Effect, gives, throws, out_of_bounds, pop,
  use_gas,
}
use pantheon_chain.Evm.Machine.Execute.{
  Answer, goes_on, with_vm, mload, discard, mstore, mstore8, sload, sstore, write_slot, leave,
  keep_data, context_opcode, stack_opcode, execute_opcode, Run, ends, undefined, starved,
  after_opcode, charged, run,
}
use pantheon_chain.Evm.Machine.Bounds.{
  Fits, FitsEffect, Keeps, Keeps-pure, Keeps-if, Keeps-with, Keeps-bind, Keeps-push, Keeps-pop,
  Keeps-dup, Keeps-swap, Keeps-expand_memory, Keeps-write_memory, Keeps-read_memory, Keeps-goes_on,
  Keeps-binary, Keeps-unary, use_gas-Fits,
}
use pantheon_chain.Evm.Machine.{memory_store, memory_store8, memory_load}

Keeps-memory_load : (offset : ℕ) → Keeps (memory_load offset)
unfolding memory_load
Keeps-memory_load offset =
    Keeps-bind _ _ (Keeps-expand_memory (add64 offset 32)) (λ u. Keeps-read_memory offset 32)

Keeps-memory_store : (offset : ℕ) (value : Word) → Keeps (memory_store offset value)
unfolding memory_store
Keeps-memory_store offset value =
    Keeps-bind _ _ (Keeps-expand_memory (add64 offset 32)) (λ u. Keeps-write_memory offset value)

Keeps-memory_store8 : (offset value : ℕ) → Keeps (memory_store8 offset value)
unfolding memory_store8
Keeps-memory_store8 offset value =
    Keeps-bind _ _ (Keeps-expand_memory (add64 offset 1)) (λ u. Keeps-write_memory offset _)

Keeps-mload : Keeps mload
Keeps-mload =
    Keeps-bind pop _ Keeps-pop
      (λ offset. Keeps-bind _ _ (Keeps-memory_load (to_uint64 offset)) Keeps-push)

Keeps-mstore : Keeps mstore
Keeps-mstore =
    Keeps-bind pop _ Keeps-pop
      (λ offset. Keeps-bind pop _ Keeps-pop (λ value. Keeps-memory_store (to_uint64 offset) value))

Keeps-mstore8 : Keeps mstore8
Keeps-mstore8 =
    Keeps-bind pop _ Keeps-pop
      (λ offset. Keeps-bind pop _ Keeps-pop (λ value. Keeps-memory_store8 (to_uint64 offset) _))

Keeps-sload : Keeps sload
Keeps-sload = Keeps-bind pop _ Keeps-pop (λ key. Keeps-with _ (λ vm. Keeps-push _))

Keeps-write_slot : (key value : Word) → Keeps (write_slot key value)
Keeps-write_slot key value before vm h = record {
  stack_fits = h.stack_fits;
  gas_fits = h.gas_fits;
  same_context = h.same_context;
}

Keeps-sstore : Keeps sstore
Keeps-sstore =
    Keeps-bind pop _ Keeps-pop
      (λ key. Keeps-bind pop _ Keeps-pop (λ value. Keeps-write_slot key value))

Keeps-discard : Keeps discard
Keeps-discard = Keeps-bind pop _ Keeps-pop (λ v. Keeps-pure {A = Unit {0}} tt)

Keeps-keep_data : (bytes : List ℕ) → Keeps (keep_data bytes)
Keeps-keep_data bytes before vm h = record {
  stack_fits = h.stack_fits;
  gas_fits = h.gas_fits;
  same_context = h.same_context;
}

Keeps-leave : (result : ExecResult) (pc : ℕ) → Keeps (leave result pc)
Keeps-leave result pc =
    search (Keeps-bind, Keeps-pop, Keeps-expand_memory, Keeps-read_memory, Keeps-keep_data)

Keeps-context_opcode : (op : Opcode) (pc : ℕ) → Keeps (context_opcode op pc)
unfolding context_opcode
Keeps-context_opcode op pc =
    search (Keeps-if, Keeps-goes_on, Keeps-with, Keeps-push, Keeps-leave, Keeps-pure) depth 40

Keeps-guarded_sstore :
    (pc : ℕ)
    → Keeps (
        with_vm (λ vm.
          if vm.ctx.is_static
          then (λ vm'. gives (static_call_violation, pc) vm')
          else goes_on pc sstore))
Keeps-guarded_sstore pc before vm h =
    Keeps-if vm.ctx.is_static (λ vm'. gives (static_call_violation, pc) vm') (goes_on pc sstore)
      (Keeps-pure {A = Answer} (static_call_violation, pc)) (Keeps-goes_on pc sstore Keeps-sstore)
      before vm h

Keeps-stack_opcode : (op : Opcode) (code : List ℕ) (pc : ℕ) → Keeps (stack_opcode op code pc)
unfolding stack_opcode
Keeps-stack_opcode op code pc = Keeps-if (op == 0x51) _ _ (Keeps-goes_on pc mload Keeps-mload) (
    Keeps-if (op == 0x52) _ _ (Keeps-goes_on pc mstore Keeps-mstore) (
      Keeps-if (op == 0x53) _ _ (Keeps-goes_on pc mstore8 Keeps-mstore8) (
        Keeps-if (op == 0x54) _ _ (Keeps-goes_on pc sload Keeps-sload) (
          Keeps-if (op == 0x55) _ _ (Keeps-guarded_sstore pc) (
            Keeps-if (op == 0x50) _ _ (Keeps-goes_on pc discard Keeps-discard) (
              search (
                Keeps-if, Keeps-goes_on, Keeps-push, Keeps-dup, Keeps-swap, Keeps-context_opcode,
              )))))))

Keeps-execute_opcode : (op : Opcode) (code : List ℕ) (pc : ℕ) → Keeps (execute_opcode op code pc)
unfolding execute_opcode
Keeps-execute_opcode op code pc =
    search (Keeps-if, Keeps-goes_on, Keeps-binary, Keeps-unary, Keeps-pure, Keeps-stack_opcode)
      depth 40

abbrev pub FitsRun : Vm → Run → Type 0
FitsRun before (ends result data_bytes vm) = Fits before vm
FitsRun before undefined = Unit
FitsRun before starved = Unit

after_opcode-Fits :
    (continue : ℕ → Vm → Run) (e : Effect Answer) (before : Vm)
    → FitsEffect before e
    → ((pc : ℕ) (vm : Vm) → Fits before vm → FitsRun before (continue pc vm))
    → FitsRun before (after_opcode continue e)
unfolding after_opcode
after_opcode-Fits continue (gives (success, pc) vm) before h k = k (suc pc) vm h
after_opcode-Fits continue (gives (_, pc) vm) before h k = h
after_opcode-Fits continue (throws vm) before h k = h
after_opcode-Fits continue out_of_bounds before h k = tt

charged-Fits :
    (continue : ℕ → Vm → Run) (op : Opcode) (code : List ℕ) (pc : ℕ) (paid : Bool × Vm)
    (before : Vm)
    → Fits before paid.1
    → ((pc : ℕ) (vm : Vm) → Fits before vm → FitsRun before (continue pc vm))
    → FitsRun before (charged continue op code pc paid)
unfolding charged
charged-Fits continue op code pc (true, vm) before h k =
    after_opcode-Fits continue (execute_opcode op code pc vm) before
      (Keeps-execute_opcode op code pc before vm h) k
charged-Fits continue op code pc (false, vm) before h k = h

pub run-Fits :
    (fuel : ℕ) (code : List ℕ) (pc : ℕ) (before vm : Vm)
    → Fits before vm
    → FitsRun before (run fuel code pc vm)
unfolding run
run-Fits zero code pc before vm h = elim (Bool-cases (leb (length code) pc)) [
  | inl e ↦ rw e h
  | inr e ↦ rw e tt
]
run-Fits (suc fuel) code pc before vm h = elim (Bool-cases (leb (length code) pc)) [
  | inl e ↦ rw (e, FitsRun) h
  | inr e ↦
      rw (e, FitsRun)
        (charged-Fits (run fuel code) (byte code pc) code pc
          (use_gas (get_opcode_cost (byte code pc)) vm) before
          (use_gas-Fits (get_opcode_cost (byte code pc)) before vm h)
          (λ next vm' fits. run-Fits fuel code next before vm' fits))
]
