-- ===== src/Evm/Machine/Fuel.antt =====
-- The fuel that a run needs: every opcode moves the program counter on, for there is no jump
-- (`Execute` of layer3-obolos/evm/vm.cpp).
use pantheon_chain.Prelude.{
  ℕ, zero, suc, ◌+◌, ◌≤◌, ◌<◌, le→leb, inl, inr, Bool, true, false, List, if◌then◌else◌, Bool-cases,
  length, leb, arith,
}
use pantheon_chain.Primitives.Bytes.{byte}
use pantheon_chain.Prelude.Words.{add64}
use pantheon_chain.Evm.Word.{to_uint64}
use pantheon_chain.Evm.Opcodes.{Opcode, get_opcode_cost}
use pantheon_chain.Evm.Machine.{
  ExecResult, success, Vm, Effect, gives, throws, out_of_bounds, Call, ◌>>=◌, use_gas, pop,
  expand_memory, read_memory,
}
use pantheon_chain.Evm.Machine.Execute.{
  Answer, goes_on, with_vm, keep_data, leave, context_opcode, stack_opcode, execute_opcode, Run,
  ends, undefined, starved, after_opcode, charged, run, execute,
}
use pantheon_chain.Evm.Machine.Bounds.{Fits}
use pantheon_chain.Evm.Machine.Runs.{FitsRun, run-Fits}

abbrev AdvancesEffect : ℕ → Effect Answer → Type 0
AdvancesEffect pc (gives a vm) = pc ≤ a.1
AdvancesEffect pc (throws vm) = Unit
AdvancesEffect pc out_of_bounds = Unit

abbrev Advances : ℕ → Call Answer → Type 0
Advances pc m = (vm : Vm) → AdvancesEffect pc (m vm)

Advances-if :
    (pc : ℕ) (test : Bool) (m n : Call Answer)
    → Advances pc m
    → Advances pc n
    → Advances pc (if test then m else n)
Advances-if pc true m n h k = h
Advances-if pc false m n h k = k

Advances-pure : (pc : ℕ) (result : ExecResult) → Advances pc (λ vm. gives (result, pc) vm)
Advances-pure pc result vm = omega arith

Advances-with :
    (pc : ℕ) (f : Vm → Call Answer) → ((vm : Vm) → Advances pc (f vm)) → Advances pc (with_vm f)
Advances-with pc f h vm = h vm vm

module _ {ℓ} {A : Type ℓ} where
  bind-Advances :
      (pc : ℕ) (e : Effect A) (f : A → Call Answer)
      → ((a : A) → Advances pc (f a))
      → AdvancesEffect pc
          (elim e [ gives a vm ↦ f a vm | throws vm ↦ throws vm | out_of_bounds ↦ out_of_bounds ])
  bind-Advances pc (gives a vm) f h = h a vm
  bind-Advances pc (throws vm) f h = tt
  bind-Advances pc out_of_bounds f h = tt

  Advances-bind :
      (pc : ℕ) (m : Call A) (f : A → Call Answer)
      → ((a : A) → Advances pc (f a))
      → Advances pc (m >>= f)
  Advances-bind pc m f h vm = bind-Advances pc (m vm) f h

Advances-goes_on : (pc next : ℕ) (m : Call (Unit {0})) → pc ≤ next → Advances pc (goes_on next m)
Advances-goes_on pc next m h = Advances-bind pc m _ (λ u vm. h)

Advances-leave : (pc : ℕ) (result : ExecResult) → Advances pc (leave result pc)
Advances-leave pc result = Advances-bind pc pop _ (λ offset. Advances-bind pc pop _ (λ size.
    Advances-bind pc (expand_memory (add64 (to_uint64 offset) (to_uint64 size))) _ (λ u.
      Advances-bind pc (read_memory (to_uint64 offset) (to_uint64 size)) _ (λ bytes.
        Advances-bind pc (keep_data bytes) (λ v vm. gives (result, pc) vm)
          (λ v. Advances-pure pc result)))))

same_pc : (pc : ℕ) → pc ≤ pc
same_pc pc = omega arith

later_pc : (pc more : ℕ) → pc ≤ pc + more
later_pc pc more = omega arith

ruleset advances =
    (Advances-if, Advances-pure, Advances-with, Advances-goes_on, Advances-leave, same_pc, later_pc)

Advances-context_opcode : (op : Opcode) (pc : ℕ) → Advances pc (context_opcode op pc)
unfolding context_opcode
Advances-context_opcode op pc = search advances depth 40

Advances-stack_opcode :
    (op : Opcode) (code : List ℕ) (pc : ℕ) → Advances pc (stack_opcode op code pc)
unfolding stack_opcode
Advances-stack_opcode op code pc = search (advances, Advances-context_opcode) depth 40

Advances-execute_opcode :
    (op : Opcode) (code : List ℕ) (pc : ℕ) → Advances pc (execute_opcode op code pc)
unfolding execute_opcode
Advances-execute_opcode op code pc = search (advances, Advances-stack_opcode) depth 40

abbrev pub Ended : Run → Type 0
Ended (ends result data_bytes vm) = Unit
Ended undefined = Unit
Ended starved = ⊥

after_opcode-Ended :
    (continue : ℕ → Vm → Run) (pc : ℕ) (e : Effect Answer)
    → AdvancesEffect pc e
    → ((next : ℕ) (vm : Vm) → pc < next → Ended (continue next vm))
    → Ended (after_opcode continue e)
unfolding after_opcode
after_opcode-Ended continue pc (gives (success, next) vm) h k = k (suc next) vm (omega (arith, h))
after_opcode-Ended continue pc (gives (_, next) vm) h k = tt
after_opcode-Ended continue pc (throws vm) h k = tt
after_opcode-Ended continue pc out_of_bounds h k = tt

charged-Ended :
    (continue : ℕ → Vm → Run) (op : Opcode) (code : List ℕ) (pc : ℕ) (paid : Bool × Vm)
    → ((next : ℕ) (vm : Vm) → pc < next → Ended (continue next vm))
    → Ended (charged continue op code pc paid)
unfolding charged
charged-Ended continue op code pc (true, vm) k =
    after_opcode-Ended continue pc (execute_opcode op code pc vm)
      (Advances-execute_opcode op code pc vm) k
charged-Ended continue op code pc (false, vm) k = tt

run-Ended :
    (fuel : ℕ) (code : List ℕ) (pc : ℕ) (vm : Vm)
    → length code ≤ pc + fuel
    → Ended (run fuel code pc vm)
unfolding run
run-Ended zero code pc vm h = rw (le→leb (length code) pc (omega (arith, h))) tt
run-Ended (suc fuel) code pc vm h = elim (Bool-cases (leb (length code) pc)) [
  | inl e ↦ rw (e, Ended) tt
  | inr e ↦
      rw (e, Ended)
        (charged-Ended (run fuel code) (byte code pc) code pc
          (use_gas (get_opcode_cost (byte code pc)) vm)
          (λ next vm' later. run-Ended fuel code next vm' (omega (arith, h, later))))
]

-- A run of any code ends, after at most as many opcodes as the code has bytes. From a machine within its
-- bounds, the run ends within them, unless it touched memory outside its buffer: at most 1,024 words on the
-- stack, and no more gas used than the limit of the call.
pub execute_total :
    (code : List ℕ) (vm : Vm) → Fits vm vm → Ended (execute code vm) × FitsRun vm (execute code vm)
unfolding execute
execute_total code vm h =
    (run-Ended (length code) code 0 vm (omega arith), run-Fits (length code) code 0 vm vm h)
