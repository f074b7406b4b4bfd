-- ===== src/Evm/Machine/Bounds.antt =====
-- What every call of the virtual machine keeps: the stack has at most 1,024 words, and the gas used is at
-- most the limit (layer3-obolos/evm/vm.cpp).
use pantheon_chain.Prelude.{
  ℕ, zero, suc, ◌+◌, ◌-◌, ◌≤◌, ◌||◌, leb, ltb, ltb→le, ◌==◌, ◌≡◌, refl, inl, inr, Bool, true, false,
  List, [], ◌∷◌, if◌then◌else◌, Bool-cases, Option-cases, length, set, arith,
}
use pantheon_chain.Evm.Word.{Word}
use pantheon_chain.Prelude.Words.{add64}
use pantheon_chain.Evm.Machine.{
  Vm, Effect, success, gives, throws, out_of_bounds, Call, ◌>>=◌, pure, push, pop, pop_from, peek,
  dup, word_at, exchange, swap, use_gas, max_vector_size, resize_memory, expand_memory,
  write_memory, read_memory, expansion_cost, max_stack_size,
}
use pantheon_chain.Evm.Machine.Execute.{Answer, goes_on, binary, unary, with_vm}

-- `before` is the machine that the call started with: its context stays.
pub record Fits (before after : Vm) : Type 0 where
  pub stack_fits : length after.stack ≤ max_stack_size
  pub gas_fits : after.gas_used ≤ after.ctx.gas_limit
  pub same_context : after.ctx ≡ before.ctx

abbrev pub FitsEffect {ℓ} : {A : Type ℓ} → Vm → Effect A → Type 0
FitsEffect before (gives a vm) = Fits before vm
FitsEffect before (throws vm) = Fits before vm
FitsEffect before out_of_bounds = Unit

-- From a machine that fits, the call ends in one that fits.
abbrev pub Keeps {ℓ} : {A : Type ℓ} → Call A → Type 0
Keeps m = (before vm : Vm) → Fits before vm → FitsEffect before (m vm)

module _ {ℓ} {A : Type ℓ} where
  pub Keeps-pure : (a : A) → Keeps (pure a)
  Keeps-pure a before vm h = h

  pub Keeps-if : (test : Bool) (m n : Call A) → Keeps m → Keeps n → Keeps (if test then m else n)
  Keeps-if true m n h k = h
  Keeps-if false m n h k = k

  pub Keeps-with : (f : Vm → Call A) → ((vm : Vm) → Keeps (f vm)) → Keeps (with_vm f)
  Keeps-with f h before vm fits = h vm before vm fits

  bind_effect {κ} :
      {B : Type κ} (e : Effect A) (f : A → Call B) (before : Vm)
      → FitsEffect before e
      → ((a : A) → Keeps (f a))
      → FitsEffect before
          (elim e [ gives a vm ↦ f a vm | throws vm ↦ throws vm | out_of_bounds ↦ out_of_bounds ])
  bind_effect (gives a vm) f before h k = k a before vm h
  bind_effect (throws vm) f before h k = h
  bind_effect out_of_bounds f before h k = tt

  pub Keeps-bind {κ} :
      {B : Type κ} (m : Call A) (f : A → Call B)
      → Keeps m
      → ((a : A) → Keeps (f a))
      → Keeps (m >>= f)
  Keeps-bind m f h k before vm fits = bind_effect (m vm) f before (h before vm fits) k

pub Keeps-push : (v : Word) → Keeps (push v)
unfolding push
Keeps-push v before vm h = elim (Bool-cases (leb max_stack_size (length vm.stack))) [
  | inl e ↦ rw e h
  | inr e ↦
      let room : suc (length vm.stack) ≤ max_stack_size = ground (arith, e) in
      rw e (record { stack_fits = room; gas_fits = h.gas_fits; same_context = h.same_context })
]

pop_from-Fits :
    (stack : List Word) (before vm : Vm)
    → length stack ≤ max_stack_size
    → Fits before vm
    → FitsEffect before (pop_from stack vm)
unfolding pop_from
pop_from-Fits [] before vm room h = h
pop_from-Fits (v ∷ vs) before vm room h = record {
  stack_fits = omega arith;
  gas_fits = h.gas_fits;
  same_context = h.same_context;
}

pub Keeps-pop : Keeps pop
unfolding pop
Keeps-pop before vm h = pop_from-Fits vm.stack before vm h.stack_fits h

Keeps-peek : (depth : ℕ) → Keeps (peek depth)
unfolding peek
Keeps-peek depth before vm h = elim (Option-cases (word_at depth vm.stack)) [
  | inl e ↦ rw (e, peek) h
  | inr (v, e) ↦ rw (e, peek) h
]

pub Keeps-dup : (depth : ℕ) → Keeps (dup depth)
unfolding dup
Keeps-dup depth before vm h = elim (Bool-cases (depth == 0 || ltb (length vm.stack) depth)) [
  | inl e ↦ rw e h
  | inr e ↦
      rw e (Keeps-bind (peek (depth - 1)) push (Keeps-peek (depth - 1)) Keeps-push before vm h)
]

length-set : (i : ℕ) (v : Word) (xs : List Word) → length (set xs i v) ≡ length xs
length-set i v [] = refl
length-set zero v (x ∷ xs) = refl
length-set (suc i) v (x ∷ xs) = omega (arith, length-set i v xs)

length-exchange : (depth : ℕ) (xs : List Word) → length (exchange depth xs) ≡ length xs
unfolding exchange
length-exchange depth [] = refl
length-exchange depth (v ∷ vs) = elim (Option-cases (word_at depth (v ∷ vs))) [
  | inl e ↦ rw (e, exchange) refl
  | inr (w, e) ↦ rw (e, exchange) (omega (arith, length-set (depth - 1) v vs))
]

pub Keeps-swap : (depth : ℕ) → Keeps (swap depth)
unfolding swap
Keeps-swap depth before vm h = elim (Bool-cases (depth == 0 || leb (length vm.stack) depth)) [
  | inl e ↦ rw e h
  | inr e ↦ rw e (record {
    stack_fits = omega (arith, h.stack_fits, length-exchange depth vm.stack);
    gas_fits = h.gas_fits;
    same_context = h.same_context;
  })
]

-- Whatever is asked for, the gas used stays within the limit.
pub use_gas-Fits :
    (amount : ℕ) (before vm : Vm) → Fits before vm → Fits before (use_gas amount vm).1
unfolding use_gas
use_gas-Fits amount before vm h =
    elim (Bool-cases (ltb vm.ctx.gas_limit (add64 vm.gas_used amount))) [
      | inl e ↦ rw e h
      | inr e ↦ rw e (record {
        stack_fits = h.stack_fits;
        gas_fits = ltb→le vm.ctx.gas_limit (add64 vm.gas_used amount) e;
        same_context = h.same_context;
      })
    ]

resize_memory-Fits :
    (size : ℕ) (paid : Bool × Vm) (before : Vm)
    → Fits before paid.1
    → FitsEffect before (resize_memory size paid)
unfolding resize_memory
resize_memory-Fits size (true, vm) before h = elim (Bool-cases (ltb max_vector_size size)) [
  | inl e ↦ rw e h
  | inr e ↦
      rw e
        (record { stack_fits = h.stack_fits; gas_fits = h.gas_fits; same_context = h.same_context })
]
resize_memory-Fits size (false, vm) before h = h

pub Keeps-expand_memory : (size : ℕ) → Keeps (expand_memory size)
unfolding expand_memory
Keeps-expand_memory size before vm h = elim (Bool-cases (ltb (length vm.memory) size)) [
  | inl e ↦
      let cost = expansion_cost size (length vm.memory) in
      rw e (resize_memory-Fits size (use_gas cost vm) before (use_gas-Fits cost before vm h))
  | inr e ↦ rw e h
]

pub Keeps-write_memory : (offset : ℕ) (bytes : List ℕ) → Keeps (write_memory offset bytes)
unfolding write_memory
Keeps-write_memory offset bytes before vm h =
    elim (Bool-cases (ltb (length vm.memory) (offset + length bytes))) [
      | inl e ↦ rw e tt
      | inr e ↦ rw e (record {
        stack_fits = h.stack_fits;
        gas_fits = h.gas_fits;
        same_context = h.same_context;
      })
    ]

pub Keeps-read_memory : (offset size : ℕ) → Keeps (read_memory offset size)
unfolding read_memory
Keeps-read_memory offset size before vm h =
    elim (Bool-cases (ltb (length vm.memory) (offset + size))) [ inl e ↦ rw e tt | inr e ↦ rw e h ]

pub Keeps-goes_on : (pc : ℕ) (m : Call (Unit {0})) → Keeps m → Keeps (goes_on pc m)
Keeps-goes_on pc m h = Keeps-bind m _ h (λ u. Keeps-pure {A = Answer} (success, pc))

pub Keeps-binary : (f : Word → Word → Word) → Keeps (binary f)
Keeps-binary f =
    Keeps-bind pop _ Keeps-pop (λ b. Keeps-bind pop _ Keeps-pop (λ a. Keeps-push (f a b)))

pub Keeps-unary : (f : Word → Word) → Keeps (unary f)
Keeps-unary f = Keeps-bind pop _ Keeps-pop (λ a. Keeps-push (f a))
