-- ===== src/Evm/Tests.antt =====
-- The theorems on the virtual machine, applied to sample values.
use pantheon_chain.Prelude.{
  ℕ, ◌+◌, ◌-◌, ◌*◌, ◌/◌, ◌%◌, ◌^◌, ◌≡◌, refl, false, List, [], ◌∷◌, ltb, ◌==◌, if◌then◌else◌, arith,
}
use pantheon_chain.Primitives.Transaction.{zero_hash}
use pantheon_chain.Evm.Word.{Word, zeros, add, sub, lt, div, mod', mul}
use pantheon_chain.Evm.Word.Value.{value}
use pantheon_chain.Evm.Word.Linear.{IsWord, words-numbers}
use pantheon_chain.Evm.Word.Division.{div-mod_value}
use pantheon_chain.Evm.Word.Product.{single, mul-single_value}
use pantheon_chain.Evm.State.{WorldState}
use pantheon_chain.Evm.Machine.{ExecutionContext, Vm, new_vm}
use pantheon_chain.Evm.Machine.Bounds.{Fits}
use pantheon_chain.Evm.Machine.Execute.{execute}
use pantheon_chain.Evm.Machine.Runs.{FitsRun}
use pantheon_chain.Evm.Machine.Fuel.{Ended, execute_total}

abbrev small : Word
small = single 31 200

abbrev large : Word
large = single 0 3

small-IsWord : IsWord small
small-IsWord = record { size = refl; bytes = omega arith }

large-IsWord : IsWord large
large-IsWord = record { size = refl; bytes = omega arith }

words-numbers_example :
    (value (add small large) ≡ (value small + value large) % 2 ^ 256)
    × (value (sub small large) ≡ (value small + 2 ^ 256 - value large) % 2 ^ 256)
    × (lt small large ≡ ltb (value small) (value large))
words-numbers_example = words-numbers small large small-IsWord large-IsWord

div-mod_value_example :
    (value (div large small) ≡ (if value small == 0 then 0 else value large / value small))
    × (value (mod' large small) ≡ (if value small == 0 then 0 else value large % value small))
div-mod_value_example = div-mod_value large small large-IsWord small-IsWord

mul-single_value_example :
    (value (single 30 7) ≡ 7 * 256 ^ (31 - 30))
    × (value (mul large (single 30 7)) ≡ value large / 256 ^ (31 - 30) * 7 % 256 ^ 31)
mul-single_value_example = mul-single_value large 30 7 large-IsWord (omega arith)

abbrev no_state : WorldState
no_state = record { accounts = []; storage = [] }

abbrev context : ExecutionContext
context = record {
  origin = zeros 20;
  caller = zeros 20;
  address = zeros 20;
  value = zero_hash;
  input_data = [];
  gas_limit = 50_000;
  gas_price = 1;
  block_number = 7;
  timestamp = 100;
  coinbase = zeros 20;
  difficulty = 1;
  gas_limit_block = 1_000_000;
  chain_id = 1;
  base_fee = 1;
  is_static = false;
  depth = 0;
}

abbrev vm : Vm
vm = new_vm no_state context

-- PUSH1 5, PUSH1 3, SUB, PUSH1 0, MSTORE, PUSH1 32, PUSH1 0, RETURN.
abbrev code : List ℕ
code = 0x60 ∷ 5 ∷ 0x60 ∷ 3 ∷ 0x03 ∷ 0x60 ∷ 0 ∷ 0x52 ∷ 0x60 ∷ 32 ∷ 0x60 ∷ 0 ∷ 0xF3 ∷ []

vm-Fits : Fits vm vm
vm-Fits = record { stack_fits = omega arith; gas_fits = omega arith; same_context = refl }

execute_total_example : Ended (execute code vm) × FitsRun vm (execute code vm)
execute_total_example = execute_total code vm vm-Fits
