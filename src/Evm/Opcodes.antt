-- ===== src/Evm/Opcodes.antt =====
-- The opcodes and their gas (layer3-obolos/evm/opcodes.h and opcodes.cpp). An opcode is its byte.
use pantheon_chain.Prelude.{
  ℕ, ◌-◌, Bool, false, ◌&&◌, ◌||◌, List, [], ◌∷◌, leb, ◌==◌, if◌then◌else◌,
}

abbrev pub Opcode : Type 0
Opcode = ℕ

-- The byte lies in this range, the ends included.
abbrev pub between : ℕ → ℕ → Opcode → Bool
between low high op = leb low op && leb op high

unfoldable pub one_of : List ℕ → Opcode → Bool
one_of [] op = false
one_of (x ∷ xs) op = x == op || one_of xs op

-- The cases of the switch, in its order; the bytes of one line of results are listed together.
unfoldable pub get_opcode_cost : Opcode → ℕ
get_opcode_cost op =
    if one_of (0x00 ∷ 0xFE ∷ []) op
    then 0
    else if one_of (0x30 ∷ 0x32 ∷ 0x33 ∷ 0x34 ∷ 0x36 ∷ 0x38 ∷ 0x3A ∷ 0x3D ∷ 0x58 ∷ 0x59 ∷ 0x5A ∷ [])
          op
        || between 0x41 0x48 op
    then 2
    else if one_of (0x01 ∷ 0x03 ∷ 0x50 ∷ 0x5B ∷ []) op || between 0x10 0x1D op
    then 3
    else if between 0x60 0x9F op
    then 3
    else if one_of (0x02 ∷ 0x04 ∷ 0x05 ∷ 0x06 ∷ 0x07 ∷ 0x0B ∷ []) op
    then 5
    else if one_of (0x08 ∷ 0x09 ∷ 0x56 ∷ []) op
    then 8
    else if one_of (0x57 ∷ 0x0A ∷ []) op
    then 10
    else if between 0x51 0x53 op
    then 3
    else if op == 0x54
    then 800
    else if op == 0x55
    then 20000
    else if one_of (0x35 ∷ 0x37 ∷ 0x39 ∷ 0x3E ∷ []) op
    then 3
    else if one_of (0x3C ∷ 0x31 ∷ 0x3B ∷ 0x3F ∷ []) op
    then 700
    else if op == 0x40
    then 20
    else if op == 0x20
    then 30
    else if between 0xA0 0xA4 op
    then 375
    else if one_of (0xF0 ∷ 0xF5 ∷ []) op
    then 32000
    else if one_of (0xF1 ∷ 0xF2 ∷ 0xF4 ∷ 0xFA ∷ []) op
    then 700
    else if op == 0xFF
    then 5000
    else 0

unfoldable pub is_push_op : Opcode → Bool
is_push_op op = between 0x60 0x7F op

unfoldable pub get_push_size : Opcode → ℕ
get_push_size op = if is_push_op op then op - 0x5F else 0

unfoldable pub is_dup_op : Opcode → Bool
is_dup_op op = between 0x80 0x8F op

unfoldable pub get_dup_depth : Opcode → ℕ
get_dup_depth op = if is_dup_op op then op - 0x7F else 0

unfoldable pub is_swap_op : Opcode → Bool
is_swap_op op = between 0x90 0x9F op

unfoldable pub get_swap_depth : Opcode → ℕ
get_swap_depth op = if is_swap_op op then op - 0x8F else 0
