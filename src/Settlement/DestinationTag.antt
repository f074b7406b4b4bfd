-- ===== src/Settlement/DestinationTag.antt =====
-- `DestinationTag` and `TagValidator`
-- (layer1-talanton/settlement/destination_tag.h and destination_tag.cpp). A memo is its bytes.
pub mod Utf8
use pantheon_chain.Prelude.{
  ℕ, zero, suc, ◌+◌, ◌*◌, ◌/◌, ◌%◌, ◌^◌, Bool, true, false, not, ◌&&◌, ◌||◌, Option, none, some,
  List, [], ◌∷◌, ◌++◌, ltb, leb, ◌==◌, if◌then◌else◌, length, take, drop,
}
use pantheon_chain.Prelude.Maps.{bytes_beq}
use pantheon_chain.Primitives.Bytes.{write_u16, write_u32, read_u16, read_u32}

abbrev pub max_memo_size : ℕ
max_memo_size = 256

pub record DestinationTag : Type 0 where
  pub tag : ℕ
  pub memo : List ℕ

abbrev pub no_tag : DestinationTag
no_tag = record { tag = 0; memo = [] }

unfoldable pub serialize_tag : DestinationTag → List ℕ
serialize_tag d = write_u32 d.tag ++ (write_u16 (length d.memo % 2 ^ 16) ++ d.memo)

-- The position has moved past the tag and the size where the memo is too short.
unfoldable pub deserialize_tag : List ℕ → DestinationTag × List ℕ
deserialize_tag input =
    let size = read_u16 (drop 4 input) in
    let rest = drop 2 (drop 4 input) in
    if ltb (length input) 6
    then (no_tag, input)
    else if ltb (length rest) size
    then (no_tag, rest)
    else (record { tag = read_u32 input; memo = take size rest }, drop size rest)

unfoldable pub tag_beq : DestinationTag → DestinationTag → Bool
tag_beq a b = a.tag == b.tag && bytes_beq a.memo b.memo

-- The loop over the continuation bytes: the code point with their bits, and the bytes after them.
unfoldable pub read_continuation : ℕ → ℕ → List ℕ → Option (ℕ × List ℕ)
read_continuation zero codepoint rest = some (codepoint, rest)
read_continuation (suc n) codepoint [] = none
read_continuation (suc n) codepoint (x ∷ rest) =
    let later = read_continuation n (codepoint * 64 + x % 64) rest in
    if x / 64 == 2 then later else none

-- Overlong forms, surrogates and what is beyond the last code point.
unfoldable pub is_refused : ℕ → ℕ → Bool
is_refused len codepoint =
    (len == 2 && ltb codepoint 0x80)
    || ((len == 3 && ltb codepoint 0x800)
        || ((len == 4 && ltb codepoint 0x10000)
            || (ltb 0x10FFFF codepoint || (leb 0xD800 codepoint && leb codepoint 0xDFFF))))

unfoldable pub finish_character : ℕ → Option (ℕ × List ℕ) → Option (List ℕ)
finish_character len none = none
finish_character len (some (codepoint, rest)) = if is_refused len codepoint then none else some rest

-- One round of the loop: the bytes after the character, if it is valid.
unfoldable pub next_character : ℕ → List ℕ → Option (List ℕ)
next_character c rest =
    if leb c 0x7F
    then some rest
    else if c / 32 == 6
    then (if c % 32 == 0 then none else finish_character 2 (read_continuation 1 (c % 32) rest))
    else if c / 16 == 14
    then finish_character 3 (read_continuation 2 (c % 16) rest)
    else if c / 8 == 30
    then finish_character 4 (read_continuation 3 (c % 8) rest)
    else none

-- Each round takes a byte, so the length of the memo is enough fuel.
unfoldable pub valid_utf8 : ℕ → List ℕ → Bool
valid_utf8 fuel [] = true
valid_utf8 zero (c ∷ rest) = false
valid_utf8 (suc fuel) (c ∷ rest) = elim (next_character c rest) [
  | none ↦ false
  | some later ↦ valid_utf8 fuel later
]

unfoldable pub validate_memo : List ℕ → Bool
validate_memo memo =
    if ltb max_memo_size (length memo) then false else valid_utf8 (length memo) memo

-- Every tag is valid.
unfoldable pub validate_destination_tag : DestinationTag → Bool
validate_destination_tag d = validate_memo d.memo
