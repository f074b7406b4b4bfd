-- ===== src/Settlement/DestinationTag/Utf8.antt =====
-- The encoding of code points in UTF-8, beside `TagValidator::ValidateMemo` of
-- layer1-talanton/settlement/destination_tag.cpp.
pub mod Decode
use pantheon_chain.Prelude.{
  ℕ, zero, suc, ◌+◌, ◌*◌, ◌/◌, ◌%◌, ◌<◌, ◌≤◌, ◌≡◌, ◌↔◌, ◌⊎◌, refl, sym, ap, ◌∙◌, subst, inl, inr,
  true, false, Option, none, some, List, [], ◌∷◌, ◌++◌, ltb, leb, ltb→lt, ltb→le, ◌==◌,
  if◌then◌else◌, length, length-append, All, Bool-cases, Option-cases, arith,
}
use pantheon_chain.Settlement.DestinationTag.{
  read_continuation, is_refused, finish_character, next_character, valid_utf8, validate_memo,
  max_memo_size,
}

-- The encoding of a code point.
unfoldable pub encode : ℕ → List ℕ
encode cp =
    if ltb cp 0x80
    then cp ∷ []
    else if ltb cp 0x800
    then (0xC0 + cp / 64) ∷ (0x80 + cp % 64) ∷ []
    else if ltb cp 0x10000
    then (0xE0 + cp / 4096) ∷ (0x80 + cp / 64 % 64) ∷ (0x80 + cp % 64) ∷ []
    else (0xF0 + cp / 262144)
      ∷ (0x80 + cp / 4096 % 64)
      ∷ (0x80 + cp / 64 % 64)
      ∷ (0x80 + cp % 64)
      ∷ []

unfoldable pub encode_all : List ℕ → List ℕ
encode_all [] = []
encode_all (cp ∷ cps) = encode cp ++ encode_all cps

-- A code point that is not a surrogate.
abbrev pub IsScalar : ℕ → Type 0
IsScalar cp = (cp < 0xD800) ⊎ ((0xE000 ≤ cp) × (cp ≤ 0x10FFFF))

reads : List ℕ → Option (List ℕ)
reads [] = none
reads (c ∷ rest) = next_character c rest

reads-encode : (cp : ℕ) (rest : List ℕ) → IsScalar cp → reads (encode cp ++ rest) ≡ some rest
unfolding reads encode next_character finish_character read_continuation is_refused
reads-encode cp rest h = elim (Bool-cases (ltb cp 0x80)) [
  | inl a ↦ rw a (ground (arith, ltb→lt cp 0x80 a))
  | inr a ↦ elim (Bool-cases (ltb cp 0x800)) [
    | inl b ↦ rw (a, b) (ground (arith, ltb→le cp 0x80 a, ltb→lt cp 0x800 b))
    | inr b ↦ elim (Bool-cases (ltb cp 0x10000)) [
      | inl c ↦ rw (a, b, c) (ground (arith, h, ltb→le cp 0x800 b, ltb→lt cp 0x10000 c))
      | inr c ↦ rw (a, b, c) (ground (arith, h, ltb→le cp 0x10000 c))
    ]
  ]
]

valid_utf8-reads :
    (bytes later : List ℕ) (fuel : ℕ)
    → reads bytes ≡ some later
    → valid_utf8 fuel later ≡ true
    → valid_utf8 (suc fuel) bytes ≡ true
unfolding reads valid_utf8
valid_utf8-reads [] later fuel h v = refl
valid_utf8-reads (c ∷ more) later fuel h v =
    let e : next_character c more ≡ some later = h in rw (e, valid_utf8) v

-- A memo of encoded code points is valid UTF-8, with as many rounds as it has code points or more.
valid_utf8-encode_all :
    (cps : List ℕ) (fuel : ℕ)
    → All IsScalar cps
    → length cps ≤ fuel
    → valid_utf8 fuel (encode_all cps) ≡ true
unfolding encode_all valid_utf8
valid_utf8-encode_all [] zero h e = refl
valid_utf8-encode_all [] (suc fuel) h e = refl
valid_utf8-encode_all (cp ∷ cps) zero h e = absurd (omega (arith, e))
valid_utf8-encode_all (cp ∷ cps) (suc fuel) (h, hs) e =
    valid_utf8-reads (encode cp ++ encode_all cps) (encode_all cps) fuel
      (reads-encode cp (encode_all cps) h) (valid_utf8-encode_all cps fuel hs (omega (arith, e)))

length-encode : (cp : ℕ) → 1 ≤ length (encode cp)
unfolding encode
length-encode cp = ground arith

length-encode_all : (cps : List ℕ) → length cps ≤ length (encode_all cps)
unfolding encode_all
length-encode_all [] = omega arith
length-encode_all (cp ∷ cps) =
    let a = length-encode cp in
    let b = length-encode_all cps in
    rw (length-append (encode cp) (encode_all cps)) (omega (arith, a, b))

-- The encoding of code points that are no surrogates, in 256 bytes at most, is a valid memo.
pub validate_memo-encode_all :
    (cps : List ℕ)
    → All IsScalar cps
    → length (encode_all cps) ≤ max_memo_size
    → validate_memo (encode_all cps) ≡ true
unfolding validate_memo
validate_memo-encode_all cps h fits =
    let rounds = length-encode_all cps in
    let right = valid_utf8-encode_all cps (length (encode_all cps)) h rounds in
    ground (arith, fits, right)
