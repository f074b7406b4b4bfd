-- ===== src/Settlement/DestinationTag/Utf8/Decode.antt =====
-- The memos that `TagValidator::ValidateMemo` of layer1-talanton/settlement/destination_tag.cpp accepts,
-- read back as code points.
use pantheon_chain.Prelude.{
  ℕ, zero, suc, ◌+◌, ◌*◌, ◌/◌, ◌%◌, ◌≤◌, ◌≡◌, ◌↔◌, refl, sym, ap, ◌∙◌, subst, inl, inr, true, false,
  Option, none, some, List, [], ◌∷◌, ◌++◌, ltb, leb, ◌==◌, length, All, Bool-cases, Option-cases,
  arith,
}
use pantheon_chain.Settlement.DestinationTag.{
  read_continuation, is_refused, finish_character, next_character, valid_utf8, validate_memo,
}
use pantheon_chain.Settlement.DestinationTag.Utf8.{
  encode, encode_all, IsScalar, validate_memo-encode_all,
}

-- A character that is accepted is an encoding.
abbrev Decoded : List ℕ → List ℕ → Type 0
Decoded bytes later = (cp : ℕ) × IsScalar cp × (bytes ≡ encode cp ++ later)

two-Decoded :
    (c x : ℕ) (later : List ℕ)
    → c / 32 ≡ 6
    → x / 64 ≡ 2
    → is_refused 2 (c % 32 * 64 + x % 64) ≡ false
    → Decoded (c ∷ x ∷ later) later
unfolding encode is_refused
two-Decoded c x later a d r =
    let cp = c % 32 * 64 + x % 64 in
    let low : ltb cp 0x80 ≡ false = ground (arith, r) in
    let high : ltb cp 0x800 ≡ true = ground arith in
    let first : 0xC0 + cp / 64 ≡ c = omega (arith, a) in
    let second : 0x80 + cp % 64 ≡ x = omega (arith, d) in
    (cp, inl (omega arith), rw (low, high, first, second) refl)

three-Decoded :
    (c x y : ℕ) (later : List ℕ)
    → c / 16 ≡ 14
    → x / 64 ≡ 2
    → y / 64 ≡ 2
    → is_refused 3 ((c % 16 * 64 + x % 64) * 64 + y % 64) ≡ false
    → Decoded (c ∷ x ∷ y ∷ later) later
unfolding encode is_refused
three-Decoded c x y later a d e r =
    let cp = (c % 16 * 64 + x % 64) * 64 + y % 64 in
    let bound : 0x800 ≤ cp = ground (arith, r) in
    let low : ltb cp 0x80 ≡ false = ground (arith, bound) in
    let middle : ltb cp 0x800 ≡ false = ground (arith, bound) in
    let high : ltb cp 0x10000 ≡ true = ground arith in
    let scalar : IsScalar cp = ground (arith, r) in
    let first : 0xE0 + cp / 4096 ≡ c = omega (arith, a) in
    let second : 0x80 + cp / 64 % 64 ≡ x = omega (arith, d) in
    let third : 0x80 + cp % 64 ≡ y = omega (arith, e) in
    (cp, scalar, rw (low, middle, high, first, second, third) refl)

four-Decoded :
    (c x y z : ℕ) (later : List ℕ)
    → c / 8 ≡ 30
    → x / 64 ≡ 2
    → y / 64 ≡ 2
    → z / 64 ≡ 2
    → is_refused 4 (((c % 8 * 64 + x % 64) * 64 + y % 64) * 64 + z % 64) ≡ false
    → Decoded (c ∷ x ∷ y ∷ z ∷ later) later
unfolding encode is_refused
four-Decoded c x y z later a d e f r =
    let cp = ((c % 8 * 64 + x % 64) * 64 + y % 64) * 64 + z % 64 in
    let bound : 0x10000 ≤ cp = ground (arith, r) in
    let low : ltb cp 0x80 ≡ false = ground (arith, bound) in
    let middle : ltb cp 0x800 ≡ false = ground (arith, bound) in
    let high : ltb cp 0x10000 ≡ false = ground (arith, bound) in
    let scalar : IsScalar cp = ground (arith, r) in
    let first : 0xF0 + cp / 262144 ≡ c = omega (arith, a) in
    let second : 0x80 + cp / 4096 % 64 ≡ x = omega (arith, d) in
    let third : 0x80 + cp / 64 % 64 ≡ y = omega (arith, e) in
    let fourth : 0x80 + cp % 64 ≡ z = omega (arith, f) in
    (cp, scalar, rw (low, middle, high, first, second, third, fourth) refl)

finish_some :
    (len : ℕ) (read : Option (ℕ × List ℕ)) (later : List ℕ)
    → finish_character len read ≡ some later
    → (cp : ℕ) × (read ≡ some (cp, later)) × (is_refused len cp ≡ false)
unfolding finish_character
finish_some len none later h = absurd (cc h)
finish_some len (some (cp, rest)) later h = elim (Bool-cases (is_refused len cp)) [
  | inl r ↦ absurd (ground (arith, h, r))
  | inr r ↦ let e : rest ≡ later = ground (arith, h, r) in (cp, ap (λ l. some (cp, l)) e, r)
]

continuation_step :
    (n cp last : ℕ) (rest later : List ℕ)
    → read_continuation (suc n) cp rest ≡ some (last, later)
    → (x : ℕ) × (more : List ℕ) × (rest ≡ x ∷ more)
      × (x / 64 ≡ 2)
      × (read_continuation n (cp * 64 + x % 64) more ≡ some (last, later))
unfolding read_continuation
continuation_step n cp last [] later h = absurd (cc h)
continuation_step n cp last (x ∷ more) later h = elim (Bool-cases (x / 64 == 2)) [
  | inl e ↦ (x, more, refl, ground (arith, e), ground (arith, h, e))
  | inr e ↦ absurd (ground (arith, h, e))
]

two_bytes :
    (c : ℕ) (rest later : List ℕ)
    → c / 32 ≡ 6
    → finish_character 2 (read_continuation 1 (c % 32) rest) ≡ some later
    → Decoded (c ∷ rest) later
unfolding read_continuation
two_bytes c rest later a h =
    let (cp, e, r) = finish_some 2 (read_continuation 1 (c % 32) rest) later h in
    let (x, more, e1, d, h1) = continuation_step 0 (c % 32) cp rest later e in
    let last : cp ≡ c % 32 * 64 + x % 64 = cc h1 in
    let bytes : rest ≡ x ∷ later = cc (e1, h1) in
    subst (λ l. Decoded (c ∷ l) later) (sym bytes)
      (two-Decoded c x later a d (subst (λ n. is_refused 2 n ≡ false) last r))

three_bytes :
    (c : ℕ) (rest later : List ℕ)
    → c / 16 ≡ 14
    → finish_character 3 (read_continuation 2 (c % 16) rest) ≡ some later
    → Decoded (c ∷ rest) later
unfolding read_continuation
three_bytes c rest later a h =
    let (cp, e, r) = finish_some 3 (read_continuation 2 (c % 16) rest) later h in
    let (x, more, e1, d, h1) = continuation_step 1 (c % 16) cp rest later e in
    let (y, more2, e2, d2, h2) = continuation_step 0 (c % 16 * 64 + x % 64) cp more later h1 in
    let last : cp ≡ (c % 16 * 64 + x % 64) * 64 + y % 64 = cc h2 in
    let bytes : rest ≡ x ∷ y ∷ later = cc (e1, e2, h2) in
    subst (λ l. Decoded (c ∷ l) later) (sym bytes)
      (three-Decoded c x y later a d d2 (subst (λ n. is_refused 3 n ≡ false) last r))

four_bytes :
    (c : ℕ) (rest later : List ℕ)
    → c / 8 ≡ 30
    → finish_character 4 (read_continuation 3 (c % 8) rest) ≡ some later
    → Decoded (c ∷ rest) later
unfolding read_continuation
four_bytes c rest later a h =
    let (cp, e, r) = finish_some 4 (read_continuation 3 (c % 8) rest) later h in
    let (x, more, e1, d, h1) = continuation_step 2 (c % 8) cp rest later e in
    let (y, more2, e2, d2, h2) = continuation_step 1 (c % 8 * 64 + x % 64) cp more later h1 in
    let (z, more3, e3, d3, h3) =
      continuation_step 0 ((c % 8 * 64 + x % 64) * 64 + y % 64) cp more2 later h2 in
    let last : cp ≡ ((c % 8 * 64 + x % 64) * 64 + y % 64) * 64 + z % 64 = cc h3 in
    let bytes : rest ≡ x ∷ y ∷ z ∷ later = cc (e1, e2, e3, h3) in
    subst (λ l. Decoded (c ∷ l) later) (sym bytes)
      (four-Decoded c x y z later a d d2 d3 (subst (λ n. is_refused 4 n ≡ false) last r))

next_character-Decoded :
    (c : ℕ) (rest later : List ℕ) → next_character c rest ≡ some later → Decoded (c ∷ rest) later
unfolding next_character encode
next_character-Decoded c rest later h = elim (Bool-cases (leb c 0x7F)) [
  | inl a ↦
      let same : rest ≡ later = ground (arith, h, a) in
      let low : ltb c 0x80 ≡ true = ground (arith, a) in
      (c, inl (ground (arith, a)), rw low (ap (◌∷◌ c) same))
  | inr a ↦ elim (Bool-cases (c / 32 == 6)) [
    | inl b ↦ two_bytes c rest later (ground (arith, b)) (ground (arith, h, a, b))
    | inr b ↦ elim (Bool-cases (c / 16 == 14)) [
      | inl d ↦ three_bytes c rest later (ground (arith, d)) (ground (arith, h, a, b, d))
      | inr d ↦ elim (Bool-cases (c / 8 == 30)) [
        | inl e ↦ four_bytes c rest later (ground (arith, e)) (ground (arith, h, a, b, d, e))
        | inr e ↦ absurd (ground (arith, h, a, b, d, e))
      ]
    ]
  ]
]

valid_utf8-decoded :
    (fuel : ℕ) (memo : List ℕ)
    → valid_utf8 fuel memo ≡ true
    → (cps : List ℕ) × All IsScalar cps × (memo ≡ encode_all cps)
unfolding valid_utf8 encode_all
valid_utf8-decoded fuel [] h = ([], tt, refl)
valid_utf8-decoded zero (c ∷ rest) h = absurd (cc h)
valid_utf8-decoded (suc fuel) (c ∷ rest) h = elim (Option-cases (next_character c rest)) [
  | inl e ↦ absurd (ground (arith, h, e))
  | inr (later, e) ↦
      let valid : valid_utf8 fuel later ≡ true = ground (arith, h, e) in
      let (cps, scalars, e1) = valid_utf8-decoded fuel later valid in
      let (cp, scalar, e2) = next_character-Decoded c rest later e in
      (cp ∷ cps, (scalar, scalars), e2 ∙ ap (λ l. encode cp ++ l) e1)
]

-- The memos that are accepted are the encodings of code points, none a surrogate and none beyond
-- 0x10FFFF, in 256 bytes at most.
pub validate_memo_iff :
    (memo : List ℕ)
    → (validate_memo memo ≡ true)
      ↔ ((length memo ≤ 256) × ((cps : List ℕ) × All IsScalar cps × (memo ≡ encode_all cps)))
unfolding validate_memo
validate_memo_iff memo = (
  λ h.
      let fits : length memo ≤ 256 = ground (arith, h) in
      let valid : valid_utf8 (length memo) memo ≡ true = ground (arith, h) in
      (fits, valid_utf8-decoded (length memo) memo valid),
  λ (fits, (cps, scalars, e)).
      subst (λ l. validate_memo l ≡ true) (sym e)
        (validate_memo-encode_all cps scalars (subst (λ l. length l ≤ 256) e fits)),
)
