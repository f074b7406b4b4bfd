-- ===== src/Evm/Word/Product.antt =====
-- Multiplication of 256-bit words (`Mul` of layer3-obolos/evm/vm.cpp).
use native.Mathlib.Decide.{ℕ_discrete}
use native.Mathlib.Nat.{
  pow-suc, one-le-pow, mul-add-div_right, div-eq_of_lt, mod-eq_of_lt, mul-add-mod_self_right,
}
use pantheon_chain.Prelude.{
  ℕ, zero, suc, ◌+◌, ◌-◌, ◌*◌, ◌/◌, ◌%◌, ◌^◌, ◌<◌, ◌≤◌, ◌≡◌, refl, ap, sym, ◌∙◌, subst, inl, inr,
  Bool-cases, List, [], ◌∷◌, ◌++◌, length, length-append, take, drop, set, ◌==◌, All, arith,
}
use pantheon_chain.Primitives.Bytes.{byte, IsBytes}
use pantheon_chain.Consensus.Difficulty.Targets.{byte-set_self, byte-set_ne, byte-zero_hash}
use pantheon_chain.Primitives.Transaction.{zero_hash}
use pantheon_chain.Evm.Word.{Word, mul_row, mul_byte, mul_loop, mul}
use pantheon_chain.Evm.Word.Value.{value, value-lt, carry_digit}
use pantheon_chain.Evm.Word.Linear.{IsWord}

length-mul_row :
    (xs : Word) (k : ℕ) (rs : Word) → length xs ≡ length rs → length (mul_row xs k rs).0 ≡ length xs
unfolding mul_row
length-mul_row [] k rs e = refl
length-mul_row (x ∷ xs) k [] e = absurd (omega (arith, e))
length-mul_row (x ∷ xs) k (r ∷ rs) e = omega (arith, length-mul_row xs k rs (omega (arith, e)))

mul_row_value :
    (xs : Word) (k : ℕ) (rs : Word)
    → length xs ≡ length rs
    → value (mul_row xs k rs).0 + (mul_row xs k rs).1 * 256 ^ length xs ≡ value xs * k + value rs
unfolding mul_row
mul_row_value [] k [] e = omega arith
mul_row_value [] k (r ∷ rs) e = absurd (omega (arith, e))
mul_row_value (x ∷ xs) k [] e = absurd (omega (arith, e))
mul_row_value (x ∷ xs) k (r ∷ rs) e =
    let same : length xs ≡ length rs = omega (arith, e) in
    let p = 256 ^ length xs in
    let s = x * k + r + (mul_row xs k rs).1 in
    rw (length-mul_row xs k rs same, pow-suc 256 (length xs), sym same)
      (omega (arith, carry_digit s p, mul_row_value xs k rs same))

mul_row-IsBytes : (xs : Word) (k : ℕ) (rs : Word) → IsBytes (mul_row xs k rs).0
unfolding mul_row
mul_row-IsBytes [] k rs = tt
mul_row-IsBytes (x ∷ xs) k [] = tt
mul_row-IsBytes (x ∷ xs) k (r ∷ rs) = (omega arith, mul_row-IsBytes xs k rs)

-- A word with the one byte `k`, at the place `i` from its most significant byte.
abbrev pub single : ℕ → ℕ → Word
single i k = set zero_hash i k

-- Bytes of the multiplier that are zero change nothing.
mul_loop_zero :
    (n : ℕ) (a b result : Word) → ((j : ℕ) → j < n → byte b j ≡ 0) → mul_loop n a b result ≡ result
unfolding mul_loop mul_byte
mul_loop_zero zero a b result h = refl
mul_loop_zero (suc n) a b result h =
    rw (h n (omega arith)) (mul_loop_zero n a b result (λ j lt. h j (omega (arith, lt))))

mul_loop-single :
    (n : ℕ) (a : Word) (i k : ℕ) (result : Word)
    → i < n
    → n ≤ 32
    → mul_loop n a (single i k) result ≡ mul_byte a i k result
unfolding mul_loop mul_byte
mul_loop-single zero a i k result h le = absurd (omega (arith, h))
mul_loop-single (suc n) a i k result h le = elim (ℕ_discrete i n) [
  | yes e ↦
      rw (← e, byte-set_self zero_hash i k (omega (arith, h, le)))
        (mul_loop_zero i a (single i k) (mul_byte a i k result) (λ j lt.
          byte-set_ne zero_hash i j k (λ same. absurd (omega (arith, same, lt)))
          ∙ byte-zero_hash j))
  | no ne ↦
      rw (byte-set_ne zero_hash i n k ne, byte-zero_hash n)
        (mul_loop-single n a i k result (omega (arith, h, ne)) (omega (arith, le)))
]

pow_add : (m n : ℕ) → 256 ^ (m + n) ≡ 256 ^ m * 256 ^ n
pow_add zero n =
    let none_more : 0 + n ≡ n = omega arith in ap (λ (t : ℕ). 256 ^ t) none_more ∙ omega arith
pow_add (suc m) n =
    let one_more : suc m + n ≡ suc (m + n) = omega arith in
    ap (λ (t : ℕ). 256 ^ t) one_more
    ∙ (pow-suc 256 (m + n)
        ∙ omega (arith, pow_add m n, ap (λ (t : ℕ). t * 256 ^ n) (pow-suc 256 m)))

value-append : (xs ys : List ℕ) → value (xs ++ ys) ≡ value xs * 256 ^ length ys + value ys
value-append [] ys = omega arith
value-append (x ∷ xs) ys =
    rw (length-append xs ys, pow_add (length xs) (length ys), value-append xs ys) (omega arith)

take-drop : (n : ℕ) (xs : List ℕ) → take n xs ++ drop n xs ≡ xs
take-drop zero xs = refl
take-drop (suc n) [] = refl
take-drop (suc n) (x ∷ xs) = ap (◌∷◌ x) (take-drop n xs)

drop-IsBytes : (n : ℕ) (xs : List ℕ) → IsBytes xs → IsBytes (drop n xs)
drop-IsBytes zero xs h = h
drop-IsBytes (suc n) [] h = tt
drop-IsBytes (suc n) (x ∷ xs) h = drop-IsBytes n xs h.1

-- The leading bytes are the quotient by the place of the others.
value-take :
    (n : ℕ) (xs : List ℕ) → IsBytes xs → value (take n xs) ≡ value xs / 256 ^ length (drop n xs)
value-take n xs h =
    let parts = value-append (take n xs) (drop n xs) in
    let small = value-lt (drop n xs) (drop-IsBytes n xs h) in
    let place = one-le-pow (length (drop n xs)) 256 (omega arith) in
    let whole : value xs ≡ value (take n xs) * 256 ^ length (drop n xs) + value (drop n xs) =
      ap value (sym (take-drop n xs)) ∙ parts in
    rw whole (
      sym (
        mul-add-div_right (omega (arith, place)) (value (take n xs)) (value (drop n xs))
        ∙ omega (arith, div-eq_of_lt small)))

length-take : (n : ℕ) (xs : List ℕ) → n ≤ length xs → length (take n xs) ≡ n
length-take zero xs h = refl
length-take (suc n) [] h = absurd (omega (arith, h))
length-take (suc n) (x ∷ xs) h = omega (arith, length-take n xs (omega (arith, h)))

length-drop_exact : (n : ℕ) (xs : List ℕ) → length (drop n xs) ≡ length xs - n
length-drop_exact zero xs = omega arith
length-drop_exact (suc n) [] = omega arith
length-drop_exact (suc n) (x ∷ xs) = omega (arith, length-drop_exact n xs)

AllZero : List ℕ → Type 0
AllZero = All (λ x. x ≡ 0)

value-AllZero : (xs : List ℕ) → AllZero xs → value xs ≡ 0
unfolding AllZero
value-AllZero [] h = refl
value-AllZero (x ∷ xs) h = rw (h.0, value-AllZero xs h.1) (omega arith)

take-AllZero : (n : ℕ) (xs : List ℕ) → AllZero xs → AllZero (take n xs)
unfolding AllZero
take-AllZero zero xs h = tt
take-AllZero (suc n) [] h = tt
take-AllZero (suc n) (x ∷ xs) h = (h.0, take-AllZero n xs h.1)

drop-AllZero : (n : ℕ) (xs : List ℕ) → AllZero xs → AllZero (drop n xs)
unfolding AllZero
drop-AllZero zero xs h = h
drop-AllZero (suc n) [] h = tt
drop-AllZero (suc n) (x ∷ xs) h = drop-AllZero n xs h.1

zero_hash-AllZero : AllZero zero_hash
unfolding AllZero
zero_hash-AllZero = omega arith

-- One row over a result that is still zero.
row_value :
    (a z : Word) (i k : ℕ)
    → IsWord a
    → AllZero z
    → length z ≡ 32
    → i < 32
    → value (take (31 - i) z ++ (mul_row (take (suc i) a) k (drop (31 - i) z)).0)
      ≡ value a / 256 ^ (31 - i) * k % 256 ^ suc i
row_value a z i k h empty full low =
    let xs = take (suc i) a in
    let rs = drop (31 - i) z in
    let row = mul_row xs k rs in
    let width : length xs ≡ suc i = length-take (suc i) a (omega (arith, h.size, low)) in
    let fits : length xs ≡ length rs =
      omega (arith, width, length-drop_exact (31 - i) z, full, low) in
    let below : length (drop (suc i) a) ≡ 31 - i =
      omega (arith, length-drop_exact (suc i) a, h.size) in
    let m = 256 ^ suc i in
    let sums : (row.1 * m) + value row.0 ≡ value xs * k =
      subst (λ n. row.1 * 256 ^ n + value row.0 ≡ value xs * k) width
        (omega
          (arith, mul_row_value xs k rs fits, value-AllZero rs (drop-AllZero (31 - i) z empty))) in
    let small : value row.0 < m =
      subst (λ n. value row.0 < 256 ^ n) (length-mul_row xs k rs fits ∙ width)
        (value-lt row.0 (mul_row-IsBytes xs k rs)) in
    let lead : value xs ≡ value a / 256 ^ (31 - i) =
      value-take (suc i) a h.bytes ∙ ap (λ (t : ℕ). value a / 256 ^ t) below in
    value-append (take (31 - i) z) row.0
    ∙ (rw (value-AllZero (take (31 - i) z) (take-AllZero (31 - i) z empty)) (omega arith)
        ∙ (sym (mod-eq_of_lt small)
            ∙ (sym (mul-add-mod_self_right row.1 m (value row.0))
                ∙ ap (λ (t : ℕ). t % m) (sums ∙ ap (λ (t : ℕ). t * k) lead))))

mul_byte_value :
    (a : Word) (i k : ℕ)
    → IsWord a
    → i < 32
    → value (mul_byte a i k zero_hash) ≡ value a / 256 ^ (31 - i) * k % 256 ^ suc i
unfolding mul_byte
mul_byte_value a i k h low = elim (Bool-cases (k == 0)) [
  | inl e ↦
      let nothing : k ≡ 0 = ground (arith, e) in
      let none_at_all : value a / 256 ^ (31 - i) * k ≡ 0 =
        ap (λ (t : ℕ). value a / 256 ^ (31 - i) * t) nothing ∙ omega arith in
      rw e (
        sym (
          ap (λ (t : ℕ). t % 256 ^ suc i) none_at_all
          ∙ mod-eq_of_lt (omega (arith, one-le-pow (suc i) 256 (omega arith)))))
  | inr e ↦ rw e (row_value a zero_hash i k h zero_hash-AllZero refl low)
]

value-set_zeros :
    (z : Word) (i k n : ℕ) → AllZero z → length z ≡ suc (i + n) → value (set z i k) ≡ k * 256 ^ n
unfolding AllZero
value-set_zeros [] i k n h size = absurd (omega (arith, size))
value-set_zeros (x ∷ z) zero k n h size =
    let same : length z ≡ n = omega (arith, size) in
    rw (value-AllZero z h.1) (omega arith) ∙ ap (λ (t : ℕ). k * 256 ^ t) same
value-set_zeros (x ∷ z) (suc i) k n h size =
    rw h.0 (omega (arith, value-set_zeros z i k n h.1 (omega (arith, size))))

-- `Mul` of a word by the word whose only byte that may be non-zero is `k`, at the place `i` from the most
-- significant, which stands for `k` times 256^(31 - i): the result is the quotient of the first word by
-- 256^(31 - i), times `k`, modulo 256^(i + 1).
pub mul-single_value :
    (a : Word) (i k : ℕ)
    → IsWord a
    → i < 32
    → (value (single i k) ≡ k * 256 ^ (31 - i))
      × (value (mul a (single i k)) ≡ value a / 256 ^ (31 - i) * k % 256 ^ suc i)
unfolding mul
mul-single_value a i k h low = (
  value-set_zeros zero_hash i k (31 - i) zero_hash-AllZero (omega (arith, low)),
  ap value (mul_loop-single 32 a i k zero_hash low (omega arith)) ∙ mul_byte_value a i k h low,
)
