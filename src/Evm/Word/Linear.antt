-- ===== src/Evm/Word/Linear.antt =====
-- Addition, subtraction and comparison of 256-bit words (layer3-obolos/evm/vm.cpp).
use pantheon_chain.Prelude.{◌+◌, ◌-◌, ◌*◌, ◌%◌, ◌^◌, ◌<◌, ◌≡◌, sym, subst, ltb, length, ◌∙◌, arith}
use pantheon_chain.Primitives.Bytes.{IsBytes}
use pantheon_chain.Evm.Word.{Word, add_from, add, sub_from, sub, lt}
use pantheon_chain.Evm.Word.Value.{
  value, value-lt, length-add_from, add_from_value, add_from-IsBytes, length-sub_from,
  sub_from_value, sub_from-IsBytes, borrow-le, lt-value,
}

pub record IsWord (w : Word) : Type 0 where
  pub size : length w ≡ 32
  pub bytes : IsBytes w

pub value_fits : (w : Word) → IsWord w → value w < 2 ^ 256
value_fits w h = subst (λ n. value w < 256 ^ n) h.size (value-lt w h.bytes)

pub add-IsWord : (a b : Word) → IsWord a → IsWord b → IsWord (add a b)
unfolding add
add-IsWord a b h k = record {
  size = length-add_from a b (h.size ∙ sym k.size) ∙ h.size;
  bytes = add_from-IsBytes a b;
}

pub sub-IsWord : (a b : Word) → IsWord a → IsWord b → IsWord (sub a b)
unfolding sub
sub-IsWord a b h k = record {
  size = length-sub_from a b (h.size ∙ sym k.size) ∙ h.size;
  bytes = sub_from-IsBytes a b h.bytes;
}

add-value : (a b : Word) → IsWord a → IsWord b → value (add a b) ≡ (value a + value b) % 2 ^ 256
unfolding add
add-value a b h k =
    let same = h.size ∙ sym k.size in
    let sums =
      subst (λ n. value (add_from a b).0 + (add_from a b).1 * 256 ^ n ≡ value a + value b) h.size
        (add_from_value a b same) in
    omega (arith, sums, value_fits (add a b) (add-IsWord a b h k))

sub-value :
    (a b : Word) → IsWord a → IsWord b → value (sub a b) ≡ (value a + 2 ^ 256 - value b) % 2 ^ 256
unfolding sub
sub-value a b h k =
    let same = h.size ∙ sym k.size in
    let sums =
      subst (λ n. value (sub_from a b).0 + value b ≡ value a + (sub_from a b).1 * 256 ^ n) h.size
        (sub_from_value a b same k.bytes) in
    omega (
      arith,
      sums,
      borrow-le a b,
      value_fits (sub a b) (sub-IsWord a b h k),
      value_fits a h,
      value_fits b k,
    )

-- On two words, `Add` and `Sub` are addition and subtraction modulo 2^256, and `Lt` compares the numbers.
pub words-numbers :
    (a b : Word)
    → IsWord a
    → IsWord b
    → (value (add a b) ≡ (value a + value b) % 2 ^ 256)
      × (value (sub a b) ≡ (value a + 2 ^ 256 - value b) % 2 ^ 256)
      × (lt a b ≡ ltb (value a) (value b))
words-numbers a b h k =
    (add-value a b h k, sub-value a b h k, lt-value a b (h.size ∙ sym k.size) h.bytes k.bytes)
