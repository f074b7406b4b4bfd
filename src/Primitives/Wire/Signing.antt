-- ===== src/Primitives/Wire/Signing.antt =====
-- What is hashed for a signature (`SerializeForSigning`, transaction.cpp) and the script that the wallet
-- then writes into the input (`Wallet::CreateTransaction`, wallet/wallet.cpp).
use pantheon_chain.Prelude.{
  ℕ, zero, suc, ◌<◌, ◌≡◌, ◌≢◌, refl, ap, List, [], ◌∷◌, ◌++◌, Option, none, some, length,
  length-append, arith,
}
use pantheon_chain.Primitives.Bytes.{write_u32}
use pantheon_chain.Primitives.Compact.{write_compact_size, length-write_compact_size}
use pantheon_chain.Primitives.Transaction.{TxInput, Transaction}
use pantheon_chain.Primitives.Wire.{serialize_input, serialize_output, serialize_all}

pub clear_script : TxInput → TxInput
clear_script i = record i { signature_script = [] }

pub clear_all : List TxInput → List TxInput
clear_all [] = []
clear_all (x ∷ xs) = clear_script x ∷ clear_all xs

-- The loop that clears the script of every input but the one at `input_index`.
pub keep_script : ℕ → List TxInput → List TxInput
keep_script input_index [] = []
keep_script zero (x ∷ xs) = x ∷ clear_all xs
keep_script (suc input_index) (x ∷ xs) = clear_script x ∷ keep_script input_index xs

pub serialize_for_signing : ℕ → Transaction → List ℕ
serialize_for_signing input_index tx =
    write_u32 tx.version
    ++ (write_compact_size (length tx.inputs)
        ++ (serialize_all serialize_input (keep_script input_index tx.inputs)
            ++ (write_compact_size (length tx.outputs)
                ++ (serialize_all serialize_output tx.outputs ++ write_u32 tx.locktime))))

-- `tx.inputs[i].signature_script = script`
pub set_script : ℕ → List ℕ → List TxInput → List TxInput
set_script i script [] = []
set_script zero script (x ∷ xs) = record x { signature_script = script } ∷ xs
set_script (suc i) script (x ∷ xs) = x ∷ set_script i script xs

pub put_signature : ℕ → List ℕ → Transaction → Transaction
put_signature i script tx = record tx { inputs = set_script i script tx.inputs }

abbrev pub script_at : ℕ → List TxInput → Option (List ℕ)
script_at i [] = none
script_at zero (x ∷ xs) = some x.signature_script
script_at (suc i) (x ∷ xs) = script_at i xs

length-set_script :
    (i : ℕ) (script : List ℕ) (xs : List TxInput) → length (set_script i script xs) ≡ length xs
unfolding set_script
length-set_script i script [] = refl
length-set_script zero script (x ∷ xs) = refl
length-set_script (suc i) script (x ∷ xs) = ap suc (length-set_script i script xs)

clear_all-set_script :
    (i : ℕ) (script : List ℕ) (xs : List TxInput)
    → clear_all (set_script i script xs) ≡ clear_all xs
unfolding set_script clear_all clear_script
clear_all-set_script i script [] = refl
clear_all-set_script zero script (x ∷ xs) = refl
clear_all-set_script (suc i) script (x ∷ xs) =
    ap (◌∷◌ (clear_script x)) (clear_all-set_script i script xs)

keep_script-set_script :
    (i j : ℕ) (script : List ℕ) (xs : List TxInput)
    → i ≢ j
    → keep_script i (set_script j script xs) ≡ keep_script i xs
unfolding keep_script set_script clear_script
keep_script-set_script i j script [] h = refl
keep_script-set_script zero zero script (x ∷ xs) h = absurd (h refl)
keep_script-set_script zero (suc j) script (x ∷ xs) h =
    ap (◌∷◌ x) (clear_all-set_script j script xs)
keep_script-set_script (suc i) zero script (x ∷ xs) h = refl
keep_script-set_script (suc i) (suc j) script (x ∷ xs) h =
    ap (◌∷◌ (clear_script x)) (keep_script-set_script i j script xs (λ e. h (ap suc e)))

-- What is signed for input `i` does not depend on the signature of another input `j`.
pub serialize_for_signing-put_signature :
    (i j : ℕ) (script : List ℕ) (tx : Transaction)
    → i ≢ j
    → serialize_for_signing i (put_signature j script tx) ≡ serialize_for_signing i tx
unfolding serialize_for_signing put_signature
serialize_for_signing-put_signature i j script tx h =
    rw (length-set_script j script tx.inputs, keep_script-set_script i j script tx.inputs h)

empty_size : length (write_compact_size 0) ≡ 1
unfolding write_compact_size
empty_size = refl

-- The bytes of the inputs grow when an empty script is replaced.
length-serialize_input :
    (x : TxInput) (script : List ℕ)
    → x.signature_script ≡ []
    → 0 < length script
    → length (serialize_input x) < length (serialize_input (record x { signature_script = script }))
unfolding serialize_input
length-serialize_input x script e h =
    grind (arith, e, empty_size, length-append, length-write_compact_size (length script))

length-keep_script :
    (i : ℕ) (script : List ℕ) (xs : List TxInput)
    → script_at i xs ≡ some []
    → 0 < length script
    → length (serialize_all serialize_input (keep_script i xs))
      < length (serialize_all serialize_input (keep_script i (set_script i script xs)))
unfolding keep_script set_script serialize_all
length-keep_script i script [] e h = cc
length-keep_script zero script (x ∷ xs) e h =
    grind (arith, length-append, length-serialize_input x script (ground arith) h)
length-keep_script (suc i) script (x ∷ xs) e h =
    grind (arith, length-append, length-keep_script i script xs e h)

length-serialize_for_signing :
    (i : ℕ) (script : List ℕ) (tx : Transaction)
    → script_at i tx.inputs ≡ some []
    → 0 < length script
    → length (serialize_for_signing i tx)
      < length (serialize_for_signing i (put_signature i script tx))
unfolding serialize_for_signing put_signature
length-serialize_for_signing i script tx e h =
    rw (length-set_script i script tx.inputs)
      (grind (arith, length-append, length-keep_script i script tx.inputs e h))

-- Once a signature stands in the script of input `i`, which was empty, the bytes that are hashed for
-- this input are other bytes than those that were signed.
pub serialize_for_signing-put_own_signature :
    (i : ℕ) (script : List ℕ) (tx : Transaction)
    → script_at i tx.inputs ≡ some []
    → 0 < length script
    → serialize_for_signing i (put_signature i script tx) ≢ serialize_for_signing i tx
serialize_for_signing-put_own_signature i script tx e h same =
    omega (arith, length-serialize_for_signing i script tx e h, ap length same)
