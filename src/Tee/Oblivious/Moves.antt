-- ===== src/Tee/Oblivious/Moves.antt =====
-- What the masked moves and exchanges on integers and on byte buffers do.
use Prim.Native.Nat.{differ, digits, bit_or, bit_xor, bit_or-bitwise, bit_xor-bitwise}
use native.Mathlib.Numerals.{unary_clauses}
use tiered_omap.Prelude.{
  ℕ, zero, suc, ◌+◌, ◌*◌, ◌/◌, ◌%◌, ◌≤◌, ◌<◌, max, ◌≡◌, refl, ap, ◌∙◌, Bool, true, false, List, [],
  ◌∷◌, ℤ, ◌==◌, length, arith, if◌then◌else◌,
}
use tiered_omap.Common.{Bytes}
use tiered_omap.Common.Codec.{bits}
use tiered_omap.Common.Codec.RoundTrip.{IsInt, of_bits-bits}
use tiered_omap.Tee.Oblivious.Bits.{differ-lt}
use tiered_omap.Tee.Oblivious.{
  o_mov_i, o_mov_bool, o_swap_i, resize, mov_each, o_mov_bytes, swap_each, o_swap_bytes,
}

or-zero : (n a : ℕ) → a ≤ n → digits (λ b. b) max n a 0 ≡ a
or-zero zero a le = omega arith
or-zero (suc n) zero le = refl
or-zero (suc n) (suc a) le = omega (arith, or-zero n (suc a / 2) (omega arith))

bit_or-zero : (a : ℕ) → bit_or a 0 ≡ a
bit_or-zero a = bit_or-bitwise a 0 ∙ or-zero a a (omega arith)

zero-bit_or : (b : ℕ) → bit_or 0 b ≡ b
zero-bit_or b = bit_or-bitwise 0 b

abbrev xor_digits : ℕ → ℕ → ℕ → ℕ
xor_digits = digits (λ b. b) differ

xor_digits-fuel : (n m a b : ℕ) → a ≤ n → a ≤ m → xor_digits n a b ≡ xor_digits m a b
xor_digits-fuel zero zero a b p q = refl
xor_digits-fuel zero (suc m) zero b p q = refl
xor_digits-fuel zero (suc m) (suc a) b p q = absurd (omega arith)
xor_digits-fuel (suc n) zero zero b p q = refl
xor_digits-fuel (suc n) zero (suc a) b p q = absurd (omega arith)
xor_digits-fuel (suc n) (suc m) zero b p q = refl
xor_digits-fuel (suc n) (suc m) (suc a) b p q =
    omega (arith, xor_digits-fuel n m (suc a / 2) (b / 2) (omega arith) (omega arith))

-- The law for the lowest digit.
bit_xor-step : (a b : ℕ) → bit_xor a b ≡ bit_xor (a / 2) (b / 2) * 2 + differ (a % 2) (b % 2)
bit_xor-step zero b =
    omega (arith, bit_xor-bitwise 0 b, bit_xor-bitwise 0 (b / 2), differ_zero (b % 2))
  where
    differ_zero : (y : ℕ) → differ 0 y ≡ y
    differ_zero y = refl
bit_xor-step (suc a) b = omega (
  arith,
  bit_xor-bitwise (suc a) b,
  bit_xor-bitwise (suc a / 2) (b / 2),
  xor_digits-fuel a (suc a / 2) (suc a / 2) (b / 2) (omega arith) (omega arith),
)

differ-differ :
    (x y : ℕ) → x < 2 → y < 2 → (differ x (differ x y) ≡ y) × (differ y (differ x y) ≡ x)
differ-differ zero zero lx ly = (refl, refl)
differ-differ zero (suc zero) lx ly = (refl, refl)
differ-differ zero (suc (suc y)) lx ly = absurd (omega arith)
differ-differ (suc zero) zero lx ly = (refl, refl)
differ-differ (suc zero) (suc zero) lx ly = (refl, refl)
differ-differ (suc zero) (suc (suc y)) lx ly = absurd (omega arith)
differ-differ (suc (suc x)) y lx ly = absurd (omega arith)

xor_cancel :
    (n a b : ℕ) → a ≤ n → b ≤ n → (bit_xor a (bit_xor a b) ≡ b) × (bit_xor b (bit_xor a b) ≡ a)
xor_cancel zero a b la lb =
    let ea : a ≡ 0 = omega arith in let eb : b ≡ 0 = omega arith in rw (ea, eb) (refl, refl)
xor_cancel (suc n) a b la lb =
    let c = bit_xor a b in
    let h = xor_cancel n (a / 2) (b / 2) (omega arith) (omega arith) in
    let d = differ-differ (a % 2) (b % 2) (omega arith) (omega arith) in
    let step : c ≡ bit_xor (a / 2) (b / 2) * 2 + differ (a % 2) (b % 2) = bit_xor-step a b in
    let low = differ-lt (a % 2) (b % 2) (omega arith) (omega arith) in
    let up : c / 2 ≡ bit_xor (a / 2) (b / 2) = omega (arith, step, low) in
    let digit : c % 2 ≡ differ (a % 2) (b % 2) = omega (arith, step, low) in
    (
      omega
          (arith, bit_xor-step a c, ap (bit_xor (a / 2)) up ∙ h.0, ap (differ (a % 2)) digit ∙ d.0),
      omega
          (arith, bit_xor-step b c, ap (bit_xor (b / 2)) up ∙ h.1, ap (differ (b % 2)) digit ∙ d.1),
    )

bit_xor-zero : (a : ℕ) → bit_xor a 0 ≡ a
bit_xor-zero a = bit_xor-bitwise a 0 ∙ fuel a a (omega arith)
  where
    fuel : (n a : ℕ) → a ≤ n → xor_digits n a 0 ≡ a
    fuel zero a le = omega arith
    fuel (suc n) zero le = refl
    fuel (suc n) (suc a) le = omega (arith, fuel n (suc a / 2) (omega arith), low (suc a % 2))
      where
        low : (x : ℕ) → differ x 0 ≡ x
        low zero = refl
        low (suc x) = refl

pub o_swap_i_lem :
    (cond : Bool) (a b : ℤ)
    → IsInt a
    → IsInt b
    → o_swap_i cond a b ≡ (if cond then (b, a) else (a, b))
unfolding o_swap_i
o_swap_i_lem true a b ia ib =
    let h = xor_cancel (bits a + bits b) (bits a) (bits b) (omega arith) (omega arith) in
    rw (h.0, h.1, of_bits-bits a ia, of_bits-bits b ib)
o_swap_i_lem false a b ia ib =
    rw (bit_xor-zero (bits a), bit_xor-zero (bits b), of_bits-bits a ia, of_bits-bits b ib)

mov_each_lem :
    (cond : Bool) (dst src : Bytes)
    → length dst ≡ length src
    → mov_each cond dst src ≡ (if cond then src else dst)
unfolding mov_each
mov_each_lem true [] [] e = refl
mov_each_lem false [] [] e = refl
mov_each_lem cond [] (x ∷ src) e = absurd (omega arith)
mov_each_lem cond (x ∷ dst) [] e = absurd (omega arith)
mov_each_lem true (x ∷ dst) (y ∷ src) e =
    rw (bit_or-zero y, mov_each_lem true dst src (omega arith))
mov_each_lem false (x ∷ dst) (y ∷ src) e =
    rw (zero-bit_or x, mov_each_lem false dst src (omega arith))

pub o_mov_bytes_lem :
    (cond : Bool) (dst src : Bytes)
    → length dst ≡ length src
    → o_mov_bytes cond dst src ≡ (if cond then src else dst)
unfolding o_mov_bytes
o_mov_bytes_lem cond dst src e =
    let same : (length dst == length src) ≡ true = ground arith in
    rw same (mov_each_lem cond dst src e)

pub resize_self {ℓ} :
    {A : Type ℓ} (n : ℕ) (v : A) (xs : List A) → length xs ≡ n → resize n v xs ≡ xs
unfolding resize
resize_self zero v [] e = refl
resize_self zero v (x ∷ xs) e = absurd (omega arith)
resize_self (suc n) v [] e = absurd (omega arith)
resize_self (suc n) v (x ∷ xs) e =
    simp unary_clauses (ap (◌∷◌ x) (resize_self n v xs (omega arith)))

swap_each_lem :
    (cond : Bool) (a b : Bytes)
    → length a ≡ length b
    → swap_each cond a b ≡ (if cond then (b, a) else (a, b))
unfolding swap_each
swap_each_lem true [] [] e = refl
swap_each_lem false [] [] e = refl
swap_each_lem cond [] (x ∷ b) e = absurd (omega arith)
swap_each_lem cond (x ∷ a) [] e = absurd (omega arith)
swap_each_lem true (x ∷ a) (y ∷ b) e =
    let h = xor_cancel (x + y) x y (omega arith) (omega arith) in
    rw (h.0, h.1, swap_each_lem true a b (omega arith))
swap_each_lem false (x ∷ a) (y ∷ b) e =
    rw (bit_xor-zero x, bit_xor-zero y, swap_each_lem false a b (omega arith))

pub o_swap_bytes_lem :
    (cond : Bool) (a b : Bytes)
    → length a ≡ length b
    → o_swap_bytes cond a b ≡ (if cond then (b, a) else (a, b))
unfolding o_swap_bytes
o_swap_bytes_lem cond a b e =
    rw
      (
        resize_self (max (length a) (length b)) 0 a (omega arith),
        resize_self (max (length a) (length b)) 0 b (omega arith),
      )
      (swap_each_lem cond a b e)

o_mov_bool_lem : (cond dst src : Bool) → o_mov_bool cond dst src ≡ (if cond then src else dst)
unfolding o_mov_bool o_mov_i
o_mov_bool_lem true dst true = refl
o_mov_bool_lem true dst false = refl
o_mov_bool_lem false true src = refl
o_mov_bool_lem false false src = refl
