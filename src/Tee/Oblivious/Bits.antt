-- ===== src/Tee/Oblivious/Bits.antt =====
-- What the bit patterns of `o_equal` and `o_less` say.
use Prim.Native.Nat.{digits, differ, bit_or, bit_xor, bit_or-bitwise, bit_xor-bitwise}
use tiered_omap.Prelude.{
  ℕ, zero, suc, ◌-◌, ◌/◌, ◌%◌, ◌^◌, ◌≤◌, ◌<◌, max, ◌≡◌, refl, sym, ap, ◌∙◌, false, ℤ, pos, negsuc,
  ◌-ℤ◌, ◌==ℤ◌, ==ℤ_iff, ltb_ℤ, ◌==◌, arith, Bool-cases, inl, inr, if◌then◌else◌,
}
use tiered_omap.Common.Codec.{bits, of_bits}
use tiered_omap.Common.Codec.RoundTrip.{IsInt, bits-lt, of_bits-bits}
use tiered_omap.Tee.Oblivious.{o_equal, o_less}

differ-same : (x y : ℕ) → x < 2 → y < 2 → differ x y ≡ 0 → x ≡ y
differ-same zero y lx ly e = sym e
differ-same (suc zero) zero lx ly e = e
differ-same (suc zero) (suc zero) lx ly e = refl
differ-same (suc zero) (suc (suc y)) lx ly e = absurd (omega arith)
differ-same (suc (suc x)) y lx ly e = absurd (omega arith)

differ_self : (x : ℕ) → differ x x ≡ 0
differ_self zero = refl
differ_self (suc x) = differ_self x

-- Numbers with the same digits are the same.
xor-zero : (n a b : ℕ) → a ≤ n → digits (λ b. b) differ n a b ≡ 0 → a ≡ b
xor-zero zero a b le e = omega (arith, e)
xor-zero (suc n) zero b le e = sym e
xor-zero (suc n) (suc a) b le e =
    let h = xor-zero n (suc a / 2) (b / 2) (omega arith) (omega (arith, e)) in
    let d = differ-same (suc a % 2) (b % 2) (omega arith) (omega arith) (omega (arith, e)) in
    omega (arith, h, d)

xor_self : (n a : ℕ) → a ≤ n → digits (λ b. b) differ n a a ≡ 0
xor_self zero a le = omega arith
xor_self (suc n) zero le = refl
xor_self (suc n) (suc a) le =
    rw (xor_self n (suc a / 2) (omega arith), differ_self (suc a % 2)) refl

-- The digits of both numbers are in their `or`.
or-le : (n a b : ℕ) → a ≤ n → (a ≤ digits (λ b. b) max n a b) × (b ≤ digits (λ b. b) max n a b)
or-le zero a b le = (omega arith, omega arith)
or-le (suc n) zero b le = (omega arith, omega arith)
or-le (suc n) (suc a) b le =
    let h = or-le n (suc a / 2) (b / 2) (omega arith) in (omega (arith, h.0), omega (arith, h.1))

or-lt : (w n a b : ℕ) → a ≤ n → a < 2 ^ w → b < 2 ^ w → digits (λ b. b) max n a b < 2 ^ w
or-lt w zero a b le la lb = lb
or-lt w (suc n) zero b le la lb = lb
or-lt zero (suc n) (suc a) b le la lb = absurd (omega arith)
or-lt (suc w) (suc n) (suc a) b le la lb =
    let h = or-lt w n (suc a / 2) (b / 2) (omega arith) (omega arith) (omega arith) in
    omega (arith, h)

pub differ-lt : (x y : ℕ) → x < 2 → y < 2 → differ x y < 2
differ-lt zero y lx ly = ly
differ-lt (suc zero) zero lx ly = lx
differ-lt (suc zero) (suc zero) lx ly = omega arith
differ-lt (suc zero) (suc (suc y)) lx ly = absurd (omega arith)
differ-lt (suc (suc x)) y lx ly = absurd (omega arith)

xor-lt : (w n a b : ℕ) → a ≤ n → a < 2 ^ w → b < 2 ^ w → digits (λ b. b) differ n a b < 2 ^ w
xor-lt w zero a b le la lb = lb
xor-lt w (suc n) zero b le la lb = lb
xor-lt zero (suc n) (suc a) b le la lb = absurd (omega arith)
xor-lt (suc w) (suc n) (suc a) b le la lb =
    let h = xor-lt w n (suc a / 2) (b / 2) (omega arith) (omega arith) (omega arith) in
    let d = differ-lt (suc a % 2) (b % 2) (omega arith) (omega arith) in omega (arith, h, d)

-- The sign bit of `d | -d`.
sign-bit :
    (d : ℕ)
    → d < 4294967296
    → bit_or d ((4294967296 - d) % 4294967296) / 2147483648 ≡ (if d == 0 then 0 else 1)
sign-bit zero lt = rw (bit_or-bitwise 0 0) refl
sign-bit (suc d) lt =
    let m = (4294967296 - suc d) % 4294967296 in
    let v : m ≡ 4294967296 - suc d = omega arith in
    let lo = or-le (suc d) (suc d) m (omega arith) in
    let hi = or-lt 32 (suc d) (suc d) m (omega arith) lt (omega arith) in
    let c = bit_or-bitwise (suc d) m in
    let r = bit_or (suc d) m in
    let lo₀ : suc d ≤ r = rw c lo.0 in
    let lo₁ : m ≤ r = rw c lo.1 in
    let hi' : r < 4294967296 = rw c hi in
    let z : (suc d == 0) ≡ false = ground arith in
    let one : r / 2147483648 ≡ 1 = omega (arith, lo₀, lo₁, hi', v) in one ∙ rw z refl

-- `o_equal` is equality on the range of an `int`.
pub o_equal_lem : (a b : ℤ) → IsInt a → IsInt b → o_equal a b ≡ (a ==ℤ b)
unfolding o_equal
o_equal_lem a b ia ib =
    let x = bit_xor (bits a) (bits b) in
    let c = bit_xor-bitwise (bits a) (bits b) in
    let lt : x < 4294967296 =
      rw c (xor-lt 32 (bits a) (bits a) (bits b) (omega arith) (bits-lt a ia) (bits-lt b ib)) in
    let s = sign-bit x lt in
    elim (Bool-cases (a ==ℤ b)) [
      | inl e ↦
          let same = (==ℤ_iff a b).0 e in
          let z : x ≡ 0 = c ∙ rw same (xor_self (bits b) (bits b) (omega arith)) in
          rw (e, s, z) refl
      | inr e ↦ elim (Bool-cases (x == 0)) [
        | inl f ↦
            let z : x ≡ 0 = ground (arith, f) in
            let same = xor-zero (bits a) (bits a) (bits b) (omega arith) (sym c ∙ z) in
            let eq : a ≡ b = sym (of_bits-bits a ia) ∙ ap of_bits same ∙ of_bits-bits b ib in
            absurd (let w = (==ℤ_iff a b).1 eq in cc)
        | inr f ↦ rw (e, s, f) refl
      ]
    ]

-- `o_less` is the order where the difference is in the range of an `int`.
pub o_less_lem : (a b : ℤ) → IsInt (a -ℤ b) → o_less a b ≡ ltb_ℤ a b
unfolding o_less bits
o_less_lem (pos a) (pos b) i = ground (arith, i)
o_less_lem (pos a) (negsuc b) i = ground (arith, i)
o_less_lem (negsuc a) (pos b) i = ground (arith, i)
o_less_lem (negsuc a) (negsuc b) i = ground (arith, i)
