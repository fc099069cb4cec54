-- ===== src/Tee/Oblivious.antt =====
-- include/tiered_omap/tee/oblivious.h: moves and tests without branches. An `int` that is 0 or 1 is a
-- Boolean; a conversion to `unsigned` is the bit pattern of the `int`, and unsigned arithmetic wraps.
pub mod Bits
pub mod Moves
pub mod Compact
use Prim.Native.Nat.{bit_or, bit_xor}
use tiered_omap.Prelude.{
  ℕ, zero, suc, ◌+◌, ◌-◌, ◌/◌, ◌%◌, ◌==◌, max, Bool, not, ◌&&◌, List, [], ◌∷◌, ◌++◌, ℤ, pos, ◌-ℤ◌,
  ◌==ℤ◌, if◌then◌else◌, length, take, replicate, countb,
}
use tiered_omap.Common.{Bytes}
use tiered_omap.Common.Codec.{bits, of_bits}

-- The conditional move instruction: the new value of `dst`.
unfoldable pub o_mov_i : Bool → ℤ → ℤ → ℤ
o_mov_i cond dst src = if cond then src else dst

unfoldable pub o_select_i : Bool → ℤ → ℤ → ℤ
unfolding o_mov_i
o_select_i cond a b = o_mov_i cond b a

-- `1 - ((diff | (0u - diff)) >> 31)`, where `diff` is `a ^ b`
unfoldable pub o_equal : ℤ → ℤ → Bool
unfolding bits
o_equal a b =
    let diff = bit_xor (bits a) (bits b) in
    bit_or diff ((4294967296 - diff) % 4294967296) / 2147483648 == 0

-- `static_cast<unsigned>(a - b) >> 31`
unfoldable pub o_less : ℤ → ℤ → Bool
unfolding bits
o_less a b = bits (a -ℤ b) / 2147483648 == 1

unfoldable pub o_max : ℤ → ℤ → ℤ
unfolding o_select_i o_less
o_max a b = o_select_i (o_less a b) b a

unfoldable pub o_min : ℤ → ℤ → ℤ
unfolding o_select_i o_less
o_min a b = o_select_i (o_less a b) a b

unfoldable pub o_mov_bool : Bool → Bool → Bool → Bool
unfolding o_mov_i
o_mov_bool cond dst src =
    let d = if dst then pos 1 else pos 0 in
    let s = if src then pos 1 else pos 0 in not (o_mov_i cond d s ==ℤ pos 0)

-- `x & mask`, where `mask` is all ones or all zeros.
abbrev pub masked : Bool → ℕ → ℕ
masked cond x = if cond then x else 0

-- The new values of `a` and `b`.
unfoldable pub o_swap_i : Bool → ℤ → ℤ → ℤ × ℤ
unfolding bits of_bits
o_swap_i cond a b =
    let diff = masked cond (bit_xor (bits a) (bits b)) in
    (of_bits (bit_xor (bits a) diff), of_bits (bit_xor (bits b) diff))

-- `std::vector::resize`, with the value that fills up.
unfoldable pub resize {ℓ} : {A : Type ℓ} → ℕ → A → List A → List A
resize n v xs = take n xs ++ replicate (n - length xs) v

-- `dst[i] = (src[i] & mask) | (dst[i] & ~mask)` at each index
unfoldable pub mov_each : Bool → Bytes → Bytes → Bytes
mov_each cond [] src = []
mov_each cond (d ∷ dst) [] = d ∷ dst
mov_each cond (d ∷ dst) (s ∷ src) =
    bit_or (masked cond s) (masked (not cond) d) ∷ mov_each cond dst src

unfoldable pub o_mov_bytes : Bool → Bytes → Bytes → Bytes
unfolding mov_each resize
o_mov_bytes cond dst src =
    mov_each cond (if length dst == length src then dst else resize (length src) 0 dst) src

-- `a[i] ^= diff; b[i] ^= diff`, with `diff` of each index
unfoldable pub swap_each : Bool → Bytes → Bytes → Bytes × Bytes
swap_each cond (x ∷ xs) (y ∷ ys) =
    let diff = masked cond (bit_xor x y) in
    let rest = swap_each cond xs ys in (bit_xor x diff ∷ rest.0, bit_xor y diff ∷ rest.1)
swap_each cond xs ys = (xs, ys)

unfoldable pub o_swap_bytes : Bool → Bytes → Bytes → Bytes × Bytes
unfolding swap_each resize
o_swap_bytes cond a b =
    let len = max (length a) (length b) in swap_each cond (resize len 0 a) (resize len 0 b)

-- `o_compact` of a vector, for its test and its exchange of two elements under a condition.
module _ {ℓ} {A : Type ℓ} (is_valid : A → Bool) (swap_element : Bool → A → A → A × A) where
  -- The inner loop, `x` at the current index.
  unfoldable pub bubble_from : A → List A → List A
  bubble_from x [] = x ∷ []
  bubble_from x (y ∷ ys) =
      let s = swap_element (not (is_valid x) && is_valid y) x y in s.0 ∷ bubble_from s.1 ys

  unfoldable pub bubble_pass : List A → List A
  unfolding bubble_from
  bubble_pass [] = []
  bubble_pass (x ∷ xs) = bubble_from x xs

  unfoldable pub bubble : ℕ → List A → List A
  unfolding bubble_pass
  bubble zero arr = arr
  bubble (suc passes) arr = bubble passes (bubble_pass arr)

  -- The compacted vector and the count of its valid elements.
  unfoldable pub o_compact : List A → List A × ℕ
  unfolding bubble countb
  o_compact arr = (bubble (length arr) arr, countb is_valid arr)
