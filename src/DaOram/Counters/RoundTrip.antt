-- ===== src/DaOram/Counters/RoundTrip.antt =====
-- A counter block is a value of a position map: decoding what `encode` writes.
use native.Mathlib.Nat.{pow-suc}
use tiered_omap.Prelude.{
  ℕ, zero, suc, ◌+◌, ◌*◌, ◌/◌, ◌^◌, ◌<◌, ◌≡◌, refl, sym, ap, true, leb, length, length-append, [],
  ◌∷◌, ◌++◌, take, drop, take-append, drop-append, arith, ◌∙◌,
}
use tiered_omap.Common.{Bytes}
use tiered_omap.DaOram.Counters.{CounterBlock, word, le_word, of_le, encode, decode}

of_le-le_word : (n u : ℕ) → u < 256 ^ n → of_le (le_word n u) ≡ u
unfolding of_le le_word
of_le-le_word zero u h = omega arith
of_le-le_word (suc n) u h =
    omega (arith, of_le-le_word n (u / 256) (omega (arith, pow-suc 256 n, h)))

length-le_word : (n u : ℕ) → length (le_word n u) ≡ n
unfolding le_word
length-le_word zero u = refl
length-le_word (suc n) u = omega (arith, length-le_word n (u / 256))

abbrev nothing : Bytes
nothing = []

drop_nil : (n : ℕ) → drop n nothing ≡ nothing
drop_nil zero = refl
drop_nil (suc n) = refl

drop-drop : (m n : ℕ) (xs : Bytes) → drop (m + n) xs ≡ drop n (drop m xs)
drop-drop zero n xs = let z : 0 + n ≡ n = omega arith in rw z refl
drop-drop (suc m) n [] = let z : suc m + n ≡ suc (m + n) = omega arith in rw z (sym (drop_nil n))
drop-drop (suc m) n (x ∷ xs) =
    let z : suc m + n ≡ suc (m + n) = omega arith in rw z (drop-drop m n xs)

take-length : (xs : Bytes) → take (length xs) xs ≡ xs
take-length [] = refl
take-length (x ∷ xs) = ap (◌∷◌ x) (take-length xs)

decode-append :
    (w ic backup : Bytes) (num_ic : ℕ)
    → length w ≡ 8
    → length ic ≡ num_ic
    → length backup ≡ num_ic
    → decode (w ++ (ic ++ backup)) num_ic ≡ record { gc = of_le w; ic = ic; backup = backup }
unfolding decode
decode-append w ic backup num_ic l i b =
    let n : length (w ++ (ic ++ backup)) ≡ 8 + 2 * num_ic =
      rw (length-append, length-append, l, i, b) (omega arith) in
    let long : leb (8 + 2 * num_ic) (8 + 2 * num_ic) ≡ true = ground arith in
    let back : take num_ic backup ≡ backup = rw (← b) (take-length backup) in
    rw
      (
        n,
        long,
        take-append 8 w (ic ++ backup) l,
        drop-drop 8 num_ic,
        drop-append 8 w (ic ++ backup) l,
        take-append num_ic ic backup i,
        drop-append num_ic ic backup i,
        back,
      )
      refl

-- `decode` with the number of offsets of a block returns the block that `encode` wrote, if its two
-- vectors have that length and its group counter is a 64-bit number.
pub decode-encode :
    (cb : CounterBlock) (num_ic : ℕ)
    → length cb.ic ≡ num_ic
    → length cb.backup ≡ num_ic
    → cb.gc < word
    → decode (encode cb) num_ic ≡ cb
unfolding encode
decode-encode cb num_ic i b g =
    decode-append (le_word 8 cb.gc) cb.ic cb.backup num_ic (length-le_word 8 cb.gc) i b
    ∙ rw (of_le-le_word 8 cb.gc g) refl
