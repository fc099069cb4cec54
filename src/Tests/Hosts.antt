-- ===== src/Tests/Hosts.antt =====
-- A host for the tests: it draws 0, its cipher reverses the bytes, and it iterates a map from the
-- last node to the first.
use mathlib.Core.List.{reverse, reverse-append, reverse-reverse}
use mathlib.Core.List.Permᴰ
use tiered_omap.Prelude.{ℕ, ◌<◌, ◌≡◌, refl, List, [], ◌∷◌, length, length-append, arith}
use tiered_omap.Common.{Host}

pub length-reverse {ℓ} : {A : Type ℓ} (xs : List A) → length (reverse xs) ≡ length xs
length-reverse [] = refl
length-reverse (x ∷ xs) =
    rw (reverse-append (x ∷ []) xs, length-append (reverse xs) (x ∷ []), length-reverse xs)
      (omega arith)

pub draws_below : (n m : ℕ) → 0 < m → 0 < m
draws_below n m h = h

abbrev pub mirror_host : Host
mirror_host = record {
  iv = λ n. 7 ∷ 7 ∷ 7 ∷ 7 ∷ 7 ∷ 7 ∷ 7 ∷ 7 ∷ 7 ∷ 7 ∷ 7 ∷ 7 ∷ 7 ∷ 7 ∷ 7 ∷ 7 ∷ [];
  iv_length = λ n. refl;
  draw = λ n m. 0;
  draw_lt = draws_below;
  ctr = λ k v d. reverse d;
  ctr_length = λ k v d. length-reverse d;
  ctr_inverse = λ k v d. reverse-reverse d;
  order = λ entries. reverse entries;
  order_perm = λ entries. Permᴰ.reverse entries;
}
