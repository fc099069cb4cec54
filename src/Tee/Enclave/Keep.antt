-- ===== src/Tee/Enclave/Keep.antt =====
-- The end of `evict_path`: the compaction of the stash, the cut to its bound and the padding.
use native.Mathlib.Numerals.{unary_clauses}
use tiered_omap.Prelude.{
  ℕ, zero, suc, ◌-◌, ◌≤◌, ◌≡◌, refl, ap, ◌∙◌, max, Bool, true, false, not, List, [], ◌∷◌, ◌++◌, ℤ,
  ◌==ℤ◌, length, length-append, length-take, append-nil, subst, take, All, All-append, All-map,
  countb, countb-append, arith, Bool-cases, inl, inr, if◌then◌else◌,
}
use tiered_omap.Common.{Bytes, Block, invalid_key, is_dummy}
use tiered_omap.Oram.Crypt.{has_key}
use tiered_omap.Tee.Oblivious.{resize, bubble, o_swap_i, o_swap_bytes}
use tiered_omap.Tee.Oblivious.Moves.{o_swap_i_lem, o_swap_bytes_lem}
use tiered_omap.Tee.Oblivious.Compact.{filter, Swaps, bubble_partition}
use tiered_omap.Tee.Enclave.{is_real, pad_stash}
use tiered_omap.Tee.Enclave.Evict.{swap_blocks, keep_valid}
use tiered_omap.Tee.Enclave.Slots.{Sized, Entry, dummy-has_key, is_real_lem}

abbrev combine : ℤ × ℤ → ℤ × ℤ → Bytes × Bytes → Block × Block
combine keys leaves values = (
  record { key = keys.0; leaf = leaves.0; value = values.0 },
  record { key = keys.1; leaf = leaves.1; value = values.1 },
)

field_by_field :
    (c : Bool) (x y : Block)
    → combine
        (if c then (y.key, x.key) else (x.key, y.key))
        (if c then (y.leaf, x.leaf) else (x.leaf, y.leaf))
        (if c then (y.value, x.value) else (x.value, y.value))
      ≡ (if c then (y, x) else (x, y))
field_by_field true x y = refl
field_by_field false x y = refl

swap_blocks-Swaps : (value_size : ℕ) → Swaps is_real swap_blocks (Sized value_size)
unfolding swap_blocks
swap_blocks-Swaps value_size c x y gx gy =
    ap (λ ks. combine ks (o_swap_i c x.leaf y.leaf) (o_swap_bytes c x.value y.value))
      (o_swap_i_lem c x.key y.key gx.1 gy.1)
    ∙ ap
        (λ ls.
          combine (if c then (y.key, x.key) else (x.key, y.key)) ls
            (o_swap_bytes c x.value y.value))
        (o_swap_i_lem c x.leaf y.leaf gx.2 gy.2)
    ∙ ap
        (combine (if c then (y.key, x.key) else (x.key, y.key))
          (if c then (y.leaf, x.leaf) else (x.leaf, y.leaf)))
        (o_swap_bytes_lem c x.value y.value (omega (arith, gx.0, gy.0)))
    ∙ field_by_field c x y

pub take-short {ℓ} :
    {A : Type ℓ} (n : ℕ) (xs ys : List A)
    → length xs ≤ n
    → take n (xs ++ ys) ≡ xs ++ take (n - length xs) ys
take-short n [] ys le = ap (λ m. take m ys) (omega arith)
take-short zero (x ∷ xs) ys le = absurd (omega arith)
take-short (suc n) (x ∷ xs) ys le =
    simp unary_clauses (ap (◌∷◌ x) (take-short n xs ys (omega arith)))

All-take {ℓ κ} : {A : Type ℓ} (P : A → Type κ) (n : ℕ) (xs : List A) → All P xs → All P (take n xs)
All-take P zero xs h = tt
All-take P (suc n) [] h = tt
All-take P (suc n) (x ∷ xs) h = (h.0, All-take P n xs h.1)

All-filter {ℓ κ} :
    {A : Type ℓ} (P : A → Type κ) (p : A → Bool) (xs : List A) → All P xs → All P (filter p xs)
unfolding filter
All-filter P p [] h = tt
All-filter P p (x ∷ xs) h = elim (Bool-cases (p x)) [
  | inl e ↦ rw e (h.0, All-filter P p xs h.1)
  | inr e ↦ rw e (All-filter P p xs h.1)
]

countb-take :
    (k : ℤ) (n : ℕ) (bs : List Block)
    → (k ==ℤ invalid_key) ≡ false
    → All (λ b. is_dummy b ≡ true) bs
    → countb (has_key k) (take n bs) ≡ 0
unfolding countb
countb-take k zero bs rk d = refl
countb-take k (suc n) [] rk d = refl
countb-take k (suc n) (b ∷ bs) rk d = rw (dummy-has_key k b rk d.0, countb-take k n bs rk d.1) refl

countb-filter :
    (k : ℤ) (bs : List Block) (value_size : ℕ)
    → (k ==ℤ invalid_key) ≡ false
    → All (Sized value_size) bs
    → (countb (has_key k) (filter is_real bs) ≡ countb (has_key k) bs)
      × All (λ b. is_dummy b ≡ true) (filter (λ b. not (is_real b)) bs)
unfolding countb filter
countb-filter k [] value_size rk h = (refl, tt)
countb-filter k (b ∷ bs) value_size rk h =
    let ih = countb-filter k bs value_size rk h.1 in
    elim (Bool-cases (is_dummy b)) [
      | inl d ↦
          rw (is_real_lem b h.0.1, d) (rw (dummy-has_key k b rk d) (omega (arith, ih.0)), (d, ih.1))
      | inr d ↦ rw (is_real_lem b h.0.1, d) (omega (arith, ih.0), ih.1)
    ]

entry_fields :
    (value_size : ℕ) (P : Block → Type 0) (bs : List Block)
    → All (Entry value_size P) bs
    → All (Sized value_size) bs
entry_fields value_size P bs h = All-map (Entry value_size P) (Sized value_size) (λ b e. e.0) bs h

-- A cut that keeps at least the real blocks.
cut_lem :
    (value_size n : ℕ) (P : Block → Type 0) (bs : List Block)
    → All (Entry value_size P) bs
    → length (filter is_real bs) ≤ n
    → (let cut = take n (filter is_real bs ++ filter (λ b. not (is_real b)) bs) in
        All (Entry value_size P) cut
        × ((k : ℤ) → (k ==ℤ invalid_key) ≡ false → countb (has_key k) cut ≡ countb (has_key k) bs))
cut_lem value_size n P bs h le =
    let front = filter is_real bs in
    let back = filter (λ (b : Block). not (is_real b)) bs in
    (
      All-take (Entry value_size P) n (front ++ back) (
          All-append (Entry value_size P) front back (All-filter (Entry value_size P) is_real bs h)
            (All-filter (Entry value_size P) (λ b. not (is_real b)) bs h)),
      λ k rk.
          let f = countb-filter k bs value_size rk (entry_fields value_size P bs h) in
          rw (take-short n front back le) (
            omega (
              arith,
              countb-append (has_key k) front (take (n - length front) back),
              f.0,
              countb-take k (n - length front) back rk f.1,
            )),
    )

count_filter : (p : Block → Bool) (bs : List Block) → countb p (filter p bs) ≡ length (filter p bs)
unfolding countb filter
count_filter p [] = refl
count_filter p (b ∷ bs) = elim (Bool-cases (p b)) [
  | inl e ↦ rw (e, e) (omega (arith, count_filter p bs))
  | inr e ↦ rw e (count_filter p bs)
]

length-filter :
    (p : Block → Bool) (bs : List Block)
    → length (filter p bs ++ filter (λ b. not (p b)) bs) ≡ length bs
unfolding filter
length-filter p [] = refl
length-filter p (b ∷ bs) =
    let ih = length-append (filter p bs) (filter (λ (b : Block). not (p b)) bs) in
    elim (Bool-cases (p b)) [
      | inl e ↦ rw e (ap suc (length-filter p bs))
      | inr e ↦ rw e (
          omega (
            arith,
            length-append (filter p bs) (b ∷ filter (λ (b : Block). not (p b)) bs),
            length-append (filter p bs) (filter (λ (b : Block). not (p b)) bs),
            length-filter p bs,
          ))
    ]

-- No entry is added where the stash has the size of its bound.
keep_valid-take :
    (value_size stash_max : ℕ) (bs : List Block)
    → countb is_real bs ≤ stash_max
    → stash_max ≤ length bs
    → keep_valid value_size stash_max bs ≡ take stash_max bs
unfolding keep_valid resize pad_stash
keep_valid-take value_size stash_max bs c le =
    let m : max (countb is_real bs) stash_max ≡ stash_max = omega arith in
    let z : stash_max - length bs ≡ 0 = omega arith in
    let l : stash_max - length (take stash_max bs) ≡ 0 = omega (arith, length-take stash_max bs) in
    rw (m, z, append-nil (take stash_max bs), l, append-nil (take stash_max bs)) refl

pub keep_valid_lem :
    (value_size stash_max passes : ℕ) (P : Block → Type 0) (stash : List Block)
    → All (Entry value_size P) stash
    → passes ≡ length stash
    → stash_max ≤ length stash
    → (let compacted = bubble is_real swap_blocks passes stash in
        let kept = keep_valid value_size stash_max compacted in
        countb is_real compacted ≤ stash_max
        → All (Entry value_size P) kept
          × ((k : ℤ)
              → (k ==ℤ invalid_key) ≡ false
              → countb (has_key k) kept ≡ countb (has_key k) stash)
          × (length kept ≡ stash_max))
keep_valid_lem value_size stash_max passes P stash h e le c =
    let front = filter is_real stash in
    let back = filter (λ (b : Block). not (is_real b)) stash in
    let part : bubble is_real swap_blocks passes stash ≡ front ++ back = rw e (
      bubble_partition is_real swap_blocks (Sized value_size) stash (swap_blocks-Swaps value_size)
        (entry_fields value_size P stash h)) in
    let all = length-filter is_real stash in
    let c' : countb is_real (front ++ back) ≤ stash_max =
      subst (λ bs. countb is_real bs ≤ stash_max) part c in
    let short : length front ≤ stash_max =
      omega (arith, c', countb-append is_real front back, count_filter is_real stash) in
    let cut = cut_lem value_size stash_max P stash h short in
    rw (part, keep_valid-take value_size stash_max (front ++ back) c' (omega (arith, all, le)))
      (cut.0, cut.1, omega (arith, length-take stash_max (front ++ back), all, le))
