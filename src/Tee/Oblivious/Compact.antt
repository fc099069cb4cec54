-- ===== src/Tee/Oblivious/Compact.antt =====
-- The compaction by exchanges of neighbours moves the valid elements to the front and keeps the order
-- of the valid ones and of the others.
use tiered_omap.Prelude.{
  ℕ, zero, suc, ◌≤◌, ◌≡◌, refl, sym, ap, ◌∙◌, Bool, false, not, ◌&&◌, List, [], ◌∷◌, ◌++◌, ◌⊎◌, inl,
  inr, length, append-nil, append_assoc, arith, Bool-cases, if◌then◌else◌, countb, All,
}
use tiered_omap.Tee.Oblivious.{bubble_from, bubble_pass, bubble, o_compact}

-- The elements that pass a test, in order.
unfoldable pub filter {ℓ} : {A : Type ℓ} → (A → Bool) → List A → List A
filter p [] = []
filter p (x ∷ xs) = let rest = filter p xs in if p x then x ∷ rest else rest

filter-append {ℓ} :
    {A : Type ℓ} (p : A → Bool) (xs ys : List A) → filter p (xs ++ ys) ≡ filter p xs ++ filter p ys
unfolding filter
filter-append p [] ys = refl
filter-append p (x ∷ xs) ys = ground (arith, filter-append p xs ys)

-- The exchange of two elements under a condition.
abbrev exchange {ℓ} : {A : Type ℓ} → Bool → A → A → A × A
exchange c x y = if c then (y, x) else (x, y)

module _ {ℓ} {A : Type ℓ} (p : A → Bool) where
  abbrev invalid : List A → List A
  invalid = filter (λ x. not (p x))

  -- A pass changes the order neither of the valid elements nor of the others.
  filter-bubble_from :
      (x : A) (xs : List A)
      → (filter p (bubble_from p exchange x xs) ≡ filter p (x ∷ xs))
        × (invalid (bubble_from p exchange x xs) ≡ invalid (x ∷ xs))
  unfolding filter bubble_from
  filter-bubble_from x [] = (refl, refl)
  filter-bubble_from x (y ∷ ys) = elim (Bool-cases (p x)) [
    | inl px ↦ let h = filter-bubble_from y ys in rw (px, h.0, h.1, px) (refl, refl)
    | inr px ↦ elim (Bool-cases (p y)) [
      | inl py ↦ let h = filter-bubble_from x ys in rw (px, py, h.0, h.1, px, py) (refl, refl)
      | inr py ↦ let h = filter-bubble_from y ys in rw (px, py, h.0, h.1, px, py) (refl, refl)
    ]
  ]

  abbrev EndsInvalid : A → List A → Type ℓ
  EndsInvalid x xs =
      (ys : List A) × (d : A) × (p d ≡ false)
      × (length ys ≡ length xs)
      × (bubble_from p exchange x xs ≡ ys ++ d ∷ [])

  invalid_end : (x : A) (xs : List A) → p x ≡ false → EndsInvalid x xs
  unfolding bubble_from
  invalid_end x [] px = ([], x, px, refl, refl)
  invalid_end x (y ∷ ys) px = elim (Bool-cases (p y)) [
    | inl py ↦
        let h = invalid_end x ys px in (y ∷ h.0, h.1, h.2, ap suc h.3, rw (px, py) (ap (◌∷◌ y) h.4))
    | inr py ↦
        let h = invalid_end y ys py in (x ∷ h.0, h.1, h.2, ap suc h.3, rw (px, py) (ap (◌∷◌ x) h.4))
  ]

  -- Where an element is invalid, a pass ends in an invalid one.
  pass_end :
      (x : A) (xs : List A)
      → ((bubble_from p exchange x xs ≡ x ∷ xs)
          × (filter p (x ∷ xs) ≡ x ∷ xs)
          × (invalid (x ∷ xs) ≡ []))
        ⊎ EndsInvalid x xs
  unfolding filter bubble_from
  pass_end x [] = elim (Bool-cases (p x)) [
    | inl px ↦ inl (rw px (refl, refl, refl))
    | inr px ↦ inr (invalid_end x [] px)
  ]
  pass_end x (y ∷ ys) = elim (Bool-cases (p x)) [
    | inl px ↦ elim (pass_end y ys) [
      | inl h ↦ inl (rw px (ap (◌∷◌ x) h.0, ap (◌∷◌ x) h.1, h.2))
      | inr h ↦ inr (x ∷ h.0, h.1, h.2, ap suc h.3, rw px (ap (◌∷◌ x) h.4))
    ]
    | inr px ↦ inr (invalid_end x (y ∷ ys) px)
  ]

  bubble_from-append :
      (x : A) (xs : List A) (d : A)
      → p d ≡ false
      → bubble_from p exchange x (xs ++ d ∷ []) ≡ bubble_from p exchange x xs ++ d ∷ []
  unfolding bubble_from
  bubble_from-append x [] d e = ground (arith, e)
  bubble_from-append x (y ∷ ys) d e =
      let s = exchange (not (p x) && p y) x y in ap (◌∷◌ s.0) (bubble_from-append s.1 ys d e)

  bubble-append :
      (n : ℕ) (xs : List A) (d : A)
      → p d ≡ false
      → bubble p exchange n (xs ++ d ∷ []) ≡ bubble p exchange n xs ++ d ∷ []
  unfolding bubble bubble_pass bubble_from
  bubble-append zero xs d e = refl
  bubble-append (suc n) [] d e = bubble-append n [] d e
  bubble-append (suc n) (x ∷ xs) d e =
      rw (bubble_from-append x xs d e) (bubble-append n (bubble_from p exchange x xs) d e)

  bubble_fixed :
      (n : ℕ) (xs : List A) → bubble_pass p exchange xs ≡ xs → bubble p exchange n xs ≡ xs
  unfolding bubble
  bubble_fixed zero xs e = refl
  bubble_fixed (suc n) xs e = rw e (bubble_fixed n xs e)

  filter_last :
      (ys : List A) (d : A)
      → p d ≡ false
      → filter p (ys ++ d ∷ []) ++ invalid (ys ++ d ∷ []) ≡ (filter p ys ++ invalid ys) ++ d ∷ []
  unfolding filter
  filter_last ys d pd =
      rw
        (
          filter-append p ys (d ∷ []),
          filter-append (λ x. not (p x)) ys (d ∷ []),
          pd,
          append-nil (filter p ys),
          append_assoc (filter p ys) (invalid ys) (d ∷ []),
        )
        refl

  bubble-filter :
      (n : ℕ) (xs : List A) → length xs ≤ n → bubble p exchange n xs ≡ filter p xs ++ invalid xs
  unfolding bubble bubble_pass filter
  bubble-filter zero [] le = refl
  bubble-filter zero (x ∷ xs) le = absurd (omega arith)
  bubble-filter (suc n) [] le = bubble-filter n [] (omega arith)
  bubble-filter (suc n) (x ∷ xs) le = elim (pass_end x xs) [
    | inl h ↦ rw (h.0, h.1, h.2, append-nil (x ∷ xs)) (bubble_fixed n (x ∷ xs) h.0)
    | inr (ys, d, pd, l, e) ↦
        let ih = bubble-filter n ys (omega arith) in
        let f = filter-bubble_from x xs in
        let f₀ = rw e at f.0 in
        let f₁ = rw e at f.1 in
        rw (e, bubble-append n ys d pd, ih, ← f₀, ← f₁) (sym (filter_last ys d pd))
  ]

countb-filter {ℓ} : {A : Type ℓ} (p : A → Bool) (xs : List A) → countb p xs ≡ length (filter p xs)
unfolding countb filter
countb-filter p [] = refl
countb-filter p (x ∷ xs) = ground (arith, countb-filter p xs)

module _ {ℓ κ} {A : Type ℓ} (p : A → Bool) (swap_element : Bool → A → A → A × A)
    (G : A → Type κ) where
  -- The exchange is that of the elements, where they have the property `G`.
  abbrev pub Swaps : Type (ℓ ⊔ κ)
  Swaps = (c : Bool) (x y : A) → G x → G y → swap_element c x y ≡ (if c then (y, x) else (x, y))

  bubble_from-exchange :
      (x : A) (xs : List A)
      → Swaps
      → G x
      → All G xs
      → (bubble_from p swap_element x xs ≡ bubble_from p exchange x xs)
        × All G (bubble_from p exchange x xs)
  unfolding bubble_from
  bubble_from-exchange x [] s gx g = (refl, (gx, tt))
  bubble_from-exchange x (y ∷ ys) s gx g = elim (Bool-cases (not (p x) && p y)) [
    | inl e ↦
        let h = bubble_from-exchange x ys s gx g.1 in
        rw (s (not (p x) && p y) x y gx g.0, e) (ap (◌∷◌ y) h.0, (g.0, h.1))
    | inr e ↦
        let h = bubble_from-exchange y ys s g.0 g.1 in
        rw (s (not (p x) && p y) x y gx g.0, e) (ap (◌∷◌ x) h.0, (gx, h.1))
  ]

  bubble-exchange :
      (n : ℕ) (xs : List A)
      → Swaps
      → All G xs
      → (bubble p swap_element n xs ≡ bubble p exchange n xs) × All G (bubble p exchange n xs)
  unfolding bubble bubble_pass
  bubble-exchange zero xs s g = (refl, g)
  bubble-exchange (suc n) [] s g = bubble-exchange n [] s g
  bubble-exchange (suc n) (x ∷ xs) s g =
      let h = bubble_from-exchange x xs s g.0 g.1 in
      let r = bubble-exchange n (bubble_from p exchange x xs) s h.1 in (rw h.0 r.0, r.1)

  pub bubble_partition :
      (xs : List A)
      → Swaps
      → All G xs
      → bubble p swap_element (length xs) xs ≡ filter p xs ++ filter (λ x. not (p x)) xs
  bubble_partition xs s g =
      (bubble-exchange (length xs) xs s g).0 ∙ bubble-filter p (length xs) xs (omega arith)

-- Where the exchange of two elements with a property exchanges them if its condition holds, and
-- leaves them otherwise, `o_compact` of a vector of elements with the property is the valid elements
-- in their order, before the others in their order, and the count is that of the valid elements.
pub o_compact_lem {ℓ κ} :
    {A : Type ℓ} (p : A → Bool) (swap_element : Bool → A → A → A × A) (G : A → Type κ) (xs : List A)
    → Swaps p swap_element G
    → All G xs
    → o_compact p swap_element xs
      ≡ (filter p xs ++ filter (λ x. not (p x)) xs, length (filter p xs))
unfolding o_compact
o_compact_lem p swap_element G xs s g =
    rw (bubble_partition p swap_element G xs s g, countb-filter p xs) refl
