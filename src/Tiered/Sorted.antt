-- ===== src/Tiered/Sorted.antt =====
-- The sorted list of the keys in the hot map.
use tiered_omap.Prelude.{
  ◌≡◌, false, Option, none, some, List, [], ◌∷◌, ℤ, ◌==ℤ◌, ◌<ℤ◌, ltb_ℤ, All, All-map, arith,
  Bool-cases, inl, inr,
}
use tiered_omap.Tiered.{insert_sorted, erase_sorted, upper_bound}

abbrev pub Rising : List ℤ → Type 0
Rising [] = Unit
Rising (x ∷ xs) = All (λ y. x <ℤ y) xs × Rising xs

pub All-insert_sorted :
    (P : ℤ → Type 0) (key : ℤ) (keys : List ℤ) → P key → All P keys → All P (insert_sorted key keys)
unfolding insert_sorted
All-insert_sorted P key [] h a = (h, tt)
All-insert_sorted P key (k ∷ keys) h a = elim (Bool-cases (ltb_ℤ k key)) [
  | inl e ↦ rw e (a.0, All-insert_sorted P key keys h a.1)
  | inr e ↦ rw e (h, a)
]

-- A new key.
pub insert_sorted-Rising :
    (key : ℤ) (keys : List ℤ)
    → All (λ k. (key ==ℤ k) ≡ false) keys
    → Rising keys
    → Rising (insert_sorted key keys)
unfolding insert_sorted
insert_sorted-Rising key [] n r = (tt, tt)
insert_sorted-Rising key (k ∷ keys) n r = elim (Bool-cases (ltb_ℤ k key)) [
  | inl e ↦ rw e (
    All-insert_sorted (λ y. k <ℤ y) key keys (ground arith) r.0,
    insert_sorted-Rising key keys n.1 r.1,
  )
  | inr e ↦
      let lt : key <ℤ k = ground (arith, n.0) in
      rw e ((lt, All-map (λ y. k <ℤ y) (λ y. key <ℤ y) (λ y h. omega (arith, h, lt)) keys r.0), r)
]

pub All-erase_sorted :
    (P : ℤ → Type 0) (key : ℤ) (keys : List ℤ) → All P keys → All P (erase_sorted key keys)
unfolding erase_sorted
All-erase_sorted P key [] a = tt
All-erase_sorted P key (k ∷ keys) a = elim (Bool-cases (ltb_ℤ k key)) [
  | inl e ↦ rw e (a.0, All-erase_sorted P key keys a.1)
  | inr e ↦ elim (Bool-cases (k ==ℤ key)) [ inl f ↦ rw (e, f) a.1 | inr f ↦ rw (e, f) a ]
]

pub erase_sorted-Rising : (key : ℤ) (keys : List ℤ) → Rising keys → Rising (erase_sorted key keys)
unfolding erase_sorted
erase_sorted-Rising key [] r = tt
erase_sorted-Rising key (k ∷ keys) r = elim (Bool-cases (ltb_ℤ k key)) [
  | inl e ↦ rw e (All-erase_sorted (λ y. k <ℤ y) key keys r.0, erase_sorted-Rising key keys r.1)
  | inr e ↦ elim (Bool-cases (k ==ℤ key)) [ inl f ↦ rw (e, f) r.1 | inr f ↦ rw (e, f) r ]
]

-- The key is gone.
pub erase_sorted-gone :
    (key : ℤ) (keys : List ℤ) → Rising keys → All (λ k. (key ==ℤ k) ≡ false) (erase_sorted key keys)
unfolding erase_sorted
erase_sorted-gone key [] r = tt
erase_sorted-gone key (k ∷ keys) r = elim (Bool-cases (ltb_ℤ k key)) [
  | inl e ↦ rw e (ground arith, erase_sorted-gone key keys r.1)
  | inr e ↦ elim (Bool-cases (k ==ℤ key)) [
    | inl f ↦
        rw (e, f)
          (All-map (λ y. k <ℤ y) (λ y. (key ==ℤ y) ≡ false) (λ y h. ground (arith, f)) keys r.0)
    | inr f ↦
        let lt : key <ℤ k = ground arith in
        rw (e, f)
          (
            ground arith,
            All-map (λ y. k <ℤ y) (λ y. (key ==ℤ y) ≡ false) (λ y h. ground (arith, lt)) keys r.0,
          )
  ]
]

pub upper_bound-All :
    (P : ℤ → Type 0) (ptr : ℤ) (keys : List ℤ) (key : ℤ)
    → All P keys
    → upper_bound ptr keys ≡ some key
    → P key
unfolding upper_bound
upper_bound-All P ptr [] key a e = absurd (let f : ◌≡◌ {A = Option ℤ} none (some key) = e in cc)
upper_bound-All P ptr (k ∷ keys) key a e = elim (Bool-cases (ltb_ℤ ptr k)) [
  | inl f ↦ let s : k ≡ key = (let e' = rw f at e in cc) in rw (← s) a.0
  | inr f ↦ upper_bound-All P ptr keys key a.1 (rw f at e)
]
