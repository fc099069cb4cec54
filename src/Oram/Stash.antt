-- ===== src/Oram/Stash.antt =====
-- The position map and the stash as tables by key.
use tiered_omap.Prelude.{
  ◌≤◌, ◌≡◌, refl, sym, ◌∙◌, false, some, List, [], ◌∷◌, ℤ, ◌==ℤ◌, ==ℤ_iff, if◌then◌else◌, All,
  countb, arith, Bool-cases, inl, inr,
}
use tiered_omap.Common.{Block}
use tiered_omap.Oram.{find_leaf, assign_leaf, find_in_stash, update_in_stash}
use tiered_omap.Oram.Crypt.{has_key}

-- The map after an assignment.
pub find_leaf-assign_leaf :
    (pm : List (ℤ × ℤ)) (key leaf k : ℤ)
    → find_leaf (assign_leaf pm key leaf) k ≡ (if key ==ℤ k then some leaf else find_leaf pm k)
unfolding find_leaf assign_leaf
find_leaf-assign_leaf [] key leaf k = refl
find_leaf-assign_leaf ((j, l) ∷ pm) key leaf k = elim (Bool-cases (j ==ℤ key)) [
  | inl e ↦ let e' = (==ℤ_iff j key).0 e in rw (e, e') (ground arith)
  | inr e ↦ elim (Bool-cases (j ==ℤ k)) [
    | inl f ↦
        let f' = (==ℤ_iff j k).0 f in
        let apart : (key ==ℤ k) ≡ false = elim (Bool-cases (key ==ℤ k)) [
          | inl g ↦
              let g' = (==ℤ_iff key k).0 g in
              absurd (ground (arith, (==ℤ_iff j key).1 (f' ∙ sym g')))
          | inr g ↦ g
        ] in
        rw (e, f, apart)
    | inr f ↦ rw (e, f, find_leaf-assign_leaf pm key leaf k)
  ]
]

module _ (key : ℤ) where
  -- A key in the stash is found.
  pub find_in_stash-count :
      (Q : Block → Type 0) (stash : List Block)
      → All Q stash
      → 1 ≤ countb (has_key key) stash
      → (b : Block) × (find_in_stash stash key ≡ some b) × (b.key ≡ key) × Q b
  unfolding find_in_stash countb
  find_in_stash-count Q [] q c = absurd (omega arith)
  find_in_stash-count Q (b ∷ stash) q c = elim (Bool-cases (b.key ==ℤ key)) [
    | inl e ↦ (b, rw e, (==ℤ_iff b.key key).0 e, q.0)
    | inr e ↦ rw e (find_in_stash-count Q stash q.1 (unfold countb in ground arith))
  ]

  All-absent :
      (Q Q' : Block → Type 0)
      → ((b : Block) → Q b → (b.key ==ℤ key) ≡ false → Q' b)
      → (stash : List Block) → countb (has_key key) stash ≡ 0
      → All Q stash
      → All Q' stash
  unfolding countb
  All-absent Q Q' f [] c q = tt
  All-absent Q Q' f (b ∷ stash) c q =
      (f b q.0 (ground arith), All-absent Q Q' f stash (omega arith) q.1)

  -- Where the key occurs once, an update changes its block and no other.
  pub update_in_stash-All :
      (Q Q' : Block → Type 0) (g : Block → Block)
      → ((b : Block) → Q b → (b.key ==ℤ key) ≡ false → Q' b)
      → ((b : Block) → Q b → b.key ≡ key → Q' (g b))
      → (stash : List Block) → countb (has_key key) stash ≡ 1
      → All Q stash
      → All Q' (update_in_stash g key stash)
  unfolding update_in_stash countb
  update_in_stash-All Q Q' g f f' [] c q = tt
  update_in_stash-All Q Q' g f f' (b ∷ stash) c q = elim (Bool-cases (b.key ==ℤ key)) [
    | inl e ↦ rw e (
      f' b q.0 ((==ℤ_iff b.key key).0 e),
      All-absent Q Q' f stash (unfold countb in ground arith) q.1,
    )
    | inr e ↦
        rw e (f b q.0 e, update_in_stash-All Q Q' g f f' stash (unfold countb in ground arith) q.1)
  ]

  pub update_in_stash-count :
      (g : Block → Block)
      → ((b : Block) → (g b).key ≡ b.key)
      → (k : ℤ) (stash : List Block)
      → countb (has_key k) (update_in_stash g key stash) ≡ countb (has_key k) stash
  unfolding update_in_stash countb
  update_in_stash-count g same k [] = refl
  update_in_stash-count g same k (b ∷ stash) = elim (Bool-cases (b.key ==ℤ key)) [
    | inl e ↦ rw (e, countb, same b)
    | inr e ↦ rw (e, countb, update_in_stash-count g same k stash)
  ]
