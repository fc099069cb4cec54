-- ===== src/Storage/Merged.antt =====
-- `get_merged_path_indices`: the nodes of several paths as an ascending set.
use tiered_omap.Prelude.{
  ℕ, suc, ◌-◌, ◌^◌, ◌<◌, ◌≡◌, refl, Bool, false, ◌||◌, List, [], ◌∷◌, ℤ, ltb, ◌==◌, All, elem,
  arith, All-map, Bool-cases, inl, inr,
}
use tiered_omap.Storage.{
  leaf_node, nodes_up, set_insert, insert_all, merge_paths, get_merged_path_indices, is_ancestor,
}
use tiered_omap.Storage.Paths.{is_ancestor-elem, IsLeaf, nodes_up-lt}

-- Strictly ascending, as the elements of a `std::set` are.
abbrev pub Ascending : List ℕ → Type 0
Ascending [] = Unit
Ascending (x ∷ xs) = All (λ y. x < y) xs × Ascending xs

elem-set_insert : (x y : ℕ) (s : List ℕ) → elem x (set_insert y s) ≡ ((x == y) || elem x s)
unfolding set_insert
elem-set_insert x y [] = refl
elem-set_insert x y (z ∷ s) = ground (arith, elem-set_insert x y s)

All-set_insert : (P : ℕ → Type 0) (x : ℕ) (s : List ℕ) → P x → All P s → All P (set_insert x s)
unfolding set_insert
All-set_insert P x [] h k = (h, tt)
All-set_insert P x (y ∷ s) h k = elim (Bool-cases (ltb x y)) [
  | inl e ↦ rw e (h, k)
  | inr e ↦ elim (Bool-cases (x == y)) [
    | inl e' ↦ rw (e, e') k
    | inr e' ↦ rw (e, e') (k.0, All-set_insert P x s h k.1)
  ]
]

set_insert-Ascending : (x : ℕ) (s : List ℕ) → Ascending s → Ascending (set_insert x s)
unfolding set_insert
set_insert-Ascending x [] a = (tt, tt)
set_insert-Ascending x (y ∷ s) a = elim (Bool-cases (ltb x y)) [
  | inl e ↦ rw e ((ground arith, All-map (λ z. y < z) (λ z. x < z) (λ z k. ground arith) s a.0), a)
  | inr e ↦ elim (Bool-cases (x == y)) [
    | inl e' ↦ rw (e, e') a
    | inr e' ↦
        rw (e, e')
          (All-set_insert (λ z. y < z) x s (ground arith) a.0, set_insert-Ascending x s a.1)
  ]
]

insert_all-Ascending : (xs s : List ℕ) → Ascending s → Ascending (insert_all xs s)
unfolding insert_all
insert_all-Ascending [] s a = a
insert_all-Ascending (x ∷ xs) s a = insert_all-Ascending xs _ (set_insert-Ascending x s a)

elem-insert_all : (x : ℕ) (xs s : List ℕ) → elem x (insert_all xs s) ≡ (elem x xs || elem x s)
unfolding insert_all
elem-insert_all x [] s = refl
elem-insert_all x (y ∷ xs) s =
    rw (elem-insert_all x xs (set_insert y s), elem-set_insert x y s) (ground arith)

All-insert_all : (P : ℕ → Type 0) (xs s : List ℕ) → All P xs → All P s → All P (insert_all xs s)
unfolding insert_all
All-insert_all P [] s h k = k
All-insert_all P (x ∷ xs) s h k = All-insert_all P xs _ h.1 (All-set_insert P x s h.0 k)

-- Whether a node lies on the path of one of the leaves.
unfoldable pub on_paths : ℕ → List ℤ → ℕ → Bool
on_paths leaf_range [] node = false
on_paths leaf_range (leaf ∷ leaves) node =
    is_ancestor (leaf_node leaf_range leaf) node || on_paths leaf_range leaves node

module _ (h : ℕ) where
  elem-merge_paths :
      (leaves : List ℤ) (s : List ℕ) (x : ℕ)
      → elem x (merge_paths (2 ^ h) leaves s) ≡ (elem x s || on_paths (2 ^ h) leaves x)
  unfolding merge_paths on_paths
  elem-merge_paths [] s x = ground arith
  elem-merge_paths (leaf ∷ leaves) s x =
      let n = leaf_node (2 ^ h) leaf in
      rw
        (
          elem-merge_paths leaves (insert_all (nodes_up n) s) x,
          elem-insert_all x (nodes_up n) s,
          is_ancestor-elem n x,
        )
        (ground arith)

  merge_paths-Ascending :
      (leaves : List ℤ) (s : List ℕ) → Ascending s → Ascending (merge_paths (2 ^ h) leaves s)
  unfolding merge_paths
  merge_paths-Ascending [] s a = a
  merge_paths-Ascending (leaf ∷ leaves) s a =
      merge_paths-Ascending leaves _ (insert_all-Ascending (nodes_up (leaf_node (2 ^ h) leaf)) s a)

  merge_paths-lt :
      (leaves : List ℤ) (s : List ℕ)
      → All (IsLeaf h) leaves
      → All (λ m. m < 2 ^ suc h - 1) s
      → All (λ m. m < 2 ^ suc h - 1) (merge_paths (2 ^ h) leaves s)
  unfolding merge_paths
  merge_paths-lt [] s v k = k
  merge_paths-lt (leaf ∷ leaves) s v k = merge_paths-lt leaves _ v.1 (
      All-insert_all (λ m. m < 2 ^ suc h - 1) (nodes_up (leaf_node (2 ^ h) leaf)) s
        (nodes_up-lt h leaf v.0) k)

  -- For leaves of a tree of height `h`, the merged indices are those of the nodes that lie on one of
  -- the paths, strictly ascending and all within the tree.
  pub merged-on_paths :
      (leaves : List ℤ)
      → All (IsLeaf h) leaves
      → ((x : ℕ) → elem x (get_merged_path_indices (suc h) leaves) ≡ on_paths (2 ^ h) leaves x)
        × Ascending (get_merged_path_indices (suc h) leaves)
        × All (λ m. m < 2 ^ suc h - 1) (get_merged_path_indices (suc h) leaves)
  unfolding get_merged_path_indices
  merged-on_paths leaves v =
      let e : suc h - 1 ≡ h = omega arith in
      rw e (
        (λ x. elem-merge_paths leaves [] x),
        merge_paths-Ascending leaves [] tt,
        merge_paths-lt leaves [] v tt,
      )
