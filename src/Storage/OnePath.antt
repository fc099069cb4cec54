-- ===== src/Storage/OnePath.antt =====
-- `get_path_indices` and `get_merged_path_indices` of one leaf list the same nodes in the same
-- order, from the root down.
use mathlib.Core.List.{reverse, reverse-append}
use tiered_omap.Prelude.{
  ℕ, zero, suc, ◌+◌, ◌-◌, ◌/◌, ◌^◌, ◌<◌, ◌≡◌, refl, ◌∙◌, true, false, ◌||◌, List, [], ◌∷◌, ◌++◌, ℤ,
  ◌==◌, All, All-append, All-map, elem, arith, Bool-cases, inl, inr, sym,
}
use mathlib.Core.Path.{ap₂}
use native.Mathlib.Nat.{pow-suc}
use tiered_omap.Storage.{Storage, leaf_node, nodes_up, get_path_indices, get_merged_path_indices}
use tiered_omap.Storage.Paths.{
  is_ancestor-elem, level_nodes, nodes_up-level_nodes, level_nodes-lt, IsLeaf,
}
use tiered_omap.Storage.Merged.{Ascending, on_paths, merged-on_paths}

pub elem-All : (P : ℕ → Type 0) (x : ℕ) (xs : List ℕ) → All P xs → elem x xs ≡ true → P x
elem-All P x [] h e = absurd (ground arith)
elem-All P x (y ∷ xs) h e = elim (Bool-cases (x == y)) [
  | inl same ↦ let e' : x ≡ y = ground arith in rw e' h.0
  | inr apart ↦ elem-All P x xs h.1 (ground arith)
]

elem-below : (x : ℕ) (xs : List ℕ) → All (λ y. x < y) xs → elem x xs ≡ false
elem-below x [] h = refl
elem-below x (y ∷ xs) h = ground (arith, elem-below x xs h.1)

-- Ascending lists with the same elements are equal.
Ascending-ext :
    (xs ys : List ℕ) → Ascending xs → Ascending ys → ((x : ℕ) → elem x xs ≡ elem x ys) → xs ≡ ys
Ascending-ext [] [] a b h = refl
Ascending-ext [] (y ∷ ys) a b h = absurd (ground (arith, h y))
Ascending-ext (x ∷ xs) [] a b h = absurd (ground (arith, h x))
Ascending-ext (x ∷ xs) (y ∷ ys) a b h = ap₂ ◌∷◌ heads (Ascending-ext xs ys a.1 b.1 same_tail)
  where
    heads : x ≡ y
    heads = ground (
      arith,
      h x,
      h y,
      λ (e : elem x ys ≡ true). elem-All (λ z. y < z) x ys b.0 e,
      λ (e : elem y xs ≡ true). elem-All (λ z. x < z) y xs a.0 e,
    )

    same_tail : (z : ℕ) → elem z xs ≡ elem z ys
    same_tail z =
        let hz : ((z == x) || elem z xs) ≡ ((z == y) || elem z ys) = h z in
        elim (Bool-cases (z == x)) [
          | inl e ↦
              let e' : z ≡ x = ground arith in
              let left : elem z xs ≡ false = rw e' (elem-below x xs a.0) in
              let right : elem z ys ≡ false = rw (e', heads) (elem-below y ys b.0) in
              left ∙ sym right
          | inr e ↦ ground (arith, hz, heads, e)
        ]

elem-append : (x : ℕ) (xs ys : List ℕ) → elem x (xs ++ ys) ≡ (elem x xs || elem x ys)
elem-append x [] ys = refl
elem-append x (y ∷ xs) ys = ground (arith, elem-append x xs ys)

elem-reverse : (x : ℕ) (xs : List ℕ) → elem x (reverse xs) ≡ elem x xs
elem-reverse x [] = refl
elem-reverse x (y ∷ xs) =
    rw (reverse-append (y ∷ []) xs, elem-append x (reverse xs) (y ∷ []), elem-reverse x xs)
      (ground arith)

All-reverse : (P : ℕ → Type 0) (xs : List ℕ) → All P xs → All P (reverse xs)
All-reverse P [] h = tt
All-reverse P (x ∷ xs) h =
    rw (reverse-append (x ∷ []) xs)
      (All-append P (reverse xs) (x ∷ []) (All-reverse P xs h.1) (h.0, tt))

Ascending-append :
    (x : ℕ) (xs : List ℕ) → Ascending xs → All (λ y. y < x) xs → Ascending (xs ++ x ∷ [])
Ascending-append x [] a h = (tt, tt)
Ascending-append x (y ∷ xs) a h =
    (All-append (λ z. y < z) xs (x ∷ []) a.0 (h.0, tt), Ascending-append x xs a.1 h.1)

level_nodes-Ascending : (h l : ℕ) → l < 2 ^ h → Ascending (reverse (level_nodes h l))
unfolding level_nodes
level_nodes-Ascending zero l a = (tt, tt)
level_nodes-Ascending (suc h) l a =
    let p = pow-suc 2 h in
    let small : l / 2 < 2 ^ h = omega arith in
    rw (reverse-append ((2 ^ suc h - 1 + l) ∷ []) (level_nodes h (l / 2))) (
      Ascending-append _ _ (level_nodes-Ascending h (l / 2) small) (
        All-reverse (λ y. y < 2 ^ suc h - 1 + l) (level_nodes h (l / 2))
          (All-map (λ m. m < 2 ^ suc h - 1) (λ y. y < 2 ^ suc h - 1 + l) (λ m k. omega arith)
            (level_nodes h (l / 2)) (level_nodes-lt h (l / 2) small))))

-- For one leaf of a tree, the path's indices and the merged indices are the same list.
pub path-merged :
    (h : ℕ) (s : Storage) (leaf : ℤ)
    → s.level ≡ suc h
    → s.leaf_range ≡ 2 ^ h
    → IsLeaf h leaf
    → get_path_indices s leaf ≡ get_merged_path_indices s.level (leaf ∷ [])
unfolding get_path_indices on_paths
path-merged h s leaf v r (l, e, a) =
    let merged = merged-on_paths h (leaf ∷ []) ((l, e, a), tt) in
    let node = nodes_up-level_nodes h l a in
    rw (v, r)
      (Ascending-ext _ _ (rw (e, node) (level_nodes-Ascending h l a)) merged.1 (λ x.
        elem-reverse x (nodes_up (leaf_node (2 ^ h) leaf))
        ∙ sym (is_ancestor-elem (leaf_node (2 ^ h) leaf) x)
        ∙ ground (arith, merged.0 x)))
