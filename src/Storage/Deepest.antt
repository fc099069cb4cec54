-- ===== src/Storage/Deepest.antt =====
-- `fill_block_to_path`: the loop over the sorted nodes takes the deepest node that can take the
-- block.
use tiered_omap.Prelude.{
  ℕ, ◌-◌, ◌^◌, ◌≤◌, ◌≡◌, refl, sym, ◌∙◌, ◌⊎◌, inl, inr, Bool, true, false, ◌&&◌, none, some, List,
  [], ◌∷◌, ℤ, ltb, leb, ◌==◌, length, All, All-map, elem, arith, Bool-cases, Option-cases,
}
use tiered_omap.Common.{Block}
use tiered_omap.Storage.{
  PathData, leaf_node, path_bucket, push_at, insert_desc, sort_desc, is_ancestor, choose_node,
  fill_chosen, nodes_of, fill_block_to_path,
}
use tiered_omap.Storage.OnePath.{elem-All}
use tiered_omap.Storage.Fill.{elem-sort_desc, choose_node-Takes}

-- From the greatest to the least.
abbrev Falling : List ℕ → Type 0
Falling [] = Unit
Falling (x ∷ xs) = All (λ y. y ≤ x) xs × Falling xs

All-insert_desc : (P : ℕ → Type 0) (x : ℕ) (s : List ℕ) → P x → All P s → All P (insert_desc x s)
unfolding insert_desc
All-insert_desc P x [] h k = (h, tt)
All-insert_desc P x (y ∷ s) h k = elim (Bool-cases (ltb x y)) [
  | inl e ↦ rw e (k.0, All-insert_desc P x s h k.1)
  | inr e ↦ rw e (h, (k.0, k.1))
]

insert_desc-Falling : (x : ℕ) (s : List ℕ) → Falling s → Falling (insert_desc x s)
unfolding insert_desc
insert_desc-Falling x [] f = (tt, tt)
insert_desc-Falling x (y ∷ s) f = elim (Bool-cases (ltb x y)) [
  | inl e ↦ rw e (All-insert_desc (λ z. z ≤ y) x s (ground arith) f.0, insert_desc-Falling x s f.1)
  | inr e ↦
      let le : y ≤ x = ground arith in
      rw e ((le, All-map (λ z. z ≤ y) (λ z. z ≤ x) (λ z k. omega (arith, k, le)) s f.0), f)
]

sort_desc-Falling : (s : List ℕ) → Falling (sort_desc s)
unfolding sort_desc
sort_desc-Falling [] = tt
sort_desc-Falling (x ∷ s) = insert_desc-Falling x (sort_desc s) (sort_desc-Falling s)

module _ (bucket_size : ℕ) (target : ℤ) (path : PathData) where
  -- A node of the path, above the target, with room for a block.
  abbrev pub has_room : ℕ → Bool
  has_room node = is_ancestor target node && ltb (length (path_bucket path node)) bucket_size

  choose_node-none :
      (nodes : List ℕ) (n : ℕ)
      → choose_node bucket_size target path nodes ≡ none
      → elem n nodes ≡ true
      → has_room n ≡ false
  unfolding choose_node
  choose_node-none [] n e m = absurd (ground arith)
  choose_node-none (x ∷ nodes) n e m =
      elim (Bool-cases (leb bucket_size (length (path_bucket path x)))) [
        | inl full ↦ elim (Bool-cases (n == x)) [
          | inl same ↦ let s : n ≡ x = ground arith in rw s (ground arith)
          | inr apart ↦ choose_node-none nodes n (rw full at e) (ground arith)
        ]
        | inr free ↦ elim (Bool-cases (is_ancestor target x)) [
          | inl above ↦ absurd (let f = rw (free, above) at e in cc)
          | inr aside ↦ elim (Bool-cases (n == x)) [
            | inl same ↦ let s : n ≡ x = ground arith in rw (s, aside) refl
            | inr apart ↦ choose_node-none nodes n (rw (free, aside) at e) (ground arith)
          ]
        ]
      ]

  choose_node-greatest :
      (nodes : List ℕ) (n node : ℕ)
      → Falling nodes
      → choose_node bucket_size target path nodes ≡ some node
      → elem n nodes ≡ true
      → has_room n ≡ true
      → n ≤ node
  unfolding choose_node
  choose_node-greatest [] n node f e m r = absurd (ground arith)
  choose_node-greatest (x ∷ nodes) n node f e m r =
      elim (Bool-cases (leb bucket_size (length (path_bucket path x)))) [
        | inl full ↦ elim (Bool-cases (n == x)) [
          | inl same ↦ let s : n ≡ x = ground arith in absurd (let r' = rw s at r in ground arith)
          | inr apart ↦ choose_node-greatest nodes n node f.1 (rw full at e) (ground arith) r
        ]
        | inr free ↦ elim (Bool-cases (is_ancestor target x)) [
          | inl above ↦
              let same : x ≡ node = (let e' = rw (free, above) at e in cc) in
              let le : n ≤ x = elem-All (λ z. z ≤ x) n (x ∷ nodes) (omega arith, f.0) m in
              omega (arith, same, le)
          | inr aside ↦ elim (Bool-cases (n == x)) [
            | inl same ↦ let s : n ≡ x = ground arith in absurd (let r' = rw (s, aside) at r in cc)
            | inr apart ↦
                choose_node-greatest nodes n node f.1 (rw (free, aside) at e) (ground arith) r
          ]
        ]
      ]

-- The block goes to the node with the greatest index, hence the deepest, among the nodes of the path
-- that are above the block's leaf and have room; only if there is none is it not taken, and then the
-- path is as it was. Here `n` stands for any node of the path.
pub fill_block_to_path-deepest :
    (block : Block) (path : PathData) (level bucket_size n : ℕ)
    → elem n (nodes_of path) ≡ true
    → let target = leaf_node (2 ^ (level - 1)) block.leaf in
      ((fill_block_to_path block path level bucket_size ≡ (path, false))
        × (has_room bucket_size target path n ≡ false))
      ⊎ ((node : ℕ) × (fill_block_to_path block path level bucket_size
            ≡ (push_at node block path, true))
          × (elem node (nodes_of path) ≡ true)
          × (has_room bucket_size target path node ≡ true)
          × ((has_room bucket_size target path n ≡ false) ⊎ (n ≤ node)))
unfolding fill_block_to_path
fill_block_to_path-deepest block path level bucket_size n m =
    let target = leaf_node (2 ^ (level - 1)) block.leaf in
    let nodes = sort_desc (nodes_of path) in
    let m' : elem n nodes ≡ true = elem-sort_desc n (nodes_of path) ∙ m in
    elim (Option-cases (choose_node bucket_size target path nodes)) [
      | inl e ↦
          inl (rw (e, fill_chosen) refl, choose_node-none bucket_size target path nodes n e m')
      | inr (node, e) ↦
          let t = choose_node-Takes bucket_size target path nodes node e in
          inr (
            node,
            rw (e, fill_chosen) refl,
            sym (elem-sort_desc node (nodes_of path)) ∙ t.listed,
            ground (arith, t.above, t.room),
            elim (Bool-cases (has_room bucket_size target path n)) [
              | inl r ↦ inr (
                  choose_node-greatest bucket_size target path nodes n node
                    (sort_desc-Falling (nodes_of path)) e m' r)
              | inr r ↦ inl r
            ],
          )
    ]
