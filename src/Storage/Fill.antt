-- ===== src/Storage/Fill.antt =====
-- `fill_block_to_path`: the block goes to the deepest node of the path that lies above its leaf and
-- has room; nothing else moves.
use tiered_omap.Prelude.{
  ℕ, ◌+◌, ◌-◌, ◌^◌, ◌<◌, ◌≡◌, refl, Bool, true, ◌||◌, Option, some, List, [], ◌∷◌, ℤ, leb, ◌==◌,
  if◌then◌else◌, length, All, All-append, countb, countb-append, to_nat, elem, arith, Bool-cases,
  Option-cases, inl, inr,
}
use tiered_omap.Common.{Block}
use tiered_omap.Storage.{
  PathData, leaf_node, nodes_of, path_bucket, push_at, insert_desc, sort_desc, is_ancestor,
  choose_node, fill_chosen, fill_block_to_path,
}

-- How many blocks of a path pass a test.
unfoldable pub path_count : (Block → Bool) → PathData → ℕ
path_count p [] = 0
path_count p ((_, bucket) ∷ path) = countb p bucket + path_count p path

-- Every block of a path satisfies `P` at its node.
abbrev pub PathAll : (ℕ → Block → Type 0) → PathData → Type 0
PathAll P = All (λ entry. All (P entry.0) entry.1)

pub path_count-push_at :
    (p : Block → Bool) (node : ℕ) (block : Block) (path : PathData)
    → path_count p (push_at node block path) ≡ to_nat (p block) + path_count p path
unfolding path_count push_at countb
path_count-push_at p node block [] = omega arith
path_count-push_at p node block ((m, bucket) ∷ path) =
    ground (arith, path_count-push_at p node block path, countb-append p bucket (block ∷ []))

nodes_of-push_at :
    (node : ℕ) (block : Block) (path : PathData)
    → elem node (nodes_of path) ≡ true
    → nodes_of (push_at node block path) ≡ nodes_of path
unfolding push_at
nodes_of-push_at node block [] h = cc
nodes_of-push_at node block ((m, bucket) ∷ path) h =
    ground (arith, nodes_of-push_at node block path)

PathAll-push_at :
    (P : ℕ → Block → Type 0) (node : ℕ) (block : Block) (path : PathData)
    → P node block
    → PathAll P path
    → PathAll P (push_at node block path)
unfolding push_at
PathAll-push_at P node block [] h k = ((h, tt), tt)
PathAll-push_at P node block ((m, bucket) ∷ path) h k = elim (Bool-cases (m == node)) [
  | inl e ↦
      let e' : node ≡ m = ground arith in
      rw e (All-append (P m) bucket (block ∷ []) k.0 (rw e' at h, tt), k.1)
  | inr e ↦ rw e (k.0, PathAll-push_at P node block path h k.1)
]

elem-insert_desc : (x y : ℕ) (s : List ℕ) → elem x (insert_desc y s) ≡ ((x == y) || elem x s)
unfolding insert_desc
elem-insert_desc x y [] = refl
elem-insert_desc x y (z ∷ s) = ground (arith, elem-insert_desc x y s)

pub elem-sort_desc : (x : ℕ) (s : List ℕ) → elem x (sort_desc s) ≡ elem x s
unfolding sort_desc
elem-sort_desc x [] = refl
elem-sort_desc x (y ∷ s) = rw (elem-insert_desc x y (sort_desc s), elem-sort_desc x s)

module _ (bucket_size : ℕ) (target : ℤ) (path : PathData) where
  -- A node that can take the block.
  pub record Takes (nodes : List ℕ) (node : ℕ) : Type 0 where
    pub listed : elem node nodes ≡ true
    pub above : is_ancestor target node ≡ true
    pub room : length (path_bucket path node) < bucket_size

  pub choose_node-Takes :
      (nodes : List ℕ) (node : ℕ)
      → choose_node bucket_size target path nodes ≡ some node
      → Takes nodes node
  unfolding choose_node
  choose_node-Takes [] node e = cc
  choose_node-Takes (n ∷ nodes) node e =
      elim (Bool-cases (leb bucket_size (length (path_bucket path n)))) [
        | inl full ↦
            let t = choose_node-Takes nodes node (rw full at e) in
            record { listed = ground (arith, t.listed); above = t.above; room = t.room }
        | inr free ↦ elim (Bool-cases (is_ancestor target n)) [
          | inl above ↦
              let e' : n ≡ node = ground arith in
              rw (← e') (record { listed = ground arith; above = above; room = ground arith })
          | inr apart ↦
              let t = choose_node-Takes nodes node (rw (free, apart) at e) in
              record { listed = ground (arith, t.listed); above = t.above; room = t.room }
        ]
      ]

module _ (block : Block) (path : PathData) (level bucket_size : ℕ) where
  abbrev after_fill : PathData × Bool
  after_fill = fill_block_to_path block path level bucket_size

  abbrev block_target : ℤ
  block_target = leaf_node (2 ^ (level - 1)) block.leaf

  abbrev chosen : Option ℕ
  chosen = choose_node bucket_size block_target path (sort_desc (nodes_of path))

  -- The path holds the block if it was taken, and otherwise what it held.
  pub path_count-fill :
      (p : Block → Bool)
      → path_count p after_fill.0
        ≡ path_count p path + (if after_fill.1 then to_nat (p block) else 0)
  unfolding fill_block_to_path
  path_count-fill p = elim (Option-cases chosen) [
    | inl e ↦ rw (e, fill_chosen) (omega arith)
    | inr (node, e) ↦ rw (e, fill_chosen) (omega (arith, path_count-push_at p node block path))
  ]

  chosen-Takes :
      (node : ℕ) → chosen ≡ some node → Takes bucket_size block_target path (nodes_of path) node
  chosen-Takes node e =
      let t = choose_node-Takes bucket_size block_target path (sort_desc (nodes_of path)) node e in
      record {
        listed = rw (elem-sort_desc node (nodes_of path)) at t.listed;
        above = t.above;
        room = t.room;
      }

  -- The entries of the path stay the same.
  pub nodes_of-fill : nodes_of after_fill.0 ≡ nodes_of path
  unfolding fill_block_to_path
  nodes_of-fill = elim (Option-cases chosen) [
    | inl e ↦ rw (e, fill_chosen)
    | inr (node, e) ↦
        rw (e, fill_chosen) (nodes_of-push_at node block path (chosen-Takes node e).listed)
  ]

  -- What holds of the blocks of the path, and of the block at every node above its leaf, is kept.
  pub PathAll-fill :
      (P : ℕ → Block → Type 0)
      → ((node : ℕ) → is_ancestor block_target node ≡ true → P node block)
      → PathAll P path
      → PathAll P after_fill.0
  unfolding fill_block_to_path
  PathAll-fill P f h = elim (Option-cases chosen) [
    | inl e ↦ rw (e, fill_chosen) h
    | inr (node, e) ↦
        rw (e, fill_chosen)
          (PathAll-push_at P node block path (f node (chosen-Takes node e).above) h)
  ]
