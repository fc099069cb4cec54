-- ===== src/Storage/Load.antt =====
-- `fill_data_to_leaf` and `bulk_load`: a block enters the tree on the path of its leaf or nowhere,
-- and no bucket outgrows the bucket size.
use mathlib.Core.List.{reverse, reverse-reverse}
use tiered_omap.Prelude.{
  ℕ, ◌+◌, ◌^◌, ◌≤◌, ◌<◌, ◌≡◌, refl, ◌∙◌, Bool, true, List, [], ◌∷◌, ◌++◌, ℤ, ltb, ◌==◌, length,
  length-append, length-set, set, set_outside, All, All-append, All-map, countb, countb-append,
  to_nat, elem, arith, Bool-cases, inl, inr,
}
use tiered_omap.Common.{Block}
use tiered_omap.Storage.{
  Storage, leaf_node, nodes_up, get_path_indices, bucket_at, is_ancestor, fill_up,
  fill_data_to_leaf, fill_all, bulk_load,
}
use tiered_omap.Storage.Paths.{IsLeaf, IsShaped, nodes_up-lt, is_ancestor-elem}
use tiered_omap.Storage.Write.{tree_count, tree_count-set, bucket_at-set, bucket_at-set_self}

module _ (bucket_size : ℕ) (block : Block) where
  abbrev filled_up : List ℕ → List (List Block) → List (List Block)
  filled_up = fill_up bucket_size block

  pub length-fill_up :
      (nodes : List ℕ) (bs : List (List Block)) → length (filled_up nodes bs) ≡ length bs
  unfolding fill_up
  length-fill_up [] bs = refl
  length-fill_up (n ∷ nodes) bs = elim (Bool-cases (ltb (length (bucket_at bs n)) bucket_size)) [
    | inl e ↦ rw e (length-set bs n _)
    | inr e ↦ rw e (length-fill_up nodes bs)
  ]

  fill_up-count :
      (p : Block → Bool) (nodes : List ℕ) (bs : List (List Block))
      → All (λ n. n < length bs) nodes
      → (tree_count p bs ≤ tree_count p (filled_up nodes bs))
        × (tree_count p (filled_up nodes bs) ≤ tree_count p bs + to_nat (p block))
  unfolding fill_up countb
  fill_up-count p [] bs r = (omega arith, omega arith)
  fill_up-count p (n ∷ nodes) bs r = elim (Bool-cases (ltb (length (bucket_at bs n)) bucket_size)) [
    | inl e ↦
        let s = tree_count-set p bs n (bucket_at bs n ++ block ∷ []) r.0 in
        let a = countb-append p (bucket_at bs n) (block ∷ []) in
        rw e (unfold countb in (omega (arith, s, a), omega (arith, s, a)))
    | inr e ↦ rw e (fill_up-count p nodes bs r.1)
  ]

  -- A predicate of the blocks at their nodes.
  fill_up-All :
      (P : ℕ → Block → Type 0) (nodes : List ℕ) (bs : List (List Block))
      → All (λ n. n < length bs) nodes
      → ((n : ℕ) → elem n nodes ≡ true → P n block)
      → ((n : ℕ) → All (P n) (bucket_at bs n))
      → (n : ℕ) → All (P n) (bucket_at (filled_up nodes bs) n)
  unfolding fill_up
  fill_up-All P [] bs r f t = t
  fill_up-All P (m ∷ nodes) bs r f t =
      elim (Bool-cases (ltb (length (bucket_at bs m)) bucket_size)) [
        | inl e ↦ rw e (λ n. elim (Bool-cases (m == n)) [
          | inl same ↦
              let e' : m ≡ n = ground arith in
              rw (← e', bucket_at-set_self bs m (bucket_at bs m ++ block ∷ []) r.0)
                (All-append (P m) (bucket_at bs m) (block ∷ []) (t m) (f m (ground arith), tt))
          | inr apart ↦ rw (bucket_at-set bs m n (bucket_at bs m ++ block ∷ []) apart) (t n)
        ])
        | inr e ↦ rw e (fill_up-All P nodes bs r.1 (λ n k. f n (ground arith)) t)
      ]

  -- Filling respects the bucket size.
  fill_up-capacity :
      (nodes : List ℕ) (bs : List (List Block))
      → ((n : ℕ) → length (bucket_at bs n) ≤ bucket_size)
      → (n : ℕ) → length (bucket_at (filled_up nodes bs) n) ≤ bucket_size
  unfolding fill_up
  fill_up-capacity [] bs t = t
  fill_up-capacity (m ∷ nodes) bs t =
      elim (Bool-cases (ltb (length (bucket_at bs m)) bucket_size)) [
        | inl e ↦ rw e (grow e)
        | inr e ↦ rw e (fill_up-capacity nodes bs t)
      ]
    where
      grow :
          ltb (length (bucket_at bs m)) bucket_size ≡ true
          → (n : ℕ) → length (bucket_at (set bs m (bucket_at bs m ++ block ∷ [])) n) ≤ bucket_size
      grow e n = elim (Bool-cases (m == n)) [
        | inr apart ↦ rw (bucket_at-set bs m n (bucket_at bs m ++ block ∷ []) apart) (t n)
        | inl same ↦ elim (Bool-cases (ltb m (length bs))) [
          | inl inside ↦
              let e' : m ≡ n = ground arith in
              rw
                (
                  ← e',
                  bucket_at-set_self bs m (bucket_at bs m ++ block ∷ []) (ground arith),
                  length-append,
                )
                (ground arith)
          | inr outside ↦ rw (set_outside bs m (bucket_at bs m ++ block ∷ []) (ground arith)) (t n)
        ]
      ]

module _ (h : ℕ) where
  -- The nodes that `fill_data_to_leaf` tries, deepest first.
  tried_nodes :
      (s : Storage) (leaf : ℤ)
      → s.leaf_range ≡ 2 ^ h
      → reverse (get_path_indices s leaf) ≡ nodes_up (leaf_node (2 ^ h) leaf)
  unfolding get_path_indices
  tried_nodes s leaf e = rw e (reverse-reverse (nodes_up (leaf_node (2 ^ h) leaf)))

  -- One more block: what each node may hold, and how many blocks pass a test.
  pub record Loaded (P : ℕ → Block → Type 0) (s s' : Storage) (blocks : List Block) : Type 0 where
    pub shape : IsShaped h s'
    pub same_size : s'.bucket_size ≡ s.bucket_size
    pub nodes : (n : ℕ) → All (P n) (bucket_at s'.buckets n)
    pub kept : (p : Block → Bool) → tree_count p s.buckets ≤ tree_count p s'.buckets
    pub added :
        (p : Block → Bool) → tree_count p s'.buckets ≤ tree_count p s.buckets + countb p blocks
    pub capacity :
        ((n : ℕ) → length (bucket_at s.buckets n) ≤ s.bucket_size)
        → (n : ℕ) → length (bucket_at s'.buckets n) ≤ s.bucket_size

  -- A block that may stand at any node of the path of its leaf.
  abbrev pub Loadable : (ℕ → Block → Type 0) → Block → Type 0
  Loadable P b =
      IsLeaf h b.leaf × ((n : ℕ) → is_ancestor (leaf_node (2 ^ h) b.leaf) n ≡ true → P n b)

  fill_data_to_leaf-Loaded :
      (P : ℕ → Block → Type 0) (s : Storage) (b : Block)
      → IsShaped h s
      → ((n : ℕ) → All (P n) (bucket_at s.buckets n))
      → Loadable P b
      → Loaded P s (fill_data_to_leaf s b) (b ∷ [])
  unfolding fill_data_to_leaf countb
  fill_data_to_leaf-Loaded P s b shape t l =
      let up = nodes_up (leaf_node (2 ^ h) b.leaf) in
      let range : All (λ n. n < length s.buckets) up = rw shape.size (nodes_up-lt h b.leaf l.0) in
      rw (tried_nodes s b.leaf shape.leaves) (record {
        shape = record {
          levels = shape.levels;
          leaves = shape.leaves;
          size = length-fill_up s.bucket_size b up s.buckets ∙ shape.size;
        };
        same_size = refl;
        nodes =
            fill_up-All s.bucket_size b P up s.buckets range
              (λ n e. l.1 n (is_ancestor-elem (leaf_node (2 ^ h) b.leaf) n ∙ e)) t;
        kept = λ p. (fill_up-count s.bucket_size b p up s.buckets range).0;
        added = λ p. omega (arith, (fill_up-count s.bucket_size b p up s.buckets range).1);
        capacity = fill_up-capacity s.bucket_size b up s.buckets;
      })

  -- The loop of `bulk_load` over its blocks.
  pub fill_all-Loaded :
      (P : ℕ → Block → Type 0) (s : Storage) (blocks : List Block)
      → IsShaped h s
      → ((n : ℕ) → All (P n) (bucket_at s.buckets n))
      → All (Loadable P) blocks
      → Loaded P s (fill_all s blocks) blocks
  unfolding fill_all countb
  fill_all-Loaded P s [] shape t l = record {
    shape = shape;
    same_size = refl;
    nodes = t;
    kept = λ p. omega arith;
    added = λ p. omega arith;
    capacity = λ c. c;
  }
  fill_all-Loaded P s (b ∷ blocks) shape t l =
      let one = fill_data_to_leaf-Loaded P s b shape t l.0 in
      let rest = fill_all-Loaded P (fill_data_to_leaf s b) blocks one.shape one.nodes l.1 in
      record {
        shape = rest.shape;
        same_size = rest.same_size ∙ one.same_size;
        nodes = rest.nodes;
        kept = λ p. omega (arith, one.kept p, rest.kept p);
        added = λ p. unfold countb in omega (arith, one.added p, rest.added p);
        capacity = λ c n. omega (
          arith,
          one.same_size,
          rest.capacity (λ i. omega (arith, one.same_size, one.capacity c i)) n,
        );
      }

  abbrev pub BelowNode : ℕ → Block → Type 0
  BelowNode n b = is_ancestor (leaf_node (2 ^ h) b.leaf) n ≡ true

  All-Loadable :
      (blocks : List Block) → All (λ b. IsLeaf h b.leaf) blocks → All (Loadable BelowNode) blocks
  All-Loadable blocks v =
      All-map (λ b. IsLeaf h b.leaf) (Loadable BelowNode) (λ b l. (l, λ n a. a)) blocks v

  -- In a tree of height `h` whose buckets are within the bucket size and hold only blocks whose leaf
  -- is below them, `bulk_load` of blocks with valid leaves keeps both, at every node. For every test
  -- of blocks, the tree afterwards has at least as many blocks that pass as before, and at most as
  -- many more as the list has.
  pub bulk_load-places :
      (s : Storage) (blocks : List Block)
      → IsShaped h s
      → ((n : ℕ) → length (bucket_at s.buckets n) ≤ s.bucket_size)
      → ((n : ℕ) → All (BelowNode n) (bucket_at s.buckets n))
      → All (λ b. IsLeaf h b.leaf) blocks
      → (n : ℕ) (p : Block → Bool)
      → let s' = (bulk_load s blocks).0 in
        (length (bucket_at s'.buckets n) ≤ s.bucket_size)
        × All (BelowNode n) (bucket_at s'.buckets n)
        × (tree_count p s.buckets ≤ tree_count p s'.buckets)
        × (tree_count p s'.buckets ≤ tree_count p s.buckets + countb p blocks)
  unfolding bulk_load
  bulk_load-places s blocks shape fits below v n p =
      let l = fill_all-Loaded BelowNode s blocks shape below (All-Loadable blocks v) in
      (l.capacity fits n, l.nodes n, l.kept p, l.added p)
