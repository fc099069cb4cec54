-- ===== src/Oram/Evict.antt =====
-- The eviction of `PathORAM`: filling the stash into the merged paths, encrypting and writing back.
use tiered_omap.Prelude.{
  ℕ, ◌+◌, ◌-◌, ◌^◌, ◌<◌, ◌≡◌, refl, sym, ap, ◌∙◌, Bool, true, false, List, [], ◌∷◌, ℤ, ltb,
  if◌then◌else◌, length, ◌==◌, All, All-perm, countb, elem, arith, Bool-cases, inl, inr,
}
use tiered_omap.Common.{Host, Bytes, Block, ok, throw, ◌>>=◌, stash_overflow}
use tiered_omap.Storage.{
  PathData, nodes_of, leaf_node, is_ancestor, fill_block_to_path, get_merged_path_indices,
  bucket_at, read_nodes, write_multiple_paths,
}
use tiered_omap.Storage.Paths.{IsLeaf, IsShaped}
use tiered_omap.Storage.Merged.{Ascending, merged-on_paths, on_paths}
use tiered_omap.Storage.Fill.{path_count, PathAll, path_count-fill, nodes_of-fill, PathAll-fill}
use tiered_omap.Storage.Write.{
  tree_count, Distinct, InRange, length-write_nodes, write_nodes-bucket, tree_count-write_nodes,
  path_count-perm, Distinct-perm, elem-perm, read_nodes-perm, Ascending-Distinct, nodes-InRange,
}
use tiered_omap.Oram.{
  PathOram, empty_path, fill_from_stash, encrypt_bucket, encrypt_path, encrypted, write_back,
  evict_stash,
}
use tiered_omap.Oram.Crypt.{has_key}
use tiered_omap.Oram.Fetch.{Stored, encrypt_path-Stored, encrypt_path-count, nodes_of-encrypt_path}

module _ (level bucket_size : ℕ) where
  abbrev after : List Block → PathData → PathData × List Block
  after = fill_from_stash level bucket_size

  -- Filling moves blocks from the stash to the path and loses none.
  pub fill_from_stash-count :
      (p : Block → Bool) (stash : List Block) (path : PathData)
      → path_count p (after stash path).0 + countb p (after stash path).1
        ≡ path_count p path + countb p stash
  unfolding fill_from_stash countb
  fill_from_stash-count p [] path = refl
  fill_from_stash-count p (b ∷ stash) path =
      let f = fill_block_to_path b path level bucket_size in
      let ih = fill_from_stash-count p stash f.0 in
      let c = path_count-fill b path level bucket_size p in
      elim (Bool-cases f.1) [
        | inl e ↦ rw e (omega (arith, ih, rw e at c))
        | inr e ↦ rw e (unfold countb in omega (arith, ih, rw e at c))
      ]

  pub nodes_of-fill_from_stash :
      (stash : List Block) (path : PathData) → nodes_of (after stash path).0 ≡ nodes_of path
  unfolding fill_from_stash
  nodes_of-fill_from_stash [] path = refl
  nodes_of-fill_from_stash (b ∷ stash) path =
      nodes_of-fill_from_stash stash (fill_block_to_path b path level bucket_size).0
      ∙ nodes_of-fill b path level bucket_size

  abbrev target_of : Block → ℤ
  target_of b = leaf_node (2 ^ (level - 1)) b.leaf

  pub fill_from_stash-PathAll :
      (Q : Block → Type 0) (P : ℕ → Block → Type 0)
      → ((n : ℕ) (b : Block) → Q b → is_ancestor (target_of b) n ≡ true → P n b)
      → (stash : List Block) (path : PathData) → All Q stash
      → PathAll P path
      → PathAll P (after stash path).0
  unfolding fill_from_stash
  fill_from_stash-PathAll Q P f [] path q h = h
  fill_from_stash-PathAll Q P f (b ∷ stash) path q h =
      fill_from_stash-PathAll Q P f stash _ q.1
        (PathAll-fill b path level bucket_size P (λ n. f n b q.0) h)

  pub fill_from_stash-All :
      (Q : Block → Type 0) (stash : List Block) (path : PathData)
      → All Q stash
      → All Q (after stash path).1
  unfolding fill_from_stash
  fill_from_stash-All Q [] path q = tt
  fill_from_stash-All Q (b ∷ stash) path q =
      let f = fill_block_to_path b path level bucket_size in
      let ih = fill_from_stash-All Q stash f.0 q.1 in
      elim (Bool-cases f.1) [ inl e ↦ rw e ih | inr e ↦ rw e (q.0, ih) ]

nodes_of-empty_path : (nodes : List ℕ) → nodes_of (empty_path nodes) ≡ nodes
nodes_of-empty_path [] = refl
nodes_of-empty_path (n ∷ nodes) = ap (◌∷◌ n) (nodes_of-empty_path nodes)

path_count-empty_path : (p : Block → Bool) (nodes : List ℕ) → path_count p (empty_path nodes) ≡ 0
unfolding path_count countb
path_count-empty_path p [] = refl
path_count-empty_path p (n ∷ nodes) = omega (arith, path_count-empty_path p nodes)

PathAll-empty_path : (P : ℕ → Block → Type 0) (nodes : List ℕ) → PathAll P (empty_path nodes)
PathAll-empty_path P [] = tt
PathAll-empty_path P (n ∷ nodes) = (tt, PathAll-empty_path P nodes)

module _ (host : Host) (key : Bytes) where
  encrypt_path-nodes :
      (P : ℕ → Type 0) (n : ℕ) (path : PathData)
      → All (λ entry. P entry.0) path
      → All (λ entry. P entry.0) (encrypt_path host key n path).0
  unfolding encrypt_path
  encrypt_path-nodes P n [] a = tt
  encrypt_path-nodes P n ((node, bucket) ∷ path) a =
      (a.0, encrypt_path-nodes P (encrypt_bucket host key n bucket).1 path a.1)

  encrypt_path-Distinct :
      (n : ℕ) (path : PathData) → Distinct path → Distinct (encrypt_path host key n path).0
  unfolding encrypt_path
  encrypt_path-Distinct n [] d = tt
  encrypt_path-Distinct n ((node, bucket) ∷ path) d = (
    encrypt_path-nodes (λ m. (node == m) ≡ false) (encrypt_bucket host key n bucket).1 path d.0,
    encrypt_path-Distinct (encrypt_bucket host key n bucket).1 path d.1,
  )

module _ (host : Host) (o : PathOram) (leaves : List ℤ) where
  abbrev pub indices : List ℕ
  indices = get_merged_path_indices o.storage.level leaves

  abbrev filled : PathData × List Block
  filled = fill_from_stash o.storage.level o.bucket_size o.stash (empty_path indices)

  -- The blocks that find no place on the paths.
  abbrev pub remaining : List Block
  remaining = filled.1

  abbrev sealed_path : PathData
  sealed_path = (encrypt_path host o.aes_key o.draws (host.order filled.0)).0

  -- The state after an eviction that does not overflow the stash.
  unfoldable pub evicted : PathOram
  unfolding encrypted write_back
  evicted = write_back (encrypted host (record o { stash = remaining }) (host.order filled.0))

  -- An eviction throws exactly if too many blocks remain.
  pub evict_stash-evicted :
      evict_stash host o leaves
      ≡ (if ltb o.stash_max_size (length remaining) then throw stash_overflow else ok evicted)
  unfolding evict_stash evicted
  evict_stash-evicted = elim (Bool-cases (ltb o.stash_max_size (length remaining))) [
    | inl e ↦ rw (e, ◌>>=◌)
    | inr e ↦ rw (e, ◌>>=◌)
  ]

  sealed_nodes : (n : ℕ) → elem n (nodes_of sealed_path) ≡ elem n indices
  sealed_nodes n =
      let same =
        nodes_of-fill_from_stash o.storage.level o.bucket_size o.stash (empty_path indices) in
      rw (nodes_of-encrypt_path host o.aes_key o.draws (host.order filled.0))
        (elem-perm n (host.order_perm filled.0) ∙ ap (elem n) (same ∙ nodes_of-empty_path indices))

  module _ (h : ℕ) (shape : IsShaped h o.storage) (valid : All (IsLeaf h) leaves) where
    pub indices-Ascending : Ascending indices
    indices-Ascending = rw shape.levels (merged-on_paths h leaves valid).1

    pub indices-lt : All (λ m. m < length o.storage.buckets) indices
    indices-lt = rw (shape.levels, shape.size) (merged-on_paths h leaves valid).2

    pub indices-on_paths : (n : ℕ) → elem n indices ≡ on_paths (2 ^ h) leaves n
    indices-on_paths n = rw shape.levels ((merged-on_paths h leaves valid).0 n)

    filled_nodes : nodes_of filled.0 ≡ indices
    filled_nodes =
        nodes_of-fill_from_stash o.storage.level o.bucket_size o.stash (empty_path indices)
        ∙ nodes_of-empty_path indices

    sealed_Distinct : Distinct sealed_path
    sealed_Distinct = encrypt_path-Distinct host o.aes_key o.draws (host.order filled.0) (
        Distinct-perm (host.order_perm filled.0)
          (Ascending-Distinct filled.0 (rw filled_nodes indices-Ascending)))

    sealed_InRange : InRange o.storage.buckets sealed_path
    sealed_InRange =
        encrypt_path-nodes host o.aes_key (λ m. m < length o.storage.buckets) o.draws _
          (All-perm (λ entry. entry.0 < length o.storage.buckets) (host.order_perm filled.0)
            (nodes-InRange o.storage.buckets filled.0 (rw filled_nodes indices-lt)))

    sealed_reads :
        (p : Block → Bool)
        → path_count p (read_nodes o.storage.buckets (nodes_of sealed_path))
          ≡ path_count p (read_nodes o.storage.buckets indices)
    sealed_reads p =
        ap (λ nodes. path_count p (read_nodes o.storage.buckets nodes))
          (nodes_of-encrypt_path host o.aes_key o.draws (host.order filled.0))
        ∙ read_nodes-perm p o.storage.buckets (host.order_perm filled.0)
        ∙ ap (λ nodes. path_count p (read_nodes o.storage.buckets nodes)) filled_nodes

    -- Per key, the stash and the tree after an eviction hold what they held before, less the
    -- buckets of the paths, which the caller has fetched into the stash.
    pub evicted-count :
        (k : ℤ)
        → countb (has_key k) evicted.stash
            + tree_count (has_key k) evicted.storage.buckets
            + path_count (has_key k) (read_nodes o.storage.buckets indices)
          ≡ countb (has_key k) o.stash + tree_count (has_key k) o.storage.buckets
    unfolding evicted write_multiple_paths
    evicted-count k =
        let p = has_key k in
        let w =
          tree_count-write_nodes p o.storage.buckets sealed_path sealed_InRange sealed_Distinct in
        let c = encrypt_path-count host o.aes_key k o.draws (host.order filled.0) in
        let q = path_count-perm p (host.order_perm filled.0) in
        let f =
          fill_from_stash-count o.storage.level o.bucket_size p o.stash (empty_path indices) in
        omega (arith, w, c, q, f, sealed_reads p, path_count-empty_path p indices)

    -- What holds of the stash holds of the blocks that remain in it.
    pub evicted-stash : (Q : Block → Type 0) → All Q o.stash → All Q evicted.stash
    unfolding evicted
    evicted-stash Q q =
        fill_from_stash-All o.storage.level o.bucket_size Q o.stash (empty_path indices) q

    -- After an eviction each node of the paths holds blocks from the stash whose leaf is below it;
    -- the other nodes are as they were.
    pub evicted-bucket :
        (Q : Block → Type 0)
        → let P = λ (n : ℕ) (b : Block). Q b × (is_ancestor (leaf_node (2 ^ h) b.leaf) n ≡ true) in
          All Q o.stash
          → ((n : ℕ)
              → elem n indices ≡ false
              → All (Stored host o.aes_key (P n)) (bucket_at o.storage.buckets n))
          → (n : ℕ) → All (Stored host o.aes_key (P n)) (bucket_at evicted.storage.buckets n)
    unfolding evicted write_multiple_paths
    evicted-bucket Q q off =
        let P = λ (n : ℕ) (b : Block). Q b × (is_ancestor (leaf_node (2 ^ h) b.leaf) n ≡ true) in
        let e : o.storage.level - 1 ≡ h = omega (arith, shape.levels) in
        let f =
          fill_from_stash-PathAll o.storage.level o.bucket_size Q P (λ n b k a. (k, rw e at a))
            o.stash (empty_path indices) q (PathAll-empty_path P indices) in
        write_nodes-bucket (λ n bucket. All (Stored host o.aes_key (P n)) bucket) o.storage.buckets
          sealed_path sealed_InRange (λ n out. off n (sym (sealed_nodes n) ∙ out))
          (encrypt_path-Stored host o.aes_key P o.draws (host.order filled.0)
            (All-perm (λ entry. All (P entry.0) entry.1) (host.order_perm filled.0) f))

    pub evicted-IsShaped : IsShaped h evicted.storage
    unfolding evicted write_multiple_paths
    evicted-IsShaped = record {
      levels = shape.levels;
      leaves = shape.leaves;
      size = length-write_nodes o.storage.buckets sealed_path ∙ shape.size;
    }
