-- ===== src/Tee/Enclave/Nodes.antt =====
-- The nodes of a path, one after the other: `read_buckets` moves their blocks to the stash, and
-- `fill_nodes` moves blocks of the stash into their empty slots.
use tiered_omap.Prelude.{
  ℕ, ◌+◌, ◌<◌, ◌≤◌, ◌≡◌, refl, true, false, List, [], ◌∷◌, ◌++◌, map, ℤ, ◌==ℤ◌, ◌==◌, length,
  length-set, length-append, length-replicate, set, All, All-append, All-map, countb, countb-append,
  elem, arith, Bool-cases, inl, inr, ◌∙◌,
}
use tiered_omap.Common.{Block, invalid_key, is_dummy}
use tiered_omap.Storage.{bucket_at}
use tiered_omap.Storage.Write.{tree_count, tree_count-set, bucket_at-set, bucket_at-set_self}
use tiered_omap.Oram.Crypt.{has_key}
use tiered_omap.Tee.Enclave.{EnclaveOram, zero_block, read_buckets}
use tiered_omap.Tee.Enclave.Evict.{fill_bucket, fill_nodes}
use tiered_omap.Tee.Enclave.Slots.{
  cleared, dummy-has_key, Entry, OnPath, fill_bucket_lem, length-fill_bucket,
}

-- No node stands twice in the list.
abbrev pub Apart : List ℕ → Type 0
Apart [] = Unit
Apart (node ∷ nodes) = All (λ m. (node == m) ≡ false) nodes × Apart nodes

abbrev pub InTree : List (List Block) → List ℕ → Type 0
InTree tree = All (λ m. m < length tree)

-- The buckets of the nodes have no real block.
abbrev pub Empty : List (List Block) → List ℕ → Type 0
Empty tree = All (λ m. All (λ b. is_dummy b ≡ true) (bucket_at tree m))

InTree-set :
    (tree : List (List Block)) (node : ℕ) (bucket : List Block) (nodes : List ℕ)
    → InTree tree nodes
    → InTree (set tree node bucket) nodes
InTree-set tree node bucket nodes h = rw (length-set tree node bucket) h

Empty-set :
    (tree : List (List Block)) (node : ℕ) (bucket : List Block) (nodes : List ℕ)
    → All (λ m. (node == m) ≡ false) nodes
    → Empty tree nodes
    → Empty (set tree node bucket) nodes
Empty-set tree node bucket [] a h = tt
Empty-set tree node bucket (m ∷ nodes) a h =
    (rw (bucket_at-set tree node m bucket a.0) h.0, Empty-set tree node bucket nodes a.1 h.1)

countb-dummies :
    (k : ℤ) (bs : List Block)
    → (k ==ℤ invalid_key) ≡ false
    → All (λ b. is_dummy b ≡ true) bs
    → countb (has_key k) bs ≡ 0
unfolding countb
countb-dummies k [] rk d = refl
countb-dummies k (b ∷ bs) rk d = rw (dummy-has_key k b rk d.0, countb-dummies k bs rk d.1) refl

pub length-fill_nodes :
    (o : EnclaveOram) (nodes : List ℕ) (tree : List (List Block)) (stash : List Block)
    → length (fill_nodes o nodes tree stash).1 ≡ length stash
unfolding fill_nodes
length-fill_nodes o [] tree stash = refl
length-fill_nodes o (node ∷ nodes) tree stash =
    length-fill_nodes o nodes _ _ ∙ length-fill_bucket o node (bucket_at tree node) stash

module _ (o : EnclaveOram) (value_size : ℕ) (P : Block → Type 0) where
  abbrev pub InBucket : ℕ → List Block → Type 0
  InBucket n = All (λ b. Entry value_size P b × OnPath o n b)

  pub InBucket-set :
      (tree : List (List Block)) (node : ℕ) (bucket : List Block)
      → node < length tree
      → ((n : ℕ) → InBucket n (bucket_at tree n))
      → InBucket node bucket
      → (n : ℕ) → InBucket n (bucket_at (set tree node bucket) n)
  InBucket-set tree node bucket r t b n = elim (Bool-cases (node == n)) [
    | inl e ↦ let e' : node ≡ n = ground arith in rw (← e', bucket_at-set_self tree node bucket r) b
    | inr e ↦ rw (bucket_at-set tree node n bucket e) (t n)
  ]

  -- What a tree and a stash became when blocks moved between them.
  pub record Moved (tree : List (List Block)) (stash : List Block) (tree' : List (List Block))
      (stash' : List Block) : Type 0 where
    pub buckets : (n : ℕ) → InBucket n (bucket_at tree' n)
    pub entries : All (Entry value_size P) stash'
    pub count :
        (k : ℤ)
        → (k ==ℤ invalid_key) ≡ false
        → tree_count (has_key k) tree' + countb (has_key k) stash'
          ≡ tree_count (has_key k) tree + countb (has_key k) stash
    pub same_nodes : length tree' ≡ length tree

  pub fill_nodes_lem :
      (nodes : List ℕ) (tree : List (List Block)) (stash : List Block)
      → ((b : Block) → P b → P (cleared b))
      → Apart nodes
      → InTree tree nodes
      → Empty tree nodes
      → ((n : ℕ) → InBucket n (bucket_at tree n))
      → All (Entry value_size P) stash
      → Moved tree stash (fill_nodes o nodes tree stash).0 (fill_nodes o nodes tree stash).1
  unfolding fill_nodes
  fill_nodes_lem [] tree stash c a r d t h = record {
    buckets = t;
    entries = h;
    count = λ k rk. refl;
    same_nodes = refl;
  }
  fill_nodes_lem (node ∷ nodes) tree stash c a r d t h =
      let old = bucket_at tree node in
      let new = fill_bucket o node old stash in
      let one =
        fill_bucket_lem o node value_size P old stash c d.0
          (All-map (λ b. Entry value_size P b × OnPath o node b) (Entry value_size P) (λ b e. e.0)
            old (t node))
          h in
      let rest =
        fill_nodes_lem nodes (set tree node new.0) new.1 c a.1
          (InTree-set tree node new.0 nodes r.1) (Empty-set tree node new.0 nodes a.0 d.1)
          (InBucket-set tree node new.0 r.0 t one.entry) one.entries in
      record {
        buckets = rest.buckets;
        entries = rest.entries;
        count = λ k rk. omega (
          arith,
          one.count k rk,
          rest.count k rk,
          tree_count-set (has_key k) tree node new.0 r.0,
          countb-dummies k old rk d.0,
        );
        same_nodes = rest.same_nodes ∙ length-set tree node new.0;
      }

apart-elem :
    (node : ℕ) (nodes : List ℕ) → All (λ m. (node == m) ≡ false) nodes → elem node nodes ≡ false
apart-elem node [] a = refl
apart-elem node (m ∷ nodes) a = ground (arith, a.0, apart-elem node nodes a.1)

module _ (o : EnclaveOram) (value_size : ℕ) (P : Block → Type 0) where
  -- What a tree and a stash became when the blocks of some nodes moved to the stash.
  pub record Read (nodes : List ℕ) (tree : List (List Block)) (stash : List Block)
      (tree' : List (List Block)) (stash' : List Block) : Type 0 where
    pub moved : Moved o value_size P tree stash tree' stash'
    pub empty : Empty tree' nodes
    pub others : (n : ℕ) → elem n nodes ≡ false → bucket_at tree' n ≡ bucket_at tree n
    pub longer : length stash ≤ length stash'

  zeros-dummies :
      (bs : List Block) → All (λ b. is_dummy b ≡ true) (map (λ _. zero_block value_size) bs)
  zeros-dummies [] = tt
  zeros-dummies (b ∷ bs) = (refl, zeros-dummies bs)

  zeros-InBucket :
      (node : ℕ) (bs : List Block)
      → P (zero_block value_size)
      → InBucket o value_size P node (map (λ _. zero_block value_size) bs)
  zeros-InBucket node [] z = tt
  zeros-InBucket node (b ∷ bs) z = (
    (
      ((length-replicate value_size 0, omega arith, omega arith), z),
      λ r. absurd (ground (arith, r)),
    ),
    zeros-InBucket node bs z,
  )

  pub read_buckets_lem :
      (nodes : List ℕ) (tree : List (List Block)) (stash : List Block)
      → P (zero_block value_size)
      → Apart nodes
      → InTree tree nodes
      → ((n : ℕ) → InBucket o value_size P n (bucket_at tree n))
      → All (Entry value_size P) stash
      → Read nodes tree stash
          (read_buckets value_size nodes tree stash).0
          (read_buckets value_size nodes tree stash).1
  unfolding read_buckets
  read_buckets_lem [] tree stash z a r t h = record {
    moved = record { buckets = t; entries = h; count = λ k rk. refl; same_nodes = refl };
    empty = tt;
    others = λ n e. refl;
    longer = omega arith;
  }
  read_buckets_lem (node ∷ nodes) tree stash z a r t h =
      let old = bucket_at tree node in
      let new = map (λ (_ : Block). zero_block value_size) old in
      let entries =
        All-map (λ b. Entry value_size P b × OnPath o node b) (Entry value_size P) (λ b e. e.0) old
          (t node) in
      let rest =
        read_buckets_lem nodes (set tree node new) (stash ++ old) z a.1
          (InTree-set tree node new nodes r.1)
          (InBucket-set o value_size P tree node new r.0 t (zeros-InBucket node old z))
          (All-append (Entry value_size P) stash old h entries) in
      let here =
        rest.others node (apart-elem node nodes a.0) ∙ bucket_at-set_self tree node new r.0 in
      record {
        moved = record {
          buckets = rest.moved.buckets;
          entries = rest.moved.entries;
          count = λ k rk. omega (
            arith,
            rest.moved.count k rk,
            tree_count-set (has_key k) tree node new r.0,
            countb-dummies k new rk (zeros-dummies old),
            countb-append (has_key k) stash old,
          );
          same_nodes = rest.moved.same_nodes ∙ length-set tree node new;
        };
        empty = (rw here (zeros-dummies old), rest.empty);
        others = λ n e.
            rest.others n (ground (arith, e)) ∙ bucket_at-set tree node n new (ground (arith, e));
        longer = omega (arith, rest.longer, length-append stash old);
      }
