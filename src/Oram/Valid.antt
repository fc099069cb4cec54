-- ===== src/Oram/Valid.antt =====
-- The invariant of `PathORAM`: what the state holds for a table of values by key.
use tiered_omap.Prelude.{
  ℕ, suc, ◌+◌, ◌-◌, ◌^◌, ◌≡◌, refl, ap, ◌∙◌, Bool, true, false, Option, none, some, List, [], ◌∷◌,
  ◌++◌, ℤ, ◌==ℤ◌, All, All-append, All-map, All-perm, countb, countb-append, to_nat, arith,
}
use native.Mathlib.Nat.{one-le-pow}
use tiered_omap.Common.{Host, Bytes, Block, invalid_key, BandwidthStats, ok, ◌>>=◌}
use tiered_omap.Storage.{
  leaf_node, is_ancestor, bucket_at, read_nodes, read_path, get_merged_path_indices,
}
use tiered_omap.Storage.Paths.{IsLeaf, IsShaped}
use tiered_omap.Storage.Fill.{path_count}
use tiered_omap.Storage.Write.{tree_count, path_count-perm, read_nodes-All}
use tiered_omap.Storage.OnePath.{path-merged}
use tiered_omap.Oram.{PathOram, find_leaf, apply_fetched_path, read_path_to_stash, random_leaf}
use tiered_omap.Oram.Crypt.{has_key}
use tiered_omap.Oram.Fetch.{
  Stored, Real, plain_blocks, fetched_blocks-plain, plain_blocks-Real, plain_blocks-count,
}

-- The abstract state: the value of each key.
abbrev pub Table : Type 0
Table = ℤ → Option Bytes

abbrev pub is_some {ℓ} : {A : Type ℓ} → Option A → Bool
is_some none = false
is_some (some _) = true

-- A plain block agrees with the table and with the position map.
abbrev pub Agrees : Table → List (ℤ × ℤ) → Block → Type 0
Agrees m pos_map b = (m b.key ≡ some b.value) × (find_leaf pos_map b.key ≡ some b.leaf)

abbrev pub Good : Table → List (ℤ × ℤ) → Block → Type 0
Good m pos_map = Real (Agrees m pos_map)

-- A good block stands on the path of its leaf.
abbrev pub OnPath : ℕ → Table → List (ℤ × ℤ) → ℕ → Block → Type 0
OnPath h m pos_map n b = Good m pos_map b × (is_ancestor (leaf_node (2 ^ h) b.leaf) n ≡ true)

-- How many blocks of the key the stash and the tree hold.
abbrev pub copies : ℤ → PathOram → ℕ
copies k o = countb (has_key k) o.stash + tree_count (has_key k) o.storage.buckets

-- The state holds the table `m`: one block for each key of it, in the stash or on the path of the
-- leaf that the position map gives, with the value of the table.
pub record Holds (h : ℕ) (host : Host) (m : Table) (o : PathOram) : Type 0 where
  pub shape : IsShaped h o.storage
  pub once : (k : ℤ) → (k ==ℤ invalid_key) ≡ false → copies k o ≡ to_nat (is_some (m k))
  pub no_invalid : m invalid_key ≡ none
  pub unmapped : (k : ℤ) → m k ≡ none → find_leaf o.pos_map k ≡ none
  pub mapped :
      (k : ℤ) (v : Bytes)
      → m k ≡ some v
      → (leaf : ℤ) × (find_leaf o.pos_map k ≡ some leaf) × IsLeaf h leaf
  pub in_stash : All (Good m o.pos_map) o.stash
  pub in_tree :
      (n : ℕ) → All (Stored host o.aes_key (OnPath h m o.pos_map n)) (bucket_at o.storage.buckets n)

-- A drawn leaf is a leaf.
pub random_leaf-IsLeaf :
    (h : ℕ) (host : Host) (o : PathOram) → IsShaped h o.storage → IsLeaf h (random_leaf host o)
unfolding random_leaf
random_leaf-IsLeaf h host o shape =
    let e : o.storage.leaf_range ≡ suc (2 ^ h - 1) =
      omega (arith, shape.leaves, one-le-pow h 2 (omega arith)) in
    rw e (
      host.draw o.draws (suc (2 ^ h - 1)),
      refl,
      omega (
        arith,
        host.draw_lt o.draws (suc (2 ^ h - 1)) (omega arith),
        one-le-pow h 2 (omega arith),
      ),
    )

module _ (h : ℕ) (host : Host) (m : Table) (o : PathOram) (v : Holds h host m o) where
  -- The state after the buckets of some nodes are fetched.
  abbrev pub fetched_state : List ℕ → PathOram
  fetched_state nodes = record o {
    stash =
        o.stash ++ plain_blocks host o.aes_key (host.order (read_nodes o.storage.buckets nodes));
  }

  read_nodes-Stored :
      (nodes : List ℕ)
      → All
          (λ entry. All (Stored host o.aes_key (Good m o.pos_map)) entry.1)
          (host.order (read_nodes o.storage.buckets nodes))
  read_nodes-Stored nodes =
      let weaken = λ (n : ℕ) (b : Block) (s : Stored host o.aes_key (OnPath h m o.pos_map n) b).
        let r : Stored host o.aes_key (Good m o.pos_map) b = (s.0, λ d. (s.1 d).0) in r in
      All-perm (λ entry. All (Stored host o.aes_key (Good m o.pos_map)) entry.1)
        (host.order_perm (read_nodes o.storage.buckets nodes))
        (read_nodes-All (λ n. All (Stored host o.aes_key (Good m o.pos_map))) o.storage.buckets
          nodes
          (λ n.
            All-map (Stored host o.aes_key (OnPath h m o.pos_map n))
              (Stored host o.aes_key (Good m o.pos_map)) (weaken n) (bucket_at o.storage.buckets n)
              (v.in_tree n)))

  -- Fetching throws nothing, whatever the position map and the counters are.
  pub apply_fetched_path-ok :
      (nodes : List ℕ) (pm : List (ℤ × ℤ)) (d : ℕ) (bw : BandwidthStats)
      → apply_fetched_path host
          (record o { pos_map = pm; last_bw = bw; draws = d })
          (read_nodes o.storage.buckets nodes)
        ≡ ok (record (fetched_state nodes) { pos_map = pm; last_bw = bw; draws = d })
  unfolding apply_fetched_path
  apply_fetched_path-ok nodes pm d bw = rw (
    fetched_blocks-plain host o.aes_key (Good m o.pos_map)
        (host.order (read_nodes o.storage.buckets nodes)) (read_nodes-Stored nodes),
    ◌>>=◌,
  )

  -- The fetched blocks are good, and those of a key are as many as the nodes hold.
  pub fetched-Good : (nodes : List ℕ) → All (Good m o.pos_map) (fetched_state nodes).stash
  fetched-Good nodes = All-append (Good m o.pos_map) o.stash _ v.in_stash (
      All-map (Real (Good m o.pos_map)) (Good m o.pos_map) (λ b r. r.1) _
        (plain_blocks-Real host o.aes_key (Good m o.pos_map) _ (read_nodes-Stored nodes)))

  pub fetched-count :
      (nodes : List ℕ) (k : ℤ)
      → (k ==ℤ invalid_key) ≡ false
      → countb (has_key k) (fetched_state nodes).stash
        ≡ countb (has_key k) o.stash + path_count (has_key k) (read_nodes o.storage.buckets nodes)
  fetched-count nodes k real =
      countb-append (has_key k) o.stash _
      ∙ ap (◌+◌ (countb (has_key k) o.stash)) (
          plain_blocks-count host o.aes_key k real _
          ∙ path_count-perm (has_key k) (host.order_perm (read_nodes o.storage.buckets nodes)))

  -- Reading one path fetches the merged indices of its leaf.
  pub read_path_to_stash-ok :
      (leaf : ℤ) (pm : List (ℤ × ℤ)) (d : ℕ) (bw : BandwidthStats)
      → IsLeaf h leaf
      → read_path_to_stash host (record o { pos_map = pm; last_bw = bw; draws = d }) leaf
        ≡ ok (record (fetched_state (get_merged_path_indices o.storage.level (leaf ∷ []))) {
          pos_map = pm;
          last_bw = bw;
          draws = d;
        })
  unfolding read_path_to_stash read_path
  read_path_to_stash-ok leaf pm d bw l =
      rw (path-merged h o.storage leaf v.shape.levels v.shape.leaves l)
        (apply_fetched_path-ok (get_merged_path_indices o.storage.level (leaf ∷ [])) pm d bw)
