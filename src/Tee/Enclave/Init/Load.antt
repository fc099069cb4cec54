-- ===== src/Tee/Enclave/Init/Load.antt =====
-- The second loop of `init`: each entry of the data adds its row to the table.
use native.Mathlib.Nat.{one-le-pow}
use tiered_omap.Prelude.{
  ℕ, suc, ◌+◌, ◌<◌, ◌≤◌, ◌^◌, ◌-◌, ◌≡◌, refl, sym, ap, ◌∙◌, subst, true, false, none, some, List,
  [], ◌∷◌, ℤ, ◌==ℤ◌, ==ℤ_iff, ==ℤ_comm, ==ℤ_refl, length, All, All-map, elem, to_nat, arith,
  Bool-cases, Option-cases, inl, inr,
}
use tiered_omap.Common.{Bytes, Block, invalid_key, pad_bytes}
use tiered_omap.Common.Codec.RoundTrip.{IsInt}
use tiered_omap.Storage.{bucket_at, leaf_node, nodes_up}
use tiered_omap.Storage.OnePath.{elem-All}
use tiered_omap.Storage.Paths.{IsLeaf, nodes_up-level_nodes}
use tiered_omap.Oram.{find_leaf}
use tiered_omap.Oram.Init.Leaves.{table_of, LeavesValid}
use tiered_omap.Oram.Init.Load.{ValidKeys}
use tiered_omap.Oram.Valid.{is_some}
use tiered_omap.Tee.Enclave.{EnclaveOram, path_nodes, path_contains_oblivious}
use tiered_omap.Tee.Enclave.Paths.{IsTree, path_nodes-level_nodes, path_contains_oblivious-elem}
use tiered_omap.Tee.Enclave.Init.{leaf_or_zero, leaf_of, place, place_all}
use tiered_omap.Tee.Enclave.Init.Rows.{with_entries, with_entries-cons}
use tiered_omap.Tee.Enclave.Init.Place.{place_lem}
use tiered_omap.Tee.Enclave.Eviction.{path_nodes-InTree}
use tiered_omap.Tee.Enclave.Refines.{IsLeaf-IsInt}
use tiered_omap.Tee.Enclave.Rows.{length-padded}
use tiered_omap.Tee.Enclave.Slots.{Entry, OnPath}
use tiered_omap.Tee.Enclave.Table.{LeafTable, assign, Agrees, Holds}

All-members : (Q : ℕ → Type 0) (ms : List ℕ) → ((n : ℕ) → elem n ms ≡ true → Q n) → All Q ms
All-members Q [] f = tt
All-members Q (m ∷ ms) f = (f m (ground arith), All-members Q ms (λ n e. f n (ground (arith, e))))

-- The nodes of a path that `init` walks are those of the tree, and the leaf's path passes them.
nodes_up-OnPath :
    (h : ℕ) (o : EnclaveOram) (block : Block)
    → IsTree h o
    → length o.tree ≡ 2 ^ suc h - 1
    → IsLeaf h block.leaf
    → All
        (λ n. (n < length o.tree) × OnPath o n block)
        (nodes_up (leaf_node o.leaf_range block.leaf))
nodes_up-OnPath h o block v e i =
    let same : nodes_up (leaf_node o.leaf_range block.leaf) ≡ path_nodes o block.leaf =
      ap (λ r. nodes_up (leaf_node r block.leaf)) v.leaves
      ∙ ap (λ l. nodes_up (leaf_node (2 ^ h) l)) i.1
      ∙ nodes_up-level_nodes h i.0 i.2
      ∙ sym (path_nodes-level_nodes h o block.leaf v i) in
    let range = path_nodes-InTree h o block.leaf v e i in
    rw same (
      All-members _ (path_nodes o block.leaf) (λ n m.
        let lt : n < length o.tree =
          elem-All (λ n. n < length o.tree) n (path_nodes o block.leaf) range m in
        (lt, λ _. path_contains_oblivious-elem h o block.leaf n v i (omega (arith, lt, e)) ∙ m)))

-- A new row: the other blocks keep theirs.
pub Agrees-assign :
    (h : ℕ) (m : LeafTable) (key : ℤ) (row : ℤ × Bytes) (b : Block)
    → m key ≡ none
    → Agrees h m b
    → Agrees h (assign m key row) b
Agrees-assign h m key row b new a d = elim (Bool-cases (b.key ==ℤ key)) [
  | inl e ↦
      let same : b.key ≡ key = (==ℤ_iff b.key key).0 e in
      absurd (let y = subst (λ k. m k ≡ some (b.leaf, b.value)) same (a d).0 in let z = new in cc)
  | inr e ↦ rw e (a d)
]

pub one_more :
    (m : LeafTable) (key : ℤ) (row : ℤ × Bytes) (k : ℤ)
    → m key ≡ none
    → to_nat (is_some (m k)) + to_nat (key ==ℤ k) ≡ to_nat (is_some (assign m key row k))
one_more m key row k new = elim (Bool-cases (key ==ℤ k)) [
  | inl e ↦
      let same : key ≡ k = (==ℤ_iff key k).0 e in
      let none_there : m k ≡ none = subst (λ j. m j ≡ none) same new in
      rw (==ℤ_comm k key, e, none_there) refl
  | inr e ↦ rw (==ℤ_comm k key, e) (omega arith)
]

-- Entries whose keys are integers and not the reserved one, each once, and whose values fit.
abbrev pub ValidEntries : ℕ → List (ℤ × Bytes) → Type 0
ValidEntries value_size entries =
    ValidKeys entries × All (λ entry. IsInt entry.0 × (length entry.1 ≤ value_size)) entries

module _ (h : ℕ) (o : EnclaveOram) where
  -- The tree and the stash hold a table, with no bound on the stash from below.
  abbrev pub HoldsAt : LeafTable → List (List Block) → List Block → Type 0
  HoldsAt m tree stash = Holds h (record o { stash_max = 0; tree = tree; stash = stash }) m

  abbrev pub HoldsBoth : LeafTable → List (List Block) × List Block → Type 0
  HoldsBoth m r = HoldsAt m r.0 r.1

  place_step :
      (m : LeafTable) (tree : List (List Block)) (stash : List Block) (block : Block)
      → HoldsAt m tree stash
      → m block.key ≡ none
      → (block.key ==ℤ invalid_key) ≡ false
      → IsInt block.key
      → IsLeaf h block.leaf
      → length block.value ≡ o.value_size
      → HoldsBoth
          (assign m block.key (block.leaf, block.value))
          (place block (nodes_up (leaf_node o.leaf_range block.leaf)) tree stash)
  unfolding path_contains_oblivious
  place_step m tree stash block v new rk ik il l =
      let o₁ : EnclaveOram = record o { stash_max = 0; tree = tree; stash = stash } in
      let m' = assign m block.key (block.leaf, block.value) in
      let grow : (b : Block)
          → Entry o.value_size (Agrees h m) b
          → Entry o.value_size (Agrees h m') b =
        λ b e. (e.0, Agrees-assign h m block.key (block.leaf, block.value) b new e.1) in
      let p =
        place_lem o₁ o.value_size (Agrees h m') block (nodes_up (leaf_node o.leaf_range block.leaf))
          tree stash
          (
            (l, ik, IsLeaf-IsInt h block.leaf v.shape.small il),
            λ d. (rw (==ℤ_refl block.key) refl, il),
          )
          (nodes_up-OnPath h o₁ block v.shape v.nodes il)
          (λ n.
            All-map (λ b. Entry o.value_size (Agrees h m) b × OnPath o₁ n b)
              (λ b. Entry o.value_size (Agrees h m') b × OnPath o₁ n b) (λ b e. (grow b e.0, e.1))
              (bucket_at tree n) (v.in_tree n))
          (All-map (Entry o.value_size (Agrees h m)) (Entry o.value_size (Agrees h m')) grow stash
            v.in_stash) in
      record {
        shape = record { levels = v.shape.levels; leaves = v.shape.leaves; small = v.shape.small };
        nodes = p.same_nodes ∙ v.nodes;
        in_stash = p.entries;
        in_tree = p.buckets;
        once = λ k k_real. omega (
          arith,
          p.count k k_real,
          v.once k k_real,
          one_more m block.key (block.leaf, block.value) k new,
        );
        room = omega arith;
      }

  leaf_of-IsLeaf :
      (leaf_map : List (ℤ × ℤ)) (key : ℤ) → LeavesValid h leaf_map → IsLeaf h (leaf_of leaf_map key)
  unfolding leaf_of
  leaf_of-IsLeaf leaf_map key v = elim (Option-cases (find_leaf leaf_map key)) [
    | inl n ↦ subst (λ r. IsLeaf h (leaf_or_zero r)) (sym n) (0, refl, one-le-pow h 2 (omega arith))
    | inr (leaf, e) ↦ subst (λ r. IsLeaf h (leaf_or_zero r)) (sym e) (v key leaf e)
  ]

  still_new :
      (m : LeafTable) (key : ℤ) (row : ℤ × Bytes) (entries : List (ℤ × Bytes))
      → All (λ entry. (key ==ℤ entry.0) ≡ false) entries
      → All (λ entry. m entry.0 ≡ none) entries
      → All (λ entry. assign m key row entry.0 ≡ none) entries
  still_new m key row [] a n = tt
  still_new m key row (e ∷ entries) a n =
      (rw (==ℤ_comm e.0 key, a.0) n.0, still_new m key row entries a.1 n.1)

  pub place_all_lem :
      (leaf_map : List (ℤ × ℤ)) (entries : List (ℤ × Bytes)) (m : LeafTable)
      (tree : List (List Block)) (stash : List Block)
      → LeavesValid h leaf_map
      → ValidEntries o.value_size entries
      → All (λ entry. m entry.0 ≡ none) entries
      → HoldsAt m tree stash
      → HoldsBoth
          (with_entries o.value_size leaf_map entries m)
          (place_all o leaf_map entries tree stash)
  unfolding place_all table_of
  place_all_lem leaf_map [] m tree stash lv ev n v = v
  place_all_lem leaf_map ((key, value) ∷ entries) m tree stash lv ev n v =
      let leaf = leaf_of leaf_map key in
      let padded = pad_bytes value o.value_size in
      let block : Block = record { key = key; leaf = leaf; value = padded } in
      let one =
        place_step m tree stash block v n.0 ev.0.0 ev.1.0.0 (leaf_of-IsLeaf leaf_map key lv)
          (length-padded o.value_size (some value) ev.1.0.1) in
      let placed = place block (nodes_up (leaf_node o.leaf_range leaf)) tree stash in
      rw (with_entries-cons o.value_size leaf_map key value entries m ev.0) (
        place_all_lem leaf_map entries (assign m key (leaf, padded)) placed.0 placed.1 lv
          (ev.0.2, ev.1.1) (still_new m key (leaf, padded) entries ev.0.1 n.1) one)
