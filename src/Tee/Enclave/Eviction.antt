-- ===== src/Tee/Enclave/Eviction.antt =====
-- `EnclaveOram::evict_path` from a state whose path is empty: no entry of the table is lost.
use native.Mathlib.Nat.{pow-suc}
use tiered_omap.Prelude.{
  ℕ, zero, suc, ◌+◌, ◌-◌, ◌/◌, ◌^◌, ◌≤◌, ◌<◌, ◌≡◌, refl, sym, ◌∙◌, false, List, ℤ, ◌==◌, length,
  All-map, countb, arith, Bool-cases, inl, inr, ltb,
}
use tiered_omap.Common.{Block, Yields}
use tiered_omap.Storage.Paths.{IsLeaf, level_nodes, level_nodes-lt}
use tiered_omap.Tee.Oblivious.{bubble}
use tiered_omap.Tee.Enclave.{
  EnclaveOram, path_nodes, path_contains_oblivious, is_real, record_node_accesses,
}
use tiered_omap.Tee.Enclave.Evict.{evict_path, fill_nodes, swap_blocks, keep_valid}
use tiered_omap.Tee.Enclave.Paths.{IsTree, path_nodes-level_nodes}
use tiered_omap.Tee.Enclave.Nodes.{Apart, InTree, Empty, fill_nodes_lem, length-fill_nodes}
use tiered_omap.Tee.Enclave.Keep.{keep_valid_lem}
use tiered_omap.Tee.Enclave.Table.{LeafTable, Agrees, Holds, HoldsAs}

level_nodes-Apart : (h l : ℕ) → l < 2 ^ h → Apart (level_nodes h l)
unfolding level_nodes
level_nodes-Apart zero l lt = (tt, tt)
level_nodes-Apart (suc h) l lt =
    let p = pow-suc 2 h in
    let small : l / 2 < 2 ^ h = omega arith in
    (
      All-map (λ m. m < 2 ^ suc h - 1) (λ m. (2 ^ suc h - 1 + l == m) ≡ false)
          (λ m k. ground (arith, k)) (level_nodes h (l / 2)) (level_nodes-lt h (l / 2) small),
      level_nodes-Apart h (l / 2) small,
    )

pub path_nodes-Apart :
    (h : ℕ) (o : EnclaveOram) (leaf : ℤ) → IsTree h o → IsLeaf h leaf → Apart (path_nodes o leaf)
path_nodes-Apart h o leaf v i =
    rw (path_nodes-level_nodes h o leaf v i) (level_nodes-Apart h i.0 i.2)

pub path_nodes-InTree :
    (h : ℕ) (o : EnclaveOram) (leaf : ℤ)
    → IsTree h o
    → length o.tree ≡ 2 ^ suc h - 1
    → IsLeaf h leaf
    → InTree o.tree (path_nodes o leaf)
path_nodes-InTree h o leaf v e i =
    rw (path_nodes-level_nodes h o leaf v i, e) (level_nodes-lt h i.0 i.2)

module _ (h : ℕ) (o : EnclaveOram) (m : LeafTable) (nodes : List ℕ) (v : Holds h o m)
    (a : Apart nodes) (r : InTree o.tree nodes) (d : Empty o.tree nodes) where
  abbrev filled : List (List Block) × List Block
  filled = fill_nodes o nodes o.tree o.stash

  abbrev compacted : List Block
  compacted = bubble is_real swap_blocks (length o.stash) filled.1

  kept :
      countb is_real compacted ≤ o.stash_max
      → Holds h
          (record (record_node_accesses o nodes) {
            tree = filled.0;
            stash = keep_valid o.value_size o.stash_max compacted;
          })
          m
  unfolding record_node_accesses path_contains_oblivious
  kept c =
      let f =
        fill_nodes_lem o o.value_size (Agrees h m) nodes o.tree o.stash
          (λ b p z. absurd (ground (arith, z))) a r d v.in_tree v.in_stash in
      let len = length-fill_nodes o nodes o.tree o.stash in
      let keep =
        keep_valid_lem o.value_size o.stash_max (length o.stash) (Agrees h m) filled.1 f.entries
          (sym len) (omega (arith, len, v.room)) c in
      record {
        shape = record { levels = v.shape.levels; leaves = v.shape.leaves; small = v.shape.small };
        nodes = f.same_nodes ∙ v.nodes;
        in_stash = keep.0;
        in_tree = f.buckets;
        once = λ k rk. omega (arith, f.count k rk, keep.1 k rk, v.once k rk);
        room = omega (arith, keep.2);
      }

  -- From a state whose path is empty, `evict_path` gives a state that holds the same table, or
  -- throws.
  pub evict_path_lem : Yields (evict_path o nodes) (HoldsAs h o m)
  unfolding evict_path
  evict_path_lem = elim (Bool-cases (ltb o.stash_max (countb is_real compacted))) [
    | inl e ↦ rw e refl
    | inr e ↦ rw e (kept (ground (arith, e)), refl)
  ]
