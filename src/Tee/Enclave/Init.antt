-- ===== src/Tee/Enclave/Init.antt =====
-- `EnclaveOram::init`: leaves for the keys, and each block in the first slot that is free on its path.
pub mod Place
pub mod Rows
pub mod Load
pub mod Start
use tiered_omap.Prelude.{
  ◌+◌, Option, none, some, List, [], ◌∷◌, ◌++◌, ℤ, pos, ◌==ℤ◌, if◌then◌else◌, set,
}
use tiered_omap.Prelude.{ℕ}
use tiered_omap.Common.{Host, Bytes, Block, invalid_key, pad_bytes, is_dummy}
use tiered_omap.Storage.{bucket_at, leaf_node, nodes_up}
use tiered_omap.Oram.{find_leaf, assign_leaf}
use tiered_omap.Tee.Enclave.{EnclaveOram, random_leaf, pad_stash}

-- `leaf_map[key]`, which is 0 for a key that is not there
abbrev pub leaf_or_zero : Option ℤ → ℤ
leaf_or_zero none = pos 0
leaf_or_zero (some leaf) = leaf

unfoldable pub leaf_of : List (ℤ × ℤ) → ℤ → ℤ
unfolding find_leaf
leaf_of leaf_map key = leaf_or_zero (find_leaf leaf_map key)

-- The first loop: the number of the next draw, and the leaf map.
unfoldable pub choose_leaves :
    Host → List (ℤ × ℤ) → EnclaveOram → ℕ → List (ℤ × Bytes) → List (ℤ × ℤ) → ℕ × List (ℤ × ℤ)
unfolding find_leaf assign_leaf random_leaf
choose_leaves host preset_leaves o draws [] leaf_map = (draws, leaf_map)
choose_leaves host preset_leaves o draws ((key, _) ∷ entries) leaf_map =
    elim (find_leaf leaf_map key) [
      | some _ ↦ choose_leaves host preset_leaves o draws entries leaf_map
      | none ↦ elim (find_leaf preset_leaves key) [
        | some leaf ↦
            choose_leaves host preset_leaves o draws entries (assign_leaf leaf_map key leaf)
        | none ↦
            choose_leaves host preset_leaves o (draws + 1) entries
              (assign_leaf leaf_map key (random_leaf host (record o { draws = draws })))
      ]
    ]

-- The loop over the slots of one bucket: the bucket with the block, if a slot is free.
unfoldable pub place_in : Block → List Block → Option (List Block)
place_in block [] = none
place_in block (slot ∷ bucket) =
    let rest = place_in block bucket in
    if is_dummy slot
    then some (block ∷ bucket)
    else elim rest [ none ↦ none | some bucket' ↦ some (slot ∷ bucket') ]

-- The loop over the nodes of a path, the leaf first: the tree with the block, if a slot is free.
unfoldable pub place_up : Block → List ℕ → List (List Block) → Option (List (List Block))
unfolding place_in
place_up block [] tree = none
place_up block (node ∷ nodes) tree =
    let rest = place_up block nodes tree in
    elim (place_in block (bucket_at tree node)) [
      | some bucket ↦ some (set tree node bucket)
      | none ↦ rest
    ]

-- One block: the tree and the stash.
unfoldable pub place :
    Block → List ℕ → List (List Block) → List Block → List (List Block) × List Block
unfolding place_up
place block nodes tree stash = elim (place_up block nodes tree) [
  | some tree' ↦ (tree', stash)
  | none ↦ (tree, stash ++ block ∷ [])
]

-- The second loop: the tree and the stash.
unfoldable pub place_all :
    EnclaveOram
    → List (ℤ × ℤ)
    → List (ℤ × Bytes)
    → List (List Block)
    → List Block
    → List (List Block) × List Block
unfolding place leaf_of nodes_up pad_bytes
place_all o leaf_map [] tree stash = (tree, stash)
place_all o leaf_map ((key, value) ∷ entries) tree stash =
    let leaf = leaf_of leaf_map key in
    let block : Block = record { key = key; leaf = leaf; value = pad_bytes value o.value_size } in
    let placed = place block (nodes_up (leaf_node o.leaf_range leaf)) tree stash in
    place_all o leaf_map entries placed.0 placed.1

-- The new state, and the map from keys to leaves.
unfoldable pub init :
    Host → EnclaveOram → List (ℤ × Bytes) → List (ℤ × ℤ) → EnclaveOram × List (ℤ × ℤ)
unfolding choose_leaves place_all pad_stash
init host o entries preset_leaves =
    let chosen = choose_leaves host preset_leaves o o.draws entries [] in
    let placed = place_all o chosen.1 entries o.tree [] in
    (
      record o {
        draws = chosen.0;
        tree = placed.0;
        stash = pad_stash o.value_size o.stash_max placed.1;
      },
      chosen.1,
    )
