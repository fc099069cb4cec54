-- ===== src/Tee/Enclave/Evict.antt =====
-- `EnclaveOram::evict_path`: the blocks of the stash into the slots of a path, the compaction of the
-- stash and its bound.
use tiered_omap.Prelude.{
  ℕ, max, Bool, true, false, not, ◌&&◌, List, [], ◌∷◌, ltb, ℤ, if◌then◌else◌, length, set, countb,
}
use tiered_omap.Common.{Block, empty_block, invalid_key, Result, ok, throw, stash_overflow}
use tiered_omap.Storage.{bucket_at}
use tiered_omap.Tee.Oblivious.{o_mov_i, o_mov_bytes, o_swap_i, o_swap_bytes, resize, bubble}
use tiered_omap.Tee.Enclave.{
  EnclaveOram, path_contains_oblivious, path_nodes, is_real, pad_stash, record_node_accesses,
}

-- One slot of the bucket of `node` against the whole stash: the slot and the stash.
unfoldable pub fill_slot : EnclaveOram → ℕ → Block → Bool → List Block → Block × List Block
unfolding path_contains_oblivious o_mov_i o_mov_bytes
fill_slot o node slot filled [] = (slot, [])
fill_slot o node slot filled (sb ∷ stash) =
    let candidate = is_real sb && path_contains_oblivious o sb.leaf node && not filled in
    let slot' : Block = record {
      key = o_mov_i candidate slot.key sb.key;
      leaf = o_mov_i candidate slot.leaf sb.leaf;
      value = o_mov_bytes candidate slot.value sb.value;
    } in
    let sb' = record sb { key = o_mov_i candidate sb.key invalid_key } in
    let rest = fill_slot o node slot' (if candidate then true else filled) stash in
    (rest.0, sb' ∷ rest.1)

unfoldable pub fill_bucket : EnclaveOram → ℕ → List Block → List Block → List Block × List Block
unfolding fill_slot
fill_bucket o node [] stash = ([], stash)
fill_bucket o node (slot ∷ bucket) stash =
    let one = fill_slot o node slot false stash in
    let rest = fill_bucket o node bucket one.1 in (one.0 ∷ rest.0, rest.1)

-- The tree and the stash.
unfoldable pub fill_nodes :
    EnclaveOram → List ℕ → List (List Block) → List Block → List (List Block) × List Block
unfolding fill_bucket
fill_nodes o [] tree stash = (tree, stash)
fill_nodes o (node ∷ nodes) tree stash =
    let filled = fill_bucket o node (bucket_at tree node) stash in
    fill_nodes o nodes (set tree node filled.0) filled.1

-- The exchange of two entries of the stash, field by field.
unfoldable pub swap_blocks : Bool → Block → Block → Block × Block
unfolding o_swap_i o_swap_bytes
swap_blocks do_swap a b =
    let keys = o_swap_i do_swap a.key b.key in
    let leaves = o_swap_i do_swap a.leaf b.leaf in
    let values = o_swap_bytes do_swap a.value b.value in
    (
      record { key = keys.0; leaf = leaves.0; value = values.0 },
      record { key = keys.1; leaf = leaves.1; value = values.1 },
    )

-- The stash after the compaction, cut and padded.
unfoldable pub keep_valid : ℕ → ℕ → List Block → List Block
unfolding resize pad_stash countb
keep_valid value_size stash_max stash =
    pad_stash value_size stash_max (resize (max (countb is_real stash) stash_max) empty_block stash)

unfoldable pub evict_path : EnclaveOram → List ℕ → Result EnclaveOram
unfolding fill_nodes swap_blocks bubble keep_valid record_node_accesses countb
evict_path o nodes =
    let filled = fill_nodes o nodes o.tree o.stash in
    let compacted = bubble is_real swap_blocks (length o.stash) filled.1 in
    if ltb o.stash_max (countb is_real compacted)
    then throw stash_overflow
    else ok (record (record_node_accesses o nodes) {
      tree = filled.0;
      stash = keep_valid o.value_size o.stash_max compacted;
    })

unfoldable pub evict_one_path : EnclaveOram → ℤ → Result EnclaveOram
unfolding evict_path path_nodes
evict_one_path o leaf = evict_path o (path_nodes o leaf)
