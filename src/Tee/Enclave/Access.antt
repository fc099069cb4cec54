-- ===== src/Tee/Enclave/Access.antt =====
-- The accesses of `EnclaveOram`, and its operations on the stash for multi-node accesses.
use tiered_omap.Prelude.{
  ℕ, ◌+◌, Bool, true, false, not, ◌&&◌, Option, none, some, List, [], ◌∷◌, ◌++◌, ℤ, replicate,
}
use tiered_omap.Common.{Host, Bytes, Block, invalid_key, pad_bytes, Result, ok, ◌>>=◌}
use tiered_omap.Tee.Oblivious.{o_mov_i, o_mov_bytes, o_equal, o_select_i}
use tiered_omap.Tee.Enclave.{
  EnclaveOram, no_stats, zero_block, random_leaf, read_path, begin_page_tracking, end_page_tracking,
}
use tiered_omap.Tee.Enclave.Evict.{evict_path}

-- The loop over the stash: the result so far and the stash.
unfoldable pub scan_stash : ℤ → ℤ → Bool → Bool → Bytes → Bytes → List Block → Bytes × List Block
unfolding o_mov_i o_mov_bytes o_equal
scan_stash key new_leaf real has_new padded_new result [] = (result, [])
scan_stash key new_leaf real has_new padded_new result (sb ∷ stash) =
    let is_match = real && o_equal sb.key key in
    let sb' : Block = record {
      key = sb.key;
      leaf = o_mov_i is_match sb.leaf new_leaf;
      value = o_mov_bytes (is_match && has_new) sb.value padded_new;
    } in
    let rest =
      scan_stash key new_leaf real has_new padded_new (o_mov_bytes is_match result sb.value)
        stash in
    (rest.0, sb' ∷ rest.1)

-- The statistics of one access.
unfoldable pub count_access : EnclaveOram → EnclaveOram
count_access o =
    let pages = end_page_tracking o in
    record o {
      last_stats = record {
        pages_touched = pages;
        node_accesses = o.node_access_count;
        accesses = 1;
      };
      total_stats = record {
        pages_touched = o.total_stats.pages_touched + pages;
        node_accesses = o.total_stats.node_accesses + o.node_access_count;
        accesses = o.total_stats.accesses + 1;
      };
    }

-- The new value, padded, or zeros; and whether there is a new value.
abbrev pub padded_value : ℕ → Option Bytes → Bytes
padded_value value_size none = replicate value_size 0
padded_value value_size (some value) = pad_bytes value value_size

abbrev pub has_value : Option Bytes → Bool
has_value none = false
has_value (some _) = true

unfoldable pub access_or_dummy :
    Host → EnclaveOram → ℤ → ℤ → ℤ → Bool → Option Bytes → Result (EnclaveOram × Bytes)
unfolding random_leaf begin_page_tracking o_select_i read_path scan_stash evict_path count_access
access_or_dummy host o key old_leaf new_leaf real new_value = do
  let dummy_leaf = random_leaf host o
  let o₁ = begin_page_tracking (record o { last_stats = no_stats; draws = o.draws + 1 })
  let use_leaf = o_select_i real old_leaf dummy_leaf
  let (o₂, nodes) = read_path o₁ use_leaf
  let scanned =
      scan_stash key new_leaf real (has_value new_value) (padded_value o.value_size new_value)
        (replicate o.value_size 0) o₂.stash
  o₃ ← evict_path (record o₂ { stash = scanned.1 }) nodes
  ok (count_access o₃, scanned.0)

unfoldable pub access : Host → EnclaveOram → ℤ → ℤ → ℤ → Option Bytes → Result (EnclaveOram × Bytes)
unfolding access_or_dummy
access host o key old_leaf new_leaf new_value =
    access_or_dummy host o key old_leaf new_leaf true new_value

-- The drawn leaf is both the old and the new one; `access_or_dummy` draws again.
unfoldable pub dummy_access : Host → EnclaveOram → Result EnclaveOram
unfolding random_leaf access_or_dummy
dummy_access host o = do
  let rl = random_leaf host o
  (o', _) ← access_or_dummy host (record o { draws = o.draws + 1 }) invalid_key rl rl false none
  ok o'

-- The loop over the stash: the block so far and the stash.
unfoldable pub extract_matches : ℤ → Block → List Block → Block × List Block
unfolding o_equal o_mov_i o_mov_bytes
extract_matches key result [] = (result, [])
extract_matches key result (sb ∷ stash) =
    let is_match = o_equal sb.key key && not (o_equal sb.key invalid_key) in
    let result' : Block = record {
      key = o_mov_i is_match result.key sb.key;
      leaf = o_mov_i is_match result.leaf sb.leaf;
      value = o_mov_bytes is_match result.value sb.value;
    } in
    let sb' = record sb { key = o_mov_i is_match sb.key invalid_key } in
    let rest = extract_matches key result' stash in (rest.0, sb' ∷ rest.1)

-- The new state, and the block: that of `zero_block` if there is none of the key.
unfoldable pub extract_from_stash : EnclaveOram → ℤ → EnclaveOram × Block
unfolding extract_matches
extract_from_stash o key =
    let extracted = extract_matches key (zero_block o.value_size) o.stash in
    (record o { stash = extracted.1 }, extracted.0)

unfoldable pub add_to_stash : EnclaveOram → ℤ → ℤ → Bytes → EnclaveOram
unfolding pad_bytes
add_to_stash o key leaf value = record o {
  stash = o.stash ++ record { key = key; leaf = leaf; value = pad_bytes value o.value_size } ∷ [];
}
