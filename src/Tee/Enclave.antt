-- ===== src/Tee/Enclave.antt =====
-- src/tee/enclave_oram.cpp, `EnclaveOram`: a tree ORAM whose control flow is the same for each key.
-- A `TreeBlock` has the fields of a `Block`; the index of a bucket is a natural number. An index past
-- the tree is undefined behaviour in the source: here it reads an empty bucket and writes nothing.
pub mod Evict
pub mod Slots
pub mod Nodes
pub mod Paths
pub mod Keep
pub mod Table
pub mod Eviction
pub mod Scan
pub mod Serve
pub mod Rows
pub mod Refines
pub mod Dummy
pub mod Init
pub mod Extract
pub mod Fetch
pub mod PutBack
pub mod Access
use tiered_omap.Prelude.{
  ℕ, zero, suc, ◌+◌, ◌-◌, ◌*◌, ◌/◌, ◌%◌, ◌^◌, max, Bool, true, false, not, ◌&&◌, ◌||◌, List, [],
  ◌∷◌, ◌++◌, map, ℤ, pos, negsuc, ◌==ℤ◌, ltb, if◌then◌else◌, length, set, replicate, countb, Option,
  none, some,
}
use tiered_omap.Common.{
  Host, Bytes, Block, empty_block, invalid_key, invalid_leaf, pad_bytes, ceil_log2, Result, ok,
  throw, ◌>>=◌, stash_overflow,
}
use tiered_omap.Storage.{parent, leaf_node, climb, set_insert, bucket_at}
use tiered_omap.Tee.Oblivious.{
  o_mov_i, o_select_i, o_equal, o_swap_i, resize, o_mov_bytes, o_swap_bytes, bubble,
}

pub record Stats : Type 0 where
  pub pages_touched : ℕ
  pub node_accesses : ℕ
  pub accesses : ℕ

-- `Stats::reset`
abbrev pub no_stats : Stats
no_stats = record { pages_touched = 0; node_accesses = 0; accesses = 0 }

pub record EnclaveOram : Type 0 where
  pub value_size : ℕ
  pub bucket_size : ℕ
  pub level : ℕ
  pub leaf_range : ℕ
  pub num_nodes : ℕ
  pub stash_max : ℕ
  pub tree : List (List Block)
  pub stash : List Block
  pub last_stats : Stats
  pub total_stats : Stats
  -- the pages that have an entry in `touched_pages_`, in ascending order
  pub touched_pages : List ℕ
  pub node_access_count : ℕ
  -- how many leaves were drawn at random
  pub draws : ℕ

-- `TreeBlock{}` with a value of zeros
abbrev pub zero_block : ℕ → Block
zero_block value_size = record {
  key = invalid_key;
  leaf = invalid_leaf;
  value = replicate value_size 0;
}

unfoldable pub new_enclave : ℕ → ℕ → ℕ → ℕ → EnclaveOram
new_enclave num_data value_size bucket_size stash_scale =
    let level = max 1 (ceil_log2 num_data) in
    record {
      value_size = value_size;
      bucket_size = bucket_size;
      level = level;
      leaf_range = 2 ^ (level - 1);
      num_nodes = 2 ^ level - 1;
      stash_max = stash_scale * level;
      tree = replicate (2 ^ level - 1) (replicate bucket_size (zero_block value_size));
      stash = [];
      last_stats = no_stats;
      total_stats = no_stats;
      touched_pages = [];
      node_access_count = 0;
      draws = 0;
    }

unfoldable pub random_leaf : Host → EnclaveOram → ℤ
random_leaf host o = elim o.leaf_range [ zero ↦ pos 0 | suc n ↦ pos (host.draw o.draws (suc n)) ]

-- The loops of `read_path` and `evict_one_path` over the nodes of a path, the leaf first.
unfoldable pub path_from : ℕ → ℤ → List ℕ
unfolding climb
path_from level (pos node) = climb level node
path_from level (negsuc _) = []

unfoldable pub path_nodes : EnclaveOram → ℤ → List ℕ
unfolding path_from
path_nodes o leaf = path_from o.level (leaf_node o.leaf_range leaf)

-- `(cur > 0) ? parent(cur) : 0`
abbrev pub up : ℤ → ℤ
up (pos n) = pos (parent n)
up (negsuc _) = pos 0

unfoldable pub contains_from : ℕ → ℤ → ℕ → Bool
contains_from zero cur node = false
contains_from (suc steps) cur node = o_equal cur (pos node) || contains_from steps (up cur) node

unfoldable pub path_contains_oblivious : EnclaveOram → ℤ → ℕ → Bool
unfolding contains_from
path_contains_oblivious o leaf node = contains_from o.level (leaf_node o.leaf_range leaf) node

unfoldable pub path_contains : EnclaveOram → ℤ → ℕ → Bool
unfolding path_contains_oblivious
path_contains o leaf node = path_contains_oblivious o leaf node

-- The depth of a node, on fuel: each step goes to a lower index.
unfoldable pub depth_from : ℕ → ℕ → ℕ
depth_from zero node = 0
depth_from (suc fuel) node = elim node [ zero ↦ 0 | suc n ↦ 1 + depth_from fuel (parent (suc n)) ]

unfoldable pub node_depth : ℕ → ℕ
unfolding depth_from
node_depth node = depth_from node node

-- `sizeof(int)` is 4.
unfoldable pub node_byte_size : EnclaveOram → ℕ
node_byte_size o = o.bucket_size * (4 * 2 + o.value_size)

abbrev pub page_size : ℕ
page_size = 4096

unfoldable pub touch_pages : ℕ → ℕ → List ℕ → List ℕ
unfolding set_insert
touch_pages zero page pages = pages
touch_pages (suc count) page pages = touch_pages count (page + 1) (set_insert page pages)

-- The pages of one node, with the wrap-around of `uint64_t`.
unfoldable pub touch_node : ℕ → ℕ → List ℕ → List ℕ
unfolding touch_pages
touch_node bytes_per_node node pages =
    let byte_start = node * bytes_per_node % 18446744073709551616 in
    let byte_end = (byte_start + bytes_per_node) % 18446744073709551616 in
    let page_start = byte_start / page_size in
    let page_end = (byte_end + 18446744073709551615) % 18446744073709551616 / page_size in
    touch_pages (page_end + 1 - page_start) page_start pages

unfoldable pub touch_nodes : ℕ → List ℕ → List ℕ → List ℕ
unfolding touch_node
touch_nodes bytes_per_node [] pages = pages
touch_nodes bytes_per_node (node ∷ nodes) pages =
    touch_nodes bytes_per_node nodes (touch_node bytes_per_node node pages)

-- `record_node_access` of each node of a path
unfoldable pub record_node_accesses : EnclaveOram → List ℕ → EnclaveOram
unfolding touch_nodes node_byte_size
record_node_accesses o nodes = record o {
  node_access_count = o.node_access_count + length nodes;
  touched_pages = touch_nodes (node_byte_size o) nodes o.touched_pages;
}

unfoldable pub begin_page_tracking : EnclaveOram → EnclaveOram
begin_page_tracking o = record o { touched_pages = []; node_access_count = 0 }

abbrev pub end_page_tracking : EnclaveOram → ℕ
end_page_tracking o = length o.touched_pages

-- Each bucket goes to the end of the stash, and its slots become empty: the tree and the stash.
unfoldable pub read_buckets :
    ℕ → List ℕ → List (List Block) → List Block → List (List Block) × List Block
read_buckets value_size [] tree stash = (tree, stash)
read_buckets value_size (node ∷ nodes) tree stash =
    let bucket = bucket_at tree node in
    read_buckets value_size nodes (set tree node (map (λ _. zero_block value_size) bucket))
      (stash ++ bucket)

-- The new state, and the nodes of the path.
unfoldable pub read_path : EnclaveOram → ℤ → EnclaveOram × List ℕ
unfolding path_nodes read_buckets record_node_accesses
read_path o leaf =
    let nodes = path_nodes o leaf in
    let read = read_buckets o.value_size nodes o.tree o.stash in
    (record (record_node_accesses o nodes) { tree = read.0; stash = read.1 }, nodes)

unfoldable pub read_path_to_stash : EnclaveOram → ℤ → EnclaveOram
unfolding read_path
read_path_to_stash o leaf = (read_path o leaf).0

-- `1 - o_equal(sb.key, INVALID_KEY)`
abbrev pub is_real : Block → Bool
is_real sb = not (o_equal sb.key invalid_key)

unfoldable pub stash_valid_count : EnclaveOram → ℕ
unfolding countb
stash_valid_count o = countb is_real o.stash

unfoldable pub pad_stash : ℕ → ℕ → List Block → List Block
pad_stash value_size stash_max stash =
    stash ++ replicate (stash_max - length stash) (zero_block value_size)
