-- ===== src/Storage.antt =====
-- src/oram/binary_tree_storage.cpp, `BinaryTreeStorage`: a complete binary tree of buckets in an
-- array, the root at 0. The index of a bucket is a natural number; `leaf` is an `int` as in the
-- source. An index past the array is undefined behaviour in the source: here it reads an empty
-- bucket and writes nothing.
pub mod Paths
pub mod Merged
pub mod Fill
pub mod Deepest
pub mod Write
pub mod OnePath
pub mod Load
pub mod Fresh
use tiered_omap.Prelude.{
  ℕ, zero, suc, ◌+◌, ◌-◌, ◌/◌, ◌^◌, Bool, true, false, List, [], ◌∷◌, ◌++◌, map, ℤ, pos, negsuc,
  sub_ℕ, ◌+ℤ◌, ltb, leb, ◌==◌, if◌then◌else◌, length, get_or, set, replicate, Option, none, some,
}
use mathlib.Core.List.{reverse}
use tiered_omap.Common.{Block, empty_block, is_dummy, ceil_log2}

pub record Storage : Type 0 where
  pub level : ℕ
  pub leaf_range : ℕ
  pub bucket_size : ℕ
  pub total_nodes : ℕ
  pub buckets : List (List Block)

-- An `unordered_map<int, std::vector<Block>>`, its entries listed by node.
abbrev pub PathData : Type 0
PathData = List (ℕ × List Block)

unfoldable pub new_storage : ℕ → ℕ → Storage
new_storage num_data bucket_size =
    let level = ceil_log2 num_data + 1 in
    record {
      level = level;
      leaf_range = 2 ^ (level - 1);
      bucket_size = bucket_size;
      total_nodes = 2 ^ level - 1;
      buckets = replicate (2 ^ level - 1) [];
    }

unfoldable pub reset : Storage → ℕ → ℕ → Storage
unfolding new_storage
reset s num_data bucket_size = new_storage num_data bucket_size

abbrev pub parent : ℕ → ℕ
parent node = (node - 1) / 2

-- `leaf_range - 1 + leaf`
abbrev pub leaf_node : ℕ → ℤ → ℤ
leaf_node leaf_range leaf = sub_ℕ leaf_range 1 +ℤ leaf

-- The loop from a node up to the root, on fuel.
unfoldable pub climb : ℕ → ℕ → List ℕ
climb zero node = []
climb (suc fuel) node = node ∷ elim (node == 0) [ true ↦ [] | false ↦ climb fuel (parent node) ]

-- `while (node >= 0) { …; if (node == 0) break; node = parent(node); }`
unfoldable pub nodes_up : ℤ → List ℕ
unfolding climb
nodes_up (pos node) = climb (suc node) node
nodes_up (negsuc _) = []

unfoldable pub get_path_indices : Storage → ℤ → List ℕ
get_path_indices s leaf = reverse (nodes_up (leaf_node s.leaf_range leaf))

-- `std::set<int>::insert`; a set lists its elements in ascending order.
unfoldable pub set_insert : ℕ → List ℕ → List ℕ
set_insert x [] = x ∷ []
set_insert x (y ∷ ys) =
    if ltb x y then x ∷ y ∷ ys else if x == y then y ∷ ys else y ∷ set_insert x ys

unfoldable pub insert_all : List ℕ → List ℕ → List ℕ
insert_all [] node_set = node_set
insert_all (x ∷ xs) node_set = insert_all xs (set_insert x node_set)

unfoldable pub merge_paths : ℕ → List ℤ → List ℕ → List ℕ
merge_paths leaf_range [] node_set = node_set
merge_paths leaf_range (leaf ∷ leaves) node_set =
    merge_paths leaf_range leaves (insert_all (nodes_up (leaf_node leaf_range leaf)) node_set)

unfoldable pub get_merged_path_indices : ℕ → List ℤ → List ℕ
get_merged_path_indices level leaves = merge_paths (2 ^ (level - 1)) leaves []

abbrev pub bucket_at : List (List Block) → ℕ → List Block
bucket_at buckets node = get_or buckets node []

-- `result[idx] = storage_[idx]` for each index
abbrev pub read_nodes : List (List Block) → List ℕ → PathData
read_nodes buckets = map (λ node. (node, bucket_at buckets node))

unfoldable pub read_path : Storage → ℤ → PathData
read_path s leaf = read_nodes s.buckets (get_path_indices s leaf)

unfoldable pub read_multiple_paths : Storage → List ℤ → PathData
read_multiple_paths s leaves = read_nodes s.buckets (get_merged_path_indices s.level leaves)

unfoldable pub write_nodes : List (List Block) → PathData → List (List Block)
write_nodes buckets [] = buckets
write_nodes buckets ((node, bucket) ∷ rest) = write_nodes (set buckets node bucket) rest

unfoldable pub write_path : Storage → ℤ → PathData → Storage
write_path s _ path = record s { buckets = write_nodes s.buckets path }

unfoldable pub write_multiple_paths : Storage → PathData → Storage
write_multiple_paths s path = record s { buckets = write_nodes s.buckets path }

-- The first node of the list, deepest first, whose bucket has room takes the block.
unfoldable pub fill_up : ℕ → Block → List ℕ → List (List Block) → List (List Block)
fill_up bucket_size block [] buckets = buckets
fill_up bucket_size block (node ∷ nodes) buckets =
    if ltb (length (bucket_at buckets node)) bucket_size
    then set buckets node (bucket_at buckets node ++ block ∷ [])
    else fill_up bucket_size block nodes buckets

unfoldable pub fill_data_to_leaf : Storage → Block → Storage
fill_data_to_leaf s block = record s {
  buckets = fill_up s.bucket_size block (reverse (get_path_indices s block.leaf)) s.buckets;
}

unfoldable pub fill_all : Storage → List Block → Storage
fill_all s [] = s
fill_all s (block ∷ blocks) = fill_all (fill_data_to_leaf s block) blocks

-- The keys of the blocks that are no dummies.
unfoldable pub real_keys : List Block → List ℤ
real_keys [] = []
real_keys (block ∷ blocks) =
    let rest = real_keys blocks in if is_dummy block then rest else block.key ∷ rest

unfoldable pub all_keys : List (List Block) → List ℤ
all_keys [] = []
all_keys (bucket ∷ buckets) = real_keys bucket ++ all_keys buckets

-- The new storage, and the keys of the blocks in the tree.
unfoldable pub bulk_load : Storage → List Block → Storage × List ℤ
bulk_load s blocks = let filled = fill_all s blocks in (filled, all_keys filled.buckets)

-- `path[node]`, which creates an entry that is not there
unfoldable pub path_bucket : PathData → ℕ → List Block
path_bucket [] node = []
path_bucket ((m, bucket) ∷ rest) node = if m == node then bucket else path_bucket rest node

-- `path[node].push_back(block)`
unfoldable pub push_at : ℕ → Block → PathData → PathData
push_at node block [] = (node, block ∷ []) ∷ []
push_at node block ((m, bucket) ∷ rest) =
    if m == node then (m, bucket ++ block ∷ []) ∷ rest else (m, bucket) ∷ push_at node block rest

-- `std::sort` in descending order
unfoldable pub insert_desc : ℕ → List ℕ → List ℕ
insert_desc x [] = x ∷ []
insert_desc x (y ∷ ys) = if ltb x y then y ∷ insert_desc x ys else x ∷ y ∷ ys

unfoldable pub sort_desc : List ℕ → List ℕ
unfolding insert_desc
sort_desc [] = []
sort_desc (x ∷ xs) = insert_desc x (sort_desc xs)

-- The loop that asks whether `node` is `cur` or above it, on fuel.
unfoldable pub climbs_to : ℕ → ℕ → ℕ → Bool
climbs_to zero cur node = false
climbs_to (suc fuel) cur node = elim (cur == node) [
  | true ↦ true
  | false ↦ elim (cur == 0) [ true ↦ false | false ↦ climbs_to fuel (parent cur) node ]
]

unfoldable pub is_ancestor : ℤ → ℕ → Bool
unfolding climbs_to
is_ancestor (pos target) node = climbs_to (suc target) target node
is_ancestor (negsuc _) node = false

-- The loop over the sorted nodes: the node that takes the block, if there is one.
unfoldable pub choose_node : ℕ → ℤ → PathData → List ℕ → Option ℕ
choose_node bucket_size target path [] = none
choose_node bucket_size target path (node ∷ nodes) =
    let rest = choose_node bucket_size target path nodes in
    if leb bucket_size (length (path_bucket path node))
    then rest
    else if is_ancestor target node
    then some node
    else rest

-- The path with the block, and whether the block was taken.
unfoldable pub fill_chosen : Block → PathData → Option ℕ → PathData × Bool
fill_chosen block path none = (path, false)
fill_chosen block path (some node) = (push_at node block path, true)

abbrev pub nodes_of : PathData → List ℕ
nodes_of = map (λ entry. entry.0)

unfoldable pub fill_block_to_path : Block → PathData → ℕ → ℕ → PathData × Bool
unfolding fill_chosen
fill_block_to_path block path level bucket_size = fill_chosen block path (
    choose_node bucket_size (leaf_node (2 ^ (level - 1)) block.leaf) path
      (sort_desc (nodes_of path)))

-- `Block{}`, n times
abbrev pub empty_blocks : ℕ → List Block
empty_blocks n = replicate n empty_block
