-- ===== src/Oram/Init.antt =====
-- The constructor and `init` of `PathORAM` (src/oram/path_oram.cpp). The data, an `unordered_map`,
-- is the list of its entries in the order in which it is iterated.
pub mod Leaves
pub mod Load
pub mod Start
use tiered_omap.Prelude.{
  ℕ, zero, suc, ◌+◌, ◌-◌, ◌*◌, max, Bool, true, false, ◌||◌, Option, none, some, List, [], ◌∷◌,
  ◌++◌, ℤ, pos, ◌==ℤ◌, ltb, if◌then◌else◌, length,
}
use tiered_omap.Common.{Host, Bytes, Block, no_bandwidth, Result, ok, throw, ◌>>=◌}
use tiered_omap.Storage
use tiered_omap.Storage.{Storage}
use tiered_omap.Oram.{PathOram, find_leaf, assign_leaf, leaf_or_throw, random_leaf, aes_encrypt}

-- `PathORAM(num_data, bucket_size, stash_scale)`, with the generated key
unfoldable pub new_oram : ℕ → ℕ → ℕ → Bytes → PathOram
new_oram num_data bucket_size stash_scale aes_key =
    let storage = Storage.new_storage num_data bucket_size in
    record {
      num_data = num_data;
      bucket_size = bucket_size;
      stash_max_size = stash_scale * max (storage.level - 1) 1;
      storage = storage;
      stash = [];
      pos_map = [];
      block_size_bytes = 0;
      last_bw = no_bandwidth;
      total_bw = no_bandwidth;
      aes_key = aes_key;
      draws = 0;
    }

-- `if (pos_map_.find(key) == end) pos_map_[key] = rand_below(leaf_range)`
unfoldable pub ensure_leaf : Host → PathOram → ℤ → PathOram
ensure_leaf host o key = elim (find_leaf o.pos_map key) [
  | some leaf ↦ o
  | none ↦ record o {
    pos_map = assign_leaf o.pos_map key (random_leaf host o);
    draws = o.draws + 1;
  }
]

-- The first loop: leaves for new keys, and the size of the largest value.
unfoldable pub assign_leaves : Host → PathOram → List (ℤ × Bytes) → PathOram
assign_leaves host o [] = o
assign_leaves host o ((key, value) ∷ entries) =
    let o' = ensure_leaf host o key in
    assign_leaves host
      (record o' {
        block_size_bytes =
            if ltb o'.block_size_bytes (length value) then length value else o'.block_size_bytes;
      })
      entries

-- `value.empty() ? value : aes_encrypt(aes_key_, value)`, and the number of the next draw
unfoldable pub encrypt_value : Host → Bytes → ℕ → Bytes → Bytes × ℕ
unfolding aes_encrypt
encrypt_value host key n [] = ([], n)
encrypt_value host key n (x ∷ value) = (aes_encrypt host key n (x ∷ value), n + 1)

-- The blocks of the second loop, and the number of the next draw.
unfoldable pub data_blocks :
    Host → Bytes → List (ℤ × ℤ) → ℕ → List (ℤ × Bytes) → Result (List Block × ℕ)
unfolding encrypt_value
data_blocks host key pos_map n [] = ok ([], n)
data_blocks host key pos_map n ((k, value) ∷ entries) = do
  let (stored, n') = encrypt_value host key n value
  leaf ← leaf_or_throw (find_leaf pos_map k)
  (blocks, n'') ← data_blocks host key pos_map n' entries
  ok (record { key = k; leaf = leaf; value = stored } ∷ blocks, n'')

unfoldable pub is_placed : ℤ → List ℤ → Bool
is_placed key [] = false
is_placed key (k ∷ placed) = (key ==ℤ k) || is_placed key placed

-- The third loop: the entries that found no place in the tree, in plain.
unfoldable pub unplaced : List (ℤ × ℤ) → List ℤ → List (ℤ × Bytes) → Result (List Block)
unplaced pos_map placed [] = ok []
unplaced pos_map placed ((key, value) ∷ entries) = do
  rest ← unplaced pos_map placed entries
  leaf ← leaf_or_throw (find_leaf pos_map key)
  ok (
      if is_placed key placed
      then rest
      else record { key = key; leaf = leaf; value = value } ∷ rest)

unfoldable pub init : Host → PathOram → List (ℤ × Bytes) → Result PathOram
unfolding leaf_or_throw
init host o entries = do
  let o₁ = assign_leaves host (record o { block_size_bytes = 0; stash = [] }) entries
  let emptied = Storage.reset o₁.storage o₁.num_data o₁.bucket_size
  (blocks, draws) ← data_blocks host o₁.aes_key o₁.pos_map o₁.draws entries
  let loaded = Storage.bulk_load emptied blocks
  stash ← unplaced o₁.pos_map loaded.1 entries
  ok (record o₁ { storage = loaded.0; stash = stash; draws = draws })
