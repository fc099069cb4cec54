-- ===== src/Oram.antt =====
-- src/oram/path_oram.cpp and include/tiered_omap/oram/path_oram.h, `PathORAM` over the local
-- `BinaryTreeStorage`, with the AES wrappers of include/tiered_omap/crypto.h. A method takes the
-- state and returns the new one, or throws. `draws` counts the random draws made so far.
pub mod Crypt
pub mod Fetch
pub mod Evict
pub mod Stash
pub mod Valid
pub mod Fetched
pub mod Written
pub mod Access
pub mod Dummy
pub mod Init
pub mod Room
use tiered_omap.Prelude.{
  ℕ, zero, suc, ◌+◌, ◌-◌, ◌*◌, ◌^◌, max, Bool, true, false, Option, none, some, List, [], ◌∷◌, ◌++◌,
  ℤ, pos, ◌==ℤ◌, ltb, if◌then◌else◌, length, take, drop,
}
use tiered_omap.Common.{
  Host, Bytes, Block, is_dummy, empty_block, invalid_leaf, BandwidthStats, no_bandwidth, add_stats,
  Result, ok, throw, ◌>>=◌, out_of_range, not_found, stash_overflow, blob_too_small,
}
use tiered_omap.Storage
use tiered_omap.Storage.{Storage, PathData}

pub record PathOram : Type 0 where
  pub num_data : ℕ
  pub bucket_size : ℕ
  pub stash_max_size : ℕ
  pub storage : Storage
  pub stash : List Block
  pub pos_map : List (ℤ × ℤ)
  pub block_size_bytes : ℕ
  pub last_bw : BandwidthStats
  pub total_bw : BandwidthStats
  pub aes_key : Bytes
  pub draws : ℕ

-- `pos_map_.find(key)`
unfoldable pub find_leaf : List (ℤ × ℤ) → ℤ → Option ℤ
find_leaf [] key = none
find_leaf ((k, leaf) ∷ rest) key = if k ==ℤ key then some leaf else find_leaf rest key

-- `pos_map_[key] = leaf`
unfoldable pub assign_leaf : List (ℤ × ℤ) → ℤ → ℤ → List (ℤ × ℤ)
assign_leaf [] key leaf = (key, leaf) ∷ []
assign_leaf ((k, l) ∷ rest) key leaf =
    if k ==ℤ key then (key, leaf) ∷ rest else (k, l) ∷ assign_leaf rest key leaf

-- `pos_map_.at(key)`
unfoldable pub leaf_or_throw : Option ℤ → Result ℤ
leaf_or_throw none = throw out_of_range
leaf_or_throw (some leaf) = ok leaf

unfoldable pub get_leaf : PathOram → ℤ → ℤ
get_leaf o key = elim (find_leaf o.pos_map key) [ none ↦ invalid_leaf | some leaf ↦ leaf ]

unfoldable pub set_leaf : PathOram → ℤ → ℤ → PathOram
set_leaf o key leaf = record o { pos_map = assign_leaf o.pos_map key leaf }

unfoldable pub find_in_stash : List Block → ℤ → Option Block
find_in_stash [] key = none
find_in_stash (block ∷ stash) key =
    if block.key ==ℤ key then some block else find_in_stash stash key

-- A write through the pointer that `find_in_stash` returns.
unfoldable pub update_in_stash : (Block → Block) → ℤ → List Block → List Block
update_in_stash f key [] = []
update_in_stash f key (block ∷ stash) =
    if block.key ==ℤ key then f block ∷ stash else block ∷ update_in_stash f key stash

-- The stash without the first block of the key.
unfoldable pub erase_in_stash : ℤ → List Block → List Block
erase_in_stash key [] = []
erase_in_stash key (block ∷ stash) =
    if block.key ==ℤ key then stash else block ∷ erase_in_stash key stash

unfoldable pub extract_from_stash : PathOram → ℤ → Result (PathOram × Block)
extract_from_stash o key = elim (find_in_stash o.stash key) [
  | none ↦ throw not_found
  | some block ↦ ok (record o { stash = erase_in_stash key o.stash }, block)
]

unfoldable pub add_to_stash : PathOram → Block → PathOram
add_to_stash o block = record o { stash = o.stash ++ block ∷ [] }

-- `aes_decrypt`: the IV stands in front of the ciphertext.
unfoldable pub aes_decrypt : Host → Bytes → Bytes → Result Bytes
aes_decrypt host key blob =
    if ltb (length blob) 16
    then throw blob_too_small
    else ok (host.ctr key (take 16 blob) (drop 16 blob))

-- `aes_encrypt` with the n-th IV
unfoldable pub aes_encrypt : Host → Bytes → ℕ → Bytes → Bytes
aes_encrypt host key n plaintext = host.iv n ++ host.ctr key (host.iv n) plaintext

-- `!block.is_dummy() && !block.value.empty()`
unfoldable pub is_ciphered : Block → Bool
is_ciphered block = if is_dummy block then false else elim block.value [ [] ↦ false | _ ∷ _ ↦ true ]

unfoldable pub encrypt_block : Host → Bytes → ℕ → Block → Block
unfolding is_ciphered aes_encrypt
encrypt_block host key n block =
    if is_ciphered block then record block { value = aes_encrypt host key n block.value } else block

-- The bucket with its blocks encrypted, and the number of the next draw.
unfoldable pub encrypt_bucket : Host → Bytes → ℕ → List Block → List Block × ℕ
unfolding encrypt_block
encrypt_bucket host key n [] = ([], n)
encrypt_bucket host key n (block ∷ bucket) =
    let (rest, n') = encrypt_bucket host key (if is_ciphered block then n + 1 else n) bucket in
    (encrypt_block host key n block ∷ rest, n')

unfoldable pub decrypt_block : Host → Bytes → Block → Result Block
unfolding is_ciphered aes_decrypt
decrypt_block host key block =
    if is_ciphered block
    then (do value ← aes_decrypt host key block.value; ok (record block { value = value }))
    else ok block

unfoldable pub decrypt_bucket : Host → Bytes → List Block → Result (List Block)
unfolding decrypt_block
decrypt_bucket host key [] = ok []
decrypt_bucket host key (block ∷ bucket) = do
  block' ← decrypt_block host key block
  rest ← decrypt_bucket host key bucket
  ok (block' ∷ rest)

unfoldable pub real_blocks : List Block → List Block
real_blocks [] = []
real_blocks (block ∷ bucket) =
    let rest = real_blocks bucket in if is_dummy block then rest else block ∷ rest

-- The blocks that the loop of `apply_fetched_path` appends to the stash.
unfoldable pub fetched_blocks : Host → Bytes → PathData → Result (List Block)
unfolding decrypt_bucket real_blocks
fetched_blocks host key [] = ok []
fetched_blocks host key ((_, bucket) ∷ rest) = do
  plain ← decrypt_bucket host key bucket
  more ← fetched_blocks host key rest
  ok (real_blocks plain ++ more)

unfoldable pub apply_fetched_path : Host → PathOram → PathData → Result PathOram
apply_fetched_path host o fetched = do
  blocks ← fetched_blocks host o.aes_key (host.order fetched)
  ok (record o { stash = o.stash ++ blocks })

unfoldable pub read_path_to_stash : Host → PathOram → ℤ → Result PathOram
read_path_to_stash host o leaf = apply_fetched_path host o (Storage.read_path o.storage leaf)

unfoldable pub read_multiple_paths_to_stash : Host → PathOram → List ℤ → Result PathOram
read_multiple_paths_to_stash host o leaves =
    apply_fetched_path host o (Storage.read_multiple_paths o.storage leaves)

abbrev pub empty_path : List ℕ → PathData
empty_path [] = []
empty_path (node ∷ nodes) = (node, []) ∷ empty_path nodes

-- The loop over the stash: the filled path, and the blocks that remain.
unfoldable pub fill_from_stash : ℕ → ℕ → List Block → PathData → PathData × List Block
fill_from_stash level bucket_size [] path = (path, [])
fill_from_stash level bucket_size (block ∷ stash) path =
    let (path', inserted) = Storage.fill_block_to_path block path level bucket_size in
    let (path'', remaining) = fill_from_stash level bucket_size stash path' in
    (path'', if inserted then remaining else block ∷ remaining)

unfoldable pub encrypt_path : Host → Bytes → ℕ → PathData → PathData × ℕ
unfolding encrypt_bucket
encrypt_path host key n [] = ([], n)
encrypt_path host key n ((node, bucket) ∷ path) =
    let (bucket', n') = encrypt_bucket host key n bucket in
    let (path', n'') = encrypt_path host key n' path in ((node, bucket') ∷ path', n'')

-- `while (bucket.size() < bucket_size_) bucket.push_back(Block{})`
unfoldable pub pad_bucket : ℕ → List Block → List Block
pad_bucket bucket_size bucket = bucket ++ Storage.empty_blocks (bucket_size - length bucket)

unfoldable pub pad_path : ℕ → PathData → PathData
unfolding pad_bucket
pad_path bucket_size [] = []
pad_path bucket_size ((node, bucket) ∷ path) =
    (node, pad_bucket bucket_size bucket) ∷ pad_path bucket_size path

-- What `prepare_eviction`, `prepare_eviction_paths` and `evict_stash` share: the stash is filled
-- into an empty path, and the rest must fit into the stash.
unfoldable pub fill_path : PathOram → List ℤ → Result (PathOram × PathData)
unfolding fill_from_stash
fill_path o leaves =
    let indices = Storage.get_merged_path_indices o.storage.level leaves in
    let (path, remaining) =
      fill_from_stash o.storage.level o.bucket_size o.stash (empty_path indices) in
    if ltb o.stash_max_size (length remaining)
    then throw stash_overflow
    else ok (record o { stash = remaining }, path)

unfoldable pub encrypted : Host → PathOram → PathData → PathOram × PathData
encrypted host o path =
    let (path', draws) = encrypt_path host o.aes_key o.draws path in
    (record o { draws = draws }, path')

unfoldable pub prepare_eviction : Host → PathOram → ℤ → Result (PathOram × PathData)
prepare_eviction host o leaf = do
  (o', path) ← fill_path o (leaf ∷ [])
  ok (encrypted host o' (host.order path))

unfoldable pub prepare_eviction_paths : Host → PathOram → List ℤ → Result (PathOram × PathData)
prepare_eviction_paths host o leaves = do
  (o', path) ← fill_path o leaves
  ok (encrypted host o' (pad_path o.bucket_size (host.order path)))

unfoldable pub write_back : PathOram × PathData → PathOram
write_back (o, path) = record o { storage = Storage.write_multiple_paths o.storage path }

unfoldable pub evict_stash : Host → PathOram → List ℤ → Result PathOram
unfolding fill_path encrypted write_back
evict_stash host o leaves = do
  (o', path) ← fill_path o leaves
  ok (write_back (encrypted host o' (host.order path)))

abbrev pub evict_and_write_path : Host → PathOram → ℤ → Result PathOram
evict_and_write_path host o leaf = evict_stash host o (leaf ∷ [])

abbrev pub evict_and_write_paths : Host → PathOram → List ℤ → Result PathOram
evict_and_write_paths = evict_stash

-- `rand_below(leaf_range)`
unfoldable pub random_leaf : Host → PathOram → ℤ
random_leaf host o = elim o.storage.leaf_range [
  | zero ↦ pos 0
  | suc n ↦ pos (host.draw o.draws (suc n))
]

unfoldable pub access_stats : PathOram → BandwidthStats
access_stats o =
    let path_bytes = o.storage.level * o.bucket_size * (o.block_size_bytes + 8) in
    record { bytes_downloaded = path_bytes; bytes_uploaded = path_bytes; rounds = 1 }

unfoldable pub count_access : PathOram → PathOram
unfolding access_stats add_stats
count_access o = record o {
  last_bw = access_stats o;
  total_bw = add_stats o.total_bw (access_stats o);
}

-- `if (new_value) target->value = *new_value; target->leaf = new_leaf;`
abbrev pub retarget : Option Bytes → ℤ → Block → Block
retarget none leaf block = record block { leaf = leaf }
retarget (some value) leaf block = record block { leaf = leaf; value = value }

unfoldable pub update_target : PathOram → ℤ → Option Bytes → ℤ → Result (PathOram × Bytes)
unfolding find_in_stash update_in_stash
update_target o key new_value new_leaf = elim (find_in_stash o.stash key) [
  | none ↦ throw not_found
  | some target ↦
      ok (
        record o { stash = update_in_stash (retarget new_value new_leaf) key o.stash },
        target.value,
      )
]

unfoldable pub access : Host → PathOram → ℤ → Option Bytes → Result (PathOram × Bytes)
unfolding leaf_or_throw update_target
access host o key new_value = do
  old_leaf ← leaf_or_throw (find_leaf o.pos_map key)
  let new_leaf = random_leaf host o
  let o₁ = record (set_leaf o key new_leaf) { last_bw = no_bandwidth; draws = o.draws + 1 }
  o₂ ← read_path_to_stash host o₁ old_leaf
  (o₃, result) ← update_target o₂ key new_value new_leaf
  o₄ ← evict_and_write_path host o₃ old_leaf
  ok (count_access o₄, result)

unfoldable pub dummy_access : Host → PathOram → Result PathOram
dummy_access host o = do
  let leaf = random_leaf host o
  o₁ ← read_path_to_stash host (record o { draws = o.draws + 1 }) leaf
  o₂ ← evict_and_write_path host o₁ leaf
  ok (count_access o₂)
