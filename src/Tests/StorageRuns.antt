-- ===== src/Tests/StorageRuns.antt =====
-- A tree of four leaves.
use tiered_omap.Prelude.{
  ℕ, ◌-◌, ◌^◌, ◌≤◌, ◌<◌, ◌≡◌, refl, List, [], ◌∷◌, pos, All, elem, countb, true, false, ◌⊎◌, ◌+◌,
  arith, length,
}
use tiered_omap.Common.{Block, ok, ceil_log2}
use tiered_omap.Common.Codec.{EpochMeta, encode_with_epoch, decode_epoch}
use tiered_omap.Common.Codec.RoundTrip.{decode_epoch-encode_with_epoch}
use tiered_omap.Storage.{
  Storage, PathData, fill_block_to_path, push_at, nodes_of, new_storage, leaf_node,
  get_merged_path_indices, bulk_load, bucket_at,
}
use tiered_omap.Storage.Paths.{IsLeaf}
use tiered_omap.Storage.Merged.{Ascending, on_paths, merged-on_paths}
use tiered_omap.Storage.Deepest.{has_room, fill_block_to_path-deepest}
use tiered_omap.Storage.Load.{BelowNode, bulk_load-places}
use tiered_omap.Storage.Fresh.{new_storage-IsShaped, new_storage-empty}
use tiered_omap.Oram.{encrypt_bucket, decrypt_bucket}
use tiered_omap.Storage.Write.{tree_count}
use tiered_omap.Oram.Crypt.{has_key, decrypt_bucket-encrypt_bucket}
use tiered_omap.Tests.Hosts.{mirror_host}

abbrev tree : Storage
tree = new_storage 4 2

third : IsLeaf 2 (pos 2)
third = (2, refl, omega arith)

merged-on_paths_example :
    ((x : ℕ)
      → elem x (get_merged_path_indices 3 (pos 2 ∷ pos 2 ∷ []))
        ≡ on_paths (2 ^ 2) (pos 2 ∷ pos 2 ∷ []) x)
    × Ascending (get_merged_path_indices 3 (pos 2 ∷ pos 2 ∷ []))
    × All (λ m. m < 2 ^ 3 - 1) (get_merged_path_indices 3 (pos 2 ∷ pos 2 ∷ []))
merged-on_paths_example = merged-on_paths 2 (pos 2 ∷ pos 2 ∷ []) (third, (third, tt))

abbrev blocks : List Block
blocks =
    record { key = pos 1; leaf = pos 2; value = 5 ∷ 6 ∷ [] }
    ∷ record { key = pos 3; leaf = pos 2; value = [] }
    ∷ []

bulk_load-places_example :
    (length (bucket_at (bulk_load tree blocks).0.buckets 5) ≤ tree.bucket_size)
    × All (BelowNode 2 5) (bucket_at (bulk_load tree blocks).0.buckets 5)
    × (tree_count (has_key (pos 3)) tree.buckets
        ≤ tree_count (has_key (pos 3)) (bulk_load tree blocks).0.buckets)
    × (tree_count (has_key (pos 3)) (bulk_load tree blocks).0.buckets
        ≤ tree_count (has_key (pos 3)) tree.buckets + countb (has_key (pos 3)) blocks)
bulk_load-places_example =
    bulk_load-places 2 tree blocks (unfold ceil_log2 in new_storage-IsShaped 4 2)
      (λ n. let e = (new_storage-empty 4 2).0 n in rw e (omega arith))
      (λ n. let e = (new_storage-empty 4 2).0 n in rw e tt) (third, (third, tt)) 5 (has_key (pos 3))

decrypt_bucket-encrypt_bucket_example :
    decrypt_bucket mirror_host (1 ∷ []) (encrypt_bucket mirror_host (1 ∷ []) 0 blocks).0 ≡ ok blocks
decrypt_bucket-encrypt_bucket_example = decrypt_bucket-encrypt_bucket mirror_host (1 ∷ []) 0 blocks

abbrev meta : EpochMeta
meta = record { cnt = pos 300; ep = pos 2; fp = pos 7 }

decode_epoch-encode_with_epoch_example :
    decode_epoch (encode_with_epoch (1 ∷ 2 ∷ []) meta) ≡ (1 ∷ 2 ∷ [], meta)
decode_epoch-encode_with_epoch_example =
    decode_epoch-encode_with_epoch (1 ∷ 2 ∷ []) meta (omega arith, omega arith, omega arith)

abbrev raw : List ℕ
raw = 9 ∷ 1 ∷ 0 ∷ 0 ∷ 0 ∷ 255 ∷ 255 ∷ 255 ∷ 255 ∷ 2 ∷ 0 ∷ 0 ∷ 0 ∷ []

abbrev incoming : Block
incoming = record { key = pos 4; leaf = pos 2; value = [] }

-- The leaf's node is full.
abbrev path_of_2 : PathData
path_of_2 = (0, []) ∷ (5, blocks) ∷ (2, []) ∷ []

fill_block_to_path-deepest_example :
    ((fill_block_to_path incoming path_of_2 3 2 ≡ (path_of_2, false))
      × (has_room 2 (leaf_node (2 ^ (3 - 1)) (pos 2)) path_of_2 0 ≡ false))
    ⊎ ((node : ℕ) × (fill_block_to_path incoming path_of_2 3 2
          ≡ (push_at node incoming path_of_2, true))
        × (elem node (nodes_of path_of_2) ≡ true)
        × (has_room 2 (leaf_node (2 ^ (3 - 1)) (pos 2)) path_of_2 node ≡ true)
        × ((has_room 2 (leaf_node (2 ^ (3 - 1)) (pos 2)) path_of_2 0 ≡ false) ⊎ (0 ≤ node)))
fill_block_to_path-deepest_example = fill_block_to_path-deepest incoming path_of_2 3 2 0 refl
