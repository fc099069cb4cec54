-- ===== src/Tests/OramRuns.antt =====
-- `PathORAM` on three blocks of data.
use tiered_omap.Prelude.{◌+◌, ◌<◌, ◌≡◌, refl, ◌⊎◌, none, some, List, [], ◌∷◌, ℤ, pos, length, arith}
use tiered_omap.Common.{
  Host, Bytes, Result, ok, throw, ◌>>=◌, out_of_range, stash_overflow, ceil_log2,
}
use tiered_omap.Common
use tiered_omap.Storage
use tiered_omap.Oram
use tiered_omap.Oram.Init
use tiered_omap.Storage.{read_path}
use tiered_omap.Storage.Fill.{path_count}
use tiered_omap.Storage.Fresh.{new_storage-IsShaped}
use tiered_omap.Oram.{PathOram, find_leaf, access, dummy_access, random_leaf}
use tiered_omap.Oram.Valid.{Holds}
use tiered_omap.Oram.Room.{is_real}
use tiered_omap.Oram.Written.{written}
use tiered_omap.Oram.Access.{access-Holds}
use tiered_omap.Oram.Dummy.{dummy_access-Holds}
use tiered_omap.Oram.Init.{new_oram, init}
use tiered_omap.Oram.Init.Leaves.{table_of}
use tiered_omap.Oram.Init.Start.{init-Holds}
use tiered_omap.Tests.Hosts.{mirror_host}

abbrev entries : List (ℤ × Bytes)
entries = (pos 1, 10 ∷ 11 ∷ []) ∷ (pos 4, []) ∷ (pos 2, 20 ∷ []) ∷ []

abbrev empty : PathOram
empty = new_oram 3 1 7 (1 ∷ 2 ∷ 3 ∷ [])

-- Reads, a write and a read back.
session : Result (Bytes × Bytes × Bytes)
session = do
  o ← init mirror_host empty entries
  (o₁, a) ← access mirror_host o (pos 1) none
  (o₂, b) ← access mirror_host o₁ (pos 2) (some (9 ∷ 9 ∷ []))
  o₃ ← dummy_access mirror_host o₂
  (o₄, c) ← access mirror_host o₃ (pos 2) none
  ok (a, b, c)

program : Unit {0}
unfolding new_oram init access dummy_access Init.data_blocks find_leaf Init.assign_leaves
    Init.ensure_leaf Oram.assign_leaf Init.unplaced Oram.read_path_to_stash Oram.apply_fetched_path
    Oram.fetched_blocks read_path Storage.get_path_indices Storage.nodes_up Oram.set_leaf
    Storage.bulk_load Storage.fill_all Storage.fill_data_to_leaf Storage.reset Common.add_stats
    ceil_log2 Common.ceil_log2_from Init.encrypt_value Init.is_placed Oram.access_stats
    Oram.aes_decrypt Oram.aes_encrypt Oram.count_access Oram.decrypt_block Oram.decrypt_bucket
    Oram.encrypt_block Oram.encrypt_bucket Oram.encrypt_path Oram.encrypted Oram.evict_stash
    Oram.fill_from_stash Oram.fill_path Oram.find_in_stash Oram.is_ciphered Oram.leaf_or_throw
    random_leaf Oram.real_blocks Oram.update_in_stash Oram.update_target Oram.write_back
    Storage.all_keys Storage.choose_node Storage.climb Storage.climbs_to Storage.fill_block_to_path
    Storage.fill_chosen Storage.fill_up Storage.get_merged_path_indices Storage.insert_all
    Storage.insert_desc Storage.is_ancestor Storage.merge_paths Storage.new_storage
    Storage.path_bucket Storage.push_at Storage.real_keys Storage.set_insert Storage.sort_desc
    Storage.write_multiple_paths Storage.write_nodes
program = tt

session_returns : session ≡ ok (10 ∷ 11 ∷ [], 20 ∷ [], 9 ∷ 9 ∷ [])
unfolding session program
session_returns = refl

-- The state after `init`, with the proof that it holds the data.
start :
    (o : PathOram) × (init mirror_host empty entries ≡ ok o)
    × Holds (ceil_log2 3) mirror_host (table_of entries) o
unfolding new_oram find_leaf
start =
    init-Holds mirror_host empty entries (new_storage-IsShaped 3 1)
      (λ k leaf e. absurd (ground arith)) (λ k e. refl)
      (refl, (refl, (refl, tt)), (refl, (refl, tt), (refl, tt, tt)))

abbrev o₀ : PathOram
o₀ = start.0

init-Holds_example :
    (o : PathOram) × (init mirror_host empty entries ≡ ok o)
    × Holds (ceil_log2 3) mirror_host (table_of entries) o
unfolding new_oram find_leaf
init-Holds_example =
    init-Holds mirror_host empty entries (new_storage-IsShaped 3 1)
      (λ k leaf e. absurd (ground arith)) (λ k e. refl)
      (refl, (refl, (refl, tt)), (refl, (refl, tt), (refl, tt, tt)))

access-Holds_example :
    ((access mirror_host o₀ (pos 1) (some (9 ∷ [])) ≡ throw stash_overflow)
      × ((leaf : ℤ) × (find_leaf o₀.pos_map (pos 1) ≡ some leaf)
          × (o₀.stash_max_size < length o₀.stash + path_count is_real (read_path o₀.storage leaf))))
    ⊎ ((o' : PathOram) × (access mirror_host o₀ (pos 1) (some (9 ∷ [])) ≡ ok (o', 10 ∷ 11 ∷ []))
        × Holds (ceil_log2 3) mirror_host (written (table_of entries) (pos 1) (some (9 ∷ []))) o')
unfolding table_of
access-Holds_example =
    access-Holds (ceil_log2 3) mirror_host (table_of entries) o₀ (pos 1) (some (9 ∷ []))
      (10 ∷ 11 ∷ []) start.2 refl

dummy_access-Holds_example :
    ((dummy_access mirror_host o₀ ≡ throw stash_overflow)
      × (o₀.stash_max_size
          < length o₀.stash
            + path_count is_real (read_path o₀.storage (random_leaf mirror_host o₀))))
    ⊎ ((o' : PathOram) × (dummy_access mirror_host o₀ ≡ ok o')
        × Holds (ceil_log2 3) mirror_host (table_of entries) o')
dummy_access-Holds_example =
    dummy_access-Holds (ceil_log2 3) mirror_host (table_of entries) o₀ start.2
