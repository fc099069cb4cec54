-- ===== src/Tests/TieredRuns.antt =====
-- `TieredOMap` on three entries of data, two of them hot and one of these in the cache.
use mathlib.Core.List.Permᴰ
use tiered_omap.Prelude.{
  ◌≡◌, refl, sym, ap, Bool, true, false, Option, none, some, List, [], ◌∷◌, ℤ, pos, ◌==ℤ◌,
  if◌then◌else◌, arith,
}
use tiered_omap.Common.{Bytes, Result, ok, throw, ◌>>=◌, Returns, ceil_log2}
use tiered_omap.Common
use tiered_omap.Common.Codec
use tiered_omap.Storage
use tiered_omap.Storage.{read_path}
use tiered_omap.Oram
use tiered_omap.Oram.Init.{new_oram}
use tiered_omap.Oram.Init
use tiered_omap.Oram.{find_leaf, random_leaf}
use tiered_omap.Maintenance
use tiered_omap.Maintenance.{MaintenanceConfig, CacheEntry}
use tiered_omap.Tiered.{SecurityMode, TieredOmap}
use tiered_omap.Tiered
use tiered_omap.Tiered.Steps
use tiered_omap.Tiered.Steps.{promote, demote}
use tiered_omap.Tiered.Kept.Steps.{promote-Kept, demote-Kept, maintain-Kept}
use tiered_omap.Tiered.Access
use tiered_omap.Tiered.Access.{access, maintain}
use tiered_omap.Tiered.Kept.{Kept}
use tiered_omap.Tiered.Kept.Access.{access-Kept}
use tiered_omap.Tiered.Init.{TieredOmapConfig, OmapBackend}
use tiered_omap.Tiered.Init as TieredInit
use tiered_omap.Tiered.Init.Start.{height, Started, init-Kept}
use tiered_omap.Tiered.Kept.Values.{TakesRef, access-Stores}
use tiered_omap.Tiered.Stores.{Stores, wrote, value_of}
use tiered_omap.Tiered.{value_or}
use tiered_omap.Tiered.Init.Load.{refs_from}
use tiered_omap.Oram.Init.Leaves.{table_of}
use tiered_omap.Tests.Hosts.{mirror_host}
use tiered_omap.Tests.ListMap.{Entries, list_map, make_list}

abbrev maintenance : MaintenanceConfig
maintenance = record {
  observation_window = 2;
  swap_interval = 3;
  cache_size = 1;
  enabled = true;
  piggyback = false;
}

abbrev config : TieredOmapConfig
config = record {
  total_keys = 3;
  mode = SecurityMode.full_oblivious;
  bucket_size = 1;
  backend = OmapBackend.avl;
  hot_backend = OmapBackend.avl;
  use_hot_backend = false;
  maintenance = maintenance;
}

abbrev entries : List (ℤ × Bytes)
entries = (pos 3, 30 ∷ []) ∷ (pos 5, 50 ∷ 51 ∷ []) ∷ (pos 9, []) ∷ []

abbrev hot_keys : List ℤ
hot_keys = pos 5 ∷ pos 3 ∷ []

abbrev cipher_key : Bytes
cipher_key = 1 ∷ 2 ∷ []

-- A read of each key, a write, and reads of what was written and of a missing key.
abbrev requests : List (ℤ × Option Bytes)
requests =
    (pos 9, none) ∷ (pos 5, none) ∷ (pos 3, some (7 ∷ [])) ∷ (pos 3, none) ∷ (pos 4, none) ∷ []

program : Unit {0}
unfolding new_oram Init.init Oram.access Oram.dummy_access Init.data_blocks find_leaf
    Init.assign_leaves Init.ensure_leaf Oram.assign_leaf Init.unplaced Oram.read_path_to_stash
    Oram.apply_fetched_path Oram.fetched_blocks read_path Storage.get_path_indices Storage.nodes_up
    Oram.set_leaf Storage.bulk_load Storage.fill_all Storage.fill_data_to_leaf Storage.reset
    Common.add_stats ceil_log2 Common.ceil_log2_from Init.encrypt_value Init.is_placed
    Oram.access_stats Oram.aes_decrypt Oram.aes_encrypt Oram.count_access Oram.decrypt_block
    Oram.decrypt_bucket Oram.encrypt_block Oram.encrypt_bucket Oram.encrypt_path Oram.encrypted
    Oram.evict_stash Oram.fill_from_stash Oram.fill_path Oram.find_in_stash Oram.is_ciphered
    Oram.leaf_or_throw random_leaf Oram.real_blocks Oram.update_in_stash Oram.update_target
    Oram.write_back Storage.all_keys Storage.choose_node Storage.climb Storage.climbs_to
    Storage.fill_block_to_path Storage.fill_chosen Storage.fill_up Storage.get_merged_path_indices
    Storage.insert_all Storage.insert_desc Storage.is_ancestor Storage.merge_paths
    Storage.new_storage Storage.path_bucket Storage.push_at Storage.real_keys Storage.set_insert
    Storage.sort_desc Storage.write_multiple_paths Storage.write_nodes Codec.int_to_bytes
    Codec.bytes_to_int Codec.bits Codec.of_bits Codec.encode_with_epoch Codec.decode_epoch
    TieredInit.load_data TieredInit.sort_keys TieredInit.seed_cache TieredInit.extract_keys
    TieredInit.effective_hot_backend TieredInit.is_da TieredInit.init Maintenance.new_manager
    Maintenance.init_cache Tiered.insert_sorted
program = tt

started_map : Result (TieredOmap Entries Entries)
started_map =
    TieredInit.init mirror_host list_map list_map make_list make_list cipher_key (λ blocks. blocks)
      config entries hot_keys

is_ok : Result (TieredOmap Entries Entries) → Bool
is_ok (ok t) = true
is_ok (throw e) = false

from_ok :
    (P : TieredOmap Entries Entries → Type 0) (r : Result (TieredOmap Entries Entries))
    → is_ok r ≡ true
    → Returns r P
    → (t : TieredOmap Entries Entries) × P t
unfolding is_ok
from_ok P (ok t) e y = (t, y)
from_ok P (throw e') e y = absurd (let z : false ≡ true = e in cc)

started_ok : is_ok started_map ≡ true
unfolding program started_map is_ok
started_ok = refl

abbrev StartedBy : TieredOmap Entries Entries → Type 0
StartedBy =
    Started mirror_host list_map list_map make_list make_list cipher_key (λ blocks. blocks) config
      entries hot_keys

-- The map after `init`.
start : (t : TieredOmap Entries Entries) × StartedBy t
unfolding TieredInit.is_da TieredInit.effective_hot_backend
start = from_ok StartedBy started_map started_ok (
    unfold started_map in
    init-Kept mirror_host list_map list_map make_list make_list cipher_key (λ blocks. blocks) config
      entries hot_keys (refl, (refl, (refl, tt)), (refl, (refl, tt), (refl, tt, tt))) (ground arith)
      (refl, (refl, tt), (refl, tt, tt)) Permᴰ.refl refl)

abbrev t₀ : TieredOmap Entries Entries
t₀ = start.0

access-Kept_example :
    Returns (access mirror_host list_map list_map t₀ (pos 5) (some (8 ∷ 9 ∷ []))) (λ r. Kept r.0)
access-Kept_example =
    access-Kept mirror_host list_map list_map t₀ (pos 5) (some (8 ∷ 9 ∷ [])) start.1.0 refl

maintain-Kept_example : Returns (maintain mirror_host list_map list_map t₀) (λ r. Kept r)
maintain-Kept_example = maintain-Kept mirror_host list_map list_map t₀ start.1.0

-- The requests in their order.
unfoldable access_all : TieredOmap Entries Entries → List (ℤ × Option Bytes) → Result (List Bytes)
access_all t [] = ok []
access_all t ((key, nv) ∷ rest) = do
  (t₁, result) ← access mirror_host list_map list_map t key nv
  values ← access_all t₁ rest
  ok (result.value ∷ values)

-- The whole session, with the maintenance that runs between the requests.
session : Result (List Bytes)
session = started_map >>= λ t. access_all t requests

values : Result (List Bytes) → List Bytes
values (ok r) = r
values (throw e) = []

session_returns : values session ≡ [] ∷ (50 ∷ 51 ∷ []) ∷ (7 ∷ []) ∷ (7 ∷ []) ∷ [] ∷ []
unfolding program session started_map values access_all access Access.access_epoch
    Access.access_plain Access.access_branch Access.access_pending Access.access_cached
    Access.access_sequential Access.search_hot Access.search_cold Access.promote_cold
    Access.piggyback_scan Access.queue_demotion maintain Access.with_traffic Access.total_traffic
    Access.added_traffic Access.cold_dummy Access.hot_dummy Steps.do_scan_step
    Steps.do_hot_insert_step Steps.do_cold_insert_step Steps.scan_key Steps.scan_dummy
    Steps.demote_scanned Steps.next_scan Tiered.touch_block Tiered.data_access Tiered.ref_to_blk
    Tiered.demote_to_cache Tiered.promote_to_cache Tiered.clear_pending Tiered.erase_sorted
    Tiered.upper_bound Maintenance.tick Maintenance.should_scan Maintenance.should_hot_insert
    Maintenance.should_cold_insert Maintenance.should_promote Maintenance.should_demote_cache
    Maintenance.update_cache_fp Maintenance.update_meta Maintenance.cache_admit
    Maintenance.set_swap_state Maintenance.set_scan_ptr Maintenance.reset_scan_ptr
    Maintenance.can_maintain Maintenance.phase Maintenance.hot_insert_phase
    Maintenance.cold_insert_phase Maintenance.best_fp Maintenance.best_idx Maintenance.entry_at
    Maintenance.erase_idx Maintenance.evict_idx Maintenance.update_fp
session_returns = refl

nine_apart : (t₀.pending_insert_key ==ℤ pos 9) ≡ false
unfolding program start from_ok started_map is_ok
nine_apart = refl

five_hot : t₀.phys_hot_keys (pos 5) ≡ t₀.hot_keys (pos 5)
unfolding program start from_ok started_map is_ok
five_hot = refl

promote-Kept_example : Returns (promote mirror_host list_map list_map t₀ (pos 9)) (λ r.
    Kept r
    × (r.hot_keys (pos 9) ≡ true)
    × ((k : ℤ) → (pos 9 ==ℤ k) ≡ false → r.hot_keys k ≡ t₀.hot_keys k))
promote-Kept_example =
    promote-Kept mirror_host list_map list_map t₀ (pos 9) start.1.0 refl nine_apart

demote-Kept_example : Returns (demote mirror_host list_map list_map t₀ (pos 5)) (λ r.
    Kept r
    × (r.hot_keys (pos 5) ≡ false)
    × ((k : ℤ) → (pos 5 ==ℤ k) ≡ false → r.hot_keys k ≡ t₀.hot_keys k))
demote-Kept_example = demote-Kept mirror_host list_map list_map t₀ (pos 5) start.1.0 five_hot

answer : Result (Entries × Bytes) → Bytes
answer (ok r) = r.1
answer (throw e) = []

-- The access of 5 takes its reference from the hot map.
takes_five : TakesRef list_map list_map (refs_from 0 entries) t₀ (pos 5)
unfolding program start from_ok started_map is_ok answer refs_from
takes_five = (
  λ e. absurd (let z : false ≡ true = e in cc),
  λ e. absurd (let z : false ≡ true = e in cc),
  λ w e s ref found. sym (ap answer found),
  λ w e s ref found. absurd (let z : true ≡ false = e in cc),
)

five_stored :
    Stores
      (height mirror_host list_map list_map make_list make_list cipher_key
        (λ blocks. blocks)
        config
        entries
        hot_keys)
      mirror_host
      t₀.has_maint
      (refs_from 0 entries)
      (table_of entries)
      t₀.data_oram
unfolding program start from_ok started_map is_ok
five_stored = start.1.1

access-Stores_example :
    Returns (access mirror_host list_map list_map t₀ (pos 5) (some (8 ∷ 9 ∷ []))) (λ r.
      Stores
        (height mirror_host list_map list_map make_list make_list cipher_key
          (λ blocks. blocks)
          config
          entries
          hot_keys)
        mirror_host
        t₀.has_maint
        (refs_from 0 entries)
        (wrote (table_of entries) (pos 5) (some (8 ∷ 9 ∷ [])))
        r.0.data_oram
      × (r.1.value ≡ (
          if t₀.has_maint
          then value_or (some (8 ∷ 9 ∷ [])) (value_of (table_of entries (pos 5)))
          else value_of (table_of entries (pos 5)))))
access-Stores_example =
    access-Stores
      (height mirror_host list_map list_map make_list make_list cipher_key (λ blocks. blocks) config
        entries hot_keys)
      mirror_host list_map list_map (refs_from 0 entries) (table_of entries) t₀ (pos 5)
      (some (8 ∷ 9 ∷ [])) five_stored takes_five
