-- ===== src/Tests/LossRuns.antt =====
-- Where `TieredOMap` loses a reference or the end of a value.
use tiered_omap.Prelude.{
  ◌-◌, ◌≡◌, refl, true, false, none, [], ◌∷◌, pos, negsuc, ◌==ℤ◌, ◌||◌, if◌then◌else◌, length, take,
  arith,
}
use tiered_omap.Common.{Bytes, ok, Yields, ceil_log2, invalid_key}
use tiered_omap.Oram.{PathOram, find_leaf}
use tiered_omap.Oram.Valid.{Holds}
use tiered_omap.Oram.Init
use tiered_omap.Oram.Init.{new_oram}
use tiered_omap.Oram.Init.Leaves.{table_of}
use tiered_omap.Oram.Init.Start.{init-Holds}
use tiered_omap.Storage.Fresh.{new_storage-IsShaped}
use tiered_omap.Maintenance.{MaintenanceConfig, MaintenanceManager, SwapState}
use tiered_omap.Tiered.{SecurityMode, TieredOmap, ref_to_blk, touch_block}
use tiered_omap.Tiered.Steps.{scan_queued}
use tiered_omap.Tiered.Init.{load_data}
use tiered_omap.Tiered.Init.Load.{refs_from, blocks-ValidKeys}
use tiered_omap.Tiered.Init.Data.{data-Stores}
use tiered_omap.Tiered.Kept.Loss.{scan_queued-loses, touch_block-truncates}
use tiered_omap.Tests.Hosts.{mirror_host}
use tiered_omap.Tests.ListMap.{Entries, list_map}

abbrev maintenance : MaintenanceConfig
maintenance = record {
  observation_window = 2;
  swap_interval = 3;
  cache_size = 1;
  enabled = true;
  piggyback = true;
}

-- One entry of the cache, of `fp` 1; the key 3 waits in the queue, with `fp` 2.
abbrev maint : MaintenanceManager
maint = record {
  cfg = maintenance;
  cache = record { key = pos 5; fp = pos 1 } ∷ [];
  swap_state = SwapState.idle;
  obs_epoch = 2;
  total_accesses = 6;
  scan_ptr = negsuc 0;
}

abbrev hot_entries : Entries
hot_entries = (pos 3, 0 ∷ 0 ∷ 0 ∷ 0 ∷ []) ∷ []

abbrev queued : TieredOmap Entries Entries
queued = record {
  mode = SecurityMode.full_oblivious;
  is_da_hot = true;
  has_maint = true;
  maint = maint;
  hot_omap = hot_entries;
  cold_omap = [];
  data_oram = new_oram 2 1 7 (1 ∷ []);
  hot_keys = λ k. k ==ℤ pos 3 || k ==ℤ pos 5;
  phys_hot_keys = λ k. k ==ℤ pos 3;
  hot_key_list = pos 3 ∷ [];
  cache_keys = λ k. k ==ℤ pos 5;
  cache_data_refs = λ k. if k ==ℤ pos 5 then 1 ∷ 0 ∷ 0 ∷ 0 ∷ [] else [];
  pending_insert_key = invalid_key;
  pending_insert_ref = [];
  da_pending_demotions = (pos 3, pos 2) ∷ [];
}

scan_queued-loses_example :
    (r : TieredOmap Entries Entries) × (scan_queued mirror_host list_map list_map queued
        (pos 3)
        (pos 2)
      ≡ ok r)
    × (r.hot_omap ≡ (pos 3, []) ∷ hot_entries)
    × (r.phys_hot_keys (pos 3) ≡ false)
    × (r.cache_keys (pos 3) ≡ false)
    × (r.cache_data_refs (pos 3) ≡ [])
    × (r.pending_insert_key ≡ pos 3)
    × (r.pending_insert_ref ≡ [])
scan_queued-loses_example =
    scan_queued-loses mirror_host list_map list_map queued (pos 3) (pos 2) hot_entries
      ((pos 3, []) ∷ hot_entries) (0 ∷ 0 ∷ 0 ∷ 0 ∷ []) refl refl refl (refl, tt) refl refl

abbrev long_value : Bytes
long_value = 1 ∷ 2 ∷ 3 ∷ 4 ∷ 5 ∷ 6 ∷ 7 ∷ 8 ∷ 9 ∷ 10 ∷ 11 ∷ 12 ∷ 13 ∷ []

abbrev stored : Entries
stored = (pos 7, long_value) ∷ []

abbrev blocks : Entries
blocks = (load_data false (λ k. false) 0 stored).0

plain :
    (o : PathOram) × (Init.init mirror_host (new_oram 1 1 7 (1 ∷ [])) blocks ≡ ok o)
    × Holds (ceil_log2 1) mirror_host (table_of blocks) o
unfolding new_oram find_leaf
plain =
    init-Holds mirror_host (new_oram 1 1 7 (1 ∷ [])) blocks (new_storage-IsShaped 1 1)
      (λ k leaf e. absurd (ground arith)) (λ k e. refl)
      (blocks-ValidKeys false (λ k. false) 0 stored)

touch_block-truncates_example :
    Yields
      (touch_block mirror_host maint plain.0 (ref_to_blk (refs_from 0 stored (pos 7))) none)
      (λ r. r.1 ≡ take (length long_value - 12) long_value)
unfolding table_of
touch_block-truncates_example =
    touch_block-truncates (ceil_log2 1) mirror_host (refs_from 0 stored) (table_of stored) plain.0
      maint (pos 7) long_value
      (data-Stores false (λ k. false) stored (ground arith) (ceil_log2 1) mirror_host plain.0
        plain.2)
      refl (omega arith)
