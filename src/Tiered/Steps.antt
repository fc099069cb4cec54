-- ===== src/Tiered/Steps.antt =====
-- The maintenance steps of `TieredOMap`, and its explicit moves of a key between the tiers.
use tiered_omap.Prelude.{
  Bool, true, false, not, ◌&&◌, Option, none, some, List, [], ◌∷◌, ℤ, pos, ◌==ℤ◌, if◌then◌else◌,
}
use tiered_omap.Common.{Host, Bytes, Result, ok, ◌>>=◌, invalid_key}
use tiered_omap.Common.Codec.{decode_epoch}
use tiered_omap.Oram
use tiered_omap.Maintenance.{
  MaintenanceManager, SwapState, should_demote_cache, reset_scan_ptr, set_scan_ptr,
}
use tiered_omap.Omap.{Omap}
use tiered_omap.Tiered.{
  TieredOmap, ref_to_blk, data_access, insert_key, erase_key, insert_sorted, erase_sorted,
  upper_bound, demote_to_cache, clear_pending,
}

abbrev pub is_idle : SwapState → Bool
is_idle SwapState.idle = true
is_idle SwapState.hot_pend = false
is_idle SwapState.cold_pend = false

-- The key after the scan pointer, or the first one, and the manager with the pointer there.
unfoldable pub next_scan : MaintenanceManager → List ℤ → Option (MaintenanceManager × ℤ)
unfolding upper_bound
next_scan maint [] = none
next_scan maint (k ∷ keys) = elim (upper_bound maint.scan_ptr (k ∷ keys)) [
  | none ↦ some (set_scan_ptr (reset_scan_ptr maint) k, k)
  | some key ↦ some (set_scan_ptr maint key, key)
]

-- `next_scan_key()`
unfoldable pub next_scan_key : MaintenanceManager → List ℤ → MaintenanceManager × ℤ
unfolding next_scan
next_scan_key maint keys = elim (next_scan maint keys) [ none ↦ (maint, invalid_key) | some r ↦ r ]

module _ {H C : Type 0} (host : Host) (hot : Omap H) (cold : Omap C) where
  -- `hot_omap_->dummy_access(); data_oram_.dummy_access()`
  unfoldable pub scan_dummy : TieredOmap H C → Result (TieredOmap H C)
  scan_dummy t = do
    hot_omap ← hot.dummy_access t.hot_omap
    data_oram ← Oram.dummy_access host t.data_oram
    ok (record t { hot_omap = hot_omap; data_oram = data_oram })

  -- A demotion from the queue of the piggybacked scan, if the key is still in the hot map.
  unfoldable pub scan_queued : TieredOmap H C → ℤ → ℤ → Result (TieredOmap H C)
  scan_queued t dk dk_fp =
      if not (dk ==ℤ invalid_key) && t.phys_hot_keys dk
      then (do
        (hot₁, ref) ← hot.search t.hot_omap dk
        hot₂ ← hot.remove hot₁ dk
        ok (demote_to_cache (record t { hot_omap = hot₂ }) dk dk_fp ref))
      else (do hot_omap ← hot.dummy_access t.hot_omap; ok (record t { hot_omap = hot_omap }))

  unfoldable pub scan_queue : TieredOmap H C → Result (TieredOmap H C)
  unfolding scan_queued
  scan_queue t = elim t.da_pending_demotions [
    | [] ↦ scan_queued t invalid_key (pos 0)
    | d ∷ rest ↦ scan_queued (record t { da_pending_demotions = rest }) d.0 d.1
  ]

  -- What the metadata of a scanned key decides.
  unfoldable pub demote_scanned : TieredOmap H C → ℤ → ℤ → Bytes → Result (TieredOmap H C)
  demote_scanned t key fp ref =
      if should_demote_cache t.maint fp
      then (do
        hot₁ ← hot.remove t.hot_omap key
        ok (demote_to_cache (record t { hot_omap = hot₁ }) key fp ref))
      else ok t

  -- A scan of the key after the pointer.
  unfoldable pub scan_key : TieredOmap H C → MaintenanceManager × ℤ → Result (TieredOmap H C)
  unfolding data_access demote_scanned
  scan_key t (maint, key) = do
    (hot₁, ref) ← hot.search t.hot_omap key
    (o₁, raw) ← data_access host t.data_oram (ref_to_blk ref) none
    demote_scanned (record t { maint = maint; hot_omap = hot₁; data_oram = o₁ }) key
        (decode_epoch raw).1.fp ref

  unfoldable pub do_scan_step : TieredOmap H C → Result (TieredOmap H C)
  unfolding scan_dummy scan_queue scan_key next_scan
  do_scan_step t =
      if is_idle t.maint.swap_state
      then if t.is_da_hot && t.maint.cfg.piggyback
        then scan_queue t
        else elim (next_scan t.maint t.hot_key_list) [
          | none ↦ scan_dummy t
          | some next ↦ scan_key t next
        ]
      else scan_dummy t

  unfoldable pub do_hot_insert_step : TieredOmap H C → Result (TieredOmap H C)
  do_hot_insert_step t = elim t.maint.swap_state [
    | SwapState.hot_pend ↦ (do
      hot_omap ← hot.insert t.hot_omap t.pending_insert_key t.pending_insert_ref
      ok (
          clear_pending (record t {
            hot_omap = hot_omap;
            phys_hot_keys = insert_key t.pending_insert_key t.phys_hot_keys;
            hot_key_list = insert_sorted t.pending_insert_key t.hot_key_list;
          })))
    | _ ↦ (do hot_omap ← hot.dummy_access t.hot_omap; ok (record t { hot_omap = hot_omap }))
  ]

  unfoldable pub do_cold_insert_step : TieredOmap H C → Result (TieredOmap H C)
  do_cold_insert_step t = elim t.maint.swap_state [
    | SwapState.cold_pend ↦ (do
      cold_omap ← cold.insert t.cold_omap t.pending_insert_key t.pending_insert_ref
      ok (clear_pending (record t { cold_omap = cold_omap })))
    | _ ↦ (do cold_omap ← cold.dummy_access t.cold_omap; ok (record t { cold_omap = cold_omap }))
  ]

  unfoldable pub promote : TieredOmap H C → ℤ → Result (TieredOmap H C)
  promote t key = if t.hot_keys key then ok t else (do
    (cold₁, ref) ← cold.search t.cold_omap key
    cold₂ ← cold.remove cold₁ key
    hot₁ ← hot.insert t.hot_omap key ref
    ok (record t {
      hot_omap = hot₁;
      cold_omap = cold₂;
      hot_keys = insert_key key t.hot_keys;
      phys_hot_keys = insert_key key t.phys_hot_keys;
      hot_key_list = insert_sorted key t.hot_key_list;
    }))

  unfoldable pub demote : TieredOmap H C → ℤ → Result (TieredOmap H C)
  demote t key =
      if t.hot_keys key
      then (do
        (hot₁, ref) ← hot.search t.hot_omap key
        hot₂ ← hot.remove hot₁ key
        cold₁ ← cold.insert t.cold_omap key ref
        ok (record t {
          hot_omap = hot₂;
          cold_omap = cold₁;
          hot_keys = erase_key key t.hot_keys;
          phys_hot_keys = erase_key key t.phys_hot_keys;
          hot_key_list = erase_sorted key t.hot_key_list;
        }))
      else ok t
