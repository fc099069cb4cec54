-- ===== src/Maintenance.antt =====
-- include/tiered_omap/maintenance.h, `MaintenanceManager`. Counters that only grow are natural numbers. A window or an interval
-- of 0 divides by zero in the source; here the quotient is 0.
pub mod Epochs
pub mod Phases
pub mod Cache
use tiered_omap.Prelude.{
  ℕ, zero, suc, ◌+◌, ◌*◌, ◌/◌, ◌%◌, ltb, ◌==◌, max, Bool, true, false, ◌&&◌, ◌||◌, List, [], ◌∷◌,
  ◌++◌, ℤ, pos, negsuc, ◌+ℤ◌, ◌-ℤ◌, ◌==ℤ◌, ltb_ℤ, if◌then◌else◌,
}
use tiered_omap.Common.{invalid_key}
use tiered_omap.Common.Codec.{EpochMeta}

pub record MaintenanceConfig : Type 0 where
  pub observation_window : ℕ
  pub swap_interval : ℕ
  pub cache_size : ℕ
  pub enabled : Bool
  pub piggyback : Bool

pub record CacheEntry : Type 0 where
  pub key : ℤ
  pub fp : ℤ

-- `CacheEntry{}`
abbrev pub no_entry : CacheEntry
no_entry = record { key = invalid_key; fp = pos 0 }

pub data SwapState : Type 0 where
  idle hot_pend cold_pend : SwapState

pub record MaintenanceManager : Type 0 where
  pub cfg : MaintenanceConfig
  pub cache : List CacheEntry
  pub swap_state : SwapState
  pub obs_epoch : ℕ
  pub total_accesses : ℕ
  pub scan_ptr : ℤ

unfoldable pub new_manager : MaintenanceConfig → MaintenanceManager
new_manager cfg = record {
  cfg = cfg;
  cache = [];
  swap_state = SwapState.idle;
  obs_epoch = 0;
  total_accesses = 0;
  scan_ptr = negsuc 0;
}

unfoldable pub update_meta : MaintenanceManager → EpochMeta → EpochMeta
update_meta mgr stored =
    if ltb_ℤ stored.ep (pos mgr.obs_epoch)
    then record {
      cnt = pos 1;
      ep = pos mgr.obs_epoch;
      fp = if stored.ep ==ℤ pos mgr.obs_epoch -ℤ pos 1 then stored.cnt else pos 0;
    }
    else record stored { cnt = stored.cnt +ℤ pos 1 }

unfoldable pub tick : MaintenanceManager → MaintenanceManager
tick mgr = record mgr {
  total_accesses = mgr.total_accesses + 1;
  obs_epoch = (mgr.total_accesses + 1) / mgr.cfg.observation_window;
}

unfoldable pub can_maintain : MaintenanceManager → Bool
can_maintain mgr = ltb 0 mgr.total_accesses && ltb 0 mgr.obs_epoch

unfoldable pub phase : MaintenanceManager → ℕ
phase mgr = mgr.total_accesses % mgr.cfg.swap_interval

abbrev pub scan_phase : ℕ
scan_phase = 0

unfoldable pub hot_insert_phase : MaintenanceManager → ℕ
hot_insert_phase mgr = max 1 (mgr.cfg.swap_interval / 3)

unfoldable pub cold_insert_phase : MaintenanceManager → ℕ
cold_insert_phase mgr = max 2 (2 * mgr.cfg.swap_interval / 3)

unfoldable pub should_scan : MaintenanceManager → Bool
unfolding can_maintain phase
should_scan mgr = can_maintain mgr && phase mgr == scan_phase

unfoldable pub should_hot_insert : MaintenanceManager → Bool
unfolding can_maintain phase hot_insert_phase
should_hot_insert mgr = can_maintain mgr && phase mgr == hot_insert_phase mgr

unfoldable pub should_cold_insert : MaintenanceManager → Bool
unfolding can_maintain phase cold_insert_phase
should_cold_insert mgr = can_maintain mgr && phase mgr == cold_insert_phase mgr

unfoldable pub should_maintain : MaintenanceManager → Bool
unfolding should_scan should_hot_insert should_cold_insert
should_maintain mgr = should_scan mgr || should_hot_insert mgr || should_cold_insert mgr

-- The loops that run over the cache keep an extreme `fp` so far: the least if `better a b` is
-- `a < b`, the greatest if it is `a > b`.
unfoldable pub best_fp : (ℤ → ℤ → Bool) → ℤ → List CacheEntry → ℤ
best_fp better cur [] = cur
best_fp better cur (e ∷ rest) = best_fp better (if better e.fp cur then e.fp else cur) rest

abbrev pub gtb_ℤ : ℤ → ℤ → Bool
gtb_ℤ a b = ltb_ℤ b a

unfoldable pub should_promote : MaintenanceManager → ℤ → Bool
unfolding best_fp
should_promote mgr fp = elim mgr.cache [
  | [] ↦ false
  | e ∷ rest ↦ ltb_ℤ (best_fp ltb_ℤ e.fp rest) fp
]

unfoldable pub should_demote_cache : MaintenanceManager → ℤ → Bool
unfolding best_fp
should_demote_cache mgr fp = elim mgr.cache [
  | [] ↦ false
  | e ∷ rest ↦ ltb_ℤ fp (best_fp gtb_ℤ e.fp rest)
]

-- The index of the extreme entry: `idx` with `fp` is the best so far, `i` the next index.
unfoldable pub best_idx : (ℤ → ℤ → Bool) → ℕ → ℕ → ℤ → List CacheEntry → ℕ
best_idx better i idx cur [] = idx
best_idx better i idx cur (e ∷ rest) =
    let b = better e.fp cur in
    best_idx better (i + 1) (if b then i else idx) (if b then e.fp else cur) rest

-- `cache_[idx]`
unfoldable pub entry_at : List CacheEntry → ℕ → CacheEntry
entry_at [] idx = no_entry
entry_at (e ∷ rest) zero = e
entry_at (e ∷ rest) (suc idx) = entry_at rest idx

-- `cache_.erase(cache_.begin() + idx)`
unfoldable pub erase_idx : List CacheEntry → ℕ → List CacheEntry
erase_idx [] idx = []
erase_idx (e ∷ rest) zero = rest
erase_idx (e ∷ rest) (suc idx) = e ∷ erase_idx rest idx

unfoldable pub evict_idx : Bool → List CacheEntry → ℕ
unfolding best_idx
evict_idx from_hot [] = 0
evict_idx from_hot (e ∷ rest) = best_idx (if from_hot then gtb_ℤ else ltb_ℤ) 1 0 e.fp rest

-- The new state and the evicted entry.
unfoldable pub cache_admit : MaintenanceManager → ℤ → ℤ → Bool → MaintenanceManager × CacheEntry
unfolding evict_idx entry_at erase_idx
cache_admit mgr key fp from_hot =
    let cache = mgr.cache ++ record { key = key; fp = fp } ∷ [] in
    let idx = evict_idx from_hot cache in
    (record mgr { cache = erase_idx cache idx }, entry_at cache idx)

unfoldable pub set_swap_state : MaintenanceManager → SwapState → MaintenanceManager
set_swap_state mgr st = record mgr { swap_state = st }

unfoldable pub set_scan_ptr : MaintenanceManager → ℤ → MaintenanceManager
set_scan_ptr mgr key = record mgr { scan_ptr = key }

unfoldable pub reset_scan_ptr : MaintenanceManager → MaintenanceManager
reset_scan_ptr mgr = record mgr { scan_ptr = negsuc 0 }

unfoldable pub init_cache : MaintenanceManager → List CacheEntry → MaintenanceManager
init_cache mgr entries = record mgr { cache = entries }

unfoldable pub has_entry : ℤ → List CacheEntry → Bool
has_entry key [] = false
has_entry key (e ∷ cache) = e.key ==ℤ key || has_entry key cache

unfoldable pub is_in_cache : MaintenanceManager → ℤ → Bool
unfolding has_entry
is_in_cache mgr key = has_entry key mgr.cache

unfoldable pub update_fp : ℤ → ℤ → List CacheEntry → List CacheEntry
update_fp key new_fp [] = []
update_fp key new_fp (e ∷ cache) =
    if e.key ==ℤ key then record e { fp = new_fp } ∷ cache else e ∷ update_fp key new_fp cache

unfoldable pub update_cache_fp : MaintenanceManager → ℤ → ℤ → MaintenanceManager
unfolding update_fp
update_cache_fp mgr key new_fp = record mgr { cache = update_fp key new_fp mgr.cache }
