-- ===== src/Tiered/Init.antt =====
-- How a `TieredOMap` starts: the constructor and `init`, `enable_maintenance`, and the entries of the
-- hot map that both put into the cache. `make_omap` is given, as the maps that it makes for a number
-- of entries; so are the key of the data ORAM's cipher and the order in which an `unordered_map` of
-- blocks is iterated.
pub mod Load
pub mod Data
pub mod Order
pub mod Seed
pub mod Start
use tiered_omap.Prelude.{
  ℕ, suc, ◌+◌, ◌*◌, min, max, Bool, true, false, ◌==◌, ◌||◌, List, [], ◌∷◌, ◌++◌, ℤ, pos, ◌==ℤ◌,
  if◌then◌else◌, length, take, drop,
}
use tiered_omap.Common.{Host, Bytes, Result, ok, ◌>>=◌, invalid_key}
use tiered_omap.Common.Codec.{int_to_bytes, encode_with_epoch}
use tiered_omap.Oram.{PathOram}
use tiered_omap.Oram.Init
use tiered_omap.Maintenance.{MaintenanceConfig, CacheEntry, new_manager, init_cache}
use tiered_omap.Omap.{Omap}
use tiered_omap.Tiered.{
  SecurityMode, TieredOmap, KeySet, insert_key, erase_key, set_ref, insert_sorted,
}

pub data OmapBackend : Type 0 where
  avl b_plus da_avl da_bplus : OmapBackend

pub record TieredOmapConfig : Type 0 where
  pub total_keys : ℕ
  pub mode : SecurityMode
  pub bucket_size : ℕ
  pub backend : OmapBackend
  pub hot_backend : OmapBackend
  pub use_hot_backend : Bool
  pub maintenance : MaintenanceConfig

unfoldable pub effective_hot_backend : TieredOmapConfig → OmapBackend
effective_hot_backend config = if config.use_hot_backend then config.hot_backend else config.backend

unfoldable pub is_da : OmapBackend → Bool
is_da OmapBackend.avl = false
is_da OmapBackend.b_plus = false
is_da OmapBackend.da_avl = true
is_da OmapBackend.da_bplus = true

-- The set of the keys of a vector.
abbrev pub key_set : List ℤ → KeySet
key_set [] k = false
key_set (key ∷ keys) k = key ==ℤ k || key_set keys k

-- `std::sort`
unfoldable pub sort_keys : List ℤ → List ℤ
unfolding insert_sorted
sort_keys [] = []
sort_keys (key ∷ keys) = insert_sorted key (sort_keys keys)

-- `if (use_epoch) stored = encode_with_epoch(v, {0, 0})`
abbrev pub stored_value : Bool → Bytes → Bytes
stored_value true v = encode_with_epoch v (record { cnt = pos 0; ep = pos 0; fp = pos 0 })
stored_value false v = v

-- The loop over the data, from the next block on: the blocks, and the references of each tier.
unfoldable pub load_data :
    Bool → KeySet → ℕ → List (ℤ × Bytes) → List (ℤ × Bytes) × List (ℤ × Bytes) × List (ℤ × Bytes)
load_data use_epoch phys id [] = ([], [], [])
load_data use_epoch phys id ((k, v) ∷ entries) =
    let rest = load_data use_epoch phys (suc id) entries in
    let ref = int_to_bytes (pos id) in
    (
      (pos id, stored_value use_epoch v) ∷ rest.0,
      (if phys k then (k, ref) ∷ rest.1 else rest.1),
      (if phys k then rest.2 else (k, ref) ∷ rest.2),
    )

abbrev pub data_cap : Bool → ℕ → ℕ
data_cap use_epoch n = if use_epoch then max (n * 2) (n + 64) else n

abbrev pub cold_cap : Bool → ℕ → ℕ → ℕ
cold_cap use_epoch n_cold total_keys = if use_epoch then max n_cold total_keys else max n_cold 1

module _ {H C : Type 0} (hot : Omap H) where
  -- The loop over `to_extract`, with the entries of the cache so far.
  unfoldable pub extract_keys :
      TieredOmap H C → List ℤ → List CacheEntry → Result (TieredOmap H C × List CacheEntry)
  extract_keys t [] entries = ok (t, entries)
  extract_keys t (k ∷ keys) entries = do
    (hot₁, ref) ← hot.search t.hot_omap k
    hot₂ ← hot.remove hot₁ k
    extract_keys
        (record t {
          hot_omap = hot₂;
          phys_hot_keys = erase_key k t.phys_hot_keys;
          cache_keys = insert_key k t.cache_keys;
          cache_data_refs = set_ref k ref t.cache_data_refs;
        })
        keys (entries ++ record { key = k; fp = pos 0 } ∷ [])

  -- The first `cache_size` keys of the hot map go into the cache.
  unfoldable pub seed_cache : TieredOmap H C → Result (TieredOmap H C)
  unfolding extract_keys init_cache
  seed_cache t = do
    let extract_count = min t.maint.cfg.cache_size (length t.hot_key_list)
    (t₁, entries) ← extract_keys t (take extract_count t.hot_key_list) []
    ok (record t₁ {
      hot_key_list = drop extract_count t.hot_key_list;
      maint = init_cache t₁.maint entries;
    })

  unfoldable pub enable_maintenance : TieredOmap H C → MaintenanceConfig → Result (TieredOmap H C)
  unfolding seed_cache new_manager
  enable_maintenance t mc =
      seed_cache (record t { has_maint = true; maint = new_manager (record mc { enabled = true }) })

-- The fields as the constructor and `init` set them before the cache is filled.
abbrev pub new_tiered :
    {H C : Type 0} → TieredOmapConfig → List ℤ → H → C → PathOram → TieredOmap H C
new_tiered config hot_keys hot_omap cold_omap data_oram = record {
  mode = config.mode;
  is_da_hot = is_da (effective_hot_backend config);
  has_maint = config.maintenance.enabled;
  maint = new_manager config.maintenance;
  hot_omap = hot_omap;
  cold_omap = cold_omap;
  data_oram = data_oram;
  hot_keys = key_set hot_keys;
  phys_hot_keys = key_set hot_keys;
  hot_key_list = sort_keys hot_keys;
  cache_keys = λ k. false;
  cache_data_refs = λ k. [];
  pending_insert_key = invalid_key;
  pending_insert_ref = [];
  da_pending_demotions = [];
}

-- The constructor and `init`.
unfoldable pub init :
    {H C : Type 0}
    → Host
    → (hot : Omap H) (cold : Omap C) (make_hot : ℕ → H) (make_cold : ℕ → C) (aes_key : Bytes)
      (order : List (ℤ × Bytes) → List (ℤ × Bytes))
    → TieredOmapConfig
    → List (ℤ × Bytes)
    → List ℤ
    → Result (TieredOmap H C)
unfolding load_data seed_cache
init host hot cold make_hot make_cold aes_key order config all_data hot_keys = do
  let use_epoch = config.maintenance.enabled
  let loaded = load_data use_epoch (key_set hot_keys) 0 all_data
  data_oram ←
      Init.init host
        (Init.new_oram (data_cap use_epoch (max (length all_data) 1)) config.bucket_size 7 aes_key)
        (order loaded.0)
  hot_omap ← hot.init (make_hot (max (length loaded.1) 1)) loaded.1
  cold_omap ←
      cold.init (make_cold (cold_cap use_epoch (length loaded.2) config.total_keys)) loaded.2
  let t = new_tiered config hot_keys hot_omap cold_omap data_oram
  if use_epoch then seed_cache hot t else ok t
