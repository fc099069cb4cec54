-- ===== src/Tiered.antt =====
-- src/tiered_omap.cpp and include/tiered_omap/tiered_omap.h: `TieredOMap` without a channel, so that
-- `access` never interleaves the two maps. A set of keys is its membership test, `cache_data_refs_`
-- the function that its `operator[]` is, with the empty buffer for a missing key. `has_maint` says
-- whether `maint_` is set; where it is not, `maint` is not read.
pub mod Steps
pub mod Access
pub mod Sorted
pub mod Stores
pub mod Touch
pub mod Placed
pub mod Admit
pub mod Swap
pub mod Settle
pub mod Kept
pub mod Init
use tiered_omap.Prelude.{
  ℕ, Bool, true, false, ◌||◌, ◌&&◌, not, Option, none, some, List, [], ◌∷◌, ℤ, pos, negsuc, ◌==ℤ◌,
  ltb_ℤ, if◌then◌else◌,
}
use tiered_omap.Common.{Host, Bytes, Result, ok, ◌>>=◌, BandwidthStats, no_bandwidth, invalid_key}
use tiered_omap.Common.Codec.{EpochMeta, bytes_to_int, decode_epoch, encode_with_epoch}
use tiered_omap.Oram.{PathOram}
use tiered_omap.Oram
use tiered_omap.Maintenance.{
  MaintenanceManager, CacheEntry, SwapState, update_meta, cache_admit, set_swap_state,
}

pub data SecurityMode : Type 0 where
  full_oblivious tier_membership : SecurityMode

abbrev pub KeySet : Type 0
KeySet = ℤ → Bool

-- The reference of each key: the empty buffer for none.
abbrev pub Refs : Type 0
Refs = ℤ → Bytes

abbrev pub insert_key : ℤ → KeySet → KeySet
insert_key key s k = key ==ℤ k || s k

abbrev pub erase_key : ℤ → KeySet → KeySet
erase_key key s k = not (key ==ℤ k) && s k

abbrev pub set_ref : ℤ → Bytes → (ℤ → Bytes) → ℤ → Bytes
set_ref key ref refs k = if key ==ℤ k then ref else refs k

abbrev pub erase_ref : ℤ → (ℤ → Bytes) → ℤ → Bytes
erase_ref key = set_ref key []

pub record TieredOmap (H C : Type 0) : Type 0 where
  pub mode : SecurityMode
  pub is_da_hot : Bool
  pub has_maint : Bool
  pub maint : MaintenanceManager
  pub hot_omap : H
  pub cold_omap : C
  pub data_oram : PathOram
  pub hot_keys : KeySet
  pub phys_hot_keys : KeySet
  pub hot_key_list : List ℤ
  pub cache_keys : KeySet
  pub cache_data_refs : ℤ → Bytes
  pub pending_insert_key : ℤ
  pub pending_insert_ref : Bytes
  pub da_pending_demotions : List (ℤ × ℤ)

abbrev pub invalid_block : ℤ
invalid_block = negsuc 0

unfoldable pub ref_to_blk : Bytes → ℤ
ref_to_blk [] = invalid_block
ref_to_blk (b ∷ ref) = bytes_to_int (b ∷ ref)

unfoldable pub data_access : Host → PathOram → ℤ → Option Bytes → Result (PathOram × Bytes)
data_access host o blk new_value =
    if ltb_ℤ blk (pos 0)
    then (do o' ← Oram.dummy_access host o; ok (o', []))
    else Oram.access host o blk new_value

-- `std::lower_bound`, then `insert` there
unfoldable pub insert_sorted : ℤ → List ℤ → List ℤ
insert_sorted key [] = key ∷ []
insert_sorted key (k ∷ keys) = if ltb_ℤ k key then k ∷ insert_sorted key keys else key ∷ k ∷ keys

-- `std::lower_bound`, then `erase` there if it is the key
unfoldable pub erase_sorted : ℤ → List ℤ → List ℤ
erase_sorted key [] = []
erase_sorted key (k ∷ keys) =
    if ltb_ℤ k key then k ∷ erase_sorted key keys else if k ==ℤ key then keys else k ∷ keys

-- `*std::upper_bound`, or nothing at the end
unfoldable pub upper_bound : ℤ → List ℤ → Option ℤ
upper_bound ptr [] = none
upper_bound ptr (k ∷ keys) = if ltb_ℤ ptr k then some k else upper_bound ptr keys

-- `new_value ? *new_value : val`
abbrev pub value_or : Option Bytes → Bytes → Bytes
value_or none val = val
value_or (some v) val = v

-- `Bytes wb = encode_with_epoch(new_value ? *new_value : val, meta)`, between a read and a write of
-- the block. It returns the value, and the metadata after `update_meta`.
unfoldable pub touch_block :
    Host → MaintenanceManager → PathOram → ℤ → Option Bytes → Result (PathOram × Bytes × EpochMeta)
unfolding data_access
touch_block host maint o blk new_value = do
  (o₁, raw) ← data_access host o blk none
  let (val, stored) = decode_epoch raw
  let meta = update_meta maint stored
  let value = value_or new_value val
  (o₂, _) ← data_access host o₁ blk (some (encode_with_epoch value meta))
  ok (o₂, value, meta)

module _ {H C : Type 0} where
  -- A key of the hot tier goes into the cache, and the entry that leaves the cache waits to go back.
  unfoldable pub demote_to_cache : TieredOmap H C → ℤ → ℤ → Bytes → TieredOmap H C
  demote_to_cache t key fp ref =
      let (maint, evicted) = cache_admit t.maint key fp true in
      record t {
        pending_insert_key = evicted.key;
        pending_insert_ref = t.cache_data_refs evicted.key;
        phys_hot_keys = erase_key key t.phys_hot_keys;
        hot_key_list = erase_sorted key t.hot_key_list;
        cache_keys = erase_key evicted.key (insert_key key t.cache_keys);
        cache_data_refs = erase_ref evicted.key (set_ref key ref t.cache_data_refs);
        maint = set_swap_state maint SwapState.hot_pend;
      }

  -- A key of the cold tier goes into the cache, and the entry that leaves the cache waits to go to
  -- the cold tier.
  unfoldable pub promote_to_cache : TieredOmap H C → ℤ → ℤ → Bytes → TieredOmap H C
  promote_to_cache t key fp ref =
      let (maint, evicted) = cache_admit t.maint key fp false in
      record t {
        pending_insert_key = evicted.key;
        pending_insert_ref = t.cache_data_refs evicted.key;
        cache_keys = insert_key key (erase_key evicted.key t.cache_keys);
        cache_data_refs = set_ref key ref (erase_ref evicted.key t.cache_data_refs);
        hot_keys = insert_key key (erase_key evicted.key t.hot_keys);
        maint = set_swap_state maint SwapState.cold_pend;
      }

  -- The pending entry has been inserted.
  unfoldable pub clear_pending : TieredOmap H C → TieredOmap H C
  clear_pending t = record t {
    pending_insert_key = invalid_key;
    pending_insert_ref = [];
    maint = set_swap_state t.maint SwapState.idle;
  }
