-- ===== src/Tiered/Placed.antt =====
-- What `TieredOMap` keeps of its keys: each is in one of the maps, in the cache, or waits to be
-- inserted.
use tiered_omap.Prelude.{◌≡◌, Bool, true, false, List, [], ℤ, ◌==ℤ◌, All, countb, to_nat}
use tiered_omap.Common.{Bytes, invalid_key}
use tiered_omap.Maintenance.{CacheEntry, SwapState}
use tiered_omap.Tiered.{Refs}
use tiered_omap.Tiered.{KeySet}
use tiered_omap.Tiered.Steps.{is_idle}
use tiered_omap.Tiered.Sorted.{Rising}

abbrev pub is_for : ℤ → CacheEntry → Bool
is_for k e = e.key ==ℤ k

abbrev pub is_hot_pend : SwapState → Bool
is_hot_pend SwapState.hot_pend = true
is_hot_pend SwapState.idle = false
is_hot_pend SwapState.cold_pend = false

-- The sets of keys, the cache and the pending entry, for references `refs` of the keys.
pub record Tracked (refs : Refs) (hot_keys phys cached : KeySet) (cache_refs : Refs) (keys : List ℤ)
    (pending : ℤ) (pending_ref : Bytes) (cache : List CacheEntry) (state : SwapState) : Type 0 where
  pub no_invalid : refs invalid_key ≡ []
  pub phys_apart : (k : ℤ) → phys k ≡ true → (cached k ≡ false) × ((pending ==ℤ k) ≡ false)
  pub cached_apart : (k : ℤ) → cached k ≡ true → (pending ==ℤ k) ≡ false
  pub real_phys : phys invalid_key ≡ false
  pub real_cached : cached invalid_key ≡ false
  pub phys_hot : (k : ℤ) → phys k ≡ true → hot_keys k ≡ true
  pub cached_hot : (k : ℤ) → cached k ≡ true → hot_keys k ≡ true
  pub pending_hot : is_hot_pend state ≡ true → hot_keys pending ≡ true
  pub idle_iff : is_idle state ≡ (pending ==ℤ invalid_key)
  pub counted : (k : ℤ) → countb (is_for k) cache ≡ to_nat (cached k)
  pub cached_ref : (k : ℤ) → cached k ≡ true → cache_refs k ≡ refs k
  pub ref_pending : pending_ref ≡ refs pending
  pub listed : All (λ k. phys k ≡ true) keys
  pub rising : Rising keys
