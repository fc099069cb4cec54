-- ===== src/Tiered/Kept.antt =====
-- What `TieredOMap` keeps of its keys, whatever the two maps do: the operations of a map are any
-- functions here, so that nothing is asked of what they answer.
pub mod Steps
pub mod Access
pub mod Serve
pub mod Values
pub mod Loss
use tiered_omap.Prelude.{
  ◌≡◌, refl, sym, ◌∙◌, Bool, true, false, ◌&&◌, List, [], ℤ, ◌==ℤ◌, ==ℤ_iff, ==ℤ_refl, ==ℤ_comm,
  if◌then◌else◌, All, countb, to_nat, Bool-cases, inl, inr, arith,
}
use tiered_omap.Common.{Bytes, invalid_key}
use tiered_omap.Maintenance.{CacheEntry, SwapState}
use tiered_omap.Tiered.{TieredOmap, KeySet, Refs}
use tiered_omap.Tiered.Steps.{is_idle}
use tiered_omap.Tiered.Sorted.{Rising}
use tiered_omap.Tiered.Placed.{is_for, is_hot_pend, Tracked}

-- A key is in at most one of the hot map, the cache and the pending entry, none of these has the
-- reserved key, and a key of the hot map or the cache is hot. The cache has one entry for each cached
-- key and no other; an entry is pending unless the swap is idle; the list has keys of the hot map, in
-- ascending order.
pub record Orderly (hot_keys phys cached : KeySet) (keys : List ℤ) (pending : ℤ)
    (pending_ref : Bytes) (cache : List CacheEntry) (state : SwapState) : Type 0 where
  pub phys_apart : (k : ℤ) → phys k ≡ true → (cached k ≡ false) × ((pending ==ℤ k) ≡ false)
  pub cached_apart : (k : ℤ) → cached k ≡ true → (pending ==ℤ k) ≡ false
  pub real_phys : phys invalid_key ≡ false
  pub real_cached : cached invalid_key ≡ false
  pub phys_hot : (k : ℤ) → phys k ≡ true → hot_keys k ≡ true
  pub cached_hot : (k : ℤ) → cached k ≡ true → hot_keys k ≡ true
  pub pending_hot : is_hot_pend state ≡ true → hot_keys pending ≡ true
  pub idle_iff : is_idle state ≡ (pending ==ℤ invalid_key)
  pub counted : (k : ℤ) → countb (is_for k) cache ≡ to_nat (cached k)
  pub no_ref : is_idle state ≡ true → pending_ref ≡ []
  pub listed : All (λ k. phys k ≡ true) keys
  pub rising : Rising keys

-- The same of a state, whose hot map is not scanned by piggybacking.
abbrev pub Kept : {H C : Type 0} → TieredOmap H C → Type 0
Kept t =
    Orderly t.hot_keys t.phys_hot_keys t.cache_keys t.hot_key_list t.pending_insert_key
      t.pending_insert_ref t.maint.cache t.maint.swap_state
    × (t.is_da_hot && t.maint.cfg.piggyback ≡ false)

module _ (hot_keys phys cached : KeySet) (cache_refs : Refs) (keys : List ℤ) (pending : ℤ)
    (pending_ref : Bytes) (cache : List CacheEntry) (state : SwapState) where
  abbrev O : Type 0
  O = Orderly hot_keys phys cached keys pending pending_ref cache state

  -- The references at hand, and one more.
  abbrev pub at_hand : ℤ → Bytes → Refs
  at_hand key ref k =
      if pending ==ℤ k
      then pending_ref
      else if cached k
      then cache_refs k
      else if key ==ℤ k
      then ref
      else []

  pub track :
      (key : ℤ) (ref : Bytes)
      → (key ==ℤ invalid_key) ≡ false
      → O
      → Tracked
          (at_hand key ref)
          hot_keys
          phys
          cached
          cache_refs
          keys
          pending
          pending_ref
          cache
          state
  track key ref real o = record {
    no_invalid = elim (Bool-cases (pending ==ℤ invalid_key)) [
      | inl e ↦ rw e (o.no_ref (o.idle_iff ∙ e))
      | inr e ↦ rw (e, o.real_cached, real) refl
    ];
    phys_apart = o.phys_apart;
    cached_apart = o.cached_apart;
    real_phys = o.real_phys;
    real_cached = o.real_cached;
    phys_hot = o.phys_hot;
    cached_hot = o.cached_hot;
    pending_hot = o.pending_hot;
    idle_iff = o.idle_iff;
    counted = o.counted;
    cached_ref = λ k e. rw (o.cached_apart k e, e) refl;
    ref_pending = rw (==ℤ_refl pending) refl;
    listed = o.listed;
    rising = o.rising;
  }

  -- The reference of a key that is neither cached nor pending.
  pub at_hand-new :
      (key : ℤ) (ref : Bytes)
      → cached key ≡ false
      → (pending ==ℤ key) ≡ false
      → ref ≡ at_hand key ref key
  at_hand-new key ref e f = rw (f, e, ==ℤ_refl key) refl

  pub forget :
      (refs : Refs)
      → Tracked refs hot_keys phys cached cache_refs keys pending pending_ref cache state
      → O
  forget refs t = record {
    phys_apart = t.phys_apart;
    cached_apart = t.cached_apart;
    real_phys = t.real_phys;
    real_cached = t.real_cached;
    phys_hot = t.phys_hot;
    cached_hot = t.cached_hot;
    pending_hot = t.pending_hot;
    idle_iff = t.idle_iff;
    counted = t.counted;
    no_ref = λ e.
        let c = (==ℤ_iff pending invalid_key).0 (sym t.idle_iff ∙ e) in
        t.ref_pending ∙ rw c t.no_invalid;
    listed = t.listed;
    rising = t.rising;
  }
