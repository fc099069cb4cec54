-- ===== src/Tiered/Kept/Loss.antt =====
-- Where `TieredOMap` loses the reference or the value of a key.
use tiered_omap.Prelude.{
  ℕ, ◌≤◌, ◌≡◌, refl, true, false, List, [], ◌∷◌, ◌++◌, ℤ, ◌==ℤ◌, ==ℤ_refl, ltb_ℤ, length, take, ltb,
  ◌-◌, none, some, All, All-map, All-append, All-perm, ◌≤ℤ◌, ◌⊎◌, inl, inr, arith,
}
use tiered_omap.Common.{Host, Bytes, ok, ◌>>=◌, Yields, Yields-bind, invalid_key}
use tiered_omap.Maintenance.{CacheEntry, MaintenanceManager, cache_admit, update_meta}
use tiered_omap.Maintenance.Cache.{cache_admit-perm, admitted, Leaves}
use tiered_omap.Omap.{Omap}
use tiered_omap.Tiered.{Refs}
use tiered_omap.Common.Codec.{EpochMeta, encode_with_epoch, decode_epoch}
use tiered_omap.Oram.{PathOram}
use tiered_omap.Oram.Valid.{Table, Holds}
use tiered_omap.Oram.Written.{written}
use tiered_omap.Tiered.{TieredOmap, demote_to_cache, ref_to_blk, data_access, touch_block}
use tiered_omap.Tiered.Stores.{Stores, access_block}
use tiered_omap.Tiered.Steps.{scan_queued}

All-last :
    (P : CacheEntry → Type 0) (xs : List CacheEntry) (x : CacheEntry) → All P (xs ++ x ∷ []) → P x
All-last P [] x a = a.0
All-last P (y ∷ xs) x a = All-last P xs x a.1

-- A hot key with a greater `fp` than every cached one leaves the cache at once.
evicts_itself :
    (maint : MaintenanceManager) (key fp : ℤ)
    → All (λ e. ltb_ℤ e.fp fp ≡ true) maint.cache
    → (cache_admit maint key fp true).1.key ≡ key
evicts_itself maint key fp less =
    let out = (cache_admit maint key fp true).1 in
    let new : CacheEntry = record { key = key; fp = fp } in
    let P = λ (x : CacheEntry). (x.key ≡ key) ⊎ (ltb_ℤ x.fp fp ≡ true) in
    let (perm, leaves) = cache_admit-perm maint key fp true in
    let a : All P (admitted maint key fp) =
      All-append P maint.cache (new ∷ [])
        (All-map (λ e. ltb_ℤ e.fp fp ≡ true) P (λ e l. inr l) maint.cache less) (inl refl, tt) in
    let le : fp ≤ℤ out.fp = All-last (λ b. Leaves true out b) maint.cache new leaves in
    elim (All-perm P perm a).0 [ inl e ↦ e | inr l ↦ absurd (ground (arith, l, le)) ]

module _ {H C : Type 0} (host : Host) (hot : Omap H) (cold : Omap C) where
  -- A queued demotion whose `fp` is greater than every cached one: where the hot map answers the search
  -- with a reference and then removes the key, the step returns, and the reference is nowhere in the
  -- new state: the key is not in the hot map or the cache, and the entry that then waits to be inserted
  -- has the key with an empty reference. The key is not the reserved one, it is in the hot map, and no
  -- reference is cached for it.
  pub scan_queued-loses :
      (t : TieredOmap H C) (key fp : ℤ) (hot₁ hot₂ : H) (ref : Bytes)
      → (key ==ℤ invalid_key) ≡ false
      → t.phys_hot_keys key ≡ true
      → t.cache_data_refs key ≡ []
      → All (λ e. ltb_ℤ e.fp fp ≡ true) t.maint.cache
      → hot.search t.hot_omap key ≡ ok (hot₁, ref)
      → hot.remove hot₁ key ≡ ok hot₂
      → (r : TieredOmap H C) × (scan_queued host hot cold t key fp ≡ ok r)
        × (r.hot_omap ≡ hot₂)
        × (r.phys_hot_keys key ≡ false)
        × (r.cache_keys key ≡ false)
        × (r.cache_data_refs key ≡ [])
        × (r.pending_insert_key ≡ key)
        × (r.pending_insert_ref ≡ [])
  unfolding scan_queued demote_to_cache
  scan_queued-loses t key fp hot₁ hot₂ ref real here bare less found removed =
      let itself = evicts_itself t.maint key fp less in
      (
        demote_to_cache (record t { hot_omap = hot₂ }) key fp ref,
        rw (real, here, found, ◌>>=◌, removed, ◌>>=◌) refl,
        refl,
        rw (==ℤ_refl key) refl,
        rw (itself, ==ℤ_refl key) refl,
        rw (itself, ==ℤ_refl key) refl,
        itself,
        rw itself bare,
      )

-- A key whose block holds its value without metadata, as `init` stores it where maintenance is not
-- enabled: an access with maintenance reads it without its last twelve bytes, or throws a stash
-- overflow. The value has twelve bytes at least.
pub touch_block-truncates :
    (h : ℕ) (host : Host) (refs : Refs) (V : Table) (o : PathOram) (maint : MaintenanceManager)
    (key : ℤ) (v : Bytes)
    → Stores h host false refs V o
    → V key ≡ some v
    → 12 ≤ length v
    → Yields
        (touch_block host maint o (ref_to_blk (refs key)) none)
        (λ r. r.1 ≡ take (length v - 12) v)
unfolding touch_block decode_epoch
touch_block-truncates h host refs V o maint key v s e long =
    let blk = ref_to_blk (refs key) in
    let (real, (raw, has, f)) = rw e at (s.entry key) in
    let Q = λ (r : PathOram × Bytes × EpochMeta). r.1 ≡ take (length v - 12) v in
    let enough : ltb (length v) 12 ≡ false = ground (arith, long) in
    Yields-bind (λ (r : PathOram × Bytes). Holds h host s.blocks r.0 × (r.1 ≡ raw)) Q _ _
      (access_block h host s.blocks o blk none raw s.holds real has)
      (λ r u.
        let value = (decode_epoch r.1).0 in
        let wb = encode_with_epoch value (update_meta maint (decode_epoch r.1).1) in
        Yields-bind
          (λ (r' : PathOram × Bytes).
            Holds h host (written s.blocks blk (some wb)) r'.0 × (r'.1 ≡ raw))
          Q (data_access host r.0 blk (some wb)) _
          (access_block h host s.blocks r.0 blk (some wb) raw u.0 real has)
          (λ r' u'. rw (u.1, f, enough) refl))
