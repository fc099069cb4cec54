-- ===== src/Tiered/Init/Seed.antt =====
-- The loop that takes keys of the hot map into the cache keeps the keys in order, whatever the hot map
-- answers.
use tiered_omap.Prelude.{
  ℕ, zero, suc, ◌≡◌, refl, min, true, false, ◌&&◌, List, [], ◌∷◌, ◌++◌, ℤ, pos, ◌==ℤ◌, ==ℤ_iff,
  ◌<ℤ◌, All-map, countb, countb-append, length, take, drop, arith, Bool-cases, inl, inr,
}
use tiered_omap.Common.{Bytes, Returns, Returns-bind, Returns-after, invalid_key}
use tiered_omap.Oram.{PathOram}
use tiered_omap.Maintenance.{CacheEntry, SwapState, init_cache}
use tiered_omap.Omap.{Omap}
use tiered_omap.Tiered.{TieredOmap, KeySet, Refs, insert_key, erase_key, set_ref}
use tiered_omap.Tiered.Placed.{is_for, Tracked}
use tiered_omap.Tiered.Admit.{apart_by}
use tiered_omap.Tiered.Swap.{All-both}
use tiered_omap.Tiered.Kept.{Kept, Orderly, track, at_hand-new, forget}
use tiered_omap.Tiered.Init.{extract_keys, seed_cache}

-- The first key of the list goes into the cache.
seed-Tracked :
    (refs : Refs) (hot_keys phys cached : KeySet) (cache_refs : Refs) (key : ℤ) (keys : List ℤ)
    (pending : ℤ) (pending_ref : Bytes) (cache : List CacheEntry) (state : SwapState) (ref : Bytes)
    → Tracked refs hot_keys phys cached cache_refs (key ∷ keys) pending pending_ref cache state
    → ref ≡ refs key
    → Tracked refs hot_keys
        (erase_key key phys)
        (insert_key key cached)
        (set_ref key ref cache_refs)
        keys
        pending
        pending_ref
        (cache ++ record { key = key; fp = pos 0 } ∷ [])
        state
unfolding countb
seed-Tracked refs hot_keys phys cached cache_refs key keys pending pending_ref cache state ref t r =
    let here = t.listed.0 in
    let apart = t.phys_apart key here in
    record {
      no_invalid = t.no_invalid;
      phys_apart = λ k e.
          let f : (key ==ℤ k) ≡ false = ground (arith, e) in
          let h = t.phys_apart k (ground (arith, e)) in (rw (f, h.0) refl, h.1);
      cached_apart = λ k e. elim (Bool-cases (key ==ℤ k)) [
        | inl f ↦ let c = (==ℤ_iff key k).0 f in rw (← c) apart.1
        | inr f ↦ t.cached_apart k (ground (arith, e, f))
      ];
      real_phys = rw t.real_phys (ground arith);
      real_cached = rw (apart_by phys key invalid_key here t.real_phys, t.real_cached) refl;
      phys_hot = λ k e. t.phys_hot k (ground (arith, e));
      cached_hot = λ k e. elim (Bool-cases (key ==ℤ k)) [
        | inl f ↦ let c = (==ℤ_iff key k).0 f in rw (← c) (t.phys_hot key here)
        | inr f ↦ t.cached_hot k (ground (arith, e, f))
      ];
      pending_hot = t.pending_hot;
      idle_iff = t.idle_iff;
      counted = λ k.
          let b = countb-append (is_for k) cache (record { key = key; fp = pos 0 } ∷ []) in
          let c = t.counted k in
          elim (Bool-cases (key ==ℤ k)) [
            | inl f ↦
                let c' = (==ℤ_iff key k).0 f in
                let d : cached k ≡ false = rw (← c') apart.0 in
                let b' = rw f at b in let c'' = rw d at c in rw f (omega (arith, b', c''))
            | inr f ↦ let b' = rw f at b in rw f (omega (arith, b', c))
          ];
      cached_ref = λ k e. elim (Bool-cases (key ==ℤ k)) [
        | inl f ↦ let c = (==ℤ_iff key k).0 f in rw (f, ← c) r
        | inr f ↦ rw f (t.cached_ref k (ground (arith, e, f)))
      ];
      ref_pending = t.ref_pending;
      listed =
          All-map (λ k. (phys k ≡ true) × (key <ℤ k)) (λ k. erase_key key phys k ≡ true)
            (λ k h. let f : (key ==ℤ k) ≡ false = ground (arith, h.1) in rw (h.0, f) refl) keys
            (All-both (λ k. phys k ≡ true) (λ k. key <ℤ k) keys t.listed.1 t.rising.0);
      rising = t.rising.1;
    }

module _ {H C : Type 0} (hot : Omap H) (o : PathOram) where
  -- The loop has put `entries` into the cache, and `keys` are the keys that are still listed.
  abbrev pub Seeding : List ℤ → List CacheEntry → TieredOmap H C → Type 0
  Seeding keys entries t =
      Orderly t.hot_keys t.phys_hot_keys t.cache_keys keys t.pending_insert_key t.pending_insert_ref
        entries t.maint.swap_state
      × (t.is_da_hot && t.maint.cfg.piggyback ≡ false)
      × (t.data_oram ≡ o)

  extract_keys-Seeding :
      (n : ℕ) (keys : List ℤ) (entries : List CacheEntry) (t : TieredOmap H C)
      → Seeding keys entries t
      → Returns (extract_keys hot t (take n keys) entries) (λ r. Seeding (drop n keys) r.1 r.0)
  unfolding extract_keys
  extract_keys-Seeding zero keys entries t s = s
  extract_keys-Seeding (suc n) [] entries t s = s
  extract_keys-Seeding (suc n) (key ∷ keys) entries t s =
      let Q = λ (r : TieredOmap H C × List CacheEntry). Seeding (drop n keys) r.1 r.0 in
      let here = s.0.listed.0 in
      let apart = s.0.phys_apart key here in
      Returns-after Q (hot.search t.hot_omap key) _ (λ r e.
        Returns-after Q (hot.remove r.0 key) _ (λ m e'.
          let tracked =
            track t.hot_keys t.phys_hot_keys t.cache_keys t.cache_data_refs (key ∷ keys)
              t.pending_insert_key t.pending_insert_ref entries t.maint.swap_state key r.1
              (apart_by t.phys_hot_keys key invalid_key here s.0.real_phys) s.0 in
          extract_keys-Seeding n keys _ _ (
            forget _ _ _ _ _ _ _ _ _ _ (
                seed-Tracked _ _ _ _ _ key keys _ _ _ _ r.1 tracked (
                  at_hand-new t.hot_keys t.phys_hot_keys t.cache_keys t.cache_data_refs (key ∷ keys)
                    t.pending_insert_key t.pending_insert_ref entries t.maint.swap_state key r.1
                    apart.0 apart.1)),
            s.1,
            s.2,
          )))

  -- The entries of the cache are set at the end.
  pub seed_cache-Kept :
      (t : TieredOmap H C)
      → Seeding t.hot_key_list [] t
      → Returns (seed_cache hot t) (λ r. Kept r × (r.data_oram ≡ o))
  unfolding seed_cache init_cache
  seed_cache-Kept t s =
      let n = min t.maint.cfg.cache_size (length t.hot_key_list) in
      Returns-bind
        (λ (r : TieredOmap H C × List CacheEntry). Seeding (drop n t.hot_key_list) r.1 r.0)
        (λ r. Kept r × (r.data_oram ≡ o)) _ _ (extract_keys-Seeding n t.hot_key_list [] t s)
        (λ r v. ((v.0, v.1), v.2))
