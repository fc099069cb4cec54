-- ===== src/Tiered/Swap.antt =====
-- A key changes places with an entry of the cache, and the pending entry goes into a map: what the
-- sets of keys are afterwards.
use tiered_omap.Prelude.{
  ◌+◌, ◌≤◌, ◌≡◌, refl, sym, ap, ◌∙◌, true, false, not, ◌&&◌, ◌||◌, List, [], ◌∷◌, ℤ, ◌==ℤ◌, ==ℤ_iff,
  ==ℤ_comm, All, All-map, countb, to_nat, arith, Bool-cases, inl, inr,
}
use tiered_omap.Common.{Bytes, invalid_key}
use tiered_omap.Maintenance.{CacheEntry, SwapState}
use tiered_omap.Tiered.{Refs}
use tiered_omap.Tiered.{KeySet, insert_key, erase_key, set_ref, erase_ref, erase_sorted}
use tiered_omap.Tiered.Steps.{is_idle}
use tiered_omap.Tiered.Sorted.{All-erase_sorted, erase_sorted-Rising, erase_sorted-gone}
use tiered_omap.Tiered.Placed.{is_for, Tracked}
use tiered_omap.Tiered.Admit.{apart_by}

pub All-both : (P Q : ℤ → Type 0) (xs : List ℤ) → All P xs → All Q xs → All (λ x. P x × Q x) xs
All-both P Q [] a b = tt
All-both P Q (x ∷ xs) a b = ((a.0, b.0), All-both P Q xs a.1 b.1)

module _ (refs : Refs) (hot_keys phys cached : KeySet) (cache_refs : Refs) (keys : List ℤ)
    (pending : ℤ) (pending_ref : Bytes) (cache : List CacheEntry) (state : SwapState)
    (t : Tracked refs hot_keys phys cached cache_refs keys pending pending_ref cache state)
    (key out : ℤ) (cache' : List CacheEntry) (new : cached key ≡ false)
    (real_key : (key ==ℤ invalid_key) ≡ false) (old : 1 ≤ countb (is_for out) cache)
    (count : (k : ℤ)
      → to_nat (out ==ℤ k) + countb (is_for k) cache'
        ≡ countb (is_for k) cache + to_nat (key ==ℤ k)) where
  pub old_in_cache : cached out ≡ true
  old_in_cache = elim (Bool-cases (cached out)) [
    | inl e ↦ e
    | inr e ↦ absurd (let c = t.counted out in omega (arith, old, c, ap to_nat e))
  ]

  pub out_apart : (key ==ℤ out) ≡ false
  out_apart = ==ℤ_comm key out ∙ apart_by cached out key old_in_cache new

  real_out : (out ==ℤ invalid_key) ≡ false
  real_out = apart_by cached out invalid_key old_in_cache t.real_cached

  swap_counted :
      (k : ℤ) → countb (is_for k) cache' ≡ to_nat (not (out ==ℤ k) && (key ==ℤ k || cached k))
  swap_counted k = elim (Bool-cases (out ==ℤ k)) [
    | inl e ↦
        let c = (==ℤ_iff out k).0 e in
        let n = count k in
        let a = t.counted k in
        let b : (key ==ℤ k) ≡ false = rw (← c) out_apart in
        let d : cached k ≡ true = rw (← c) old_in_cache in
        rw e (let n' = rw (e, b, a, d) at n in omega (arith, n'))
    | inr e ↦ elim (Bool-cases (key ==ℤ k)) [
      | inl f ↦
          let c = (==ℤ_iff key k).0 f in
          let d : cached k ≡ false = rw (← c) new in
          let n' = rw (e, f, t.counted k, d) at (count k) in rw (e, f) (omega (arith, n'))
      | inr f ↦ let n' = rw (e, f, t.counted k) at (count k) in rw (e, f) (omega (arith, n'))
    ]
  ]

  -- From the hot map into the cache.
  module _ (in_hot : phys key ≡ true) (ref : Bytes) (is_ref : ref ≡ refs key) where
    pub demote-Tracked :
        Tracked refs hot_keys
          (erase_key key phys)
          (erase_key out (insert_key key cached))
          (erase_ref out (set_ref key ref cache_refs))
          (erase_sorted key keys)
          out
          (cache_refs out)
          cache'
          SwapState.hot_pend
    demote-Tracked = record {
      no_invalid = t.no_invalid;
      phys_apart = λ k e.
          let p : phys k ≡ true = ground (arith, e) in
          let q : (key ==ℤ k) ≡ false = ground (arith, e) in
          let c = (t.phys_apart k p).0 in
          (rw (q, c) (ground arith), apart_by cached out k old_in_cache c);
      cached_apart = λ k e. ground (arith, e);
      real_phys = rw t.real_phys (ground arith);
      real_cached = rw (real_key, t.real_cached) (ground arith);
      phys_hot = λ k e. t.phys_hot k (ground (arith, e));
      cached_hot = λ k e. elim (Bool-cases (key ==ℤ k)) [
        | inl f ↦ let c = (==ℤ_iff key k).0 f in rw (← c) (t.phys_hot key in_hot)
        | inr f ↦ t.cached_hot k (ground (arith, e, f))
      ];
      pending_hot = λ e. t.cached_hot out old_in_cache;
      idle_iff = sym real_out;
      counted = swap_counted;
      cached_ref = λ k e.
          let q : (out ==ℤ k) ≡ false = ground (arith, e) in
          elim (Bool-cases (key ==ℤ k)) [
            | inl f ↦ let c = (==ℤ_iff key k).0 f in rw (q, f, ← c) is_ref
            | inr f ↦ rw (q, f) (t.cached_ref k (ground (arith, e, f)))
          ];
      ref_pending = t.cached_ref out old_in_cache;
      listed =
          All-map (λ k. (phys k ≡ true) × ((key ==ℤ k) ≡ false)) (λ k. erase_key key phys k ≡ true)
            (λ k h. rw (h.0, h.1) refl) (erase_sorted key keys)
            (All-both (λ k. phys k ≡ true) (λ k. (key ==ℤ k) ≡ false) (erase_sorted key keys)
              (All-erase_sorted (λ k. phys k ≡ true) key keys t.listed)
              (erase_sorted-gone key keys t.rising));
      rising = erase_sorted-Rising key keys t.rising;
    }

  -- From the cold map into the cache.
  module _ (not_hot : phys key ≡ false) (idle : is_idle state ≡ true) (ref : Bytes)
      (is_ref : ref ≡ refs key) where
    pub promote-Tracked :
        Tracked refs
          (insert_key key (erase_key out hot_keys))
          phys
          (insert_key key (erase_key out cached))
          (set_ref key ref (erase_ref out cache_refs))
          keys
          out
          (cache_refs out)
          cache'
          SwapState.cold_pend
    promote-Tracked = record {
      no_invalid = t.no_invalid;
      phys_apart = λ k e.
          let c = (t.phys_apart k e).0 in
          let q = ==ℤ_comm key k ∙ apart_by phys k key e not_hot in
          (rw (q, c) (ground arith), apart_by cached out k old_in_cache c);
      cached_apart = λ k e. elim (Bool-cases (key ==ℤ k)) [
        | inl f ↦ let c = (==ℤ_iff key k).0 f in rw (← c) (==ℤ_comm out key ∙ out_apart)
        | inr f ↦ ground (arith, e, f)
      ];
      real_phys = t.real_phys;
      real_cached = rw (real_key, t.real_cached) (ground arith);
      phys_hot = λ k e.
          let q = apart_by cached out k old_in_cache (t.phys_apart k e).0 in
          rw (q, t.phys_hot k e) (ground arith);
      cached_hot = λ k e. elim (Bool-cases (key ==ℤ k)) [
        | inl f ↦ rw f refl
        | inr f ↦
            let q : (out ==ℤ k) ≡ false = ground (arith, e, f) in
            rw (f, q, t.cached_hot k (ground (arith, e, f))) refl
      ];
      pending_hot = λ e. absurd (let z : false ≡ true = e in cc);
      idle_iff = sym real_out;
      counted = λ k. swap_counted k ∙ elim (Bool-cases (key ==ℤ k)) [
        | inl f ↦
            let c = (==ℤ_iff key k).0 f in
            let q : (out ==ℤ k) ≡ false = rw (← c) (==ℤ_comm out key ∙ out_apart) in rw (f, q) refl
        | inr f ↦ rw f refl
      ];
      cached_ref = λ k e. elim (Bool-cases (key ==ℤ k)) [
        | inl f ↦ let c = (==ℤ_iff key k).0 f in rw (f, ← c) is_ref
        | inr f ↦
            let q : (out ==ℤ k) ≡ false = ground (arith, e, f) in
            rw (f, q) (t.cached_ref k (ground (arith, e, f)))
      ];
      ref_pending = t.cached_ref out old_in_cache;
      listed = t.listed;
      rising = t.rising;
    }
