-- ===== src/Tiered/Settle.antt =====
-- The pending entry goes into a map, and a key moves between the maps: what the sets of keys are
-- afterwards.
use tiered_omap.Prelude.{
  ◌≡◌, refl, sym, ◌∙◌, true, false, List, [], ℤ, ◌==ℤ◌, ==ℤ_iff, ==ℤ_refl, ==ℤ_comm, All, All-map,
  arith, Bool-cases, inl, inr,
}
use tiered_omap.Common.{Bytes, invalid_key}
use tiered_omap.Maintenance.{CacheEntry, SwapState}
use tiered_omap.Tiered.{Refs}
use tiered_omap.Tiered.{KeySet, insert_key, erase_key, insert_sorted, erase_sorted}
use tiered_omap.Tiered.Steps.{is_idle}
use tiered_omap.Tiered.Sorted.{
  All-insert_sorted, insert_sorted-Rising, All-erase_sorted, erase_sorted-Rising, erase_sorted-gone,
}
use tiered_omap.Tiered.Placed.{is_hot_pend, Tracked}
use tiered_omap.Tiered.Admit.{apart_by}
use tiered_omap.Tiered.Swap.{All-both}

module _ (refs : Refs) (hot_keys phys cached : KeySet) (cache_refs : Refs) (keys : List ℤ)
    (pending : ℤ) (pending_ref : Bytes) (cache : List CacheEntry) (state : SwapState)
    (t : Tracked refs hot_keys phys cached cache_refs keys pending pending_ref cache state) where
  pub pending_not_hot : phys pending ≡ false
  pending_not_hot = elim (Bool-cases (phys pending)) [
    | inl e ↦
        absurd
          (let z = (t.phys_apart pending e).1 in let r = ==ℤ_refl pending in ground (arith, z, r))
    | inr e ↦ e
  ]

  pub pending_not_cached : cached pending ≡ false
  pending_not_cached = elim (Bool-cases (cached pending)) [
    | inl e ↦
        absurd
          (let z = t.cached_apart pending e in let r = ==ℤ_refl pending in ground (arith, z, r))
    | inr e ↦ e
  ]

  -- A key that is not listed.
  not_listed : (key : ℤ) → phys key ≡ false → All (λ k. (key ==ℤ k) ≡ false) keys
  not_listed key e =
      All-map (λ k. phys k ≡ true) (λ k. (key ==ℤ k) ≡ false)
        (λ k h. ==ℤ_comm key k ∙ apart_by phys k key h e) keys t.listed

  listed-insert : (key : ℤ) → All (λ k. insert_key key phys k ≡ true) (insert_sorted key keys)
  listed-insert key =
      All-insert_sorted (λ k. insert_key key phys k ≡ true) key keys (rw (==ℤ_refl key) refl)
        (All-map (λ k. phys k ≡ true) (λ k. insert_key key phys k ≡ true)
          (λ k h. rw h (ground arith)) keys t.listed)

  real_pending : is_idle state ≡ false → (pending ==ℤ invalid_key) ≡ false
  real_pending e = sym t.idle_iff ∙ e

  pub hot_insert-Tracked :
      is_hot_pend state ≡ true
      → is_idle state ≡ false
      → Tracked refs hot_keys
          (insert_key pending phys)
          cached
          cache_refs
          (insert_sorted pending keys)
          invalid_key
          []
          cache
          SwapState.idle
  hot_insert-Tracked waits busy = record {
    no_invalid = t.no_invalid;
    phys_apart = λ k e. elim (Bool-cases (pending ==ℤ k)) [
      | inl f ↦
          let c = (==ℤ_iff pending k).0 f in
          rw (← c) (pending_not_cached, ==ℤ_comm invalid_key pending ∙ real_pending busy)
      | inr f ↦
          let p : phys k ≡ true = ground (arith, e, f) in
          ((t.phys_apart k p).0, ==ℤ_comm invalid_key k ∙ apart_by phys k invalid_key p t.real_phys)
    ];
    cached_apart = λ k e. ==ℤ_comm invalid_key k ∙ apart_by cached k invalid_key e t.real_cached;
    real_phys = rw (real_pending busy, t.real_phys) refl;
    real_cached = t.real_cached;
    phys_hot = λ k e. elim (Bool-cases (pending ==ℤ k)) [
      | inl f ↦ let c = (==ℤ_iff pending k).0 f in rw (← c) (t.pending_hot waits)
      | inr f ↦ t.phys_hot k (ground (arith, e, f))
    ];
    cached_hot = t.cached_hot;
    pending_hot = λ e. absurd (let z : false ≡ true = e in cc);
    idle_iff = refl;
    counted = t.counted;
    cached_ref = t.cached_ref;
    ref_pending = sym t.no_invalid;
    listed = listed-insert pending;
    rising = insert_sorted-Rising pending keys (not_listed pending pending_not_hot) t.rising;
  }

  pub cold_insert-Tracked :
      Tracked refs hot_keys phys cached cache_refs keys invalid_key [] cache SwapState.idle
  cold_insert-Tracked = record {
    no_invalid = t.no_invalid;
    phys_apart = λ k e.
        ((t.phys_apart k e).0, ==ℤ_comm invalid_key k ∙ apart_by phys k invalid_key e t.real_phys);
    cached_apart = λ k e. ==ℤ_comm invalid_key k ∙ apart_by cached k invalid_key e t.real_cached;
    real_phys = t.real_phys;
    real_cached = t.real_cached;
    phys_hot = t.phys_hot;
    cached_hot = t.cached_hot;
    pending_hot = λ e. absurd (let z : false ≡ true = e in cc);
    idle_iff = refl;
    counted = t.counted;
    cached_ref = t.cached_ref;
    ref_pending = sym t.no_invalid;
    listed = t.listed;
    rising = t.rising;
  }

  -- A key of the cold map moves to the hot one.
  pub move_up-Tracked :
      (key : ℤ)
      → (key ==ℤ invalid_key) ≡ false
      → hot_keys key ≡ false
      → (pending ==ℤ key) ≡ false
      → Tracked refs
          (insert_key key hot_keys)
          (insert_key key phys)
          cached
          cache_refs
          (insert_sorted key keys)
          pending
          pending_ref
          cache
          state
  move_up-Tracked key real cold apart =
      let not_phys : phys key ≡ false = elim (Bool-cases (phys key)) [
        | inl e ↦ absurd (let z = t.phys_hot key e in cc)
        | inr e ↦ e
      ] in
      let not_cached : cached key ≡ false = elim (Bool-cases (cached key)) [
        | inl e ↦ absurd (let z = t.cached_hot key e in cc)
        | inr e ↦ e
      ] in
      record {
        no_invalid = t.no_invalid;
        phys_apart = λ k e. elim (Bool-cases (key ==ℤ k)) [
          | inl f ↦ let c = (==ℤ_iff key k).0 f in rw (← c) (not_cached, apart)
          | inr f ↦ t.phys_apart k (ground (arith, e, f))
        ];
        cached_apart = t.cached_apart;
        real_phys = rw (real, t.real_phys) refl;
        real_cached = t.real_cached;
        phys_hot = λ k e. elim (Bool-cases (key ==ℤ k)) [
          | inl f ↦ rw f refl
          | inr f ↦ rw (f, t.phys_hot k (ground (arith, e, f))) refl
        ];
        cached_hot = λ k e. rw (t.cached_hot k e) (ground arith);
        pending_hot = λ e. rw (t.pending_hot e) (ground arith);
        idle_iff = t.idle_iff;
        counted = t.counted;
        cached_ref = t.cached_ref;
        ref_pending = t.ref_pending;
        listed = listed-insert key;
        rising = insert_sorted-Rising key keys (not_listed key not_phys) t.rising;
      }

  -- A key of the hot map moves to the cold one.
  pub move_down-Tracked :
      (key : ℤ)
      → phys key ≡ true
      → Tracked refs
          (erase_key key hot_keys)
          (erase_key key phys)
          cached
          cache_refs
          (erase_sorted key keys)
          pending
          pending_ref
          cache
          state
  move_down-Tracked key hot = record {
    no_invalid = t.no_invalid;
    phys_apart = λ k e. t.phys_apart k (ground (arith, e));
    cached_apart = t.cached_apart;
    real_phys = rw t.real_phys (ground arith);
    real_cached = t.real_cached;
    phys_hot = λ k e.
        let f : (key ==ℤ k) ≡ false = ground (arith, e) in
        rw (f, t.phys_hot k (ground (arith, e))) refl;
    cached_hot = λ k e.
        let f = ==ℤ_comm key k ∙ apart_by cached k key e (t.phys_apart key hot).0 in
        rw (f, t.cached_hot k e) refl;
    pending_hot = λ e. rw (==ℤ_comm key pending ∙ (t.phys_apart key hot).1, t.pending_hot e) refl;
    idle_iff = t.idle_iff;
    counted = t.counted;
    cached_ref = t.cached_ref;
    ref_pending = t.ref_pending;
    listed =
        All-map (λ k. (phys k ≡ true) × ((key ==ℤ k) ≡ false)) (λ k. erase_key key phys k ≡ true)
          (λ k h. rw (h.0, h.1) refl) (erase_sorted key keys)
          (All-both (λ k. phys k ≡ true) (λ k. (key ==ℤ k) ≡ false) (erase_sorted key keys)
            (All-erase_sorted (λ k. phys k ≡ true) key keys t.listed)
            (erase_sorted-gone key keys t.rising));
    rising = erase_sorted-Rising key keys t.rising;
  }
