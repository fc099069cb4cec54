-- ===== src/Tiered/Kept/Steps.antt =====
-- The maintenance steps of `TieredOMap` and its explicit moves keep its keys in order.
use tiered_omap.Prelude.{
  ◌≡◌, ◌⊎◌, refl, ◌∙◌, true, false, none, some, List, [], ◌∷◌, ℤ, pos, Bool, ◌==ℤ◌, ==ℤ_refl, All,
  if◌then◌else◌, Bool-cases, Option-cases, inl, inr,
}
use tiered_omap.Common.{Host, Bytes, Result, ok, Returns, Returns-bind, Returns-after, invalid_key}
use tiered_omap.Maintenance.{
  MaintenanceManager, SwapState, cache_admit, set_swap_state, should_demote_cache, should_promote,
  should_scan, should_hot_insert, should_cold_insert, reset_scan_ptr, set_scan_ptr,
}
use tiered_omap.Omap.{Omap}
use tiered_omap.Oram
use tiered_omap.Tiered.{
  TieredOmap, demote_to_cache, promote_to_cache, clear_pending, upper_bound, data_access,
  ref_to_blk,
}
use tiered_omap.Tiered.Steps.{
  is_idle, next_scan, scan_dummy, demote_scanned, scan_key, do_scan_step, do_hot_insert_step,
  do_cold_insert_step, promote, demote,
}
use tiered_omap.Tiered.Sorted.{upper_bound-All}
use tiered_omap.Tiered.Admit.{apart_by, admit-is_for, demote-old, promote-old}
use tiered_omap.Tiered.Swap.{demote-Tracked, promote-Tracked}
use tiered_omap.Tiered.Settle.{
  hot_insert-Tracked, cold_insert-Tracked, move_up-Tracked, move_down-Tracked,
}
use tiered_omap.Tiered.Access.{maintain}
use tiered_omap.Tiered.Kept.{Kept, track, at_hand-new, forget}

-- The scan takes a key of the list, and moves only the pointer.
next_scan-cases :
    (P : ℤ → Type 0) (maint : MaintenanceManager) (keys : List ℤ)
    → All P keys
    → (next_scan maint keys ≡ none)
      ⊎ ((ptr : ℤ) × (key : ℤ) × (next_scan maint keys
            ≡ some (record maint { scan_ptr = ptr }, key))
          × P key)
unfolding next_scan reset_scan_ptr set_scan_ptr
next_scan-cases P maint [] a = inl refl
next_scan-cases P maint (k ∷ keys) a = elim (Option-cases (upper_bound maint.scan_ptr (k ∷ keys))) [
  | inl e ↦ inr (k, k, rw (e, next_scan) refl, a.0)
  | inr (key, e) ↦
      inr (key, key, rw (e, next_scan) refl, upper_bound-All P maint.scan_ptr (k ∷ keys) key a e)
]

module _ {H C : Type 0} (t : TieredOmap H C) (kept : Kept t) where
  demote_to_cache-Kept :
      (key fp : ℤ) (ref : Bytes)
      → t.phys_hot_keys key ≡ true
      → should_demote_cache t.maint fp ≡ true
      → Kept (demote_to_cache t key fp ref)
  unfolding demote_to_cache set_swap_state cache_admit
  demote_to_cache-Kept key fp ref here wins =
      let o = kept.0 in
      let real = apart_by t.phys_hot_keys key invalid_key here o.real_phys in
      let apart = o.phys_apart key here in
      (
        forget _ _ _ _ _ _ _ _ _ _ (
            demote-Tracked _ _ _ _ _ _ _ _ _ _
              (track t.hot_keys t.phys_hot_keys t.cache_keys t.cache_data_refs t.hot_key_list
                t.pending_insert_key t.pending_insert_ref t.maint.cache t.maint.swap_state key ref
                real o)
              key (cache_admit t.maint key fp true).1.key _ apart.0 real
              (demote-old t.maint key fp wins) (admit-is_for t.maint key fp true) here ref
              (at_hand-new t.hot_keys t.phys_hot_keys t.cache_keys t.cache_data_refs t.hot_key_list
                t.pending_insert_key t.pending_insert_ref t.maint.cache t.maint.swap_state key ref
                apart.0 apart.1)),
        kept.1,
      )

  pub promote_to_cache-Kept :
      (key fp : ℤ) (ref : Bytes)
      → (key ==ℤ invalid_key) ≡ false
      → t.hot_keys key ≡ false
      → (t.pending_insert_key ==ℤ key) ≡ false
      → is_idle t.maint.swap_state ≡ true
      → should_promote t.maint fp ≡ true
      → Kept (promote_to_cache t key fp ref)
  unfolding promote_to_cache set_swap_state cache_admit
  promote_to_cache-Kept key fp ref real is_cold apart idle wins =
      let o = kept.0 in
      let not_phys : t.phys_hot_keys key ≡ false = elim (Bool-cases (t.phys_hot_keys key)) [
        | inl e ↦ absurd (let z = o.phys_hot key e in cc)
        | inr e ↦ e
      ] in
      let not_cached : t.cache_keys key ≡ false = elim (Bool-cases (t.cache_keys key)) [
        | inl e ↦ absurd (let z = o.cached_hot key e in cc)
        | inr e ↦ e
      ] in
      (
        forget _ _ _ _ _ _ _ _ _ _ (
            promote-Tracked _ _ _ _ _ _ _ _ _ _
              (track t.hot_keys t.phys_hot_keys t.cache_keys t.cache_data_refs t.hot_key_list
                t.pending_insert_key t.pending_insert_ref t.maint.cache t.maint.swap_state key ref
                real o)
              key (cache_admit t.maint key fp false).1.key _ not_cached real
              (promote-old t.maint key fp wins) (admit-is_for t.maint key fp false) not_phys idle
              ref
              (at_hand-new t.hot_keys t.phys_hot_keys t.cache_keys t.cache_data_refs t.hot_key_list
                t.pending_insert_key t.pending_insert_ref t.maint.cache t.maint.swap_state key ref
                not_cached apart)),
        kept.1,
      )

-- Any key but the reserved one.
abbrev some_key : ℤ
some_key = pos 0

module _ {H C : Type 0} (host : Host) (hot : Omap H) (cold : Omap C) where
  abbrev K : TieredOmap H C → Type 0
  K t = Kept t

  scan_dummy-Kept : (t : TieredOmap H C) → K t → Returns (scan_dummy host hot cold t) K
  unfolding scan_dummy
  scan_dummy-Kept t kept =
      Returns-after K (hot.dummy_access t.hot_omap) _
        (λ s e. Returns-after K (Oram.dummy_access host t.data_oram) _ (λ o e'. kept))

  demote_scanned-Kept :
      (t : TieredOmap H C) (key fp : ℤ) (ref : Bytes)
      → t.phys_hot_keys key ≡ true
      → K t
      → Returns (demote_scanned host hot cold t key fp ref) K
  unfolding demote_scanned
  demote_scanned-Kept t key fp ref here kept = elim (Bool-cases (should_demote_cache t.maint fp)) [
    | inr e ↦ rw e kept
    | inl e ↦ rw e (
        Returns-after K (hot.remove t.hot_omap key) _
          (λ s e'. demote_to_cache-Kept (record t { hot_omap = s }) kept key fp ref here e))
  ]

  pub do_scan_step-Kept : (t : TieredOmap H C) → K t → Returns (do_scan_step host hot cold t) K
  unfolding do_scan_step scan_key
  do_scan_step-Kept t kept = elim (Bool-cases (is_idle t.maint.swap_state)) [
    | inr e ↦ rw e (scan_dummy-Kept t kept)
    | inl e ↦
        elim (next_scan-cases (λ k. t.phys_hot_keys k ≡ true) t.maint t.hot_key_list
          kept.0.listed) [
            | inl f ↦ rw (e, kept.1, f) (scan_dummy-Kept t kept)
            | inr (ptr, key, f, here) ↦
                rw (e, kept.1, f)
                  (Returns-after K (hot.search t.hot_omap key) _ (λ r e₁.
                    Returns-after K (data_access host t.data_oram (ref_to_blk r.1) none) _
                      (λ o e₂. demote_scanned-Kept _ key _ r.1 here kept)))
          ]
  ]

  pub do_hot_insert_step-Kept :
      (t : TieredOmap H C) → K t → Returns (do_hot_insert_step host hot cold t) K
  unfolding do_hot_insert_step clear_pending set_swap_state
  do_hot_insert_step-Kept t kept = go t.maint.swap_state refl
    where
      go : (s : SwapState) → t.maint.swap_state ≡ s → Returns (do_hot_insert_step host hot cold t) K
      go SwapState.idle e =
          simp (e, do_hot_insert_step)
            (Returns-after K (hot.dummy_access t.hot_omap) _ (λ s e'. kept))
      go SwapState.cold_pend e =
          simp (e, do_hot_insert_step)
            (Returns-after K (hot.dummy_access t.hot_omap) _ (λ s e'. kept))
      go SwapState.hot_pend e =
          simp (e, do_hot_insert_step)
            (Returns-after K (hot.insert t.hot_omap t.pending_insert_key t.pending_insert_ref) _
              (λ s e'. (
                forget _ _ _ t.cache_data_refs _ _ _ _ _ _ (
                    hot_insert-Tracked _ _ _ _ _ _ _ _ _ _
                      (track _ _ _ t.cache_data_refs _ _ _ _ _ some_key [] refl kept.0) (rw e refl)
                      (rw e refl)),
                kept.1,
              )))

  pub do_cold_insert_step-Kept :
      (t : TieredOmap H C) → K t → Returns (do_cold_insert_step host hot cold t) K
  unfolding do_cold_insert_step clear_pending set_swap_state
  do_cold_insert_step-Kept t kept = go t.maint.swap_state refl
    where
      go :
          (s : SwapState) → t.maint.swap_state ≡ s → Returns (do_cold_insert_step host hot cold t) K
      go SwapState.idle e =
          simp (e, do_cold_insert_step)
            (Returns-after K (cold.dummy_access t.cold_omap) _ (λ s e'. kept))
      go SwapState.hot_pend e =
          simp (e, do_cold_insert_step)
            (Returns-after K (cold.dummy_access t.cold_omap) _ (λ s e'. kept))
      go SwapState.cold_pend e =
          simp (e, do_cold_insert_step)
            (Returns-after K (cold.insert t.cold_omap t.pending_insert_key t.pending_insert_ref) _
              (λ s e'. (
                forget _ _ _ t.cache_data_refs _ _ _ _ _ _ (
                    cold_insert-Tracked _ _ _ _ _ _ _ _ _ _
                      (track _ _ _ t.cache_data_refs _ _ _ _ _ some_key [] refl kept.0)),
                kept.1,
              )))

  -- The maintenance steps of an access, in a state whose keys are in order and whose hot map is not
  -- scanned by piggybacking, return such a state or throw, whatever the two maps answer.
  pub maintain-Kept : (t : TieredOmap H C) → K t → Returns (maintain host hot cold t) K
  unfolding maintain
  maintain-Kept t kept =
      Returns-bind K K _ _ (when (should_scan t.maint) t _ kept (do_scan_step-Kept t kept))
        (λ t₁ k₁.
          Returns-bind K K _ _
            (when (should_hot_insert t₁.maint) t₁ _ k₁ (do_hot_insert_step-Kept t₁ k₁))
            (λ t₂ k₂. when (should_cold_insert t₂.maint) t₂ _ k₂ (do_cold_insert_step-Kept t₂ k₂)))
    where
      when :
          (b : Bool) (t₁ : TieredOmap H C) (step : Result (TieredOmap H C))
          → K t₁
          → Returns step K
          → Returns (if b then step else ok t₁) K
      when true t₁ step k s = s
      when false t₁ step k s = k

  -- `promote` of a key other than the reserved and the pending one, in a state whose keys are in order and
  -- whose hot map is not scanned by piggybacking, returns such a state in which the key is hot and the
  -- other keys are as hot as before, or throws, whatever the two maps answer.
  pub promote-Kept :
      (t : TieredOmap H C) (key : ℤ)
      → K t
      → (key ==ℤ invalid_key) ≡ false
      → (t.pending_insert_key ==ℤ key) ≡ false
      → Returns (promote host hot cold t key) (λ r.
        K r
        × (r.hot_keys key ≡ true)
        × ((k : ℤ) → (key ==ℤ k) ≡ false → r.hot_keys k ≡ t.hot_keys k))
  unfolding promote
  promote-Kept t key kept real apart = elim (Bool-cases (t.hot_keys key)) [
    | inl e ↦ rw e (kept, e, λ k f. refl)
    | inr e ↦
        let Q = λ (r : TieredOmap H C).
          K r
          × (r.hot_keys key ≡ true)
          × ((k : ℤ) → (key ==ℤ k) ≡ false → r.hot_keys k ≡ t.hot_keys k) in
        rw e (
          Returns-after Q (cold.search t.cold_omap key) _ (λ s e₁.
            Returns-after Q (cold.remove s.0 key) _ (λ c e₂.
              Returns-after Q (hot.insert t.hot_omap key s.1) _ (λ m e₃. (
                (
                  forget _ _ _ t.cache_data_refs _ _ _ _ _ _ (
                      move_up-Tracked _ _ _ _ _ _ _ _ _ _
                        (track _ _ _ t.cache_data_refs _ _ _ _ _ some_key [] refl kept.0) key real e
                        apart),
                  kept.1,
                ),
                rw (==ℤ_refl key) refl,
                λ k f. rw f refl,
              )))))
  ]

  -- `demote` of a key that is in the hot map or not hot, in a state whose keys are in order and whose hot
  -- map is not scanned by piggybacking, returns such a state in which the key is cold and the other keys
  -- are as hot as before, or throws, whatever the two maps answer.
  pub demote-Kept :
      (t : TieredOmap H C) (key : ℤ)
      → K t
      → t.phys_hot_keys key ≡ t.hot_keys key
      → Returns (demote host hot cold t key) (λ r.
        K r
        × (r.hot_keys key ≡ false)
        × ((k : ℤ) → (key ==ℤ k) ≡ false → r.hot_keys k ≡ t.hot_keys k))
  unfolding demote
  demote-Kept t key kept here = elim (Bool-cases (t.hot_keys key)) [
    | inr e ↦ rw e (kept, e, λ k f. refl)
    | inl e ↦
        let Q = λ (r : TieredOmap H C).
          K r
          × (r.hot_keys key ≡ false)
          × ((k : ℤ) → (key ==ℤ k) ≡ false → r.hot_keys k ≡ t.hot_keys k) in
        rw e (
          Returns-after Q (hot.search t.hot_omap key) _ (λ s e₁.
            Returns-after Q (hot.remove s.0 key) _ (λ m e₂.
              Returns-after Q (cold.insert t.cold_omap key s.1) _ (λ c e₃. (
                (
                  forget _ _ _ t.cache_data_refs _ _ _ _ _ _ (
                      move_down-Tracked _ _ _ _ _ _ _ _ _ _
                        (track _ _ _ t.cache_data_refs _ _ _ _ _ some_key [] refl kept.0) key
                        (here ∙ e)),
                  kept.1,
                ),
                rw (==ℤ_refl key) refl,
                λ k f. rw f refl,
              )))))
  ]
