-- ===== src/Tiered/Kept/Serve.antt =====
-- The maintenance of `TieredOMap` keeps the values in the data ORAM, whatever the two maps answer.
use tiered_omap.Prelude.{
  ℕ, ◌≡◌, refl, Bool, true, false, not, ◌&&◌, none, List, [], ◌∷◌, ℤ, pos, ◌==ℤ◌, ltb_ℤ,
  if◌then◌else◌, Bool-cases, Option-cases, inl, inr,
}
use tiered_omap.Common.{
  Host, Bytes, Result, ok, Returns, Returns-bind, Returns-after, Returns-map, Yields-Returns,
  invalid_key,
}
use tiered_omap.Maintenance.{
  SwapState, should_demote_cache, should_scan, should_hot_insert, should_cold_insert,
}
use tiered_omap.Omap.{Omap}
use tiered_omap.Oram
use tiered_omap.Oram.{PathOram}
use tiered_omap.Oram.Access.{access_missing}
use tiered_omap.Oram.Valid.{Table, Holds}
use tiered_omap.Tiered.{TieredOmap, Refs, ref_to_blk, data_access, demote_to_cache, clear_pending}
use tiered_omap.Tiered.Steps.{
  is_idle, next_scan, scan_dummy, scan_queued, scan_queue, demote_scanned, scan_key, do_scan_step,
  do_hot_insert_step, do_cold_insert_step,
}
use tiered_omap.Tiered.Access.{is_empty, queue_demotion, piggyback_scan, maintain}
use tiered_omap.Tiered.Stores.{Stores, access_block}
use tiered_omap.Tiered.Touch.{dummy-Stores}

module _ {H C : Type 0} (h : ℕ) (host : Host) (hot : Omap H) (cold : Omap C) (refs : Refs) where
  -- The data ORAM has the values of a table.
  abbrev pub Has : Bool → Table → TieredOmap H C → Type 0
  Has epoch V t = Stores h host epoch refs V t.data_oram

  -- A read of any block, or of none.
  read_any :
      (epoch : Bool) (V : Table) (o : PathOram) (blk : ℤ)
      → Stores h host epoch refs V o
      → Returns (data_access host o blk none) (λ r. Stores h host epoch refs V r.0)
  unfolding data_access
  read_any epoch V o blk s = elim (Bool-cases (ltb_ℤ blk (pos 0))) [
    | inl e ↦ rw e (
        Returns-bind (Stores h host epoch refs V) (λ r. Stores h host epoch refs V r.0) _ _
          (Yields-Returns (Stores h host epoch refs V) (Oram.dummy_access host o)
            (dummy-Stores h host refs V o epoch s))
          (λ o' s'. s'))
    | inr e ↦ elim (Option-cases (s.blocks blk)) [
      | inl f ↦ rw (e, access_missing h host s.blocks o blk none s.holds f) tt
      | inr (raw, f) ↦
          Returns-map (λ (r : PathOram × Bytes). Holds h host s.blocks r.0 × (r.1 ≡ raw))
            (λ r. Stores h host epoch refs V r.0) _
            (Yields-Returns (λ (r : PathOram × Bytes). Holds h host s.blocks r.0 × (r.1 ≡ raw)) _
              (access_block h host s.blocks o blk none raw s.holds e f))
            (λ r v. record { blocks = s.blocks; holds = v.0; entry = s.entry; apart = s.apart })
    ]
  ]

  scan_dummy-Has :
      (epoch : Bool) (V : Table) (t : TieredOmap H C)
      → Has epoch V t
      → Returns (scan_dummy host hot cold t) (Has epoch V)
  unfolding scan_dummy
  scan_dummy-Has epoch V t s = Returns-after (Has epoch V) (hot.dummy_access t.hot_omap) _ (λ m e.
      Returns-bind (Stores h host epoch refs V) (Has epoch V) _ _
        (Yields-Returns (Stores h host epoch refs V) (Oram.dummy_access host t.data_oram)
          (dummy-Stores h host refs V t.data_oram epoch s))
        (λ o s'. s'))

  scan_queued-Has :
      (epoch : Bool) (V : Table) (t : TieredOmap H C) (dk fp : ℤ)
      → Has epoch V t
      → Returns (scan_queued host hot cold t dk fp) (Has epoch V)
  unfolding scan_queued demote_to_cache
  scan_queued-Has epoch V t dk fp s =
      elim (Bool-cases (not (dk ==ℤ invalid_key) && t.phys_hot_keys dk)) [
        | inl e ↦ rw e (
            Returns-after (Has epoch V) (hot.search t.hot_omap dk) _
              (λ r e₁. Returns-after (Has epoch V) (hot.remove r.0 dk) _ (λ m e₂. s)))
        | inr e ↦ rw e (Returns-after (Has epoch V) (hot.dummy_access t.hot_omap) _ (λ m e₁. s))
      ]

  scan_queue-Has :
      (epoch : Bool) (V : Table) (t : TieredOmap H C)
      → Has epoch V t
      → Returns (scan_queue host hot cold t) (Has epoch V)
  unfolding scan_queue
  scan_queue-Has epoch V t s = go t.da_pending_demotions
    where
      go :
          (queue : List (ℤ × ℤ))
          → Returns
              (elim queue as (λ _. Result (TieredOmap H C)) [
                | [] ↦ scan_queued host hot cold t invalid_key (pos 0)
                | d ∷ rest ↦
                    scan_queued host hot cold (record t { da_pending_demotions = rest }) d.0 d.1
              ])
              (Has epoch V)
      go [] = scan_queued-Has epoch V t invalid_key (pos 0) s
      go (d ∷ rest) = scan_queued-Has epoch V (record t { da_pending_demotions = rest }) d.0 d.1 s

  demote_scanned-Has :
      (epoch : Bool) (V : Table) (t : TieredOmap H C) (key fp : ℤ) (ref : Bytes)
      → Has epoch V t
      → Returns (demote_scanned host hot cold t key fp ref) (Has epoch V)
  unfolding demote_scanned demote_to_cache
  demote_scanned-Has epoch V t key fp ref s = elim (Bool-cases (should_demote_cache t.maint fp)) [
    | inl e ↦ rw e (Returns-after (Has epoch V) (hot.remove t.hot_omap key) _ (λ m e₁. s))
    | inr e ↦ rw e s
  ]

  do_scan_step-Has :
      (epoch : Bool) (V : Table) (t : TieredOmap H C)
      → Has epoch V t
      → Returns (do_scan_step host hot cold t) (Has epoch V)
  unfolding do_scan_step scan_key
  do_scan_step-Has epoch V t s = elim (Bool-cases (is_idle t.maint.swap_state)) [
    | inr e ↦ rw e (scan_dummy-Has epoch V t s)
    | inl e ↦ elim (Bool-cases (t.is_da_hot && t.maint.cfg.piggyback)) [
      | inl f ↦ rw (e, f) (scan_queue-Has epoch V t s)
      | inr f ↦ elim (Option-cases (next_scan t.maint t.hot_key_list)) [
        | inl g ↦ rw (e, f, g) (scan_dummy-Has epoch V t s)
        | inr (next, g) ↦
            rw (e, f, g)
              (Returns-after (Has epoch V) (hot.search t.hot_omap next.1) _ (λ r e₁.
                Returns-bind (λ (o : PathOram × Bytes). Stores h host epoch refs V o.0)
                  (Has epoch V) (data_access host t.data_oram (ref_to_blk r.1) none) _
                  (read_any epoch V t.data_oram (ref_to_blk r.1) s)
                  (λ o s'. demote_scanned-Has epoch V _ next.1 _ r.1 s')))
      ]
    ]
  ]

  do_hot_insert_step-Has :
      (epoch : Bool) (V : Table) (t : TieredOmap H C)
      → Has epoch V t
      → Returns (do_hot_insert_step host hot cold t) (Has epoch V)
  unfolding do_hot_insert_step clear_pending
  do_hot_insert_step-Has epoch V t s = go t.maint.swap_state refl
    where
      go :
          (state : SwapState)
          → t.maint.swap_state ≡ state
          → Returns (do_hot_insert_step host hot cold t) (Has epoch V)
      go SwapState.idle e =
          simp (e, do_hot_insert_step)
            (Returns-after (Has epoch V) (hot.dummy_access t.hot_omap) _ (λ m e₁. s))
      go SwapState.cold_pend e =
          simp (e, do_hot_insert_step)
            (Returns-after (Has epoch V) (hot.dummy_access t.hot_omap) _ (λ m e₁. s))
      go SwapState.hot_pend e =
          simp (e, do_hot_insert_step)
            (Returns-after (Has epoch V)
              (hot.insert t.hot_omap t.pending_insert_key t.pending_insert_ref) _ (λ m e₁. s))

  do_cold_insert_step-Has :
      (epoch : Bool) (V : Table) (t : TieredOmap H C)
      → Has epoch V t
      → Returns (do_cold_insert_step host hot cold t) (Has epoch V)
  unfolding do_cold_insert_step clear_pending
  do_cold_insert_step-Has epoch V t s = go t.maint.swap_state refl
    where
      go :
          (state : SwapState)
          → t.maint.swap_state ≡ state
          → Returns (do_cold_insert_step host hot cold t) (Has epoch V)
      go SwapState.idle e =
          simp (e, do_cold_insert_step)
            (Returns-after (Has epoch V) (cold.dummy_access t.cold_omap) _ (λ m e₁. s))
      go SwapState.hot_pend e =
          simp (e, do_cold_insert_step)
            (Returns-after (Has epoch V) (cold.dummy_access t.cold_omap) _ (λ m e₁. s))
      go SwapState.cold_pend e =
          simp (e, do_cold_insert_step)
            (Returns-after (Has epoch V)
              (cold.insert t.cold_omap t.pending_insert_key t.pending_insert_ref) _ (λ m e₁. s))

  pub maintain-Has :
      (epoch : Bool) (V : Table) (t : TieredOmap H C)
      → Has epoch V t
      → Returns (maintain host hot cold t) (Has epoch V)
  unfolding maintain
  maintain-Has epoch V t s =
      Returns-bind (Has epoch V) (Has epoch V) _ _
        (when (should_scan t.maint) t _ s (do_scan_step-Has epoch V t s))
        (λ t₁ s₁.
          Returns-bind (Has epoch V) (Has epoch V) _ _
            (when (should_hot_insert t₁.maint) t₁ _ s₁ (do_hot_insert_step-Has epoch V t₁ s₁))
            (λ t₂ s₂.
              when (should_cold_insert t₂.maint) t₂ _ s₂ (do_cold_insert_step-Has epoch V t₂ s₂)))
    where
      when :
          (b : Bool) (t₁ : TieredOmap H C) (step : Result (TieredOmap H C))
          → Has epoch V t₁
          → Returns step (Has epoch V)
          → Returns (if b then step else ok t₁) (Has epoch V)
      when true t₁ step k s = s
      when false t₁ step k s = k

  pub piggyback_scan-Has :
      (epoch : Bool) (V : Table) (t : TieredOmap H C)
      → Has epoch V t
      → Returns (piggyback_scan host hot cold t) (Has epoch V)
  unfolding piggyback_scan queue_demotion
  piggyback_scan-Has epoch V t s = elim (Bool-cases (t.is_da_hot && t.maint.cfg.piggyback)) [
    | inr e ↦ rw e s
    | inl e ↦ rw e (
        Returns-after (Has epoch V) (hot.piggyback_scan_step t.hot_omap) _ (λ r e₁.
          elim (Bool-cases (not (r.1 ==ℤ invalid_key) && not (is_empty r.2))) [
            | inr f ↦ rw f s
            | inl f ↦ rw f (
                Returns-bind (λ (o : PathOram × Bytes). Stores h host epoch refs V o.0)
                  (Has epoch V) (data_access host t.data_oram (ref_to_blk r.2) none) _
                  (read_any epoch V t.data_oram (ref_to_blk r.2) s) (λ o s'. s'))
          ]))
  ]
