-- ===== src/Tiered/Kept/Access.antt =====
-- An access keeps the keys of `TieredOMap` in order, whatever the two maps answer.
use tiered_omap.Prelude.{
  ◌+◌, ◌≡◌, refl, sym, ap, ◌∙◌, Bool, true, false, not, ◌&&◌, Option, List, [], ◌∷◌, ℤ, ◌==ℤ◌,
  ==ℤ_iff, ==ℤ_comm, if◌then◌else◌, countb, to_nat, Bool-cases, inl, inr, arith,
}
use tiered_omap.Common.{
  Host, Bytes, Result, ok, ◌>>=◌, Returns, Returns-bind, Returns-after, invalid_key,
}
use tiered_omap.Common.Codec.{EpochMeta}
use tiered_omap.Maintenance.{CacheEntry, update_fp, update_cache_fp, should_promote, tick}
use tiered_omap.Omap.{Omap}
use tiered_omap.Oram
use tiered_omap.Oram.{PathOram}
use tiered_omap.Tiered.{TieredOmap, SecurityMode, touch_block, ref_to_blk, data_access}
use tiered_omap.Tiered.Steps.{is_idle}
use tiered_omap.Tiered.Access.{
  is_empty, hot_dummy, cold_dummy, access_pending, access_cached, search_hot, search_cold,
  promote_cold, access_sequential, access_branch, piggyback_scan, with_traffic, access_epoch,
  plain_hot, plain_cold, access_plain, access,
}
use tiered_omap.Tiered.Placed.{is_for}
use tiered_omap.Tiered.Kept.{Kept}
use tiered_omap.Tiered.Kept.Steps.{promote_to_cache-Kept, maintain-Kept}

countb-update_fp :
    (k key fp : ℤ) (cache : List CacheEntry)
    → countb (is_for k) (update_fp key fp cache) ≡ countb (is_for k) cache
unfolding countb update_fp
countb-update_fp k key fp [] = refl
countb-update_fp k key fp (e ∷ cache) = elim (Bool-cases (e.key ==ℤ key)) [
  | inl f ↦ rw f refl
  | inr f ↦ rw f (ap (λ n. to_nat (is_for k e) + n) (countb-update_fp k key fp cache))
]

-- A cached key gets another `fp`.
update_cache_fp-Kept :
    {H C : Type 0} (t : TieredOmap H C) (key fp : ℤ)
    → Kept t
    → Kept (record t { maint = update_cache_fp t.maint key fp })
unfolding update_cache_fp
update_cache_fp-Kept t key fp kept =
    let o = kept.0 in
    (
      record {
        phys_apart = o.phys_apart;
        cached_apart = o.cached_apart;
        real_phys = o.real_phys;
        real_cached = o.real_cached;
        phys_hot = o.phys_hot;
        cached_hot = o.cached_hot;
        pending_hot = o.pending_hot;
        idle_iff = o.idle_iff;
        counted = λ k. countb-update_fp k key fp t.maint.cache ∙ o.counted k;
        no_ref = o.no_ref;
        listed = o.listed;
        rising = o.rising;
      },
      kept.1,
    )

module _ {H C : Type 0} (host : Host) (hot : Omap H) (cold : Omap C) where
  abbrev K : TieredOmap H C → Type 0
  K t = Kept t

  hot_dummy-Kept : (t : TieredOmap H C) → K t → Returns (hot_dummy host hot cold t) K
  unfolding hot_dummy
  hot_dummy-Kept t kept = Returns-after K (hot.dummy_access t.hot_omap) _ (λ s e. kept)

  cold_dummy-Kept : (t : TieredOmap H C) → K t → Returns (cold_dummy host hot cold t) K
  unfolding cold_dummy
  cold_dummy-Kept t kept =
      Returns-after K
        (elim t.mode as (λ _. Result C) [
          | SecurityMode.full_oblivious ↦ cold.dummy_access t.cold_omap
          | SecurityMode.tier_membership ↦ cold.partial_dummy_access t.cold_omap
        ])
        _ (λ s e. kept)

  module _ (t : TieredOmap H C) (kept : K t) (key : ℤ) (nv : Option Bytes) where
    abbrev R : TieredOmap H C × Bytes × ℤ → Type 0
    R r = K r.0

    abbrev S : TieredOmap H C × Bytes × EpochMeta × Bytes → Type 0
    S r = K r.0

    both_dummy :
        (t₁ : TieredOmap H C) (value : Bytes) (fp : ℤ)
        → K t₁
        → Returns
            (hot_dummy host hot cold t₁ >>= λ t₂.
              cold_dummy host hot cold t₂ >>= λ t₃. ok (t₃, value, fp))
            R
    both_dummy t₁ value fp k₁ =
        Returns-bind K R _ _ (hot_dummy-Kept t₁ k₁)
          (λ t₂ k₂. Returns-bind K R _ _ (cold_dummy-Kept t₂ k₂) (λ t₃ k₃. k₃))

    access_pending-Kept : Returns (access_pending host hot cold t nv) R
    unfolding access_pending
    access_pending-Kept =
        Returns-after R (touch_block host t.maint t.data_oram (ref_to_blk t.pending_insert_ref) nv)
          _ (λ r e. both_dummy (record t { data_oram = r.0 }) _ _ kept)

    access_cached-Kept : Returns (access_cached host hot cold t key nv) R
    unfolding access_cached
    access_cached-Kept =
        Returns-after R
          (touch_block host t.maint t.data_oram (ref_to_blk (t.cache_data_refs key)) nv) _
          (λ r e.
            both_dummy (record t { data_oram = r.0; maint = update_cache_fp t.maint key r.2.fp }) _
              _ (update_cache_fp-Kept t key r.2.fp kept))

    search_hot-Kept : Returns (search_hot host hot cold t key nv) S
    unfolding search_hot
    search_hot-Kept = Returns-after S (hot.search t.hot_omap key) _ (λ s e.
        Returns-after S (touch_block host t.maint t.data_oram (ref_to_blk s.1) nv) _ (λ r e'.
          Returns-bind K S _ _ (cold_dummy-Kept (record t { hot_omap = s.0; data_oram = r.0 }) kept)
            (λ t₂ k₂. k₂)))

    search_cold-Kept : Returns (search_cold host hot cold t key nv) S
    unfolding search_cold
    search_cold-Kept = Returns-after S (cold.search t.cold_omap key) _ (λ s e.
        Returns-after S (touch_block host t.maint t.data_oram (ref_to_blk s.1) nv) _ (λ r e'.
          Returns-after S
            (elim t.mode as (λ _. Result H) [
              | SecurityMode.full_oblivious ↦ hot.dummy_access t.hot_omap
              | SecurityMode.tier_membership ↦ hot.partial_dummy_access t.hot_omap
            ])
            _ (λ m e''. kept)))

  promote_cold-Kept :
      (t : TieredOmap H C) (key fp : ℤ) (ref : Bytes)
      → K t
      → (key ==ℤ invalid_key) ≡ false
      → Returns (promote_cold host hot cold t key fp ref) K
  unfolding promote_cold
  promote_cold-Kept t key fp ref kept real =
      elim (Bool-cases (not (t.hot_keys key) && not (is_empty ref))) [
        | inr e ↦ rw e kept
        | inl e ↦ elim (Bool-cases (is_idle t.maint.swap_state && should_promote t.maint fp)) [
          | inr f ↦ rw (e, f) (Returns-after K (cold.dummy_access t.cold_omap) _ (λ s e'. kept))
          | inl f ↦
              let idle : is_idle t.maint.swap_state ≡ true = ground (arith, f) in
              let none_pending =
                (==ℤ_iff t.pending_insert_key invalid_key).0 (sym kept.0.idle_iff ∙ idle) in
              rw (e, f)
                (Returns-after K (cold.remove t.cold_omap key) _ (λ s e'.
                  promote_to_cache-Kept (record t { cold_omap = s }) kept key fp ref real
                    (ground (arith, e)) (rw none_pending (==ℤ_comm invalid_key key ∙ real)) idle
                    (ground (arith, f))))
        ]
      ]

  module _ (t : TieredOmap H C) (kept : K t) (key : ℤ) (nv : Option Bytes)
      (real : (key ==ℤ invalid_key) ≡ false) where
    access_sequential-Kept : Returns (access_sequential host hot cold t key nv) (λ r. K r.0)
    unfolding access_sequential
    access_sequential-Kept =
        Returns-bind (λ r. K r.0) (λ r. K r.0) _ _ search
          (λ r v.
            Returns-bind K (λ r. K r.0) _ _ (promote_cold-Kept r.0 key r.2.fp r.3 v real)
              (λ t₂ k₂. k₂))
      where
        search :
            Returns
              (if t.phys_hot_keys key
                then search_hot host hot cold t key nv
                else search_cold host hot cold t key nv)
              (λ r. K r.0)
        search = elim (Bool-cases (t.phys_hot_keys key)) [
          | inl g ↦ rw g (search_hot-Kept t kept key nv)
          | inr g ↦ rw g (search_cold-Kept t kept key nv)
        ]

    access_branch-Kept : Returns (access_branch host hot cold t key nv) (λ r. K r.0)
    unfolding access_branch
    access_branch-Kept = elim (Bool-cases (key ==ℤ t.pending_insert_key)) [
      | inl e ↦ rw e (access_pending-Kept t kept key nv)
      | inr e ↦ elim (Bool-cases (t.cache_keys key)) [
        | inl f ↦ rw (e, f) (access_cached-Kept t kept key nv)
        | inr f ↦ rw (e, f) access_sequential-Kept
      ]
    ]

  access_epoch-Kept :
      (t : TieredOmap H C) (key : ℤ) (nv : Option Bytes)
      → K t
      → (key ==ℤ invalid_key) ≡ false
      → Returns (access_epoch host hot cold t key nv) (λ r. K r.0)
  unfolding access_epoch tick piggyback_scan with_traffic
  access_epoch-Kept t key nv kept real =
      Returns-bind (λ r. K r.0) (λ r. K r.0) _ _
        (access_branch-Kept (record t { maint = tick t.maint }) kept key nv real)
        (λ r v.
          Returns-bind K (λ r. K r.0) (piggyback_scan host hot cold r.0) _ (rw v.1 v)
            (λ t₃ k₃.
              Returns-bind K (λ r. K r.0) _ _ (maintain-Kept host hot cold t₃ k₃) (λ t₄ k₄. k₄)))

  access_plain-Kept :
      (t : TieredOmap H C) (key : ℤ) (nv : Option Bytes)
      → K t
      → Returns (access_plain host hot cold t key nv) (λ r. K r.0)
  unfolding access_plain plain_hot plain_cold
  access_plain-Kept t key nv kept = Returns-bind (λ r. K r.0) (λ r. K r.0) _ _ branch (λ r v. v)
    where
      on_hot : Returns (plain_hot host hot cold t key nv) (λ r. K r.0)
      on_hot =
          Returns-after (λ r. K r.0) (hot.search t.hot_omap key) _
            (λ s e.
              Returns-after (λ r. K r.0) (data_access host t.data_oram (ref_to_blk s.1) nv) _
                (λ r e₁.
                  Returns-bind K (λ r. K r.0) _ _
                    (cold_dummy-Kept (record t { hot_omap = s.0; data_oram = r.0 }) kept)
                    (λ t₁ k₁.
                      Returns-after (λ r. K r.0)
                        (elim t.mode as (λ _. Result PathOram) [
                          | SecurityMode.full_oblivious ↦ Oram.dummy_access host r.0
                          | SecurityMode.tier_membership ↦ ok r.0
                        ])
                        _ (λ o e₂. k₁))))

      on_cold : Returns (plain_cold host hot cold t key nv) (λ r. K r.0)
      on_cold =
          Returns-after (λ r. K r.0) (hot.dummy_access t.hot_omap) _
            (λ m e.
              Returns-after (λ r. K r.0) (cold.search t.cold_omap key) _
                (λ s e₁.
                  Returns-after (λ r. K r.0)
                    (elim t.mode as (λ _. Result PathOram) [
                      | SecurityMode.full_oblivious ↦ Oram.dummy_access host t.data_oram
                      | SecurityMode.tier_membership ↦ ok t.data_oram
                    ])
                    _
                    (λ o e₂.
                      Returns-after (λ r. K r.0) (data_access host o (ref_to_blk s.1) nv) _
                        (λ r e₃. kept))))

      branch :
          Returns
            (if t.phys_hot_keys key
              then plain_hot host hot cold t key nv
              else plain_cold host hot cold t key nv)
            (λ r. K r.0)
      branch = elim (Bool-cases (t.phys_hot_keys key)) [
        | inl e ↦ rw e on_hot
        | inr e ↦ rw e on_cold
      ]

  -- An access of a key other than the reserved one, in a state whose keys are in order and whose hot map is
  -- not scanned by piggybacking, returns such a state or throws, whatever the two maps answer.
  pub access-Kept :
      (t : TieredOmap H C) (key : ℤ) (nv : Option Bytes)
      → K t
      → (key ==ℤ invalid_key) ≡ false
      → Returns (access host hot cold t key nv) (λ r. K r.0)
  unfolding access
  access-Kept t key nv kept real = go t.has_maint
    where
      go :
          (b : Bool)
          → Returns
              (if b
                then access_epoch host hot cold t key nv
                else access_plain host hot cold t key nv)
              (λ r. K r.0)
      go true = access_epoch-Kept t key nv kept real
      go false = access_plain-Kept t key nv kept
