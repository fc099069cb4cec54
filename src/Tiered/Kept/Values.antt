-- ===== src/Tiered/Kept/Values.antt =====
-- The value that an access of `TieredOMap` returns and the values that its data ORAM then has, where the
-- reference that the access takes is that of the key.
use tiered_omap.Prelude.{
  ℕ, ◌≡◌, refl, Bool, true, false, not, ◌&&◌, ◌||◌, Option, ℤ, ◌==ℤ◌, if◌then◌else◌, Bool-cases,
  inl, inr,
}
use tiered_omap.Common.{
  Host, Bytes, Result, ok, ◌>>=◌, Returns, Returns-bind, Returns-after, Yields-Returns,
  BandwidthStats,
}
use tiered_omap.Common.Codec.{EpochMeta}
use tiered_omap.Maintenance.{update_cache_fp, should_promote, tick}
use tiered_omap.Omap.{Omap}
use tiered_omap.Oram
use tiered_omap.Oram.{PathOram}
use tiered_omap.Oram.Valid.{Table}
use tiered_omap.Tiered.{
  TieredOmap, SecurityMode, Refs, touch_block, ref_to_blk, data_access, value_or, promote_to_cache,
}
use tiered_omap.Tiered.Steps.{is_idle}
use tiered_omap.Tiered.Access.{
  AccessResult, is_empty, hot_dummy, cold_dummy, access_pending, access_cached, search_hot,
  search_cold, promote_cold, access_sequential, access_branch, with_traffic, access_epoch,
  plain_hot, plain_cold, access_plain, access,
}
use tiered_omap.Tiered.Stores.{Stores, wrote, value_of}
use tiered_omap.Tiered.Touch.{dummy-Stores, touch-Stores, plain-Stores}
use tiered_omap.Tiered.Kept.Serve.{Has, maintain-Has, piggyback_scan-Has}

-- The key is the pending one or a cached one, so that no map is searched.
abbrev pub is_waiting : {H C : Type 0} → TieredOmap H C → ℤ → Bool
is_waiting t key = t.has_maint && (key ==ℤ t.pending_insert_key || t.cache_keys key)

-- The reference that an access takes, where it has one, is that of the key: the pending one, the cached
-- one, or the answer of the map that is searched.
abbrev pub TakesRef : {H C : Type 0} → Omap H → Omap C → Refs → TieredOmap H C → ℤ → Type 0
TakesRef {H} {C} hot cold refs t key =
    ((key ==ℤ t.pending_insert_key) ≡ true → t.pending_insert_ref ≡ refs key)
    × (t.cache_keys key ≡ true → t.cache_data_refs key ≡ refs key)
    × (is_waiting t key ≡ false
        → t.phys_hot_keys key ≡ true
        → (s : H) (ref : Bytes) → hot.search t.hot_omap key ≡ ok (s, ref)
        → ref ≡ refs key)
    × (is_waiting t key ≡ false
        → t.phys_hot_keys key ≡ false
        → (s : C) (ref : Bytes) → cold.search t.cold_omap key ≡ ok (s, ref)
        → ref ≡ refs key)

module _ {H C : Type 0} (h : ℕ) (host : Host) (hot : Omap H) (cold : Omap C) (refs : Refs) where
  abbrev D : Bool → Table → TieredOmap H C → Type 0
  D = Has h host hot cold refs

  cold_dummy-Has :
      (epoch : Bool) (V : Table) (t : TieredOmap H C)
      → D epoch V t
      → Returns (cold_dummy host hot cold t) (D epoch V)
  unfolding cold_dummy
  cold_dummy-Has epoch V t s =
      Returns-after (D epoch V)
        (elim t.mode as (λ _. Result C) [
          | SecurityMode.full_oblivious ↦ cold.dummy_access t.cold_omap
          | SecurityMode.tier_membership ↦ cold.partial_dummy_access t.cold_omap
        ])
        _ (λ c e. s)

  promote_cold-Has :
      (V : Table) (t : TieredOmap H C) (key fp : ℤ) (ref : Bytes)
      → D true V t
      → Returns (promote_cold host hot cold t key fp ref) (D true V)
  unfolding promote_cold promote_to_cache
  promote_cold-Has V t key fp ref s =
      elim (Bool-cases (not (t.hot_keys key) && not (is_empty ref))) [
        | inr e ↦ rw e s
        | inl e ↦ elim (Bool-cases (is_idle t.maint.swap_state && should_promote t.maint fp)) [
          | inl f ↦ rw (e, f) (Returns-after (D true V) (cold.remove t.cold_omap key) _ (λ c g. s))
          | inr f ↦
              rw (e, f) (Returns-after (D true V) (cold.dummy_access t.cold_omap) _ (λ c g. s))
        ]
      ]

  module _ (V : Table) (key : ℤ) (nv : Option Bytes) where
    abbrev new_value : Bytes
    new_value = value_or nv (value_of (V key))

    abbrev R : TieredOmap H C × Bytes × ℤ → Type 0
    R r = D true (wrote V key nv) r.0 × (r.1 ≡ new_value)

    abbrev S : TieredOmap H C × Bytes × EpochMeta × Bytes → Type 0
    S r = D true (wrote V key nv) r.0 × (r.1 ≡ new_value)

    abbrev T : PathOram × Bytes × EpochMeta → Type 0
    T r = Stores h host true refs (wrote V key nv) r.0 × (r.1 ≡ new_value)

    module _ (t : TieredOmap H C) (s : D true V t) where
      touched :
          (ref : Bytes)
          → ref ≡ refs key
          → Returns (touch_block host t.maint t.data_oram (ref_to_blk ref) nv) T
      touched ref e =
          Yields-Returns T (touch_block host t.maint t.data_oram (ref_to_blk ref) nv)
            (rw e (touch-Stores h host refs V t.data_oram t.maint key nv s))

      both_dummy :
          (t₁ : TieredOmap H C) (value : Bytes) (fp : ℤ)
          → D true (wrote V key nv) t₁
          → value ≡ new_value
          → Returns
              (hot_dummy host hot cold t₁ >>= λ t₂.
                cold_dummy host hot cold t₂ >>= λ t₃. ok (t₃, value, fp))
              R
      unfolding hot_dummy
      both_dummy t₁ value fp s₁ v =
          Returns-bind (D true (wrote V key nv)) R _ _
            (Returns-after (D true (wrote V key nv)) (hot.dummy_access t₁.hot_omap)
              (λ m. ok (record t₁ { hot_omap = m })) (λ m e. s₁))
            (λ t₂ s₂.
              Returns-bind (D true (wrote V key nv)) R _ _
                (cold_dummy-Has true (wrote V key nv) t₂ s₂) (λ t₃ s₃. (s₃, v)))

      branch-Has :
          t.has_maint ≡ true
          → TakesRef hot cold refs t key
          → Returns (access_branch host hot cold t key nv) R
      unfolding access_branch access_pending access_cached access_sequential search_hot search_cold
      branch-Has epoch takes = elim (Bool-cases (key ==ℤ t.pending_insert_key)) [
        | inl e ↦ rw e (
            Returns-bind T R _ _ (touched t.pending_insert_ref (takes.0 e))
              (λ r v. both_dummy (record t { data_oram = r.0 }) _ _ v.0 v.1))
        | inr e ↦ elim (Bool-cases (t.cache_keys key)) [
          | inl f ↦
              rw (e, f)
                (Returns-bind T R _ _ (touched (t.cache_data_refs key) (takes.1 f)) (λ r v.
                  both_dummy
                    (record t { data_oram = r.0; maint = update_cache_fp t.maint key r.2.fp }) _ _
                    v.0 v.1))
          | inr f ↦
              let idle : is_waiting t key ≡ false = rw (epoch, e, f) refl in
              rw (e, f)
                (Returns-bind S R _ _ (searched idle) (λ r v.
                  Returns-bind (D true (wrote V key nv)) R _ _
                    (promote_cold-Has (wrote V key nv) r.0 key r.2.fp r.3 v.0)
                    (λ t₂ s₂. (s₂, v.1))))
        ]
      ]
        where
          searched :
              is_waiting t key ≡ false
              → Returns
                  (if t.phys_hot_keys key
                    then search_hot host hot cold t key nv
                    else search_cold host hot cold t key nv)
                  S
          searched idle = elim (Bool-cases (t.phys_hot_keys key)) [
            | inl g ↦ rw g (
                Returns-after S (hot.search t.hot_omap key) _ (λ a e₁.
                  Returns-bind T S _ _ (touched a.1 (takes.2 idle g a.0 a.1 e₁)) (λ r v.
                    Returns-bind (D true (wrote V key nv)) S _ _
                      (cold_dummy-Has true (wrote V key nv)
                        (record t { hot_omap = a.0; data_oram = r.0 }) v.0)
                      (λ t₂ s₂. (s₂, v.1)))))
            | inr g ↦ rw g (
                Returns-after S (cold.search t.cold_omap key) _ (λ a e₁.
                  Returns-bind T S _ _ (touched a.1 (takes.3 idle g a.0 a.1 e₁)) (λ r v.
                    Returns-after S
                      (elim t.mode as (λ _. Result H) [
                        | SecurityMode.full_oblivious ↦ hot.dummy_access t.hot_omap
                        | SecurityMode.tier_membership ↦ hot.partial_dummy_access t.hot_omap
                      ])
                      _ (λ m e₂. v))))
          ]

  abbrev A : Bool → Table → ℤ → Option Bytes → TieredOmap H C × AccessResult → Type 0
  A epoch V key nv r =
      D epoch (wrote V key nv) r.0
      × (r.1.value ≡ (if epoch then value_or nv (value_of (V key)) else value_of (V key)))

  epoch-Has :
      (V : Table) (t : TieredOmap H C) (key : ℤ) (nv : Option Bytes)
      → t.has_maint ≡ true
      → D true V t
      → TakesRef hot cold refs t key
      → Returns (access_epoch host hot cold t key nv) (A true V key nv)
  unfolding access_epoch tick with_traffic
  epoch-Has V t key nv e s takes =
      let W = wrote V key nv in
      Returns-bind (R V key nv) (A true V key nv) _ _
        (branch-Has V key nv (record t { maint = tick t.maint }) s e takes)
        (λ r v.
          Returns-bind (D true W) (A true V key nv) _ _
            (piggyback_scan-Has h host hot cold refs true W r.0 v.0)
            (λ t₃ s₃.
              Returns-bind (D true W) (A true V key nv) _ _
                (maintain-Has h host hot cold refs true W t₃ s₃) (λ t₄ s₄. (s₄, v.1))))

  plain-Has :
      (V : Table) (t : TieredOmap H C) (key : ℤ) (nv : Option Bytes)
      → t.has_maint ≡ false
      → D false V t
      → TakesRef hot cold refs t key
      → Returns (access_plain host hot cold t key nv) (A false V key nv)
  unfolding access_plain plain_hot plain_cold
  plain-Has V t key nv e s takes = Returns-bind P (A false V key nv) _ _ branch (λ r v. v)
    where
      W : Table
      W = wrote V key nv

      P : TieredOmap H C × BandwidthStats × Bytes → Type 0
      P r = D false (wrote V key nv) r.0 × (r.2 ≡ value_of (V key))

      Q : PathOram × Bytes → Type 0
      Q r = Stores h host false refs (wrote V key nv) r.0 × (r.1 ≡ value_of (V key))

      idle : is_waiting t key ≡ false
      idle = rw e refl

      data_dummy :
          (U : Table) (m : SecurityMode) (o : PathOram)
          → Stores h host false refs U o
          → Returns
              (elim m as (λ _. Result PathOram) [
                | SecurityMode.full_oblivious ↦ Oram.dummy_access host o
                | SecurityMode.tier_membership ↦ ok o
              ])
              (Stores h host false refs U)
      data_dummy U SecurityMode.full_oblivious o u =
          Yields-Returns (Stores h host false refs U) (Oram.dummy_access host o)
            (dummy-Stores h host refs U o false u)
      data_dummy U SecurityMode.tier_membership o u = u

      read_write :
          (o : PathOram) (ref : Bytes)
          → Stores h host false refs V o
          → ref ≡ refs key
          → Returns (data_access host o (ref_to_blk ref) nv) Q
      read_write o ref u r =
          Yields-Returns Q (data_access host o (ref_to_blk ref) nv)
            (rw r (plain-Stores h host refs V o key nv u))

      branch :
          Returns
            (if t.phys_hot_keys key
              then plain_hot host hot cold t key nv
              else plain_cold host hot cold t key nv)
            P
      branch = elim (Bool-cases (t.phys_hot_keys key)) [
        | inl g ↦ rw g (
            Returns-after P (hot.search t.hot_omap key) _ (λ a e₁.
              Returns-bind Q P (data_access host t.data_oram (ref_to_blk a.1) nv) _
                (read_write t.data_oram a.1 s (takes.2 idle g a.0 a.1 e₁))
                (λ r v.
                  Returns-bind (D false W) P _ _
                    (cold_dummy-Has false W (record t { hot_omap = a.0; data_oram = r.0 }) v.0)
                    (λ t₁ s₁.
                      Returns-bind (Stores h host false refs W) P _ _ (data_dummy W t.mode r.0 v.0)
                        (λ o u. (u, v.1))))))
        | inr g ↦ rw g (
            Returns-after P (hot.dummy_access t.hot_omap) _ (λ m e₀.
              Returns-after P (cold.search t.cold_omap key) _ (λ a e₁.
                Returns-bind (Stores h host false refs V) P _ _ (data_dummy V t.mode t.data_oram s)
                  (λ o u.
                    Returns-bind Q P (data_access host o (ref_to_blk a.1) nv) _
                      (read_write o a.1 u (takes.3 idle g a.0 a.1 e₁)) (λ r v. v)))))
      ]

  -- In a state whose data ORAM has the values of a table at the references of the keys, an access that takes
  -- the reference of its key from the pending entry, from the cache or from the map that it searches
  -- returns a state whose data ORAM has the values with the new one of the key, for a key of the table
  -- that is written, or throws. It returns the value that the key then has where maintenance is enabled,
  -- and the one that it had where it is not. Nothing else is asked of the two maps.
  pub access-Stores :
      (V : Table) (t : TieredOmap H C) (key : ℤ) (nv : Option Bytes)
      → Stores h host t.has_maint refs V t.data_oram
      → TakesRef hot cold refs t key
      → Returns (access host hot cold t key nv) (λ r.
        Stores h host t.has_maint refs (wrote V key nv) r.0.data_oram
        × (r.1.value ≡ (if t.has_maint then value_or nv (value_of (V key)) else value_of (V key))))
  unfolding access
  access-Stores V t key nv s takes = go t.has_maint refl s
    where
      go :
          (b : Bool)
          → t.has_maint ≡ b
          → D b V t
          → Returns
              (if b
                then access_epoch host hot cold t key nv
                else access_plain host hot cold t key nv)
              (A b V key nv)
      go true e s = epoch-Has V t key nv e s takes
      go false e s = plain-Has V t key nv e s takes
