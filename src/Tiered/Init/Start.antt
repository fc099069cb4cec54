-- ===== src/Tiered/Init/Start.antt =====
-- `init` sets the keys in order and puts the data into the data ORAM, whatever the two maps do.
use mathlib.Core.List.{Permᴰ}
use mathlib.Core.Path.{fun_ext}
use tiered_omap.Prelude.{
  ℕ, ◌<◌, ◌≡◌, refl, ap, subst, max, Bool, true, false, ◌&&◌, List, [], ℤ, ◌==ℤ◌, ==ℤ_iff,
  if◌then◌else◌, countb, length, arith, Bool-cases, inl, inr,
}
use tiered_omap.Common.{
  Host, Bytes, ok, ◌>>=◌, Returns, Returns-map, Returns-after, invalid_key, ceil_log2,
}
use tiered_omap.Oram.{PathOram, find_leaf}
use tiered_omap.Oram.Valid.{Holds}
use tiered_omap.Oram.Init.{new_oram}
use tiered_omap.Storage.Fresh.{new_storage-IsShaped}
use tiered_omap.Oram.Init.Leaves.{table_of}
use tiered_omap.Oram.Init.Load.{ValidKeys}
use tiered_omap.Oram.Init.Start.{init-Holds}
use tiered_omap.Maintenance.{SwapState, new_manager}
use tiered_omap.Omap.{Omap}
use tiered_omap.Tiered.{TieredOmap}
use tiered_omap.Tiered.Stores.{Stores}
use tiered_omap.Tiered.Kept.{Orderly, Kept}
use tiered_omap.Tiered.Init.{
  TieredOmapConfig, effective_hot_backend, is_da, key_set, sort_keys, load_data, data_cap, cold_cap,
  seed_cache, new_tiered, init,
}
use tiered_omap.Tiered.Init.Load.{refs_from, blocks-ValidKeys}
use tiered_omap.Tiered.Init.Order.{ValidKeys-perm, table_of-perm}
use tiered_omap.Tiered.Init.Seed.{seed_cache-Kept}
use tiered_omap.Tiered.Init.Data.{
  RealKeys, sort_keys-All, sort_keys-Rising, key_set_self, key_set-invalid, data-Stores,
}

new_Orderly :
    (hot_keys : List ℤ)
    → RealKeys hot_keys
    → Orderly
        (key_set hot_keys)
        (key_set hot_keys)
        (λ k. false)
        (sort_keys hot_keys)
        invalid_key
        []
        []
        SwapState.idle
unfolding countb
new_Orderly hot_keys real = record {
  phys_apart = λ k e. (
    refl,
    elim (Bool-cases (invalid_key ==ℤ k)) [
      | inr f ↦ f
      | inl f ↦
          let c = (==ℤ_iff invalid_key k).0 f in
          absurd (let z = key_set-invalid hot_keys real in let w = ap (key_set hot_keys) c in cc)
    ],
  );
  cached_apart = λ k e. absurd (let z : false ≡ true = e in cc);
  real_phys = key_set-invalid hot_keys real;
  real_cached = refl;
  phys_hot = λ k e. e;
  cached_hot = λ k e. absurd (let z : false ≡ true = e in cc);
  pending_hot = λ e. absurd (let z : false ≡ true = e in cc);
  idle_iff = refl;
  counted = λ k. refl;
  no_ref = λ e. refl;
  listed = sort_keys-All (λ k. key_set hot_keys k ≡ true) hot_keys (key_set_self hot_keys);
  rising = sort_keys-Rising hot_keys real;
}

module _ {H C : Type 0} (host : Host) (hot : Omap H) (cold : Omap C) (make_hot : ℕ → H)
    (make_cold : ℕ → C) (aes_key : Bytes) (order : List (ℤ × Bytes) → List (ℤ × Bytes))
    (config : TieredOmapConfig) (entries : List (ℤ × Bytes)) (hot_keys : List ℤ) where
  abbrev use_epoch : Bool
  use_epoch = config.maintenance.enabled

  -- The height of the data ORAM's tree.
  abbrev pub height : ℕ
  height = ceil_log2 (data_cap use_epoch (max (length entries) 1))

  -- The keys are in order, and the data ORAM has the value of each key at its reference.
  abbrev pub Started : TieredOmap H C → Type 0
  Started t =
      Kept t × Stores height host use_epoch (refs_from 0 entries) (table_of entries) t.data_oram

  module _ (keys : ValidKeys entries) (small : length entries < 2147483648)
      (real : RealKeys hot_keys) (perm : (blocks : List (ℤ × Bytes)) → Permᴰ (order blocks) blocks)
      (no_piggyback : is_da (effective_hot_backend config) && config.maintenance.piggyback
        ≡ false) where
    abbrev blocks : List (ℤ × Bytes)
    blocks = (load_data use_epoch (key_set hot_keys) 0 entries).0

    -- Both maps and the data are loaded.
    loaded :
        (m : H) (c : C) (o : PathOram)
        → Stores height host use_epoch (refs_from 0 entries) (table_of entries) o
        → Returns
            (if use_epoch
              then seed_cache hot (new_tiered config hot_keys m c o)
              else ok (new_tiered config hot_keys m c o))
            Started
    unfolding new_manager
    loaded m c o s = go use_epoch
      where
        go :
            (b : Bool)
            → Returns
                (if b
                  then seed_cache hot (new_tiered config hot_keys m c o)
                  else ok (new_tiered config hot_keys m c o))
                Started
        go true =
            Returns-map (λ r. Kept r × (r.data_oram ≡ o)) Started
              (seed_cache hot (new_tiered config hot_keys m c o))
              (seed_cache-Kept hot o (new_tiered config hot_keys m c o)
                (new_Orderly hot_keys real, no_piggyback, refl))
              (λ t v. (v.0, rw v.1 s))
        go false = ((new_Orderly hot_keys real, no_piggyback), s)

    pub init-Kept :
        Returns
          (init host hot cold make_hot make_cold aes_key order config entries hot_keys)
          Started
    unfolding init new_oram find_leaf
    init-Kept =
        let valid = blocks-ValidKeys use_epoch (key_set hot_keys) 0 entries in
        let (o, e, holds) =
          init-Holds host
            (new_oram (data_cap use_epoch (max (length entries) 1)) config.bucket_size 7 aes_key)
            (order blocks) (new_storage-IsShaped _ config.bucket_size)
            (λ k leaf e. absurd (ground arith)) (λ k e. refl)
            (ValidKeys-perm (perm blocks) valid) in
        let refs = (load_data use_epoch (key_set hot_keys) 0 entries) in
        let same : table_of (order blocks) ≡ table_of blocks =
          fun_ext (λ k. table_of-perm k (perm blocks) valid) in
        let stores =
          data-Stores use_epoch (key_set hot_keys) entries small height host o
            (subst (λ m. Holds height host m o) same holds) in
        rw (e, ◌>>=◌)
          (Returns-after Started (hot.init (make_hot (max (length refs.1) 1)) refs.1) _ (λ m e₁.
            Returns-after Started
              (cold.init (make_cold (cold_cap use_epoch (length refs.2) config.total_keys)) refs.2)
              _ (λ c e₂. loaded m c o stores)))
