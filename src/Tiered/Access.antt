-- ===== src/Tiered/Access.antt =====
-- `TieredOMap::access` without a channel.
use tiered_omap.Prelude.{
  ℕ, ◌+◌, ◌-◌, max, Bool, true, false, not, ◌&&◌, ◌||◌, Option, none, [], ◌∷◌, ◌++◌, ℤ, pos, ◌==ℤ◌,
  if◌then◌else◌,
}
use tiered_omap.Common.{Host, Bytes, Result, ok, ◌>>=◌, BandwidthStats, add_stats, invalid_key}
use tiered_omap.Common.Codec.{EpochMeta, decode_epoch}
use tiered_omap.Oram.{PathOram}
use tiered_omap.Oram
use tiered_omap.Maintenance.{
  tick, should_scan, should_hot_insert, should_cold_insert, should_promote, should_demote_cache,
  update_cache_fp,
}
use tiered_omap.Omap.{Omap}
use tiered_omap.Tiered.{
  SecurityMode, TieredOmap, ref_to_blk, data_access, touch_block, promote_to_cache,
}
use tiered_omap.Tiered.Steps.{is_idle, do_scan_step, do_hot_insert_step, do_cold_insert_step}

-- The fields that an access without interleaving sets.
pub record AccessResult : Type 0 where
  pub value : Bytes
  pub found_in_hot : Bool
  pub hot_bw : BandwidthStats
  pub cold_bw : BandwidthStats
  pub total_bw : BandwidthStats
  pub rounds_to_answer : ℕ
  pub last_access_fp : ℤ

abbrev pub is_empty : Bytes → Bool
is_empty [] = true
is_empty (b ∷ bytes) = false

-- The traffic of both maps and of the data ORAM, where the two maps share their rounds.
unfoldable pub total_traffic : BandwidthStats → BandwidthStats → BandwidthStats → BandwidthStats
total_traffic hot cold block = record {
  bytes_downloaded = hot.bytes_downloaded + cold.bytes_downloaded + block.bytes_downloaded;
  bytes_uploaded = hot.bytes_uploaded + cold.bytes_uploaded + block.bytes_uploaded;
  rounds = max hot.rounds cold.rounds + block.rounds;
}

-- What the steps have added to the traffic of a component.
unfoldable pub added_traffic : BandwidthStats → BandwidthStats → BandwidthStats
added_traffic before after = record {
  bytes_downloaded = after.bytes_downloaded - before.bytes_downloaded;
  bytes_uploaded = after.bytes_uploaded - before.bytes_uploaded;
  rounds = after.rounds - before.rounds;
}

module _ {H C : Type 0} (host : Host) (hot : Omap H) (cold : Omap C) where
  -- `FullOblivious` asks for a full dummy access, the other mode for a partial one.
  unfoldable pub cold_dummy : TieredOmap H C → Result (TieredOmap H C)
  cold_dummy t = do
    cold_omap ← (elim t.mode as (λ _. Result C) [
      | SecurityMode.full_oblivious ↦ cold.dummy_access t.cold_omap
      | SecurityMode.tier_membership ↦ cold.partial_dummy_access t.cold_omap
    ])
    ok (record t { cold_omap = cold_omap })

  unfoldable pub hot_dummy : TieredOmap H C → Result (TieredOmap H C)
  hot_dummy t = do hot_omap ← hot.dummy_access t.hot_omap; ok (record t { hot_omap = hot_omap })

  -- The key waits to be inserted: its reference is at hand.
  unfoldable pub access_pending :
      TieredOmap H C → Option Bytes → Result (TieredOmap H C × Bytes × ℤ)
  unfolding touch_block cold_dummy hot_dummy
  access_pending t new_value = do
    (o₁, value, meta) ←
        touch_block host t.maint t.data_oram (ref_to_blk t.pending_insert_ref) new_value
    t₂ ← hot_dummy (record t { data_oram = o₁ })
    t₃ ← cold_dummy t₂
    ok (t₃, value, meta.fp)

  -- The key is in the cache: so is its reference.
  unfoldable pub access_cached :
      TieredOmap H C → ℤ → Option Bytes → Result (TieredOmap H C × Bytes × ℤ)
  unfolding touch_block cold_dummy hot_dummy
  access_cached t key new_value = do
    (o₁, value, meta) ←
        touch_block host t.maint t.data_oram (ref_to_blk (t.cache_data_refs key)) new_value
    t₂ ← hot_dummy (record t { data_oram = o₁; maint = update_cache_fp t.maint key meta.fp })
    t₃ ← cold_dummy t₂
    ok (t₃, value, pos 0)

  -- The search in the one map and the dummy access to the other.
  unfoldable pub search_hot :
      TieredOmap H C → ℤ → Option Bytes → Result (TieredOmap H C × Bytes × EpochMeta × Bytes)
  unfolding touch_block cold_dummy
  search_hot t key new_value = do
    (hot_omap, ref) ← hot.search t.hot_omap key
    (o₁, value, meta) ← touch_block host t.maint t.data_oram (ref_to_blk ref) new_value
    t₂ ← cold_dummy (record t { hot_omap = hot_omap; data_oram = o₁ })
    ok (t₂, value, meta, ref)

  unfoldable pub search_cold :
      TieredOmap H C → ℤ → Option Bytes → Result (TieredOmap H C × Bytes × EpochMeta × Bytes)
  unfolding touch_block
  search_cold t key new_value = do
    (cold_omap, ref) ← cold.search t.cold_omap key
    (o₁, value, meta) ← touch_block host t.maint t.data_oram (ref_to_blk ref) new_value
    hot_omap ← (elim t.mode as (λ _. Result H) [
      | SecurityMode.full_oblivious ↦ hot.dummy_access t.hot_omap
      | SecurityMode.tier_membership ↦ hot.partial_dummy_access t.hot_omap
    ])
    ok (record t { cold_omap = cold_omap; hot_omap = hot_omap; data_oram = o₁ }, value, meta, ref)

  -- A cold key that is used enough changes places with an entry of the cache.
  unfoldable pub promote_cold : TieredOmap H C → ℤ → ℤ → Bytes → Result (TieredOmap H C)
  unfolding promote_to_cache
  promote_cold t key fp ref =
      if not (t.hot_keys key) && not (is_empty ref)
      then if is_idle t.maint.swap_state && should_promote t.maint fp
        then (do
          cold_omap ← cold.remove t.cold_omap key
          ok (promote_to_cache (record t { cold_omap = cold_omap }) key fp ref))
        else (do cold_omap ← cold.dummy_access t.cold_omap; ok (record t { cold_omap = cold_omap }))
      else ok t

  unfoldable pub access_sequential :
      TieredOmap H C → ℤ → Option Bytes → Result (TieredOmap H C × Bytes × ℤ)
  unfolding search_hot search_cold promote_cold
  access_sequential t key new_value = do
    (t₁, value, meta, ref) ←
        (if t.phys_hot_keys key then search_hot t key new_value else search_cold t key new_value)
    t₂ ← promote_cold t₁ key meta.fp ref
    ok (t₂, value, meta.fp)

  -- A demotion that the scan of a piggybacked access finds is put in the queue.
  unfoldable pub queue_demotion : TieredOmap H C → ℤ → Bytes → Result (TieredOmap H C)
  unfolding data_access
  queue_demotion t key ref =
      if not (key ==ℤ invalid_key) && not (is_empty ref)
      then (do
        (o₁, raw) ← data_access host t.data_oram (ref_to_blk ref) none
        let fp = (decode_epoch raw).1.fp
        ok (record t {
          data_oram = o₁;
          da_pending_demotions =
              if should_demote_cache t.maint fp
              then t.da_pending_demotions ++ (key, fp) ∷ []
              else t.da_pending_demotions;
        }))
      else ok t

  unfoldable pub piggyback_scan : TieredOmap H C → Result (TieredOmap H C)
  unfolding queue_demotion
  piggyback_scan t =
      if t.is_da_hot && t.maint.cfg.piggyback
      then (do
        (hot_omap, key, ref) ← hot.piggyback_scan_step t.hot_omap
        queue_demotion (record t { hot_omap = hot_omap }) key ref)
      else ok t

  -- The steps whose phase the access is in.
  unfoldable pub maintain : TieredOmap H C → Result (TieredOmap H C)
  unfolding do_scan_step do_hot_insert_step do_cold_insert_step
  maintain t = do
    t₁ ← (if should_scan t.maint then do_scan_step host hot cold t else ok t)
    t₂ ← (if should_hot_insert t₁.maint then do_hot_insert_step host hot cold t₁ else ok t₁)
    if should_cold_insert t₂.maint then do_cold_insert_step host hot cold t₂ else ok t₂

  -- The traffic of the three components since the last reset, and the traffic of the maintenance.
  unfoldable pub with_traffic :
      TieredOmap H C → TieredOmap H C → Bool → Bool → Bytes → ℤ → AccessResult
  unfolding total_traffic added_traffic add_stats
  with_traffic before after is_hot_logical found_in_hot value fp =
      let hot_bw = hot.last_stats before.hot_omap in
      let total =
        total_traffic hot_bw (cold.last_stats before.cold_omap) before.data_oram.last_bw in
      let h = added_traffic (hot.total_stats before.hot_omap) (hot.total_stats after.hot_omap) in
      let c =
        added_traffic (cold.total_stats before.cold_omap) (cold.total_stats after.cold_omap) in
      let d = added_traffic before.data_oram.total_bw after.data_oram.total_bw in
      record {
        value = value;
        found_in_hot = found_in_hot;
        hot_bw = hot_bw;
        cold_bw = cold.last_stats before.cold_omap;
        total_bw = add_stats total (add_stats (add_stats h c) d);
        rounds_to_answer = if is_hot_logical then hot_bw.rounds + 1 else total.rounds;
        last_access_fp = fp;
      }

  -- The branch of an access with maintenance: pending, cached, or in one of the maps.
  unfoldable pub access_branch :
      TieredOmap H C → ℤ → Option Bytes → Result (TieredOmap H C × Bytes × ℤ)
  unfolding access_pending access_cached access_sequential
  access_branch t key new_value =
      if key ==ℤ t.pending_insert_key
      then access_pending t new_value
      else if t.cache_keys key
      then access_cached t key new_value
      else access_sequential t key new_value

  unfoldable pub access_epoch :
      TieredOmap H C → ℤ → Option Bytes → Result (TieredOmap H C × AccessResult)
  unfolding access_branch piggyback_scan maintain with_traffic
  access_epoch t key new_value = do
    let t₁ = record t { maint = tick t.maint }
    (t₂, value, fp) ← access_branch t₁ key new_value
    t₃ ← piggyback_scan t₂
    t₄ ← maintain t₃
    ok (
      t₄,
      with_traffic t₃ t₄ (t.hot_keys key) (key ==ℤ t.pending_insert_key || t.hot_keys key) value fp,
    )

  -- Without maintenance, a key in the hot map.
  unfoldable pub plain_hot :
      TieredOmap H C → ℤ → Option Bytes → Result (TieredOmap H C × BandwidthStats × Bytes)
  unfolding data_access cold_dummy
  plain_hot t key new_value = do
    (hot_omap, ref) ← hot.search t.hot_omap key
    (o₁, value) ← data_access host t.data_oram (ref_to_blk ref) new_value
    t₁ ← cold_dummy (record t { hot_omap = hot_omap; data_oram = o₁ })
    o₂ ← (elim t.mode as (λ _. Result PathOram) [
      | SecurityMode.full_oblivious ↦ Oram.dummy_access host o₁
      | SecurityMode.tier_membership ↦ ok o₁
    ])
    ok (record t₁ { data_oram = o₂ }, hot.last_stats hot_omap, value)

  unfoldable pub plain_cold :
      TieredOmap H C → ℤ → Option Bytes → Result (TieredOmap H C × BandwidthStats × Bytes)
  unfolding data_access
  plain_cold t key new_value = do
    hot_omap ← hot.dummy_access t.hot_omap
    (cold_omap, ref) ← cold.search t.cold_omap key
    o₁ ← (elim t.mode as (λ _. Result PathOram) [
      | SecurityMode.full_oblivious ↦ Oram.dummy_access host t.data_oram
      | SecurityMode.tier_membership ↦ ok t.data_oram
    ])
    (o₂, value) ← data_access host o₁ (ref_to_blk ref) new_value
    ok (
      record t { hot_omap = hot_omap; cold_omap = cold_omap; data_oram = o₂ },
      hot.last_stats hot_omap,
      value,
    )

  unfoldable pub access_plain :
      TieredOmap H C → ℤ → Option Bytes → Result (TieredOmap H C × AccessResult)
  unfolding plain_hot plain_cold total_traffic
  access_plain t key new_value = do
    (t₁, hot_bw, value) ←
        (if t.phys_hot_keys key then plain_hot t key new_value else plain_cold t key new_value)
    let cold_bw = cold.last_stats t₁.cold_omap
    let total = total_traffic hot_bw cold_bw t₁.data_oram.last_bw
    ok (
      t₁,
      record {
        value = value;
        found_in_hot = t.hot_keys key;
        hot_bw = hot_bw;
        cold_bw = cold_bw;
        total_bw = total;
        rounds_to_answer = if t.hot_keys key then hot_bw.rounds + 1 else total.rounds;
        last_access_fp = pos 0;
      },
    )

  unfoldable pub access : TieredOmap H C → ℤ → Option Bytes → Result (TieredOmap H C × AccessResult)
  unfolding access_epoch access_plain
  access t key new_value =
      if t.has_maint then access_epoch t key new_value else access_plain t key new_value
