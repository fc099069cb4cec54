-- ===== src/Omap.antt =====
-- include/tiered_omap/omap/omap_interface.h: `OmapInterface`, what a tier of `TieredOMap` calls. The
-- operations are a record over the type of a map's states; an operation may throw.
use tiered_omap.Prelude.{List, ℤ}
use tiered_omap.Common.{Bytes, BandwidthStats, Result}

pub record Omap (S : Type 0) : Type 0 where
  -- `search(key)`, with no update: the value of the key, or an empty buffer
  pub search : S → ℤ → Result (S × Bytes)
  pub insert : S → ℤ → Bytes → Result S
  pub remove : S → ℤ → Result S
  pub dummy_access : S → Result S
  pub partial_dummy_access : S → Result S
  pub init : S → List (ℤ × Bytes) → Result S
  pub last_stats : S → BandwidthStats
  pub total_stats : S → BandwidthStats
  -- `DaOstOmap::piggyback_scan_step`: the next key and its value
  pub piggyback_scan_step : S → Result (S × ℤ × Bytes)
