-- ===== src/Tests/MaintenanceRuns.antt =====
-- `MaintenanceManager` with a window of 10 accesses, intervals of 2 and 6, and a cache of two keys.
use mathlib.Core.List.{Permᴰ}
use tiered_omap.Prelude.{ℕ, ◌≡◌, refl, true, false, ◌&&◌, ◌==◌, [], ◌∷◌, pos, ltb_ℤ, All, arith}
use tiered_omap.Maintenance.{
  MaintenanceManager, new_manager, init_cache, should_scan, should_hot_insert, should_cold_insert,
  should_promote, should_demote_cache, cache_admit,
}
use tiered_omap.Maintenance.Phases.{triggers_apart, cold_insert_starves}
use tiered_omap.Maintenance.Epochs.{meta_after, accesses_in, previous, meta_after-counts}
use tiered_omap.Maintenance.Cache.{admitted, Leaves, cache_admit-perm, should_promote-cache_admit}

abbrev manager : ℕ → MaintenanceManager
manager interval = new_manager (record {
  observation_window = 10;
  swap_interval = interval;
  cache_size = 2;
  enabled = true;
  piggyback = false;
})

abbrev cached : MaintenanceManager
cached =
    init_cache (manager 6)
      (record { key = pos 3; fp = pos 5 } ∷ record { key = pos 8; fp = pos 2 } ∷ [])

triggers_apart_example :
    ((should_scan (manager 6) && should_hot_insert (manager 6)) ≡ false)
    × ((should_scan (manager 6) && should_cold_insert (manager 6)) ≡ false)
    × ((should_hot_insert (manager 6) && should_cold_insert (manager 6)) ≡ false)
triggers_apart_example = triggers_apart (manager 6) (unfold new_manager in omega arith)

cold_insert_starves_example :
    (should_cold_insert (manager 2) ≡ false)
    × ((should_hot_insert (manager 2) && (manager 2).cfg.swap_interval == 1) ≡ false)
cold_insert_starves_example =
    cold_insert_starves (manager 2) (unfold new_manager in omega arith)
      (unfold new_manager in omega arith)

meta_after-counts_example : meta_after (manager 6) (4 ∷ 4 ∷ 3 ∷ 3 ∷ 3 ∷ 1 ∷ []) ≡ record {
  cnt = pos (accesses_in 4 (4 ∷ 4 ∷ 3 ∷ 3 ∷ 3 ∷ 1 ∷ []));
  ep = pos 4;
  fp = pos (previous 4 (4 ∷ 3 ∷ 3 ∷ 3 ∷ 1 ∷ []));
}
meta_after-counts_example = meta_after-counts (manager 6) 4 (4 ∷ 3 ∷ 3 ∷ 3 ∷ 1 ∷ []) (ground arith)

counted :
    (accesses_in 4 (4 ∷ 4 ∷ 3 ∷ 3 ∷ 3 ∷ 1 ∷ []) ≡ 2) × (previous 4 (4 ∷ 3 ∷ 3 ∷ 3 ∷ 1 ∷ []) ≡ 3)
unfolding accesses_in
counted = (refl, refl)

cache_admit-perm_example :
    let (mgr', out) = cache_admit cached (pos 9) (pos 4) false in
    Permᴰ (out ∷ mgr'.cache) (admitted cached (pos 9) (pos 4))
    × All (λ b. Leaves false out b) (admitted cached (pos 9) (pos 4))
cache_admit-perm_example = cache_admit-perm cached (pos 9) (pos 4) false

should_promote-cache_admit_example :
    (should_promote cached (pos 4) ≡ ltb_ℤ (cache_admit cached (pos 9) (pos 4) false).1.fp (pos 4))
    × (should_demote_cache cached (pos 4)
        ≡ ltb_ℤ (pos 4) (cache_admit cached (pos 9) (pos 4) true).1.fp)
should_promote-cache_admit_example = should_promote-cache_admit cached (pos 9) (pos 4)
