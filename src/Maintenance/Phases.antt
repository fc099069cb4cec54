-- ===== src/Maintenance/Phases.antt =====
-- The staggered triggers of `MaintenanceManager`.
use tiered_omap.Prelude.{◌≤◌, ◌<◌, ◌≡◌, false, ◌&&◌, arith, ◌==◌}
use tiered_omap.Maintenance.{MaintenanceManager, should_scan, should_hot_insert, should_cold_insert}

-- With an interval of at least 3 no two of the triggers fire on one access.
pub triggers_apart :
    (mgr : MaintenanceManager)
    → 3 ≤ mgr.cfg.swap_interval
    → ((should_scan mgr && should_hot_insert mgr) ≡ false)
      × ((should_scan mgr && should_cold_insert mgr) ≡ false)
      × ((should_hot_insert mgr && should_cold_insert mgr) ≡ false)
unfolding should_scan should_hot_insert should_cold_insert
triggers_apart mgr h = (ground arith, ground arith, ground arith)

-- With an interval of 1 or 2 the cold insertion never fires, and with 1 the hot one neither.
pub cold_insert_starves :
    (mgr : MaintenanceManager)
    → 1 ≤ mgr.cfg.swap_interval
    → mgr.cfg.swap_interval < 3
    → (should_cold_insert mgr ≡ false)
      × ((should_hot_insert mgr && mgr.cfg.swap_interval == 1) ≡ false)
unfolding should_hot_insert should_cold_insert
cold_insert_starves mgr h k = (ground arith, ground arith)
