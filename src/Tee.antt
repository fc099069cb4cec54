-- ===== src/Tee.antt =====
-- The parts for a trusted execution environment: include/tiered_omap/tee and src/tee.
pub mod Oblivious
pub mod Directory
pub mod Enclave
