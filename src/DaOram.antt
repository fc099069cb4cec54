-- ===== src/DaOram.antt =====
-- src/oram/da_oram.cpp: `DAOram`, whose leaves are derived from counters. The counter blocks and the
-- sizes of the recursive position maps are modelled; the accesses to the position maps and the data
-- tree are not.
pub mod Counters
pub mod Levels
