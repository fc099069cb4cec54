-- ===== src/Common.antt =====
-- The shared types of include/tiered_omap/common.h: blocks, byte buffers and bandwidth counters.
-- A `Bytes` is a list of byte values; an `int` is an integer, a count or an index a natural number.
mod Errors
mod Environment
pub mod Codec
pub use Errors.*
pub use Environment.*
use tiered_omap.Prelude.{
  ℕ, ◌+◌, ◌^◌, ◌≡◌, Bool, List, [], ℤ, negsuc, ◌==ℤ◌, leb, if◌then◌else◌, length, replicate, ◌++◌,
  ◌-◌, suc, zero,
}

abbrev pub Bytes : Type 0
Bytes = List ℕ

abbrev pub invalid_key : ℤ
invalid_key = negsuc 0

abbrev pub invalid_leaf : ℤ
invalid_leaf = negsuc 0

pub record Block : Type 0 where
  pub key : ℤ
  pub leaf : ℤ
  pub value : Bytes

-- `Block{}`
abbrev pub empty_block : Block
empty_block = record { key = invalid_key; leaf = invalid_leaf; value = [] }

abbrev pub is_dummy : Block → Bool
is_dummy b = b.key ==ℤ invalid_key

pub record BandwidthStats : Type 0 where
  pub bytes_downloaded : ℕ
  pub bytes_uploaded : ℕ
  pub rounds : ℕ

abbrev pub no_bandwidth : BandwidthStats
no_bandwidth = record { bytes_downloaded = 0; bytes_uploaded = 0; rounds = 0 }

unfoldable pub total_bytes : BandwidthStats → ℕ
total_bytes s = s.bytes_downloaded + s.bytes_uploaded

-- `operator+=`
unfoldable pub add_stats : BandwidthStats → BandwidthStats → BandwidthStats
add_stats s o = record {
  bytes_downloaded = s.bytes_downloaded + o.bytes_downloaded;
  bytes_uploaded = s.bytes_uploaded + o.bytes_uploaded;
  rounds = s.rounds + o.rounds;
}

unfoldable pub pad_bytes : Bytes → ℕ → Bytes
pad_bytes b target_size =
    if leb target_size (length b) then b else b ++ replicate (target_size - length b) 0

-- The search for the least exponent whose power of two reaches `n`.
unfoldable pub ceil_log2_from : ℕ → ℕ → ℕ → ℕ
ceil_log2_from zero e n = e
ceil_log2_from (suc fuel) e n =
    let rest = ceil_log2_from fuel (e + 1) n in if leb n (2 ^ e) then e else rest

unfoldable pub ceil_log2 : ℕ → ℕ
unfolding ceil_log2_from
ceil_log2 n = if leb n 1 then 0 else ceil_log2_from n 0 n
