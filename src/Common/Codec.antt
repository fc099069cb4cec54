-- ===== src/Common/Codec.antt =====
-- The encodings of include/tiered_omap/common.h: an `int` as four bytes, least first, and the epoch
-- metadata behind a value.
pub mod RoundTrip
use mathlib.Core.List.{List, [], ◌∷◌, ◌++◌}
use tiered_omap.Prelude.{
  ℕ, ◌+◌, ◌-◌, ◌*◌, ◌/◌, ◌%◌, ◌^◌, ◌≤◌, ◌<◌, ◌≡◌, refl, ℤ, pos, negsuc, ltb, if◌then◌else◌, length,
  length-append, take, drop, arith, Bool-cases, inl, inr, All,
}
use tiered_omap.Common.{Bytes}

pub record EpochMeta : Type 0 where
  pub cnt : ℤ
  pub ep : ℤ
  pub fp : ℤ

-- `EpochMeta{}`
abbrev pub no_epoch : EpochMeta
no_epoch = record { cnt = pos 0; ep = negsuc 0; fp = pos 0 }

-- The bit pattern of an `int`, as a number below 2 ^ 32.
unfoldable pub bits : ℤ → ℕ
bits (pos n) = n % 4294967296
bits (negsuc n) = 4294967295 - n % 4294967296

unfoldable pub of_bits : ℕ → ℤ
of_bits u = if ltb u 2147483648 then pos u else negsuc (4294967295 - u)

abbrev pub le_bytes : ℕ → Bytes
le_bytes u = u % 256 ∷ u / 256 % 256 ∷ u / 65536 % 256 ∷ u / 16777216 % 256 ∷ []

unfoldable pub int_to_bytes : ℤ → Bytes
unfolding bits
int_to_bytes v = le_bytes (bits v)

-- The first four bytes; bytes beyond them are not read, and a shorter buffer is 0.
unfoldable pub bytes_to_int : Bytes → ℤ
unfolding of_bits
bytes_to_int (b0 ∷ b1 ∷ b2 ∷ b3 ∷ b) = of_bits (b0 + 256 * b1 + 65536 * b2 + 16777216 * b3)
bytes_to_int b = pos 0

abbrev pub epoch_meta_size : ℕ
epoch_meta_size = 12

unfoldable pub encode_with_epoch : Bytes → EpochMeta → Bytes
unfolding int_to_bytes
encode_with_epoch value m =
    value ++ (int_to_bytes m.cnt ++ (int_to_bytes m.ep ++ int_to_bytes m.fp))

unfoldable pub decode_epoch : Bytes → Bytes × EpochMeta
unfolding bytes_to_int
decode_epoch raw =
    let val_len = length raw - epoch_meta_size in
    let tail = drop val_len raw in
    if ltb (length raw) epoch_meta_size then (raw, no_epoch) else (
      take val_len raw,
      record {
        cnt = bytes_to_int tail;
        ep = bytes_to_int (drop 4 tail);
        fp = bytes_to_int (drop 8 tail);
      },
    )
