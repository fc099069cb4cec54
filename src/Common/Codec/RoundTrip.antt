-- ===== src/Common/Codec/RoundTrip.antt =====
-- Reading back what the encoders of include/tiered_omap/common.h write, and the reverse.
use tiered_omap.Prelude.{
  ℕ, zero, suc, ◌+◌, ◌-◌, ◌*◌, ◌/◌, ◌%◌, ◌≤◌, ◌<◌, ◌≡◌, refl, ℤ, pos, negsuc, ltb, false, length,
  length-drop, length-append, take, drop, take-append, drop-append, take-append-drop, arith, All,
  [], ◌∷◌, ◌++◌,
}
use tiered_omap.Common.{Bytes}
use tiered_omap.Common.Codec.{
  EpochMeta, bits, of_bits, int_to_bytes, bytes_to_int, epoch_meta_size, encode_with_epoch,
  decode_epoch,
}

-- The range of an `int`.
abbrev pub IsInt : ℤ → Type 0
IsInt (pos n) = n < 2147483648
IsInt (negsuc n) = n < 2147483648

pub bits-lt : (v : ℤ) → IsInt v → bits v < 4294967296
unfolding bits
bits-lt (pos n) h = omega arith
bits-lt (negsuc n) h = omega arith

pub of_bits-bits : (v : ℤ) → IsInt v → of_bits (bits v) ≡ v
unfolding bits of_bits
of_bits-bits (pos n) h = ground arith
of_bits-bits (negsuc n) h = ground arith

le_sum :
    (u : ℕ)
    → u < 4294967296
    → u % 256 + 256 * (u / 256 % 256) + 65536 * (u / 65536 % 256) + 16777216 * (u / 16777216 % 256)
      ≡ u
le_sum u h = omega arith

-- An `int` is read back from the front of a buffer that it was written to.
pub bytes_to_int-append : (v : ℤ) (b : Bytes) → IsInt v → bytes_to_int (int_to_bytes v ++ b) ≡ v
unfolding bytes_to_int int_to_bytes
bytes_to_int-append v b h = rw (le_sum (bits v) (bits-lt v h)) (of_bits-bits v h)

-- The metadata in front of a buffer, as `decode_epoch` reads it.
abbrev meta_bytes : EpochMeta → Bytes
meta_bytes m = int_to_bytes m.cnt ++ (int_to_bytes m.ep ++ int_to_bytes m.fp)

abbrev pub IsMeta : EpochMeta → Type 0
IsMeta m = IsInt m.cnt × IsInt m.ep × IsInt m.fp

abbrev read_meta : Bytes → EpochMeta
read_meta b = record {
  cnt = bytes_to_int b;
  ep = bytes_to_int (drop 4 b);
  fp = bytes_to_int (drop 8 b);
}

read_meta-meta_bytes : (m : EpochMeta) → IsMeta m → read_meta (meta_bytes m) ≡ m
read_meta-meta_bytes m h =
    let a : bytes_to_int (meta_bytes m) ≡ m.cnt = bytes_to_int-append m.cnt _ h.0 in
    let b : bytes_to_int (drop 4 (meta_bytes m)) ≡ m.ep =
      unfold int_to_bytes in bytes_to_int-append m.ep (int_to_bytes m.fp) h.1 in
    let c : bytes_to_int (drop 8 (meta_bytes m)) ≡ m.fp =
      unfold int_to_bytes in bytes_to_int-append m.fp [] h.2 in
    rw (a, b, c) refl

-- `decode_epoch` splits what `encode_with_epoch` has joined, if the three counters are in the range
-- of an `int`.
pub decode_epoch-encode_with_epoch :
    (value : Bytes) (m : EpochMeta)
    → IsMeta m
    → decode_epoch (encode_with_epoch value m) ≡ (value, m)
unfolding decode_epoch encode_with_epoch
decode_epoch-encode_with_epoch value m h =
    let e : length (meta_bytes m) ≡ 12 = unfold int_to_bytes in refl in
    let n : length (value ++ meta_bytes m) - 12 ≡ length value =
      rw (length-append, e) (omega arith) in
    let long : ltb (length (value ++ meta_bytes m)) 12 ≡ false =
      rw (length-append, e) (ground arith) in
    rw
      (
        long,
        n,
        take-append (length value) value (meta_bytes m) refl,
        drop-append (length value) value (meta_bytes m) refl,
        read_meta-meta_bytes m h,
      )
      refl

bits-of_bits : (u : ℕ) → u < 4294967296 → bits (of_bits u) ≡ u
unfolding bits of_bits
bits-of_bits u h = ground arith

abbrev pub IsByte : ℕ → Type 0
IsByte b = b < 256

-- The first four bytes are written as they were read.
int_to_bytes-bytes_to_int :
    (b : Bytes) → All IsByte b → 4 ≤ length b → int_to_bytes (bytes_to_int b) ≡ take 4 b
unfolding int_to_bytes bytes_to_int
int_to_bytes-bytes_to_int (b0 ∷ b1 ∷ b2 ∷ b3 ∷ b) (h0, (h1, (h2, (h3, h)))) n =
    let u = b0 + 256 * b1 + 65536 * b2 + 16777216 * b3 in
    let e0 : u % 256 ≡ b0 = omega arith in
    let e1 : u / 256 % 256 ≡ b1 = omega arith in
    let e2 : u / 65536 % 256 ≡ b2 = omega arith in
    let e3 : u / 16777216 % 256 ≡ b3 = omega arith in
    rw (bits-of_bits u (omega arith), e0, e1, e2, e3) refl
int_to_bytes-bytes_to_int b h n = absurd (omega arith)

All-drop : (n : ℕ) (b : Bytes) → All IsByte b → All IsByte (drop n b)
All-drop zero b h = h
All-drop (suc n) [] h = tt
All-drop (suc n) (x ∷ b) h = All-drop n b h.1

write_meta : (t : Bytes) → All IsByte t → length t ≡ 12 → meta_bytes (read_meta t) ≡ t
write_meta t h n =
    let a = int_to_bytes-bytes_to_int t h (omega arith) in
    let b = int_to_bytes-bytes_to_int (drop 4 t) (All-drop 4 t h) (rw length-drop (omega arith)) in
    let c = int_to_bytes-bytes_to_int (drop 8 t) (All-drop 8 t h) (rw length-drop (omega arith)) in
    rw (a, b, c) (three_pieces t n)
  where
    three_pieces :
        (t : Bytes) → length t ≡ 12 → take 4 t ++ (take 4 (drop 4 t) ++ take 4 (drop 8 t)) ≡ t
    three_pieces (x0 ∷ x1 ∷ x2 ∷ x3 ∷ x4 ∷ x5 ∷ x6 ∷ x7 ∷ x8 ∷ x9 ∷ xa ∷ xb ∷ []) n = refl
    three_pieces t n = absurd (omega arith)

-- Any buffer of bytes that is long enough for the metadata is what `encode_with_epoch` makes of the
-- two parts that `decode_epoch` reads in it.
pub encode_with_epoch-decode_epoch :
    (raw : Bytes)
    → All IsByte raw
    → epoch_meta_size ≤ length raw
    → encode_with_epoch (decode_epoch raw).0 (decode_epoch raw).1 ≡ raw
unfolding decode_epoch encode_with_epoch
encode_with_epoch-decode_epoch raw h n =
    let long : ltb (length raw) 12 ≡ false = ground arith in
    let t = drop (length raw - 12) raw in
    let e = write_meta t (All-drop _ raw h) (rw length-drop (omega arith)) in
    rw (long, e) (take-append-drop (length raw - 12) raw)
