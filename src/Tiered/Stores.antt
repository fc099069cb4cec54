-- ===== src/Tiered/Stores.antt =====
-- The data ORAM of `TieredOMap`: each key of the table has a reference to a block of its own, which
-- holds its value.
use tiered_omap.Prelude.{
  ℕ, ◌≡◌, refl, Bool, true, false, ◌&&◌, Option, none, some, [], ◌++◌, ℤ, pos, ◌==ℤ◌, ltb_ℤ,
  if◌then◌else◌, length, length-append, take-append, ltb, arith, ◌-◌, inl, inr,
}
use tiered_omap.Common.{Host, Bytes, ok, Yields, Yields-bind}
use tiered_omap.Common.Codec.{EpochMeta, int_to_bytes, encode_with_epoch, decode_epoch}
use tiered_omap.Oram.{PathOram}
use tiered_omap.Oram
use tiered_omap.Oram.Valid.{Table, is_some, Holds}
use tiered_omap.Oram.Written.{written}
use tiered_omap.Oram.Access.{access-Holds}
use tiered_omap.Oram.Dummy.{dummy_access-Holds}
use tiered_omap.Tiered.{Refs}
use tiered_omap.Tiered.{ref_to_blk, data_access}

-- How a block holds a value: with metadata behind it, or alone.
abbrev pub Form : Bool → Bytes → Bytes → Type 0
Form true v raw = (m : EpochMeta) × (raw ≡ encode_with_epoch v m)
Form false v raw = raw ≡ v

-- A missing key has the empty reference; a key of the table has a reference to a block.
abbrev pub Entry : Bool → Bytes → Option Bytes → Table → Type 0
Entry epoch ref none blocks = ref ≡ []
Entry epoch ref (some v) blocks =
    (ltb_ℤ (ref_to_blk ref) (pos 0) ≡ false)
    × ((raw : Bytes) × (blocks (ref_to_blk ref) ≡ some raw) × Form epoch v raw)

pub record Stores (h : ℕ) (host : Host) (epoch : Bool) (refs : Refs) (V : Table) (o : PathOram)
    : Type 0 where
  pub blocks : Table
  pub holds : Holds h host blocks o
  pub entry : (k : ℤ) → Entry epoch (refs k) (V k) blocks
  pub apart :
      (k k' : ℤ)
      → is_some (V k) ≡ true
      → is_some (V k') ≡ true
      → ref_to_blk (refs k) ≡ ref_to_blk (refs k')
      → k ≡ k'

-- The table after a write: a missing key is not added.
abbrev pub wrote : Table → ℤ → Option Bytes → Table
wrote V key none k = V k
wrote V key (some v) k = if key ==ℤ k && is_some (V k) then some v else V k

abbrev pub value_of : Option Bytes → Bytes
value_of none = []
value_of (some v) = v

-- The value part of an encoding, whatever the metadata are.
pub decode_epoch-value : (v : Bytes) (m : EpochMeta) → (decode_epoch (encode_with_epoch v m)).0 ≡ v
unfolding decode_epoch encode_with_epoch
decode_epoch-value v m =
    let tail = int_to_bytes m.cnt ++ (int_to_bytes m.ep ++ int_to_bytes m.fp) in
    let e : length tail ≡ 12 = unfold int_to_bytes in refl in
    let n : length (v ++ tail) - 12 ≡ length v = rw (length-append, e) (omega arith) in
    let long : ltb (length (v ++ tail)) 12 ≡ false = rw (length-append, e) (ground arith) in
    rw (long, n) (take-append (length v) v tail refl)

module _ (h : ℕ) (host : Host) where
  pub access_block :
      (blocks : Table) (o : PathOram) (blk : ℤ) (nv : Option Bytes) (raw : Bytes)
      → Holds h host blocks o
      → ltb_ℤ blk (pos 0) ≡ false
      → blocks blk ≡ some raw
      → Yields
          (data_access host o blk nv)
          (λ r. Holds h host (written blocks blk nv) r.0 × (r.1 ≡ raw))
  unfolding data_access
  access_block blocks o blk nv raw v real has =
      rw real (elim (access-Holds h host blocks o blk nv raw v has) [
        | inl (e, over) ↦ rw e refl
        | inr (o', e, v') ↦ rw e (v', refl)
      ])

  pub dummy_block :
      (blocks : Table) (o : PathOram)
      → Holds h host blocks o
      → Yields (Oram.dummy_access host o) (Holds h host blocks)
  dummy_block blocks o v = elim (dummy_access-Holds h host blocks o v) [
    | inl (e, over) ↦ rw e refl
    | inr (o', e, v') ↦ rw e v'
  ]

  pub access_nothing :
      (blocks : Table) (o : PathOram) (ref : Bytes) (nv : Option Bytes)
      → Holds h host blocks o
      → ref ≡ []
      → Yields (data_access host o (ref_to_blk ref) nv) (λ r. Holds h host blocks r.0 × (r.1 ≡ []))
  unfolding data_access ref_to_blk
  access_nothing blocks o ref nv v e = rw e (
      Yields-bind (Holds h host blocks) (λ r. Holds h host blocks r.0 × (r.1 ≡ []))
        (Oram.dummy_access host o) (λ o'. ok (o', [])) (dummy_block blocks o v)
        (λ o' v'. (v', refl)))
