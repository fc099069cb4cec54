-- ===== src/Tiered/Touch.antt =====
-- What an access to the data ORAM does to the table of `TieredOMap`: a dummy access, an access with
-- maintenance and one without.
use mathlib.Core.Path.{fun_ext}
use tiered_omap.Prelude.{
  ℕ, ◌≡◌, refl, sym, subst, ◌∙◌, Bool, true, false, Option, none, some, [], ℤ, pos, ◌==ℤ◌, ==ℤ_iff,
  ==ℤ_refl, ltb_ℤ, Bool-cases, Option-cases, inl, inr,
}
use tiered_omap.Common.{Host, Bytes, Yields, Yields-bind, Yields-map}
use tiered_omap.Common.Codec.{EpochMeta, encode_with_epoch, decode_epoch}
use tiered_omap.Oram.{PathOram}
use tiered_omap.Oram
use tiered_omap.Oram.Valid.{Table, is_some, Holds}
use tiered_omap.Oram.Written.{written}
use tiered_omap.Maintenance.{MaintenanceManager, update_meta}
use tiered_omap.Tiered.{Refs}
use tiered_omap.Tiered.{ref_to_blk, data_access, touch_block, value_or}
use tiered_omap.Tiered.Stores.{
  Form, Entry, Stores, wrote, value_of, decode_epoch-value, access_block, dummy_block,
  access_nothing,
}

module _ (h : ℕ) (host : Host) where
  module _ (refs : Refs) (V : Table) (o : PathOram) where
    -- A dummy access to the data.
    pub dummy-Stores :
        (epoch : Bool)
        → Stores h host epoch refs V o
        → Yields (Oram.dummy_access host o) (Stores h host epoch refs V)
    dummy-Stores epoch s =
        Yields-map (Holds h host s.blocks) (Stores h host epoch refs V) (Oram.dummy_access host o)
          (dummy_block h host s.blocks o s.holds)
          (λ o' v. record { blocks = s.blocks; holds = v; entry = s.entry; apart = s.apart })

    module _ (epoch : Bool) (s : Stores h host epoch refs V o) (key : ℤ) where
      -- The entry of a key of the table.
      entry_at_key :
          (w : Bytes)
          → V key ≡ some w
          → (ltb_ℤ (ref_to_blk (refs key)) (pos 0) ≡ false)
            × ((raw : Bytes) × (s.blocks (ref_to_blk (refs key)) ≡ some raw) × Form epoch w raw)
      entry_at_key w e = rw e at (s.entry key)

      entry_missing : V key ≡ none → refs key ≡ []
      entry_missing e = rw e at (s.entry key)

      -- A write to the block of one key leaves the blocks of the others.
      Entry-written :
          (v w raw : Bytes) (k : ℤ)
          → V key ≡ some w
          → Form epoch v raw
          → Entry epoch
              (refs k)
              (wrote V key (some v) k)
              (written s.blocks (ref_to_blk (refs key)) (some raw))
      Entry-written v w raw k e f = elim (Bool-cases (key ==ℤ k)) [
        | inl same ↦
            let c : key ≡ k = (==ℤ_iff key k).0 same in
            let real = (entry_at_key w e).0 in
            rw (same, ← c, e, ==ℤ_refl (ref_to_blk (refs key))) (real, (raw, refl, f))
        | inr other ↦ elim (Option-cases (V k)) [
          | inl missing ↦ rw (other, missing) (rw missing at (s.entry k))
          | inr (u, has) ↦
              let (real, (raw', e', f')) = rw has at (s.entry k) in
              elim (Bool-cases (ref_to_blk (refs key) ==ℤ ref_to_blk (refs k))) [
                | inl clash ↦
                    let same_blk =
                      (==ℤ_iff (ref_to_blk (refs key)) (ref_to_blk (refs k))).0 clash in
                    let c = s.apart key k (rw e refl) (rw has refl) same_blk in
                    absurd (let z = rw (c, ==ℤ_refl k) at other in cc)
                | inr distinct ↦ rw (other, has, distinct) (real, (raw', e', f'))
              ]
        ]
      ]

      wrote-is_some : (v : Bytes) (k : ℤ) → is_some (wrote V key (some v) k) ≡ is_some (V k)
      wrote-is_some v k = elim (Bool-cases (key ==ℤ k)) [
        | inr e ↦ rw e refl
        | inl e ↦ elim (Option-cases (V k)) [ inl f ↦ rw (e, f) refl | inr (u, f) ↦ rw (e, f) refl ]
      ]

      Stores-written :
          (v w raw : Bytes) (o' : PathOram)
          → V key ≡ some w
          → Form epoch v raw
          → Holds h host (written s.blocks (ref_to_blk (refs key)) (some raw)) o'
          → Stores h host epoch refs (wrote V key (some v)) o'
      Stores-written v w raw o' e f holds = record {
        blocks = written s.blocks (ref_to_blk (refs key)) (some raw);
        holds = holds;
        entry = λ k. Entry-written v w raw k e f;
        apart = λ k k' a b c.
            s.apart k k' (sym (wrote-is_some v k) ∙ a) (sym (wrote-is_some v k') ∙ b) c;
      }

      -- A missing key is not written.
      Stores-missing :
          (nv : Option Bytes) (o' : PathOram)
          → V key ≡ none
          → Holds h host s.blocks o'
          → Stores h host epoch refs (wrote V key nv) o'
      Stores-missing none o' e holds = record {
        blocks = s.blocks;
        holds = holds;
        entry = s.entry;
        apart = s.apart;
      }
      Stores-missing (some v) o' e holds =
          let same : wrote V key (some v) ≡ V = fun_ext (λ k. elim (Bool-cases (key ==ℤ k)) [
            | inl f ↦ let c : key ≡ k = (==ℤ_iff key k).0 f in rw (f, ← c, e) refl
            | inr f ↦ rw f refl
          ]) in
          subst (λ W. Stores h host epoch refs W o') (sym same)
            (record { blocks = s.blocks; holds = holds; entry = s.entry; apart = s.apart })

    -- An access without maintenance returns the old value.
    pub plain-Stores :
        (key : ℤ) (nv : Option Bytes)
        → Stores h host false refs V o
        → Yields
            (data_access host o (ref_to_blk (refs key)) nv)
            (λ r. Stores h host false refs (wrote V key nv) r.0 × (r.1 ≡ value_of (V key)))
    plain-Stores key nv s =
        let P = λ (r : PathOram × Bytes).
          Stores h host false refs (wrote V key nv) r.0 × (r.1 ≡ value_of (V key)) in
        elim (Option-cases (V key)) [
          | inl e ↦
              Yields-map (λ r. Holds h host s.blocks r.0 × (r.1 ≡ [])) P
                (data_access host o (ref_to_blk (refs key)) nv)
                (access_nothing h host s.blocks o (refs key) nv s.holds
                  (entry_missing false s key e))
                (λ r v. (Stores-missing false s key nv r.0 e v.0, rw e v.1))
          | inr (w, e) ↦
              let (real, (raw, has, f)) = entry_at_key false s key w e in
              Yields-map
                (λ r. Holds h host (written s.blocks (ref_to_blk (refs key)) nv) r.0 × (r.1 ≡ raw))
                P (data_access host o (ref_to_blk (refs key)) nv)
                (access_block h host s.blocks o (ref_to_blk (refs key)) nv raw s.holds real has)
                (λ r v. (plain_write nv w r.0 e v.0, rw e (v.1 ∙ f)))
        ]
      where
        plain_write :
            (nv : Option Bytes) (w : Bytes) (o' : PathOram)
            → V key ≡ some w
            → Holds h host (written s.blocks (ref_to_blk (refs key)) nv) o'
            → Stores h host false refs (wrote V key nv) o'
        plain_write none w o' e v = record {
          blocks = s.blocks;
          holds = v;
          entry = s.entry;
          apart = s.apart;
        }
        plain_write (some v) w o' e holds = Stores-written false s key v w v o' e refl holds

    -- Writing back the value that a key has.
    wrote-back :
        (key : ℤ) (nv : Option Bytes) (w : Bytes)
        → V key ≡ some w
        → wrote V key (some (value_or nv w)) ≡ wrote V key nv
    wrote-back key (some v) w e = refl
    wrote-back key none w e = fun_ext (λ k. elim (Bool-cases (key ==ℤ k)) [
      | inl f ↦ let c : key ≡ k = (==ℤ_iff key k).0 f in rw (f, ← c, e) refl
      | inr f ↦ rw f refl
    ])

    -- An access with maintenance returns the value that it leaves, and updates the metadata.
    pub touch-Stores :
        (maint : MaintenanceManager) (key : ℤ) (nv : Option Bytes)
        → Stores h host true refs V o
        → Yields (touch_block host maint o (ref_to_blk (refs key)) nv) (λ r.
          Stores h host true refs (wrote V key nv) r.0 × (r.1 ≡ value_or nv (value_of (V key))))
    unfolding touch_block decode_epoch
    touch-Stores maint key nv s =
        let Q = λ (r : PathOram × Bytes × EpochMeta).
          Stores h host true refs (wrote V key nv) r.0 × (r.1 ≡ value_or nv (value_of (V key))) in
        elim (Option-cases (V key)) [
          | inl e ↦
              Yields-bind (λ r. Holds h host s.blocks r.0 × (r.1 ≡ [])) Q _ _
                (access_nothing h host s.blocks o (refs key) none s.holds
                  (entry_missing true s key e))
                (λ r v.
                  Yields-bind (λ r'. Holds h host s.blocks r'.0 × (r'.1 ≡ [])) Q _ _
                    (access_nothing h host s.blocks r.0 (refs key) _ v.0
                      (entry_missing true s key e))
                    (λ r' v'.
                      (Stores-missing true s key nv r'.0 e v'.0, rw (v.1, e, decode_epoch) refl)))
          | inr (w, e) ↦
              let (real, (raw, has, (m, f))) = entry_at_key true s key w e in
              Yields-bind (λ r. Holds h host s.blocks r.0 × (r.1 ≡ raw)) Q _ _
                (access_block h host s.blocks o (ref_to_blk (refs key)) none raw s.holds real has)
                (λ r v.
                  let value = value_or nv (decode_epoch r.1).0 in
                  let meta = update_meta maint (decode_epoch r.1).1 in
                  let read : value ≡ value_or nv w = rw (v.1, f, decode_epoch-value w m) refl in
                  Yields-bind
                    (λ r'.
                      Holds h host
                        (written s.blocks (ref_to_blk (refs key))
                          (some (encode_with_epoch value meta)))
                        r'.0
                      × (r'.1 ≡ raw))
                    Q _ _
                    (access_block h host s.blocks r.0 (ref_to_blk (refs key))
                      (some (encode_with_epoch value meta)) raw v.0 real has)
                    (λ r' v'. (
                      subst (λ W. Stores h host true refs W r'.0) (wrote-back key nv w e)
                          (subst (λ u. Stores h host true refs (wrote V key (some u)) r'.0) read
                            (Stores-written true s key value w (encode_with_epoch value meta) r'.0 e
                              (meta, refl) v'.0)),
                      read ∙ rw e refl,
                    )))
        ]
