-- ===== src/Tiered/Init/Data.antt =====
-- The data and the references that `init` makes are a table in the data ORAM.
use tiered_omap.Prelude.{
  ℕ, suc, ◌<◌, ◌≡◌, refl, sym, ap, ◌∙◌, Bool, true, false, List, [], ◌∷◌, ℤ, pos, ◌==ℤ◌, ==ℤ_iff,
  ==ℤ_refl, All, All-map, length, arith, Bool-cases, inl, inr,
}
use tiered_omap.Common.{Host, Bytes, invalid_key}
use tiered_omap.Oram.{PathOram}
use tiered_omap.Oram.Valid.{Table, Holds}
use tiered_omap.Oram.Init.Leaves.{table_of}
use tiered_omap.Oram.Init.Load.{ValidKeys}
use tiered_omap.Tiered.{KeySet, ref_to_blk}
use tiered_omap.Tiered.Stores.{Stores, Form, Entry}
use tiered_omap.Tiered.Sorted.{Rising, All-insert_sorted, insert_sorted-Rising}
use tiered_omap.Tiered.Init.{key_set, sort_keys, stored_value, load_data}
use tiered_omap.Tiered.Init.Load.{refs_from, owner, ref_to_blk-int_to_bytes, located}

-- Distinct keys, none the reserved one.
abbrev pub RealKeys : List ℤ → Type 0
RealKeys [] = Unit
RealKeys (key ∷ keys) =
    ((key ==ℤ invalid_key) ≡ false) × All (λ k. (key ==ℤ k) ≡ false) keys × RealKeys keys

pub sort_keys-All : (P : ℤ → Type 0) (keys : List ℤ) → All P keys → All P (sort_keys keys)
unfolding sort_keys
sort_keys-All P [] a = tt
sort_keys-All P (key ∷ keys) a =
    All-insert_sorted P key (sort_keys keys) a.0 (sort_keys-All P keys a.1)

pub sort_keys-Rising : (keys : List ℤ) → RealKeys keys → Rising (sort_keys keys)
unfolding sort_keys
sort_keys-Rising [] r = tt
sort_keys-Rising (key ∷ keys) r =
    insert_sorted-Rising key (sort_keys keys) (sort_keys-All (λ k. (key ==ℤ k) ≡ false) keys r.1)
      (sort_keys-Rising keys r.2)

pub key_set_self : (keys : List ℤ) → All (λ k. key_set keys k ≡ true) keys
key_set_self [] = tt
key_set_self (key ∷ keys) = (
  rw (==ℤ_refl key) refl,
  All-map (λ k. key_set keys k ≡ true) (λ k. key_set (key ∷ keys) k ≡ true)
      (λ k e. rw e (ground arith)) keys (key_set_self keys),
)

pub key_set-invalid : (keys : List ℤ) → RealKeys keys → key_set keys invalid_key ≡ false
key_set-invalid [] r = refl
key_set-invalid (key ∷ keys) r = rw (r.0, key_set-invalid keys r.2) refl

-- The references of a tier have distinct keys, none the reserved one.
module _ (use_epoch : Bool) (phys : KeySet) where
  refs-All :
      (P : ℤ → Type 0) (id : ℕ) (entries : List (ℤ × Bytes))
      → All (λ e. P e.0) entries
      → All (λ e. P e.0) (load_data use_epoch phys id entries).1
        × All (λ e. P e.0) (load_data use_epoch phys id entries).2
  unfolding load_data
  refs-All P id [] a = (tt, tt)
  refs-All P id ((k, v) ∷ entries) a =
      let r = refs-All P (suc id) entries a.1 in
      elim (Bool-cases (phys k)) [ inl e ↦ rw e ((a.0, r.0), r.1) | inr e ↦ rw e (r.0, (a.0, r.1)) ]

  pub refs-ValidKeys :
      (id : ℕ) (entries : List (ℤ × Bytes))
      → ValidKeys entries
      → ValidKeys (load_data use_epoch phys id entries).1
        × ValidKeys (load_data use_epoch phys id entries).2
  unfolding load_data
  refs-ValidKeys id [] v = (tt, tt)
  refs-ValidKeys id ((k, _) ∷ entries) v =
      let r = refs-ValidKeys (suc id) entries v.2 in
      let a = refs-All (λ k'. (k ==ℤ k') ≡ false) (suc id) entries v.1 in
      elim (Bool-cases (phys k)) [
        | inl e ↦ rw e ((v.0, a.0, r.0), r.1)
        | inr e ↦ rw e (r.0, (v.0, a.1, r.1))
      ]

  module _ (entries : List (ℤ × Bytes)) (small : length entries < 2147483648) where
    abbrev blocks : Table
    blocks = table_of (load_data use_epoch phys 0 entries).0

    form : (v : Bytes) → Form use_epoch v (stored_value use_epoch v)
    form v = go use_epoch
      where
        go : (b : Bool) → Form b v (stored_value b v)
        go true = (record { cnt = pos 0; ep = pos 0; fp = pos 0 }, refl)
        go false = refl

    data-Entry : (k : ℤ) → Entry use_epoch (refs_from 0 entries k) (table_of entries k) blocks
    data-Entry k = elim (located use_epoch phys 0 entries k) [
      | inl (a, b) ↦ rw a b
      | inr (i, v, a, b, lo, hi, o, t) ↦
          let blk : ref_to_blk (refs_from 0 entries k) ≡ pos i =
            ap ref_to_blk b ∙ ref_to_blk-int_to_bytes i (omega (arith, hi, small)) in
          rw (a, blk) (ground arith, (stored_value use_epoch v, t, form v))
    ]

    pub data-Stores :
        (h : ℕ) (host : Host) (oram : PathOram)
        → Holds h host blocks oram
        → Stores h host use_epoch (refs_from 0 entries) (table_of entries) oram
    data-Stores h host oram holds = record {
      blocks = blocks;
      holds = holds;
      entry = data-Entry;
      apart = λ k k' a b e. elim (located use_epoch phys 0 entries k) [
        | inl (m, _) ↦ absurd (let z : false ≡ true = rw m at a in cc)
        | inr (i, v, _, r, _, hi, o, _) ↦ elim (located use_epoch phys 0 entries k') [
          | inl (m, _) ↦ absurd (let z : false ≡ true = rw m at b in cc)
          | inr (i', v', _, r', _, hi', o', _) ↦
              let p = ap ref_to_blk r ∙ ref_to_blk-int_to_bytes i (omega (arith, hi, small)) in
              let p' = ap ref_to_blk r' ∙ ref_to_blk-int_to_bytes i' (omega (arith, hi', small)) in
              let q : pos i ≡ pos i' = sym p ∙ e ∙ p' in
              let s : i ≡ i' =
                (let z : (pos i ==ℤ pos i') ≡ true = (==ℤ_iff (pos i) (pos i')).1 q in
                  ground (arith, z)) in
              sym o ∙ ap (owner 0 entries) s ∙ o'
        ]
      ];
    }
