-- ===== src/Tiered/Init/Load.antt =====
-- The blocks and the references that `init` makes for the data.
use tiered_omap.Prelude.{
  ℕ, suc, ◌+◌, ◌≤◌, ◌<◌, ◌==◌, ◌≡◌, ◌⊎◌, refl, Bool, true, false, none, some, List, [], ◌∷◌, ℤ, pos,
  ◌==ℤ◌, ==ℤ_iff, ==ℤ_refl, if◌then◌else◌, length, All, arith, Bool-cases, inl, inr,
}
use tiered_omap.Common.{Bytes, invalid_key}
use tiered_omap.Common.Codec.{int_to_bytes}
use tiered_omap.Common.Codec.RoundTrip.{bytes_to_int-append}
use tiered_omap.Oram.Init.Leaves.{table_of}
use tiered_omap.Oram.Init.Load.{ValidKeys}
use tiered_omap.Tiered.{Refs}
use tiered_omap.Tiered.{KeySet, ref_to_blk}
use tiered_omap.Tiered.Init.{stored_value, load_data}

-- The reference of each key, where the blocks are counted from `id`.
unfoldable pub refs_from : ℕ → List (ℤ × Bytes) → Refs
refs_from id [] k = []
refs_from id ((key, v) ∷ entries) k =
    if key ==ℤ k then int_to_bytes (pos id) else refs_from (suc id) entries k

-- The key whose block has the number.
unfoldable pub owner : ℕ → List (ℤ × Bytes) → ℕ → ℤ
owner id [] i = invalid_key
owner id ((key, v) ∷ entries) i = if id == i then key else owner (suc id) entries i

pub ref_to_blk-int_to_bytes : (i : ℕ) → i < 2147483648 → ref_to_blk (int_to_bytes (pos i)) ≡ pos i
unfolding ref_to_blk int_to_bytes
ref_to_blk-int_to_bytes i lt = bytes_to_int-append (pos i) [] lt

module _ (use_epoch : Bool) (phys : KeySet) where
  blocks-after :
      (n id : ℕ) (entries : List (ℤ × Bytes))
      → n < id
      → All (λ entry. (pos n ==ℤ entry.0) ≡ false) (load_data use_epoch phys id entries).0
  unfolding load_data
  blocks-after n id [] lt = tt
  blocks-after n id ((key, v) ∷ entries) lt =
      (ground arith, blocks-after n (suc id) entries (omega arith))

  pub blocks-ValidKeys :
      (id : ℕ) (entries : List (ℤ × Bytes)) → ValidKeys (load_data use_epoch phys id entries).0
  unfolding load_data
  blocks-ValidKeys id [] = tt
  blocks-ValidKeys id ((key, v) ∷ entries) =
      (refl, blocks-after id (suc id) entries (omega arith), blocks-ValidKeys (suc id) entries)

  -- A key is missing, or it has a block of its own with its value.
  abbrev pub Located : ℕ → List (ℤ × Bytes) → ℤ → Type 0
  Located id entries k =
      ((table_of entries k ≡ none) × (refs_from id entries k ≡ []))
      ⊎ ((i : ℕ) × (v : Bytes) × (table_of entries k ≡ some v)
          × (refs_from id entries k ≡ int_to_bytes (pos i))
          × (id ≤ i)
          × (i < id + length entries)
          × (owner id entries i ≡ k)
          × (table_of (load_data use_epoch phys id entries).0 (pos i)
              ≡ some (stored_value use_epoch v)))

  pub located : (id : ℕ) (entries : List (ℤ × Bytes)) (k : ℤ) → Located id entries k
  unfolding load_data refs_from table_of owner
  located id [] k = inl (refl, refl)
  located id ((key, v) ∷ entries) k = elim (Bool-cases (key ==ℤ k)) [
    | inl e ↦
        let c = (==ℤ_iff key k).0 e in
        let s : (id == id) ≡ true = ground arith in
        inr (
          id,
          v,
          rw e refl,
          rw e refl,
          omega arith,
          omega arith,
          rw s c,
          rw (==ℤ_refl (pos id)) refl,
        )
    | inr e ↦ elim (located (suc id) entries k) [
      | inl (a, b) ↦ inl (rw e a, rw e b)
      | inr (i, w, a, b, lo, hi, o, t) ↦
          let s : (id == i) ≡ false = ground (arith, lo) in
          let s' : (pos id ==ℤ pos i) ≡ false = ground (arith, lo) in
          inr (i, w, rw e a, rw e b, omega (arith, lo), omega (arith, hi), rw s o, rw s' t)
    ]
  ]
