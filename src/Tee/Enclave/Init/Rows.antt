-- ===== src/Tee/Enclave/Init/Rows.antt =====
-- The table of the data that `init` is given.
use mathlib.Core.Path.{fun_ext}
use tiered_omap.Prelude.{
  ℕ, ◌≡◌, refl, sym, ap, ◌∙◌, subst, false, Option, none, some, List, [], ◌∷◌, ℤ, ◌==ℤ◌, ==ℤ_iff,
  ==ℤ_comm, ==ℤ_refl, All, Bool-cases, Option-cases, inl, inr,
}
use tiered_omap.Common.{Bytes, pad_bytes}
use tiered_omap.Oram.Init.Leaves.{table_of}
use tiered_omap.Oram.Init.Load.{ValidKeys}
use tiered_omap.Tee.Enclave.Init.{leaf_of}
use tiered_omap.Tee.Enclave.Table.{LeafTable, assign}

-- The rows of the data, with the leaves of a map and the padded values, over a table.
abbrev pub row_over : ℕ → List (ℤ × ℤ) → ℤ → Option (ℤ × Bytes) → Option Bytes → Option (ℤ × Bytes)
row_over value_size leaf_map k old none = old
row_over value_size leaf_map k old (some value) =
    some (leaf_of leaf_map k, pad_bytes value value_size)

abbrev pub with_entries : ℕ → List (ℤ × ℤ) → List (ℤ × Bytes) → LeafTable → LeafTable
with_entries value_size leaf_map entries m k =
    row_over value_size leaf_map k (m k) (table_of entries k)

-- Each entry in turn.
table_of-absent :
    (key : ℤ) (entries : List (ℤ × Bytes))
    → All (λ entry. (key ==ℤ entry.0) ≡ false) entries
    → table_of entries key ≡ none
unfolding table_of
table_of-absent key [] a = refl
table_of-absent key ((k, value) ∷ entries) a =
    rw (==ℤ_comm k key, a.0) (table_of-absent key entries a.1)

pub with_entries-cons :
    (value_size : ℕ) (leaf_map : List (ℤ × ℤ)) (key : ℤ) (value : Bytes)
    (entries : List (ℤ × Bytes)) (m : LeafTable)
    → ValidKeys ((key, value) ∷ entries)
    → with_entries value_size leaf_map ((key, value) ∷ entries) m
      ≡ with_entries value_size leaf_map entries
          (assign m key (leaf_of leaf_map key, pad_bytes value value_size))
unfolding table_of
with_entries-cons value_size leaf_map key value entries m v =
    let row : ℤ × Bytes = (leaf_of leaf_map key, pad_bytes value value_size) in
    let at_k : ℤ → Type 0 = λ k.
      with_entries value_size leaf_map ((key, value) ∷ entries) m k
      ≡ with_entries value_size leaf_map entries (assign m key row) k in
    let found : table_of ((key, value) ∷ entries) key ≡ some value = rw (==ℤ_refl key) refl in
    let assigned : assign m key row key ≡ some row = rw (==ℤ_refl key) refl in
    let here : at_k key =
      ap (row_over value_size leaf_map key (m key)) found
      ∙ sym (
          ap (row_over value_size leaf_map key (assign m key row key))
            (table_of-absent key entries v.1)
          ∙ assigned) in
    fun_ext (λ k. elim (Bool-cases (key ==ℤ k)) [
      | inl e ↦ subst at_k ((==ℤ_iff key k).0 e) here
      | inr e ↦ elim (Option-cases (table_of entries k)) [
        | inl n ↦ rw (e, n, ==ℤ_comm k key, e) refl
        | inr (x, f) ↦ rw (e, f) refl
      ]
    ])
