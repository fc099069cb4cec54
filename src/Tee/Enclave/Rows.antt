-- ===== src/Tee/Enclave/Rows.antt =====
-- The table after an access of the enclave's ORAM, and the value that the access returns.
use tiered_omap.Prelude.{
  ℕ, ◌-◌, ◌≤◌, ◌≡◌, refl, ap, false, Option, none, some, ℤ, ◌==ℤ◌, ==ℤ_iff, ==ℤ_refl, if◌then◌else◌,
  length, length-replicate, length-append, replicate, arith, Bool-cases, inl, inr, leb,
  Option-cases,
}
use tiered_omap.Common.{Bytes, pad_bytes}
use tiered_omap.Oram.Valid.{is_some}
use tiered_omap.Tee.Enclave.Access.{has_value, padded_value}
use tiered_omap.Tee.Enclave.Table.{LeafTable, assign}

-- The value that a key has after an access.
abbrev pub written : ℕ → Bytes → Option Bytes → Bytes
written value_size old none = old
written value_size old (some new) = pad_bytes new value_size

-- The table after an access to a key: no key is added.
abbrev pub with_row : ℕ → LeafTable → ℤ → ℤ → Option Bytes → Option (ℤ × Bytes) → LeafTable
with_row value_size m key new_leaf new_value none = m
with_row value_size m key new_leaf new_value (some row) =
    assign m key (new_leaf, written value_size row.1 new_value)

abbrev pub accessed : ℕ → LeafTable → ℤ → ℤ → Option Bytes → LeafTable
accessed value_size m key new_leaf new_value = with_row value_size m key new_leaf new_value (m key)

-- The value of a key, zeros if it has none.
abbrev pub row_value : ℕ → Option (ℤ × Bytes) → Bytes
row_value value_size none = replicate value_size 0
row_value value_size (some row) = row.1

abbrev pub value_of : ℕ → LeafTable → ℤ → Bytes
value_of value_size m key = row_value value_size (m key)

abbrev pub Fits : ℕ → Option Bytes → Type 0
Fits value_size none = Unit
Fits value_size (some value) = length value ≤ value_size

pub length-padded :
    (value_size : ℕ) (value : Option Bytes)
    → Fits value_size value
    → length (padded_value value_size value) ≡ value_size
unfolding pad_bytes
length-padded value_size none f = length-replicate value_size 0
length-padded value_size (some value) f = elim (Bool-cases (leb value_size (length value))) [
  | inl e ↦ rw e (ground (arith, e))
  | inr e ↦ rw e (
      omega (
        arith,
        length-append value (replicate (value_size - length value) 0),
        length-replicate {A = ℕ} (value_size - length value) 0,
      ))
]

module _ (value_size : ℕ) (m : LeafTable) (key new_leaf : ℤ) (new_value : Option Bytes) where
  pub accessed-others :
      (k : ℤ) → (k ==ℤ key) ≡ false → accessed value_size m key new_leaf new_value k ≡ m k
  accessed-others k e = cases (m key)
    where
      cases : (r : Option (ℤ × Bytes)) → with_row value_size m key new_leaf new_value r k ≡ m k
      cases none = refl
      cases (some row) = rw e refl

  pub accessed-key :
      (leaf : ℤ) (old : Bytes)
      → m key ≡ some (leaf, old)
      → accessed value_size m key new_leaf new_value key
        ≡ some (new_leaf, if has_value new_value then padded_value value_size new_value else old)
  accessed-key leaf old e = rw (e, ==ℤ_refl key) (cases new_value)
    where
      cases :
          (n : Option Bytes)
          → ◌≡◌ {A = Option (ℤ × Bytes)}
              (some (new_leaf, written value_size old n))
              (some (new_leaf, if has_value n then padded_value value_size n else old))
      cases none = refl
      cases (some x) = refl

  pub accessed-is_some :
      (k : ℤ) → is_some (accessed value_size m key new_leaf new_value k) ≡ is_some (m k)
  accessed-is_some k = elim (Bool-cases (k ==ℤ key)) [
    | inl e ↦
        let same : k ≡ key = (==ℤ_iff k key).0 e in
        elim (Option-cases (m key)) [
          | inl n ↦ rw n refl
          | inr (row, f) ↦ rw (f, same, f, ==ℤ_refl key) refl
        ]
    | inr e ↦ ap is_some (accessed-others k e)
  ]
