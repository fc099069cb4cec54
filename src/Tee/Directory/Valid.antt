-- ===== src/Tee/Directory/Valid.antt =====
-- `PackedDirectory` as a table of labels by key.
use tiered_omap.Prelude.{
  ℕ, zero, suc, ◌+◌, ◌≤◌, ◌<◌, ◌≡◌, ◌⊎◌, refl, ap, ◌∙◌, Bool, true, false, List, [], ◌∷◌, ℤ, ◌==ℤ◌,
  ==ℤ_iff, ==ℤ_comm, countb, if◌then◌else◌, ltb, length, replicate, length-replicate, arith,
  Bool-cases, inl, inr,
}
use tiered_omap.Common.{invalid_key, invalid_leaf}
use tiered_omap.Common.Codec.RoundTrip.{IsInt}
use tiered_omap.Tee.Directory.{
  Entry, PackedDirectory, lookup, update_pos, fill_slot, insert, clear_entries, remove,
  lookup_and_update, new_directory, empty_entry,
}
use tiered_omap.Tee.Directory.Labels.{
  Ints, is_for, swap_labels_lem, fill_slot-full, fill_slot-count, fill_slot-label,
  clear_entries-flag, clear_entries-Ints, clear_entries-count, clear_entries-label,
}

-- The keys are of the range of an `int` and distinct but for the reserved one, and every other slot is
-- counted.
pub record IsDirectory (d : PackedDirectory) : Type 0 where
  pub ints : Ints d.entries
  pub unique : (k : ℤ) → (k ==ℤ invalid_key) ≡ false → countb (is_for k) d.entries ≤ 1
  pub sized : length d.entries ≡ d.capacity
  pub counted : d.count + countb (is_for invalid_key) d.entries ≡ d.capacity

length-fill_slot :
    (key label : ℤ) (entries : List Entry) (inserted : Bool)
    → length (fill_slot key label inserted entries).0 ≡ length entries
unfolding fill_slot
length-fill_slot key label [] inserted = refl
length-fill_slot key label (e ∷ entries) inserted = ap suc (length-fill_slot key label entries _)

length-clear_entries :
    (key : ℤ) (entries : List Entry) (removed : Bool)
    → length (clear_entries key removed entries).0 ≡ length entries
unfolding clear_entries
length-clear_entries key [] removed = refl
length-clear_entries key (e ∷ entries) removed = ap suc (length-clear_entries key entries _)

-- `d'` has the labels of `d` but for one key.
abbrev pub Relabelled : PackedDirectory → PackedDirectory → ℤ → ℤ → Type 0
Relabelled d d' key label =
    (k : ℤ)
    → IsInt k
    → (k ==ℤ invalid_key) ≡ false
    → lookup d' k ≡ (if key ==ℤ k then label else lookup d k)

-- `lookup_and_update` does what `lookup` and `update_pos` do.
pub lookup_and_update_lem :
    (d : PackedDirectory) (key new_pos : ℤ)
    → lookup_and_update d key new_pos ≡ ((update_pos d key new_pos).0, lookup d key)
unfolding lookup_and_update update_pos lookup
lookup_and_update_lem d key new_pos =
    let h = swap_labels_lem key new_pos invalid_leaf false d.entries in rw (h.0, h.1) refl

module _ (d : PackedDirectory) (v : IsDirectory d) (key : ℤ) (int : IsInt key)
    (real : (key ==ℤ invalid_key) ≡ false) where
  apart_counts :
      (entries : List Entry)
      → countb (is_for key) entries + countb (is_for invalid_key) entries ≤ length entries
  unfolding countb
  apart_counts [] = omega arith
  apart_counts (e ∷ entries) =
      let h = apart_counts entries in
      elim (Bool-cases (e.key ==ℤ key)) [
        | inl f ↦
            let c = (==ℤ_iff e.key key).0 f in
            let g : (e.key ==ℤ invalid_key) ≡ false = rw c real in rw (f, g) (omega (arith, h))
        | inr f ↦ rw f (ground (arith, h))
      ]

  -- In a valid directory, `insert` of a new key of the range of an `int`, other than the reserved one, gives
  -- it the label and keeps the labels of the others and the validity; but in a full directory it
  -- fails and changes nothing.
  pub insert_lem :
      (label : ℤ)
      → countb (is_for key) d.entries ≡ 0
      → ((d.count ≡ d.capacity) × (insert d key label ≡ (d, false)))
        ⊎ ((d.count < d.capacity)
            × ((insert d key label).1 ≡ true)
            × ((insert d key label).0.count ≡ suc d.count)
            × IsDirectory (insert d key label).0
            × Relabelled d (insert d key label).0 key label)
  unfolding insert lookup
  insert_lem label absent = elim (Bool-cases (ltb 0 (countb (is_for invalid_key) d.entries))) [
    | inr e ↦
        let z : countb (is_for invalid_key) d.entries ≡ 0 = ground (arith, e) in
        let c = v.counted in
        let f = fill_slot-full key label int real d.entries v.ints z in
        inl (omega (arith, c, z), rw f (ap (λ n. (record d { count = n }, false)) (omega arith)))
    | inl e ↦
        let le : 1 ≤ countb (is_for invalid_key) d.entries = ground (arith, e) in
        let c = v.counted in
        let n = λ (k : ℤ). fill_slot-count key label int real d.entries k v.ints le in
        let flag = (n key).0 in
        inr (
          omega (arith, c, le),
          flag,
          rw flag (omega arith),
          record {
            ints = (n key).1;
            unique = λ k rk.
                let m = (n k).2 in
                let u = v.unique k rk in
                elim (Bool-cases (key ==ℤ k)) [
                  | inl g ↦
                      let g' = (==ℤ_iff key k).0 g in
                      let a = rw g' at absent in let m' = rw g at m in omega (arith, a, m')
                  | inr g ↦ let m' = rw g at m in omega (arith, m', u)
                ];
            counted =
                let m = (n invalid_key).2 in
                let m' = rw real at m in rw flag (omega (arith, m', c));
            sized = length-fill_slot key label d.entries false ∙ v.sized;
          },
          λ k ik rk.
              fill_slot-label key label int real d.entries k invalid_leaf v.ints ik rk absent le,
        )
  ]

  -- In a valid directory, `remove` of a key of the range of an `int`, other than the reserved one, says whether
  -- the key was there, takes its label away, and keeps the labels of the others and the validity.
  pub remove_lem :
      ((remove d key).1 ≡ ltb 0 (countb (is_for key) d.entries))
      × IsDirectory (remove d key).0
      × Relabelled d (remove d key).0 key invalid_leaf
  unfolding remove lookup
  remove_lem =
      let flag = clear_entries-flag key invalid_leaf int real d.entries false v.ints in
      let n = λ (k : ℤ). clear_entries-count key invalid_leaf int real d.entries false k v.ints in
      let one = v.unique key real in
      (
        flag,
        record {
          ints = clear_entries-Ints key invalid_leaf int real d.entries false v.ints;
          unique = λ k rk.
              let m = rw (==ℤ_comm invalid_key k ∙ rk) at (n k) in
              let u = v.unique k rk in omega (arith, m, u);
          counted =
              let m = rw real at (n invalid_key) in
              let c = v.counted in
              rw flag (let b = apart_counts d.entries in ground (arith, m, c, one, b, v.sized));
          sized = length-clear_entries key d.entries false ∙ v.sized;
        },
        λ k ik rk.
            clear_entries-label key invalid_leaf int real d.entries false k invalid_leaf v.ints ik
              rk,
      )

-- A new directory is valid and has no labels.
pub new_directory-IsDirectory : (capacity : ℕ) → IsDirectory (new_directory capacity)
unfolding new_directory countb
new_directory-IsDirectory capacity = record {
  ints = ints capacity;
  unique = λ k rk. rw (none_of capacity k rk) (omega arith);
  sized = length-replicate capacity empty_entry;
  counted = omega (arith, all_empty capacity);
}
  where
    ints : (n : ℕ) → Ints (replicate n empty_entry)
    ints zero = tt
    ints (suc n) = (omega arith, ints n)

    none_of :
        (n : ℕ) (k : ℤ)
        → (k ==ℤ invalid_key) ≡ false
        → countb (is_for k) (replicate n empty_entry) ≡ 0
    none_of zero k rk = refl
    none_of (suc n) k rk = rw (==ℤ_comm invalid_key k ∙ rk, none_of n k rk) refl

    all_empty : (n : ℕ) → countb (is_for invalid_key) (replicate n empty_entry) ≡ n
    all_empty zero = refl
    all_empty (suc n) = omega (arith, all_empty n)
