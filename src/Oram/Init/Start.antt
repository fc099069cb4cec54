-- ===== src/Oram/Init/Start.antt =====
-- `init` establishes the invariant of `PathORAM` for the table of its data.
use tiered_omap.Prelude.{
  ℕ, ◌+◌, ◌≤◌, ◌≡◌, refl, ap, subst, ◌∙◌, true, false, Option, none, some, List, [], ◌∷◌, ℤ, ◌==ℤ◌,
  ==ℤ_iff, ==ℤ_refl, if◌then◌else◌, ltb, ltb→lt, All, countb, to_nat, arith, Bool-cases,
  Option-cases, inl, inr,
}
use tiered_omap.Common.{Host, Bytes, ceil_log2, ok, ◌>>=◌}
use tiered_omap.Storage.{new_storage, reset, bulk_load, fill_all, all_keys}
use tiered_omap.Storage.Paths.{IsShaped}
use tiered_omap.Storage.Write.{tree_count, tree_count-zero}
use tiered_omap.Storage.Load.{fill_all-Loaded}
use tiered_omap.Storage.Fresh.{new_storage-IsShaped, new_storage-empty}
use tiered_omap.Oram.{PathOram, find_leaf}
use tiered_omap.Oram.Crypt.{has_key}
use tiered_omap.Oram.Fetch.{Stored}
use tiered_omap.Oram.Valid.{Table, is_some, OnPath, Holds}
use tiered_omap.Oram.Init.{assign_leaves, init}
use tiered_omap.Oram.Init.Leaves.{table_of, LeavesValid, assign_leaves-Assigned}
use tiered_omap.Oram.Init.Load.{
  ValidKeys, key_count, key_count-absent, key_count-table_of, table_of-invalid, Entry,
  data_blocks-ok, unplaced-ok, is_placed-all_keys,
}

-- Entries whose values a table has, and whose keys the map has leaves for, are entries of the data.
entries-Entry :
    (h : ℕ) (m : Table) (pm : List (ℤ × ℤ)) (entries : List (ℤ × Bytes))
    → ValidKeys entries
    → LeavesValid h pm
    → ((k : ℤ) → is_some (table_of entries k) ≡ true → m k ≡ table_of entries k)
    → ((k : ℤ) → is_some (table_of entries k) ≡ true → is_some (find_leaf pm k) ≡ true)
    → All (Entry h m pm) entries
unfolding table_of
entries-Entry h m pm [] v l f g = tt
entries-Entry h m pm ((key, value) ∷ entries) v l f g =
    let here : table_of ((key, value) ∷ entries) key ≡ some value = rw (==ℤ_refl key) refl in
    let has : m key ≡ some value = f key (rw here refl) ∙ here in
    let rest : (k : ℤ)
        → is_some (table_of entries k) ≡ true
        → table_of ((key, value) ∷ entries) k ≡ table_of entries k =
      λ k e. elim (Bool-cases (key ==ℤ k)) [
        | inl s ↦
            let s' = (==ℤ_iff key k).0 s in
            let a = (key_count-absent key entries v.1).1 in
            absurd (ground (arith, rw (← s', a) at e))
        | inr s ↦ rw s
      ] in
    elim (Option-cases (find_leaf pm key)) [
      | inl missing ↦ absurd (ground (arith, g key (rw here refl), missing))
      | inr (leaf, found) ↦ (
        record { real = v.0; value = has; leaf = leaf; found = found; valid = l key leaf found },
        entries-Entry h m pm entries v.2 l (λ k e. f k (rw (rest k e) e) ∙ rest k e)
            (λ k e. g k (rw (rest k e) e)),
      )
    ]

missing {ℓ} : {A : Type ℓ} (x : Option A) → is_some x ≡ false → x ≡ none
missing none e = refl
missing (some y) e = cc

present {ℓ} : {A : Type ℓ} (x : Option A) → is_some x ≡ true → (y : A) × (x ≡ some y)
present none e = cc
present (some y) e = (y, refl)

-- A key of the data is in the tree or, if it is not placed there, in the stash.
once_of_counts :
    (entries : List (ℤ × Bytes)) (keys : ValidKeys entries) (k : ℤ) (in_stash in_tree : ℕ)
    → in_stash ≡ (if ltb 0 in_tree then 0 else key_count k entries)
    → in_tree ≤ key_count k entries
    → in_stash + in_tree ≡ to_nat (is_some (table_of entries k))
once_of_counts entries keys k x y e b =
    let c = key_count-table_of k entries keys in
    let one : to_nat (is_some (table_of entries k)) ≤ 1 =
      elim (Bool-cases (is_some (table_of entries k))) [
        | inl f ↦ rw f (omega arith)
        | inr f ↦ rw f (omega arith)
      ] in
    elim (Bool-cases (ltb 0 y)) [
      | inl f ↦ let e' = rw f at e in omega (arith, e', c, one, ltb→lt 0 y f)
      | inr f ↦ let e' = rw f at e in ground (arith, e', c, one)
    ]

module _ (host : Host) (o : PathOram) (entries : List (ℤ × Bytes)) where
  abbrev height : ℕ
  height = ceil_log2 o.num_data

  -- `init` throws nothing, and the new state holds the table of the data: provided that the storage
  -- fits `num_data`, that the leaves in the position map are leaves of the tree and only of keys of
  -- the data, and that the keys are distinct and not the reserved one.
  pub init-Holds :
      IsShaped height o.storage
      → LeavesValid height o.pos_map
      → ((k : ℤ) → table_of entries k ≡ none → find_leaf o.pos_map k ≡ none)
      → ValidKeys entries
      → (o' : PathOram) × (init host o entries ≡ ok o') × Holds height host (table_of entries) o'
  unfolding init reset bulk_load
  init-Holds shape leaves only keys =
      let o₀ : PathOram = record o { block_size_bytes = 0; stash = [] } in
      let a = assign_leaves-Assigned height host o₀ entries shape leaves in
      let o₁ = assign_leaves host o₀ entries in
      let m = table_of entries in
      let known =
        entries-Entry height m o₁.pos_map entries keys a.leaves (λ k e. refl)
          (λ k e. a.keys k ∙ rw e (ground arith)) in
      let (blocks, draws, run, loads, counts) =
        data_blocks-ok height host o₁.aes_key m o₁.pos_map o₁.draws entries known in
      let s₀ = new_storage o₁.num_data o₁.bucket_size in
      let P = λ (n : ℕ). Stored host o₁.aes_key (OnPath height m o₁.pos_map n) in
      let shape₀ =
        subst (λ n. IsShaped (ceil_log2 n) s₀) a.num_data
          (new_storage-IsShaped o₁.num_data o₁.bucket_size) in
      let empty = (new_storage-empty o₁.num_data o₁.bucket_size).0 in
      let l = fill_all-Loaded height P s₀ blocks shape₀ (λ n. rw (empty n) tt) loads in
      let placed = all_keys (fill_all s₀ blocks).buckets in
      let (stash, run', good, left) =
        unplaced-ok height host o₁.aes_key m o₁.pos_map placed entries known in
      let o' : PathOram = record o₁ {
        storage = fill_all s₀ blocks;
        stash = stash;
        draws = draws;
      } in
      (
        o',
        rw (run, ◌>>=◌, run', ◌>>=◌),
        record {
          shape = l.shape;
          once = λ k real.
              once_of_counts entries keys k (countb (has_key k) stash)
                (tree_count (has_key k) (fill_all s₀ blocks).buckets)
                (left k
                  ∙ ap (λ b. if b then 0 else key_count k entries)
                      (is_placed-all_keys k real (fill_all s₀ blocks).buckets))
                (omega (
                  arith,
                  l.added (has_key k),
                  counts k,
                  tree_count-zero (has_key k) s₀.buckets
                      (λ n. rw (empty n) (unfold countb in refl)),
                ));
          no_invalid = table_of-invalid entries keys;
          unmapped = λ k e. missing (find_leaf o₁.pos_map k) (a.keys k ∙ rw (only k e, e) refl);
          mapped = λ k v e.
              let (leaf, found) =
                present (find_leaf o₁.pos_map k) (a.keys k ∙ rw e (ground arith)) in
              (leaf, found, a.leaves k leaf found);
          in_stash = good;
          in_tree = l.nodes;
        },
      )
