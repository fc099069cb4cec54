-- ===== src/Oram/Init/Load.antt =====
-- The second and third loop of `init`: the blocks that are loaded and those that stay in the stash.
use tiered_omap.Prelude.{
  ℕ, ◌+◌, ◌^◌, ◌≡◌, refl, ◌∙◌, true, false, ◌||◌, none, some, List, [], ◌∷◌, ◌++◌, ℤ, ◌==ℤ◌,
  ==ℤ_iff, ==ℤ_comm, if◌then◌else◌, ltb, All, countb, to_nat, arith, Bool-cases, inl, inr,
}
use tiered_omap.Common.{Host, Bytes, Block, is_dummy, invalid_key, ok, ◌>>=◌}
use tiered_omap.Storage.{leaf_node, is_ancestor, real_keys, all_keys}
use tiered_omap.Storage.Paths.{IsLeaf}
use tiered_omap.Storage.Write.{tree_count}
use tiered_omap.Oram.{find_leaf, leaf_or_throw, encrypt_block}
use tiered_omap.Oram.Crypt.{has_key, opened-encrypt_block, encrypt_block-is_sealed}
use tiered_omap.Oram.Fetch.{Stored}
use tiered_omap.Oram.Valid.{Table, is_some, Good, OnPath}
use tiered_omap.Oram.Init.{encrypt_value, data_blocks, is_placed, unplaced}
use tiered_omap.Oram.Init.Leaves.{table_of}

-- The keys of a map are distinct, and none is the reserved key.
abbrev pub ValidKeys : List (ℤ × Bytes) → Type 0
ValidKeys [] = Unit
ValidKeys ((key, _) ∷ entries) =
    ((key ==ℤ invalid_key) ≡ false)
    × All (λ entry. (key ==ℤ entry.0) ≡ false) entries
    × ValidKeys entries

-- How often a key occurs.
unfoldable pub key_count : ℤ → List (ℤ × Bytes) → ℕ
key_count k [] = 0
key_count k ((key, _) ∷ entries) = to_nat (key ==ℤ k) + key_count k entries

pub key_count-absent :
    (k : ℤ) (entries : List (ℤ × Bytes))
    → All (λ entry. (k ==ℤ entry.0) ≡ false) entries
    → (key_count k entries ≡ 0) × (table_of entries k ≡ none)
unfolding key_count table_of
key_count-absent k [] a = (refl, refl)
key_count-absent k ((key, value) ∷ entries) a =
    let e = ==ℤ_comm key k ∙ a.0 in
    let (c, t) = key_count-absent k entries a.1 in (rw e (omega (arith, c)), rw e t)

pub key_count-table_of :
    (k : ℤ) (entries : List (ℤ × Bytes))
    → ValidKeys entries
    → key_count k entries ≡ to_nat (is_some (table_of entries k))
unfolding key_count table_of
key_count-table_of k [] v = refl
key_count-table_of k ((key, value) ∷ entries) v = elim (Bool-cases (key ==ℤ k)) [
  | inl e ↦
      let e' = (==ℤ_iff key k).0 e in
      let a = key_count-absent k entries (rw e' at v.1) in rw e (omega (arith, a.0))
  | inr e ↦ rw e (omega (arith, key_count-table_of k entries v.2))
]

-- The reserved key is not in the table.
pub table_of-invalid :
    (entries : List (ℤ × Bytes)) → ValidKeys entries → table_of entries invalid_key ≡ none
unfolding table_of
table_of-invalid [] v = refl
table_of-invalid ((key, value) ∷ entries) v = rw v.0 (table_of-invalid entries v.2)

-- An entry of the data: a real key with its value in the table, and a leaf of the tree.
pub record Entry (h : ℕ) (m : Table) (pos_map : List (ℤ × ℤ)) (entry : ℤ × Bytes) : Type 0 where
  pub real : (entry.0 ==ℤ invalid_key) ≡ false
  pub value : m entry.0 ≡ some entry.1
  pub leaf : ℤ
  pub found : find_leaf pos_map entry.0 ≡ some leaf
  pub valid : IsLeaf h leaf

module _ (h : ℕ) (host : Host) (key : Bytes) (m : Table) (pos_map : List (ℤ × ℤ)) where
  encrypt_value-block :
      (n : ℕ) (k leaf : ℤ) (value : Bytes)
      → (k ==ℤ invalid_key) ≡ false
      → let b : Block = record {
        key = k;
        leaf = leaf;
        value = (encrypt_value host key n value).0;
      } in
        b ≡ encrypt_block host key n (record { key = k; leaf = leaf; value = value })
  unfolding encrypt_value encrypt_block
  encrypt_value-block n k leaf [] e = rw e
  encrypt_value-block n k leaf (x ∷ value) e = rw e

  -- What is stored for an entry: its block, encrypted.
  abbrev Loads : Block → Type 0
  Loads b =
      IsLeaf h b.leaf
      × ((n : ℕ)
          → is_ancestor (leaf_node (2 ^ h) b.leaf) n ≡ true
          → Stored host key (OnPath h m pos_map n) b)

  entry-Loads :
      (n : ℕ) (k leaf : ℤ) (value : Bytes)
      → (k ==ℤ invalid_key) ≡ false
      → m k ≡ some value
      → find_leaf pos_map k ≡ some leaf
      → IsLeaf h leaf
      → Loads (record { key = k; leaf = leaf; value = (encrypt_value host key n value).0 })
  entry-Loads n k leaf value real has found valid = (
    valid,
    λ node above. rw (encrypt_value-block n k leaf value real) (
      encrypt_block-is_sealed host key n _,
      λ _. rw (opened-encrypt_block host key n _) ((real, (has, found)), above),
    ),
  )

  -- The blocks of the data: one for each entry, on the path of its leaf wherever it is put.
  pub data_blocks-ok :
      (n : ℕ) (entries : List (ℤ × Bytes))
      → All (Entry h m pos_map) entries
      → (blocks : List Block) × (n' : ℕ) × (data_blocks host key pos_map n entries
          ≡ ok (blocks, n'))
        × All Loads blocks
        × ((k : ℤ) → countb (has_key k) blocks ≡ key_count k entries)
  unfolding data_blocks leaf_or_throw countb key_count
  data_blocks-ok n [] a = ([], n, refl, tt, λ k. refl)
  data_blocks-ok n ((k, value) ∷ entries) a =
      let e = a.0 in
      let enc = encrypt_value host key n value in
      let (blocks, n', run, loads, counts) = data_blocks-ok enc.1 entries a.1 in
      (
        record { key = k; leaf = e.leaf; value = enc.0 } ∷ blocks,
        n',
        rw (e.found, ◌>>=◌, run),
        (entry-Loads n k e.leaf value e.real e.value e.found e.valid, loads),
        λ j. unfold countb in omega (arith, counts j),
      )

  -- What stays in the stash: the entries whose key is not placed.
  pub unplaced-ok :
      (placed : List ℤ) (entries : List (ℤ × Bytes))
      → All (Entry h m pos_map) entries
      → (stash : List Block) × (unplaced pos_map placed entries ≡ ok stash)
        × All (Good m pos_map) stash
        × ((k : ℤ)
            → countb (has_key k) stash ≡ (if is_placed k placed then 0 else key_count k entries))
  unfolding unplaced leaf_or_throw countb key_count
  unplaced-ok placed [] a = ([], refl, tt, λ k. ground arith)
  unplaced-ok placed ((k, value) ∷ entries) a =
      let e = a.0 in
      let (stash, run, good, counts) = unplaced-ok placed entries a.1 in
      elim (Bool-cases (is_placed k placed)) [
        | inl p ↦ (
          stash,
          rw (run, ◌>>=◌, e.found, ◌>>=◌, p),
          good,
          λ j. elim (Bool-cases (k ==ℤ j)) [
            | inl s ↦
                let s' = (==ℤ_iff k j).0 s in
                let q : is_placed j placed ≡ true = rw (← s') p in rw q (counts j ∙ rw q refl)
            | inr s ↦ rw s (counts j ∙ ground arith)
          ],
        )
        | inr p ↦ (
          record { key = k; leaf = e.leaf; value = value } ∷ stash,
          rw (run, ◌>>=◌, e.found, ◌>>=◌, p),
          ((e.real, (e.value, e.found)), good),
          λ j. elim (Bool-cases (k ==ℤ j)) [
            | inl s ↦
                let s' = (==ℤ_iff k j).0 s in
                let q : is_placed j placed ≡ false = rw (← s') p in
                let c = rw q at (counts j) in rw (s, q) (unfold countb in omega (arith, c))
            | inr s ↦ rw s (unfold countb in ground (arith, counts j))
          ],
        )
      ]

is_placed-append :
    (k : ℤ) (xs ys : List ℤ) → is_placed k (xs ++ ys) ≡ (is_placed k xs || is_placed k ys)
unfolding is_placed
is_placed-append k [] ys = refl
is_placed-append k (x ∷ xs) ys = ground (arith, is_placed-append k xs ys)

module _ (k : ℤ) (real : (k ==ℤ invalid_key) ≡ false) where
  is_placed-real_keys :
      (bucket : List Block) → is_placed k (real_keys bucket) ≡ ltb 0 (countb (has_key k) bucket)
  unfolding is_placed real_keys countb
  is_placed-real_keys [] = refl
  is_placed-real_keys (b ∷ bucket) = elim (Bool-cases (b.key ==ℤ k)) [
    | inl e ↦
        let e' = (==ℤ_iff b.key k).0 e in
        let d : is_dummy b ≡ false = rw e' real in
        let c : (k ==ℤ b.key) ≡ true = ==ℤ_comm k b.key ∙ e in
        rw (d, e, is_placed, c) (ground arith)
    | inr e ↦
        let c : (k ==ℤ b.key) ≡ false = ==ℤ_comm k b.key ∙ e in
        rw e (ground (arith, is_placed-real_keys bucket, c))
  ]

  -- The keys that `bulk_load` reports are those with a block in the tree.
  pub is_placed-all_keys :
      (buckets : List (List Block))
      → is_placed k (all_keys buckets) ≡ ltb 0 (tree_count (has_key k) buckets)
  unfolding is_placed all_keys tree_count
  is_placed-all_keys [] = refl
  is_placed-all_keys (bucket ∷ buckets) =
      rw
        (
          is_placed-append k (real_keys bucket) (all_keys buckets),
          is_placed-real_keys bucket,
          is_placed-all_keys buckets,
        )
        (ground arith)
