-- ===== src/Tee/Enclave/Fetch.antt =====
-- The first half of an access to several blocks: a block is read and taken from the stash, and its path
-- is evicted.
use tiered_omap.Prelude.{
  ℕ, ◌+◌, ◌≡◌, refl, sym, ap, ◌∙◌, subst, true, false, Option, none, some, List, [], ◌∷◌, ℤ, ◌==ℤ◌,
  ==ℤ_iff, arith, inl, inr, Option-cases, Bool-cases, All, countb, to_nat, length-replicate,
}
use tiered_omap.Common.{Bytes, Block, invalid_key, Yields}
use tiered_omap.Common.Codec.RoundTrip.{IsInt}
use tiered_omap.Storage.{bucket_at}
use tiered_omap.Storage.Paths.{IsLeaf}
use tiered_omap.Storage.Write.{tree_count}
use tiered_omap.Oram.Crypt.{has_key}
use tiered_omap.Oram.Valid.{is_some}
use tiered_omap.Tee.Enclave.{
  EnclaveOram, path_contains_oblivious, path_nodes, read_path_to_stash, zero_block,
}
use tiered_omap.Tee.Enclave.Access.{extract_matches, extract_from_stash, padded_value}
use tiered_omap.Tee.Enclave.Evict.{evict_one_path}
use tiered_omap.Tee.Enclave.Extract.{without, Agrees-without, Row, Extracted, extract_matches_lem}
use tiered_omap.Tee.Enclave.Nodes.{InBucket, Read}
use tiered_omap.Tee.Enclave.Rows.{accessed, value_of, row_value}
use tiered_omap.Tee.Enclave.Table.{LeafTable, Agrees, Holds, HoldsAs}
use tiered_omap.Tee.Enclave.Eviction.{evict_path_lem, path_nodes-Apart, path_nodes-InTree}
use tiered_omap.Tee.Enclave.Serve.{Serves, after_read, after_read_lem, unhit, in_stash_alone}
use tiered_omap.Tee.Enclave.Refines.{accessed-Serves}

-- The block of a row, that of zeros if there is none.
abbrev pub row_block : ℕ → ℤ → Option (ℤ × Bytes) → Block
row_block value_size key none = zero_block value_size
row_block value_size key (some row) = record { key = key; leaf = row.0; value = row.1 }

module _ (h : ℕ) (o : EnclaveOram) (m : LeafTable) (key leaf : ℤ) (v : Holds h o m) (ik : IsInt key)
    (rk : (key ==ℤ invalid_key) ≡ false) (at : (row : ℤ × Bytes) → m key ≡ some row → row.0 ≡ leaf)
    (il : IsLeaf h leaf) where
  abbrev old : Bytes
  old = value_of o.value_size m key

  abbrev m' : LeafTable
  m' = accessed o.value_size m key leaf none

  serves : Serves h o key leaf leaf true false (padded_value o.value_size none) old m m'
  serves = accessed-Serves h o m key leaf leaf none v ik rk at il il tt

  abbrev read : List (List Block) × List Block
  read = after_read h o key leaf leaf true false (padded_value o.value_size none) old m m'

  moved_path : Read o o.value_size (Agrees h m) (path_nodes o leaf) o.tree o.stash read.0 read.1
  moved_path =
      after_read_lem h o key leaf leaf true false (padded_value o.value_size none) old m m' serves

  abbrev block : Block
  block = record { key = key; leaf = leaf; value = old }

  only_block : (b : Block) → has_key key b ≡ true → m b.key ≡ some (b.leaf, b.value) → b ≡ block
  only_block b e row =
      let same = (==ℤ_iff b.key key).0 e in
      let row' : m key ≡ some (b.leaf, b.value) =
        subst (λ k. m k ≡ some (b.leaf, b.value)) same row in
      let leaves = at (b.leaf, b.value) row' in
      let values : b.value ≡ old = sym (ap (row_value o.value_size) row') in
      λ i. record { key = same i; leaf = leaves i; value = values i }

  only_blocks : Row h o.value_size key m block
  only_blocks = record { key_int = ik; key_real = rk; only = only_block }

  abbrev taken : Block × List Block
  taken = extract_matches key (zero_block o.value_size) read.1

  extraction : Extracted h o.value_size key m block (zero_block o.value_size) read.1 taken.0 taken.1
  extraction =
      extract_matches_lem h o.value_size key m block (zero_block o.value_size) read.1 only_blocks
        (length-replicate o.value_size 0) moved_path.moved.entries

  rows_left :
      (n : ℕ) (bs : List Block)
      → All (λ b. has_key key b ≡ false) bs
      → InBucket o o.value_size (Agrees h m) n bs
      → InBucket o o.value_size (Agrees h (without m key)) n bs
  rows_left n [] u t = tt
  rows_left n (b ∷ bs) u t =
      (((t.0.0.0, Agrees-without h m key b u.0 t.0.0.1), t.0.1), rows_left n bs u.1 t.1)

  alone :
      (tree_count (has_key key) read.0 ≡ 0)
      × (countb (has_key key) read.1 ≡ to_nat (is_some (m key)))
  alone =
      in_stash_alone h o key leaf leaf true false (padded_value o.value_size none) old m m' serves
        refl

  left_once :
      (k : ℤ)
      → (k ==ℤ invalid_key) ≡ false
      → tree_count (has_key k) read.0 + countb (has_key k) taken.1
        ≡ to_nat (is_some (without m key k))
  left_once k k_real = elim (Bool-cases (k ==ℤ key)) [
    | inl e ↦
        let tree : tree_count (has_key k) read.0 ≡ 0 =
          ap (λ j. tree_count (has_key j) read.0) ((==ℤ_iff k key).0 e) ∙ alone.0 in
        let stash = rw e at (extraction.count k k_real) in rw e (omega (arith, tree, stash))
    | inr f ↦
        let stash = rw f at (extraction.count k k_real) in
        rw f (omega (arith, stash, moved_path.moved.count k k_real, v.once k k_real))
  ]

  found_block : taken.0 ≡ row_block o.value_size key (m key)
  found_block = elim (Option-cases (m key)) [
    | inl n ↦
        let z : to_nat (is_some (m key)) ≡ 0 = rw n refl in
        extraction.none_found (omega (arith, alone.1, z)) ∙ sym (ap (row_block o.value_size key) n)
    | inr (row, e) ↦
        let z : to_nat (is_some (m key)) ≡ 1 = rw e refl in
        let leaves : leaf ≡ row.0 = sym (at row e) in
        let values : old ≡ row.1 = ap (row_value o.value_size) e in
        let same : block ≡ record { key = key; leaf = row.0; value = row.1 } =
          λ i. record { key = key; leaf = leaves i; value = values i } in
        extraction.some_found (omega (arith, alone.1, z))
        ∙ same
        ∙ sym (ap (row_block o.value_size key) e)
  ]

  pub fetched : Holds h (extract_from_stash (read_path_to_stash o leaf) key).0 (without m key)
  unfolding extract_from_stash read_path_to_stash path_contains_oblivious
  fetched = record {
    shape = record { levels = v.shape.levels; leaves = v.shape.leaves; small = v.shape.small };
    nodes = moved_path.moved.same_nodes ∙ v.nodes;
    in_stash = extraction.entries;
    in_tree = λ n.
        rows_left n (bucket_at read.0 n)
          (unhit h o key leaf leaf true false (padded_value o.value_size none) old m m' n serves)
          (moved_path.moved.buckets n);
    once = left_once;
    room = omega (arith, moved_path.longer, extraction.same_length, v.room);
  }

-- Reading the path of the leaf and extracting the key gives the block of its row; evicting the path
-- then gives a state that holds the table without the key.
pub fetch_lem :
    (h : ℕ) (o : EnclaveOram) (m : LeafTable) (key leaf : ℤ)
    → Holds h o m
    → IsInt key
    → (key ==ℤ invalid_key) ≡ false
    → ((row : ℤ × Bytes) → m key ≡ some row → row.0 ≡ leaf)
    → IsLeaf h leaf
    → (let r = extract_from_stash (read_path_to_stash o leaf) key in
        (r.1 ≡ row_block o.value_size key (m key))
        × Yields (evict_one_path r.0 leaf) (HoldsAs h o (without m key)))
unfolding extract_from_stash read_path_to_stash evict_one_path
fetch_lem h o m key leaf v ik rk at il = (
  found_block h o m key leaf v ik rk at il,
  evict_path_lem h (extract_from_stash (read_path_to_stash o leaf) key).0 (without m key)
      (path_nodes o leaf) (fetched h o m key leaf v ik rk at il)
      (path_nodes-Apart h o leaf v.shape il)
      (rw (moved_path h o m key leaf v ik rk at il).moved.same_nodes
        (path_nodes-InTree h o leaf v.shape v.nodes il))
      (moved_path h o m key leaf v ik rk at il).empty,
)
