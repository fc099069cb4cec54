-- ===== src/Tee/Enclave/PutBack.antt =====
-- Accesses to several blocks: a block that was read and taken from the stash is put back after its path
-- was evicted.
use tiered_omap.Prelude.{
  ℕ, ◌≤◌, ◌≡◌, refl, ◌∙◌, subst, false, none, some, [], ◌∷◌, ℤ, ◌==ℤ◌, ==ℤ_refl, arith, All-map,
  All-append, countb, countb-append, length, length-append,
}
use tiered_omap.Common.{Bytes, Block, invalid_key, pad_bytes, ok, ◌>>=◌, Yields, Yields-bind}
use tiered_omap.Common.Codec.RoundTrip.{IsInt}
use tiered_omap.Storage.{bucket_at}
use tiered_omap.Storage.Paths.{IsLeaf}
use tiered_omap.Storage.Write.{tree_count}
use tiered_omap.Oram.Crypt.{has_key}
use tiered_omap.Tee.Enclave.{EnclaveOram, path_contains_oblivious, read_path_to_stash}
use tiered_omap.Tee.Enclave.Access.{extract_from_stash, add_to_stash}
use tiered_omap.Tee.Enclave.Evict.{evict_one_path}
use tiered_omap.Tee.Enclave.Extract.{without}
use tiered_omap.Tee.Enclave.Slots.{Entry, OnPath}
use tiered_omap.Tee.Enclave.Rows.{length-padded}
use tiered_omap.Tee.Enclave.Table.{LeafTable, Agrees, Holds, HoldsAs, assign}
use tiered_omap.Tee.Enclave.Refines.{IsLeaf-IsInt}
use tiered_omap.Tee.Enclave.Init.Load.{Agrees-assign, one_more}
use tiered_omap.Tee.Enclave.Fetch.{row_block, fetch_lem}

-- A block of a new key that is added to the stash adds its row.
pub add_to_stash_lem :
    (h : ℕ) (o : EnclaveOram) (m : LeafTable) (key leaf : ℤ) (value : Bytes)
    → Holds h o m
    → m key ≡ none
    → IsInt key
    → (key ==ℤ invalid_key) ≡ false
    → IsLeaf h leaf
    → length value ≤ o.value_size
    → HoldsAs h o
        (assign m key (leaf, pad_bytes value o.value_size))
        (add_to_stash o key leaf value)
unfolding add_to_stash path_contains_oblivious tree_count countb
add_to_stash_lem h o m key leaf value v new ik rk il f =
    let padded = pad_bytes value o.value_size in
    let m' = assign m key (leaf, padded) in
    let block : Block = record { key = key; leaf = leaf; value = padded } in
    let grow : (b : Block)
        → Entry o.value_size (Agrees h m) b
        → Entry o.value_size (Agrees h m') b =
      λ b e. (e.0, Agrees-assign h m key (leaf, padded) b new e.1) in
    let here : Entry o.value_size (Agrees h m') block = (
      (length-padded o.value_size (some value) f, ik, IsLeaf-IsInt h leaf v.shape.small il),
      λ d. (rw (==ℤ_refl key) refl, il),
    ) in
    (
      record {
        shape = record { levels = v.shape.levels; leaves = v.shape.leaves; small = v.shape.small };
        nodes = v.nodes;
        in_stash =
            All-append (Entry o.value_size (Agrees h m')) o.stash (block ∷ [])
              (All-map (Entry o.value_size (Agrees h m)) (Entry o.value_size (Agrees h m')) grow
                o.stash v.in_stash)
              (here, tt);
        in_tree = λ n.
            All-map (λ b. Entry o.value_size (Agrees h m) b × OnPath o n b)
              (λ b. Entry o.value_size (Agrees h m') b × OnPath o n b) (λ b e. (grow b e.0, e.1))
              (bucket_at o.tree n) (v.in_tree n);
        once = λ k k_real. omega (
          arith,
          countb-append (has_key k) o.stash (block ∷ []),
          v.once k k_real,
          one_more m key (leaf, padded) k new,
        );
        room = omega (arith, length-append o.stash (block ∷ []), v.room);
      },
      refl,
    )

-- A state holds a table of trees of height `h`; the key is an `int` that is not `INVALID_KEY`; the leaf is
-- one of the tree, and that of the key if the table has it; the new leaf is one of the tree, and the
-- new value is not longer than the size of values. Reading the path of the leaf and extracting the
-- key gives the block of its row, or one of zeros if the table has none. Evicting the path and adding
-- the key with the new leaf and value to the stash then gives a state that holds the table with this
-- row and keeps the size of values, or throws for a stash over its bound.
pub rewrite_lem :
    (h : ℕ) (o : EnclaveOram) (m : LeafTable) (key leaf new_leaf : ℤ) (value : Bytes)
    → Holds h o m
    → IsInt key
    → (key ==ℤ invalid_key) ≡ false
    → ((row : ℤ × Bytes) → m key ≡ some row → row.0 ≡ leaf)
    → IsLeaf h leaf
    → IsLeaf h new_leaf
    → length value ≤ o.value_size
    → (let r = extract_from_stash (read_path_to_stash o leaf) key in
        (r.1 ≡ row_block o.value_size key (m key))
        × Yields
            (evict_one_path r.0 leaf >>= λ o'. ok (add_to_stash o' key new_leaf value))
            (HoldsAs h o (assign (without m key) key (new_leaf, pad_bytes value o.value_size))))
rewrite_lem h o m key leaf new_leaf value v ik rk at il il' f =
    let m' = without m key in
    let fetch = fetch_lem h o m key leaf v ik rk at il in
    let r = extract_from_stash (read_path_to_stash o leaf) key in
    (
      fetch.0,
      Yields-bind (HoldsAs h o m')
          (HoldsAs h o (assign m' key (new_leaf, pad_bytes value o.value_size)))
          (evict_one_path r.0 leaf) (λ o'. ok (add_to_stash o' key new_leaf value)) fetch.1
          (λ o' w.
            let a =
              add_to_stash_lem h o' m' key new_leaf value w.0 (rw (==ℤ_refl key) refl) ik rk il'
                (omega (arith, f, w.1)) in
            (
              subst
                  (λ n.
                    Holds h (add_to_stash o' key new_leaf value)
                      (assign m' key (new_leaf, pad_bytes value n)))
                  w.1 a.0,
              a.1 ∙ w.1,
            )),
    )
