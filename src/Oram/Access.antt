-- ===== src/Oram/Access.antt =====
-- `access` against a table of values by key.
use tiered_omap.Prelude.{
  ℕ, ◌+◌, ◌^◌, ◌<◌, ◌≡◌, refl, sym, ap, ◌∙◌, true, false, Option, none, some, List, [], ◌∷◌, ℤ,
  ◌==ℤ◌, ==ℤ_iff, ==ℤ_comm, ltb, length, All-map, countb, to_nat, elem, arith, Bool-cases, inl, inr,
  ◌⊎◌,
}
use tiered_omap.Common.{
  Host, Bytes, Block, invalid_key, no_bandwidth, ok, throw, ◌>>=◌, out_of_range, stash_overflow,
}
use tiered_omap.Storage.{leaf_node, is_ancestor, bucket_at, read_path, get_merged_path_indices}
use tiered_omap.Storage.Paths.{IsLeaf}
use tiered_omap.Storage.Merged.{on_paths}
use tiered_omap.Storage.Fill.{path_count}
use tiered_omap.Storage.Write.{tree_count-read_nodes}
use tiered_omap.Oram.{
  PathOram, find_leaf, assign_leaf, set_leaf, leaf_or_throw, random_leaf, evict_stash, retarget,
  find_in_stash, update_in_stash, update_target, count_access, access,
}
use tiered_omap.Oram.Crypt.{has_key, opened, opened-key}
use tiered_omap.Oram.Fetch.{Stored}
use tiered_omap.Oram.Evict.{
  remaining, evicted, evict_stash-evicted, indices-Ascending, indices-lt, indices-on_paths,
}
use tiered_omap.Oram.Stash.{
  find_leaf-assign_leaf, find_in_stash-count, update_in_stash-All, update_in_stash-count,
}
use tiered_omap.Oram.Room.{is_real, length-update_in_stash, overflow-lt}
use tiered_omap.Oram.Valid.{
  Table, is_some, Agrees, Good, OnPath, Holds, random_leaf-IsLeaf, fetched_state, fetched-Good,
  fetched-count, read_path_to_stash-ok,
}
use tiered_omap.Oram.Fetched.{Fetched, evicted-Holds}
use tiered_omap.Oram.Written.{
  written, written-other, written-retarget, is_some-written, retarget-key, retarget-leaf,
  countb-none,
}

module _ (h : ℕ) (host : Host) (m : Table) (o : PathOram) (v : Holds h host m o) (key leaf : ℤ)
    (value : Bytes) (has : m key ≡ some value) (at_leaf : find_leaf o.pos_map key ≡ some leaf)
    (is_leaf : IsLeaf h leaf) where
  real_key : (key ==ℤ invalid_key) ≡ false
  real_key = elim (Bool-cases (key ==ℤ invalid_key)) [
    | inl e ↦
        let e' = (==ℤ_iff key invalid_key).0 e in
        absurd (ground (arith, v.no_invalid, rw e' at has))
    | inr e ↦ e
  ]

  abbrev nodes : List ℕ
  nodes = get_merged_path_indices o.storage.level (leaf ∷ [])

  -- Off the path of its leaf there is no block of the key.
  absent :
      (n : ℕ) (b : Block)
      → elem n nodes ≡ false
      → Stored host o.aes_key (OnPath h m o.pos_map n) b
      → (b.key ==ℤ key) ≡ false
  unfolding on_paths
  absent n b out s = elim (Bool-cases (b.key ==ℤ key)) [
    | inr e ↦ e
    | inl e ↦
        let e' = (==ℤ_iff b.key key).0 e in
        let good = s.1 (rw e' real_key) in
        let same : (opened host o.aes_key b).leaf ≡ leaf =
          let at' : find_leaf o.pos_map key ≡ some (opened host o.aes_key b).leaf =
            rw (sym (opened-key host o.aes_key b ∙ e')) good.0.1.1 in
          cc in
        let above : is_ancestor (leaf_node (2 ^ h) leaf) n ≡ true = rw same at good.1 in
        let shown = indices-on_paths host o (leaf ∷ []) h v.shape (is_leaf, tt) n in
        absurd (ground arith)
  ]

  off_count :
      (n : ℕ) → elem n nodes ≡ false → countb (has_key key) (bucket_at o.storage.buckets n) ≡ 0
  off_count n out = countb-none (has_key key) (bucket_at o.storage.buckets n) (
      All-map (Stored host o.aes_key (OnPath h m o.pos_map n)) (λ b. has_key key b ≡ false)
        (λ b. absent n b out) (bucket_at o.storage.buckets n) (v.in_tree n))

  -- Once the path is fetched, the stash holds the key's only block.
  fetched_once : countb (has_key key) (fetched_state h host m o v nodes).stash ≡ 1
  fetched_once =
      let c = fetched-count h host m o v nodes key real_key in
      let t =
        tree_count-read_nodes (has_key key) o.storage.buckets nodes
          (indices-Ascending host o (leaf ∷ []) h v.shape (is_leaf, tt))
          (indices-lt host o (leaf ∷ []) h v.shape (is_leaf, tt)) off_count in
      let e : to_nat (is_some (m key)) ≡ 1 = rw has refl in
      omega (arith, c, t, e, v.once key real_key)

  module _ (new_value : Option Bytes) (new_leaf : ℤ) (new_is_leaf : IsLeaf h new_leaf) where
    abbrev m' : Table
    m' = written m key new_value

    abbrev pos_map' : List (ℤ × ℤ)
    pos_map' = assign_leaf o.pos_map key new_leaf

    Agrees-other :
        (b : Block) → (b.key ==ℤ key) ≡ false → Agrees m o.pos_map b → Agrees m' pos_map' b
    Agrees-other b e a =
        let e' = ==ℤ_comm key b.key ∙ e in
        (
          rw (written-other m key new_value b.key e') a.0,
          rw (find_leaf-assign_leaf o.pos_map key new_leaf b.key, e') a.1,
        )

    Good-target :
        (b : Block)
        → Good m o.pos_map b
        → b.key ≡ key
        → Good m' pos_map' (retarget new_value new_leaf b)
    Good-target b g e =
        let found = (==ℤ_iff key b.key).1 (sym e) in
        (
          rw (retarget-key new_value new_leaf b) g.0,
          (
            rw (retarget-key new_value new_leaf b)
                (written-retarget m key new_leaf new_value b g.1.0 e),
            rw (
              retarget-key new_value new_leaf b,
              retarget-leaf new_value new_leaf b,
              find_leaf-assign_leaf o.pos_map key new_leaf b.key,
              found,
            ),
          ),
        )

    -- The state between the write to the target block and the eviction.
    abbrev retargeted : PathOram
    retargeted = record o {
      pos_map = pos_map';
      draws = o.draws + 1;
      last_bw = no_bandwidth;
      stash =
          update_in_stash (retarget new_value new_leaf) key
            (fetched_state h host m o v nodes).stash;
    }

    retargeted-Fetched : Fetched h host m' retargeted (leaf ∷ [])
    retargeted-Fetched = record {
      shape = v.shape;
      valid = (is_leaf, tt);
      once = λ k real.
          let u =
            update_in_stash-count key (retarget new_value new_leaf)
              (λ b. retarget-key new_value new_leaf b) k (fetched_state h host m o v nodes).stash in
          let c = fetched-count h host m o v nodes k real in
          rw (is_some-written m key new_value value k has) (omega (arith, u, c, v.once k real));
      no_invalid = written-other m key new_value invalid_key real_key ∙ v.no_invalid;
      unmapped = λ k none_there. elim (Bool-cases (key ==ℤ k)) [
        | inl e ↦
            let e' = (==ℤ_iff key k).0 e in
            let s = is_some-written m key new_value value k has in
            absurd (ground (arith, rw none_there at s, rw e' at has))
        | inr e ↦
            rw (find_leaf-assign_leaf o.pos_map key new_leaf k, e)
              (v.unmapped k (sym (written-other m key new_value k e) ∙ none_there))
      ];
      mapped = λ k w there. elim (Bool-cases (key ==ℤ k)) [
        | inl e ↦ (new_leaf, rw (find_leaf-assign_leaf o.pos_map key new_leaf k, e), new_is_leaf)
        | inr e ↦
            let (l, found, ok_leaf) =
              v.mapped k w (sym (written-other m key new_value k e) ∙ there) in
            (l, rw (find_leaf-assign_leaf o.pos_map key new_leaf k, e) found, ok_leaf)
      ];
      in_stash =
          update_in_stash-All key (Good m o.pos_map) (Good m' pos_map')
            (retarget new_value new_leaf) (λ b g e. (g.0, Agrees-other b e g.1)) Good-target
            (fetched_state h host m o v nodes).stash fetched_once (fetched-Good h host m o v nodes);
      off_path = λ n out.
          All-map (Stored host o.aes_key (OnPath h m o.pos_map n))
            (Stored host o.aes_key (OnPath h m' pos_map' n))
            (λ b s. (
              s.0,
              λ d.
                  let g = s.1 d in
                  let apart =
                    ap (λ k. k ==ℤ key) (opened-key host o.aes_key b) ∙ absent n b out s in
                  ((g.0.0, Agrees-other (opened host o.aes_key b) apart g.0.1), g.1),
            ))
            (bucket_at o.storage.buckets n) (v.in_tree n);
    }

    found_target :
        (b : Block) × (find_in_stash (fetched_state h host m o v nodes).stash key ≡ some b)
        × (b.value ≡ value)
    found_target =
        let (b, found, same, g) =
          find_in_stash-count key (Good m o.pos_map) (fetched_state h host m o v nodes).stash
            (fetched-Good h host m o v nodes) (omega (arith, fetched_once)) in
        (b, found, ground (arith, rw same at g.1.0))

  -- With the path fetched and the target found, what is left is the eviction.
  access-evict :
      (new_value : Option Bytes) (new_is_leaf : IsLeaf h (random_leaf host o))
      → access host o key new_value ≡ (
          evict_stash host (retargeted new_value (random_leaf host o) new_is_leaf) (leaf ∷ [])
          >>= λ o₄. ok (count_access o₄, value))
  unfolding access leaf_or_throw update_target set_leaf
  access-evict new_value new_is_leaf =
      let (b, found, same) = found_target new_value (random_leaf host o) new_is_leaf in
      rw (
        at_leaf,
        ◌>>=◌,
        read_path_to_stash-ok h host m o v leaf (assign_leaf o.pos_map key (random_leaf host o))
            (o.draws + 1) no_bandwidth is_leaf,
        ◌>>=◌,
        found,
        ◌>>=◌,
        same,
      )

-- In a state that holds a table, a key that the table lacks makes `access` throw.
pub access_missing :
    (h : ℕ) (host : Host) (m : Table) (o : PathOram) (key : ℤ) (new_value : Option Bytes)
    → Holds h host m o
    → m key ≡ none
    → access host o key new_value ≡ throw out_of_range
unfolding access leaf_or_throw
access_missing h host m o key new_value v e = rw (v.unmapped key e, leaf_or_throw, ◌>>=◌)

-- In a state that holds a table, `access` of a key of the table returns its value, and the state
-- then holds the table with the new value; or it throws the stash overflow, and then the stash and the path of the key's leaf held
-- more blocks than the stash may keep.
pub access-Holds :
    (h : ℕ) (host : Host) (m : Table) (o : PathOram) (key : ℤ) (new_value : Option Bytes)
    (value : Bytes)
    → Holds h host m o
    → m key ≡ some value
    → ((access host o key new_value ≡ throw stash_overflow)
        × ((leaf : ℤ) × (find_leaf o.pos_map key ≡ some leaf)
            × (o.stash_max_size < length o.stash + path_count is_real (read_path o.storage leaf))))
      ⊎ ((o' : PathOram) × (access host o key new_value ≡ ok (o', value))
          × Holds h host (written m key new_value) o')
unfolding count_access
access-Holds h host m o key new_value value v has =
    let (leaf, at_leaf, is_leaf) = v.mapped key value has in
    let drawn = random_leaf-IsLeaf h host o v.shape in
    let step = access-evict h host m o v key leaf value has at_leaf is_leaf new_value drawn in
    let o₃ =
      retargeted h host m o v key leaf value has at_leaf is_leaf new_value (random_leaf host o)
        drawn in
    let ready =
      retargeted-Fetched h host m o v key leaf value has at_leaf is_leaf new_value
        (random_leaf host o) drawn in
    let held = evicted-Holds h host (written m key new_value) o₃ (leaf ∷ []) ready in
    elim (Bool-cases (ltb o₃.stash_max_size (length (remaining host o₃ (leaf ∷ []))))) [
      | inl e ↦ inl (
        step ∙ rw (evict_stash-evicted host o₃ (leaf ∷ []), e) refl,
        (
          leaf,
          at_leaf,
          overflow-lt h host m o v o₃ leaf is_leaf
              (length-update_in_stash (retarget new_value (random_leaf host o)) key _) e,
        ),
      )
      | inr e ↦ inr (
        count_access (evicted host o₃ (leaf ∷ [])),
        step ∙ rw (evict_stash-evicted host o₃ (leaf ∷ []), e) refl,
        record {
          shape = held.shape;
          once = held.once;
          no_invalid = held.no_invalid;
          unmapped = held.unmapped;
          mapped = held.mapped;
          in_stash = held.in_stash;
          in_tree = held.in_tree;
        },
      )
    ]
