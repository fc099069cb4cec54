-- ===== src/Oram/Dummy.antt =====
-- `dummy_access`: a random path is fetched and evicted.
use tiered_omap.Prelude.{
  ℕ, ◌+◌, ◌<◌, ◌≡◌, refl, ◌∙◌, ◌⊎◌, inl, inr, List, [], ◌∷◌, ltb, length, arith, Bool-cases,
}
use tiered_omap.Common.{Host, ok, throw, ◌>>=◌, stash_overflow}
use tiered_omap.Storage.{read_path, get_merged_path_indices}
use tiered_omap.Storage.Fill.{path_count}
use tiered_omap.Oram.{PathOram, random_leaf, evict_stash, count_access, dummy_access}
use tiered_omap.Oram.Evict.{remaining, evicted, evict_stash-evicted}
use tiered_omap.Oram.Valid.{
  Table, Holds, random_leaf-IsLeaf, fetched_state, fetched-Good, fetched-count,
  read_path_to_stash-ok,
}
use tiered_omap.Oram.Room.{is_real, overflow-lt}
use tiered_omap.Oram.Fetched.{Fetched, evicted-Holds}

module _ (h : ℕ) (host : Host) (m : Table) (o : PathOram) (v : Holds h host m o) where
  abbrev nodes : List ℕ
  nodes = get_merged_path_indices o.storage.level (random_leaf host o ∷ [])

  abbrev drawn : PathOram
  drawn = record (fetched_state h host m o v nodes) { draws = o.draws + 1 }

  drawn-Fetched : Fetched h host m drawn (random_leaf host o ∷ [])
  drawn-Fetched = record {
    shape = v.shape;
    valid = (random_leaf-IsLeaf h host o v.shape, tt);
    once = λ k real. omega (arith, fetched-count h host m o v nodes k real, v.once k real);
    no_invalid = v.no_invalid;
    unmapped = v.unmapped;
    mapped = v.mapped;
    in_stash = fetched-Good h host m o v nodes;
    off_path = λ n _. v.in_tree n;
  }

  dummy-evict :
      dummy_access host o
      ≡ (evict_stash host drawn (random_leaf host o ∷ []) >>= λ o₂. ok (count_access o₂))
  unfolding dummy_access
  dummy-evict = rw (
    read_path_to_stash-ok h host m o v (random_leaf host o) o.pos_map (o.draws + 1) o.last_bw
        (random_leaf-IsLeaf h host o v.shape),
    ◌>>=◌,
  )

-- In a state that holds a table, `dummy_access` leaves a state that holds the same table; or it throws the stash overflow, and then
-- the stash and the drawn path held more blocks than the stash may keep.
pub dummy_access-Holds :
    (h : ℕ) (host : Host) (m : Table) (o : PathOram)
    → Holds h host m o
    → ((dummy_access host o ≡ throw stash_overflow)
        × (o.stash_max_size
            < length o.stash + path_count is_real (read_path o.storage (random_leaf host o))))
      ⊎ ((o' : PathOram) × (dummy_access host o ≡ ok o') × Holds h host m o')
unfolding count_access
dummy_access-Holds h host m o v =
    let o₁ = drawn h host m o v in
    let leaves = random_leaf host o ∷ [] in
    let held = evicted-Holds h host m o₁ leaves (drawn-Fetched h host m o v) in
    elim (Bool-cases (ltb o₁.stash_max_size (length (remaining host o₁ leaves)))) [
      | inl e ↦ inl (
        dummy-evict h host m o v ∙ rw (evict_stash-evicted host o₁ leaves, e) refl,
        overflow-lt h host m o v o₁ (random_leaf host o) (random_leaf-IsLeaf h host o v.shape) refl
            e,
      )
      | inr e ↦ inr (
        count_access (evicted host o₁ leaves),
        dummy-evict h host m o v ∙ rw (evict_stash-evicted host o₁ leaves, e) refl,
        record {
          shape = held.shape;
          once = held.once;
          no_invalid = held.no_invalid;
          unmapped = held.unmapped;
          mapped = held.mapped;
          in_stash = held.in_stash;
          in_tree = held.in_tree;
        },
      )
    ]
