-- ===== src/Oram/Room.antt =====
-- With room for the fetched blocks in the stash, an access cannot overflow it.
use tiered_omap.Prelude.{
  ℕ, suc, ◌+◌, ◌≤◌, ◌≡◌, refl, ap, ◌<◌, ◌∙◌, ltb→lt, Bool, true, not, List, [], ◌∷◌, map, ℤ, ltb,
  length, length-append, countb, arith, Bool-cases, inl, inr, ◌==ℤ◌,
}
use tiered_omap.Common.{Host, Bytes, Block, is_dummy}
use tiered_omap.Storage.{
  PathData, fill_block_to_path, read_path, read_nodes, get_merged_path_indices,
}
use tiered_omap.Storage.Paths.{IsLeaf}
use tiered_omap.Storage.Fill.{path_count}
use tiered_omap.Storage.Write.{path_count-perm}
use tiered_omap.Storage.OnePath.{path-merged}
use tiered_omap.Oram.{PathOram, empty_path, real_blocks, fill_from_stash, update_in_stash}
use tiered_omap.Oram.Crypt.{opened, opened-is_dummy}
use tiered_omap.Oram.Fetch.{plain_blocks}
use tiered_omap.Oram.Evict.{indices, remaining}
use tiered_omap.Oram.Valid.{Table, Holds, fetched_state}

abbrev pub is_real : Block → Bool
is_real b = not (is_dummy b)

length-fill_from_stash :
    (level bucket_size : ℕ) (stash : List Block) (path : PathData)
    → length (fill_from_stash level bucket_size stash path).1 ≤ length stash
unfolding fill_from_stash
length-fill_from_stash level bs [] path = omega arith
length-fill_from_stash level bs (b ∷ stash) path =
    let f = fill_block_to_path b path level bs in
    let ih = length-fill_from_stash level bs stash f.0 in
    elim (Bool-cases f.1) [ inl e ↦ rw e (omega arith) | inr e ↦ rw e (omega arith) ]

pub length-update_in_stash :
    (g : Block → Block) (key : ℤ) (stash : List Block)
    → length (update_in_stash g key stash) ≡ length stash
unfolding update_in_stash
length-update_in_stash g key [] = refl
length-update_in_stash g key (b ∷ stash) = elim (Bool-cases (b.key ==ℤ key)) [
  | inl e ↦ rw e
  | inr e ↦ rw e (ap suc (length-update_in_stash g key stash))
]

module _ (host : Host) (key : Bytes) where
  length-real_blocks :
      (bucket : List Block)
      → length (real_blocks (map (opened host key) bucket)) ≡ countb is_real bucket
  unfolding real_blocks countb
  length-real_blocks [] = refl
  length-real_blocks (b ∷ bucket) = elim (Bool-cases (is_dummy b)) [
    | inl e ↦ rw (opened-is_dummy host key b, e) (omega (arith, length-real_blocks bucket))
    | inr e ↦ rw (opened-is_dummy host key b, e) (omega (arith, length-real_blocks bucket))
  ]

  length-plain_blocks :
      (path : PathData) → length (plain_blocks host key path) ≡ path_count is_real path
  unfolding plain_blocks path_count
  length-plain_blocks [] = refl
  length-plain_blocks ((_, bucket) ∷ path) =
      rw (length-append, length-real_blocks bucket, length-plain_blocks path)

module _ (h : ℕ) (host : Host) (m : Table) (o : PathOram) (v : Holds h host m o) where
  length-fetched :
      (nodes : List ℕ)
      → length (fetched_state h host m o v nodes).stash
        ≡ length o.stash + path_count is_real (read_nodes o.storage.buckets nodes)
  length-fetched nodes =
      length-append o.stash _
      ∙ ap (◌+◌ (length o.stash)) (
          length-plain_blocks host o.aes_key _
          ∙ path_count-perm is_real (host.order_perm (read_nodes o.storage.buckets nodes)))

  -- The blocks that the path of a leaf holds.
  length-fetched_path :
      (leaf : ℤ)
      → IsLeaf h leaf
      → length
          (fetched_state h host m o v (get_merged_path_indices o.storage.level (leaf ∷ []))).stash
        ≡ length o.stash + path_count is_real (read_path o.storage leaf)
  unfolding read_path
  length-fetched_path leaf l =
      rw (path-merged h o.storage leaf v.shape.levels v.shape.leaves l)
        (length-fetched (get_merged_path_indices o.storage.level (leaf ∷ [])))

  -- An eviction that overflows the stash started with more blocks than the stash may keep: those of
  -- the stash and those of the path.
  pub overflow-lt :
      (o' : PathOram) (leaf : ℤ)
      → IsLeaf h leaf
      → length o'.stash
        ≡ length
            (fetched_state h host m o v (get_merged_path_indices o.storage.level (leaf ∷ []))).stash
      → ltb o'.stash_max_size (length (remaining host o' (leaf ∷ []))) ≡ true
      → o'.stash_max_size < length o.stash + path_count is_real (read_path o.storage leaf)
  overflow-lt o' leaf l same e =
      let k = length-fetched_path leaf l in
      let f =
        length-fill_from_stash o'.storage.level o'.bucket_size o'.stash
          (empty_path (indices host o' (leaf ∷ []))) in
      let lt = ltb→lt _ _ e in omega (arith, k, f, lt, same)
