-- ===== src/Oram/Fetched.antt =====
-- The state of `PathORAM` between a fetch and the eviction of the same paths.
use tiered_omap.Prelude.{ℕ, ◌+◌, ◌≡◌, false, none, some, List, ℤ, ◌==ℤ◌, All, to_nat, elem, arith}
use tiered_omap.Common.{Host, Bytes, invalid_key}
use tiered_omap.Storage.{bucket_at, read_nodes}
use tiered_omap.Storage.Paths.{IsLeaf, IsShaped}
use tiered_omap.Storage.Fill.{path_count}
use tiered_omap.Oram.{PathOram, find_leaf}
use tiered_omap.Oram.Crypt.{has_key}
use tiered_omap.Oram.Fetch.{Stored}
use tiered_omap.Oram.Evict.{
  indices, evicted, evicted-count, evicted-stash, evicted-bucket, evicted-IsShaped,
}
use tiered_omap.Oram.Valid.{Table, is_some, Good, OnPath, copies, Holds}

-- The paths of `leaves` are in the stash too, and the table may have changed there.
pub record Fetched (h : ℕ) (host : Host) (m : Table) (o : PathOram) (leaves : List ℤ) : Type 0 where
  pub shape : IsShaped h o.storage
  pub valid : All (IsLeaf h) leaves
  pub once :
      (k : ℤ)
      → (k ==ℤ invalid_key) ≡ false
      → copies k o
        ≡ to_nat (is_some (m k))
          + path_count (has_key k) (read_nodes o.storage.buckets (indices host o leaves))
  pub no_invalid : m invalid_key ≡ none
  pub unmapped : (k : ℤ) → m k ≡ none → find_leaf o.pos_map k ≡ none
  pub mapped :
      (k : ℤ) (v : Bytes)
      → m k ≡ some v
      → (leaf : ℤ) × (find_leaf o.pos_map k ≡ some leaf) × IsLeaf h leaf
  pub in_stash : All (Good m o.pos_map) o.stash
  pub off_path :
      (n : ℕ)
      → elem n (indices host o leaves) ≡ false
      → All (Stored host o.aes_key (OnPath h m o.pos_map n)) (bucket_at o.storage.buckets n)

-- An eviction of the fetched paths restores the invariant.
pub evicted-Holds :
    (h : ℕ) (host : Host) (m : Table) (o : PathOram) (leaves : List ℤ)
    → Fetched h host m o leaves
    → Holds h host m (evicted host o leaves)
unfolding evicted
evicted-Holds h host m o leaves f = record {
  shape = unfold evicted in evicted-IsShaped host o leaves h f.shape f.valid;
  once = λ k real.
      let c = evicted-count host o leaves h f.shape f.valid k in omega (arith, c, f.once k real);
  no_invalid = f.no_invalid;
  unmapped = f.unmapped;
  mapped = f.mapped;
  in_stash = evicted-stash host o leaves h f.shape f.valid (Good m o.pos_map) f.in_stash;
  in_tree = evicted-bucket host o leaves h f.shape f.valid (Good m o.pos_map) f.in_stash f.off_path;
}
