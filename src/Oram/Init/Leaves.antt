-- ===== src/Oram/Init/Leaves.antt =====
-- The first loop of `init`: every key of the data has a leaf.
use tiered_omap.Prelude.{
  ℕ, ◌≡◌, refl, ap, ◌∙◌, ◌||◌, none, some, List, [], ◌∷◌, ℤ, ◌==ℤ◌, ==ℤ_iff, if◌then◌else◌, ltb,
  length, arith, Bool-cases, Option-cases, inl, inr,
}
use tiered_omap.Common.{Host, Bytes}
use tiered_omap.Storage.Paths.{IsLeaf, IsShaped}
use tiered_omap.Oram.{PathOram, find_leaf, random_leaf}
use tiered_omap.Oram.Stash.{find_leaf-assign_leaf}
use tiered_omap.Oram.Valid.{Table, is_some, random_leaf-IsLeaf}
use tiered_omap.Oram.Init.{ensure_leaf, assign_leaves}

-- `data.find(key)`
unfoldable pub table_of : List (ℤ × Bytes) → Table
table_of [] k = none
table_of ((key, value) ∷ entries) k = if key ==ℤ k then some value else table_of entries k

-- Each key of the map has a leaf of the tree.
abbrev pub LeavesValid : ℕ → List (ℤ × ℤ) → Type 0
LeavesValid h pm = (k leaf : ℤ) → find_leaf pm k ≡ some leaf → IsLeaf h leaf

-- What the loop leaves alone, and which keys have a leaf after it.
pub record Assigned (h : ℕ) (o o' : PathOram) (entries : List (ℤ × Bytes)) : Type 0 where
  pub storage : o'.storage ≡ o.storage
  pub stash : o'.stash ≡ o.stash
  pub aes_key : o'.aes_key ≡ o.aes_key
  pub num_data : o'.num_data ≡ o.num_data
  pub bucket_size : o'.bucket_size ≡ o.bucket_size
  pub limit : o'.stash_max_size ≡ o.stash_max_size
  pub leaves : LeavesValid h o'.pos_map
  pub keys :
      (k : ℤ)
      → is_some (find_leaf o'.pos_map k)
        ≡ (is_some (find_leaf o.pos_map k) || is_some (table_of entries k))

module _ (h : ℕ) (host : Host) where
  ensure_leaf-Assigned :
      (o : PathOram) (key : ℤ) (value : Bytes)
      → IsShaped h o.storage
      → LeavesValid h o.pos_map
      → Assigned h o (ensure_leaf host o key) ((key, value) ∷ [])
  unfolding ensure_leaf table_of
  ensure_leaf-Assigned o key value shape valid = elim (Option-cases (find_leaf o.pos_map key)) [
    | inr (leaf, e) ↦
        rw (e, ensure_leaf)
          (record {
            storage = refl;
            stash = refl;
            aes_key = refl;
            num_data = refl;
            bucket_size = refl;
            limit = refl;
            leaves = valid;
            keys = λ k. elim (Bool-cases (key ==ℤ k)) [
              | inl f ↦ let f' = (==ℤ_iff key k).0 f in rw (f, ← f', e)
              | inr f ↦ rw f (ground arith)
            ];
          })
    | inl e ↦
        rw (e, ensure_leaf)
          (record {
            storage = refl;
            stash = refl;
            aes_key = refl;
            num_data = refl;
            bucket_size = refl;
            limit = refl;
            leaves = λ k leaf found. elim (Bool-cases (key ==ℤ k)) [
              | inl f ↦
                  let g =
                    rw (find_leaf-assign_leaf o.pos_map key (random_leaf host o) k, f) at found in
                  let g' : leaf ≡ random_leaf host o = ground (arith, g) in
                  rw g' (random_leaf-IsLeaf h host o shape)
              | inr f ↦
                  valid k leaf
                    (rw (find_leaf-assign_leaf o.pos_map key (random_leaf host o) k, f) at found)
            ];
            keys = λ k. elim (Bool-cases (key ==ℤ k)) [
              | inl f ↦
                  rw (find_leaf-assign_leaf o.pos_map key (random_leaf host o) k, f) (ground arith)
              | inr f ↦
                  rw (find_leaf-assign_leaf o.pos_map key (random_leaf host o) k, f) (ground arith)
            ];
          })
  ]

  pub assign_leaves-Assigned :
      (o : PathOram) (entries : List (ℤ × Bytes))
      → IsShaped h o.storage
      → LeavesValid h o.pos_map
      → Assigned h o (assign_leaves host o entries) entries
  unfolding assign_leaves table_of
  assign_leaves-Assigned o [] shape valid = record {
    storage = refl;
    stash = refl;
    aes_key = refl;
    num_data = refl;
    bucket_size = refl;
    limit = refl;
    leaves = valid;
    keys = λ k. ground arith;
  }
  assign_leaves-Assigned o ((key, value) ∷ entries) shape valid =
      let a = ensure_leaf-Assigned o key value shape valid in
      let o₁ = ensure_leaf host o key in
      let o₂ = record o₁ {
        block_size_bytes =
            if ltb o₁.block_size_bytes (length value) then length value else o₁.block_size_bytes;
      } in
      let b = assign_leaves-Assigned o₂ entries (rw a.storage shape) a.leaves in
      record {
        storage = b.storage ∙ a.storage;
        stash = b.stash ∙ a.stash;
        aes_key = b.aes_key ∙ a.aes_key;
        num_data = b.num_data ∙ a.num_data;
        bucket_size = b.bucket_size ∙ a.bucket_size;
        limit = b.limit ∙ a.limit;
        leaves = b.leaves;
        keys = λ k.
            b.keys k
            ∙ ap (λ x. x || is_some (table_of entries k)) (a.keys k)
            ∙ elim (Bool-cases (key ==ℤ k)) [
              | inl f ↦ rw f (ground arith)
              | inr f ↦ rw f (ground arith)
            ];
      }
