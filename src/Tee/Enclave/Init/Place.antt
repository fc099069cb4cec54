-- ===== src/Tee/Enclave/Init/Place.antt =====
-- A block of a new key takes a slot that is free on its path, or goes to the stash: the state holds the
-- table with one row more.
use tiered_omap.Prelude.{
  ℕ, ◌+◌, ◌<◌, ◌≡◌, refl, false, Option, none, some, List, [], ◌∷◌, ◌++◌, ℤ, ◌==ℤ◌, set, length,
  length-set, All, All-append, countb, countb-append, to_nat, arith, Bool-cases, inl, inr,
}
use tiered_omap.Common.{Block, invalid_key, is_dummy}
use tiered_omap.Storage.{bucket_at}
use tiered_omap.Storage.Write.{tree_count, tree_count-set}
use tiered_omap.Oram.Crypt.{has_key}
use tiered_omap.Tee.Enclave.{EnclaveOram}
use tiered_omap.Tee.Enclave.Init.{place_in, place_up, place}
use tiered_omap.Tee.Enclave.Slots.{Entry, OnPath, dummy-has_key}
use tiered_omap.Tee.Enclave.Nodes.{InBucket, InBucket-set}

module _ (block : Block) where
  -- The bucket that takes the block, if one does.
  abbrev Takes : (Block → Type 0) → List Block → Option (List Block) → Type 0
  Takes P bucket none = Unit
  Takes P bucket (some bucket') =
      All P bucket'
      × ((k : ℤ)
          → (k ==ℤ invalid_key) ≡ false
          → countb (has_key k) bucket' ≡ to_nat (has_key k block) + countb (has_key k) bucket)

  later_slot :
      (P : Block → Type 0) (slot : Block) (bucket : List Block) (rest : Option (List Block))
      → P slot
      → Takes P bucket rest
      → Takes P (slot ∷ bucket) (elim rest [ none ↦ none | some bucket' ↦ some (slot ∷ bucket') ])
  unfolding countb
  later_slot P slot bucket none p t = tt
  later_slot P slot bucket (some bucket') p t = ((p, t.0), λ k rk. omega (arith, t.1 k rk))

  place_in_lem :
      (P : Block → Type 0) (bucket : List Block)
      → P block
      → All P bucket
      → Takes P bucket (place_in block bucket)
  unfolding place_in countb
  place_in_lem P [] p h = tt
  place_in_lem P (slot ∷ bucket) p h = elim (Bool-cases (is_dummy slot)) [
    | inl d ↦ rw d (
      (p, h.1),
      λ k rk.
          let z : to_nat (has_key k slot) ≡ 0 = rw (dummy-has_key k slot rk d) refl in
          omega (arith, z),
    )
    | inr d ↦
        rw d (later_slot P slot bucket (place_in block bucket) h.0 (place_in_lem P bucket p h.1))
  ]

module _ (o : EnclaveOram) (value_size : ℕ) (P : Block → Type 0) (block : Block) where
  -- A tree and a stash with the block added.
  pub record Added (tree : List (List Block)) (stash : List Block) (tree' : List (List Block))
      (stash' : List Block) : Type 0 where
    pub buckets : (n : ℕ) → InBucket o value_size P n (bucket_at tree' n)
    pub entries : All (Entry value_size P) stash'
    pub count :
        (k : ℤ)
        → (k ==ℤ invalid_key) ≡ false
        → tree_count (has_key k) tree' + countb (has_key k) stash'
          ≡ tree_count (has_key k) tree + countb (has_key k) stash + to_nat (has_key k block)
    pub same_nodes : length tree' ≡ length tree

  abbrev InStash : List (List Block) → List Block → Option (List (List Block)) → Type 0
  InStash tree stash none = Unit
  InStash tree stash (some tree') = Added tree stash tree' stash

  abbrev PlacedAt : List (List Block) → List Block → List (List Block) × List Block → Type 0
  PlacedAt tree stash r = Added tree stash r.0 r.1

  placed_here :
      (node : ℕ) (tree : List (List Block)) (stash bucket : List Block)
      → node < length tree
      → ((n : ℕ) → InBucket o value_size P n (bucket_at tree n))
      → All (Entry value_size P) stash
      → Takes block
          (λ b. Entry value_size P b × OnPath o node b)
          (bucket_at tree node)
          (some bucket)
      → Added tree stash (set tree node bucket) stash
  placed_here node tree stash bucket lt t h b = record {
    buckets = InBucket-set o value_size P tree node bucket lt t b.0;
    entries = h;
    count = λ k rk. omega (arith, tree_count-set (has_key k) tree node bucket lt, b.1 k rk);
    same_nodes = length-set tree node bucket;
  }

  place_up_lem :
      (nodes : List ℕ) (tree : List (List Block)) (stash : List Block)
      → Entry value_size P block
      → All (λ n. (n < length tree) × OnPath o n block) nodes
      → ((n : ℕ) → InBucket o value_size P n (bucket_at tree n))
      → All (Entry value_size P) stash
      → InStash tree stash (place_up block nodes tree)
  unfolding place_up
  place_up_lem [] tree stash e r t h = tt
  place_up_lem (node ∷ nodes) tree stash e r t h =
      step (place_in block (bucket_at tree node))
        (place_in_lem block (λ b. Entry value_size P b × OnPath o node b) (bucket_at tree node)
          (e, r.0.1) (t node))
        (place_up_lem nodes tree stash e r.1 t h)
    where
      step :
          (b : Option (List Block))
          → Takes block (λ b. Entry value_size P b × OnPath o node b) (bucket_at tree node) b
          → InStash tree stash (place_up block nodes tree)
          → InStash tree stash (elim b [
            | some bucket ↦ some (set tree node bucket)
            | none ↦ place_up block nodes tree
          ])
      step none k rest = rest
      step (some bucket) k rest = placed_here node tree stash bucket r.0.0 t h k

  pub place_lem :
      (nodes : List ℕ) (tree : List (List Block)) (stash : List Block)
      → Entry value_size P block
      → All (λ n. (n < length tree) × OnPath o n block) nodes
      → ((n : ℕ) → InBucket o value_size P n (bucket_at tree n))
      → All (Entry value_size P) stash
      → PlacedAt tree stash (place block nodes tree stash)
  unfolding place countb
  place_lem nodes tree stash e r t h =
      step (place_up block nodes tree) (place_up_lem nodes tree stash e r t h)
    where
      step :
          (u : Option (List (List Block)))
          → InStash tree stash u
          → PlacedAt tree stash
              (elim u [ some tree' ↦ (tree', stash) | none ↦ (tree, stash ++ block ∷ []) ])
      step none k = record {
        buckets = t;
        entries = All-append (Entry value_size P) stash (block ∷ []) h (e, tt);
        count = λ k rk. omega (arith, countb-append (has_key k) stash (block ∷ []));
        same_nodes = refl;
      }
      step (some tree') k = k
