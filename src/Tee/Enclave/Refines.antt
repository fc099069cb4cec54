-- ===== src/Tee/Enclave/Refines.antt =====
-- The accesses of the enclave's ORAM are those of a table from keys to leaves and values.
use native.Mathlib.Nat.{pow-suc}
use tiered_omap.Prelude.{
  ℕ, suc, ◌+◌, ◌^◌, ◌≤◌, ◌≡◌, refl, sym, ap, ◌∙◌, subst, Bool, true, false, Option, some, List, ℤ,
  ◌==ℤ◌, ==ℤ_iff, if◌then◌else◌, arith, inl, inr, Option-cases,
}
use tiered_omap.Common.{Host, Bytes, Block, invalid_key, ok, Yields, Yields-bind, Yields-map}
use tiered_omap.Common.Codec.RoundTrip.{IsInt}
use tiered_omap.Storage.Paths.{IsLeaf}
use tiered_omap.Oram.Crypt.{has_key}
use tiered_omap.Oram.Valid.{is_some}
use tiered_omap.Tee.Oblivious.{o_select_i}
use tiered_omap.Tee.Enclave.{
  EnclaveOram, Stats, no_stats, begin_page_tracking, path_contains_oblivious, path_nodes,
  random_leaf, read_path,
}
use tiered_omap.Tee.Enclave.Access.{access_or_dummy, access, has_value, padded_value, count_access}
use tiered_omap.Tee.Enclave.Evict.{evict_path}
use tiered_omap.Tee.Enclave.Rows.{
  accessed, row_value, value_of, Fits, length-padded, accessed-others, accessed-key,
  accessed-is_some,
}
use tiered_omap.Tee.Enclave.Table.{LeafTable, Holds, HoldsAs}
use tiered_omap.Tee.Enclave.Eviction.{evict_path_lem, path_nodes-Apart, path_nodes-InTree}
use tiered_omap.Tee.Enclave.Serve.{Serves, after_read_lem, after_scan, served, answer}

-- The statistics and the draws are no part of the table.
pub same_table :
    (h : ℕ) (o : EnclaveOram) (m : LeafTable) (last total : Stats) (pages : List ℕ)
    (count draws : ℕ)
    → Holds h o m
    → Holds h
        (record o {
          last_stats = last;
          total_stats = total;
          touched_pages = pages;
          node_access_count = count;
          draws = draws;
        })
        m
unfolding path_contains_oblivious
same_table h o m last total pages count draws v = record {
  shape = record { levels = v.shape.levels; leaves = v.shape.leaves; small = v.shape.small };
  nodes = v.nodes;
  in_stash = v.in_stash;
  in_tree = v.in_tree;
  once = v.once;
  room = v.room;
}

module _ (host : Host) (h : ℕ) (o : EnclaveOram) (key old_leaf new_leaf : ℤ) (real : Bool)
    (new_value : Option Bytes) (leaf : ℤ) (v : Bytes) (m m' : LeafTable) where
  abbrev S : Type 0
  S =
      Serves h o key leaf new_leaf real (has_value new_value) (padded_value o.value_size new_value)
        v m m'

  abbrev nodes : List ℕ
  nodes = path_nodes o leaf

  abbrev pub result : Bytes
  result =
      (after_scan h o key leaf new_leaf real (has_value new_value)
        (padded_value o.value_size new_value) v m m').0

  abbrev before_eviction : EnclaveOram
  before_eviction =
      record (read_path
        (begin_page_tracking (record o { last_stats = no_stats; draws = o.draws + 1 })) leaf).0 {
          stash =
              (after_scan h o key leaf new_leaf real (has_value new_value)
                (padded_value o.value_size new_value) v m m').1;
        }

  evicted : S → Yields (evict_path before_eviction nodes) (HoldsAs h o m')
  unfolding read_path begin_page_tracking
  evicted s =
      let r =
        after_read_lem h o key leaf new_leaf real (has_value new_value)
          (padded_value o.value_size new_value) v m m' s in
      evict_path_lem h before_eviction m' nodes
        (same_table h (record o { tree = before_eviction.tree; stash = before_eviction.stash }) m'
          no_stats o.total_stats before_eviction.touched_pages before_eviction.node_access_count
          before_eviction.draws
          (served h o key leaf new_leaf real (has_value new_value)
            (padded_value o.value_size new_value) v m m' s))
        (path_nodes-Apart h o leaf s.holds.shape s.valid)
        (rw r.moved.same_nodes (path_nodes-InTree h o leaf s.holds.shape s.holds.nodes s.valid))
        r.empty

  -- The access with its leaf selected, on a state that holds a table.
  pub access_or_dummy_lem :
      o_select_i real old_leaf (random_leaf host o) ≡ leaf
      → S
      → Yields
          (access_or_dummy host o key old_leaf new_leaf real new_value)
          (λ r. (r.1 ≡ result) × HoldsAs h o m' r.0)
  unfolding access_or_dummy read_path begin_page_tracking count_access
  access_or_dummy_lem e s = rw e (
      Yields-bind (HoldsAs h o m') (λ r. (r.1 ≡ result) × HoldsAs h o m' r.0)
        (evict_path before_eviction nodes) (λ o'. ok (count_access o', result)) (evicted s)
        (λ o' w. (
          refl,
          (
            same_table h o' m' (count_access o').last_stats (count_access o').total_stats
                o'.touched_pages o'.node_access_count o'.draws w.0,
            w.1,
          ),
        )))

pub IsLeaf-IsInt : (h : ℕ) (leaf : ℤ) → 2 ^ suc h ≤ 2147483648 → IsLeaf h leaf → IsInt leaf
IsLeaf-IsInt h leaf small (l, e, lt) = rw e (omega (arith, pow-suc 2 h))

module _ (h : ℕ) (o : EnclaveOram) (m : LeafTable) (key old_leaf new_leaf : ℤ)
    (new_value : Option Bytes) where
  abbrev Hit : Block → Type 0
  Hit b = (has_key key b ≡ true) × (m b.key ≡ some (b.leaf, b.value))

  key_row : (b : Block) → Hit b → m key ≡ some (b.leaf, b.value)
  key_row b (e, row) = subst (λ k. m k ≡ some (b.leaf, b.value)) ((==ℤ_iff b.key key).0 e) row

  pub accessed-Serves :
      Holds h o m
      → IsInt key
      → (key ==ℤ invalid_key) ≡ false
      → ((row : ℤ × Bytes) → m key ≡ some row → row.0 ≡ old_leaf)
      → IsLeaf h old_leaf
      → IsLeaf h new_leaf
      → Fits o.value_size new_value
      → Serves h o key old_leaf new_leaf true
          (has_value new_value)
          (padded_value o.value_size new_value)
          (value_of o.value_size m key)
          m
          (accessed o.value_size m key new_leaf new_value)
  accessed-Serves v ik rk at io il f = record {
    holds = v;
    valid = io;
    rewrites = record {
      key_int = ik;
      key_real = λ _. rk;
      leaf_int = IsLeaf-IsInt h new_leaf v.shape.small il;
      leaf_valid = il;
      padded = length-padded o.value_size new_value f;
      old = λ b e row. sym (ap (row_value o.value_size) (key_row b (e, row)));
      new = λ b e row.
          subst
            (λ k.
              accessed o.value_size m key new_leaf new_value k
              ≡ some (
                new_leaf,
                if has_value new_value then padded_value o.value_size new_value else b.value,
              ))
            (sym ((==ℤ_iff b.key key).0 e))
            (accessed-key o.value_size m key new_leaf new_value b.leaf b.value
              (key_row b (e, row)));
      others = λ b e. accessed-others o.value_size m key new_leaf new_value b.key e;
    };
    there = λ b e row. at (b.leaf, b.value) (key_row b (e, row));
    same_keys = accessed-is_some o.value_size m key new_leaf new_value;
  }

-- A state holds a table of trees of height `h`; the key is an `int` that is not `INVALID_KEY`; the old
-- leaf, a leaf of the tree, is that of the key if the table has it; the new leaf is one of the tree, and
-- a new value is not longer than the size of values. Then `access` returns the value of the key, or
-- zeros if the table has none, in a state that holds the table with the new leaf and the new value,
-- if there is one, for a key that it has, and keeps the size of values; or it throws for a stash
-- over its bound.
pub access_lem :
    (host : Host) (h : ℕ) (o : EnclaveOram) (m : LeafTable) (key old_leaf new_leaf : ℤ)
    (new_value : Option Bytes)
    → Holds h o m
    → IsInt key
    → (key ==ℤ invalid_key) ≡ false
    → ((row : ℤ × Bytes) → m key ≡ some row → row.0 ≡ old_leaf)
    → IsLeaf h old_leaf
    → IsLeaf h new_leaf
    → Fits o.value_size new_value
    → Yields (access host o key old_leaf new_leaf new_value) (λ r.
      (r.1 ≡ value_of o.value_size m key)
      × HoldsAs h o (accessed o.value_size m key new_leaf new_value) r.0)
unfolding access
access_lem host h o m key old_leaf new_leaf new_value v ik rk at io il f =
    let s = accessed-Serves h o m key old_leaf new_leaf new_value v ik rk at io il f in
    let a =
      answer h o key old_leaf new_leaf true (has_value new_value)
        (padded_value o.value_size new_value) (value_of o.value_size m key) m
        (accessed o.value_size m key new_leaf new_value) s refl in
    let r =
      access_or_dummy_lem host h o key old_leaf new_leaf true new_value old_leaf
        (value_of o.value_size m key) m (accessed o.value_size m key new_leaf new_value) refl s in
    let answered : result host h o key old_leaf new_leaf true new_value old_leaf
          (value_of o.value_size m key) m (accessed o.value_size m key new_leaf new_value)
        ≡ value_of o.value_size m key =
      elim (Option-cases (m key)) [
        | inl n ↦ a.1 (ap is_some n) ∙ sym (ap (row_value o.value_size) n)
        | inr (row, e) ↦ a.0 (ap is_some e)
      ] in
    Yields-map
      (λ (r' : EnclaveOram × Bytes).
        (r'.1
          ≡ result host h o key old_leaf new_leaf true new_value old_leaf
              (value_of o.value_size m key) m (accessed o.value_size m key new_leaf new_value))
        × HoldsAs h o (accessed o.value_size m key new_leaf new_value) r'.0)
      (λ (r' : EnclaveOram × Bytes).
        (r'.1 ≡ value_of o.value_size m key)
        × HoldsAs h o (accessed o.value_size m key new_leaf new_value) r'.0)
      (access_or_dummy host o key old_leaf new_leaf true new_value) r
      (λ r' w. (w.0 ∙ answered, w.1))
