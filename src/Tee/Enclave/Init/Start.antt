-- ===== src/Tee/Enclave/Init/Start.antt =====
-- `init` of a new ORAM gives a state that holds the table of its data.
use native.Mathlib.Nat.{pow-le-pow_right}
use tiered_omap.Prelude.{
  ℕ, zero, suc, ◌+◌, ◌≤◌, ◌^◌, ◌-◌, ◌≡◌, refl, sym, ap, ◌∙◌, subst, max, Bool, false, Option, none,
  some, List, [], ◌∷◌, ℤ, ◌==ℤ◌, if◌then◌else◌, length, length-replicate, length-append, replicate,
  All, All-append, countb, countb-append, arith, Bool-cases, inl, inr,
}
use tiered_omap.Common.{Host, Bytes, Block, invalid_key, ceil_log2}
use tiered_omap.Storage.{bucket_at}
use tiered_omap.Storage.Paths.{IsLeaf}
use tiered_omap.Storage.Write.{tree_count-zero}
use tiered_omap.Oram.{find_leaf, assign_leaf}
use tiered_omap.Oram.Crypt.{has_key}
use tiered_omap.Oram.Init.Leaves.{LeavesValid}
use tiered_omap.Oram.Stash.{find_leaf-assign_leaf}
use tiered_omap.Tee.Enclave.{
  EnclaveOram, new_enclave, zero_block, random_leaf, path_contains_oblivious, pad_stash,
}
use tiered_omap.Tee.Enclave.Dummy.{random_leaf-IsLeaf}
use tiered_omap.Tee.Enclave.Init.{choose_leaves, place_all, init}
use tiered_omap.Tee.Enclave.Init.Rows.{with_entries}
use tiered_omap.Tee.Enclave.Init.Load.{HoldsAt, ValidEntries, place_all_lem}
use tiered_omap.Tee.Enclave.Slots.{Entry, dummy-has_key}
use tiered_omap.Tee.Enclave.Nodes.{InBucket}
use tiered_omap.Tee.Enclave.Table.{LeafTable, Agrees, Holds, HoldsAs}

All-replicate : (P : Block → Type 0) (n : ℕ) (b : Block) → P b → All P (replicate n b)
All-replicate P zero b p = tt
All-replicate P (suc n) b p = (p, All-replicate P n b p)

countb-replicate :
    (n : ℕ) (p : Block → Bool) (b : Block) → p b ≡ false → countb p (replicate n b) ≡ 0
unfolding countb
countb-replicate zero p b e = refl
countb-replicate (suc n) p b e = rw (e, countb-replicate n p b e) refl

bucket_at-replicate :
    (Q : List Block → Type 0) (size : ℕ) (bs : List Block) (n : ℕ)
    → Q bs
    → Q []
    → Q (bucket_at (replicate size bs) n)
bucket_at-replicate Q zero bs n q e = e
bucket_at-replicate Q (suc size) bs zero q e = q
bucket_at-replicate Q (suc size) bs (suc n) q e = bucket_at-replicate Q size bs n q e

-- The leaf map has leaves of the tree alone, where those that are preset are.
module _ (host : Host) (h : ℕ) (o : EnclaveOram) (preset_leaves : List (ℤ × ℤ)) where
  assign_leaf-LeavesValid :
      (leaf_map : List (ℤ × ℤ)) (key leaf : ℤ)
      → LeavesValid h leaf_map
      → IsLeaf h leaf
      → LeavesValid h (assign_leaf leaf_map key leaf)
  assign_leaf-LeavesValid leaf_map key leaf v i k l e =
      let found : (if key ==ℤ k then some leaf else find_leaf leaf_map k) ≡ some l =
        sym (find_leaf-assign_leaf leaf_map key leaf k) ∙ e in
      elim (Bool-cases (key ==ℤ k)) [
        | inl f ↦
            let same : ◌≡◌ {A = Option ℤ} (some leaf) (some l) = rw f at found in
            subst (IsLeaf h) (let z = same in cc) i
        | inr f ↦ v k l (rw f at found)
      ]

  choose_leaves-LeavesValid :
      (draws : ℕ) (entries : List (ℤ × Bytes)) (leaf_map : List (ℤ × ℤ))
      → o.leaf_range ≡ 2 ^ h
      → LeavesValid h preset_leaves
      → LeavesValid h leaf_map
      → LeavesValid h (choose_leaves host preset_leaves o draws entries leaf_map).1
  unfolding choose_leaves
  choose_leaves-LeavesValid draws [] leaf_map range p v = v
  choose_leaves-LeavesValid draws ((key, value) ∷ entries) leaf_map range p v =
      step (find_leaf leaf_map key) (find_leaf preset_leaves key) refl
        (λ d lm w. choose_leaves-LeavesValid d entries lm range p w)
    where
      step :
          (old preset : Option ℤ)
          → find_leaf preset_leaves key ≡ preset
          → ((d : ℕ) (lm : List (ℤ × ℤ))
              → LeavesValid h lm
              → LeavesValid h (choose_leaves host preset_leaves o d entries lm).1)
          → (let r : ℕ × List (ℤ × ℤ) = elim old [
            | some _ ↦ choose_leaves host preset_leaves o draws entries leaf_map
            | none ↦ elim preset [
              | some leaf ↦
                  choose_leaves host preset_leaves o draws entries (assign_leaf leaf_map key leaf)
              | none ↦
                  choose_leaves host preset_leaves o
                    (draws + 1)
                    entries
                    (assign_leaf leaf_map key (random_leaf host (record o { draws = draws })))
            ]
          ] in
              LeavesValid h r.1)
      step (some _) preset e rest = rest draws leaf_map v
      step none (some leaf) e rest =
          rest draws (assign_leaf leaf_map key leaf)
            (assign_leaf-LeavesValid leaf_map key leaf v (p key leaf e))
      step none none e rest =
          let o' : EnclaveOram = record o { draws = draws } in
          rest (draws + 1) (assign_leaf leaf_map key (random_leaf host o')) (
            assign_leaf-LeavesValid leaf_map key (random_leaf host o') v
              (random_leaf-IsLeaf host h o' range))

-- Dummies add no row.
pad_stash_lem :
    (h : ℕ) (o : EnclaveOram) (m : LeafTable) (tree : List (List Block)) (stash : List Block)
    (draws : ℕ)
    → HoldsAt h o m tree stash
    → Holds h
        (record o { draws = draws; tree = tree; stash = pad_stash o.value_size o.stash_max stash })
        m
unfolding pad_stash path_contains_oblivious
pad_stash_lem h o m tree stash draws v =
    let n = o.stash_max - length stash in
    let pad = replicate n (zero_block o.value_size) in
    let zero = zero_block o.value_size in
    record {
      shape = record { levels = v.shape.levels; leaves = v.shape.leaves; small = v.shape.small };
      nodes = v.nodes;
      in_stash = All-append (Entry o.value_size (Agrees h m)) stash pad v.in_stash (
          All-replicate (Entry o.value_size (Agrees h m)) n zero (
            (length-replicate o.value_size 0, omega arith, omega arith),
            λ d. absurd (ground (arith, d)),
          ));
      in_tree = v.in_tree;
      once = λ k rk. omega (arith, v.once k rk, countb-append (has_key k) stash pad, zeros n k rk);
      room = omega (arith, length-append stash pad, length-replicate n zero);
    }
  where
    zeros :
        (n : ℕ) (k : ℤ)
        → (k ==ℤ invalid_key) ≡ false
        → countb (has_key k) (replicate n (zero_block o.value_size)) ≡ 0
    zeros n k rk =
        countb-replicate n (has_key k) (zero_block o.value_size)
          (dummy-has_key k (zero_block o.value_size) rk refl)

-- The height of the tree for a number of data.
abbrev pub height : ℕ → ℕ
height num_data = max 1 (ceil_log2 num_data) - 1

module _ (num_data value_size bucket_size stash_scale : ℕ) where
  abbrev new : EnclaveOram
  new = new_enclave num_data value_size bucket_size stash_scale

  abbrev bucket : List Block
  bucket = replicate bucket_size (zero_block value_size)

  new_enclave-HoldsAt :
      ceil_log2 num_data ≤ 31 → HoldsAt (height num_data) new (λ _. none) new.tree []
  unfolding new_enclave countb
  new_enclave-HoldsAt small =
      let fits : suc (height num_data) ≤ 31 = omega arith in
      let small_tree : 2 ^ suc (height num_data) ≤ 2 ^ 31 =
        pow-le-pow_right {n = 2} (omega arith) fits in
      record {
        shape = record { levels = omega arith; leaves = refl; small = small_tree };
        nodes = length-replicate (2 ^ new.level - 1) bucket ∙ ap (λ l. 2 ^ l - 1) (omega arith);
        in_stash = tt;
        in_tree = λ n.
            bucket_at-replicate
              (InBucket (record new { stash_max = 0; stash = [] }) value_size
                (Agrees (height num_data) (λ _. none)) n)
              (2 ^ new.level - 1) bucket n
              (All-replicate _ bucket_size (zero_block value_size) (
                (
                  (length-replicate value_size 0, omega arith, omega arith),
                  λ d. absurd (ground (arith, d)),
                ),
                λ d. absurd (ground (arith, d)),
              ))
              tt;
        once = λ k rk. omega (
          arith,
          tree_count-zero (has_key k) new.tree (λ n.
              bucket_at-replicate (λ bs. countb (has_key k) bs ≡ 0) (2 ^ new.level - 1) bucket n
                (countb-replicate bucket_size (has_key k) (zero_block value_size)
                  (dummy-has_key k (zero_block value_size) rk refl))
                refl),
        );
        room = omega arith;
      }

none_valid : (h : ℕ) → LeavesValid h []
unfolding find_leaf
none_valid h k leaf e = absurd (let z : ◌≡◌ {A = Option ℤ} none (some leaf) = e in cc)

-- For a number of data up to 2 ^ 31, entries whose keys are integers other than the reserved one, each
-- once, and whose values are not longer than the size of values, and for preset leaves that are leaves of the tree:
-- `init` of a new ORAM gives a state that holds the table of the data, each value padded and each key
-- with the leaf that it has in the map that `init` returns.
pub init_lem :
    (host : Host) (num_data value_size bucket_size stash_scale : ℕ) (entries : List (ℤ × Bytes))
    (preset_leaves : List (ℤ × ℤ))
    → ceil_log2 num_data ≤ 31
    → LeavesValid (height num_data) preset_leaves
    → ValidEntries value_size entries
    → (let o = new_enclave num_data value_size bucket_size stash_scale in
        let r = init host o entries preset_leaves in
        HoldsAs (height num_data) o (with_entries value_size r.1 entries (λ _. none)) r.0)
unfolding init new_enclave
init_lem host num_data value_size bucket_size stash_scale entries preset_leaves small pv ev =
    let o = new_enclave num_data value_size bucket_size stash_scale in
    let h = height num_data in
    let chosen = choose_leaves host preset_leaves o 0 entries [] in
    let lv = choose_leaves-LeavesValid host h o preset_leaves 0 entries [] refl pv (none_valid h) in
    let placed = place_all o chosen.1 entries o.tree [] in
    (
      pad_stash_lem h o (with_entries value_size chosen.1 entries (λ _. none)) placed.0 placed.1
          chosen.0
          (place_all_lem h o chosen.1 entries (λ _. none) o.tree [] lv ev (none_yet entries)
            (new_enclave-HoldsAt num_data value_size bucket_size stash_scale small)),
      refl,
    )
  where
    none_yet : (es : List (ℤ × Bytes)) → All (λ _. ◌≡◌ {A = Option (ℤ × Bytes)} none none) es
    none_yet [] = tt
    none_yet (e ∷ es) = (refl, none_yet es)
