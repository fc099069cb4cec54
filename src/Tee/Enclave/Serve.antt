-- ===== src/Tee/Enclave/Serve.antt =====
-- `EnclaveOram::access_or_dummy` on a state that holds a table: the path is read, the block of the key
-- is rewritten in the stash, and the path is filled again.
use tiered_omap.Prelude.{
  ℕ, zero, suc, ◌-◌, ◌^◌, ◌≤◌, ◌<◌, ◌≡◌, refl, sym, ap, ◌∙◌, subst, Bool, true, false, ◌&&◌, some,
  List, [], ◌∷◌, ℤ, length, length-replicate, replicate, All, All-map, countb, to_nat, elem, arith,
  Bool-cases, inl, inr, ltb,
}
use tiered_omap.Common.{Bytes, Block, is_dummy}
use tiered_omap.Storage.{bucket_at}
use tiered_omap.Storage.OnePath.{elem-All}
use tiered_omap.Storage.Paths.{IsLeaf}
use tiered_omap.Storage.Write.{tree_count, tree_count-zero}
use tiered_omap.Oram.Crypt.{has_key}
use tiered_omap.Oram.Valid.{is_some}
use tiered_omap.Tee.Enclave.{EnclaveOram, path_nodes, path_contains_oblivious, read_buckets}
use tiered_omap.Tee.Enclave.Access.{scan_stash}
use tiered_omap.Tee.Enclave.Paths.{path_contains_oblivious-elem}
use tiered_omap.Tee.Enclave.Slots.{dummy-has_key}
use tiered_omap.Tee.Enclave.Nodes.{InBucket, Read, read_buckets_lem}
use tiered_omap.Tee.Enclave.Table.{LeafTable, Agrees, Holds}
use tiered_omap.Tee.Enclave.Eviction.{path_nodes-Apart, path_nodes-InTree}
use tiered_omap.Tee.Enclave.Scan.{hit, Rewrites, Scanned, scan_stash_lem}

bucket_at_outside : (tree : List (List Block)) (n : ℕ) → length tree ≤ n → bucket_at tree n ≡ []
bucket_at_outside [] n le = refl
bucket_at_outside (b ∷ tree) zero le = absurd (omega arith)
bucket_at_outside (b ∷ tree) (suc n) le = bucket_at_outside tree n (omega arith)

module _ (h : ℕ) (o : EnclaveOram) (key leaf new_leaf : ℤ) (real has_new : Bool)
    (padded_new v : Bytes) (m m' : LeafTable) where
  -- The table changes at the key alone, whose block, if it has one, has the leaf that is read.
  pub record Serves : Type 0 where
    pub holds : Holds h o m
    pub valid : IsLeaf h leaf
    pub rewrites : Rewrites h o.value_size key new_leaf real has_new padded_new m m' v
    pub there :
        (b : Block)
        → hit h o.value_size key new_leaf real has_new padded_new m m' b ≡ true
        → m b.key ≡ some (b.leaf, b.value)
        → b.leaf ≡ leaf
    pub same_keys : (k : ℤ) → is_some (m' k) ≡ is_some (m k)

  abbrev is_hit : Block → Bool
  is_hit = hit h o.value_size key new_leaf real has_new padded_new m m'

  abbrev pub after_read : List (List Block) × List Block
  after_read = read_buckets o.value_size (path_nodes o leaf) o.tree o.stash

  pub after_read_lem :
      Serves
      → Read o o.value_size
          (Agrees h m)
          (path_nodes o leaf)
          o.tree
          o.stash
          after_read.0
          after_read.1
  after_read_lem s =
      read_buckets_lem o o.value_size (Agrees h m) (path_nodes o leaf) o.tree o.stash
        (λ z. absurd (ground (arith, z))) (path_nodes-Apart h o leaf s.holds.shape s.valid)
        (path_nodes-InTree h o leaf s.holds.shape s.holds.nodes s.valid) s.holds.in_tree
        s.holds.in_stash

  dummy-hit : (b : Block) → Serves → is_dummy b ≡ true → is_hit b ≡ false
  dummy-hit b s d = elim (Bool-cases real) [
    | inl e ↦ ground (arith, dummy-has_key key b (s.rewrites.key_real e) d)
    | inr e ↦ ground (arith, e)
  ]

  -- Off the path there is no block of the key.
  off_path :
      (n : ℕ) (bs : List Block)
      → Serves
      → n < 2 ^ suc h - 1
      → elem n (path_nodes o leaf) ≡ false
      → InBucket o o.value_size (Agrees h m) n bs
      → All (λ b. is_hit b ≡ false) bs
  off_path n [] s lt out t = tt
  off_path n (b ∷ bs) s lt out t = (
    elim (Bool-cases (is_dummy b)) [
      | inl d ↦ dummy-hit b s d
      | inr d ↦ elim (Bool-cases (is_hit b)) [
        | inl e ↦
            let row = t.0.0.1 d in
            let same : b.leaf ≡ leaf = s.there b e row.0 in
            let on : path_contains_oblivious o leaf n ≡ true =
              subst (λ l. path_contains_oblivious o l n ≡ true) same (t.0.1 d) in
            let eq = path_contains_oblivious-elem h o leaf n s.holds.shape s.valid lt in absurd (cc)
        | inr e ↦ e
      ]
    ],
    off_path n bs s lt out t.1,
  )

  all_dummies :
      (bs : List Block) → Serves → All (λ b. is_dummy b ≡ true) bs → All (λ b. is_hit b ≡ false) bs
  all_dummies bs s d =
      All-map (λ b. is_dummy b ≡ true) (λ b. is_hit b ≡ false) (λ b. dummy-hit b s) bs d

  -- After the read, no block of the key is in the tree.
  pub unhit : (n : ℕ) → Serves → All (λ b. is_hit b ≡ false) (bucket_at after_read.0 n)
  unhit n s =
      let r = after_read_lem s in
      elim (Bool-cases (elem n (path_nodes o leaf))) [
        | inl e ↦ all_dummies (bucket_at after_read.0 n) s (
            elem-All (λ m. All (λ b. is_dummy b ≡ true) (bucket_at after_read.0 m)) n
              (path_nodes o leaf) r.empty e)
        | inr e ↦ rw (r.others n e) (elim (Bool-cases (ltb n (2 ^ suc h - 1))) [
          | inl lt ↦ off_path n (bucket_at o.tree n) s (ground (arith, lt)) e (s.holds.in_tree n)
          | inr ge ↦
              let out : length o.tree ≤ n = ground (arith, ge, s.holds.nodes) in
              rw (bucket_at_outside o.tree n out) tt
        ])
      ]

  abbrev pub after_scan : Bytes × List Block
  after_scan =
      scan_stash key new_leaf real has_new padded_new (replicate o.value_size 0) after_read.1

  after_scan_lem :
      Serves
      → Scanned h o.value_size key new_leaf real has_new padded_new m m' v
          (replicate o.value_size 0)
          after_read.1
          after_scan.0
          after_scan.1
  after_scan_lem s =
      scan_stash_lem h o.value_size key new_leaf real has_new padded_new m m' v
        (replicate o.value_size 0) after_read.1 s.rewrites (length-replicate o.value_size 0)
        (after_read_lem s).moved.entries

  keep_rows :
      (n : ℕ) (bs : List Block)
      → Serves
      → All (λ b. is_hit b ≡ false) bs
      → InBucket o o.value_size (Agrees h m) n bs
      → InBucket o o.value_size (Agrees h m') n bs
  keep_rows n [] s u t = tt
  keep_rows n (b ∷ bs) s u t = (
    ((t.0.0.0, λ d. let row = t.0.0.1 d in (s.rewrites.others b u.0 ∙ row.0, row.1)), t.0.1),
    keep_rows n bs s u.1 t.1,
  )

  -- The state before the eviction holds the new table.
  pub served : Serves → Holds h (record o { tree = after_read.0; stash = after_scan.1 }) m'
  unfolding path_contains_oblivious
  served s =
      let r = after_read_lem s in
      let c = after_scan_lem s in
      record {
        shape = record {
          levels = s.holds.shape.levels;
          leaves = s.holds.shape.leaves;
          small = s.holds.shape.small;
        };
        nodes = r.moved.same_nodes ∙ s.holds.nodes;
        in_stash = c.entries;
        in_tree = λ n. keep_rows n (bucket_at after_read.0 n) s (unhit n s) (r.moved.buckets n);
        once = λ k rk.
            let e : to_nat (is_some (m' k)) ≡ to_nat (is_some (m k)) = ap to_nat (s.same_keys k) in
            omega (arith, e, r.moved.count k rk, c.count k, s.holds.once k rk);
        room = omega (arith, r.longer, c.same_length, s.holds.room);
      }

  no_hits : (bs : List Block) → All (λ b. is_hit b ≡ false) bs → countb is_hit bs ≡ 0
  unfolding countb
  no_hits [] h = refl
  no_hits (b ∷ bs) h = rw (h.0, no_hits bs h.1) refl

  hits_by_key : real ≡ true → (bs : List Block) → countb is_hit bs ≡ countb (has_key key) bs
  hits_by_key e bs = ap (λ t. countb (λ b. t && has_key key b) bs) e

  -- After the read, the block of the key, if there is one, is in the stash.
  pub in_stash_alone :
      Serves
      → real ≡ true
      → (tree_count (has_key key) after_read.0 ≡ 0)
        × (countb (has_key key) after_read.1 ≡ to_nat (is_some (m key)))
  in_stash_alone s e =
      let r = after_read_lem s in
      let tree : tree_count (has_key key) after_read.0 ≡ 0 =
        tree_count-zero (has_key key) after_read.0 (λ n.
          sym (hits_by_key e (bucket_at after_read.0 n))
          ∙ no_hits (bucket_at after_read.0 n) (unhit n s)) in
      let rk = s.rewrites.key_real e in
      (tree, omega (arith, tree, r.moved.count key rk, s.holds.once key rk))

  -- What the access returns.
  pub answer :
      Serves
      → real ≡ true
      → (is_some (m key) ≡ true → after_scan.0 ≡ v)
        × (is_some (m key) ≡ false → after_scan.0 ≡ replicate o.value_size 0)
  answer s e =
      let c = after_scan_lem s in
      let all : countb is_hit after_read.1 ≡ to_nat (is_some (m key)) =
        hits_by_key e after_read.1 ∙ (in_stash_alone s e).1 in
      (
        λ i.
            let one : to_nat (is_some (m key)) ≡ 1 = rw i refl in
            c.some_hit (omega (arith, all, one)),
        λ i. let no_row : to_nat (is_some (m key)) ≡ 0 = rw i refl in c.none_hit (all ∙ no_row),
      )
