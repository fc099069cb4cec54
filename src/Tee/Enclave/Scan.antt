-- ===== src/Tee/Enclave/Scan.antt =====
-- The loop of `access_or_dummy` over the stash.
use tiered_omap.Prelude.{
  ℕ, suc, ◌<◌, ◌≡◌, refl, ap, ◌∙◌, subst, Bool, true, false, ◌&&◌, some, List, [], ◌∷◌, ℤ, ◌==◌,
  ◌==ℤ◌, ==ℤ_iff, if◌then◌else◌, length, All, countb, to_nat, arith, Bool-cases, inl, inr,
}
use tiered_omap.Common.{Bytes, Block, invalid_key, is_dummy}
use tiered_omap.Common.Codec.RoundTrip.{IsInt}
use tiered_omap.Storage.Paths.{IsLeaf}
use tiered_omap.Oram.Crypt.{has_key}
use tiered_omap.Tee.Oblivious.{o_mov_i}
use tiered_omap.Tee.Oblivious.Bits.{o_equal_lem}
use tiered_omap.Tee.Oblivious.Moves.{o_mov_bytes_lem}
use tiered_omap.Tee.Enclave.Access.{scan_stash}
use tiered_omap.Tee.Enclave.Slots.{Entry}
use tiered_omap.Tee.Enclave.Table.{LeafTable, Agrees}

module _ (h value_size : ℕ) (key new_leaf : ℤ) (real has_new : Bool) (padded_new : Bytes)
    (m m' : LeafTable) where
  -- The blocks that the loop changes.
  abbrev pub hit : Block → Bool
  hit b = real && has_key key b

  -- The table after the loop: the blocks that are hit have the new row, the others their old one.
  pub record Rewrites (v : Bytes) : Type 0 where
    pub key_int : IsInt key
    pub key_real : real ≡ true → (key ==ℤ invalid_key) ≡ false
    pub leaf_int : IsInt new_leaf
    pub leaf_valid : IsLeaf h new_leaf
    pub padded : length padded_new ≡ value_size
    pub old : (b : Block) → hit b ≡ true → m b.key ≡ some (b.leaf, b.value) → b.value ≡ v
    pub new :
        (b : Block)
        → hit b ≡ true
        → m b.key ≡ some (b.leaf, b.value)
        → m' b.key ≡ some (new_leaf, if has_new then padded_new else b.value)
    pub others : (b : Block) → hit b ≡ false → m' b.key ≡ m b.key

  pub record Scanned (v result : Bytes) (stash : List Block) (result' : Bytes) (stash' : List Block)
      : Type 0 where
    pub entries : All (Entry value_size (Agrees h m')) stash'
    pub count : (k : ℤ) → countb (has_key k) stash' ≡ countb (has_key k) stash
    pub same_length : length stash' ≡ length stash
    pub none_hit : countb hit stash ≡ 0 → result' ≡ result
    pub some_hit : 0 < countb hit stash → result' ≡ v

  hit-real : (v : Bytes) (b : Block) → Rewrites v → hit b ≡ true → is_dummy b ≡ false
  hit-real v b w e = elim (Bool-cases (is_dummy b)) [
    | inl d ↦
        let e' : (b.key ==ℤ key) ≡ true = ground (arith, e) in
        let same : b.key ≡ key = (==ℤ_iff b.key key).0 e' in
        absurd (
          let z = w.key_real (ground (arith, e)) in
          let y = subst (λ k. (k ==ℤ invalid_key) ≡ true) same d in cc)
    | inr d ↦ d
  ]

  pub scan_stash_lem :
      (v result : Bytes) (stash : List Block)
      → Rewrites v
      → length result ≡ value_size
      → All (Entry value_size (Agrees h m)) stash
      → (let r = scan_stash key new_leaf real has_new padded_new result stash in
          Scanned v result stash r.0 r.1)
  unfolding scan_stash o_mov_i countb
  scan_stash_lem v result [] w l e = record {
    entries = tt;
    count = λ k. refl;
    same_length = refl;
    none_hit = λ _. refl;
    some_hit = λ z. absurd (omega (arith, z));
  }
  scan_stash_lem v result (sb ∷ stash) w l e =
      let eq = o_equal_lem sb.key key e.0.0.1 w.key_int in
      let old_len : length result ≡ length sb.value = omega (arith, l, e.0.0.0) in
      let new_len : length sb.value ≡ length padded_new = omega (arith, e.0.0.0, w.padded) in
      elim (Bool-cases (hit sb)) [
        | inl t ↦
            let one : to_nat (hit sb) ≡ 1 = rw t refl in
            let written_length : length (if has_new then padded_new else sb.value) ≡ value_size =
              ground (arith, w.padded, e.0.0.0) in
            let row = e.0.1 (hit-real v sb w t) in
            let rest = scan_stash_lem v sb.value stash w e.0.0.0 e.1 in
            rw
              (
                eq,
                t,
                o_mov_bytes_lem true result sb.value old_len,
                o_mov_bytes_lem has_new sb.value padded_new new_len,
              )
              (record {
                entries = (
                  ((written_length, e.0.0.1, w.leaf_int), λ _. (w.new sb t row.0, w.leaf_valid)),
                  rest.entries,
                );
                count = λ k. omega (arith, rest.count k);
                same_length = ap suc rest.same_length;
                none_hit = λ z. absurd (omega (arith, z, one));
                some_hit = λ z. elim (Bool-cases (countb hit stash == 0)) [
                  | inl c ↦ rest.none_hit (ground (arith, c)) ∙ w.old sb t row.0
                  | inr c ↦ rest.some_hit (ground (arith, c))
                ];
              })
        | inr f ↦
            let zero_hit : to_nat (hit sb) ≡ 0 = rw f refl in
            let rest = scan_stash_lem v result stash w l e.1 in
            rw
              (
                eq,
                f,
                o_mov_bytes_lem false result sb.value old_len,
                o_mov_bytes_lem false sb.value padded_new new_len,
              )
              (record {
                entries = (
                  (e.0.0, λ d. let row = e.0.1 d in (w.others sb f ∙ row.0, row.1)),
                  rest.entries,
                );
                count = λ k. omega (arith, rest.count k);
                same_length = ap suc rest.same_length;
                none_hit = λ z. rest.none_hit (omega (arith, z, zero_hit));
                some_hit = λ z. rest.some_hit (omega (arith, z, zero_hit));
              })
      ]
