-- ===== src/Tee/Enclave/Extract.antt =====
-- The loop of `EnclaveOram::extract_from_stash`: the row of a key leaves the table.
use tiered_omap.Prelude.{
  ℕ, suc, ◌+◌, ◌<◌, ◌≡◌, refl, ap, ◌∙◌, true, false, none, some, List, [], ◌∷◌, ℤ, ◌==◌, ◌==ℤ◌,
  ==ℤ_iff, ==ℤ_comm, if◌then◌else◌, length, All, countb, to_nat, arith, Bool-cases, inl, inr,
}
use tiered_omap.Common.{Block, invalid_key, is_dummy}
use tiered_omap.Common.Codec.RoundTrip.{IsInt}
use tiered_omap.Oram.Crypt.{has_key}
use tiered_omap.Tee.Oblivious.{o_mov_i}
use tiered_omap.Tee.Oblivious.Bits.{o_equal_lem}
use tiered_omap.Tee.Oblivious.Moves.{o_mov_bytes_lem}
use tiered_omap.Tee.Enclave.Access.{extract_matches}
use tiered_omap.Tee.Enclave.Slots.{Entry, cleared, dummy-has_key}
use tiered_omap.Tee.Enclave.Table.{LeafTable, Agrees}

-- `erase(key)`
abbrev pub without : LeafTable → ℤ → LeafTable
without m key k = if k ==ℤ key then none else m k

-- A real block of another key keeps its row.
pub Agrees-without :
    (h : ℕ) (m : LeafTable) (key : ℤ) (b : Block)
    → has_key key b ≡ false
    → Agrees h m b
    → Agrees h (without m key) b
Agrees-without h m key b e a d = rw e (a d)

-- The count of a key over one block more, whose key is the one that leaves.
count_here :
    (key k : ℤ) (sb : Block) (n n' : ℕ)
    → (k ==ℤ invalid_key) ≡ false
    → has_key key sb ≡ true
    → n' ≡ (if k ==ℤ key then 0 else n)
    → to_nat (has_key k (cleared sb)) + n' ≡ (if k ==ℤ key then 0 else to_nat (has_key k sb) + n)
count_here key k sb n n' rk t e =
    let gone : to_nat (has_key k (cleared sb)) ≡ 0 =
      rw (dummy-has_key k (cleared sb) rk refl) refl in
    elim (Bool-cases (k ==ℤ key)) [
      | inl f ↦ rw f (omega (arith, gone, (rw f at e)))
      | inr f ↦
          let same : has_key k sb ≡ (key ==ℤ k) = ap (λ j. j ==ℤ k) ((==ℤ_iff sb.key key).0 t) in
          let other : to_nat (has_key k sb) ≡ 0 = rw (same, ==ℤ_comm key k, f) refl in
          rw f (omega (arith, gone, other, (rw f at e)))
    ]

-- The same for a block of another key.
count_there :
    (key k : ℤ) (sb : Block) (n n' : ℕ)
    → has_key key sb ≡ false
    → n' ≡ (if k ==ℤ key then 0 else n)
    → to_nat (has_key k sb) + n' ≡ (if k ==ℤ key then 0 else to_nat (has_key k sb) + n)
count_there key k sb n n' f e = elim (Bool-cases (k ==ℤ key)) [
  | inl g ↦
      let other : to_nat (has_key k sb) ≡ 0 = rw ((==ℤ_iff k key).0 g, f) refl in
      rw g (omega (arith, other, (rw g at e)))
  | inr g ↦ rw g (omega (arith, (rw g at e)))
]

module _ (h value_size : ℕ) (key : ℤ) (m : LeafTable) (v : Block) where
  -- All blocks of the key are `v`.
  pub record Row : Type 0 where
    pub key_int : IsInt key
    pub key_real : (key ==ℤ invalid_key) ≡ false
    pub only : (b : Block) → has_key key b ≡ true → m b.key ≡ some (b.leaf, b.value) → b ≡ v

  pub record Extracted (result : Block) (stash : List Block) (result' : Block) (stash' : List Block)
      : Type 0 where
    pub entries : All (Entry value_size (Agrees h (without m key))) stash'
    pub count :
        (k : ℤ)
        → (k ==ℤ invalid_key) ≡ false
        → countb (has_key k) stash' ≡ (if k ==ℤ key then 0 else countb (has_key k) stash)
    pub same_length : length stash' ≡ length stash
    pub none_found : countb (has_key key) stash ≡ 0 → result' ≡ result
    pub some_found : 0 < countb (has_key key) stash → result' ≡ v

  key_blocks : (b : Block) → Row → has_key key b ≡ true → is_dummy b ≡ false
  key_blocks b w e = elim (Bool-cases (is_dummy b)) [
    | inl d ↦ absurd (let z = dummy-has_key key b w.key_real d in cc)
    | inr d ↦ d
  ]

  pub extract_matches_lem :
      (result : Block) (stash : List Block)
      → Row
      → length result.value ≡ value_size
      → All (Entry value_size (Agrees h m)) stash
      → (let r = extract_matches key result stash in Extracted result stash r.0 r.1)
  unfolding extract_matches o_mov_i countb
  extract_matches_lem result [] w l e = record {
    entries = tt;
    count = λ k rk. elim (Bool-cases (k ==ℤ key)) [ inl e ↦ rw e refl | inr e ↦ rw e refl ];
    same_length = refl;
    none_found = λ _. refl;
    some_found = λ z. absurd (omega (arith, z));
  }
  extract_matches_lem result (sb ∷ stash) w l e =
      let eq = o_equal_lem sb.key key e.0.0.1 w.key_int in
      let inv = o_equal_lem sb.key invalid_key e.0.0.1 (omega arith) in
      let len : length result.value ≡ length sb.value = omega (arith, l, e.0.0.0) in
      elim (Bool-cases (has_key key sb)) [
        | inl t ↦
            let one : to_nat (has_key key sb) ≡ 1 = rw t refl in
            let d = key_blocks sb w t in
            let row = e.0.1 d in
            let rest = extract_matches_lem sb stash w e.0.0.0 e.1 in
            rw (eq, inv, t, d, o_mov_bytes_lem true result.value sb.value len)
              (record {
                entries = (
                  ((e.0.0.0, omega arith, e.0.0.2), λ z. absurd (ground (arith, z))),
                  rest.entries,
                );
                count = λ k rk.
                    count_here key k sb (countb (has_key k) stash)
                      (countb (has_key k) (extract_matches key sb stash).1) rk t (rest.count k rk);
                same_length = ap suc rest.same_length;
                none_found = λ z. absurd (omega (arith, z, one));
                some_found = λ z. elim (Bool-cases (countb (has_key key) stash == 0)) [
                  | inl c ↦ rest.none_found (ground (arith, c)) ∙ w.only sb t row.0
                  | inr c ↦ rest.some_found (ground (arith, c))
                ];
              })
        | inr f ↦
            let none_here : to_nat (has_key key sb) ≡ 0 = rw f refl in
            let rest = extract_matches_lem result stash w l e.1 in
            rw (eq, f, o_mov_bytes_lem false result.value sb.value len)
              (record {
                entries = ((e.0.0, Agrees-without h m key sb f e.0.1), rest.entries);
                count = λ k rk.
                    count_there key k sb (countb (has_key k) stash)
                      (countb (has_key k) (extract_matches key result stash).1) f (rest.count k rk);
                same_length = ap suc rest.same_length;
                none_found = λ z. rest.none_found (omega (arith, z, none_here));
                some_found = λ z. rest.some_found (omega (arith, z, none_here));
              })
      ]
