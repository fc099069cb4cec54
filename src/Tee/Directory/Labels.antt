-- ===== src/Tee/Directory/Labels.antt =====
-- What the loops of `PackedDirectory` do to the labels, where keys are compared as numbers.
use tiered_omap.Prelude.{
  ◌+◌, ◌≤◌, ◌≡◌, refl, ap, ◌∙◌, Bool, true, false, ◌||◌, List, [], ◌∷◌, ℤ, ◌==ℤ◌, ==ℤ_iff, ==ℤ_comm,
  All, countb, to_nat, if◌then◌else◌, ltb, arith, Bool-cases, inl, inr,
}
use tiered_omap.Common.{invalid_key}
use tiered_omap.Common.Codec.RoundTrip.{IsInt}
use tiered_omap.Tee.Oblivious.{o_mov_i, o_equal}
use tiered_omap.Tee.Oblivious.Bits.{o_equal_lem}
use tiered_omap.Tee.Directory.{Entry, find_label, set_labels, fill_slot, clear_entries, swap_labels}

abbrev pub Ints : List Entry → Type 0
Ints = All (λ (e : Entry). IsInt e.key)

abbrev pub is_for : ℤ → Entry → Bool
is_for k e = e.key ==ℤ k

-- A label that no entry overrides.
pub find_label-absent :
    (k result : ℤ) (entries : List Entry)
    → Ints entries
    → IsInt k
    → countb (is_for k) entries ≡ 0
    → find_label k result entries ≡ result
unfolding find_label o_mov_i countb
find_label-absent k result [] ints i z = refl
find_label-absent k result (e ∷ entries) ints i z = elim (Bool-cases (e.key ==ℤ k)) [
  | inl f ↦ absurd (let z' = rw f at z in omega (arith, z'))
  | inr f ↦
      let z' = rw f at z in
      rw (o_equal_lem e.key k ints.0 i, f)
        (find_label-absent k result entries ints.1 i (omega (arith, z')))
]

-- Where the key occurs, the first label does not count.
pub find_label-present :
    (k r r' : ℤ) (entries : List Entry)
    → Ints entries
    → IsInt k
    → 1 ≤ countb (is_for k) entries
    → find_label k r entries ≡ find_label k r' entries
unfolding find_label o_mov_i countb
find_label-present k r r' [] ints i le = absurd (omega arith)
find_label-present k r r' (e ∷ entries) ints i le = elim (Bool-cases (e.key ==ℤ k)) [
  | inl f ↦ rw (o_equal_lem e.key k ints.0 i, f) refl
  | inr f ↦
      let le' = rw f at le in
      rw (o_equal_lem e.key k ints.0 i, f)
        (find_label-present k r r' entries ints.1 i (omega (arith, le')))
]

-- `lookup_and_update` is `lookup` and `update_pos` at once.
pub swap_labels_lem :
    (key new_pos old : ℤ) (found : Bool) (entries : List Entry)
    → (swap_labels key new_pos old entries).0 ≡ (set_labels key new_pos found entries).0
      × ((swap_labels key new_pos old entries).1 ≡ find_label key old entries)
unfolding swap_labels set_labels find_label o_mov_i
swap_labels_lem key new_pos old found [] = (refl, refl)
swap_labels_lem key new_pos old found (e ∷ entries) =
    let h =
      swap_labels_lem key new_pos (if o_equal e.key key then e.pos_label else old)
        (found || o_equal e.key key) entries in
    (
      ap (λ es. record e { pos_label = if o_equal e.key key then new_pos else e.pos_label } ∷ es)
          h.0,
      h.1,
    )

module _ (key label : ℤ) (int : IsInt key) (real : (key ==ℤ invalid_key) ≡ false) where
  real_test : o_equal key invalid_key ≡ false
  real_test = o_equal_lem key invalid_key int (omega arith) ∙ real

  -- Once a slot is filled, the loop changes nothing.
  fill_slot-done : (entries : List Entry) → fill_slot key label true entries ≡ (entries, true)
  unfolding fill_slot o_mov_i
  fill_slot-done [] = refl
  fill_slot-done (e ∷ entries) = rw (real_test, fill_slot-done entries) refl

  pub fill_slot-full :
      (entries : List Entry)
      → Ints entries
      → countb (is_for invalid_key) entries ≡ 0
      → fill_slot key label false entries ≡ (entries, false)
  unfolding fill_slot o_mov_i countb
  fill_slot-full [] ints z = refl
  fill_slot-full (e ∷ entries) ints z = elim (Bool-cases (e.key ==ℤ invalid_key)) [
    | inl f ↦ absurd (let z' = rw f at z in omega (arith, z'))
    | inr f ↦
        let z' = rw f at z in
        rw
          (
            real_test,
            o_equal_lem e.key invalid_key ints.0 (omega arith),
            f,
            fill_slot-full entries ints.1 (omega (arith, z')),
          )
          refl
  ]

  -- With an empty slot, the key is inserted there: its entry is the only new one.
  pub fill_slot-count :
      (entries : List Entry) (k : ℤ)
      → Ints entries
      → 1 ≤ countb (is_for invalid_key) entries
      → ((fill_slot key label false entries).1 ≡ true)
        × Ints (fill_slot key label false entries).0
        × (countb (is_for k) (fill_slot key label false entries).0 + to_nat (invalid_key ==ℤ k)
            ≡ countb (is_for k) entries + to_nat (key ==ℤ k))
  unfolding fill_slot o_mov_i countb
  fill_slot-count [] k ints le = absurd (omega arith)
  fill_slot-count (e ∷ entries) k ints le = elim (Bool-cases (e.key ==ℤ invalid_key)) [
    | inl f ↦
        let c = (==ℤ_iff e.key invalid_key).0 f in
        rw
          (
            real_test,
            o_equal_lem e.key invalid_key ints.0 (omega arith),
            f,
            fill_slot-done entries,
            c,
          )
          (refl, (int, ints.1), omega arith)
    | inr f ↦
        let le' = rw f at le in
        let h = fill_slot-count entries k ints.1 (omega (arith, le')) in
        rw (real_test, o_equal_lem e.key invalid_key ints.0 (omega arith), f)
          (h.0, (ints.0, h.1), omega (arith, h.2))
  ]

  pub fill_slot-label :
      (entries : List Entry) (k r : ℤ)
      → Ints entries
      → IsInt k
      → (k ==ℤ invalid_key) ≡ false
      → countb (is_for key) entries ≡ 0
      → 1 ≤ countb (is_for invalid_key) entries
      → find_label k r (fill_slot key label false entries).0
        ≡ (if key ==ℤ k then label else find_label k r entries)
  unfolding fill_slot find_label o_mov_i countb
  fill_slot-label [] k r ints i rk z le = absurd (omega arith)
  fill_slot-label (e ∷ entries) k r ints i rk z le = elim (Bool-cases (e.key ==ℤ invalid_key)) [
    | inl f ↦
        let c = (==ℤ_iff e.key invalid_key).0 f in
        let z' : countb (is_for key) entries ≡ 0 = omega (arith, z) in
        let other : o_equal e.key k ≡ false =
          rw c (o_equal_lem invalid_key k (omega arith) i ∙ ==ℤ_comm invalid_key k ∙ rk) in
        rw
          (
            real_test,
            o_equal_lem e.key invalid_key ints.0 (omega arith),
            f,
            fill_slot-done entries,
            o_equal_lem key k int i,
            other,
          )
          (elim (Bool-cases (key ==ℤ k)) [
            | inl g ↦
                let d = (==ℤ_iff key k).0 g in
                rw g (find_label-absent k label entries ints.1 i (rw d at z'))
            | inr g ↦ rw g refl
          ])
    | inr f ↦
        let le' = rw f at le in
        let h = λ (r' : ℤ).
          fill_slot-label entries k r' ints.1 i rk (omega (arith, z)) (omega (arith, le')) in
        rw (real_test, o_equal_lem e.key invalid_key ints.0 (omega arith), f) (h _)
  ]

  pub clear_entries-flag :
      (entries : List Entry) (removed : Bool)
      → Ints entries
      → (clear_entries key removed entries).1 ≡ (removed || ltb 0 (countb (is_for key) entries))
  unfolding clear_entries countb
  clear_entries-flag [] removed ints = ground arith
  clear_entries-flag (e ∷ entries) removed ints = elim (Bool-cases (e.key ==ℤ key)) [
    | inl f ↦
        rw (real_test, o_equal_lem e.key key ints.0 int, f)
          (clear_entries-flag entries (removed || true) ints.1 ∙ ground arith)
    | inr f ↦
        rw (real_test, o_equal_lem e.key key ints.0 int, f)
          (clear_entries-flag entries (removed || false) ints.1 ∙ ground arith)
  ]

  pub clear_entries-Ints :
      (entries : List Entry) (removed : Bool)
      → Ints entries
      → Ints (clear_entries key removed entries).0
  unfolding clear_entries o_mov_i
  clear_entries-Ints [] removed ints = tt
  clear_entries-Ints (e ∷ entries) removed ints = elim (Bool-cases (e.key ==ℤ key)) [
    | inl f ↦
        rw (real_test, o_equal_lem e.key key ints.0 int, f)
          (omega arith, clear_entries-Ints entries (removed || true) ints.1)
    | inr f ↦
        rw (real_test, o_equal_lem e.key key ints.0 int, f)
          (ints.0, clear_entries-Ints entries (removed || false) ints.1)
  ]

  -- The loop of `remove` leaves no entry of the key, and makes each an empty slot.
  pub clear_entries-count :
      (entries : List Entry) (removed : Bool) (k : ℤ)
      → Ints entries
      → countb (is_for k) (clear_entries key removed entries).0
          + (if key ==ℤ k then countb (is_for key) entries else 0)
        ≡ countb (is_for k) entries + (if invalid_key ==ℤ k then countb (is_for key) entries else 0)
  unfolding clear_entries o_mov_i countb
  clear_entries-count [] removed k ints = ground arith
  clear_entries-count (e ∷ entries) removed k ints = elim (Bool-cases (e.key ==ℤ key)) [
    | inl f ↦
        let c = (==ℤ_iff e.key key).0 f in
        let h = clear_entries-count entries (removed || true) k ints.1 in
        rw (real_test, o_equal_lem e.key key ints.0 int, f, c) (ground (arith, h))
    | inr f ↦
        let h = clear_entries-count entries (removed || false) k ints.1 in
        rw (real_test, o_equal_lem e.key key ints.0 int, f) (ground (arith, h))
  ]

  pub clear_entries-label :
      (entries : List Entry) (removed : Bool) (k r : ℤ)
      → Ints entries
      → IsInt k
      → (k ==ℤ invalid_key) ≡ false
      → find_label k r (clear_entries key removed entries).0
        ≡ (if key ==ℤ k then r else find_label k r entries)
  unfolding clear_entries find_label o_mov_i
  clear_entries-label [] removed k r ints i rk = elim (Bool-cases (key ==ℤ k)) [
    | inl g ↦ rw g refl
    | inr g ↦ rw g refl
  ]
  clear_entries-label (e ∷ entries) removed k r ints i rk =
      let other : o_equal invalid_key k ≡ false =
        o_equal_lem invalid_key k (omega arith) i ∙ ==ℤ_comm invalid_key k ∙ rk in
      elim (Bool-cases (e.key ==ℤ key)) [
        | inl f ↦
            let c = (==ℤ_iff e.key key).0 f in
            rw (real_test, o_equal_lem e.key key ints.0 int, f, other)
              (clear_entries-label entries (removed || true) k r ints.1 i rk
                ∙ elim (Bool-cases (key ==ℤ k)) [
                  | inl g ↦ rw g refl
                  | inr g ↦
                      let g' : o_equal e.key k ≡ false = o_equal_lem e.key k ints.0 i ∙ rw c g in
                      rw (g, g') refl
                ])
        | inr f ↦
            rw (real_test, o_equal_lem e.key key ints.0 int, f)
              (clear_entries-label entries (removed || false) k
                  (if o_equal e.key k then e.pos_label else r) ints.1 i rk
                ∙ elim (Bool-cases (key ==ℤ k)) [
                  | inl g ↦
                      let d = (==ℤ_iff key k).0 g in
                      let g' : o_equal e.key k ≡ false =
                        o_equal_lem e.key k ints.0 i ∙ rw (← d) f in
                      rw (g, g') refl
                  | inr g ↦ rw g refl
                ])
      ]
