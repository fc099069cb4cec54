-- ===== src/Tee/Directory/Demote.antt =====
-- Which entry `find_demote_candidate` finds.
use tiered_omap.Prelude.{
  ℕ, zero, suc, ◌+◌, ◌%◌, ◌<◌, ◌≡◌, ◌⊎◌, refl, sym, ◌∙◌, subst, Bool, true, false, ◌&&◌, List, [],
  ◌∷◌, ℤ, ◌==ℤ◌, arith, Bool-cases, inl, inr,
}
use tiered_omap.Common.{invalid_key}
use tiered_omap.Common.Codec.RoundTrip.{IsInt}
use tiered_omap.Tee.Oblivious.{o_mov_i}
use tiered_omap.Tee.Oblivious.Bits.{o_equal_lem}
use tiered_omap.Tee.Directory.{
  Entry, PackedDirectory, entry_at, should_demote, find_from, find_demote_candidate,
}
use tiered_omap.Tee.Directory.Labels.{Ints}
use tiered_omap.Tee.Directory.Valid.{IsDirectory}

pub entry_at-IsInt : (entries : List Entry) (i : ℕ) → Ints entries → IsInt (entry_at entries i).key
unfolding entry_at
entry_at-IsInt [] i ints = omega arith
entry_at-IsInt (e ∷ entries) zero ints = ints.0
entry_at-IsInt (e ∷ entries) (suc i) ints = entry_at-IsInt entries i ints.1

module _ (d : PackedDirectory) (ints : Ints d.entries) (should : Entry → Bool) (scan_idx : ℕ)
    (reals : (e : Entry) → IsInt e.key → should e ≡ true → (e.key ==ℤ invalid_key) ≡ false) where
  -- The entry that the loop reads at a step.
  abbrev pub scanned : ℕ → Entry
  scanned i = entry_at d.entries ((scan_idx + i) % d.capacity)

  scanned-IsInt : (i : ℕ) → IsInt (scanned i).key
  scanned-IsInt i = entry_at-IsInt d.entries ((scan_idx + i) % d.capacity) ints

  -- A key that was found stays.
  find_from-done :
      (n i : ℕ) (result : ℤ)
      → IsInt result
      → (result ==ℤ invalid_key) ≡ false
      → find_from d should scan_idx i n result ≡ result
  unfolding find_from o_mov_i
  find_from-done zero i result int real = refl
  find_from-done (suc n) i result int real =
      let z = o_equal_lem result invalid_key int (omega arith) ∙ real in
      let w : should (scanned i) && false ≡ false = ground arith in
      rw (z, w) (find_from-done n (suc i) result int real)

  pub find_from-first :
      (n i : ℕ)
      → ((find_from d should scan_idx i n invalid_key ≡ invalid_key)
          × ((j : ℕ) → j < n → should (scanned (i + j)) ≡ false))
        ⊎ ((j : ℕ) × (j < n)
            × (should (scanned (i + j)) ≡ true)
            × (find_from d should scan_idx i n invalid_key ≡ (scanned (i + j)).key)
            × ((m : ℕ) → m < j → should (scanned (i + m)) ≡ false))
  unfolding find_from o_mov_i
  find_from-first zero i = inl (refl, λ j lt. absurd (omega arith))
  find_from-first (suc n) i =
      let z = o_equal_lem invalid_key invalid_key (omega arith) (omega arith) in
      let here : i + 0 ≡ i = omega arith in
      elim (Bool-cases (should (scanned i))) [
        | inl e ↦
            let real = reals (scanned i) (scanned-IsInt i) e in
            inr (
              0,
              omega arith,
              rw here e,
              rw (here, e, z) (find_from-done n (suc i) (scanned i).key (scanned-IsInt i) real),
              λ m lt. absurd (omega arith),
            )
        | inr e ↦ elim (find_from-first n (suc i)) [
          | inl (r, none) ↦
              inl
                (rw e r, λ j lt. later (λ k. should (scanned k) ≡ false) j n e (λ k l. none k l) lt)
          | inr (j, lt, y, r, before) ↦
              let s : i + suc j ≡ suc i + j = omega arith in
              inr (
                suc j,
                omega arith,
                rw s y,
                rw (e, s) r,
                λ m l. later (λ k. should (scanned k) ≡ false) m j e (λ k l'. before k l') l,
              )
        ]
      ]
    where
      later :
          (P : ℕ → Type 0) (m n : ℕ)
          → P i
          → ((k : ℕ) → k < n → P (suc i + k))
          → m < suc n
          → P (i + m)
      later P zero n p q l = subst P (omega arith) p
      later P (suc m) n p q l = subst P (omega arith) (q m (omega arith))

-- In a valid directory, `find_demote_candidate` returns the key of the first entry, from the scan index
-- on around the array, that is real and stale or rarely used; and the reserved key if there is none.
pub find_demote_candidate-first :
    (d : PackedDirectory) (scan_idx : ℕ) (epoch windows threshold : ℤ)
    → IsDirectory d
    → ((find_demote_candidate d scan_idx epoch windows threshold ≡ invalid_key)
        × ((j : ℕ)
            → j < d.capacity
            → should_demote epoch windows threshold
                (entry_at d.entries ((scan_idx + j) % d.capacity))
              ≡ false))
      ⊎ ((j : ℕ) × (j < d.capacity)
          × (should_demote epoch windows threshold
                (entry_at d.entries ((scan_idx + j) % d.capacity))
              ≡ true)
          × (find_demote_candidate d scan_idx epoch windows threshold
              ≡ (entry_at d.entries ((scan_idx + j) % d.capacity)).key)
          × ((m : ℕ)
              → m < j
              → should_demote epoch windows threshold
                  (entry_at d.entries ((scan_idx + m) % d.capacity))
                ≡ false))
unfolding find_demote_candidate should_demote
find_demote_candidate-first d scan_idx epoch windows threshold v =
    let z : (j : ℕ) → 0 + j ≡ j = λ j. omega arith in
    simp z at (
      find_from-first d v.ints (should_demote epoch windows threshold) scan_idx
        (reals epoch windows threshold) d.capacity 0)
  where
    reals :
        (epoch windows threshold : ℤ) (e : Entry)
        → IsInt e.key
        → should_demote epoch windows threshold e ≡ true
        → (e.key ==ℤ invalid_key) ≡ false
    reals epoch windows threshold e int s =
        sym (o_equal_lem e.key invalid_key int (omega arith)) ∙ ground (arith, s)
