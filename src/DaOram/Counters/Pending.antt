-- ===== src/DaOram/Counters/Pending.antt =====
-- How many offsets of a counter block await their reset, and how the loops change that number.
use tiered_omap.Prelude.{
  ℕ, zero, suc, ◌+◌, ◌≤◌, ◌<◌, ◌≡◌, refl, Bool, true, false, ◌&&◌, none, some, List, [], ◌∷◌, ◌==◌,
  if◌then◌else◌, length, get_or, set, to_nat, arith, Bool-cases, inl, inr,
}
use tiered_omap.DaOram.Counters.{mark_others, first_pending}

pub get_or-set_self : (xs : List ℕ) (i v : ℕ) → i < length xs → get_or (set xs i v) i 0 ≡ v
get_or-set_self [] i v h = absurd (omega arith)
get_or-set_self (x ∷ xs) zero v h = refl
get_or-set_self (x ∷ xs) (suc i) v h = get_or-set_self xs i v (omega arith)

pub get_or-set :
    (xs : List ℕ) (i j v : ℕ) → (i == j) ≡ false → get_or (set xs i v) j 0 ≡ get_or xs j 0
get_or-set [] i j v h = refl
get_or-set (x ∷ xs) zero zero v h = absurd (ground arith)
get_or-set (x ∷ xs) zero (suc j) v h = refl
get_or-set (x ∷ xs) (suc i) zero v h = refl
get_or-set (x ∷ xs) (suc i) (suc j) v h = get_or-set xs i j v (ground arith)

pub length-mark_others : (o i : ℕ) (bs : List ℕ) → length (mark_others o i bs) ≡ length bs
unfolding mark_others
length-mark_others o i [] = refl
length-mark_others o i (b ∷ bs) = omega (arith, length-mark_others o (i + 1) bs)

get_or-mark_others :
    (o i : ℕ) (bs : List ℕ) (j : ℕ)
    → j < length bs
    → get_or (mark_others o i bs) j 0 ≡ (if i + j == o then get_or bs j 0 else 1)
unfolding mark_others
get_or-mark_others o i [] j h = absurd (omega arith)
get_or-mark_others o i (b ∷ bs) zero h = let z : i + 0 ≡ i = omega arith in rw z refl
get_or-mark_others o i (b ∷ bs) (suc j) h =
    let z : i + suc j ≡ i + 1 + j = omega arith in
    rw z (get_or-mark_others o (i + 1) bs j (omega arith))

to_nat-le : (b : Bool) → to_nat b ≤ 1
to_nat-le true = omega arith
to_nat-le false = omega arith

module _ (managed : ℕ → Bool) where
  -- The offsets from `i` on that are marked and stand for a key.
  unfoldable pub pending : ℕ → List ℕ → ℕ
  pending i [] = 0
  pending i (b ∷ bs) = to_nat (b == 1 && managed i) + pending (i + 1) bs

  pending-set :
      (i : ℕ) (bs : List ℕ) (j : ℕ)
      → j < length bs
      → (get_or bs j 0 == 1) ≡ true
      → managed (i + j) ≡ true
      → pending i (set bs j 0) + 1 ≡ pending i bs
  unfolding pending
  pending-set i [] j h e m = absurd (omega arith)
  pending-set i (b ∷ bs) zero h e m = let z : i + 0 ≡ i = omega arith in ground (arith, rw z at m)
  pending-set i (b ∷ bs) (suc j) h e m =
      let z : i + suc j ≡ i + 1 + j = omega arith in
      omega (arith, pending-set (i + 1) bs j (omega arith) e (rw z at m))

  pending-le : (i : ℕ) (bs : List ℕ) → pending i bs ≤ length bs
  unfolding pending
  pending-le i [] = omega arith
  pending-le i (b ∷ bs) = ground (arith, pending-le (i + 1) bs)

  pending-mark_others :
      (i : ℕ) (bs : List ℕ) (j : ℕ)
      → j < length bs
      → (get_or bs j 0 == 1) ≡ false
      → pending i (mark_others (i + j) i bs) + 1 ≤ length bs
  unfolding pending mark_others
  pending-mark_others i [] j h e = absurd (omega arith)
  pending-mark_others i (b ∷ bs) zero h e =
      let le = pending-le (i + 1) (mark_others (i + 0) (i + 1) bs) in
      let n = length-mark_others (i + 0) (i + 1) bs in ground (arith, le, n)
  pending-mark_others i (b ∷ bs) (suc j) h e =
      let z : i + suc j ≡ i + 1 + j = omega arith in
      let ih = rw (← z) at (pending-mark_others (i + 1) bs j (omega arith) e) in
      omega (arith, ih, to_nat-le ((if i == i + suc j then b else 1) == 1 && managed i))

  pub pending-none : (i : ℕ) (bs : List ℕ) → first_pending managed i bs ≡ none → pending i bs ≡ 0
  unfolding pending first_pending
  pending-none i [] h = refl
  pending-none i (b ∷ bs) h = elim (Bool-cases (b == 1 && managed i)) [
    | inl e ↦ absurd (let f = rw e at h in cc)
    | inr e ↦ let ih = pending-none (i + 1) bs (rw e at h) in rw e (omega (arith, ih))
  ]

  first_pending-some :
      (i : ℕ) (bs : List ℕ) (k : ℕ)
      → first_pending managed i bs ≡ some k
      → (j : ℕ) × (k ≡ i + j) × (j < length bs) × ((get_or bs j 0 == 1) ≡ true) × (managed k ≡ true)
  unfolding first_pending
  first_pending-some i [] k h = cc
  first_pending-some i (b ∷ bs) k h = elim (Bool-cases (b == 1 && managed i)) [
    | inl e ↦
        let f : i ≡ k = (let f = rw e at h in cc) in
        (0, omega arith, omega arith, ground arith, rw (← f) (ground arith))
    | inr e ↦
        let (j, s, l, b1, m) = first_pending-some (i + 1) bs k (rw e at h) in
        (suc j, omega arith, omega arith, b1, m)
  ]

  -- If none is pending, no offset that stands for a key is marked.
  pending-zero :
      (i : ℕ) (bs : List ℕ) (j : ℕ)
      → pending i bs ≡ 0
      → managed (i + j) ≡ true
      → (get_or bs j 0 == 1) ≡ false
  unfolding pending
  pending-zero i [] j h m = refl
  pending-zero i (b ∷ bs) zero h m = let z : i + 0 ≡ i = omega arith in ground (arith, rw z at m)
  pending-zero i (b ∷ bs) (suc j) h m =
      let z : i + suc j ≡ i + 1 + j = omega arith in
      pending-zero (i + 1) bs j (omega arith) (rw z at m)

  -- The same for a whole block, from offset 0.
  module _ (bs : List ℕ) (j : ℕ) where
    from_zero : 0 + j ≡ j
    from_zero = omega arith

    pub pending-cleared :
        j < length bs
        → (get_or bs j 0 == 1) ≡ true
        → managed j ≡ true
        → pending 0 (set bs j 0) + 1 ≡ pending 0 bs
    pending-cleared h e m = pending-set 0 bs j h e (rw from_zero m)

    pub pending-marked :
        j < length bs
        → (get_or bs j 0 == 1) ≡ false
        → pending 0 (mark_others j 0 bs) + 1 ≤ length bs
    pending-marked h e = rw from_zero at (pending-mark_others 0 bs j h e)

    pub unmarked : pending 0 bs ≡ 0 → managed j ≡ true → (get_or bs j 0 == 1) ≡ false
    unmarked z m = pending-zero 0 bs j z (rw from_zero m)

pub get_or-marked :
    (o : ℕ) (bs : List ℕ) (j : ℕ)
    → j < length bs
    → get_or (mark_others o 0 bs) j 0 ≡ (if j == o then get_or bs j 0 else 1)
get_or-marked o bs j h = let z : 0 + j ≡ j = omega arith in rw z at (get_or-mark_others o 0 bs j h)

pub first_pending-found :
    (managed : ℕ → Bool) (bs : List ℕ) (k : ℕ)
    → first_pending managed 0 bs ≡ some k
    → (k < length bs) × ((get_or bs k 0 == 1) ≡ true) × (managed k ≡ true)
first_pending-found managed bs k h =
    let (j, s, l, b, m) = first_pending-some managed 0 bs k h in
    let z : k ≡ j = omega (arith, s) in (rw z l, rw z b, m)
