-- ===== src/DaOram/Levels/Ranges.antt =====
-- The constructor's loop ends, the blocks on the chip are few enough, and every key that an access
-- looks up is in range.
use native.Mathlib.Nat.{div-lt_iff_lt-mul, lt-div-mul-add, suc-mul}
use tiered_omap.Prelude.{
  ℕ, zero, suc, ◌+◌, ◌-◌, ◌*◌, ◌/◌, ◌≤◌, ◌<◌, ◌≡◌, refl, some, List, [], ◌∷◌, leb, ltb, Bool, true,
  false, ◌&&◌, length, arith, Bool-cases, inl, inr,
}
use tiered_omap.DaOram.Levels.{groups_of, level_sizes, on_chip_groups, pm_keys, on_chip_group}

-- Two lists of one length, the first below the second at each place.
unfoldable pub all_below : List ℕ → List ℕ → Bool
all_below [] [] = true
all_below [] (y ∷ ys) = false
all_below (x ∷ xs) [] = false
all_below (x ∷ xs) (y ∷ ys) = ltb x y && all_below xs ys

module _ (num_ic : ℕ) (two : 2 ≤ num_ic) where
  grow : (c : ℕ) → c + 2 + num_ic - 1 < (c + 2) * num_ic
  grow zero = omega arith
  grow (suc c) =
      let e : (suc c + 2) * num_ic ≡ (c + 2) * num_ic + num_ic =
        let z : suc c + 2 ≡ suc (c + 2) = omega arith in rw z (suc-mul (c + 2) num_ic) in
      omega (arith, grow c, e)

  groups_of-lt : (cur : ℕ) → 2 ≤ groups_of num_ic cur → groups_of num_ic cur < cur
  groups_of-lt zero h =
      let f =
        (div-lt_iff_lt-mul {k = num_ic} {x = zero + num_ic - 1} {y = 2} (omega arith)).1
          (omega arith) in
      absurd (omega (arith, f, h))
  groups_of-lt (suc zero) h =
      let f =
        (div-lt_iff_lt-mul {k = num_ic} {x = suc zero + num_ic - 1} {y = 2} (omega arith)).1
          (omega arith) in
      absurd (omega (arith, f, h))
  groups_of-lt (suc (suc c)) h =
      (div-lt_iff_lt-mul {k = num_ic} {x = suc (suc c) + num_ic - 1} {y = suc (suc c)}
          (omega arith)).1
        (let z : suc (suc c) ≡ c + 2 = omega arith in rw z (grow c))

  div-groups_of : (key cur : ℕ) → key < cur → key / num_ic < groups_of num_ic cur
  div-groups_of key cur h =
      let l = lt-div-mul-add {a = cur + num_ic - 1} {b = num_ic} (omega arith) in
      (div-lt_iff_lt-mul {k = num_ic} {x = key} {y = groups_of num_ic cur} (omega arith)).1
        (omega (arith, l, h))

  module _ (on_chip_mem : ℕ) (one : 1 ≤ on_chip_mem) where
    -- The result of the loop from `cur` on, and what a key below `cur` finds there.
    record Sized (fuel cur key : ℕ) : Type 0 where
      sizes : List ℕ
      ends : level_sizes num_ic on_chip_mem fuel cur ≡ some sizes
      few : on_chip_groups num_ic cur sizes ≤ on_chip_mem
      below : all_below (pm_keys num_ic (length sizes) key) sizes ≡ true
      group : on_chip_group num_ic (length sizes) key < on_chip_groups num_ic cur sizes

    level_sizes-Sized : (fuel cur key : ℕ) → cur < fuel → key < cur → Sized fuel cur key
    unfolding level_sizes on_chip_groups on_chip_group pm_keys all_below
    level_sizes-Sized zero cur key h k = absurd (omega arith)
    level_sizes-Sized (suc fuel) cur key h k =
        let below = div-groups_of key cur k in
        elim (Bool-cases (leb (groups_of num_ic cur) on_chip_mem)) [
          | inl e ↦ record {
            sizes = [];
            ends = rw e refl;
            few = ground (arith, e);
            below = refl;
            group = below;
          }
          | inr e ↦
              let g : groups_of num_ic cur < cur = groups_of-lt cur (ground (arith, e, one)) in
              let ih =
                level_sizes-Sized fuel (groups_of num_ic cur) (key / num_ic) (omega (arith, g))
                  below in
              record {
                sizes = groups_of num_ic cur ∷ ih.sizes;
                ends = rw (e, ih.ends) refl;
                few = ih.few;
                below = ground (arith, below, ih.below);
                group = ih.group;
              }
        ]

-- With at least two offsets in a block and room for one block on the chip, the constructor's loop
-- ends, for `num_data` with fuel num_data + 1; the blocks on the chip are then no more than
-- `on_chip_mem`; and for a key of the data, the key that an access looks up at each level is below
-- the size of the level, and the block on the chip is one of those that there are.
pub level_sizes-ranges :
    (num_ic on_chip_mem num_data data_key : ℕ)
    → 2 ≤ num_ic
    → 1 ≤ on_chip_mem
    → data_key < num_data
    → (sizes : List ℕ) × (level_sizes num_ic on_chip_mem (suc num_data) num_data ≡ some sizes)
      × (on_chip_groups num_ic num_data sizes ≤ on_chip_mem)
      × (all_below (pm_keys num_ic (length sizes) data_key) sizes ≡ true)
      × (on_chip_group num_ic (length sizes) data_key < on_chip_groups num_ic num_data sizes)
level_sizes-ranges num_ic on_chip_mem num_data data_key two one k =
    let s =
      level_sizes-Sized num_ic two on_chip_mem one (suc num_data) num_data data_key (omega arith)
        k in
    (s.sizes, s.ends, s.few, s.below, s.group)
