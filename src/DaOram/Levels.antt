-- ===== src/DaOram/Levels.antt =====
-- src/oram/da_oram.cpp: the sizes of the recursive position maps that the constructor of `DAOram`
-- computes, and the keys that `traverse_pos_maps` looks up in them.
pub mod Ranges
use tiered_omap.Prelude.{
  ℕ, zero, suc, ◌+◌, ◌-◌, ◌/◌, Option, none, some, List, [], ◌∷◌, leb, if◌then◌else◌, length,
}

abbrev pub groups_of : ℕ → ℕ → ℕ
groups_of num_ic cur_size = (cur_size + num_ic - 1) / num_ic

-- `xs.back()`, or a default if there is none.
abbrev pub last_or : ℕ → List ℕ → ℕ
last_or x [] = x
last_or x (y ∷ ys) = last_or y ys

-- The loop of the constructor, on fuel: `none` if it is still running.
unfoldable pub level_sizes : ℕ → ℕ → ℕ → ℕ → Option (List ℕ)
level_sizes num_ic on_chip_mem zero cur_size = none
level_sizes num_ic on_chip_mem (suc fuel) cur_size =
    let groups = groups_of num_ic cur_size in
    let rest = level_sizes num_ic on_chip_mem fuel groups in
    if leb groups on_chip_mem
    then some []
    else elim rest [ none ↦ none | some sizes ↦ some (groups ∷ sizes) ]

-- The number of counter blocks on the chip.
unfoldable pub on_chip_groups : ℕ → ℕ → List ℕ → ℕ
on_chip_groups num_ic num_data sizes = groups_of num_ic (last_or num_data sizes)

-- The keys at each level, bottom to top.
unfoldable pub pm_keys : ℕ → ℕ → ℕ → List ℕ
pm_keys num_ic zero cur = []
pm_keys num_ic (suc levels) cur = cur / num_ic ∷ pm_keys num_ic levels (cur / num_ic)

-- The block on the chip for a key.
unfoldable pub on_chip_group : ℕ → ℕ → ℕ → ℕ
unfolding pm_keys
on_chip_group num_ic levels data_key = last_or data_key (pm_keys num_ic levels data_key) / num_ic
