-- ===== src/Tests/CounterRuns.antt =====
-- A counter block of four offsets whose counters go up to 3, for the keys 8 to 11, and the position
-- maps for 100 keys.
use tiered_omap.Prelude.{
  ℕ, List, [], ◌∷◌, length, some, ◌≤◌, ◌<◌, true, ◌+◌, ◌≡◌, refl, ◌⊎◌, false, ◌==◌, ◌==ℤ◌, pos,
  if◌then◌else◌, arith,
}
use tiered_omap.DaOram.Counters.{
  CounterBlock, CounterParams, Reset, count_key, new_block, encode, decode,
}
use tiered_omap.DaOram.Counters.Positions.{Paced, group_of}
use tiered_omap.DaOram.Counters.Keys.{
  managed_by, leaf_of, counted, count_key-Paced, count_key-leaf, new_block-Paced,
}
use tiered_omap.DaOram.Counters.Pending.{pending}
use tiered_omap.DaOram.Counters.RoundTrip.{decode-encode}
use tiered_omap.DaOram.Levels.{level_sizes, on_chip_groups, pm_keys, on_chip_group}
use tiered_omap.DaOram.Levels.Ranges.{all_below, level_sizes-ranges}
use tiered_omap.Tests.Hosts.{mirror_host}

abbrev params : CounterParams
params = record { num_ic = 4; ic_max = 3; prf_seed = 77; hash = λ x. x }

abbrev fresh : CounterBlock
fresh = new_block 4

fresh-Paced : Paced params (managed_by 8 12) 2 fresh
fresh-Paced = new_block-Paced params (managed_by 8 12) (omega arith)

count_key-Paced_example :
    Paced params (managed_by 8 12) 2 (counted mirror_host params fresh 1 8 12 16 0).0
    × (((counted mirror_host params fresh 1 8 12 16 0).0.gc ≡ fresh.gc)
        ⊎ (pending (managed_by 8 12) 0 fresh.backup ≡ 0))
count_key-Paced_example =
    count_key-Paced mirror_host params fresh 1 8 12 16 0 fresh-Paced (omega arith) (omega arith)
      refl

count_key-leaf_example :
    let (cb', (cur, new), reset) = counted mirror_host params fresh 1 8 12 16 0 in
    (cur ≡ leaf_of params fresh 8 16 1)
    × (pos (leaf_of params cb' 8 16 2) ≡ (
        if 1 == 2
        then pos new
        else if reset.key ==ℤ pos (8 + 2)
        then reset.new_leaf
        else pos (leaf_of params fresh 8 16 2)))
    × (((reset.key ==ℤ pos (8 + 2)) ≡ false) ⊎ (reset.cur_leaf ≡ leaf_of params fresh 8 16 2))
count_key-leaf_example =
    count_key-leaf mirror_host params fresh 1 8 12 16 0 fresh-Paced (omega arith) (omega arith) refl
      2 (omega arith) refl

level_sizes-ranges_example :
    (sizes : List ℕ) × (level_sizes 4 2 101 100 ≡ some sizes)
    × (on_chip_groups 4 100 sizes ≤ 2)
    × (all_below (pm_keys 4 (length sizes) 57) sizes ≡ true)
    × (on_chip_group 4 (length sizes) 57 < on_chip_groups 4 100 sizes)
level_sizes-ranges_example = level_sizes-ranges 4 2 100 57 (omega arith) (omega arith) (omega arith)

sizes_of_100 : level_sizes 4 2 101 100 ≡ some (25 ∷ 7 ∷ [])
unfolding level_sizes
sizes_of_100 = refl

abbrev block : CounterBlock
block = record { gc = 300; ic = 2 ∷ 0 ∷ []; backup = 0 ∷ 1 ∷ [] }

decode-encode_example : decode (encode block) 2 ≡ block
decode-encode_example = decode-encode block 2 refl refl (omega arith)

-- With more than ic_max + 1 offsets the group counter can go on while a reset is pending: here on
-- each of two accesses to offset 0, and offset 2 goes from group 0 to group 1 without a reset.
abbrev eager : CounterParams
eager = record { num_ic = 4; ic_max = 1; prf_seed = 77; hash = λ x. x }

once : CounterBlock × (ℕ × ℕ) × Reset
once = counted mirror_host eager fresh 0 8 12 16 0

twice : CounterBlock × (ℕ × ℕ) × Reset
unfolding once
twice = counted mirror_host eager once.0 0 8 12 16 0

overtaken : (group_of once.0 2 ≡ 0) × (group_of twice.0 2 ≡ 1) × (twice.2.key ≡ pos 9)
unfolding twice count_key new_block
overtaken = (refl, refl, refl)
