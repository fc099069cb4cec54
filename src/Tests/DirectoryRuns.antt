-- ===== src/Tests/DirectoryRuns.antt =====
-- `PackedDirectory` with three slots, and the tests without branches.
use tiered_omap.Prelude.{
  ℕ, suc, ◌+◌, ◌%◌, ◌<◌, ◌≡◌, ◌⊎◌, refl, true, false, List, [], ◌∷◌, ℤ, pos, negsuc, ◌==ℤ◌, ltb_ℤ,
  countb, ltb, arith,
}
use tiered_omap.Common.{invalid_key, invalid_leaf}
use tiered_omap.Common.Codec
use tiered_omap.Tee.Oblivious
use tiered_omap.Tee.Oblivious.{o_equal, o_less}
use tiered_omap.Tee.Oblivious.Bits.{o_equal_lem, o_less_lem}
use tiered_omap.Tee.Directory
use tiered_omap.Tee.Directory.{
  PackedDirectory, Entry, new_directory, insert, remove, lookup, entry_at, should_demote,
  find_demote_candidate,
}
use tiered_omap.Tee.Directory.Labels.{is_for}
use tiered_omap.Tee.Directory.Valid.{
  IsDirectory, Relabelled, new_directory-IsDirectory, insert_lem, remove_lem, lookup_and_update_lem,
}
use tiered_omap.Common.Codec.RoundTrip.{IsInt}
use tiered_omap.Prelude.{if◌then◌else◌, ◌&&◌, ◌-ℤ◌, ◌+ℤ◌}
use tiered_omap.Tee.Directory.{update_pos, bump_freq}
use tiered_omap.Tee.Directory.Updates.{update_pos_lem, bump_freq_lem}
use tiered_omap.Tee.Directory.Demote.{find_demote_candidate-first}

abbrev fresh : PackedDirectory
fresh = new_directory 3

two : PackedDirectory
two = (insert (insert fresh (pos 7) (pos 70)).0 (pos 9) (pos 90)).0

labels : List ℤ
labels = lookup two (pos 7) ∷ lookup two (pos 9) ∷ lookup two (pos 8) ∷ []

two_labels : labels ≡ pos 70 ∷ pos 90 ∷ negsuc 0 ∷ []
unfolding labels two new_directory insert lookup Directory.fill_slot Directory.find_label o_equal
    Oblivious.o_mov_i Codec.bits
two_labels = refl

insert_lem_example :
    ((fresh.count ≡ fresh.capacity) × (insert fresh (pos 7) (pos 70) ≡ (fresh, false)))
    ⊎ ((fresh.count < fresh.capacity)
        × ((insert fresh (pos 7) (pos 70)).1 ≡ true)
        × ((insert fresh (pos 7) (pos 70)).0.count ≡ suc fresh.count)
        × IsDirectory (insert fresh (pos 7) (pos 70)).0
        × Relabelled fresh (insert fresh (pos 7) (pos 70)).0 (pos 7) (pos 70))
unfolding new_directory countb
insert_lem_example =
    insert_lem fresh (new_directory-IsDirectory 3) (pos 7) (omega arith) refl (pos 70) refl

remove_lem_example :
    ((remove fresh (pos 7)).1 ≡ ltb 0 (countb (is_for (pos 7)) fresh.entries))
    × IsDirectory (remove fresh (pos 7)).0
    × Relabelled fresh (remove fresh (pos 7)).0 (pos 7) invalid_leaf
remove_lem_example = remove_lem fresh (new_directory-IsDirectory 3) (pos 7) (omega arith) refl

find_demote_candidate-first_example :
    ((find_demote_candidate fresh 1 (pos 5) (pos 2) (pos 4) ≡ invalid_key)
      × ((j : ℕ)
          → j < fresh.capacity
          → should_demote
              (pos 5)
              (pos 2)
              (pos 4)
              (entry_at fresh.entries ((1 + j) % fresh.capacity))
            ≡ false))
    ⊎ ((j : ℕ) × (j < fresh.capacity)
        × (should_demote (pos 5) (pos 2) (pos 4) (entry_at fresh.entries ((1 + j) % fresh.capacity))
            ≡ true)
        × (find_demote_candidate fresh 1 (pos 5) (pos 2) (pos 4)
            ≡ (entry_at fresh.entries ((1 + j) % fresh.capacity)).key)
        × ((m : ℕ)
            → m < j
            → should_demote
                (pos 5)
                (pos 2)
                (pos 4)
                (entry_at fresh.entries ((1 + m) % fresh.capacity))
              ≡ false))
find_demote_candidate-first_example =
    find_demote_candidate-first fresh 1 (pos 5) (pos 2) (pos 4) (new_directory-IsDirectory 3)

lookup_and_update_lem_example :
    Directory.lookup_and_update two (pos 7) (pos 71)
    ≡ ((Directory.update_pos two (pos 7) (pos 71)).0, lookup two (pos 7))
lookup_and_update_lem_example = lookup_and_update_lem two (pos 7) (pos 71)

o_equal_lem_example : o_equal (pos 7) (negsuc 6) ≡ (pos 7 ==ℤ negsuc 6)
o_equal_lem_example = o_equal_lem (pos 7) (negsuc 6) (omega arith) (omega arith)

o_less_lem_example : o_less (negsuc 6) (pos 7) ≡ ltb_ℤ (negsuc 6) (pos 7)
o_less_lem_example = o_less_lem (negsuc 6) (pos 7) (omega arith)

update_pos_lem_example :
    ((update_pos fresh (pos 7) (pos 71)).1 ≡ ltb 0 (countb (is_for (pos 7)) fresh.entries))
    × IsDirectory (update_pos fresh (pos 7) (pos 71)).0
    × ((k : ℤ)
        → IsInt k
        → lookup (update_pos fresh (pos 7) (pos 71)).0 k ≡ (
            if pos 7 ==ℤ k && (update_pos fresh (pos 7) (pos 71)).1
            then pos 71
            else lookup fresh k))
update_pos_lem_example =
    update_pos_lem fresh (pos 7) (pos 71) (new_directory-IsDirectory 3) (omega arith)

bump_freq_lem_example :
    IsDirectory (bump_freq fresh (pos 7) (pos 4))
    × ((k : ℤ) → lookup (bump_freq fresh (pos 7) (pos 4)) k ≡ lookup fresh k)
    × ((i : ℕ)
        → i < 3
        → IsInt ((entry_at fresh.entries i).freq_epoch -ℤ pos 4)
        → entry_at (bump_freq fresh (pos 7) (pos 4)).entries i ≡ (
            let e = entry_at fresh.entries i in
            if e.key ==ℤ pos 7
            then if ltb_ℤ e.freq_epoch (pos 4)
              then record e { freq_count = pos 1; freq_epoch = pos 4 }
              else record e { freq_count = e.freq_count +ℤ pos 1 }
            else e))
unfolding new_directory
bump_freq_lem_example =
    bump_freq_lem fresh (pos 7) (pos 4) (new_directory-IsDirectory 3) (omega arith)
