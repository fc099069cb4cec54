-- ===== src/Tee/Directory.antt =====
-- src/tee/packed_directory.cpp, `PackedDirectory`: a table of keys and labels in a flat array. Each
-- operation passes over the whole array; a loop over the array is a recursion on the list of entries.
pub mod Labels
pub mod Valid
pub mod Demote
pub mod Updates
use tiered_omap.Prelude.{
  ℕ, zero, suc, ◌+◌, ◌-◌, ◌%◌, Bool, true, false, not, ◌&&◌, ◌||◌, List, [], ◌∷◌, map, ℤ, pos, ◌+ℤ◌,
  ◌-ℤ◌, to_nat, replicate, if◌then◌else◌,
}
use tiered_omap.Common.{invalid_key, invalid_leaf}
use tiered_omap.Tee.Oblivious.{o_mov_i, o_equal, o_less}

pub record Entry : Type 0 where
  pub key : ℤ
  pub pos_label : ℤ
  pub freq_count : ℤ
  pub freq_epoch : ℤ

-- `Entry{}`
abbrev pub empty_entry : Entry
empty_entry = record {
  key = invalid_key;
  pos_label = invalid_leaf;
  freq_count = pos 0;
  freq_epoch = pos 0;
}

pub record PackedDirectory : Type 0 where
  pub capacity : ℕ
  pub count : ℕ
  pub entries : List Entry

unfoldable pub new_directory : ℕ → PackedDirectory
new_directory capacity = record {
  capacity = capacity;
  count = 0;
  entries = replicate capacity empty_entry;
}

-- The loop of `lookup`, with the label so far.
unfoldable pub find_label : ℤ → ℤ → List Entry → ℤ
unfolding o_mov_i
find_label key result [] = result
find_label key result (e ∷ entries) =
    find_label key (o_mov_i (o_equal e.key key) result e.pos_label) entries

unfoldable pub lookup : PackedDirectory → ℤ → ℤ
unfolding find_label
lookup d key = find_label key invalid_leaf d.entries

-- The loop of `update_pos`, with `found`.
unfoldable pub set_labels : ℤ → ℤ → Bool → List Entry → List Entry × Bool
unfolding o_mov_i
set_labels key new_pos found [] = ([], found)
set_labels key new_pos found (e ∷ entries) =
    let is_match = o_equal e.key key in
    let rest = set_labels key new_pos (found || is_match) entries in
    (record e { pos_label = o_mov_i is_match e.pos_label new_pos } ∷ rest.0, rest.1)

unfoldable pub update_pos : PackedDirectory → ℤ → ℤ → PackedDirectory × Bool
unfolding set_labels
update_pos d key new_pos =
    let r = set_labels key new_pos false d.entries in (record d { entries = r.0 }, r.1)

-- The loop of `insert`, with `inserted`.
unfoldable pub fill_slot : ℤ → ℤ → Bool → List Entry → List Entry × Bool
unfolding o_mov_i
fill_slot key pos_label inserted [] = ([], inserted)
fill_slot key pos_label inserted (e ∷ entries) =
    let real = not (o_equal key invalid_key) in
    let is_slot = real && not inserted && o_equal e.key invalid_key in
    let rest = fill_slot key pos_label (inserted || is_slot) entries in
    (
      record e {
        key = o_mov_i is_slot e.key key;
        pos_label = o_mov_i is_slot e.pos_label pos_label;
      }
          ∷ rest.0,
      rest.1,
    )

unfoldable pub insert : PackedDirectory → ℤ → ℤ → PackedDirectory × Bool
unfolding fill_slot
insert d key pos_label =
    let r = fill_slot key pos_label false d.entries in
    (record d { entries = r.0; count = d.count + to_nat r.1 }, r.1)

-- The loop of `remove`, with `removed`.
unfoldable pub clear_entries : ℤ → Bool → List Entry → List Entry × Bool
unfolding o_mov_i
clear_entries key removed [] = ([], removed)
clear_entries key removed (e ∷ entries) =
    let real = not (o_equal key invalid_key) in
    let is_match = real && o_equal e.key key in
    let rest = clear_entries key (removed || is_match) entries in
    (
      record {
        key = o_mov_i is_match e.key invalid_key;
        pos_label = o_mov_i is_match e.pos_label invalid_leaf;
        freq_count = o_mov_i is_match e.freq_count (pos 0);
        freq_epoch = o_mov_i is_match e.freq_epoch (pos 0);
      }
          ∷ rest.0,
      rest.1,
    )

unfoldable pub remove : PackedDirectory → ℤ → PackedDirectory × Bool
unfolding clear_entries
remove d key =
    let r = clear_entries key false d.entries in
    (record d { entries = r.0; count = d.count - to_nat r.1 }, r.1)

-- The loop of `lookup_and_update`, with the old label so far.
unfoldable pub swap_labels : ℤ → ℤ → ℤ → List Entry → List Entry × ℤ
unfolding o_mov_i
swap_labels key new_pos old_pos [] = ([], old_pos)
swap_labels key new_pos old_pos (e ∷ entries) =
    let is_match = o_equal e.key key in
    let rest = swap_labels key new_pos (o_mov_i is_match old_pos e.pos_label) entries in
    (record e { pos_label = o_mov_i is_match e.pos_label new_pos } ∷ rest.0, rest.1)

unfoldable pub lookup_and_update : PackedDirectory → ℤ → ℤ → PackedDirectory × ℤ
unfolding swap_labels
lookup_and_update d key new_pos =
    let r = swap_labels key new_pos invalid_leaf d.entries in (record d { entries = r.0 }, r.1)

-- The body of the loop of `bump_freq`.
unfoldable pub bump_entry : ℤ → ℤ → Entry → Entry
unfolding o_mov_i
bump_entry key current_epoch e =
    let is_match = o_equal e.key key in
    let stale = is_match && o_less e.freq_epoch current_epoch in
    let fresh = is_match && not stale in
    let count = o_mov_i stale e.freq_count (pos 1) in
    record e {
      freq_count = o_mov_i fresh count (count +ℤ pos 1);
      freq_epoch = o_mov_i stale e.freq_epoch current_epoch;
    }

unfoldable pub bump_freq : PackedDirectory → ℤ → ℤ → PackedDirectory
unfolding bump_entry
bump_freq d key current_epoch = record d { entries = map (bump_entry key current_epoch) d.entries }

-- `entries_[idx]`
unfoldable pub entry_at : List Entry → ℕ → Entry
entry_at [] idx = empty_entry
entry_at (e ∷ entries) zero = e
entry_at (e ∷ entries) (suc idx) = entry_at entries idx

-- Whether the loop of `find_demote_candidate` takes an entry.
unfoldable pub should_demote : ℤ → ℤ → ℤ → Entry → Bool
should_demote current_epoch staleness_windows demote_threshold e =
    let is_real = not (o_equal e.key invalid_key) in
    let is_stale =
      is_real
      && (o_less e.freq_epoch (current_epoch -ℤ staleness_windows +ℤ pos 1)
          || o_equal e.freq_epoch (pos 0)) in
    let is_cold = is_real && o_less e.freq_count demote_threshold in is_stale || is_cold

-- The loop of `find_demote_candidate` from `i` on, over `n` more entries.
unfoldable pub find_from : PackedDirectory → (Entry → Bool) → ℕ → ℕ → ℕ → ℤ → ℤ
unfolding o_mov_i entry_at
find_from d should scan_idx i zero result = result
find_from d should scan_idx i (suc n) result =
    let e = entry_at d.entries ((scan_idx + i) % d.capacity) in
    let not_found = o_equal result invalid_key in
    find_from d should scan_idx (suc i) n (o_mov_i (should e && not_found) result e.key)

unfoldable pub find_demote_candidate : PackedDirectory → ℕ → ℤ → ℤ → ℤ → ℤ
unfolding should_demote find_from
find_demote_candidate d scan_idx current_epoch staleness_windows demote_threshold =
    find_from d (should_demote current_epoch staleness_windows demote_threshold) scan_idx 0
      d.capacity invalid_key
