-- ===== src/Tests/ListMap.antt =====
-- A map for the tests: the list of its entries, the last one first. Its operations fill the record.
use tiered_omap.Prelude.{ℕ, List, [], ◌∷◌, ℤ, pos, ◌==ℤ◌, if◌then◌else◌}
use tiered_omap.Common.{Bytes, ok, no_bandwidth}
use tiered_omap.Omap.{Omap}

abbrev pub Entries : Type 0
Entries = List (ℤ × Bytes)

abbrev value_at : Entries → ℤ → Bytes
value_at [] k = []
value_at ((key, v) ∷ entries) k = if key ==ℤ k then v else value_at entries k

abbrev pub list_map : Omap Entries
list_map = record {
  search = λ s key. ok (s, value_at s key);
  insert = λ s key v. ok ((key, v) ∷ s);
  remove = λ s key. ok ((key, []) ∷ s);
  dummy_access = λ s. ok s;
  partial_dummy_access = λ s. ok s;
  init = λ s entries. ok entries;
  last_stats = λ s. no_bandwidth;
  total_stats = λ s. no_bandwidth;
  piggyback_scan_step = λ s. ok (s, pos 0, []);
}

abbrev pub make_list : ℕ → Entries
make_list cap = []
