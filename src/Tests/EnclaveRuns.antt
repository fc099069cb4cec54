-- ===== src/Tests/EnclaveRuns.antt =====
-- `EnclaveOram` with three buckets, and `o_compact`.
use tiered_omap.Prelude.{
  ℕ, ◌≡◌, refl, sym, Bool, not, Option, none, some, List, [], ◌∷◌, ◌++◌, ℤ, pos, ◌==◌, ◌==ℤ◌,
  length, elem, arith, if◌then◌else◌, Bool-cases, inl, inr,
}
use tiered_omap.Common.{pad_bytes, Bytes, Result, ok, throw, ◌>>=◌, Yields}
use tiered_omap.Common
use tiered_omap.Oram
use tiered_omap.Oram.Init.Leaves
use tiered_omap.Oram.Init.Leaves.{LeavesValid}
use tiered_omap.Tee.Oblivious.{o_compact}
use tiered_omap.Tee.Oblivious.Compact.{filter, o_compact_lem}
use tiered_omap.Tee.Enclave.{
  EnclaveOram, new_enclave, path_nodes, path_contains_oblivious, read_path_to_stash,
}
use tiered_omap.Tee.Enclave.Paths.{path_contains_oblivious-elem}
use tiered_omap.Tee.Enclave.Access.{access, dummy_access, extract_from_stash, add_to_stash}
use tiered_omap.Tee.Enclave.Init
use tiered_omap.Tee.Enclave.Init.{init}
use tiered_omap.Tee.Enclave.Init.Rows.{with_entries}
use tiered_omap.Tee.Enclave.Init.Load.{ValidEntries}
use tiered_omap.Tee.Enclave.Init.Start.{height, init_lem}
use tiered_omap.Tee.Enclave.Table.{LeafTable, Holds, HoldsAs, assign}
use tiered_omap.Tee.Enclave.Rows.{accessed, value_of}
use tiered_omap.Tee.Enclave.Refines.{access_lem}
use tiered_omap.Tee.Enclave.Evict.{evict_one_path}
use tiered_omap.Tee.Enclave.Extract.{without}
use tiered_omap.Tee.Enclave.Fetch.{row_block}
use tiered_omap.Tee.Enclave.PutBack.{rewrite_lem}
use tiered_omap.Tee.Enclave.Dummy.{dummy_access_lem}
use tiered_omap.Tests.Hosts.{mirror_host}

abbrev entries : List (ℤ × Bytes)
entries = (pos 10, 1 ∷ []) ∷ (pos 20, 2 ∷ 3 ∷ []) ∷ []

abbrev preset : List (ℤ × ℤ)
preset = (pos 20, pos 1) ∷ []

empty : EnclaveOram
empty = new_enclave 4 2 2 3

started : EnclaveOram × List (ℤ × ℤ)
started = init mirror_host empty entries preset

abbrev table : LeafTable
table = with_entries 2 started.1 entries (λ _. none)

preset-LeavesValid : LeavesValid (height 4) preset
unfolding Oram.find_leaf Common.ceil_log2
preset-LeavesValid k leaf e = elim (Bool-cases (pos 20 ==ℤ k)) [
  | inl f ↦
      let z : ◌≡◌ {A = Option ℤ} (some (pos 1)) (some leaf) = rw f at e in
      (1, sym (let y = z in cc), omega arith)
  | inr f ↦ absurd (let z : ◌≡◌ {A = Option ℤ} none (some leaf) = rw f at e in cc)
]

entries-ValidEntries : ValidEntries 2 entries
entries-ValidEntries = (
  (refl, (refl, tt), (refl, tt, tt)),
  ((omega arith, omega arith), ((omega arith, omega arith), tt)),
)

started-Holds : Holds (height 4) started.0 table
unfolding started empty
started-Holds =
    (init_lem mirror_host 4 2 2 3 entries preset (unfold Common.ceil_log2 in omega arith)
      preset-LeavesValid entries-ValidEntries).0

init_lem_example : HoldsAs (height 4) empty table started.0
unfolding started empty
init_lem_example =
    init_lem mirror_host 4 2 2 3 entries preset (unfold Common.ceil_log2 in omega arith)
      preset-LeavesValid entries-ValidEntries

row_of_10 : (row : ℤ × Bytes) → table (pos 10) ≡ some row → row.0 ≡ pos 0
unfolding started empty init new_enclave Leaves.table_of Init.leaf_of Common.ceil_log2
row_of_10 row e =
    let z : ◌≡◌ {A = Option (ℤ × Bytes)} (some (pos 0, 1 ∷ 0 ∷ [])) (some row) = e in
    sym (let y = z in cc)

row_of_20 : (row : ℤ × Bytes) → table (pos 20) ≡ some row → row.0 ≡ pos 1
unfolding started empty init new_enclave Leaves.table_of Init.leaf_of Common.ceil_log2
row_of_20 row e =
    let z : ◌≡◌ {A = Option (ℤ × Bytes)} (some (pos 1, 2 ∷ 3 ∷ [])) (some row) = e in
    sym (let y = z in cc)

access_lem_example :
    Yields (access mirror_host started.0 (pos 10) (pos 0) (pos 1) (some (9 ∷ []))) (λ r.
      (r.1 ≡ value_of 2 table (pos 10))
      × HoldsAs (height 4) started.0 (accessed 2 table (pos 10) (pos 1) (some (9 ∷ []))) r.0)
unfolding started empty init new_enclave
access_lem_example =
    access_lem mirror_host (height 4) started.0 table (pos 10) (pos 0) (pos 1) (some (9 ∷ []))
      started-Holds (omega arith) refl row_of_10 (0, refl, unfold Common.ceil_log2 in omega arith)
      (1, refl, unfold Common.ceil_log2 in omega arith) (omega arith)

rewrite_lem_example :
    (let r = extract_from_stash (read_path_to_stash started.0 (pos 1)) (pos 20) in
      (r.1 ≡ row_block 2 (pos 20) (table (pos 20)))
      × Yields
          (evict_one_path r.0 (pos 1) >>= λ o'. ok (add_to_stash o' (pos 20) (pos 0) (8 ∷ [])))
          (HoldsAs
            (height 4)
            started.0
            (assign (without table (pos 20)) (pos 20) (pos 0, pad_bytes (8 ∷ []) 2))))
unfolding started empty init new_enclave
rewrite_lem_example =
    rewrite_lem (height 4) started.0 table (pos 20) (pos 1) (pos 0) (8 ∷ []) started-Holds
      (omega arith) refl row_of_20 (1, refl, unfold Common.ceil_log2 in omega arith)
      (0, refl, unfold Common.ceil_log2 in omega arith) (omega arith)

dummy_access_lem_example :
    Yields (dummy_access mirror_host started.0) (HoldsAs (height 4) started.0 table)
dummy_access_lem_example = dummy_access_lem mirror_host (height 4) started.0 table started-Holds

path_contains_oblivious-elem_example :
    path_contains_oblivious started.0 (pos 1) 2 ≡ elem 2 (path_nodes started.0 (pos 1))
path_contains_oblivious-elem_example =
    path_contains_oblivious-elem (height 4) started.0 (pos 1) 2 started-Holds.shape
      (1, refl, unfold Common.ceil_log2 in omega arith) (unfold Common.ceil_log2 in omega arith)

-- A write of the key 10 and a read of it along its new path, with a dummy access between them.
replies : Result (List Bytes)
replies = do
  (o₁, before) ← access mirror_host started.0 (pos 10) (pos 0) (pos 1) (some (9 ∷ []))
  o₂ ← dummy_access mirror_host o₁
  (o₃, after) ← access mirror_host o₂ (pos 10) (pos 1) (pos 0) none
  (o₄, missing) ← access mirror_host o₃ (pos 30) (pos 1) (pos 0) none
  ok (before ∷ after ∷ missing ∷ [])

replies_lem : replies ≡ ok ((1 ∷ 0 ∷ []) ∷ (9 ∷ 0 ∷ []) ∷ (0 ∷ 0 ∷ []) ∷ [])
unfolding replies started empty init new_enclave access dummy_access Common.ceil_log2
replies_lem = refl

-- Zeros count as invalid.
swap_numbers : Bool → ℕ → ℕ → ℕ × ℕ
swap_numbers c x y = if c then (y, x) else (x, y)

compacted :
    o_compact (λ x. not (x == 0)) swap_numbers (0 ∷ 3 ∷ 0 ∷ 1 ∷ 2 ∷ [])
    ≡ (3 ∷ 1 ∷ 2 ∷ 0 ∷ 0 ∷ [], 3)
unfolding o_compact swap_numbers
compacted = refl

o_compact_lem_example : o_compact (λ x. not (x == 0)) swap_numbers (0 ∷ 3 ∷ 0 ∷ 1 ∷ 2 ∷ []) ≡ (
  filter (λ x. not (x == 0)) (0 ∷ 3 ∷ 0 ∷ 1 ∷ 2 ∷ [])
      ++ filter (λ x. not (not (x == 0))) (0 ∷ 3 ∷ 0 ∷ 1 ∷ 2 ∷ []),
  length (filter (λ x. not (x == 0)) (0 ∷ 3 ∷ 0 ∷ 1 ∷ 2 ∷ [])),
)
unfolding swap_numbers
o_compact_lem_example =
    o_compact_lem {0, 0} (λ x. not (x == 0)) swap_numbers (λ _. Unit) (0 ∷ 3 ∷ 0 ∷ 1 ∷ 2 ∷ [])
      (λ c x y _ _. refl) (tt, (tt, (tt, (tt, (tt, tt)))))
