-- ===== src/Tee/Enclave/Table.antt =====
-- The enclave's ORAM as a table from keys to leaves and values.
use tiered_omap.Prelude.{
  ℕ, suc, ◌+◌, ◌-◌, ◌^◌, ◌≤◌, ◌≡◌, false, Option, some, ℤ, ◌==ℤ◌, if◌then◌else◌, length, All,
  countb, to_nat,
}
use tiered_omap.Common.{Bytes, Block, invalid_key, is_dummy}
use tiered_omap.Storage.{bucket_at}
use tiered_omap.Storage.Paths.{IsLeaf}
use tiered_omap.Storage.Write.{tree_count}
use tiered_omap.Oram.Crypt.{has_key}
use tiered_omap.Oram.Valid.{is_some}
use tiered_omap.Tee.Enclave.{EnclaveOram}
use tiered_omap.Tee.Enclave.Paths.{IsTree}
use tiered_omap.Tee.Enclave.Slots.{Entry}
use tiered_omap.Tee.Enclave.Nodes.{InBucket}

abbrev pub LeafTable : Type 0
LeafTable = ℤ → Option (ℤ × Bytes)

-- `m[key] = (leaf, value)`
abbrev pub assign : LeafTable → ℤ → ℤ × Bytes → LeafTable
assign m key row k = if k ==ℤ key then some row else m k

-- A block that is real has the leaf and the value of its key, and its leaf is one of the tree.
abbrev pub Agrees : ℕ → LeafTable → Block → Type 0
Agrees h m b = is_dummy b ≡ false → (m b.key ≡ some (b.leaf, b.value)) × IsLeaf h b.leaf

abbrev pub blocks_of : ℤ → EnclaveOram → ℕ
blocks_of k o = tree_count (has_key k) o.tree + countb (has_key k) o.stash

-- The blocks in the stash and in the tree are the entries of the table, each once; a block in the
-- tree stands on the path of its leaf; all values have one size.
pub record Holds (h : ℕ) (o : EnclaveOram) (m : LeafTable) : Type 0 where
  pub shape : IsTree h o
  pub nodes : length o.tree ≡ 2 ^ suc h - 1
  pub in_stash : All (Entry o.value_size (Agrees h m)) o.stash
  pub in_tree : (n : ℕ) → InBucket o o.value_size (Agrees h m) n (bucket_at o.tree n)
  pub once : (k : ℤ) → (k ==ℤ invalid_key) ≡ false → blocks_of k o ≡ to_nat (is_some (m k))
  pub room : o.stash_max ≤ length o.stash

-- A state holds a table, and the size of its values is that of another state.
abbrev pub HoldsAs : ℕ → EnclaveOram → LeafTable → EnclaveOram → Type 0
HoldsAs h o m o' = Holds h o' m × (o'.value_size ≡ o.value_size)
