-- ===== src/Tee/Enclave/Paths.antt =====
-- The fixed number of steps by which `path_contains_oblivious` looks for a node is membership in the
-- path, whose nodes are those of `BinaryTreeStorage`.
use native.Mathlib.Nat.{pow-suc}
use tiered_omap.Prelude.{
  ℕ, zero, suc, ◌+◌, ◌-◌, ◌^◌, ◌≤◌, ◌<◌, ◌≡◌, refl, true, ℤ, pos, ◌==◌, elem, arith, Bool-cases,
  inl, inr,
}
use tiered_omap.Storage.{parent, leaf_node, climb}
use tiered_omap.Storage.Paths.{level_nodes, climb-level_nodes, lt-pow, IsLeaf}
use tiered_omap.Tee.Oblivious.Bits.{o_equal_lem}
use tiered_omap.Tee.Enclave.{
  EnclaveOram, path_from, path_nodes, contains_from, path_contains_oblivious,
}

-- A tree of height `h`, whose nodes are in the range of an `int`.
pub record IsTree (h : ℕ) (o : EnclaveOram) : Type 0 where
  pub levels : o.level ≡ suc h
  pub leaves : o.leaf_range ≡ 2 ^ h
  pub small : 2 ^ suc h ≤ 2147483648

-- Above the root, the loop finds the root alone.
contains_from-root :
    (steps node : ℕ)
    → node < 2147483648
    → contains_from steps (pos 0) node ≡ true
    → (0 == node) ≡ true
unfolding contains_from
contains_from-root zero node small e = absurd (ground (arith, e))
contains_from-root (suc steps) node small e = elim (Bool-cases (0 == node)) [
  | inl f ↦ f
  | inr f ↦
      contains_from-root steps node small
        (rw (o_equal_lem (pos 0) (pos node) (omega arith) small, f) at e)
]

contains_from-elem :
    (steps c node : ℕ)
    → c < 2147483648
    → node < 2147483648
    → contains_from steps (pos c) node ≡ elem node (climb steps c)
unfolding contains_from climb
contains_from-elem zero c node lc ln = refl
contains_from-elem (suc steps) zero node lc ln = elim (Bool-cases (0 == node)) [
  | inl e ↦ rw (o_equal_lem (pos 0) (pos node) (omega arith) ln) (ground (arith, e))
  | inr e ↦ elim (Bool-cases (contains_from steps (pos 0) node)) [
    | inl f ↦ absurd (let z = contains_from-root steps node ln f in cc)
    | inr f ↦ rw (o_equal_lem (pos 0) (pos node) (omega arith) ln, f) (ground (arith, e))
  ]
]
contains_from-elem (suc steps) (suc c) node lc ln =
    let ih = contains_from-elem steps (parent (suc c)) node (omega arith) ln in
    rw (o_equal_lem (pos (suc c)) (pos node) lc ln, ih) (ground arith)

pub path_nodes-level_nodes :
    (h : ℕ) (o : EnclaveOram) (leaf : ℤ) (v : IsTree h o) (i : IsLeaf h leaf)
    → path_nodes o leaf ≡ level_nodes h i.0
unfolding path_nodes path_from
path_nodes-level_nodes h o leaf v (l, e, lt) =
    let q = lt-pow h in
    let n : leaf_node (2 ^ h) (pos l) ≡ pos (2 ^ h - 1 + l) = ground arith in
    rw (v.levels, v.leaves, e, n) (climb-level_nodes (suc h) h l lt (omega arith))

-- For a leaf and a node of a tree whose nodes are in the range of an `int`, the loop of a fixed number
-- of steps finds the node if and only if it stands on the path of the leaf.
pub path_contains_oblivious-elem :
    (h : ℕ) (o : EnclaveOram) (leaf : ℤ) (node : ℕ)
    → IsTree h o
    → IsLeaf h leaf
    → node < 2 ^ suc h - 1
    → path_contains_oblivious o leaf node ≡ elem node (path_nodes o leaf)
unfolding path_contains_oblivious path_nodes path_from
path_contains_oblivious-elem h o leaf node v (l, e, lt) ln =
    let q = lt-pow h in
    let p = pow-suc 2 h in
    let s = v.small in
    let n : leaf_node (2 ^ h) (pos l) ≡ pos (2 ^ h - 1 + l) = ground arith in
    rw (v.levels, v.leaves, e, n)
      (contains_from-elem (suc h) (2 ^ h - 1 + l) node (omega arith) (omega arith))
