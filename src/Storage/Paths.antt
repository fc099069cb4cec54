-- ===== src/Storage/Paths.antt =====
-- The path from a leaf to the root of `BinaryTreeStorage`, as an array index and as a set of nodes.
use tiered_omap.Prelude.{
  ℕ, zero, suc, ◌+◌, ◌-◌, ◌/◌, ◌^◌, ◌<◌, ◌≡◌, refl, true, false, List, [], ◌∷◌, ℤ, pos, negsuc,
  ◌==◌, length, arith, All, elem, All-map, ap,
}
use native.Mathlib.Nat.{pow-suc, one-le-pow}
use tiered_omap.Storage.{Storage, parent, leaf_node, climb, nodes_up, climbs_to, is_ancestor}

climbs_to-elem : (f cur node : ℕ) → climbs_to f cur node ≡ elem node (climb f cur)
unfolding climbs_to climb
climbs_to-elem zero cur node = refl
climbs_to-elem (suc f) cur node = ground (arith, climbs_to-elem f (parent cur) node)

-- The loop that tests for an ancestor tests membership in the path.
pub is_ancestor-elem :
    (target : ℤ) (node : ℕ) → is_ancestor target node ≡ elem node (nodes_up target)
unfolding is_ancestor nodes_up
is_ancestor-elem (pos target) node = climbs_to-elem (suc target) target node
is_ancestor-elem (negsuc _) node = refl

-- The nodes above the `l`-th leaf of a tree of height `h`: at depth d the node `l / 2 ^ (h - d)`
-- of that depth, whose first node is `2 ^ d - 1`.
unfoldable pub level_nodes : ℕ → ℕ → List ℕ
level_nodes zero l = 0 ∷ []
level_nodes (suc h) l = (2 ^ suc h - 1 + l) ∷ level_nodes h (l / 2)

pub climb-level_nodes : (f h l : ℕ) → l < 2 ^ h → h < f → climb f (2 ^ h - 1 + l) ≡ level_nodes h l
unfolding climb level_nodes
climb-level_nodes zero h l a b = absurd (omega arith)
climb-level_nodes (suc f) zero l a b = let e : l ≡ 0 = omega arith in rw e refl
climb-level_nodes (suc f) (suc h) l a b =
    let p = pow-suc 2 h in
    let q = one-le-pow h 2 (omega arith) in
    let small : l / 2 < 2 ^ h = omega arith in
    let up : parent (2 ^ suc h - 1 + l) ≡ 2 ^ h - 1 + l / 2 = omega arith in
    let ne : (2 ^ suc h - 1 + l == 0) ≡ false = ground arith in
    rw (ne, up, climb-level_nodes f h (l / 2) small (omega arith))

pub lt-pow : (h : ℕ) → h < 2 ^ h
lt-pow zero = omega arith
lt-pow (suc h) = omega (arith, pow-suc 2 h, lt-pow h)

-- The loop from the node of the `l`-th leaf of a tree of height `h` up to the root visits one node
-- of each depth d, the one with number l / 2 ^ (h - d) there.
pub nodes_up-level_nodes :
    (h l : ℕ) → l < 2 ^ h → nodes_up (leaf_node (2 ^ h) (pos l)) ≡ level_nodes h l
unfolding nodes_up
nodes_up-level_nodes h l a =
    let q = lt-pow h in
    let e : leaf_node (2 ^ h) (pos l) ≡ pos (2 ^ h - 1 + l) = ground arith in
    rw e (climb-level_nodes (suc (2 ^ h - 1 + l)) h l a (omega arith))

pub length-level_nodes : (h l : ℕ) → length (level_nodes h l) ≡ suc h
unfolding level_nodes
length-level_nodes zero l = refl
length-level_nodes (suc h) l = ap suc (length-level_nodes h (l / 2))

pub level_nodes-lt : (h l : ℕ) → l < 2 ^ h → All (λ m. m < 2 ^ suc h - 1) (level_nodes h l)
unfolding level_nodes
level_nodes-lt zero l a = (omega arith, tt)
level_nodes-lt (suc h) l a =
    let p = pow-suc 2 h in
    let p' = pow-suc 2 (suc h) in
    let q = one-le-pow h 2 (omega arith) in
    let small : l / 2 < 2 ^ h = omega arith in
    (
      omega arith,
      All-map (λ m. m < 2 ^ suc h - 1) (λ m. m < 2 ^ suc (suc h) - 1) (λ m k. omega arith)
          (level_nodes h (l / 2)) (level_nodes-lt h (l / 2) small),
    )

pub level_nodes-root : (h l : ℕ) → elem 0 (level_nodes h l) ≡ true
unfolding level_nodes
level_nodes-root zero l = refl
level_nodes-root (suc h) l = ground (arith, level_nodes-root h (l / 2))

-- A leaf of a tree of height `h`.
abbrev pub IsLeaf : ℕ → ℤ → Type 0
IsLeaf h leaf = (l : ℕ) × (leaf ≡ pos l) × (l < 2 ^ h)

pub nodes_up-lt :
    (h : ℕ) (leaf : ℤ)
    → IsLeaf h leaf
    → All (λ m. m < 2 ^ suc h - 1) (nodes_up (leaf_node (2 ^ h) leaf))
nodes_up-lt h leaf (l, e, a) = rw (e, nodes_up-level_nodes h l a) (level_nodes-lt h l a)

-- A storage that the constructor made: a complete tree of height `h`.
pub record IsShaped (h : ℕ) (s : Storage) : Type 0 where
  pub levels : s.level ≡ suc h
  pub leaves : s.leaf_range ≡ 2 ^ h
  pub size : length s.buckets ≡ 2 ^ suc h - 1
