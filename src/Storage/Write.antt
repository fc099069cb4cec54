-- ===== src/Storage/Write.antt =====
-- Reading nodes of the tree and writing them back: what a write replaces, node by node and counted
-- over the whole tree.
use mathlib.Core.List.{Permᴰ}
use tiered_omap.Prelude.{
  ℕ, zero, suc, ◌+◌, ◌<◌, ◌≡◌, refl, sym, ap, subst, ◌∙◌, Bool, false, List, [], ◌∷◌, ◌==◌, length,
  length-set, set, All, All-perm, countb, elem, arith, Bool-cases, inl, inr,
}
use tiered_omap.Common.{Block}
use tiered_omap.Storage.{PathData, nodes_of, bucket_at, read_nodes, write_nodes}
use tiered_omap.Storage.Merged.{Ascending}
use tiered_omap.Storage.Fill.{path_count}

-- How many blocks of a tree pass a test.
unfoldable pub tree_count : (Block → Bool) → List (List Block) → ℕ
tree_count p [] = 0
tree_count p (bucket ∷ buckets) = countb p bucket + tree_count p buckets

pub tree_count-set :
    (p : Block → Bool) (buckets : List (List Block)) (i : ℕ) (bucket : List Block)
    → i < length buckets
    → tree_count p (set buckets i bucket) + countb p (bucket_at buckets i)
      ≡ tree_count p buckets + countb p bucket
unfolding tree_count
tree_count-set p [] i bucket h = elim h [ ]
tree_count-set p (b ∷ bs) zero bucket h = omega arith
tree_count-set p (b ∷ bs) (suc i) bucket h =
    omega (arith, tree_count-set p bs i bucket (omega arith))

pub bucket_at-set :
    (buckets : List (List Block)) (i n : ℕ) (bucket : List Block)
    → (i == n) ≡ false
    → bucket_at (set buckets i bucket) n ≡ bucket_at buckets n
bucket_at-set [] i n bucket e = refl
bucket_at-set (b ∷ bs) zero zero bucket e = ground arith
bucket_at-set (b ∷ bs) zero (suc n) bucket e = refl
bucket_at-set (b ∷ bs) (suc i) zero bucket e = refl
bucket_at-set (b ∷ bs) (suc i) (suc n) bucket e = bucket_at-set bs i n bucket (ground arith)

pub bucket_at-set_self :
    (buckets : List (List Block)) (i : ℕ) (bucket : List Block)
    → i < length buckets
    → bucket_at (set buckets i bucket) i ≡ bucket
bucket_at-set_self [] i bucket h = elim h [ ]
bucket_at-set_self (b ∷ bs) zero bucket h = refl
bucket_at-set_self (b ∷ bs) (suc i) bucket h = bucket_at-set_self bs i bucket (omega arith)

-- The entries of a path stand at different nodes, as those of a map do.
abbrev pub Distinct : PathData → Type 0
Distinct [] = Unit
Distinct ((node, _) ∷ path) = All (λ entry. (node == entry.0) ≡ false) path × Distinct path

pub length-write_nodes :
    (buckets : List (List Block)) (path : PathData)
    → length (write_nodes buckets path) ≡ length buckets
unfolding write_nodes
length-write_nodes buckets [] = refl
length-write_nodes buckets ((node, bucket) ∷ path) =
    length-write_nodes (set buckets node bucket) path ∙ length-set buckets node bucket

abbrev pub InRange : List (List Block) → PathData → Type 0
InRange buckets = All (λ entry. entry.0 < length buckets)

InRange-set :
    (buckets : List (List Block)) (i : ℕ) (bucket : List Block) (path : PathData)
    → InRange buckets path
    → InRange (set buckets i bucket) path
InRange-set buckets i bucket path h = rw (length-set buckets i bucket) h

-- What each node holds after a write: the entry of the path, or what it held.
pub write_nodes-bucket :
    (Q : ℕ → List Block → Type 0) (buckets : List (List Block)) (path : PathData)
    → InRange buckets path
    → ((n : ℕ) → elem n (nodes_of path) ≡ false → Q n (bucket_at buckets n))
    → All (λ entry. Q entry.0 entry.1) path
    → (n : ℕ) → Q n (bucket_at (write_nodes buckets path) n)
unfolding write_nodes
write_nodes-bucket Q buckets [] r f h = λ n. f n refl
write_nodes-bucket Q buckets ((node, bucket) ∷ path) r f h =
    write_nodes-bucket Q (set buckets node bucket) path (InRange-set buckets node bucket path r.1)
      (λ m out. elim (Bool-cases (node == m)) [
        | inl e ↦
            let e' : node ≡ m = ground arith in
            rw (← e', bucket_at-set_self buckets node bucket r.0) h.0
        | inr e ↦ rw (bucket_at-set buckets node m bucket e) (f m (ground arith))
      ])
      h.1

read_nodes-set :
    (buckets : List (List Block)) (i : ℕ) (bucket : List Block) (path : PathData)
    → All (λ entry. (i == entry.0) ≡ false) path
    → read_nodes (set buckets i bucket) (nodes_of path) ≡ read_nodes buckets (nodes_of path)
read_nodes-set buckets i bucket [] h = refl
read_nodes-set buckets i bucket ((node, _) ∷ path) h =
    rw (bucket_at-set buckets i node bucket h.0, read_nodes-set buckets i bucket path h.1)

-- A write takes the old contents of its nodes out of the tree and puts the new ones in.
pub tree_count-write_nodes :
    (p : Block → Bool) (buckets : List (List Block)) (path : PathData)
    → InRange buckets path
    → Distinct path
    → tree_count p (write_nodes buckets path) + path_count p (read_nodes buckets (nodes_of path))
      ≡ tree_count p buckets + path_count p path
unfolding write_nodes path_count
tree_count-write_nodes p buckets [] r d = refl
tree_count-write_nodes p buckets ((node, bucket) ∷ path) r d =
    let ih =
      tree_count-write_nodes p (set buckets node bucket) path
        (InRange-set buckets node bucket path r.1) d.1 in
    let ih' = rw (read_nodes-set buckets node bucket path d.0) at ih in
    omega (arith, ih', tree_count-set p buckets node bucket r.0)

pub tree_count-zero :
    (p : Block → Bool) (buckets : List (List Block))
    → ((n : ℕ) → countb p (bucket_at buckets n) ≡ 0)
    → tree_count p buckets ≡ 0
unfolding tree_count
tree_count-zero p [] h = refl
tree_count-zero p (b ∷ bs) h = omega (arith, h 0, tree_count-zero p bs (λ n. h (suc n)))

-- Rearranging the entries of a path changes neither counts nor distinctness.
pub path_count-perm :
    (p : Block → Bool) {xs ys : PathData} → Permᴰ xs ys → path_count p xs ≡ path_count p ys
unfolding path_count
path_count-perm p Permᴰ.nil = refl
path_count-perm p (Permᴰ.cons e q) =
    omega (arith, ap (λ (x : ℕ × List Block). countb p x.1) e, path_count-perm p q)
path_count-perm p (Permᴰ.swap e f) = omega (
  arith,
  ap (λ (x : ℕ × List Block). countb p x.1) e,
  ap (λ (x : ℕ × List Block). countb p x.1) f,
)
path_count-perm p (Permᴰ.trans q r) = path_count-perm p q ∙ path_count-perm p r

pub Distinct-perm : {xs ys : PathData} → Permᴰ xs ys → Distinct ys → Distinct xs
Distinct-perm Permᴰ.nil d = tt
Distinct-perm (Permᴰ.cons {a = a} {l₂ = l₂} e q) d = (
  All-perm (λ y. (a.0 == y.0) ≡ false) q
      (subst (λ (x : ℕ × List Block). All (λ y. (x.0 == y.0) ≡ false) l₂) (sym e) d.0),
  Distinct-perm q d.1,
)
Distinct-perm (Permᴰ.swap {l = l} e f) d = (
  (
    rw (e, f) (ground (arith, d.0.0)),
    subst (λ (x : ℕ × List Block). All (λ y. (x.0 == y.0) ≡ false) l) (sym e) d.1.0,
  ),
  (subst (λ (x : ℕ × List Block). All (λ y. (x.0 == y.0) ≡ false) l) (sym f) d.0.1, d.1.1),
)
Distinct-perm (Permᴰ.trans q r) d = Distinct-perm q (Distinct-perm r d)

pub elem-perm :
    (n : ℕ) {xs ys : PathData} → Permᴰ xs ys → elem n (nodes_of xs) ≡ elem n (nodes_of ys)
elem-perm n Permᴰ.nil = refl
elem-perm n (Permᴰ.cons e q) = rw (e, elem-perm n q)
elem-perm n (Permᴰ.swap e f) = rw (e, f) (ground arith)
elem-perm n (Permᴰ.trans q r) = elem-perm n q ∙ elem-perm n r

pub read_nodes-perm :
    (p : Block → Bool) (buckets : List (List Block)) {xs ys : PathData}
    → Permᴰ xs ys
    → path_count p (read_nodes buckets (nodes_of xs))
      ≡ path_count p (read_nodes buckets (nodes_of ys))
unfolding path_count
read_nodes-perm p buckets Permᴰ.nil = refl
read_nodes-perm p buckets (Permᴰ.cons e q) = rw (e, read_nodes-perm p buckets q)
read_nodes-perm p buckets (Permᴰ.swap e f) = rw (e, f) (omega arith)
read_nodes-perm p buckets (Permᴰ.trans q r) =
    read_nodes-perm p buckets q ∙ read_nodes-perm p buckets r

pub Ascending-Distinct : (path : PathData) → Ascending (nodes_of path) → Distinct path
Ascending-Distinct [] a = tt
Ascending-Distinct ((node, bucket) ∷ path) a = (apart path a.0, Ascending-Distinct path a.1)
  where
    apart :
        (r : PathData)
        → All (λ y. node < y) (nodes_of r)
        → All (λ entry. (node == entry.0) ≡ false) r
    apart [] h = tt
    apart (e ∷ r) h = (ground arith, apart r h.1)

pub nodes-InRange :
    (buckets : List (List Block)) (path : PathData)
    → All (λ m. m < length buckets) (nodes_of path)
    → InRange buckets path
nodes-InRange buckets [] h = tt
nodes-InRange buckets (e ∷ path) h = (h.0, nodes-InRange buckets path h.1)

pub nodes_of-read_nodes :
    (buckets : List (List Block)) (nodes : List ℕ) → nodes_of (read_nodes buckets nodes) ≡ nodes
nodes_of-read_nodes buckets [] = refl
nodes_of-read_nodes buckets (n ∷ nodes) = ap (◌∷◌ n) (nodes_of-read_nodes buckets nodes)

pub read_nodes-All :
    (Q : ℕ → List Block → Type 0) (buckets : List (List Block)) (nodes : List ℕ)
    → ((n : ℕ) → Q n (bucket_at buckets n))
    → All (λ entry. Q entry.0 entry.1) (read_nodes buckets nodes)
read_nodes-All Q buckets [] h = tt
read_nodes-All Q buckets (n ∷ nodes) h = (h n, read_nodes-All Q buckets nodes h)

-- Where a test fails off the nodes of a path, the path has all the blocks that pass it.
pub tree_count-read_nodes :
    (p : Block → Bool) (buckets : List (List Block)) (nodes : List ℕ)
    → Ascending nodes
    → All (λ m. m < length buckets) nodes
    → ((n : ℕ) → elem n nodes ≡ false → countb p (bucket_at buckets n) ≡ 0)
    → path_count p (read_nodes buckets nodes) ≡ tree_count p buckets
unfolding path_count countb
tree_count-read_nodes p buckets nodes a r h = omega (arith, total, none_left, none_new nodes)
  where
    blank : List ℕ → PathData
    blank [] = []
    blank (n ∷ ns) = (n, []) ∷ blank ns

    same : (ns : List ℕ) → nodes_of (blank ns) ≡ ns
    same [] = refl
    same (n ∷ ns) = ap (◌∷◌ n) (same ns)

    none_new : (ns : List ℕ) → path_count p (blank ns) ≡ 0
    none_new [] = refl
    none_new (n ∷ ns) = omega (arith, none_new ns)

    blank-All : (ns : List ℕ) → All (λ (e : ℕ × List Block). countb p e.1 ≡ 0) (blank ns)
    blank-All [] = tt
    blank-All (n ∷ ns) = (refl, blank-All ns)

    range : InRange buckets (blank nodes)
    range = nodes-InRange buckets (blank nodes) (rw (same nodes) r)

    total :
        tree_count p (write_nodes buckets (blank nodes)) + path_count p (read_nodes buckets nodes)
        ≡ tree_count p buckets + path_count p (blank nodes)
    total = rw (same nodes) at (
        tree_count-write_nodes p buckets (blank nodes) range
          (Ascending-Distinct (blank nodes) (rw (same nodes) a)))

    none_left : tree_count p (write_nodes buckets (blank nodes)) ≡ 0
    none_left = tree_count-zero p _ (
        write_nodes-bucket (λ _ b. countb p b ≡ 0) buckets (blank nodes) range
          (λ n out. h n (rw (same nodes) at out)) (blank-All nodes))
