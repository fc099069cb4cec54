-- ===== src/Tee/Enclave/Dummy.antt =====
-- A dummy access of the enclave's ORAM keeps the table.
use native.Mathlib.Nat.{one-le-pow}
use tiered_omap.Prelude.{
  ℕ, zero, suc, ◌+◌, ◌^◌, ◌≡◌, refl, false, none, [], pos, length-replicate, replicate, arith,
}
use tiered_omap.Common.{Host, Bytes, invalid_key, ok, Yields, Yields-bind}
use tiered_omap.Storage.Paths.{IsLeaf}
use tiered_omap.Tee.Enclave.{EnclaveOram, random_leaf}
use tiered_omap.Tee.Enclave.Access.{access_or_dummy, dummy_access}
use tiered_omap.Tee.Enclave.Table.{LeafTable, Holds, HoldsAs}
use tiered_omap.Tee.Enclave.Serve.{Serves}
use tiered_omap.Tee.Enclave.Refines.{access_or_dummy_lem, result, IsLeaf-IsInt, same_table}

pub random_leaf-IsLeaf :
    (host : Host) (h : ℕ) (o : EnclaveOram) → o.leaf_range ≡ 2 ^ h → IsLeaf h (random_leaf host o)
unfolding random_leaf
random_leaf-IsLeaf host h o e = drawn o.leaf_range e
  where
    drawn :
        (range : ℕ)
        → range ≡ 2 ^ h
        → IsLeaf h (elim range [ zero ↦ pos 0 | suc n ↦ pos (host.draw o.draws (suc n)) ])
    drawn zero e = absurd (omega (arith, e, one-le-pow h 2 (omega arith)))
    drawn (suc n) e = (
      host.draw o.draws (suc n),
      refl,
      omega (arith, e, host.draw_lt o.draws (suc n) (omega arith)),
    )

-- For a state that holds a table of trees of height `h`, a dummy access gives a state that holds the
-- same table with values of the same size, or throws for a stash over its bound.
pub dummy_access_lem :
    (host : Host) (h : ℕ) (o : EnclaveOram) (m : LeafTable)
    → Holds h o m
    → Yields (dummy_access host o) (HoldsAs h o m)
unfolding dummy_access
dummy_access_lem host h o m v =
    let o₁ : EnclaveOram = record o { draws = o.draws + 1 } in
    let rl = random_leaf host o in
    let leaf = random_leaf host o₁ in
    let v₁ =
      same_table h o m o.last_stats o.total_stats o.touched_pages o.node_access_count (o.draws + 1)
        v in
    let il = random_leaf-IsLeaf host h o v.shape.leaves in
    let s : Serves h o₁ invalid_key leaf rl false false (replicate o.value_size 0) [] m m = record {
      holds = v₁;
      valid = random_leaf-IsLeaf host h o₁ v.shape.leaves;
      rewrites = record {
        key_int = omega arith;
        key_real = λ e. absurd (ground (arith, e));
        leaf_int = IsLeaf-IsInt h rl v.shape.small il;
        leaf_valid = il;
        padded = length-replicate o.value_size 0;
        old = λ b e. absurd (ground (arith, e));
        new = λ b e. absurd (ground (arith, e));
        others = λ b e. refl;
      };
      there = λ b e. absurd (ground (arith, e));
      same_keys = λ k. refl;
    } in
    Yields-bind
      (λ (r : EnclaveOram × Bytes).
        (r.1 ≡ result host h o₁ invalid_key rl rl false none leaf [] m m) × HoldsAs h o m r.0)
      (HoldsAs h o m) (access_or_dummy host o₁ invalid_key rl rl false none)
      (λ (r : EnclaveOram × Bytes). ok r.0)
      (access_or_dummy_lem host h o₁ invalid_key rl rl false none leaf [] m m refl s) (λ r w. w.1)
