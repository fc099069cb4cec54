-- ===== src/Storage/Fresh.antt =====
-- The constructor and `reset` of `BinaryTreeStorage`: a complete tree of empty buckets, high enough
-- for the data.
use native.Mathlib.Nat.{pow-le-pow_right}
use tiered_omap.Prelude.{
  ℕ, zero, suc, ◌+◌, ◌-◌, ◌^◌, ◌≤◌, ◌<◌, ◌≡◌, ◌↔◌, refl, [], ◌==◌, leb, leb→le, length-replicate,
  replicate, arith, Bool-cases, inl, inr,
}
use tiered_omap.Common.{ceil_log2, ceil_log2_from}
use tiered_omap.Storage.{bucket_at, new_storage}
use tiered_omap.Storage.Paths.{IsShaped, lt-pow}

module _ (n : ℕ) where
  -- The search stops at the least exponent that is large enough, if it has fuel to get there.
  ceil_log2_from_lem :
      (fuel e : ℕ)
      → n ≤ 2 ^ (e + fuel)
      → ((i : ℕ) → i < e → 2 ^ i < n)
      → (n ≤ 2 ^ ceil_log2_from fuel e n) × ((i : ℕ) → i < ceil_log2_from fuel e n → 2 ^ i < n)
  unfolding ceil_log2_from
  ceil_log2_from_lem zero e b f = let z : e + 0 ≡ e = omega arith in (rw z at b, f)
  ceil_log2_from_lem (suc fuel) e b f = elim (Bool-cases (leb n (2 ^ e))) [
    | inl k ↦ rw k (leb→le _ _ k, f)
    | inr k ↦
        let z : e + suc fuel ≡ e + 1 + fuel = omega arith in
        rw k (
          ceil_log2_from_lem fuel (e + 1) (rw z at b) (λ i lt. elim (Bool-cases (i == e)) [
            | inl same ↦ let s : i ≡ e = ground arith in rw s (ground arith)
            | inr apart ↦ f i (ground arith)
          ]))
  ]

  -- The least exponent whose power of two is at least `n`.
  ceil_log2_lem : (n ≤ 2 ^ ceil_log2 n) × ((i : ℕ) → i < ceil_log2 n → 2 ^ i < n)
  unfolding ceil_log2
  ceil_log2_lem = elim (Bool-cases (leb n 1)) [
    | inl k ↦ rw k (leb→le _ _ k, λ i lt. absurd (omega arith))
    | inr k ↦
        let z : 0 + n ≡ n = omega arith in
        rw k
          (ceil_log2_from_lem n 0 (rw z (omega (arith, lt-pow n))) (λ i lt. absurd (omega arith)))
  ]

-- `ceil_log2 n` is at most `k` exactly if `n` is at most 2 ^ k.
pub ceil_log2-le : (n k : ℕ) → (ceil_log2 n ≤ k) ↔ (n ≤ 2 ^ k)
ceil_log2-le n k =
    let (a, b) = ceil_log2_lem n in
    (
      λ h. omega (arith, a, pow-le-pow_right {n = 2} (omega arith) h),
      λ h. elim (Bool-cases (leb (ceil_log2 n) k)) [
        | inl e ↦ leb→le _ _ e
        | inr e ↦ absurd (let c = b k (ground arith) in omega arith)
      ],
    )

replicate-bucket : (k n : ℕ) → bucket_at (replicate k []) n ≡ []
replicate-bucket zero n = refl
replicate-bucket (suc k) zero = refl
replicate-bucket (suc k) (suc n) = replicate-bucket k n

module _ (num_data bucket_size : ℕ) where
  pub new_storage-IsShaped : IsShaped (ceil_log2 num_data) (new_storage num_data bucket_size)
  unfolding new_storage
  new_storage-IsShaped =
      let e : ceil_log2 num_data + 1 - 1 ≡ ceil_log2 num_data = omega arith in
      let e' : ceil_log2 num_data + 1 ≡ suc (ceil_log2 num_data) = omega arith in
      record { levels = e'; leaves = rw e refl; size = rw (length-replicate, e') refl }

  -- Every bucket of a fresh storage is empty, and every leaf number below `num_data` is a leaf.
  pub new_storage-empty :
      ((n : ℕ) → bucket_at (new_storage num_data bucket_size).buckets n ≡ [])
      × (num_data ≤ (new_storage num_data bucket_size).leaf_range)
  unfolding new_storage
  new_storage-empty =
      let e : ceil_log2 num_data + 1 - 1 ≡ ceil_log2 num_data = omega arith in
      (replicate-bucket _, rw e (ceil_log2_lem num_data).0)
