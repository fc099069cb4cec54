-- ===== src/Oram/Fetch.antt =====
-- What `apply_fetched_path` appends to the stash, and what `encrypt_bucket` makes of a path.
use tiered_omap.Prelude.{
  ℕ, ◌+◌, ◌≡◌, refl, ap, ◌∙◌, true, false, List, [], ◌∷◌, ◌++◌, map, ℤ, ◌==ℤ◌, ==ℤ_iff, All,
  All-append, countb, countb-append, arith, Bool-cases, inl, inr, if◌then◌else◌,
}
use tiered_omap.Common.{Host, Bytes, Block, is_dummy, invalid_key, ok, ◌>>=◌}
use tiered_omap.Storage.{PathData, nodes_of}
use tiered_omap.Storage.Fill.{path_count, PathAll}
use tiered_omap.Oram.{is_ciphered, encrypt_bucket, real_blocks, fetched_blocks, encrypt_path}
use tiered_omap.Oram.Crypt.{
  has_key, is_sealed, opened, opened-key, opened-is_dummy, decrypt_bucket-opened,
  opened-encrypt_block, encrypt_block-is_sealed, encrypt_block-key,
}

-- A block that is no dummy and satisfies `Q`.
abbrev pub Real : (Block → Type 0) → Block → Type 0
Real Q block = (is_dummy block ≡ false) × Q block

module _ (host : Host) (key : Bytes) where
  -- A stored block can be decrypted, and unless it is a dummy its plain form satisfies `Q`.
  abbrev pub Stored : (Block → Type 0) → Block → Type 0
  Stored Q block = (is_sealed block ≡ true) × (is_dummy block ≡ false → Q (opened host key block))

  unfoldable pub plain_blocks : PathData → List Block
  plain_blocks [] = []
  plain_blocks ((_, bucket) ∷ path) =
      real_blocks (map (opened host key) bucket) ++ plain_blocks path

  module _ (Q : Block → Type 0) where
    Stored-is_sealed :
        (bucket : List Block) → All (Stored Q) bucket → All (λ b. is_sealed b ≡ true) bucket
    Stored-is_sealed [] s = tt
    Stored-is_sealed (b ∷ bucket) s = (s.0.0, Stored-is_sealed bucket s.1)

    -- Fetching stored buckets throws nothing.
    pub fetched_blocks-plain :
        (path : PathData)
        → All (λ entry. All (Stored Q) entry.1) path
        → fetched_blocks host key path ≡ ok (plain_blocks path)
    unfolding fetched_blocks plain_blocks
    fetched_blocks-plain [] s = refl
    fetched_blocks-plain ((_, bucket) ∷ path) s = rw (
      decrypt_bucket-opened host key bucket (Stored-is_sealed bucket s.0),
      ◌>>=◌,
      fetched_blocks-plain path s.1,
    )

    real_blocks-Real :
        (bucket : List Block)
        → All (Stored Q) bucket
        → All (Real Q) (real_blocks (map (opened host key) bucket))
    unfolding real_blocks
    real_blocks-Real [] s = tt
    real_blocks-Real (b ∷ bucket) s = elim (Bool-cases (is_dummy b)) [
      | inl e ↦ rw (opened-is_dummy host key b, e) (real_blocks-Real bucket s.1)
      | inr e ↦
          rw (opened-is_dummy host key b, e)
            ((opened-is_dummy host key b ∙ e, s.0.1 e), real_blocks-Real bucket s.1)
    ]

    pub plain_blocks-Real :
        (path : PathData)
        → All (λ entry. All (Stored Q) entry.1) path
        → All (Real Q) (plain_blocks path)
    unfolding plain_blocks
    plain_blocks-Real [] s = tt
    plain_blocks-Real ((_, bucket) ∷ path) s =
        All-append (Real Q) (real_blocks (map (opened host key) bucket)) (plain_blocks path)
          (real_blocks-Real bucket s.0) (plain_blocks-Real path s.1)

  module _ (k : ℤ) (real : (k ==ℤ invalid_key) ≡ false) where
    not_dummy : (b : Block) → is_dummy b ≡ true → (b.key ==ℤ k) ≡ false
    not_dummy b e = elim (Bool-cases (b.key ==ℤ k)) [
      | inl same ↦ let e' = (==ℤ_iff b.key k).0 same in absurd (ground (arith, rw e' at e))
      | inr apart ↦ apart
    ]

    real_blocks-count :
        (bucket : List Block)
        → countb (has_key k) (real_blocks (map (opened host key) bucket))
          ≡ countb (has_key k) bucket
    unfolding real_blocks countb
    real_blocks-count [] = refl
    real_blocks-count (b ∷ bucket) = elim (Bool-cases (is_dummy b)) [
      | inl e ↦
          rw (opened-is_dummy host key b, e, not_dummy b e, real_blocks-count bucket) (omega arith)
      | inr e ↦ rw (opened-is_dummy host key b, e, opened-key host key b, real_blocks-count bucket)
    ]

    -- Every block of a key on the path is fetched.
    pub plain_blocks-count :
        (path : PathData) → countb (has_key k) (plain_blocks path) ≡ path_count (has_key k) path
    unfolding plain_blocks countb path_count
    plain_blocks-count [] = refl
    plain_blocks-count ((_, bucket) ∷ path) = rw (
      countb-append (has_key k) (real_blocks (map (opened host key) bucket)) (plain_blocks path),
      real_blocks-count bucket,
      plain_blocks-count path,
    )

  -- Encrypting a path

  encrypt_bucket-Stored :
      (Q : Block → Type 0) (n : ℕ) (bucket : List Block)
      → All Q bucket
      → All (Stored Q) (encrypt_bucket host key n bucket).0
  unfolding encrypt_bucket
  encrypt_bucket-Stored Q n [] h = tt
  encrypt_bucket-Stored Q n (b ∷ bucket) h = (
    (encrypt_block-is_sealed host key n b, λ _. rw (opened-encrypt_block host key n b) h.0),
    encrypt_bucket-Stored Q (if is_ciphered b then n + 1 else n) bucket h.1,
  )

  encrypt_bucket-count :
      (k : ℤ) (n : ℕ) (bucket : List Block)
      → countb (has_key k) (encrypt_bucket host key n bucket).0 ≡ countb (has_key k) bucket
  unfolding encrypt_bucket countb
  encrypt_bucket-count k n [] = refl
  encrypt_bucket-count k n (b ∷ bucket) = rw (
    encrypt_block-key host key n b,
    encrypt_bucket-count k (if is_ciphered b then n + 1 else n) bucket,
  )

  pub encrypt_path-Stored :
      (Q : ℕ → Block → Type 0) (n : ℕ) (path : PathData)
      → PathAll Q path
      → All (λ entry. All (Stored (Q entry.0)) entry.1) (encrypt_path host key n path).0
  unfolding encrypt_path
  encrypt_path-Stored Q n [] h = tt
  encrypt_path-Stored Q n ((node, bucket) ∷ path) h = (
    encrypt_bucket-Stored (Q node) n bucket h.0,
    encrypt_path-Stored Q (encrypt_bucket host key n bucket).1 path h.1,
  )

  pub encrypt_path-count :
      (k : ℤ) (n : ℕ) (path : PathData)
      → path_count (has_key k) (encrypt_path host key n path).0 ≡ path_count (has_key k) path
  unfolding encrypt_path path_count
  encrypt_path-count k n [] = refl
  encrypt_path-count k n ((node, bucket) ∷ path) = rw (
    encrypt_bucket-count k n bucket,
    encrypt_path-count k (encrypt_bucket host key n bucket).1 path,
  )

  pub nodes_of-encrypt_path :
      (n : ℕ) (path : PathData) → nodes_of (encrypt_path host key n path).0 ≡ nodes_of path
  unfolding encrypt_path
  nodes_of-encrypt_path n [] = refl
  nodes_of-encrypt_path n ((node, bucket) ∷ path) =
      ap (◌∷◌ node) (nodes_of-encrypt_path (encrypt_bucket host key n bucket).1 path)
