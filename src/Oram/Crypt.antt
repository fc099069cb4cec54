-- ===== src/Oram/Crypt.antt =====
-- Buckets are encrypted on the way to the storage and decrypted on the way back: the round trip
-- returns every block, under any IVs, and the keys and leaves are never changed.
use tiered_omap.Prelude.{
  ℕ, ◌+◌, ◌≤◌, ◌<◌, ◌≡◌, refl, Bool, true, false, not, ◌||◌, List, [], ◌∷◌, ◌++◌, map, ℤ, ◌==ℤ◌,
  ltb, if◌then◌else◌, length, length-append, take, drop, take-append, drop-append, All, arith,
  Bool-cases, inl, inr,
}
use tiered_omap.Common.{Host, Bytes, Block, is_dummy, ok, ◌>>=◌}
use tiered_omap.Oram.{is_ciphered, encrypt_block, encrypt_bucket, decrypt_block, decrypt_bucket}

-- A test that reads the key alone.
abbrev pub has_key : ℤ → Block → Bool
has_key key block = block.key ==ℤ key

-- The value is empty, or has an IV in front.
unfoldable pub is_sealed : Block → Bool
is_sealed block = not (is_ciphered block) || not (ltb (length block.value) 16)

module _ (host : Host) (key : Bytes) where
  -- `decrypt_block` where it does not throw.
  unfoldable pub opened : Block → Block
  opened block =
      if is_ciphered block
      then record block { value = host.ctr key (take 16 block.value) (drop 16 block.value) }
      else block

  pub opened-key : (block : Block) → (opened block).key ≡ block.key
  unfolding opened
  opened-key block = elim (Bool-cases (is_ciphered block)) [ inl e ↦ rw e | inr e ↦ rw e ]

  pub opened-leaf : (block : Block) → (opened block).leaf ≡ block.leaf
  unfolding opened
  opened-leaf block = elim (Bool-cases (is_ciphered block)) [ inl e ↦ rw e | inr e ↦ rw e ]

  pub opened-is_dummy : (block : Block) → is_dummy (opened block) ≡ is_dummy block
  opened-is_dummy block = rw (opened-key block)

  decrypt_block-opened :
      (block : Block) → is_sealed block ≡ true → decrypt_block host key block ≡ ok (opened block)
  unfolding decrypt_block opened is_sealed
  decrypt_block-opened block s = elim (Bool-cases (is_ciphered block)) [
    | inl e ↦ let e' : ltb (length block.value) 16 ≡ false = ground arith in rw (e, e')
    | inr e ↦ rw e
  ]

  pub decrypt_bucket-opened :
      (bucket : List Block)
      → All (λ b. is_sealed b ≡ true) bucket
      → decrypt_bucket host key bucket ≡ ok (map opened bucket)
  unfolding decrypt_bucket
  decrypt_bucket-opened [] s = refl
  decrypt_bucket-opened (b ∷ bucket) s =
      rw (decrypt_block-opened b s.0, ◌>>=◌, decrypt_bucket-opened bucket s.1)

  is_ciphered-true :
      (block : Block) (v : Bytes)
      → is_ciphered block ≡ true
      → 0 < length v
      → is_ciphered (record block { value = v }) ≡ true
  unfolding is_ciphered
  is_ciphered-true block [] e h = absurd (omega arith)
  is_ciphered-true block (x ∷ v) e h = ground arith

  module _ (n : ℕ) (block : Block) where
    abbrev sealed_value : Bytes
    sealed_value = host.iv n ++ host.ctr key (host.iv n) block.value

    length-sealed_value : 16 ≤ length sealed_value
    length-sealed_value = rw length-append (omega (arith, host.iv_length n))

    open_value : host.ctr key (take 16 sealed_value) (drop 16 sealed_value) ≡ block.value
    open_value =
        rw
          (
            take-append 16 (host.iv n) (host.ctr key (host.iv n) block.value) (host.iv_length n),
            drop-append 16 (host.iv n) (host.ctr key (host.iv n) block.value) (host.iv_length n),
          )
          (host.ctr_inverse key (host.iv n) block.value)

    -- Decrypting undoes encrypting.
    pub opened-encrypt_block : opened (encrypt_block host key n block) ≡ block
    unfolding opened encrypt_block
    opened-encrypt_block = elim (Bool-cases (is_ciphered block)) [
      | inl e ↦
          let c = is_ciphered-true block sealed_value e (omega (arith, length-sealed_value)) in
          rw (e, c, open_value)
      | inr e ↦ rw (e, e)
    ]

    pub encrypt_block-is_sealed : is_sealed (encrypt_block host key n block) ≡ true
    unfolding encrypt_block is_sealed
    encrypt_block-is_sealed = elim (Bool-cases (is_ciphered block)) [
      | inl e ↦
          let h = length-sealed_value in
          let long : ltb (length (host.iv n ++ host.ctr key (host.iv n) block.value)) 16 ≡ false =
            ground arith in
          rw (e, long) (ground arith)
      | inr e ↦ rw (e, e)
    ]

    pub encrypt_block-leaf : (encrypt_block host key n block).leaf ≡ block.leaf
    unfolding encrypt_block
    encrypt_block-leaf = elim (Bool-cases (is_ciphered block)) [ inl e ↦ rw e | inr e ↦ rw e ]

    pub encrypt_block-key : (encrypt_block host key n block).key ≡ block.key
    unfolding encrypt_block
    encrypt_block-key = elim (Bool-cases (is_ciphered block)) [ inl e ↦ rw e | inr e ↦ rw e ]

  -- Decrypting an encrypted bucket returns the bucket: its dummies, its empty values and its values
  -- of every length, whatever IVs were drawn.
  pub decrypt_bucket-encrypt_bucket :
      (n : ℕ) (bucket : List Block)
      → decrypt_bucket host key (encrypt_bucket host key n bucket).0 ≡ ok bucket
  unfolding decrypt_bucket encrypt_bucket
  decrypt_bucket-encrypt_bucket n [] = refl
  decrypt_bucket-encrypt_bucket n (b ∷ bucket) =
      let rest = decrypt_bucket-encrypt_bucket (if is_ciphered b then n + 1 else n) bucket in
      rw
        (
          decrypt_block-opened (encrypt_block host key n b) (encrypt_block-is_sealed n b),
          opened-encrypt_block n b,
          ◌>>=◌,
          rest,
        )
        refl
