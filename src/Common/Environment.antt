-- ===== src/Common/Environment.antt =====
-- What the program takes from outside this repository: random draws, OpenSSL's AES-CTR, and the
-- order in which an `unordered_map` is iterated.
use mathlib.Core.List.{Permᴰ}
use tiered_omap.Prelude.{ℕ, ◌<◌, ◌≡◌, List, length}

pub record Host : Type 1 where
  -- The bytes of the n-th call of `RAND_bytes` for an IV.
  pub iv : ℕ → List ℕ
  pub iv_length : (n : ℕ) → length (iv n) ≡ 16
  -- The n-th draw of `std::uniform_int_distribution<int>(0, m - 1)`.
  pub draw : ℕ → ℕ → ℕ
  pub draw_lt : (n m : ℕ) → 0 < m → draw n m < m
  -- `EVP_aes_128_ctr` under a key and an IV: a stream cipher, its own inverse.
  pub ctr : List ℕ → List ℕ → List ℕ → List ℕ
  pub ctr_length : (k v d : List ℕ) → length (ctr k v d) ≡ length d
  pub ctr_inverse : (k v d : List ℕ) → ctr k v (ctr k v d) ≡ d
  -- The iteration order of an `unordered_map`, whose entries are listed by node: it is unspecified.
  pub order : {A : Type 0} → List (ℕ × A) → List (ℕ × A)
  pub order_perm : {A : Type 0} (entries : List (ℕ × A)) → Permᴰ (order entries) entries
