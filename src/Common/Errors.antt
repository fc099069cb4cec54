-- ===== src/Common/Errors.antt =====
-- The exceptions that the modelled code throws, and the result of code that may throw.
use mathlib.Core.Path.{◌≡◌, refl}

pub data Error : Type 0 where
  -- `unordered_map::at` on a missing key
  out_of_range : Error
  -- the block of the key is neither on the path nor in the stash
  not_found : Error
  stash_overflow : Error
  -- `aes_decrypt: blob too small`
  blob_too_small : Error

pub data Result {ℓ} (A : Type ℓ) : Type ℓ where
  ok : A → Result A
  throw : Error → Result A

infixl 5 ◌>>=◌
abbrev pub ◌>>=◌ {ℓ κ} : {A : Type ℓ} {B : Type κ} → Result A → (A → Result B) → Result B
ok a >>= f = f a
throw e >>= f = throw e

-- The code returns a result with the property, or throws the overflow of some stash.
abbrev pub Yields {ℓ} : {A : Type ℓ} → Result A → (A → Type 0) → Type 0
Yields (ok a) P = P a
Yields (throw e) P = e ≡ stash_overflow

pub Yields-bind {ℓ κ} :
    {A : Type ℓ} {B : Type κ} (P : A → Type 0) (Q : B → Type 0) (r : Result A) (f : A → Result B)
    → Yields r P
    → ((a : A) → P a → Yields (f a) Q)
    → Yields (r >>= f) Q
Yields-bind P Q (ok a) f h k = k a h
Yields-bind P Q (throw e) f h k = h

pub Yields-map {ℓ} :
    {A : Type ℓ} (P Q : A → Type 0) (r : Result A) → Yields r P → ((a : A) → P a → Q a) → Yields r Q
Yields-map P Q (ok a) h k = k a h
Yields-map P Q (throw e) h k = h

-- What the code returns has the property, whatever it may throw.
abbrev pub Returns {ℓ} : {A : Type ℓ} → Result A → (A → Type 0) → Type 0
Returns (ok a) P = P a
Returns (throw e) P = Unit

pub Returns-bind {ℓ κ} :
    {A : Type ℓ} {B : Type κ} (P : A → Type 0) (Q : B → Type 0) (r : Result A) (f : A → Result B)
    → Returns r P
    → ((a : A) → P a → Returns (f a) Q)
    → Returns (r >>= f) Q
Returns-bind P Q (ok a) f h k = k a h
Returns-bind P Q (throw e) f h k = tt

pub Returns-map {ℓ} :
    {A : Type ℓ} (P Q : A → Type 0) (r : Result A)
    → Returns r P
    → ((a : A) → P a → Q a)
    → Returns r Q
Returns-map P Q (ok a) h k = k a h
Returns-map P Q (throw e) h k = tt

-- Of any result before, only that there is one.
pub Returns-after {ℓ κ} :
    {A : Type ℓ} {B : Type κ} (Q : B → Type 0) (r : Result A) (f : A → Result B)
    → ((a : A) → r ≡ ok a → Returns (f a) Q)
    → Returns (r >>= f) Q
Returns-after Q (ok a) f k = k a refl
Returns-after Q (throw e) f k = tt

pub Yields-Returns {ℓ} : {A : Type ℓ} (P : A → Type 0) (r : Result A) → Yields r P → Returns r P
Yields-Returns P (ok a) h = h
Yields-Returns P (throw e) h = tt
