-- ===== src/Prelude/Count.antt =====
-- Predicates and counts over lists: `All`, `countb` (the elements that pass a test), Boolean
-- membership of numbers, and ascending lists.
use Prim.Native.Nat.{ℕ, ◌+◌}
use mathlib.Core.Path.{◌≡◌, sym, subst}
use mathlib.Core.Bool.{Bool, true, false, ◌||◌}
use mathlib.Core.List.{List, [], ◌∷◌, ◌++◌}
use mathlib.Core.List.{Permᴰ}
use native.Mathlib.Omega.{arith}
use tiered_omap.Prelude.Tests.{◌==◌}

abbrev pub to_nat : Bool → ℕ
to_nat true = 1
to_nat false = 0

module _ {ℓ} {A : Type ℓ} where
  abbrev pub All {κ} : (A → Type κ) → List A → Type κ
  All P [] = Unit
  All P (x ∷ xs) = P x × All P xs

  pub All-append {κ} : (P : A → Type κ) (xs ys : List A) → All P xs → All P ys → All P (xs ++ ys)
  All-append P [] ys h k = k
  All-append P (x ∷ xs) ys h k = (h.0, All-append P xs ys h.1 k)

  pub All-map {κ κ'} :
      (P : A → Type κ) (Q : A → Type κ')
      → ((x : A) → P x → Q x)
      → (xs : List A) → All P xs
      → All Q xs
  All-map P Q f [] h = tt
  All-map P Q f (x ∷ xs) h = (f x h.0, All-map P Q f xs h.1)

  pub All-perm {κ} : (P : A → Type κ) {xs ys : List A} → Permᴰ xs ys → All P ys → All P xs
  All-perm P Permᴰ.nil h = tt
  All-perm P (Permᴰ.cons e p) h = (subst P (sym e) h.0, All-perm P p h.1)
  All-perm P (Permᴰ.swap e f) h = (subst P (sym e) h.1.0, (subst P (sym f) h.0, h.1.1))
  All-perm P (Permᴰ.trans p q) h = All-perm P p (All-perm P q h)

  unfoldable pub countb : (A → Bool) → List A → ℕ
  countb p [] = 0
  countb p (x ∷ xs) = to_nat (p x) + countb p xs

  pub countb-append :
      (p : A → Bool) (xs ys : List A) → countb p (xs ++ ys) ≡ countb p xs + countb p ys
  unfolding countb
  countb-append p [] ys = omega arith
  countb-append p (x ∷ xs) ys = omega (arith, countb-append p xs ys)

abbrev pub elem : ℕ → List ℕ → Bool
elem x [] = false
elem x (y ∷ ys) = (x == y) || elem x ys
