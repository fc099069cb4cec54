-- ===== src/Tiered/Init/Order.antt =====
-- The order of the data is of no account to their table.
use mathlib.Core.List.{Permᴰ}
use tiered_omap.Prelude.{
  ◌≡◌, refl, sym, ap, ◌∙◌, subst, All, false, List, ℤ, ◌==ℤ◌, ==ℤ_iff, ==ℤ_comm, All-perm,
  Bool-cases, inl, inr,
}
use tiered_omap.Common.{Bytes}
use tiered_omap.Oram.Init.Leaves.{table_of}
use tiered_omap.Oram.Init.Load.{ValidKeys}

pub ValidKeys-perm : {xs ys : List (ℤ × Bytes)} → Permᴰ xs ys → ValidKeys ys → ValidKeys xs
ValidKeys-perm Permᴰ.nil v = tt
ValidKeys-perm (Permᴰ.cons {a} {b} e p) v =
    let k : a.0 ≡ b.0 = ap (λ x. x.0) e in
    (rw k v.0, rw k (All-perm (λ entry. (b.0 ==ℤ entry.0) ≡ false) p v.1), ValidKeys-perm p v.2)
ValidKeys-perm (Permᴰ.swap {a} {b} {a'} {b'} {l} e f) v =
    let k : a.0 ≡ b'.0 = ap (λ x. x.0) e in
    let k' : b.0 ≡ a'.0 = ap (λ x. x.0) f in
    (
      rw k v.2.0,
      (
        rw (k, k') (==ℤ_comm b'.0 a'.0 ∙ v.1.0),
        subst (λ z. All (λ entry. (z ==ℤ entry.0) ≡ false) l) (sym k) v.2.1,
      ),
      (rw k' v.0, subst (λ z. All (λ entry. (z ==ℤ entry.0) ≡ false) l) (sym k') v.1.1, v.2.2),
    )
ValidKeys-perm (Permᴰ.trans p q) v = ValidKeys-perm p (ValidKeys-perm q v)

pub table_of-perm :
    {xs ys : List (ℤ × Bytes)} (k : ℤ) → Permᴰ xs ys → ValidKeys ys → table_of xs k ≡ table_of ys k
unfolding table_of
table_of-perm k Permᴰ.nil v = refl
table_of-perm k (Permᴰ.cons {a} {b} e p) v =
    let key : a.0 ≡ b.0 = ap (λ x. x.0) e in
    let value : a.1 ≡ b.1 = ap (λ x. x.1) e in rw (key, value, table_of-perm k p v.2) refl
table_of-perm k (Permᴰ.swap {a} {b} {a'} {b'} {l} e f) v =
    let key : a.0 ≡ b'.0 = ap (λ x. x.0) e in
    let value : a.1 ≡ b'.1 = ap (λ x. x.1) e in
    let key' : b.0 ≡ a'.0 = ap (λ x. x.0) f in
    let value' : b.1 ≡ a'.1 = ap (λ x. x.1) f in
    rw (key, value, key', value')
      (elim (Bool-cases (b'.0 ==ℤ k)) [
        | inl g ↦
            let c = (==ℤ_iff b'.0 k).0 g in
            let n : (a'.0 ==ℤ k) ≡ false = rw (← c) v.1.0 in rw (g, n) refl
        | inr g ↦ rw g refl
      ])
table_of-perm k (Permᴰ.trans p q) v = table_of-perm k p (ValidKeys-perm q v) ∙ table_of-perm k q v
