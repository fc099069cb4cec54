-- ===== src/Oram/Written.antt =====
-- The table after a write, and the block that `access` rewrites in the stash.
use tiered_omap.Prelude.{
  ◌≡◌, refl, sym, Bool, false, Option, none, some, List, [], ◌∷◌, ℤ, ◌==ℤ◌, ==ℤ_iff, if◌then◌else◌,
  All, countb, arith, Bool-cases, inl, inr,
}
use tiered_omap.Common.{Bytes, Block}
use tiered_omap.Oram.{retarget}
use tiered_omap.Oram.Valid.{Table, is_some}

-- The table after an access that writes `new_value`, if one is given.
abbrev pub written : Table → ℤ → Option Bytes → Table
written m key none k = m k
written m key (some value) k = if key ==ℤ k then some value else m k

pub written-other :
    (m : Table) (key : ℤ) (new_value : Option Bytes) (k : ℤ)
    → (key ==ℤ k) ≡ false
    → written m key new_value k ≡ m k
written-other m key none k e = refl
written-other m key (some value) k e = rw e

pub written-retarget :
    (m : Table) (key leaf : ℤ) (new_value : Option Bytes) (b : Block)
    → m b.key ≡ some b.value
    → b.key ≡ key
    → written m key new_value b.key ≡ some (retarget new_value leaf b).value
written-retarget m key leaf none b e k = e
written-retarget m key leaf (some value) b e k = rw ((==ℤ_iff key b.key).1 (sym k))

pub is_some-written :
    (m : Table) (key : ℤ) (new_value : Option Bytes) (v : Bytes) (k : ℤ)
    → m key ≡ some v
    → is_some (written m key new_value k) ≡ is_some (m k)
is_some-written m key none v k e = refl
is_some-written m key (some value) v k e = elim (Bool-cases (key ==ℤ k)) [
  | inl f ↦ let f' = (==ℤ_iff key k).0 f in rw (f, ← f', e)
  | inr f ↦ rw f
]

pub retarget-key : (nv : Option Bytes) (leaf : ℤ) (b : Block) → (retarget nv leaf b).key ≡ b.key
retarget-key none leaf b = refl
retarget-key (some value) leaf b = refl

pub retarget-leaf : (nv : Option Bytes) (leaf : ℤ) (b : Block) → (retarget nv leaf b).leaf ≡ leaf
retarget-leaf none leaf b = refl
retarget-leaf (some value) leaf b = refl

pub countb-none :
    (p : Block → Bool) (bucket : List Block) → All (λ b. p b ≡ false) bucket → countb p bucket ≡ 0
unfolding countb
countb-none p [] h = refl
countb-none p (b ∷ bucket) h = rw h.0 (omega (arith, countb-none p bucket h.1))
