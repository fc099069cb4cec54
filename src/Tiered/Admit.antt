-- ===== src/Tiered/Admit.antt =====
-- The cache after `cache_admit`, counted by keys.
use mathlib.Core.List.{Permᴰ}
use tiered_omap.Prelude.{
  ◌+◌, ◌≤◌, ◌≡◌, refl, sym, ◌∙◌, Bool, true, false, ◌&&◌, List, [], ◌∷◌, ℤ, ◌==ℤ◌, ==ℤ_iff,
  ==ℤ_refl, ==ℤ_comm, countb, countb-append, to_nat, arith, Bool-cases, inl, inr,
}
use tiered_omap.Maintenance.{
  CacheEntry, MaintenanceManager, cache_admit, should_promote, should_demote_cache,
}
use tiered_omap.Maintenance.Cache.{cache_admit-perm, should_promote-cache_admit}
use tiered_omap.Tiered.{KeySet}
use tiered_omap.Tiered.Placed.{is_for}

-- A set that tells two keys apart.
pub apart_by : (s : KeySet) (a b : ℤ) → s a ≡ true → s b ≡ false → (a ==ℤ b) ≡ false
apart_by s a b e f = elim (Bool-cases (a ==ℤ b)) [
  | inl g ↦ let c = (==ℤ_iff a b).0 g in absurd (let z = rw (c, f) at e in cc)
  | inr g ↦ g
]

countb-perm :
    (p : CacheEntry → Bool) {xs ys : List CacheEntry} → Permᴰ xs ys → countb p xs ≡ countb p ys
unfolding countb
countb-perm p Permᴰ.nil = refl
countb-perm p (Permᴰ.cons e q) = rw e (omega (arith, countb-perm p q))
countb-perm p (Permᴰ.swap e f) = rw (e, f) (omega arith)
countb-perm p (Permᴰ.trans q r) = countb-perm p q ∙ countb-perm p r

countb-le :
    (p q : CacheEntry → Bool) (xs : List CacheEntry)
    → ((x : CacheEntry) → p x ≡ true → q x ≡ true)
    → countb p xs ≤ countb q xs
unfolding countb
countb-le p q [] h = omega arith
countb-le p q (x ∷ xs) h = elim (Bool-cases (p x)) [
  | inl e ↦ rw (e, h x e) (omega (arith, countb-le p q xs h))
  | inr e ↦ elim (Bool-cases (q x)) [
    | inl f ↦ rw (e, f) (omega (arith, countb-le p q xs h))
    | inr f ↦ rw (e, f) (omega (arith, countb-le p q xs h))
  ]
]

module _ (maint : MaintenanceManager) (key fp : ℤ) (from_hot : Bool) where
  abbrev out : CacheEntry
  out = (cache_admit maint key fp from_hot).1

  abbrev cache' : List CacheEntry
  cache' = (cache_admit maint key fp from_hot).0.cache

  admit-count :
      (p : CacheEntry → Bool)
      → to_nat (p out) + countb p cache'
        ≡ countb p maint.cache + to_nat (p (record { key = key; fp = fp }))
  admit-count p =
      let a = countb-perm p (cache_admit-perm maint key fp from_hot).0 in
      let b = countb-append p maint.cache (record { key = key; fp = fp } ∷ []) in
      unfold countb in omega (arith, a, b)

  -- The cache gains the new key and loses the key of the entry that leaves.
  pub admit-is_for :
      (k : ℤ)
      → to_nat (out.key ==ℤ k) + countb (is_for k) cache'
        ≡ countb (is_for k) maint.cache + to_nat (key ==ℤ k)
  admit-is_for k = admit-count (is_for k)

  -- An entry with another `fp` than the new one was in the cache.
  pub admit-old : (out.fp ==ℤ fp) ≡ false → 1 ≤ countb (is_for out.key) maint.cache
  admit-old e =
      let q = λ (x : CacheEntry). x.key ==ℤ out.key && x.fp ==ℤ out.fp in
      let self : (out.key ==ℤ out.key && out.fp ==ℤ out.fp) ≡ true =
        rw (==ℤ_refl out.key, ==ℤ_refl out.fp) refl in
      let new : (key ==ℤ out.key && fp ==ℤ out.fp) ≡ false =
        rw (==ℤ_comm fp out.fp, e) (ground arith) in
      let c : 1 + countb q cache' ≡ countb q maint.cache + 0 = rw (self, new) at (admit-count q) in
      let le = countb-le q (is_for out.key) maint.cache (λ x h. ground (arith, h)) in
      omega (arith, c, le)

-- Where the manager decides to swap, the entry that leaves is one of the cache.
pub demote-old :
    (maint : MaintenanceManager) (key fp : ℤ)
    → should_demote_cache maint fp ≡ true
    → 1 ≤ countb (is_for (cache_admit maint key fp true).1.key) maint.cache
demote-old maint key fp e =
    let lt = sym (should_promote-cache_admit maint key fp).1 ∙ e in
    admit-old maint key fp true (ground (arith, lt))

pub promote-old :
    (maint : MaintenanceManager) (key fp : ℤ)
    → should_promote maint fp ≡ true
    → 1 ≤ countb (is_for (cache_admit maint key fp false).1.key) maint.cache
promote-old maint key fp e =
    let lt = sym (should_promote-cache_admit maint key fp).0 ∙ e in
    admit-old maint key fp false (ground (arith, lt))
