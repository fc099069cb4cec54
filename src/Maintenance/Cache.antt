-- ===== src/Maintenance/Cache.antt =====
-- `cache_admit` of `MaintenanceManager`: which entry leaves the cache.
use mathlib.Core.List.{Permᴰ}
use mathlib.Core.List.Permᴰ
use tiered_omap.Prelude.{
  ℕ, zero, suc, ◌+◌, ◌<◌, ◌≡◌, refl, sym, subst, ap, Bool, true, false, List, [], ◌∷◌, ◌++◌, ℤ,
  ltb_ℤ, ◌≤ℤ◌, if◌then◌else◌, length, All, arith, Bool-cases, inl, inr, ◌⊎◌,
}
use tiered_omap.Maintenance.{
  CacheEntry, MaintenanceManager, best_fp, gtb_ℤ, best_idx, entry_at, erase_idx, evict_idx,
  cache_admit, should_promote, should_demote_cache,
}

-- The index that the loop returns is that of an entry with the extreme value.
best_idx-entry :
    (better : ℤ → ℤ → Bool) (full : List CacheEntry) (rest : List CacheEntry) (i idx : ℕ) (cur : ℤ)
    → ((j : ℕ) → entry_at full (i + j) ≡ entry_at rest j)
    → (entry_at full idx).fp ≡ cur
    → idx < i
    → i + length rest ≡ length full
    → ((entry_at full (best_idx better i idx cur rest)).fp ≡ best_fp better cur rest)
      × (best_idx better i idx cur rest < length full ⊎ (length full ≡ 0))
unfolding best_idx best_fp entry_at
best_idx-entry better full [] i idx cur h e lt len = (e, inl (omega arith))
best_idx-entry better full (x ∷ rest) i idx cur h e lt len =
    let here : (entry_at full i).fp ≡ x.fp =
      let z : i + 0 ≡ i = omega arith in ap (λ (c : CacheEntry). c.fp) (rw z at (h 0)) in
    let shift : (j : ℕ) → entry_at full (i + 1 + j) ≡ entry_at rest j =
      λ j. let z : i + suc j ≡ i + 1 + j = omega arith in rw z at (h (suc j)) in
    elim (Bool-cases (better x.fp cur)) [
      | inl b ↦
          rw b
            (best_idx-entry better full rest (i + 1) i x.fp shift here (omega arith) (omega arith))
      | inr b ↦
          rw b (best_idx-entry better full rest (i + 1) idx cur shift e (omega arith) (omega arith))
    ]

erase_idx-perm :
    (xs : List CacheEntry) (i : ℕ) → i < length xs → Permᴰ (entry_at xs i ∷ erase_idx xs i) xs
unfolding entry_at erase_idx
erase_idx-perm [] i h = absurd (omega arith)
erase_idx-perm (x ∷ xs) zero h = Permᴰ.refl (x ∷ xs)
erase_idx-perm (x ∷ xs) (suc i) h =
    Permᴰ.trans (Permᴰ.swap refl refl) (Permᴰ.cons refl (erase_idx-perm xs i (omega arith)))

-- The running minimum is below all that it has seen; so for the maximum.
least-le :
    (cur : ℤ) (rest : List CacheEntry)
    → (best_fp ltb_ℤ cur rest ≤ℤ cur) × All (λ e. best_fp ltb_ℤ cur rest ≤ℤ e.fp) rest
unfolding best_fp
least-le cur [] = (omega arith, tt)
least-le cur (x ∷ rest) =
    let cur' = if ltb_ℤ x.fp cur then x.fp else cur in
    let b : (cur' ≤ℤ cur) × (cur' ≤ℤ x.fp) = ground arith in
    let (a, r) = least-le cur' rest in (omega (arith, a, b.0), (omega (arith, a, b.1), r))

greatest-le :
    (cur : ℤ) (rest : List CacheEntry)
    → (cur ≤ℤ best_fp gtb_ℤ cur rest) × All (λ e. e.fp ≤ℤ best_fp gtb_ℤ cur rest) rest
unfolding best_fp
greatest-le cur [] = (omega arith, tt)
greatest-le cur (x ∷ rest) =
    let cur' = if gtb_ℤ x.fp cur then x.fp else cur in
    let b : (cur ≤ℤ cur') × (x.fp ≤ℤ cur') = ground arith in
    let (a, r) = greatest-le cur' rest in (omega (arith, a, b.0), (omega (arith, a, b.1), r))

best_fp-append :
    (better : ℤ → ℤ → Bool) (cur : ℤ) (rest : List CacheEntry) (x : CacheEntry)
    → best_fp better cur (rest ++ x ∷ [])
      ≡ (if better x.fp (best_fp better cur rest) then x.fp else best_fp better cur rest)
unfolding best_fp
best_fp-append better cur [] x = refl
best_fp-append better cur (y ∷ rest) x =
    best_fp-append better (if better y.fp cur then y.fp else cur) rest x

-- The cache with the new entry, as the loop sees it.
abbrev pub admitted : MaintenanceManager → ℤ → ℤ → List CacheEntry
admitted mgr key fp = mgr.cache ++ record { key = key; fp = fp } ∷ []

-- `a` may leave a cache that holds `b`: from hot the greatest `fp` leaves, else the least.
abbrev pub Leaves : Bool → CacheEntry → CacheEntry → Type 0
Leaves true a b = b.fp ≤ℤ a.fp
Leaves false a b = a.fp ≤ℤ b.fp

evict_idx-entry :
    (from_hot : Bool) (e : CacheEntry) (rest : List CacheEntry)
    → ((entry_at (e ∷ rest) (evict_idx from_hot (e ∷ rest))).fp
        ≡ best_fp (if from_hot then gtb_ℤ else ltb_ℤ) e.fp rest)
      × (evict_idx from_hot (e ∷ rest) < length (e ∷ rest))
unfolding evict_idx entry_at
evict_idx-entry from_hot e rest =
    let (v, r) =
      best_idx-entry (if from_hot then gtb_ℤ else ltb_ℤ) (e ∷ rest) rest 1 0 e.fp
        (λ j. let z : 1 + j ≡ suc j = omega arith in rw z refl) refl (omega arith) (omega arith) in
    (v, ground arith)

evicted-Leaves :
    (from_hot : Bool) (e : CacheEntry) (rest : List CacheEntry)
    → All (λ b. Leaves from_hot (entry_at (e ∷ rest) (evict_idx from_hot (e ∷ rest))) b) (e ∷ rest)
evicted-Leaves true e rest =
    subst (λ v. All (λ b. b.fp ≤ℤ v) (e ∷ rest)) (sym (evict_idx-entry true e rest).0)
      (greatest-le e.fp rest)
evicted-Leaves false e rest =
    subst (λ v. All (λ b. v ≤ℤ b.fp) (e ∷ rest)) (sym (evict_idx-entry false e rest).0)
      (least-le e.fp rest)

admit_to :
    (from_hot : Bool) (cache : List CacheEntry) (x : CacheEntry)
    → Permᴰ
        (entry_at (cache ++ x ∷ []) (evict_idx from_hot (cache ++ x ∷ []))
          ∷ erase_idx (cache ++ x ∷ []) (evict_idx from_hot (cache ++ x ∷ [])))
        (cache ++ x ∷ [])
      × All
          (λ b.
            Leaves from_hot (entry_at (cache ++ x ∷ []) (evict_idx from_hot (cache ++ x ∷ []))) b)
          (cache ++ x ∷ [])
admit_to from_hot [] x =
    (erase_idx-perm (x ∷ []) _ (evict_idx-entry from_hot x []).1, evicted-Leaves from_hot x [])
admit_to from_hot (e ∷ cache) x = (
  erase_idx-perm (e ∷ cache ++ x ∷ []) _ (evict_idx-entry from_hot e (cache ++ x ∷ [])).1,
  evicted-Leaves from_hot e (cache ++ x ∷ []),
)

-- `cache_admit` loses no entry: the evicted one with the new cache is the old cache with the new
-- entry, up to order. The evicted entry has the greatest `fp` of all if the new entry comes from the
-- hot tier, and the least if it comes from the cold tier.
pub cache_admit-perm :
    (mgr : MaintenanceManager) (key fp : ℤ) (from_hot : Bool)
    → let (mgr', out) = cache_admit mgr key fp from_hot in
      Permᴰ (out ∷ mgr'.cache) (admitted mgr key fp)
      × All (λ b. Leaves from_hot out b) (admitted mgr key fp)
unfolding cache_admit
cache_admit-perm mgr key fp from_hot = admit_to from_hot mgr.cache (record { key = key; fp = fp })

promote_to :
    (cache : List CacheEntry) (x : CacheEntry)
    → ((elim cache [ [] ↦ false | e ∷ rest ↦ ltb_ℤ (best_fp ltb_ℤ e.fp rest) x.fp ])
        ≡ ltb_ℤ (entry_at (cache ++ x ∷ []) (evict_idx false (cache ++ x ∷ []))).fp x.fp)
      × ((elim cache [ [] ↦ false | e ∷ rest ↦ ltb_ℤ x.fp (best_fp gtb_ℤ e.fp rest) ])
          ≡ ltb_ℤ x.fp (entry_at (cache ++ x ∷ []) (evict_idx true (cache ++ x ∷ []))).fp)
promote_to [] x = (
  unfold evict_idx best_idx entry_at in ground arith,
  unfold evict_idx best_idx entry_at in ground arith,
)
promote_to (e ∷ cache) x =
    let v = (evict_idx-entry false e (cache ++ x ∷ [])).0 in
    let w = (evict_idx-entry true e (cache ++ x ∷ [])).0 in
    (
      rw (v, best_fp-append ltb_ℤ e.fp cache x) (ground arith),
      rw (w, best_fp-append gtb_ℤ e.fp cache x) (ground arith),
    )

-- `should_promote` says of a cold key whether `cache_admit` would evict an entry with a lesser `fp`,
-- and `should_demote_cache` of a hot key whether it would evict one with a greater `fp`.
pub should_promote-cache_admit :
    (mgr : MaintenanceManager) (key fp : ℤ)
    → (should_promote mgr fp ≡ ltb_ℤ (cache_admit mgr key fp false).1.fp fp)
      × (should_demote_cache mgr fp ≡ ltb_ℤ fp (cache_admit mgr key fp true).1.fp)
unfolding cache_admit should_promote should_demote_cache
should_promote-cache_admit mgr key fp = promote_to mgr.cache (record { key = key; fp = fp })
