-- ===== src/Maintenance/Epochs.antt =====
-- `update_meta` over the accesses of a key: what the counters of its metadata count.
use tiered_omap.Prelude.{
  ℕ, zero, suc, ◌+◌, ◌≤◌, ◌<◌, ◌≡◌, refl, List, [], ◌∷◌, pos, ltb, ltb→lt, ◌==◌, if◌then◌else◌, All,
  All-map, to_nat, arith, Bool-cases, inl, inr,
}
use tiered_omap.Common.Codec.{EpochMeta, no_epoch}
use tiered_omap.Maintenance.{MaintenanceManager, update_meta}

-- The metadata of a key that was accessed in the given epochs, the last one first.
unfoldable pub meta_after : MaintenanceManager → List ℕ → EpochMeta
meta_after mgr [] = no_epoch
meta_after mgr (e ∷ epochs) = update_meta (record mgr { obs_epoch = e }) (meta_after mgr epochs)

-- Epochs never go back.
abbrev pub Descending : List ℕ → Type 0
Descending [] = Unit
Descending (e ∷ epochs) = All (λ e'. e' ≤ e) epochs × Descending epochs

-- How many accesses fall into an epoch.
unfoldable pub accesses_in : ℕ → List ℕ → ℕ
accesses_in e [] = 0
accesses_in e (e' ∷ epochs) = to_nat (e' == e) + accesses_in e epochs

accesses_in-above : (e : ℕ) (epochs : List ℕ) → All (λ e'. e' < e) epochs → accesses_in e epochs ≡ 0
unfolding accesses_in
accesses_in-above e [] h = refl
accesses_in-above e (e' ∷ epochs) h = ground (arith, accesses_in-above e epochs h.1)

-- The accesses of the epoch before `e`.
abbrev pub previous : ℕ → List ℕ → ℕ
previous zero epochs = 0
previous (suc e) epochs = accesses_in e epochs

abbrev counters : ℕ → ℕ → ℕ → EpochMeta
counters c e f = record { cnt = pos c; ep = pos e; fp = pos f }

module _ (mgr : MaintenanceManager) (c e' f : ℕ) where
  update_later :
      (e : ℕ)
      → e' < e
      → update_meta (record mgr { obs_epoch = e }) (counters c e' f)
        ≡ counters 1 e (if suc e' == e then c else 0)
  unfolding update_meta
  update_later e h = ground arith

  update_same :
      update_meta (record mgr { obs_epoch = e' }) (counters c e' f) ≡ counters (c + 1) e' f
  unfolding update_meta
  update_same = ground arith

previous-later :
    (e e' : ℕ) (epochs : List ℕ)
    → e' < e
    → All (λ x. x ≤ e') epochs
    → previous e (e' ∷ epochs) ≡ (if suc e' == e then accesses_in e' (e' ∷ epochs) else 0)
unfolding accesses_in
previous-later zero e' epochs h a = absurd (omega arith)
previous-later (suc e) e' epochs h a = elim (Bool-cases (e' == e)) [
  | inl s ↦ let s' : e' ≡ e = ground arith in rw s' (ground arith)
  | inr s ↦
      let z =
        accesses_in-above e epochs
          (All-map (λ x. x ≤ e') (λ x. x < e) (λ x k. ground arith) epochs a) in
      ground (arith, z)
]

previous-same : (e : ℕ) (epochs : List ℕ) → previous e (e ∷ epochs) ≡ previous e epochs
unfolding accesses_in
previous-same zero epochs = refl
previous-same (suc e) epochs = ground arith

-- `cnt` counts the accesses of the last epoch in which the key was accessed, `ep` is that epoch, and
-- `fp` counts the accesses of the epoch just before it.
pub meta_after-counts :
    (mgr : MaintenanceManager) (e : ℕ) (epochs : List ℕ)
    → Descending (e ∷ epochs)
    → meta_after mgr (e ∷ epochs)
      ≡ record { cnt = pos (accesses_in e (e ∷ epochs)); ep = pos e; fp = pos (previous e epochs) }
unfolding meta_after
meta_after-counts mgr zero [] d = unfold update_meta accesses_in in refl
meta_after-counts mgr (suc e) [] d = unfold update_meta accesses_in in ground arith
meta_after-counts mgr e (e' ∷ epochs) d =
    let ih = meta_after-counts mgr e' epochs d.1 in
    let c = accesses_in e' (e' ∷ epochs) in
    elim (Bool-cases (ltb e' e)) [
      | inl lt ↦
          let lt' = ltb→lt e' e lt in
          let z =
            accesses_in-above e (e' ∷ epochs)
              (lt', All-map (λ x. x ≤ e') (λ x. x < e) (λ x k. omega arith) epochs d.1.0) in
          let one : accesses_in e (e ∷ e' ∷ epochs) ≡ 1 = unfold accesses_in in ground (arith, z) in
          rw (ih, one, previous-later e e' epochs lt' d.1.0)
            (update_later mgr c e' (previous e' epochs) e lt')
      | inr ge ↦
          let same : e' ≡ e = ground arith in
          let more : accesses_in e' (e' ∷ e' ∷ epochs) ≡ c + 1 =
            unfold accesses_in in ground arith in
          rw (← same, ih, more, previous-same e' epochs) (update_same mgr c e' (previous e' epochs))
    ]
