-- ===== src/DaOram/Counters/Keys.antt =====
-- `count_key`: the leaves of all keys of a counter block, before and after an access to one of them.
use tiered_omap.Prelude.{
  ℕ, zero, suc, ◌+◌, ◌-◌, ◌%◌, max, ◌≤◌, ◌<◌, ◌≡◌, refl, sym, ◌∙◌, ◌⊎◌, inl, inr, Bool, true, false,
  Option, none, some, pos, negsuc, ◌==ℤ◌, ◌==◌, ltb, if◌then◌else◌, length-set, get_or, set,
  replicate, length-replicate, arith, Bool-cases,
}
use tiered_omap.Common.{Host}
use tiered_omap.DaOram.Counters.{
  CounterBlock, CounterParams, word, Reset, prf_leaf, first_pending, perform_reset_in,
  update_counter_in, count_key, new_block,
}
use tiered_omap.DaOram.Counters.Pending.{
  pending, pending-cleared, pending-none, first_pending-found, get_or-set, get_or-set_self,
}
use tiered_omap.DaOram.Counters.Positions.{
  is_marked, group_of, count_of, Paced, Updated, next_counter-Updated, next_counter-gc,
}

-- The offsets that stand for a key.
abbrev pub managed_by : ℕ → ℕ → ℕ → Bool
managed_by base_key num_managed i = ltb (base_key + i) num_managed

abbrev pub leaf_of : CounterParams → CounterBlock → ℕ → ℕ → ℕ → ℕ
leaf_of p cb base_key lr i = prf_leaf p (base_key + i) (group_of cb i) (count_of cb i) lr

module _ (host : Host) (p : CounterParams) (base_key num_managed lr : ℕ) where
  abbrev managed : ℕ → Bool
  managed = managed_by base_key num_managed

  -- A reset moves the key it names from one leaf to the next and leaves the others in place.
  record ResetOk (cb cb' : CounterBlock) (r : Reset) : Type 0 where
    paced : Paced p managed 2 cb'
    keys :
        (j : ℕ)
        → j < p.num_ic
        → managed j ≡ true
        → ((r.key ==ℤ pos (base_key + j)) ≡ false)
            × (group_of cb' j ≡ group_of cb j)
            × (count_of cb' j ≡ count_of cb j)
          ⊎ (((r.key ==ℤ pos (base_key + j)) ≡ true)
              × (is_marked cb j ≡ true)
              × (r.cur_leaf ≡ leaf_of p cb base_key lr j)
              × (r.new_leaf ≡ pos (leaf_of p cb' base_key lr j)))

  module _ (cb : CounterBlock) (v : Paced p managed 1 cb) (n : ℕ) where
    no_reset :
        pending managed 0 cb.backup ≡ 0
        → ResetOk cb cb
            (record { key = negsuc 0; cur_leaf = host.draw n (max lr 1); new_leaf = negsuc 0 })
    no_reset z = record {
      paced = record {
        counts = v.counts;
        backups = v.backups;
        gc_lt = v.gc_lt;
        few = v.few;
        low = λ i lt mi u. inl z;
      };
      keys = λ j lt mj. inl (refl, refl, refl);
    }

    reset_at :
        (i : ℕ)
        → first_pending managed 0 cb.backup ≡ some i
        → ResetOk cb
            (record cb { ic = set cb.ic i 0; backup = set cb.backup i 0 })
            (record {
              key = pos (base_key + i);
              cur_leaf =
                  prf_leaf p (base_key + i) ((cb.gc + (word - 1)) % word) (get_or cb.ic i 0) lr;
              new_leaf = pos (prf_leaf p (base_key + i) cb.gc 0 lr);
            })
    reset_at i found =
        let (lt, e, m) = first_pending-found managed cb.backup i found in
        let few' = pending-cleared managed cb.backup i lt e m in
        let b = get_or-set_self cb.backup i 0 lt in
        let c = get_or-set_self cb.ic i 0 (omega (arith, lt, v.counts, v.backups)) in
        record {
          paced = record {
            counts = length-set cb.ic i 0 ∙ v.counts;
            backups = length-set cb.backup i 0 ∙ v.backups;
            gc_lt = v.gc_lt;
            few = omega (arith, v.few, few');
            low = λ j ltj mj u. elim (Bool-cases (i == j)) [
              | inl same ↦
                  let s : i ≡ j = ground arith in rw (← s, c) (inr (omega (arith, v.few, few')))
              | inr apart ↦
                  let u' = rw (get_or-set cb.backup i j 0 apart) at u in
                  rw (get_or-set cb.ic i j 0 apart) (elim (v.low j ltj mj u') [
                    | inl z ↦ inl (omega (arith, z, few'))
                    | inr le ↦ inr (omega (arith, le, few'))
                  ])
            ];
          };
          keys = λ j ltj mj. elim (Bool-cases (i == j)) [
            | inl same ↦
                let s : i ≡ j = ground arith in
                inr (ground arith, rw (← s) e, rw (← s, e) refl, rw (← s, b, c) refl)
            | inr apart ↦ inl (
              ground arith,
              rw (get_or-set cb.backup i j 0 apart) refl,
              get_or-set cb.ic i j 0 apart,
            )
          ];
        }

    reset_if :
        (k : Option ℕ)
        → first_pending managed 0 cb.backup ≡ k
        → ResetOk cb
            (perform_reset_in host p cb base_key num_managed lr n).0
            (perform_reset_in host p cb base_key num_managed lr n).1
    unfolding perform_reset_in
    reset_if none e = rw (perform_reset_in, e) (no_reset (pending-none managed 0 cb.backup e))
    reset_if (some i) e = rw (perform_reset_in, e) (reset_at i e)

    perform_reset_in-gc :
        (k : Option ℕ)
        → first_pending managed 0 cb.backup ≡ k
        → (perform_reset_in host p cb base_key num_managed lr n).0.gc ≡ cb.gc
    unfolding perform_reset_in
    perform_reset_in-gc none e = rw (perform_reset_in, e) refl
    perform_reset_in-gc (some i) e = rw (perform_reset_in, e) refl

    perform_reset_in-ok :
        ResetOk cb
          (perform_reset_in host p cb base_key num_managed lr n).0
          (perform_reset_in host p cb base_key num_managed lr n).1
    perform_reset_in-ok = reset_if (first_pending managed 0 cb.backup) refl

module _ (host : Host) (p : CounterParams) (cb : CounterBlock)
    (offset base_key num_managed lr n : ℕ) where
  abbrev pub counted : CounterBlock × (ℕ × ℕ) × Reset
  counted = count_key host p cb offset base_key num_managed lr n

  module _ (v : Paced p (managed_by base_key num_managed) 2 cb) (fits : p.num_ic ≤ p.ic_max + 1)
      (o : offset < p.num_ic) (m : managed_by base_key num_managed offset ≡ true) where
    abbrev cb₁ : CounterBlock
    cb₁ = (update_counter_in p cb offset (base_key + offset) lr).0

    updated :
        (gc : ℕ) × (next_gc : ℕ) × (next_ic : ℕ) × Updated p
          (managed_by base_key num_managed)
          cb
          cb₁
          offset
          gc
          next_gc
          next_ic
        × ((update_counter_in p cb offset (base_key + offset) lr).1
            ≡ prf_leaf p (base_key + offset) gc (count_of cb offset) lr)
        × ((update_counter_in p cb offset (base_key + offset) lr).2
            ≡ prf_leaf p (base_key + offset) next_gc next_ic lr)
    unfolding update_counter_in
    updated = (
      _,
      _,
      _,
      next_counter-Updated p (managed_by base_key num_managed) cb offset v o m fits,
      refl,
      refl,
    )

    reset_ok : ResetOk host p base_key num_managed lr cb₁ counted.0 counted.2
    unfolding count_key
    reset_ok =
        let (gc, next_gc, next_ic, u, cur, new) = updated in
        perform_reset_in-ok host p base_key num_managed lr cb₁ u.paced n

    gc_kept : (counted.0.gc ≡ cb.gc) ⊎ (pending (managed_by base_key num_managed) 0 cb.backup ≡ 0)
    unfolding count_key update_counter_in
    gc_kept =
        let (gc, next_gc, next_ic, u, cur, new) = updated in
        let same = perform_reset_in-gc host p base_key num_managed lr cb₁ u.paced n _ refl in
        elim (next_counter-gc p (managed_by base_key num_managed) cb offset v o m fits) [
          | inl e ↦ inl (same ∙ e)
          | inr z ↦ inr z
        ]

    -- An access to a managed offset of a paced block of at most ic_max + 1 offsets leaves a paced
    -- block; and its group counter is the one before, or no offset of a key awaited its reset before
    -- the access.
    pub count_key-Paced :
        Paced p (managed_by base_key num_managed) 2 counted.0
        × ((counted.0.gc ≡ cb.gc) ⊎ (pending (managed_by base_key num_managed) 0 cb.backup ≡ 0))
    count_key-Paced = (reset_ok.paced, gc_kept)

    -- For an access to a managed offset of a paced block of at most ic_max + 1 offsets: the current
    -- leaf is the leaf of the accessed key. Afterwards the accessed key is at the new leaf, the key
    -- that the reset names is at its new leaf, and every other managed key of the block is where it
    -- was; the reset names the leaf where its key was.
    pub count_key-leaf :
        (j : ℕ)
        → j < p.num_ic
        → managed_by base_key num_managed j ≡ true
        → let (cb', (cur, new), reset) = counted in
          (cur ≡ leaf_of p cb base_key lr offset)
          × (pos (leaf_of p cb' base_key lr j) ≡ (
              if offset == j
              then pos new
              else if reset.key ==ℤ pos (base_key + j)
              then reset.new_leaf
              else pos (leaf_of p cb base_key lr j)))
          × (((reset.key ==ℤ pos (base_key + j)) ≡ false)
              ⊎ (reset.cur_leaf ≡ leaf_of p cb base_key lr j))
    unfolding count_key
    count_key-leaf j lt mj =
        let (gc, next_gc, next_ic, u, cur, new) = updated in
        let at : counted.1.0 ≡ leaf_of p cb base_key lr offset = cur ∙ rw u.current refl in
        elim (Bool-cases (offset == j)) [
          | inl same ↦
              let s : offset ≡ j = ground arith in
              elim (reset_ok.keys j lt mj) [
                | inl (k, g, c) ↦ (at, rw (same, g, c, ← s, new, u.next, u.next_count) refl, inl k)
                | inr (k, b, c, d) ↦ absurd (let z = rw (← s, u.settled) at b in cc)
              ]
          | inr apart ↦
              let (g₁, c₁) = u.others j lt mj apart in
              elim (reset_ok.keys j lt mj) [
                | inl (k, g, c) ↦ (at, rw (apart, k, g, c, g₁, c₁) refl, inl k)
                | inr (k, b, c, d) ↦ (at, rw (apart, k) (sym d), inr (c ∙ rw (g₁, c₁) refl))
              ]
        ]

pending-replicate : (managed : ℕ → Bool) (i k : ℕ) → pending managed i (replicate k 0) ≡ 0
unfolding pending
pending-replicate managed i zero = refl
pending-replicate managed i (suc k) = omega (arith, pending-replicate managed (i + 1) k)

-- A fresh block is paced.
pub new_block-Paced :
    (p : CounterParams) (managed : ℕ → Bool) → 1 ≤ p.num_ic → Paced p managed 2 (new_block p.num_ic)
unfolding new_block
new_block-Paced p managed h =
    let z = pending-replicate managed 0 p.num_ic in
    record {
      counts = length-replicate p.num_ic 0;
      backups = length-replicate p.num_ic 0;
      gc_lt = omega arith;
      few = omega (arith, z);
      low = λ i lt mi u. inl z;
    }
