-- ===== src/DaOram/Counters/Positions.antt =====
-- The leaf of an offset is derived from its group counter, the one before if it awaits its reset,
-- and its individual counter. What `update_counter_in` does to these, branch by branch.
use tiered_omap.Prelude.{
  ℕ, ◌+◌, ◌-◌, ◌%◌, ◌≤◌, ◌<◌, ◌≡◌, refl, sym, ◌∙◌, ◌⊎◌, inl, inr, Bool, true, false, ◌==◌, leb,
  if◌then◌else◌, length, length-set, get_or, set, arith, Bool-cases,
}
use tiered_omap.DaOram.Counters.{CounterBlock, CounterParams, word, mark_others, next_counter}
use tiered_omap.DaOram.Counters.Pending.{
  pending, pending-cleared, pending-marked, unmarked, get_or-set, get_or-set_self, get_or-marked,
  length-mark_others,
}

-- An offset is marked if it awaits its reset.
abbrev pub is_marked : CounterBlock → ℕ → Bool
is_marked cb i = get_or cb.backup i 0 == 1

abbrev pub group_of : CounterBlock → ℕ → ℕ
group_of cb i = if is_marked cb i then (cb.gc + (word - 1)) % word else cb.gc

abbrev pub count_of : CounterBlock → ℕ → ℕ
count_of cb i = get_or cb.ic i 0

module _ (p : CounterParams) (managed : ℕ → Bool) where
  -- While resets are pending, the counters stay low enough that no group counter goes on.
  pub record Paced (slack : ℕ) (cb : CounterBlock) : Type 0 where
    pub counts : length cb.ic ≡ p.num_ic
    pub backups : length cb.backup ≡ p.num_ic
    pub gc_lt : cb.gc < word
    pub few : pending managed 0 cb.backup + 1 ≤ p.num_ic
    pub low :
        (i : ℕ)
        → i < p.num_ic
        → managed i ≡ true
        → is_marked cb i ≡ false
        → (pending managed 0 cb.backup ≡ 0)
          ⊎ (count_of cb i + pending managed 0 cb.backup + slack ≤ p.num_ic)

  -- From `cb` to `cb'` the offset goes from one group to the next, and the others stay.
  pub record Updated (cb cb' : CounterBlock) (offset gc next_gc next_ic : ℕ) : Type 0 where
    pub paced : Paced 1 cb'
    pub current : gc ≡ group_of cb offset
    pub next : next_gc ≡ group_of cb' offset
    pub next_count : next_ic ≡ count_of cb' offset
    pub settled : is_marked cb' offset ≡ false
    pub others :
        (j : ℕ)
        → j < p.num_ic
        → managed j ≡ true
        → (offset == j) ≡ false
        → (group_of cb' j ≡ group_of cb j) × (count_of cb' j ≡ count_of cb j)

  module _ (cb : CounterBlock) (offset : ℕ) (v : Paced 2 cb) (o : offset < p.num_ic)
      (m : managed offset ≡ true) where
    counts_offset : (n : ℕ) → get_or (set cb.ic offset n) offset 0 ≡ n
    counts_offset n = get_or-set_self cb.ic offset n (omega (arith, v.counts))

    reset_one :
        is_marked cb offset ≡ true
        → Updated cb
            (record cb { ic = set cb.ic offset 0; backup = set cb.backup offset 0 })
            offset
            ((cb.gc + (word - 1)) % word)
            cb.gc
            0
    reset_one e =
        let c = counts_offset 0 in
        let b = get_or-set_self cb.backup offset 0 (omega (arith, v.backups)) in
        let n = pending-cleared managed cb.backup offset (omega (arith, v.backups)) e m in
        record {
          paced = record {
            counts = length-set cb.ic offset 0 ∙ v.counts;
            backups = length-set cb.backup offset 0 ∙ v.backups;
            gc_lt = v.gc_lt;
            few = omega (arith, v.few, n);
            low = λ i lt mi u. elim (Bool-cases (offset == i)) [
              | inl same ↦
                  let s : offset ≡ i = ground arith in rw (← s, c) (inr (omega (arith, v.few, n)))
              | inr apart ↦
                  let u' = rw (get_or-set cb.backup offset i 0 apart) at u in
                  rw (get_or-set cb.ic offset i 0 apart) (elim (v.low i lt mi u') [
                    | inl z ↦ inl (omega (arith, z, n))
                    | inr le ↦ inr (omega (arith, le, n))
                  ])
            ];
          };
          current = rw e refl;
          next = rw b refl;
          next_count = sym c;
          settled = rw b refl;
          others = λ j lt mj apart.
              rw (get_or-set cb.backup offset j 0 apart, get_or-set cb.ic offset j 0 apart)
                (refl, refl);
        }

    count_on :
        (n : ℕ)
        → is_marked cb offset ≡ false
        → n ≤ count_of cb offset + 1
        → Updated cb (record cb { ic = set cb.ic offset n }) offset cb.gc cb.gc n
    count_on n e le =
        let c = counts_offset n in
        record {
          paced = record {
            counts = length-set cb.ic offset n ∙ v.counts;
            backups = v.backups;
            gc_lt = v.gc_lt;
            few = v.few;
            low = λ i lt mi u. elim (Bool-cases (offset == i)) [
              | inl same ↦
                  let s : offset ≡ i = ground arith in
                  rw (← s, c)
                    (elim (v.low offset o m e) [
                      | inl z ↦ inl z
                      | inr k ↦ inr (omega (arith, k, le))
                    ])
              | inr apart ↦
                  rw (get_or-set cb.ic offset i n apart)
                    (elim (v.low i lt mi u) [ inl z ↦ inl z | inr k ↦ inr (omega (arith, k)) ])
            ];
          };
          current = rw e refl;
          next = rw e refl;
          next_count = sym c;
          settled = e;
          others = λ j lt mj apart. rw (get_or-set cb.ic offset j n apart) (refl, refl);
        }

    -- The group counter goes on: no reset is pending, so every other offset keeps its group as the
    -- one before.
    group_on :
        is_marked cb offset ≡ false
        → pending managed 0 cb.backup ≡ 0
        → Updated cb
            (record {
              gc = (cb.gc + 1) % word;
              ic = set cb.ic offset 0;
              backup = mark_others offset 0 cb.backup;
            })
            offset
            cb.gc
            ((cb.gc + 1) % word)
            0
    group_on e z =
        let c = counts_offset 0 in
        let own : (get_or (mark_others offset 0 cb.backup) offset 0 == 1) ≡ false =
          rw (get_or-marked offset cb.backup offset (omega (arith, v.backups)))
            (ground (arith, e)) in
        let n : pending managed 0 (mark_others offset 0 cb.backup) + 1 ≤ length cb.backup =
          pending-marked managed cb.backup offset (omega (arith, v.backups)) e in
        record {
          paced = record {
            counts = length-set cb.ic offset 0 ∙ v.counts;
            backups = length-mark_others offset 0 cb.backup ∙ v.backups;
            gc_lt = omega arith;
            few = omega (arith, n, v.backups);
            low = λ i lt mi u. elim (Bool-cases (offset == i)) [
              | inl same ↦
                  let s : offset ≡ i = ground arith in
                  rw (← s, c) (inr (omega (arith, n, v.backups)))
              | inr apart ↦
                  let w = rw (get_or-marked offset cb.backup i (omega (arith, v.backups))) at u in
                  absurd (ground arith)
            ];
          };
          current = rw e refl;
          next = rw own refl;
          next_count = sym c;
          settled = own;
          others = λ j lt mj apart.
              let w = get_or-marked offset cb.backup j (omega (arith, v.backups)) in
              let old = unmarked managed cb.backup j z mj in
              let apart' : (j == offset) ≡ false = ground arith in
              let back : ((cb.gc + 1) % word + (word - 1)) % word ≡ cb.gc =
                omega (arith, v.gc_lt) in
              rw (w, get_or-set cb.ic offset j 0 apart, old, apart') (back, refl);
        }

    -- A counter is full only if no reset is pending.
    full_settled :
        is_marked cb offset ≡ false
        → leb p.ic_max (count_of cb offset + 1) ≡ true
        → p.num_ic ≤ p.ic_max + 1
        → pending managed 0 cb.backup ≡ 0
    full_settled e full fits = elim (v.low offset o m e) [
      | inl z ↦ z
      | inr k ↦ ground (arith, k, fits)
    ]

    -- All branches.
    pub next_counter-Updated :
        p.num_ic ≤ p.ic_max + 1
        → let (cb', gc, next_gc, next_ic) = next_counter p cb offset in
          Updated cb (record cb' { ic = set cb'.ic offset next_ic }) offset gc next_gc next_ic
    unfolding next_counter
    next_counter-Updated fits = elim (Bool-cases (is_marked cb offset)) [
      | inl e ↦ rw e (reset_one e)
      | inr e ↦ elim (Bool-cases (leb p.ic_max (count_of cb offset + 1))) [
        | inl full ↦ rw (e, full) (group_on e (full_settled e full fits))
        | inr free ↦ rw (e, free) (count_on ((count_of cb offset + 1) % 256) e (omega arith))
      ]
    ]

    -- The group counter stays, or no reset is pending.
    pub next_counter-gc :
        p.num_ic ≤ p.ic_max + 1
        → ((next_counter p cb offset).0.gc ≡ cb.gc) ⊎ (pending managed 0 cb.backup ≡ 0)
    unfolding next_counter
    next_counter-gc fits = elim (Bool-cases (is_marked cb offset)) [
      | inl e ↦ rw e (inl refl)
      | inr e ↦ elim (Bool-cases (leb p.ic_max (count_of cb offset + 1))) [
        | inl full ↦ inr (full_settled e full fits)
        | inr free ↦ rw (e, free) (inl refl)
      ]
    ]
