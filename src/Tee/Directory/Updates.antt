-- ===== src/Tee/Directory/Updates.antt =====
-- `update_pos` and `bump_freq` change no key.
use tiered_omap.Prelude.{
  ℕ, zero, suc, ◌+◌, ◌≤◌, ◌<◌, pos, ltb_ℤ, ◌-ℤ◌, ◌+ℤ◌, ◌≡◌, refl, sym, ap, ◌∙◌, subst, Bool, true,
  false, ◌&&◌, ◌||◌, List, [], ◌∷◌, map, ℤ, ◌==ℤ◌, ==ℤ_iff, countb, if◌then◌else◌, ltb, length,
  arith, Bool-cases, inl, inr,
}
use tiered_omap.Common.{invalid_key, invalid_leaf}
use tiered_omap.Common.Codec.RoundTrip.{IsInt}
use tiered_omap.Tee.Oblivious.{o_mov_i, o_equal}
use tiered_omap.Tee.Oblivious.Bits.{o_equal_lem, o_less_lem}
use tiered_omap.Tee.Directory.{
  Entry, PackedDirectory, find_label, lookup, set_labels, update_pos, bump_entry, bump_freq,
  entry_at,
}
use tiered_omap.Tee.Directory.Labels.{Ints, is_for, find_label-absent}
use tiered_omap.Tee.Directory.Valid.{IsDirectory}
use tiered_omap.Tee.Directory.Demote.{entry_at-IsInt}

-- The keys of the entries, in order.
abbrev keys_of : List Entry → List ℤ
keys_of [] = []
keys_of (e ∷ entries) = e.key ∷ keys_of entries

-- Validity is about the keys alone.
same_keys-Ints : (es es' : List Entry) → keys_of es ≡ keys_of es' → Ints es → Ints es'
same_keys-Ints [] [] e ints = tt
same_keys-Ints [] (y ∷ ys) e ints =
    absurd (let z : ◌≡◌ {A = List ℤ} [] (y.key ∷ keys_of ys) = e in cc)
same_keys-Ints (x ∷ xs) [] e ints =
    absurd (let z : ◌≡◌ {A = List ℤ} (x.key ∷ keys_of xs) [] = e in cc)
same_keys-Ints (x ∷ xs) (y ∷ ys) e ints =
    let h : x.key ≡ y.key = (let z : x.key ∷ keys_of xs ≡ y.key ∷ keys_of ys = e in cc) in
    let t : keys_of xs ≡ keys_of ys = (let z : x.key ∷ keys_of xs ≡ y.key ∷ keys_of ys = e in cc) in
    (subst IsInt h ints.0, same_keys-Ints xs ys t ints.1)

same_keys-count :
    (k : ℤ) (es es' : List Entry)
    → keys_of es ≡ keys_of es'
    → (countb (is_for k) es ≡ countb (is_for k) es') × (length es ≡ length es')
unfolding countb
same_keys-count k [] [] e = (refl, refl)
same_keys-count k [] (y ∷ ys) e =
    absurd (let z : ◌≡◌ {A = List ℤ} [] (y.key ∷ keys_of ys) = e in cc)
same_keys-count k (x ∷ xs) [] e =
    absurd (let z : ◌≡◌ {A = List ℤ} (x.key ∷ keys_of xs) [] = e in cc)
same_keys-count k (x ∷ xs) (y ∷ ys) e =
    let h : x.key ≡ y.key = (let z : x.key ∷ keys_of xs ≡ y.key ∷ keys_of ys = e in cc) in
    let t : keys_of xs ≡ keys_of ys = (let z : x.key ∷ keys_of xs ≡ y.key ∷ keys_of ys = e in cc) in
    let r = same_keys-count k xs ys t in (rw (h, r.0) refl, ap suc r.1)

same_keys-IsDirectory :
    (d : PackedDirectory) (es : List Entry)
    → keys_of d.entries ≡ keys_of es
    → IsDirectory d
    → IsDirectory (record d { entries = es })
same_keys-IsDirectory d es e v = record {
  ints = same_keys-Ints d.entries es e v.ints;
  unique = λ k rk. subst (λ n. n ≤ 1) (same_keys-count k d.entries es e).0 (v.unique k rk);
  sized = sym (same_keys-count invalid_key d.entries es e).1 ∙ v.sized;
  counted = ap (λ n. d.count + n) (sym (same_keys-count invalid_key d.entries es e).0) ∙ v.counted;
}

set_labels-keys :
    (key label : ℤ) (found : Bool) (entries : List Entry)
    → keys_of entries ≡ keys_of (set_labels key label found entries).0
unfolding set_labels
set_labels-keys key label found [] = refl
set_labels-keys key label found (e ∷ entries) =
    ap (λ ks. e.key ∷ ks) (set_labels-keys key label (found || o_equal e.key key) entries)

set_labels-flag :
    (key label : ℤ) (found : Bool) (entries : List Entry)
    → IsInt key
    → Ints entries
    → (set_labels key label found entries).1 ≡ (found || ltb 0 (countb (is_for key) entries))
unfolding set_labels countb
set_labels-flag key label found [] int ints = ground arith
set_labels-flag key label found (e ∷ entries) int ints = elim (Bool-cases (e.key ==ℤ key)) [
  | inl f ↦
      rw (o_equal_lem e.key key ints.0 int, f)
        (set_labels-flag key label (found || true) entries int ints.1 ∙ ground arith)
  | inr f ↦
      rw (o_equal_lem e.key key ints.0 int, f)
        (set_labels-flag key label (found || false) entries int ints.1 ∙ ground arith)
]

set_labels-label :
    (key label : ℤ) (found : Bool) (entries : List Entry) (k r : ℤ)
    → IsInt key
    → IsInt k
    → Ints entries
    → find_label k r (set_labels key label found entries).0
      ≡ (if key ==ℤ k && ltb 0 (countb (is_for key) entries) then label else find_label k r entries)
unfolding set_labels find_label o_mov_i countb
set_labels-label key label found [] k r int i ints = ground arith
set_labels-label key label found (e ∷ entries) k r int i ints = elim (Bool-cases (key ==ℤ k)) [
  | inr g ↦ elim (Bool-cases (e.key ==ℤ key)) [
    | inl f ↦
        let c = (==ℤ_iff e.key key).0 f in
        let g' : o_equal e.key k ≡ false = o_equal_lem e.key k ints.0 i ∙ rw c g in
        rw (o_equal_lem e.key key ints.0 int, f, g', g)
          (set_labels-label key label (found || true) entries k r int i ints.1 ∙ rw g refl)
    | inr f ↦
        rw (o_equal_lem e.key key ints.0 int, f, g)
          (set_labels-label key label (found || false) entries k _ int i ints.1 ∙ rw g refl)
  ]
  | inl g ↦
      let c = (==ℤ_iff key k).0 g in
      elim (Bool-cases (e.key ==ℤ key)) [
        | inl f ↦
            let one : (ltb 0 (1 + countb (is_for key) entries)) ≡ true = ground arith in
            let t : o_equal e.key k ≡ true = o_equal_lem e.key k ints.0 i ∙ rw (← c) f in
            let h = set_labels-label key label (found || true) entries k label int i ints.1 in
            let last : (if ltb 0 (countb (is_for key) entries)
                  then label
                  else find_label k label entries)
                ≡ label =
              elim (Bool-cases (ltb 0 (countb (is_for key) entries))) [
                | inl y ↦ rw y refl
                | inr y ↦
                    let z : countb (is_for key) entries ≡ 0 = ground (arith, y) in
                    rw y (find_label-absent k label entries ints.1 i (rw c at z))
              ] in
            rw (o_equal_lem e.key key ints.0 int, f, t, g, one) (h ∙ rw g last)
        | inr f ↦
            let t : o_equal e.key k ≡ false = o_equal_lem e.key k ints.0 i ∙ rw (← c) f in
            let z : 0 + countb (is_for key) entries ≡ countb (is_for key) entries = omega arith in
            rw (o_equal_lem e.key key ints.0 int, f, t, g, z)
              (set_labels-label key label (found || false) entries k r int i ints.1 ∙ rw g refl)
      ]
]

-- In a valid directory, `update_pos` of a key of the range of an `int` says whether the key is there, gives
-- it the label if it is, and keeps the other labels and the validity.
pub update_pos_lem :
    (d : PackedDirectory) (key label : ℤ)
    → IsDirectory d
    → IsInt key
    → ((update_pos d key label).1 ≡ ltb 0 (countb (is_for key) d.entries))
      × IsDirectory (update_pos d key label).0
      × ((k : ℤ)
          → IsInt k
          → lookup (update_pos d key label).0 k
            ≡ (if key ==ℤ k && (update_pos d key label).1 then label else lookup d k))
unfolding update_pos lookup
update_pos_lem d key label v int =
    let flag = set_labels-flag key label false d.entries int v.ints in
    (
      flag,
      same_keys-IsDirectory d _ (set_labels-keys key label false d.entries) v,
      λ k i. rw flag (set_labels-label key label false d.entries k invalid_leaf int i v.ints),
    )

bump-keys :
    (key epoch : ℤ) (entries : List Entry) (k r : ℤ)
    → (keys_of entries ≡ keys_of (map (bump_entry key epoch) entries))
      × (find_label k r (map (bump_entry key epoch) entries) ≡ find_label k r entries)
unfolding bump_entry find_label
bump-keys key epoch [] k r = (refl, refl)
bump-keys key epoch (e ∷ entries) k r =
    let h = bump-keys key epoch entries k (o_mov_i (o_equal e.key k) r e.pos_label) in
    (ap (λ ks. e.key ∷ ks) h.0, h.1)

-- The key in the range of an `int`, an entry in it, and a difference of epochs that does not overflow: the
-- bump by the order of the epochs.
bump_entry-cases :
    (key epoch : ℤ) (e : Entry)
    → IsInt key
    → IsInt e.key
    → IsInt (e.freq_epoch -ℤ epoch)
    → bump_entry key epoch e ≡ (
        if e.key ==ℤ key
        then if ltb_ℤ e.freq_epoch epoch
          then record e { freq_count = pos 1; freq_epoch = epoch }
          else record e { freq_count = e.freq_count +ℤ pos 1 }
        else e)
unfolding bump_entry o_mov_i
bump_entry-cases key epoch e int i d =
    let same = o_equal_lem e.key key i int in
    let less = o_less_lem e.freq_epoch epoch d in
    elim (Bool-cases (e.key ==ℤ key)) [
      | inr f ↦ rw (same, f) refl
      | inl f ↦ elim (Bool-cases (ltb_ℤ e.freq_epoch epoch)) [
        | inl g ↦ rw (same, less, f, g) refl
        | inr g ↦ rw (same, less, f, g) refl
      ]
    ]

bump-at :
    (key epoch : ℤ) (entries : List Entry) (i : ℕ)
    → i < length entries
    → entry_at (map (bump_entry key epoch) entries) i ≡ bump_entry key epoch (entry_at entries i)
unfolding entry_at
bump-at key epoch [] i lt = absurd (omega arith)
bump-at key epoch (e ∷ entries) zero lt = refl
bump-at key epoch (e ∷ entries) (suc i) lt = bump-at key epoch entries i (omega arith)

-- `bump_freq` of a key keeps the validity of a directory and every label. Of the entries, only that of the
-- key changes: an older epoch than the current one is replaced by it and the count starts again at
-- one, and else the count goes up by one. The key is in the range of an `int`, and the difference of
-- the epochs does not overflow.
pub bump_freq_lem :
    (d : PackedDirectory) (key epoch : ℤ)
    → IsDirectory d
    → IsInt key
    → IsDirectory (bump_freq d key epoch)
      × ((k : ℤ) → lookup (bump_freq d key epoch) k ≡ lookup d k)
      × ((i : ℕ)
          → i < d.capacity
          → IsInt ((entry_at d.entries i).freq_epoch -ℤ epoch)
          → entry_at (bump_freq d key epoch).entries i ≡ (
              let e = entry_at d.entries i in
              if e.key ==ℤ key
              then if ltb_ℤ e.freq_epoch epoch
                then record e { freq_count = pos 1; freq_epoch = epoch }
                else record e { freq_count = e.freq_count +ℤ pos 1 }
              else e))
unfolding bump_freq lookup
bump_freq_lem d key epoch v int = (
  same_keys-IsDirectory d _ (bump-keys key epoch d.entries key key).0 v,
  λ k. (bump-keys key epoch d.entries k invalid_leaf).1,
  λ i lt range.
      bump-at key epoch d.entries i (omega (arith, lt, v.sized))
      ∙ bump_entry-cases key epoch (entry_at d.entries i) int (entry_at-IsInt d.entries i v.ints)
          range,
)
