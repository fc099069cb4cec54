-- ===== src/Tee/Enclave/Slots.antt =====
-- One slot of a path against the stash of the enclave's ORAM, and the slots of one bucket.
use tiered_omap.Prelude.{
  ℕ, ◌+◌, ◌≡◌, refl, Bool, true, false, not, ◌&&◌, List, [], ◌∷◌, ℤ, ◌==ℤ◌, ==ℤ_iff, ==ℤ_comm,
  length, All, countb, to_nat, arith, Bool-cases, inl, inr, ap, suc, ◌∙◌,
}
use tiered_omap.Common.{Block, invalid_key, is_dummy}
use tiered_omap.Oram.Crypt.{has_key}
use tiered_omap.Common.Codec.RoundTrip.{IsInt}
use tiered_omap.Tee.Oblivious.{o_mov_i}
use tiered_omap.Tee.Oblivious.Bits.{o_equal_lem}
use tiered_omap.Tee.Oblivious.Moves.{o_mov_bytes_lem}
use tiered_omap.Tee.Enclave.{EnclaveOram, is_real, path_contains_oblivious}
use tiered_omap.Tee.Enclave.Evict.{fill_slot, fill_bucket}

-- The fields are in the ranges of their types, and the value has the size of all values.
abbrev pub Sized : ℕ → Block → Type 0
Sized value_size b = (length b.value ≡ value_size) × IsInt b.key × IsInt b.leaf

-- A block whose key became `INVALID_KEY`.
abbrev pub cleared : Block → Block
cleared b = record b { key = invalid_key }

pub is_real_lem : (b : Block) → IsInt b.key → is_real b ≡ not (is_dummy b)
is_real_lem b i = rw (o_equal_lem b.key invalid_key i (omega arith)) refl

pub dummy-has_key :
    (k : ℤ) (b : Block) → (k ==ℤ invalid_key) ≡ false → is_dummy b ≡ true → has_key k b ≡ false
dummy-has_key k b rk d = rw ((==ℤ_iff b.key invalid_key).0 d, ==ℤ_comm invalid_key k) rk

abbrev pub Entry : ℕ → (Block → Type 0) → Block → Type 0
Entry value_size P b = Sized value_size b × P b

-- A block that is real stands where the path of its leaf passes.
abbrev pub OnPath : EnclaveOram → ℕ → Block → Type 0
OnPath o node b = is_dummy b ≡ false → path_contains_oblivious o b.leaf node ≡ true

length-fill_slot :
    (o : EnclaveOram) (node : ℕ) (stash : List Block) (slot : Block) (filled : Bool)
    → length (fill_slot o node slot filled stash).1 ≡ length stash
unfolding fill_slot
length-fill_slot o node [] slot filled = refl
length-fill_slot o node (sb ∷ stash) slot filled = ap suc (length-fill_slot o node stash _ _)

pub length-fill_bucket :
    (o : EnclaveOram) (node : ℕ) (bucket stash : List Block)
    → length (fill_bucket o node bucket stash).1 ≡ length stash
unfolding fill_bucket
length-fill_bucket o node [] stash = refl
length-fill_bucket o node (slot ∷ bucket) stash =
    length-fill_bucket o node bucket _ ∙ length-fill_slot o node stash slot false

module _ (o : EnclaveOram) (node : ℕ) (value_size : ℕ) (P : Block → Type 0) where
  fill_slot_full :
      (slot : Block) (stash : List Block)
      → length slot.value ≡ value_size
      → All (Entry value_size P) stash
      → fill_slot o node slot true stash ≡ (slot, stash)
  unfolding fill_slot o_mov_i
  fill_slot_full slot [] l h = refl
  fill_slot_full slot (sb ∷ stash) l h =
      let no : (is_real sb && path_contains_oblivious o sb.leaf node && false) ≡ false =
        ground arith in
      let len : length slot.value ≡ length sb.value = omega (arith, l, h.0.0.0) in
      rw (no, o_mov_bytes_lem false slot.value sb.value len, fill_slot_full slot stash l h.1) refl

  -- What a slot that was empty and the stash became.
  pub record Taken (new : Block) (stash stash' : List Block) : Type 0 where
    pub entry : Entry value_size P new
    pub on_path : OnPath o node new
    pub entries : All (Entry value_size P) stash'
    pub count :
        (k : ℤ)
        → (k ==ℤ invalid_key) ≡ false
        → to_nat (has_key k new) + countb (has_key k) stash' ≡ countb (has_key k) stash

  fills_here :
      (sb : Block) (stash : List Block)
      → P (cleared sb)
      → (is_real sb && path_contains_oblivious o sb.leaf node && true) ≡ true
      → All (Entry value_size P) (sb ∷ stash)
      → Taken sb (sb ∷ stash) (cleared sb ∷ stash)
  unfolding countb
  fills_here sb stash c e h = record {
    entry = h.0;
    on_path = λ _. ground (arith, e);
    entries = (((h.0.0.0, omega arith, h.0.0.2), c), h.1);
    count = λ k rk. rw (dummy-has_key k (cleared sb) rk refl) (omega arith);
  }

  fills_later :
      (new sb : Block) (stash stash' : List Block)
      → Entry value_size P sb
      → Taken new stash stash'
      → Taken new (sb ∷ stash) (sb ∷ stash')
  unfolding countb
  fills_later new sb stash stash' e t = record {
    entry = t.entry;
    on_path = t.on_path;
    entries = (e, t.entries);
    count = λ k rk. omega (arith, t.count k rk);
  }

  fill_slot_lem :
      (slot : Block) (stash : List Block)
      → ((b : Block) → P b → P (cleared b))
      → is_dummy slot ≡ true
      → Entry value_size P slot
      → All (Entry value_size P) stash
      → Taken (fill_slot o node slot false stash).0 stash (fill_slot o node slot false stash).1
  unfolding fill_slot o_mov_i countb
  fill_slot_lem slot [] c d e h = record {
    entry = e;
    on_path = λ r. absurd (let z = d in cc);
    entries = tt;
    count = λ k rk. rw (dummy-has_key k slot rk d) refl;
  }
  fill_slot_lem slot (sb ∷ stash) c d e h =
      let len : length slot.value ≡ length sb.value = omega (arith, e.0.0, h.0.0.0) in
      elim (Bool-cases (is_real sb && path_contains_oblivious o sb.leaf node && true)) [
        | inl t ↦
            rw
              (t, o_mov_bytes_lem true slot.value sb.value len, fill_slot_full sb stash h.0.0.0 h.1)
              (fills_here sb stash (c sb h.0.1) t h)
        | inr f ↦
            rw (f, o_mov_bytes_lem false slot.value sb.value len)
              (fills_later _ sb stash _ h.0 (fill_slot_lem slot stash c d e h.1))
      ]

  -- What the slots of a bucket that were empty and the stash became.
  pub record Filled (bucket stash stash' : List Block) : Type 0 where
    pub entry : All (λ b. Entry value_size P b × OnPath o node b) bucket
    pub entries : All (Entry value_size P) stash'
    pub count :
        (k : ℤ)
        → (k ==ℤ invalid_key) ≡ false
        → countb (has_key k) bucket + countb (has_key k) stash' ≡ countb (has_key k) stash

  pub fill_bucket_lem :
      (bucket stash : List Block)
      → ((b : Block) → P b → P (cleared b))
      → All (λ b. is_dummy b ≡ true) bucket
      → All (Entry value_size P) bucket
      → All (Entry value_size P) stash
      → Filled (fill_bucket o node bucket stash).0 stash (fill_bucket o node bucket stash).1
  unfolding fill_bucket countb
  fill_bucket_lem [] stash c d e h = record { entry = tt; entries = h; count = λ k rk. omega arith }
  fill_bucket_lem (slot ∷ bucket) stash c d e h =
      let one = fill_slot_lem slot stash c d.0 e.0 h in
      let rest =
        fill_bucket_lem bucket (fill_slot o node slot false stash).1 c d.1 e.1 one.entries in
      record {
        entry = ((one.entry, one.on_path), rest.entry);
        entries = rest.entries;
        count = λ k rk. omega (arith, one.count k rk, rest.count k rk);
      }
