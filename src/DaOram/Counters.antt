-- ===== src/DaOram/Counters.antt =====
-- `CounterBlock` of include/tiered_omap/oram/da_oram.h and the counter functions of
-- src/oram/da_oram.cpp. A 64-bit counter is a number taken modulo 2 ^ 64, a key or an offset a
-- natural number; `std::hash` is a parameter.
pub mod Pending
pub mod Positions
pub mod Keys
pub mod RoundTrip
use Prim.Native.Nat.{bit_xor}
use tiered_omap.Prelude.{
  ℕ, zero, suc, ◌+◌, ◌-◌, ◌*◌, ◌/◌, ◌%◌, max, Bool, ◌&&◌, Option, none, some, List, [], ◌∷◌, ◌++◌,
  ℤ, pos, negsuc, ltb, leb, ◌==◌, if◌then◌else◌, get_or, set, replicate, length, take, drop,
}
use tiered_omap.Common.{Bytes, Host}

pub record CounterBlock : Type 0 where
  pub gc : ℕ
  pub ic : List ℕ
  pub backup : List ℕ

unfoldable pub new_block : ℕ → CounterBlock
new_block num_ic = record { gc = 0; ic = replicate num_ic 0; backup = replicate num_ic 0 }

-- A number in `n` bytes, least first, and back.
unfoldable pub le_word : ℕ → ℕ → Bytes
le_word zero u = []
le_word (suc n) u = u % 256 ∷ le_word n (u / 256)

unfoldable pub of_le : Bytes → ℕ
of_le [] = 0
of_le (b ∷ bytes) = b + 256 * of_le bytes

-- The two vectors hold bytes, which are copied as they are.
unfoldable pub encode : CounterBlock → Bytes
unfolding le_word
encode cb = le_word 8 cb.gc ++ (cb.ic ++ cb.backup)

unfoldable pub decode : Bytes → ℕ → CounterBlock
unfolding of_le new_block
decode bytes num_ic =
    if leb (8 + 2 * num_ic) (length bytes)
    then record {
      gc = of_le (take 8 bytes);
      ic = take num_ic (drop 8 bytes);
      backup = take num_ic (drop (8 + num_ic) bytes);
    }
    else new_block num_ic

-- What the counter functions read of a `DAOram`, and `std::hash<uint64_t>`.
pub record CounterParams : Type 0 where
  pub num_ic : ℕ
  pub ic_max : ℕ
  pub prf_seed : ℕ
  pub hash : ℕ → ℕ

abbrev pub word : ℕ
word = 18446744073709551616

-- `v ^= h(x) + 0x9e3779b9 + (v << 6) + (v >> 2)`
unfoldable pub mix : CounterParams → ℕ → ℕ → ℕ
mix p x v = bit_xor v ((p.hash x + 2654435769 + v * 64 % word + v / 4) % word)

unfoldable pub prf_leaf : CounterParams → ℕ → ℕ → ℕ → ℕ → ℕ
unfolding mix
prf_leaf p key gc ic zero = 0
prf_leaf p key gc ic (suc lr) = mix p ic (mix p gc (mix p key p.prf_seed)) % suc lr

-- `for (i = 0; i < num_ic_; ++i) if (i != offset) cb.backup[i] = 1`
unfoldable pub mark_others : ℕ → ℕ → List ℕ → List ℕ
mark_others offset i [] = []
mark_others offset i (b ∷ backup) =
    (if i == offset then b else 1) ∷ mark_others offset (i + 1) backup

-- The block before the new counter is stored, the group counter of the current leaf, and the next
-- group and individual counters.
unfoldable pub next_counter : CounterParams → CounterBlock → ℕ → CounterBlock × ℕ × ℕ × ℕ
unfolding mark_others
next_counter p cb offset =
    let cur_ic = get_or cb.ic offset 0 in
    let next_gc = (cb.gc + 1) % word in
    if get_or cb.backup offset 0 == 1
    then (record cb { backup = set cb.backup offset 0 }, (cb.gc + (word - 1)) % word, cb.gc, 0)
    else if leb p.ic_max (cur_ic + 1)
    then (record cb { gc = next_gc; backup = mark_others offset 0 cb.backup }, cb.gc, next_gc, 0)
    else (cb, cb.gc, cb.gc, (cur_ic + 1) % 256)

-- The new block, the current leaf and the new leaf.
unfoldable pub update_counter_in : CounterParams → CounterBlock → ℕ → ℕ → ℕ → CounterBlock × ℕ × ℕ
unfolding next_counter prf_leaf
update_counter_in p cb offset managed_key lr =
    let cur_ic = get_or cb.ic offset 0 in
    let (cb', gc, next_gc, next_ic) = next_counter p cb offset in
    (
      record cb' { ic = set cb'.ic offset next_ic },
      prf_leaf p managed_key gc cur_ic lr,
      prf_leaf p managed_key next_gc next_ic lr,
    )

-- The first offset that awaits its reset and stands for a key.
unfoldable pub first_pending : (ℕ → Bool) → ℕ → List ℕ → Option ℕ
first_pending managed i [] = none
first_pending managed i (b ∷ backup) =
    let rest = first_pending managed (i + 1) backup in if b == 1 && managed i then some i else rest

pub record Reset : Type 0 where
  pub key : ℤ
  pub cur_leaf : ℕ
  pub new_leaf : ℤ

-- The reset of an offset, or a random leaf: the n-th draw of the host.
unfoldable pub perform_reset_in :
    Host → CounterParams → CounterBlock → ℕ → ℕ → ℕ → ℕ → CounterBlock × Reset
unfolding first_pending prf_leaf
perform_reset_in host p cb base_key num_managed lr n =
    elim (first_pending (λ i. ltb (base_key + i) num_managed) 0 cb.backup) [
      | none ↦
          (cb, record { key = negsuc 0; cur_leaf = host.draw n (max lr 1); new_leaf = negsuc 0 })
      | some i ↦ (
        record cb { ic = set cb.ic i 0; backup = set cb.backup i 0 },
        record {
          key = pos (base_key + i);
          cur_leaf = prf_leaf p (base_key + i) ((cb.gc + (word - 1)) % word) (get_or cb.ic i 0) lr;
          new_leaf = pos (prf_leaf p (base_key + i) cb.gc 0 lr);
        },
      )
    ]

-- What `traverse_pos_maps` does with the block of a key: the counter of the key goes on, and one
-- other offset is reset. It returns the block, the leaves of the key and the reset.
unfoldable pub count_key :
    Host → CounterParams → CounterBlock → ℕ → ℕ → ℕ → ℕ → ℕ → CounterBlock × (ℕ × ℕ) × Reset
unfolding update_counter_in perform_reset_in
count_key host p cb offset base_key num_managed lr n =
    let (cb₁, cur_leaf, new_leaf) = update_counter_in p cb offset (base_key + offset) lr in
    let (cb₂, reset) = perform_reset_in host p cb₁ base_key num_managed lr n in
    (cb₂, (cur_leaf, new_leaf), reset)
