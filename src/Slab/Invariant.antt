-- ===== src/Slab/Invariant.antt =====
-- What holds of a slab between operations.
use playit_ios.Common.{
  ℕ, ◌+◌, ◌^◌, ◌%◌, ◌<◌, ◌≤◌, ◌≡◌, List, [], ◌∷◌, Bool, true, false, ◌||◌, some, get_elem?, ◌==◌,
  leb, arith, bit_or, bit_and, ◌∙◌,
}
use playit_ios.Common.Bits.{top_bit_lem, clear_top_lem, set_top_lem, bit_and_comm, bit_or_comm}
use playit_ios.Slab.{Entry, IdSlab, is_empty, empty_bit, empty_bit_neg}

abbrev pub contains : ℕ → List ℕ → Bool
contains s [] = false
contains s (x ∷ xs) = (s == x) || contains s xs

abbrev pub Distinct : List ℕ → Type 0
Distinct [] = Unit {0}
Distinct (x ∷ xs) = (contains x xs ≡ false) × Distinct xs

-- An entry at slot `s`: its id ends in the slot, and where bit 63 is clear a value was written.
pub record IsEntry {V : Type 0} (s : ℕ) (e : Entry V) : Type 0 where
  pub width : e.id < 2 ^ 64
  pub place : e.id % 2 ^ 32 ≡ s
  pub filled : e.id < 2 ^ 63 → (v : V) × (e.value ≡ some v)

-- The free slots are those whose entry is empty, each once.
pub record IsValid {V : Type 0} (slab : IdSlab V) : Type 0 where
  pub entry : (s : ℕ) (e : Entry V) → get_elem? slab.entries s ≡ some e → IsEntry s e
  pub free :
      (s : ℕ)
      → contains s slab.free_slots ≡ true
      → (e : Entry V) × (get_elem? slab.entries s ≡ some e) × (2 ^ 63 ≤ e.id)
  pub all_free :
      (s : ℕ) (e : Entry V)
      → get_elem? slab.entries s ≡ some e
      → 2 ^ 63 ≤ e.id
      → contains s slab.free_slots ≡ true
  pub distinct : Distinct slab.free_slots

pub is_empty_lem : (id : ℕ) → id < 2 ^ 64 → is_empty id ≡ leb (2 ^ 63) id
unfolding is_empty
is_empty_lem id h = top_bit_lem id h

pub is_empty_above : (id : ℕ) → id < 2 ^ 64 → 2 ^ 63 ≤ id → is_empty id ≡ true
is_empty_above id h g = ground (arith, is_empty_lem id h)

pub is_empty_below : (id : ℕ) → id < 2 ^ 63 → is_empty id ≡ false
is_empty_below id h = ground (arith, is_empty_lem id)

-- An id without, and with, the mark of an empty slot.
pub unmark_lem : (id : ℕ) → bit_and empty_bit_neg id ≡ id % 2 ^ 63
unmark_lem id = bit_and_comm empty_bit_neg id ∙ clear_top_lem id

pub mark_lem : (id : ℕ) → id < 2 ^ 64 → bit_or empty_bit id ≡ id % 2 ^ 63 + 2 ^ 63
mark_lem id h = bit_or_comm empty_bit id ∙ set_top_lem id h
