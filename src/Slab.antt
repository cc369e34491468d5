-- ===== src/Slab.antt =====
-- packages/agent_core/src/utils/id_slab.rs: values in slots, under ids that carry the slot and how
-- often it was used. A slot's memory is `none` until it is written; the stack of free slots is
-- listed from its top. Masks are those of a `u64`.
pub mod Invariant
pub mod Slots
pub mod Insert
pub mod Remove
pub mod Start
pub mod Reuse
use playit_ios.Common.{
  ℕ, ◌+◌, ◌-◌, ◌^◌, ◌%◌, List, [], ◌∷◌, Bool, Option, none, some, length, get_elem?, set, leb, ◌==◌,
  if◌then◌else◌, bit_and, bit_or, zero, suc, ◌++◌, ◌⊎◌, inl, inr,
}

-- A result, a failed `assert!` or index, and a read of memory that nothing was written to.
pub data Outcome (A : Type 0) : Type 0 where
  done : A → Outcome A
  panicked undefined : Outcome A

abbrev pub empty_bit : ℕ
empty_bit = 2 ^ 63

abbrev pub empty_bit_neg : ℕ
empty_bit_neg = 2 ^ 63 - 1

abbrev pub use_num : ℕ
use_num = 2 ^ 32

abbrev pub slot_mask : ℕ
slot_mask = 2 ^ 32 - 1

pub record Entry (V : Type 0) : Type 0 where
  pub id : ℕ
  pub value : Option V

pub record IdSlab (V : Type 0) : Type 0 where
  pub entries : List (Entry V)
  pub free_slots : List ℕ

-- The slab that it borrows, without the slot that it holds.
pub record VacantEntry (V : Type 0) : Type 0 where
  pub slab : IdSlab V
  pub id : ℕ
  pub slot : ℕ

unfoldable pub is_empty : ℕ → Bool
is_empty id = bit_and id empty_bit == empty_bit

-- The free slots and the entries of positions `pos` to `pos + n - 1`.
unfoldable pub fresh_slots : ℕ → ℕ → List ℕ
fresh_slots pos zero = []
fresh_slots pos (suc n) = pos ∷ fresh_slots (suc pos) n

module _ {V : Type 0} where
  unfoldable pub fresh_entries : ℕ → ℕ → List (Entry V)
  fresh_entries pos zero = []
  fresh_entries pos (suc n) =
      record { id = bit_or empty_bit pos; value = none } ∷ fresh_entries (suc pos) n

  -- The loop pushes `capacity - 1` first and 0 last.
  unfoldable pub with_capacity : ℕ → IdSlab V
  with_capacity capacity = record {
    entries = fresh_entries 0 capacity;
    free_slots = fresh_slots 0 capacity;
  }

  unfoldable pub capacity : IdSlab V → ℕ
  capacity slab = length slab.entries

  unfoldable pub len : IdSlab V → ℕ
  len slab = length slab.entries - length slab.free_slots

  unfoldable pub available : IdSlab V → ℕ
  available slab = length slab.free_slots

  unfoldable pub slot : IdSlab V → ℕ → Option ℕ
  slot slab id =
      let s = bit_and id slot_mask in if leb (length slab.entries) s then none else some s

  -- `assume_init`
  unfoldable pub assume_init : Option V → Outcome V
  assume_init none = undefined
  assume_init (some v) = done v

  unfoldable pub get_entry : Entry V → Outcome (Option V)
  get_entry e = if is_empty e.id then done none else (elim (assume_init e.value) [
    | done v ↦ done (some v)
    | panicked ↦ panicked
    | undefined ↦ undefined
  ])

  unfoldable pub get : IdSlab V → ℕ → Outcome (Option V)
  get slab id = elim (slot slab id) [
    | none ↦ done none
    | some s ↦ (elim (get_elem? slab.entries s) [ none ↦ panicked | some e ↦ get_entry e ])
  ]

  unfoldable pub remove_entry : IdSlab V → ℕ → Entry V → Outcome (Option V × IdSlab V)
  remove_entry slab s e =
      if is_empty e.id
      then done (none, slab)
      else (let id = bit_or empty_bit ((e.id + use_num) % 2 ^ 64) in
          if is_empty id
          then (elim (assume_init e.value) [
            | done v ↦ done (
              some v,
              record {
                entries = set slab.entries s (record { id = id; value = none });
                free_slots = s ∷ slab.free_slots;
              },
            )
            | panicked ↦ panicked
            | undefined ↦ undefined
          ])
          else panicked)

  unfoldable pub remove : IdSlab V → ℕ → Outcome (Option V × IdSlab V)
  remove slab id = elim (slot slab id) [
    | none ↦ done (none, slab)
    | some s ↦ (elim (get_elem? slab.entries s) [
      | none ↦ panicked
      | some e ↦ remove_entry slab s e
    ])
  ]

  -- The write into a slot that was free.
  unfoldable pub write_entry : List (Entry V) → List ℕ → ℕ → V → Entry V → Outcome (ℕ × IdSlab V)
  write_entry entries free s value e =
      if is_empty e.id
      then (let id = bit_and empty_bit_neg e.id in
          if is_empty id
          then panicked
          else done (
            id,
            record {
              entries = set entries s (record { id = id; value = some value });
              free_slots = free;
            },
          ))
      else panicked

  -- The id, or the value back where no slot is free.
  unfoldable pub insert : IdSlab V → V → Outcome ((ℕ ⊎ V) × IdSlab V)
  insert slab value = elim slab.free_slots [
    | [] ↦ done (inr value, slab)
    | s ∷ free ↦ (elim (get_elem? slab.entries s) [
      | none ↦ panicked
      | some e ↦ (elim (write_entry slab.entries free s value e) [
        | done (id, slab') ↦ done (inl id, slab')
        | panicked ↦ panicked
        | undefined ↦ undefined
      ])
    ])
  ]

  unfoldable pub vacant_entry : IdSlab V → Outcome (Option (VacantEntry V))
  vacant_entry slab = elim slab.free_slots [
    | [] ↦ done none
    | s ∷ free ↦ (elim (get_elem? slab.entries s) [
      | none ↦ panicked
      | some e ↦ done (
          some (record {
            slab = record slab { free_slots = free };
            id = bit_and e.id empty_bit_neg;
            slot = s;
          }))
    ])
  ]

  unfoldable pub insert_vacant : VacantEntry V → V → Outcome (ℕ × IdSlab V)
  insert_vacant entry value = elim (get_elem? entry.slab.entries entry.slot) [
    | none ↦ panicked
    | some e ↦ write_entry entry.slab.entries entry.slab.free_slots entry.slot value e
  ]

  -- `Drop`, of an entry that was not used.
  unfoldable pub drop_vacant : VacantEntry V → IdSlab V
  drop_vacant entry = record entry.slab { free_slots = entry.slot ∷ entry.slab.free_slots }

  -- `IdSlabIter::next` from the entries that are left: the item, and what is left after it.
  unfoldable pub next : List (Entry V) → ℕ → Outcome (Option (V × List (Entry V) × ℕ))
  next [] remaining = done none
  next (e ∷ rest) zero = done none
  next (e ∷ rest) (suc remaining) =
      let later = next rest (suc remaining) in
      if is_empty e.id then later else (elim (assume_init e.value) [
        | done v ↦ done (some (v, rest, remaining))
        | panicked ↦ panicked
        | undefined ↦ undefined
      ])
