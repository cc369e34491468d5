-- ===== src/Tests/Slab.antt =====
-- A slab of two slots that stores 7.
use playit_ios.Common.{ℕ, ◌+◌, ◌^◌, ◌<◌, ◌≡◌, ◌≢◌, inl, refl, arith, [], ◌∷◌, none, some}
use playit_ios.Slab.{
  IdSlab, VacantEntry, done, with_capacity, available, get, insert, remove, vacant_entry,
  insert_vacant, drop_vacant, write_entry, fresh_entries, fresh_slots, is_empty,
}
use playit_ios.Slab.Invariant.{IsValid}
use playit_ios.Slab.Reuse.{get-insert_reused}
use playit_ios.Slab.Insert.{result_unique, Stored, insert-Stored, vacant_entry-insert}
use playit_ios.Slab.Remove.{Taken, remove-Taken}
use playit_ios.Slab.Start.{with_capacity-IsValid}

abbrev two_slots : IdSlab ℕ
two_slots = with_capacity 2

abbrev pub with_seven : IdSlab ℕ
with_seven = record {
  entries = record { id = 0; value = some 7 } ∷ record { id = 2 ^ 63 + 1; value = none } ∷ [];
  free_slots = 1 ∷ [];
}

with_capacity-IsValid_example : IsValid two_slots
with_capacity-IsValid_example = with_capacity-IsValid 2 (omega arith)

two_slots-available : 0 < available two_slots
unfolding available with_capacity fresh_slots
two_slots-available = omega arith

insert-Stored_example :
    (id : ℕ) × (slab' : IdSlab ℕ) × (insert two_slots 7 ≡ done (inl id, slab'))
    × Stored two_slots 7 id slab'
insert-Stored_example =
    insert-Stored two_slots 7 (with_capacity-IsValid 2 (omega arith)) two_slots-available

insert_seven : insert two_slots 7 ≡ done (inl 0, with_seven)
unfolding with_capacity fresh_slots fresh_entries insert write_entry is_empty
insert_seven = refl

pub with_seven-Stored : Stored two_slots 7 0 with_seven
with_seven-Stored =
    result_unique two_slots with_seven 7 0
      (insert-Stored two_slots 7 (with_capacity-IsValid 2 (omega arith)) two_slots-available)
      insert_seven

remove-Taken_example :
    (slab' : IdSlab ℕ) × (remove with_seven 0 ≡ done (some 7, slab')) × Taken with_seven 0 slab'
remove-Taken_example = remove-Taken with_seven 0 7 with_seven-Stored.0 with_seven-Stored.2

vacant_entry-insert_example :
    (entry : VacantEntry ℕ) × (vacant_entry two_slots ≡ done (some entry))
    × (drop_vacant entry ≡ two_slots)
    × ((v : ℕ)
        → (slab' : IdSlab ℕ) × (insert_vacant entry v ≡ done (entry.id, slab'))
          × (insert two_slots v ≡ done (inl entry.id, slab')))
vacant_entry-insert_example =
    vacant_entry-insert two_slots (with_capacity-IsValid 2 (omega arith)) two_slots-available

get-insert_reused_example :
    (id again : ℕ) × (with_first without with_next left : IdSlab ℕ) × (insert two_slots 7
      ≡ done (inl id, with_first))
    × (remove with_first id ≡ done (some 7, without))
    × (insert without 8 ≡ done (inl again, with_next))
    × (again ≢ id)
    × (get with_next id ≡ done (some 8))
    × (remove with_next id ≡ done (some 8, left))
get-insert_reused_example =
    get-insert_reused two_slots 7 8 (with_capacity-IsValid 2 (omega arith)) two_slots-available
