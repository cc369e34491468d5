-- ===== src/Keys/Laws.antt =====
-- The operations on keys, and what they keep.
use playit_ios.Common.{ℕ, ◌<◌, ◌≡◌, ◌↔◌, refl, ◌∙◌, Bool, true, none, some}
use playit_ios.Slab.{
  IdSlab, Outcome, done, get, insert, available, vacant_entry, insert_vacant, VacantEntry,
  with_capacity,
}
use playit_ios.Slab.Insert.{Stored, insert-Stored, vacant_entry-insert, result_unique}
use playit_ios.Slab.Remove.{remove-Taken}
use playit_ios.Keys.Invariant.{
  IsKeyed, OthersKept, keyed_with, lookup_with, added-IsKeyed, removed-IsKeyed, added-OthersKept,
  removed-OthersKept,
}
use playit_ios.Slab
use playit_ios.Keys.{KeyToId, add_entry, get_or_add, remove}

module _ {K V : Type 0} (same : K → K → Bool) (law : (a b : K) → (same a b ≡ true) ↔ (a ≡ b)) where
  -- The keys are looked up in the table that is left.
  add_entry_lem :
      (t : KeyToId K V) (key : K) (v : V) (entry : VacantEntry V) (items : IdSlab V)
      → insert_vacant entry v ≡ done (entry.id, items)
      → add_entry same t key v entry
        ≡ done (some entry.id, keyed_with same t items key (some entry.id))
  unfolding add_entry keyed_with
  add_entry_lem t key v entry items h = rw (h, add_entry) refl

  get_or_add_new :
      (t : KeyToId K V) (key : K) (v : V) (entry : VacantEntry V)
      → t.lookup key ≡ none
      → vacant_entry t.items ≡ done (some entry)
      → get_or_add same t key v ≡ add_entry same t key v entry
  unfolding get_or_add
  get_or_add_new t key v entry h p = rw (h, p, get_or_add) refl

  get_or_add_known :
      (t : KeyToId K V) (key : K) (v : V) (id : ℕ)
      → t.lookup key ≡ some id
      → get_or_add same t key v ≡ done (some id, t)
  unfolding get_or_add
  get_or_add_known t key v id h = rw (h, get_or_add) refl

  remove_known :
      (t : KeyToId K V) (key : K) (id : ℕ) (v : V) (items : IdSlab V)
      → t.lookup key ≡ some id
      → Slab.remove t.items id ≡ done (some v, items)
      → remove same t key ≡ done (some (id, v), keyed_with same t items key none)
  unfolding remove keyed_with
  remove_known t key id v items h p = rw (h, p, remove) refl

  -- For keys compared by equality, a table whose keys and slab agree, a key without an id and a
  -- slab with a free slot, `get_or_add` answers an id and a table whose keys and slab agree, in
  -- which the key has that id and the id finds the value, every other key has its id, which finds
  -- what it found, and a second call answers the same id and changes nothing.
  pub get_or_add-IsKeyed :
      (t : KeyToId K V) (key : K) (v : V)
      → IsKeyed t
      → t.lookup key ≡ none
      → 0 < available t.items
      → (id : ℕ) × (t' : KeyToId K V) × (get_or_add same t key v ≡ done (some id, t'))
        × IsKeyed t'
        × (t'.lookup key ≡ some id)
        × (get t'.items id ≡ done (some v))
        × (get_or_add same t' key v ≡ done (some id, t'))
        × OthersKept t key t'
  get_or_add-IsKeyed t key v h absent room =
      let (entry, p, back, both) = vacant_entry-insert t.items h.valid room in
      let (items, q, r) = both v in
      let st : Stored t.items v entry.id items =
        result_unique t.items items v entry.id (insert-Stored t.items v h.valid room) r in
      let t' : KeyToId K V = keyed_with same t items key (some entry.id) in
      let there : t'.lookup key ≡ some entry.id =
        lookup_with same law t items key (some entry.id) in
      (
        entry.id,
        t',
        get_or_add_new t key v entry absent p ∙ add_entry_lem t key v entry items q,
        added-IsKeyed same law t key v entry.id items h absent st,
        there,
        (unfold keyed_with in st.2),
        get_or_add_known t' key v entry.id there,
        added-OthersKept same law t key v entry.id items h st,
      )

  -- For keys compared by equality, a table whose keys and slab agree and a key with an id,
  -- `remove` answers the id and the value that it finds, so that its `expect` does not fail, and
  -- leaves a table whose keys and slab agree, without the key, in which the id finds nothing and
  -- every other key has its id, which finds what it found.
  pub remove-IsKeyed :
      (t : KeyToId K V) (key : K) (id : ℕ)
      → IsKeyed t
      → t.lookup key ≡ some id
      → (v : V) × (t' : KeyToId K V) × (get t.items id ≡ done (some v))
        × (remove same t key ≡ done (some (id, v), t'))
        × IsKeyed t'
        × (t'.lookup key ≡ none)
        × (get t'.items id ≡ done none)
        × OthersKept t key t'
  remove-IsKeyed t key id h p =
      let (v, g) = h.found key id p in
      let (items, q, taken) = remove-Taken t.items id v h.valid g in
      (
        v,
        keyed_with same t items key none,
        g,
        remove_known t key id v items p q,
        removed-IsKeyed same law t key id items h p taken,
        lookup_with same law t items key none,
        (unfold keyed_with in taken.2),
        removed-OthersKept same law t key id items h p taken,
      )
