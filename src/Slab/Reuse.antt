-- ===== src/Slab/Reuse.antt =====
-- A slot that is used again, and the id of its earlier use.
use playit_ios.Common.{
  ℕ, ◌+◌, ◌-◌, ◌^◌, ◌%◌, ◌<◌, ◌≡◌, ◌≢◌, inl, refl, ap, ◌∙◌, arith, List, [], ◌∷◌, none, some,
  length, get_elem?, set, get_elem?-set_self,
}
use playit_ios.Slab.{Entry, IdSlab, done, available, insert, remove, get}
use playit_ios.Slab.Invariant.{IsValid, IsEntry}
use playit_ios.Slab.Slots.{get_elem?-lt, get_found, get_entry_filled, get_stale}
use playit_ios.Slab.Insert.{contains-top, insert-Stored, insert-onto, result_unique}
use playit_ios.Slab.Remove.{remove-Taken, remove-onto}

module _ {V : Type 0} where
  -- The entry that an id was given out with.
  abbrev Given : IdSlab V → ℕ → V → Type 0
  Given slab id v =
      (get_elem? slab.entries (id % 2 ^ 32) ≡ some (record { id = id; value = some v }))
      × (id < 2 ^ 63)

  top-Given :
      (entries : List (Entry V)) (s : ℕ) (free : List ℕ) (v : V)
      → IsValid (record { entries = entries; free_slots = s ∷ free })
      → (id : ℕ) × (slab' : IdSlab V) × (insert
            (record { entries = entries; free_slots = s ∷ free })
            v
          ≡ done (inl id, slab'))
        × Given slab' id v
  top-Given entries s free v h =
      let (e, p, q) = h.free s (contains-top s free) in
      let old : IsEntry s e = h.entry s e p in
      let w : e.id < 2 ^ 64 = old.width in
      let l : e.id % 2 ^ 32 ≡ s = old.place in
      let id : ℕ = e.id - 2 ^ 63 in
      let new : Entry V = record { id = id; value = some v } in
      let place : id % 2 ^ 32 ≡ s = omega arith in
      (
        id,
        record { entries = set entries s new; free_slots = free },
        insert-onto entries s free e v p w q,
        (
          ap (get_elem? (set entries s new)) place
              ∙ get_elem?-set_self entries s new (get_elem?-lt entries s p),
          omega arith,
        ),
      )

  any-Given :
      (entries : List (Entry V)) (free : List ℕ) (v : V)
      → IsValid (record { entries = entries; free_slots = free })
      → 0 < length free
      → (id : ℕ) × (slab' : IdSlab V) × (insert (record { entries = entries; free_slots = free }) v
          ≡ done (inl id, slab'))
        × Given slab' id v
  any-Given entries [] v h lt = absurd (omega arith)
  any-Given entries (s ∷ free) v h lt = top-Given entries s free v h

  -- The slot of a value that is taken out is the next to be given out, under another id.
  reused :
      (slab : IdSlab V) (id : ℕ) (v w : V)
      → IsValid slab
      → Given slab id v
      → (again : ℕ) × (without with_next : IdSlab V) × (remove slab id ≡ done (some v, without))
        × IsValid without
        × (0 < available without)
        × (insert without w ≡ done (inl again, with_next))
        × (again ≢ id)
        × (id % 2 ^ 32 ≡ again % 2 ^ 32)
  unfolding available
  reused slab id v w h (p, below) =
      let s : ℕ = id % 2 ^ 32 in
      let entry : Entry V = record { id = id; value = some v } in
      let free : Entry V = record { id = (id + 2 ^ 32) % 2 ^ 63 + 2 ^ 63; value = none } in
      let without : IdSlab V = record {
        entries = set slab.entries s free;
        free_slots = s ∷ slab.free_slots;
      } in
      let again : ℕ = (id + 2 ^ 32) % 2 ^ 63 + 2 ^ 63 - 2 ^ 63 in
      let found : get slab id ≡ done (some v) =
        get_found slab id entry p ∙ get_entry_filled entry v below refl in
      let (items, q, taken) = remove-Taken slab id v h found in
      let goes : remove slab id ≡ done (some v, without) =
        remove-onto slab id entry v p below refl in
      let same : without ≡ items = cc in
      (
        again,
        without,
        record {
          entries = set (set slab.entries s free) s (record { id = again; value = some w });
          free_slots = slab.free_slots;
        },
        goes,
        (rw (same) (taken.0)),
        omega (arith),
        insert-onto (set slab.entries s free) s slab.free_slots free w
            (get_elem?-set_self slab.entries s free (get_elem?-lt slab.entries s p)) (omega arith)
            (omega arith),
        (λ e. omega arith),
        omega arith,
      )

  -- On a valid slab with a free slot: when a value is inserted and removed by its id, and another
  -- value is inserted, the second id is not the first, but the first finds the second value and
  -- removes it.
  pub get-insert_reused :
      (slab : IdSlab V) (v w : V)
      → IsValid slab
      → 0 < available slab
      → (id again : ℕ) × (with_first without with_next left : IdSlab V) × (insert slab v
          ≡ done (inl id, with_first))
        × (remove with_first id ≡ done (some v, without))
        × (insert without w ≡ done (inl again, with_next))
        × (again ≢ id)
        × (get with_next id ≡ done (some w))
        × (remove with_next id ≡ done (some w, left))
  unfolding available
  get-insert_reused slab v w h room =
      let (id, first, i, given) = any-Given slab.entries slab.free_slots v h room in
      let st = result_unique slab first v id (insert-Stored slab v h room) i in
      let (again, without, second, r, valid, more, j, other, place) =
        reused first id v w st.0 given in
      let st' = result_unique without second w again (insert-Stored without w valid more) j in
      let found : get second id ≡ done (some w) = get_stale second id again place ∙ st'.2 in
      let (left, k, taken) = remove-Taken second id w st'.0 found in
      (id, again, first, without, second, left, i, r, j, other, found, k)
