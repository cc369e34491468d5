-- ===== src/Slab/Insert.antt =====
-- Storing a value.
use playit_ios.Common.{
  bit_and, ℕ, ◌-◌, ◌^◌, ◌%◌, ◌<◌, ◌≤◌, ◌≡◌, ◌≢◌, ◌⊎◌, inl, inr, refl, sym, arith, List, [], ◌∷◌,
  none, some, length, get_elem?, set, get_elem?-set_self, get_elem?-set_ne, true, false, ◌==◌,
  Bool-cases, ne→==, ◌∙◌, ap,
}
use playit_ios.Common.Bits.{clear_top_lem}
use playit_ios.Slab.{
  available, Entry, IdSlab, VacantEntry, done, insert, write_entry, get, vacant_entry,
  insert_vacant, drop_vacant, empty_bit_neg,
}
use playit_ios.Slab.Invariant.{
  IsValid, IsEntry, contains, is_empty_below, is_empty_above, unmark_lem,
}
use playit_ios.Slab.Slots.{
  at, set_cases, get_elem?-lt, get_lem, get_found, get_entry_filled, get_entry_empty,
}

contains-ne : (s t : ℕ) (free : List ℕ) → contains s free ≡ false → contains t free ≡ true → t ≢ s
contains-ne s t free h g = λ p. (let e : contains s free ≡ true = rw p at g in cc)

pub contains-rest : (s t : ℕ) (free : List ℕ) → t ≢ s → contains t (s ∷ free) ≡ contains t free
contains-rest s t free h = rw (ne→== t s h) refl

pub contains-top : (s : ℕ) (free : List ℕ) → contains s (s ∷ free) ≡ true
contains-top s free = ground arith

module _ {V : Type 0} where
  -- The slab after a write into its slot `s`, which was on top of the free slots.
  written : List (Entry V) → ℕ → List ℕ → ℕ → V → IdSlab V
  written entries s free id v = record {
    entries = set entries s (record { id = id; value = some v });
    free_slots = free;
  }

  stacked : List (Entry V) → ℕ → List ℕ → IdSlab V
  stacked entries s free = record { entries = entries; free_slots = s ∷ free }

  written-IsValid :
      (entries : List (Entry V)) (s : ℕ) (free : List ℕ) (e : Entry V) (v : V)
      → IsValid (stacked entries s free)
      → get_elem? entries s ≡ some e
      → 2 ^ 63 ≤ e.id
      → IsValid (written entries s free (e.id - 2 ^ 63) v)
  unfolding written stacked
  written-IsValid entries s free e v h p q =
      let old : IsEntry s e = h.entry s e p in
      let w : e.id < 2 ^ 64 = old.width in
      let l : e.id % 2 ^ 32 ≡ s = old.place in
      let new : Entry V = record { id = e.id - 2 ^ 63; value = some v } in
      let new-IsEntry : IsEntry s new = record {
        width = omega arith;
        place = omega arith;
        filled = λ lt. (v, refl);
      } in
      record {
        entry = λ t f g. elim (set_cases entries s t new f g) [
          | inl (a, b) ↦ rw (a, b) new-IsEntry
          | inr (a, b) ↦ h.entry t f b
        ];
        free = λ t g.
            let ne : t ≢ s = contains-ne s t free (h.distinct).0 g in
            let (f, a, b) = h.free t (contains-rest s t free ne ∙ g) in
            (f, get_elem?-set_ne entries new (λ c. ne (sym c)) ∙ a, b);
        all_free = λ t f g above. elim (set_cases entries s t new f g) [
          | inl (a, b) ↦ absurd (omega (arith, ap (λ (x : Entry V). x.id) b))
          | inr (a, b) ↦ sym (contains-rest s t free a) ∙ h.all_free t f b above
        ];
        distinct = (h.distinct).1;
      }

  written_lem :
      (entries : List (Entry V)) (s : ℕ) (free : List ℕ) (e : Entry V) (v : V)
      → e.id < 2 ^ 64
      → 2 ^ 63 ≤ e.id
      → write_entry entries free s v e
        ≡ done (e.id - 2 ^ 63, written entries s free (e.id - 2 ^ 63) v)
  unfolding write_entry written
  written_lem entries s free e v h g =
      let id : bit_and empty_bit_neg e.id ≡ e.id - 2 ^ 63 = unmark_lem e.id ∙ omega arith in
      rw (is_empty_above e.id h g, id, is_empty_below (e.id - 2 ^ 63) (omega arith)) refl

  -- What the code promises of a value that was stored: the slab is valid again, the id was not in
  -- use and now finds the value, and ids of other slots find what they found.
  abbrev pub Stored : IdSlab V → V → ℕ → IdSlab V → Type 0
  Stored slab v id slab' =
      IsValid slab'
      × (get slab id ≡ done none)
      × (get slab' id ≡ done (some v))
      × ((other : ℕ) → (other % 2 ^ 32 ≡ id % 2 ^ 32) ⊎ (get slab' other ≡ get slab other))

  elsewhere :
      (entries : List (Entry V)) (s : ℕ) (free : List ℕ) (id : ℕ) (v : V) (other : ℕ)
      → id % 2 ^ 32 ≡ s
      → (other % 2 ^ 32 ≡ id % 2 ^ 32)
        ⊎ (get (written entries s free id v) other ≡ get (stacked entries s free) other)
  unfolding written stacked
  elsewhere entries s free id v other h = elim (Bool-cases (other % 2 ^ 32 == s)) [
    | inl e ↦ inl (ground arith)
    | inr e ↦
        let ne : s ≢ other % 2 ^ 32 = λ c. (ground arith) in
        inr (
          get_lem (written entries s free id v) other
          ∙ ap at (get_elem?-set_ne entries (record { id = id; value = some v }) ne)
          ∙ sym (get_lem (stacked entries s free) other))
  ]

  insert_top :
      (entries : List (Entry V)) (s : ℕ) (free : List ℕ) (v : V)
      → IsValid (stacked entries s free)
      → (id : ℕ) × (slab' : IdSlab V) × (insert (stacked entries s free) v ≡ done (inl id, slab'))
        × Stored (stacked entries s free) v id slab'
  unfolding stacked written insert
  insert_top entries s free v h =
      let (e, p, q) = h.free s (contains-top s free) in
      let old : IsEntry s e = h.entry s e p in
      let w : e.id < 2 ^ 64 = old.width in
      let l : e.id % 2 ^ 32 ≡ s = old.place in
      let id : ℕ = e.id - 2 ^ 63 in
      let new : Entry V = record { id = id; value = some v } in
      let place : id % 2 ^ 32 ≡ s = omega arith in
      let room : s < length entries = get_elem?-lt entries s p in
      (
        id,
        written entries s free id v,
        rw (p, written_lem entries s free e v w q) refl,
        (
          written-IsValid entries s free e v h p q,
          get_found (stacked entries s free) id e (ap (get_elem? entries) place ∙ p)
              ∙ get_entry_empty e w q,
          get_found (written entries s free id v) id new
                (ap (get_elem? (set entries s new)) place ∙ get_elem?-set_self entries s new room)
              ∙ get_entry_filled new v (omega arith) refl,
          λ other. elsewhere entries s free id v other place,
        ),
      )

  insert_any :
      (entries : List (Entry V)) (free : List ℕ) (v : V)
      → IsValid (record { entries = entries; free_slots = free })
      → 0 < length free
      → (id : ℕ) × (slab' : IdSlab V) × (insert (record { entries = entries; free_slots = free }) v
          ≡ done (inl id, slab'))
        × Stored (record { entries = entries; free_slots = free }) v id slab'
  unfolding stacked
  insert_any entries [] v h lt = absurd (omega arith)
  insert_any entries (s ∷ free) v h lt = insert_top entries s free v h

  -- On a valid slab with a free slot, `insert` returns an id and a slab, without a failed
  -- assertion, an index out of bounds or a read of unwritten memory: the slab is valid, the id
  -- found nothing before and finds the value now, and every id of another slot finds what it
  -- found.
  pub insert-Stored :
      (slab : IdSlab V) (v : V)
      → IsValid slab
      → 0 < available slab
      → (id : ℕ) × (slab' : IdSlab V) × (insert slab v ≡ done (inl id, slab'))
        × Stored slab v id slab'
  unfolding available
  insert-Stored slab v h lt = insert_any slab.entries slab.free_slots v h lt

  -- The slab that `insert` makes of the top of the stack, written out.
  pub insert-onto :
      (entries : List (Entry V)) (s : ℕ) (free : List ℕ) (e : Entry V) (v : V)
      → get_elem? entries s ≡ some e
      → e.id < 2 ^ 64
      → 2 ^ 63 ≤ e.id
      → insert (record { entries = entries; free_slots = s ∷ free }) v
        ≡ done (
          inl (e.id - 2 ^ 63),
          record {
            entries = set entries s (record { id = e.id - 2 ^ 63; value = some v });
            free_slots = free;
          },
        )
  unfolding written insert
  insert-onto entries s free e v p w q = rw (p, written_lem entries s free e v w q, insert) refl

  vacant_from :
      (entries : List (Entry V)) (s : ℕ) (free : List ℕ)
      → IsValid (stacked entries s free)
      → (entry : VacantEntry V) × (vacant_entry (stacked entries s free) ≡ done (some entry))
        × (drop_vacant entry ≡ stacked entries s free)
        × ((v : V)
            → (slab' : IdSlab V) × (insert_vacant entry v ≡ done (entry.id, slab'))
              × (insert (stacked entries s free) v ≡ done (inl entry.id, slab')))
  unfolding stacked written vacant_entry insert_vacant drop_vacant insert
  vacant_from entries s free h =
      let (e, p, q) = h.free s (contains-top s free) in
      let old : IsEntry s e = h.entry s e p in
      let w : e.id < 2 ^ 64 = old.width in
      let id : bit_and e.id empty_bit_neg ≡ e.id - 2 ^ 63 = clear_top_lem e.id ∙ omega arith in
      (
        record {
          slab = record { entries = entries; free_slots = free };
          id = e.id - 2 ^ 63;
          slot = s;
        },
        rw (p, id) refl,
        refl,
        λ v. (
          written entries s free (e.id - 2 ^ 63) v,
          rw (p, insert_vacant) (written_lem entries s free e v w q),
          rw (p, written_lem entries s free e v w q) refl,
        ),
      )

  vacant_of :
      (entries : List (Entry V)) (free : List ℕ)
      → IsValid (record { entries = entries; free_slots = free })
      → 0 < length free
      → (entry : VacantEntry V) × (vacant_entry (record { entries = entries; free_slots = free })
          ≡ done (some entry))
        × (drop_vacant entry ≡ record { entries = entries; free_slots = free })
        × ((v : V)
            → (slab' : IdSlab V) × (insert_vacant entry v ≡ done (entry.id, slab'))
              × (insert (record { entries = entries; free_slots = free }) v
                  ≡ done (inl entry.id, slab')))
  unfolding stacked
  vacant_of entries [] h lt = absurd (omega arith)
  vacant_of entries (s ∷ free) h lt = vacant_from entries s free h

  -- On a valid slab with a free slot, `vacant_entry` announces the id that its `insert` returns,
  -- which leads to the slab that `IdSlab::insert` makes, and dropping the entry unused gives the
  -- slab back.
  pub vacant_entry-insert :
      (slab : IdSlab V)
      → IsValid slab
      → 0 < available slab
      → (entry : VacantEntry V) × (vacant_entry slab ≡ done (some entry))
        × (drop_vacant entry ≡ slab)
        × ((v : V)
            → (slab' : IdSlab V) × (insert_vacant entry v ≡ done (entry.id, slab'))
              × (insert slab v ≡ done (inl entry.id, slab')))
  unfolding available
  vacant_entry-insert slab h lt = vacant_of slab.entries slab.free_slots h lt

-- `insert` has one result.
pub result_unique :
    {V : Type 0} (slab t : IdSlab V) (v : V) (i : ℕ)
    → (id : ℕ) × (slab' : IdSlab V) × (insert slab v ≡ done (inl id, slab'))
      × Stored slab v id slab'
    → insert slab v ≡ done (inl i, t)
    → Stored slab v i t
result_unique slab t v i (id, slab', e, st) p =
    let a : i ≡ id = cc in let b : t ≡ slab' = cc in rw (a, b) st
