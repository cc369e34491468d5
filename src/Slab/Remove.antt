-- ===== src/Slab/Remove.antt =====
-- Taking a value out, and the slab at the start.
use playit_ios.Common.{
  ℕ, ◌+◌, ◌^◌, ◌%◌, ◌<◌, ◌≡◌, ◌≢◌, ◌⊎◌, inl, inr, refl, sym, arith, List, ◌∷◌, Option, none, some,
  length, get_elem?, set, get_elem?-set_self, get_elem?-set_ne, true, false, ◌==◌, Bool-cases, ◌∙◌,
  ap, Option-cases, bit_or, leb,
}
use playit_ios.Common.{leb, suc}
use playit_ios.Slab.{
  available, Entry, IdSlab, done, remove, remove_entry, get, get_entry, assume_init, use_num,
}
use playit_ios.Slab.Invariant.{IsValid, IsEntry, contains, is_empty_below, is_empty_above, mark_lem}
use playit_ios.Slab.Slots.{
  at, set_cases, get_elem?-lt, get_lem, get_found, get_entry_filled, get_entry_empty, slot_in,
}
use playit_ios.Slab.Insert.{contains-rest}

-- The id that the slot is free under.
next_id : ℕ → ℕ
next_id id = (id + use_num) % 2 ^ 63 + 2 ^ 63

same_top : (s t : ℕ) (free : List ℕ) → t ≡ s → contains t (s ∷ free) ≡ true
same_top s t free h = ground arith

module _ {V : Type 0} where
  taken : IdSlab V → ℕ → ℕ → IdSlab V
  taken slab s id = record {
    entries = set slab.entries s (record { id = id; value = none });
    free_slots = s ∷ slab.free_slots;
  }

  taken_lem :
      (slab : IdSlab V) (s : ℕ) (e : Entry V) (v : V)
      → e.id < 2 ^ 63
      → e.value ≡ some v
      → remove_entry slab s e ≡ done (some v, taken slab s (next_id e.id))
  unfolding remove_entry taken next_id assume_init
  taken_lem slab s e v h p =
      let wide : (e.id + 2 ^ 32) % 2 ^ 64 ≡ e.id + 2 ^ 32 = omega arith in
      let id : bit_or (2 ^ 63) ((e.id + 2 ^ 32) % 2 ^ 64) ≡ (e.id + 2 ^ 32) % 2 ^ 63 + 2 ^ 63 =
        ap (λ n. bit_or (2 ^ 63) n) wide ∙ mark_lem (e.id + 2 ^ 32) (omega arith) in
      rw
        (
          is_empty_below e.id h,
          id,
          is_empty_above ((e.id + 2 ^ 32) % 2 ^ 63 + 2 ^ 63) (omega arith) (omega arith),
          p,
        )
        (rw (id) refl)

  same_entry : (e f : Entry V) → ◌≡◌ {A = Option (Entry V)} (some e) (some f) → e ≡ f
  same_entry e f h = cc

  not_free :
      (slab : IdSlab V) (s : ℕ) (e : Entry V)
      → IsValid slab
      → get_elem? slab.entries s ≡ some e
      → e.id < 2 ^ 63
      → contains s slab.free_slots ≡ false
  not_free slab s e h p q = elim (Bool-cases (contains s slab.free_slots)) [
    | inl a ↦
        let (f, b, c) = h.free s a in
        absurd (omega (arith, ap (λ (x : Entry V). x.id) (same_entry e f (sym p ∙ b))))
    | inr a ↦ a
  ]

  taken-IsValid :
      (slab : IdSlab V) (s : ℕ) (e : Entry V)
      → IsValid slab
      → get_elem? slab.entries s ≡ some e
      → e.id < 2 ^ 63
      → IsValid (taken slab s (next_id e.id))
  unfolding taken next_id
  taken-IsValid slab s e h p q =
      let old : IsEntry s e = h.entry s e p in
      let l : e.id % 2 ^ 32 ≡ s = old.place in
      let new : Entry V = record { id = (e.id + 2 ^ 32) % 2 ^ 63 + 2 ^ 63; value = none } in
      let new-IsEntry : IsEntry s new = record {
        width = omega arith;
        place = omega arith;
        filled = λ lt. absurd (omega arith);
      } in
      let room : s < length slab.entries = get_elem?-lt slab.entries s p in
      record {
        entry = λ t f g. elim (set_cases slab.entries s t new f g) [
          | inl (a, b) ↦ rw (a, b) new-IsEntry
          | inr (a, b) ↦ h.entry t f b
        ];
        free = λ t g. elim (Bool-cases (t == s)) [
          | inl a ↦
              let same : s ≡ t = ground arith in
              (
                new,
                ap (get_elem? (set slab.entries s new)) (sym same)
                    ∙ get_elem?-set_self slab.entries s new room,
                omega arith,
              )
          | inr a ↦
              let ne : t ≢ s = λ c. (ground arith) in
              let (f, b, c) = h.free t (sym (contains-rest s t slab.free_slots ne) ∙ g) in
              (f, get_elem?-set_ne slab.entries new (λ d. ne (sym d)) ∙ b, c)
        ];
        all_free = λ t f g above. elim (set_cases slab.entries s t new f g) [
          | inl (a, b) ↦ same_top s t slab.free_slots a
          | inr (a, b) ↦ contains-rest s t slab.free_slots a ∙ h.all_free t f b above
        ];
        distinct = (not_free slab s e h p q, h.distinct);
      }

  -- What an answer says of the entry that gave it.
  entry_of :
      (slab : IdSlab V) (id : ℕ) (v : V)
      → IsValid slab
      → get slab id ≡ done (some v)
      → (e : Entry V) × (get_elem? slab.entries (id % 2 ^ 32) ≡ some e)
        × (e.id < 2 ^ 63)
        × (e.value ≡ some v)
  entry_of slab id v h g = elim (Option-cases (get_elem? slab.entries (id % 2 ^ 32))) [
    | inl p ↦ let a : done none ≡ done (some v) = sym (get_lem slab id ∙ ap at p) ∙ g in absurd (cc)
    | inr (e, p) ↦
        let a : get_entry e ≡ done (some v) = sym (get_lem slab id ∙ ap at p) ∙ g in
        let old : IsEntry (id % 2 ^ 32) e = h.entry (id % 2 ^ 32) e p in
        (elim (Bool-cases (leb (2 ^ 63) e.id)) [
          | inl c ↦
              let b : done none ≡ done (some v) =
                sym (get_entry_empty e old.width (ground arith)) ∙ a in
              absurd (cc)
          | inr c ↦
              let below : e.id < 2 ^ 63 = ground arith in
              let (w, q) = old.filled below in
              let b : done (some w) ≡ done (some v) = sym (get_entry_filled e w below q) ∙ a in
              (e, p, below, cc)
        ])
  ]

  taken_at :
      (slab : IdSlab V) (id : ℕ) (e : Entry V) (v : V)
      → get_elem? slab.entries (id % 2 ^ 32) ≡ some e
      → e.id < 2 ^ 63
      → e.value ≡ some v
      → remove slab id ≡ done (some v, taken slab (id % 2 ^ 32) (next_id e.id))
  unfolding remove
  taken_at slab id e v p h q =
      rw (slot_in slab id (get_elem?-lt slab.entries (id % 2 ^ 32) p), p, remove)
        (taken_lem slab (id % 2 ^ 32) e v h q)

  -- The slab that `remove` makes, written out.
  pub remove-onto :
      (slab : IdSlab V) (id : ℕ) (e : Entry V) (v : V)
      → get_elem? slab.entries (id % 2 ^ 32) ≡ some e
      → e.id < 2 ^ 63
      → e.value ≡ some v
      → remove slab id
        ≡ done (
          some v,
          record {
            entries =
                set slab.entries
                  (id % 2 ^ 32)
                  (record { id = (e.id + 2 ^ 32) % 2 ^ 63 + 2 ^ 63; value = none });
            free_slots = id % 2 ^ 32 ∷ slab.free_slots;
          },
        )
  unfolding taken next_id
  remove-onto slab id e v p h q = taken_at slab id e v p h q

  -- The slab after a value was taken by `id`: it is valid and has one free slot more, the id finds
  -- nothing, and ids of other slots find what they found.
  abbrev pub Taken : IdSlab V → ℕ → IdSlab V → Type 0
  Taken slab id slab' =
      IsValid slab'
      × (available slab' ≡ suc (available slab))
      × (get slab' id ≡ done none)
      × ((other : ℕ) → (other % 2 ^ 32 ≡ id % 2 ^ 32) ⊎ (get slab' other ≡ get slab other))

  elsewhere :
      (slab : IdSlab V) (id new other : ℕ)
      → (other % 2 ^ 32 ≡ id % 2 ^ 32) ⊎ (get (taken slab (id % 2 ^ 32) new) other ≡ get slab other)
  unfolding taken
  elsewhere slab id new other = elim (Bool-cases (other % 2 ^ 32 == id % 2 ^ 32)) [
    | inl e ↦ inl (ground arith)
    | inr e ↦
        let ne : (id % 2 ^ 32) ≢ (other % 2 ^ 32) = λ c. (ground arith) in
        inr (
          get_lem (taken slab (id % 2 ^ 32) new) other
          ∙ ap at (get_elem?-set_ne slab.entries (record { id = new; value = none }) ne)
          ∙ sym (get_lem slab other))
  ]

  -- On a valid slab, `remove` by an id that finds a value returns that value, without a failed
  -- assertion or a read of unwritten memory: the slab is valid and has one free slot more, the id
  -- finds nothing, and every id of another slot finds what it found.
  pub remove-Taken :
      (slab : IdSlab V) (id : ℕ) (v : V)
      → IsValid slab
      → get slab id ≡ done (some v)
      → (slab' : IdSlab V) × (remove slab id ≡ done (some v, slab')) × Taken slab id slab'
  unfolding taken available next_id
  remove-Taken slab id v h g =
      let (e, p, below, q) = entry_of slab id v h g in
      let s : ℕ = id % 2 ^ 32 in
      let room : s < length slab.entries = get_elem?-lt slab.entries s p in
      let new : Entry V = record { id = next_id e.id; value = none } in
      (
        taken slab s (next_id e.id),
        taken_at slab id e v p below q,
        (
          taken-IsValid slab s e h p below,
          refl,
          get_found (taken slab s (next_id e.id)) id new
                (get_elem?-set_self slab.entries s new room)
              ∙ get_entry_empty new (omega arith) (omega arith),
          elsewhere slab id (next_id e.id),
        ),
      )
