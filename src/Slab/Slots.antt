-- ===== src/Slab/Slots.antt =====
-- What an id finds: the slot that its low half names, and nothing else of it.
use playit_ios.Common.{
  ℕ, ◌^◌, ◌%◌, ◌<◌, ◌≤◌, ◌≡◌, ◌≢◌, ◌⊎◌, inl, inr, refl, sym, arith, List, [], ◌∷◌, Option, none,
  some, length, get_elem?, set, leb, le→leb, gt→leb, zero, suc, ap, if◌then◌else◌, Option-cases,
  ◌∙◌,
}
use playit_ios.Common.Bits.{low_half_lem}
use playit_ios.Slab.{Entry, IdSlab, Outcome, done, slot, get, get_entry, assume_init}
use playit_ios.Slab.Invariant.{is_empty_below, is_empty_above}

module _ {A : Type 0} where
  pub get_elem?-lt : (xs : List A) (i : ℕ) {x : A} → get_elem? xs i ≡ some x → i < length xs
  get_elem?-lt [] i h = absurd (cc)
  get_elem?-lt (y ∷ xs) zero h = omega arith
  get_elem?-lt (y ∷ xs) (suc i) h = omega (arith, get_elem?-lt xs i h)

  pub get_elem?-ge : (xs : List A) (i : ℕ) → length xs ≤ i → get_elem? xs i ≡ none
  get_elem?-ge [] i h = refl
  get_elem?-ge (y ∷ xs) zero h = absurd (omega arith)
  get_elem?-ge (y ∷ xs) (suc i) h = get_elem?-ge xs i (omega arith)

  pub outside : (xs : List A) (i : ℕ) → get_elem? xs i ≡ none → length xs ≤ i
  outside [] i h = omega arith
  outside (y ∷ xs) zero h = absurd (cc)
  outside (y ∷ xs) (suc i) h = omega (arith, outside xs i h)

  -- What stands in a list after a write.
  pub set_cases :
      (xs : List A) (i j : ℕ) (x y : A)
      → get_elem? (set xs i x) j ≡ some y
      → ((j ≡ i) × (y ≡ x)) ⊎ ((j ≢ i) × (get_elem? xs j ≡ some y))
  set_cases [] i j x y h = absurd (cc)
  set_cases (z ∷ xs) zero zero x y h = inl (refl, cc)
  set_cases (z ∷ xs) zero (suc j) x y h = inr ((λ e. omega arith), h)
  set_cases (z ∷ xs) (suc i) zero x y h = inr ((λ e. omega arith), h)
  set_cases (z ∷ xs) (suc i) (suc j) x y h = elim (set_cases xs i j x y h) [
    | inl (p, q) ↦ inl (omega arith, q)
    | inr (p, q) ↦ inr ((λ e. p (omega arith)), q)
  ]

module _ {V : Type 0} where
  -- The answer from an entry, if there is one.
  abbrev pub at : Option (Entry V) → Outcome (Option V)
  at none = done none
  at (some e) = get_entry e

  pub slot_in :
      (slab : IdSlab V) (id : ℕ)
      → id % 2 ^ 32 < length slab.entries
      → slot slab id ≡ some (id % 2 ^ 32)
  unfolding slot
  slot_in slab id h =
      ap (λ k. if leb (length slab.entries) k then none else some k) (low_half_lem id)
      ∙ rw (gt→leb (length slab.entries) (id % 2 ^ 32) h) refl

  pub slot_out :
      (slab : IdSlab V) (id : ℕ) → length slab.entries ≤ id % 2 ^ 32 → slot slab id ≡ none
  unfolding slot
  slot_out slab id h =
      ap (λ k. if leb (length slab.entries) k then none else some k) (low_half_lem id)
      ∙ rw (le→leb (length slab.entries) (id % 2 ^ 32) h) refl

  -- The index is in bounds.
  pub get_lem : (slab : IdSlab V) (id : ℕ) → get slab id ≡ at (get_elem? slab.entries (id % 2 ^ 32))
  unfolding get
  get_lem slab id = elim (Option-cases (get_elem? slab.entries (id % 2 ^ 32))) [
    | inl p ↦
        let out : length slab.entries ≤ id % 2 ^ 32 = outside slab.entries (id % 2 ^ 32) p in
        rw (p, slot_out slab id out, get) refl
    | inr (x, p) ↦ rw (slot_in slab id (get_elem?-lt slab.entries (id % 2 ^ 32) p), p, get) refl
  ]

  -- Two ids whose low halves agree find the same, also where one of them was given out for an
  -- earlier value of the slot.
  pub get_stale :
      (slab : IdSlab V) (id other : ℕ) → id % 2 ^ 32 ≡ other % 2 ^ 32 → get slab id ≡ get slab other
  get_stale slab id other h =
      get_lem slab id ∙ ap (λ s. at (get_elem? slab.entries s)) h ∙ sym (get_lem slab other)

  pub get_found :
      (slab : IdSlab V) (id : ℕ) (e : Entry V)
      → get_elem? slab.entries (id % 2 ^ 32) ≡ some e
      → get slab id ≡ get_entry e
  get_found slab id e h = get_lem slab id ∙ ap at h

  pub get_entry_filled :
      (e : Entry V) (v : V) → e.id < 2 ^ 63 → e.value ≡ some v → get_entry e ≡ done (some v)
  unfolding get_entry assume_init
  get_entry_filled e v h p = rw (is_empty_below e.id h, p) refl

  pub get_entry_empty : (e : Entry V) → e.id < 2 ^ 64 → 2 ^ 63 ≤ e.id → get_entry e ≡ done none
  unfolding get_entry
  get_entry_empty e h g = rw (is_empty_above e.id h g) refl
