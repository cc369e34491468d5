-- ===== src/Slab/Start.antt =====
-- The slab at the start.
use playit_ios.Common.{
  ℕ, zero, suc, ◌+◌, ◌^◌, ◌<◌, ◌≤◌, ◌≡◌, refl, arith, Option, some, get_elem?, true, false, ◌∙◌, ap,
  bit_or, inl, inr, Option-cases, none, ◌%◌,
}
use playit_ios.Slab.Slots.{at, get_lem, get_found, get_entry_empty}
use playit_ios.Slab.{done, get, Entry, with_capacity, fresh_entries, fresh_slots, empty_bit}
use playit_ios.Slab.Invariant.{IsValid, contains, Distinct, mark_lem}

contains_fresh : (pos n s : ℕ) → contains s (fresh_slots pos n) ≡ true → (pos ≤ s) × (s < pos + n)
unfolding fresh_slots
contains_fresh pos zero s h = absurd (cc)
contains_fresh pos (suc n) s h = ground (arith, contains_fresh (suc pos) n s)

fresh_contains : (pos n s : ℕ) → pos ≤ s → s < pos + n → contains s (fresh_slots pos n) ≡ true
unfolding fresh_slots
fresh_contains pos zero s h g = absurd (omega arith)
fresh_contains pos (suc n) s h g = ground (arith, fresh_contains (suc pos) n s)

not_contains : (pos n s : ℕ) → s < pos → contains s (fresh_slots pos n) ≡ false
unfolding fresh_slots
not_contains pos zero s h = refl
not_contains pos (suc n) s h = ground (arith, not_contains (suc pos) n s)

fresh_slots-Distinct : (pos n : ℕ) → Distinct (fresh_slots pos n)
unfolding fresh_slots
fresh_slots-Distinct pos zero = tt
fresh_slots-Distinct pos (suc n) =
    (not_contains (suc pos) n pos (omega arith), fresh_slots-Distinct (suc pos) n)

marked : (i : ℕ) → i < 2 ^ 32 → bit_or empty_bit (0 + i) ≡ i + 2 ^ 63
marked i h = ap (bit_or empty_bit) (omega arith) ∙ mark_lem i (omega arith) ∙ omega arith

module _ {V : Type 0} where
  top_entry : {x : Entry V} (e : Entry V) → ◌≡◌ {A = Option (Entry V)} (some x) (some e) → e ≡ x
  top_entry e h = cc

  fresh_entry :
      (pos n i : ℕ) (e : Entry V)
      → get_elem? (fresh_entries pos n) i ≡ some e
      → (e.id ≡ bit_or empty_bit (pos + i)) × (i < n)
  unfolding fresh_entries
  fresh_entry pos zero i e h = absurd (cc)
  fresh_entry pos (suc n) zero e h = (
    ap (λ (x : Entry V). x.id) (top_entry e h) ∙ ap (bit_or empty_bit) (omega arith),
    omega arith,
  )
  fresh_entry pos (suc n) (suc i) e h =
      let (a, b) = fresh_entry (suc pos) n i e h in
      (a ∙ ap (bit_or empty_bit) (omega arith), omega arith)

  fresh_at : (pos n i : ℕ) → i < n → (e : Entry V) × (get_elem? (fresh_entries pos n) i ≡ some e)
  unfolding fresh_entries
  fresh_at pos zero i h = absurd (omega arith)
  fresh_at pos (suc n) zero h = (_, refl)
  fresh_at pos (suc n) (suc i) h = fresh_at (suc pos) n i (omega arith)

  -- A slab of at most 2^32 slots starts valid.
  pub with_capacity-IsValid :
      (capacity : ℕ) → capacity ≤ 2 ^ 32 → IsValid (with_capacity {V = V} capacity)
  unfolding with_capacity
  with_capacity-IsValid capacity h = record {
    entry = λ s e g.
        let (a, b) = fresh_entry 0 capacity s e g in
        let id : e.id ≡ s + 2 ^ 63 = a ∙ marked s (omega arith) in
        record { width = omega arith; place = omega arith; filled = λ lt. absurd (omega arith) };
    free = λ s g.
        let (a, b) = contains_fresh 0 capacity s g in
        let (e, p) = fresh_at 0 capacity s (omega arith) in
        let (c, d) = fresh_entry 0 capacity s e p in
        let id : e.id ≡ s + 2 ^ 63 = c ∙ marked s (omega arith) in (e, p, omega arith);
    all_free = λ s e g above.
        let (a, b) = fresh_entry 0 capacity s e g in
        fresh_contains 0 capacity s (omega arith) (omega arith);
    distinct = fresh_slots-Distinct 0 capacity;
  }

  -- It finds nothing.
  pub get-with_capacity :
      (capacity : ℕ) (id : ℕ)
      → capacity ≤ 2 ^ 32
      → get (with_capacity {V = V} capacity) id ≡ done none
  unfolding with_capacity
  get-with_capacity capacity id h =
      elim (Option-cases (get_elem? (fresh_entries {V = V} 0 capacity) (id % 2 ^ 32))) [
        | inl p ↦ get_lem (with_capacity capacity) id ∙ ap at p
        | inr (e, p) ↦
            let (a, b) = fresh_entry 0 capacity (id % 2 ^ 32) e p in
            let mark : e.id ≡ id % 2 ^ 32 + 2 ^ 63 = a ∙ marked (id % 2 ^ 32) (omega arith) in
            get_found (with_capacity capacity) id e p
            ∙ get_entry_empty e (omega arith) (omega arith)
      ]
