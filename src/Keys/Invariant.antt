-- ===== src/Keys/Invariant.antt =====
-- The agreement of the keys and the slab, and what keeps it.
use playit_ios.Common.{
  ℕ, ◌*◌, ◌^◌, ◌%◌, ◌≡◌, ◌≢◌, ◌↔◌, ◌⊎◌, inl, inr, refl, sym, ◌∙◌, arith, Bool, true, Option, none,
  some, Bool-cases,
}
use playit_ios.Slab.{IdSlab, done, get}
use playit_ios.Slab.Invariant.{IsValid}
use playit_ios.Slab.Slots.{get_stale}
use playit_ios.Slab.Insert.{Stored}
use playit_ios.Slab.Remove.{Taken}
use playit_ios.Slab.Start.{with_capacity-IsValid, get-with_capacity}
use playit_ios.Keys.{KeyToId, with_key, default}

-- The slab is valid, every key's id finds a value, different keys have different slots, and every
-- value of the slab is that of a key.
pub record IsKeyed {K V : Type 0} (t : KeyToId K V) : Type 0 where
  pub valid : IsValid t.items
  pub found :
      (key : K) (id : ℕ) → t.lookup key ≡ some id → (v : V) × (get t.items id ≡ done (some v))
  pub apart :
      (key other : K) (i j : ℕ)
      → t.lookup key ≡ some i
      → t.lookup other ≡ some j
      → i % 2 ^ 32 ≡ j % 2 ^ 32
      → key ≡ other
  pub keyed :
      (id : ℕ) (v : V)
      → get t.items id ≡ done (some v)
      → (key : K) × (j : ℕ) × (t.lookup key ≡ some j) × (j % 2 ^ 32 ≡ id % 2 ^ 32)

-- Every other key has the id that it had, which finds what it found.
abbrev pub OthersKept : {K V : Type 0} → KeyToId K V → K → KeyToId K V → Type 0
OthersKept {K} t key t' =
    (x : K)
    → x ≢ key
    → (t'.lookup x ≡ t.lookup x) × ((i : ℕ) → t.lookup x ≡ some i → get t'.items i ≡ get t.items i)

-- The keys and the slab of the empty table, with its 2^20 slots, agree.
pub default-IsKeyed : {K V : Type 0} → IsKeyed (default {K = K} {V = V})
unfolding default
default-IsKeyed = record {
  valid = with_capacity-IsValid (1024 * 1024) (omega arith);
  found = λ key id p. absurd (cc);
  apart = λ key other i j p q e. absurd (cc);
  keyed = λ id v p.
      let q : done none ≡ done (some v) =
        sym (get-with_capacity (1024 * 1024) id (omega arith)) ∙ p in
      absurd (cc);
}

module _ {K V : Type 0} where
  -- An id that finds nothing has the slot of no key.
  pub fresh_slot :
      (t : KeyToId K V) (key : K) (id j : ℕ)
      → IsKeyed t
      → get t.items id ≡ done none
      → t.lookup key ≡ some j
      → j % 2 ^ 32 ≢ id % 2 ^ 32
  fresh_slot t key id j h none_there p e =
      let (v, q) = h.found key j p in
      let a : done none ≡ done (some v) = sym none_there ∙ sym (get_stale t.items j id e) ∙ q in cc

module _ {K : Type 0} (same : K → K → Bool) (law : (a b : K) → (same a b ≡ true) ↔ (a ≡ b)) where
  pub with_key-cases :
      (lookup : K → Option ℕ) (key x : K) (o : Option ℕ)
      → ((x ≡ key) × (with_key same lookup key o x ≡ o))
        ⊎ ((x ≢ key) × (with_key same lookup key o x ≡ lookup x))
  unfolding with_key
  with_key-cases lookup key x o = elim (Bool-cases (same x key)) [
    | inl e ↦ inl ((law x key).0 e, rw (e) refl)
    | inr e ↦ inr ((λ p. (let q : same x key ≡ true = (law x key).1 p in cc)), rw (e) refl)
  ]

module _ {K V : Type 0} (same : K → K → Bool) where
  unfoldable pub keyed_with : KeyToId K V → IdSlab V → K → Option ℕ → KeyToId K V
  keyed_with t items key o = record { items = items; lookup = with_key same t.lookup key o }

module _ {K V : Type 0} (same : K → K → Bool) (law : (a b : K) → (same a b ≡ true) ↔ (a ≡ b)) where
  pub lookup_with :
      (t : KeyToId K V) (items : IdSlab V) (key : K) (o : Option ℕ)
      → (keyed_with same t items key o).lookup key ≡ o
  unfolding keyed_with with_key
  lookup_with t items key o = (let e : same key key ≡ true = (law key key).1 refl in rw (e) refl)

  pub added-IsKeyed :
      (t : KeyToId K V) (key : K) (v : V) (id : ℕ) (items : IdSlab V)
      → IsKeyed t
      → t.lookup key ≡ none
      → Stored t.items v id items
      → IsKeyed (keyed_with same t items key (some id))
  unfolding keyed_with
  added-IsKeyed t key v id items h absent (valid, none_there, found, frame) = record {
    valid = valid;
    found = λ x i p. elim (with_key-cases same law t.lookup key x (some id)) [
      | inl (a, b) ↦ (v, (let e : id ≡ i = cc in rw (sym e) found))
      | inr (a, b) ↦
          let q : t.lookup x ≡ some i = sym b ∙ p in
          let (w, g) = h.found x i q in
          (elim (frame i) [
            | inl e ↦ absurd (fresh_slot t x id i h none_there q e)
            | inr e ↦ (w, e ∙ g)
          ])
    ];
    apart = λ x y i j p q e. elim (with_key-cases same law t.lookup key x (some id)) [
      | inl (a, b) ↦ (elim (with_key-cases same law t.lookup key y (some id)) [
        | inl (c, d) ↦ a ∙ sym c
        | inr (c, d) ↦
            let same_id : id ≡ i = cc in
            absurd (fresh_slot t y id j h none_there (sym d ∙ q) (rw (same_id) (sym e)))
      ])
      | inr (a, b) ↦ (elim (with_key-cases same law t.lookup key y (some id)) [
        | inl (c, d) ↦
            let same_id : id ≡ j = cc in
            absurd (fresh_slot t x id i h none_there (sym b ∙ p) (rw (same_id) e))
        | inr (c, d) ↦ h.apart x y i j (sym b ∙ p) (sym d ∙ q) e
      ])
    ];
    keyed = λ i w p. elim (frame i) [
      | inl e ↦ (key, id, lookup_with t items key (some id), sym e)
      | inr e ↦
          let (x, j, q, r) = h.keyed i w (sym e ∙ p) in
          (elim (with_key-cases same law t.lookup key x (some id)) [
            | inl (a, b) ↦ absurd (let f : none ≡ some j = sym absent ∙ (rw (sym a) q) in cc)
            | inr (a, b) ↦ (x, j, b ∙ q, r)
          ])
    ];
  }

  pub added-OthersKept :
      (t : KeyToId K V) (key : K) (v : V) (id : ℕ) (items : IdSlab V)
      → IsKeyed t
      → Stored t.items v id items
      → OthersKept t key (keyed_with same t items key (some id))
  unfolding keyed_with
  added-OthersKept t key v id items h (valid, none_there, found, frame) x ne =
      elim (with_key-cases same law t.lookup key x (some id)) [
        | inl (a, b) ↦ absurd (ne a)
        | inr (a, b) ↦ (
          b,
          λ i q. elim (frame i) [
            | inl e ↦ absurd (fresh_slot t x id i h none_there q e)
            | inr e ↦ e
          ],
        )
      ]

  pub removed-IsKeyed :
      (t : KeyToId K V) (key : K) (id : ℕ) (items : IdSlab V)
      → IsKeyed t
      → t.lookup key ≡ some id
      → Taken t.items id items
      → IsKeyed (keyed_with same t items key none)
  unfolding keyed_with
  removed-IsKeyed t key id items h k (valid, more, gone, frame) = record {
    valid = valid;
    found = λ x i p. elim (with_key-cases same law t.lookup key x none) [
      | inl (a, b) ↦ absurd (let e : none ≡ some i = sym b ∙ p in cc)
      | inr (a, b) ↦
          let q : t.lookup x ≡ some i = sym b ∙ p in
          let (w, g) = h.found x i q in
          (elim (frame i) [ inl e ↦ absurd (a (h.apart x key i id q k e)) | inr e ↦ (w, e ∙ g) ])
    ];
    apart = λ x y i j p q e. elim (with_key-cases same law t.lookup key x none) [
      | inl (a, b) ↦ absurd (let f : none ≡ some i = sym b ∙ p in cc)
      | inr (a, b) ↦ (elim (with_key-cases same law t.lookup key y none) [
        | inl (c, d) ↦ absurd (let f : none ≡ some j = sym d ∙ q in cc)
        | inr (c, d) ↦ h.apart x y i j (sym b ∙ p) (sym d ∙ q) e
      ])
    ];
    keyed = λ i w p.
        let other : i % 2 ^ 32 ≢ id % 2 ^ 32 = λ e.
          (let a : done none ≡ done (some w) = sym gone ∙ sym (get_stale items i id e) ∙ p in cc) in
        elim (frame i) [
          | inl e ↦ absurd (other e)
          | inr e ↦
              let (x, j, q, r) = h.keyed i w (sym e ∙ p) in
              (elim (with_key-cases same law t.lookup key x none) [
                | inl (a, b) ↦
                    let f : some id ≡ some j = sym k ∙ (rw (sym a) q) in
                    let g : id ≡ j = cc in absurd (other (rw (g) (sym r)))
                | inr (a, b) ↦ (x, j, b ∙ q, r)
              ])
        ];
  }

  pub removed-OthersKept :
      (t : KeyToId K V) (key : K) (id : ℕ) (items : IdSlab V)
      → IsKeyed t
      → t.lookup key ≡ some id
      → Taken t.items id items
      → OthersKept t key (keyed_with same t items key none)
  unfolding keyed_with
  removed-OthersKept t key id items h k (valid, more, gone, frame) x ne =
      elim (with_key-cases same law t.lookup key x none) [
        | inl (a, b) ↦ absurd (ne a)
        | inr (a, b) ↦ (
          b,
          λ i q. elim (frame i) [ inl e ↦ absurd (ne (h.apart x key i id q k e)) | inr e ↦ e ],
        )
      ]
