-- ===== src/Count/Laws.antt =====
-- The table implements a count for each key, where no entry means none.
use playit_ios.Common.{
  ℕ, zero, suc, ◌-◌, ◌<◌, ◌≡◌, ◌≢◌, ◌↔◌, ◌⊎◌, inl, inr, refl, sym, ◌∙◌, arith, Bool, true, Option,
  none, some, Option-cases, ne→==, ap,
}
use playit_ios.Slab.{done}
use playit_ios.Keys.{with_key}
use playit_ios.Keys.Invariant.{with_key-cases}
use playit_ios.Count.{InstanceCount, dec}

-- The number of instances that an entry stands for.
abbrev pub number : Option ℕ → ℕ
number none = 0
number (some n) = n

-- The table as a number for each key.
abbrev pub count : {K : Type 0} → InstanceCount K → K → ℕ
count t key = number (t.counters key)

-- No entry holds 0.
abbrev pub IsCounted : {K : Type 0} → InstanceCount K → Type 0
IsCounted {K} t = (key : K) → t.counters key ≢ some 0

some-zero : (n : ℕ) → 0 < n → ◌≢◌ {A = Option ℕ} (some n) (some 0)
some-zero n h e = (let p : n ≡ 0 = cc in omega arith)

module _ {K : Type 0} (same : K → K → Bool) (law : (a b : K) → (same a b ≡ true) ↔ (a ≡ b)) where
  -- The table with another entry for `key`.
  changed : InstanceCount K → K → Option ℕ → InstanceCount K
  changed t key o = record { counters = with_key same t.counters key o }

  -- `key` counts `n` in `t'`, every other key what it did, and no entry of `t'` holds 0.
  abbrev pub Changed : InstanceCount K → K → ℕ → InstanceCount K → Type 0
  Changed t key n t' =
      (count t' key ≡ n)
      × ((other : K) → (other ≡ key) ⊎ (count t' other ≡ count t other))
      × IsCounted t'

  changed-Changed :
      (t : InstanceCount K) (key : K) (o : Option ℕ)
      → IsCounted t
      → o ≢ some 0
      → Changed t key (number o) (changed t key o)
  unfolding changed
  changed-Changed t key o h ne = (
    elim (with_key-cases same law t.counters key key o) [
      | inl (a, b) ↦ rw (b) refl
      | inr (a, b) ↦ absurd (a refl)
    ],
    (λ other. elim (with_key-cases same law t.counters key other o) [
      | inl (a, b) ↦ inl a
      | inr (a, b) ↦ inr (rw (b) refl)
    ]),
    λ other p. elim (with_key-cases same law t.counters key other o) [
      | inl (a, b) ↦ ne (sym b ∙ p)
      | inr (a, b) ↦ h other (sym b ∙ p)
    ],
  )

  dec_last :
      (t : InstanceCount K) (key : K)
      → t.counters key ≡ some 1
      → dec same t key ≡ done (some 0, changed t key none)
  unfolding dec changed
  dec_last t key p = rw (p, dec) refl

  dec_more :
      (t : InstanceCount K) (key : K) (n : ℕ)
      → t.counters key ≡ some n
      → 1 < n
      → dec same t key ≡ done (some (n - 1), changed t key (some (n - 1)))
  unfolding dec changed
  dec_more t key n p h = rw (p, dec, ne→== n 0 (omega arith), ne→== (n - 1) 0 (omega arith)) refl

  -- What `dec` does to a key with an entry.
  dec_entry :
      (t : InstanceCount K) (key : K) (n : ℕ)
      → IsCounted t
      → t.counters key ≡ some n
      → (t' : InstanceCount K) × (dec same t key ≡ done (some (n - 1), t'))
        × Changed t key (n - 1) t'
  dec_entry t key zero h p = absurd (h key p)
  dec_entry t key (suc zero) h p =
      (changed t key none, dec_last t key p, changed-Changed t key none h (λ e. cc))
  dec_entry t key (suc (suc n)) h p =
      let m : ℕ = suc (suc n) in
      (
        changed t key (some (m - 1)),
        dec_more t key m p (omega arith),
        changed-Changed t key (some (m - 1)) h (some-zero (m - 1) (omega arith)),
      )

  -- For keys compared by equality, a table without an entry that holds 0 and a key with a count
  -- above 0, `dec` answers the count less 1, without a failed assertion, and leaves a table
  -- without an entry that holds 0, in which the key has that count and every other key the one it
  -- had.
  pub dec-Changed :
      (t : InstanceCount K) (key : K)
      → IsCounted t
      → 0 < count t key
      → (t' : InstanceCount K) × (dec same t key ≡ done (some (count t key - 1), t'))
        × Changed t key (count t key - 1) t'
  dec-Changed t key h lt = elim (Option-cases (t.counters key)) [
    | inl p ↦ absurd (omega (arith, ap number p))
    | inr (n, p) ↦ rw (p) (dec_entry t key n h p)
  ]
