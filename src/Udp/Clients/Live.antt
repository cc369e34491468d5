-- ===== src/Udp/Clients/Live.antt =====
-- The slab without its stale clients.
use playit_ios.Common.{
  ℕ, ◌≡◌, ◌≢◌, refl, sym, ap, ◌∙◌, subst, [], ◌∷◌, true, false, ==_refl, none, some, inl, inr,
  Bool-cases, if◌then◌else◌,
}
use playit_ios.Slab.{done}
use playit_ios.Keys.{with_key}
use playit_ios.Keys.Invariant.{with_key-cases}
use playit_ios.Udp.Clients.{
  UdpClientKey, Client, Clients, Slots, same_key, client_at, stale, retain, keep, check_removed,
}
use playit_ios.Udp.Clients.Valid.{
  Apart, Found, same_key-law, client_at-here, client_at-cases, past, client_at-nil, client_at-rest,
  Found-rest, Found-without,
}

-- What is left of the slab.
abbrev pub live : ℕ → Clients → Clients
live now [] = []
live now ((s, c) ∷ rest) = if stale now c then live now rest else (s, c) ∷ live now rest

-- What is left of the map.
abbrev pub left_of : ℕ → Clients → Slots → Slots
left_of now [] slots = slots
left_of now ((s, c) ∷ rest) slots =
    if stale now c
    then left_of now rest (with_key same_key slots c.key none)
    else left_of now rest slots

pub retain-live :
    (now : ℕ) (clients : Clients) (slots : Slots)
    → Apart clients
    → Found slots clients
    → retain now clients slots ≡ done (live now clients, left_of now clients slots)
unfolding retain check_removed keep
retain-live now [] slots apart found = refl
retain-live now ((s, c) ∷ rest) slots apart found = elim (Bool-cases (stale now c)) [
  | inl e ↦
      rw (e, found s c (client_at-here s c rest), check_removed, ==_refl s)
        (retain-live now rest (with_key same_key slots c.key none) apart.1
          (Found-without s c rest apart slots found))
  | inr e ↦ rw (e, retain-live now rest slots apart.1 (Found-rest s c rest apart slots found)) refl
]

pub left_of-stale :
    (now s : ℕ) (c : Client) (rest : Clients) (slots : Slots)
    → stale now c ≡ true
    → left_of now ((s, c) ∷ rest) slots ≡ left_of now rest (with_key same_key slots c.key none)
left_of-stale now s c rest slots e = rw (e) refl

pub left_of-kept :
    (now s : ℕ) (c : Client) (rest : Clients) (slots : Slots)
    → stale now c ≡ false
    → left_of now ((s, c) ∷ rest) slots ≡ left_of now rest slots
left_of-kept now s c rest slots e = rw (e) refl

-- The map only loses keys.
pub left_of-sub :
    (now : ℕ) (clients : Clients) (slots : Slots) (key : UdpClientKey) (slot : ℕ)
    → left_of now clients slots key ≡ some slot
    → slots key ≡ some slot
left_of-sub now [] slots key slot h = h
left_of-sub now ((s, c) ∷ rest) slots key slot h = elim (Bool-cases (stale now c)) [
  | inl e ↦
      let g : left_of now rest (with_key same_key slots c.key none) key ≡ some slot =
        sym (ap (λ f. f key) (left_of-stale now s c rest slots e)) ∙ h in
      let r = left_of-sub now rest (with_key same_key slots c.key none) key slot g in
      (elim (with_key-cases same_key same_key-law slots c.key key none) [
        | inl (p, q) ↦ absurd (cc)
        | inr (p, q) ↦ sym q ∙ r
      ])
  | inr e ↦
      left_of-sub now rest slots key slot
        (sym (ap (λ f. f key) (left_of-kept now s c rest slots e)) ∙ h)
]

-- A key that no client of the list has stays.
pub left_of-other :
    (now : ℕ) (clients : Clients) (slots : Slots) (key : UdpClientKey)
    → Apart clients
    → ((slot : ℕ) (d : Client) → client_at slot clients ≡ some d → d.key ≢ key)
    → left_of now clients slots key ≡ slots key
left_of-other now [] slots key apart other = refl
left_of-other now ((s, c) ∷ rest) slots key apart other =
    let later : (slot : ℕ) (d : Client) → client_at slot rest ≡ some d → d.key ≢ key =
      (λ slot d e. other slot d (client_at-rest s c rest apart slot d e).1) in
    elim (Bool-cases (stale now c)) [
      | inl e ↦ rw (e) (
          left_of-other now rest (with_key same_key slots c.key none) key apart.1 later
          ∙ (elim (with_key-cases same_key same_key-law slots c.key key none) [
            | inl (p, q) ↦ absurd (other s c (client_at-here s c rest) (sym p))
            | inr (p, q) ↦ q
          ]))
      | inr e ↦ rw (e) (left_of-other now rest slots key apart.1 later)
    ]

module _ (now : ℕ) where
  pub live-none :
      (clients : Clients) (slot : ℕ)
      → client_at slot clients ≡ none
      → client_at slot (live now clients) ≡ none
  live-none [] slot h = h
  live-none ((s, c) ∷ rest) slot h = elim (client_at-cases slot s c rest) [
    | inl (p, q) ↦ absurd cc
    | inr (p, q) ↦
        let later : client_at slot (live now rest) ≡ none = live-none rest slot (sym q ∙ h) in
        (elim (Bool-cases (stale now c)) [
          | inl e ↦ rw (e) later
          | inr e ↦ rw (e) (past slot s c (live now rest) p ∙ later)
        ])
  ]

  pub live-Apart : (clients : Clients) → Apart clients → Apart (live now clients)
  live-Apart [] h = tt
  live-Apart ((s, c) ∷ rest) h = elim (Bool-cases (stale now c)) [
    | inl e ↦ rw (e) (live-Apart rest h.1)
    | inr e ↦ rw (e) (live-none rest s h.0, live-Apart rest h.1)
  ]

  -- A client that is left is one of the clients, and not stale.
  pub live-sub :
      (clients : Clients) (slot : ℕ) (d : Client)
      → Apart clients
      → client_at slot (live now clients) ≡ some d
      → (client_at slot clients ≡ some d) × (stale now d ≡ false)
  live-sub [] slot d apart h = absurd (client_at-nil slot h)
  live-sub ((s, c) ∷ rest) slot d apart h = elim (Bool-cases (stale now c)) [
    | inl e ↦
        let (a, b) = live-sub rest slot d apart.1 (
          subst (λ b. client_at slot (if b then live now rest else (s, c) ∷ live now rest) ≡ some d)
            e h) in
        ((client_at-rest s c rest apart slot d a).1, b)
    | inr e ↦
        let g : client_at slot ((s, c) ∷ live now rest) ≡ some d =
          subst (λ b. client_at slot (if b then live now rest else (s, c) ∷ live now rest) ≡ some d)
            e h in
        (elim (client_at-cases slot s c (live now rest)) [
          | inl (p, q) ↦
              let same : c ≡ d = cc in
              (
                rw (p) (client_at-here s c rest ∙ ap some same),
                subst (λ x. stale now x ≡ false) same e,
              )
          | inr (p, q) ↦
              let (a, b) = live-sub rest slot d apart.1 (sym q ∙ g) in
              ((client_at-rest s c rest apart slot d a).1, b)
        ])
  ]

  pub live-keeps :
      (clients : Clients) (slot : ℕ) (d : Client)
      → client_at slot clients ≡ some d
      → stale now d ≡ false
      → client_at slot (live now clients) ≡ some d
  live-keeps [] slot d h fresh = h
  live-keeps ((s, c) ∷ rest) slot d h fresh = elim (client_at-cases slot s c rest) [
    | inl (p, q) ↦
        let same : c ≡ d = cc in
        let e : stale now c ≡ false = subst (λ x. stale now x ≡ false) (sym same) fresh in
        rw (e, p) (client_at-here s c (live now rest) ∙ ap some same)
    | inr (p, q) ↦
        let later : client_at slot (live now rest) ≡ some d =
          live-keeps rest slot d (sym q ∙ h) fresh in
        (elim (Bool-cases (stale now c)) [
          | inl e ↦ rw (e) later
          | inr e ↦ rw (e) (past slot s c (live now rest) p ∙ later)
        ])
  ]
