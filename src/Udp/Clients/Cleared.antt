-- ===== src/Udp/Clients/Cleared.antt =====
-- `UdpClients::clear_old`: the stale clients go, from the slab and from the map.
use playit_ios.Common.{
  ℕ, ◌≡◌, ◌≢◌, ◌↔◌, sym, ap, ◌∙◌, subst, [], ◌∷◌, false, none, some, inl, inr, Bool-cases,
}
use playit_ios.Slab.{done}
use playit_ios.Keys.{with_key}
use playit_ios.Keys.Invariant.{with_key-cases}
use playit_ios.Udp.Clients.{
  UdpClients, Client, Clients, Slots, same_key, client_at, stale, with_clients, clear_old,
}
use playit_ios.Udp.Clients.Valid.{
  Valid, Apart, Found, same_key-law, client_at-cases, not_both, client_at-nil, key-apart,
  Found-rest, Found-without,
}
use playit_ios.Udp.Clients.Live.{
  live, left_of, retain-live, left_of-sub, left_of-other, left_of-stale, left_of-kept, live-Apart,
  live-sub, live-keeps,
}

module _ (now : ℕ) where
  left_of-Found :
      (clients : Clients) (slots : Slots)
      → Apart clients
      → Found slots clients
      → (slot : ℕ) (d : Client) → client_at slot clients ≡ some d
      → stale now d ≡ false
      → left_of now clients slots d.key ≡ some slot
  left_of-Found [] slots apart found slot d h fresh = absurd (client_at-nil slot h)
  left_of-Found ((s, c) ∷ rest) slots apart found slot d h fresh =
      elim (client_at-cases slot s c rest) [
        | inl (p, q) ↦
            let same : c ≡ d = cc in
            let e : stale now c ≡ false = subst (λ x. stale now x ≡ false) (sym same) fresh in
            rw (e) (
              left_of-other now rest slots d.key apart.1 (λ slot' d' g.
                subst (λ x. d'.key ≢ x.key) same (key-apart s c rest apart slots found slot' d' g))
              ∙ found slot d h)
        | inr (p, q) ↦ elim (Bool-cases (stale now c)) [
          | inl e ↦ rw (e) (
              left_of-Found rest (with_key same_key slots c.key none) apart.1
                (Found-without s c rest apart slots found) slot d (sym q ∙ h) fresh)
          | inr e ↦ rw (e) (
              left_of-Found rest slots apart.1 (Found-rest s c rest apart slots found) slot d
                (sym q ∙ h) fresh)
        ]
      ]

  -- The map leads to no stale client any more.
  left_of-fresh :
      (clients : Clients) (slots : Slots) (slot : ℕ) (d : Client)
      → client_at slot clients ≡ some d
      → left_of now clients slots d.key ≡ some slot
      → stale now d ≡ false
  left_of-fresh [] slots slot d h g = absurd (client_at-nil slot h)
  left_of-fresh ((s, c) ∷ rest) slots slot d h g = elim (client_at-cases slot s c rest) [
    | inl (p, q) ↦
        let same : c ≡ d = cc in
        (elim (Bool-cases (stale now c)) [
          | inl e ↦
              let gone : left_of now rest (with_key same_key slots c.key none) d.key ≡ some slot =
                sym (ap (λ f. f d.key) (left_of-stale now s c rest slots e)) ∙ g in
              let r = left_of-sub now rest (with_key same_key slots c.key none) d.key slot gone in
              (elim (with_key-cases same_key same_key-law slots c.key d.key none) [
                | inl (a, b) ↦ absurd (not_both (sym b ∙ r))
                | inr (a, b) ↦ absurd (a (ap (λ x. x.key) (sym same)))
              ])
          | inr e ↦ subst (λ x. stale now x ≡ false) same e
        ])
    | inr (p, q) ↦ elim (Bool-cases (stale now c)) [
      | inl e ↦
          left_of-fresh rest (with_key same_key slots c.key none) slot d (sym q ∙ h)
            (sym (ap (λ f. f d.key) (left_of-stale now s c rest slots e)) ∙ g)
      | inr e ↦
          left_of-fresh rest slots slot d (sym q ∙ h)
            (sym (ap (λ f. f d.key) (left_of-kept now s c rest slots e)) ∙ g)
    ]
  ]

  left-Valid :
      (slots : Slots) (clients : Clients)
      → Valid slots clients
      → Valid (left_of now clients slots) (live now clients)
  left-Valid slots clients h = record {
    apart = live-Apart now clients h.apart;
    found = λ slot c e.
        (let (a, b) = live-sub now clients slot c h.apart e in
          left_of-Found clients slots h.apart h.found slot c a b);
    extended = λ slot c e. h.extended slot c (live-sub now clients slot c h.apart e).0;
    back = λ key slot e.
        (let (c, at, same) = h.back key slot (left_of-sub now clients slots key slot e) in
          let e' : left_of now clients slots c.key ≡ some slot =
            ap (left_of now clients slots) same ∙ e in
          (c, live-keeps now clients slot c at (left_of-fresh clients slots slot c at e'), same));
  }

  -- For a table of clients whose map agrees with its slab, `clear_old` panics nowhere, the map
  -- agrees with the slab afterwards, and the clients that are left are exactly those that are not
  -- stale.
  pub clear_old-Valid :
      (u : UdpClients)
      → Valid u.virtual_client_lookup u.virtual_clients
      → (u' : UdpClients) × (clear_old u now ≡ done u')
        × Valid u'.virtual_client_lookup u'.virtual_clients
        × ((slot : ℕ) (c : Client)
            → (client_at slot u'.virtual_clients ≡ some c)
              ↔ ((client_at slot u.virtual_clients ≡ some c) × (stale now c ≡ false)))
  unfolding clear_old with_clients
  clear_old-Valid u h = (
    record u {
      virtual_clients = live now u.virtual_clients;
      virtual_client_lookup = left_of now u.virtual_clients u.virtual_client_lookup;
    },
    ap (with_clients u) (retain-live now u.virtual_clients u.virtual_client_lookup h.apart h.found),
    left-Valid u.virtual_client_lookup u.virtual_clients h,
    λ slot c. (
      live-sub now u.virtual_clients slot c h.apart,
      λ (at, fresh). live-keeps now u.virtual_clients slot c at fresh,
    ),
  )
