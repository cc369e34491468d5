-- ===== src/Udp/Clients/Entered.antt =====
-- `UdpClients::handle_tunneled_packet` and the agreement of the map with the slab.
use playit_ios.Common.{
  ℕ, ◌≡◌, ◌≢◌, refl, sym, ap, ◌∙◌, subst, [], ◌∷◌, ◌++◌, none, some, inl, inr, Option-cases,
}
use playit_ios.Keys.{with_key}
use playit_ios.Keys.Invariant.{with_key-cases}
use playit_ios.Udp.Clients.{Client, Clients, Slots, same_key, client_at}
use playit_ios.Udp.Clients.Valid.{
  Valid, HasExtension, Apart, same_key-law, client_at-here, client_at-cases, past, not_both,
  client_at-nil,
}

some_inj : {A : Type 0} {a b : A} → some a ≡ some b → a ≡ b
some_inj h = cc

module _ (slot : ℕ) (new : Client) where
  client_at-snoc_some :
      (clients : Clients) (x : ℕ) (d : Client)
      → client_at x clients ≡ some d
      → client_at x (clients ++ ((slot, new) ∷ [])) ≡ some d
  client_at-snoc_some [] x d h = absurd (client_at-nil x h)
  client_at-snoc_some ((s, c) ∷ rest) x d h = elim (client_at-cases x s c rest) [
    | inl (p, q) ↦
        subst (λ y. client_at y ((s, c) ∷ (rest ++ ((slot, new) ∷ []))) ≡ some c) (sym p)
          (client_at-here s c (rest ++ ((slot, new) ∷ [])))
        ∙ sym q
        ∙ h
    | inr (p, q) ↦
        past x s c (rest ++ ((slot, new) ∷ [])) p ∙ client_at-snoc_some rest x d (sym q ∙ h)
  ]

  client_at-snoc_none :
      (clients : Clients) (x : ℕ)
      → client_at x clients ≡ none
      → client_at x (clients ++ ((slot, new) ∷ [])) ≡ client_at x ((slot, new) ∷ [])
  client_at-snoc_none [] x h = refl
  client_at-snoc_none ((s, c) ∷ rest) x h = elim (client_at-cases x s c rest) [
    | inl (p, q) ↦ absurd (not_both (sym h ∙ q))
    | inr (p, q) ↦
        past x s c (rest ++ ((slot, new) ∷ [])) p ∙ client_at-snoc_none rest x (sym q ∙ h)
  ]

  client_at-one : (x : ℕ) → x ≢ slot → client_at x ((slot, new) ∷ []) ≡ none
  unfolding client_at
  client_at-one x h = past x slot new [] h

  snoc-Apart :
      (clients : Clients)
      → Apart clients
      → client_at slot clients ≡ none
      → Apart (clients ++ ((slot, new) ∷ []))
  unfolding client_at
  snoc-Apart [] h free = (refl, tt)
  snoc-Apart ((s, c) ∷ rest) h free = elim (client_at-cases slot s c rest) [
    | inl (p, q) ↦ absurd (not_both (sym free ∙ q))
    | inr (p, q) ↦ (
      client_at-snoc_none rest s h.0 ∙ client_at-one s (λ e. p (sym e)),
      snoc-Apart rest h.1 (sym q ∙ free),
    )
  ]

  -- A client with a new key in a free slot.
  pub enter-Valid :
      (slots : Slots) (clients : Clients)
      → Valid slots clients
      → client_at slot clients ≡ none
      → slots new.key ≡ none
      → HasExtension new
      → Valid (with_key same_key slots new.key (some slot)) (clients ++ ((slot, new) ∷ []))
  enter-Valid slots clients h free unknown has = record {
    apart = snoc-Apart clients h.apart free;
    found = λ x d e. elim (Option-cases (client_at x clients)) [
      | inl gone ↦
          let one : client_at x ((slot, new) ∷ []) ≡ some d =
            sym (client_at-snoc_none clients x gone) ∙ e in
          (elim (client_at-cases x slot new []) [
            | inl (p, q) ↦
                let is : new ≡ d = cc in
                (elim (with_key-cases same_key same_key-law slots new.key d.key (some slot)) [
                  | inl (a, b) ↦ b ∙ ap some (sym p)
                  | inr (a, b) ↦ absurd (a (ap (λ y. y.key) (sym is)))
                ])
            | inr (p, q) ↦ absurd (client_at-nil x (sym q ∙ one))
          ])
      | inr (c, there) ↦
          let is : c ≡ d = some_inj (sym (client_at-snoc_some clients x c there) ∙ e) in
          let old : slots d.key ≡ some x = ap (λ y. slots y.key) (sym is) ∙ h.found x c there in
          (elim (with_key-cases same_key same_key-law slots new.key d.key (some slot)) [
            | inl (a, b) ↦ absurd (not_both (sym unknown ∙ ap slots (sym a) ∙ old))
            | inr (a, b) ↦ b ∙ old
          ])
    ];
    extended = λ x d e. elim (Option-cases (client_at x clients)) [
      | inl gone ↦
          let one : client_at x ((slot, new) ∷ []) ≡ some d =
            sym (client_at-snoc_none clients x gone) ∙ e in
          (elim (client_at-cases x slot new []) [
            | inl (p, q) ↦ (let is : new ≡ d = cc in subst HasExtension is has)
            | inr (p, q) ↦ absurd (client_at-nil x (sym q ∙ one))
          ])
      | inr (c, there) ↦
          let is : c ≡ d = some_inj (sym (client_at-snoc_some clients x c there) ∙ e) in
          subst HasExtension is (h.extended x c there)
    ];
    back = λ key x e. elim (with_key-cases same_key same_key-law slots new.key key (some slot)) [
      | inl (a, b) ↦
          let is : slot ≡ x = some_inj (sym b ∙ e) in
          (
            new,
            client_at-snoc_none clients x (subst (λ y. client_at y clients ≡ none) is free)
                ∙ subst (λ y. client_at y ((slot, new) ∷ []) ≡ some new) is
                    (client_at-here slot new []),
            sym a,
          )
      | inr (a, b) ↦
          let (c, there, same) = h.back key x (sym b ∙ e) in
          (c, client_at-snoc_some clients x c there, same)
    ];
  }
