-- ===== src/Udp/Clients/Changed.antt =====
-- A client that is written to, and one that is entered, in the slab and in the map.
use playit_ios.Common.{
  ℕ, ◌≡◌, ◌≢◌, refl, sym, ap, ◌∙◌, subst, [], ◌∷◌, true, ◌==◌, ==_refl, some, inl, inr, Bool-cases,
  ne→==, ==_iff,
}
use playit_ios.Udp.Clients.{Client, Clients, Slots, client_at, set_client}
use playit_ios.Udp.Clients.Valid.{
  Valid, HasExtension, Apart, client_at-here, client_at-cases, past, client_at-nil,
}

module _ (slot : ℕ) (new : Client) where
  set_client-here :
      (s : ℕ) (c : Client) (rest : Clients)
      → slot ≡ s
      → set_client slot new ((s, c) ∷ rest) ≡ (s, new) ∷ rest
  unfolding set_client
  set_client-here s c rest e = rw (sym e, ==_refl slot) refl

  set_client-past :
      (s : ℕ) (c : Client) (rest : Clients)
      → slot ≢ s
      → set_client slot new ((s, c) ∷ rest) ≡ (s, c) ∷ set_client slot new rest
  unfolding set_client
  set_client-past s c rest h = rw (ne→== slot s h) refl

  client_at-set_other :
      (clients : Clients) (x : ℕ)
      → x ≢ slot
      → client_at x (set_client slot new clients) ≡ client_at x clients
  unfolding set_client
  client_at-set_other [] x h = refl
  client_at-set_other ((s, c) ∷ rest) x h = elim (client_at-cases slot s c rest) [
    | inl (p, q) ↦
        let n : x ≢ s = λ e. h (e ∙ sym p) in
        ap (client_at x) (set_client-here s c rest p)
        ∙ past x s new rest n
        ∙ sym (past x s c rest n)
    | inr (p, q) ↦
        ap (client_at x) (set_client-past s c rest p) ∙ (elim (client_at-cases x s c rest) [
          | inl (a, b) ↦
              (subst (λ y. client_at y ((s, c) ∷ set_client slot new rest) ≡ some c) (sym a)
                (client_at-here s c (set_client slot new rest)))
              ∙ sym b
          | inr (a, b) ↦
              past x s c (set_client slot new rest) a ∙ client_at-set_other rest x h ∙ sym b
        ])
  ]

  client_at-set_self :
      (clients : Clients) (old : Client)
      → client_at slot clients ≡ some old
      → client_at slot (set_client slot new clients) ≡ some new
  unfolding set_client
  client_at-set_self [] old h = absurd (client_at-nil slot h)
  client_at-set_self ((s, c) ∷ rest) old h = elim (client_at-cases slot s c rest) [
    | inl (p, q) ↦
        ap (client_at slot) (set_client-here s c rest p)
        ∙ subst (λ y. client_at y ((s, new) ∷ rest) ≡ some new) (sym p) (client_at-here s new rest)
    | inr (p, q) ↦
        ap (client_at slot) (set_client-past s c rest p)
        ∙ past slot s c (set_client slot new rest) p
        ∙ client_at-set_self rest old (sym q ∙ h)
  ]

  set_client-Apart : (clients : Clients) → Apart clients → Apart (set_client slot new clients)
  unfolding set_client
  set_client-Apart [] h = h
  set_client-Apart ((s, c) ∷ rest) h = elim (client_at-cases slot s c rest) [
    | inl (p, q) ↦ subst Apart (sym (set_client-here s c rest p)) h
    | inr (p, q) ↦
        subst Apart (sym (set_client-past s c rest p))
          (client_at-set_other rest s (λ e. p (sym e)) ∙ h.0, set_client-Apart rest h.1)
  ]

  -- The key stays, so that the map still agrees with the slab.
  pub set_client-Valid :
      (slots : Slots) (clients : Clients) (old : Client)
      → Valid slots clients
      → client_at slot clients ≡ some old
      → new.key ≡ old.key
      → HasExtension new
      → Valid slots (set_client slot new clients)
  set_client-Valid slots clients old h at same has = record {
    apart = set_client-Apart clients h.apart;
    found = λ x d e. elim (Bool-cases (x == slot)) [
      | inl p ↦
          let eq : x ≡ slot = (==_iff x slot).0 p in
          let self : client_at x (set_client slot new clients) ≡ some new =
            subst (λ y. client_at y (set_client slot new clients) ≡ some new) (sym eq)
              (client_at-set_self clients old at) in
          let is : new ≡ d = cc in
          ap slots (ap (λ y. y.key) (sym is) ∙ same) ∙ h.found slot old at ∙ ap some (sym eq)
      | inr p ↦ h.found x d (
          sym (
            client_at-set_other clients x
              (λ q. (let r : (x == slot) ≡ true = (==_iff x slot).1 q in cc)))
          ∙ e)
    ];
    extended = λ x d e. elim (Bool-cases (x == slot)) [
      | inl p ↦
          let eq : x ≡ slot = (==_iff x slot).0 p in
          let self : client_at x (set_client slot new clients) ≡ some new =
            subst (λ y. client_at y (set_client slot new clients) ≡ some new) (sym eq)
              (client_at-set_self clients old at) in
          let is : new ≡ d = cc in subst HasExtension is has
      | inr p ↦ h.extended x d (
          sym (
            client_at-set_other clients x
              (λ q. (let r : (x == slot) ≡ true = (==_iff x slot).1 q in cc)))
          ∙ e)
    ];
    back = λ key x e.
        (let (c, there, is) = h.back key x e in
          elim (Bool-cases (x == slot)) [
            | inl p ↦
                let eq : x ≡ slot = (==_iff x slot).0 p in
                let there' : client_at slot clients ≡ some c =
                  subst (λ y. client_at y clients ≡ some c) eq there in
                let is' : old ≡ c = cc in
                (
                  new,
                  subst (λ y. client_at y (set_client slot new clients) ≡ some new) (sym eq)
                      (client_at-set_self clients old at),
                  same ∙ ap (λ y. y.key) is' ∙ is,
                )
            | inr p ↦ (
              c,
              client_at-set_other clients x
                    (λ q. (let r : (x == slot) ≡ true = (==_iff x slot).1 q in cc))
                  ∙ there,
              is,
            )
          ]);
  }
