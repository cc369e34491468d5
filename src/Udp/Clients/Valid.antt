-- ===== src/Udp/Clients/Valid.antt =====
-- The agreement of the map of clients with the slab.
use playit_ios.Common.{
  ℕ, ◌≡◌, ◌≢◌, refl, sym, ap, ◌∙◌, subst, ◌↔◌, [], ◌∷◌, Bool, true, false, ◌&&◌, ◌==◌, ==_iff,
  ==_refl, Option, none, some, ◌⊎◌, inl, inr, Bool-cases,
}
use playit_ios.Proto.Wire.{SocketAddr, IpAddr, v4, v6}
use playit_ios.Control.{same_addr, same_ip}
use playit_ios.Keys.{with_key}
use playit_ios.Keys.Invariant.{with_key-cases}
use playit_ios.Control.Expiry.{same_addr_refl}
use playit_ios.Udp.Flow.{UdpFlowExtension, extension}
use playit_ios.Udp.Clients.{UdpClientKey, Client, Clients, Slots, same_key, client_at}

pub same_ip-eq : (a b : IpAddr) → same_ip a b ≡ true → a ≡ b
unfolding same_ip
same_ip-eq (v4 a) (v4 b) h = ap v4 ((==_iff a b).0 h)
same_ip-eq (v6 a) (v6 b) h = ap v6 ((==_iff a b).0 h)
same_ip-eq (v4 a) (v6 b) h = cc
same_ip-eq (v6 a) (v4 b) h = cc

both : (a b : Bool) → (a && b) ≡ true → (a ≡ true) × (b ≡ true)
both true true h = (refl, refl)
both true false h = cc
both false b h = cc

same_addr-eq : (a b : SocketAddr) → same_addr a b ≡ true → a ≡ b
unfolding same_addr
same_addr-eq a b h =
    let (i, p) = both (same_ip a.ip b.ip) (a.port == b.port) h in
    let ips = same_ip-eq a.ip b.ip i in
    let ports = (==_iff a.port b.port).0 p in λ k. record { ip = ips k; port = ports k }

pub same_key-eq : (a b : UdpClientKey) → same_key a b ≡ true → a ≡ b
unfolding same_key
same_key-eq a b h =
    let (s, t) = both (same_addr a.source_addr b.source_addr) (a.tunnel_id == b.tunnel_id) h in
    let addrs = same_addr-eq a.source_addr b.source_addr s in
    let ids = (==_iff a.tunnel_id b.tunnel_id).0 t in
    λ k. record { source_addr = addrs k; tunnel_id = ids k }

pub same_key_refl : (a : UdpClientKey) → same_key a a ≡ true
unfolding same_key
same_key_refl a = rw (same_addr_refl a.source_addr, ==_refl a.tunnel_id) refl

pub same_key-law : (a b : UdpClientKey) → (same_key a b ≡ true) ↔ (a ≡ b)
same_key-law a b = (same_key-eq a b, λ e. subst (λ k. same_key a k ≡ true) e (same_key_refl a))

-- No slot stands twice.
abbrev pub Apart : Clients → Type 0
Apart [] = Unit
Apart ((s, c) ∷ rest) = (client_at s rest ≡ none) × Apart rest

-- The map leads from the key of a client to its slot.
abbrev pub Found : Slots → Clients → Type 0
Found slots clients =
    (slot : ℕ) (c : Client) → client_at slot clients ≡ some c → slots c.key ≡ some slot

-- The map leads to slots of clients with the key.
abbrev pub Back : Slots → Clients → Type 0
Back slots clients =
    (key : UdpClientKey) (slot : ℕ)
    → slots key ≡ some slot
    → (c : Client) × (client_at slot clients ≡ some c) × (c.key ≡ key)

-- The flow of each client has an extension.
abbrev pub HasExtension : Client → Type 0
HasExtension c = (e : UdpFlowExtension) × (extension c.flow ≡ some e)

abbrev pub Extended : Clients → Type 0
Extended clients = (slot : ℕ) (c : Client) → client_at slot clients ≡ some c → HasExtension c

pub record Valid (slots : Slots) (clients : Clients) : Type 0 where
  pub apart : Apart clients
  pub found : Found slots clients
  pub back : Back slots clients
  pub extended : Extended clients

pub client_at-here : (s : ℕ) (c : Client) (rest : Clients) → client_at s ((s, c) ∷ rest) ≡ some c
unfolding client_at
client_at-here s c rest = rw (==_refl s) refl

pub client_at-cases :
    (slot s : ℕ) (c : Client) (rest : Clients)
    → ((slot ≡ s) × (client_at slot ((s, c) ∷ rest) ≡ some c))
      ⊎ ((slot ≢ s) × (client_at slot ((s, c) ∷ rest) ≡ client_at slot rest))
unfolding client_at
client_at-cases slot s c rest = elim (Bool-cases (slot == s)) [
  | inl e ↦ inl ((==_iff slot s).0 e, rw (e) refl)
  | inr e ↦ inr ((λ p. (let q : (slot == s) ≡ true = (==_iff slot s).1 p in cc)), rw (e) refl)
]

pub past :
    (slot s : ℕ) (c : Client) (rest : Clients)
    → slot ≢ s
    → client_at slot ((s, c) ∷ rest) ≡ client_at slot rest
past slot s c rest h = elim (client_at-cases slot s c rest) [
  | inl (p, q) ↦ absurd (h p)
  | inr (p, q) ↦ q
]

pub not_both : {A : Type 0} {a : A} → ◌≡◌ {A = Option A} none (some a) → ⊥
not_both h = cc

pub client_at-nil : (slot : ℕ) {d : Client} → client_at slot [] ≡ some d → ⊥
unfolding client_at
client_at-nil slot h = not_both h

module _ (s : ℕ) (c : Client) (rest : Clients) (apart : Apart ((s, c) ∷ rest)) where
  -- A client of the rest is a client of the whole.
  pub client_at-rest :
      (slot : ℕ) (d : Client)
      → client_at slot rest ≡ some d
      → (slot ≢ s) × (client_at slot ((s, c) ∷ rest) ≡ some d)
  client_at-rest slot d e = elim (client_at-cases slot s c rest) [
    | inl (p, q) ↦ absurd (let r : client_at slot rest ≡ none = rw (p) apart.0 in cc)
    | inr (p, q) ↦ (p, q ∙ e)
  ]

  module _ (slots : Slots) (found : Found slots ((s, c) ∷ rest)) where
    pub key-apart : (slot : ℕ) (d : Client) → client_at slot rest ≡ some d → d.key ≢ c.key
    key-apart slot d e same =
        let (p, q) = client_at-rest slot d e in
        let a : slots d.key ≡ some slot = found slot d q in
        let b : slots c.key ≡ some s = found s c (client_at-here s c rest) in
        let a' : slots c.key ≡ some slot = ap slots (sym same) ∙ a in let z : slot ≡ s = cc in p z

    pub Found-rest : Found slots rest
    Found-rest slot d e = found slot d (client_at-rest slot d e).1

    pub Found-without : Found (with_key same_key slots c.key none) rest
    Found-without slot d e = elim (with_key-cases same_key same_key-law slots c.key d.key none) [
      | inl (p, q) ↦ absurd (key-apart slot d e p)
      | inr (p, q) ↦ q ∙ Found-rest slot d e
    ]
