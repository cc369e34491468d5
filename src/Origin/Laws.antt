-- ===== src/Origin/Laws.antt =====
-- What is found after an update, and where offsets of ports lead.
use playit_ios.Common.{
  ℕ, ◌+◌, ◌%◌, ◌^◌, ◌<◌, ◌≡◌, refl, sym, ◌∙◌, arith, List, [], ◌∷◌, Bool, true, false, ◌&&◌, ◌==◌,
  leb, if◌then◌else◌, Option, none, some, not, inl, inr, Bool-cases, ap, ne→==, ◌≤◌, gt→leb, le→leb,
}
use playit_ios.Proto.Wire.{IpAddr, SocketAddr}
use playit_ios.Proto.Ids.{PortProto, tcp, udp, both}
use playit_ios.Origin.{
  port, OriginResource, OriginLookup, same_bool, insert, insert_proto, insert_all, update, lookup,
  resolve_target,
}

-- Whether a resource serves TCP, or UDP.
abbrev pub carries : PortProto → Bool → Bool
carries tcp is_tcp = is_tcp
carries udp is_tcp = not is_tcp
carries both is_tcp = true

abbrev pub serves : OriginResource → ℕ → Bool → Bool
serves res tunnel_id is_tcp = (tunnel_id == res.tunnel_id) && carries res.proto is_tcp

-- The last resource that serves the tunnel, or `before`.
abbrev pub last_serving :
    Option OriginResource → List OriginResource → ℕ → Bool → Option OriginResource
last_serving before [] tunnel_id is_tcp = before
last_serving before (res ∷ rest) tunnel_id is_tcp =
    last_serving (if serves res tunnel_id is_tcp then some res else before) rest tunnel_id is_tcp

both_lem :
    (l : OriginLookup) (res : OriginResource) (id : ℕ) (t : Bool)
    → (id == res.tunnel_id) ≡ true
    → (insert_proto both l res).map id t
      ≡ (if (id == res.tunnel_id) && true then some res else l.map id t)
unfolding insert_proto insert same_bool
both_lem l res id true e = rw (e) refl
both_lem l res id false e = rw (e) refl

insert_proto_lem :
    (l : OriginLookup) (res : OriginResource) (p : PortProto) (id : ℕ) (t : Bool)
    → (insert_proto p l res).map id t
      ≡ (if (id == res.tunnel_id) && carries p t then some res else l.map id t)
unfolding insert_proto insert same_bool
insert_proto_lem l res tcp id true = refl
insert_proto_lem l res tcp id false = refl
insert_proto_lem l res udp id true = refl
insert_proto_lem l res udp id false = refl
insert_proto_lem l res both id t = elim (Bool-cases (id == res.tunnel_id)) [
  | inl e ↦ both_lem l res id t e
  | inr e ↦ rw (e) refl
]

insert_all_lem :
    (l : OriginLookup) (resources : List OriginResource) (id : ℕ) (t : Bool)
    → (insert_all l resources).map id t ≡ last_serving (l.map id t) resources id t
unfolding insert_all
insert_all_lem l [] id t = refl
insert_all_lem l (res ∷ rest) id t =
    insert_all_lem (insert_proto res.proto l res) rest id t
    ∙ ap (λ o. last_serving o rest id t) (insert_proto_lem l res res.proto id t)

-- After an update from a list of resources, a lookup finds the last resource of the list that has
-- the tunnel's id and serves TCP, or UDP, as asked, and nothing of what was there before.
pub lookup-update :
    (l : OriginLookup) (resources : List OriginResource) (tunnel_id : ℕ) (is_tcp : Bool)
    → lookup (update l resources) tunnel_id is_tcp ≡ last_serving none resources tunnel_id is_tcp
unfolding lookup update
lookup-update l resources tunnel_id is_tcp =
    insert_all_lem (record { map = λ id t. none }) resources tunnel_id is_tcp

unwrap_some : {x y : SocketAddr} → ◌≡◌ {A = Option SocketAddr} (some x) (some y) → x ≡ y
unwrap_some e = cc

-- The address that an offset leads to, and the offsets that lead to none.
pub resolved_in :
    (ip : IpAddr) (start count offset : ℕ)
    → offset < count
    → resolve_target (port ip start) count offset
      ≡ some (record { ip = ip; port = (start + offset) % 2 ^ 16 })
unfolding resolve_target
resolved_in ip start count offset h = rw (ne→== count 0 (omega arith), gt→leb count offset h) refl

pub resolved_out :
    (ip : IpAddr) (start count offset : ℕ)
    → 0 < count
    → count ≤ offset
    → resolve_target (port ip start) count offset ≡ none
unfolding resolve_target
resolved_out ip start count offset h g =
    rw (ne→== count 0 (omega arith), le→leb count offset g) refl

-- What an answer says of the offset that it is for.
pub resolved_from :
    (ip : IpAddr) (start count offset : ℕ) (s : SocketAddr)
    → 0 < count
    → resolve_target (port ip start) count offset ≡ some s
    → (offset < count) × (ip ≡ s.ip) × (s.port ≡ (start + offset) % 2 ^ 16)
resolved_from ip start count offset s h p = elim (Bool-cases (leb count offset)) [
  | inl e ↦
      let q : none ≡ some s = sym (resolved_out ip start count offset h (ground arith)) ∙ p in
      absurd (cc)
  | inr e ↦
      let below : offset < count = ground arith in
      let same : record { ip = ip; port = (start + offset) % 2 ^ 16 } ≡ s =
        unwrap_some (sym (resolved_in ip start count offset below) ∙ p) in
      (below, ap (λ (x : SocketAddr). x.ip) same, sym (ap (λ (x : SocketAddr). x.port) same))
]
