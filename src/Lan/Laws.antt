-- ===== src/Lan/Laws.antt =====
-- The addresses that a UDP socket of a client is bound to.
use playit_ios.Common.{
  ℕ, ◌-◌, ◌/◌, ◌%◌, ◌^◌, ◌≤◌, ◌<◌, ◌≡◌, refl, arith, List, Bool, true, false, ◌⊎◌, inl, inr,
}
use playit_ios.Common.Bits.{low_24_lem, set_loopback_lem}
use playit_ios.Proto.Wire.{SocketAddr}
use playit_ios.Lan.{
  shuffle, shuffle_ip_to_u32, not_zero, as_local_masked, local_port, or_bind, udp_socket,
}

-- In 127.0.0.0/8, and not its first address.
abbrev pub IsOwnLoopback : ℕ → Type 0
IsOwnLoopback ip = (ip / 2 ^ 24 ≡ 127) × (1 ≤ ip % 2 ^ 24)

not_zero-small : (v : ℕ) → (1 ≤ not_zero (v % 2 ^ 24)) × (not_zero (v % 2 ^ 24) < 2 ^ 24)
unfolding not_zero
not_zero-small v = ground arith

as_local_masked-IsOwnLoopback : (ip : ℕ) → IsOwnLoopback (as_local_masked ip)
unfolding as_local_masked
as_local_masked-IsOwnLoopback ip =
    let (some_bit, small) = not_zero-small (shuffle ip) in
    rw (low_24_lem (shuffle ip))
      (rw (set_loopback_lem (not_zero (shuffle ip % 2 ^ 24)) small) (omega arith, omega arith))

local_port-unprivileged :
    (peer : SocketAddr) (tunnel_id : ℕ)
    → (2048 ≤ local_port peer tunnel_id) × (local_port peer tunnel_id < 2 ^ 16 - 1)
unfolding local_port
local_port-unprivileged peer tunnel_id = (omega arith, omega arith)

answer-cases :
    {S E : Type 0} (answer : S ⊎ E)
    → ((socket : S) × (answer ≡ inl socket)) ⊎ ((e : E) × (answer ≡ inr e))
answer-cases (inl socket) = inl (socket, refl)
answer-cases (inr e) = inr (e, refl)

-- What `udp_socket` may bind to.
abbrev pub IsOffered : Bool → ℕ → ℕ → Type 0
IsOffered special_lan_ip ip port =
    (((special_lan_ip ≡ true) × IsOwnLoopback ip) ⊎ (ip ≡ 0))
    × ((port ≡ 0) ⊎ ((2048 ≤ port) × (port < 2 ^ 16 - 1)))

module _ {S E : Type 0} (bind : List (ℕ × ℕ) → ℕ → ℕ → S ⊎ E) where
  -- A socket bound to an address that is offered, or the error of binding 0.0.0.0:0.
  abbrev pub Binds : Bool → S ⊎ E → Type 0
  Binds special_lan_ip result =
      ((socket : S) × (tried : List (ℕ × ℕ)) × (ip : ℕ) × (port : ℕ) × (result ≡ inl socket)
        × (bind tried ip port ≡ inl socket)
        × IsOffered special_lan_ip ip port)
      ⊎ ((e : E) × (tried : List (ℕ × ℕ)) × (result ≡ inr e) × (bind tried 0 0 ≡ inr e))

  any_port-Binds :
      (special_lan_ip : Bool) (tried : List (ℕ × ℕ)) → Binds special_lan_ip (bind tried 0 0)
  any_port-Binds special_lan_ip tried = elim (answer-cases (bind tried 0 0)) [
    | inl (socket, at) ↦ inl (socket, tried, 0, 0, at, at, (inr refl, inl refl))
    | inr (e, at) ↦ inr (e, tried, at, at)
  ]

  or_bind-Binds :
      (special_lan_ip : Bool) (tried : List (ℕ × ℕ)) (ip port : ℕ) (next : S ⊎ E)
      → IsOffered special_lan_ip ip port
      → Binds special_lan_ip next
      → Binds special_lan_ip (or_bind (bind tried ip port) next)
  unfolding or_bind
  or_bind-Binds special_lan_ip tried ip port next offered rest =
      elim (answer-cases (bind tried ip port)) [
        | inl (socket, at) ↦ rw at (inl (socket, tried, ip, port, refl, at, offered))
        | inr (e, at) ↦ rw at rest
      ]

  -- Whatever binding answers, `udp_socket` ends with a socket bound to port 0 or a port of at
  -- least 2048 and below 65535, at 0.0.0.0 or, for a special address only, at an address of
  -- 127.0.0.0/8 other than its first; or with the error of binding 0.0.0.0:0.
  pub udp_socket-Binds :
      (special_lan_ip : Bool) (peer : SocketAddr) (tunnel_id : ℕ)
      → Binds special_lan_ip (udp_socket bind special_lan_ip peer tunnel_id)
  unfolding udp_socket
  udp_socket-Binds true peer tunnel_id =
      let own = as_local_masked-IsOwnLoopback (shuffle_ip_to_u32 peer.ip) in
      or_bind-Binds true _ _ _ _ (inl (refl, own), inr (local_port-unprivileged peer tunnel_id))
        (or_bind-Binds true _ _ _ _ (inl (refl, own), inl refl) (any_port-Binds true _))
  udp_socket-Binds false peer tunnel_id =
      or_bind-Binds false _ _ _ _ (inr refl, inr (local_port-unprivileged peer tunnel_id))
        (any_port-Binds false _)
