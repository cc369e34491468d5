-- ===== src/Lan.antt =====
-- packages/agent_core/src/network/lan_address.rs and utils/shuffle.rs: the address of 127.0.0.0/8
-- and the port that stand for a peer, and the UDP socket that is bound to them. What binding
-- answers is a parameter, given the addresses that were tried before.
pub mod Laws
use playit_ios.Common.{
  ℕ, ◌+◌, ◌*◌, ◌/◌, ◌%◌, ◌^◌, bit_and, bit_or, bit_xor, List, [], ◌∷◌, Bool, if◌then◌else◌, ◌==◌,
  ◌⊎◌, inl, inr,
}
use playit_ios.Proto.Wire.{IpAddr, SocketAddr, v4, v6}

unfoldable pub mix : ℕ → ℕ
mix v = bit_xor (v / 2 ^ 16) v * 0x45d9f3 % 2 ^ 32

unfoldable pub shuffle : ℕ → ℕ
shuffle v = let w : ℕ = mix (mix v) in bit_xor (w / 2 ^ 16) w

unfoldable pub shuffle_ip_to_u32 : IpAddr → ℕ
shuffle_ip_to_u32 (v4 ip) = ip
shuffle_ip_to_u32 (v6 ip) =
    bit_xor
      (bit_xor (bit_xor (shuffle (ip / 2 ^ 96)) (shuffle (ip / 2 ^ 64 % 2 ^ 32)))
        (shuffle (ip / 2 ^ 32 % 2 ^ 32)))
      (shuffle (ip % 2 ^ 32))

-- `if ip == 0 { ip = 1; }`
unfoldable pub not_zero : ℕ → ℕ
not_zero ip = if ip == 0 then 1 else ip

unfoldable pub as_local_masked : ℕ → ℕ
as_local_masked ip = bit_or (not_zero (bit_and (shuffle ip) 0x00FFFFFF)) 0x7F000000

unfoldable pub local_port : SocketAddr → ℕ → ℕ
local_port peer tunnel_id =
    let rand_id : ℕ =
      bit_xor
        (bit_xor (bit_xor (shuffle peer.port) (shuffle (tunnel_id / 2 ^ 32 % 2 ^ 32)))
          (shuffle (tunnel_id % 2 ^ 32)))
        (shuffle_ip_to_u32 peer.ip) in
    (2048 + rand_id % 63487) % 2 ^ 16

-- A socket, or an error and the next attempt.
unfoldable pub or_bind : {S E : Type 0} → S ⊎ E → S ⊎ E → S ⊎ E
or_bind (inl socket) next = inl socket
or_bind (inr e) next = next

module _ {S E : Type 0} (bind : List (ℕ × ℕ) → ℕ → ℕ → S ⊎ E) where
  unfoldable pub udp_socket : Bool → SocketAddr → ℕ → S ⊎ E
  udp_socket special_lan_ip peer tunnel_id =
      let port : ℕ = local_port peer tunnel_id in
      let local_ip : ℕ = as_local_masked (shuffle_ip_to_u32 peer.ip) in
      if special_lan_ip
      then or_bind (bind [] local_ip port) (
          or_bind (bind ((local_ip, port) ∷ []) local_ip 0)
            (bind ((local_ip, port) ∷ (local_ip, 0) ∷ []) 0 0))
      else or_bind (bind [] 0 port) (bind ((0, port) ∷ []) 0 0)
