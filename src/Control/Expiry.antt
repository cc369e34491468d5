-- ===== src/Control/Expiry.antt =====
-- When a session counts as expired, and how long a session is kept.
use playit_ios.Common.{
  ℕ, ◌+◌, ◌-◌, ◌*◌, ◌≤◌, ◌^◌, ◌≡◌, refl, arith, max, true, false, Option, none, some, ==_refl, inl,
  inr, ◌⊎◌,
}
use playit_ios.Proto.Wire.{Crates, SocketAddr, IpAddr, v4, v6, IsU32, IsU64}
use playit_ios.Proto.Response.{Pong, AgentRegistered}
use playit_ios.Control.{World, Calls, SetupError, same_addr, same_ip, wrapping_add, wrapping_sub}
use playit_ios.Control.Connected.{flow_differs, ConnectedControl, authenticate}
use playit_ios.Control.Established.{
  EstablishedControl, ExpiredReason, local_expiry, round_trip, expired_unless_forced, is_expired,
  flow_is_changed, renew, reauthenticate,
}

wrapping_sub_le : (a b : ℕ) → b ≤ a → IsU64 a → wrapping_sub a b ≡ a - b
unfolding wrapping_sub
wrapping_sub_le a b h g = omega arith

wrapping_add_lt : (a b : ℕ) → IsU64 (a + b) → wrapping_add a b ≡ a + b
unfolding wrapping_add
wrapping_add_lt a b h = omega arith

round_trip_lem :
    (p : Pong) (at : ℕ)
    → p.request_now ≤ at
    → IsU32 (at - p.request_now)
    → round_trip p at ≡ at - p.request_now
unfolding round_trip
round_trip_lem p at h g = omega arith

-- For a pong that was stamped between its request and its arrival less than 2^32 ms later, with an
-- expiry not before its stamp, and a server clock at a fixed distance from the local one, the
-- expiry that is kept is not after the true one on the local clock, and at most two round trips
-- before it; the numbers stay below 2^64.
pub local_expiry-close :
    (p : Pong) (at stamped expires expires_at : ℕ)
    → p.request_now ≤ stamped
    → stamped ≤ at
    → IsU32 (at - p.request_now)
    → p.server_now ≤ expires_at
    → IsU64 expires_at
    → IsU64 (expires + 2 ^ 32)
    → expires + p.server_now ≡ expires_at + stamped
    → let kept = local_expiry p (round_trip p at) expires_at in
      (kept ≤ expires) × (expires ≤ kept + 2 * (at - p.request_now))
unfolding local_expiry
local_expiry-close p at stamped expires expires_at ge le short ahead h g same =
    let rtt = at - p.request_now in
    rw
      (
        round_trip_lem p at (omega arith) short,
        wrapping_sub_le expires_at p.server_now ahead h,
        wrapping_add_lt p.request_now (max (expires_at - p.server_now) rtt) (omega arith),
        wrapping_sub_le (p.request_now + max (expires_at - p.server_now) rtt) rtt (omega arith)
            (omega arith),
      )
      (omega arith, omega arith)

pub same_ip_refl : (a : IpAddr) → same_ip a a ≡ true
unfolding same_ip
same_ip_refl (v4 n) = ==_refl n
same_ip_refl (v6 n) = ==_refl n

pub same_addr_refl : (a : SocketAddr) → same_addr a a ≡ true
unfolding same_addr
same_addr_refl a = rw (same_ip_refl a.ip, ==_refl a.port) refl

-- A pong has its own flow.
flow_differs_refl : (p : Pong) → flow_differs p p ≡ false
unfolding flow_differs
flow_differs_refl p = rw (same_addr_refl p.client_addr, same_addr_refl p.tunnel_addr) refl

-- Why a session counts as expired right after its registration.
abbrev pub fresh_reason : Pong → Option ExpiredReason
fresh_reason p = expired_unless_forced p.session_expire_at false

-- What `authenticate` of a session answers and leaves, by what that of its connection answered.
abbrev pub Renewed :
    EstablishedControl
    → SetupError ⊎ AgentRegistered
    → EstablishedControl
    → Option SetupError
    → Type 0
Renewed e (inr registered) e' answer =
    (answer ≡ none)
    × (e'.registered ≡ registered)
    × (is_expired e' ≡ fresh_reason e'.conn.pong_latest)
    × (e'.current_ping ≡ e.current_ping)
Renewed e (inl error) e' answer =
    (answer ≡ some error)
    × (e'.registered ≡ e.registered)
    × (e'.pong_at_auth ≡ e.pong_at_auth)
    × (e'.force_expired ≡ e.force_expired)

module _ ⦃crates : Crates⦄ ⦃world : World⦄ where
  renew-Renewed :
      (e : EstablishedControl) (v : SetupError ⊎ AgentRegistered) (conn : ConnectedControl)
      (calls : Calls)
      → let r = renew e (record { result = v; conn = conn; calls = calls }) in Renewed e v r.1 r.0
  unfolding renew is_expired flow_is_changed
  renew-Renewed e (inl error) conn calls = (refl, refl, refl, refl)
  renew-Renewed e (inr r) conn calls =
      (refl, refl, rw (flow_differs_refl conn.pong_latest) refl, refl)

  -- When `authenticate` of a session's connection answers a registration, that of the session has
  -- no error and stores the registration, the session counts as expired only if its latest pong
  -- has no expiry, and its last ping is kept; when it answers an error, so does that of the
  -- session, and the registration, the pong of the registration and the forced expiry are as
  -- before.
  pub reauthenticate-Renewed :
      (e : EstablishedControl) (calls : Calls)
      → let r = reauthenticate e calls in Renewed e (authenticate e.conn calls).result r.1 r.0
  unfolding reauthenticate
  reauthenticate-Renewed e calls =
      let run = authenticate e.conn calls in renew-Renewed e run.result run.conn run.calls
