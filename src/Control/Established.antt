-- ===== src/Control/Established.antt =====
-- packages/agent_core/src/agent_control/established_control.rs: a connection with a registered
-- session. `clock_offset` is an `i64`, held as the bits of a `u64`.
use playit_ios.Common.{
  ℕ, ◌-◌, ◌/◌, ◌%◌, ◌^◌, Bool, true, false, if◌then◌else◌, Option, none, some, max, inl, inr, ◌⊎◌,
}
use playit_ios.Proto.Wire.{Crates}
use playit_ios.Proto.Ids.{rpc_message}
use playit_ios.Proto.Request.{
  ControlRequest, ping, agent_keep_alive, setup_udp_channel, control_request_encoding,
}
use playit_ios.Proto.Response.{Pong, AgentRegistered, ControlResponse, pong, agent_registered}
use playit_ios.Proto.Feed.{response}
use playit_ios.Control.{World, Calls, SetupError, now, wrapping_add, wrapping_sub}
use playit_ios.Control.Connected.{
  ConnectedControl, Run, Received, feed, recv, send, authenticate, flow_differs,
}

-- The `AuthResource` is part of the world.
pub record EstablishedControl : Type 0 where
  pub conn : ConnectedControl
  pub pong_at_auth : Pong
  pub registered : AgentRegistered
  pub current_ping : Option ℕ
  pub clock_offset : ℕ
  pub force_expired : Bool

pub data ExpiredReason : Type 0 where
  forced session_not_setup flow_changed : ExpiredReason

-- `ConnectedControl::into_established`
unfoldable pub into_established : ConnectedControl → AgentRegistered → EstablishedControl
into_established conn r = record {
  conn = conn;
  pong_at_auth = conn.pong_latest;
  registered = r;
  current_ping = none;
  clock_offset = 0;
  force_expired = false;
}

-- `ConnectedControl::reset_established`
unfoldable pub reset_established :
    ConnectedControl → EstablishedControl → AgentRegistered → EstablishedControl
reset_established conn e r = record e {
  registered = r;
  pong_at_auth = conn.pong_latest;
  conn = conn;
  current_ping = none;
  force_expired = false;
}

unfoldable pub get_expire_at : EstablishedControl → ℕ
get_expire_at e = e.registered.expires_at

unfoldable pub flow_is_changed : EstablishedControl → Bool
flow_is_changed e = flow_differs e.conn.pong_latest e.pong_at_auth

unfoldable pub expired_unless_forced : Option ℕ → Bool → Option ExpiredReason
expired_unless_forced none changed = some session_not_setup
expired_unless_forced (some at) changed = if changed then some flow_changed else none

unfoldable pub is_expired : EstablishedControl → Option ExpiredReason
is_expired e =
    if e.force_expired
    then some forced
    else expired_unless_forced e.pong_at_auth.session_expire_at (flow_is_changed e)

unfoldable pub set_expired : EstablishedControl → EstablishedControl
set_expired e = record e { force_expired = true }

unfoldable pub renew :
    EstablishedControl
    → Run (SetupError ⊎ AgentRegistered)
    → Option SetupError × EstablishedControl × Calls
renew e run = elim run.result [
  | inl error ↦ (some error, record e { conn = run.conn }, run.calls)
  | inr r ↦ (
    none,
    record e {
      conn = run.conn;
      force_expired = false;
      registered = r;
      pong_at_auth = run.conn.pong_latest;
    },
    run.calls,
  )
]

-- `rtt`, of 32 bits.
unfoldable pub round_trip : Pong → ℕ → ℕ
round_trip p at = (max at p.request_now - p.request_now) % 2 ^ 32

-- The expiry on the local clock.
unfoldable pub local_expiry : Pong → ℕ → ℕ → ℕ
local_expiry p rtt expires_at =
    wrapping_sub (wrapping_add p.request_now (max (wrapping_sub expires_at p.server_now) rtt)) rtt

unfoldable pub learn_expiry : Pong → ℕ → Option ℕ → AgentRegistered → AgentRegistered
learn_expiry p rtt none r = r
learn_expiry p rtt (some expires_at) r = record r { expires_at = local_expiry p rtt expires_at }

unfoldable pub learn_pong : Pong → ℕ → EstablishedControl → EstablishedControl
learn_pong p at e =
    let rtt = round_trip p at in
    let server_ts = wrapping_sub p.server_now (rtt / 2) in
    record e {
      clock_offset = wrapping_sub p.request_now server_ts;
      current_ping = some rtt;
      registered = learn_expiry p rtt p.session_expire_at e.registered;
    }

module _ ⦃world : World⦄ where
  unfoldable pub learn_response :
      ControlResponse → EstablishedControl → Calls → EstablishedControl × Calls
  learn_response (agent_registered r) e calls = (record e { registered = r }, calls)
  learn_response (pong p) e calls = let t = now calls in (learn_pong p t.0 e, t.1)
  learn_response _ e calls = (e, calls)

  unfoldable pub learn : Received → EstablishedControl → Calls → EstablishedControl × Calls
  learn (feed (response r)) e calls = learn_response r.content e calls
  learn _ e calls = (e, calls)

module _ ⦃crates : Crates⦄ ⦃world : World⦄ where
  unfoldable pub recv_feed_msg : EstablishedControl → Calls → Received × EstablishedControl × Calls
  recv_feed_msg e calls =
      let r = recv e.conn calls in
      let l = learn r.result (record e { conn = r.conn }) r.calls in (r.result, l.0, l.1)

  -- `EstablishedControl::authenticate`
  unfoldable pub reauthenticate :
      EstablishedControl → Calls → Option SetupError × EstablishedControl × Calls
  reauthenticate e calls = renew e (authenticate e.conn calls)

  unfoldable pub send_request :
      ControlRequest → ℕ → EstablishedControl → Calls → Option SetupError × Calls
  send_request req id e calls =
      send (rpc_message control_request_encoding) (record { request_id = id; content = req })
        e.conn.control_addr calls

  unfoldable pub send_keep_alive : EstablishedControl → ℕ → Calls → Option SetupError × Calls
  send_keep_alive e id calls = send_request (agent_keep_alive e.registered.id) id e calls

  unfoldable pub send_setup_udp_channel : EstablishedControl → ℕ → Calls → Option SetupError × Calls
  send_setup_udp_channel e id calls = send_request (setup_udp_channel e.registered.id) id e calls

  unfoldable pub send_ping : EstablishedControl → ℕ → ℕ → Calls → Option SetupError × Calls
  send_ping e id at calls =
      send_request
        (ping
          (record { now = at; current_ping = e.current_ping; session_id = some e.registered.id }))
        id e calls
