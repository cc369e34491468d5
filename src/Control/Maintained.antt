-- ===== src/Control/Maintained.antt =====
-- packages/agent_core/src/agent_control/maintained_control.rs: the session over time.
pub mod Lost
use playit_ios.Common.{
  ℕ, zero, suc, ◌+◌, ◌-◌, List, [], Bool, true, false, not, ◌&&◌, ◌==◌, ltb, leb, max,
  if◌then◌else◌, Option, none, some, ◌⊎◌, inl, inr,
}
use playit_ios.Proto.Wire.{Crates, SocketAddr}
use playit_ios.Proto.Response.{
  ControlResponse, UdpChannelDetails, AgentRegistered, pong, unauthorized,
}
use playit_ios.Proto.Feed.{ControlFeed, NewClient, response, new_client_old, from_old}
use playit_ios.Proto.Response
use playit_ios.Proto.Feed
use playit_ios.Control.{
  World, Calls, SetupError, now, sleep, same_addr, same_ip, wrapping_add, wrapping_sub,
}
use playit_ios.Control.Connected.{
  ConnectedControl, Run, Received, feed, error, nothing, dropped, authenticate,
}
use playit_ios.Control.Established.{
  EstablishedControl, ExpiredReason, is_expired, set_expired, get_expire_at, reauthenticate,
  recv_feed_msg, send_ping, send_keep_alive, send_setup_udp_channel, reset_established,
}

pub record MaintainedControl : Type 0 where
  pub control : EstablishedControl
  pub last_keep_alive : ℕ
  pub last_ping : ℕ
  pub last_pong : ℕ
  pub last_udp_auth : ℕ
  pub last_control_targets : List SocketAddr

pub data TunnelControlEvent : Type 0 where
  new_client : NewClient → TunnelControlEvent
  udp_channel_details : UdpChannelDetails → TunnelControlEvent

-- What a call answers, and what it leaves.
pub record Turn (A : Type 0) : Type 0 where
  pub result : A
  pub state : MaintainedControl
  pub calls : Calls

abbrev pub Update : Type 0
Update = Turn (Option TunnelControlEvent)

-- `MaintainedControl::setup`, once the connection is registered.
unfoldable pub maintained : EstablishedControl → List SocketAddr → MaintainedControl
maintained control addresses = record {
  control = control;
  last_keep_alive = 0;
  last_ping = 0;
  last_pong = 0;
  last_udp_auth = 0;
  last_control_targets = addresses;
}

unfoldable pub keep_alive_interval : ℕ → ℕ
keep_alive_interval time_till_expire = if ltb time_till_expire 30000 then 10000 else 60000

-- The events that end a round of the loop.
unfoldable pub response_event : ControlResponse → Option TunnelControlEvent
response_event (Response.udp_channel_details details) = some (udp_channel_details details)
response_event _ = none

unfoldable pub feed_event : ControlFeed → Option TunnelControlEvent
feed_event (Feed.new_client c) = some (new_client c)
feed_event (new_client_old c) = some (new_client (from_old c))
feed_event (response r) = response_event r.content

module _ ⦃world : World⦄ where
  unfoldable pub note_response :
      ControlResponse → MaintainedControl → Calls → MaintainedControl × Calls
  note_response unauthorized m calls = (record m { control = set_expired m.control }, calls)
  note_response (pong p) m calls = let t = now calls in (record m { last_pong = t.0 }, t.1)
  note_response _ m calls = (m, calls)

  unfoldable pub note_feed : ControlFeed → MaintainedControl → Calls → MaintainedControl × Calls
  note_feed (response r) m calls = note_response r.content m calls
  note_feed _ m calls = (m, calls)

  unfoldable pub expire_unless : Bool → MaintainedControl → MaintainedControl
  expire_unless true m = record m { last_pong = 0; control = set_expired m.control }
  expire_unless false m = m

  -- The end of `update`; the clock is read only after a pong.
  unfoldable pub check_pong : MaintainedControl → Calls → Update
  check_pong m calls =
      if not (m.last_pong == 0)
      then (let t = now calls in
          record {
            result = none;
            state = expire_unless (ltb 6000 (wrapping_sub t.0 m.last_pong)) m;
            calls = t.1;
          })
      else record { result = none; state = m; calls = calls }

  unfoldable pub or_event :
      Option TunnelControlEvent
      → (MaintainedControl → Calls → Update)
      → MaintainedControl
      → Calls
      → Update
  or_event (some e) rest m calls = record { result = some e; state = m; calls = calls }
  or_event none rest m calls = rest m calls

  -- The rest of the loop, after a wait: by how many waits timed out.
  unfoldable pub after_wait :
      (ℕ → MaintainedControl → Calls → Update) → ℕ → Received → MaintainedControl → Calls → Update
  after_wait rest timeouts (feed f) m calls =
      let n = note_feed f m calls in or_event (feed_event f) (rest timeouts) n.0 n.1
  after_wait rest timeouts (error e) m calls = rest timeouts m calls
  after_wait rest timeouts _ m calls =
      if leb 10 (suc timeouts) then check_pong m calls else rest (suc timeouts) m calls

  module _ ⦃crates : Crates⦄ where
    unfoldable pub receive : ℕ → ℕ → MaintainedControl → Calls → Update
    receive zero timeouts m calls = check_pong m calls
    receive (suc n) timeouts m calls =
        let r = recv_feed_msg m.control calls in
        after_wait (receive n) timeouts r.0 (record m { control = r.1 }) r.2

    unfoldable pub ping_due : ℕ → MaintainedControl → Calls → MaintainedControl × Calls
    ping_due at m calls =
        if ltb 1000 (wrapping_sub at m.last_ping)
        then (record m { last_ping = at }, (send_ping m.control 200 at calls).1)
        else (m, calls)

    unfoldable pub keep_alive_due : ℕ → MaintainedControl → Calls → MaintainedControl × Calls
    keep_alive_due at m calls =
        let time_till_expire = max (get_expire_at m.control) at - at in
        if ltb (keep_alive_interval time_till_expire) (wrapping_sub at m.last_keep_alive)
        then (record m { last_keep_alive = at }, (send_keep_alive m.control 100 calls).1)
        else (m, calls)

    unfoldable pub update_session : MaintainedControl → Calls → Update
    update_session m calls =
        let t = now calls in
        let p = ping_due t.0 m t.1 in let k = keep_alive_due t.0 p.0 p.1 in receive 30 0 k.0 k.1

    -- After a failed authentication the update sleeps and ends.
    unfoldable pub renewed :
        MaintainedControl → Option SetupError × EstablishedControl × Calls → Update
    renewed m (some e, control, calls) = record {
      result = none;
      state = record m { control = control };
      calls = (sleep calls).1;
    }
    renewed m (none, control, calls) = update_session (record m { control = control }) calls

    unfoldable pub update_expired : Option ExpiredReason → MaintainedControl → Calls → Update
    update_expired none m calls = update_session m calls
    update_expired (some reason) m calls = renewed m (reauthenticate m.control calls)

    unfoldable pub update : MaintainedControl → Calls → Update
    update m calls = update_expired (is_expired m.control) m calls

    unfoldable pub send_udp_session_auth : MaintainedControl → ℕ → ℕ → Calls → Turn Bool
    send_udp_session_auth m now_ms min_wait_ms calls =
        if ltb now_ms (wrapping_add m.last_udp_auth min_wait_ms)
        then record { result = false; state = m; calls = calls }
        else record {
          result = true;
          state = record m { last_udp_auth = now_ms };
          calls = (send_setup_udp_channel m.control 1 calls).1;
        }

    unfoldable pub replaced :
        MaintainedControl → Run (SetupError ⊎ AgentRegistered) → Turn (SetupError ⊎ Bool)
    replaced m run = elim run.result [
      | inl e ↦ record { result = inl e; state = m; calls = run.calls }
      | inr r ↦ record {
        result = inr true;
        state = record m { control = reset_established run.conn m.control r };
        calls = run.calls;
      }
    ]

    unfoldable pub replace_connection :
        MaintainedControl → ConnectedControl → Bool → Calls → Turn (SetupError ⊎ Bool)
    replace_connection m connected force calls =
        let latest = m.control.conn.pong_latest in
        if not force
          && (same_ip latest.client_addr.ip connected.pong_latest.client_addr.ip
              && same_addr latest.tunnel_addr connected.pong_latest.tunnel_addr)
        then record { result = inr false; state = m; calls = calls }
        else replaced m (authenticate connected calls)
