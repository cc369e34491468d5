-- ===== src/Control/Select.antt =====
-- packages/agent_core/src/agent_control/address_selector.rs: the first server that answers.
use playit_ios.Common.{
  ℕ, zero, suc, List, [], ◌∷◌, Bool, true, false, not, ◌==◌, if◌then◌else◌, none, ◌⊎◌, inl, inr,
}
use playit_ios.Common.Io.{Result, ok, err}
use playit_ios.Proto.Wire.{Crates, IpAddr, SocketAddr, v4, v6}
use playit_ios.Proto.Ids.{rpc_message}
use playit_ios.Proto.Request.{ping, control_request_encoding}
use playit_ios.Proto.Response.{Pong, ControlResponse, pong}
use playit_ios.Proto.Feed.{ControlFeed, response, control_feed_encoding}
use playit_ios.Control.{
  World, Calls, SetupError, Waited, Sending, cut_off, packet, taken, abandoned, refused, timeout,
  failed_to_connect, io_error, same_addr, now, wait, send_to,
}
use playit_ios.Control.Connected.{ConnectedControl, new_connection}

-- What a search for a pong has come to, and what a wait of it answers.
pub data Search : Type 0 where
  missing : Search
  found : Pong → Search
  stopped : SetupError → Search

unfoldable pub is_ipv6 : IpAddr → Bool
is_ipv6 (v4 n) = false
is_ipv6 (v6 n) = true

unfoldable pub attempts : SocketAddr → ℕ
attempts addr = if is_ipv6 addr.ip then 1 else 3

unfoldable pub waits_of : SocketAddr → ℕ
waits_of addr = if is_ipv6 addr.ip then 3 else 5

unfoldable pub pong_of : ControlResponse → Search
pong_of (pong p) = found p
pong_of _ = missing

unfoldable pub first_pong : Result (ControlFeed × List ℕ) → Search
first_pong (ok (response m, rest)) = if not (m.request_id == 1) then missing else pong_of m.content
first_pong _ = missing

-- The rest of a loop, where nothing is found yet.
unfoldable pub or_else : Search → (Calls → Search × Calls) → Calls → Search × Calls
or_else missing rest calls = rest calls
or_else s rest calls = (s, calls)

module _ ⦃crates : Crates⦄ where
  unfoldable pub heard : SocketAddr → Waited → Search
  heard addr (packet bytes peer) =
      if not (same_addr peer addr)
      then missing
      else first_pong (control_feed_encoding.read_from bytes)
  heard addr cut_off = stopped timeout
  heard addr _ = missing

  module _ ⦃world : World⦄ where
    unfoldable pub wait_pong : ℕ → SocketAddr → Calls → Search × Calls
    wait_pong zero addr calls = (missing, calls)
    wait_pong (suc n) addr calls =
        let w = wait calls in or_else (heard addr w.0) (wait_pong n addr) w.1

    -- A refused ping ends the attempts at this address.
    unfoldable pub after_send :
        SocketAddr → (Calls → Search × Calls) → Sending → Calls → Search × Calls
    after_send addr rest taken calls =
        let s = wait_pong (waits_of addr) addr calls in or_else s.0 rest s.1
    after_send addr rest (refused e) calls = (missing, calls)
    after_send addr rest abandoned calls = (stopped timeout, calls)

    unfoldable pub send_ping :
        SocketAddr → (Calls → Search × Calls) → Result (ℕ × List ℕ) → Calls → Search × Calls
    send_ping addr rest (err e) calls = (stopped (io_error e), calls)
    send_ping addr rest (ok p) calls =
        let s = send_to p.1 addr calls in after_send addr rest s.0 s.1

    unfoldable pub try_addr : ℕ → SocketAddr → Calls → Search × Calls
    try_addr zero addr calls = (missing, calls)
    try_addr (suc n) addr calls =
        let t = now calls in
        send_ping addr (try_addr n addr)
          ((rpc_message control_request_encoding).write_to
            (record {
              request_id = 1;
              content = ping (record { now = t.0; current_ping = none; session_id = none });
            })
            [])
          t.1

    unfoldable pub connect_or :
        SocketAddr
        → (Calls → (SetupError ⊎ ConnectedControl) × Calls)
        → Search
        → Calls
        → (SetupError ⊎ ConnectedControl) × Calls
    connect_or addr rest missing calls = rest calls
    connect_or addr rest (found p) calls = (inr (new_connection addr p), calls)
    connect_or addr rest (stopped e) calls = (inl e, calls)

    unfoldable pub connect_to_first :
        List SocketAddr → Calls → (SetupError ⊎ ConnectedControl) × Calls
    connect_to_first [] calls = (inl failed_to_connect, calls)
    connect_to_first (addr ∷ options) calls =
        let s = try_addr (attempts addr) addr calls in
        connect_or addr (connect_to_first options) s.0 s.1
