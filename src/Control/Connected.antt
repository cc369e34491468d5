-- ===== src/Control/Connected.antt =====
-- packages/agent_core/src/agent_control/connected_control.rs: a connection that a server answered on.
use playit_ios.Common.{
  ℕ, zero, suc, List, [], Bool, not, ◌==◌, ◌||◌, if◌then◌else◌, Option, none, some, ◌⊎◌, inl, inr,
}
use playit_ios.Common.Io.{Result, ok, err}
use playit_ios.Proto.Wire.{Crates, MessageEncoding, SocketAddr}
use playit_ios.Proto.Ids.{rpc_message}
use playit_ios.Proto.Raw.{raw_slice}
use playit_ios.Proto.Request.{ping, control_request_encoding}
use playit_ios.Proto.Response.{
  Pong, AgentRegistered, ControlResponse, pong, invalid_signature, unauthorized, request_queued,
  agent_registered,
}
use playit_ios.Proto.Feed.{ControlFeed, response, control_feed_encoding}
use playit_ios.Control.{
  World, Calls, Waited, Sending, SetupError, ControlError, late, cut_off, failed, packet, taken,
  refused, abandoned, timeout, failed_to_connect, attempting_to_auth_with_old_flow,
  failed_to_decode_signed_agent_register_hex, register_invalid_signature, register_unauthorized,
  invalid_remote, io_error, failed_to_read_control_feed, same_addr, now, wait, send_to, sleep, ask,
}

-- The socket and its buffer are left out.
pub record ConnectedControl : Type 0 where
  pub control_addr : SocketAddr
  pub pong_latest : Pong

-- What a call answers, and what it leaves.
pub record Run (A : Type 0) : Type 0 where
  pub result : A
  pub conn : ConnectedControl
  pub calls : Calls

pub data Received : Type 0 where
  nothing dropped : Received
  feed : ControlFeed → Received
  error : ControlError → Received

-- What the register loop does next: `continue`, `break`, or `return`.
pub data Verdict : Type 0 where
  again resend : Verdict
  return : SetupError ⊎ AgentRegistered → Verdict

unfoldable pub new_connection : SocketAddr → Pong → ConnectedControl
new_connection addr p = record { control_addr = addr; pong_latest = p }

-- The latest pong is kept, whatever it is about.
unfoldable pub note_response : ControlResponse → ConnectedControl → ConnectedControl
note_response (pong p) conn = record conn { pong_latest = p }
note_response _ conn = conn

unfoldable pub note_feed : ControlFeed → ConnectedControl → ConnectedControl
note_feed (response r) conn = note_response r.content conn
note_feed _ conn = conn

unfoldable pub flow_differs : Pong → Pong → Bool
flow_differs p q =
    not (same_addr p.client_addr q.client_addr) || not (same_addr p.tunnel_addr q.tunnel_addr)

unfoldable pub sending_error : Sending → Option SetupError
sending_error taken = none
sending_error abandoned = some timeout
sending_error (refused e) = some (io_error e)

-- Only the timeout of a caller keeps the error of the ping.
unfoldable pub after_ping : Option SetupError → SetupError
after_ping (some timeout) = timeout
after_ping _ = register_unauthorized

-- The rest of a loop, from what a round leaves: `continue` goes on with it.
unfoldable pub after_verdict :
    Verdict → (ConnectedControl → Calls → Run Verdict) → ConnectedControl → Calls → Run Verdict
after_verdict again rest conn calls = rest conn calls
after_verdict resend rest conn calls = record { result = resend; conn = conn; calls = calls }
after_verdict (return v) rest conn calls = record { result = return v; conn = conn; calls = calls }

unfoldable pub after_round :
    Verdict
    → (ConnectedControl → Calls → Run (SetupError ⊎ AgentRegistered))
    → ConnectedControl
    → Calls
    → Run (SetupError ⊎ AgentRegistered)
after_round (return v) rest conn calls = record { result = v; conn = conn; calls = calls }
after_round _ rest conn calls = rest conn calls

-- `?` on what a send answered.
unfoldable pub after_send :
    (ConnectedControl → Calls → Run (SetupError ⊎ AgentRegistered))
    → ConnectedControl
    → Option SetupError × Calls
    → Run (SetupError ⊎ AgentRegistered)
after_send rest conn (some e, calls) = record { result = inl e; conn = conn; calls = calls }
after_send rest conn (none, calls) = rest conn calls

unfoldable pub decoded :
    ConnectedControl → Result (ControlFeed × List ℕ) → Received × ConnectedControl
decoded conn (ok (f, rest)) = (feed f, note_feed f conn)
decoded conn (err e) = (error (failed_to_read_control_feed e), conn)

module _ ⦃crates : Crates⦄ where
  -- A packet of another address is refused before it is read.
  unfoldable pub received : ConnectedControl → Waited → Received × ConnectedControl
  received conn late = (nothing, conn)
  received conn cut_off = (dropped, conn)
  received conn (failed e) = (error (io_error e), conn)
  received conn (packet bytes remote) =
      if not (same_addr remote conn.control_addr)
      then (error (invalid_remote conn.control_addr remote), conn)
      else decoded conn (control_feed_encoding.read_from bytes)

  module _ ⦃world : World⦄ where
    unfoldable pub recv : ConnectedControl → Calls → Run Received
    recv conn calls =
        let w = wait calls in
        let r = received conn w.0 in record { result = r.0; conn = r.1; calls = w.1 }

    unfoldable pub send_written :
        Result (ℕ × List ℕ) → SocketAddr → Calls → Option SetupError × Calls
    send_written (err e) addr calls = (some (io_error e), calls)
    send_written (ok p) addr calls = let s = send_to p.1 addr calls in (sending_error s.0, s.1)

    unfoldable pub send :
        {A : Type 0} → MessageEncoding A → A → SocketAddr → Calls → Option SetupError × Calls
    send m msg addr calls = send_written (m.write_to msg []) addr calls

    -- The ping that asks for a new pong.
    unfoldable pub refuse_unauthorized : ℕ → ConnectedControl → Calls → Run Verdict
    refuse_unauthorized request_id conn calls =
        let t = now calls in
        let s =
          send (rpc_message control_request_encoding)
            (record {
              request_id = request_id;
              content = ping (record { now = t.0; current_ping = none; session_id = none });
            })
            conn.control_addr t.1 in
        record { result = return (inl (after_ping s.0)); conn = conn; calls = s.1 }

    unfoldable pub queue : ConnectedControl → Calls → Run Verdict
    queue conn calls =
        let s = sleep calls in
        record { result = if s.0 then resend else return (inl timeout); conn = conn; calls = s.1 }

    unfoldable pub judge : ℕ → Pong → ControlResponse → ConnectedControl → Calls → Run Verdict
    judge id auth_pong (agent_registered r) conn calls = record {
      result = return (inr r);
      conn = conn;
      calls = calls;
    }
    judge id auth_pong invalid_signature conn calls = record {
      result = return (inl register_invalid_signature);
      conn = conn;
      calls = calls;
    }
    judge id auth_pong unauthorized conn calls = refuse_unauthorized id conn calls
    judge id auth_pong (pong p) conn calls = record {
      result =
          if flow_differs p auth_pong then return (inl attempting_to_auth_with_old_flow) else again;
      conn = conn;
      calls = calls;
    }
    judge id auth_pong request_queued conn calls = queue conn calls
    judge id auth_pong _ conn calls = record { result = again; conn = conn; calls = calls }

    unfoldable pub heed_feed : ℕ → Pong → ControlFeed → ConnectedControl → Calls → Run Verdict
    heed_feed id auth_pong (response r) conn calls =
        if r.request_id == id
        then judge id auth_pong r.content conn calls
        else record { result = again; conn = conn; calls = calls }
    heed_feed id auth_pong _ conn calls = record { result = again; conn = conn; calls = calls }

    unfoldable pub heed : ℕ → Pong → Received → ConnectedControl → Calls → Run Verdict
    heed id auth_pong nothing conn calls = record { result = again; conn = conn; calls = calls }
    heed id auth_pong dropped conn calls = record {
      result = return (inl timeout);
      conn = conn;
      calls = calls;
    }
    heed id auth_pong (error e) conn calls = record { result = resend; conn = conn; calls = calls }
    heed id auth_pong (feed f) conn calls = heed_feed id auth_pong f conn calls

    -- The inner loop; `resend` after its last round too.
    unfoldable pub await_response : ℕ → ℕ → Pong → ConnectedControl → Calls → Run Verdict
    await_response zero id auth_pong conn calls = record {
      result = resend;
      conn = conn;
      calls = calls;
    }
    await_response (suc n) id auth_pong conn calls =
        let r = recv conn calls in
        let h = heed id auth_pong r.result r.conn r.calls in
        after_verdict h.result (await_response n id auth_pong) h.conn h.calls

    -- The outer loop.
    unfoldable pub register :
        ℕ → List ℕ → ℕ → Pong → ConnectedControl → Calls → Run (SetupError ⊎ AgentRegistered)
    register zero bytes id auth_pong conn calls = record {
      result = inl failed_to_connect;
      conn = conn;
      calls = calls;
    }
    register (suc n) bytes id auth_pong conn calls =
        let s =
          send (rpc_message raw_slice) (record { request_id = id; content = bytes })
            conn.control_addr calls in
        after_send
          (λ conn calls.
            let h = await_response 5 id auth_pong conn calls in
            after_round h.result (register n bytes id auth_pong) h.conn h.calls)
          conn s

    unfoldable pub register_key :
        Option (List ℕ) → ConnectedControl → Calls → Run (SetupError ⊎ AgentRegistered)
    register_key none conn calls = record {
      result = inl failed_to_decode_signed_agent_register_hex;
      conn = conn;
      calls = calls;
    }
    register_key (some bytes) conn calls =
        let t = now calls in register 5 bytes t.0 conn.pong_latest conn t.1

    unfoldable pub register_answer :
        SetupError ⊎ List ℕ → ConnectedControl → Calls → Run (SetupError ⊎ AgentRegistered)
    register_answer (inl e) conn calls = record { result = inl e; conn = conn; calls = calls }
    register_answer (inr key) conn calls = register_key (world.decode key) conn calls

    unfoldable pub authenticate : ConnectedControl → Calls → Run (SetupError ⊎ AgentRegistered)
    authenticate conn calls = let k = ask conn.pong_latest calls in register_answer k.0 conn k.1
