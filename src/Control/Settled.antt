-- ===== src/Control/Settled.antt =====
-- What a round of the register loop makes of what it received.
use playit_ios.Common.{ℕ, ◌+◌, ◌≤◌, ◌≡◌, refl, sym, subst, arith, if-both, ==_iff, length, inl, inr}
use playit_ios.Proto.Wire.{Crates}
use playit_ios.Proto.Ids.{rpc_message}
use playit_ios.Proto.Request.{control_request_encoding}
use playit_ios.Proto.Response.{
  Pong, pong, ControlResponse, AgentRegistered, agent_registered, unauthorized, request_queued,
}
use playit_ios.Proto.Feed.{ControlFeed, response}
use playit_ios.Control.{World, Calls, timeout, attempting_to_auth_with_old_flow, now, sleep}
use playit_ios.Control.Connected.{
  flow_differs, ConnectedControl, Run, Verdict, again, resend, return, Received, feed, judge, heed,
  heed_feed, queue, refuse_unauthorized,
}
use playit_ios.Control.Kept.{Kept, pings, send-sent}

-- Nothing but calls on the world happened.
pub only_calls :
    {w s : ℕ} (conn : ConnectedControl) {calls calls' : Calls}
    → calls'.waits ≡ calls.waits
    → length calls'.sent ≤ length calls.sent + s
    → Kept w s conn calls conn calls'
only_calls conn e h = record {
  addr = refl;
  since = omega (arith, e);
  waits_le = omega (arith, e);
  sent_le = h;
}

-- The response that a registration answers.
abbrev pub registration : ℕ → AgentRegistered → ControlFeed
registration id r = response (record { request_id = id; content = agent_registered r })

-- A verdict that a registration is there rests on the response.
abbrev pub Claims : ℕ → Received → Verdict → Type 0
Claims id r (return (inr registered)) = r ≡ feed (registration id registered)
Claims id r _ = Unit

module _ ⦃crates : Crates⦄ ⦃world : World⦄ where
  abbrev pub Settled : ℕ → Received → ConnectedControl → Calls → Run Verdict → Type 0
  Settled id r conn calls run =
      Kept 0 (pings run.result) conn calls run.conn run.calls × Claims id r run.result

  unauthorized-Settled :
      (id : ℕ) (r : Received) (conn : ConnectedControl) (calls : Calls)
      → Settled id r conn calls (refuse_unauthorized id conn calls)
  unfolding refuse_unauthorized now
  unauthorized-Settled id r conn calls = (
    let t = now calls in
        let s = send-sent (rpc_message control_request_encoding) _ conn.control_addr t.1 in
        only_calls conn s.1 s.0,
    tt,
  )

  queue-Settled :
      (id : ℕ) (r : Received) (conn : ConnectedControl) (calls : Calls)
      → Settled id r conn calls (queue conn calls)
  unfolding queue sleep
  queue-Settled id r conn calls =
      if-both
        (λ v. Settled id r conn calls (record { result = v; conn = conn; calls = (sleep calls).1 }))
        (sleep calls).0 {x = resend} {y = return (inl timeout)}
        (λ h. (only_calls conn refl (omega arith), tt))
        (λ h. (only_calls conn refl (omega arith), tt))

  pong-Settled :
      (id : ℕ) (r : Received) (p q : Pong) (conn : ConnectedControl) (calls : Calls)
      → Settled id r conn calls (judge id q (pong p) conn calls)
  unfolding judge
  pong-Settled id r p q conn calls =
      if-both (λ v. Settled id r conn calls (record { result = v; conn = conn; calls = calls }))
        (flow_differs p q) {x = return (inl attempting_to_auth_with_old_flow)} {y = again}
        (λ h. (only_calls conn refl (omega arith), tt))
        (λ h. (only_calls conn refl (omega arith), tt))

  judge-Settled :
      (id : ℕ) (q : Pong) (c : ControlResponse) (conn : ConnectedControl) (calls : Calls)
      → Settled id
          (feed (response (record { request_id = id; content = c })))
          conn
          calls
          (judge id q c conn calls)
  unfolding judge
  judge-Settled id q (pong p) conn calls = pong-Settled id _ p q conn calls
  judge-Settled id q unauthorized conn calls = unauthorized-Settled id _ conn calls
  judge-Settled id q request_queued conn calls = queue-Settled id _ conn calls
  judge-Settled id q (agent_registered r) conn calls = (only_calls conn refl (omega arith), refl)
  judge-Settled id q _ conn calls = (only_calls conn refl (omega arith), tt)

  pub heed-Settled :
      (id : ℕ) (q : Pong) (r : Received) (conn : ConnectedControl) (calls : Calls)
      → Settled id r conn calls (heed id q r conn calls)
  unfolding heed heed_feed
  heed-Settled id q (feed (response m)) conn calls =
      if-both (Settled id (feed (response m)) conn calls) _
        (λ h.
          let e : m.request_id ≡ id = (==_iff m.request_id id).0 h in
          subst
            (λ n.
              Settled id (feed (response (record { request_id = n; content = m.content }))) conn
                calls (judge id q m.content conn calls))
            (sym e) (judge-Settled id q m.content conn calls))
        (λ h. (only_calls conn refl (omega arith), tt))
  heed-Settled id q _ conn calls = (only_calls conn refl (omega arith), tt)
