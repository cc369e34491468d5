-- ===== src/Control/Registers.antt =====
-- `ConnectedControl::authenticate` with a server that answers in time.
use playit_ios.Common.{
  ℕ, zero, suc, ◌+◌, ◌<◌, ◌≡◌, ◌≢◌, refl, ap, ◌∙◌, ◌++◌, subst, arith, true, ==_refl, ne→==, List,
  [], ◌∷◌, length, inl, inr, ◌⊎◌, some, none,
}
use playit_ios.Common.Io.{ok}
use playit_ios.Proto.Wire.{Crates, SocketAddr, IsU64, MessageEncoding}
use playit_ios.Proto.Wire.Laws.{Documented}
use playit_ios.Proto.Ids.{rpc_message}
use playit_ios.Proto.Ids.RoundTrip.{rpc_message-written}
use playit_ios.Proto.Raw.{raw_slice}
use playit_ios.Proto.Response.{Pong, AgentRegistered}
use playit_ios.Proto.Feed.{ControlFeed, response, new_client, control_feed_encoding, new_client_old}
use playit_ios.Control.{
  World, Calls, SetupError, Waited, late, packet, taken, same_addr, ask, now, wait, send_to,
}
use playit_ios.Control.Connected.{
  ConnectedControl, Run, Verdict, return, again, feed, recv, received, decoded, heed, heed_feed,
  judge, await_response, after_verdict, register, after_send, after_round, register_key,
  register_answer, authenticate, note_feed, sending_error, send, send_written,
}
use playit_ios.Control.Kept.{note_feed-addr}
use playit_ios.Control.Settled.{registration}

-- A feed that is not a response to the request.
abbrev pub IsOther : ℕ → ControlFeed → Type 0
IsOther id (response m) = m.request_id ≢ id
IsOther id _ = Unit

module _ ⦃crates : Crates⦄ where
  -- The wait ends with a packet of the server that reads as `f`.
  abbrev pub Brings : SocketAddr → ControlFeed → Waited → Type 0
  Brings addr f w =
      (bytes : List ℕ) × (remote : SocketAddr) × (rest : List ℕ) × (w ≡ packet bytes remote)
      × (same_addr remote addr ≡ true)
      × (control_feed_encoding.read_from bytes ≡ ok (f, rest))

  -- The wait ends with nothing, or with something of the server about something else.
  abbrev pub IsPassed : SocketAddr → ℕ → Waited → Type 0
  IsPassed addr id w = (w ≡ late) ⊎ ((f : ControlFeed) × Brings addr f w × IsOther id f)

  received-Brings :
      (conn : ConnectedControl) (f : ControlFeed) (w : Waited)
      → Brings conn.control_addr f w
      → received conn w ≡ (feed f, note_feed f conn)
  unfolding received decoded
  received-Brings conn f w (bytes, remote, rest, e, same, reads) = rw (e, same, reads) refl

  module _ ⦃world : World⦄ where
    waited_on : Calls → Calls
    waited_on calls = record calls { waits = suc calls.waits }

    heed-other :
        (id : ℕ) (q : Pong) (f : ControlFeed) (conn : ConnectedControl) (calls : Calls)
        → IsOther id f
        → heed id q (feed f) conn calls ≡ record { result = again; conn = conn; calls = calls }
    unfolding heed heed_feed
    heed-other id q (response m) conn calls h = rw (ne→== m.request_id id h) refl
    heed-other id q (new_client c) conn calls h = refl
    heed-other id q (new_client_old c) conn calls h = refl

    -- A round of the inner loop.
    round : ℕ → Pong → ConnectedControl → Calls → Run Verdict
    round id q conn calls = let r = recv conn calls in heed id q r.result r.conn r.calls

    round-passed :
        (id : ℕ) (q : Pong) (conn : ConnectedControl) (calls : Calls)
        → IsPassed conn.control_addr id (world.waited calls.waits)
        → (conn' : ConnectedControl) × (conn'.control_addr ≡ conn.control_addr)
          × (round id q conn calls
              ≡ record { result = again; conn = conn'; calls = waited_on calls })
    unfolding round recv wait waited_on received heed
    round-passed id q conn calls (inl e) = (conn, refl, rw (e) refl)
    round-passed id q conn calls (inr (f, brings, other)) = (
      note_feed f conn,
      note_feed-addr f conn,
      rw (received-Brings conn f _ brings)
          (heed-other id q f (note_feed f conn) (waited_on calls) other),
    )

    round-registers :
        (id : ℕ) (q : Pong) (conn : ConnectedControl) (calls : Calls) (r : AgentRegistered)
        → Brings conn.control_addr (registration id r) (world.waited calls.waits)
        → (round id q conn calls).result ≡ return (inr r)
    unfolding round recv wait heed heed_feed judge
    round-registers id q conn calls r brings =
        rw (received-Brings conn (registration id r) _ brings, ==_refl id) refl

    after_again :
        (run : Run Verdict) (rest : ConnectedControl → Calls → Run Verdict)
        (conn : ConnectedControl) (calls : Calls)
        → run ≡ record { result = again; conn = conn; calls = calls }
        → after_verdict run.result rest run.conn run.calls ≡ rest conn calls
    unfolding after_verdict
    after_again run rest conn calls e = rw (e) refl

    after_return :
        (run : Run Verdict) (rest : ConnectedControl → Calls → Run Verdict)
        (v : SetupError ⊎ AgentRegistered)
        → run.result ≡ return v
        → (after_verdict run.result rest run.conn run.calls).result ≡ return v
    unfolding after_verdict
    after_return run rest v e = rw (e) refl

    await-registers :
        (rounds n id : ℕ) (q : Pong) (conn : ConnectedControl) (calls : Calls) (r : AgentRegistered)
        → n < rounds
        → ((i : ℕ) → i < n → IsPassed conn.control_addr id (world.waited (calls.waits + i)))
        → Brings conn.control_addr (registration id r) (world.waited (calls.waits + n))
        → (await_response rounds id q conn calls).result ≡ return (inr r)
    unfolding await_response round waited_on
    await-registers zero n id q conn calls r h passed brings = absurd (omega arith)
    await-registers (suc rounds) zero id q conn calls r h passed brings =
        after_return (round id q conn calls) (await_response rounds id q) (inr r) (
          round-registers id q conn calls r (
            subst (λ i. Brings conn.control_addr (registration id r) (world.waited i)) (omega arith)
              brings))
    await-registers (suc rounds) (suc n) id q conn calls r h passed brings =
        let (conn', addr, e) = round-passed id q conn calls (
          subst (λ i. IsPassed conn.control_addr id (world.waited i)) (omega arith)
            (passed 0 (omega arith))) in
        let later : (await_response rounds id q conn' (waited_on calls)).result ≡ return (inr r) =
          await-registers rounds n id q conn' (waited_on calls) r (omega arith)
            (λ i lt. rw (addr) (
              subst (λ j. IsPassed conn.control_addr id (world.waited j)) (omega arith)
                (passed (suc i) (omega arith))))
            (rw (addr) (
              subst (λ j. Brings conn.control_addr (registration id r) (world.waited j))
                (omega arith) brings)) in
        ap (λ run. run.result) (after_again _ _ _ _ e) ∙ later

    module _ ⦃docs : Documented⦄ where
      -- A send that the socket takes.
      send-taken :
          {A : Type 0} (m : MessageEncoding A) (a : A) (addr : SocketAddr) (calls : Calls) {n : ℕ}
          {out : List ℕ}
          → m.write_to a [] ≡ ok (n, out)
          → world.sending (length calls.sent) ≡ taken
          → send m a addr calls ≡ (none, record calls { sent = (out, addr) ∷ calls.sent })
      unfolding send send_written send_to sending_error
      send-taken m a addr calls e took = rw (e, took) refl

      raw_slice-written :
          (bytes out : List ℕ) → raw_slice.write_to bytes out ≡ ok (length bytes, out ++ bytes)
      unfolding raw_slice
      raw_slice-written bytes out = rw (==_refl (length bytes)) refl

      after_round_return :
          (run : Run Verdict) (rest : ConnectedControl → Calls → Run (SetupError ⊎ AgentRegistered))
          (v : SetupError ⊎ AgentRegistered)
          → run.result ≡ return v
          → (after_round run.result rest run.conn run.calls).result ≡ v
      unfolding after_round
      after_round_return run rest v e = rw (e) refl

      -- When the authentication answers a key that decodes, the first request is sent, the time is
      -- below 2^64, and among the first five waits one brings a registration with the request's id
      -- from the server, while those before it time out or bring something else of the server,
      -- `authenticate` answers that registration.
      pub authenticate-registers :
          (conn : ConnectedControl) (calls : Calls) (key bytes : List ℕ) (n : ℕ)
          (r : AgentRegistered)
          → world.authenticate calls.asks conn.pong_latest ≡ inr key
          → world.decode key ≡ some bytes
          → world.sending (length calls.sent) ≡ taken
          → IsU64 (world.now_milli calls.readings)
          → n < 5
          → ((i : ℕ)
              → i < n
              → IsPassed conn.control_addr
                  (world.now_milli calls.readings)
                  (world.waited (calls.waits + i)))
          → Brings conn.control_addr
              (registration (world.now_milli calls.readings) r)
              (world.waited (calls.waits + n))
          → (authenticate conn calls).result ≡ inr r
      unfolding authenticate ask register_answer register_key now register after_send
      authenticate-registers conn calls key bytes n r answered readable took h lt passed brings =
          let id = world.now_milli calls.readings in
          let start : Calls = record calls {
            asks = suc calls.asks;
            readings = suc calls.readings;
          } in
          let s =
            send-taken (rpc_message raw_slice) (record { request_id = id; content = bytes })
              conn.control_addr start
              (rpc_message-written raw_slice _ h (raw_slice-written bytes _)) took in
          rw (answered, readable, s)
            (after_round_return (await_response 5 id conn.pong_latest conn _) _ (inr r)
              (await-registers 5 n id conn.pong_latest conn _ r lt passed brings))
