-- ===== src/Control/Authenticate.antt =====
-- `ConnectedControl::authenticate`: what it takes, and whose registration it answers.
use playit_ios.Common.{
  ℕ, zero, suc, ◌+◌, ◌≤◌, ◌≡◌, refl, subst, arith, List, length, inl, inr, ◌⊎◌, Option, some, none,
  ◌*◌,
}
use playit_ios.Proto.Wire.{Crates}
use playit_ios.Proto.Ids.{rpc_message}
use playit_ios.Proto.Raw.{raw_slice}
use playit_ios.Proto.Response.{Pong, AgentRegistered}
use playit_ios.Control.{World, Calls, SetupError, now, ask}
use playit_ios.Control.Connected.{
  ConnectedControl, Run, Verdict, again, resend, return, recv, heed, await_response, after_verdict,
  register, after_send, after_round, register_key, register_answer, authenticate,
}
use playit_ios.Control.Kept.{
  Kept, Kept-trans, Kept-weaken, Hears, pings, recv-Kept, recv-Hears, send-sent, Hears-within,
  Kept-start,
}
use playit_ios.Control.Settled.{only_calls, registration, Claims, Settled, heed-Settled}

module _ ⦃crates : Crates⦄ ⦃world : World⦄ where
  -- A result that is a registration rests on a response that was heard.
  abbrev Rests : ℕ → ConnectedControl → Calls → Calls → SetupError ⊎ AgentRegistered → Type 0
  Rests id conn calls calls' (inl e) = Unit
  Rests id conn calls calls' (inr r) = Hears conn calls calls' (registration id r)

  abbrev RestsVerdict : ℕ → ConnectedControl → Calls → Calls → Verdict → Type 0
  RestsVerdict id conn calls calls' (return v) = Rests id conn calls calls' v
  RestsVerdict id conn calls calls' _ = Unit

  -- What `n` rounds leave, and what `n` requests leave.
  abbrev Awaited : ℕ → ℕ → ConnectedControl → Calls → Run Verdict → Type 0
  Awaited n id conn calls run =
      Kept n (pings run.result) conn calls run.conn run.calls
      × RestsVerdict id conn calls run.calls run.result

  abbrev Registers :
      ℕ → ℕ → ℕ → ConnectedControl → Calls → Run (SetupError ⊎ AgentRegistered) → Type 0
  Registers w s id conn calls run =
      Kept w s conn calls run.conn run.calls × Rests id conn calls run.calls run.result

  Rests-within :
      {w s : ℕ} (id : ℕ) {c c1 : ConnectedControl} {k k1 : Calls} (k2 k3 : Calls)
      (v : SetupError ⊎ AgentRegistered)
      → Kept w s c k c1 k1
      → k2.waits ≤ k3.waits
      → Rests id c1 k1 k2 v
      → Rests id c k k3 v
  Rests-within id k2 k3 (inl e) p h r = tt
  Rests-within id k2 k3 (inr x) p h r = Hears-within k2 k3 (registration id x) p h r

  round-Awaited :
      (id : ℕ) (q : Pong) (conn : ConnectedControl) (calls : Calls)
      → let r = recv conn calls in Awaited 1 id conn calls (heed id q r.result r.conn r.calls)
  round-Awaited id q conn calls =
      let r = recv conn calls in
      let k : Kept 1 0 conn calls r.conn r.calls = recv-Kept conn calls in
      let h : Settled id r.result r.conn r.calls (heed id q r.result r.conn r.calls) =
        heed-Settled id q r.result r.conn r.calls in
      (
        Kept-weaken (omega arith) (omega arith) (Kept-trans k h.0),
        claimed (heed id q r.result r.conn r.calls) h,
      )
    where
      claimed :
          (run : Run Verdict)
          → let r = recv conn calls in
            Settled id r.result r.conn r.calls run → RestsVerdict id conn calls run.calls run.result
      claimed run h = of_verdict run.result h.1 h.0.since
        where
          of_verdict :
              (v : Verdict)
              → Claims id (recv conn calls).result v
              → (recv conn calls).calls.waits ≤ run.calls.waits
              → RestsVerdict id conn calls run.calls v
          of_verdict (return (inr x)) e le =
              Hears-within (recv conn calls).calls run.calls (registration id x)
                (Kept-start conn calls) le (recv-Hears conn calls (registration id x) e)
          of_verdict (return (inl x)) e le = tt
          of_verdict again e le = tt
          of_verdict resend e le = tt

  -- The rest of a loop, after what a round left.
  after_verdict-Awaited :
      {n : ℕ} (id : ℕ) (rest : ConnectedControl → Calls → Run Verdict)
      → ((c : ConnectedControl) (k : Calls) → Awaited n id c k (rest c k))
      → (conn : ConnectedControl) (calls : Calls) (v : Verdict) (c : ConnectedControl) (k : Calls)
      → Awaited 1 id conn calls (record { result = v; conn = c; calls = k })
      → Awaited (suc n) id conn calls (after_verdict v rest c k)
  unfolding after_verdict
  after_verdict-Awaited {n = n} id rest later conn calls again c k h =
      let run = rest c k in
      (
        Kept-weaken (omega arith) (omega arith) (Kept-trans h.0 (later c k).0),
        widened run.result (later c k).1,
      )
    where
      widened :
          (v : Verdict)
          → RestsVerdict id c k (rest c k).calls v
          → RestsVerdict id conn calls (rest c k).calls v
      widened (return v) r = Rests-within id (rest c k).calls (rest c k).calls v h.0 (omega arith) r
      widened again r = tt
      widened resend r = tt
  after_verdict-Awaited id rest later conn calls resend c k h =
      (Kept-weaken (omega arith) (omega arith) h.0, tt)
  after_verdict-Awaited id rest later conn calls (return v) c k h =
      (Kept-weaken (omega arith) (omega arith) h.0, h.1)

  await_response-Awaited :
      (n id : ℕ) (q : Pong) (conn : ConnectedControl) (calls : Calls)
      → Awaited n id conn calls (await_response n id q conn calls)
  unfolding await_response
  await_response-Awaited zero id q conn calls = (Kept-start conn calls, tt)
  await_response-Awaited (suc n) id q conn calls =
      let r = recv conn calls in
      let h = heed id q r.result r.conn r.calls in
      after_verdict-Awaited id (await_response n id q) (await_response-Awaited n id q) conn calls
        h.result h.conn h.calls (round-Awaited id q conn calls)

  after_round-Registers :
      {w s : ℕ} (id : ℕ) (rest : ConnectedControl → Calls → Run (SetupError ⊎ AgentRegistered))
      → 1 ≤ s
      → ((c : ConnectedControl) (k : Calls) → Registers w s id c k (rest c k))
      → (conn : ConnectedControl) (calls : Calls) (v : Verdict) (c : ConnectedControl) (k : Calls)
      → Awaited 5 id conn calls (record { result = v; conn = c; calls = k })
      → Registers (5 + w) s id conn calls (after_round v rest c k)
  unfolding after_round
  after_round-Registers id rest one later conn calls (return v) c k h =
      (Kept-weaken (omega arith) (omega arith) h.0, h.1)
  after_round-Registers id rest one later conn calls again c k h = (
    Kept-weaken (omega arith) (omega arith) (Kept-trans h.0 (later c k).0),
    Rests-within id (rest c k).calls (rest c k).calls (rest c k).result h.0 (omega arith)
        (later c k).1,
  )
  after_round-Registers id rest one later conn calls resend c k h = (
    Kept-weaken (omega arith) (omega arith) (Kept-trans h.0 (later c k).0),
    Rests-within id (rest c k).calls (rest c k).calls (rest c k).result h.0 (omega arith)
        (later c k).1,
  )

  after_send-Registers :
      {w s : ℕ} (id : ℕ) (rest : ConnectedControl → Calls → Run (SetupError ⊎ AgentRegistered))
      → ((c : ConnectedControl) (k : Calls) → Registers w s id c k (rest c k))
      → (conn : ConnectedControl) (calls : Calls) (r : Option SetupError) (k : Calls)
      → length k.sent ≤ length calls.sent + 1
      → k.waits ≡ calls.waits
      → Registers w (1 + s) id conn calls (after_send rest conn (r, k))
  unfolding after_send
  after_send-Registers id rest later conn calls (some e) k le eq =
      (only_calls conn eq (omega arith), tt)
  after_send-Registers {s = s} id rest later conn calls none k le eq =
      let h : Kept 0 1 conn calls conn k = only_calls conn eq le in
      (
        Kept-weaken (omega arith) (omega arith) (Kept-trans h (later conn k).0),
        Rests-within id (rest conn k).calls (rest conn k).calls (rest conn k).result h (omega arith)
            (later conn k).1,
      )

  register-Registers :
      (n : ℕ) (bytes : List ℕ) (id : ℕ) (q : Pong) (conn : ConnectedControl) (calls : Calls)
      → Registers (5 * n) (n + 1) id conn calls (register n bytes id q conn calls)
  unfolding register
  register-Registers zero bytes id q conn calls = (only_calls conn refl (omega arith), tt)
  register-Registers (suc n) bytes id q conn calls =
      let s =
        send-sent (rpc_message raw_slice) (record { request_id = id; content = bytes })
          conn.control_addr calls in
      let r =
        after_send-Registers id _
          (λ c k.
            after_round-Registers id (register n bytes id q) (omega arith)
              (register-Registers n bytes id q) c k _ _ _ (await_response-Awaited 5 id q c k))
          conn calls _ _ s.0 s.1 in
      (Kept-weaken (omega arith) (omega arith) r.0, r.1)

  register_key-Registers :
      (key : Option (List ℕ)) (conn : ConnectedControl) (calls : Calls)
      → Registers 25 6 (world.now_milli calls.readings) conn calls (register_key key conn calls)
  unfolding register_key now
  register_key-Registers none conn calls = (only_calls conn refl (omega arith), tt)
  register_key-Registers (some bytes) conn calls =
      let run =
        register 5 bytes (world.now_milli calls.readings) conn.pong_latest conn (now calls).1 in
      let r =
        register-Registers 5 bytes (world.now_milli calls.readings) conn.pong_latest conn
          (now calls).1 in
      let h : Kept 0 0 conn calls conn (now calls).1 = only_calls conn refl (omega arith) in
      (
        Kept-weaken (omega arith) (omega arith) (Kept-trans h r.0),
        Rests-within (world.now_milli calls.readings) run.calls run.calls run.result h (omega arith)
            r.1,
      )

  answer-Registers :
      (a : SetupError ⊎ List ℕ) (conn : ConnectedControl) (calls : Calls)
      → Registers 25 6 (world.now_milli calls.readings) conn calls (register_answer a conn calls)
  unfolding register_answer
  answer-Registers (inl e) conn calls = (only_calls conn refl (omega arith), tt)
  answer-Registers (inr key) conn calls = register_key-Registers (world.decode key) conn calls

  -- `authenticate` keeps the server's address, waits at most 25 times and hands at most 6 packets
  -- to the socket, whatever the waits, the sends and the authentication answer.
  pub authenticate-Kept :
      (conn : ConnectedControl) (calls : Calls)
      → let run = authenticate conn calls in Kept 25 6 conn calls run.conn run.calls
  unfolding authenticate ask
  authenticate-Kept conn calls =
      let h : Kept 0 0 conn calls conn (ask conn.pong_latest calls).1 =
        only_calls conn refl (omega arith) in
      Kept-weaken (omega arith) (omega arith)
        (Kept-trans h (answer-Registers _ conn (ask conn.pong_latest calls).1).0)

  -- When `authenticate` answers a registration, one of its waits ended with a packet from the
  -- server's address that reads as the `AgentRegistered` response with that registration and with
  -- the request's id, which `authenticate` reads from the clock after it was given the key.
  pub authenticate-Hears :
      (conn : ConnectedControl) (calls : Calls) (r : AgentRegistered)
      → let run = authenticate conn calls in
        run.result ≡ inr r
        → Hears conn calls run.calls (registration (world.now_milli calls.readings) r)
  unfolding authenticate ask
  authenticate-Hears conn calls r e =
      let h : Kept 0 0 conn calls conn (ask conn.pong_latest calls).1 =
        only_calls conn refl (omega arith) in
      let run = authenticate conn calls in
      Hears-within run.calls run.calls (registration (world.now_milli calls.readings) r) h
        (omega arith)
        (subst
          (Rests (world.now_milli calls.readings) conn (ask conn.pong_latest calls).1 run.calls) e
          (answer-Registers _ conn (ask conn.pong_latest calls).1).1)
