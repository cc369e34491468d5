-- ===== src/Control/Kept.antt =====
-- What a stretch of calls on a connection keeps, and what it may use up.
use playit_ios.Common.{
  subst, ℕ, ◌+◌, ◌≤◌, ◌<◌, ◌≡◌, refl, ◌∙◌, arith, List, Bool, true, false, not, length, if-both, [],
}
use playit_ios.Common.Io.{Result, ok, err}
use playit_ios.Proto.Wire.{Crates, SocketAddr, MessageEncoding}
use playit_ios.Proto.Response.{ControlResponse, pong}
use playit_ios.Proto.Feed.{ControlFeed, response, control_feed_encoding}
use playit_ios.Control.{
  World, Calls, Waited, packet, late, cut_off, failed, same_addr, wait, send_to,
}
use playit_ios.Control.Connected.{
  ConnectedControl, Verdict, again, resend, return, Received, feed, received, recv, note_feed,
  note_response, send, decoded, send_written,
}

-- The server's address, and bounds on the waits and the sends.
pub record Kept (waits sends : ℕ) (conn : ConnectedControl) (calls : Calls)
    (conn' : ConnectedControl) (calls' : Calls) : Type 0 where
  pub addr : conn'.control_addr ≡ conn.control_addr
  pub since : calls.waits ≤ calls'.waits
  pub waits_le : calls'.waits ≤ calls.waits + waits
  pub sent_le : length calls'.sent ≤ length calls.sent + sends

pub Kept-start : (c : ConnectedControl) (k : Calls) → Kept 0 0 c k c k
Kept-start c k = record {
  addr = refl;
  since = omega arith;
  waits_le = omega arith;
  sent_le = omega arith;
}

pub Kept-trans :
    {w s w' s' : ℕ} {c c1 c2 : ConnectedControl} {k k1 k2 : Calls}
    → Kept w s c k c1 k1
    → Kept w' s' c1 k1 c2 k2
    → Kept (w + w') (s + s') c k c2 k2
Kept-trans p q = record {
  addr = q.addr ∙ p.addr;
  since = omega (arith, p.since, q.since);
  waits_le = omega (arith, p.waits_le, q.waits_le);
  sent_le = omega (arith, p.sent_le, q.sent_le);
}

pub Kept-weaken :
    {w s w' s' : ℕ} {c c1 : ConnectedControl} {k k1 : Calls}
    → w ≤ w'
    → s ≤ s'
    → Kept w s c k c1 k1
    → Kept w' s' c k c1 k1
Kept-weaken h g p = record {
  addr = p.addr;
  since = p.since;
  waits_le = omega (arith, p.waits_le, h);
  sent_le = omega (arith, p.sent_le, g);
}

note_response-addr :
    (r : ControlResponse) (conn : ConnectedControl)
    → (note_response r conn).control_addr ≡ conn.control_addr
unfolding note_response
note_response-addr (pong p) conn = refl
note_response-addr _ conn = refl

pub note_feed-addr :
    (f : ControlFeed) (conn : ConnectedControl)
    → (note_feed f conn).control_addr ≡ conn.control_addr
unfolding note_feed
note_feed-addr (response r) conn = note_response-addr r.content conn
note_feed-addr _ conn = refl

pub accepted : {b : Bool} → not b ≡ false → b ≡ true
accepted h = ground arith

-- The packets that a verdict may have sent: the ping after `unauthorized`.
abbrev pub pings : Verdict → ℕ
pings again = 0
pings resend = 0
pings (return v) = 1

module _ ⦃crates : Crates⦄ ⦃world : World⦄ where
  -- One of the waits from `calls` to `calls'` ended with a packet of the server that reads as `f`.
  abbrev pub Hears : ConnectedControl → Calls → Calls → ControlFeed → Type 0
  Hears conn calls calls' f =
      (i : ℕ) × (bytes : List ℕ) × (remote : SocketAddr) × (rest : List ℕ) × (calls.waits ≤ i)
      × (i < calls'.waits)
      × (world.waited i ≡ packet bytes remote)
      × (same_addr remote conn.control_addr ≡ true)
      × (control_feed_encoding.read_from bytes ≡ ok (f, rest))

  -- What a received value says of the wait that ended with it.
  abbrev Says : ConnectedControl → Waited → Received → Type 0
  Says conn w (feed f) =
      (bytes : List ℕ) × (remote : SocketAddr) × (rest : List ℕ) × (w ≡ packet bytes remote)
      × (same_addr remote conn.control_addr ≡ true)
      × (control_feed_encoding.read_from bytes ≡ ok (f, rest))
  Says conn w _ = Unit

  -- A wait that ended as `w`, and what `received` makes of it.
  abbrev Took : ConnectedControl → Waited → Received × ConnectedControl → Type 0
  Took conn w r = (r.1.control_addr ≡ conn.control_addr) × Says conn w r.0

  decoded-Took :
      (conn : ConnectedControl) (bytes : List ℕ) (remote : SocketAddr)
      → same_addr remote conn.control_addr ≡ true
      → (x : Result (ControlFeed × List ℕ)) → control_feed_encoding.read_from bytes ≡ x
      → Took conn (packet bytes remote) (decoded conn x)
  unfolding decoded
  decoded-Took conn bytes remote h (ok (f, rest)) e =
      (note_feed-addr f conn, (bytes, remote, rest, refl, h, e))
  decoded-Took conn bytes remote h (err x) e = (refl, tt)

  received-Took : (conn : ConnectedControl) (w : Waited) → Took conn w (received conn w)
  unfolding received
  received-Took conn late = (refl, tt)
  received-Took conn cut_off = (refl, tt)
  received-Took conn (failed e) = (refl, tt)
  received-Took conn (packet bytes remote) =
      if-both (Took conn (packet bytes remote)) _ (λ h. (refl, tt))
        (λ h. decoded-Took conn bytes remote (accepted h) _ refl)

  pub recv-Kept :
      (conn : ConnectedControl) (calls : Calls)
      → let r = recv conn calls in Kept 1 0 conn calls r.conn r.calls
  unfolding recv wait
  recv-Kept conn calls = record {
    addr = (received-Took conn (world.waited calls.waits)).0;
    since = omega arith;
    waits_le = omega arith;
    sent_le = omega arith;
  }

  -- A feed that `recv` answers was heard.
  pub recv-Hears :
      (conn : ConnectedControl) (calls : Calls) (f : ControlFeed)
      → let r = recv conn calls in r.result ≡ feed f → Hears conn calls r.calls f
  unfolding recv wait
  recv-Hears conn calls f e =
      let (bytes, remote, rest, is, same, reads) =
        subst (Says conn (world.waited calls.waits)) e (received-Took conn _).1 in
      (calls.waits, bytes, remote, rest, omega arith, omega arith, is, same, reads)

  -- What is heard in a part is heard in the whole.
  pub Hears-within :
      {w s : ℕ} {c c1 : ConnectedControl} {k k1 : Calls} (k2 k3 : Calls) (f : ControlFeed)
      → Kept w s c k c1 k1
      → k2.waits ≤ k3.waits
      → Hears c1 k1 k2 f
      → Hears c k k3 f
  Hears-within k2 k3 f p h (i, bytes, remote, rest, ge, lt, e, same, reads) = (
    i,
    bytes,
    remote,
    rest,
    omega (arith, p.since),
    omega arith,
    e,
    subst (λ a. same_addr remote a ≡ true) p.addr same,
    reads,
  )

  pub send-sent :
      {A : Type 0} (m : MessageEncoding A) (a : A) (addr : SocketAddr) (calls : Calls)
      → let s = send m a addr calls in
        (length s.1.sent ≤ length calls.sent + 1) × (s.1.waits ≡ calls.waits)
  unfolding send send_written send_to
  send-sent m a addr calls = written (m.write_to a [])
    where
      written :
          (x : Result (ℕ × List ℕ))
          → let s = send_written x addr calls in
            (length s.1.sent ≤ length calls.sent + 1) × (s.1.waits ≡ calls.waits)
      written (ok p) = (omega arith, refl)
      written (err e) = (omega arith, refl)
