-- ===== src/Control/Searched.antt =====
-- What a search for a pong of an address takes, and where it has it from.
use playit_ios.Common.{
  ℕ, zero, suc, ◌+◌, ◌*◌, ◌≤◌, ◌≡◌, refl, subst, arith, true, not, if-both, ==_iff, ◌==◌, List,
  length,
}
use playit_ios.Common.Io.{Result, ok, err}
use playit_ios.Proto.Wire.{Crates, SocketAddr}
use playit_ios.Proto.Response.{Pong, pong, ControlResponse}
use playit_ios.Proto.Feed.{ControlFeed, response, control_feed_encoding}
use playit_ios.Control.{World, Calls, Waited, Sending, packet, taken, same_addr, wait, send_to, now}
use playit_ios.Control.Connected.{new_connection}
use playit_ios.Control.Kept.{Hears, accepted}
use playit_ios.Control.Select.{
  Search, missing, found, stopped, pong_of, first_pong, or_else, heard, wait_pong, attempts,
  waits_of, is_ipv6, after_send, send_ping, try_addr,
}

-- Bounds on the waits and the sends from some calls to later ones.
pub record Spent (waits sends : ℕ) (calls calls' : Calls) : Type 0 where
  pub since : calls.waits ≤ calls'.waits
  pub waits_le : calls'.waits ≤ calls.waits + waits
  pub sent_le : length calls'.sent ≤ length calls.sent + sends

pub Spent-trans :
    {w s w' s' w2 s2 : ℕ} {k k1 k2 : Calls}
    → w + w' ≤ w2
    → s + s' ≤ s2
    → Spent w s k k1
    → Spent w' s' k1 k2
    → Spent w2 s2 k k2
Spent-trans h g p q = record {
  since = omega (arith, p.since, q.since);
  waits_le = omega (arith, p.waits_le, q.waits_le);
  sent_le = omega (arith, p.sent_le, q.sent_le);
}

pub Spent-here : {w s : ℕ} (k : Calls) → Spent w s k k
Spent-here k = record { since = omega arith; waits_le = omega arith; sent_le = omega arith }

pub Spent-weaken :
    {w s w2 s2 : ℕ} {k k1 : Calls} → w ≤ w2 → s ≤ s2 → Spent w s k k1 → Spent w2 s2 k k1
Spent-weaken h g p = record {
  since = p.since;
  waits_le = omega (arith, p.waits_le);
  sent_le = omega (arith, p.sent_le);
}

-- The pong that answers the ping with request id 1.
abbrev pub first : Pong → ControlFeed
first p = response (record { request_id = 1; content = pong p })

module _ ⦃crates : Crates⦄ ⦃world : World⦄ where
  -- A pong that was found was heard from the address.
  abbrev pub HeardPong : SocketAddr → Calls → Calls → Search → Type 0
  HeardPong addr calls calls' (found p) = Hears (new_connection addr p) calls calls' (first p)
  HeardPong addr calls calls' _ = Unit

  abbrev pub Searched : ℕ → ℕ → SocketAddr → Calls → Search × Calls → Type 0
  Searched w s addr calls r = Spent w s calls r.1 × HeardPong addr calls r.1 r.0

  -- A pong in a packet of the address.
  abbrev Holds : SocketAddr → Waited → Search → Type 0
  Holds addr w (found p) =
      (bytes : List ℕ) × (remote : SocketAddr) × (rest : List ℕ) × (w ≡ packet bytes remote)
      × (same_addr remote addr ≡ true)
      × (control_feed_encoding.read_from bytes ≡ ok (first p, rest))
  Holds addr w _ = Unit

  pong_of-Holds :
      (addr remote : SocketAddr) (bytes rest : List ℕ) (c : ControlResponse)
      → same_addr remote addr ≡ true
      → control_feed_encoding.read_from bytes
        ≡ ok (response (record { request_id = 1; content = c }), rest)
      → Holds addr (packet bytes remote) (pong_of c)
  unfolding pong_of
  pong_of-Holds addr remote bytes rest (pong p) h e = (bytes, remote, rest, refl, h, e)
  pong_of-Holds addr remote bytes rest _ h e = tt

  first_pong-Holds :
      (addr remote : SocketAddr) (bytes : List ℕ) (x : Result (ControlFeed × List ℕ))
      → same_addr remote addr ≡ true
      → control_feed_encoding.read_from bytes ≡ x
      → Holds addr (packet bytes remote) (first_pong x)
  unfolding first_pong
  first_pong-Holds addr remote bytes (ok (response m, rest)) h e =
      if-both (Holds addr (packet bytes remote)) (not (m.request_id == 1)) {x = missing}
        {y = pong_of m.content} (λ g. tt)
        (λ g. pong_of-Holds addr remote bytes rest m.content h (
          subst
            (λ n.
              control_feed_encoding.read_from bytes
              ≡ ok (response (record { request_id = n; content = m.content }), rest))
            ((==_iff m.request_id 1).0 (accepted g)) e))
  first_pong-Holds addr remote bytes _ h e = tt

  heard-Holds : (addr : SocketAddr) (w : Waited) → Holds addr w (heard addr w)
  unfolding heard
  heard-Holds addr (packet bytes peer) =
      if-both (Holds addr (packet bytes peer)) (not (same_addr peer addr)) {x = missing}
        {y = first_pong (control_feed_encoding.read_from bytes)} (λ h. tt)
        (λ h. first_pong-Holds addr peer bytes _ (accepted h) refl)
  heard-Holds addr _ = tt

  HeardPong-within :
      (calls calls1 calls2 : Calls) (addr : SocketAddr)
      → calls.waits ≤ calls1.waits
      → (x : Search) → HeardPong addr calls1 calls2 x
      → HeardPong addr calls calls2 x
  HeardPong-within calls calls1 calls2 addr le (found p)
        (i, bytes, remote, rest, ge, lt, e, same, reads) =
      (i, bytes, remote, rest, omega arith, lt, e, same, reads)
  HeardPong-within calls calls1 calls2 addr le _ h = tt

  or_else-Searched :
      {w s w' s' w2 s2 : ℕ} (addr : SocketAddr) (x : Search) (rest : Calls → Search × Calls)
      (calls calls1 : Calls)
      → w + w' ≤ w2
      → s + s' ≤ s2
      → Searched w s addr calls (x, calls1)
      → Searched w' s' addr calls1 (rest calls1)
      → Searched w2 s2 addr calls (or_else x rest calls1)
  unfolding or_else
  or_else-Searched addr missing rest calls calls1 h g p q = (
    Spent-trans h g p.0 q.0,
    HeardPong-within calls calls1 (rest calls1).1 addr p.0.since (rest calls1).0 q.1,
  )
  or_else-Searched addr (found x) rest calls calls1 h g p q =
      (Spent-trans h g p.0 (Spent-here calls1), p.1)
  or_else-Searched addr (stopped e) rest calls calls1 h g p q =
      (Spent-trans h g p.0 (Spent-here calls1), tt)

  -- Neither a send nor a look at the clock is a wait.
  sent_one :
      (calls : Calls) (bytes : List ℕ) (addr : SocketAddr)
      → Spent 0 1 calls (send_to bytes addr calls).1
  unfolding send_to
  sent_one calls bytes addr = record {
    since = omega arith;
    waits_le = omega arith;
    sent_le = omega arith;
  }

  read_clock : (calls : Calls) → Spent 0 0 calls (now calls).1
  unfolding now
  read_clock calls = record { since = omega arith; waits_le = omega arith; sent_le = omega arith }

  Holds-HeardPong :
      (addr : SocketAddr) (calls : Calls) (x : Search)
      → Holds addr (world.waited calls.waits) x
      → Searched 1 0 addr calls (x, (wait calls).1)
  unfolding wait new_connection
  Holds-HeardPong addr calls (found p) (bytes, remote, rest, e, same, reads) = (
    record { since = omega arith; waits_le = omega arith; sent_le = omega arith },
    (calls.waits, bytes, remote, rest, omega arith, omega arith, e, same, reads),
  )
  Holds-HeardPong addr calls _ h =
      (record { since = omega arith; waits_le = omega arith; sent_le = omega arith }, tt)

  wait_pong-Searched :
      (n : ℕ) (addr : SocketAddr) (calls : Calls) → Searched n 0 addr calls (wait_pong n addr calls)
  unfolding wait_pong wait
  wait_pong-Searched zero addr calls = (Spent-here calls, tt)
  wait_pong-Searched (suc n) addr calls =
      or_else-Searched addr (heard addr (world.waited calls.waits)) (wait_pong n addr) calls
        (wait calls).1 (omega arith) (omega arith)
        (Holds-HeardPong addr calls _ (heard-Holds addr _))
        (wait_pong-Searched n addr (wait calls).1)

  waits_of_le : (addr : SocketAddr) → waits_of addr ≤ 5
  unfolding waits_of
  waits_of_le addr = if-both (λ n. n ≤ 5) (is_ipv6 addr.ip) (λ h. omega arith) (λ h. omega arith)

  pub attempts_le : (addr : SocketAddr) → attempts addr ≤ 3
  unfolding attempts
  attempts_le addr = if-both (λ n. n ≤ 3) (is_ipv6 addr.ip) (λ h. omega arith) (λ h. omega arith)

  after_send-Searched :
      {w s : ℕ} (addr : SocketAddr) (rest : Calls → Search × Calls)
      → ((k : Calls) → Searched w s addr k (rest k))
      → (r : Sending) (calls : Calls) → Searched (5 + w) s addr calls (after_send addr rest r calls)
  unfolding after_send
  after_send-Searched addr rest later taken calls =
      let r = wait_pong (waits_of addr) addr calls in
      or_else-Searched addr r.0 rest calls r.1 (omega (arith, waits_of_le addr)) (omega arith)
        (wait_pong-Searched (waits_of addr) addr calls) (later r.1)
  after_send-Searched addr rest later _ calls = (Spent-here calls, tt)

  send_ping-Searched :
      {w s : ℕ} (addr : SocketAddr) (rest : Calls → Search × Calls)
      → ((k : Calls) → Searched w s addr k (rest k))
      → (x : Result (ℕ × List ℕ)) (calls : Calls)
      → Searched (5 + w) (suc s) addr calls (send_ping addr rest x calls)
  unfolding send_ping send_to
  send_ping-Searched addr rest later (err e) calls = (Spent-here calls, tt)
  send_ping-Searched addr rest later (ok p) calls =
      let s = send_to p.1 addr calls in
      let r = after_send addr rest s.0 s.1 in
      let h = after_send-Searched addr rest later s.0 s.1 in
      (
        Spent-trans (omega arith) (omega arith) (sent_one calls p.1 addr) h.0,
        HeardPong-within calls s.1 r.1 addr (omega arith) r.0 h.1,
      )

  pub try_addr-Searched :
      (n : ℕ) (addr : SocketAddr) (calls : Calls)
      → Searched (5 * n) n addr calls (try_addr n addr calls)
  unfolding try_addr now
  try_addr-Searched zero addr calls = (Spent-here calls, tt)
  try_addr-Searched (suc n) addr calls =
      let r = try_addr (suc n) addr calls in
      let h =
        send_ping-Searched addr (try_addr n addr) (try_addr-Searched n addr) _ (now calls).1 in
      (
        Spent-trans (omega arith) (omega arith) (read_clock calls) h.0,
        HeardPong-within calls (now calls).1 r.1 addr (omega arith) r.0 h.1,
      )
