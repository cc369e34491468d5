-- ===== src/Control/Found.antt =====
-- `AddressSelector::connect_to_first`: whose pong it answers, and what it takes.
use playit_ios.Common.{ℕ, ◌+◌, ◌*◌, ◌≤◌, arith, List, [], ◌∷◌, length, inl, inr, ◌⊎◌}
use mathlib.Core.List.{Mem, mem-cons_self, mem-cons_of_mem}
use playit_ios.Proto.Wire.{Crates, SocketAddr}
use playit_ios.Control.{World, Calls, SetupError}
use playit_ios.Control.Connected.{ConnectedControl, new_connection}
use playit_ios.Control.Kept.{Hears}
use playit_ios.Control.Select.{
  Search, missing, found, stopped, attempts, try_addr, connect_or, connect_to_first,
}
use playit_ios.Control.Searched.{
  Spent, Spent-trans, Spent-here, Spent-weaken, first, Searched, try_addr-Searched, attempts_le,
}

module _ ⦃crates : Crates⦄ ⦃world : World⦄ where
  -- A connection that was made is to an option whose pong was heard.
  abbrev pub Connects : List SocketAddr → Calls → (SetupError ⊎ ConnectedControl) × Calls → Type 0
  Connects options calls (inl e, calls') = Unit
  Connects options calls (inr conn, calls') =
      Mem conn.control_addr options × Hears conn calls calls' (first conn.pong_latest)

  abbrev ConnectedBy :
      ℕ → ℕ → List SocketAddr → Calls → (SetupError ⊎ ConnectedControl) × Calls → Type 0
  ConnectedBy w s options calls r = Spent w s calls r.1 × Connects options calls r

  Connects-more :
      (calls calls1 : Calls) (addr : SocketAddr) (options : List SocketAddr)
      → calls.waits ≤ calls1.waits
      → (r : (SetupError ⊎ ConnectedControl) × Calls) → Connects options calls1 r
      → Connects (addr ∷ options) calls r
  Connects-more calls calls1 addr options le (inl e, calls2) h = tt
  Connects-more calls calls1 addr options le (inr conn, calls2)
        (m, (i, bytes, remote, rest, ge, lt, e, same, reads)) =
      (mem-cons_of_mem addr m, (i, bytes, remote, rest, omega arith, lt, e, same, reads))

  connect_or-Connects :
      {w s : ℕ} (addr : SocketAddr) (options : List SocketAddr)
      (rest : Calls → (SetupError ⊎ ConnectedControl) × Calls)
      → ((k : Calls) → ConnectedBy w s options k (rest k))
      → (x : Search) (calls calls1 : Calls) → Searched 15 3 addr calls (x, calls1)
      → ConnectedBy (15 + w) (3 + s) (addr ∷ options) calls (connect_or addr rest x calls1)
  unfolding connect_or new_connection
  connect_or-Connects addr options rest later missing calls calls1 h = (
    Spent-trans (omega arith) (omega arith) h.0 (later calls1).0,
    Connects-more calls calls1 addr options h.0.since (rest calls1) (later calls1).1,
  )
  connect_or-Connects addr options rest later (found p) calls calls1 h =
      (Spent-weaken (omega arith) (omega arith) h.0, (mem-cons_self, h.1))
  connect_or-Connects addr options rest later (stopped e) calls calls1 h =
      (Spent-weaken (omega arith) (omega arith) h.0, tt)

  connect-ConnectedBy :
      (options : List SocketAddr) (calls : Calls)
      → ConnectedBy
          (15 * length options)
          (3 * length options)
          options
          calls
          (connect_to_first options calls)
  unfolding connect_to_first
  connect-ConnectedBy [] calls = (Spent-here calls, tt)
  connect-ConnectedBy (addr ∷ options) calls =
      let s = try_addr (attempts addr) addr calls in
      let h = try_addr-Searched (attempts addr) addr calls in
      let r =
        connect_or-Connects addr options (connect_to_first options) (connect-ConnectedBy options)
          s.0 calls s.1
          (Spent-weaken (omega (arith, attempts_le addr)) (attempts_le addr) h.0, h.1) in
      (Spent-weaken (omega arith) (omega arith) r.0, r.1)

  -- When `connect_to_first` connects, it is to one of the options, and one of its waits ended with
  -- a packet from that address that reads as a response with request id 1 and the pong that the
  -- connection starts with; it waits at most 15 times and sends at most 3 pings for each option.
  pub connect_to_first-Connects :
      (options : List SocketAddr) (calls : Calls)
      → let r = connect_to_first options calls in
        Connects options calls r
        × (r.1.waits ≤ calls.waits + 15 * length options)
        × (length r.1.sent ≤ length calls.sent + 3 * length options)
  connect_to_first-Connects options calls =
      let h = connect-ConnectedBy options calls in (h.1, h.0.waits_le, h.0.sent_le)
