-- ===== src/Udp/Channel/Received.antt =====
-- What the task makes of a packet from its socket.
use playit_ios.Common.{
  ℕ, ◌-◌, ◌≤◌, ◌≡◌, ◌≢◌, refl, sym, ap, ◌∙◌, subst, arith, List, ◌++◌, length, take, drop,
  take-append, take-append_le, true, not, ge→ltb, ◌==◌, if-both, Option, none, some, sym,
}
use playit_ios.Proto.Wire.{Crates, SocketAddr}
use playit_ios.Proto.Wire.Laws.{Documented}
use playit_ios.Proto.Response.{UdpChannelDetails}
use playit_ios.Control.{same_addr}
use playit_ios.Control.Kept.{accepted}
use playit_ios.Udp.Flow.{UdpFlow, footer_len, udp_channel_establish_id}
use playit_ios.Udp.Flow.Tail.{from_tail, Parsed, parsed, refused, panicked}
use playit_ios.Udp.Flow.Tail.Total.{from_tail-safe}
use playit_ios.Udp.Channel.{
  Task, Packet, Arrival, source_no_match, established, invalid_footer_id, panic, delivered,
  packet_len, as_ref, set_len, on_tail, on_packet, receive, receive_in,
}
use playit_ios.Udp.Channel.Fits.{Fits, from_tail-Fits}

module _ ⦃crates : Crates⦄ where
  -- What an arrival says of the packet: nothing panics, and what is delivered came from the
  -- session's server, with the flow at its end, which is cut off.
  abbrev pub Handled : Task → List ℕ → SocketAddr → Arrival → Type 0
  Handled task bytes source panic = ⊥
  Handled task bytes source (delivered flow p) =
      ((session : UdpChannelDetails) × (task.session ≡ some session)
        × (same_addr session.tunnel_addr source ≡ true))
      × (from_tail bytes ≡ parsed flow)
      × (as_ref p ≡ take (length bytes - footer_len flow) bytes)
  Handled task bytes source _ = Unit

  pub set_len_le : (p : Packet) (n : ℕ) → n ≤ packet_len → set_len p n ≡ some (record p { len = n })
  unfolding set_len
  set_len_le p n h = rw (ge→ltb packet_len n h) refl

  module _ (task : Task) (session : UdpChannelDetails) (bytes : List ℕ) (source : SocketAddr)
      (now : ℕ) (p : Packet) (rest : List ℕ) (here : task.session ≡ some session)
      (same : same_addr session.tunnel_addr source ≡ true) (short : length bytes ≤ packet_len)
      (holds : p.buffer ≡ bytes ++ rest) where
    on_tail-Handled :
        (x : Parsed)
        → from_tail bytes ≡ x
        → Fits (length bytes) x
        → x ≢ panicked
        → Handled task bytes source (on_tail task p (length bytes) now x).0
    unfolding on_tail Fits as_ref
    on_tail-Handled (parsed flow) e fits safe =
        rw
          (
            ge→ltb (length bytes) (footer_len flow) fits,
            set_len_le p (length bytes - footer_len flow) (omega arith),
          )
          (
            (session, here, same),
            e,
            rw (holds) (take-append_le (length bytes - footer_len flow) bytes rest (omega arith)),
          )
    on_tail-Handled (refused none) e fits safe = tt
    on_tail-Handled (refused (some id)) e fits safe =
        if-both (λ (r : Arrival × Task). Handled task bytes source r.0)
          (id == udp_channel_establish_id)
          {x = (established, record task { establish_rx_epoch = now })}
          {y = (invalid_footer_id, task)} (λ h. tt) (λ h. tt)
    on_tail-Handled panicked e fits safe = absurd (safe refl)

  take_filled : (bytes rest : List ℕ) → take (length bytes) (bytes ++ rest) ≡ bytes
  take_filled bytes rest = take-append (length bytes) bytes rest refl

  -- The packet with `bytes` at the front of its buffer.
  abbrev filled : Packet → List ℕ → Packet
  filled p bytes = record p { buffer = bytes ++ drop (length bytes) p.buffer }

  on_packet_lem :
      (task : Task) (p : Packet) (bytes : List ℕ) (now : ℕ)
      → length bytes ≤ packet_len
      → on_packet task (set_len (filled p bytes) (length bytes)) (length bytes) now
        ≡ on_tail task
            (record (filled p bytes) { len = length bytes })
            (length bytes)
            now
            (from_tail bytes)
  unfolding on_packet as_ref
  on_packet_lem task p bytes now h =
      rw
        (
          set_len_le (filled p bytes) (length bytes) h,
          take_filled bytes (drop (length bytes) p.buffer),
        )
        refl

  pub on_tail-delivered :
      (task : Task) (flow : UdpFlow) (p : Packet) (bytes now : ℕ)
      → footer_len flow ≤ bytes
      → bytes ≤ packet_len
      → on_tail task p bytes now (parsed flow)
        ≡ (delivered flow (record p { len = bytes - footer_len flow }), task)
  unfolding on_tail
  on_tail-delivered task flow p bytes now h g =
      rw (ge→ltb bytes (footer_len flow) h, set_len_le p (bytes - footer_len flow) (omega arith))
        refl

  in-same :
      (task : Task) (session : UdpChannelDetails) (p : Packet) (bytes : List ℕ)
      (source : SocketAddr) (now : ℕ)
      → same_addr session.tunnel_addr source ≡ true
      → length bytes ≤ packet_len
      → receive_in (some session) task p bytes source now
        ≡ on_tail task
            (record (filled p bytes) { len = length bytes })
            (length bytes)
            now
            (from_tail bytes)
  unfolding receive_in
  in-same task session p bytes source now same short =
      rw (same) (on_packet_lem task p bytes now short)

  -- A packet of the session's server goes to its tail.
  pub receive-same :
      (task : Task) (session : UdpChannelDetails) (p : Packet) (bytes : List ℕ)
      (source : SocketAddr) (now : ℕ)
      → task.session ≡ some session
      → same_addr session.tunnel_addr source ≡ true
      → length bytes ≤ packet_len
      → receive task p bytes source now
        ≡ on_tail task
            (record (filled p bytes) { len = length bytes })
            (length bytes)
            now
            (from_tail bytes)
  unfolding receive
  receive-same task session p bytes source now here same short =
      ap (λ o. receive_in o task p bytes source now) here
      ∙ in-same task session p bytes source now same short

  module _ ⦃docs : Documented⦄ where
    in-Handled :
        (task : Task) (p : Packet) (bytes : List ℕ) (source : SocketAddr) (now : ℕ)
        (o : Option UdpChannelDetails)
        → task.session ≡ o
        → length bytes ≤ packet_len
        → Handled task bytes source (receive_in o task p bytes source now).0
    unfolding receive_in
    in-Handled task p bytes source now none here short = tt
    in-Handled task p bytes source now (some session) here short =
        if-both (λ (r : Arrival × Task). Handled task bytes source r.0)
          (not (same_addr session.tunnel_addr source)) {x = (source_no_match, task)}
          {y = on_packet task (set_len (filled p bytes) (length bytes)) (length bytes) now}
          (λ h. tt)
          (λ h.
            subst (λ (r : Arrival × Task). Handled task bytes source r.0)
              (sym (on_packet_lem task p bytes now short))
              (on_tail-Handled task session bytes source now
                (record (filled p bytes) { len = length bytes }) (drop (length bytes) p.buffer) here
                (accepted h) short refl (from_tail bytes) refl (from_tail-Fits bytes)
                (from_tail-safe bytes)))

    -- A packet of at most 2048 bytes, whatever its content, makes nothing of the receiving round
    -- panic; what is delivered came from the server of the session, ends in the flow that is
    -- delivered, and is delivered without the footer of that flow.
    pub receive-Handled :
        (task : Task) (p : Packet) (bytes : List ℕ) (source : SocketAddr) (now : ℕ)
        → length bytes ≤ packet_len
        → Handled task bytes source (receive task p bytes source now).0
    unfolding receive
    receive-Handled task p bytes source now short =
        in-Handled task p bytes source now task.session refl short
