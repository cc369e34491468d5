-- ===== src/Control/Flow.antt =====
-- What a received feed does to a session: `EstablishedControl::recv_feed_msg`.
use playit_ios.Common.{
  ℕ, ◌≡◌, refl, ◌∙◌, ap, Bool, true, false, not, if-both, if◌then◌else◌, Option, none, some, List,
}
use playit_ios.Common.Io.{Result, ok, err}
use playit_ios.Proto.Wire.{Crates}
use playit_ios.Proto.Response.{Pong, ControlResponse, pong, agent_registered}
use playit_ios.Proto.Feed.{ControlFeed, response, control_feed_encoding}
use playit_ios.Control.{World, Calls, Waited, packet, same_addr, invalid_remote, wait}
use playit_ios.Control.Connected.{
  ConnectedControl, Received, feed, error, received, decoded, recv, note_feed, note_response,
  flow_differs,
}
use playit_ios.Control.Established.{
  EstablishedControl, ExpiredReason, forced, flow_changed, is_expired, flow_is_changed,
  expired_unless_forced, learn, learn_response, learn_pong, recv_feed_msg,
}

-- The latest pong after a response, and after a received value.
abbrev after_response : ControlResponse → Pong → Pong
after_response (pong p) latest = p
after_response _ latest = latest

abbrev pub pong_after : Received → Pong → Pong
pong_after (feed (response m)) latest = after_response m.content latest
pong_after _ latest = latest

abbrev pub flow_reason : Bool → Option ExpiredReason
flow_reason changed = if changed then some flow_changed else none

note_response-pong :
    (c : ControlResponse) (conn : ConnectedControl)
    → (note_response c conn).pong_latest ≡ after_response c conn.pong_latest
unfolding note_response
note_response-pong (pong p) conn = refl
note_response-pong _ conn = refl

note_feed-pong :
    (f : ControlFeed) (conn : ConnectedControl)
    → (note_feed f conn).pong_latest ≡ pong_after (feed f) conn.pong_latest
unfolding note_feed
note_feed-pong (response m) conn = note_response-pong m.content conn
note_feed-pong _ conn = refl

unexpired :
    (b : Bool) (o : Option ℕ) (c c' : Bool)
    → (if b then some forced else expired_unless_forced o c) ≡ none
    → (if b then some forced else expired_unless_forced o c') ≡ flow_reason c'
unfolding expired_unless_forced
unexpired true o c c' e = cc
unexpired false none c c' e = cc
unexpired false (some n) c c' e = refl

module _ ⦃crates : Crates⦄ where
  abbrev Notes : ConnectedControl → Received × ConnectedControl → Type 0
  Notes conn r = r.1.pong_latest ≡ pong_after r.0 conn.pong_latest

  decoded-Notes :
      (conn : ConnectedControl) (x : Result (ControlFeed × List ℕ)) → Notes conn (decoded conn x)
  unfolding decoded
  decoded-Notes conn (ok (f, rest)) = note_feed-pong f conn
  decoded-Notes conn (err e) = refl

  received-Notes : (conn : ConnectedControl) (w : Waited) → Notes conn (received conn w)
  unfolding received
  received-Notes conn (packet bytes remote) =
      if-both (Notes conn) (not (same_addr remote conn.control_addr))
        {x = (error (invalid_remote conn.control_addr remote), conn)}
        {y = decoded conn (control_feed_encoding.read_from bytes)} (λ h. refl)
        (λ h. decoded-Notes conn (control_feed_encoding.read_from bytes))
  received-Notes conn _ = refl

  module _ ⦃world : World⦄ where
    learn_response-is_expired :
        (c : ControlResponse) (e : EstablishedControl) (calls : Calls)
        → is_expired (learn_response c e calls).0 ≡ is_expired e
    unfolding learn_response learn_pong is_expired flow_is_changed
    learn_response-is_expired (pong p) e calls = refl
    learn_response-is_expired (agent_registered r) e calls = refl
    learn_response-is_expired _ e calls = refl

    learn-is_expired :
        (r : Received) (e : EstablishedControl) (calls : Calls)
        → is_expired (learn r e calls).0 ≡ is_expired e
    unfolding learn
    learn-is_expired (feed (response m)) e calls = learn_response-is_expired m.content e calls
    learn-is_expired _ e calls = refl

    -- After a session that is not expired received anything, it counts as expired exactly if the
    -- latest pong, which is the received one if there is one, has another client or tunnel address
    -- than the pong of the registration, and then for the changed flow.
    pub recv_feed_msg-is_expired :
        (e : EstablishedControl) (calls : Calls)
        → is_expired e ≡ none
        → let r = recv_feed_msg e calls in
          is_expired r.1
          ≡ flow_reason (flow_differs (pong_after r.0 e.conn.pong_latest) e.pong_at_auth)
    unfolding recv_feed_msg recv wait is_expired flow_is_changed
    recv_feed_msg-is_expired e calls h =
        let r = recv e.conn calls in
        learn-is_expired r.result (record e { conn = r.conn }) r.calls
        ∙ (unexpired e.force_expired e.pong_at_auth.session_expire_at (flow_is_changed e)
              (flow_differs r.conn.pong_latest e.pong_at_auth) h
            ∙ ap (λ p. flow_reason (flow_differs p e.pong_at_auth))
                (received-Notes e.conn (world.waited calls.waits)))
