-- ===== src/Tests/Control.antt =====
-- A connection to a tunnel server that answers the second wait, in a world of its own.
use playit_ios.Common.{
  ℕ, zero, suc, ◌+◌, ◌*◌, ◌≤◌, ◌<◌, ◌≡◌, refl, arith, List, [], ◌∷◌, ◌++◌, length, true, false,
  none, some, inl, inr,
}
use playit_ios.Proto.Response.{Pong, AgentRegistered}
use playit_ios.Proto.Feed.RoundTrip.{control_feed-ReadsBack}
use playit_ios.Control.{World, Calls, Waited, late, packet, taken, same_addr, same_ip, wrapping_sub}
use playit_ios.Control.Connected.{ConnectedControl, authenticate, flow_differs}
use playit_ios.Control.Kept.{Kept, Hears}
use playit_ios.Control.Settled.{registration}
use playit_ios.Control.Authenticate.{authenticate-Kept, authenticate-Hears}
use playit_ios.Control.Registers.{authenticate-registers, Brings, IsPassed}
use playit_ios.Control.Established.{
  EstablishedControl, is_expired, flow_is_changed, expired_unless_forced, reauthenticate,
  recv_feed_msg, local_expiry, round_trip,
}
use playit_ios.Control.Expiry.{local_expiry-close, reauthenticate-Renewed, Renewed}
use playit_ios.Control.Flow.{recv_feed_msg-is_expired, flow_reason, pong_after}
use playit_ios.Control.Maintained.{MaintainedControl, update}
use playit_ios.Control.Maintained.Lost.{Lost, update-Lost}
use playit_ios.Control.Select.{connect_to_first}
use playit_ios.Control.Found.{connect_to_first-Connects, Connects}
use playit_ios.Tests.Crates.{test_crates, test_docs}
use playit_ios.Tests.Proto.{session, address, address6, pong_value}

abbrev registered : AgentRegistered
registered = record { id = session; expires_at = 90000 }

answer_bytes : List ℕ
answer_bytes =
    (control_feed-ReadsBack ⦃crates = test_crates⦄ ⦃docs = test_docs⦄ (registration 7 registered)
      (omega arith, ((omega arith, omega arith, omega arith), omega arith))).bytes

abbrev waits : ℕ → Waited
waits zero = late
waits (suc n) = packet (answer_bytes ++ []) address

abbrev test_world : World
test_world = record {
  waited = waits;
  sending = λ n. taken;
  slept = λ n. true;
  now_milli = λ n. 7;
  authenticate = λ n p. inr (1 ∷ 2 ∷ []);
  decode = λ key. some key;
}

abbrev start : Calls
start = record { waits = 0; sent = []; sleeps = 0; readings = 0; asks = 0 }

abbrev connection : ConnectedControl
connection = record { control_addr = address; pong_latest = pong_value }

answer-Brings :
    Brings ⦃crates = test_crates⦄ address (registration 7 registered) (test_world.waited (0 + 1))
unfolding answer_bytes same_addr same_ip
answer-Brings = (
  answer_bytes ++ [],
  address,
  [],
  refl,
  refl,
  (control_feed-ReadsBack ⦃crates = test_crates⦄ ⦃docs = test_docs⦄ (registration 7 registered)
        (omega arith, ((omega arith, omega arith, omega arith), omega arith))).reads
      [],
)

first-IsPassed :
    (i : ℕ) → i < 1 → IsPassed ⦃crates = test_crates⦄ address 7 (test_world.waited (0 + i))
first-IsPassed zero h = inl refl
first-IsPassed (suc i) h = absurd (omega arith)

authenticate-registers_example :
    (authenticate ⦃crates = test_crates⦄ ⦃world = test_world⦄ connection start).result
    ≡ inr registered
authenticate-registers_example =
    authenticate-registers ⦃crates = test_crates⦄ ⦃world = test_world⦄ ⦃docs = test_docs⦄ connection
      start (1 ∷ 2 ∷ []) (1 ∷ 2 ∷ []) 1 registered refl refl refl (omega arith) (omega arith)
      first-IsPassed answer-Brings

authenticate-Hears_example :
    Hears ⦃crates = test_crates⦄ ⦃world = test_world⦄ connection start
      (authenticate ⦃crates = test_crates⦄ ⦃world = test_world⦄ connection start).calls
      (registration 7 registered)
authenticate-Hears_example =
    authenticate-Hears ⦃crates = test_crates⦄ ⦃world = test_world⦄ connection start registered (
      authenticate-registers ⦃crates = test_crates⦄ ⦃world = test_world⦄ ⦃docs = test_docs⦄
        connection start (1 ∷ 2 ∷ []) (1 ∷ 2 ∷ []) 1 registered refl refl refl (omega arith)
        (omega arith) first-IsPassed answer-Brings)

authenticate-Kept_example :
    let run = authenticate ⦃crates = test_crates⦄ ⦃world = test_world⦄ connection start in
    Kept 25 6 connection start run.conn run.calls
authenticate-Kept_example =
    authenticate-Kept ⦃crates = test_crates⦄ ⦃world = test_world⦄ connection start

abbrev established : EstablishedControl
established = record {
  conn = connection;
  pong_at_auth = pong_value;
  registered = registered;
  current_ping = none;
  clock_offset = 0;
  force_expired = false;
}

reauthenticate-Renewed_example :
    let r = reauthenticate ⦃crates = test_crates⦄ ⦃world = test_world⦄ established start in
    Renewed established
      (authenticate ⦃crates = test_crates⦄ ⦃world = test_world⦄ established.conn start).result
      r.1
      r.0
reauthenticate-Renewed_example =
    reauthenticate-Renewed ⦃crates = test_crates⦄ ⦃world = test_world⦄ established start

recv_feed_msg-is_expired_example :
    let r = recv_feed_msg ⦃crates = test_crates⦄ ⦃world = test_world⦄ established start in
    is_expired r.1 ≡ flow_reason (flow_differs (pong_after r.0 pong_value) pong_value)
unfolding is_expired flow_is_changed expired_unless_forced flow_differs same_addr same_ip
recv_feed_msg-is_expired_example =
    recv_feed_msg-is_expired ⦃crates = test_crates⦄ ⦃world = test_world⦄ established start refl

-- The server's clock is 500 ahead; it answered 40 after the request, which took 100.
abbrev late_pong : Pong
late_pong = record pong_value {
  request_now = 1000;
  server_now = 1540;
  session_expire_at = some 60500;
}

local_expiry-close_example :
    let kept = local_expiry late_pong (round_trip late_pong 1100) 60500 in
    (kept ≤ 60000) × (60000 ≤ kept + 2 * 100)
local_expiry-close_example =
    local_expiry-close late_pong 1100 1040 60000 60500 (omega arith) (omega arith) (omega arith)
      (omega arith) (omega arith) (omega arith) (omega arith)

connect_to_first-Connects_example :
    let r =
      connect_to_first ⦃crates = test_crates⦄ ⦃world = test_world⦄
        (address6 ∷ address ∷ [])
        start in
    Connects ⦃crates = test_crates⦄ ⦃world = test_world⦄ (address6 ∷ address ∷ []) start r
    × (r.1.waits ≤ 0 + 15 * 2)
    × (length r.1.sent ≤ 0 + 3 * 2)
connect_to_first-Connects_example =
    connect_to_first-Connects ⦃crates = test_crates⦄ ⦃world = test_world⦄ (address6 ∷ address ∷ [])
      start

-- A world in which nothing comes, long after the last pong.
abbrev silent_world : World
silent_world = record test_world { waited = λ n. late; now_milli = λ n. 20000 }

abbrev watched : MaintainedControl
watched = record {
  control = established;
  last_keep_alive = 0;
  last_ping = 0;
  last_pong = 5;
  last_udp_auth = 0;
  last_control_targets = address ∷ [];
}

update-Lost_example : Lost (update ⦃world = silent_world⦄ ⦃crates = test_crates⦄ watched start)
unfolding is_expired flow_is_changed expired_unless_forced flow_differs same_addr same_ip
    wrapping_sub
update-Lost_example =
    update-Lost ⦃crates = test_crates⦄ ⦃world = silent_world⦄ watched start refl (λ e. omega arith)
      (omega arith) (λ i h. refl)
