-- ===== src/Control.antt =====
-- packages/agent_core/src/agent_control: the connection of the agent to a tunnel server. What
-- happens around the code is a `World`: how each wait for a packet, each send and each sleep ends,
-- what the clock shows and what the `AuthResource` answers, each by the count of such calls so far.
-- A packet of a server is its bytes, cut to the size of the buffer.
pub mod Connected
pub mod Kept
pub mod Settled
pub mod Authenticate
pub mod Registers
pub mod Select
pub mod Searched
pub mod Found
pub mod Established
pub mod Expiry
pub mod Flow
pub mod Maintained
use playit_ios.Common.{
  ℕ, suc, ◌+◌, ◌-◌, ◌%◌, ◌^◌, List, [], ◌∷◌, Bool, false, ◌&&◌, ◌==◌, Option, length, ◌⊎◌,
}
use playit_ios.Common.Io.{ErrorKind}
use playit_ios.Proto.Wire.{IpAddr, v4, v6, SocketAddr}
use playit_ios.Proto.Response.{Pong}

-- What the agent meets of the errors; the contents of those of the API are left out.
pub data SetupError : Type 0 where
  io_error : ErrorKind → SetupError
  failed_to_connect api_fail attempting_to_auth_with_old_flow
        failed_to_decode_signed_agent_register_hex register_invalid_signature register_unauthorized
        timeout :
      SetupError

pub data ControlError : Type 0 where
  io_error failed_to_read_control_feed : ErrorKind → ControlError
  invalid_remote : SocketAddr → SocketAddr → ControlError

-- How a wait for a packet ends: its own timeout, an error, a packet and its source, or the timeout
-- of a caller, which drops the computation.
pub data Waited : Type 0 where
  late cut_off : Waited
  failed : ErrorKind → Waited
  packet : List ℕ → SocketAddr → Waited

pub data Sending : Type 0 where
  taken abandoned : Sending
  refused : ErrorKind → Sending

pub record World : Type 0 where
  pub waited : ℕ → Waited
  pub sending : ℕ → Sending
  -- Whether a sleep runs to its end.
  pub slept : ℕ → Bool
  pub now_milli : ℕ → ℕ
  -- `AuthResource::authenticate`: an error, or the key of a `SignedAgentKey`.
  pub authenticate : ℕ → Pong → SetupError ⊎ List ℕ
  -- `hex::decode`
  pub decode : List ℕ → Option (List ℕ)

-- The calls so far; for sends, what was handed to the socket, the latest first.
pub record Calls : Type 0 where
  pub waits : ℕ
  pub sent : List (List ℕ × SocketAddr)
  pub sleeps : ℕ
  pub readings : ℕ
  pub asks : ℕ

unfoldable pub same_ip : IpAddr → IpAddr → Bool
same_ip (v4 a) (v4 b) = a == b
same_ip (v6 a) (v6 b) = a == b
same_ip (v4 a) (v6 b) = false
same_ip (v6 a) (v4 b) = false

unfoldable pub same_addr : SocketAddr → SocketAddr → Bool
same_addr a b = same_ip a.ip b.ip && (a.port == b.port)

-- Sums and differences of `u64`s wrap around.
unfoldable pub wrapping_add : ℕ → ℕ → ℕ
wrapping_add a b = (a + b) % 2 ^ 64

unfoldable pub wrapping_sub : ℕ → ℕ → ℕ
wrapping_sub a b = (a + 2 ^ 64 - b) % 2 ^ 64

module _ ⦃world : World⦄ where
  unfoldable pub now : Calls → ℕ × Calls
  now calls = (world.now_milli calls.readings, record calls { readings = suc calls.readings })

  unfoldable pub wait : Calls → Waited × Calls
  wait calls = (world.waited calls.waits, record calls { waits = suc calls.waits })

  unfoldable pub send_to : List ℕ → SocketAddr → Calls → Sending × Calls
  send_to bytes addr calls =
      (world.sending (length calls.sent), record calls { sent = (bytes, addr) ∷ calls.sent })

  unfoldable pub sleep : Calls → Bool × Calls
  sleep calls = (world.slept calls.sleeps, record calls { sleeps = suc calls.sleeps })

  unfoldable pub ask : Pong → Calls → (SetupError ⊎ List ℕ) × Calls
  ask pong calls = (world.authenticate calls.asks pong, record calls { asks = suc calls.asks })
