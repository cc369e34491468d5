-- ===== src/Proto/Feed/RoundTrip.antt =====
-- A feed message is read back as it was written, but for the old form of a new client, which is
-- read as the present form; and a message that is cut short is refused.
use playit_ios.Proto.Wire.Cut.{CutShort, CutShort-of_Takes}
use playit_ios.Common.{◌==◌, ℕ, arith, length}
use playit_ios.Common.Io.{other}
use playit_ios.Proto.Wire.{Crates, IsU16, IsU32, IsU64, IsSocketAddr}
use playit_ios.Proto.Wire.Readers.{
  Takes, Takes-bind, Takes-pure, Takes-fail, Takes-if, Takes-read_uint,
}
use playit_ios.Proto.Wire.Laws.{
  Documented, RoundTrips, ReadsBack, ReadsBack-of_Codes, Codes, Codes-bind, Codes-finish, Codes-add,
  Codes-u32, Codes-u64, u16-RoundTrips, u32-RoundTrips, u64-RoundTrips, u16-Takes, u32-Takes,
  u64-Takes,
}
use playit_ios.Proto.Ids.{rpc_message}
use playit_ios.Proto.Ids.RoundTrip.{rpc_message-RoundTrips, rpc_message-Takes}
use playit_ios.Proto.Response.{control_response_encoding}
use playit_ios.Proto.Response.RoundTrip.{IsControlResponse, control_response-RoundTrips}
use playit_ios.Proto.Response.Truncated.{control_response-Takes}
use playit_ios.Proto.Feed.{
  ClaimInstructions, NewClient, NewClientOld, ControlFeed, response, new_client, new_client_old,
  from_old, claim_encoding, new_client_encoding, new_client_old_encoding, control_feed_encoding,
  write_control_feed, read_control_feed, feed_of_num, write_claim, write_new_client,
  write_new_client_old, read_claim, read_new_client, read_new_client_old,
}

-- The ranges of the fields' types.
abbrev pub IsClaim : ClaimInstructions → Type 0
IsClaim c = IsSocketAddr c.address × IsU64 (length c.token)

abbrev pub IsNewClient : NewClient → Type 0
IsNewClient c =
    IsSocketAddr c.connect_addr
    × IsSocketAddr c.peer_addr
    × IsU32 c.data_center_id
    × IsU64 c.tunnel_id
    × IsU16 c.port_offset
    × IsClaim c.claim_instructions

abbrev pub IsNewClientOld : NewClientOld → Type 0
IsNewClientOld c =
    IsSocketAddr c.connect_addr
    × IsSocketAddr c.peer_addr
    × IsU32 c.data_center_id
    × IsU64 c.tunnel_server_id
    × IsClaim c.claim_instructions

abbrev pub IsControlFeed : ControlFeed → Type 0
IsControlFeed (response r) = IsU64 r.request_id × IsControlResponse r.content
IsControlFeed (new_client c) = IsNewClient c
IsControlFeed (new_client_old c) = IsNewClientOld c

-- What the other end sees of a message.
abbrev pub received : ControlFeed → ControlFeed
received (response r) = response r
received (new_client c) = new_client c
received (new_client_old c) = new_client (from_old c)

module _ ⦃crates : Crates⦄ ⦃docs : Documented⦄ where
  open crates use {u16, u32, u64, vec_u8, socket_addr}

  claim-RoundTrips : (c : ClaimInstructions) → IsClaim c → RoundTrips claim_encoding c
  unfolding claim_encoding
  claim-RoundTrips c h = ReadsBack-of_Codes write_claim read_claim c (
      Codes-bind _ _ _ _ (Codes-add socket_addr _ (docs.socket_addr-RoundTrips c.address h.0)) (
        Codes-bind _ _ _ _ (Codes-add vec_u8 _ (docs.vec_u8-RoundTrips c.token h.1))
          (Codes-finish _)))

  new_client-RoundTrips : (c : NewClient) → IsNewClient c → RoundTrips new_client_encoding c
  unfolding new_client_encoding
  new_client-RoundTrips c h = ReadsBack-of_Codes write_new_client read_new_client c (
      Codes-bind _ _ _ _ (Codes-add socket_addr _ (docs.socket_addr-RoundTrips _ h.0)) (
        Codes-bind _ _ _ _ (Codes-add socket_addr _ (docs.socket_addr-RoundTrips _ h.1)) (
          Codes-bind _ _ _ _ (Codes-add u32 _ (u32-RoundTrips _ h.2)) (
            Codes-bind _ _ _ _ (Codes-add u64 _ (u64-RoundTrips _ h.3)) (
              Codes-bind _ _ _ _ (Codes-add u16 _ (u16-RoundTrips _ h.4)) (
                Codes-bind _ _ _ _
                  (Codes-add claim_encoding _ (claim-RoundTrips c.claim_instructions h.5))
                  (Codes-finish _)))))))

  new_client_old-RoundTrips :
      (c : NewClientOld) → IsNewClientOld c → RoundTrips new_client_old_encoding c
  unfolding new_client_old_encoding
  new_client_old-RoundTrips c h = ReadsBack-of_Codes write_new_client_old read_new_client_old c (
      Codes-bind _ _ _ _ (Codes-add socket_addr _ (docs.socket_addr-RoundTrips _ h.0)) (
        Codes-bind _ _ _ _ (Codes-add socket_addr _ (docs.socket_addr-RoundTrips _ h.1)) (
          Codes-bind _ _ _ _
            (Codes-add claim_encoding _ (claim-RoundTrips c.claim_instructions h.4))
            (Codes-bind _ _ _ _ (Codes-u64 _ h.3)
              (Codes-bind _ _ _ _ (Codes-u32 _ h.2) (Codes-finish _))))))

  Codes-feed :
      (f : ControlFeed)
      → IsControlFeed f
      → Codes (write_control_feed f) read_control_feed (received f)
  unfolding write_control_feed read_control_feed feed_of_num
  Codes-feed (response r) h = Codes-bind _ _ _ _ (Codes-u32 1 (omega arith)) (
      Codes-bind _ _ _ _
        (Codes-add (rpc_message control_response_encoding) r (
          rpc_message-RoundTrips control_response_encoding r h.0
            (control_response-RoundTrips r.content h.1)))
        (Codes-finish _))
  Codes-feed (new_client_old c) h = Codes-bind _ _ _ _ (Codes-u32 2 (omega arith)) (
      Codes-bind _ _ _ _ (Codes-add new_client_old_encoding c (new_client_old-RoundTrips c h))
        (Codes-finish _))
  Codes-feed (new_client c) h = Codes-bind _ _ _ _ (Codes-u32 3 (omega arith)) (
      Codes-bind _ _ _ _ (Codes-add new_client_encoding c (new_client-RoundTrips c h))
        (Codes-finish _))

  -- Every message of the feed whose fields are in range is written, its count is that of the
  -- bytes, and it is read back as it was, but for a new client of the old form, which is read back
  -- as the new client it converts to.
  pub control_feed-ReadsBack :
      (f : ControlFeed) → IsControlFeed f → ReadsBack control_feed_encoding f (received f)
  unfolding control_feed_encoding
  control_feed-ReadsBack f h =
      ReadsBack-of_Codes write_control_feed read_control_feed f (Codes-feed f h)

  claim-Takes : Takes claim_encoding.read_from
  unfolding claim_encoding
  claim-Takes =
      Takes-bind _ _ docs.socket_addr-Takes
        (λ a. Takes-bind _ _ docs.vec_u8-Takes (λ t. Takes-pure _))

  new_client-Takes : Takes new_client_encoding.read_from
  unfolding new_client_encoding
  new_client-Takes = Takes-bind _ _ docs.socket_addr-Takes (λ a.
      Takes-bind _ _ docs.socket_addr-Takes (λ p. Takes-bind _ _ u32-Takes (λ d.
        Takes-bind _ _ u64-Takes
          (λ t. Takes-bind _ _ u16-Takes (λ o. Takes-bind _ _ claim-Takes (λ c. Takes-pure _))))))

  new_client_old-Takes : Takes new_client_old_encoding.read_from
  unfolding new_client_old_encoding
  new_client_old-Takes = Takes-bind _ _ docs.socket_addr-Takes (λ a.
      Takes-bind _ _ docs.socket_addr-Takes (λ p. Takes-bind _ _ claim-Takes (λ c.
        Takes-bind _ _ (Takes-read_uint 8)
          (λ t. Takes-bind _ _ (Takes-read_uint 4) (λ d. Takes-pure _)))))

  feed_of_num-Takes : (n : ℕ) → Takes (feed_of_num n)
  unfolding feed_of_num
  feed_of_num-Takes n =
      Takes-if (n == 1) _ _
        (Takes-bind _ _ (rpc_message-Takes control_response_encoding control_response-Takes)
          (λ r. Takes-pure (response r)))
        (Takes-if (n == 2) _ _
          (Takes-bind _ _ new_client_old-Takes (λ c. Takes-pure (new_client (from_old c))))
          (Takes-if (n == 3) _ _ (Takes-bind _ _ new_client-Takes (λ c. Takes-pure (new_client c)))
            (Takes-fail other)))

  pub control_feed-Takes : Takes control_feed_encoding.read_from
  unfolding control_feed_encoding
  control_feed-Takes = Takes-bind _ _ (Takes-read_uint 4) feed_of_num-Takes

  -- A message of the feed in range is written, and no proper prefix of what is written is read as
  -- a message.
  pub control_feed_truncated :
      (q : ControlFeed) (k : ℕ) → IsControlFeed q → CutShort control_feed_encoding q k
  control_feed_truncated q k h =
      CutShort-of_Takes control_feed_encoding q k control_feed-Takes (control_feed-ReadsBack q h)
