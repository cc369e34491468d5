-- ===== src/Proto/Response/Truncated.antt =====
-- A response's reader takes the response and no more.
use playit_ios.Proto.Response.RoundTrip.{IsControlResponse, control_response-RoundTrips}
use playit_ios.Proto.Response.{ControlResponse}
use playit_ios.Proto.Wire.Cut.{CutShort, CutShort-of_Takes}
use playit_ios.Common.{ℕ, ◌==◌}
use playit_ios.Proto.Wire.{Crates}
use playit_ios.Proto.Wire.Readers.{
  Takes, Takes-bind, Takes-pure, Takes-fail, Takes-if, Takes-read_uint,
}
use playit_ios.Proto.Wire.Laws.{Documented, u64-Takes}
use playit_ios.Proto.Ids.RoundTrip.{agent_session_id-Takes, port_range-Takes}
use playit_ios.Common.Io.{other}
use playit_ios.Proto.Response.{
  pong, invalid_signature, unauthorized, request_queued, try_again_later, agent_registered,
  agent_port_mapping, udp_channel_details, found_encoding, mapping_encoding, details_encoding,
  pong_encoding, registered_encoding, control_response_encoding, response_of_num,
}

module _ ⦃crates : Crates⦄ ⦃docs : Documented⦄ where
  open crates use {u64}

  found-Takes : Takes found_encoding.read_from
  unfolding found_encoding
  found-Takes = Takes-bind _ _ (Takes-read_uint 4) (λ n.
      Takes-if _ _ _ (Takes-bind _ _ agent_session_id-Takes (λ id. Takes-pure _)) (Takes-fail _))

  mapping-Takes : Takes mapping_encoding.read_from
  unfolding mapping_encoding
  mapping-Takes =
      Takes-bind _ _ port_range-Takes
        (λ r. Takes-bind _ _ (docs.option-Takes found_encoding found-Takes) (λ f. Takes-pure _))

  details-Takes : Takes details_encoding.read_from
  unfolding details_encoding
  details-Takes =
      Takes-bind _ _ docs.socket_addr-Takes
        (λ a. Takes-bind _ _ docs.vec_u8-Takes (λ t. Takes-pure _))

  pong-Takes : Takes pong_encoding.read_from
  unfolding pong_encoding
  pong-Takes = Takes-bind _ _ (Takes-read_uint 8) (λ r. Takes-bind _ _ (Takes-read_uint 8) (λ s.
      Takes-bind _ _ (Takes-read_uint 8) (λ i. Takes-bind _ _ (Takes-read_uint 4) (λ d.
        Takes-bind _ _ docs.socket_addr-Takes (λ c.
          Takes-bind _ _ docs.socket_addr-Takes
            (λ t. Takes-bind _ _ (docs.option-Takes u64 u64-Takes) (λ e. Takes-pure _)))))))

  registered-Takes : Takes registered_encoding.read_from
  unfolding registered_encoding
  registered-Takes =
      Takes-bind _ _ agent_session_id-Takes
        (λ i. Takes-bind _ _ (Takes-read_uint 8) (λ e. Takes-pure _))

  response_of_num-Takes : (n : ℕ) → Takes (response_of_num n)
  unfolding response_of_num
  response_of_num-Takes n =
      Takes-if (n == 1) _ _ (Takes-bind _ _ pong-Takes (λ p. Takes-pure (pong p))) (
        Takes-if (n == 2) _ _ (Takes-pure invalid_signature) (
          Takes-if (n == 3) _ _ (Takes-pure unauthorized) (
            Takes-if (n == 4) _ _ (Takes-pure request_queued) (
              Takes-if (n == 5) _ _ (Takes-pure try_again_later) (
                Takes-if (n == 6) _ _
                  (Takes-bind _ _ registered-Takes (λ r. Takes-pure (agent_registered r)))
                  (Takes-if (n == 7) _ _
                    (Takes-bind _ _ mapping-Takes (λ m. Takes-pure (agent_port_mapping m)))
                    (Takes-if (n == 8) _ _
                      (Takes-bind _ _ details-Takes (λ d. Takes-pure (udp_channel_details d)))
                      (Takes-fail other))))))))

  pub control_response-Takes : Takes control_response_encoding.read_from
  unfolding control_response_encoding
  control_response-Takes = Takes-bind _ _ (Takes-read_uint 4) response_of_num-Takes

  -- A response in range is written, and no proper prefix of what is written is read as a response.
  pub control_response_truncated :
      (q : ControlResponse) (k : ℕ) → IsControlResponse q → CutShort control_response_encoding q k
  control_response_truncated q k h =
      CutShort-of_Takes control_response_encoding q k control_response-Takes
        (control_response-RoundTrips q h)
