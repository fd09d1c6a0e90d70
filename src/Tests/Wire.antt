-- ===== src/Tests/Wire.antt =====
-- The round trips of the messages, on the values of Tests.
use go_playit.Base.{
  unknown_port_mapping_found_id, invalid_control_request_id, arith, ◌++◌, ◌⊎◌, ◌≡◌, ◌^◌, ◌%◌, ◌/◌,
  ◌+◌, inr, inl, ◌∷◌, [], panic, err, ok, refl, none, some,
}
use go_playit.Tests.{client, session, details, a_pong, flow4, flow6, long_addr}
use go_playit.Wire.Carries.{Carries}
use go_playit.Request.RoundTrip.{IsReadable, request-Carries}
use go_playit.Response.RoundTrip.{response-Carries, channel}
use go_playit.Feed.RoundTrip.{IsReadableFeed, feed-Carries}
use go_playit.Types.{write_port_range, PortRange, read_port_proto, write_port_proto}
use go_playit.Request.{
  no_port_range, write_check, empty_request, read_request, read_check, write_request, Ping,
}
use go_playit.Response.{write_pong, empty_response, write_response, read_pong, read_response}
use go_playit.Feed.{empty_feed, read_feed, write_feed}
use go_playit.UdpFlow.{redirect_flow_4_footer_id_old, write_flow, from_tail_udp_flow}
use go_playit.Wire.{to_be, read_uint}
use go_playit.UdpFlow.Tail.{four_unrecognised, six_misread, misread_six}
use go_playit.Netip.{as_slice}
use go_playit.Response.Mapping.{response_mapping_unreadable}
use go_playit.Types.Session.{port_proto-Carries}
use go_playit.Request.Pings.{check_range_lost, ping_refused}
use go_playit.Response.Pongs.{pong_expiry_shifted}
use go_playit.Wire.Uint.{read_uint-to_be}

feed-Carries_example :
    Carries write_feed (read_feed empty_feed) (record empty_feed { new_client = some client })
feed-Carries_example =
    feed-Carries (record empty_feed { new_client = some client })
      (IsReadableFeed.client client (record {
        connect = (refl, omega arith);
        peer = ((refl, refl), omega arith);
        claim = ((refl, omega arith), omega arith);
        server = omega arith;
        data_center = omega arith;
      }))

request-Carries_example :
    Carries write_request
      (read_request empty_request)
      (record empty_request { agent_keep_alive = some session })
request-Carries_example =
    request-Carries (record empty_request { agent_keep_alive = some session })
      (IsReadable.keeps_alive session (omega arith, omega arith, omega arith))

response-Carries_example :
    Carries write_response
      (read_response empty_response)
      (record empty_response { udp_channel_details = some details })
response-Carries_example =
    response-Carries (record empty_response { udp_channel_details = some details })
      (channel details ((refl, omega arith), omega arith))

pong_expiry_shifted_example :
    read_pong ((write_pong (record a_pong { session_expire_at = some 60000 })).bytes ++ (1 ∷ []))
    ≡ ok (
      record a_pong { session_expire_at = some (2 ^ 56 + 60000 / 256) },
      (60000 % 256) ∷ (1 ∷ []),
    )
pong_expiry_shifted_example =
    pong_expiry_shifted a_pong 60000 (1 ∷ [])
      (record {
        request = omega arith;
        server = omega arith;
        server_number = omega arith;
        data_center = omega arith;
        client = (refl, omega arith);
        tunnel = (refl, omega arith);
      })
      (omega arith)

abbrev first_ping : Ping
first_ping = record { now = 1000; current_ping = none; session_id = none }

ping_refused_example :
    read_request empty_request
      ((write_request (record empty_request { ping = some first_ping })).bytes ++ [])
    ≡ err invalid_control_request_id
ping_refused_example =
    ping_refused (record empty_request { ping = some first_ping }) empty_request first_ping [] refl

abbrev a_range : PortRange
a_range = record {
  ip = 1 ∷ [];
  port_start = 1;
  port_end = 2;
  port_proto = record { value = "tcp" };
}

check_range_lost_example :
    read_check
      ((write_check (record { agent_session_id = session; port_range = a_range })).bytes ++ [])
    ≡ ok (
      record { agent_session_id = session; port_range = no_port_range },
      (write_port_range a_range).bytes ++ [],
    )
check_range_lost_example =
    check_range_lost (record { agent_session_id = session; port_range = a_range }) []
      (omega arith, omega arith, omega arith)

response_mapping_unreadable_example :
    (read_response empty_response (to_be 4 7 ++ (0 ∷ [])) ≡ panic)
    ⊎ (read_response empty_response (to_be 4 7 ++ (0 ∷ [])) ≡ err unknown_port_mapping_found_id)
response_mapping_unreadable_example = response_mapping_unreadable empty_response (0 ∷ [])

four_unrecognised_example :
    from_tail_udp_flow
      ((1 ∷ []) ++ (write_flow (record { flow_v4 = some flow4; flow_v6 = none })).bytes)
    ≡ record { flow = none; footer = redirect_flow_4_footer_id_old; error = none }
four_unrecognised_example = four_unrecognised (1 ∷ []) flow4

six_misread_example :
    from_tail_udp_flow
      ((1 ∷ []) ++ (write_flow (record { flow_v4 = none; flow_v6 = some flow6 })).bytes)
    ≡ record { flow = some (misread_six (as_slice long_addr.addr)); footer = 0; error = none }
six_misread_example = six_misread (1 ∷ []) flow6 (refl, refl)

read_uint-to_be_example : read_uint 2 (to_be 2 258 ++ (7 ∷ [])) ≡ ok (258, 7 ∷ [])
read_uint-to_be_example = read_uint-to_be 2 258 (7 ∷ []) (omega arith)

port_proto-Carries_example : Carries write_port_proto read_port_proto (record { value = "udp" })
port_proto-Carries_example = port_proto-Carries (record { value = "udp" }) (inr (inl refl))
