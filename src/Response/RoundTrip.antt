-- ===== src/Response/RoundTrip.antt =====
-- Responses of tunnel/control_message.go that ControlResponse.ReadFrom gets back.
use go_playit.Base.{◌≤◌, refl, ◌++◌, append_assoc, some, length, IsU64, arith, true}
use go_playit.Netip.{IsPlainPort}
use go_playit.Wire.{to_be, max_alloc}
use go_playit.Wire.Uint.{read_uint-to_be}
use go_playit.Wire.Buffer.{read_token-append}
use go_playit.Wire.Carries.{Carries}
use go_playit.Address.{address_bytes}
use go_playit.Address.RoundTrip.{write_address_lem, read_address-address_bytes}
use go_playit.Types.Session.{IsSession, session-Carries}
use go_playit.Response.{AgentRegistered, write_registered, read_registered}
use go_playit.Response.{UdpChannelDetails, write_details, read_details}
use go_playit.Response.{ControlResponse, empty_response, write_response, read_response}

abbrev pub IsRegistered : AgentRegistered → Type 0
IsRegistered w = IsSession w.id × IsU64 w.expires_at

pub registered-Carries :
    (w : AgentRegistered) → IsRegistered w → Carries write_registered read_registered w
unfolding write_registered read_registered
registered-Carries w (s, t) =
    let (bytes, wrote, reads) = session-Carries w.id s in
    (
      bytes ++ to_be 8 w.expires_at,
      rw wrote,
      λ rest. rw (
        append_assoc,
        reads (to_be 8 w.expires_at ++ rest),
        read_uint-to_be 8 w.expires_at rest t,
      ),
    )

-- The token can be allocated when it is read.
abbrev pub IsDetails : UdpChannelDetails → Type 0
IsDetails w = IsPlainPort w.tunnel_addr × (length w.token ≤ max_alloc)

pub details-Carries : (w : UdpChannelDetails) → IsDetails w → Carries write_details read_details w
unfolding write_details read_details
details-Carries w (a, t) = (
  address_bytes w.tunnel_addr ++ (to_be 8 (length w.token) ++ w.token),
  rw (write_address_lem w.tunnel_addr),
  λ rest.
      rw
        (
          append_assoc,
          append_assoc,
          read_address-address_bytes w.tunnel_addr _ a,
          read_uint-to_be 8 (length w.token) _ (omega arith),
          read_token-append w.token rest t,
        )
        refl,
)

-- One option set, other than the pong and the port mapping.
pub data IsReadable : ControlResponse → Type 0 where
  invalid_signature : IsReadable (record empty_response { invalid_signature = true })
  unauthorized : IsReadable (record empty_response { unauthorized = true })
  request_queued : IsReadable (record empty_response { request_queued = true })
  try_again_later : IsReadable (record empty_response { try_again_later = true })
  registered :
      (r : AgentRegistered)
      → IsRegistered r
      → IsReadable (record empty_response { agent_registered = some r })
  channel :
      (d : UdpChannelDetails)
      → IsDetails d
      → IsReadable (record empty_response { udp_channel_details = some d })

-- A response with one option set, other than the pong and the port mapping, with numbers that fit and
-- plain addresses, is written without error, and ReadFrom into an empty receiver gets it back from
-- the bytes, whatever follows them, and takes no more.
pub response-Carries :
    (w : ControlResponse) → IsReadable w → Carries write_response (read_response empty_response) w
unfolding write_response read_response
response-Carries w invalid_signature =
    (to_be 4 2, refl, λ rest. rw (read_uint-to_be 4 2 _ (omega arith)))
response-Carries w unauthorized =
    (to_be 4 3, refl, λ rest. rw (read_uint-to_be 4 3 _ (omega arith)))
response-Carries w request_queued =
    (to_be 4 4, refl, λ rest. rw (read_uint-to_be 4 4 _ (omega arith)))
response-Carries w try_again_later =
    (to_be 4 5, refl, λ rest. rw (read_uint-to_be 4 5 _ (omega arith)))
response-Carries w (registered r h) =
    let (bytes, wrote, reads) = registered-Carries r h in
    (
      to_be 4 6 ++ bytes,
      rw wrote,
      λ rest. rw (append_assoc, read_uint-to_be 4 6 _ (omega arith), reads rest),
    )
response-Carries w (channel d h) =
    let (bytes, wrote, reads) = details-Carries d h in
    (
      to_be 4 8 ++ bytes,
      rw wrote,
      λ rest. rw (append_assoc, read_uint-to_be 4 8 _ (omega arith), reads rest),
    )
