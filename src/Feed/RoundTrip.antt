-- ===== src/Feed/RoundTrip.antt =====
-- What ControlFeed.ReadFrom gets back.
use go_playit.Response.{response_encoding}
use go_playit.Base.{◌≤◌, refl, ◌++◌, append_assoc, some, length, IsU64, arith}
use go_playit.Netip.{IsPlainPort}
use go_playit.Wire.{to_be, max_alloc}
use go_playit.Wire.Uint.{read_uint-to_be}
use go_playit.Wire.Buffer.{read_token-append}
use go_playit.Wire.Carries.{Carries}
use go_playit.Address.{address_bytes}
use go_playit.Address.RoundTrip.{write_address_lem, read_address-address_bytes}
use go_playit.Response.{ControlResponse, empty_response}
use go_playit.Response.RoundTrip.{IsReadable, response-Carries}
use go_playit.Base.{IsU32, ◌++◌, length, append_assoc, some, arith}
use go_playit.Feed.{ClaimInstructions, write_claim, read_claim, NewClient, write_new_client}
use go_playit.Feed.{read_new_client, ControlFeed, empty_feed, write_feed, read_feed}
use go_playit.Rpc.{ControlRpcMessage, rpc-Carries}

abbrev pub IsClaim : ClaimInstructions → Type 0
IsClaim w = IsPlainPort w.address × (length w.token ≤ max_alloc)

pub claim-Carries : (w : ClaimInstructions) → IsClaim w → Carries write_claim read_claim w
unfolding write_claim read_claim
claim-Carries w (a, t) = (
  address_bytes w.address ++ (to_be 8 (length w.token) ++ w.token),
  rw (write_address_lem w.address),
  λ rest.
      rw
        (
          append_assoc,
          append_assoc,
          read_address-address_bytes w.address _ a,
          read_uint-to_be 8 (length w.token) _ (omega arith),
          read_token-append w.token rest t,
        )
        refl,
)

pub record IsNewClient (w : NewClient) : Type 0 where
  pub connect : IsPlainPort w.connect_addr
  pub peer : IsPlainPort w.peer_addr
  pub claim : IsClaim w.claim_instructions
  pub server : IsU64 w.tunnel_server_id
  pub data_center : IsU32 w.data_center_id

pub new_client-Carries :
    (w : NewClient) → IsNewClient w → Carries write_new_client read_new_client w
unfolding write_new_client read_new_client
new_client-Carries w h =
    let (bytes, wrote, reads) = claim-Carries w.claim_instructions h.claim in
    (
      address_bytes w.connect_addr
          ++ (address_bytes w.peer_addr
              ++ (bytes ++ (to_be 8 w.tunnel_server_id ++ to_be 4 w.data_center_id))),
      rw (write_address_lem w.connect_addr, write_address_lem w.peer_addr, wrote),
      λ rest. simp append_assoc (
          rw
            (
              read_address-address_bytes w.connect_addr _ h.connect,
              read_address-address_bytes w.peer_addr _ h.peer,
              reads (to_be 8 w.tunnel_server_id ++ (to_be 4 w.data_center_id ++ rest)),
              read_uint-to_be 8 w.tunnel_server_id _ h.server,
              read_uint-to_be 4 w.data_center_id _ h.data_center,
            )
            refl),
    )

-- A new client with plain addresses, numbers that fit and a token that can be allocated, or a response
-- of a kind that is read back, under a 64-bit request id.
pub data IsReadableFeed : ControlFeed → Type 0 where
  client :
      (c : NewClient) → IsNewClient c → IsReadableFeed (record empty_feed { new_client = some c })
  response :
      (m : ControlRpcMessage ControlResponse)
      → IsU64 m.request_id
      → IsReadable m.content
      → IsReadableFeed (record empty_feed { response = some m })

-- A readable feed (a new client with plain addresses, or a response of a readable kind) is written without error, and ReadFrom into an empty receiver gets it back from the
-- bytes, whatever follows them, and takes no more: every field of the new client, its claim token,
-- or the response under its request id.
pub feed-Carries :
    (w : ControlFeed) → IsReadableFeed w → Carries write_feed (read_feed empty_feed) w
unfolding write_feed read_feed
feed-Carries w (client c h) =
    let (bytes, wrote, reads) = new_client-Carries c h in
    (
      to_be 4 2 ++ bytes,
      rw wrote,
      λ rest. rw (append_assoc, read_uint-to_be 4 2 _ (omega arith), reads rest),
    )
feed-Carries w (response m u h) =
    let (bytes, wrote, reads) = rpc-Carries m empty_response 0 u (response-Carries m.content h) in
    (
      to_be 4 1 ++ bytes,
      rw wrote,
      λ rest. rw (append_assoc, read_uint-to_be 4 1 _ (omega arith), reads rest),
    )
