-- ===== src/Feed.antt =====
-- tunnel/control_feed.go: what the control server sends, a response or a new client.
-- The deferred JSON dumps go to the debug log only and are left out.
pub mod RoundTrip
pub mod Canonical
pub mod Steps
use go_playit.Base.{panic, ok, ℕ, List, [], Option, none, some, if◌then◌else◌, ◌==◌, length}
use go_playit.Base.{set_feed, invalid_control_feed_id}
use go_playit.Wire.{Written, ◌>>◌, write_failed, write_u32, write_u64, write_data}
use go_playit.Wire.{Get, pure, fail, ◌>>=◌, read_u32, read_u64, read_token}
use go_playit.Netip.{AddrPort}
use go_playit.Address.{write_address, read_address}
use go_playit.Rpc.{ControlRpcMessage, write_rpc, read_rpc}
use go_playit.Response.{ControlResponse, empty_response, response_encoding}

pub record ClaimInstructions : Type 0 where
  pub address : AddrPort
  pub token : List ℕ

unfoldable pub write_claim : ClaimInstructions → Written
write_claim w = do write_address w.address; write_u64 (length w.token); write_data w.token

unfoldable pub read_claim : Get ClaimInstructions
read_claim = do
  address ← read_address
  size ← read_u64
  token ← read_token size
  pure (record { address = address; token = token })

pub record NewClient : Type 0 where
  pub connect_addr : AddrPort
  pub peer_addr : AddrPort
  pub claim_instructions : ClaimInstructions
  pub tunnel_server_id : ℕ
  pub data_center_id : ℕ

-- The second and third `else if` run the call and test the error of the first, which is nil there:
-- what these two calls return is dropped.
abbrev pub unchecked : Written → Written
unchecked a = record { bytes = a.bytes; outcome = elim a.outcome [ panic ↦ panic | _ ↦ ok tt ] }

unfoldable pub write_new_client : NewClient → Written
write_new_client w = do
  write_address w.connect_addr
  unchecked (write_address w.peer_addr)
  unchecked (write_claim w.claim_instructions)
  write_u64 w.tunnel_server_id
  write_u32 w.data_center_id

unfoldable pub read_new_client : Get NewClient
read_new_client = do
  connect_addr ← read_address
  peer_addr ← read_address
  claim_instructions ← read_claim
  tunnel_server_id ← read_u64
  data_center_id ← read_u32
  pure (record {
    connect_addr = connect_addr;
    peer_addr = peer_addr;
    claim_instructions = claim_instructions;
    tunnel_server_id = tunnel_server_id;
    data_center_id = data_center_id;
  })

pub record ControlFeed : Type 0 where
  pub response : Option (ControlRpcMessage ControlResponse)
  pub new_client : Option NewClient

abbrev pub empty_feed : ControlFeed
empty_feed = record { response = none; new_client = none }

unfoldable pub write_feed : ControlFeed → Written
write_feed w = elim w.response [
  | some x ↦ (do write_u32 1; write_rpc x)
  | none ↦ elim w.new_client [
    | some x ↦ (do write_u32 2; write_new_client x)
    | none ↦ write_failed set_feed
  ]
]

-- The message that ReadFrom allocates for a response, before it is filled.
abbrev pub empty_message : ControlRpcMessage ControlResponse
empty_message = record { request_id = 0; content = empty_response }

unfoldable pub read_feed : ControlFeed → Get ControlFeed
read_feed w = do
  id ← read_u32
  if id == 1
      then (do x ← read_rpc empty_message; pure (record w { response = some x }))
      else if id == 2
      then (do x ← read_new_client; pure (record w { new_client = some x }))
      else fail invalid_control_feed_id
