-- ===== src/Response.antt =====
-- The responses of tunnel/control_message.go: Pong, AgentRegistered, AgentPortMapping,
-- UdpChannelDetails and their union ControlResponse. Times are UnixMilli stamps.
pub mod RoundTrip
pub mod Pongs
pub mod Mapping
pub mod Canonical
use go_playit.Base.{ℕ, List, [], Option, none, some, Bool, true, false, if◌then◌else◌, ◌==◌, length}
use go_playit.Base.{set_one_option, invalid_control_response_id, unknown_port_mapping_found_id}
use go_playit.Base.{ok, panic}
use go_playit.Wire.{Written, ◌>>◌, written, write_failed, write_u32, write_u64, write_data}
use go_playit.Wire.{write_option_u64, Get, pure, fail, ◌>>=◌, read_u32, read_u64, read_token}
use go_playit.Netip.{AddrPort}
use go_playit.Address.{write_address, read_address}
use go_playit.Types.{AgentSessionId, write_session, read_session}
use go_playit.Types.{PortRange, write_port_range, read_port_range}
use go_playit.Request.{no_port_range}
use go_playit.Rpc.{MessageEncoding}

pub record Pong : Type 0 where
  pub request_now : ℕ
  pub server_now : ℕ
  pub server_id : ℕ
  pub data_center_id : ℕ
  pub client_addr : AddrPort
  pub tunnel_addr : AddrPort
  pub session_expire_at : Option ℕ

unfoldable pub write_pong : Pong → Written
write_pong w = do
  write_u64 w.request_now
  write_u64 w.server_now
  write_u64 w.server_id
  write_u32 w.data_center_id
  write_address w.client_addr
  write_address w.tunnel_addr
  write_option_u64 w.session_expire_at

-- The presence byte of the expiry is not read: eight bytes are taken from where it stands.
unfoldable pub read_pong : Get Pong
read_pong = do
  request_now ← read_u64
  server_now ← read_u64
  server_id ← read_u64
  data_center_id ← read_u32
  client_addr ← read_address
  tunnel_addr ← read_address
  expire ← read_u64
  pure (record {
    request_now = request_now;
    server_now = server_now;
    server_id = server_id;
    data_center_id = data_center_id;
    client_addr = client_addr;
    tunnel_addr = tunnel_addr;
    session_expire_at = some expire;
  })

pub record AgentRegistered : Type 0 where
  pub id : AgentSessionId
  pub expires_at : ℕ

unfoldable pub write_registered : AgentRegistered → Written
write_registered w = do write_session w.id; write_u64 w.expires_at

unfoldable pub read_registered : Get AgentRegistered
read_registered = do
  id ← read_session
  expires_at ← read_u64
  pure (record { id = id; expires_at = expires_at })

pub record AgentPortMappingFound : Type 0 where
  pub to_agent : Option AgentSessionId

-- The receiver is a pointer; `none` is nil. Without an agent nothing is written.
unfoldable pub write_found : Option AgentPortMappingFound → Written
write_found none = record { bytes = []; outcome = panic }
write_found (some w) = elim w.to_agent [
  | none ↦ written []
  | some s ↦ (do write_u32 1; write_session s)
]

-- Storing into a nil receiver is a nil dereference.
unfoldable pub read_found : Option AgentPortMappingFound → Get (Option AgentPortMappingFound)
read_found w = do
  code ← read_u32
  if code == 1
      then elim w [
        | none ↦ (λ r. panic)
        | some x ↦ (do s ← read_session; pure (some (record { to_agent = some s })))
      ]
      else fail unknown_port_mapping_found_id

pub record AgentPortMapping : Type 0 where
  pub range : PortRange
  pub found : Option AgentPortMappingFound

unfoldable pub write_mapping : AgentPortMapping → Written
write_mapping w = do write_port_range w.range; write_found w.found

unfoldable pub read_mapping : AgentPortMapping → Get AgentPortMapping
read_mapping w = do
  range ← read_port_range w.range
  found ← read_found w.found
  pure (record { range = range; found = found })

pub record UdpChannelDetails : Type 0 where
  pub tunnel_addr : AddrPort
  pub token : List ℕ

unfoldable pub write_details : UdpChannelDetails → Written
write_details w = do write_address w.tunnel_addr; write_u64 (length w.token); write_data w.token

unfoldable pub read_details : Get UdpChannelDetails
read_details = do
  tunnel_addr ← read_address
  size ← read_u64
  token ← read_token size
  pure (record { tunnel_addr = tunnel_addr; token = token })

pub record ControlResponse : Type 0 where
  pub invalid_signature : Bool
  pub unauthorized : Bool
  pub request_queued : Bool
  pub try_again_later : Bool
  pub pong : Option Pong
  pub agent_registered : Option AgentRegistered
  pub agent_port_mapping : Option AgentPortMapping
  pub udp_channel_details : Option UdpChannelDetails

abbrev pub empty_response : ControlResponse
empty_response = record {
  invalid_signature = false;
  unauthorized = false;
  request_queued = false;
  try_again_later = false;
  pong = none;
  agent_registered = none;
  agent_port_mapping = none;
  udp_channel_details = none;
}

abbrev pub empty_mapping : AgentPortMapping
empty_mapping = record { range = no_port_range; found = none }

-- The last three cases of the `else if` chain.
write_response_body : ControlResponse → Written
write_response_body w = elim w.agent_registered [
  | some x ↦ (do write_u32 6; write_registered x)
  | none ↦ elim w.agent_port_mapping [
    | some x ↦ (do write_u32 7; write_mapping x)
    | none ↦ elim w.udp_channel_details [
      | some x ↦ (do write_u32 8; write_details x)
      | none ↦ write_failed set_one_option
    ]
  ]
]

unfoldable pub write_response : ControlResponse → Written
unfolding write_response_body
write_response w = elim w.pong [
  | some x ↦ (do write_u32 1; write_pong x)
  | none ↦
      if w.invalid_signature
      then write_u32 2
      else if w.unauthorized
      then write_u32 3
      else if w.request_queued
      then write_u32 4
      else if w.try_again_later
      then write_u32 5
      else write_response_body w
]

unfoldable pub read_response : ControlResponse → Get ControlResponse
read_response w = do
  id ← read_u32
  if id == 1
      then (do x ← read_pong; pure (record w { pong = some x }))
      else if id == 2
      then pure (record w { invalid_signature = true })
      else if id == 3
      then pure (record w { unauthorized = true })
      else if id == 4
      then pure (record w { request_queued = true })
      else if id == 5
      then pure (record w { try_again_later = true })
      else if id == 6
      then (do x ← read_registered; pure (record w { agent_registered = some x }))
      else if id == 7
      then (do x ← read_mapping empty_mapping; pure (record w { agent_port_mapping = some x }))
      else if id == 8
      then (do x ← read_details; pure (record w { udp_channel_details = some x }))
      else fail invalid_control_response_id

instance abbrev pub response_encoding : MessageEncoding ControlResponse
response_encoding = record { write_to = write_response; read_from = read_response }
