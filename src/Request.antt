-- ===== src/Request.antt =====
-- The requests of tunnel/control_message.go: Ping, AgentRegister, AgentCheckPortMapping and their
-- union ControlRequest. A time.Time is its UnixMilli stamp, as the uint64 that is written.
pub mod RoundTrip
pub mod Pings
use go_playit.Base.{ℕ, List, [], Option, none, some, if◌then◌else◌, ◌==◌}
use go_playit.Base.{set_control_request, invalid_control_request_id}
use go_playit.Wire.{Written, ◌>>◌, write_failed, write_u8, write_u32, write_u64, write_data}
use go_playit.Wire.{Get, pure, fail, ◌>>=◌, read_u32, read_u64, read_buff}
use go_playit.Netip.{AddrPort}
use go_playit.Address.{write_address, read_address}
use go_playit.Types.{AgentSessionId, write_session, read_session}
use go_playit.Types.{PortRange, write_port_range, read_port_range}
use go_playit.Rpc.{MessageEncoding}

pub record Ping : Type 0 where
  pub now : ℕ
  pub current_ping : Option ℕ
  pub session_id : Option AgentSessionId

write_session_pointer : Option AgentSessionId → Written
write_session_pointer none = write_u8 0
write_session_pointer (some s) = do write_u8 1; write_session s

write_ping_pointer : Option ℕ → Written
write_ping_pointer none = write_u8 0
write_ping_pointer (some v) = do write_u8 1; write_u32 v

unfoldable pub write_ping : Ping → Written
unfolding write_session_pointer write_ping_pointer
write_ping w = do
  write_u64 w.now
  write_ping_pointer w.current_ping
  write_session_pointer w.session_id

-- The presence bytes that WriteTo puts before both pointers are not read.
unfoldable pub read_ping : Get Ping
read_ping = do
  now ← read_u64
  current_ping ← read_u32
  session_id ← read_session
  pure (record { now = now; current_ping = some current_ping; session_id = some session_id })

pub record AgentRegister : Type 0 where
  pub account_id : ℕ
  pub agent_id : ℕ
  pub agent_version : ℕ
  pub timestamp : ℕ
  pub client_addr : AddrPort
  pub tunnel_addr : AddrPort
  pub signature : List ℕ

unfoldable pub write_plain : AgentRegister → Written
write_plain w = do
  write_u64 w.account_id
  write_u64 w.agent_id
  write_u64 w.agent_version
  write_u64 w.timestamp
  write_address w.client_addr
  write_address w.tunnel_addr

unfoldable pub write_register : AgentRegister → Written
write_register w = do
  write_u64 w.account_id
  write_u64 w.agent_id
  write_u64 w.agent_version
  write_u64 w.timestamp
  write_address w.client_addr
  write_address w.tunnel_addr
  write_data w.signature

unfoldable pub read_register : Get AgentRegister
read_register = do
  account_id ← read_u64
  agent_id ← read_u64
  agent_version ← read_u64
  timestamp ← read_u64
  client_addr ← read_address
  tunnel_addr ← read_address
  signature ← read_buff 32
  pure (record {
    account_id = account_id;
    agent_id = agent_id;
    agent_version = agent_version;
    timestamp = timestamp;
    client_addr = client_addr;
    tunnel_addr = tunnel_addr;
    signature = signature;
  })

pub record AgentCheckPortMapping : Type 0 where
  pub agent_session_id : AgentSessionId
  pub port_range : PortRange

unfoldable pub write_check : AgentCheckPortMapping → Written
write_check w = do write_session w.agent_session_id; write_port_range w.port_range

abbrev pub no_port_range : PortRange
no_port_range = record { ip = []; port_start = 0; port_end = 0; port_proto = record { value = "" } }

unfoldable pub read_check : Get AgentCheckPortMapping
read_check = do
  agent_session_id ← read_session
  port_range ← read_port_range no_port_range
  pure (record { agent_session_id = agent_session_id; port_range = port_range })

pub record ControlRequest : Type 0 where
  pub ping : Option Ping
  pub agent_register : Option AgentRegister
  pub agent_keep_alive : Option AgentSessionId
  pub setup_udp_channel : Option AgentSessionId
  pub agent_check_port_mapping : Option AgentCheckPortMapping

abbrev pub empty_request : ControlRequest
empty_request = record {
  ping = none;
  agent_register = none;
  agent_keep_alive = none;
  setup_udp_channel = none;
  agent_check_port_mapping = none;
}

-- The `else if` chain: the first pointer that is set is written, under its number.
unfoldable pub write_request : ControlRequest → Written
write_request w = elim w.ping [
  | some x ↦ (do write_u32 6; write_ping x)
  | none ↦ elim w.agent_register [
    | some x ↦ (do write_u32 2; write_register x)
    | none ↦ elim w.agent_keep_alive [
      | some x ↦ (do write_u32 3; write_session x)
      | none ↦ elim w.setup_udp_channel [
        | some x ↦ (do write_u32 4; write_session x)
        | none ↦ elim w.agent_check_port_mapping [
          | some x ↦ (do write_u32 5; write_check x)
          | none ↦ write_failed set_control_request
        ]
      ]
    ]
  ]
]

-- The number read picks the field of the receiver `w` that is set.
unfoldable pub read_request : ControlRequest → Get ControlRequest
read_request w = do
  id ← read_u32
  if id == 1
      then (do x ← read_ping; pure (record w { ping = some x }))
      else if id == 2
      then (do x ← read_register; pure (record w { agent_register = some x }))
      else if id == 3
      then (do x ← read_session; pure (record w { agent_keep_alive = some x }))
      else if id == 4
      then (do x ← read_session; pure (record w { setup_udp_channel = some x }))
      else if id == 5
      then (do x ← read_check; pure (record w { agent_check_port_mapping = some x }))
      else fail invalid_control_request_id

instance abbrev pub request_encoding : MessageEncoding ControlRequest
request_encoding = record { write_to = write_request; read_from = read_request }
