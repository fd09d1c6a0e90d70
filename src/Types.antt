-- ===== src/Types.antt =====
-- tunnel/lib.go: PortProto, AgentSessionId and PortRange on the wire.
pub mod Session
use Prim.Native.String.{String}
use text.Mathlib.Text.{◌==◌ as str_eq}
use go_playit.Base.{ℕ, List, if◌then◌else◌, ◌==◌, set_valid_proto, invalid_proto}
use go_playit.Wire.{Written, ◌>>◌, write_failed, write_u8, write_u16, write_u64, write_data}
use go_playit.Wire.{Get, pure, fail, ◌>>=◌, read_u8, read_u64}

pub record PortProto : Type 0 where
  pub value : String

unfoldable pub write_port_proto : PortProto → Written
write_port_proto w =
    if str_eq w.value "tcp"
    then write_u8 1
    else if str_eq w.value "udp"
    then write_u8 2
    else if str_eq w.value "both"
    then write_u8 3
    else write_failed set_valid_proto

unfoldable pub read_port_proto : Get PortProto
read_port_proto = do
  code ← read_u8
  if code == 1
      then pure (record { value = "tcp" })
      else if code == 2
      then pure (record { value = "udp" })
      else if code == 3
      then pure (record { value = "both" })
      else fail invalid_proto

pub record AgentSessionId : Type 0 where
  pub session_id : ℕ
  pub account_id : ℕ
  pub agent_id : ℕ

unfoldable pub write_session : AgentSessionId → Written
write_session w = do write_u64 w.session_id; write_u64 w.account_id; write_u64 w.agent_id

unfoldable pub read_session : Get AgentSessionId
read_session = do
  session_id ← read_u64
  account_id ← read_u64
  agent_id ← read_u64
  pure (record { session_id = session_id; account_id = account_id; agent_id = agent_id })

-- `ip` is the byte slice of a net.IP.
pub record PortRange : Type 0 where
  pub ip : List ℕ
  pub port_start : ℕ
  pub port_end : ℕ
  pub port_proto : PortProto

unfoldable pub write_port_range : PortRange → Written
unfolding write_port_proto
write_port_range w = do
  write_data w.ip
  write_u16 w.port_start
  write_u16 w.port_end
  write_port_proto w.port_proto

-- The body of PortRange.ReadFrom is empty: the receiver keeps its value and no byte is read.
unfoldable pub read_port_range : PortRange → Get PortRange
read_port_range w = pure w
