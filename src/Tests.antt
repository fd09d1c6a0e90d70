-- ===== src/Tests.antt =====
-- Concrete values on which the theorems about the code in tunnel/ are applied.
mod Wire
mod Udp
mod Control
mod Setup
mod Simples
mod Lan
mod Api
mod Online
mod Locking
use go_playit.Base.{
  if◌then◌else◌, ◌==◌, ◌||◌, ◌&&◌, ◌++◌, ◌∙◌, ◌↔◌, ◌⊎◌, ◌≢◌, ◌≡◌, ◌<◌, ◌≤◌, ◌^◌, ◌%◌, ◌/◌, ◌*◌, ◌-◌,
  ◌+◌, inr, inl, ◌∷◌, [], panic, err, ok, false, true, suc, zero, refl, ℕ, List, none, some,
}
use go_playit.Netip.{AddrPort, v4, v6}
use go_playit.Types.{AgentSessionId}
use go_playit.Response.{Pong, AgentRegistered, UdpChannelDetails}
use go_playit.Feed.{ClaimInstructions, NewClient}
use go_playit.UdpFlow.{UdpFlowBase, UdpFlow6}
use go_playit.Control.{ConnectedControl, AuthenticatedControl}

abbrev pub server : AddrPort
server = record { addr = v4 (10 ∷ 0 ∷ 0 ∷ 1 ∷ []); port = 5525 }

abbrev pub other_server : AddrPort
other_server = record { addr = v4 (10 ∷ 0 ∷ 0 ∷ 2 ∷ []); port = 5525 }

abbrev pub client_addr : AddrPort
client_addr = record { addr = v4 (192 ∷ 168 ∷ 1 ∷ 7 ∷ []); port = 40000 }

abbrev pub long_addr : AddrPort
long_addr = record {
  addr = v6 (32 ∷ 1 ∷ 13 ∷ 184 ∷ 0 ∷ 0 ∷ 0 ∷ 0 ∷ 0 ∷ 0 ∷ 0 ∷ 0 ∷ 0 ∷ 0 ∷ 0 ∷ 9 ∷ []) [];
  port = 443;
}

abbrev pub session : AgentSessionId
session = record { session_id = 7; account_id = 8; agent_id = 9 }

abbrev pub a_pong : Pong
a_pong = record {
  request_now = 1000;
  server_now = 1001;
  server_id = 5;
  data_center_id = 6;
  client_addr = client_addr;
  tunnel_addr = server;
  session_expire_at = some 60000;
}

abbrev pub registration : AgentRegistered
registration = record { id = session; expires_at = 90000 }

abbrev pub details : UdpChannelDetails
details = record { tunnel_addr = server; token = 1 ∷ 2 ∷ 3 ∷ [] }

abbrev pub moved_details : UdpChannelDetails
moved_details = record { tunnel_addr = other_server; token = 1 ∷ 2 ∷ 3 ∷ [] }

abbrev pub claim : ClaimInstructions
claim = record { address = server; token = 4 ∷ 5 ∷ [] }

abbrev pub client : NewClient
client = record {
  connect_addr = server;
  peer_addr = long_addr;
  claim_instructions = claim;
  tunnel_server_id = 3;
  data_center_id = 2;
}

abbrev pub flow4 : UdpFlowBase
flow4 = record { src = client_addr; dst = server }

abbrev pub flow6 : UdpFlow6
flow6 = record { base = record { src = long_addr; dst = long_addr }; flow = 5 }

abbrev pub connected : ConnectedControl
connected = record { control_addr = server; udp = 3; pong = some a_pong }

abbrev pub control : AuthenticatedControl
control = record {
  conn = connected;
  current_ping = none;
  last_pong = a_pong;
  force_expired = false;
  registered = registration;
  buff = [];
}
