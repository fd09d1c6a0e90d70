-- ===== src/Simples/Online.antt =====
-- The tunnel over the HTTP API: AgentRoutings under ControlAddresses of tunnel/simples_tunnel.go, and
-- ProtoRegisterRegister under Authenticate of tunnel/setup.go.
use go_playit.Base.{none, ok, bind, Result, List, ℕ}
use go_playit.Netip.{AddrPort}
use go_playit.Json.{codes}
use go_playit.Api.{Api, Server, Formats}
use go_playit.Api.Agent.{AgentRouting, agent_routings, proto_register_register}
use go_playit.Simples.{World}

module _ (formats : Formats) (w : Api) where
  unfoldable pub api_routing : Server → Result AgentRouting
  api_routing server = agent_routings formats w server none

  -- The key, as the characters that hex.DecodeString reads.
  unfoldable pub api_register : Server → AddrPort → AddrPort → Result (List ℕ)
  api_register server client tunnel =
      bind (proto_register_register formats w server client tunnel) λ key. ok (codes key)

  -- The world in which the API is asked, first for the routing and then for the key.
  unfoldable pub online : Server → Server → World → World
  unfolding api_routing api_register
  online routing register world = record world {
    routing = api_routing routing;
    register = api_register register;
  }
