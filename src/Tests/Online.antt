-- ===== src/Tests/Online.antt =====
-- The tunnel over the HTTP API on the values of Tests.
use go_playit.Setup.{setup}
use go_playit.Base.{false, true, [], ◌∷◌, ok, none, refl, arith, ◌≡◌, bytes_equal}
use go_playit.Json.{
  last_value, recode, put, write_format, str, object, codes, read_members, member, read_text,
  read_any, read_format, read_array, read_values,
}
use go_playit.Api.{Server, request_to_api, read_reply, read_res_body, recode_json}
use go_playit.Api.Agent.{
  AgentRouting, agent_routings, proto_register_register, read_key, read_agent_routing,
}
use go_playit.Tests.{connected, server, other_server}
use go_playit.Tests.Api.{formats, agent_api, answering}
use go_playit.Tests.Simples.{world, tunnel, channel}
use go_playit.Simples.{
  listed, World, setup_tunnel, control_addresses, control_port, SimplesTunnel, reload_control_addr,
  reload_to, update_control_addr, some_missing,
}
use go_playit.Simples.Moved.{reload-IsServed}
use go_playit.Netip.{same_addr_port, same_addr}
use go_playit.UdpTunnel.{invalidate_session, assign_udp_tunnel}
use go_playit.Simples.Online.{online, api_routing, api_register}
use go_playit.Simples.Served.{setup_tunnel-IsServed, IsServed}
use go_playit.Simples.Routed.{routing_answer, IsReadable, control_addresses-routing_answer}
use go_playit.Register.{authenticate, registered_control}
use go_playit.Tests.Setup.{found, registers}
use mathlib.Core.List.{map}

abbrev a_routing : AgentRouting
a_routing = record { agent = codes "agent"; targets4 = server.addr ∷ []; targets6 = [] }

abbrev routing_server : Server
routing_server = answering (routing_answer formats a_routing)

abbrev key_server : Server
key_server = answering (object (("key", str "0a") ∷ []))

is_readable : IsReadable formats a_routing
unfolding read_format write_format
is_readable = record { agent = refl; targets4 = (refl, tt); targets6 = tt }

control_addresses-routing_answer_example :
    control_addresses (agent_routings formats agent_api routing_server none)
    ≡ ok (map (λ v. record { addr = v; port = control_port }) (server.addr ∷ []))
control_addresses-routing_answer_example =
    control_addresses-routing_answer formats agent_api routing_server a_routing 200 is_readable
      (omega arith) refl

sets_up : setup_tunnel (online formats agent_api routing_server key_server world) ≡ ok tunnel
unfolding online api_routing api_register agent_routings proto_register_register read_key
    read_agent_routing request_to_api read_reply read_res_body read_members member last_value recode
    put read_text read_any recode_json read_format read_array read_values setup_tunnel
    control_addresses registered_control assign_udp_tunnel write_format authenticate
sets_up = rw (found, registers) refl

setup_tunnel-IsServed_example : IsServed formats agent_api routing_server key_server tunnel
setup_tunnel-IsServed_example =
    setup_tunnel-IsServed formats agent_api routing_server key_server world tunnel sets_up

-- The tunnel while it is with another server.
abbrev elsewhere : SimplesTunnel
elsewhere = record tunnel { control_addr = other_server }

abbrev back : SimplesTunnel
back = record elsewhere {
  control_channel = channel;
  control_addr = server;
  last_control_targets = server ∷ [];
}

abbrev online_world : World
online_world = online formats agent_api routing_server key_server world

routes : control_addresses online_world.routing ≡ ok (server ∷ [])
unfolding online api_routing agent_routings read_agent_routing request_to_api read_reply
    read_res_body read_members member last_value recode put read_text read_any recode_json
    read_format read_array read_values control_addresses write_format
routes = refl

grants : authenticate online_world.register online_world.replies connected ≡ ok channel
unfolding online api_register proto_register_register read_key request_to_api read_reply
    read_res_body read_members member last_value recode put read_text read_any recode_json
    read_format read_array read_values write_format authenticate registered_control
grants = rw registers refl

not_missing : some_missing elsewhere.last_control_targets (server ∷ []) ≡ false
unfolding some_missing listed same_addr_port same_addr bytes_equal
not_missing = refl

gets_back :
    update_control_addr online_world connected elsewhere
    ≡ (record back { last_control_targets = [] }, ok true)
unfolding update_control_addr same_addr_port same_addr bytes_equal invalidate_session
gets_back = rw grants refl

finds : setup online_world.network (server ∷ []) ≡ ok connected
unfolding online
finds = found

moves : reload_control_addr online_world elsewhere ≡ (back, ok true)
unfolding reload_control_addr reload_to
moves = ground (arith, routes, not_missing, finds, gets_back)

reload-IsServed_example : IsServed formats agent_api routing_server key_server back
reload-IsServed_example =
    reload-IsServed formats agent_api routing_server key_server world elsewhere back moves
