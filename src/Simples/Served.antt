-- ===== src/Simples/Served.antt =====
-- What the API has answered to a tunnel that is set up.
use go_playit.Base.{
  if◌then◌else◌, ℕ, List, [], ◌++◌, Option, none, some, Result, ok, err, bind, bind_ok, arith, ◌≡◌,
  ◌<◌, get_elem?, leb,
}
use mathlib.Core.List.{map}
use Prim.Native.String.{String}
use go_playit.Json.{Json, Decoder, codes}
use go_playit.Api.{
  read_res_body, recode_json, status_error, Api, HttpRequest, Reply, Server, Formats, api_request,
  request_to_api, read_reply,
}
use go_playit.Api.Agent.{
  AgentRouting, agent_routings, proto_register_register, routing_body, register_body,
}
use go_playit.Response.{Pong}
use go_playit.Register.{decode_string, authenticate}
use go_playit.Register.Accepted.{authenticate-Accepts, Accepts}
use go_playit.Setup.{setup}
use go_playit.Control.{AuthenticatedControl, ConnectedControl}
use go_playit.Setup.Pinging.{setup-Answered}
use go_playit.Simples.{
  AddrPort, UdpTunnel, assign_udp_tunnel, SimplesTunnel, World, setup_tunnel, control_addresses,
  control_port,
}
use go_playit.Simples.Online.{online, api_routing, api_register}

-- The server answers a request with a status below 300.
abbrev pub IsGranted : Server → HttpRequest → Type 0
IsGranted server request = (res : Reply) × (server request ≡ ok res) × (res.status < 300)

-- requestToApi gives a result only for an answer with such a status.
pub request_to_api-IsGranted :
    {A : Type 0} (w : Api) (server : Server) (path : String) (body : Option Json) (read : Decoder A)
    (a : A)
    → request_to_api w server path body [] read ≡ ok a
    → IsGranted server (api_request w path body [])
unfolding request_to_api read_reply
request_to_api-IsGranted {A = A} w server path body read a h =
    let (res, answered, rest) =
      bind_ok (server (api_request w path body [])) (λ res. read_reply res read) h in
    let judge : String × Json → Result A =
      λ b. if leb 300 res.status then err (status_error b.1) else recode_json b.1 read in
    let (v, decoded, rest') = bind_ok res.body (λ v. bind (read_res_body v) judge) rest in
    let (inner, parsed, last) = bind_ok (read_res_body v) judge rest' in
    (res, answered, ground (arith, last))

-- What Setup has found where it succeeds.
pub record Found (world : World) (tun : SimplesTunnel) : Type 0 where
  pub targets : List AddrPort
  pub connected : ConnectedControl
  pub routed : control_addresses world.routing ≡ ok targets
  pub answered : setup world.network targets ≡ ok connected
  pub registered : authenticate world.register world.replies connected ≡ ok tun.control_channel
  pub same_addr : tun.control_addr ≡ connected.control_addr

-- The tunnel that Setup makes of its parts.
abbrev set_up : UdpTunnel → ConnectedControl → AuthenticatedControl → SimplesTunnel
set_up udp found channel = record {
  control_addr = found.control_addr;
  control_channel = channel;
  udp_tunnel = udp;
  last_keep_alive = 0;
  last_ping = 0;
  last_pong = 0;
  last_udp_auth = 0;
  last_control_targets = [];
}

setup_tunnel-Found :
    (world : World) (tun : SimplesTunnel) → setup_tunnel world ≡ ok tun → Found world tun
unfolding setup_tunnel
setup_tunnel-Found world tun h =
    let finish : UdpTunnel → ConnectedControl → Result SimplesTunnel = λ udp found.
      bind (authenticate world.register world.replies found)
        λ channel. ok (set_up udp found channel) in
    let search = bind (control_addresses world.routing) (setup world.network) in
    let (udp, assigned, rest) =
      bind_ok (assign_udp_tunnel world.udp4 world.udp6) (λ udp. bind search (finish udp)) h in
    let (found, searched, rest') = bind_ok search (finish udp) rest in
    let (channel, joined, done) =
      bind_ok (authenticate world.register world.replies found)
        (λ channel. ok (set_up udp found channel)) rest' in
    let (targets, routed, answered) =
      bind_ok (control_addresses world.routing) (setup world.network) searched in
    let same : channel ≡ tun.control_channel = ground (arith, done) in
    record {
      targets = targets;
      connected = found;
      routed = routed;
      answered = answered;
      registered = rw same at joined;
      same_addr = ground (arith, done);
    }

module _ (formats : Formats) (w : Api) (routing register : Server) where
  pub record IsServed (tun : SimplesTunnel) : Type 0 where
    pub listed : AgentRouting
    pub got_routing : agent_routings formats w routing none ≡ ok listed
    pub routing_granted :
        IsGranted routing
          (api_request w "/agents/routing/get" (some (routing_body formats none)) [])
    pub place : ℕ
    pub at_place :
        get_elem?
          (map (λ v. record { addr = v; port = control_port }) (listed.targets6 ++ listed.targets4))
          place
        ≡ some tun.control_addr
    pub pong : Pong
    pub its_pong : tun.control_channel.last_pong ≡ pong
    pub key : String
    pub got_key :
        proto_register_register formats w register pong.client_addr pong.tunnel_addr ≡ ok key
    pub key_granted : IsGranted register (
        api_request w "/proto/register"
          (some (register_body formats pong.client_addr pong.tunnel_addr))
          [])
    pub signature : List ℕ
    pub is_hex : decode_string (codes key) ≡ ok signature

  pub Found-IsServed :
      (world : World) (tun : SimplesTunnel)
      → Found (online formats w routing register world) tun
      → IsServed tun
  unfolding online control_addresses api_register api_routing agent_routings proto_register_register
  Found-IsServed world tun f =
      let to_ports : AgentRouting → Result (List AddrPort) =
        λ r. ok (map (λ v. record { addr = v; port = control_port }) (r.targets6 ++ r.targets4)) in
      let (listed, got, at_port) = bind_ok (api_routing formats w routing) to_ports f.routed in
      let (i, addr, here, answered) =
        setup-Answered world.network f.targets f.connected f.answered in
      let accepted : Accepts (api_register formats w register) world.replies f.connected
          tun.control_channel =
        authenticate-Accepts _ _ _ _ f.registered in
      let pong = accepted.pong in
      let (chars, given, decoded) =
        bind_ok (api_register formats w register pong.client_addr pong.tunnel_addr) decode_string
          accepted.registered in
      let as_codes : String → Result (List ℕ) = λ key. ok (codes key) in
      let (key, got_key, same) =
        bind_ok (proto_register_register formats w register pong.client_addr pong.tunnel_addr)
          as_codes given in
      let (conn, round, try, bound, few_rounds, few_tries, sent, from) = answered in
      let (payload, pinged, received, holds, is_channel) = from in
      let (reply, received', (reg, its_registration, is_registered)) = accepted.replied in
      let its_addr : tun.control_addr ≡ addr = ground (arith, f.same_addr, is_channel) in
      let its_targets : f.targets
          ≡ map (λ v. record { addr = v; port = control_port })
              (listed.targets6 ++ listed.targets4) =
        ground (arith, at_port) in
      let its_chars : chars ≡ codes key = ground (arith, same) in
      record {
        listed = listed;
        got_routing = got;
        routing_granted = request_to_api-IsGranted w routing _ _ _ listed got;
        place = i;
        at_place = rw (← its_targets, its_addr) here;
        pong = pong;
        its_pong = ground (arith, is_registered);
        key = key;
        got_key = got_key;
        key_granted = request_to_api-IsGranted w register _ _ _ key got_key;
        signature = accepted.key;
        is_hex = rw its_chars at decoded;
      }

  -- A tunnel over the API is set up only if the server granted the request for the routing and that for
  -- the key: the control address is one that the routing lists, with the control port, and the key is
  -- a hexadecimal text that the API gave for the addresses in the pong.
  pub setup_tunnel-IsServed :
      (world : World) (tun : SimplesTunnel)
      → setup_tunnel (online formats w routing register world) ≡ ok tun
      → IsServed tun
  setup_tunnel-IsServed world tun h =
      Found-IsServed world tun (setup_tunnel-Found (online formats w routing register world) tun h)
