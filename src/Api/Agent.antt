-- ===== src/Api/Agent.antt =====
-- api/others.go: what the API says of the agent, and the registration of its session.
use Prim.Native.String.{String}
use go_playit.Base.{ℕ, Bool, false, List, [], ◌∷◌, Option, none, some, Result}
use go_playit.Netip.{Addr, AddrPort}
use go_playit.Json.{
  Json, str, bool, Decoder, write_format, read_format, object, omit_empty, nonempty_text, ◌>>=◌,
  pure, read_members, read_field, read_text, read_bool, read_num, read_array, read_pointer,
  read_any,
}
use go_playit.Api.{Api, Server, Formats, go_playit_version, request_to_api}

pub record PortRange : Type 0 where
  pub from : ℕ
  pub to : ℕ

pub record AgentTunnel : Type 0 where
  pub id : List ℕ
  pub name : String
  pub ip_num : ℕ
  pub region_num : ℕ
  pub port : PortRange
  pub proto : String
  pub local_ip : List ℕ
  pub local_port : ℕ
  pub tunnel_type : String
  pub assigned_domain : String
  pub custom_domain : String
  pub disabled : Option Json

pub record AgentPendingTunnel : Type 0 where
  pub id : List ℕ
  pub name : String
  pub port_type : String
  pub port_count : ℕ
  pub tunnel_type : String
  pub disabled : Bool

pub record AgentRunData : Type 0 where
  pub id : List ℕ
  pub kind : String
  pub account_status : String
  pub tunnels : List AgentTunnel
  pub tunnels_pending : List AgentPendingTunnel

pub record AgentRouting : Type 0 where
  pub agent : List ℕ
  pub targets4 : List Addr
  pub targets6 : List Addr

pub record AgentVersion : Type 0 where
  pub platform : String
  pub version : String

pub record PlayitAgentVersion : Type 0 where
  pub official : Bool
  pub details_website : String
  pub version : AgentVersion

unfoldable pub read_tunnel_ports : Decoder PortRange
read_tunnel_ports v = do
  ps ← read_members v
  from ← read_field (read_num 16) "from" ps
  to ← read_field (read_num 16) "to" ps
  pure (record { from = from; to = to })

module _ (formats : Formats) where
  unfoldable pub read_agent_tunnel : Decoder AgentTunnel
  read_agent_tunnel v = do
    ps ← read_members v
    id ← read_field (read_format formats.uuid) "id" ps
    name ← read_field read_text "name" ps
    ip_num ← read_field (read_num 16) "ip_num" ps
    region_num ← read_field (read_num 16) "region_num" ps
    port ← read_field read_tunnel_ports "port" ps
    proto ← read_field read_text "proto" ps
    local_ip ← read_field (read_format formats.ip) "local_ip" ps
    local_port ← read_field (read_num 16) "local_port" ps
    tunnel_type ← read_field read_text "tunnel_type" ps
    assigned_domain ← read_field read_text "assigned_domain" ps
    custom_domain ← read_field read_text "custom_domain" ps
    disabled ← read_field (read_pointer read_any) "disabled" ps
    pure (record {
      id = id;
      name = name;
      ip_num = ip_num;
      region_num = region_num;
      port = port;
      proto = proto;
      local_ip = local_ip;
      local_port = local_port;
      tunnel_type = tunnel_type;
      assigned_domain = assigned_domain;
      custom_domain = custom_domain;
      disabled = disabled;
    })

  unfoldable pub read_agent_pending_tunnel : Decoder AgentPendingTunnel
  read_agent_pending_tunnel v = do
    ps ← read_members v
    id ← read_field (read_format formats.uuid) "id" ps
    name ← read_field read_text "name" ps
    port_type ← read_field read_text "proto" ps
    port_count ← read_field (read_num 16) "port_count" ps
    tunnel_type ← read_field read_text "tunnel_type" ps
    disabled ← read_field read_bool "is_disabled" ps
    pure (record {
      id = id;
      name = name;
      port_type = port_type;
      port_count = port_count;
      tunnel_type = tunnel_type;
      disabled = disabled;
    })

  unfoldable pub read_agent_run_data : Decoder AgentRunData
  read_agent_run_data v = do
    ps ← read_members v
    id ← read_field (read_format formats.uuid) "agent_id" ps
    kind ← read_field read_text "agent_type" ps
    account_status ← read_field read_text "account_status" ps
    tunnels ← read_field (read_array read_agent_tunnel) "tunnels" ps
    tunnels_pending ← read_field (read_array read_agent_pending_tunnel) "pending" ps
    pure (record {
      id = id;
      kind = kind;
      account_status = account_status;
      tunnels = tunnels;
      tunnels_pending = tunnels_pending;
    })

  unfoldable pub agent_info : Api → Server → Result AgentRunData
  agent_info w server = request_to_api w server "/agents/rundata" none [] read_agent_run_data

  unfoldable pub read_agent_routing : Decoder AgentRouting
  read_agent_routing v = do
    ps ← read_members v
    agent ← read_field (read_format formats.uuid) "agent_id" ps
    targets4 ← read_field (read_array (read_format formats.addr)) "targets4" ps
    targets6 ← read_field (read_array (read_format formats.addr)) "targets6" ps
    pure (record { agent = agent; targets4 = targets4; targets6 = targets6 })

  unfoldable pub routing_body : Option (List ℕ) → Json
  routing_body agent_id = object (omit_empty (write_format formats.uuid) "agent_id" agent_id [])

  unfoldable pub agent_routings : Api → Server → Option (List ℕ) → Result AgentRouting
  agent_routings w server agent_id =
      request_to_api w server "/agents/routing/get" (some (routing_body agent_id)) []
        read_agent_routing

  unfoldable pub write_version : PlayitAgentVersion → Json
  write_version v = object (
      ("official", bool v.official)
      ∷ (("details_website", str v.details_website)
          ∷ ((
            "version",
            object (
                omit_empty str "platform" (nonempty_text v.version.platform)
                  (("version", str v.version.version) ∷ [])),
          )
              ∷ [])))

  -- The version that the client gives of itself.
  abbrev pub own_version : PlayitAgentVersion
  own_version = record {
    official = false;
    details_website = "https://sirherobrine23.org/playit-cloud/go-playit";
    version = record { version = go_playit_version; platform = "unknown" };
  }

  unfoldable pub register_body : AddrPort → AddrPort → Json
  unfolding write_version
  register_body client tunnel = object (
      ("client_addr", write_format formats.addr_port client)
      ∷ (("tunnel_addr", write_format formats.addr_port tunnel)
          ∷ (("agent_version", write_version own_version) ∷ [])))

  unfoldable pub read_key : Decoder String
  read_key v = do ps ← read_members v; key ← read_field read_text "key" ps; pure key

  unfoldable pub proto_register_register : Api → Server → AddrPort → AddrPort → Result String
  proto_register_register w server client tunnel =
      request_to_api w server "/proto/register" (some (register_body client tunnel)) [] read_key
