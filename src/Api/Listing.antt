-- ===== src/Api/Listing.antt =====
-- The JSON of api/tunnels.go, and its requests that list and delete tunnels.
use go_playit.Base.{
  length, ◌==◌, ◌||◌, if◌then◌else◌, err, api_failed, bind, ℕ, List, [], ◌∷◌, Option, none, some,
  Result, ok,
}
use go_playit.Json.{
  Json, str, num, bool, Decoder, write_format, read_format, object, omit_empty, nonempty_text,
  ◌>>=◌, pure, read_members, read_field, read_text, read_bool, read_num, read_array, read_pointer,
  read_any,
}
use go_playit.Api.Tunnels.{
  OriginAgent, TunnelOriginCreate, AllocData, TunnelCreateUseAllocation, Tunnel, Domain, Ratelimit,
  ExpireNotice, AccountTunnel, AlloctedPorts, AccountTunnels, assigned_default, assigned_agent,
  assigned_managed, other_agent, dedicated_ip, port_alloc, use_region, other_data,
}
use go_playit.Api.{Api, Server, Formats, request_to_api, ignore_data}

unfoldable pub read_origin : Decoder TunnelOriginCreate
read_origin v = do
  ps ← read_members v
  kind ← read_field read_text "type" ps
  agent ← read_field read_any "data" ps
  pure (record { kind = kind; agent = other_agent (ok agent) })

unfoldable pub read_alloc : Decoder TunnelCreateUseAllocation
read_alloc v = do
  ps ← read_members v
  status ← read_field read_text "status" ps
  kind ← read_field read_text "type" ps
  details ← read_field read_any "details" ps
  pure (record { status = status; kind = kind; details = other_data details })

unfoldable pub read_ratelimit : Decoder Ratelimit
read_ratelimit v = do
  ps ← read_members v
  bytes_secs ← read_field (read_num 64) "bytes_per_second" ps
  packets_secs ← read_field (read_num 64) "packets_per_second" ps
  pure (record { bytes_secs = bytes_secs; packets_secs = packets_secs })

unfoldable pub read_allocted_ports : Decoder AlloctedPorts
read_allocted_ports v = do
  ps ← read_members v
  allowed ← read_field (read_num 16) "allowed" ps
  claimed ← read_field (read_num 16) "claimed" ps
  desired ← read_field (read_num 16) "desired" ps
  pure (record { allowed = allowed; claimed = claimed; desired = desired })

module _ (formats : Formats) where
  -- MarshalText of a net.IP fails where it has bytes, but not 4 or 16 of them.
  unfoldable pub write_ip : List ℕ → Result Json
  write_ip ip =
      if length ip == 0
      then ok (str "")
      else if length ip == 4 || length ip == 16
      then ok (write_format formats.ip ip)
      else err api_failed

  unfoldable pub write_agent : OriginAgent → Result Json
  unfolding write_ip
  write_agent (assigned_default a) =
      bind (write_ip a.ip)
        λ ip. ok (object (("local_ip", ip) ∷ omit_empty num "local_port" a.port []))
  write_agent (assigned_agent a) = bind (write_ip a.ip) λ ip. ok (
      object (
        ("agent_id", write_format formats.uuid a.id)
        ∷ (("local_ip", ip) ∷ omit_empty num "local_port" a.port [])))
  write_agent (assigned_managed a) =
      ok (object (omit_empty (write_format formats.uuid) "agent_id" a.id []))
  write_agent (other_agent v) = v

  unfoldable pub write_origin : TunnelOriginCreate → Result Json
  unfolding write_agent
  write_origin origin =
      bind (write_agent origin.agent)
        λ agent. ok (object (("type", str origin.kind) ∷ (("data", agent) ∷ [])))

  unfoldable pub write_alloc_data : AllocData → Json
  write_alloc_data (dedicated_ip d) =
      object (("ip_hostname", str d.ip_host) ∷ omit_empty num "port" d.port [])
  write_alloc_data (port_alloc d) = object (("alloc_id", write_format formats.uuid d.id) ∷ [])
  write_alloc_data (use_region d) = object (("region", str d.region) ∷ [])
  write_alloc_data (other_data v) = v

  unfoldable pub write_alloc : TunnelCreateUseAllocation → Json
  unfolding write_alloc_data
  write_alloc alloc = object (
      ("status", str alloc.status)
      ∷ (("type", str alloc.kind) ∷ (("details", write_alloc_data alloc.details) ∷ [])))

  -- json.MarshalIndent of the tunnel that CreateTunnel is given.
  unfoldable pub tunnel_body : Tunnel → Result Json
  unfolding write_origin write_alloc
  tunnel_body tun = bind (write_origin tun.origin) λ origin. ok (
      object (
        omit_empty (write_format formats.uuid) "tunnel_id" tun.id (
          omit_empty str "name" (nonempty_text tun.name) (
            omit_empty str "tunnel_type" (nonempty_text tun.tunnel_type) (
              ("port_type", str tun.port_type)
              ∷ (("port_count", num tun.port_count)
                  ∷ (("origin", origin)
                      ∷ (("enabled", bool tun.enabled)
                          ∷ omit_empty write_alloc "alloc" tun.alloc (
                              omit_empty (write_format formats.uuid) "firewall_id" tun.firewall
                                [])))))))))

  unfoldable pub delete_body : List ℕ → Json
  delete_body tunnel_id = object (("tunnel_id", write_format formats.uuid tunnel_id) ∷ [])

  unfoldable pub delete_tunnel : Api → Server → Option (List ℕ) → Result (Unit {0})
  delete_tunnel w server none = ok tt
  delete_tunnel w server (some tunnel_id) =
      request_to_api w server "/tunnels/delete" (some (delete_body tunnel_id)) [] ignore_data

  unfoldable pub read_domain : Decoder Domain
  read_domain v = do
    ps ← read_members v
    id ← read_field (read_format formats.uuid) "id" ps
    name ← read_field read_text "name" ps
    is_external ← read_field read_bool "is_external" ps
    parent ← read_field read_text "parent" ps
    source ← read_field read_text "source" ps
    pure (record {
      id = id;
      name = name;
      is_external = is_external;
      parent = parent;
      source = source;
    })

  unfoldable pub read_expire_notice : Decoder ExpireNotice
  read_expire_notice v = do
    ps ← read_members v
    disable ← read_field (read_format formats.time) "disable_at" ps
    remove ← read_field (read_format formats.time) "remove_at" ps
    pure (record { disable = disable; remove = remove })

  unfoldable pub read_account_tunnel : Decoder AccountTunnel
  unfolding read_origin read_alloc read_ratelimit
  read_account_tunnel v = do
    ps ← read_members v
    id ← read_field (read_format formats.uuid) "id" ps
    tunnel_type ← read_field read_text "tunnel_type" ps
    created_at ← read_field (read_format formats.time) "created_at" ps
    name ← read_field read_text "name" ps
    port_type ← read_field read_text "port_type" ps
    port_count ← read_field (read_num 31) "port_count" ps
    alloc ← read_field read_alloc "alloc" ps
    origin ← read_field read_origin "origin" ps
    domain ← read_field (read_pointer read_domain) "domain" ps
    firewall_id ← read_field read_text "firewall_id" ps
    ratelimit ← read_field read_ratelimit "ratelimit" ps
    active ← read_field read_bool "active" ps
    disabled_reason ← read_field read_text "disabled_reason" ps
    region ← read_field read_text "region" ps
    expire_notice ← read_field (read_pointer read_expire_notice) "expire_notice" ps
    pure (record {
      id = id;
      tunnel_type = tunnel_type;
      created_at = created_at;
      name = name;
      port_type = port_type;
      port_count = port_count;
      alloc = alloc;
      origin = origin;
      domain = domain;
      firewall_id = firewall_id;
      ratelimit = ratelimit;
      active = active;
      disabled_reason = disabled_reason;
      region = region;
      expire_notice = expire_notice;
    })

  unfoldable pub read_account_tunnels : Decoder AccountTunnels
  unfolding read_allocted_ports
  read_account_tunnels v = do
    ps ← read_members v
    tcp ← read_field read_allocted_ports "tcp_alloc" ps
    udp ← read_field read_allocted_ports "udp_alloc" ps
    tunnels ← read_field (read_array read_account_tunnel) "tunnels" ps
    pure (record { tcp = tcp; udp = udp; tunnels = tunnels })

  unfoldable pub list_body : Option (List ℕ) → Option (List ℕ) → Json
  list_body tunnel_id agent_id = object (
      omit_empty (write_format formats.uuid) "tunnel_id" tunnel_id
        (omit_empty (write_format formats.uuid) "agent_id" agent_id []))

  unfoldable pub list_tunnels :
      Api → Server → Option (List ℕ) → Option (List ℕ) → Result AccountTunnels
  unfolding list_body read_account_tunnels
  list_tunnels w server tunnel_id agent_id =
      request_to_api w server "/tunnels/list" (some (list_body tunnel_id agent_id)) []
        read_account_tunnels

  -- The struct with the identifier of the tunnel that was created.
  unfoldable pub read_tunnel_id : Decoder (List ℕ)
  read_tunnel_id v = do
    ps ← read_members v
    id ← read_field (read_format formats.uuid) "id" ps
    pure id
