-- ===== src/Api/Create.antt =====
-- CreateTunnel of api/tunnels.go, with its checks and its waiting.
use Prim.Native.String.{String}
use text.Mathlib.Text.{◌==◌ as str_eq}
use go_playit.Base.{
  invalid_tunnel_type, invalid_allocation, origin_mismatch, bind, invalid_region, not, Bool,
  if◌then◌else◌, ◌&&◌, ◌+◌, ◌∷◌, [], panic, err, ok, false, true, some, none, suc, zero, ℕ, List,
  Result, Option,
}
use go_playit.Lookup.{contains}
use go_playit.Json.{◌>>=◌, pure}
use go_playit.Api.{Api, Server, Formats, request_to_api}
use go_playit.Constants.{regions, tunnel_types}
use go_playit.Api.Agent.{agent_info}
use go_playit.Api.Tunnels.{
  OriginAgent, TunnelOriginCreate, TunnelCreateUseAllocation, Tunnel, AccountTunnel, AccountTunnels,
  assigned_default, assigned_agent, assigned_managed, dedicated_ip, port_alloc, use_region,
  other_data,
}
use go_playit.Api.Listing.{tunnel_body, read_tunnel_id, list_tunnels}

-- `_, is := Origin.Agent.(T)`
unfoldable pub is_default : OriginAgent → Bool
is_default (assigned_default _) = true
is_default _ = false

unfoldable pub is_agent : OriginAgent → Bool
is_agent (assigned_agent _) = true
is_agent _ = false

unfoldable pub is_managed : OriginAgent → Bool
is_managed (assigned_managed _) = true
is_managed _ = false

unfoldable pub origin_check : TunnelOriginCreate → Result (Unit {0})
unfolding is_default is_agent is_managed
origin_check origin =
    if str_eq origin.kind "default" && not (is_default origin.agent)
    then err origin_mismatch
    else if str_eq origin.kind "agent" && not (is_agent origin.agent)
    then err origin_mismatch
    else if str_eq origin.kind "managed" && not (is_managed origin.agent)
    then err origin_mismatch
    else ok tt

-- Check also stores the kind of the allocation.
unfoldable pub alloc_check :
    TunnelCreateUseAllocation → TunnelCreateUseAllocation × Result (Unit {0})
alloc_check alloc = elim alloc.details [
  | dedicated_ip _ ↦ (record alloc { kind = "dedicated-ip" }, ok tt)
  | port_alloc _ ↦ (record alloc { kind = "port-allocation" }, ok tt)
  | use_region d ↦
      if contains regions d.region
      then (record alloc { kind = "region" }, ok tt)
      else (alloc, err invalid_region)
  | other_data _ ↦ (alloc, err invalid_allocation)
]

-- The three checks, in order, and the allocation that they leave; Check of a nil pointer panics.
unfoldable pub checks : Tunnel → Option TunnelCreateUseAllocation × Result (Unit {0})
checks tun = elim tun.alloc [
  | none ↦ (none, panic)
  | some alloc ↦
      let (alloc', checked) = alloc_check alloc in
      (
        some alloc',
        bind checked λ _. bind (origin_check tun.origin) λ _.
            if not (str_eq tun.tunnel_type "") && not (contains tunnel_types tun.tunnel_type)
            then err invalid_tunnel_type
            else ok tt,
      )
]

-- `tuns.Tunnels[0].Alloc.Status`
unfoldable pub first_status : List AccountTunnel → Option String
first_status [] = none
first_status (t ∷ ts) = some t.alloc.status

-- The loop that lists the new tunnel until it is not pending. It does not end by itself: `none` is for
-- fuel that was not enough.
unfoldable pub wait_allocated : (ℕ → Result AccountTunnels) → ℕ → ℕ → Option (Result (Unit {0}))
unfolding first_status
wait_allocated lists zero i = none
wait_allocated lists (suc fuel) i =
    let rest = wait_allocated lists fuel (i + 1) in
    elim (lists i) [
      | err e ↦ some (err e)
      | panic ↦ some panic
      | ok tuns ↦ elim (first_status tuns.tunnels) [
        | none ↦ some panic
        | some s ↦ if str_eq s "pending" then rest else some (ok tt)
      ]
    ]

-- The servers that the requests of CreateTunnel go to, in order.
pub record CreateServers : Type 0 where
  pub create : Server
  pub info : Server
  pub lists : ℕ → Server

module _ (formats : Formats) (w : Api) (servers : CreateServers) where
  -- The request for /tunnels/create: the identifier of the tunnel. A tunnel that does not marshal is not
  -- sent.
  unfoldable pub create_request : Tunnel → Result (List ℕ)
  create_request tun = bind (tunnel_body formats tun) λ body.
      request_to_api w servers.create "/tunnels/create" (some body) [] (read_tunnel_id formats)

  -- The identifiers of the tunnel and of the agent, by the first two requests.
  unfoldable pub created : Tunnel → Result (List ℕ × List ℕ)
  unfolding create_request
  created tun = do
    id ← create_request tun
    info ← agent_info formats w servers.info
    pure (id, info.id)

  unfoldable pub create_tunnel :
      ℕ → Tunnel → Option (Option TunnelCreateUseAllocation × Result (Unit {0}))
  unfolding created
  create_tunnel fuel tun =
      let (alloc, checked) = checks tun in
      elim (bind checked λ _. created (record tun { alloc = alloc })) [
        | err e ↦ some (alloc, err e)
        | panic ↦ some (alloc, panic)
        | ok ids ↦
            elim (wait_allocated
              (λ i. list_tunnels formats w (servers.lists i) (some ids.0) (some ids.1)) fuel 0) [
                | none ↦ none
                | some r ↦ some (alloc, r)
              ]
      ]
