-- ===== src/Api/Created.antt =====
-- What CreateTunnel of api/tunnels.go makes sure of, and how long it waits.
use go_playit.Api.Waiting.{IsPending, IsAllocated, wait_allocated_ends, wait_allocated_past}
use Prim.Native.String.{String}
use text.Mathlib.TextEquality.{eq_iff}
use native.Mathlib.Nat.{zero-add}
use go_playit.Base.{
  Result-cases, Option-cases, Bool-cases, arith, ◌⊎◌, ◌≡◌, ◌<◌, inr, inl, ok, true, some, ℕ, List,
  Result, Option, refl,
}
use go_playit.Lookup.{contains}
use go_playit.Api.{Api, Formats}
use go_playit.Api.Tunnels.{
  OriginAgent, AllocData, TunnelOriginCreate, TunnelCreateUseAllocation, Tunnel, AccountTunnels,
  AssignedDefaultCreate, AssignedAgentCreate, AssignedManagedCreate, UseAllocDedicatedIp,
  UseAllocPortAlloc, UseRegion, assigned_default, assigned_agent, assigned_managed, other_agent,
  dedicated_ip, port_alloc, use_region, other_data,
}
use go_playit.Api.Listing.{list_tunnels}
use go_playit.Constants.{regions, tunnel_types}
use go_playit.Api.Create.{
  is_managed, is_agent, is_default, origin_check, alloc_check, checks, wait_allocated,
  CreateServers, created, create_tunnel,
}

-- The origin's kind, where it is a known one, is that of its data.
pub record IsOrigin (origin : TunnelOriginCreate) : Type 0 where
  pub default :
      origin.kind ≡ "default" → (a : AssignedDefaultCreate) × (origin.agent ≡ assigned_default a)
  pub agent : origin.kind ≡ "agent" → (a : AssignedAgentCreate) × (origin.agent ≡ assigned_agent a)
  pub managed :
      origin.kind ≡ "managed" → (a : AssignedManagedCreate) × (origin.agent ≡ assigned_managed a)

-- The data are of one of three types, and a region is a known one; the kind is the one that names it.
pub data IsAllocation : AllocData → String → Type 0 where
  on_dedicated_ip : (d : UseAllocDedicatedIp) → IsAllocation (dedicated_ip d) "dedicated-ip"
  on_port_alloc : (d : UseAllocPortAlloc) → IsAllocation (port_alloc d) "port-allocation"
  in_region :
      (d : UseRegion) → contains regions d.region ≡ true → IsAllocation (use_region d) "region"

origin_check-IsOrigin :
    (origin : TunnelOriginCreate) → origin_check origin ≡ ok tt → IsOrigin origin
unfolding origin_check
origin_check-IsOrigin origin h = record {
  default = λ e. by_default origin.agent (ground (arith, e, eq_iff origin.kind "default"));
  agent = λ e. by_agent origin.agent (ground (arith, e, eq_iff origin.kind "agent"));
  managed = λ e. by_managed origin.agent (ground (arith, e, eq_iff origin.kind "managed"));
}
  where
    by_default :
        (a : OriginAgent)
        → is_default a ≡ true
        → (x : AssignedDefaultCreate) × (a ≡ assigned_default x)
    by_default (assigned_default x) e = (x, refl)
    by_default (assigned_agent x) e = absurd (cc)
    by_default (assigned_managed x) e = absurd (cc)
    by_default (other_agent x) e = absurd (cc)

    by_agent :
        (a : OriginAgent) → is_agent a ≡ true → (x : AssignedAgentCreate) × (a ≡ assigned_agent x)
    by_agent (assigned_default x) e = absurd (cc)
    by_agent (assigned_agent x) e = (x, refl)
    by_agent (assigned_managed x) e = absurd (cc)
    by_agent (other_agent x) e = absurd (cc)

    by_managed :
        (a : OriginAgent)
        → is_managed a ≡ true
        → (x : AssignedManagedCreate) × (a ≡ assigned_managed x)
    by_managed (assigned_default x) e = absurd (cc)
    by_managed (assigned_agent x) e = absurd (cc)
    by_managed (assigned_managed x) e = (x, refl)
    by_managed (other_agent x) e = absurd (cc)

alloc_check-IsAllocation :
    (alloc : TunnelCreateUseAllocation)
    → (alloc_check alloc).1 ≡ ok tt
    → ((alloc_check alloc).0.details ≡ alloc.details)
      × IsAllocation alloc.details (alloc_check alloc).0.kind
unfolding alloc_check
alloc_check-IsAllocation alloc h = by_details alloc.details refl
  where
    by_details :
        (d : AllocData)
        → alloc.details ≡ d
        → ((alloc_check alloc).0.details ≡ alloc.details)
          × IsAllocation alloc.details (alloc_check alloc).0.kind
    by_details (dedicated_ip d) e = rw (alloc_check, e) (e, on_dedicated_ip d)
    by_details (port_alloc d) e = rw (alloc_check, e) (e, on_port_alloc d)
    by_details (other_data d) e = absurd (ground (arith, e))
    by_details (use_region d) e = elim (Bool-cases (contains regions d.region)) [
      | inl known ↦ rw (alloc_check, e, known) (e, in_region d known)
      | inr unknown ↦ absurd (ground (arith, e, unknown))
    ]

-- What the checks have found of a tunnel and of the allocation that is left.
pub record IsChecked (tun : Tunnel) (alloc' : Option TunnelCreateUseAllocation) : Type 0 where
  pub alloc : TunnelCreateUseAllocation
  pub checked : TunnelCreateUseAllocation
  pub has_alloc : tun.alloc ≡ some alloc
  pub left : alloc' ≡ some checked
  pub same_details : checked.details ≡ alloc.details
  pub allocation : IsAllocation alloc.details checked.kind
  pub origin : IsOrigin tun.origin
  pub known_type : (tun.tunnel_type ≡ "") ⊎ (contains tunnel_types tun.tunnel_type ≡ true)

checks-IsChecked : (tun : Tunnel) → (checks tun).1 ≡ ok tt → IsChecked tun (checks tun).0
unfolding checks
checks-IsChecked tun h = elim (Option-cases tun.alloc) [
  | inl e ↦ absurd (ground (arith, e))
  | inr (alloc, e) ↦
      let alloc_ok : (alloc_check alloc).1 ≡ ok tt = ground (arith, e) in
      let origin_ok : origin_check tun.origin ≡ ok tt = ground (arith, e, alloc_ok) in
      let (same, kind) = alloc_check-IsAllocation alloc alloc_ok in
      record {
        alloc = alloc;
        checked = (alloc_check alloc).0;
        has_alloc = e;
        left = ground (arith, e);
        same_details = same;
        allocation = kind;
        origin = origin_check-IsOrigin tun.origin origin_ok;
        known_type = ground (arith, e, alloc_ok, origin_ok, eq_iff tun.tunnel_type "");
      }
]

module _ (formats : Formats) (w : Api) (servers : CreateServers) where
  -- What the loop of CreateTunnel gets for the identifiers of the tunnel and of its agent.
  abbrev pub listed_tunnels : List ℕ × List ℕ → ℕ → Result AccountTunnels
  listed_tunnels ids i = list_tunnels formats w (servers.lists i) (some ids.0) (some ids.1)

  -- The tunnel is created under an identifier, and some list for it and the agent has it allocated.
  abbrev pub IsAllocatedAs : Tunnel → Type 0
  IsAllocatedAs tun =
      (ids : List ℕ × List ℕ) × (created formats w servers tun ≡ ok ids)
      × ((j : ℕ) × IsAllocated (listed_tunnels ids j))

  -- CreateTunnel succeeds only for a tunnel whose allocation is of a known type, in a known region and
  -- now of the kind that names it, whose origin is of its kind, and whose type is empty or a known one;
  -- and only once the server has given the tunnel with this allocation an identifier, and a list for
  -- this identifier names a tunnel that is not pending.
  pub create_tunnel-IsChecked :
      (fuel : ℕ) (tun : Tunnel) (alloc : Option TunnelCreateUseAllocation)
      → create_tunnel formats w servers fuel tun ≡ some (alloc, ok tt)
      → IsChecked tun alloc × IsAllocatedAs (record tun { alloc = alloc })
  create_tunnel-IsChecked fuel tun alloc h = elim (Result-cases (checks tun).1) [
    | inr (inl (x, e)) ↦ absurd (unfold create_tunnel in ground (arith, e))
    | inr (inr e) ↦ absurd (unfold create_tunnel in ground (arith, e))
    | inl (u, e) ↦
        elim (Result-cases (created formats w servers (record tun { alloc = (checks tun).0 }))) [
          | inr (inl (x, f)) ↦ absurd (unfold create_tunnel in ground (arith, e, f))
          | inr (inr f) ↦ absurd (unfold create_tunnel in ground (arith, e, f))
          | inl (ids, f) ↦
              let same : (checks tun).0 ≡ alloc = unfold create_tunnel in ground (arith, e, f) in
              let waited : wait_allocated (listed_tunnels ids) fuel 0 ≡ some (ok tt) =
                unfold create_tunnel in ground (arith, e, f) in
              (
                rw same at (checks-IsChecked tun e),
                (ids, rw same at f, wait_allocated_ends (listed_tunnels ids) fuel 0 waited),
              )
        ]
  ]

  -- A tunnel that passes the checks, and whose first two requests succeed, is created however long the
  -- lists have it pending: CreateTunnel then succeeds with the first list in which it is not, one step
  -- later.
  pub create_tunnel-allocated :
      (ids : List ℕ × List ℕ) (n fuel : ℕ) (tun : Tunnel)
      → (checks tun).1 ≡ ok tt
      → created formats w servers (record tun { alloc = (checks tun).0 }) ≡ ok ids
      → ((j : ℕ) → j < n → IsPending (listed_tunnels ids j))
      → IsAllocated (listed_tunnels ids n)
      → n < fuel
      → create_tunnel formats w servers fuel tun ≡ some ((checks tun).0, ok tt)
  unfolding create_tunnel
  create_tunnel-allocated ids n fuel tun c made before at_n h =
      let waited : wait_allocated (listed_tunnels ids) fuel 0 ≡ some (ok tt) =
        wait_allocated_past (listed_tunnels ids) n fuel 0 (λ j l. rw zero-add (before j l))
          (rw zero-add at_n) h in
      ground (arith, c, made, waited)
