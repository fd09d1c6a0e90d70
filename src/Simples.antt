-- ===== src/Simples.antt =====
-- tunnel/simples_tunnel.go: the tunnel that ties the control channel and the UDP channel together.
-- Calls of the API, of sockets and of the clock are answered by arguments.
pub mod Update
pub mod Online
pub mod Served
pub mod Moved
pub mod Routed
pub mod Reload
pub mod Timers
pub mod Preserves
pub mod Channel
pub mod Forced
use go_playit.Base.{
  if◌then◌else◌, ◌==◌, ◌||◌, ◌&&◌, ◌++◌, ◌∙◌, ◌↔◌, ◌⊎◌, ◌≢◌, ◌≡◌, ◌<◌, ◌≤◌, ◌^◌, ◌%◌, ◌/◌, ◌*◌, ◌-◌,
  ◌+◌, inr, inl, ◌∷◌, [], panic, err, ok, false, true, some, none, suc, zero, refl, ℕ, List, Option,
  Bool, Error, Result, bind, not,
}
use go_playit.Api.Agent.{AgentRouting}
use go_playit.Netip.{Addr, AddrPort, same_addr_port}
use go_playit.UdpTunnel.{UdpTunnel, assign_udp_tunnel, invalidate_session}
use go_playit.Control.{ConnectedControl, AuthenticatedControl}
use go_playit.Setup.{Network, setup}
use go_playit.Register.{Replies, authenticate}
use mathlib.Core.List.{map}

-- The pointer ControlChannel is set by Setup, before any other method is called.
pub record SimplesTunnel : Type 0 where
  pub control_addr : AddrPort
  pub control_channel : AuthenticatedControl
  pub udp_tunnel : UdpTunnel
  pub last_keep_alive : ℕ
  pub last_ping : ℕ
  pub last_pong : ℕ
  pub last_udp_auth : ℕ
  pub last_control_targets : List AddrPort

abbrev pub control_port : ℕ
control_port = 5525

unfoldable pub control_addresses : Result AgentRouting → Result (List AddrPort)
control_addresses routing = bind routing (λ controls.
    ok (
      map (λ v. record { addr = v; port = control_port }) (controls.targets6 ++ controls.targets4)))

-- The answers that Setup and ReloadControlAddr get from outside.
pub record World : Type 0 where
  pub udp4 : Option ℕ
  pub udp6 : Option ℕ
  pub routing : Result AgentRouting
  pub network : Network
  pub register : AddrPort → AddrPort → Result (List ℕ)
  pub replies : Replies

-- SimplesTunnel.Setup on a tunnel whose other fields have their zero values.
unfoldable pub setup_tunnel : World → Result SimplesTunnel
setup_tunnel w = bind (assign_udp_tunnel w.udp4 w.udp6) λ udp.
    bind (bind (control_addresses w.routing) (setup w.network)) λ found.
      bind (authenticate w.register w.replies found) λ channel. ok (record {
        control_addr = found.control_addr;
        control_channel = channel;
        udp_tunnel = udp;
        last_keep_alive = 0;
        last_ping = 0;
        last_pong = 0;
        last_udp_auth = 0;
        last_control_targets = [];
      })

-- `slices.ContainsFunc(addrs, func(b) { return a.Compare(b) == 0 })`
unfoldable pub listed : AddrPort → List AddrPort → Bool
listed a [] = false
listed a (b ∷ bs) = same_addr_port a b || listed a bs

-- Whether some address of the first list is not in the second.
unfoldable pub some_missing : List AddrPort → List AddrPort → Bool
unfolding listed
some_missing [] addresses = false
some_missing (a ∷ as') addresses = not (listed a addresses) || some_missing as' addresses

-- The state and the two results of a method.
abbrev pub Outcome : Type 0
Outcome = SimplesTunnel × Result Bool

unfoldable pub update_control_addr : World → ConnectedControl → SimplesTunnel → Outcome
update_control_addr w connected tun =
    if same_addr_port connected.control_addr tun.control_addr
    then (tun, ok false)
    else elim (authenticate w.register w.replies connected) [
      | err e ↦ (tun, err e)
      | panic ↦ (tun, panic)
      | ok channel ↦ (
        record tun {
          control_channel = channel;
          control_addr = connected.control_addr;
          last_ping = 0;
          last_keep_alive = 0;
          last_udp_auth = 0;
          udp_tunnel = invalidate_session tun.udp_tunnel;
        },
        ok true,
      )
    ]

-- What follows once the addresses are known; they are kept whatever the update returns.
unfoldable pub reload_to : World → List AddrPort → SimplesTunnel → Outcome
reload_to w addresses tun =
    if some_missing tun.last_control_targets addresses
    then (tun, ok false)
    else elim (setup w.network addresses) [
      | err e ↦ (tun, err e)
      | panic ↦ (tun, panic)
      | ok found ↦
          let (tun', updated) = update_control_addr w found tun in
          elim updated [
            | panic ↦ (tun', panic)
            | ok b ↦ (record tun' { last_control_targets = addresses }, ok b)
            | err e ↦ (record tun' { last_control_targets = addresses }, err e)
          ]
    ]

unfoldable pub reload_control_addr : World → SimplesTunnel → Outcome
reload_control_addr w tun = elim (control_addresses w.routing) [
  | err e ↦ (tun, err e)
  | panic ↦ (tun, panic)
  | ok addresses ↦ reload_to w addresses tun
]
