-- ===== src/Simples/Moved.antt =====
-- What the API has answered to a tunnel that a reload moves to another control server.
use go_playit.Base.{ap, ◌∙◌, Result-cases, Bool-cases, ok, true, arith, ◌≡◌, inl, inr, List}
use go_playit.Netip.{AddrPort, same_addr_port}
use go_playit.Control.{ConnectedControl}
use go_playit.Setup.{setup}
use go_playit.Register.{authenticate}
use go_playit.Api.{Api, Server, Formats}
use go_playit.Simples.{
  SimplesTunnel, World, control_addresses, reload_control_addr, reload_to, update_control_addr,
  some_missing,
}
use go_playit.Simples.Online.{online}
use go_playit.Simples.Served.{Found, IsServed, Found-IsServed}

-- The parts of a move that succeeds.
record IsMove (w : World) (connected : ConnectedControl) (tun' : SimplesTunnel) : Type 0 where
  pub registered : authenticate w.register w.replies connected ≡ ok tun'.control_channel
  pub same_addr : tun'.control_addr ≡ connected.control_addr

update-IsMove :
    (w : World) (connected : ConnectedControl) (tun tun' : SimplesTunnel)
    → update_control_addr w connected tun ≡ (tun', ok true)
    → IsMove w connected tun'
unfolding update_control_addr
update-IsMove w connected tun tun' h =
    elim (Bool-cases (same_addr_port connected.control_addr tun.control_addr)) [
      | inl same ↦ absurd (ground (arith, h, same))
      | inr other ↦ elim (Result-cases (authenticate w.register w.replies connected)) [
        | inl (channel, e) ↦ record {
          registered = ground (arith, h, other, e);
          same_addr = ground (arith, h, other, e);
        }
        | inr (inl (x, e)) ↦ absurd (ground (arith, h, other, e))
        | inr (inr e) ↦ absurd (ground (arith, h, other, e))
      ]
    ]

reload_to-Found :
    (w : World) (targets : List AddrPort) (tun tun' : SimplesTunnel)
    → control_addresses w.routing ≡ ok targets
    → reload_to w targets tun ≡ (tun', ok true)
    → Found w tun'
unfolding reload_to
reload_to-Found w targets tun tun' routed h =
    elim (Bool-cases (some_missing tun.last_control_targets targets)) [
      | inl missing ↦ absurd (ground (arith, h, missing))
      | inr listed ↦ elim (Result-cases (setup w.network targets)) [
        | inr (inl (x, e)) ↦ absurd (ground (arith, h, listed, e))
        | inr (inr e) ↦ absurd (ground (arith, h, listed, e))
        | inl (connected, e) ↦
            let updated = update_control_addr w connected tun in
            let is_true : updated.1 ≡ ok true = ground (arith, h, listed, e) in
            let m = update-IsMove w connected tun updated.0 (ap (λ r. (updated.0, r)) is_true) in
            let kept_addr : tun'.control_addr ≡ updated.0.control_addr =
              ground (arith, h, listed, e, is_true) in
            let kept_channel : tun'.control_channel ≡ updated.0.control_channel =
              ground (arith, h, listed, e, is_true) in
            record {
              targets = targets;
              connected = connected;
              routed = routed;
              answered = e;
              registered = rw kept_channel m.registered;
              same_addr = kept_addr ∙ m.same_addr;
            }
      ]
    ]

reload-Found :
    (w : World) (tun tun' : SimplesTunnel)
    → reload_control_addr w tun ≡ (tun', ok true)
    → Found w tun'
unfolding reload_control_addr
reload-Found w tun tun' h = elim (Result-cases (control_addresses w.routing)) [
  | inl (targets, e) ↦ reload_to-Found w targets tun tun' e (ground (arith, h, e))
  | inr (inl (x, e)) ↦ absurd (ground (arith, h, e))
  | inr (inr e) ↦ absurd (ground (arith, h, e))
]

-- A reload over the API reports a move only if the server granted the request for the routing and that
-- for the key: the new control address is one that the routing lists, with the control port, and the key
-- is a hexadecimal text that the API gave for the addresses in the pong of the new channel.
pub reload-IsServed :
    (formats : Formats) (w : Api) (routing register : Server) (world : World)
    (tun tun' : SimplesTunnel)
    → reload_control_addr (online formats w routing register world) tun ≡ (tun', ok true)
    → IsServed formats w routing register tun'
reload-IsServed formats w routing register world tun tun' h =
    Found-IsServed formats w routing register world tun'
      (reload-Found (online formats w routing register world) tun tun' h)
