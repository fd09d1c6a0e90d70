-- ===== src/Runner/States.antt =====
-- What holds in every state of a run of tunnel/runner.go.
use go_playit.Runner.{
  next_pass, exit_two, reported, passes, interrupted, here, later, Ending, clients,
}
use mathlib.Core.Path.{subst, sym}
use go_playit.Base.{
  Bool-cases, Error, Bool, Result-cases, arith, ◌∙◌, ◌⊎◌, ◌≡◌, inr, inl, ◌∷◌, [], ok, false, ℕ,
  List, refl,
}
use go_playit.Simples.{
  control_addresses, SimplesTunnel, World, update_control_addr, reload_to, reload_control_addr,
}
use go_playit.Simples.Channel.{unset, update-details, setup_tunnel-unset, unset-is_setup}
use go_playit.Runner.{
  setup_tunnel, interrupted, later, passes, TunnelRunner, Iteration, Step, Reach, start,
  update_pass, client_pass,
}
use go_playit.UdpTunnel.{is_setup, invalidate_session}
use go_playit.Netip.{AddrPort}
use go_playit.Control.{ConnectedControl}
use go_playit.Setup.{setup}

moved-details :
    (w : World) (connected : ConnectedControl) (tun : SimplesTunnel)
    → (update_control_addr w connected tun).0.udp_tunnel.details ≡ tun.udp_tunnel.details
unfolding update_control_addr invalidate_session
moved-details w connected tun = ground arith

reload_to-details :
    (w : World) (addresses : List AddrPort) (tun : SimplesTunnel)
    → (reload_to w addresses tun).0.udp_tunnel.details ≡ tun.udp_tunnel.details
unfolding reload_to
reload_to-details w addresses tun = elim (Result-cases (setup w.network addresses)) [
  | inl (found, e) ↦ ground (arith, e, moved-details w found tun)
  | inr (inl (x, e)) ↦ ground (arith, e)
  | inr (inr e) ↦ ground (arith, e)
]

pub reload-details :
    (w : World) (tun : SimplesTunnel)
    → (reload_control_addr w tun).0.udp_tunnel.details ≡ tun.udp_tunnel.details
unfolding reload_control_addr
reload-details w tun = elim (Result-cases (control_addresses w.routing)) [
  | inl (addresses, e) ↦ ground (arith, e, reload_to-details w addresses tun)
  | inr (inl (x, e)) ↦ ground (arith, e)
  | inr (inr e) ↦ ground (arith, e)
]

abbrev IsUnset : TunnelRunner → Type 0
IsUnset run = run.tunnel.udp_tunnel.details ≡ unset

update_pass-IsUnset :
    (turn : Iteration) (run : TunnelRunner) → IsUnset run → IsUnset (update_pass turn run).1
unfolding update_pass
update_pass-IsUnset turn run h = ground (arith, h, update-details turn.tick run.tunnel (rw h) ∙ h)

client_pass-IsUnset :
    (turn : Iteration) (run : TunnelRunner) → IsUnset run → IsUnset (client_pass turn run).1
unfolding client_pass
client_pass-IsUnset turn run h =
    let tun = (reload_control_addr turn.world run.tunnel).0 in
    let run' : TunnelRunner = record run { tunnel = tun; last_control_update = turn.now } in
    let reloaded = reload-details turn.world run.tunnel ∙ h in
    ground (arith, reloaded, update_pass-IsUnset turn run h, update_pass-IsUnset turn run' reloaded)

Step-IsUnset : (run run' : TunnelRunner) → Step run run' → IsUnset run → IsUnset run'
Step-IsUnset run run' (passes turn run0 k) h = client_pass-IsUnset turn run0 h
Step-IsUnset run run' (interrupted run0) h = h

Reach-IsUnset : (first run : TunnelRunner) → Reach first run → IsUnset first → IsUnset run
Reach-IsUnset first run here h = h
Reach-IsUnset first run (later before run0 r s) h =
    Step-IsUnset before run0 s (Reach-IsUnset first before r h)

-- In every state that a run reaches from a start whose Setup succeeded, by passes of the loop with
-- their reloads, moves and Updates and by interrupts in any order, the UDP channel is not set up.
pub runner_never_set_up :
    (w : World) (now : ℕ) (keep_running : Bool) (first run : TunnelRunner)
    → start w now keep_running ≡ ok first
    → Reach first run
    → (is_setup run.tunnel.udp_tunnel).0 ≡ false
unfolding start
runner_never_set_up w now keep_running first run e r = elim (Result-cases (setup_tunnel w)) [
  | inl (tun, f) ↦
      let at_start : IsUnset first = ground (arith, e, f, setup_tunnel-unset w tun f) in
      unset-is_setup run.tunnel (Reach-IsUnset first run r at_start)
  | inr (inl (x, f)) ↦ absurd (ground (arith, e, f))
  | inr (inr f) ↦ absurd (ground (arith, e, f))
]

Ending-cases : (p : Ending) → (p ≡ next_pass) ⊎ ((p ≡ exit_two) ⊎ ((x : Error) × (p ≡ reported x)))
Ending-cases next_pass = inl refl
Ending-cases exit_two = inr (inl refl)
Ending-cases (reported x) = inr (inr (x, refl))

clients-Reach_from :
    (turns : List Iteration) (first run : TunnelRunner)
    → Reach first run
    → Reach first (clients turns run).1
unfolding clients
clients-Reach_from [] first run r = r
clients-Reach_from (turn ∷ turns) first run r = elim (Bool-cases run.keep_running) [
  | inr e ↦ same run r (ground (arith, e))
  | inl e ↦
      let run' = (client_pass turn run).1 in
      let r' : Reach first run' = later run run' r (passes turn run e) in
      elim (Ending-cases (client_pass turn run).0) [
        | inl f ↦
            same (clients turns run').1 (clients-Reach_from turns first run' r')
              (ground (arith, e, f))
        | inr (inl f) ↦ same run' r' (ground (arith, e, f))
        | inr (inr (x, f)) ↦ same run' r' (ground (arith, e, f))
      ]
]
  where
    same :
        (z : TunnelRunner)
        → Reach first z
        → (clients (turn ∷ turns) run).1 ≡ z
        → Reach first (clients (turn ∷ turns) run).1
    same z q e = subst (λ (y : TunnelRunner). Reach first y) (sym e) q

-- The loop as a function is a run of its steps: whatever turns it gets, it ends in a state that its
-- first reaches.
pub clients-Reach : (turns : List Iteration) (run : TunnelRunner) → Reach run (clients turns run).1
clients-Reach turns run = clients-Reach_from turns run run here
