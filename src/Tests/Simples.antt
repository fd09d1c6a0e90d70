-- ===== src/Tests/Simples.antt =====
-- The whole tunnel on the values of Tests.
use go_playit.Base.{
  Bool, ◌⊎◌, no_controller, ◌↔◌, err, ◌≢◌, ◌≡◌, ◌+◌, ◌∷◌, [], ok, false, true, refl, ℕ, none, some,
}
use go_playit.Tests.{
  AuthenticatedControl, server, other_server, connected, a_pong, registration, control,
}
use go_playit.Tests.Setup.{
  network, register, replying, registration_bytes, left_over, found, registers,
}
use go_playit.Simples.{reload_control_addr, control_addresses, World, SimplesTunnel, setup_tunnel}
use go_playit.Simples.Update.{feed_loop, update, Tick, Arrival}
use go_playit.Register.{registered_control}
use go_playit.UdpTunnel.{assign_udp_tunnel, is_setup}
use go_playit.Simples.Channel.{update-details}
use go_playit.Simples.Timers.{feed_loop_gives_up, buffered}
use go_playit.Simples.Reload.{reload_moves_or_stays, IsMoved, IsKept}
use go_playit.Runner.{Iteration, passes, here, later, start, client_pass, TunnelRunner}
use go_playit.Control.{is_expired}
use go_playit.Runner.States.{runner_never_set_up}
use go_playit.Runner.Process.{RunOf, returned, handed}
use go_playit.Runner.Outcomes.{run_returns_setup_error}
use go_playit.Simples.Forced.{updates_stay_expired}
use go_playit.Simples.Preserves.{updates}

abbrev pub world : World
world = record {
  udp4 = some 1;
  udp6 = none;
  routing = ok (record { agent = []; targets4 = server.addr ∷ []; targets6 = [] });
  network = network;
  register = register;
  replies = replying registration_bytes;
}

abbrev pub tunnel : SimplesTunnel
tunnel = record {
  control_addr = server;
  control_channel = registered_control connected a_pong left_over registration;
  udp_tunnel = record {
    udp4 = 1;
    udp6 = none;
    details = record {
      value = record { udp = none; addr_history = [] };
      readers = 0;
      writer = false;
    };
    last_confirm = 0;
    last_send = 0;
  };
  last_keep_alive = 0;
  last_ping = 0;
  last_pong = 0;
  last_udp_auth = 0;
  last_control_targets = [];
}

world_sets_up : setup_tunnel world ≡ ok tunnel
unfolding setup_tunnel control_addresses assign_udp_tunnel registered_control
world_sets_up = rw (found, registers)

abbrev nothing_arrives : ℕ → Arrival
nothing_arrives n = record { received = none; pong_now = 0; token_now = 0; noted_now = 0 }

abbrev tick : Tick
tick = record {
  registering = ok control;
  now = 50000;
  auth_now = 50000;
  resend_now = 50000;
  token_now = 50000;
  end_now = 50000;
  ping_failure = none;
  setup_failure = none;
  keep_failure = none;
  setup_again_failure = none;
  arrivals = nothing_arrives;
}

abbrev later_tick : Tick
later_tick = record tick { now = 50900 }

update-details_example : (update tick tunnel).1.udp_tunnel.details ≡ tunnel.udp_tunnel.details
update-details_example = update-details tick tunnel refl

feed_loop_gives_up_example :
    let (r, tun', sent) = feed_loop nothing_arrives 30 0 tunnel in
    (r ≡ none) × (sent ≡ []) × (buffered tun' ≡ buffered tunnel + 10240)
feed_loop_gives_up_example = feed_loop_gives_up nothing_arrives tunnel (λ n. refl)

abbrev away : SimplesTunnel
away = record tunnel { control_addr = other_server; last_ping = 70000 }

abbrev pub channel : AuthenticatedControl
channel = registered_control connected a_pong left_over registration

reload_moves_or_stays_example :
    let (tun', r) = reload_control_addr world away in
    ((r ≡ ok true) × IsMoved world away tun') ⊎ ((r ≢ ok true) × IsKept world away tun')
reload_moves_or_stays_example = reload_moves_or_stays world away

abbrev forced : SimplesTunnel
forced = record tunnel { control_channel = record control { force_expired = true } }

updates_stay_expired_example :
    is_expired (updates (tick ∷ (later_tick ∷ [])) forced).control_channel ≡ true
updates_stay_expired_example = updates_stay_expired (tick ∷ (later_tick ∷ [])) forced refl

abbrev runner : TunnelRunner
runner = record { tunnel = tunnel; keep_running = true; last_control_update = 1000 }

abbrev turn : Iteration
turn = record { now = 40000; world = world; tick = tick }

starts : start world 1000 true ≡ ok runner
unfolding start
starts = rw world_sets_up

runner_never_set_up_example : (is_setup (client_pass turn runner).1.tunnel.udp_tunnel).0 ≡ false
runner_never_set_up_example =
    runner_never_set_up world 1000 true runner (client_pass turn runner).1 starts
      (later runner (client_pass turn runner).1 here (passes turn runner refl))

-- The API does not give the routing.
abbrev unrouted : World
unrouted = record world { routing = err no_controller }

run_returns_setup_error_example :
    (setup_tunnel unrouted ≡ err no_controller
      ↔ ((signal : Bool) × RunOf unrouted 1000 true (returned no_controller) signal))
    × ((signal : Bool) → RunOf unrouted 1000 true (handed no_controller) signal → ⊥)
run_returns_setup_error_example = run_returns_setup_error unrouted 1000 true no_controller

-- Its Setup fails with that error, and Run returns it.
unrouted_returns : (signal : Bool) × RunOf unrouted 1000 true (returned no_controller) signal
unfolding setup_tunnel control_addresses assign_udp_tunnel
unrouted_returns = (run_returns_setup_error unrouted 1000 true no_controller).0.0 refl
