-- ===== src/Runner/Outcomes.antt =====
-- What Run of tunnel/runner.go returns.
use go_playit.Base.{
  ◌⊎◌, ◌↔◌, ◌+◌, ℕ, zero, suc, Bool, false, Error, Result, err, Option, some, ◌≡◌, ◌≢◌, inl, inr,
  refl, arith, Result-cases, Bool-cases, Option-cases, ltb, leb,
}
use go_playit.Feed.{ControlFeed, NewClient}
use go_playit.Response.{ControlResponse}
use go_playit.UdpTunnel.{requires_auth, require_resend, set_udp_tunnel}
use go_playit.Control.{is_expired, reauthenticate, rec_feed_msg}
use go_playit.Simples.{SimplesTunnel, World, reload_control_addr, setup_tunnel}
use go_playit.Simples.Update.{
  Tick, Arrival, Pass, carry_on, return, update, refreshed_update, receive_part, feed_loop,
  one_pass, handle_feed, handle_response, ping_part, resend_part, keep_alive_part, followed_by,
}
use go_playit.Runner.{reported, TunnelRunner, Iteration, client_pass, update_pass, start}
use go_playit.Runner.Process.{
  Stage, running, handed, returned, exited, Process, launched, Move, Leads, at_first, moved, RunOf,
  setup_fails, setup_panics, launches,
}

handle_response_returns :
    (a : Arrival) (timeout : ℕ) (content : ControlResponse) (tun : SimplesTunnel) (x : Error)
    → (handle_response a timeout content tun).0 ≢ return (err x)
unfolding handle_response
handle_response_returns a timeout content tun x h =
    elim (Option-cases content.udp_channel_details) [
      | inl e ↦ absurd (ground (arith, h, e))
      | inr (details, e) ↦
          elim (Option-cases (set_udp_tunnel a.token_now details tun.udp_tunnel).2) [
            | inl stored ↦ absurd (ground (arith, h, e, stored))
            | inr (y, failed) ↦ absurd (ground (arith, h, e, failed))
          ]
    ]

handle_feed_returns :
    (a : Arrival) (timeout : ℕ) (feed : ControlFeed) (tun : SimplesTunnel) (x : Error)
    → (handle_feed a timeout feed tun).0 ≢ return (err x)
unfolding handle_feed
handle_feed_returns a timeout feed tun x h = elim (Option-cases feed.new_client) [
  | inr (client, e) ↦ absurd (ground (arith, h, e))
  | inl e ↦ elim (Option-cases feed.response) [
    | inl e' ↦ absurd (ground (arith, h, e, e'))
    | inr (msg, e') ↦ handle_response_returns a timeout msg.content tun x (ground (arith, h, e, e'))
  ]
]

one_pass_returns :
    (a : Arrival) (timeout : ℕ) (tun : SimplesTunnel) (x : Error)
    → (one_pass a timeout tun).0 ≢ return (err x)
unfolding one_pass
one_pass_returns a timeout tun x h =
    let got = rec_feed_msg a.pong_now a.received tun.control_channel in
    elim (Result-cases got.0) [
      | inl (feed, e) ↦
          handle_feed_returns a timeout feed (record tun { control_channel = got.1 }) x
            (ground (arith, h, e))
      | inr (inl (y, e)) ↦ absurd (ground (arith, h, e))
      | inr (inr e) ↦ absurd (ground (arith, h, e))
    ]

Pass-cases :
    (p : Pass) → ((n : ℕ) × (p ≡ carry_on n)) ⊎ ((r : Result (Option NewClient)) × (p ≡ return r))
Pass-cases (carry_on n) = inl (n, refl)
Pass-cases (return r) = inr (r, refl)

feed_loop_returns :
    (arrivals : ℕ → Arrival) (left timeout : ℕ) (tun : SimplesTunnel) (x : Error)
    → (feed_loop arrivals left timeout tun).0 ≢ some (err x)
unfolding feed_loop
feed_loop_returns arrivals zero timeout tun x h = absurd (cc)
feed_loop_returns arrivals (suc left) timeout tun x h = elim (Bool-cases (leb 10 timeout)) [
  | inl enough ↦ absurd (ground (arith, h, enough))
  | inr few ↦
      let passed = one_pass (arrivals left) timeout tun in
      elim (Pass-cases passed.0) [
        | inl (n, e) ↦ feed_loop_returns arrivals left n passed.1 x (ground (arith, h, few, e))
        | inr (r, e) ↦ one_pass_returns (arrivals left) timeout tun x (ground (arith, h, few, e))
      ]
]

receive_part_returns : (k : Tick) (tun : SimplesTunnel) (e : Error) → (receive_part k tun).0 ≢ err e
unfolding receive_part
receive_part_returns k tun e h =
    let tun1 = (followed_by (resend_part k) (keep_alive_part k) tun).0 in
    elim (Option-cases (feed_loop k.arrivals 30 0 tun1).0) [
      | inl ended ↦ absurd (ground (arith, h, ended))
      | inr (r, ended) ↦ feed_loop_returns k.arrivals 30 0 tun1 e (ground (arith, h, ended))
    ]

refreshed_update_returns :
    (k : Tick) (tun : SimplesTunnel) (e : Error) → (refreshed_update k tun).0 ≢ err e
unfolding refreshed_update
refreshed_update_returns k tun e h =
    let tun1 = (ping_part k tun).0 in
    elim (Bool-cases (requires_auth k.auth_now tun1.udp_tunnel)) [
      | inl auth ↦ absurd (ground (arith, h, auth))
      | inr no_auth ↦ elim (Bool-cases (require_resend k.resend_now tun1.udp_tunnel)) [
        | inl resend ↦ receive_part_returns k tun1 e (ground (arith, h, no_auth, resend))
        | inr quiet ↦ absurd (ground (arith, h, no_auth, quiet))
      ]
    ]

-- Update returns no error: it panics before the only line that would.
pub update_returns : (k : Tick) (tun : SimplesTunnel) (e : Error) → (update k tun).0 ≢ err e
unfolding update
update_returns k tun e h = elim (Bool-cases (is_expired tun.control_channel)) [
  | inr fresh ↦ refreshed_update_returns k tun e (ground (arith, h, fresh))
  | inl old ↦
      let again = reauthenticate k.registering tun.control_channel in
      elim (Result-cases again.0) [
        | inr (inl (x, failed)) ↦ absurd (ground (arith, h, old, failed))
        | inr (inr failed) ↦ absurd (ground (arith, h, old, failed))
        | inl (u, registered) ↦
            refreshed_update_returns k (record tun { control_channel = again.1 }) e
              (ground (arith, h, old, registered))
      ]
]

update_pass_reports :
    (turn : Iteration) (run run' : TunnelRunner) (e : Error)
    → update_pass turn run ≢ (reported e, run')
unfolding update_pass
update_pass_reports turn run run' e h = elim (Result-cases (update turn.tick run.tunnel).0) [
  | inr (inl (x, failed)) ↦ update_returns turn.tick run.tunnel x failed
  | inr (inr panics) ↦ absurd (ground (arith, h, panics))
  | inl (client, done) ↦ elim (Option-cases client) [
    | inl e' ↦ absurd (ground (arith, h, done, e'))
    | inr (c, e') ↦ absurd (ground (arith, h, done, e'))
  ]
]

client_pass_reports :
    (turn : Iteration) (run run' : TunnelRunner) (e : Error)
    → client_pass turn run ≢ (reported e, run')
unfolding client_pass
client_pass_reports turn run run' e h =
    elim (Bool-cases (ltb (run.last_control_update + 30000) turn.now)) [
      | inr early ↦ update_pass_reports turn run run' e (ground (arith, h, early))
      | inl due ↦
          let reloaded = reload_control_addr turn.world run.tunnel in
          elim (Result-cases reloaded.1) [
            | inl (b, loaded) ↦
                update_pass_reports turn
                  (record run { tunnel = reloaded.0; last_control_update = turn.now }) run' e
                  (ground (arith, h, due, loaded))
            | inr (inl (x, failed)) ↦ absurd (ground (arith, h, due, failed))
            | inr (inr failed) ↦ absurd (ground (arith, h, due, failed))
          ]
    ]

-- The goroutines have left Run waiting, or have ended the process.
abbrev pub IsNoReturn : Stage → Type 0
IsNoReturn running = Unit
IsNoReturn (handed e) = ⊥
IsNoReturn (returned e) = ⊥
IsNoReturn (exited code) = Unit

Move-IsNoReturn : (p q : Process) → Move p q → IsNoReturn p.stage → IsNoReturn q.stage
Move-IsNoReturn _ _ (Move.pass_goes_on turn run run' signal k e) h = tt
Move-IsNoReturn _ _ (Move.pass_exits turn run run' signal k e) h = tt
Move-IsNoReturn _ _ (Move.pass_reports turn run run' signal x k e) h =
    client_pass_reports turn run run' x e
Move-IsNoReturn _ _ (Move.loop_ends run signal k) h = tt
Move-IsNoReturn _ _ (Move.run_returns run signal e) h = h
Move-IsNoReturn _ _ (Move.exits_handed run signal e) h = tt
Move-IsNoReturn _ _ (Move.exits_returned run signal e) h = tt
Move-IsNoReturn _ _ (Move.stores run stage alive) h = h
Move-IsNoReturn _ _ (Move.exits_signalled run stage alive) h = tt

Leads-IsNoReturn : (run : TunnelRunner) (p : Process) → Leads (launched run) p → IsNoReturn p.stage
Leads-IsNoReturn run _ at_first = tt
Leads-IsNoReturn run q (moved p _ before move) =
    Move-IsNoReturn p q move (Leads-IsNoReturn run p before)

start-setup_tunnel :
    (w : World) (now : ℕ) (keep : Bool) (e : Error)
    → start w now keep ≡ err e
    → setup_tunnel w ≡ err e
unfolding start
start-setup_tunnel w now keep e h = elim (Result-cases (setup_tunnel w)) [
  | inl (tun, done) ↦ absurd (ground (arith, h, done))
  | inr (inl (x, failed)) ↦ ground (arith, h, failed)
  | inr (inr panics) ↦ absurd (ground (arith, h, panics))
]

returned-setup_tunnel :
    (w : World) (now : ℕ) (keep : Bool) (stage : Stage) (signal : Bool) (e : Error)
    → RunOf w now keep stage signal
    → (stage ≡ returned e) ⊎ (stage ≡ handed e)
    → setup_tunnel w ≡ err e
returned-setup_tunnel w now keep _ _ e (setup_fails x failed) h =
    start-setup_tunnel w now keep e
      (elim h [ inl r ↦ ground (arith, failed, r) | inr r ↦ absurd (ground (arith, r)) ])
returned-setup_tunnel w now keep _ _ e (setup_panics failed) h =
    absurd (elim h [ inl r ↦ ground (arith, r) | inr r ↦ ground (arith, r) ])
returned-setup_tunnel w now keep _ _ e (launches run p done leads) h =
    let waits = Leads-IsNoReturn run p leads in
    absurd (elim h [ inl r ↦ rw r at waits | inr r ↦ rw r at waits ])

setup_tunnel-returned :
    (w : World) (now : ℕ) (keep : Bool) (e : Error)
    → setup_tunnel w ≡ err e
    → RunOf w now keep (returned e) false
unfolding start
setup_tunnel-returned w now keep e h = setup_fails e (ground (arith, h))

never_handed :
    (w : World) (now : ℕ) (keep : Bool) (stage : Stage) (signal : Bool) (e : Error)
    → RunOf w now keep stage signal
    → stage ≢ handed e
never_handed w now keep _ _ e (setup_fails x failed) h = absurd (ground (arith, h))
never_handed w now keep _ _ e (setup_panics failed) h = absurd (ground (arith, h))
never_handed w now keep _ _ e (launches run p done leads) h =
    let waits = Leads-IsNoReturn run p leads in rw h at waits

-- Run returns an error exactly where Setup fails with it. Once Setup has succeeded, Run returns in no
-- order of the passes of its loop, of the signal and of the exits, and is handed no error to return:
-- Update reports none, since it panics where its code goes on to return one.
pub run_returns_setup_error :
    (w : World) (now : ℕ) (keep : Bool) (e : Error)
    → (setup_tunnel w ≡ err e ↔ ((signal : Bool) × RunOf w now keep (returned e) signal))
      × ((signal : Bool) → RunOf w now keep (handed e) signal → ⊥)
run_returns_setup_error w now keep e = (
  (
    λ h. (false, setup_tunnel-returned w now keep e h),
    λ (signal, runs). returned-setup_tunnel w now keep (returned e) signal e runs (inl refl),
  ),
  λ signal runs. absurd (never_handed w now keep (handed e) signal e runs refl),
)
