-- ===== src/Runner.antt =====
-- tunnel/runner.go: the loop around Update, and the signal that stops it. The loop's goroutine and the
-- signal's run in any order, so a run of both is a sequence of steps.
pub mod States
pub mod Process
pub mod Outcomes
use go_playit.Base.{
  bind, ltb, Bool, if◌then◌else◌, ◌==◌, ◌||◌, ◌&&◌, ◌++◌, ◌∙◌, ◌↔◌, ◌⊎◌, ◌≢◌, ◌≡◌, ◌<◌, ◌≤◌, ◌^◌,
  ◌%◌, ◌/◌, ◌*◌, ◌-◌, ◌+◌, inr, inl, ◌∷◌, [], panic, err, ok, false, true, some, none, suc, zero,
  refl, ℕ, List, Error, Result, Option,
}
use go_playit.Simples.{SimplesTunnel, World, setup_tunnel, reload_control_addr}
use go_playit.Simples.Update.{Tick, update}

-- Lookup is not used by any method, so it is left out. `last_control_update` is a variable of the loop.
pub record TunnelRunner : Type 0 where
  pub tunnel : SimplesTunnel
  pub keep_running : Bool
  pub last_control_update : ℕ

-- What one pass through the loop gets from outside: the clock, in milliseconds, and the answers to the
-- reload and to Update.
pub record Iteration : Type 0 where
  pub now : ℕ
  pub world : World
  pub tick : Tick

-- How a pass ends: the next one, or the end of the goroutine, whose deferred call exits the process
-- with the code 2, also where the goroutine panics. An error of Update is handed to Run before.
pub data Ending : Type 0 where
  next_pass : Ending
  exit_two : Ending
  reported : Error → Ending

-- A new client is logged by Panic.
unfoldable pub update_pass : Iteration → TunnelRunner → Ending × TunnelRunner
update_pass turn run =
    let (result, tun, _sent) = update turn.tick run.tunnel in
    let run' = record run { tunnel = tun } in
    elim result [
      | err e ↦ (reported e, run')
      | panic ↦ (exit_two, run')
      | ok client ↦ elim client [ none ↦ (next_pass, run') | some _ ↦ (exit_two, run') ]
    ]

-- The body of the loop: every thirty seconds the control address is reloaded, and then it updates.
unfoldable pub client_pass : Iteration → TunnelRunner → Ending × TunnelRunner
client_pass turn run =
    if ltb (run.last_control_update + 30000) turn.now
    then (let (tun, result) = reload_control_addr turn.world run.tunnel in
        let run' = record run { tunnel = tun; last_control_update = turn.now } in
        elim result [
          | err e ↦ (exit_two, run')
          | panic ↦ (exit_two, run')
          | ok _ ↦ update_pass turn run'
        ])
    else update_pass turn run

-- Run, up to the start of its goroutines: the state that they share.
unfoldable pub start : World → ℕ → Bool → Result TunnelRunner
start w now keep_running =
    bind (setup_tunnel w)
      λ tun. ok (record { tunnel = tun; keep_running = keep_running; last_control_update = now })

-- A pass of the loop that is entered, whatever its end, or the signal's store. What follows a store is
-- the exit of the process.
pub data Step : TunnelRunner → TunnelRunner → Type 0 where
  passes :
      (turn : Iteration) (run : TunnelRunner)
      → run.keep_running ≡ true
      → Step run (client_pass turn run).1
  interrupted : (run : TunnelRunner) → Step run (record run { keep_running = false })

-- The states that a run can get into from one state.
pub data Reach (first : TunnelRunner) : TunnelRunner → Type 0 where
  here : Reach first first
  later : (run run' : TunnelRunner) → Reach first run → Step run run' → Reach first run'

-- The loop on a sequence of turns, until it ends or they do.
unfoldable pub clients : List Iteration → TunnelRunner → Ending × TunnelRunner
clients [] run = (next_pass, run)
clients (turn ∷ turns) run =
    if run.keep_running
    then (let (pass, run') = client_pass turn run in
        elim pass [
          | next_pass ↦ clients turns run'
          | exit_two ↦ (exit_two, run')
          | reported e ↦ (reported e, run')
        ])
    else (exit_two, run)
