-- ===== src/Runner/Process.antt =====
-- Run of tunnel/runner.go as a process: the loop's goroutine, the signal's, and Run itself, which waits
-- for an error from the loop. Each of them can come first wherever more than one can go on.
use go_playit.Simples.{World}
use go_playit.Base.{ok, err, panic, ℕ, Bool, true, false, Error, ◌≡◌}
use go_playit.Runner.{start, TunnelRunner, Iteration, next_pass, exit_two, reported, client_pass}

-- `handed`: Run has received the error, and the loop's goroutine has its deferred exit before it.
-- `returned`: Run has returned it, and whoever called Run goes on until that exit.
pub data Stage : Type 0 where
  running : Stage
  handed returned : Error → Stage
  exited : ℕ → Stage

-- `signalled`: the signal's goroutine has stored false, and its exit is next.
pub record Process : Type 0 where
  pub runner : TunnelRunner
  pub stage : Stage
  pub signalled : Bool

-- The process once both goroutines are started.
abbrev pub launched : TunnelRunner → Process
launched run = record { runner = run; stage = running; signalled = false }

-- The process has not exited.
abbrev pub IsAlive : Stage → Type 0
IsAlive (exited code) = ⊥
IsAlive _ = Unit

pub data Move : Process → Process → Type 0 where
  -- A pass of the loop, and how it ends.
  pass_goes_on :
      (turn : Iteration) (run run' : TunnelRunner) (signal : Bool)
      → run.keep_running ≡ true
      → client_pass turn run ≡ (next_pass, run')
      → Move
          (record { runner = run; stage = running; signalled = signal })
          (record { runner = run'; stage = running; signalled = signal })
  pass_exits :
      (turn : Iteration) (run run' : TunnelRunner) (signal : Bool)
      → run.keep_running ≡ true
      → client_pass turn run ≡ (exit_two, run')
      → Move
          (record { runner = run; stage = running; signalled = signal })
          (record { runner = run'; stage = exited 2; signalled = signal })
  pass_reports :
      (turn : Iteration) (run run' : TunnelRunner) (signal : Bool) (e : Error)
      → run.keep_running ≡ true
      → client_pass turn run ≡ (reported e, run')
      → Move
          (record { runner = run; stage = running; signalled = signal })
          (record { runner = run'; stage = handed e; signalled = signal })
  -- The loop is left, and the deferred exit follows.
  loop_ends :
      (run : TunnelRunner) (signal : Bool)
      → run.keep_running ≡ false
      → Move
          (record { runner = run; stage = running; signalled = signal })
          (record { runner = run; stage = exited 2; signalled = signal })
  run_returns :
      (run : TunnelRunner) (signal : Bool) (e : Error)
      → Move
          (record { runner = run; stage = handed e; signalled = signal })
          (record { runner = run; stage = returned e; signalled = signal })
  -- The deferred exit behind a report, before Run returns or after.
  exits_handed :
      (run : TunnelRunner) (signal : Bool) (e : Error)
      → Move
          (record { runner = run; stage = handed e; signalled = signal })
          (record { runner = run; stage = exited 2; signalled = signal })
  exits_returned :
      (run : TunnelRunner) (signal : Bool) (e : Error)
      → Move
          (record { runner = run; stage = returned e; signalled = signal })
          (record { runner = run; stage = exited 2; signalled = signal })
  -- The signal's goroutine, while the process is there.
  stores :
      (run : TunnelRunner) (stage : Stage)
      → IsAlive stage
      → Move
          (record { runner = run; stage = stage; signalled = false })
          (record { runner = record run { keep_running = false }; stage = stage; signalled = true })
  exits_signalled :
      (run : TunnelRunner) (stage : Stage)
      → IsAlive stage
      → Move
          (record { runner = run; stage = stage; signalled = true })
          (record { runner = run; stage = exited 1; signalled = true })

pub data Leads (first : Process) : Process → Type 0 where
  at_first : Leads first first
  moved : (p q : Process) → Leads first p → Move p q → Leads first q

-- Run from its call: where Setup fails, its error is returned before a goroutine is started, and where it
-- panics, the process exits with the code 2.
pub data RunOf (w : World) (now : ℕ) (keep_running : Bool) : Stage → Bool → Type 0 where
  setup_fails :
      (e : Error) → start w now keep_running ≡ err e → RunOf w now keep_running (returned e) false
  setup_panics : start w now keep_running ≡ panic → RunOf w now keep_running (exited 2) false
  launches :
      (run : TunnelRunner) (p : Process)
      → start w now keep_running ≡ ok run
      → Leads (launched run) p
      → RunOf w now keep_running p.stage p.signalled
