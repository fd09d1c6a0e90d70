-- ===== src/Tests/Locking.antt =====
-- The lock of the UDP channel among two goroutines.
use go_playit.UdpTunnel.Locking.Exclusion.{behind_write, set_udp_tunnel_excludes}
use go_playit.UdpTunnel.Locking.Deadlock.{against, IsStuck, receive_from_deadlocks}
use go_playit.UdpTunnel.Locking.{
  from_history, methods-Return, gets, IsPlain, sets, set_udp_tunnel_calls, method_calls, receives,
  getter_calls, all_calls, Method, receive_from_calls,
}
use go_playit.Base.{
  drop, ◌++◌, true, All, ◌⊎◌, ◌+◌, ◌<◌, ℕ, zero, suc, List, [], ◌∷◌, none, some, ◌≡◌, ◌≢◌, refl,
  arith, bytes_equal,
}
use go_playit.UdpTunnel.{get_sock}
use go_playit.UdpTunnel.Rx.{Datagram, in_history}
use go_playit.Tests.Udp.{set_tunnel, token_datagram}
use go_playit.Tests.{other_server}
use go_playit.Netip.{same_addr_port, same_addr}
use go_playit.Rwlock.Progress.{CanStep, Finishes, AllReturned, work_of}
use go_playit.Rwlock.Family.{total, update}
use go_playit.Rwlock.Threads.{Call, act, System, acts, calling, Runs, here, later}

-- A thread of two makes its next call.
abbrev next : System → ℕ → System
next s i = elim (act s.mutex (s.threads i)) [
  | none ↦ s
  | some (m, t) ↦ record { mutex = m; threads = update s.threads i t }
]

-- A datagram from an address that the tunnel had before.
abbrev old_datagram : Datagram
old_datagram = record { payload = 8 ∷ []; remote = other_server }

is_old : from_history (some old_datagram) set_tunnel ≡ true
unfolding get_sock in_history same_addr_port same_addr bytes_equal
is_old = refl

abbrev no_others : ℕ → List Method
no_others i = []

receive_from_deadlocks_example :
    (k : ℕ) × (s : System) × Runs 2
      (calling (λ i. all_calls (against (some old_datagram) set_tunnel [] [] no_others i)))
      k
      s
    × ((s.threads 0).rest
        ≡ drop 3 (receive_from_calls (some old_datagram) set_tunnel) ++ all_calls [])
    × ((s.threads 1).rest ≡ drop 1 set_udp_tunnel_calls ++ all_calls [])
    × IsStuck 2 s 0
    × IsStuck 2 s 1
    × ((k' : ℕ) (s' : System) (j : ℕ) (calls : List Call)
        → Runs 2 s k' s'
        → j < 2
        → (s'.threads j).rest ≢ behind_write calls)
receive_from_deadlocks_example =
    receive_from_deadlocks 2 (some old_datagram) set_tunnel [] [] no_others is_old (omega arith)

abbrev plain_methods : ℕ → List Method
plain_methods zero = receives (some token_datagram) set_tunnel ∷ []
plain_methods (suc n) = sets ∷ (gets ∷ [])

methods-IsPlain : (i : ℕ) → i < 2 → All IsPlain (plain_methods i)
unfolding get_sock same_addr_port same_addr bytes_equal
methods-IsPlain zero l = (refl, tt)
methods-IsPlain (suc n) l = (tt, (tt, tt))

abbrev plain_calls : ℕ → List Call
plain_calls i = all_calls (plain_methods i)

abbrev first_read : System
first_read = next (calling plain_calls) 0

reads : Runs 2 (calling plain_calls) 1 first_read
unfolding act update all_calls method_calls receive_from_calls getter_calls
reads = later here (acts 0 _ _ (omega arith) refl)

methods-Return_example :
    (1 + total work_of 2 first_read.threads ≡ total work_of 2 (calling plain_calls).threads)
    × (AllReturned 2 first_read ⊎ CanStep 2 first_read)
    × Finishes 2 first_read
methods-Return_example = methods-Return 2 1 plain_methods first_read methods-IsPlain reads

-- SetUdpTunnel has the lock before ReceiveFrom reads.
abbrev writing : System
writing = next (next (calling plain_calls) 1) 1

writes : Runs 2 (calling plain_calls) 2 writing
unfolding act update all_calls method_calls set_udp_tunnel_calls
writes = later (later here (acts 1 _ _ (omega arith) refl)) (acts 1 _ _ (omega arith) refl)

is_behind : (writing.threads 1).rest ≡ behind_write (all_calls (gets ∷ []))
unfolding act update all_calls method_calls set_udp_tunnel_calls
is_behind = refl

set_udp_tunnel_excludes_example :
    ((writing.threads 0).reads ≡ 0)
    × ((more : List Call) → (writing.threads 0).rest ≢ behind_write more)
set_udp_tunnel_excludes_example =
    set_udp_tunnel_excludes 2 2 plain_methods writing 1 0 (all_calls (gets ∷ [])) writes
      (omega arith) (omega arith) (λ e. cc) is_behind
