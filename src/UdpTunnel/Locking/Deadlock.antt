-- ===== src/UdpTunnel/Locking/Deadlock.antt =====
-- How ReceiveFrom and SetUdpTunnel of tunnel/udp_tunnel.go can wait for each other for ever.
use go_playit.Base.{
  ◌∙◌, inr, inl, ℕ, zero, suc, ◌<◌, ◌≤◌, List, [], ◌∷◌, ◌++◌, drop, Option, none, some, true, false,
  ◌≡◌, ◌≢◌, refl, arith, Bool-cases, Result-cases,
}
use go_playit.Netip.{same_addr_port}
use go_playit.UdpTunnel.{UdpTunnel, get_sock}
use go_playit.UdpTunnel.Rx.{Datagram, in_history}
use go_playit.Rwlock.Family.{update}
use go_playit.Rwlock.Threads.{
  Call, r_lock, r_unlock, announce, enter, leave, Mutex, outside, waiting, Thread, act, System,
  acts, calling, Runs, here, later,
}
use go_playit.Rwlock.Exclusion.{Runs-Inv}
use go_playit.Rwlock.Deadlock.{IsCaught, Runs-IsCaught, Runs-waiting}
use go_playit.UdpTunnel.Locking.{
  Method, sets, receives, method_calls, all_calls, getter_calls, set_udp_tunnel_calls,
  receive_from_calls, from_history,
}
use go_playit.UdpTunnel.Locking.Exclusion.{methods-AllFit, behind_write, behind_write-inside}

receive_from_calls-history :
    (received : Option Datagram) (t : UdpTunnel)
    → from_history received t ≡ true
    → receive_from_calls received t
      ≡ r_lock ∷ (r_unlock ∷ (r_lock ∷ (r_lock ∷ (r_unlock ∷ (r_unlock ∷ [])))))
unfolding receive_from_calls getter_calls get_sock
receive_from_calls-history none t h = elim (Result-cases (get_sock t)) [
  | inl (sock, e) ↦ absurd (ground (arith, h, e))
  | inr (inl (x, e)) ↦ absurd (ground (arith, h, e))
  | inr (inr e) ↦ absurd (ground (arith, h, e))
]
receive_from_calls-history (some d) t h = elim (Result-cases (get_sock t)) [
  | inl (sock, e) ↦ elim (Bool-cases (same_addr_port sock.1 d.remote)) [
    | inl own ↦ absurd (ground (arith, h, e, own))
    | inr other ↦ elim (Bool-cases (in_history d.remote t.details.value.addr_history)) [
      | inl known ↦ rw (e, other, known) refl
      | inr unknown ↦ absurd (ground (arith, h, e, other, unknown))
    ]
  ]
  | inr (inl (x, e)) ↦ absurd (ground (arith, h, e))
  | inr (inr e) ↦ absurd (ground (arith, h, e))
]

-- Thread 0 reads the lock twice, and thread 1 announces a writer in between.
record IsHeld (s : System) (calls calls' : List Call) : Type 0 where
  pub reader : s.threads 0 ≡ record { reads = 1; phase = outside; rest = r_lock ∷ calls }
  pub writer : s.threads 1 ≡ record { reads = 0; phase = waiting; rest = enter ∷ calls' }
  pub announced : s.mutex.announced ≡ true

start-IsHeld :
    (n : ℕ) (calls : ℕ → List Call) (rest rest' : List Call)
    → 2 ≤ n
    → calls 0 ≡ r_lock ∷ (r_unlock ∷ (r_lock ∷ (r_lock ∷ rest)))
    → calls 1 ≡ announce ∷ (enter ∷ rest')
    → (s : System) × Runs n (calling calls) 4 s × IsHeld s rest rest'
unfolding act update
start-IsHeld n calls rest rest' l e e' =
    let at : ℕ → List Call → Thread =
      λ held c. record { reads = held; phase = outside; rest = c } in
    let free : ℕ → Mutex = λ held. record { readers = held; announced = false; writing = false } in
    let g0 = (calling calls).threads in
    let g1 = update g0 0 (at 1 (r_unlock ∷ (r_lock ∷ (r_lock ∷ rest)))) in
    let g2 = update g1 0 (at 0 (r_lock ∷ (r_lock ∷ rest))) in
    let g3 = update g2 0 (at 1 (r_lock ∷ rest)) in
    let waits : Thread = record { reads = 0; phase = waiting; rest = enter ∷ rest' } in
    (
      record {
        mutex = record { readers = 1; announced = true; writing = false };
        threads = update g3 1 waits;
      },
      later
          (later
            (later
              (later here (
                acts 0 (free 1) (at 1 (r_unlock ∷ (r_lock ∷ (r_lock ∷ rest)))) (omega arith)
                  (rw e refl)))
              (acts 0 (free 0) (at 0 (r_lock ∷ (r_lock ∷ rest))) (omega arith) refl))
            (acts 0 (free 1) (at 1 (r_lock ∷ rest)) (omega arith) refl))
          (acts 1 (record { readers = 1; announced = true; writing = false }) waits (omega arith)
            (rw e' refl)),
      record { reader = refl; writer = refl; announced = refl },
    )

-- Goroutine 0 starts with a ReceiveFrom, goroutine 1 with a SetUdpTunnel.
abbrev pub against :
    Option Datagram → UdpTunnel → List Method → List Method → (ℕ → List Method) → ℕ → List Method
against received t more more' others zero = receives received t ∷ more
against received t more more' others (suc zero) = sets ∷ more'
against received t more more' others (suc (suc i)) = others i

-- The goroutine has calls left, and never makes one again.
pub record IsStuck (n : ℕ) (s : System) (i : ℕ) : Type 0 where
  pub calls_left : (s.threads i).rest ≢ []
  pub stays : (k : ℕ) (s' : System) → Runs n s k s' → s'.threads i ≡ s.threads i

-- Where ReceiveFrom gets a datagram from an address of the history, and another goroutine calls
-- SetUdpTunnel, whatever the two call afterwards and whatever others call: the goroutines can get to where
-- both are stuck for ever, ReceiveFrom before the read of GetToken, under the read that it holds, and
-- SetUdpTunnel in its Write. No SetUdpTunnel gets past its Write any more.
pub receive_from_deadlocks :
    (n : ℕ) (received : Option Datagram) (t : UdpTunnel) (more more' : List Method)
    (others : ℕ → List Method)
    → from_history received t ≡ true
    → 2 ≤ n
    → (k : ℕ) × (s : System) × Runs n
        (calling (λ i. all_calls (against received t more more' others i)))
        k
        s
      × ((s.threads 0).rest ≡ drop 3 (receive_from_calls received t) ++ all_calls more)
      × ((s.threads 1).rest ≡ drop 1 set_udp_tunnel_calls ++ all_calls more')
      × IsStuck n s 0
      × IsStuck n s 1
      × ((k' : ℕ) (s' : System) (j : ℕ) (calls : List Call)
          → Runs n s k' s'
          → j < n
          → (s'.threads j).rest ≢ behind_write calls)
unfolding all_calls method_calls set_udp_tunnel_calls
receive_from_deadlocks n received t more more' others h l =
    let methods = against received t more more' others in
    let calls : ℕ → List Call = λ i. all_calls (methods i) in
    let its_calls = receive_from_calls-history received t h in
    let rest = r_unlock ∷ (r_unlock ∷ all_calls more) in
    let rest' = leave ∷ all_calls more' in
    let (s, runs, held) = start-IsHeld n calls rest rest' l (rw its_calls refl) refl in
    let v = Runs-Inv 2 n calls (methods-AllFit n methods) 4 s runs in
    let left : (s.threads 0).rest ≡ r_lock ∷ rest = rw held.reader refl in
    let left' : (s.threads 1).rest ≡ enter ∷ rest' = rw held.writer refl in
    let caught : IsCaught n s 0 = record {
      below = omega (arith, l);
      holds = rw held.reader (λ e. cc);
      calls_left = rest;
      wants = left;
      announced = held.announced;
    } in
    (
      4,
      s,
      runs,
      left ∙ rw its_calls refl,
      left',
      record {
        calls_left = rw left (λ e. cc);
        stays = λ k s' r.
            let (v', c', same, none_writes) = Runs-IsCaught 2 n s 0 v caught k s' r in same;
      },
      record {
        calls_left = rw left' (λ e. cc);
        stays = Runs-waiting 2 n s 0 1 rest' v caught left';
      },
      λ k' s' j calls r l' e.
          let (v', c', same, none_writes) = Runs-IsCaught 2 n s 0 v caught k' s' r in
          none_writes j l' (behind_write-inside 2 n s' j calls v' l' e),
    )
