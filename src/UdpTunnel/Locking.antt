-- ===== src/UdpTunnel/Locking.antt =====
-- The calls of the lock Details in the methods of tunnel/udp_tunnel.go, and when they return.
pub mod Exclusion
pub mod Deadlock
use go_playit.Base.{
  ◌==◌, ◌||◌, ◌↔◌, ◌≢◌, ◌≤◌, ◌^◌, ◌%◌, ◌/◌, ◌*◌, ◌-◌, ◌∙◌, ◌+◌, inr, inl, ℕ, zero, suc, ◌<◌, List,
  [], ◌∷◌, ◌++◌, Option, none, some, Bool, true, false, not, ◌&&◌, ◌≡◌, refl, if◌then◌else◌, arith,
  Bool-cases, ok, err, panic, ◌⊎◌, Result-cases, All,
}
use go_playit.Netip.{same_addr_port}
use go_playit.UdpTunnel.{UdpTunnel, get_sock}
use go_playit.UdpTunnel.Rx.{Datagram, in_history}
use go_playit.Rwlock.Threads.{
  Call, r_lock, r_unlock, announce, enter, leave, read_calls, r_unlock_calls, write_calls,
  unlock_calls, Phase, outside, waiting, inside, fits, System, Runs, calling,
}
use go_playit.Rwlock.Family.{total}
use go_playit.Rwlock.Progress.{calls-Return, AllReturned, CanStep, Finishes, work_of}

-- `lock, unlock := Details.Read(); defer unlock()`, around other calls.
abbrev pub reading : List Call → List Call
reading calls = read_calls ++ (calls ++ r_unlock_calls)

-- SetUdpTunnel unlocks on each of its paths.
unfoldable pub set_udp_tunnel_calls : List Call
set_udp_tunnel_calls = write_calls ++ unlock_calls

-- IsSetup, ResendToken, GetSock and GetToken.
unfoldable pub getter_calls : List Call
getter_calls = reading []

-- ReceiveFrom: GetSock, and then GetToken, which for a sender of the history comes under another read.
unfoldable pub receive_from_calls : Option Datagram → UdpTunnel → List Call
unfolding getter_calls
receive_from_calls received t = getter_calls ++ elim (get_sock t) [
  | err e ↦ []
  | panic ↦ []
  | ok (_socket, tunnel_addr) ↦ elim received [
    | none ↦ []
    | some d ↦
        if same_addr_port tunnel_addr d.remote
        then getter_calls
        else if in_history d.remote t.details.value.addr_history
        then reading getter_calls
        else reading []
  ]
]

-- The sender is not the tunnel's address, but one that it had before.
abbrev pub from_history : Option Datagram → UdpTunnel → Bool
from_history received t = elim (get_sock t) [
  | err e ↦ false
  | panic ↦ false
  | ok (_socket, tunnel_addr) ↦ elim received [
    | none ↦ false
    | some d ↦
        not (same_addr_port tunnel_addr d.remote)
        && in_history d.remote t.details.value.addr_history
  ]
]

-- The calls of ReceiveFrom undo each lock, and hold one read at a time unless the sender is an address of
-- the history: then they hold two.
pub receive_from_calls-fits :
    (received : Option Datagram) (t : UdpTunnel)
    → (fits 1 0 outside (receive_from_calls received t) ≡ not (from_history received t))
      × (fits 2 0 outside (receive_from_calls received t) ≡ true)
unfolding receive_from_calls fits get_sock
receive_from_calls-fits none t = elim (Result-cases (get_sock t)) [
  | inl (sock, e) ↦ rw e (refl, refl)
  | inr (inl (x, e)) ↦ rw e (refl, refl)
  | inr (inr e) ↦ rw e (refl, refl)
]
receive_from_calls-fits (some d) t = elim (Result-cases (get_sock t)) [
  | inl (sock, e) ↦ elim (Bool-cases (same_addr_port sock.1 d.remote)) [
    | inl own ↦ rw (e, own) (refl, refl)
    | inr other ↦ elim (Bool-cases (in_history d.remote t.details.value.addr_history)) [
      | inl known ↦ rw (e, other, known) (refl, refl)
      | inr unknown ↦ rw (e, other, unknown) (refl, refl)
    ]
  ]
  | inr (inl (x, e)) ↦ rw e (refl, refl)
  | inr (inr e) ↦ rw e (refl, refl)
]

-- A method of the channel, as one call of it among others.
pub data Method : Type 0 where
  gets sets : Method
  receives : Option Datagram → UdpTunnel → Method

unfoldable pub method_calls : Method → List Call
method_calls gets = getter_calls
method_calls sets = set_udp_tunnel_calls
method_calls (receives received t) = receive_from_calls received t

unfoldable pub all_calls : List Method → List Call
unfolding method_calls
all_calls [] = []
all_calls (m ∷ ms) = method_calls m ++ all_calls ms

-- A datagram that is received is not from an address of the history.
abbrev pub IsPlain : Method → Type 0
IsPlain gets = Unit
IsPlain sets = Unit
IsPlain (receives received t) = from_history received t ≡ false

fits-append :
    (most held : ℕ) (phase : Phase) (calls more : List Call)
    → fits most held phase calls ≡ true
    → fits most 0 outside more ≡ true
    → fits most held phase (calls ++ more) ≡ true
unfolding fits
fits-append most zero outside [] more h k = k
fits-append most held outside (r_lock ∷ calls) more h k =
    ground (arith, h, fits-append most (suc held) outside calls more (ground (arith, h)) k)
fits-append most (suc held) outside (r_unlock ∷ calls) more h k =
    fits-append most held outside calls more h k
fits-append most zero outside (announce ∷ calls) more h k =
    fits-append most zero waiting calls more h k
fits-append most zero waiting (enter ∷ calls) more h k = fits-append most zero inside calls more h k
fits-append most zero inside (leave ∷ calls) more h k = fits-append most zero outside calls more h k
fits-append most _ _ _ more h k = absurd (cc)

method_calls-fits : (m : Method) → IsPlain m → fits 1 0 outside (method_calls m) ≡ true
unfolding method_calls getter_calls set_udp_tunnel_calls fits
method_calls-fits gets h = refl
method_calls-fits sets h = refl
method_calls-fits (receives received t) h = (receive_from_calls-fits received t).0 ∙ rw h refl

all_calls-fits :
    (methods : List Method) → All IsPlain methods → fits 1 0 outside (all_calls methods) ≡ true
unfolding all_calls fits
all_calls-fits [] h = refl
all_calls-fits (m ∷ ms) (h, hs) =
    fits-append 1 0 outside (method_calls m) (all_calls ms) (method_calls-fits m h)
      (all_calls-fits ms hs)

-- However the goroutines that use the channel interleave their methods, none of them waits for ever for
-- its lock, as long as no datagram that is received comes from an address of the history: each step of a
-- run is one call of the lock, the run can go on until every method has returned, and some way to go on
-- gets there with the calls that are left.
pub methods-Return :
    (n k : ℕ) (methods : ℕ → List Method) (s : System)
    → ((i : ℕ) → i < n → All IsPlain (methods i))
    → Runs n (calling (λ i. all_calls (methods i))) k s
    → (k + total work_of n s.threads
        ≡ total work_of n (calling (λ i. all_calls (methods i))).threads)
      × (AllReturned n s ⊎ CanStep n s)
      × Finishes n s
methods-Return n k methods s h runs =
    calls-Return n k (λ i. all_calls (methods i)) s (λ i l. all_calls-fits (methods i) (h i l)) runs
