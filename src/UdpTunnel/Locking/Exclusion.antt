-- ===== src/UdpTunnel/Locking/Exclusion.antt =====
-- What the lock in the methods of tunnel/udp_tunnel.go excludes.
use go_playit.Base.{ℕ, zero, suc, ◌<◌, ◌≡◌, ◌≢◌, refl, List, [], ◌∷◌, ◌++◌, drop, length, true}
use go_playit.Rwlock.Threads.{
  Call, leave, write_calls, Phase, outside, waiting, inside, fits, System, Runs, calling,
}
use go_playit.Rwlock.Exclusion.{Inv, AllFit, Runs-Inv, writer_excludes}
use go_playit.UdpTunnel.Locking.{
  Method, gets, sets, receives, method_calls, all_calls, getter_calls, set_udp_tunnel_calls,
  receive_from_calls-fits, fits-append,
}

-- A method undoes each lock, and holds at most two reads at a time.
method_calls-fits_two : (m : Method) → fits 2 0 outside (method_calls m) ≡ true
unfolding method_calls getter_calls set_udp_tunnel_calls fits
method_calls-fits_two gets = refl
method_calls-fits_two sets = refl
method_calls-fits_two (receives received t) = (receive_from_calls-fits received t).1

all_calls-fits_two : (methods : List Method) → fits 2 0 outside (all_calls methods) ≡ true
unfolding all_calls fits
all_calls-fits_two [] = refl
all_calls-fits_two (m ∷ ms) =
    fits-append 2 0 outside (method_calls m) (all_calls ms) (method_calls-fits_two m)
      (all_calls-fits_two ms)

pub methods-AllFit : (n : ℕ) (methods : ℕ → List Method) → AllFit 2 n (λ i. all_calls (methods i))
methods-AllFit n methods i l = all_calls-fits_two (methods i)

fits_leave :
    (most held : ℕ) (phase : Phase) (calls : List Call)
    → fits most held phase (leave ∷ calls) ≡ true
    → phase ≡ inside
unfolding fits
fits_leave most zero inside calls h = refl
fits_leave most zero outside calls h = absurd (cc)
fits_leave most zero waiting calls h = absurd (cc)
fits_leave most (suc held) inside calls h = absurd (cc)
fits_leave most (suc held) outside calls h = absurd (cc)
fits_leave most (suc held) waiting calls h = absurd (cc)

-- What SetUdpTunnel has left to call once its Write has returned.
abbrev pub behind_write : List Call → List Call
behind_write more = drop (length write_calls) set_udp_tunnel_calls ++ more

pub behind_write-inside :
    (most n : ℕ) (s : System) (i : ℕ) (more : List Call)
    → Inv most n s
    → i < n
    → (s.threads i).rest ≡ behind_write more
    → (s.threads i).phase ≡ inside
unfolding set_udp_tunnel_calls
behind_write-inside most n s i more v l e =
    fits_leave most (s.threads i).reads (s.threads i).phase more (rw e at (v.fitting i l))

-- However the goroutines that use the channel interleave their methods: while one is in SetUdpTunnel
-- between the return of Write and the unlock, no other holds a read of the lock, and no other is there.
pub set_udp_tunnel_excludes :
    (n k : ℕ) (methods : ℕ → List Method) (s : System) (i j : ℕ) (more : List Call)
    → Runs n (calling (λ i. all_calls (methods i))) k s
    → i < n
    → j < n
    → j ≢ i
    → (s.threads i).rest ≡ behind_write more
    → ((s.threads j).reads ≡ 0) × ((more' : List Call) → (s.threads j).rest ≢ behind_write more')
set_udp_tunnel_excludes n k methods s i j more runs l l' d e =
    let fit = methods-AllFit n methods in
    let v = Runs-Inv 2 n (λ i. all_calls (methods i)) fit k s runs in
    let (reads, not_inside) =
      writer_excludes 2 n k (λ i. all_calls (methods i)) s i j fit runs l l' d
        (behind_write-inside 2 n s i more v l e) in
    (reads, λ more' f. not_inside (behind_write-inside 2 n s j more' v l' f))
