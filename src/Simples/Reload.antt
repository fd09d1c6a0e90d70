-- ===== src/Simples/Reload.antt =====
-- When tunnel/simples_tunnel.go moves to another control server.
use go_playit.Base.{
  ◌∙◌, panic, err, ◌++◌, ◌≢◌, ◌≡◌, ◌∷◌, [], ok, Result-cases, Bool-cases, ◌⊎◌, inl, inr, false,
  true, refl, List, arith, All,
}
use go_playit.Netip.{AddrPort, same_addr_port, same_addr_port_refl}
use go_playit.UdpTunnel.{invalidate_session}
use go_playit.Register.{authenticate}
use go_playit.Control.{ConnectedControl}
use go_playit.Setup.{setup}
use go_playit.Simples.{
  SimplesTunnel, World, control_addresses, listed, some_missing, update_control_addr, reload_to,
  reload_control_addr,
}

some_missing-append :
    (front back : List AddrPort) (a : AddrPort) (addresses : List AddrPort)
    → listed a addresses ≡ false
    → some_missing (front ++ (a ∷ back)) addresses ≡ true
unfolding some_missing
some_missing-append [] back a addresses h = rw h
some_missing-append (x ∷ front) back a addresses h =
    ground (arith, some_missing-append front back a addresses h)

-- Where an address of the last reload is gone from the API's list, reloading does nothing: the
-- tunnel stays at its control server, and is told that it need not move.
reload_skips_changed :
    (w : World) (tun : SimplesTunnel) (addresses front back : List AddrPort) (a : AddrPort)
    → control_addresses w.routing ≡ ok addresses
    → tun.last_control_targets ≡ front ++ (a ∷ back)
    → listed a addresses ≡ false
    → reload_control_addr w tun ≡ (tun, ok false)
unfolding reload_control_addr reload_to
reload_skips_changed w tun addresses front back a e t h =
    ground (arith, some_missing-append front back a addresses h)

some_missing-All :
    (targets addresses : List AddrPort)
    → some_missing targets addresses ≡ false
    → All (λ a. listed a addresses ≡ true) targets
unfolding some_missing
some_missing-All [] addresses h = tt
some_missing-All (a ∷ as') addresses h =
    (ground (arith, h), some_missing-All as' addresses (ground (arith, h)))

-- What a move makes of the tunnel.
pub record IsMoved (w : World) (tun tun' : SimplesTunnel) : Type 0 where
  pub addresses : List AddrPort
  pub routed : control_addresses w.routing ≡ ok addresses
  pub listed_still : All (λ a. listed a addresses ≡ true) tun.last_control_targets
  pub targets : tun'.last_control_targets ≡ addresses
  pub elsewhere : tun'.control_addr ≢ tun.control_addr
  pub due : (tun'.last_ping ≡ 0) × (tun'.last_keep_alive ≡ 0) × (tun'.last_udp_auth ≡ 0)
  pub invalidated : (tun'.udp_tunnel.last_confirm ≡ 0) × (tun'.udp_tunnel.last_send ≡ 0)
  pub details : tun'.udp_tunnel.details ≡ tun.udp_tunnel.details
  pub pong : tun'.last_pong ≡ tun.last_pong

-- The tunnel as it was, but perhaps for the addresses of the API's list.
pub IsKept : World → SimplesTunnel → SimplesTunnel → Type 0
IsKept w tun tun' =
    (tun' ≡ tun)
    ⊎ ((addresses : List AddrPort) × (control_addresses w.routing ≡ ok addresses)
        × (tun' ≡ record tun { last_control_targets = addresses }))

as_it_was : (w : World) (tun : SimplesTunnel) → IsKept w tun tun
unfolding IsKept
as_it_was w tun = inl refl

-- Whether an update moved the tunnel.
record IsUpdated (tun tun' : SimplesTunnel) : Type 0 where
  pub elsewhere : tun'.control_addr ≢ tun.control_addr
  pub due : (tun'.last_ping ≡ 0) × (tun'.last_keep_alive ≡ 0) × (tun'.last_udp_auth ≡ 0)
  pub invalidated : (tun'.udp_tunnel.last_confirm ≡ 0) × (tun'.udp_tunnel.last_send ≡ 0)
  pub details : tun'.udp_tunnel.details ≡ tun.udp_tunnel.details
  pub pong : tun'.last_pong ≡ tun.last_pong

other_addr : (a b : AddrPort) → same_addr_port a b ≡ false → a ≢ b
other_addr a b h e =
    let same : same_addr_port a b ≡ true = rw (← e) (same_addr_port_refl a) in
    absurd (ground (arith, h, same))

update_moves_or_stays :
    (w : World) (connected : ConnectedControl) (tun : SimplesTunnel)
    → let (tun', r) = update_control_addr w connected tun in
      ((r ≡ ok true) × IsUpdated tun tun') ⊎ ((r ≢ ok true) × (tun' ≡ tun))
unfolding update_control_addr invalidate_session
update_moves_or_stays w connected tun =
    elim (Bool-cases (same_addr_port connected.control_addr tun.control_addr)) [
      | inl same ↦ inr (rw same (λ e. cc), rw same refl)
      | inr other ↦ elim (Result-cases (authenticate w.register w.replies connected)) [
        | inl (channel, e) ↦
            rw (other, e)
              (inl (
                refl,
                record {
                  elsewhere = other_addr connected.control_addr tun.control_addr other;
                  due = (refl, refl, refl);
                  invalidated = (refl, refl);
                  details = refl;
                  pong = refl;
                },
              ))
        | inr (inl (x, e)) ↦ rw (other, e) (inr ((λ f. cc), refl))
        | inr (inr e) ↦ rw (other, e) (inr ((λ f. cc), refl))
      ]
    ]

reload_to_moves_or_stays :
    (w : World) (addresses : List AddrPort) (tun : SimplesTunnel)
    → control_addresses w.routing ≡ ok addresses
    → let (tun', r) = reload_to w addresses tun in
      ((r ≡ ok true) × IsMoved w tun tun') ⊎ ((r ≢ ok true) × IsKept w tun tun')
unfolding reload_to IsKept
reload_to_moves_or_stays w addresses tun routed =
    elim (Bool-cases (some_missing tun.last_control_targets addresses)) [
      | inl missing ↦ rw missing (inr ((λ e. cc), inl refl))
      | inr still ↦ elim (Result-cases (setup w.network addresses)) [
        | inr (inl (x, e)) ↦ rw (still, e) (inr ((λ f. cc), inl refl))
        | inr (inr e) ↦ rw (still, e) (inr ((λ f. cc), inl refl))
        | inl (connected, e) ↦ elim (update_moves_or_stays w connected tun) [
          | inl (updated, u) ↦
              rw (still, e, updated)
                (inl (
                  refl,
                  record {
                    addresses = addresses;
                    routed = routed;
                    listed_still = some_missing-All tun.last_control_targets addresses still;
                    targets = refl;
                    elsewhere = u.elsewhere;
                    due = u.due;
                    invalidated = u.invalidated;
                    details = u.details;
                    pong = u.pong;
                  },
                ))
          | inr (stays, same) ↦ elim (Result-cases (update_control_addr w connected tun).1) [
            | inr (inl (x, u)) ↦
                rw (still, e, u, same) (inr ((λ f. cc), inr (addresses, routed, refl)))
            | inr (inr u) ↦ rw (still, e, u, same) (inr ((λ f. cc), inl refl))
            | inl (b, u) ↦
                rw (still, e, u, same) (inr ((λ f. stays (u ∙ f)), inr (addresses, routed, refl)))
          ]
        ]
      ]
    ]

-- ReloadControlAddr either returns true and has moved the tunnel, or it returns false, an error or panics
-- and has left the tunnel as it was, but perhaps for the list of the API's addresses, which it keeps. A
-- move is to another control address, and only where every address of the last reload is still listed.
-- It sets the stamps of ping, keep-alive and UDP authentication and both stamps of the UDP channel to 0,
-- and keeps the channel's details and the stamp of the last pong.
pub reload_moves_or_stays :
    (w : World) (tun : SimplesTunnel)
    → let (tun', r) = reload_control_addr w tun in
      ((r ≡ ok true) × IsMoved w tun tun') ⊎ ((r ≢ ok true) × IsKept w tun tun')
reload_moves_or_stays w tun = elim (Result-cases (control_addresses w.routing)) [
  | inl (addresses, e) ↦
      let reloads : reload_control_addr w tun ≡ reload_to w addresses tun =
        unfold reload_control_addr in ground (arith, e) in
      rw reloads (reload_to_moves_or_stays w addresses tun e)
  | inr (inl (x, e)) ↦
      let fails : reload_control_addr w tun ≡ (tun, err x) =
        unfold reload_control_addr in ground (arith, e) in
      rw fails (inr ((λ f. cc), as_it_was w tun))
  | inr (inr e) ↦
      let panics : reload_control_addr w tun ≡ (tun, panic) =
        unfold reload_control_addr in ground (arith, e) in
      rw panics (inr ((λ f. cc), as_it_was w tun))
]
