-- ===== src/Simples/Preserves.antt =====
-- A property of the tunnel that every part of Update in tunnel/simples_tunnel.go keeps is kept by
-- Update, however often it runs.
use go_playit.Base.{
  Result-cases, Option-cases, leb, Bool-cases, ◌⊎◌, ◌≡◌, inr, inl, ◌∷◌, [], suc, zero, ℕ, List,
  Result, Option, refl,
}
use go_playit.Feed.{ControlFeed, NewClient}
use go_playit.Control.{is_expired, rec_feed_msg, reauthenticate}
use go_playit.Simples.{SimplesTunnel}
use go_playit.Simples.Update.{
  handle_feed, pong_part, return, keep_alive_part, resend_part, carry_on, auth_part,
  refreshed_update, receive_part, feed_loop, one_pass, update, Pass, ping_part, Tick, Arrival,
}
use go_playit.UdpTunnel.{require_resend, requires_auth}

pub record IsPreserved (P : SimplesTunnel → Type 0) : Type 0 where
  pub pinged : (k : Tick) (tun : SimplesTunnel) → P tun → P (ping_part k tun).0
  pub authed : (k : Tick) (tun : SimplesTunnel) → P tun → P (auth_part k tun).0
  pub resent : (k : Tick) (tun : SimplesTunnel) → P tun → P (resend_part k tun).0
  pub kept_alive : (k : Tick) (tun : SimplesTunnel) → P tun → P (keep_alive_part k tun).0
  pub noted : (k : Tick) (tun : SimplesTunnel) → P tun → P (pong_part k tun)
  pub fed :
      (a : Arrival) (timeout : ℕ) (feed : ControlFeed) (tun : SimplesTunnel)
      → P tun
      → P (handle_feed a timeout feed tun).1
  pub received :
      (a : Arrival) (tun : SimplesTunnel)
      → P tun
      → P (record tun {
        control_channel = (rec_feed_msg a.pong_now a.received tun.control_channel).1;
      })
  pub registered :
      (k : Tick) (tun : SimplesTunnel)
      → P tun
      → P (record tun { control_channel = (reauthenticate k.registering tun.control_channel).1 })

Pass-cases :
    (p : Pass) → ((t : ℕ) × (p ≡ carry_on t)) ⊎ ((r : Result (Option NewClient)) × (p ≡ return r))
Pass-cases (carry_on t) = inl (t, refl)
Pass-cases (return r) = inr (r, refl)

-- A run of Updates, each with what it gets from outside.
unfoldable pub updates : List Tick → SimplesTunnel → SimplesTunnel
updates [] tun = tun
updates (k ∷ ks) tun = updates ks (update k tun).1

module _ {P : SimplesTunnel → Type 0} (keeps : IsPreserved P) where
  one_pass-keeps :
      (a : Arrival) (timeout : ℕ) (tun : SimplesTunnel) → P tun → P (one_pass a timeout tun).1
  unfolding one_pass
  one_pass-keeps a timeout tun p =
      let channel = (rec_feed_msg a.pong_now a.received tun.control_channel).1 in
      let tun' : SimplesTunnel = record tun { control_channel = channel } in
      let p' = keeps.received a tun p in
      elim (Result-cases (rec_feed_msg a.pong_now a.received tun.control_channel).0) [
        | inl (feed, e) ↦ rw (one_pass, e) (keeps.fed a timeout feed tun' p')
        | inr (inl (x, e)) ↦ rw (one_pass, e) p'
        | inr (inr e) ↦ rw (one_pass, e) p'
      ]

  feed_loop-keeps :
      (arrivals : ℕ → Arrival) (left timeout : ℕ) (tun : SimplesTunnel)
      → P tun
      → P (feed_loop arrivals left timeout tun).1
  unfolding feed_loop
  feed_loop-keeps arrivals zero timeout tun p = p
  feed_loop-keeps arrivals (suc left) timeout tun p =
      let tun' = (one_pass (arrivals left) timeout tun).1 in
      let p' = one_pass-keeps (arrivals left) timeout tun p in
      elim (Bool-cases (leb 10 timeout)) [
        | inl e ↦ rw e p
        | inr e ↦ elim (Pass-cases (one_pass (arrivals left) timeout tun).0) [
          | inl (t, f) ↦ rw (e, f) (feed_loop-keeps arrivals left t tun' p')
          | inr (r, f) ↦ rw (e, f) p'
        ]
      ]

  receive_part-keeps : (k : Tick) (tun : SimplesTunnel) → P tun → P (receive_part k tun).1
  unfolding receive_part
  receive_part-keeps k tun p =
      let tun1 = (resend_part k tun).0 in
      let tun2 = (keep_alive_part k tun1).0 in
      let p2 = keeps.kept_alive k tun1 (keeps.resent k tun p) in
      let p3 = feed_loop-keeps k.arrivals 30 0 tun2 p2 in
      elim (Option-cases (feed_loop k.arrivals 30 0 tun2).0) [
        | inl e ↦ rw (receive_part, e) (keeps.noted k (feed_loop k.arrivals 30 0 tun2).1 p3)
        | inr (r, e) ↦ rw (receive_part, e) p3
      ]

  refreshed_update-keeps : (k : Tick) (tun : SimplesTunnel) → P tun → P (refreshed_update k tun).1
  unfolding refreshed_update
  refreshed_update-keeps k tun p =
      let tun1 = (ping_part k tun).0 in
      let p1 = keeps.pinged k tun p in
      elim (Bool-cases (requires_auth k.auth_now tun1.udp_tunnel)) [
        | inl e ↦ rw e (keeps.noted k (auth_part k tun1).0 (keeps.authed k tun1 p1))
        | inr e ↦ elim (Bool-cases (require_resend k.resend_now tun1.udp_tunnel)) [
          | inl f ↦ rw (e, f) (receive_part-keeps k tun1 p1)
          | inr f ↦ rw (e, f) (keeps.noted k tun1 p1)
        ]
      ]

  pub update-keeps : (k : Tick) (tun : SimplesTunnel) → P tun → P (update k tun).1
  unfolding update
  update-keeps k tun p =
      let channel = (reauthenticate k.registering tun.control_channel).1 in
      let tun' : SimplesTunnel = record tun { control_channel = channel } in
      let p' = keeps.registered k tun p in
      elim (Bool-cases (is_expired tun.control_channel)) [
        | inr e ↦ rw e (refreshed_update-keeps k tun p)
        | inl e ↦ elim (Result-cases (reauthenticate k.registering tun.control_channel).0) [
          | inl (u, f) ↦ rw (e, f) (refreshed_update-keeps k tun' p')
          | inr (inl (x, f)) ↦ rw (e, f) p'
          | inr (inr f) ↦ rw (e, f) p'
        ]
      ]

  pub updates-keeps : (ks : List Tick) (tun : SimplesTunnel) → P tun → P (updates ks tun)
  unfolding updates
  updates-keeps [] tun p = p
  updates-keeps (k ∷ ks) tun p = updates-keeps ks (update k tun).1 (update-keeps k tun p)
