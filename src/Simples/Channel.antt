-- ===== src/Simples/Channel.antt =====
-- What Update of tunnel/simples_tunnel.go does to the UDP channel.
use go_playit.UdpTunnel.{ChannelDetails, is_setup, assign_udp_tunnel}
use go_playit.Simples.{World, setup_tunnel}
use go_playit.Simples.Update.{update}
use go_playit.Base.{List, ◌∙◌, [], ok, none, refl, Option-cases, ◌≡◌, inr, inl, false, ℕ, arith}
use go_playit.Feed.{ControlFeed}
use go_playit.Response.{ControlResponse}
use go_playit.UdpTunnel.Details.{set-details, resend-details}
use go_playit.Simples.{SimplesTunnel}
use go_playit.Simples.Update.{
  Tick, Arrival, ping_part, auth_part, resend_part, keep_alive_part, handle_response, handle_feed,
  pong_part,
}
use go_playit.Rwlock.{Rwlock}
use go_playit.Simples.Preserves.{IsPreserved, updates-keeps, updates, update-keeps}

-- The details of the UDP channel, with its lock.
abbrev pub SameDetails : SimplesTunnel → SimplesTunnel → Type 0
SameDetails tun' tun = tun'.udp_tunnel.details ≡ tun.udp_tunnel.details

abbrev IsFree : SimplesTunnel → Type 0
IsFree tun = tun.udp_tunnel.details.writer ≡ false

ping-details : (k : Tick) (tun : SimplesTunnel) → SameDetails (ping_part k tun).0 tun
unfolding ping_part
ping-details k tun = ground arith

auth-details : (k : Tick) (tun : SimplesTunnel) → SameDetails (auth_part k tun).0 tun
unfolding auth_part
auth-details k tun = ground arith

resend_part-details : (k : Tick) (tun : SimplesTunnel) → SameDetails (resend_part k tun).0 tun
unfolding resend_part
resend_part-details k tun = ground (arith, resend-details k.token_now tun.udp_tunnel)

keep_alive-details : (k : Tick) (tun : SimplesTunnel) → SameDetails (keep_alive_part k tun).0 tun
unfolding keep_alive_part
keep_alive-details k tun = ground arith

pong-details : (k : Tick) (tun : SimplesTunnel) → SameDetails (pong_part k tun) tun
unfolding pong_part
pong-details k tun = ground arith

response-details :
    (a : Arrival) (timeout : ℕ) (content : ControlResponse) (tun : SimplesTunnel)
    → IsFree tun
    → SameDetails (handle_response a timeout content tun).1 tun
unfolding handle_response
response-details a timeout content tun h = elim (Option-cases content.udp_channel_details) [
  | inl e ↦ ground (arith, e)
  | inr (d, e) ↦ ground (arith, e, set-details a.token_now d tun.udp_tunnel h)
]

feed-details :
    (a : Arrival) (timeout : ℕ) (feed : ControlFeed) (tun : SimplesTunnel)
    → IsFree tun
    → SameDetails (handle_feed a timeout feed tun).1 tun
unfolding handle_feed
feed-details a timeout feed tun h = elim (Option-cases feed.response) [
  | inl e ↦ ground (arith, e)
  | inr (m, e) ↦ ground (arith, e, response-details a timeout m.content tun h)
]

-- Every part of Update keeps details that no writer holds.
pub details-IsPreserved :
    (d : Rwlock ChannelDetails) → d.writer ≡ false → IsPreserved (λ tun. tun.udp_tunnel.details ≡ d)
details-IsPreserved d free = record {
  pinged = λ k tun e. ping-details k tun ∙ e;
  authed = λ k tun e. auth-details k tun ∙ e;
  resent = λ k tun e. resend_part-details k tun ∙ e;
  kept_alive = λ k tun e. keep_alive-details k tun ∙ e;
  noted = λ k tun e. pong-details k tun ∙ e;
  fed = λ a timeout feed tun e. feed-details a timeout feed tun (rw (e, free)) ∙ e;
  received = λ a tun e. e;
  registered = λ k tun e. e;
}

-- An Update leaves the details of the UDP channel as they are, whatever the control server sends,
-- UDP channel details included, provided that no writer holds their lock.
pub update-details :
    (k : Tick) (tun : SimplesTunnel)
    → tun.udp_tunnel.details.writer ≡ false
    → (update k tun).1.udp_tunnel.details ≡ tun.udp_tunnel.details
update-details k tun h = update-keeps (details-IsPreserved tun.udp_tunnel.details h) k tun refl

-- Setup leaves the details unset, and their lock free.
abbrev pub unset : Rwlock ChannelDetails
unset = record { value = record { udp = none; addr_history = [] }; readers = 0; writer = false }

pub setup_tunnel-unset :
    (w : World) (tun : SimplesTunnel) → setup_tunnel w ≡ ok tun → tun.udp_tunnel.details ≡ unset
unfolding setup_tunnel assign_udp_tunnel
setup_tunnel-unset w tun e = ground (arith, e)

pub unset-is_setup :
    (tun : SimplesTunnel) → tun.udp_tunnel.details ≡ unset → (is_setup tun.udp_tunnel).0 ≡ false
unfolding is_setup
unset-is_setup tun e = ground (arith, e)

-- Whatever the API and the control server answer, after Setup and any number of Updates the UDP
-- channel is not set up.
pub updates_never_set_up :
    (w : World) (ks : List Tick) (tun : SimplesTunnel)
    → setup_tunnel w ≡ ok tun
    → (is_setup (updates ks tun).udp_tunnel).0 ≡ false
updates_never_set_up w ks tun e =
    unset-is_setup (updates ks tun)
      (updates-keeps (details-IsPreserved unset refl) ks tun (setup_tunnel-unset w tun e))
