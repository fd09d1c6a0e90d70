-- ===== src/Simples/Forced.antt =====
-- What a forced expiry of the control channel does to Update in tunnel/simples_tunnel.go.
use go_playit.Base.{Option, arith, Result, ◌∙◌, ◌≡◌, true, some, none, ℕ, List, refl}
use go_playit.Simples.{SimplesTunnel}
use go_playit.Simples.Update.{
  handle_response, handle_feed, pong_part, keep_alive_part, resend_part, auth_part, ping_part, Tick,
  Arrival,
}
use go_playit.Simples.Preserves.{IsPreserved, updates, updates-keeps}
use go_playit.Control.{
  apply_response, send_keep_alive, send_setup_udp_channel, send_ping, AuthenticatedControl,
  apply_feed, decode_feed, SocketError, rec_feed_msg, send, is_expired, reauthenticate,
}
use go_playit.Rpc.{ControlRpcMessage}
use go_playit.Feed.{ControlFeed}
use go_playit.UdpTunnel.Rx.{Datagram}
use go_playit.Request.{ControlRequest}

abbrev IsForced : SimplesTunnel → Type 0
IsForced tun = tun.control_channel.force_expired ≡ true

send-forced :
    (failure : SocketError) (m : ControlRpcMessage ControlRequest) (auth : AuthenticatedControl)
    → (send failure m auth).0.force_expired ≡ auth.force_expired
unfolding send
send-forced failure m auth = ground arith

ping_sent-forced :
    (failure : SocketError) (id now : ℕ) (auth : AuthenticatedControl)
    → (send_ping failure id now auth).0.force_expired ≡ auth.force_expired
unfolding send_ping
ping_sent-forced failure id now auth = send-forced failure _ auth

kept-forced :
    (failure : SocketError) (id : ℕ) (auth : AuthenticatedControl)
    → (send_keep_alive failure id auth).0.force_expired ≡ auth.force_expired
unfolding send_keep_alive
kept-forced failure id auth = send-forced failure _ auth

set_up-forced :
    (failure : SocketError) (id : ℕ) (auth : AuthenticatedControl)
    → (send_setup_udp_channel failure id auth).0.force_expired ≡ auth.force_expired
unfolding send_setup_udp_channel
set_up-forced failure id auth = send-forced failure _ auth

received-forced :
    (now : ℕ) (d : Option Datagram) (auth : AuthenticatedControl)
    → (rec_feed_msg now d auth).1.force_expired ≡ auth.force_expired
unfolding rec_feed_msg decode_feed apply_feed apply_response
received-forced now none auth = refl
received-forced now (some d) auth = ground arith

registered-forced :
    (r : Result AuthenticatedControl) (auth : AuthenticatedControl)
    → (reauthenticate r auth).1.force_expired ≡ auth.force_expired
unfolding reauthenticate
registered-forced r auth = ground arith

ping-IsForced : (k : Tick) (tun : SimplesTunnel) → IsForced tun → IsForced (ping_part k tun).0
unfolding ping_part
ping-IsForced k tun h =
    ground (arith, ping_sent-forced k.ping_failure 200 k.now tun.control_channel)

auth-IsForced : (k : Tick) (tun : SimplesTunnel) → IsForced tun → IsForced (auth_part k tun).0
unfolding auth_part
auth-IsForced k tun h = ground (arith, set_up-forced k.setup_failure 9000 tun.control_channel)

resend-IsForced : (k : Tick) (tun : SimplesTunnel) → IsForced tun → IsForced (resend_part k tun).0
unfolding resend_part
resend-IsForced k tun h = ground arith

kept_alive-IsForced :
    (k : Tick) (tun : SimplesTunnel) → IsForced tun → IsForced (keep_alive_part k tun).0
unfolding keep_alive_part
kept_alive-IsForced k tun h =
    let channel = (send_keep_alive k.keep_failure 100 tun.control_channel).0 in
    ground (
      arith,
      kept-forced k.keep_failure 100 tun.control_channel,
      set_up-forced k.setup_again_failure 1 channel,
    )

noted-IsForced : (k : Tick) (tun : SimplesTunnel) → IsForced tun → IsForced (pong_part k tun)
unfolding pong_part
noted-IsForced k tun h = ground arith

fed-IsForced :
    (a : Arrival) (timeout : ℕ) (feed : ControlFeed) (tun : SimplesTunnel)
    → IsForced tun
    → IsForced (handle_feed a timeout feed tun).1
unfolding handle_feed handle_response
fed-IsForced a timeout feed tun h = ground arith

IsForced-IsPreserved : IsPreserved IsForced
IsForced-IsPreserved = record {
  pinged = ping-IsForced;
  authed = auth-IsForced;
  resent = resend-IsForced;
  kept_alive = kept_alive-IsForced;
  noted = noted-IsForced;
  fed = fed-IsForced;
  received = λ a tun h. received-forced a.pong_now a.received tun.control_channel ∙ h;
  registered = λ k tun h. registered-forced k.registering tun.control_channel ∙ h;
}

-- Once its expiry is forced, the control channel is expired after any number of Updates, however many
-- of their registrations succeed.
pub updates_stay_expired :
    (ks : List Tick) (tun : SimplesTunnel)
    → tun.control_channel.force_expired ≡ true
    → is_expired (updates ks tun).control_channel ≡ true
unfolding is_expired
updates_stay_expired ks tun h = rw (updates-keeps IsForced-IsPreserved ks tun h)
