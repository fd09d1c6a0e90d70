-- ===== src/UdpTunnel/Clock.antt =====
-- The uint32 second clock of tunnel/udp_tunnel.go, and the two deadlines that it drives.
use go_playit.Response.{UdpChannelDetails}
use go_playit.UdpTunnel.{UdpTunnel, now_sec, require_resend, requires_auth, send_token}
use go_playit.Base.{arith, ℕ, ◌↔◌, ◌≡◌, ◌<◌, ◌≤◌, ◌+◌, false, true, none}

-- The milliseconds are cut to 32 bits before the division, so the seconds stay below 2^32 / 1000.
pub now_sec-lt : (now : ℕ) → now_sec now < 4294968
unfolding now_sec
now_sec-lt now = omega arith

-- Where the clock has not wrapped since the last send, authentication is required exactly if that
-- send is no older than the last confirmation, and more than five seconds have passed since it.
pub requires_auth_iff :
    (now : ℕ) (t : UdpTunnel)
    → t.last_send ≤ now_sec now
    → (requires_auth now t ≡ true)
      ↔ ((t.last_confirm ≤ t.last_send) × (t.last_send + 5 < now_sec now))
unfolding requires_auth
requires_auth_iff now t h = ground (arith, now_sec-lt now)

-- A token that SendToken sends without error at `now` keeps authentication off for the next five seconds of the clock.
pub send_token-requires_auth :
    (now later : ℕ) (details : UdpChannelDetails) (t : UdpTunnel)
    → (send_token now details t).2 ≡ none
    → now_sec now ≤ now_sec later
    → now_sec later ≤ now_sec now + 5
    → requires_auth later (send_token now details t).0 ≡ false
unfolding requires_auth send_token
send_token-requires_auth now later details t ok_ h k = ground (arith, now_sec-lt later)

-- Where the last confirmation and the last send have one stamp, later than the clock, as after a wrap
-- of it, both a resend and authentication are required.
pub stamps_expire_at_wrap :
    (now : ℕ) (t : UdpTunnel)
    → now_sec now < t.last_confirm
    → t.last_confirm < 4294968
    → t.last_send ≡ t.last_confirm
    → (require_resend now t ≡ true) × (requires_auth now t ≡ true)
unfolding require_resend requires_auth
stamps_expire_at_wrap now t h k e = ground arith
