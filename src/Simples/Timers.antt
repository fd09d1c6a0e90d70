-- ===== src/Simples/Timers.antt =====
-- The timers of SimplesTunnel.Update in tunnel/simples_tunnel.go.
use go_playit.Base.{
  ◌↔◌, ◌≡◌, ◌<◌, ◌≤◌, ◌^◌, ◌*◌, ◌+◌, [], false, true, none, suc, zero, refl, ℕ, arith, length,
  length-append, replicate,
}
use go_playit.Control.{rec_feed_msg}
use go_playit.Simples.{SimplesTunnel}
use go_playit.Simples.Update.{
  carry_on, Tick, Arrival, since, ping_part, keep_alive_part, pong_part, feed_loop, one_pass,
}

-- The test for a keep-alive compares the smaller of two Unix stamps with 30 seconds: once both the
-- clock and the expiry are past the first 30 seconds of 1970, none is sent.
pub keep_alive_never_sent :
    (k : Tick) (tun : SimplesTunnel)
    → 30000 ≤ k.now
    → 30000 ≤ tun.control_channel.registered.expires_at
    → keep_alive_part k tun ≡ (tun, [])
unfolding keep_alive_part
keep_alive_never_sent k tun h e = ground arith

-- After a ping is sent, at a time below 2 ^ 63, none follows for 1000 milliseconds of a clock that does
-- not run backwards.
pub ping_spacing :
    (k k' : Tick) (tun : SimplesTunnel)
    → k.now ≤ k'.now
    → k'.now ≤ k.now + 1000
    → k.now < 2 ^ 63
    → 1000 < since k.now tun.last_ping
    → let tun' = (ping_part k tun).0 in ping_part k' tun' ≡ (tun', [])
unfolding ping_part
ping_spacing k k' tun h l b s = ground arith

-- A channel that was not forced to expire before the last test of an Update is so after it exactly if
-- a pong was noted, more than six seconds ago, for a noted time that is not in the future.
pub pong_deadline :
    (k : Tick) (tun : SimplesTunnel)
    → tun.last_pong ≤ k.end_now
    → k.end_now < 2 ^ 64
    → tun.control_channel.force_expired ≡ false
    → ((pong_part k tun).control_channel.force_expired ≡ true)
      ↔ ((0 < tun.last_pong) × (tun.last_pong + 6000 < k.end_now))
unfolding pong_part
pong_deadline k tun h b f = ground arith

-- No read of the feed succeeds.
abbrev pub Silent : (ℕ → Arrival) → Type 0
Silent arrivals = (n : ℕ) → (arrivals n).received ≡ none

abbrev pub buffered : SimplesTunnel → ℕ
buffered tun = length tun.control_channel.buff

silent_pass :
    (a : Arrival) (timeout : ℕ) (tun : SimplesTunnel)
    → a.received ≡ none
    → let (pass, tun', sent) = one_pass a timeout tun in
      (pass ≡ carry_on (timeout + 1)) × (sent ≡ []) × (buffered tun' ≡ buffered tun + 1024)
unfolding one_pass rec_feed_msg
silent_pass a timeout tun h =
    ground (arith, length-append tun.control_channel.buff (replicate 1024 0))

feed_loop-Silent :
    (arrivals : ℕ → Arrival) (left timeout : ℕ) (tun : SimplesTunnel)
    → Silent arrivals
    → 10 ≤ left + timeout
    → timeout ≤ 10
    → let (r, tun', sent) = feed_loop arrivals left timeout tun in
      (r ≡ none) × (sent ≡ []) × (buffered tun' + 1024 * timeout ≡ buffered tun + 10240)
unfolding feed_loop
feed_loop-Silent arrivals zero timeout tun s h k = (refl, refl, omega arith)
feed_loop-Silent arrivals (suc left) timeout tun s h k = ground (
  arith,
  silent_pass (arrivals left) timeout tun (s left),
  feed_loop-Silent arrivals left (timeout + 1) (one_pass (arrivals left) timeout tun).1 s,
)

-- Where no read succeeds, the feed loop of Update ends with nothing to return and nothing sent, and
-- the channel's buffer has grown by 1024 bytes for each of ten passes.
pub feed_loop_gives_up :
    (arrivals : ℕ → Arrival) (tun : SimplesTunnel)
    → Silent arrivals
    → let (r, tun', sent) = feed_loop arrivals 30 0 tun in
      (r ≡ none) × (sent ≡ []) × (buffered tun' ≡ buffered tun + 10240)
feed_loop_gives_up arrivals tun s =
    let (r, sent, grown) = feed_loop-Silent arrivals 30 0 tun s (omega arith) (omega arith) in
    (r, sent, omega (arith, grown))
