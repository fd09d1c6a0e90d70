-- ===== src/Simples/Update.antt =====
-- SimplesTunnel.Update of tunnel/simples_tunnel.go.
use go_playit.Base.{
  if◌then◌else◌, ◌==◌, ◌&&◌, ◌++◌, ◌^◌, ◌%◌, ◌-◌, ◌+◌, [], panic, err, ok, true, some, none, suc,
  zero, ℕ, List, Option, Result, not, ltb, leb,
}
use go_playit.Feed.{ControlFeed, NewClient}
use go_playit.Response.{ControlResponse}
use go_playit.UdpTunnel.{Sent, requires_auth, require_resend, resend_token, set_udp_tunnel}
use go_playit.UdpTunnel.Rx.{Datagram}
use go_playit.Control.{
  AuthenticatedControl, SocketError, is_expired, reauthenticate, send_ping, send_keep_alive,
  send_setup_udp_channel, rec_feed_msg,
}
use go_playit.Simples.{SimplesTunnel}

-- What one read of the feed gets: the socket's result, the time at which a pong is applied, the time
-- of a token that is sent, and the time that is noted for a pong.
pub record Arrival : Type 0 where
  pub received : Option Datagram
  pub pong_now : ℕ
  pub token_now : ℕ
  pub noted_now : ℕ

-- The answers to one Update: registering anew, the clock at each use, the sockets, the feed.
pub record Tick : Type 0 where
  pub registering : Result AuthenticatedControl
  pub now : ℕ
  pub auth_now : ℕ
  pub resend_now : ℕ
  pub token_now : ℕ
  pub end_now : ℕ
  pub ping_failure : SocketError
  pub setup_failure : SocketError
  pub keep_failure : SocketError
  pub setup_again_failure : SocketError
  pub arrivals : ℕ → Arrival

-- `a - b` on uint64.
abbrev pub since : ℕ → ℕ → ℕ
since a b = (a + 2 ^ 64 - b) % 2 ^ 64

-- A part of Update: the new state, and the datagrams handed to sockets. The errors of sending are
-- logged and dropped.
abbrev pub Part : Type 0
Part = SimplesTunnel → SimplesTunnel × List Sent

abbrev pub followed_by : Part → Part → Part
followed_by f g tun =
    let (tun', sent) = f tun in let (tun'', sent') = g tun' in (tun'', sent ++ sent')

unfoldable pub ping_part : Tick → Part
ping_part k tun =
    if ltb 1000 (since k.now tun.last_ping)
    then (let (channel, sent, _e) = send_ping k.ping_failure 200 k.now tun.control_channel in
        (record tun { last_ping = k.now; control_channel = channel }, sent))
    else (tun, [])

unfoldable pub auth_part : Tick → Part
auth_part k tun =
    if ltb 5000 (since k.now tun.last_udp_auth)
    then (let (channel, sent, _e) =
          send_setup_udp_channel k.setup_failure 9000 tun.control_channel in
        (record tun { last_udp_auth = k.now; control_channel = channel }, sent))
    else (tun, [])

unfoldable pub resend_part : Tick → Part
resend_part k tun =
    if ltb 1000 (since k.now tun.last_udp_auth)
    then (let (udp, sent, _e) = resend_token k.token_now tun.udp_tunnel in
        (record tun { last_udp_auth = k.now; udp_tunnel = udp }, sent))
    else (tun, [])

-- The function that is called for it returns the smaller of the expiry and the time now.
abbrev pub time_till_expire : ℕ → ℕ → ℕ
time_till_expire x y = if ltb y x then y else x

unfoldable pub keep_alive_part : Tick → Part
keep_alive_part k tun =
    if ltb 10000 (since k.now tun.last_keep_alive)
      && ltb (time_till_expire tun.control_channel.registered.expires_at k.now) 30000
    then (let (channel, sent, _e) = send_keep_alive k.keep_failure 100 tun.control_channel in
        let (channel', sent', _e') = send_setup_udp_channel k.setup_again_failure 1 channel in
        (record tun { last_keep_alive = k.now; control_channel = channel' }, sent ++ sent'))
    else (tun, [])

-- How a pass through the feed loop ends: the next pass with a count of timeouts, or a return.
pub data Pass : Type 0 where
  carry_on : ℕ → Pass
  return : Result (Option NewClient) → Pass

-- `Panicln` on an unauthorized response panics, so the two lines behind it never run.
unfoldable pub handle_response :
    Arrival → ℕ → ControlResponse → SimplesTunnel → Pass × SimplesTunnel × List Sent
handle_response a timeout content tun = elim content.udp_channel_details [
  | some details ↦
      let (udp, sent, e) = set_udp_tunnel a.token_now details tun.udp_tunnel in
      (
        elim e [ none ↦ carry_on timeout | some _ ↦ carry_on (timeout + 1) ],
        record tun { udp_tunnel = udp },
        sent,
      )
  | none ↦ elim content.pong [
    | some _ ↦ (carry_on timeout, record tun { last_pong = a.noted_now }, [])
    | none ↦ if content.unauthorized then (return panic, tun, []) else (carry_on timeout, tun, [])
  ]
]

unfoldable pub handle_feed :
    Arrival → ℕ → ControlFeed → SimplesTunnel → Pass × SimplesTunnel × List Sent
handle_feed a timeout feed tun = elim feed.new_client [
  | some client ↦ (return (ok (some client)), tun, [])
  | none ↦ elim feed.response [
    | some msg ↦ handle_response a timeout msg.content tun
    | none ↦ (carry_on timeout, tun, [])
  ]
]

unfoldable pub one_pass : Arrival → ℕ → SimplesTunnel → Pass × SimplesTunnel × List Sent
one_pass a timeout tun =
    let (result, channel) = rec_feed_msg a.pong_now a.received tun.control_channel in
    let tun' = record tun { control_channel = channel } in
    elim result [
      | err e ↦ (carry_on (timeout + 1), tun', [])
      | panic ↦ (return panic, tun', [])
      | ok feed ↦ handle_feed a timeout feed tun'
    ]

-- `for range 30`, with the passes that are left; ten timeouts end it.
unfoldable pub feed_loop :
    (ℕ → Arrival)
    → ℕ
    → ℕ
    → SimplesTunnel
    → Option (Result (Option NewClient)) × SimplesTunnel × List Sent
feed_loop arrivals zero timeout tun = (none, tun, [])
feed_loop arrivals (suc left) timeout tun =
    if leb 10 timeout
    then (none, tun, [])
    else (let (pass, tun', sent) = one_pass (arrivals left) timeout tun in
        elim pass [
          | return r ↦ (some r, tun', sent)
          | carry_on timeout' ↦
              let (r, tun'', sent') = feed_loop arrivals left timeout' tun' in
              (r, tun'', sent ++ sent')
        ])

unfoldable pub pong_part : Tick → SimplesTunnel → SimplesTunnel
pong_part k tun =
    if not (tun.last_pong == 0) && ltb 6000 (since k.end_now tun.last_pong)
    then record tun {
      last_pong = 0;
      control_channel = record tun.control_channel { force_expired = true };
    }
    else tun

-- The results of Update, behind the re-registration of an expired channel.
abbrev pub Updated : Type 0
Updated = Result (Option NewClient) × SimplesTunnel × List Sent

unfoldable pub receive_part : Tick → SimplesTunnel → Updated
receive_part k tun =
    let (tun1, sent1) = followed_by (resend_part k) (keep_alive_part k) tun in
    let (r, tun2, sent2) = feed_loop k.arrivals 30 0 tun1 in
    elim r [
      | some result ↦ (result, tun2, sent1 ++ sent2)
      | none ↦ (ok none, pong_part k tun2, sent1 ++ sent2)
    ]

unfoldable pub refreshed_update : Tick → SimplesTunnel → Updated
refreshed_update k tun =
    let (tun1, sent1) = ping_part k tun in
    if requires_auth k.auth_now tun1.udp_tunnel
    then (let (tun2, sent2) = auth_part k tun1 in (ok none, pong_part k tun2, sent1 ++ sent2))
    else if require_resend k.resend_now tun1.udp_tunnel
    then (let (r, tun2, sent2) = receive_part k tun1 in (r, tun2, sent1 ++ sent2))
    else (ok none, pong_part k tun1, sent1)

unfoldable pub update : Tick → SimplesTunnel → Updated
update k tun =
    if is_expired tun.control_channel
    then (let (r, channel) = reauthenticate k.registering tun.control_channel in
        let tun' = record tun { control_channel = channel } in
        elim r [
          | err e ↦ (ok none, tun', [])
          | panic ↦ (panic, tun', [])
          | ok _ ↦ refreshed_update k tun'
        ])
    else refreshed_update k tun
