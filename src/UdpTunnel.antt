-- ===== src/UdpTunnel.antt =====
-- tunnel/udp_tunnel.go: the UDP channel, its token and its two clocks. A socket is a handle, a
-- datagram handed to one is a `Sent`, and a call is given `now`, the UnixMilli of its time.Now.
pub mod Locking
pub mod Clock
pub mod Details
pub mod Rx
pub mod Receive
use go_playit.Base.{
  footer_failed, unexpected_establish, ◌==◌, buffer_too_small, drop, length, other_source, take,
  ◌||◌, ◌-◌, ◌/◌, ◌^◌, bind, ◌+◌, ◌%◌, socket_failed, ◌++◌, ℕ, inr, inl, ◌∷◌, [], panic, err, ok,
  false, true, some, none, suc, zero, refl, Error, Result, Option, Bool, List, if◌then◌else◌,
  bytes_equal, ltb, not, ◌&&◌,
}
use go_playit.Base.{udp_not_connected, ipv6_not_setup, ipv6_not_supported}
use go_playit.Netip.{AddrPort, is4, same_addr_port}
use go_playit.Response.{UdpChannelDetails}
use go_playit.Rwlock.{Rwlock, write, unlock, read, r_unlock}
use go_playit.UdpFlow.{udp_channel_establish_id, v6_len, from_tail_udp_flow, UdpFlow, write_flow}

pub record ChannelDetails : Type 0 where
  pub udp : Option UdpChannelDetails
  pub addr_history : List AddrPort

-- `udp6` is `none` where IPv6 is not available. The stamps are uint32 seconds.
pub record UdpTunnel : Type 0 where
  pub udp4 : ℕ
  pub udp6 : Option ℕ
  pub details : Rwlock ChannelDetails
  pub last_confirm : ℕ
  pub last_send : ℕ

pub record Sent : Type 0 where
  pub socket : ℕ
  pub payload : List ℕ
  pub to : AddrPort

-- What the two net.ListenUDP calls return: a socket, or an error.
unfoldable pub assign_udp_tunnel : Option ℕ → Option ℕ → Result UdpTunnel
assign_udp_tunnel none udp6 = err socket_failed
assign_udp_tunnel (some udp4) udp6 = ok (record {
  udp4 = udp4;
  udp6 = udp6;
  details = record {
    value = record { udp = none; addr_history = [] };
    readers = 0;
    writer = false;
  };
  last_confirm = 0;
  last_send = 0;
})

unfoldable pub is_setup : UdpTunnel → Bool × UdpTunnel
unfolding read r_unlock
is_setup t =
    let (lock, rw) = read t.details in
    (elim lock.udp [ none ↦ false | some _ ↦ true ], record t { details = r_unlock rw })

unfoldable pub invalidate_session : UdpTunnel → UdpTunnel
invalidate_session t = record t { last_confirm = 0; last_send = 0 }

-- `uint32(time.Now().UnixMilli()) / 1_000`
unfoldable pub now_sec : ℕ → ℕ
now_sec now = now % 2 ^ 32 / 1000

-- `now_sec() - last` on uint32.
abbrev pub elapsed : ℕ → ℕ → ℕ
elapsed now last = (now_sec now + 2 ^ 32 - last) % 2 ^ 32

unfoldable pub require_resend : ℕ → UdpTunnel → Bool
require_resend now t = ltb 10 (elapsed now t.last_confirm)

unfoldable pub requires_auth : ℕ → UdpTunnel → Bool
requires_auth now t =
    if ltb t.last_send t.last_confirm then false else ltb 5 (elapsed now t.last_send)

-- A call's new state, the datagrams that it handed to a socket, and its results.
abbrev pub Call : Type 0 → Type 0
Call A = UdpTunnel × List Sent × A

abbrev pub token_to : ℕ → UdpChannelDetails → Sent
token_to socket details = record {
  socket = socket;
  payload = details.token;
  to = details.tunnel_addr;
}

-- The error that the socket may return is dropped.
unfoldable pub send_token : ℕ → UdpChannelDetails → UdpTunnel → Call (Option Error)
send_token now details t =
    let t' = record t { last_send = now_sec now } in
    if is4 details.tunnel_addr.addr then (t', token_to t.udp4 details ∷ [], none) else elim t.udp6 [
      | none ↦ (t, [], some ipv6_not_supported)
      | some udp6 ↦ (t', token_to udp6 details ∷ [], none)
    ]

-- `bytes.Equal(current.Token, details.Token) && current.TunnelAddr.Compare(…) == 0`
abbrev pub same_details : UdpChannelDetails → UdpChannelDetails → Bool
same_details current details =
    bytes_equal current.token details.token
    && same_addr_port current.tunnel_addr details.tunnel_addr

-- What SetUdpTunnel assigns to the fields of `lock`, a ChannelDetails of its own.
unfoldable pub update_copy : UdpChannelDetails → UdpChannelDetails → ChannelDetails → ChannelDetails
update_copy current details lock =
    if same_addr_port current.tunnel_addr details.tunnel_addr
    then record lock { udp = some details }
    else record {
      udp = some details;
      addr_history = lock.addr_history ++ (current.tunnel_addr ∷ []);
    }

-- `lock` is the copy that Write hands out, and its new value is not stored: where it is updated the
-- call goes on with the token alone.
unfoldable pub set_udp_tunnel : ℕ → UdpChannelDetails → UdpTunnel → Call (Option Error)
unfolding send_token write unlock update_copy
set_udp_tunnel now details t =
    let (lock, rw) = write t.details in
    let t' = record t { details = unlock rw } in
    elim lock.udp [
      | none ↦ send_token now details t'
      | some current ↦
          if same_details current details
          then (t', [], none)
          else (let _lock = update_copy current details lock in send_token now details t')
    ]

unfoldable pub resend_token : ℕ → UdpTunnel → Call (Bool × Option Error)
unfolding send_token read r_unlock
resend_token now t =
    let (lock, rw) = read t.details in
    elim lock.udp [
      | none ↦ (record t { details = r_unlock rw }, [], (false, none))
      | some details ↦
          let (t', sent, e) = send_token now details (record t { details = rw }) in
          let t'' = record t' { details = r_unlock t'.details } in
          elim e [ none ↦ (t'', sent, (true, none)) | some x ↦ (t'', sent, (false, some x)) ]
    ]

-- The socket and the address of the channel; the read lock is taken and given back.
unfoldable pub get_sock : UdpTunnel → Result (ℕ × AddrPort)
unfolding read
get_sock t =
    let (lock, _rw) = read t.details in
    elim lock.udp [
      | none ↦ err udp_not_connected
      | some details ↦
          if is4 details.tunnel_addr.addr then ok (t.udp4, details.tunnel_addr) else elim t.udp6 [
            | none ↦ err ipv6_not_setup
            | some udp6 ↦ ok (udp6, details.tunnel_addr)
          ]
    ]

-- The datagram that is handed to the socket.
unfoldable pub send : List ℕ → UdpFlow → UdpTunnel → Result Sent
unfolding get_sock
send payload flow t = elim (write_flow flow).outcome [
  | err e ↦ err e
  | panic ↦ panic
  | ok _ ↦ bind (get_sock t) (λ (socket, addr).
      ok (record { socket = socket; payload = payload ++ (write_flow flow).bytes; to = addr }))
]

unfoldable pub get_token : UdpTunnel → Result (List ℕ)
unfolding read
get_token t =
    let (lock, _rw) = read t.details in
    elim lock.udp [ none ↦ err udp_not_connected | some details ↦ ok details.token ]
