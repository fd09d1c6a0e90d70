-- ===== src/UdpTunnel/Rx.antt =====
-- ReceiveFrom of tunnel/udp_tunnel.go.
use go_playit.UdpFlow.{TailFlow, flow_len}
use go_playit.UdpTunnel.{
  udp_channel_establish_id, v6_len, from_tail_udp_flow, same_addr_port, UdpFlow, AddrPort,
  UdpTunnel, get_sock, get_token, now_sec,
}
use go_playit.Base.{
  footer_failed, unexpected_establish, bytes_equal, buffer_too_small, other_source, not, ltb, min,
  if◌then◌else◌, ◌==◌, ◌||◌, ◌&&◌, ◌++◌, ◌^◌, ◌%◌, ◌-◌, ◌+◌, drop, socket_failed, length, Option,
  Result, take, Bool, List, ℕ, ◌∷◌, [], panic, err, ok, false, some, none,
}

pub data UdpTunnelRx : Type 0 where
  confirmed_connection : UdpTunnelRx
  received_packet : ℕ → UdpFlow → UdpTunnelRx

-- The first result of a socket's read: the bytes of one datagram and where they came from.
pub record Datagram : Type 0 where
  pub payload : List ℕ
  pub remote : AddrPort

-- `slices.ContainsFunc(history, …)`
unfoldable pub in_history : AddrPort → List AddrPort → Bool
in_history remote [] = false
in_history remote (a ∷ as') = same_addr_port a remote || in_history remote as'

-- The buffer after a read of `payload` into it, and the number of bytes read.
unfoldable pub fill : List ℕ → List ℕ → List ℕ × ℕ
fill buff payload =
    (take (length buff) payload ++ drop (length payload) buff, min (length payload) (length buff))

-- The end of ReceiveFrom, from the buffer's length, the size read and what was decoded. With no
-- error and no flow, Len dereferences nil.
unfoldable pub finish_packet : ℕ → ℕ → TailFlow → Result UdpTunnelRx
finish_packet capacity size tail =
    if ltb (capacity + v6_len) size then err buffer_too_small else elim tail.error [
      | some e ↦
          if tail.footer == udp_channel_establish_id
          then err unexpected_establish
          else err footer_failed
      | none ↦ elim tail.flow [
        | none ↦ panic
        | some flow ↦ ok (received_packet ((size + 2 ^ 64 - flow_len flow) % 2 ^ 64) flow)
      ]
    ]

unfoldable pub receive_packet : List ℕ → ℕ → Result UdpTunnelRx
receive_packet buff size = finish_packet (length buff) size (from_tail_udp_flow (drop size buff))

-- ReceiveFrom on a buffer, with what the socket's read returned: `none` is its error.
unfoldable pub receive_from :
    ℕ → List ℕ → Option Datagram → UdpTunnel → Result UdpTunnelRx × UdpTunnel
unfolding get_sock get_token fill
receive_from now buff none t = elim (get_sock t) [
  | ok _ ↦ (err socket_failed, t)
  | err e ↦ (err e, t)
  | panic ↦ (panic, t)
]
receive_from now buff (some d) t = elim (get_sock t) [
  | err e ↦ (err e, t)
  | panic ↦ (panic, t)
  | ok (_socket, tunnel_addr) ↦
      if not (same_addr_port tunnel_addr d.remote)
        && not (in_history d.remote t.details.value.addr_history)
      then (err other_source, t)
      else elim (get_token t) [
        | err e ↦ (err e, t)
        | panic ↦ (panic, t)
        | ok token ↦
            let (filled, size) = fill buff d.payload in
            if bytes_equal (take size filled) token
            then (ok confirmed_connection, record t { last_confirm = now_sec now })
            else (receive_packet filled size, t)
      ]
]
