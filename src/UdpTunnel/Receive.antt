-- ===== src/UdpTunnel/Receive.antt =====
-- What ReceiveFrom of tunnel/udp_tunnel.go accepts.
use go_playit.Response.{UdpChannelDetails}
use go_playit.Netip.{same_addr_port, same_addr_port_refl, AddrPort, same_addr_port→eq}
use go_playit.UdpTunnel.{UdpTunnel, get_sock, now_sec}
use go_playit.UdpTunnel.Rx.{
  finish_packet, Datagram, receive_from, receive_packet, UdpTunnelRx, confirmed_connection,
  in_history, fill,
}
use go_playit.Base.{
  not, ◌&&◌, bytes_equal, Bool-cases, inl, inr, bytes_equal→eq, bytes_equal_refl, length-append, ap,
  take-append, drop-append, drop, take, length, arith, List, ℕ, ◌++◌, ◌⊎◌, ◌≢◌, ◌≡◌, ◌≤◌, ◌∷◌, [],
  ok, true, some, suc, zero, refl,
}

take_all : (n : ℕ) (xs : List ℕ) → length xs ≤ n → take n xs ≡ xs
take_all zero [] h = refl
take_all zero (x ∷ xs) h = absurd (omega arith)
take_all (suc n) [] h = refl
take_all (suc n) (x ∷ xs) h = ap (λ (zs : List ℕ). x ∷ zs) (take_all n xs (omega arith))

-- A datagram that fits stands at the start of the buffer, before what was there.
pub fill_fits :
    (buff payload : List ℕ)
    → length payload ≤ length buff
    → fill buff payload ≡ (payload ++ drop (length payload) buff, length payload)
unfolding fill
fill_fits buff payload h =
    rw (take_all (length buff) payload h)
      (ap (λ (n : ℕ). (payload ++ drop (length payload) buff, n)) (omega arith))

packet_behind :
    (p p' rest : List ℕ)
    → length p ≡ length p'
    → receive_packet (p ++ rest) (length p) ≡ receive_packet (p' ++ rest) (length p')
unfolding receive_packet
packet_behind p p' rest h =
    rw (drop-append p rest, drop-append p' rest, length-append p rest, length-append p' rest, h)

-- On a channel that is set up, a datagram for which ReceiveFrom returns no error comes from the
-- channel's address, or from one in its history.
pub receive_source :
    (now : ℕ) (buff : List ℕ) (d : Datagram) (t : UdpTunnel) (c : UdpChannelDetails)
    (rx : UdpTunnelRx)
    → t.details.value.udp ≡ some c
    → (receive_from now buff (some d) t).0 ≡ ok rx
    → (c.tunnel_addr ≡ d.remote) ⊎ (in_history d.remote t.details.value.addr_history ≡ true)
unfolding receive_from
receive_source now buff d t c rx e r = ground (arith, same_addr_port→eq c.tunnel_addr d.remote)

-- A datagram that confirms: the token, from the channel's address or from one in its history.
abbrev pub IsConfirmation : UdpTunnel → UdpChannelDetails → Datagram → Type 0
IsConfirmation t c d =
    (d.payload ≡ c.token)
    × ((c.tunnel_addr ≡ d.remote) ⊎ (in_history d.remote t.details.value.addr_history ≡ true))

packet_confirms_nothing :
    (buff : List ℕ) (size : ℕ) → receive_packet buff size ≢ ok confirmed_connection
unfolding receive_packet finish_packet
packet_confirms_nothing buff size e = ground (arith, e)

known_source :
    (a b : AddrPort) (history : List AddrPort)
    → (not (same_addr_port a b) && not (in_history b history)) ≡ true
    → ¬ ((a ≡ b) ⊎ (in_history b history ≡ true))
known_source a b history h (inl e) =
    let same : same_addr_port a b ≡ true = rw (← e) (same_addr_port_refl a) in
    absurd (ground (arith, h, same))
known_source a b history h (inr e) = absurd (ground (arith, h, e))

-- On a channel that is set up and has a socket, a datagram that fits the buffer confirms the connection
-- exactly where it is the token, and comes from the channel's address or from one in its history: the
-- time is then kept. With any other the channel stays as it is.
pub receive_confirms :
    (now : ℕ) (buff : List ℕ) (d : Datagram) (t : UdpTunnel) (c : UdpChannelDetails)
    (s : ℕ × AddrPort)
    → t.details.value.udp ≡ some c
    → get_sock t ≡ ok s
    → length d.payload ≤ length buff
    → let (r, t') = receive_from now buff (some d) t in
      (IsConfirmation t c d
        × (r ≡ ok confirmed_connection)
        × (t' ≡ record t { last_confirm = now_sec now }))
      ⊎ ((¬ (IsConfirmation t c d)) × (r ≢ ok confirmed_connection) × (t' ≡ t))
unfolding receive_from get_sock
receive_confirms now buff d t c s e k h =
    let kept = take-append d.payload (drop (length d.payload) buff) in
    elim (Bool-cases (
      not (same_addr_port c.tunnel_addr d.remote)
      && not (in_history d.remote t.details.value.addr_history))) [
        | inl unknown ↦ inr (
          (λ (p, source). known_source c.tunnel_addr d.remote _ unknown source),
          (λ f. ground (arith, e, k, unknown, f)),
          ground (arith, e, k, unknown),
        )
        | inr known ↦ elim (Bool-cases (bytes_equal d.payload c.token)) [
          | inl token ↦ inl (
            (
              bytes_equal→eq d.payload c.token token,
              ground (arith, known, same_addr_port→eq c.tunnel_addr d.remote),
            ),
            ground (arith, e, k, known, token, kept, fill_fits buff d.payload h),
            ground (arith, e, k, known, token, kept, fill_fits buff d.payload h),
          )
          | inr other ↦ inr (
            (λ (p, source). ground (arith, other, p, bytes_equal_refl c.token)),
            (λ f. ground (
              arith,
              e,
              k,
              known,
              other,
              kept,
              fill_fits buff d.payload h,
              f,
              packet_confirms_nothing (d.payload ++ drop (length d.payload) buff)
                  (length d.payload),
            )),
            ground (arith, e, k, known, other, kept, fill_fits buff d.payload h),
          )
        ]
      ]

-- On a channel that is set up, a datagram that is not the token is not looked at: two such datagrams
-- of one length, which fits the buffer, from one address give the same result and state.
pub receive_ignores_payload :
    (now : ℕ) (buff : List ℕ) (d d' : Datagram) (t : UdpTunnel) (c : UdpChannelDetails)
    → t.details.value.udp ≡ some c
    → d.remote ≡ d'.remote
    → length d.payload ≡ length d'.payload
    → length d.payload ≤ length buff
    → d.payload ≢ c.token
    → d'.payload ≢ c.token
    → receive_from now buff (some d) t ≡ receive_from now buff (some d') t
unfolding receive_from
receive_ignores_payload now buff d d' t c e r l h n n' = ground (
  arith,
  fill_fits buff d.payload,
  fill_fits buff d'.payload,
  take-append d.payload (drop (length d.payload) buff),
  take-append d'.payload (drop (length d'.payload) buff),
  bytes_equal→eq d.payload c.token,
  bytes_equal→eq d'.payload c.token,
  packet_behind d.payload d'.payload (drop (length d.payload) buff),
)
