-- ===== src/Lan/Bound.antt =====
-- Which sockets the functions of tunnel/lan_address.go return with the special LAN switched on.
use go_playit.Netip.{invalid, Addr, AddrPort, v4, v6, as_slice, IsPlain}
use go_playit.Lan.{ipv4, to4}
use go_playit.Lan.Local.{map_to_local_ip4_loopback}
use go_playit.Lan.Dial.{Dial, tcp4, udp4, is_loopback, local_port, udp_socket, tcp_socket}
use go_playit.Base.{
  socket_failed, bytes_equal, ◌⊎◌, ◌≡◌, ◌<◌, ◌≤◌, ◌+◌, inr, inl, ◌∷◌, [], err, ok, true, some, none,
  refl, ℕ, Option, length, arith,
}

-- The port of a UDP socket is a port of 40000 to 63999.
pub local_port_range : (port : ℕ) → (40000 ≤ local_port port) × (local_port port < 64000)
unfolding local_port
local_port_range port = omega arith

peer_family : (a : Addr) → IsPlain a → (length (as_slice a) ≡ 4) ⊎ (length (as_slice a) ≡ 16)
peer_family invalid h = absurd h
peer_family (v4 ip) h = inl h
peer_family (v6 ip zone) (h, z) = inr h

to4-ipv4 : (a b c d : ℕ) → to4 (ipv4 a b c d) ≡ some (a ∷ b ∷ c ∷ d ∷ [])
unfolding to4 bytes_equal
to4-ipv4 a b c d = refl

-- A TCP socket to a loopback host was dialled from 127.a.b.c, which is not 127.0.0.0.
pub tcp_socket_local :
    (dial : Dial → Option ℕ) (peer host : AddrPort) (stream : ℕ)
    → IsPlain peer.addr
    → is_loopback host.addr ≡ true
    → tcp_socket dial true peer host ≡ ok stream
    → (a : ℕ) × (b : ℕ) × (c : ℕ) × (0 < a + b + c)
      × (dial (record {
        network = tcp4;
        local = some (record { addr = v4 (127 ∷ a ∷ b ∷ c ∷ []); port = 0 });
        remote = some host;
      })
          ≡ some stream)
unfolding tcp_socket
tcp_socket_local dial peer host stream p l e =
    let (a, b, c, mapped, _bytes, pos) =
      map_to_local_ip4_loopback (as_slice peer.addr) (peer_family peer.addr p) in
    (a, b, c, pos, ground (arith, mapped, to4-ipv4 127 a b c))

-- Dialling with no remote address fails, so a UDP socket to a loopback host was dialled from such an
-- address too, from the peer's port or from any.
pub udp_socket_local :
    (dial : Dial → Option ℕ) (peer host : AddrPort)
    → ((local : Option AddrPort)
        → dial (record { network = udp4; local = local; remote = none }) ≡ none)
    → IsPlain peer.addr
    → is_loopback host.addr ≡ true
    → (a : ℕ) × (b : ℕ) × (c : ℕ) × (0 < a + b + c)
      × (udp_socket dial true peer host
          ≡ elim (dial (record {
            network = udp4;
            local = some (record { addr = v6 (ipv4 127 a b c) []; port = local_port peer.port });
            remote = some host;
          })) [
            | some stream ↦ ok stream
            | none ↦
                elim (dial (record {
                  network = udp4;
                  local = some (record { addr = v6 (ipv4 127 a b c) []; port = 0 });
                  remote = some host;
                })) [ some stream ↦ ok stream | none ↦ err socket_failed ]
          ])
unfolding udp_socket
udp_socket_local dial peer host refuses p l =
    let (a, b, c, mapped, _bytes, pos) =
      map_to_local_ip4_loopback (as_slice peer.addr) (peer_family peer.addr p) in
    (a, b, c, pos, ground (arith, mapped, refuses none))
