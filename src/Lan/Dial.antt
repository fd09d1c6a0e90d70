-- ===== src/Lan/Dial.antt =====
-- TcpSocket and UdpSocket of tunnel/lan_address.go. Dialling is the net package's: it is given the
-- network and the two addresses, and returns a socket or an error.
use go_playit.Base.{
  replicate, bytes_equal, if◌then◌else◌, ◌==◌, ◌&&◌, ◌++◌, ◌^◌, ◌%◌, ◌+◌, ◌∷◌, [], panic, err, ok,
  false, some, none, ℕ, Option, Result, bind, Bool, List, socket_failed,
}
use go_playit.Netip.{invalid, Addr, AddrPort, v4, v6, as_slice}
use go_playit.Lan.{map_to_local_ip4, to4}

pub data Network : Type 0 where
  tcp tcp4 udp udp4 : Network

-- A dial's network, local address and remote address; `none` is a nil address.
pub record Dial : Type 0 where
  pub network : Network
  pub local : Option AddrPort
  pub remote : Option AddrPort

-- Addr.IsLoopback of Go 1.22.
unfoldable pub is_loopback : Addr → Bool
is_loopback invalid = false
is_loopback (v4 []) = false
is_loopback (v4 (b ∷ bs)) = b == 127
is_loopback (v6 ip zone) = bytes_equal ip (replicate 15 0 ++ (1 ∷ []))

unfoldable pub local_port : ℕ → ℕ
local_port port = (40000 + port % 24000) % 2 ^ 16

module _ (dial : Dial → Option ℕ) where
  -- The last dial has no remote address; a socket from it is followed by a call on the nil error.
  udp_any : Result ℕ
  udp_any = elim (dial (record { network = udp4; local = none; remote = none })) [
    | none ↦ err socket_failed
    | some stream ↦ panic
  ]

  udp_bound : List ℕ → ℕ → AddrPort → Result ℕ
  udp_bound local_ip port host =
      let first = dial (record {
        network = udp4;
        local = some (record { addr = v6 local_ip []; port = local_port port });
        remote = some host;
      }) in
      let second = dial (record {
        network = udp4;
        local = some (record { addr = v6 local_ip []; port = 0 });
        remote = some host;
      }) in
      elim first [
        | some stream ↦ ok stream
        | none ↦ elim second [ some stream ↦ ok stream | none ↦ udp_any ]
      ]

  unfoldable pub udp_socket : Bool → AddrPort → AddrPort → Result ℕ
  unfolding udp_bound udp_any
  udp_socket special_lan peer host =
      if is_loopback host.addr && special_lan
      then bind (map_to_local_ip4 (as_slice peer.addr))
          (λ local_ip. udp_bound local_ip peer.port host)
      else elim (dial (record { network = udp; local = none; remote = some host })) [
        | none ↦ err socket_failed
        | some stream ↦ ok stream
      ]

  tcp_bound : List ℕ → AddrPort → Result ℕ
  tcp_bound local_ip host = elim (to4 local_ip) [
    | none ↦ panic
    | some four ↦
        elim (dial (record {
          network = tcp4;
          local = some (record { addr = v4 four; port = 0 });
          remote = some host;
        })) [ none ↦ err socket_failed | some stream ↦ ok stream ]
  ]

  unfoldable pub tcp_socket : Bool → AddrPort → AddrPort → Result ℕ
  unfolding tcp_bound
  tcp_socket special_lan peer host =
      if is_loopback host.addr && special_lan
      then bind (map_to_local_ip4 (as_slice peer.addr)) (λ local_ip. tcp_bound local_ip host)
      else elim (dial (record { network = tcp; local = none; remote = some host })) [
        | none ↦ err socket_failed
        | some stream ↦ ok stream
      ]
