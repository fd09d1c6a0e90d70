-- ===== src/Address.antt =====
-- AddressPort of tunnel/bigint.go: a tag byte, the address, the port.
pub mod RoundTrip
pub mod Canonical
use go_playit.Base.{if◌then◌else◌, ◌==◌, cannot_get_ip_type, [], List, ℕ, ◌∷◌, ◌++◌}
use go_playit.Netip.{AddrPort, Addr, invalid, v4, v6, is6, marshal_binary}
use go_playit.Wire.{Written, ◌>>◌, write_u8, write_data, write_u16, to_be}
use go_playit.Wire.{Get, pure, fail, ◌>>=◌, read_u8, read_u16, read_buff_n}

unfoldable pub write_address : AddrPort → Written
write_address sock =
    let ip = marshal_binary sock.addr in
    do
      if is6 sock.addr then (do write_u8 6; write_data ip) else (do write_u8 4; write_data ip)
      write_u16 sock.port

-- The `n` bytes of an address and its port, as both cases of ReadFrom read them.
read_ip_port : ℕ → (List ℕ → Addr) → Get AddrPort
read_ip_port n make = do
  ip ← read_buff_n n
  port ← read_u16
  pure (record { addr = make ip; port = port })

unfoldable pub read_address : Get AddrPort
unfolding read_ip_port
read_address = do
  code ← read_u8
  if code == 4
      then read_ip_port 4 v4
      else if code == 6
      then read_ip_port 16 (λ ip. v6 ip [])
      else fail cannot_get_ip_type

-- What WriteTo appends.
abbrev pub tag : Addr → ℕ
tag (v6 ip zone) = 6
tag _ = 4

unfoldable pub address_bytes : AddrPort → List ℕ
address_bytes a = to_be 1 (tag a.addr) ++ (marshal_binary a.addr ++ to_be 2 a.port)
