-- ===== src/Address/RoundTrip.antt =====
-- What AddressPort.ReadFrom makes of what AddressPort.WriteTo wrote.
use go_playit.Base.{ℕ, ◌≡◌, List, ◌++◌, arith, ok}
use go_playit.Base.{append_assoc, append-nil, length}
use go_playit.Netip.{AddrPort, Addr, invalid, v4, v6, IsPlain, IsPlainPort}
use go_playit.Wire.{written, to_be, read_values}
use go_playit.Wire.Uint.{read_uint-to_be}
use go_playit.Wire.Buffer.{read_buff-append}
use go_playit.Address.{write_address, read_address, address_bytes}

pub write_address_lem : (a : AddrPort) → write_address a ≡ written (address_bytes a)
unfolding write_address address_bytes
write_address_lem a = go a.addr
  where
    go :
        (x : Addr)
        → write_address (record { addr = x; port = a.port })
          ≡ written (address_bytes (record { addr = x; port = a.port }))
    go invalid = rw append_assoc
    go (v4 ip) = rw append_assoc
    go (v6 ip zone) = rw (append_assoc (to_be 1 6) (ip ++ zone) (to_be 2 a.port))

read_four : (ip rest : List ℕ) → length ip ≡ 4 → read_values 1 4 (ip ++ rest) ≡ ok (ip, rest)
read_four ip rest h = rw h at (read_buff-append ip rest)

read_sixteen : (ip rest : List ℕ) → length ip ≡ 16 → read_values 1 16 (ip ++ rest) ≡ ok (ip, rest)
read_sixteen ip rest h = rw h at (read_buff-append ip rest)

-- A set address without a zone is read back, and the bytes behind it are left.
pub read_address-address_bytes :
    (a : AddrPort) (rest : List ℕ)
    → IsPlainPort a
    → read_address (address_bytes a ++ rest) ≡ ok (a, rest)
unfolding read_address address_bytes
read_address-address_bytes a rest (h, p) = go a.addr h
  where
    go :
        (x : Addr)
        → IsPlain x
        → read_address (address_bytes (record { addr = x; port = a.port }) ++ rest)
          ≡ ok (record { addr = x; port = a.port }, rest)
    go invalid h = absurd h
    go (v4 ip) h = rw (
      append_assoc,
      append_assoc,
      read_uint-to_be 1 4 _ (omega arith),
      read_four ip _ h,
      read_uint-to_be 2 a.port rest p,
    )
    go (v6 ip zone) (h, z) = rw (
      z,
      append-nil,
      append_assoc,
      append_assoc,
      read_uint-to_be 1 6 _ (omega arith),
      read_sixteen ip _ h,
      read_uint-to_be 2 a.port rest p,
    )
