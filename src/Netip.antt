-- ===== src/Netip.antt =====
-- net/netip of Go's standard library, as far as the source uses it: addresses, ports, Compare.
use go_playit.Base.{ℕ, ◌≡◌, refl, Bool, true, false, ◌&&◌, List, [], ◌++◌, arith}
use go_playit.Base.{◌==◌, bytes_equal, bytes_equal→eq}
use go_playit.Base.{bytes_equal_refl, length, All, IsByte, IsU16}

-- `none` is the zero Addr. A 4-in-6 address is a `v6`.
pub data Addr : Type 0 where
  invalid : Addr
  v4 : List ℕ → Addr
  v6 : List ℕ → List ℕ → Addr

pub record AddrPort : Type 0 where
  pub addr : Addr
  pub port : ℕ

abbrev pub is4 : Addr → Bool
is4 (v4 ip) = true
is4 _ = false

abbrev pub is6 : Addr → Bool
is6 (v6 ip zone) = true
is6 _ = false

abbrev pub is_valid : Addr → Bool
is_valid invalid = false
is_valid _ = true

-- Addr.AsSlice.
abbrev pub as_slice : Addr → List ℕ
as_slice invalid = []
as_slice (v4 ip) = ip
as_slice (v6 ip zone) = ip

-- Addr.MarshalBinary: the zone follows the address.
abbrev pub marshal_binary : Addr → List ℕ
marshal_binary invalid = []
marshal_binary (v4 ip) = ip
marshal_binary (v6 ip zone) = ip ++ zone

-- `a.Compare(b) == 0` on addresses and on address-port pairs.
unfoldable pub same_addr : Addr → Addr → Bool
same_addr invalid invalid = true
same_addr (v4 a) (v4 b) = bytes_equal a b
same_addr (v6 a z) (v6 b y) = bytes_equal a b && bytes_equal z y
same_addr _ _ = false

unfoldable pub same_addr_port : AddrPort → AddrPort → Bool
same_addr_port a b = same_addr a.addr b.addr && a.port == b.port

same_addr_refl : (a : Addr) → same_addr a a ≡ true
unfolding same_addr
same_addr_refl invalid = refl
same_addr_refl (v4 a) = bytes_equal_refl a
same_addr_refl (v6 a z) = rw (bytes_equal_refl a) (bytes_equal_refl z)

same_addr→eq : (a b : Addr) → same_addr a b ≡ true → a ≡ b
unfolding same_addr
same_addr→eq invalid invalid h = refl
same_addr→eq (v4 a) (v4 b) h = ground (arith, bytes_equal→eq a b)
same_addr→eq (v6 a z) (v6 b y) h = ground (arith, bytes_equal→eq a b, bytes_equal→eq z y)
same_addr→eq _ _ h = cc

pub same_addr_port_refl : (a : AddrPort) → same_addr_port a a ≡ true
unfolding same_addr_port
same_addr_port_refl a = ground (arith, same_addr_refl a.addr)

pub same_addr_port→eq : (a b : AddrPort) → same_addr_port a b ≡ true → a ≡ b
unfolding same_addr_port
same_addr_port→eq a b h = ground (arith, same_addr→eq a.addr b.addr)

-- What the constructors of netip give: four bytes, or sixteen, and a 16-bit port.
abbrev pub IsAddr : Addr → Type 0
IsAddr invalid = Unit
IsAddr (v4 ip) = (length ip ≡ 4) × All IsByte ip
IsAddr (v6 ip zone) = (length ip ≡ 16) × All IsByte ip

-- An address that the wire format can carry: set, and with no zone.
abbrev pub IsPlain : Addr → Type 0
IsPlain invalid = ⊥
IsPlain (v4 ip) = length ip ≡ 4
IsPlain (v6 ip zone) = (length ip ≡ 16) × (zone ≡ [])

abbrev pub IsPlainPort : AddrPort → Type 0
IsPlainPort a = IsPlain a.addr × IsU16 a.port
