-- ===== src/Lookup.antt =====
-- tunnel/address_lookup.go: the local address of a tunnel, from overrides or by default.
pub mod Order
use Prim.Native.String.{String}
use text.Mathlib.Text.{◌==◌ as str_eq}
use go_playit.Base.{
  if◌then◌else◌, ◌==◌, ◌||◌, ◌&&◌, ◌++◌, ◌∙◌, ◌↔◌, ◌⊎◌, ◌≢◌, ◌≡◌, ◌<◌, ◌≤◌, ◌^◌, ◌%◌, ◌/◌, ◌*◌, ◌-◌,
  ◌+◌, inr, inl, ◌∷◌, [], panic, err, ok, false, true, some, none, suc, zero, refl, ℕ, Option, List,
  Bool,
}
use go_playit.Constants.{port_types}
use go_playit.Netip.{AddrPort, v4, same_addr_port}
use go_playit.Types.{PortProto}

pub record PortType : Type 0 where
  pub value : String

-- slices.Contains on strings.
unfoldable pub contains : List String → String → Bool
contains [] v = false
contains (x ∷ xs) v = str_eq x v || contains xs v

unfoldable pub port_type_is_valid : PortType → Bool
unfolding contains
port_type_is_valid w = contains port_types w.value

unfoldable pub set_both : PortProto → PortProto
set_both proto = record proto { value = "both" }

unfoldable pub set_tcp : PortProto → PortProto
set_tcp proto = record proto { value = "tcp" }

unfoldable pub set_udp : PortProto → PortProto
set_udp proto = record proto { value = "udp" }

pub record AddressValue (T : Type 0) : Type 0 where
  pub value : T
  pub from_port : ℕ
  pub to_port : ℕ

pub record MatchIp : Type 0 where
  pub ip : AddrPort
  pub region_id : Option ℕ

unfoldable pub match_ip : MatchIp → AddrPort → Bool
match_ip mat ip = same_addr_port mat.ip ip

pub record MappingOverride : Type 0 where
  pub match_ip : MatchIp
  pub proto : PortType
  pub port_from : ℕ
  pub port_to : ℕ
  pub local_addr : AddrPort

abbrev pub is_hit : AddrPort → PortType → MappingOverride → Bool
is_hit ip_port proto over = str_eq over.proto.value proto.value && match_ip over.match_ip ip_port

-- The address 127.0.0.1 at the port asked for; the end of the range wraps at 16 bits.
unfoldable pub default_value : AddrPort → AddressValue AddrPort
default_value ip_port = record {
  value = record { addr = v4 (127 ∷ 0 ∷ 0 ∷ 1 ∷ []); port = ip_port.port };
  from_port = ip_port.port;
  to_port = (ip_port.port + 1) % 2 ^ 16;
}

abbrev pub override_value : MappingOverride → AddressValue AddrPort
override_value over = record {
  value = over.local_addr;
  from_port = over.port_from;
  to_port = over.port_to;
}

unfoldable pub lookup : List MappingOverride → AddrPort → PortType → AddressValue AddrPort
unfolding match_ip
lookup [] ip_port proto = default_value ip_port
lookup (over ∷ look) ip_port proto =
    if is_hit ip_port proto over then override_value over else lookup look ip_port proto
