-- ===== src/Lookup/Order.antt =====
-- Which override tunnel/address_lookup.go picks.
use text.Mathlib.TextEquality.{eq_iff}
use go_playit.Base.{Bool-cases, ◌++◌, ◌≡◌, inr, inl, ◌∷◌, [], true, refl, List, All, arith}
use go_playit.Netip.{AddrPort, same_addr_port→eq, same_addr_port_refl}
use go_playit.Lookup.{
  PortType, MappingOverride, lookup, is_hit, match_ip, override_value, default_value,
}

-- The override is for this address, port and protocol.
abbrev pub Applies : AddrPort → PortType → MappingOverride → Type 0
Applies ip_port proto over = (over.match_ip.ip ≡ ip_port) × (over.proto.value ≡ proto.value)

pub Applies→hit :
    (ip : AddrPort) (p : PortType) (o : MappingOverride) → Applies ip p o → is_hit ip p o ≡ true
unfolding match_ip
Applies→hit ip p o (a, v) =
    rw (a, v) (ground (arith, eq_iff p.value p.value, same_addr_port_refl ip))

pub hit→Applies :
    (ip : AddrPort) (p : PortType) (o : MappingOverride) → is_hit ip p o ≡ true → Applies ip p o
unfolding match_ip
hit→Applies ip p o h =
    ground (arith, eq_iff o.proto.value p.value, same_addr_port→eq o.match_ip.ip ip)

-- The first override that is for the address, port and protocol gives the answer, whatever stands
-- behind it.
pub lookup_first :
    (front back : List MappingOverride) (o : MappingOverride) (ip : AddrPort) (p : PortType)
    → All (λ x. ¬ (Applies ip p x)) front
    → Applies ip p o
    → lookup (front ++ (o ∷ back)) ip p ≡ override_value o
unfolding lookup
lookup_first [] back o ip p none_before h = rw (Applies→hit ip p o h)
lookup_first (x ∷ front) back o ip p (miss, none_before) h = elim (Bool-cases (is_hit ip p x)) [
  | inl hit ↦ absurd (miss (hit→Applies ip p x hit))
  | inr passed ↦ rw passed (lookup_first front back o ip p none_before h)
]

-- Without one, the answer is the loopback address at the port asked for, for that port alone.
pub lookup_default :
    (look : List MappingOverride) (ip : AddrPort) (p : PortType)
    → All (λ x. ¬ (Applies ip p x)) look
    → lookup look ip p ≡ default_value ip
unfolding lookup
lookup_default [] ip p h = refl
lookup_default (x ∷ look) ip p (miss, h) = elim (Bool-cases (is_hit ip p x)) [
  | inl hit ↦ absurd (miss (hit→Applies ip p x hit))
  | inr passed ↦ rw passed (lookup_default look ip p h)
]
