-- ===== src/Tests/Lan.antt =====
-- Local addresses and the lookup of overrides on concrete values.
use go_playit.Base.{
  arith, bytes_equal, IsByte, Option, IsU32, ◌≡◌, ◌<◌, ◌+◌, inl, ◌∷◌, [], ok, true, refl, ℕ, none,
  some,
}
use go_playit.Tests.{v4, AddrPort, server, client_addr, other_server}
use go_playit.Lan.Dial.{Dial, tcp_socket, is_loopback}
use go_playit.Lookup.Order.{lookup_default, Applies}
use go_playit.Lookup.{default_value, MappingOverride, lookup, PortType}
use go_playit.Lan.{to16, shuffle, to4, ipv4, map_to_local_ip4}
use go_playit.Lan.Shuffle.{shuffle_permutes, unshuffle}
use go_playit.Lan.Local.{map_to_local_ip4_loopback}

shuffle_permutes_example : IsU32 (shuffle 258) × (unshuffle (shuffle 258) ≡ 258)
shuffle_permutes_example = shuffle_permutes 258 (omega arith)

map_to_local_ip4_loopback_example :
    (a : ℕ) × (b : ℕ) × (c : ℕ) × (map_to_local_ip4 (10 ∷ 0 ∷ 0 ∷ 1 ∷ []) ≡ ok (ipv4 127 a b c))
    × (IsByte a × IsByte b × IsByte c)
    × (0 < a + b + c)
map_to_local_ip4_loopback_example = map_to_local_ip4_loopback (10 ∷ 0 ∷ 0 ∷ 1 ∷ []) (inl refl)

abbrev host : AddrPort
host = record { addr = v4 (127 ∷ 0 ∷ 0 ∷ 1 ∷ []); port = 80 }

-- A net package whose dials with a remote address succeed.
abbrev dial : Dial → Option ℕ
dial d = elim d.remote [ none ↦ none | some _ ↦ some 4 ]

dialled : tcp_socket dial true client_addr host ≡ ok 4
unfolding tcp_socket is_loopback map_to_local_ip4 to4 to16 bytes_equal
dialled = refl

abbrev web : PortType
web = record { value = "tcp" }

abbrev elsewhere : MappingOverride
elsewhere = record {
  match_ip = record { ip = other_server; region_id = none };
  proto = web;
  port_from = 1;
  port_to = 2;
  local_addr = host;
}

abbrev here : MappingOverride
here = record elsewhere { match_ip = record { ip = server; region_id = none } }

not_elsewhere : ¬ (Applies server web elsewhere)
not_elsewhere (e, _v) = cc

lookup_default_example : lookup (elsewhere ∷ []) server web ≡ default_value server
lookup_default_example = lookup_default (elsewhere ∷ []) server web (not_elsewhere, tt)
