-- ===== src/Lan/Local.antt =====
-- The local address of a peer in tunnel/lan_address.go lies in 127.0.0.0/8, and is not its first.
use go_playit.Bits.{and_mask, or_high}
use go_playit.Base.{
  drop, Bool-cases, ℕ, ◌⊎◌, ◌≡◌, ◌<◌, ◌^◌, ◌%◌, ◌/◌, ◌+◌, inr, inl, ok, IsByte, arith, length, List,
  bytes_equal, take,
}
use go_playit.Wire.{from_be}
use go_playit.Lan.{
  mix_words, v4_in_v6_prefix, shuffle, as_local_masked, map_to_local_ip4, ip_uint32, ipv4, to4,
  to16,
}

pub as_local_masked_range :
    (ip : ℕ) → (0x7F000000 < as_local_masked ip) × (as_local_masked ip < 0x80000000)
unfolding as_local_masked
as_local_masked_range ip =
    ground (arith, and_mask 24 (shuffle ip), or_high 24 127 (shuffle ip % 2 ^ 24), or_high 24 127 1)

-- A peer of either family gets an address.
ip_uint32_total :
    (ip : List ℕ) → (length ip ≡ 4) ⊎ (length ip ≡ 16) → (n : ℕ) × (ip_uint32 ip ≡ ok n)
unfolding ip_uint32 to4 to16
ip_uint32_total ip (inl h) = (from_be ip, ground arith)
ip_uint32_total ip (inr h) = elim (Bool-cases (bytes_equal (take 12 ip) v4_in_v6_prefix)) [
  | inl e ↦ (from_be (drop 12 ip), ground arith)
  | inr e ↦ (mix_words ip, ground arith)
]

-- Every peer address of 4 or 16 bytes is mapped, to some 127.a.b.c other than 127.0.0.0.
pub map_to_local_ip4_loopback :
    (ip : List ℕ)
    → (length ip ≡ 4) ⊎ (length ip ≡ 16)
    → (a : ℕ) × (b : ℕ) × (c : ℕ) × (map_to_local_ip4 ip ≡ ok (ipv4 127 a b c))
      × (IsByte a × IsByte b × IsByte c)
      × (0 < a + b + c)
unfolding map_to_local_ip4
map_to_local_ip4_loopback ip h =
    let (n, e) = ip_uint32_total ip h in
    let m = as_local_masked n in
    let (lo, hi) = as_local_masked_range n in
    (m / 2 ^ 16 % 256, m / 2 ^ 8 % 256, m % 256, ground (arith, e), omega arith, omega arith)
