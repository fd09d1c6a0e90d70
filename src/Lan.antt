-- ===== src/Lan.antt =====
-- tunnel/lan_address.go: a loopback address for each peer, and the sockets bound to it.
pub mod Shuffle
pub mod Local
pub mod Dial
pub mod Bound
use go_playit.Base.{
  if◌then◌else◌, ◌==◌, ◌||◌, ◌&&◌, ◌++◌, ◌∙◌, ◌↔◌, ◌⊎◌, ◌≢◌, ◌≡◌, ◌<◌, ◌≤◌, ◌^◌, ◌%◌, ◌/◌, ◌*◌, ◌-◌,
  ◌+◌, inr, inl, ◌∷◌, [], panic, err, ok, false, true, some, none, suc, zero, refl, ℕ, bit_xor,
  bit_and, bit_or, Result, bind, take, drop, length, bytes_equal, Option, List, bind,
}
use go_playit.Wire.{from_be}

-- `(v >> 16) ^ v`
unfoldable pub xor_high_half : ℕ → ℕ
xor_high_half v = bit_xor (v / 2 ^ 16) v

-- On uint32.
unfoldable pub shuffle : ℕ → ℕ
shuffle v =
    let v1 = xor_high_half v * 0x45d9f3 % 2 ^ 32 in
    let v2 = xor_high_half v1 * 0x45d9f3 % 2 ^ 32 in xor_high_half v2

unfoldable pub as_local_masked : ℕ → ℕ
as_local_masked ip =
    let masked = bit_and (shuffle ip) 0x00FFFFFF in
    bit_or (if masked == 0 then 1 else masked) 0x7F000000

-- The prefix of an IPv4 address inside a 16-byte net.IP.
abbrev pub v4_in_v6_prefix : List ℕ
v4_in_v6_prefix = 0 ∷ 0 ∷ 0 ∷ 0 ∷ 0 ∷ 0 ∷ 0 ∷ 0 ∷ 0 ∷ 0 ∷ 0xff ∷ 0xff ∷ []

-- net.IP.To4 and To16; `none` is nil.
unfoldable pub to4 : List ℕ → Option (List ℕ)
to4 ip =
    if length ip == 4
    then some ip
    else if length ip == 16 && bytes_equal (take 12 ip) v4_in_v6_prefix
    then some (drop 12 ip)
    else none

unfoldable pub to16 : List ℕ → Option (List ℕ)
to16 ip =
    if length ip == 4
    then some (v4_in_v6_prefix ++ ip)
    else if length ip == 16
    then some ip
    else none

-- net.IPv4.
abbrev pub ipv4 : ℕ → ℕ → ℕ → ℕ → List ℕ
ipv4 a b c d = v4_in_v6_prefix ++ (a ∷ b ∷ c ∷ d ∷ [])

-- The words of a 16-byte address, each shuffled, joined by xor.
unfoldable pub mix_words : List ℕ → ℕ
mix_words bytes =
    bit_xor
      (bit_xor
        (bit_xor (shuffle (from_be (take 4 bytes))) (shuffle (from_be (take 4 (drop 4 bytes)))))
        (shuffle (from_be (take 4 (drop 8 bytes)))))
      (shuffle (from_be (take 4 (drop 12 bytes))))

-- Slicing a nil slice beyond its end panics.
unfoldable pub ip_uint32 : List ℕ → Result ℕ
ip_uint32 ip = elim (to4 ip) [
  | some four ↦ ok (from_be four)
  | none ↦ elim (to16 ip) [ none ↦ panic | some bytes ↦ ok (mix_words bytes) ]
]

unfoldable pub map_to_local_ip4 : List ℕ → Result (List ℕ)
unfolding ip_uint32
map_to_local_ip4 ip = bind (ip_uint32 ip) λ n.
    let masked = as_local_masked n in
    ok (ipv4 (masked / 2 ^ 24 % 256) (masked / 2 ^ 16 % 256) (masked / 2 ^ 8 % 256) (masked % 256))
