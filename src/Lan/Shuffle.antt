-- ===== src/Lan/Shuffle.antt =====
-- The mixing of tunnel/lan_address.go is a permutation of the uint32 values.
use go_playit.Bits.{xor-xor, xor-lt, xor_high}
use go_playit.Base.{ℕ, ◌≡◌, ◌<◌, ◌^◌, ◌%◌, ◌/◌, ◌*◌, ◌+◌, bit_xor, IsU32, arith}
use go_playit.Lan.{xor_high_half, shuffle}

half_parts :
    (hi lo : ℕ)
    → hi < 2 ^ 16
    → lo < 2 ^ 16
    → xor_high_half (hi * 2 ^ 16 + lo) ≡ hi * 2 ^ 16 + bit_xor hi lo
unfolding xor_high_half
half_parts hi lo h l = ground (arith, xor_high 16 hi hi lo)

pub xor_high_half-lt : (v : ℕ) → IsU32 v → IsU32 (xor_high_half v)
unfolding xor_high_half
xor_high_half-lt v h = xor-lt 32 (v / 2 ^ 16) v (omega arith) h

-- Doing it twice gives the value back.
xor_high_half_twice : (v : ℕ) → IsU32 v → xor_high_half (xor_high_half v) ≡ v
xor_high_half_twice v h = ground (
  arith,
  half_parts (v / 2 ^ 16) (v % 2 ^ 16),
  half_parts (v / 2 ^ 16) (bit_xor (v / 2 ^ 16) (v % 2 ^ 16)),
  xor-lt 16 (v / 2 ^ 16) (v % 2 ^ 16),
  xor-xor (v / 2 ^ 16) (v % 2 ^ 16),
)

-- The inverse multiplies by the inverse of 0x45d9f3 modulo 2 ^ 32.
abbrev pub unshuffle : ℕ → ℕ
unshuffle v =
    let v2 = xor_high_half v * 0xdd72673b % 2 ^ 32 in
    let v1 = xor_high_half v2 * 0xdd72673b % 2 ^ 32 in xor_high_half v1

unmultiply : (v : ℕ) → IsU32 v → v * 0x45d9f3 % 2 ^ 32 * 0xdd72673b % 2 ^ 32 ≡ v
unmultiply v h = omega arith

-- Every uint32 is got back from its shuffle, which is a uint32: no two values collide.
pub shuffle_permutes : (v : ℕ) → IsU32 v → IsU32 (shuffle v) × (unshuffle (shuffle v) ≡ v)
unfolding shuffle
shuffle_permutes v h =
    let v1 : ℕ = xor_high_half v * 0x45d9f3 % 2 ^ 32 in
    let v2 : ℕ = xor_high_half v1 * 0x45d9f3 % 2 ^ 32 in
    let fits1 : IsU32 v1 = omega arith in
    let fits2 : IsU32 v2 = omega arith in
    (
      xor_high_half-lt v2 fits2,
      rw
          (
            xor_high_half_twice v2 fits2,
            unmultiply (xor_high_half v1) (xor_high_half-lt v1 fits1),
            xor_high_half_twice v1 fits1,
            unmultiply (xor_high_half v) (xor_high_half-lt v h),
          )
          (xor_high_half_twice v h),
    )
