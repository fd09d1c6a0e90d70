-- ===== src/Wire/Uint.antt =====
-- The fixed-width integers of tunnel/bigint.go: what is read back from what was written.
use go_playit.Base.{
  ℕ, zero, suc, ◌+◌, ◌*◌, ◌/◌, ◌%◌, ◌^◌, ◌<◌, ◌≡◌, refl, ap, arith, List, [], ◌++◌, length, take,
  drop, take-append, drop-append, All, length-append, IsByte, ok,
}
use go_playit.Wire.{to_be, from_be_acc, from_be, read_uint}
use native.Mathlib.Nat.{
  div-add-mod, pow-suc, mod-lt, mod-eq_of_lt, one-le-pow, mul-le-mul_right, mul-add-mod_self_left,
}

pub length-to_be : (n v : ℕ) → length (to_be n v) ≡ n
unfolding to_be
length-to_be zero v = refl
length-to_be (suc n) v = ap suc (length-to_be n v)

pub to_be-IsByte : (n v : ℕ) → All IsByte (to_be n v)
unfolding to_be
to_be-IsByte zero v = tt
to_be-IsByte (suc n) v = (omega arith, to_be-IsByte n v)

-- A field of base 256: the top digit over the rest.
mod_split : (p v : ℕ) → 0 < p → v % (p * 256) ≡ v / p % 256 * p + v % p
mod_split p v h =
    rw
      (rw (mul-add-mod_self_left (p * 256) (v / p / 256) low) at
        (ap (λ (t : ℕ). t % (p * 256)) whole))
      (mod-eq_of_lt small)
  where
    low : ℕ
    low = v / p % 256 * p + v % p

    whole : v ≡ p * 256 * (v / p / 256) + low
    whole = omega (arith, div-add-mod v p, ap (λ (t : ℕ). p * t) (div-add-mod (v / p) 256))

    small : low < p * 256
    small = omega (arith, mod-lt v h, mul-le-mul_right {m = v / p % 256} {n = 255} p (omega arith))

pub from_be_acc-to_be : (n acc v : ℕ) → from_be_acc acc (to_be n v) ≡ acc * 256 ^ n + v % 256 ^ n
unfolding from_be_acc to_be
from_be_acc-to_be zero acc v = omega arith
from_be_acc-to_be (suc n) acc v = omega (
  arith,
  from_be_acc-to_be n (acc * 256 + v / 256 ^ n % 256) v,
  mod_split (256 ^ n) v (one-le-pow n 256 (omega arith)),
  pow-suc 256 n,
  ap (λ (t : ℕ). acc * t) (pow-suc 256 n),
  ap (λ (t : ℕ). v % t) (pow-suc 256 n),
)

pub take-to_be : (n v : ℕ) (rest : List ℕ) → take n (to_be n v ++ rest) ≡ to_be n v
take-to_be n v rest = rw (length-to_be n v) at (take-append (to_be n v) rest)

pub drop-to_be : (n v : ℕ) (rest : List ℕ) → drop n (to_be n v ++ rest) ≡ rest
drop-to_be n v rest = rw (length-to_be n v) at (drop-append (to_be n v) rest)

pub from_be-to_be : (n v : ℕ) → v < 256 ^ n → from_be (to_be n v) ≡ v
unfolding from_be
from_be-to_be n v h = omega (arith, from_be_acc-to_be n 0 v, mod-eq_of_lt h)

-- Every value that fits the width is read back, and the bytes behind it are left.
pub read_uint-to_be :
    (n v : ℕ) (rest : List ℕ) → v < 256 ^ n → read_uint n (to_be n v ++ rest) ≡ ok (v, rest)
unfolding read_uint
read_uint-to_be n v rest h = ground (
  arith,
  length-append (to_be n v) rest,
  length-to_be n v,
  take-to_be n v rest,
  drop-to_be n v rest,
  from_be-to_be n v h,
)

-- A short reader gives 0, and is used up.
pub read_uint_short : (n : ℕ) (r : List ℕ) → length r < n → read_uint n r ≡ ok (0, [])
unfolding read_uint
read_uint_short n r h = ground arith
