-- ===== src/Wire/Buffer.antt =====
-- Byte buffers of tunnel/bigint.go: ReadBuff and the other element loops.
use go_playit.Base.{
  ◌++◌, ◌∷◌, [], err, ok, ℕ, zero, suc, ◌^◌, ◌≤◌, ◌<◌, ◌≡◌, refl, arith, append_assoc, List, length,
  All, length-append, eof,
}
use go_playit.Wire.{to_be, binary_read, read_values, read_buff, read_token, max_alloc}
use go_playit.Wire.Uint.{length-to_be, take-to_be, drop-to_be, from_be-to_be}

-- The elements of a slice as binary.Write stores them.
unfoldable pub encode_values : ℕ → List ℕ → List ℕ
encode_values width [] = []
encode_values width (v ∷ vs) = to_be width v ++ encode_values width vs

binary_read-to_be :
    (n v : ℕ) (rest : List ℕ) → v < 256 ^ n → binary_read n (to_be n v ++ rest) ≡ ok (v, rest)
unfolding binary_read
binary_read-to_be n v rest h = ground (
  arith,
  length-append (to_be n v) rest,
  length-to_be n v,
  take-to_be n v rest,
  drop-to_be n v rest,
  from_be-to_be n v h,
)

-- The element loops of ReadU8Buff to ReadU64Buff: a slice of values that fit the width is read back
-- from what binary.Write stores of it, and the bytes behind it are left.
pub read_values-encode_values :
    (width : ℕ) (vs rest : List ℕ)
    → All (λ v. v < 256 ^ width) vs
    → read_values width (length vs) (encode_values width vs ++ rest) ≡ ok (vs, rest)
unfolding read_values encode_values
read_values-encode_values width [] rest h = refl
read_values-encode_values width (v ∷ vs) rest (hv, hvs) =
    rw
      (
        append_assoc (to_be width v) (encode_values width vs) rest,
        binary_read-to_be width v (encode_values width vs ++ rest) hv,
        read_values-encode_values width vs rest hvs,
      )
      refl

pub binary_read_byte : (b : ℕ) (rest : List ℕ) → binary_read 1 (b ∷ rest) ≡ ok (b, rest)
unfolding binary_read
binary_read_byte b rest = ground arith

-- A slice as long as the written bytes gets them, and nothing more is read.
pub read_buff-append : (bs rest : List ℕ) → read_buff (length bs) (bs ++ rest) ≡ ok (bs, rest)
unfolding read_values
read_buff-append [] rest = refl
read_buff-append (b ∷ bs) rest = rw (binary_read_byte b (bs ++ rest), read_buff-append bs rest)

-- A stream that ends inside the slice is an error.
pub read_buff_short : (n : ℕ) (r : List ℕ) → length r < n → read_buff n r ≡ err eof
unfolding read_values
read_buff_short zero r h = absurd (omega arith)
read_buff_short (suc n) [] h = unfold binary_read in ground arith
read_buff_short (suc n) (b ∷ r) h = rw (binary_read_byte b r, read_buff_short n r (omega arith))

pub read_token-append :
    (bs rest : List ℕ) → length bs ≤ max_alloc → read_token (length bs) (bs ++ rest) ≡ ok (bs, rest)
unfolding read_token
read_token-append bs rest h = ground (arith, read_buff-append bs rest)
