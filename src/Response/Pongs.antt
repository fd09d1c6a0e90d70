-- ===== src/Response/Pongs.antt =====
-- Pong of tunnel/control_message.go: WriteTo puts a presence byte that ReadFrom does not take off.
use go_playit.Base.{
  [], ◌∷◌, none, ◌%◌, ℕ, ◌+◌, ◌/◌, ◌^◌, ◌≡◌, refl, List, ◌++◌, append_assoc, some, IsU64, IsU32,
  arith, ok,
}
use go_playit.Netip.{IsPlainPort}
use go_playit.Wire.{read_uint, written, to_be}
use go_playit.Wire.Uint.{read_uint-to_be, read_uint_short}
use go_playit.Address.{address_bytes}
use go_playit.Address.RoundTrip.{write_address_lem, read_address-address_bytes}
use go_playit.Response.{write_pong, Pong, read_pong}

pub record IsPong (w : Pong) : Type 0 where
  pub request : IsU64 w.request_now
  pub server : IsU64 w.server_now
  pub server_number : IsU64 w.server_id
  pub data_center : IsU32 w.data_center_id
  pub client : IsPlainPort w.client_addr
  pub tunnel : IsPlainPort w.tunnel_addr

-- All that stands before the expiry.
abbrev head_bytes : Pong → List ℕ
head_bytes w =
    to_be 8 w.request_now
    ++ (to_be 8 w.server_now
        ++ (to_be 8 w.server_id
            ++ (to_be 4 w.data_center_id
                ++ (address_bytes w.client_addr ++ address_bytes w.tunnel_addr))))

read_head :
    (w : Pong) (v : ℕ) (tail rest : List ℕ)
    → IsPong w
    → read_uint 8 tail ≡ ok (v, rest)
    → read_pong (head_bytes w ++ tail) ≡ ok (record w { session_expire_at = some v }, rest)
unfolding read_pong
read_head w v tail rest h e = simp append_assoc (
    rw
      (
        read_uint-to_be 8 w.request_now _ h.request,
        read_uint-to_be 8 w.server_now _ h.server,
        read_uint-to_be 8 w.server_id _ h.server_number,
        read_uint-to_be 4 w.data_center_id _ h.data_center,
        read_address-address_bytes w.client_addr _ h.client,
        read_address-address_bytes w.tunnel_addr _ h.tunnel,
        e,
      )
      refl)

-- The presence byte and the first seven bytes of the stamp, as one number.
shifted : (e : ℕ) → IsU64 e → to_be 1 1 ++ to_be 8 e ≡ to_be 8 (2 ^ 56 + e / 256) ++ to_be 1 e
unfolding to_be
shifted e h = ground arith

low_byte : (e : ℕ) → to_be 1 e ≡ (e % 256) ∷ []
unfolding to_be
low_byte e = ground arith

abbrev some_tail : ℕ → List ℕ
some_tail e = to_be 1 1 ++ to_be 8 e

write_pong_with :
    (w : Pong) (e : ℕ)
    → write_pong (record w { session_expire_at = some e }) ≡ written (head_bytes w ++ some_tail e)
unfolding write_pong
write_pong_with w e =
    simp (append_assoc, write_address_lem w.client_addr, write_address_lem w.tunnel_addr)

write_pong_without :
    (w : Pong)
    → write_pong (record w { session_expire_at = none }) ≡ written (head_bytes w ++ to_be 1 0)
unfolding write_pong
write_pong_without w =
    simp (append_assoc, write_address_lem w.client_addr, write_address_lem w.tunnel_addr)

-- A pong with plain addresses and numbers that fit, which sets a 64-bit expiry, is read with that stamp shifted down by a byte, under a top byte of 1,
-- and the last byte of the stamp is left over. All other fields are read back.
pub pong_expiry_shifted :
    (w : Pong) (e : ℕ) (rest : List ℕ)
    → IsPong w
    → IsU64 e
    → read_pong ((write_pong (record w { session_expire_at = some e })).bytes ++ rest)
      ≡ ok (record w { session_expire_at = some (2 ^ 56 + e / 256) }, (e % 256) ∷ rest)
pong_expiry_shifted w e rest h u =
    rw
      (
        write_pong_with w e,
        append_assoc (head_bytes w),
        shifted e u,
        append_assoc (to_be 8 (2 ^ 56 + e / 256)),
      )
      (read_head w (2 ^ 56 + e / 256) (to_be 8 (2 ^ 56 + e / 256) ++ (to_be 1 e ++ rest))
        ((e % 256) ∷ rest) h
        (rw (low_byte e) (read_uint-to_be 8 (2 ^ 56 + e / 256) _ (omega arith))))

-- A pong at the end of a packet that sets no expiry is read with the expiry 0.
pub pong_no_expiry_read_as_zero :
    (w : Pong)
    → IsPong w
    → read_pong (write_pong (record w { session_expire_at = none })).bytes
      ≡ ok (record w { session_expire_at = some 0 }, [])
pong_no_expiry_read_as_zero w h =
    rw (write_pong_without w)
      (read_head w 0 (to_be 1 0) [] h (read_uint_short 8 _ (unfold to_be in omega arith)))
