-- ===== src/UdpFlow/Tail.antt =====
-- What FromTailUdpFlow of tunnel/udp_proto.go makes of a packet that UdpFlow.WriteTo ended.
use go_playit.Base.{
  zero, refl, ap, [], append-nil, ◌∷◌, take-append, suc, take, ◌≤◌, ℕ, ◌-◌, ◌≡◌, List, ◌++◌,
  append_assoc, length, length-append, drop, drop-append, arith, none, some, IsU64,
}
use go_playit.Wire.{read_uint, to_be, from_be}
use go_playit.Wire.Uint.{length-to_be, from_be-to_be}
use go_playit.Netip.{AddrPort, v6, as_slice}
use go_playit.UdpFlow.{
  redirect_flow_6_footer_id, flow_len, as_slice, v6, UdpFlow6, UdpFlow, filled, fresh, tail_base,
  UdpFlowBase, write_flow, from_tail_udp_flow,
}
use go_playit.UdpFlow.{filled, fresh, tail_base, redirect_flow_4_footer_id_old}
use go_playit.UdpFlow.Size.{
  IsFlow, write_flow-flow_len, write_flow_six, six_bytes, IsSized, base_bytes, write_flow_four,
}

drop_end : (xs ys : List ℕ) (n : ℕ) → length ys ≡ n → drop (length (xs ++ ys) - n) (xs ++ ys) ≡ ys
drop_end xs ys n h = rw (len) at (drop-append xs ys)
  where
    len : length xs ≡ length (xs ++ ys) - n
    len = omega (arith, length-append xs ys)

-- The last eight bytes.
footer_lem :
    (front : List ℕ) (id : ℕ)
    → IsU64 id
    → from_be (drop (length (front ++ to_be 8 id) - 8) (front ++ to_be 8 id)) ≡ id
footer_lem front id h =
    rw (drop_end front (to_be 8 id) 8 (length-to_be 8 id)) (from_be-to_be 8 id h)

-- A packet that ends in the footer of an IPv4 flow is not recognised, and this is no error: the
-- number compared against is the bitwise or of both IPv4 numbers.
pub four_unrecognised :
    (payload : List ℕ) (b : UdpFlowBase)
    → from_tail_udp_flow
        (payload ++ (write_flow (record { flow_v4 = some b; flow_v6 = none })).bytes)
      ≡ record { flow = none; footer = redirect_flow_4_footer_id_old; error = none }
unfolding from_tail_udp_flow
four_unrecognised payload b =
    rw
      (
        write_flow_four b,
        ← append_assoc payload (base_bytes b) (to_be 8 redirect_flow_4_footer_id_old),
      )
      (ground (
        arith,
        footer_lem (payload ++ base_bytes b) redirect_flow_4_footer_id_old,
        length-append (payload ++ base_bytes b) (to_be 8 redirect_flow_4_footer_id_old),
        length-to_be 8 redirect_flow_4_footer_id_old,
      ))

take-append_le : (n : ℕ) (xs ys : List ℕ) → n ≤ length xs → take n (xs ++ ys) ≡ take n xs
take-append_le zero xs ys h = refl
take-append_le (suc n) [] ys h = absurd (omega arith)
take-append_le (suc n) (x ∷ xs) ys h =
    ap (λ (zs : List ℕ). x ∷ zs) (take-append_le n xs ys (omega arith))

-- All that the decoder looks at: the bytes at the start of the footer.
filled-append : (n : ℕ) (xs ys : List ℕ) → length xs ≡ n → filled n (xs ++ ys) ≡ xs
unfolding filled
filled-append n xs ys h = rw (fits, none_missing, append-nil) refl
  where
    fits : take n (xs ++ ys) ≡ xs
    fits = rw h at (take-append xs ys)

    none_missing : n - length (xs ++ ys) ≡ 0
    none_missing = omega (arith, length-append xs ys)

fresh-append :
    (n : ℕ) (xs ys : List ℕ) → n ≤ length xs → fresh (read_uint n (xs ++ ys)) ≡ from_be (take n xs)
unfolding fresh read_uint
fresh-append n xs ys h = ground (arith, length-append xs ys, take-append_le n xs ys)

-- What the decoder gets from an IPv6 footer that starts with the bytes `ip`.
abbrev pub misread_six : List ℕ → UdpFlow
misread_six ip =
    let addr : AddrPort = record { addr = v6 ip []; port = from_be (take 2 ip) } in
    record {
      flow_v4 = none;
      flow_v6 =
          some (record { base = record { src = addr; dst = addr }; flow = from_be (take 4 ip) });
    }

tail_six :
    (c : UdpFlow6)
    → IsSized 16 c.base
    → tail_base 16 (λ ip. v6 ip []) (six_bytes c) ≡ record {
      src = record {
        addr = v6 (as_slice c.base.src.addr) [];
        port = from_be (take 2 (as_slice c.base.src.addr));
      };
      dst = record {
        addr = v6 (as_slice c.base.src.addr) [];
        port = from_be (take 2 (as_slice c.base.src.addr));
      };
    }
unfolding tail_base base_bytes
tail_six c (h, k) =
    simp
      (
        append_assoc,
        filled-append 16 (as_slice c.base.src.addr) _ h,
        fresh-append 2 (as_slice c.base.src.addr) _ (omega arith),
      )
      refl

fresh_flow :
    (c : UdpFlow6)
    → IsSized 16 c.base
    → fresh (read_uint 4 (six_bytes c)) ≡ from_be (take 4 (as_slice c.base.src.addr))
unfolding base_bytes
fresh_flow c (h, k) =
    simp (append_assoc, fresh-append 4 (as_slice c.base.src.addr) _ (omega arith)) refl

length-six_bytes : (c : UdpFlow6) → IsSized 16 c.base → length (six_bytes c) ≡ 48
unfolding flow_len
length-six_bytes c h = rw (write_flow_six c) at (write_flow-flow_len _ (IsFlow.six c h))

footer_six :
    (payload : List ℕ) (c : UdpFlow6)
    → from_be (drop (length (payload ++ six_bytes c) - 8) (payload ++ six_bytes c))
      ≡ redirect_flow_6_footer_id
footer_six payload c =
    rw (append_assoc, append_assoc) at
      (footer_lem (payload ++ (base_bytes c.base ++ to_be 4 c.flow)) redirect_flow_6_footer_id
        (omega arith))

-- A packet that ends in the footer of an IPv6 flow with 16-byte addresses is decoded, whatever the payload, but both
-- addresses are the written source, both ports are its first two bytes, and the flow label is its
-- first four: each field is read from the start of the footer.
pub six_misread :
    (payload : List ℕ) (c : UdpFlow6)
    → IsSized 16 c.base
    → from_tail_udp_flow
        (payload ++ (write_flow (record { flow_v4 = none; flow_v6 = some c })).bytes)
      ≡ record { flow = some (misread_six (as_slice c.base.src.addr)); footer = 0; error = none }
unfolding from_tail_udp_flow
six_misread payload c h = rw (write_flow_six c) (
    ground (
      arith,
      length-append payload (six_bytes c),
      length-six_bytes c h,
      footer_six payload c,
      drop_end payload (six_bytes c) 48 (length-six_bytes c h),
      tail_six c h,
      fresh_flow c h,
    ))
