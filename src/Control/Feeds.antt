-- ===== src/Control/Feeds.antt =====
-- What RecFeedMsg of tunnel/control.go decodes: the bytes of its buffer behind the datagram.
use go_playit.Netip.{same_addr_port_refl}
use go_playit.Wire.{to_be, read_uint}
use go_playit.Wire.Uint.{read_uint-to_be, read_uint_short}
use go_playit.Feed.{read_feed, empty_feed}
use go_playit.UdpTunnel.Rx.{Datagram}
use go_playit.UdpTunnel.Receive.{fill_fits}
use go_playit.Control.{AuthenticatedControl, rec_feed_msg, decode_feed}
use go_playit.Base.{
  ap, ◌++◌, ◌∙◌, ◌≡◌, ◌≤◌, ◌-◌, ◌+◌, ◌∷◌, [], err, ok, some, suc, zero, refl, arith, List, length,
  length-append, replicate, drop, drop-append, ℕ,
}
use go_playit.Base.{invalid_control_feed_id}

abbrev zeros : ℕ → List ℕ
zeros k = replicate k 0

drop-zeros : (n k : ℕ) → drop n (zeros k) ≡ zeros (k - n)
drop-zeros zero k = let e : k ≡ k - 0 = omega arith in ap zeros e
drop-zeros (suc n) zero = let e : 0 ≡ 0 - suc n = omega arith in ap zeros e
drop-zeros (suc n) (suc k) =
    let e : k - n ≡ suc k - suc n = omega arith in drop-zeros n k ∙ ap zeros e

drop-append_ge :
    (n : ℕ) (xs ys : List ℕ) → length xs ≤ n → drop n (xs ++ ys) ≡ drop (n - length xs) ys
drop-append_ge n [] ys h = ap (λ (m : ℕ). drop m ys) (omega arith)
drop-append_ge zero (x ∷ xs) ys h = absurd (omega arith)
drop-append_ge (suc n) (x ∷ xs) ys h =
    drop-append_ge n xs ys (omega arith) ∙ ap (λ (m : ℕ). drop m ys) (omega arith)

length-zeros : (k : ℕ) → length (zeros k) ≡ k
length-zeros zero = refl
length-zeros (suc k) = ap suc (length-zeros k)

read_zero : (r : List ℕ) → read_uint 4 (0 ∷ 0 ∷ 0 ∷ 0 ∷ r) ≡ ok (0, r)
unfolding to_be
read_zero r = read_uint-to_be 4 0 r (omega arith)

-- Zeros are no feed: the number of a feed is 1 or 2.
read_feed-zeros : (k : ℕ) → read_feed empty_feed (zeros k) ≡ err invalid_control_feed_id
unfolding read_feed
read_feed-zeros zero = rw (read_uint_short 4 [] (omega arith))
read_feed-zeros (suc zero) = rw (read_uint_short 4 (0 ∷ []) (omega arith))
read_feed-zeros (suc (suc zero)) = rw (read_uint_short 4 (0 ∷ 0 ∷ []) (omega arith))
read_feed-zeros (suc (suc (suc zero))) = rw (read_uint_short 4 (0 ∷ 0 ∷ 0 ∷ []) (omega arith))
read_feed-zeros (suc (suc (suc (suc k)))) = rw (read_zero (zeros k))

-- A datagram from the control address that is at least as long as what the buffer held before the
-- read, and fits it, is refused as a feed with an unknown number, whatever it holds: only zeros
-- stand behind it.
pub long_feed_refused :
    (now : ℕ) (d : Datagram) (auth : AuthenticatedControl)
    → d.remote ≡ auth.conn.control_addr
    → length auth.buff ≤ length d.payload
    → length d.payload ≤ length auth.buff + 1024
    → (rec_feed_msg now (some d) auth).0 ≡ err invalid_control_feed_id
unfolding rec_feed_msg decode_feed
long_feed_refused now d auth r lo hi =
    let buff : List ℕ = auth.buff ++ zeros 1024 in
    let fits : length d.payload ≤ length buff =
      omega (arith, length-append auth.buff (zeros 1024), length-zeros 1024) in
    ground (
      arith,
      r,
      same_addr_port_refl auth.conn.control_addr,
      fill_fits buff d.payload fits,
      drop-append d.payload (drop (length d.payload) buff),
      drop-append_ge (length d.payload) auth.buff (zeros 1024) lo,
      drop-zeros (length d.payload - length auth.buff) 1024,
      read_feed-zeros (1024 - (length d.payload - length auth.buff)),
    )

-- The bytes of a datagram have no say in the result of RecFeedMsg: two datagrams of one length, which
-- fits the buffer, and one sender have the same result.
pub feed_ignores_payload :
    (now : ℕ) (d d' : Datagram) (auth : AuthenticatedControl)
    → d.remote ≡ d'.remote
    → length d.payload ≡ length d'.payload
    → length d.payload ≤ length auth.buff + 1024
    → (rec_feed_msg now (some d) auth).0 ≡ (rec_feed_msg now (some d') auth).0
unfolding rec_feed_msg decode_feed
feed_ignores_payload now d d' auth r l hi =
    let buff : List ℕ = auth.buff ++ zeros 1024 in
    let fits : length d.payload ≤ length buff =
      omega (arith, length-append auth.buff (zeros 1024), length-zeros 1024) in
    ground (
      arith,
      fill_fits buff d.payload fits,
      fill_fits buff d'.payload,
      drop-append d.payload (drop (length d.payload) buff),
      drop-append d'.payload (drop (length d'.payload) buff),
    )
