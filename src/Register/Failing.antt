-- ===== src/Register/Failing.antt =====
-- Where ConnectedControl.Authenticate of tunnel/setup.go fails or panics.
use go_playit.Base.{
  connect_failed, bind, none, suc, zero, ◌≡◌, panic, err, ok, true, some, refl, ℕ, List, Result,
  arith,
}
use go_playit.Response.{Pong}
use go_playit.Feed.{ControlFeed, empty_feed, read_feed}
use go_playit.Control.{ConnectedControl}
use go_playit.Setup.{timeout, datagram}
use go_playit.Register.{
  request_bytes, resend, decode_string, is_valid, requests, replies, authenticate, AddrPort,
  Replies, judge_feed, one_reply,
}
use go_playit.Register.Accepted.{kept, receiver, fill_parts}

replies_silent :
    (net : Replies) (control : ConnectedControl) (pong : Pong) (request : List ℕ) (round left : ℕ)
    → net.reply round left ≡ timeout
    → replies net control pong request round (suc left) ≡ resend
unfolding replies one_reply
replies_silent net control pong request round left h = ground arith

requests_silent :
    (net : Replies) (control : ConnectedControl) (pong : Pong) (request : List ℕ) (left : ℕ)
    → ((round : ℕ) → net.sends round ≡ true)
    → ((round try : ℕ) → net.reply round try ≡ timeout)
    → requests net control pong request left ≡ err connect_failed
unfolding requests
requests_silent net control pong request zero s q = refl
requests_silent net control pong request (suc left) s q = ground (
  arith,
  s left,
  replies_silent net control pong request left 4 (q left 4),
  requests_silent net control pong request left s q,
)

-- Where the pong's addresses are set, the API gives a hexadecimal key and every request is sent, a server
-- that never replies makes Authenticate end with the error that it failed to connect.
pub authenticate_silent :
    (register : AddrPort → AddrPort → Result (List ℕ)) (net : Replies) (control : ConnectedControl)
    (pong : Pong) (key : List ℕ)
    → control.pong ≡ some pong
    → is_valid pong.client_addr.addr ≡ true
    → is_valid pong.tunnel_addr.addr ≡ true
    → bind (register pong.client_addr pong.tunnel_addr) decode_string ≡ ok key
    → ((round : ℕ) → net.sends round ≡ true)
    → ((round try : ℕ) → net.reply round try ≡ timeout)
    → authenticate register net control ≡ err connect_failed
unfolding authenticate
authenticate_silent register net control pong key e c t k s q =
    ground (arith, requests_silent net control pong (request_bytes key) 5 s q)

-- A reply that announces a new client instead of a response makes it panic: the request id is read
-- through a nil pointer.
pub authenticate_new_client_panics :
    (register : AddrPort → AddrPort → Result (List ℕ)) (net : Replies) (control : ConnectedControl)
    (pong : Pong) (key payload rest : List ℕ) (feed : ControlFeed)
    → control.pong ≡ some pong
    → is_valid pong.client_addr.addr ≡ true
    → is_valid pong.tunnel_addr.addr ≡ true
    → bind (register pong.client_addr pong.tunnel_addr) decode_string ≡ ok key
    → net.sends 4 ≡ true
    → net.reply 4 4 ≡ datagram payload true
    → read_feed empty_feed (kept (request_bytes key) payload) ≡ ok (feed, rest)
    → feed.response ≡ none
    → authenticate register net control ≡ panic
unfolding authenticate requests replies one_reply judge_feed
authenticate_new_client_panics register net control pong key payload rest feed e c t k s q d n =
    ground (arith, (fill_parts (receiver (request_bytes key)) payload).0)
