-- ===== src/Register.antt =====
-- ConnectedControl.Authenticate of tunnel/setup.go: registering the agent over a channel that
-- answered. The API's key, a hexadecimal text, is the result of a call outside the tunnel package.
pub mod Accepted
pub mod Failing
use go_playit.Base.{
  eof, if◌then◌else◌, ◌==◌, ◌||◌, ◌&&◌, ◌++◌, ◌∙◌, ◌↔◌, ◌⊎◌, ◌≢◌, ◌≡◌, ◌<◌, ◌≤◌, ◌^◌, ◌%◌, ◌/◌, ◌*◌,
  ◌-◌, ◌+◌, inr, inl, ◌∷◌, [], panic, err, ok, false, true, some, none, suc, zero, refl, ℕ, List,
  Option, Bool, Error, Result, bind, take, length, drop, replicate, not,
}
use go_playit.Base.{
  invalid_pong_client, invalid_pong_tunnel, odd_hex, invalid_hex, no_response,
  invalid_signature_returned, unauthorized_returned, connect_failed, socket_failed, leb, ltb,
}
use go_playit.Netip.{AddrPort, is_valid}
use go_playit.Wire.{Written, write_data, Get, ◌>>=◌, written, ◌>>◌, pure, read_u64, Get}
use go_playit.Rpc.{ControlRpcMessage, MessageEncoding, write_rpc}
use go_playit.Response.{AgentRegistered, Pong, ControlResponse}
use go_playit.Feed.{ControlFeed, empty_feed, read_feed}
use go_playit.UdpTunnel.Rx.{fill}
use go_playit.Control.{ConnectedControl, AuthenticatedControl}
use go_playit.Setup.{ReadOutcome, timeout, failed, datagram}

-- RawSlice of tunnel/bigint.go: I.Read of a bytes.Buffer into a slice of the receiver's length, which
-- is an error only where bytes are wanted and none are left.
unfoldable pub write_raw : List ℕ → Written
write_raw buff = write_data buff

unfoldable pub read_raw : List ℕ → Get (List ℕ)
read_raw [] r = ok ([], r)
read_raw (b ∷ bs) [] = err eof
read_raw (b ∷ bs) (c ∷ cs) = ok (
  take (length (b ∷ bs)) (c ∷ cs) ++ drop (length (c ∷ cs)) (b ∷ bs),
  drop (length (b ∷ bs)) (c ∷ cs),
)

instance abbrev pub raw_encoding : MessageEncoding (List ℕ)
raw_encoding = record { write_to = write_raw; read_from = read_raw }

-- encoding/hex, on the codes of the characters.
unfoldable pub hex_digit : ℕ → Option ℕ
hex_digit c =
    if leb b'0' c && leb c b'9'
    then some (c - b'0')
    else if leb b'a' c && leb c b'f'
    then some (c - b'a' + 10)
    else if leb b'A' c && leb c b'F'
    then some (c - b'A' + 10)
    else none

unfoldable pub decode_string : List ℕ → Result (List ℕ)
unfolding hex_digit
decode_string [] = ok []
decode_string (c ∷ []) = elim (hex_digit c) [ none ↦ err invalid_hex | some _ ↦ err odd_hex ]
decode_string (c ∷ (d ∷ rest)) = elim (hex_digit c) [
  | none ↦ err invalid_hex
  | some hi ↦ elim (hex_digit d) [
    | none ↦ err invalid_hex
    | some lo ↦ bind (decode_string rest) (λ bs. ok ((hi * 16 + lo) ∷ bs))
  ]
]

-- The end of a read of the inner loop: `continue`, `break` out of the five reads, or a return.
pub data Turn : Type 0 where
  again resend : Turn
  return : Result AuthenticatedControl → Turn

unfoldable pub registered_control :
    ConnectedControl → Pong → List ℕ → AgentRegistered → AuthenticatedControl
registered_control control pong rest r = record {
  conn = control;
  current_ping = none;
  last_pong = pong;
  force_expired = false;
  registered = r;
  buff = rest;
}

-- The tests on a response to request 10, in the order of the source.
unfoldable pub judge : ConnectedControl → Pong → List ℕ → ControlResponse → Turn
judge control pong rest content =
    if content.request_queued
    then again
    else if content.invalid_signature
    then return (err invalid_signature_returned)
    else if content.unauthorized
    then return (err unauthorized_returned)
    else elim content.agent_registered [
      | some r ↦ return (ok (registered_control control pong rest r))
      | none ↦ again
    ]

-- `feed.Response.RequestID` is read before the test for nil.
unfoldable pub judge_feed : ConnectedControl → Pong → List ℕ → Result (ControlFeed × List ℕ) → Turn
judge_feed control pong rest (err e) = return (err e)
judge_feed control pong rest panic = return panic
judge_feed control pong rest (ok (feed, _left)) = elim feed.response [
  | none ↦ return panic
  | some msg ↦ if not (msg.request_id == 10) then again else judge control pong rest msg.content
]

-- One of the five reads, into a buffer of the request's bytes and 1024 zeros.
unfoldable pub one_reply : ConnectedControl → Pong → List ℕ → ReadOutcome → Turn
unfolding fill
one_reply control pong request timeout = resend
one_reply control pong request failed = return (err socket_failed)
one_reply control pong request (datagram payload from_peer) =
    let (filled, size) = fill (request ++ replicate 1024 0) payload in
    if from_peer
    then judge_feed control pong (drop size filled) (read_feed empty_feed (take size filled))
    else again

-- Whether each request is sent, and what each read returns, by the rounds and tries left.
pub record Replies : Type 0 where
  pub sends : ℕ → Bool
  pub reply : ℕ → ℕ → ReadOutcome

module _ (net : Replies) (control : ConnectedControl) (pong : Pong) (request : List ℕ) where
  unfoldable pub replies : ℕ → ℕ → Turn
  replies round zero = again
  replies round (suc left) = elim (one_reply control pong request (net.reply round left)) [
    | again ↦ replies round left
    | resend ↦ resend
    | return r ↦ return r
  ]

  unfoldable pub requests : ℕ → Result AuthenticatedControl
  requests zero = err connect_failed
  requests (suc left) =
      if net.sends left
      then elim (replies left 5) [ again ↦ requests left | resend ↦ requests left | return r ↦ r ]
      else err socket_failed

-- The request: the signed key under the id 10.
unfoldable pub request_bytes : List ℕ → List ℕ
request_bytes key = (write_rpc (record { request_id = 10; content = key })).bytes

unfoldable pub authenticate :
    (AddrPort → AddrPort → Result (List ℕ))
    → Replies
    → ConnectedControl
    → Result AuthenticatedControl
authenticate register net control = elim control.pong [
  | none ↦ panic
  | some pong ↦
      if not (is_valid pong.client_addr.addr)
      then err invalid_pong_client
      else if not (is_valid pong.tunnel_addr.addr)
      then err invalid_pong_tunnel
      else bind (bind (register pong.client_addr pong.tunnel_addr) decode_string)
          (λ key. requests net control pong (request_bytes key) 5)
]
