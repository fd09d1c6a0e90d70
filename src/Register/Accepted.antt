-- ===== src/Register/Accepted.antt =====
-- What ConnectedControl.Authenticate of tunnel/setup.go returns.
use go_playit.Base.{
  length-take, take-append, drop-append, none, length, drop, min, bind_ok, ◌<◌, Bool-cases, bind,
  ◌⊎◌, suc, zero, ◌++◌, ◌≡◌, inr, inl, panic, err, ok, false, true, some, refl, ℕ, List, Result,
  take, arith, Option-cases, replicate,
}
use go_playit.Rpc.{ControlRpcMessage}
use go_playit.Response.{Pong, ControlResponse, AgentRegistered}
use go_playit.Feed.{ControlFeed, empty_feed, read_feed}
use go_playit.UdpTunnel.Rx.{fill}
use go_playit.Control.{ConnectedControl, AuthenticatedControl}
use go_playit.Setup.{ReadOutcome, timeout, failed, datagram}
use go_playit.Register.{
  request_bytes, resend, decode_string, is_valid, again, requests, replies, authenticate, AddrPort,
  Replies, Turn, return, registered_control, judge, judge_feed, one_reply,
}

-- The bytes hold a response to request 10 that registers the agent: it is not queued, and it names
-- no fault.
pub record HoldsRegistration (bytes : List ℕ) (r : AgentRegistered) : Type 0 where
  pub feed : ControlFeed
  pub rest : List ℕ
  pub msg : ControlRpcMessage ControlResponse
  pub decoded : read_feed empty_feed bytes ≡ ok (feed, rest)
  pub is_response : feed.response ≡ some msg
  pub to_request : msg.request_id ≡ 10
  pub not_queued : msg.content.request_queued ≡ false
  pub signed : msg.content.invalid_signature ≡ false
  pub authorized : msg.content.unauthorized ≡ false
  pub registers : msg.content.agent_registered ≡ some r

judge_return :
    (control : ConnectedControl) (pong : Pong) (left : List ℕ) (content : ControlResponse)
    (a : AuthenticatedControl)
    → judge control pong left content ≡ return (ok a)
    → (r : AgentRegistered) × (content.request_queued ≡ false)
      × (content.invalid_signature ≡ false)
      × (content.unauthorized ≡ false)
      × (content.agent_registered ≡ some r)
      × (a ≡ registered_control control pong left r)
unfolding judge
judge_return control pong left content a h = elim (Option-cases content.agent_registered) [
  | inl e ↦ absurd (ground arith)
  | inr (r, e) ↦ (r, ground arith, ground arith, ground arith, e, ground arith)
]

-- The channel `a` comes from a registration in the bytes, over the old channel and with its pong, with no
-- ping under way and not forced to expire, and with `left` in its buffer.
abbrev FromBytes : ConnectedControl → Pong → List ℕ → List ℕ → AuthenticatedControl → Type 0
FromBytes control pong left bytes a =
    (r : AgentRegistered) × HoldsRegistration bytes r
    × (a ≡ record {
      conn = control;
      current_ping = none;
      last_pong = pong;
      force_expired = false;
      registered = r;
      buff = left;
    })

judge_feed_return :
    (control : ConnectedControl) (pong : Pong) (left bytes : List ℕ) (a : AuthenticatedControl)
    (r : Result (ControlFeed × List ℕ))
    → read_feed empty_feed bytes ≡ r
    → judge_feed control pong left r ≡ return (ok a)
    → FromBytes control pong left bytes a
unfolding judge_feed registered_control
judge_feed_return control pong left bytes a (err e) d h = absurd (cc)
judge_feed_return control pong left bytes a panic d h = absurd (cc)
judge_feed_return control pong left bytes a (ok (feed, rest)) d h =
    elim (Option-cases feed.response) [
      | inl e ↦ absurd (ground arith)
      | inr (msg, e) ↦
          let (r, queued, signature, authorization, registers, same) =
            judge_return control pong left msg.content a (ground arith) in
          (
            r,
            record {
              feed = feed;
              rest = rest;
              msg = msg;
              decoded = d;
              is_response = e;
              to_request = ground arith;
              not_queued = queued;
              signed = signature;
              authorized = authorization;
              registers = registers;
            },
            same,
          )
    ]

-- The buffer of the reads: the request's bytes and 1024 zeros.
abbrev pub receiver : List ℕ → List ℕ
receiver request = request ++ replicate 1024 0

-- The bytes that are decoded of a datagram: those that fit the buffer.
abbrev pub kept : List ℕ → List ℕ → List ℕ
kept request payload = take (length (receiver request)) payload

-- What stands in the buffer behind a datagram.
abbrev pub behind : List ℕ → List ℕ → List ℕ
behind request payload = drop (length payload) (receiver request)

pub fill_parts :
    (buff payload : List ℕ)
    → (let (filled, size) = fill buff payload in
        (take size filled ≡ take (length buff) payload)
        × (drop size filled ≡ drop (length payload) buff))
unfolding fill
fill_parts buff payload =
    let start = take (length buff) payload in
    let size : min (length payload) (length buff) ≡ length start =
      omega (arith, length-take (length buff) payload) in
    (
      rw size (take-append start (drop (length payload) buff)),
      rw size (drop-append start (drop (length payload) buff)),
    )

same_parts :
    {control : ConnectedControl} {pong : Pong} {left left' bytes bytes' : List ℕ}
    {a : AuthenticatedControl}
    → left ≡ left'
    → bytes ≡ bytes'
    → FromBytes control pong left bytes a
    → FromBytes control pong left' bytes' a
same_parts e e' from = rw (← e, ← e') from

abbrev FromReply : ConnectedControl → Pong → List ℕ → AuthenticatedControl → ReadOutcome → Type 0
FromReply control pong request a outcome =
    (payload : List ℕ) × (outcome ≡ datagram payload true)
    × FromBytes control pong (behind request payload) (kept request payload) a

one_reply_return :
    (control : ConnectedControl) (pong : Pong) (request : List ℕ) (a : AuthenticatedControl)
    (outcome : ReadOutcome)
    → one_reply control pong request outcome ≡ return (ok a)
    → FromReply control pong request a outcome
unfolding one_reply
one_reply_return control pong request a timeout h = absurd (cc)
one_reply_return control pong request a failed h = absurd (cc)
one_reply_return control pong request a (datagram payload false) h = absurd (cc)
one_reply_return control pong request a (datagram payload true) h =
    let (decoded, left) = fill_parts (receiver request) payload in
    let (filled, size) = fill (receiver request) payload in
    (
      payload,
      refl,
      same_parts left decoded
          (judge_feed_return control pong (drop size filled) (take size filled) a _ refl h),
    )

Turn-cases :
    (t : Turn) → (t ≡ again) ⊎ ((t ≡ resend) ⊎ ((r : Result AuthenticatedControl) × (t ≡ return r)))
Turn-cases again = inl refl
Turn-cases resend = inr (inl refl)
Turn-cases (return r) = inr (inr (r, refl))

module _ (net : Replies) (control : ConnectedControl) (pong : Pong) (request : List ℕ)
    (a : AuthenticatedControl) where
  replies_return :
      (round left : ℕ)
      → replies net control pong request round left ≡ return (ok a)
      → (try : ℕ) × (try < left) × FromReply control pong request a (net.reply round try)
  unfolding replies
  replies_return round zero h = absurd (cc)
  replies_return round (suc left) h =
      elim (Turn-cases (one_reply control pong request (net.reply round left))) [
        | inl e ↦
            let (try, bound, from) = replies_return round left (ground (arith, e)) in
            (try, omega (arith, bound), from)
        | inr (inl e) ↦ absurd (ground (arith, e))
        | inr (inr (r, e)) ↦ (
          left,
          omega arith,
          one_reply_return control pong request a (net.reply round left) (ground (arith, e)),
        )
      ]

  requests_ok :
      (left : ℕ)
      → requests net control pong request left ≡ ok a
      → (round : ℕ) × (try : ℕ) × (round < left)
        × (try < 5)
        × (net.sends round ≡ true)
        × FromReply control pong request a (net.reply round try)
  unfolding requests
  requests_ok zero h = absurd (cc)
  requests_ok (suc left) h = elim (Bool-cases (net.sends left)) [
    | inr unsent ↦ absurd (ground arith)
    | inl sent ↦ elim (Turn-cases (replies net control pong request left 5)) [
      | inl e ↦ earlier (requests_ok left (ground (arith, e)))
      | inr (inl e) ↦ earlier (requests_ok left (ground (arith, e)))
      | inr (inr (r, e)) ↦
          let (try, bound, from) = replies_return left 5 (ground (arith, e)) in
          (left, try, omega arith, bound, sent, from)
    ]
  ]
    where
      earlier :
          (round : ℕ) × (try : ℕ) × (round < left)
            × (try < 5)
            × (net.sends round ≡ true)
            × FromReply control pong request a (net.reply round try)
          → (round : ℕ) × (try : ℕ) × (round < suc left)
            × (try < 5)
            × (net.sends round ≡ true)
            × FromReply control pong request a (net.reply round try)
      earlier (round, try, bound, few, requested, from) =
          (round, try, omega (arith, bound), few, requested, from)

-- What a channel that Authenticate returns rests on: the pong of the channel it was given, with set
-- addresses, a key for them, and a reply to the sent request with that key that registers the agent.
pub record Accepts (register : AddrPort → AddrPort → Result (List ℕ)) (net : Replies)
    (control : ConnectedControl) (a : AuthenticatedControl) : Type 0 where
  pub pong : Pong
  pub its_pong : control.pong ≡ some pong
  pub client_set : is_valid pong.client_addr.addr ≡ true
  pub tunnel_set : is_valid pong.tunnel_addr.addr ≡ true
  pub key : List ℕ
  pub registered : bind (register pong.client_addr pong.tunnel_addr) decode_string ≡ ok key
  pub round : ℕ
  pub try : ℕ
  pub few_rounds : round < 5
  pub few_tries : try < 5
  pub sent : net.sends round ≡ true
  pub replied : FromReply control pong (request_bytes key) a (net.reply round try)

-- Authenticate returns a channel only if its pong has set addresses, the API gave a hexadecimal key for
-- them, and in one of five rounds whose request was sent, at one of five tries, a datagram from the
-- control address answers request 10 with a registration that names no fault. The channel is then this
-- registration over the channel and its pong, with no ping under way and not forced to expire, and its
-- buffer is what the datagram leaves of the buffer of the reads, the request's bytes and 1024 zeros.
pub authenticate-Accepts :
    (register : AddrPort → AddrPort → Result (List ℕ)) (net : Replies) (control : ConnectedControl)
    (a : AuthenticatedControl)
    → authenticate register net control ≡ ok a
    → Accepts register net control a
unfolding authenticate
authenticate-Accepts register net control a h = elim (Option-cases control.pong) [
  | inl e ↦ absurd (ground arith)
  | inr (pong, e) ↦
      let client_ok : is_valid pong.client_addr.addr ≡ true = ground arith in
      let tunnel_ok : is_valid pong.tunnel_addr.addr ≡ true = ground arith in
      let keyed = bind (register pong.client_addr pong.tunnel_addr) decode_string in
      let finish : List ℕ → Result AuthenticatedControl =
        λ key. requests net control pong (request_bytes key) 5 in
      let (key, got, rest) = bind_ok keyed finish (ground arith) in
      let (round, try, few_rounds, few_tries, sent, from) =
        requests_ok net control pong (request_bytes key) a 5 rest in
      record {
        pong = pong;
        its_pong = e;
        client_set = client_ok;
        tunnel_set = tunnel_ok;
        key = key;
        registered = got;
        round = round;
        try = try;
        few_rounds = few_rounds;
        few_tries = few_tries;
        sent = sent;
        replied = from;
      }
]
