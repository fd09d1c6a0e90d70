-- ===== src/Setup/Pinging.antt =====
-- What SetupFindSuitableChannel.Setup of tunnel/setup.go returns.
use go_playit.Base.{
  Bool-cases, ◌<◌, get_elem?, Bool, Result, ◌⊎◌, ◌+◌, ◌∷◌, [], panic, err, false, suc, zero, refl,
  ◌≡◌, inr, inl, ok, true, some, ℕ, List, take, arith, Option-cases,
}
use mathlib.Core.Path.{subst}
use native.Mathlib.Nat.{add-zero, zero-add}
use go_playit.Netip.{is4, AddrPort}
use go_playit.Rpc.{ControlRpcMessage}
use go_playit.Response.{Pong, ControlResponse}
use go_playit.Feed.{ControlFeed, empty_feed, read_feed}
use go_playit.Control.{ConnectedControl}
use go_playit.Setup.{
  setup, find_channel, timeout, failed, next, answer, rounds, reads, Flow, one_read, answer_feed,
  ReadOutcome, datagram, Network, done, answer_message,
}

-- The bytes hold a pong to request 1.
pub record HoldsPong (bytes : List ℕ) (pong : Pong) : Type 0 where
  pub feed : ControlFeed
  pub rest : List ℕ
  pub msg : ControlRpcMessage ControlResponse
  pub decoded : read_feed empty_feed bytes ≡ ok (feed, rest)
  pub is_response : feed.response ≡ some msg
  pub to_ping : msg.request_id ≡ 1
  pub is_pong : msg.content.pong ≡ some pong

abbrev pub channel : AddrPort → ℕ → Pong → ConnectedControl
channel addr conn pong = record { control_addr = addr; udp = conn; pong = some pong }

-- A datagram from the address that was pinged holds the pong of the channel.
abbrev FromAnswer : AddrPort → ℕ → ConnectedControl → ReadOutcome → Type 0
FromAnswer addr conn c outcome =
    (payload : List ℕ) × (pong : Pong) × (outcome ≡ datagram payload true)
    × HoldsPong (take 2048 payload) pong
    × (c ≡ channel addr conn pong)

answer_message_done :
    (addr : AddrPort) (conn : ℕ) (msg : ControlRpcMessage ControlResponse) (c : ConnectedControl)
    → answer_message addr conn msg ≡ done (ok c)
    → (msg.request_id ≡ 1)
      × ((pong : Pong) × (msg.content.pong ≡ some pong) × (c ≡ channel addr conn pong))
unfolding answer_message
answer_message_done addr conn msg c h = elim (Option-cases msg.content.pong) [
  | inl e ↦ absurd (ground arith)
  | inr (pong, e) ↦ (ground arith, (pong, e, ground arith))
]

answer_feed_done :
    (addr : AddrPort) (conn : ℕ) (bytes : List ℕ) (c : ConnectedControl)
    (r : Result (ControlFeed × List ℕ))
    → read_feed empty_feed bytes ≡ r
    → answer_feed addr conn r ≡ done (ok c)
    → (pong : Pong) × HoldsPong bytes pong × (c ≡ channel addr conn pong)
unfolding answer_feed
answer_feed_done addr conn bytes c (err e) d h = absurd (cc)
answer_feed_done addr conn bytes c panic d h = absurd (cc)
answer_feed_done addr conn bytes c (ok (feed, rest)) d h = elim (Option-cases feed.response) [
  | inl e ↦ absurd (ground arith)
  | inr (msg, e) ↦
      let (to_one, p) = answer_message_done addr conn msg c (ground arith) in
      (
        p.0,
        record {
          feed = feed;
          rest = rest;
          msg = msg;
          decoded = d;
          is_response = e;
          to_ping = to_one;
          is_pong = p.1;
        },
        p.2,
      )
]

one_read_done :
    (addr : AddrPort) (conn : ℕ) (c : ConnectedControl) (deadline : Bool) (outcome : ReadOutcome)
    → one_read addr conn deadline outcome ≡ done (ok c)
    → FromAnswer addr conn c outcome
unfolding one_read answer
one_read_done addr conn c false outcome h = absurd (cc)
one_read_done addr conn c true timeout h = absurd (cc)
one_read_done addr conn c true failed h = absurd (cc)
one_read_done addr conn c true (datagram payload false) h = absurd (cc)
one_read_done addr conn c true (datagram payload true) h =
    let (pong, holds, e) = answer_feed_done addr conn (take 2048 payload) c _ refl h in
    (payload, pong, refl, holds, e)

Flow-cases : {A : Type 0} (f : Flow A) → (f ≡ next) ⊎ ((r : Result A) × (f ≡ done r))
Flow-cases next = inl refl
Flow-cases (done r) = inr (r, refl)

module _ (net : Network) (i : ℕ) (addr : AddrPort) (conn : ℕ) (c : ConnectedControl) where
  reads_done :
      (round left : ℕ)
      → reads net i addr conn round left ≡ done (ok c)
      → (try : ℕ) × (try < left) × FromAnswer addr conn c (net.receive i round try)
  unfolding reads
  reads_done round zero h = absurd (cc)
  reads_done round (suc left) h =
      let outcome = one_read addr conn (net.deadline i round left) (net.receive i round left) in
      elim (Flow-cases outcome) [
        | inl e ↦
            let (try, bound, from) = reads_done round left (ground (arith, e)) in
            (try, omega (arith, bound), from)
        | inr (r, e) ↦ (
          left,
          omega arith,
          one_read_done addr conn c (net.deadline i round left) (net.receive i round left)
              (ground (arith, e)),
        )
      ]

  rounds_done :
      (left : ℕ)
      → rounds net i addr conn left ≡ done (ok c)
      → (round : ℕ) × (try : ℕ) × (round < left)
        × (try < 5)
        × (net.sends i round ≡ true)
        × FromAnswer addr conn c (net.receive i round try)
  unfolding rounds
  rounds_done zero h = absurd (cc)
  rounds_done (suc left) h = elim (Bool-cases (net.sends i left)) [
    | inr unsent ↦ absurd (ground (arith, unsent))
    | inl sent ↦ elim (Flow-cases (reads net i addr conn left 5)) [
      | inl e ↦
          let (round, try, bound, few, pinged, from) = rounds_done left (ground (arith, sent, e)) in
          (round, try, omega (arith, bound), few, pinged, from)
      | inr (r, e) ↦
          let (try, bound, answered) = reads_done left 5 (ground (arith, sent, e)) in
          (left, try, omega arith, bound, sent, answered)
    ]
  ]

-- A socket for the `i`th address got an answer from it in one of three rounds whose ping was sent, at one
-- of five tries.
abbrev pub Answered : Network → ℕ → AddrPort → ConnectedControl → Type 0
Answered net i addr c =
    (conn : ℕ) × (round : ℕ) × (try : ℕ) × (net.listen i (is4 addr.addr) ≡ some conn)
    × (round < 3)
    × (try < 5)
    × (net.sends i round ≡ true)
    × FromAnswer addr conn c (net.receive i round try)

find-Answered :
    (net : Network) (i : ℕ) (addrs : List AddrPort) (c : ConnectedControl)
    → find_channel net i addrs ≡ ok c
    → (k : ℕ) × (addr : AddrPort) × (get_elem? addrs k ≡ some addr) × Answered net (i + k) addr c
unfolding find_channel
find-Answered net i [] c h = absurd (cc)
find-Answered net i (addr ∷ addrs) c h = elim (Option-cases (net.listen i (is4 addr.addr))) [
  | inl e ↦ later (find-Answered net (i + 1) addrs c (ground (arith, e)))
  | inr (conn, e) ↦ elim (Flow-cases (rounds net i addr conn 3)) [
    | inl f ↦ later (find-Answered net (i + 1) addrs c (ground (arith, e, f)))
    | inr (r, f) ↦
        let (round, try, rounds_few, tries_few, pinged, from) =
          rounds_done net i addr conn c 3 (ground (arith, e, f)) in
        (0, addr, refl, rw add-zero (conn, round, try, e, rounds_few, tries_few, pinged, from))
  ]
]
  where
    later :
        (k : ℕ) × (a : AddrPort) × (get_elem? addrs k ≡ some a) × Answered net (i + 1 + k) a c
        → (k : ℕ) × (a : AddrPort) × (get_elem? (addr ∷ addrs) k ≡ some a)
          × Answered net (i + k) a c
    later (k, a, at, answered) =
        let e : i + 1 + k ≡ i + suc k = omega arith in
        (suc k, a, at, subst (λ n. Answered net n a c) e answered)

-- Setup returns a channel only to an address of its list whose server answered: in one of three
-- rounds whose ping was sent to it, at one of five tries, a datagram from it held a response to
-- request 1 with the pong that the channel keeps.
pub setup-Answered :
    (net : Network) (addrs : List AddrPort) (c : ConnectedControl)
    → setup net addrs ≡ ok c
    → (i : ℕ) × (addr : AddrPort) × (get_elem? addrs i ≡ some addr) × Answered net i addr c
unfolding setup
setup-Answered net addrs c h =
    let (k, addr, at, a) = find-Answered net 0 addrs c h in (k, addr, at, rw zero-add at a)
