-- ===== src/Setup.antt =====
-- tunnel/setup.go: finding a control server that answers a ping, and registering with it. The
-- network's answers are functions of the address's place in the list, the round and the try.
pub mod Pinging
use go_playit.Base.{
  not, if◌then◌else◌, ◌==◌, ◌||◌, ◌&&◌, ◌++◌, ◌∙◌, ◌↔◌, ◌⊎◌, ◌≢◌, ◌≡◌, ◌<◌, ◌≤◌, ◌^◌, ◌%◌, ◌/◌, ◌*◌,
  ◌-◌, ◌+◌, inr, inl, ◌∷◌, [], panic, err, ok, false, true, some, none, suc, zero, refl, ℕ, List,
  Option, Bool, Error, Result, bind, take, length, min, drop, replicate,
}
use go_playit.Base.{unexpected_feed, expected_pong, no_controller, socket_failed}
use go_playit.Netip.{is4, AddrPort}
use go_playit.Wire.{Written}
use go_playit.Rpc.{ControlRpcMessage, write_rpc}
use go_playit.Request.{ControlRequest, empty_request, request_encoding}
use go_playit.Response.{Pong, ControlResponse}
use go_playit.Feed.{ControlFeed, empty_feed, read_feed}
use go_playit.Control.{ConnectedControl}

-- What a read with a deadline returns. `from_peer` says whether the sender's address prints as the
-- address that was pinged.
pub data ReadOutcome : Type 0 where
  timeout failed : ReadOutcome
  datagram : List ℕ → Bool → ReadOutcome

-- The network: a socket for each address, on udp4 or udp6 (`none` is an error of net.ListenUDP),
-- whether each ping is sent, whether each deadline is set, and what each read returns.
pub record Network : Type 0 where
  pub listen : ℕ → Bool → Option ℕ
  pub sends : ℕ → ℕ → Bool
  pub deadline : ℕ → ℕ → ℕ → Bool
  pub receive : ℕ → ℕ → ℕ → ReadOutcome

-- A loop body's end: `continue`, or a return.
pub data Flow (A : Type 0) : Type 0 where
  next : Flow A
  done : Result A → Flow A

-- What is made of a decoded message from the address.
unfoldable pub answer_message :
    AddrPort → ℕ → ControlRpcMessage ControlResponse → Flow ConnectedControl
answer_message addr conn msg = if not (msg.request_id == 1) then next else elim msg.content.pong [
  | none ↦ done (err expected_pong)
  | some pong ↦ done (ok (record { control_addr = addr; udp = conn; pong = some pong }))
]

unfoldable pub answer_feed : AddrPort → ℕ → Result (ControlFeed × List ℕ) → Flow ConnectedControl
answer_feed addr conn (err e) = done (err e)
answer_feed addr conn panic = done panic
answer_feed addr conn (ok (feed, _rest)) = elim feed.response [
  | none ↦ done (err unexpected_feed)
  | some msg ↦ answer_message addr conn msg
]

unfoldable pub answer : AddrPort → ℕ → List ℕ → Flow ConnectedControl
answer addr conn bytes = answer_feed addr conn (read_feed empty_feed bytes)

-- One of the five reads; the buffer holds 2048 bytes.
unfoldable pub one_read : AddrPort → ℕ → Bool → ReadOutcome → Flow ConnectedControl
one_read addr conn false outcome = done (err socket_failed)
one_read addr conn true timeout = next
one_read addr conn true failed = done (err socket_failed)
one_read addr conn true (datagram payload from_peer) =
    if from_peer then answer addr conn (take 2048 payload) else next

module _ (net : Network) (i : ℕ) (addr : AddrPort) (conn : ℕ) where
  -- The reads that are left of a round.
  unfoldable pub reads : ℕ → ℕ → Flow ConnectedControl
  reads round zero = next
  reads round (suc left) =
      elim (one_read addr conn (net.deadline i round left) (net.receive i round left)) [
        | next ↦ reads round left
        | done r ↦ done r
      ]

  -- The rounds that are left for an address; a ping that is not sent ends them.
  unfoldable pub rounds : ℕ → Flow ConnectedControl
  rounds zero = next
  rounds (suc left) =
      if net.sends i left
      then elim (reads left 5) [ next ↦ rounds left | done r ↦ done r ]
      else next

unfoldable pub find_channel : Network → ℕ → List AddrPort → Result ConnectedControl
find_channel net i [] = err no_controller
find_channel net i (addr ∷ addrs) = elim (net.listen i (is4 addr.addr)) [
  | none ↦ find_channel net (i + 1) addrs
  | some conn ↦ elim (rounds net i addr conn 3) [
    | done r ↦ r
    | next ↦ find_channel net (i + 1) addrs
  ]
]

-- SetupFindSuitableChannel.Setup.
unfoldable pub setup : Network → List AddrPort → Result ConnectedControl
setup net addrs = find_channel net 0 addrs

-- The ping that opens each round.
unfoldable pub initial_ping : ℕ → Written
initial_ping now = write_rpc (record {
  request_id = 1;
  content = record empty_request {
    ping = some (record { now = now; current_ping = none; session_id = none });
  };
})
