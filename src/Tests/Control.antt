-- ===== src/Tests/Control.antt =====
-- The control channel, and the connection for a new client, on the values of Tests.
use go_playit.Base.{Error, List, eof, ◌⊎◌, ok, arith, ◌≡◌, ◌∷◌, [], err, true, refl, none, some}
use go_playit.Tests.{claim, server, control}
use go_playit.UdpTunnel.Rx.{Datagram}
use go_playit.Control.{AuthenticatedControl, rec_feed_msg}
use go_playit.Control.Feeds.{feed_ignores_payload}
use go_playit.Tcp.{wrote, Event, connect, Calls}
use go_playit.Tcp.Closing.{connect-closings, closings}

abbrev feed_datagram : Datagram
feed_datagram = record { payload = 0 ∷ 0 ∷ 0 ∷ 2 ∷ []; remote = server }

abbrev zero_datagram : Datagram
zero_datagram = record { payload = 0 ∷ 0 ∷ 0 ∷ 0 ∷ []; remote = server }

feed_ignores_payload_example :
    (rec_feed_msg 1000 (some feed_datagram) control).0
    ≡ (rec_feed_msg 1000 (some zero_datagram) control).0
feed_ignores_payload_example =
    feed_ignores_payload 1000 feed_datagram zero_datagram control refl refl (omega arith)

abbrev forced : AuthenticatedControl
forced = record control { force_expired = true }

-- A server that takes the token and closes without an answer.
abbrev unanswered : Calls
unanswered = record { dialled = λ addr. ok 9; written = none; got = some eof }

connect-closings_example :
    let (events, result) = connect unanswered claim in
    ((result ≡ ok 9)
      × (closings 9 events ≡ 0)
      × ((rest : List Event) × (events ≡ wrote 9 claim.token ∷ rest)))
    ⊎ (((e : Error) × (result ≡ err e)) × (closings 9 events ≡ 1))
connect-closings_example = connect-closings unanswered claim 9 refl
