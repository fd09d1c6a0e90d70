-- ===== src/Tests/Setup.antt =====
-- Finding a control server and registering with it, on the values of Tests.
use go_playit.Feed.{ControlFeed, empty_feed, write_feed, read_feed}
use go_playit.Feed.Steps.{read_feed-IsStep}
use go_playit.Wire.Steps.{IsStep}
use go_playit.Response.{empty_response, read_registered, read_pong, read_response}
use go_playit.Base.{
  ◌≡◌, ◌∷◌, [], err, ok, true, some, refl, ◌++◌, connect_failed, get_elem?, Result, ℕ, List,
}
use go_playit.Tests.{AuthenticatedControl, AddrPort, server, a_pong, registration, connected}
use go_playit.Setup.{
  answer_message, answer_feed, find_channel, answer, one_read, reads, rounds, setup, Network,
  timeout, datagram,
}
use go_playit.Register.{
  write_raw, request_bytes, judge, judge_feed, decode_string, one_reply, replies, requests,
  registered_control, authenticate, Replies,
}
use go_playit.Register.Failing.{authenticate_silent}
use go_playit.Register.Accepted.{authenticate-Accepts, Accepts}
use go_playit.Setup.Pinging.{setup-Answered, Answered}
use go_playit.Rpc.{write_rpc, read_rpc}
use go_playit.Wire.{read_values, to_be, read_uint}
use go_playit.Types.{read_session}
use go_playit.Address.{read_address}

-- A feed with the pong to request 1, and one with the registration to request 10.
abbrev pub pong_bytes : List ℕ
pong_bytes =
    0 ∷ 0 ∷ 0 ∷ 1 ∷ 0 ∷ 0 ∷ 0 ∷ 0 ∷ 0 ∷ 0 ∷ 0 ∷ 1 ∷ 0 ∷ 0 ∷ 0 ∷ 1 ∷ 0 ∷ 0 ∷ 0 ∷ 0 ∷ 0 ∷ 0 ∷ 3 ∷ 232
    ∷ 0 ∷ 0 ∷ 0 ∷ 0 ∷ 0 ∷ 0 ∷ 3 ∷ 233 ∷ 0 ∷ 0 ∷ 0 ∷ 0 ∷ 0 ∷ 0 ∷ 0 ∷ 5 ∷ 0 ∷ 0 ∷ 0 ∷ 6 ∷ 4 ∷ 192
    ∷ 168 ∷ 1 ∷ 7 ∷ 156 ∷ 64 ∷ 4 ∷ 10 ∷ 0 ∷ 0 ∷ 1 ∷ 21 ∷ 149 ∷ 0 ∷ 0 ∷ 0 ∷ 0 ∷ 0 ∷ 0 ∷ 234 ∷ 96 ∷ []

abbrev pub registration_bytes : List ℕ
registration_bytes =
    0 ∷ 0 ∷ 0 ∷ 1 ∷ 0 ∷ 0 ∷ 0 ∷ 0 ∷ 0 ∷ 0 ∷ 0 ∷ 10 ∷ 0 ∷ 0 ∷ 0 ∷ 6 ∷ 0 ∷ 0 ∷ 0 ∷ 0 ∷ 0 ∷ 0 ∷ 0 ∷ 7
    ∷ 0 ∷ 0 ∷ 0 ∷ 0 ∷ 0 ∷ 0 ∷ 0 ∷ 8 ∷ 0 ∷ 0 ∷ 0 ∷ 0 ∷ 0 ∷ 0 ∷ 0 ∷ 9 ∷ 0 ∷ 0 ∷ 0 ∷ 0 ∷ 0 ∷ 1 ∷ 95
    ∷ 144 ∷ []

abbrev new_client_bytes : List ℕ
new_client_bytes =
    0 ∷ 0 ∷ 0 ∷ 2 ∷ 4 ∷ 10 ∷ 0 ∷ 0 ∷ 1 ∷ 21 ∷ 149 ∷ 4 ∷ 10 ∷ 0 ∷ 0 ∷ 1 ∷ 21 ∷ 149 ∷ 4 ∷ 10 ∷ 0 ∷ 0
    ∷ 1 ∷ 21 ∷ 149 ∷ 0 ∷ 0 ∷ 0 ∷ 0 ∷ 0 ∷ 0 ∷ 0 ∷ 0 ∷ 0 ∷ 0 ∷ 0 ∷ 0 ∷ 0 ∷ 0 ∷ 0 ∷ 3 ∷ 0 ∷ 0 ∷ 0 ∷ 2
    ∷ []

abbrev pub network : Network
network = record {
  listen = λ i four. some 3;
  sends = λ i round. true;
  deadline = λ i round try. true;
  receive = λ i round try. datagram pong_bytes true;
}

pub found : setup network (server ∷ []) ≡ ok connected
unfolding setup rounds reads one_read answer read_feed read_rpc find_channel answer_feed read_uint
    read_response read_pong read_address read_values answer_message
found = refl

setup-Answered_example :
    (i : ℕ) × (addr : AddrPort) × (get_elem? (server ∷ []) i ≡ some addr)
    × Answered network i addr connected
setup-Answered_example = setup-Answered network (server ∷ []) connected found

-- The API's key is the text "0a".
abbrev pub register : AddrPort → AddrPort → Result (List ℕ)
register client tunnel = ok (48 ∷ (97 ∷ []))

abbrev pub replying : List ℕ → Replies
replying bytes = record { sends = λ round. true; reply = λ round try. datagram bytes true }

abbrev silent : Replies
silent = record { sends = λ round. true; reply = λ round try. timeout }

abbrev channel_of : Result AuthenticatedControl → List ℕ
channel_of r = elim r [ ok a ↦ a.buff | _ ↦ [] ]

abbrev pub left_over : List ℕ
left_over = channel_of (authenticate register (replying registration_bytes) connected)

pub registers :
    authenticate register (replying registration_bytes) connected
    ≡ ok (registered_control connected a_pong left_over registration)
unfolding authenticate requests replies one_reply judge_feed judge registered_control read_feed
    read_rpc decode_string read_uint request_bytes write_rpc to_be write_raw read_response
    read_registered read_session
registers = refl

authenticate-Accepts_example :
    Accepts register
      (replying registration_bytes)
      connected
      (registered_control connected a_pong left_over registration)
authenticate-Accepts_example =
    authenticate-Accepts register (replying registration_bytes) connected
      (registered_control connected a_pong left_over registration) registers

authenticate_silent_example : authenticate register silent connected ≡ err connect_failed
authenticate_silent_example =
    authenticate_silent register silent connected a_pong (10 ∷ []) refl refl refl
      (unfold decode_string in refl) (λ round. refl) (λ round try. refl)

abbrev registered_feed : ControlFeed
registered_feed = record empty_feed {
  response = some (record {
    request_id = 10;
    content = record empty_response { agent_registered = some registration };
  });
}

reads_registered :
    read_feed empty_feed (registration_bytes ++ (9 ∷ [])) ≡ ok (registered_feed, 9 ∷ [])
unfolding read_feed read_rpc read_uint read_response read_registered read_session
reads_registered = refl

read_feed-IsStep_example :
    IsStep (write_feed registered_feed) (registration_bytes ++ (9 ∷ [])) (9 ∷ [])
read_feed-IsStep_example =
    read_feed-IsStep (registration_bytes ++ (9 ∷ [])) (9 ∷ []) registered_feed reads_registered
      (refl, refl)
