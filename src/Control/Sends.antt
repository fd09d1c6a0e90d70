-- ===== src/Control/Sends.antt =====
-- What the Send methods of tunnel/control.go put on the wire.
use go_playit.Types.Session.{IsSession}
use go_playit.Rpc.{ControlRpcMessage, rpc-Carries, read_rpc}
use go_playit.Request.{ControlRequest, empty_request, request_encoding}
use go_playit.Request.RoundTrip.{IsReadable, request-Carries}
use go_playit.Control.{Sent, AuthenticatedControl, send, send_keep_alive, send_setup_udp_channel}
use go_playit.Base.{arith, ◌++◌, ◌≡◌, ◌∷◌, [], ok, some, none, ℕ, List, IsU64}

abbrev pub message : ℕ → ControlRequest → ControlRpcMessage ControlRequest
message id content = record { request_id = id; content = content }

-- One datagram went to the control address, and ControlRpcMessage.ReadFrom gets the message back.
abbrev pub Delivers : AuthenticatedControl → ControlRpcMessage ControlRequest → List Sent → Type 0
Delivers auth m sent =
    (bytes : List ℕ) × (sent
      ≡ record { socket = auth.conn.udp; payload = bytes; to = auth.conn.control_addr } ∷ [])
    × ((rest : List ℕ) → read_rpc (message 0 empty_request) (bytes ++ rest) ≡ ok (m, rest))

send-Delivers :
    (auth : AuthenticatedControl) (m : ControlRpcMessage ControlRequest)
    → IsU64 m.request_id
    → IsReadable m.content
    → Delivers auth m (send none m auth).1
unfolding send
send-Delivers auth m u h =
    let (bytes, wrote, reads) = rpc-Carries m empty_request 0 u (request-Carries m.content h) in
    (bytes, ground (arith, wrote), reads)

-- Where the socket does not fail, the id has 64 bits and so have the session's numbers, SendKeepAlive
-- sends one datagram to the control address, from which ReadFrom gets the request back: that id,
-- with a keep-alive of the registered session.
pub keep_alive-Delivers :
    (id : ℕ) (auth : AuthenticatedControl)
    → IsU64 id
    → IsSession auth.registered.id
    → Delivers auth
        (message id (record empty_request { agent_keep_alive = some auth.registered.id }))
        (send_keep_alive none id auth).1
unfolding send_keep_alive
keep_alive-Delivers id auth u h =
    send-Delivers auth _ u (IsReadable.keeps_alive auth.registered.id h)

-- Under the same conditions SendSetupUDPChannel sends one datagram to the control address, from which
-- ReadFrom gets back that id, with the set-up of the registered session's UDP channel.
pub setup_udp-Delivers :
    (id : ℕ) (auth : AuthenticatedControl)
    → IsU64 id
    → IsSession auth.registered.id
    → Delivers auth
        (message id (record empty_request { setup_udp_channel = some auth.registered.id }))
        (send_setup_udp_channel none id auth).1
unfolding send_setup_udp_channel
setup_udp-Delivers id auth u h = send-Delivers auth _ u (IsReadable.sets_up auth.registered.id h)
