-- ===== src/Control.antt =====
-- tunnel/control.go, with ConnectedControl of tunnel/setup.go: the control channel of a registered
-- agent. A socket is a handle; whether a write fails, and what a read returns, are arguments.
pub mod Expiry
pub mod Feeds
pub mod Sends
use go_playit.Base.{
  if◌then◌else◌, ◌==◌, ◌||◌, ◌&&◌, ◌++◌, ◌∙◌, ◌↔◌, ◌⊎◌, ◌≢◌, ◌≡◌, ◌<◌, ◌≤◌, ◌^◌, ◌%◌, ◌/◌, ◌*◌, ◌-◌,
  ◌+◌, inr, inl, ◌∷◌, [], panic, err, ok, false, true, some, none, suc, zero, refl, ℕ, List, Option,
  Bool, Error, Result, replicate, drop, not, socket_failed, invalid_remote,
}
use go_playit.Netip.{AddrPort, same_addr_port}
use go_playit.Wire.{Written}
use go_playit.Types.{AgentSessionId}
use go_playit.Rpc.{ControlRpcMessage, write_rpc}
use go_playit.Request.{ControlRequest, empty_request, request_encoding}
use go_playit.Response.{Pong, AgentRegistered, ControlResponse}
use go_playit.Feed.{ControlFeed, empty_feed, read_feed}
use go_playit.UdpTunnel.{Sent}
use go_playit.UdpTunnel.Rx.{Datagram, fill}

-- `pong` is `none` for a nil pointer. It is only ever read, so the value stands for the pointer.
pub record ConnectedControl : Type 0 where
  pub control_addr : AddrPort
  pub udp : ℕ
  pub pong : Option Pong

pub record AuthenticatedControl : Type 0 where
  pub conn : ConnectedControl
  pub current_ping : Option ℕ
  pub last_pong : Pong
  pub force_expired : Bool
  pub registered : AgentRegistered
  pub buff : List ℕ

-- The error with which the socket's write fails, if it does.
abbrev pub SocketError : Type 0
SocketError = Option Error

unfoldable pub send :
    SocketError
    → ControlRpcMessage ControlRequest
    → AuthenticatedControl
    → AuthenticatedControl × List Sent × Result (Unit {0})
send failure req auth = elim (write_rpc req).outcome [
  | err e ↦ (record auth { buff = [] }, [], err e)
  | panic ↦ (record auth { buff = [] }, [], panic)
  | ok _ ↦
      let auth' = record auth { buff = (write_rpc req).bytes } in
      elim failure [
        | some e ↦ (auth', [], err e)
        | none ↦ (
          auth',
          record {
            socket = auth.conn.udp;
            payload = (write_rpc req).bytes;
            to = auth.conn.control_addr;
          }
              ∷ [],
          ok tt,
        )
      ]
]

unfoldable pub send_keep_alive :
    SocketError → ℕ → AuthenticatedControl → AuthenticatedControl × List Sent × Result (Unit {0})
send_keep_alive failure id auth =
    send failure
      (record {
        request_id = id;
        content = record empty_request { agent_keep_alive = some auth.registered.id };
      })
      auth

unfoldable pub send_setup_udp_channel :
    SocketError → ℕ → AuthenticatedControl → AuthenticatedControl × List Sent × Result (Unit {0})
send_setup_udp_channel failure id auth =
    send failure
      (record {
        request_id = id;
        content = record empty_request { setup_udp_channel = some auth.registered.id };
      })
      auth

unfoldable pub send_ping :
    SocketError
    → ℕ
    → ℕ
    → AuthenticatedControl
    → AuthenticatedControl × List Sent × Result (Unit {0})
send_ping failure id now auth =
    send failure
      (record {
        request_id = id;
        content = record empty_request {
          ping = some (record {
            now = now;
            current_ping = auth.current_ping;
            session_id = some auth.registered.id;
          });
        };
      })
      auth

-- Both sides of the comparison are the client address of the last pong.
unfoldable pub flow_changed : AuthenticatedControl → Bool
flow_changed auth = not (same_addr_port auth.last_pong.client_addr auth.last_pong.client_addr)

unfoldable pub is_expired : AuthenticatedControl → Bool
is_expired auth =
    auth.force_expired
    || (elim auth.last_pong.session_expire_at [ none ↦ true | some _ ↦ false ] || flow_changed auth)

unfoldable pub into_requires_auth : AuthenticatedControl → ConnectedControl
into_requires_auth auth = record auth.conn { pong = some auth.last_pong }

-- `uint32(pong.RequestNow - uint64(time.Now().UnixMilli()))`
abbrev pub ping_of : ℕ → ℕ → ℕ
ping_of request_now now = (request_now + 2 ^ 64 - now) % 2 ^ 64 % 2 ^ 32

-- What a received response changes.
unfoldable pub apply_response : ℕ → ControlResponse → AuthenticatedControl → AuthenticatedControl
apply_response now content auth = elim content.agent_registered [
  | some r ↦ record auth { registered = r }
  | none ↦ elim content.pong [
    | none ↦ auth
    | some p ↦
        let auth' = record auth {
          current_ping = some (ping_of p.request_now now);
          last_pong = p;
        } in
        elim p.session_expire_at [
          | none ↦ auth'
          | some e ↦ record auth' { registered = record auth.registered { expires_at = e } }
        ]
  ]
]

unfoldable pub apply_feed : ℕ → ControlFeed → AuthenticatedControl → AuthenticatedControl
apply_feed now feed auth = elim feed.response [
  | none ↦ auth
  | some m ↦ apply_response now m.content auth
]

-- The end of RecFeedMsg, once the bytes to decode are chosen.
unfoldable pub decode_feed :
    ℕ → List ℕ → AuthenticatedControl → Result ControlFeed × AuthenticatedControl
decode_feed now bytes auth = elim (read_feed empty_feed bytes) [
  | err e ↦ (err e, auth)
  | panic ↦ (panic, auth)
  | ok (feed, _rest) ↦ (ok feed, apply_feed now feed auth)
]

-- RecFeedMsg, with what the socket's read returned (`none` is its error) and the time of the pong.
-- The buffer grows by 1024 zeros, and what is decoded is what stands behind the datagram in it.
unfoldable pub rec_feed_msg :
    ℕ → Option Datagram → AuthenticatedControl → Result ControlFeed × AuthenticatedControl
rec_feed_msg now none auth =
    (err socket_failed, record auth { buff = auth.buff ++ replicate 1024 0 })
rec_feed_msg now (some d) auth =
    let (filled, size) = fill (auth.buff ++ replicate 1024 0) d.payload in
    let auth' = record auth { buff = filled } in
    if not (same_addr_port d.remote auth.conn.control_addr)
    then (err invalid_remote, auth')
    else decode_feed now (drop size filled) auth'

-- Authenticate copies all but ForceEpired from the channel that registering gives.
unfoldable pub reauthenticate :
    Result AuthenticatedControl → AuthenticatedControl → Result (Unit {0}) × AuthenticatedControl
reauthenticate (err e) auth = (err e, auth)
reauthenticate panic auth = (panic, auth)
reauthenticate (ok conn) auth = (
  ok tt,
  record auth {
    buff = conn.buff;
    conn = conn.conn;
    current_ping = conn.current_ping;
    last_pong = conn.last_pong;
    registered = conn.registered;
  },
)
