-- ===== src/Request/Pings.antt =====
-- Requests of tunnel/control_message.go that ControlRequest.ReadFrom does not get back.
use go_playit.Base.{ℕ, ◌≡◌, refl, [], List, ◌++◌, append_assoc, none, some, IsU64, arith, ok, err}
use go_playit.Base.{invalid_control_request_id}
use go_playit.Wire.{to_be}
use go_playit.Wire.Uint.{read_uint-to_be, read_uint_short}
use go_playit.Types.{read_session, read_port_range, write_port_range}
use go_playit.Types.Session.{IsSession, session-Carries}
use go_playit.Request.{Ping, write_ping, read_ping, AgentCheckPortMapping, write_check, read_check}
use go_playit.Request.{no_port_range, ControlRequest, write_request, read_request}

-- A request with a ping is written under the number 6, which ReadFrom does not know.
pub ping_refused :
    (w z : ControlRequest) (p : Ping) (rest : List ℕ)
    → w.ping ≡ some p
    → read_request z ((write_request w).bytes ++ rest) ≡ err invalid_control_request_id
unfolding write_request read_request
ping_refused w z p rest e = rw (e, append_assoc (to_be 4 6), read_uint-to_be 4 6 _ (omega arith))

-- The first ping of a session, with neither pointer set, is taken for one with both set to zero.
pub ping_misread :
    (t : ℕ)
    → IsU64 t
    → read_ping (write_ping (record { now = t; current_ping = none; session_id = none })).bytes
      ≡ ok (
        record {
          now = t;
          current_ping = some 0;
          session_id = some (record { session_id = 0; account_id = 0; agent_id = 0 });
        },
        [],
      )
unfolding read_ping write_ping read_session
ping_misread t h =
    rw
      (
        read_uint-to_be 8 t _ h,
        read_uint_short 4 (to_be 1 0 ++ to_be 1 0) (unfold to_be in omega arith),
        read_uint_short 8 [] (omega arith),
        read_uint_short 8 [] (omega arith),
        read_uint_short 8 [] (omega arith),
      )
      refl

-- The range of a port check stays unread: the receiver gets an empty one.
pub check_range_lost :
    (w : AgentCheckPortMapping) (rest : List ℕ)
    → IsSession w.agent_session_id
    → read_check ((write_check w).bytes ++ rest)
      ≡ ok (
        record { agent_session_id = w.agent_session_id; port_range = no_port_range },
        (write_port_range w.port_range).bytes ++ rest,
      )
unfolding write_check read_check read_port_range
check_range_lost w rest h =
    let (bytes, wrote, reads) = session-Carries w.agent_session_id h in
    rw (wrote, append_assoc, reads ((write_port_range w.port_range).bytes ++ rest))
