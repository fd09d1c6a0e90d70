-- ===== src/Types/Session.antt =====
-- Round trips of the types of tunnel/lib.go.
use go_playit.Base.{◌≡◌, refl, ◌++◌, append_assoc, IsU64, arith, ◌⊎◌, inl, inr}
use go_playit.Wire.{to_be}
use go_playit.Wire.Uint.{read_uint-to_be}
use go_playit.Wire.Carries.{Carries}
use go_playit.Types.{PortProto, write_port_proto, read_port_proto}
use go_playit.Types.{AgentSessionId, write_session, read_session}

abbrev pub IsSession : AgentSessionId → Type 0
IsSession s = IsU64 s.session_id × IsU64 s.account_id × IsU64 s.agent_id

pub session-Carries : (s : AgentSessionId) → IsSession s → Carries write_session read_session s
unfolding write_session read_session
session-Carries s (a, b, c) = (
  to_be 8 s.session_id ++ (to_be 8 s.account_id ++ to_be 8 s.agent_id),
  refl,
  λ rest.
      rw
        (
          append_assoc,
          append_assoc,
          read_uint-to_be 8 s.session_id _ a,
          read_uint-to_be 8 s.account_id _ b,
          read_uint-to_be 8 s.agent_id _ c,
        )
        refl,
)

-- The three protocols are carried.
pub port_proto-Carries :
    (w : PortProto)
    → (w.value ≡ "tcp") ⊎ ((w.value ≡ "udp") ⊎ (w.value ≡ "both"))
    → Carries write_port_proto read_port_proto w
unfolding write_port_proto read_port_proto
port_proto-Carries w (inl e) =
    (to_be 1 1, rw e, λ rest. rw (read_uint-to_be 1 1 _ (omega arith), e))
port_proto-Carries w (inr (inl e)) =
    (to_be 1 2, rw e, λ rest. rw (read_uint-to_be 1 2 _ (omega arith), e))
port_proto-Carries w (inr (inr e)) =
    (to_be 1 3, rw e, λ rest. rw (read_uint-to_be 1 3 _ (omega arith), e))
