-- ===== src/Request/RoundTrip.antt =====
-- Requests of tunnel/control_message.go that ControlRequest.ReadFrom gets back.
use go_playit.Base.{ℕ, ◌≡◌, refl, List, ◌++◌, append_assoc, some, length, IsU64, arith, ok}
use go_playit.Netip.{IsPlainPort}
use go_playit.Wire.{to_be, read_buff}
use go_playit.Wire.Uint.{read_uint-to_be}
use go_playit.Wire.Buffer.{read_buff-append}
use go_playit.Wire.Carries.{Carries}
use go_playit.Address.{address_bytes}
use go_playit.Address.RoundTrip.{write_address_lem, read_address-address_bytes}
use go_playit.Types.{AgentSessionId}
use go_playit.Types.Session.{IsSession, session-Carries}
use go_playit.Request.{AgentRegister, write_register, read_register}
use go_playit.Request.{ControlRequest, empty_request, write_request, read_request}

pub record IsRegister (w : AgentRegister) : Type 0 where
  pub account : IsU64 w.account_id
  pub agent : IsU64 w.agent_id
  pub version : IsU64 w.agent_version
  pub stamp : IsU64 w.timestamp
  pub client : IsPlainPort w.client_addr
  pub tunnel : IsPlainPort w.tunnel_addr
  pub signed : length w.signature ≡ 32

pub read_signature : (bs rest : List ℕ) → length bs ≡ 32 → read_buff 32 (bs ++ rest) ≡ ok (bs, rest)
read_signature bs rest h = rw h at (read_buff-append bs rest)

pub register-Carries : (w : AgentRegister) → IsRegister w → Carries write_register read_register w
unfolding write_register read_register
register-Carries w h = (
  to_be 8 w.account_id
      ++ (to_be 8 w.agent_id
          ++ (to_be 8 w.agent_version
              ++ (to_be 8 w.timestamp
                  ++ (address_bytes w.client_addr
                      ++ (address_bytes w.tunnel_addr ++ w.signature))))),
  rw (write_address_lem w.client_addr, write_address_lem w.tunnel_addr) refl,
  λ rest. simp append_assoc (
      rw
        (
          read_uint-to_be 8 w.account_id _ h.account,
          read_uint-to_be 8 w.agent_id _ h.agent,
          read_uint-to_be 8 w.agent_version _ h.version,
          read_uint-to_be 8 w.timestamp _ h.stamp,
          read_address-address_bytes w.client_addr _ h.client,
          read_address-address_bytes w.tunnel_addr _ h.tunnel,
          read_signature w.signature rest h.signed,
        )
        refl),
)

-- One field set, of the three kinds that are written under the number they are read by.
pub data IsReadable : ControlRequest → Type 0 where
  registers :
      (r : AgentRegister)
      → IsRegister r
      → IsReadable (record empty_request { agent_register = some r })
  keeps_alive :
      (s : AgentSessionId)
      → IsSession s
      → IsReadable (record empty_request { agent_keep_alive = some s })
  sets_up :
      (s : AgentSessionId)
      → IsSession s
      → IsReadable (record empty_request { setup_udp_channel = some s })

-- A request to register, to keep a session alive or to set up its UDP channel, with numbers that fit
-- and plain addresses, is written without error, and ReadFrom into an empty receiver gets it back
-- from the bytes, whatever follows them, and takes no more.
pub request-Carries :
    (w : ControlRequest) → IsReadable w → Carries write_request (read_request empty_request) w
unfolding write_request read_request
request-Carries w (registers r h) =
    let (bytes, wrote, reads) = register-Carries r h in
    (
      to_be 4 2 ++ bytes,
      rw wrote,
      λ rest. rw (append_assoc, read_uint-to_be 4 2 _ (omega arith), reads rest),
    )
request-Carries w (keeps_alive s h) =
    let (bytes, wrote, reads) = session-Carries s h in
    (
      to_be 4 3 ++ bytes,
      rw wrote,
      λ rest. rw (append_assoc, read_uint-to_be 4 3 _ (omega arith), reads rest),
    )
request-Carries w (sets_up s h) =
    let (bytes, wrote, reads) = session-Carries s h in
    (
      to_be 4 4 ++ bytes,
      rw wrote,
      λ rest. rw (append_assoc, read_uint-to_be 4 4 _ (omega arith), reads rest),
    )
