-- ===== src/Control/Expiry.antt =====
-- When a control channel of tunnel/control.go counts as expired.
use go_playit.Netip.{same_addr_port_refl}
use go_playit.Control.{AuthenticatedControl, flow_changed, is_expired, reauthenticate}
use go_playit.Base.{◌↔◌, ◌⊎◌, ◌≡◌, true, none, Result, arith}

-- A channel is expired exactly if that is forced or its last pong has no expiry: neither the expiry
-- itself nor a change of the client address, which is compared with itself, has a say.
pub is_expired_iff :
    (auth : AuthenticatedControl)
    → (is_expired auth ≡ true)
      ↔ ((auth.force_expired ≡ true) ⊎ (auth.last_pong.session_expire_at ≡ none))
unfolding is_expired flow_changed
is_expired_iff auth = ground (arith, same_addr_port_refl auth.last_pong.client_addr)

-- Authenticating again does not lift a forced expiry: the channel stays expired.
pub reauthenticate-is_expired :
    (r : Result AuthenticatedControl) (auth : AuthenticatedControl)
    → auth.force_expired ≡ true
    → is_expired (reauthenticate r auth).1 ≡ true
unfolding is_expired reauthenticate
reauthenticate-is_expired r auth h = ground arith
