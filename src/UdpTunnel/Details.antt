-- ===== src/UdpTunnel/Details.antt =====
-- What the operations of tunnel/udp_tunnel.go do to the channel's details.
use go_playit.Response.{UdpChannelDetails}
use go_playit.UdpFlow.{write_flow, UdpFlow}
use go_playit.UdpFlow.Size.{IsFlow, write_flow_four, write_flow_six}
use go_playit.UdpTunnel.{
  UdpTunnel, assign_udp_tunnel, is_setup, invalidate_session, set_udp_tunnel, resend_token, send,
}
use go_playit.UdpTunnel.Rx.{Datagram, receive_from}
use go_playit.Base.{
  udp_not_connected, Option, arith, List, ℕ, ◌∙◌, ◌≡◌, ◌∷◌, [], err, ok, false, some, none, refl,
}

-- One call on the tunnel, with its clock and what the socket returned.
pub data Op : Type 0 where
  op_is_setup op_invalidate : Op
  op_set : ℕ → UdpChannelDetails → Op
  op_resend : ℕ → Op
  op_receive : ℕ → List ℕ → Option Datagram → Op

unfoldable pub step : Op → UdpTunnel → UdpTunnel
step op_is_setup t = (is_setup t).1
step op_invalidate t = invalidate_session t
step (op_set now details) t = (set_udp_tunnel now details t).0
step (op_resend now) t = (resend_token now t).0
step (op_receive now buff d) t = (receive_from now buff d t).1

unfoldable pub run : List Op → UdpTunnel → UdpTunnel
unfolding step
run [] t = t
run (op ∷ ops) t = run ops (step op t)

pub set-details :
    (now : ℕ) (d : UdpChannelDetails) (t : UdpTunnel)
    → t.details.writer ≡ false
    → (set_udp_tunnel now d t).0.details ≡ t.details
unfolding set_udp_tunnel
set-details now d t h = ground arith

pub resend-details : (now : ℕ) (t : UdpTunnel) → (resend_token now t).0.details ≡ t.details
unfolding resend_token
resend-details now t = ground arith

receive-details :
    (now : ℕ) (buff : List ℕ) (d : Option Datagram) (t : UdpTunnel)
    → (receive_from now buff d t).1.details ≡ t.details
unfolding receive_from
receive-details now buff none t = ground arith
receive-details now buff (some d) t = ground arith

pub step-details :
    (op : Op) (t : UdpTunnel) → t.details.writer ≡ false → (step op t).details ≡ t.details
unfolding step is_setup invalidate_session
step-details op_is_setup t h = ground arith
step-details op_invalidate t h = refl
step-details (op_set now d) t h = set-details now d t h
step-details (op_resend now) t h = resend-details now t
step-details (op_receive now buff d) t h = receive-details now buff d t

-- No sequence of calls of IsSetup, InvalidateSession, SetUdpTunnel, ResendToken and ReceiveFrom
-- changes the details or the state of their lock, provided that no writer holds it at the start.
pub run-details :
    (ops : List Op) (t : UdpTunnel) → t.details.writer ≡ false → (run ops t).details ≡ t.details
unfolding run
run-details [] t h = refl
run-details (op ∷ ops) t h =
    let same = step-details op t h in run-details ops (step op t) (rw same h) ∙ same

flow_written : {w : UdpFlow} → IsFlow w → (write_flow w).outcome ≡ ok tt
flow_written (IsFlow.four b h) = rw (write_flow_four b)
flow_written (IsFlow.six c h) = rw (write_flow_six c)

-- A UDP channel is never set up: after any sequence of calls of IsSetup, InvalidateSession,
-- SetUdpTunnel, ResendToken and ReceiveFrom on one that AssignUdpTunnel made, IsSetup is false, and
-- Send of a well-formed flow fails as not connected.
pub never_connected :
    (ops : List Op) (udp4 : ℕ) (udp6 : Option ℕ) (t : UdpTunnel) (payload : List ℕ) (flow : UdpFlow)
    → assign_udp_tunnel (some udp4) udp6 ≡ ok t
    → IsFlow flow
    → ((is_setup (run ops t)).0 ≡ false) × (send payload flow (run ops t) ≡ err udp_not_connected)
unfolding assign_udp_tunnel is_setup send
never_connected ops udp4 udp6 t payload flow e h =
    let free : t.details.writer ≡ false = ground arith in
    let unset : t.details.value.udp ≡ none = ground arith in
    ground (arith, run-details ops t free, flow_written h)
