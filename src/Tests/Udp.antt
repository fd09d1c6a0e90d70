-- ===== src/Tests/Udp.antt =====
-- The UDP channel on the values of Tests.
use go_playit.Base.{
  ◌⊎◌, ◌≢◌, bytes_equal, arith, udp_not_connected, ◌≡◌, ◌∷◌, [], err, ok, false, true, refl, ℕ,
  List, none, some,
}
use go_playit.Netip.{same_addr, same_addr_port}
use go_playit.UdpTunnel.Rx.{fill, in_history, confirmed_connection, receive_from, Datagram}
use go_playit.UdpTunnel.{get_sock, get_token, assign_udp_tunnel, now_sec, send, is_setup, UdpTunnel}
use go_playit.Tests.{server, details, moved_details, flow4, other_server}
use go_playit.UdpTunnel.Details.{
  never_connected, run-details, run, Op, op_set, op_resend, op_is_setup,
}
use go_playit.UdpFlow.Size.{four}
use go_playit.UdpTunnel.Receive.{
  IsConfirmation, receive_ignores_payload, receive_confirms, receive_source,
}

abbrev new_tunnel : UdpTunnel
new_tunnel = record {
  udp4 = 1;
  udp6 = none;
  details = record {
    value = record { udp = none; addr_history = [] };
    readers = 0;
    writer = false;
  };
  last_confirm = 0;
  last_send = 0;
}

abbrev pub set_tunnel : UdpTunnel
set_tunnel = record new_tunnel {
  details = record {
    value = record { udp = some details; addr_history = other_server ∷ [] };
    readers = 0;
    writer = false;
  };
}

abbrev calls : List Op
calls = op_set 5000 details ∷ (op_resend 9000 ∷ (op_is_setup ∷ []))

never_connected_example :
    ((is_setup (run calls new_tunnel)).0 ≡ false)
    × (send (1 ∷ []) (record { flow_v4 = some flow4; flow_v6 = none }) (run calls new_tunnel)
        ≡ err udp_not_connected)
never_connected_example =
    never_connected calls 1 none new_tunnel (1 ∷ [])
      (record { flow_v4 = some flow4; flow_v6 = none }) (unfold assign_udp_tunnel in refl)
      (four flow4 (refl, refl))

run-details_example : (run (op_set 5000 moved_details ∷ []) set_tunnel).details ≡ set_tunnel.details
run-details_example = run-details (op_set 5000 moved_details ∷ []) set_tunnel refl

abbrev pub token_datagram : Datagram
token_datagram = record { payload = 1 ∷ 2 ∷ 3 ∷ []; remote = server }

abbrev short_datagram : Datagram
short_datagram = record { payload = 9 ∷ []; remote = server }

abbrev other_datagram : Datagram
other_datagram = record { payload = 8 ∷ []; remote = server }

abbrev space : List ℕ
space = 0 ∷ 0 ∷ 0 ∷ 0 ∷ []

receive_confirms_example :
    let (r, t') = receive_from 7000 space (some token_datagram) set_tunnel in
    (IsConfirmation set_tunnel details token_datagram
      × (r ≡ ok confirmed_connection)
      × (t' ≡ record set_tunnel { last_confirm = now_sec 7000 }))
    ⊎ ((¬ (IsConfirmation set_tunnel details token_datagram))
        × (r ≢ ok confirmed_connection)
        × (t' ≡ set_tunnel))
receive_confirms_example =
    receive_confirms 7000 space token_datagram set_tunnel details (1, server) refl
      (unfold get_sock in refl) (omega arith)

confirmed : (receive_from 7000 space (some token_datagram) set_tunnel).0 ≡ ok confirmed_connection
unfolding receive_from get_sock get_token fill same_addr_port same_addr bytes_equal
confirmed = refl

receive_source_example :
    (details.tunnel_addr ≡ token_datagram.remote)
    ⊎ (in_history token_datagram.remote set_tunnel.details.value.addr_history ≡ true)
receive_source_example =
    receive_source 7000 space token_datagram set_tunnel details confirmed_connection refl confirmed

receive_ignores_payload_example :
    receive_from 7000 space (some short_datagram) set_tunnel
    ≡ receive_from 7000 space (some other_datagram) set_tunnel
receive_ignores_payload_example =
    receive_ignores_payload 7000 space short_datagram other_datagram set_tunnel details refl refl
      refl (omega arith) (cc) (cc)

abbrev stamped_tunnel : UdpTunnel
stamped_tunnel = record set_tunnel { last_confirm = 4000000; last_send = 4000000 }
