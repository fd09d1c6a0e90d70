-- ===== src/Base/Outcome.antt =====
-- Outcomes of Go calls: a value, a returned `error`, or a panic.
use Prim.Native.String.{String}
use mathlib.Core.Path.{◌≡◌, refl}
use mathlib.Core.Logic.{◌⊎◌, inl, inr}

-- One constructor for each error value that the source makes or passes on.
pub data Error : Type 0 where
  eof : Error
  cannot_get_ip_type : Error
  set_valid_proto invalid_proto : Error
  set_control_request invalid_control_request_id : Error
  unknown_port_mapping_found_id : Error
  set_one_option invalid_control_response_id : Error
  set_feed invalid_control_feed_id : Error
  no_footer_space no_v4_space no_v6_space : Error
  udp_not_connected ipv6_not_setup ipv6_not_supported : Error
  other_source buffer_too_small : Error
  unexpected_establish footer_failed : Error
  socket_failed timed_out invalid_remote : Error
  unexpected_feed expected_pong no_controller : Error
  invalid_pong_client invalid_pong_tunnel odd_hex invalid_hex : Error
  no_response invalid_signature_returned unauthorized_returned connect_failed : Error
  api_failed claim_code_missing secret_present invalid_agent_type claim_rejected : Error
  invalid_region invalid_allocation origin_mismatch invalid_tunnel_type : Error
  api_text : String → Error
  api_typed : String → String → Error

-- `panic` is a Go run-time panic: a nil dereference or an impossible allocation.
pub data Result {ℓ} (A : Type ℓ) : Type ℓ where
  ok : A → Result A
  err : Error → Result A
  panic : Result A

abbrev pub bind {ℓ κ} : {A : Type ℓ} {B : Type κ} → Result A → (A → Result B) → Result B
bind (ok a) f = f a
bind (err e) f = err e
bind panic f = panic

pub Result-cases {ℓ} :
    {A : Type ℓ} (r : Result A)
    → ((a : A) × (r ≡ ok a)) ⊎ (((e : Error) × (r ≡ err e)) ⊎ (r ≡ panic))
Result-cases (ok a) = inl (a, refl)
Result-cases (err e) = inr (inl (e, refl))
Result-cases panic = inr (inr refl)

-- A chain that succeeds has a first part that does.
pub bind_ok {ℓ κ} :
    {A : Type ℓ} {B : Type κ} (m : Result A) (f : A → Result B) {b : B}
    → bind m f ≡ ok b
    → (x : A) × (m ≡ ok x) × (f x ≡ ok b)
bind_ok (ok x) f h = (x, refl, h)
bind_ok (err e) f h = absurd (cc)
bind_ok panic f h = absurd (cc)
