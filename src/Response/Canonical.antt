-- ===== src/Response/Canonical.antt =====
-- The bytes that the reads of tunnel/control_message.go take for a response are those that it writes.
use go_playit.Base.{
  invalid_control_response_id, Bool-cases, sym, if◌then◌else◌, ◌==◌, ◌∙◌, ◌≢◌, inr, inl, true, none,
  refl, ap, ok, some, ℕ, List, length, ◌≡◌, arith,
}
use go_playit.Netip.{AddrPort}
use go_playit.Wire.{
  written, to_be, write_u32, Get, ◌>>=◌, read_u32, read_u64, read_token, pure, fail,
}
use go_playit.Wire.Canonical.{get_ok, IsCanonical, uint-IsCanonical, token_takes}
use go_playit.Address.{read_address}
use go_playit.Address.Canonical.{address-IsCanonical}
use go_playit.Types.{AgentSessionId, write_session, read_session}
use go_playit.Response.{
  empty_mapping, read_response, read_mapping, read_pong, AgentRegistered, write_registered,
  read_registered, UdpChannelDetails, write_details, read_details, ControlResponse, empty_response,
  write_response,
}
use go_playit.Wire.Steps.{IsStep, step, and_then, token_step, all_steps, same_step}

session-IsCanonical : IsCanonical write_session read_session
unfolding write_session read_session
session-IsCanonical = all_steps λ r rest s e.
    let made : ℕ → ℕ → ℕ → Get AgentSessionId =
      λ a b c. pure (record { session_id = a; account_id = b; agent_id = c }) in
    let (a, r1, g1, e1) =
      get_ok read_u64 (λ a. read_u64 >>= λ b. read_u64 >>= made a b) r s rest e in
    let (b, r2, g2, e2) = get_ok read_u64 (λ b. read_u64 >>= made a b) r1 s rest e1 in
    let (c, r3, g3, e3) = get_ok read_u64 (made a b) r2 s rest e2 in
    let whole : record { session_id = a; account_id = b; agent_id = c } ≡ s = ground (arith, e3) in
    let left : r3 ≡ rest = ground (arith, e3) in
    same_step (ap write_session whole) left (
      and_then (step a (uint-IsCanonical 8) g1)
        (and_then (step b (uint-IsCanonical 8) g2) (step c (uint-IsCanonical 8) g3)))

registered-IsCanonical : IsCanonical write_registered read_registered
unfolding write_registered read_registered
registered-IsCanonical = all_steps λ r rest x e.
    let made : AgentSessionId → ℕ → Get AgentRegistered =
      λ id at. pure (record { id = id; expires_at = at }) in
    let (id, r1, g1, e1) = get_ok read_session (λ id. read_u64 >>= made id) r x rest e in
    let (at, r2, g2, e2) = get_ok read_u64 (made id) r1 x rest e1 in
    let whole : record { id = id; expires_at = at } ≡ x = ground (arith, e2) in
    let left : r2 ≡ rest = ground (arith, e2) in
    same_step (ap write_registered whole) left
      (and_then (step id session-IsCanonical g1) (step at (uint-IsCanonical 8) g2))

details-IsCanonical : IsCanonical write_details read_details
unfolding write_details read_details
details-IsCanonical = all_steps λ r rest x e.
    let made : AddrPort → List ℕ → Get UdpChannelDetails =
      λ a token. pure (record { tunnel_addr = a; token = token }) in
    let (a, r1, g1, e1) =
      get_ok read_address (λ a. read_u64 >>= λ n. read_token n >>= made a) r x rest e in
    let (n, r2, g2, e2) = get_ok read_u64 (λ n. read_token n >>= made a) r1 x rest e1 in
    let (token, r3, g3, e3) = get_ok (read_token n) (made a) r2 x rest e2 in
    let (taken, size) = token_takes n r2 r3 token g3 in
    let sized : IsStep (written (to_be 8 (length token))) r1 r2 =
      rw size (step n (uint-IsCanonical 8) g2) in
    let whole : record { tunnel_addr = a; token = token } ≡ x = ground (arith, e3) in
    let left : r3 ≡ rest = ground (arith, e3) in
    same_step (ap write_details whole) left
      (and_then (step a address-IsCanonical g1) (and_then sized (token_step n g3)))

-- A response that is its number only.
bare_step :
    (id : ℕ) (r r' rest : List ℕ) (flagged x : ControlResponse)
    → read_u32 r ≡ ok (id, r')
    → write_response flagged ≡ write_u32 id
    → pure flagged r' ≡ ok (x, rest)
    → IsStep (write_response x) r rest
bare_step id r r' rest flagged x tag number e =
    let whole : flagged ≡ x = ground (arith, e) in
    let left : r' ≡ rest = ground (arith, e) in
    same_step (sym number ∙ ap write_response whole) left (step id (uint-IsCanonical 4) tag)

registered_step :
    (r r' rest : List ℕ) (x : ControlResponse)
    → read_u32 r ≡ ok (6, r')
    → (read_registered >>= λ a. pure (record empty_response { agent_registered = some a })) r'
      ≡ ok (x, rest)
    → IsStep (write_response x) r rest
unfolding write_response
registered_step r r' rest x tag e =
    let made : AgentRegistered → Get ControlResponse =
      λ a. pure (record empty_response { agent_registered = some a }) in
    let (a, r1, g, e1) = get_ok read_registered made r' x rest e in
    let whole : record empty_response { agent_registered = some a } ≡ x = ground (arith, e1) in
    let left : r1 ≡ rest = ground (arith, e1) in
    same_step (ap write_response whole) left
      (and_then (step 6 (uint-IsCanonical 4) tag) (step a registered-IsCanonical g))

details_step :
    (r r' rest : List ℕ) (x : ControlResponse)
    → read_u32 r ≡ ok (8, r')
    → (read_details >>= λ a. pure (record empty_response { udp_channel_details = some a })) r'
      ≡ ok (x, rest)
    → IsStep (write_response x) r rest
unfolding write_response
details_step r r' rest x tag e =
    let made : UdpChannelDetails → Get ControlResponse =
      λ a. pure (record empty_response { udp_channel_details = some a }) in
    let (a, r1, g, e1) = get_ok read_details made r' x rest e in
    let whole : record empty_response { udp_channel_details = some a } ≡ x = ground (arith, e1) in
    let left : r1 ≡ rest = ground (arith, e1) in
    same_step (ap write_response whole) left
      (and_then (step 8 (uint-IsCanonical 4) tag) (step a details-IsCanonical g))

read_body : ℕ → Get ControlResponse
read_body id =
    if id == 1
    then (do x ← read_pong; pure (record empty_response { pong = some x }))
    else if id == 2
    then pure (record empty_response { invalid_signature = true })
    else if id == 3
    then pure (record empty_response { unauthorized = true })
    else if id == 4
    then pure (record empty_response { request_queued = true })
    else if id == 5
    then pure (record empty_response { try_again_later = true })
    else if id == 6
    then (do x ← read_registered; pure (record empty_response { agent_registered = some x }))
    else if id == 7
    then (do
      x ← read_mapping empty_mapping
      pure (record empty_response { agent_port_mapping = some x }))
    else if id == 8
    then (do x ← read_details; pure (record empty_response { udp_channel_details = some x }))
    else fail invalid_control_response_id

not_pong :
    (r rest : List ℕ) (x : ControlResponse)
    → (read_pong >>= λ p. pure (record empty_response { pong = some p })) r ≡ ok (x, rest)
    → x.pong ≢ none
not_pong r rest x e h =
    let (p, r1, g, e1) =
      get_ok read_pong (λ p. pure (record empty_response { pong = some p })) r x rest e in
    absurd (ground (arith, e1, h))

not_mapping :
    (r rest : List ℕ) (x : ControlResponse)
    → (read_mapping empty_mapping >>= λ m.
          pure (record empty_response { agent_port_mapping = some m }))
        r
      ≡ ok (x, rest)
    → x.agent_port_mapping ≢ none
not_mapping r rest x e h =
    let (m, r1, g, e1) =
      get_ok (read_mapping empty_mapping)
        (λ m. pure (record empty_response { agent_port_mapping = some m })) r x rest e in
    absurd (ground (arith, e1, h))

body_step :
    (id : ℕ) (r r' rest : List ℕ) (x : ControlResponse)
    → read_u32 r ≡ ok (id, r')
    → read_body id r' ≡ ok (x, rest)
    → x.pong ≡ none
    → x.agent_port_mapping ≡ none
    → IsStep (write_response x) r rest
unfolding read_body
body_step id r r' rest x tag e h h' = elim (Bool-cases (id == 1)) [
  | inl one ↦ absurd (not_pong r' rest x (ground (arith, e, one)) h)
  | inr n1 ↦ elim (Bool-cases (id == 2)) [
    | inl two ↦
        bare_step 2 r r' rest (record empty_response { invalid_signature = true }) x
          (ground (arith, tag, two)) (unfold write_response in refl) (ground (arith, e, n1, two))
    | inr n2 ↦ elim (Bool-cases (id == 3)) [
      | inl three ↦
          bare_step 3 r r' rest (record empty_response { unauthorized = true }) x
            (ground (arith, tag, three)) (unfold write_response in refl)
            (ground (arith, e, n1, n2, three))
      | inr n3 ↦ elim (Bool-cases (id == 4)) [
        | inl four ↦
            bare_step 4 r r' rest (record empty_response { request_queued = true }) x
              (ground (arith, tag, four)) (unfold write_response in refl)
              (ground (arith, e, n1, n2, n3, four))
        | inr n4 ↦ elim (Bool-cases (id == 5)) [
          | inl five ↦
              bare_step 5 r r' rest (record empty_response { try_again_later = true }) x
                (ground (arith, tag, five)) (unfold write_response in refl)
                (ground (arith, e, n1, n2, n3, n4, five))
          | inr n5 ↦ elim (Bool-cases (id == 6)) [
            | inl six ↦
                registered_step r r' rest x (ground (arith, tag, six))
                  (ground (arith, e, n1, n2, n3, n4, n5, six))
            | inr n6 ↦ elim (Bool-cases (id == 7)) [
              | inl seven ↦
                  absurd
                    (not_mapping r' rest x (ground (arith, e, n1, n2, n3, n4, n5, n6, seven)) h')
              | inr n7 ↦ elim (Bool-cases (id == 8)) [
                | inl eight ↦
                    details_step r r' rest x (ground (arith, tag, eight))
                      (ground (arith, e, n1, n2, n3, n4, n5, n6, n7, eight))
                | inr n8 ↦ absurd (ground (arith, e, n1, n2, n3, n4, n5, n6, n7, n8))
              ]
            ]
          ]
        ]
      ]
    ]
  ]
]

pub response_step :
    (r rest : List ℕ) (x : ControlResponse)
    → read_response empty_response r ≡ ok (x, rest)
    → x.pong ≡ none
    → x.agent_port_mapping ≡ none
    → IsStep (write_response x) r rest
unfolding read_response read_body
response_step r rest x e h h' =
    let (id, r', tag, e') = get_ok read_u32 read_body r x rest e in
    body_step id r r' rest x tag e' h h'
