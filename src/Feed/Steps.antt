-- ===== src/Feed/Steps.antt =====
-- The bytes that ControlFeed.ReadFrom of tunnel/control_feed.go takes are those that WriteTo writes.
use go_playit.Base.{
  if◌then◌else◌, ◌==◌, inr, inl, some, none, ℕ, List, ◌≡◌, ok, arith, Option, Bool-cases, ap,
  invalid_control_feed_id,
}
use go_playit.Wire.{fail, Get, ◌>>=◌, read_u32, read_u64, pure}
use go_playit.Rpc.{ControlRpcMessage, read_rpc, write_rpc}
use go_playit.Response.{ControlResponse, empty_response, read_response, response_encoding}
use go_playit.Response.Canonical.{response_step}
use go_playit.Feed.{
  ControlFeed, empty_feed, empty_message, read_feed, write_feed, NewClient, read_new_client,
}
use go_playit.Wire.Canonical.{get_ok, uint-IsCanonical}
use go_playit.Wire.Steps.{IsStep, step, and_then, same_step}
use go_playit.Feed.Canonical.{new_client-IsCanonical}

-- A message that is neither a pong nor a port mapping.
abbrev pub IsPlain : Option (ControlRpcMessage ControlResponse) → Type 0
IsPlain none = Unit
IsPlain (some m) = (m.content.pong ≡ none) × (m.content.agent_port_mapping ≡ none)

same-IsPlain : {x y : ControlFeed} → y ≡ x → IsPlain x.response → IsPlain y.response
same-IsPlain e h = rw e h

rpc_step :
    (r rest : List ℕ) (m : ControlRpcMessage ControlResponse)
    → read_rpc empty_message r ≡ ok (m, rest)
    → IsPlain (some m)
    → IsStep (write_rpc m) r rest
unfolding read_rpc write_rpc
rpc_step r rest m e (h, h') =
    let made : ℕ → ControlResponse → Get (ControlRpcMessage ControlResponse) =
      λ id c. pure (record { request_id = id; content = c }) in
    let (id, r1, g1, e1) =
      get_ok read_u64 (λ id. read_response empty_response >>= made id) r m rest e in
    let (c, r2, g2, e2) = get_ok (read_response empty_response) (made id) r1 m rest e1 in
    let whole : record { request_id = id; content = c } ≡ m = ground (arith, e2) in
    let left : r2 ≡ rest = ground (arith, e2) in
    let body = response_step r1 r2 c g2 (ground (arith, h, whole)) (ground (arith, h', whole)) in
    same_step (ap write_rpc whole) left (and_then (step id (uint-IsCanonical 8) g1) body)

read_body : ℕ → Get ControlFeed
read_body id =
    if id == 1
    then (do x ← read_rpc empty_message; pure (record empty_feed { response = some x }))
    else if id == 2
    then (do x ← read_new_client; pure (record empty_feed { new_client = some x }))
    else fail invalid_control_feed_id

message_step :
    (r r' rest : List ℕ) (x : ControlFeed)
    → read_u32 r ≡ ok (1, r')
    → (read_rpc empty_message >>= λ m. pure (record empty_feed { response = some m })) r'
      ≡ ok (x, rest)
    → IsPlain x.response
    → IsStep (write_feed x) r rest
unfolding write_feed
message_step r r' rest x tag e h =
    let made : ControlRpcMessage ControlResponse → Get ControlFeed =
      λ m. pure (record empty_feed { response = some m }) in
    let (m, r1, g, e1) = get_ok (read_rpc empty_message) made r' x rest e in
    let whole : record empty_feed { response = some m } ≡ x = ground (arith, e1) in
    let left : r1 ≡ rest = ground (arith, e1) in
    let plain = same-IsPlain whole h in
    same_step (ap write_feed whole) left
      (and_then (step 1 (uint-IsCanonical 4) tag) (rpc_step r' r1 m g plain))

client_step :
    (r r' rest : List ℕ) (x : ControlFeed)
    → read_u32 r ≡ ok (2, r')
    → (read_new_client >>= λ c. pure (record empty_feed { new_client = some c })) r' ≡ ok (x, rest)
    → IsStep (write_feed x) r rest
unfolding write_feed
client_step r r' rest x tag e =
    let made : NewClient → Get ControlFeed =
      λ c. pure (record empty_feed { new_client = some c }) in
    let (c, r1, g, e1) = get_ok read_new_client made r' x rest e in
    let whole : record empty_feed { new_client = some c } ≡ x = ground (arith, e1) in
    let left : r1 ≡ rest = ground (arith, e1) in
    same_step (ap write_feed whole) left
      (and_then (step 2 (uint-IsCanonical 4) tag) (step c new_client-IsCanonical g))

-- Let ReadFrom take from bytes a feed that is neither a pong nor a port mapping: a new client or another
-- response. What is left behind it are bytes. If any are left, WriteTo writes the feed without an error,
-- and the bytes that were taken are exactly those that it writes.
pub read_feed-IsStep :
    (r rest : List ℕ) (x : ControlFeed)
    → read_feed empty_feed r ≡ ok (x, rest)
    → IsPlain x.response
    → IsStep (write_feed x) r rest
unfolding read_feed read_body
read_feed-IsStep r rest x e h =
    let (id, r', tag, e') = get_ok read_u32 read_body r x rest e in
    elim (Bool-cases (id == 1)) [
      | inl one ↦ message_step r r' rest x (ground (arith, tag, one)) (ground (arith, e', one)) h
      | inr n1 ↦ elim (Bool-cases (id == 2)) [
        | inl two ↦ client_step r r' rest x (ground (arith, tag, two)) (ground (arith, e', n1, two))
        | inr n2 ↦ absurd (ground (arith, e', n1, n2))
      ]
    ]
