-- ===== src/Tcp.antt =====
-- tunnel/tcp_tunnel.go: the TCP connection that claims a new client. What the calls of the net package
-- return is given: dialling, the write of the token, and the read of the answer.
pub mod Closing
use go_playit.Base.{
  if◌then◌else◌, ◌==◌, ◌||◌, ◌&&◌, ◌++◌, ◌∙◌, ◌↔◌, ◌⊎◌, ◌≢◌, ◌≡◌, ◌<◌, ◌≤◌, ◌^◌, ◌%◌, ◌/◌, ◌*◌, ◌-◌,
  ◌+◌, inr, inl, ◌∷◌, [], panic, err, ok, false, true, some, none, suc, zero, refl, ℕ, List, Error,
  Result, Option,
}
use go_playit.Feed.{ClaimInstructions}
use go_playit.Netip.{AddrPort}

-- What happens to a stream, in order.
pub data Event : Type 0 where
  wrote : ℕ → List ℕ → Event
  asked closed : ℕ → Event

-- The results of the net package; `some` is an error.
pub record Calls : Type 0 where
  pub dialled : AddrPort → Result ℕ
  pub written : Option Error
  pub got : Option Error

-- TcpTunnel.Connect: what it does to the stream, and what it returns.
unfoldable pub connect : Calls → ClaimInstructions → List Event × Result ℕ
connect calls claim = elim (calls.dialled claim.address) [
  | err e ↦ ([], err e)
  | panic ↦ ([], panic)
  | ok stream ↦ elim calls.written [
    | some e ↦ (wrote stream claim.token ∷ (closed stream ∷ []), err e)
    | none ↦ elim calls.got [
      | some e ↦ (wrote stream claim.token ∷ (asked stream ∷ (closed stream ∷ [])), err e)
      | none ↦ (wrote stream claim.token ∷ (asked stream ∷ []), ok stream)
    ]
  ]
]
