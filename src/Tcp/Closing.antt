-- ===== src/Tcp/Closing.antt =====
-- Which streams TcpTunnel.Connect of tunnel/tcp_tunnel.go leaves open.
use go_playit.Base.{
  arith, Option-cases, if◌then◌else◌, ◌==◌, ◌⊎◌, ◌≡◌, ◌+◌, inr, inl, ◌∷◌, [], err, ok, ℕ, List,
  Error,
}
use go_playit.Feed.{ClaimInstructions}
use go_playit.Tcp.{Event, wrote, asked, closed, Calls, connect}

-- The number of times that a stream is closed.
unfoldable pub closings : ℕ → List Event → ℕ
closings stream [] = 0
closings stream (wrote s bytes ∷ events) = closings stream events
closings stream (asked s ∷ events) = closings stream events
closings stream (closed s ∷ events) =
    if s == stream then closings stream events + 1 else closings stream events

-- A stream that Connect dials is the one that it returns, open and with the claim's token as the first
-- thing written to it, or is closed once where it returns an error.
pub connect-closings :
    (calls : Calls) (claim : ClaimInstructions) (stream : ℕ)
    → calls.dialled claim.address ≡ ok stream
    → let (events, result) = connect calls claim in
      ((result ≡ ok stream)
        × (closings stream events ≡ 0)
        × ((rest : List Event) × (events ≡ wrote stream claim.token ∷ rest)))
      ⊎ (((e : Error) × (result ≡ err e)) × (closings stream events ≡ 1))
unfolding connect closings
connect-closings calls claim stream h = elim (Option-cases calls.written) [
  | inr (x, e) ↦ inr ((x, ground (arith, h, e)), ground (arith, h, e))
  | inl e ↦ elim (Option-cases calls.got) [
    | inr (x, f) ↦ inr ((x, ground (arith, h, e, f)), ground (arith, h, e, f))
    | inl f ↦ inl (
      ground (arith, h, e, f),
      ground (arith, h, e, f),
      (asked stream ∷ [], ground (arith, h, e, f)),
    )
  ]
]
