-- ===== src/Feed/Canonical.antt =====
-- The bytes that the reads of tunnel/control_feed.go take for a new client are those that it writes.
use go_playit.Base.{ok, ap, ℕ, List, ◌≡◌, refl, arith, length}
use go_playit.Netip.{AddrPort}
use go_playit.Wire.{to_be, Get, ◌>>=◌, read_u32, read_u64, read_token, pure, written, Written}
use go_playit.Feed.{
  unchecked, ClaimInstructions, write_claim, read_claim, NewClient, write_new_client,
  read_new_client,
}
use go_playit.Wire.Canonical.{get_ok, IsCanonical, uint-IsCanonical, token_takes}
use go_playit.Address.{read_address}
use go_playit.Address.Canonical.{address-IsCanonical}
use go_playit.Wire.Steps.{same_step, IsStep, step, and_then, token_step, all_steps}

claim-IsCanonical : IsCanonical write_claim read_claim
unfolding write_claim read_claim
claim-IsCanonical = all_steps λ r rest c e.
    let made : AddrPort → List ℕ → Get ClaimInstructions =
      λ a token. pure (record { address = a; token = token }) in
    let (a, r1, g1, e1) =
      get_ok read_address (λ a. read_u64 >>= λ n. read_token n >>= made a) r c rest e in
    let (n, r2, g2, e2) = get_ok read_u64 (λ n. read_token n >>= made a) r1 c rest e1 in
    let (token, r3, g3, e3) = get_ok (read_token n) (made a) r2 c rest e2 in
    let (taken, size) = token_takes n r2 r3 token g3 in
    let sized : IsStep (written (to_be 8 (length token))) r1 r2 =
      rw size (step n (uint-IsCanonical 8) g2) in
    let whole : record { address = a; token = token } ≡ c = ground (arith, e3) in
    let left : r3 ≡ rest = ground (arith, e3) in
    same_step (ap write_claim whole) left
      (and_then (step a address-IsCanonical g1) (and_then sized (token_step n g3)))

unchecked_step : {v : Written} {r rest : List ℕ} → IsStep v r rest → IsStep (unchecked v) r rest
unchecked_step s = record {
  keeps = s.keeps;
  takes = λ h more. let (bytes, wrote, taken) = s.takes h more in (bytes, rw wrote refl, taken);
}

client_steps :
    {r r1 r2 r3 r4 rest : List ℕ} {a b : AddrPort} {i : ClaimInstructions} {s d : ℕ}
    → read_address r ≡ ok (a, r1)
    → read_address r1 ≡ ok (b, r2)
    → read_claim r2 ≡ ok (i, r3)
    → read_u64 r3 ≡ ok (s, r4)
    → read_u32 r4 ≡ ok (d, rest)
    → IsStep
        (write_new_client (record {
          connect_addr = a;
          peer_addr = b;
          claim_instructions = i;
          tunnel_server_id = s;
          data_center_id = d;
        }))
        r
        rest
unfolding write_new_client
client_steps {a = a} {b = b} {i = i} {s = s} {d = d} g1 g2 g3 g4 g5 =
    let numbers = and_then (step s (uint-IsCanonical 8) g4) (step d (uint-IsCanonical 4) g5) in
    let claim = unchecked_step (step i claim-IsCanonical g3) in
    let peer = unchecked_step (step b address-IsCanonical g2) in
    and_then (step a address-IsCanonical g1) (and_then peer (and_then claim numbers))

pub new_client-IsCanonical : IsCanonical write_new_client read_new_client
unfolding read_new_client
new_client-IsCanonical = all_steps λ r rest c e.
    let made : AddrPort → AddrPort → ClaimInstructions → ℕ → ℕ → Get NewClient =
      λ connect peer claim server center. pure (record {
        connect_addr = connect;
        peer_addr = peer;
        claim_instructions = claim;
        tunnel_server_id = server;
        data_center_id = center;
      }) in
    let with_server : AddrPort → AddrPort → ClaimInstructions → ℕ → Get NewClient =
      λ a b i s. read_u32 >>= made a b i s in
    let with_claim : AddrPort → AddrPort → ClaimInstructions → Get NewClient =
      λ a b i. read_u64 >>= with_server a b i in
    let with_peer : AddrPort → AddrPort → Get NewClient = λ a b. read_claim >>= with_claim a b in
    let with_connect : AddrPort → Get NewClient = λ a. read_address >>= with_peer a in
    let (a, r1, g1, e1) = get_ok read_address with_connect r c rest e in
    let (b, r2, g2, e2) = get_ok read_address (with_peer a) r1 c rest e1 in
    let (i, r3, g3, e3) = get_ok read_claim (with_claim a b) r2 c rest e2 in
    let (s, r4, g4, e4) = get_ok read_u64 (with_server a b i) r3 c rest e3 in
    let (d, r5, g5, e5) = get_ok read_u32 (made a b i s) r4 c rest e4 in
    let whole : record {
      connect_addr = a;
      peer_addr = b;
      claim_instructions = i;
      tunnel_server_id = s;
      data_center_id = d;
    }
        ≡ c =
      ground (arith, e5) in
    let left : r5 ≡ rest = ground (arith, e5) in
    same_step (ap write_new_client whole) left (client_steps g1 g2 g3 g4 g5)
