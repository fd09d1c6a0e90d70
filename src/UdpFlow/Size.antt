-- ===== src/UdpFlow/Size.antt =====
-- The size of the footer that UdpFlow.WriteTo of tunnel/udp_proto.go appends.
use go_playit.Wire.{written, to_be}
use go_playit.Wire.Uint.{length-to_be}
use go_playit.Netip.{as_slice}
use go_playit.Base.{◌+◌, ℕ, ◌≡◌, refl, List, ◌++◌, length, length-append, arith, none, some}
use go_playit.UdpFlow.{
  redirect_flow_6_footer_id, redirect_flow_4_footer_id_old, UdpFlowBase, UdpFlow6, UdpFlow,
  flow_len, write_flow,
}

-- Both addresses have `n` bytes.
abbrev pub IsSized : ℕ → UdpFlowBase → Type 0
IsSized n b = (length (as_slice b.src.addr) ≡ n) × (length (as_slice b.dst.addr) ≡ n)

-- A flow with one pointer set, to addresses of its family.
pub data IsFlow : UdpFlow → Type 0 where
  four : (b : UdpFlowBase) → IsSized 4 b → IsFlow (record { flow_v4 = some b; flow_v6 = none })
  six : (c : UdpFlow6) → IsSized 16 c.base → IsFlow (record { flow_v4 = none; flow_v6 = some c })

unfoldable pub base_bytes : UdpFlowBase → List ℕ
base_bytes b =
    as_slice b.src.addr ++ (as_slice b.dst.addr ++ (to_be 2 b.src.port ++ to_be 2 b.dst.port))

pub length-base_bytes : (n : ℕ) (b : UdpFlowBase) → IsSized n b → length (base_bytes b) ≡ n + n + 4
unfolding base_bytes
length-base_bytes n b (h, k) =
    rw
      (
        length-append (as_slice b.src.addr),
        length-append (as_slice b.dst.addr),
        length-append (to_be 2 b.src.port),
        length-to_be 2 b.src.port,
        length-to_be 2 b.dst.port,
      )
      (omega arith)

abbrev pub four_bytes : UdpFlowBase → List ℕ
four_bytes b = base_bytes b ++ to_be 8 redirect_flow_4_footer_id_old

abbrev pub six_bytes : UdpFlow6 → List ℕ
six_bytes c = base_bytes c.base ++ (to_be 4 c.flow ++ to_be 8 redirect_flow_6_footer_id)

pub write_flow_four :
    (b : UdpFlowBase)
    → write_flow (record { flow_v4 = some b; flow_v6 = none }) ≡ written (four_bytes b)
unfolding write_flow base_bytes
write_flow_four b = refl

pub write_flow_six :
    (c : UdpFlow6)
    → write_flow (record { flow_v4 = none; flow_v6 = some c }) ≡ written (six_bytes c)
unfolding write_flow base_bytes
write_flow_six c = refl

-- For a flow with one pointer set, to addresses of its family, what WriteTo appends has the length
-- that Len promises.
pub write_flow-flow_len : (w : UdpFlow) → IsFlow w → length (write_flow w).bytes ≡ flow_len w
unfolding flow_len
write_flow-flow_len w (four b h) =
    rw
      (
        write_flow_four b,
        length-append (base_bytes b),
        length-to_be 8 redirect_flow_4_footer_id_old,
      )
      (omega (arith, length-base_bytes 4 b h))
write_flow-flow_len w (six c h) =
    rw
      (
        write_flow_six c,
        length-append (base_bytes c.base),
        length-append (to_be 4 c.flow),
        length-to_be 4 c.flow,
        length-to_be 8 redirect_flow_6_footer_id,
      )
      (omega (arith, length-base_bytes 16 c.base h))
