-- ===== src/UdpFlow.antt =====
-- tunnel/udp_proto.go: the footer that carries a UDP flow behind the payload.
pub mod Size
pub mod Tail
use go_playit.Base.{err, panic, ok, ℕ, List, [], Option, none, some, if◌then◌else◌, ◌==◌, length}
use go_playit.Base.{bit_or, ◌-◌, ltb, drop, take, replicate, ◌++◌, Error, Result}
use go_playit.Base.{no_footer_space, no_v4_space, no_v6_space}
use go_playit.Wire.{Written, ◌>>◌, write_u16, write_u32, write_u64, write_data}
use go_playit.Wire.{from_be, read_u16, read_u32}
use go_playit.Netip.{Addr, AddrPort, as_slice, v4, v6}

abbrev pub redirect_flow_4_footer_id_old : ℕ
redirect_flow_4_footer_id_old = 0x5cb867cf788173b2

abbrev pub redirect_flow_4_footer_id : ℕ
redirect_flow_4_footer_id = 0x4448474f48414344

abbrev pub redirect_flow_6_footer_id : ℕ
redirect_flow_6_footer_id = 0x6668676f68616366

abbrev pub udp_channel_establish_id : ℕ
udp_channel_establish_id = 0xd01fe6830ddce781

abbrev pub v4_len : ℕ
v4_len = 20

abbrev pub v6_len : ℕ
v6_len = 48

pub record UdpFlowBase : Type 0 where
  pub src : AddrPort
  pub dst : AddrPort

-- The anonymous struct behind the pointer V6.
pub record UdpFlow6 : Type 0 where
  pub base : UdpFlowBase
  pub flow : ℕ

pub record UdpFlow : Type 0 where
  pub flow_v4 : Option UdpFlowBase
  pub flow_v6 : Option UdpFlow6

unfoldable pub flow_len : UdpFlow → ℕ
flow_len w = elim w.flow_v4 [ none ↦ v6_len | some _ ↦ v4_len ]

-- With neither pointer set, Src, Dst and WriteTo dereference nil.
unfoldable pub flow_base : UdpFlow → Result UdpFlowBase
flow_base w = elim w.flow_v4 [
  | some b ↦ ok b
  | none ↦ elim w.flow_v6 [ none ↦ panic | some c ↦ ok c.base ]
]

unfoldable pub flow_src : UdpFlow → Result AddrPort
unfolding flow_base
flow_src w = elim (flow_base w) [ ok b ↦ ok b.src | err e ↦ err e | panic ↦ panic ]

unfoldable pub flow_dst : UdpFlow → Result AddrPort
unfolding flow_base
flow_dst w = elim (flow_base w) [ ok b ↦ ok b.dst | err e ↦ err e | panic ↦ panic ]

write_base : UdpFlowBase → Written
write_base conn = do
  write_data (as_slice conn.src.addr)
  write_data (as_slice conn.dst.addr)
  write_u16 conn.src.port
  write_u16 conn.dst.port

unfoldable pub write_flow : UdpFlow → Written
unfolding write_base
write_flow w = elim w.flow_v4 [
  | some conn ↦ (do write_base conn; write_u64 redirect_flow_4_footer_id_old)
  | none ↦ elim w.flow_v6 [
    | none ↦ record { bytes = []; outcome = panic }
    | some c ↦ (do write_base c.base; write_u32 c.flow; write_u64 redirect_flow_6_footer_id)
  ]
]

-- The three results of FromTailUdpFlow.
pub record TailFlow : Type 0 where
  pub flow : Option UdpFlow
  pub footer : ℕ
  pub error : Option Error

-- `buff, _ := ReadBuffN(bytes.NewReader(slice), n)`: every call has a reader of its own, at the
-- start of the slice. Elements that the reader does not fill stay 0.
filled : ℕ → List ℕ → List ℕ
filled n slice = take n slice ++ replicate (n - length slice) 0

-- `ReadU16(bytes.NewReader(slice))` and `ReadU32(bytes.NewReader(slice))`.
fresh : Result (ℕ × List ℕ) → ℕ
fresh r = elim r [ ok p ↦ p.0 | _ ↦ 0 ]

-- The decoding of both cases, on the last bytes of the slice.
tail_base : ℕ → (List ℕ → Addr) → List ℕ → UdpFlowBase
unfolding filled fresh
tail_base n make slice =
    let src = make (filled n slice) in
    let dst = make (filled n slice) in
    let src_port = fresh (read_u16 slice) in
    let dst_port = fresh (read_u16 slice) in
    record {
      src = record { addr = src; port = src_port };
      dst = record { addr = dst; port = dst_port };
    }

unfoldable pub from_tail_udp_flow : List ℕ → TailFlow
unfolding tail_base
from_tail_udp_flow slice =
    let footer = from_be (drop (length slice - 8) slice) in
    let tail4 = drop (length slice - v4_len) slice in
    let tail6 = drop (length slice - v6_len) slice in
    if ltb (length slice) 8
    then record { flow = none; footer = 0; error = some no_footer_space }
    else if footer == bit_or redirect_flow_4_footer_id redirect_flow_4_footer_id_old
    then (if ltb (length slice) v4_len
        then record { flow = none; footer = 0; error = some no_v4_space }
        else record {
          flow = some (record { flow_v4 = some (tail_base 4 v4 tail4); flow_v6 = none });
          footer = 0;
          error = none;
        })
    else if footer == redirect_flow_6_footer_id
    then (if ltb (length slice) v6_len
        then record { flow = none; footer = footer; error = some no_v6_space }
        else record {
          flow = some (record {
            flow_v4 = none;
            flow_v6 = some (record {
              base = tail_base 16 (λ ip. v6 ip []) tail6;
              flow = fresh (read_u32 tail6);
            });
          });
          footer = 0;
          error = none;
        })
    else record { flow = none; footer = footer; error = none }
