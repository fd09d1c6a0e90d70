-- ===== src/Address/Canonical.antt =====
-- The bytes that AddressPort.ReadFrom takes are those that AddressPort.WriteTo appends.
use go_playit.Base.{
  ap, cannot_get_ip_type, if◌then◌else◌, ◌∙◌, ◌⊎◌, refl, ℕ, List, [], ◌++◌, ◌≡◌, ◌≢◌, ok, arith,
  All, IsByte, Bool-cases, ◌==◌, inl, inr, append_assoc, append-nil, All-append_right,
}
use go_playit.Netip.{AddrPort, Addr, v4, v6}
use go_playit.Wire.{to_be, Get, ◌>>=◌, read_u8, read_u16, read_buff_n, pure, fail}
use go_playit.Wire.Canonical.{
  get_ok, IsCanonical, uint-IsCanonical, uint_takes, append-nonempty, buff_takes,
}
use go_playit.Address.{write_address, read_address, read_ip_port, address_bytes}
use go_playit.Address.RoundTrip.{write_address_lem}

-- The parts of an address and a port that were read.
record Parts (n : ℕ) (make : List ℕ → Addr) (r rest : List ℕ) (a : AddrPort) : Type 0 where
  pub ip : List ℕ
  pub port : ℕ
  pub left : List ℕ
  pub whole : a ≡ record { addr = make ip; port = port }
  pub taken : r ≡ ip ++ left
  pub read_port : read_u16 left ≡ ok (port, rest)

ip_port-Parts :
    (n : ℕ) (make : List ℕ → Addr) (r rest : List ℕ) (a : AddrPort)
    → read_ip_port n make r ≡ ok (a, rest)
    → Parts n make r rest a
unfolding read_ip_port
ip_port-Parts n make r rest a e =
    let with_port : List ℕ → Get AddrPort =
      λ ip. read_u16 >>= (λ port. pure (record { addr = make ip; port = port })) in
    let (ip, r', got, e') = get_ok (read_buff_n n) with_port r a rest e in
    let make_port : ℕ → Get AddrPort = λ port. pure (record { addr = make ip; port = port }) in
    let (port, r2, got', e2) = get_ok read_u16 make_port r' a rest e' in
    let (taken, size) = buff_takes n r r' ip got in
    let left : r2 ≡ rest = ground (arith, e2) in
    record {
      ip = ip;
      port = port;
      left = r';
      whole = ground (arith, e2);
      taken = taken;
      read_port = rw left at got';
    }

read_tagged : ℕ → Get AddrPort
read_tagged code =
    if code == 4
    then read_ip_port 4 v4
    else if code == 6
    then read_ip_port 16 (λ ip. v6 ip [])
    else fail cannot_get_ip_type

read_tagged_lem :
    (code : ℕ) (r rest : List ℕ) (a : AddrPort)
    → read_tagged code r ≡ ok (a, rest)
    → ((code ≡ 4) × Parts 4 v4 r rest a) ⊎ ((code ≡ 6) × Parts 16 (λ ip. v6 ip []) r rest a)
unfolding read_tagged
read_tagged_lem code r rest a e = elim (Bool-cases (code == 4)) [
  | inl four ↦ inl (ground (arith, four), ip_port-Parts 4 v4 r rest a (ground (arith, e, four)))
  | inr other ↦ elim (Bool-cases (code == 6)) [
    | inl six ↦ inr (
      ground (arith, six),
      ip_port-Parts 16 (λ ip. v6 ip []) r rest a (ground (arith, e, other, six)),
    )
    | inr none_of ↦ absurd (ground (arith, e, other, none_of))
  ]
]

Parts-keeps :
    (n : ℕ) (make : List ℕ → Addr) (r rest : List ℕ) (a : AddrPort)
    → Parts n make r rest a
    → All IsByte r
    → All IsByte rest
Parts-keeps n make r rest a p h =
    (uint-IsCanonical 2).keeps p.left rest p.port p.read_port
      (All-append_right IsByte p.ip p.left (rw p.taken at h))

Parts-takes :
    (n : ℕ) (make : List ℕ → Addr) (r rest : List ℕ) (a : AddrPort) (p : Parts n make r rest a)
    → All IsByte r
    → rest ≢ []
    → r ≡ p.ip ++ (to_be 2 p.port ++ rest)
Parts-takes n make r rest a p h more =
    let port_bytes =
      uint_takes 2 p.left rest p.port p.read_port
        (All-append_right IsByte p.ip p.left (rw p.taken at h)) more in
    p.taken ∙ ap (λ (xs : List ℕ). p.ip ++ xs) port_bytes

-- The bytes of the tag, and of what is behind it.
tagged_takes :
    (code : ℕ) (r r' ip port rest : List ℕ)
    → read_u8 r ≡ ok (code, r')
    → All IsByte r
    → rest ≢ []
    → r' ≡ ip ++ (port ++ rest)
    → r ≡ (to_be 1 code ++ (ip ++ port)) ++ rest
tagged_takes code r r' ip port rest tagged h more e =
    let more' : r' ≢ [] =
      rw e (append-nonempty ip (port ++ rest) (append-nonempty port rest more)) in
    uint_takes 1 r r' code tagged h more'
    ∙ rw (e, append_assoc (to_be 1 code) (ip ++ port) rest, append_assoc ip port rest) refl

four_bytes :
    (a : AddrPort) (code : ℕ) (ip : List ℕ) (port : ℕ)
    → a ≡ record { addr = v4 ip; port = port }
    → code ≡ 4
    → to_be 1 code ++ (ip ++ to_be 2 port) ≡ address_bytes a
unfolding address_bytes
four_bytes a code ip port e four = rw (e, four) refl

six_bytes :
    (a : AddrPort) (code : ℕ) (ip : List ℕ) (port : ℕ)
    → a ≡ record { addr = v6 ip []; port = port }
    → code ≡ 6
    → to_be 1 code ++ (ip ++ to_be 2 port) ≡ address_bytes a
unfolding address_bytes
six_bytes a code ip port e six = rw (e, six, append-nil ip) refl

pub address-IsCanonical : IsCanonical write_address read_address
unfolding read_address read_tagged
address-IsCanonical = record {
  keeps = λ r rest a e h.
      let (code, r', tagged, e') = get_ok read_u8 read_tagged r a rest e in
      let h' = (uint-IsCanonical 1).keeps r r' code tagged h in
      elim (read_tagged_lem code r' rest a e') [
        | inl (four, p) ↦ Parts-keeps 4 v4 r' rest a p h'
        | inr (six, p) ↦ Parts-keeps 16 (λ ip. v6 ip []) r' rest a p h'
      ];
  takes = λ r rest a e h more.
      let (code, r', tagged, e') = get_ok read_u8 read_tagged r a rest e in
      let h' = (uint-IsCanonical 1).keeps r r' code tagged h in
      elim (read_tagged_lem code r' rest a e') [
        | inl (four, p) ↦
            let taken =
              tagged_takes code r r' p.ip (to_be 2 p.port) rest tagged h more
                (Parts-takes 4 v4 r' rest a p h' more) in
            let bytes = four_bytes a code p.ip p.port p.whole four in
            (address_bytes a, write_address_lem a, taken ∙ ap (λ (xs : List ℕ). xs ++ rest) bytes)
        | inr (six, p) ↦
            let taken =
              tagged_takes code r r' p.ip (to_be 2 p.port) rest tagged h more
                (Parts-takes 16 (λ ip. v6 ip []) r' rest a p h' more) in
            let bytes = six_bytes a code p.ip p.port p.whole six in
            (address_bytes a, write_address_lem a, taken ∙ ap (λ (xs : List ℕ). xs ++ rest) bytes)
      ];
}
