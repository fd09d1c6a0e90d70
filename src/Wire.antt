-- ===== src/Wire.antt =====
-- tunnel/bigint.go: integers, buffers and options on a byte stream, in network byte order.
-- A writer is the bytes.Buffer that every caller passes: what a call appends, and its outcome.
-- A reader is the bytes.Reader or bytes.Buffer that every caller passes: the bytes left to read.
pub mod Uint
pub mod Buffer
pub mod Carries
pub mod Canonical
pub mod Steps
use go_playit.Base.{ℕ, zero, suc, ◌+◌, ◌*◌, ◌/◌, ◌%◌, ◌^◌, Option, none, some, List, [], ◌∷◌, ◌++◌}
use go_playit.Base.{
  ltb, ◌==◌, if◌then◌else◌, length, take, drop, Error, eof, Result, ok, err, panic, bind,
}

-- What a WriteTo appended to the buffer, and how it returned.
pub record Written : Type 0 where
  pub bytes : List ℕ
  pub outcome : Result (Unit {0})

abbrev pub written : List ℕ → Written
written bs = record { bytes = bs; outcome = ok tt }

abbrev pub write_failed : Error → Written
write_failed e = record { bytes = []; outcome = err e }

-- `if err := a; err != nil { return err }; return b`
infixl 5 ◌>>◌
abbrev pub ◌>>◌ : Written → Written → Written
a >> b = elim a.outcome [
  | ok _ ↦ record { bytes = a.bytes ++ b.bytes; outcome = b.outcome }
  | err e ↦ a
  | panic ↦ a
]

-- A ReadFrom: the value it leaves in the receiver, and the bytes left in the reader.
abbrev pub Get {ℓ} : Type ℓ → Type ℓ
Get A = List ℕ → Result (A × List ℕ)

abbrev pub pure {ℓ} : {A : Type ℓ} → A → Get A
pure a r = ok (a, r)

abbrev pub fail {ℓ} : {A : Type ℓ} → Error → Get A
fail e r = err e

infixl 5 ◌>>=◌
abbrev pub ◌>>=◌ {ℓ κ} : {A : Type ℓ} {B : Type κ} → Get A → (A → Get B) → Get B
◌>>=◌ m f r = bind (m r) (λ (a, r'). f a r')

-- The `n` big-endian bytes of `v`, as binary.BigEndian.PutUint16, PutUint32 and PutUint64 store them.
unfoldable pub to_be : ℕ → ℕ → List ℕ
to_be zero v = []
to_be (suc n) v = (v / 256 ^ n % 256) ∷ to_be n v

pub from_be_acc : ℕ → List ℕ → ℕ
from_be_acc acc [] = acc
from_be_acc acc (b ∷ bs) = from_be_acc (acc * 256 + b) bs

unfoldable pub from_be : List ℕ → ℕ
unfolding from_be_acc
from_be bs = from_be_acc 0 bs

-- binary.Read of one `n`-byte integer: io.ReadFull, then the big-endian value.
unfoldable pub binary_read : ℕ → Get ℕ
unfolding from_be
binary_read n r = if ltb (length r) n then err eof else ok (from_be (take n r), drop n r)

-- The error of binary.Read is dropped: the value stays 0 and a short reader is used up.
unfoldable pub read_uint : ℕ → Get ℕ
unfolding binary_read
read_uint n r = elim (binary_read n r) [ ok p ↦ ok p | err e ↦ ok (0, []) | panic ↦ panic ]

abbrev pub read_u8 : Get ℕ
read_u8 = read_uint 1

abbrev pub read_u16 : Get ℕ
read_u16 = read_uint 2

abbrev pub read_u32 : Get ℕ
read_u32 = read_uint 4

abbrev pub read_u64 : Get ℕ
read_u64 = read_uint 8

abbrev pub write_u8 : ℕ → Written
write_u8 v = written (to_be 1 v)

abbrev pub write_u16 : ℕ → Written
write_u16 v = written (to_be 2 v)

abbrev pub write_u32 : ℕ → Written
write_u32 v = written (to_be 4 v)

abbrev pub write_u64 : ℕ → Written
write_u64 v = written (to_be 8 v)

-- binary.Write and io.Writer.Write of a byte slice.
abbrev pub write_data : List ℕ → Written
write_data bs = written bs

-- `for index := range buff { binary.Read(w, &buff[index]) }` over elements of `width` bytes.
unfoldable pub read_values : ℕ → ℕ → Get (List ℕ)
read_values width zero = pure []
read_values width (suc n) = do v ← binary_read width; vs ← read_values width n; pure (v ∷ vs)

abbrev pub read_u8_buff : ℕ → Get (List ℕ)
read_u8_buff = read_values 1

abbrev pub read_u16_buff : ℕ → Get (List ℕ)
read_u16_buff = read_values 2

abbrev pub read_u32_buff : ℕ → Get (List ℕ)
read_u32_buff = read_values 4

abbrev pub read_u64_buff : ℕ → Get (List ℕ)
read_u64_buff = read_values 8

-- ReadBuff fills a slice of length `n`; ReadBuffN makes it first.
abbrev pub read_buff : ℕ → Get (List ℕ)
read_buff = read_values 1

abbrev pub read_buff_n : ℕ → Get (List ℕ)
read_buff_n size = read_buff size

-- The largest allocation of the Go run time on 64-bit systems; `make` panics above it.
abbrev pub max_alloc : ℕ
max_alloc = 2 ^ 48

-- `buff := make([]byte, n)` followed by ReadBuff.
unfoldable pub read_token : ℕ → Get (List ℕ)
read_token n r = if ltb max_alloc n then panic else read_buff n r

abbrev pub read_option {ℓ} : {S : Type ℓ} → (S → Get S) → S → Get S
read_option callback s = do code ← read_u8; if code == 1 then callback s else pure s

abbrev pub write_option {ℓ} : {T : Type ℓ} → (T → Written) → Option T → Written
write_option write_to none = write_u8 0
write_option write_to (some value) = do write_u8 1; write_to value

abbrev pub write_option_u8 : Option ℕ → Written
write_option_u8 none = write_u8 0
write_option_u8 (some value) = do write_u8 1; write_u8 value

abbrev pub write_option_u16 : Option ℕ → Written
write_option_u16 none = write_u8 0
write_option_u16 (some value) = do write_u8 1; write_u16 value

abbrev pub write_option_u32 : Option ℕ → Written
write_option_u32 none = write_u8 0
write_option_u32 (some value) = do write_u8 1; write_u32 value

abbrev pub write_option_u64 : Option ℕ → Written
write_option_u64 none = write_u8 0
write_option_u64 (some value) = do write_u8 1; write_u64 value
