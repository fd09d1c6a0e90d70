-- ===== src/Wire/Carries.antt =====
-- Round trips over the byte stream: the reader takes exactly what the writer appended.
use go_playit.Base.{ℕ, ◌≡◌, refl, List, ◌++◌, ok, IsU64, IsU32, IsU16}
use go_playit.Wire.{
  Written, written, Get, write_u16, write_u32, write_u64, read_u16, read_u32, read_u64, to_be,
}
use go_playit.Wire.Uint.{read_uint-to_be}

-- The writer succeeds on `x`, and the reader turns its bytes back into `x`, whatever follows them.
abbrev pub Carries : {T : Type 0} → (T → Written) → Get T → T → Type 0
Carries write read x =
    (bytes : List ℕ) × (write x ≡ written bytes)
    × ((rest : List ℕ) → read (bytes ++ rest) ≡ ok (x, rest))

pub u64-Carries : (v : ℕ) → IsU64 v → Carries write_u64 read_u64 v
u64-Carries v h = (to_be 8 v, refl, λ rest. read_uint-to_be 8 v rest h)

pub u32-Carries : (v : ℕ) → IsU32 v → Carries write_u32 read_u32 v
u32-Carries v h = (to_be 4 v, refl, λ rest. read_uint-to_be 4 v rest h)

pub u16-Carries : (v : ℕ) → IsU16 v → Carries write_u16 read_u16 v
u16-Carries v h = (to_be 2 v, refl, λ rest. read_uint-to_be 2 v rest h)
