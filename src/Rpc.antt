-- ===== src/Rpc.antt =====
-- tunnel/rpc.go: the interface of message bodies, and a body under a request id.
-- The deferred JSON dumps go to the debug log only and are left out.
use go_playit.Base.{ℕ, ◌≡◌, ◌++◌, append_assoc, List, IsU64, ok}
use go_playit.Wire.{Written, written, ◌>>◌, write_u64, Get, pure, ◌>>=◌, read_u64, to_be}
use go_playit.Wire.Uint.{read_uint-to_be}

-- The interface MessageEncoding: ReadFrom is given the value that its receiver points to.
pub record MessageEncoding (T : Type 0) : Type 0 where
  pub write_to : T → Written
  pub read_from : T → Get T

pub record ControlRpcMessage (T : Type 0) : Type 0 where
  pub request_id : ℕ
  pub content : T

module _ {T : Type 0} ⦃e : MessageEncoding T⦄ where
  unfoldable pub write_rpc : ControlRpcMessage T → Written
  write_rpc w = do write_u64 w.request_id; e.write_to w.content

  unfoldable pub read_rpc : ControlRpcMessage T → Get (ControlRpcMessage T)
  read_rpc w = do
    request_id ← read_u64
    content ← e.read_from w.content
    pure (record { request_id = request_id; content = content })

  -- A body that is read back into an empty receiver `z` is also read back behind its request id.
  pub rpc-Carries :
      (w : ControlRpcMessage T) (z : T) (id : ℕ)
      → IsU64 w.request_id
      → (bytes : List ℕ) × (e.write_to w.content ≡ written bytes)
        × ((rest : List ℕ) → e.read_from z (bytes ++ rest) ≡ ok (w.content, rest))
      → (bytes : List ℕ) × (write_rpc w ≡ written bytes)
        × ((rest : List ℕ)
            → read_rpc (record { request_id = id; content = z }) (bytes ++ rest) ≡ ok (w, rest))
  unfolding write_rpc read_rpc
  rpc-Carries w z id h (bytes, wrote, reads) = (
    to_be 8 w.request_id ++ bytes,
    rw wrote,
    λ rest. rw (append_assoc, read_uint-to_be 8 w.request_id _ h, reads rest),
  )
