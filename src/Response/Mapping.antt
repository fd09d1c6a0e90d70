-- ===== src/Response/Mapping.antt =====
-- AgentPortMapping of tunnel/control_message.go, whose ReadFrom calls a method of a nil pointer.
use go_playit.Base.{ℕ, ◌≡◌, refl, List, ◌++◌, none, err, panic, arith, ◌⊎◌, inl, inr}
use go_playit.Base.{unknown_port_mapping_found_id}
use go_playit.Wire.{to_be, read_uint, binary_read}
use go_playit.Wire.Uint.{read_uint-to_be}
use go_playit.Types.{read_port_range}
use go_playit.Response.{AgentPortMapping, read_mapping, read_found, ControlResponse, read_response}
use go_playit.Response.{empty_mapping}

-- No input makes ReadFrom succeed on a mapping whose Found is nil: it panics on the one number
-- that WriteTo uses, and refuses every other.
pub mapping_unreadable :
    (w : AgentPortMapping) (r : List ℕ)
    → w.found ≡ none
    → (read_mapping w r ≡ panic) ⊎ (read_mapping w r ≡ err unknown_port_mapping_found_id)
unfolding read_mapping read_found read_port_range read_uint binary_read
mapping_unreadable w r e = ground arith

-- A response of kind 7, a port mapping, is never decoded: whatever its body, reading it panics or
-- fails.
pub response_mapping_unreadable :
    (z : ControlResponse) (r : List ℕ)
    → (read_response z (to_be 4 7 ++ r) ≡ panic)
      ⊎ (read_response z (to_be 4 7 ++ r) ≡ err unknown_port_mapping_found_id)
unfolding read_response
response_mapping_unreadable z r =
    rw (read_uint-to_be 4 7 r (omega arith))
      (elim (mapping_unreadable empty_mapping r refl) [ inl e ↦ inl (rw e) | inr e ↦ inr (rw e) ])
