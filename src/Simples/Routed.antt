-- ===== src/Simples/Routed.antt =====
-- From the server's answer to the addresses of the control servers: AgentRoutings of api/others.go
-- under ControlAddresses of tunnel/simples_tunnel.go.
use go_playit.Base.{ℕ, [], ◌∷◌, ◌++◌, none, some, ok, arith, ◌≡◌, ◌<◌, refl, All}
use go_playit.Json.{
  Json, Decoder, str, arr, object, array, write_format, read_format, read_members, member,
  last_value, recode, put, read_text, read_any,
}
use go_playit.Json.Laws.{recode_values-array, ReadsBack, read_array-array}
use go_playit.Api.{
  Api, Server, Formats, api_request, request_to_api, read_reply, read_res_body, recode_json,
}
use go_playit.Api.Agent.{AgentRouting, agent_routings, read_agent_routing, routing_body}
use go_playit.Simples.{control_addresses, control_port}
use mathlib.Core.List.{map}

-- A body with the status "success" and its data.
abbrev pub success : Json → Json
success payload = object (("status", str "success") ∷ (("data", payload) ∷ []))

pub read_reply-success :
    {A : Type 0} (status : ℕ) (payload : Json) (read : Decoder A)
    → status < 300
    → read_reply (record { status = status; body = ok (success payload) }) read
      ≡ read (recode payload)
unfolding read_reply read_res_body read_members member last_value read_text read_any recode_json
read_reply-success status payload read h = ground (arith, h)

module _ (formats : Formats) where
  -- What the server answers on its routing.
  abbrev pub routing_answer : AgentRouting → Json
  routing_answer r = object (
      ("agent_id", write_format formats.uuid r.agent)
      ∷ (("targets4", arr (array (write_format formats.addr) r.targets4))
          ∷ (("targets6", arr (array (write_format formats.addr) r.targets6)) ∷ [])))

  -- The identifier and the addresses have text forms that are read back.
  pub record IsReadable (r : AgentRouting) : Type 0 where
    pub agent : ReadsBack (write_format formats.uuid) (read_format formats.uuid) r.agent
    pub targets4 : All (ReadsBack (write_format formats.addr) (read_format formats.addr)) r.targets4
    pub targets6 : All (ReadsBack (write_format formats.addr) (read_format formats.addr)) r.targets6

  recode-routing_answer : (r : AgentRouting) → recode (routing_answer r) ≡ routing_answer r
  unfolding recode put write_format
  recode-routing_answer r =
      let write = write_format formats.addr in
      rw
        (
          recode_values-array write r.targets4 (λ a. refl),
          recode_values-array write r.targets6 (λ a. refl),
        )
        refl

  read_agent_routing-routing_answer :
      (r : AgentRouting) → IsReadable r → read_agent_routing formats (routing_answer r) ≡ ok r
  unfolding read_agent_routing read_members member last_value
  read_agent_routing-routing_answer r h =
      let write = write_format formats.addr in
      let read = read_format formats.addr in
      rw
        (
          h.agent,
          read_array-array write read r.targets4 h.targets4,
          read_array-array write read r.targets6 h.targets6,
        )
        refl

  -- A server that answers the request for the agent's routing with success gives ControlAddresses the
  -- addresses that it lists: those of IPv6 first, then those of IPv4, all with the control port.
  pub control_addresses-routing_answer :
      (w : Api) (server : Server) (r : AgentRouting) (status : ℕ)
      → IsReadable r
      → status < 300
      → server (api_request w "/agents/routing/get" (some (routing_body formats none)) [])
        ≡ ok (record { status = status; body = ok (success (routing_answer r)) })
      → control_addresses (agent_routings formats w server none)
        ≡ ok (map (λ v. record { addr = v; port = control_port }) (r.targets6 ++ r.targets4))
  unfolding control_addresses agent_routings request_to_api
  control_addresses-routing_answer w server r status h s answered =
      rw
        (
          answered,
          read_reply-success status (routing_answer r) (read_agent_routing formats) s,
          recode-routing_answer r,
          read_agent_routing-routing_answer r h,
        )
        refl
