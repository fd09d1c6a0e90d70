-- ===== src/Api/Requests.antt =====
-- The requests of api/: whose they are, and what an answer with an error status makes of them.
use Prim.Native.String.{String, ◌++◌ as append}
use text.Mathlib.Text.{◌==◌ as str_eq}
use text.Mathlib.TextPositions.{eq_refl}
use go_playit.Base.{
  Result-cases, inl, inr, inr, inl, ◌↔◌, ℕ, List, [], ◌∷◌, Option, none, some, Bool, true, false,
  ok, err, ◌≡◌, ◌≢◌, refl, if◌then◌else◌, api_text,
}
use go_playit.Api.Create.{create_request}
use go_playit.Api.Tunnels.{Tunnel}
use go_playit.Api.{ignore_data}
use go_playit.Api.Listing.{tunnel_body, delete_body, delete_tunnel, list_tunnels}
use go_playit.Api.Agent.{agent_info, agent_routings, proto_register_register}
use go_playit.Json.{last_value, read_text, member, read_any, Json, Decoder, str, object}
use go_playit.Api.{
  status_error, format_texts, ignore_data, AddrPort, read_any, read_text, read_res_body, Api,
  HttpRequest, Server, Formats, api_request, request_to_api,
}
use go_playit.Api.Claimed.{different}
use go_playit.Api.Agent.{proto_register_register, agent_routings, agent_info}

abbrev header : String → List (String × String) → Option String
header key [] = none
header key ((k, v) ∷ headers) = if str_eq k key then some v else header key headers

-- The request shows the secret of an agent.
abbrev is_authorized : String → HttpRequest → Bool
is_authorized secret request = elim (header "Authorization" request.headers) [
  | none ↦ false
  | some v ↦ str_eq v (append "Agent-Key " secret)
]

-- A server that refuses all requests that do not show the secret.
abbrev pub guarded : String → Server → Server
guarded secret server request =
    if is_authorized secret request
    then server request
    else ok (record { status = 401; body = ok (object (("data", str "unauthorized") ∷ [])) })

request_authorized :
    (w : Api) (path : String) (body : Option Json)
    → w.secret ≢ ""
    → is_authorized w.secret (api_request w path body []) ≡ true
unfolding api_request
request_authorized w path body h =
    rw (different w.secret "" h) (eq_refl (append "Agent-Key " w.secret))

request_to_api_passes :
    {A : Type 0} (w : Api) (server : Server) (path : String) (body : Option Json) (read : Decoder A)
    → w.secret ≢ ""
    → request_to_api w (guarded w.secret server) path body [] read
      ≡ request_to_api w server path body [] read
unfolding request_to_api
request_to_api_passes w server path body read h = rw (request_authorized w path body h) refl

request_to_api_stopped :
    {A : Type 0} (w : Api) (secret : String) (server : Server) (path : String) (body : Option Json)
    (read : Decoder A)
    → w.secret ≡ ""
    → request_to_api w (guarded secret server) path body [] read ≡ err (api_text "unauthorized")
unfolding request_to_api api_request read_res_body read_text member last_value read_any status_error
    format_texts
request_to_api_stopped w secret server path body read h = rw h refl

module _ (formats : Formats) (w : Api) (server : Server) where
  delete_passes :
      w.secret ≢ ""
      → (id : Option (List ℕ))
      → delete_tunnel formats w (guarded w.secret server) id ≡ delete_tunnel formats w server id
  unfolding delete_tunnel
  delete_passes h none = refl
  delete_passes h (some t) = request_to_api_passes w server _ _ _ h

  create_passes :
      w.secret ≢ ""
      → (tun : Tunnel)
      → create_request formats w
          (record { create = guarded w.secret server; info = server; lists = λ i. server })
          tun
        ≡ create_request formats w
            (record { create = server; info = server; lists = λ i. server })
            tun
  unfolding create_request
  create_passes h tun = elim (Result-cases (tunnel_body formats tun)) [
    | inl (body, e) ↦ rw e (request_to_api_passes w server _ _ _ h)
    | inr (inl (x, e)) ↦ rw e refl
    | inr (inr e) ↦ rw e refl
  ]

  delete_stopped :
      (secret : String)
      → w.secret ≡ ""
      → (id : Option (List ℕ))
      → (id ≡ none) ↔ (delete_tunnel formats w (guarded secret server) id ≡ ok tt)
  unfolding delete_tunnel
  delete_stopped secret h none = (λ e. refl, λ e. refl)
  delete_stopped secret h (some t) =
      let stopped =
        request_to_api_stopped w secret server "/tunnels/delete" (some (delete_body formats t))
          ignore_data h in
      (λ e. absurd (cc), λ e. absurd (cc (e, stopped)))

  -- What the methods get is the same behind the refusals.
  pub record IsPassed : Type 0 where
    pub info : agent_info formats w (guarded w.secret server) ≡ agent_info formats w server
    pub routings :
        (id : Option (List ℕ))
        → agent_routings formats w (guarded w.secret server) id ≡ agent_routings formats w server id
    pub registers :
        (client tunnel : AddrPort)
        → proto_register_register formats w (guarded w.secret server) client tunnel
          ≡ proto_register_register formats w server client tunnel
    pub deletes :
        (id : Option (List ℕ))
        → delete_tunnel formats w (guarded w.secret server) id ≡ delete_tunnel formats w server id
    pub lists :
        (tunnel agent : Option (List ℕ))
        → list_tunnels formats w (guarded w.secret server) tunnel agent
          ≡ list_tunnels formats w server tunnel agent
    pub creates :
        (tun : Tunnel)
        → create_request formats w
            (record { create = guarded w.secret server; info = server; lists = λ i. server })
            tun
          ≡ create_request formats w
              (record { create = server; info = server; lists = λ i. server })
              tun

  -- Each method returns the server's refusal; a deletion succeeds where there is nothing to delete.
  pub record IsRefused (secret : String) : Type 0 where
    pub info : agent_info formats w (guarded secret server) ≡ err (api_text "unauthorized")
    pub routings :
        (id : Option (List ℕ))
        → agent_routings formats w (guarded secret server) id ≡ err (api_text "unauthorized")
    pub registers :
        (client tunnel : AddrPort)
        → proto_register_register formats w (guarded secret server) client tunnel
          ≡ err (api_text "unauthorized")
    pub deletes :
        (id : Option (List ℕ))
        → (id ≡ none) ↔ (delete_tunnel formats w (guarded secret server) id ≡ ok tt)
    pub lists :
        (tunnel agent : Option (List ℕ))
        → list_tunnels formats w (guarded secret server) tunnel agent
          ≡ err (api_text "unauthorized")

  -- A client with a secret gets from a server that refuses every request that does not show this secret
  -- what it gets from the same server without the refusals: AgentInfo, AgentRoutings,
  -- ProtoRegisterRegister, DeleteTunnel, ListTunnels and the request of CreateTunnel show the secret.
  pub calls-IsPassed : w.secret ≢ "" → IsPassed
  unfolding agent_info agent_routings proto_register_register list_tunnels
  calls-IsPassed h = record {
    info = request_to_api_passes w server _ _ _ h;
    routings = λ id. request_to_api_passes w server _ _ _ h;
    registers = λ client tunnel. request_to_api_passes w server _ _ _ h;
    deletes = delete_passes h;
    lists = λ tunnel agent. request_to_api_passes w server _ _ _ h;
    creates = create_passes h;
  }

  -- A client without a secret is refused by a server that wants one: AgentInfo, AgentRoutings,
  -- ProtoRegisterRegister and ListTunnels return the server's text as the error, and DeleteTunnel
  -- succeeds only for a nil pointer, for which it asks nothing.
  pub calls-IsRefused : (secret : String) → w.secret ≡ "" → IsRefused secret
  unfolding agent_info agent_routings proto_register_register list_tunnels
  calls-IsRefused secret h = record {
    info = request_to_api_stopped w secret server _ _ _ h;
    routings = λ id. request_to_api_stopped w secret server _ _ _ h;
    registers = λ client tunnel. request_to_api_stopped w secret server _ _ _ h;
    deletes = delete_stopped secret h;
    lists = λ tunnel agent. request_to_api_stopped w secret server _ _ _ h;
  }
