-- ===== src/Tests/Api.antt =====
-- The client of the HTTP API on concrete values.
use go_playit.Api.Listing.{
  tunnel_body, write_ip, list_tunnels, read_tunnel_id, read_account_tunnels, read_account_tunnel,
  read_origin, read_alloc, read_ratelimit, read_allocted_ports,
}
use go_playit.Api.{
  errorf, format_texts, is_flag, recode_json, read_res_body, read_reply, request_to_api, Api,
  Server, Formats,
}
use go_playit.Base.{
  api_failed, err, api_text, true, arith, Result, length, ◌⊎◌, ◌≢◌, ◌≡◌, ◌<◌, ◌*◌, ◌∷◌, [], ok, suc,
  zero, refl, ℕ, List, none, some,
}
use Prim.Native.String.{String, count}
use go_playit.Tests.{server}
use go_playit.Api.Claim.{
  read_code, wait_user, aiisgn_claim_code, claim_agent_secret, claim_setup, claim_exchange,
}
use go_playit.Api.Agent.{agent_info, read_agent_run_data}
use go_playit.Api.Create.{
  create_request, first_status, origin_check, alloc_check, create_tunnel, checks, CreateServers,
  created,
}
use go_playit.Json.{
  member, obj, num, entry, no_members, last_value, recode, put, read_format, read_array,
  read_pointer, read_num, read_bool, read_values, read_any, read_text, read_members, Json, codes,
  str, object, arr, to_values, TextFormat,
}
use go_playit.Api.Requests.{IsPassed, calls-IsPassed, IsRefused, calls-IsRefused}
use go_playit.Api.Tunnels.{
  AlloctedPorts, assigned_default, use_region, Tunnel, TunnelCreateUseAllocation,
}
use go_playit.Api.Created.{
  create_tunnel-IsChecked, create_tunnel-allocated, IsChecked, IsAllocatedAs, listed_tunnels,
}
use go_playit.Api.Waiting.{IsPending, IsAllocated}
use go_playit.Register.{decode_string}
use go_playit.Api.Claimed.{claim_code-decode_string, claim_agent_secret-accepted, IsWaiting}
use go_playit.Lookup.{contains}

abbrev new_api : Api
new_api = record { code = ""; secret = "" }

abbrev coded_api : Api
coded_api = record { code = "0a"; secret = "" }

abbrev pub agent_api : Api
agent_api = record { code = ""; secret = "5e" }

-- Text forms for the values below.
abbrev of_text : TextFormat (List ℕ)
of_text = record { zero_value = []; print = λ v. "agent"; parse = λ s. some (codes s) }

abbrev pub formats : Formats
formats = record {
  uuid = of_text;
  ip = of_text;
  addr = record { zero_value = server.addr; print = λ a. "server"; parse = λ s. some server.addr };
  addr_port = record { zero_value = server; print = λ a. "server:5525"; parse = λ s. some server };
  time = record { zero_value = 0; print = λ t. "now"; parse = λ s. some 0 };
}

-- A server that answers every request with success.
abbrev pub answering : Json → Server
answering payload request = ok (record {
  status = 200;
  body = ok (object (("status", str "success") ∷ (("data", payload) ∷ [])));
})

claim_code-decode_string_example :
    let w' = (aiisgn_claim_code (ok (10 ∷ (255 ∷ []))) new_api).0 in
    ((new_api.code ≡ "")
      × (count w'.code ≡ 2 * length {A = ℕ} (10 ∷ (255 ∷ [])))
      × (decode_string (codes w'.code) ≡ ok (10 ∷ (255 ∷ []))))
    ⊎ ((new_api.code ≢ "") × (w' ≡ new_api))
claim_code-decode_string_example =
    claim_code-decode_string (10 ∷ (255 ∷ [])) new_api (omega arith, (omega arith, tt))

-- The user decides after one answer.
abbrev setups : ℕ → Server
setups zero = answering (str "WaitingForUser")
setups (suc n) = answering (str "UserAccepted")

abbrev secret_server : Server
secret_server = answering (object (("secret_key", str "5e") ∷ []))

undecided : (j : ℕ) → j < 1 → IsWaiting (claim_setup coded_api "default" (setups j))
unfolding claim_setup request_to_api read_reply read_res_body read_members member last_value recode
    put read_text read_any recode_json
undecided zero h = ("WaitingForUser", refl, λ e. cc, λ e. cc)
undecided (suc j) h = absurd (omega arith)

user_accepts : claim_setup coded_api "default" (setups 1) ≡ ok "UserAccepted"
unfolding claim_setup request_to_api read_reply read_res_body read_members member last_value recode
    put read_text read_any recode_json
user_accepts = refl

exchanges : claim_exchange coded_api secret_server ≡ ok ("", "5e")
unfolding claim_exchange request_to_api read_reply read_res_body read_members member last_value
    recode put read_text read_any recode_json read_code
exchanges = refl

coded : coded_api.code ≢ ""
coded e = cc

claim_agent_secret-accepted_example :
    claim_agent_secret "default" setups secret_server 2 coded_api
    ≡ some (record coded_api { secret = "5e" }, ok tt)
claim_agent_secret-accepted_example =
    claim_agent_secret-accepted "default" setups secret_server ("", "5e") 1 2 coded_api coded refl
      (unfold contains in refl) undecided user_accepts exchanges (omega arith)

abbrev refusing : Server
refusing request =
    ok (record { status = 404; body = ok (object (("data", str "CodeNotFound") ∷ [])) })

abbrev code_not_found : Result (Unit {0})
code_not_found = err (api_text "CodeNotFound")

refused :
    claim_agent_secret "default" setups refusing 2 coded_api ≡ some (coded_api, code_not_found)
unfolding claim_agent_secret wait_user contains claim_setup claim_exchange request_to_api read_reply
    read_res_body read_members member last_value recode put read_text read_any recode_json read_code
    errorf format_texts is_flag
refused = refl

not_claimed : code_not_found ≢ ok tt
not_claimed e = cc

abbrev allocation : TunnelCreateUseAllocation
allocation = record { status = ""; kind = ""; details = use_region (record { region = "europe" }) }

abbrev a_tunnel : Tunnel
a_tunnel = record {
  id = none;
  name = "";
  tunnel_type = "rust";
  port_type = "udp";
  port_count = 1;
  origin = record { kind = "default"; agent = assigned_default (record { ip = []; port = none }) };
  enabled = true;
  alloc = some allocation;
  firewall = none;
}

-- A list with one tunnel of a status.
abbrev listing : String → Server
listing status = answering (
    object (
      (
        "tunnels",
        arr (to_values (object (("alloc", object (("status", str status) ∷ [])) ∷ []) ∷ [])),
      )
      ∷ []))

-- The tunnel is pending in one list.
abbrev servers : CreateServers
servers = record {
  create = answering (object (("id", str "tunnel") ∷ []));
  info = answering (object (("agent_id", str "agent") ∷ []));
  lists = λ i. elim i [ zero ↦ listing "pending" | suc n ↦ listing "allocated" ];
}

abbrev ids : List ℕ × List ℕ
ids = (codes "tunnel", codes "agent")

passes_checks : (checks a_tunnel).1 ≡ ok tt
unfolding checks alloc_check origin_check contains
passes_checks = refl

gets_ids :
    created formats agent_api servers (record a_tunnel { alloc = (checks a_tunnel).0 }) ≡ ok ids
unfolding created create_request agent_info read_agent_run_data read_tunnel_id request_to_api
    read_reply read_res_body read_members member last_value recode put read_text read_any
    recode_json read_format read_array tunnel_body
gets_ids = refl

abbrev nothing_allotted : AlloctedPorts
nothing_allotted = record { allowed = 0; claimed = 0; desired = 0 }

IsPending-before : (j : ℕ) → j < 1 → IsPending (listed_tunnels formats agent_api servers ids j)
unfolding first_status list_tunnels request_to_api read_reply read_res_body read_members member
    last_value recode put read_text read_any recode_json read_format read_array read_account_tunnels
    read_account_tunnel read_pointer read_num read_bool read_values read_origin read_alloc
    read_ratelimit read_allocted_ports
IsPending-before zero h = (_, refl, refl)
IsPending-before (suc j) h = absurd (omega arith)

second-IsAllocated : IsAllocated (listed_tunnels formats agent_api servers ids 1)
unfolding first_status list_tunnels request_to_api read_reply read_res_body read_members member
    last_value recode put read_text read_any recode_json read_format read_array read_account_tunnels
    read_account_tunnel read_pointer read_num read_bool read_values read_origin read_alloc
    read_ratelimit read_allocted_ports
second-IsAllocated = (_, "allocated", refl, refl, λ e. cc)

create_tunnel-allocated_example :
    create_tunnel formats agent_api servers 2 a_tunnel ≡ some ((checks a_tunnel).0, ok tt)
create_tunnel-allocated_example =
    create_tunnel-allocated formats agent_api servers ids 1 2 a_tunnel passes_checks gets_ids
      IsPending-before second-IsAllocated (omega arith)

create_tunnel-IsChecked_example :
    IsChecked a_tunnel (checks a_tunnel).0
    × IsAllocatedAs formats agent_api servers (record a_tunnel { alloc = (checks a_tunnel).0 })
create_tunnel-IsChecked_example =
    create_tunnel-IsChecked formats agent_api servers 2 a_tunnel (checks a_tunnel).0
      create_tunnel-allocated_example

calls-IsPassed_example : IsPassed formats agent_api (answering (object []))
calls-IsPassed_example = calls-IsPassed formats agent_api (answering (object [])) (λ e. cc)

calls-IsRefused_example : IsRefused formats new_api (answering (object [])) "5e"
calls-IsRefused_example = calls-IsRefused formats new_api (answering (object [])) "5e" refl

-- The keys of a decoded map are in order, the last value of a key is kept, and a struct takes a key in
-- any case.
recodes :
    recode (obj (entry "id" (num 1) (entry "ID" (num 2) (entry "id" (num 3) no_members))))
    ≡ obj (entry "ID" (num 2) (entry "id" (num 3) no_members))
unfolding recode put
recodes = refl

takes_upper : member "status" (entry "Status" (str "ok") no_members) ≡ str "ok"
unfolding member last_value
takes_upper = refl

-- A percent sign in the server's text.
garbled : errorf "50% off, 100%" ≡ "50%!o(MISSING)ff, 100%!(NOVERB)"
unfolding errorf format_texts is_flag
garbled = refl

-- An address of three bytes is not marshalled.
wrong_ip : write_ip formats (1 ∷ (2 ∷ (3 ∷ []))) ≡ err api_failed
unfolding write_ip
wrong_ip = refl
