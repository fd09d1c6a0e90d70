-- ===== src/Api.antt =====
-- api/api.go and api/request.go: the client of the HTTP API, and the request that all its methods make.
-- The server, with the network before it, is a function from a request to what the client gets.
pub mod Claim
pub mod Claimed
pub mod Tunnels
pub mod Listing
pub mod Create
pub mod Waiting
pub mod Created
pub mod Agent
pub mod Requests
use Prim.Native.String.{String, ◌++◌ as append}
use text.Mathlib.Text.{◌==◌ as str_eq}
use Prim.Native.Char.{code}
use go_playit.Base.{
  ◌++◌, ◌∙◌, ◌↔◌, ◌⊎◌, ◌≢◌, ◌≡◌, ◌<◌, ◌≤◌, ◌^◌, ◌%◌, ◌/◌, ◌*◌, ◌-◌, ◌+◌, inr, inl, false, true, suc,
  zero, refl, Bool, ◌==◌, ◌||◌, ◌&&◌, ℕ, List, [], ◌∷◌, Option, none, some, Result, ok, err, panic,
  Error, bind, api_failed, api_text, api_typed, leb, if◌then◌else◌,
}
use go_playit.Netip.{Addr, AddrPort}
use go_playit.Json.{
  recode, Json, str, Decoder, TextFormat, ◌>>=◌, pure, read_members, read_field, read_text,
  read_any,
}

pub record Api : Type 0 where
  pub code : String
  pub secret : String

pub record HttpRequest : Type 0 where
  pub method : String
  pub url : String
  pub headers : List (String × String)
  pub body : Option Json

-- What the HTTP client gets: the status, and the JSON value of the body if it is read.
pub record Reply : Type 0 where
  pub status : ℕ
  pub body : Result Json

-- The text forms of the types of other packages: uuid.UUID and net.IP as their bytes, netip.Addr,
-- netip.AddrPort, and time.Time as its stamp.
pub record Formats : Type 0 where
  pub uuid : TextFormat (List ℕ)
  pub ip : TextFormat (List ℕ)
  pub addr : TextFormat Addr
  pub addr_port : TextFormat AddrPort
  pub time : TextFormat ℕ

abbrev pub Server : Type 0
Server = HttpRequest → Result Reply

abbrev pub go_playit_version : String
go_playit_version = "0.17.1"

abbrev pub playit_api : String
playit_api = "https://api.playit.gg"

-- Header.Set, on keys that are written the canonical way.
unfoldable pub set_header : String → String → List (String × String) → List (String × String)
set_header key value [] = (key, value) ∷ []
set_header key value ((k, v) ∷ headers) =
    if str_eq k key then (key, value) ∷ headers else (k, v) ∷ set_header key value headers

unfoldable pub set_headers : List (String × String) → List (String × String)
unfolding set_header
set_headers [] = []
set_headers ((k, v) ∷ headers) = set_header k v (set_headers headers)

-- The request of requestToApi; http.NewRequest takes each path of the source.
unfoldable pub api_request : Api → String → Option Json → List (String × String) → HttpRequest
unfolding set_headers
api_request w path body headers = record {
  method = "POST";
  url = append playit_api path;
  headers =
      if str_eq w.secret ""
      then set_headers headers
      else set_header "Authorization" (append "Agent-Key " w.secret) (set_headers headers);
  body = body;
}

-- recodeJson of a decoded value into a variable that has its zero value.
unfoldable pub recode_json : {A : Type 0} → Json → Decoder A → Result A
recode_json from read = read (recode from)

-- ResBody: the status, which is not looked at, and the data.
unfoldable pub read_res_body : Decoder (String × Json)
unfolding read_members
read_res_body v = do
  ps ← read_members v
  status ← read_field read_text "status" ps
  payload ← read_field read_any "data" ps
  pure (status, payload)

-- errStatus.
unfoldable pub read_err_status : Decoder (String × String)
unfolding read_members
read_err_status v = do
  ps ← read_members v
  kind ← read_field read_text "type" ps
  message ← read_field read_text "message" ps
  pure (kind, message)

-- `ResBody.Data.(string)`
unfoldable pub as_string : Json → Option String
as_string (str s) = some s
as_string _ = none

-- Flags, widths and precisions of a verb.
unfoldable pub is_flag : ℕ → Bool
is_flag n =
    n == b'#' || n == b'+' || n == b'-' || n == b' ' || n == b'.' || leb b'0' n && leb n b'9'

-- The text of fmt.Errorf for a format without arguments, read as plain text and as what stands behind a
-- percent sign. Argument indices, a star for a precision, and marks out of their order are left out.
unfoldable pub format_texts : String → String × String
unfolding is_flag
format_texts String.[] = ("", "%!(NOVERB)")
format_texts (String.◌∷◌ c s) =
    let (plain, behind) = format_texts s in
    let n = code c in
    (
      if n == b'%' then behind else String.◌∷◌ c plain,
      if n == b'%'
          then String.◌∷◌ c plain
          else if n == b'*'
          then append "%!(BADWIDTH)" behind
          else if is_flag n
          then behind
          else append "%!" (String.◌∷◌ c (append "(MISSING)" plain)),
    )

unfoldable pub errorf : String → String
unfolding format_texts
errorf s = (format_texts s).0

-- The error for a status of 300 and more: a text, or a type with or without a message.
unfoldable pub status_error : Json → Error
unfolding as_string recode_json errorf
status_error payload = elim (as_string payload) [
  | some s ↦ api_text (errorf s)
  | none ↦ elim (recode_json payload read_err_status) [
    | err e ↦ e
    | panic ↦ api_failed
    | ok (kind, message) ↦ if str_eq message "" then api_text kind else api_typed kind message
  ]
]

-- What requestToApi makes of an answer.
unfoldable pub read_reply : {A : Type 0} → Reply → Decoder A → Result A
unfolding status_error recode_json
read_reply res read = bind res.body λ v. bind (read_res_body v) λ (_status, payload).
    if leb 300 res.status then err (status_error payload) else recode_json payload read

unfoldable pub request_to_api :
    {A : Type 0}
    → Api
    → Server
    → String
    → Option Json
    → List (String × String)
    → Decoder A
    → Result A
unfolding api_request read_reply
request_to_api w server path body headers read =
    bind (server (api_request w path body headers)) λ res. read_reply res read

-- A nil Response: nothing is decoded.
unfoldable pub ignore_data : Decoder (Unit {0})
ignore_data payload = ok tt
