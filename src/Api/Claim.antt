-- ===== src/Api/Claim.antt =====
-- api/claim.go: the claim code, and claiming the agent's secret with it.
use Prim.Native.Char.{Char}
use Prim.Native.String.{String, char_at, ◌++◌ as append}
use text.Mathlib.Text.{◌==◌ as str_eq}
use go_playit.Base.{
  invalid_agent_type, secret_present, not, claim_code_missing, claim_rejected, if◌then◌else◌, ◌%◌,
  ◌/◌, ◌+◌, ◌∷◌, [], panic, err, ok, some, none, suc, zero, ℕ, List, Result, Option,
}
use go_playit.Lookup.{contains}
use go_playit.Json.{
  Json, str, Decoder, object, omit_empty, nonempty_text, ◌>>=◌, pure, read_members, read_field,
  read_text,
}
use go_playit.Api.{Api, Server, go_playit_version, request_to_api}

abbrev pub claim_agents : List String
claim_agents = "default" ∷ "assignable" ∷ "self-managed" ∷ []

-- hex.EncodeToString.
unfoldable pub hex_char : ℕ → Char
hex_char d = char_at "0123456789abcdef" d

unfoldable pub encode_to_string : List ℕ → String
encode_to_string [] = ""
encode_to_string (b ∷ bs) =
    String.◌∷◌ (hex_char (b / 16)) (String.◌∷◌ (hex_char (b % 16)) (encode_to_string bs))

-- AiisgnClaimCode, with what rand.Read gave for the five bytes.
unfoldable pub aiisgn_claim_code : Result (List ℕ) → Api → Api × Result (Unit {0})
aiisgn_claim_code random w = if not (str_eq w.code "") then (w, ok tt) else elim random [
  | err e ↦ (w, err e)
  | panic ↦ (w, panic)
  | ok bytes ↦ (record w { code = encode_to_string bytes }, ok tt)
]

-- The body of the requests for /claim/setup.
unfoldable pub claim_body : Api → String → Json
claim_body w agent = object (
    ("code", str w.code)
    ∷ (("agent_type", str agent) ∷ (("version", str (append "go-playit " go_playit_version)) ∷ [])))

-- One of the requests that ask for the user's decision.
unfoldable pub claim_setup : Api → String → Server → Result String
claim_setup w agent server =
    request_to_api w server "/claim/setup" (some (claim_body w agent)) [] read_text

-- The type Code: the claim code on the way out, the secret on the way back.
unfoldable pub code_body : String → String → Json
code_body code secret = object (
    omit_empty str "code" (nonempty_text code)
      (omit_empty str "secret_key" (nonempty_text secret) []))

unfoldable pub read_code : Decoder (String × String)
unfolding read_members
read_code v = do
  ps ← read_members v
  code ← read_field read_text "code" ps
  secret ← read_field read_text "secret_key" ps
  pure (code, secret)

unfoldable pub claim_exchange : Api → Server → Result (String × String)
claim_exchange w server =
    request_to_api w server "/claim/exchange" (some (code_body w.code "")) [] read_code

-- The loop that asks until the user has decided; `i` answers were read before. It does not end by
-- itself: `none` is for fuel that was not enough.
unfoldable pub wait_user : (ℕ → Result String) → ℕ → ℕ → Option (Result (Unit {0}))
wait_user answers zero i = none
wait_user answers (suc fuel) i =
    let rest = wait_user answers fuel (i + 1) in
    elim (answers i) [
      | err e ↦ some (err e)
      | panic ↦ some panic
      | ok s ↦
          if str_eq s "UserRejected"
          then some (err claim_rejected)
          else if str_eq s "UserAccepted"
          then some (ok tt)
          else rest
    ]

-- What follows the loop: the exchange of the code for the secret.
unfoldable pub exchange_code : Result (String × String) → Api → Api × Result (Unit {0})
exchange_code exchanged w = elim exchanged [
  | err e ↦ (w, err e)
  | panic ↦ (w, panic)
  | ok code ↦ (record w { secret = code.1 }, ok tt)
]

-- ClaimAgentSecret. The requests for /claim/setup go to one server after the other, that for
-- /claim/exchange to a server of its own.
unfoldable pub claim_agent_secret :
    String → (ℕ → Server) → Server → ℕ → Api → Option (Api × Result (Unit {0}))
unfolding exchange_code
claim_agent_secret agent_type setups exchange fuel w =
    if str_eq w.code ""
    then some (w, err claim_code_missing)
    else if not (str_eq w.secret "")
    then some (w, err secret_present)
    else if not (contains claim_agents agent_type)
    then some (w, err invalid_agent_type)
    else elim (wait_user (λ i. claim_setup w agent_type (setups i)) fuel 0) [
      | none ↦ none
      | some r ↦ elim r [
        | err e ↦ some (w, err e)
        | panic ↦ some (w, panic)
        | ok _ ↦ some (exchange_code (claim_exchange w exchange) w)
      ]
    ]
