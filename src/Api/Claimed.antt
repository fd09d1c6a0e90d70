-- ===== src/Api/Claimed.antt =====
-- What the methods of api/claim.go leave in the client.
use Prim.Native.Char.{code}
use text.Mathlib.TextLemmas.{length-cons}
use Prim.Native.String.{String, count}
use go_playit.Json.{codes}
use text.Mathlib.TextEquality.{eq_iff}
use text.Mathlib.Text.{◌==◌ as str_eq}
use go_playit.Base.{
  Option-cases, Bool, Bool-cases, ◌&&◌, none, IsByte, length, All, arith, ◌==◌, ◌∙◌, ◌⊎◌, ◌≢◌, ◌≡◌,
  ◌<◌, ◌%◌, ◌/◌, ◌*◌, ◌+◌, inr, inl, ◌∷◌, [], ok, false, true, some, suc, zero, ℕ, List, Result,
  refl,
}
use mathlib.Core.Path.{subst}
use native.Mathlib.Nat.{add-zero, zero-add}
use go_playit.Lookup.{contains}
use go_playit.Register.{hex_digit, decode_string}
use go_playit.Api.{Api, Server}
use go_playit.Api.Claim.{
  claim_exchange, claim_setup, exchange_code, claim_agents, hex_char, encode_to_string,
  aiisgn_claim_code, wait_user, claim_agent_secret,
}

-- Whether a test holds of all numbers below one.
all_below : (ℕ → Bool) → ℕ → Bool
all_below p zero = true
all_below p (suc n) = p n && all_below p n

all_below_at : (p : ℕ → Bool) (n d : ℕ) → all_below p n ≡ true → d < n → p d ≡ true
unfolding all_below
all_below_at p zero d e h = absurd (omega arith)
all_below_at p (suc n) d e h = elim (Bool-cases (d == n)) [
  | inl same ↦ let d_n : d ≡ n = ground (arith, same) in rw d_n (ground (arith, e))
  | inr other ↦ all_below_at p n d (ground (arith, e)) (ground (arith, other, h))
]

decodes : ℕ → Bool
decodes d = elim (hex_digit (code (hex_char d))) [ none ↦ false | some v ↦ v == d ]

hex_digit-hex_char : (d : ℕ) → d < 16 → hex_digit (code (hex_char d)) ≡ some d
unfolding decodes
hex_digit-hex_char d h =
    let all : all_below decodes 16 ≡ true =
      unfold all_below in unfold hex_digit in unfold hex_char in refl in
    let at_d = all_below_at decodes 16 d all h in
    elim (Option-cases (hex_digit (code (hex_char d)))) [
      | inl e ↦ absurd (ground (arith, at_d, e))
      | inr (v, e) ↦ ground (arith, at_d, e)
    ]

pub decode_string-encode_to_string :
    (bs : List ℕ) → All IsByte bs → decode_string (codes (encode_to_string bs)) ≡ ok bs
unfolding decode_string encode_to_string
decode_string-encode_to_string [] h = refl
decode_string-encode_to_string (b ∷ bs) (h, hs) = ground (
  arith,
  hex_digit-hex_char (b / 16),
  hex_digit-hex_char (b % 16),
  decode_string-encode_to_string bs hs,
)

count-encode_to_string : (bs : List ℕ) → count (encode_to_string bs) ≡ 2 * length bs
unfolding encode_to_string
count-encode_to_string [] = refl
count-encode_to_string (b ∷ bs) = omega (
  arith,
  count-encode_to_string bs,
  length-cons (hex_char (b / 16)) (String.◌∷◌ (hex_char (b % 16)) (encode_to_string bs)),
  length-cons (hex_char (b % 16)) (encode_to_string bs),
)

-- A client without a code gets one of two characters for each random byte, which decodes to these
-- bytes; one that has a code keeps it.
pub claim_code-decode_string :
    (bytes : List ℕ) (w : Api)
    → All IsByte bytes
    → let w' = (aiisgn_claim_code (ok bytes) w).0 in
      ((w.code ≡ "")
        × (count w'.code ≡ 2 * length bytes)
        × (decode_string (codes w'.code) ≡ ok bytes))
      ⊎ ((w.code ≢ "") × (w' ≡ w))
unfolding aiisgn_claim_code
claim_code-decode_string bytes w h = elim (Bool-cases (str_eq w.code "")) [
  | inl e ↦ inl (
    (eq_iff w.code "").0 e,
    rw e (count-encode_to_string bytes),
    rw e (decode_string-encode_to_string bytes h),
  )
  | inr e ↦ inr (λ p. ground (arith, e, p, eq_iff w.code ""), rw e refl)
]

-- The answer leaves the user's decision open.
abbrev pub IsWaiting : Result String → Type 0
IsWaiting r = (s : String) × (r ≡ ok s) × (s ≢ "UserRejected") × (s ≢ "UserAccepted")

pub different : (s t : String) → s ≢ t → str_eq s t ≡ false
different s t h = ground (arith, eq_iff s t)

wait_user_waits :
    (answers : ℕ → Result String) (fuel i : ℕ)
    → IsWaiting (answers i)
    → wait_user answers (suc fuel) i ≡ wait_user answers fuel (i + 1)
unfolding wait_user
wait_user_waits answers fuel i (s, e, unrejected, unaccepted) =
    rw (wait_user, e, different s "UserRejected" unrejected, different s "UserAccepted" unaccepted)

wait_user_past :
    (answers : ℕ → Result String) (n fuel i : ℕ) (r : Result (Unit {0}))
    → ((j : ℕ) → j < n → IsWaiting (answers (i + j)))
    → ((fuel' : ℕ) → wait_user answers (suc fuel') (i + n) ≡ some r)
    → n < fuel
    → wait_user answers fuel i ≡ some r
wait_user_past answers n zero i r before at_n h = absurd (omega arith)
wait_user_past answers zero (suc fuel) i r before at_n h = rw add-zero at (at_n fuel)
wait_user_past answers (suc n) (suc fuel) i r before at_n h =
    wait_user_waits answers fuel i (rw add-zero at (before 0 (omega arith)))
    ∙ wait_user_past answers n fuel (i + 1) r
        (λ j l.
          subst (λ (m : ℕ). IsWaiting (answers m)) (omega arith) (before (suc j) (omega arith)))
        (λ f. subst (λ (m : ℕ). wait_user answers (suc f) m ≡ some r) (omega arith) (at_n f))
        (omega arith)

wait_user_accepted :
    (answers : ℕ → Result String) (n fuel : ℕ)
    → answers n ≡ ok "UserAccepted"
    → wait_user answers (suc fuel) n ≡ some (ok tt)
unfolding wait_user
wait_user_accepted answers n fuel e = rw (wait_user, e)

-- A client with a code and no secret, which asks for a known kind of agent, gets the secret that the
-- exchange answers as soon as the user accepts, however long the answers left it open before: it
-- takes one step more than these.
pub claim_agent_secret-accepted :
    (agent_type : String) (setups : ℕ → Server) (exchange : Server) (answer : String × String)
    (n fuel : ℕ) (w : Api)
    → w.code ≢ ""
    → w.secret ≡ ""
    → contains claim_agents agent_type ≡ true
    → ((j : ℕ) → j < n → IsWaiting (claim_setup w agent_type (setups j)))
    → claim_setup w agent_type (setups n) ≡ ok "UserAccepted"
    → claim_exchange w exchange ≡ ok answer
    → n < fuel
    → claim_agent_secret agent_type setups exchange fuel w
      ≡ some (record w { secret = answer.1 }, ok tt)
unfolding claim_agent_secret wait_user
claim_agent_secret-accepted agent_type setups exchange answer n fuel w c s a before accepted x h =
    let answers : ℕ → Result String = λ i. claim_setup w agent_type (setups i) in
    let waited =
      wait_user_past answers n fuel 0 (ok tt) (λ j l. rw zero-add (before j l))
        (λ f. wait_user_accepted answers (0 + n) f (rw zero-add accepted)) h in
    rw (different w.code "" c, s, a, waited, x, exchange_code) refl

-- Where claiming returns an error or panics, the client is as it was: it has no part of a secret.
pub claim_agent_secret-keeps :
    (agent_type : String) (setups : ℕ → Server) (exchange : Server) (fuel : ℕ) (w w' : Api)
    (r : Result (Unit {0}))
    → claim_agent_secret agent_type setups exchange fuel w ≡ some (w', r)
    → r ≢ ok tt
    → w' ≡ w
unfolding claim_agent_secret exchange_code
claim_agent_secret-keeps agent_type setups exchange fuel w w' r e n = ground (arith, e)
