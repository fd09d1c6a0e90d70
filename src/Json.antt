-- ===== src/Json.antt =====
-- encoding/json of Go's standard library, as far as the source uses it. Numbers are natural; those that
-- a float64 does not hold exactly are left out, since recodeJson goes through `any`.
pub mod Laws
use Prim.Native.Char.{code}
use Prim.Native.String.{String}
use text.Mathlib.Text.{◌==◌ as str_eq}
use go_playit.Base.{
  leb, ◌==◌, ◌||◌, ◌&&◌, ◌++◌, ◌∙◌, ◌↔◌, ◌⊎◌, ◌≢◌, ◌≡◌, ◌<◌, ◌≤◌, ◌%◌, ◌/◌, ◌*◌, ◌-◌, ◌+◌, inr, inl,
  panic, suc, zero, refl, ℕ, Bool, true, false, List, [], ◌∷◌, Option, none, some, Result, ok, err,
  bind, api_failed, ltb, ◌^◌, if◌then◌else◌,
}

-- The codes of a text's characters.
abbrev pub codes : String → List ℕ
codes String.[] = []
codes (String.◌∷◌ c s) = code c ∷ codes s

mutual
  pub data Values : Type 0 where
    no_values : Values
    value : Json → Values → Values

  pub data Members : Type 0 where
    no_members : Members
    entry : String → Json → Members → Members

  -- A JSON value.
  pub data Json : Type 0 where
    obj : Members → Json
    arr : Values → Json
    str : String → Json
    num : ℕ → Json
    bool : Bool → Json
    null : Json

abbrev pub to_values : List Json → Values
to_values [] = no_values
to_values (v ∷ vs) = value v (to_values vs)

abbrev pub to_members : List (String × Json) → Members
to_members [] = no_members
to_members ((k, v) ∷ ps) = entry k v (to_members ps)

-- Marshal of a struct, from its tags in order.
abbrev pub object : List (String × Json) → Json
object fields = obj (to_members fields)

-- `omitempty`: the field in front of the others, unless it is empty.
abbrev pub omit_empty {ℓ} :
    {A : Type ℓ} → (A → Json) → String → Option A → List (String × Json) → List (String × Json)
omit_empty to key none fields = fields
omit_empty to key (some a) fields = (key, to a) ∷ fields

-- A text is empty where it is "".
abbrev pub nonempty_text : String → Option String
nonempty_text s = if str_eq s "" then none else some s

-- Marshal of a pointer.
abbrev pub pointer {ℓ} : {A : Type ℓ} → (A → Json) → Option A → Json
pointer to none = null
pointer to (some a) = to a

abbrev pub array {ℓ} : {A : Type ℓ} → (A → Json) → List A → Values
array to [] = no_values
array to (a ∷ as') = value (to a) (array to as')

-- Unmarshal into a variable that has its zero value, which null leaves as it is.
abbrev pub Decoder {ℓ} : Type ℓ → Type ℓ
Decoder A = Json → Result A

infixl 5 ◌>>=◌
abbrev pub ◌>>=◌ {ℓ κ} : {A : Type ℓ} {B : Type κ} → Result A → (A → Result B) → Result B
◌>>=◌ = bind

abbrev pub pure {ℓ} : {A : Type ℓ} → A → Result A
pure = ok

unfoldable pub read_text : Decoder String
read_text null = ok ""
read_text (str s) = ok s
read_text _ = err api_failed

unfoldable pub read_bool : Decoder Bool
read_bool null = ok false
read_bool (bool b) = ok b
read_bool _ = err api_failed

-- Unsigned integers of w bits.
unfoldable pub read_num : ℕ → Decoder ℕ
read_num w null = ok 0
read_num w (num n) = if ltb n (2 ^ w) then ok n else err api_failed
read_num w _ = err api_failed

unfoldable pub read_pointer {ℓ} : {A : Type ℓ} → Decoder A → Decoder (Option A)
read_pointer read null = ok none
read_pointer read v = bind (read v) λ a. ok (some a)

-- Any value; a nil interface is the null.
unfoldable pub read_any : Decoder Json
read_any v = ok v

unfoldable pub read_values {ℓ} : {A : Type ℓ} → Decoder A → Values → Result (List A)
read_values read no_values = ok []
read_values read (value v vs) = do a ← read v; rest ← read_values read vs; pure (a ∷ rest)

unfoldable pub read_array {ℓ} : {A : Type ℓ} → Decoder A → Decoder (List A)
read_array read null = ok []
read_array read (arr vs) = read_values read vs
read_array read _ = err api_failed

-- The code of a letter in lower case, with the two other characters that fold to an ASCII letter.
abbrev pub fold_code : ℕ → ℕ
fold_code c =
    if leb 65 c && leb c 90 then c + 32 else if c == 8490 then 107 else if c == 383 then 115 else c

abbrev pub same_folded : String → String → Bool
same_folded String.[] String.[] = true
same_folded (String.◌∷◌ c s) (String.◌∷◌ d t) = fold_code (code c) == code d && same_folded s t
same_folded _ _ = false

-- The last value that is given for a tag, in whatever case its key is written. The tags of the source are
-- in lower case.
unfoldable pub last_value : String → Members → Option Json
last_value key no_members = none
last_value key (entry k v ps) =
    let behind = last_value key ps in
    elim behind [ some w ↦ some w | none ↦ if same_folded k key then some v else none ]

-- The value of a tag. Where an object has its key in several cases, only the last is decoded: that Go
-- decodes the others first, into the same variable, is left out.
unfoldable pub member : String → Members → Json
unfolding last_value
member key ps = elim (last_value key ps) [ none ↦ null | some v ↦ v ]

-- The order of texts by their codes, which is that of their bytes in UTF-8.
abbrev pub comes_before : String → String → Bool
comes_before String.[] String.[] = false
comes_before String.[] (String.◌∷◌ d t) = true
comes_before (String.◌∷◌ c s) String.[] = false
comes_before (String.◌∷◌ c s) (String.◌∷◌ d t) =
    ltb (code c) (code d) || (code c == code d && comes_before s t)

-- A key and its value in a map whose keys are sorted; an earlier value of the key is replaced.
unfoldable pub put : String → Json → Members → Members
put key v no_members = entry key v no_members
put key v (entry k w ps) =
    let behind = put key v ps in
    if str_eq key k
    then entry key v ps
    else if comes_before key k
    then entry key v (entry k w ps)
    else entry k w behind

-- What `any` makes of a value, as it is marshalled again: an object is a map, with one value for each key,
-- the last, and with its keys in order.
unfoldable mutual
  pub recode : Json → Json
  recode (obj ps) = obj (recode_members ps no_members)
  recode (arr vs) = arr (recode_values vs)
  recode (str s) = str s
  recode (num n) = num n
  recode (bool b) = bool b
  recode null = null

  pub recode_values : Values → Values
  recode_values no_values = no_values
  recode_values (value v vs) = value (recode v) (recode_values vs)

  pub recode_members : Members → Members → Members
  recode_members no_members acc = acc
  recode_members (entry k v ps) acc = recode_members ps (put k (recode v) acc)

-- The fields of a struct; those that the object lacks keep their zero value, as with null.
unfoldable pub read_members : Decoder Members
read_members null = ok no_members
read_members (obj ps) = ok ps
read_members _ = err api_failed

abbrev pub read_field {ℓ} : {A : Type ℓ} → Decoder A → String → Members → Result A
read_field read key ps = read (member key ps)

-- A type with MarshalText and UnmarshalText, and its zero value.
pub record TextFormat (A : Type 0) : Type 0 where
  pub zero_value : A
  pub print : A → String
  pub parse : String → Option A

unfoldable pub write_format : {A : Type 0} → TextFormat A → A → Json
write_format format a = str (format.print a)

unfoldable pub read_format : {A : Type 0} → TextFormat A → Decoder A
read_format format null = ok format.zero_value
read_format format (str s) = elim (format.parse s) [ none ↦ err api_failed | some a ↦ ok a ]
read_format format _ = err api_failed
