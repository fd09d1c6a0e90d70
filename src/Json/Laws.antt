-- ===== src/Json/Laws.antt =====
-- Reading back what was marshalled.
use go_playit.Base.{List, [], ◌∷◌, ok, All, ◌≡◌, refl}
use go_playit.Json.{recode, recode_values, Json, Decoder, array, arr, read_array, read_values}

module _ {A : Type 0} where
  -- The decoder takes what is marshalled of a value for the value.
  abbrev pub ReadsBack : (A → Json) → Decoder A → A → Type 0
  ReadsBack write read a = read (write a) ≡ ok a

  read_values-array :
      (write : A → Json) (read : Decoder A) (as' : List A)
      → All (ReadsBack write read) as'
      → read_values read (array write as') ≡ ok as'
  unfolding read_values
  read_values-array write read [] h = refl
  read_values-array write read (a ∷ as') (h, hs) = rw (h, read_values-array write read as' hs) refl

  pub read_array-array :
      (write : A → Json) (read : Decoder A) (as' : List A)
      → All (ReadsBack write read) as'
      → read_array read (arr (array write as')) ≡ ok as'
  unfolding read_array
  read_array-array write read as' h = read_values-array write read as' h

-- Values that recoding leaves as they are.
pub recode_values-array :
    {A : Type 0} (write : A → Json) (as' : List A)
    → ((a : A) → recode (write a) ≡ write a)
    → recode_values (array write as') ≡ array write as'
unfolding recode_values
recode_values-array write [] h = refl
recode_values-array write (a ∷ as') h = rw (h a, recode_values-array write as' h) refl
