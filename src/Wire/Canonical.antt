-- ===== src/Wire/Canonical.antt =====
-- The other direction over the byte stream: what a reader takes is what the writer appends of its value.
use go_playit.Base.{
  append_assoc, take-append-drop, All-take, length-take, drop, sym, take, bind, All-drop, bind_ok,
  ltb, Result, Bool-cases, ◌++◌, ◌∙◌, ◌⊎◌, ◌≢◌, ◌≤◌, inr, inl, ok, ℕ, zero, suc, ◌+◌, ◌*◌, ◌/◌, ◌%◌,
  ◌^◌, ◌<◌, ◌≡◌, refl, ap, arith, List, [], ◌∷◌, length, All, IsByte,
}
use go_playit.Wire.{
  from_be, max_alloc, binary_read, read_buff, ◌>>=◌, read_token, read_values, written, read_uint,
  Written, Get, to_be, from_be_acc,
}
use go_playit.Wire.Buffer.{binary_read_byte}
use native.Mathlib.Nat.{mul-add-div_right, div-eq_of_lt, one-le-pow, pow-suc, mul-le-mul_right}

from_be_acc-eq :
    (acc : ℕ) (bs : List ℕ) → from_be_acc acc bs ≡ acc * 256 ^ length bs + from_be_acc 0 bs
unfolding from_be_acc
from_be_acc-eq acc [] = omega arith
from_be_acc-eq acc (b ∷ bs) =
    let top : from_be_acc acc (b ∷ bs) ≡ from_be_acc (acc * 256 + b) bs = refl in
    let low : from_be_acc 0 (b ∷ bs) ≡ from_be_acc (0 * 256 + b) bs = refl in
    omega (
      arith,
      top,
      low,
      from_be_acc-eq (acc * 256 + b) bs,
      from_be_acc-eq (0 * 256 + b) bs,
      pow-suc 256 (length bs),
      ap (λ (t : ℕ). acc * t) (pow-suc 256 (length bs)),
    )

-- The top digit of a byte sequence.
from_be_acc-cons :
    (b : ℕ) (bs : List ℕ) → from_be_acc 0 (b ∷ bs) ≡ b * 256 ^ length bs + from_be_acc 0 bs
unfolding from_be_acc
from_be_acc-cons b bs = omega (arith, from_be_acc-eq (0 * 256 + b) bs)

from_be_acc-lt : (bs : List ℕ) → All IsByte bs → from_be_acc 0 bs < 256 ^ length bs
unfolding from_be_acc
from_be_acc-lt [] h = omega arith
from_be_acc-lt (b ∷ bs) (h, hs) = omega (
  arith,
  from_be_acc-lt bs hs,
  from_be_acc-cons b bs,
  pow-suc 256 (length bs),
  mul-le-mul_right {m = b} {n = 255} (256 ^ length bs) (omega arith),
)

-- The digits above the width do not count.
to_be-add : (n c v : ℕ) → to_be n (c * 256 ^ n + v) ≡ to_be n v
unfolding to_be
to_be-add zero c v = refl
to_be-add (suc n) c v =
    let p : ℕ = 256 ^ n in
    let shifted : c * 256 ^ suc n + v ≡ c * 256 * p + v =
      omega (arith, ap (λ (t : ℕ). c * t) (pow-suc 256 n)) in
    let digit : (c * 256 * p + v) / p ≡ c * 256 + v / p =
      mul-add-div_right {m = p} (one-le-pow n 256 (omega arith)) (c * 256) v in
    rw (shifted, to_be-add n (c * 256) v, digit) (ap (λ (d : ℕ). d ∷ to_be n v) (omega arith))

to_be-from_be_acc : (bs : List ℕ) → All IsByte bs → to_be (length bs) (from_be_acc 0 bs) ≡ bs
unfolding to_be from_be_acc
to_be-from_be_acc [] h = refl
to_be-from_be_acc (b ∷ bs) (h, hs) =
    let p : ℕ = 256 ^ length bs in
    let low = from_be_acc-lt bs hs in
    let digit : (b * p + from_be_acc 0 bs) / p ≡ b + from_be_acc 0 bs / p =
      mul-add-div_right {m = p} (one-le-pow (length bs) 256 (omega arith)) b (from_be_acc 0 bs) in
    let top : (b * p + from_be_acc 0 bs) / p % 256 ≡ b = omega (arith, digit, div-eq_of_lt low) in
    rw (from_be_acc-cons b bs)
      (rw (top, to_be-add (length bs) b (from_be_acc 0 bs), to_be-from_be_acc bs hs) refl)

pub get_ok :
    {A B : Type 0} (m : Get A) (f : A → Get B) (r : List ℕ) (y : B) (rest : List ℕ)
    → (m >>= f) r ≡ ok (y, rest)
    → (x : A) × (r' : List ℕ) × (m r ≡ ok (x, r')) × (f x r' ≡ ok (y, rest))
get_ok {A = A} {B = B} m f r y rest h =
    let after : A × List ℕ → Result (B × List ℕ) = λ p. f p.0 p.1 in
    let (p, e, e') = bind_ok (m r) after h in (p.0, p.1, e, e')

-- What the reader takes from bytes that go on behind it is what the writer appends of the value.
pub record IsCanonical {T : Type 0} (write : T → Written) (read : Get T) : Type 0 where
  pub keeps : (r rest : List ℕ) (x : T) → read r ≡ ok (x, rest) → All IsByte r → All IsByte rest
  pub takes :
      (r rest : List ℕ) (x : T)
      → read r ≡ ok (x, rest)
      → All IsByte r
      → rest ≢ []
      → (bytes : List ℕ) × (write x ≡ written bytes) × (r ≡ bytes ++ rest)

-- A read that does not use the reader up took its whole width.
uint_read :
    (n : ℕ) (r rest : List ℕ) (v : ℕ)
    → read_uint n r ≡ ok (v, rest)
    → (rest ≡ []) ⊎ ((n ≤ length r) × (from_be (take n r) ≡ v) × (drop n r ≡ rest))
unfolding read_uint
uint_read n r rest v e = elim (Bool-cases (ltb (length r) n)) [
  | inl short ↦ inl (ground (arith, e, short))
  | inr enough ↦ inr (ground (arith, enough), ground (arith, e, enough), ground (arith, e, enough))
]

pub uint_takes :
    (n : ℕ) (r rest : List ℕ) (v : ℕ)
    → read_uint n r ≡ ok (v, rest)
    → All IsByte r
    → rest ≢ []
    → r ≡ to_be n v ++ rest
unfolding from_be
uint_takes n r rest v e h more = elim (uint_read n r rest v e) [
  | inl used_up ↦ absurd (more used_up)
  | inr (enough, value, left) ↦
      let size : length (take n r) ≡ n = omega (arith, length-take n r, enough) in
      let digits : to_be n v ≡ take n r =
        rw (size, value) at (to_be-from_be_acc (take n r) (All-take IsByte n r h)) in
      rw (digits, ← left) (sym (take-append-drop n r))
]

pub uint-IsCanonical : (n : ℕ) → IsCanonical (λ v. written (to_be n v)) (read_uint n)
uint-IsCanonical n = record {
  keeps = λ r rest x e h. elim (uint_read n r rest x e) [
    | inl used_up ↦ rw used_up tt
    | inr (enough, value, left) ↦ rw (← left) (All-drop IsByte n r h)
  ];
  takes = λ r rest x e h more. (to_be n x, refl, uint_takes n r rest x e h more);
}

pub buff_takes :
    (n : ℕ) (r rest vs : List ℕ)
    → read_buff n r ≡ ok (vs, rest)
    → (r ≡ vs ++ rest) × (length vs ≡ n)
unfolding read_values
buff_takes zero r rest vs e = (ground (arith, e), ground (arith, e))
buff_takes (suc n) [] rest vs e = absurd (unfold binary_read in ground (arith, e))
buff_takes (suc n) (b ∷ r) rest vs e =
    let others : ℕ → Get (List ℕ) = λ v r'. bind (read_values 1 n r') λ p. ok (v ∷ p.0, p.1) in
    let (v, r', first, e') = get_ok (binary_read 1) others (b ∷ r) vs rest e in
    let (p, e2, built) = bind_ok (read_values 1 n r') (λ p. ok (v ∷ p.0, p.1)) e' in
    let at_b : ok (b, r) ≡ ok (v, r') = sym (binary_read_byte b r) ∙ first in
    let (taken, size) = buff_takes n r rest p.0 (ground (arith, at_b, e2, built)) in
    (ground (arith, at_b, built, taken), ground (arith, built, size))

pub token_takes :
    (n : ℕ) (r rest token : List ℕ)
    → read_token n r ≡ ok (token, rest)
    → (r ≡ token ++ rest) × (length token ≡ n)
unfolding read_token
token_takes n r rest token e = elim (Bool-cases (ltb max_alloc n)) [
  | inl large ↦ absurd (ground (arith, e, large))
  | inr fits ↦ buff_takes n r rest token (ground (arith, e, fits))
]

pub append-nonempty : (xs ys : List ℕ) → ys ≢ [] → xs ++ ys ≢ []
append-nonempty [] ys h e = h e
append-nonempty (x ∷ xs) ys h e = cc

-- What two reads take after each other.
pub join :
    (a b : List ℕ) {r r' : List ℕ} (r'' : List ℕ)
    → r ≡ a ++ r'
    → r' ≡ b ++ r''
    → r ≡ (a ++ b) ++ r''
join a b r'' e f = e ∙ ap (λ (xs : List ℕ). a ++ xs) f ∙ sym (append_assoc a b r'')
