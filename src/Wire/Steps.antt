-- ===== src/Wire/Steps.antt =====
-- Reads of tunnel/bigint.go one after the other, against the writes of the same values.
use go_playit.Base.{All, All-append_right, IsByte, List, [], ◌++◌, ◌≡◌, ◌≢◌, ok, refl, ℕ}
use go_playit.Wire.{Get, Written, ◌>>◌, read_token, written}
use go_playit.Wire.Canonical.{IsCanonical, append-nonempty, join, token_takes}

-- A read of one value: what it leaves are bytes, and what it takes is what the writer appends.
pub record IsStep (v : Written) (r rest : List ℕ) : Type 0 where
  pub keeps : All IsByte r → All IsByte rest
  pub takes :
      All IsByte r → rest ≢ [] → (bytes : List ℕ) × (v ≡ written bytes) × (r ≡ bytes ++ rest)

pub step :
    {T : Type 0} {write : T → Written} {read : Get T} {r rest : List ℕ} (x : T)
    → IsCanonical write read
    → read r ≡ ok (x, rest)
    → IsStep (write x) r rest
step {r = r} {rest = rest} x c e = record { keeps = c.keeps r rest x e; takes = c.takes r rest x e }

pub and_then :
    {v v' : Written} {r r' rest : List ℕ}
    → IsStep v r r'
    → IsStep v' r' rest
    → IsStep (v >> v') r rest
and_then {v} {v'} {r} {r'} {rest} s s' = record {
  keeps = λ h. s'.keeps (s.keeps h);
  takes = λ h more.
      let (bytes', wrote', taken') = s'.takes (s.keeps h) more in
      let more' : r' ≢ [] = rw taken' (append-nonempty bytes' rest more) in
      let (bytes, wrote, taken) = s.takes h more' in
      (bytes ++ bytes', rw (wrote, wrote') refl, join bytes bytes' rest taken taken');
}

pub token_step :
    (n : ℕ) {r rest token : List ℕ}
    → read_token n r ≡ ok (token, rest)
    → IsStep (written token) r rest
token_step n {r} {rest} {token} e =
    let (taken, size) = token_takes n r rest token e in
    record {
      keeps = λ h. All-append_right IsByte token rest (rw taken at h);
      takes = λ h more. (token, refl, taken);
    }

pub all_steps :
    {T : Type 0} {write : T → Written} {read : Get T}
    → ((r rest : List ℕ) (x : T) → read r ≡ ok (x, rest) → IsStep (write x) r rest)
    → IsCanonical write read
all_steps f = record {
  keeps = λ r rest x e. (f r rest x e).keeps;
  takes = λ r rest x e. (f r rest x e).takes;
}

pub same_step :
    {v v' : Written} {r rest rest' : List ℕ}
    → v ≡ v'
    → rest ≡ rest'
    → IsStep v r rest
    → IsStep v' r rest'
same_step e f s = rw (← e, ← f) s
