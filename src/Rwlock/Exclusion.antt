-- ===== src/Rwlock/Exclusion.antt =====
-- What the mutex of tunnel/rwlock/rwlock.go excludes, in every order of the threads' calls.
use go_playit.Base.{
  inr, inl, ℕ, zero, suc, ◌+◌, ◌<◌, ◌≤◌, List, ◌∷◌, some, Bool, true, false, ◌==◌, ◌≡◌, ◌≢◌, refl,
  arith, Bool-cases,
}
use mathlib.Core.Path.{sym}
use go_playit.Rwlock.Family.{
  total, update_same, update_other, total-update, total-member, total-pair, total-eq_zero,
}
use go_playit.Rwlock.Threads.{
  Call, r_lock, r_unlock, announce, enter, leave, Mutex, Phase, outside, waiting, inside, Thread,
  act, fits, System, Step, acts, calling, Runs, here, later,
}

abbrev pub flag : Bool → ℕ
flag true = 1
flag false = 0

abbrev pub reads_of : Thread → ℕ
reads_of t = t.reads

-- 1 for a thread that waits until it can write.
abbrev pub waits_of : Thread → ℕ
waits_of t = elim t.phase [ waiting ↦ 1 | _ ↦ 0 ]

abbrev pub writes_of : Thread → ℕ
writes_of t = elim t.phase [ inside ↦ 1 | _ ↦ 0 ]

-- The mutex counts what the threads hold, and a thread inside leaves no reader.
pub record Inv (most n : ℕ) (s : System) : Type 0 where
  pub counts : s.mutex.readers ≡ total reads_of n s.threads
  pub announces : flag s.mutex.announced ≡ total waits_of n s.threads + total writes_of n s.threads
  pub writes : flag s.mutex.writing ≡ total writes_of n s.threads
  pub alone : s.mutex.writing ≡ true → s.mutex.readers ≡ 0
  pub covered : s.mutex.writing ≡ true → s.mutex.announced ≡ true
  pub fitting :
      (i : ℕ) → i < n → fits most (s.threads i).reads (s.threads i).phase (s.threads i).rest ≡ true

-- What a call changes, for a thread whose holdings the mutex counts.
record Acted (most : ℕ) (m : Mutex) (t : Thread) (m' : Mutex) (t' : Thread) : Type 0 where
  pub readers : m'.readers + t.reads ≡ m.readers + t'.reads
  pub announced :
      flag m'.announced + waits_of t + writes_of t ≡ flag m.announced + waits_of t' + writes_of t'
  pub writing : flag m'.writing + writes_of t ≡ flag m.writing + writes_of t'
  pub alone : m'.writing ≡ true → m'.readers ≡ 0
  pub covered : m'.writing ≡ true → m'.announced ≡ true
  pub fitting : fits most t'.reads t'.phase t'.rest ≡ true

act-Acted :
    (most : ℕ) (m : Mutex) (reads : ℕ) (phase : Phase) (rest : List Call) (m' : Mutex) (t' : Thread)
    → (let t : Thread = record { reads = reads; phase = phase; rest = rest } in
        act m t ≡ some (m', t')
        → fits most reads phase rest ≡ true
        → reads ≤ m.readers
        → waits_of t + flag m.writing ≤ flag m.announced
        → writes_of t ≤ flag m.writing
        → (m.writing ≡ true → m.readers ≡ 0)
        → (m.writing ≡ true → m.announced ≡ true)
        → Acted most m t m' t')
unfolding act fits
act-Acted most m zero outside (r_lock ∷ rest) m' t' e f r a w alone covered =
    elim (Bool-cases m.announced) [
      | inl h ↦ absurd (ground (arith, e, h))
      | inr h ↦ record {
        readers = ground arith;
        announced = ground arith;
        writing = ground arith;
        alone = λ h. ground arith;
        covered = λ h. ground arith;
        fitting = ground arith;
      }
    ]
act-Acted most m (suc reads) outside (r_lock ∷ rest) m' t' e f r a w alone covered =
    elim (Bool-cases m.announced) [
      | inl h ↦ absurd (ground (arith, e, h))
      | inr h ↦ record {
        readers = ground arith;
        announced = ground arith;
        writing = ground arith;
        alone = λ h. ground arith;
        covered = λ h. ground arith;
        fitting = ground arith;
      }
    ]
act-Acted most m (suc reads) outside (r_unlock ∷ rest) m' t' e f r a w alone covered = record {
  readers = ground arith;
  announced = ground arith;
  writing = ground arith;
  alone = λ h. ground arith;
  covered = λ h. ground arith;
  fitting = ground arith;
}
act-Acted most m zero outside (announce ∷ rest) m' t' e f r a w alone covered =
    elim (Bool-cases m.announced) [
      | inl h ↦ absurd (ground (arith, e, h))
      | inr h ↦ record {
        readers = ground arith;
        announced = ground arith;
        writing = ground arith;
        alone = λ h. ground arith;
        covered = λ h. ground arith;
        fitting = ground arith;
      }
    ]
act-Acted most m zero waiting (enter ∷ rest) m' t' e f r a w alone covered =
    elim (Bool-cases (m.readers == 0)) [
      | inr h ↦ absurd (ground (arith, e, h))
      | inl h ↦ record {
        readers = ground arith;
        announced = ground arith;
        writing = ground arith;
        alone = λ h. ground arith;
        covered = λ h. ground arith;
        fitting = ground arith;
      }
    ]
act-Acted most m zero inside (leave ∷ rest) m' t' e f r a w alone covered = record {
  readers = ground arith;
  announced = ground arith;
  writing = ground arith;
  alone = λ h. ground arith;
  covered = λ h. ground arith;
  fitting = ground arith;
}
act-Acted most m _ _ _ m' t' e f r a w alone covered = absurd (cc)

start-Inv :
    (most n : ℕ) (calls : ℕ → List Call)
    → ((i : ℕ) → i < n → fits most 0 outside (calls i) ≡ true)
    → Inv most n (calling calls)
start-Inv most n calls h = record {
  counts = sym (total-eq_zero reads_of n (calling calls).threads (λ i l. refl));
  announces = omega (
    arith,
    total-eq_zero waits_of n (calling calls).threads (λ i l. refl),
    total-eq_zero writes_of n (calling calls).threads (λ i l. refl),
  );
  writes = sym (total-eq_zero writes_of n (calling calls).threads (λ i l. refl));
  alone = λ e. refl;
  covered = λ e. absurd (cc);
  fitting = h;
}

pub Step-Inv : (most n : ℕ) (s s' : System) → Step n s s' → Inv most n s → Inv most n s'
Step-Inv most n s _ (acts i m t l e) v =
    let now = s.threads i in
    let reads_in = total-member reads_of n i s.threads l in
    let waits_in = total-member waits_of n i s.threads l in
    let writes_in = total-member writes_of n i s.threads l in
    let d =
      act-Acted most s.mutex now.reads now.phase now.rest m t e (v.fitting i l)
        (omega (arith, v.counts, reads_in)) (omega (arith, v.announces, v.writes, waits_in))
        (omega (arith, v.writes, writes_in)) v.alone v.covered in
    record {
      counts = omega (arith, v.counts, d.readers, total-update reads_of n i s.threads t l);
      announces = omega (
        arith,
        v.announces,
        d.announced,
        total-update waits_of n i s.threads t l,
        total-update writes_of n i s.threads t l,
      );
      writes = omega (arith, v.writes, d.writing, total-update writes_of n i s.threads t l);
      alone = d.alone;
      covered = d.covered;
      fitting = λ j k. elim (Bool-cases (j == i)) [
        | inl same ↦
            let j_i : j ≡ i = ground (arith, same) in rw (j_i, update_same s.threads i t) d.fitting
        | inr other ↦ rw (update_other s.threads i t j (ground (arith, other))) (v.fitting j k)
      ];
    }

-- The calls of each thread fit, holding at most so many reads at a time.
abbrev pub AllFit : ℕ → ℕ → (ℕ → List Call) → Type 0
AllFit most n calls = (i : ℕ) → i < n → fits most 0 outside (calls i) ≡ true

pub Runs-Inv :
    (most n : ℕ) (calls : ℕ → List Call)
    → AllFit most n calls
    → (k : ℕ) (s : System) → Runs n (calling calls) k s
    → Inv most n s
Runs-Inv most n calls h _ _ here = start-Inv most n calls h
Runs-Inv most n calls h (suc k) s (later {t = t} runs step) =
    Step-Inv most n t s step (Runs-Inv most n calls h k t runs)

-- Whatever order threads call a lock in, as long as each undoes what it locks and none locks for writing
-- while it holds the lock: while one has it for writing, no other holds a read or has it for writing.
pub writer_excludes :
    (most n k : ℕ) (calls : ℕ → List Call) (s : System) (i j : ℕ)
    → AllFit most n calls
    → Runs n (calling calls) k s
    → i < n
    → j < n
    → j ≢ i
    → (s.threads i).phase ≡ inside
    → ((s.threads j).reads ≡ 0) × ((s.threads j).phase ≢ inside)
writer_excludes most n k calls s i j h runs l l' d e =
    let v = Runs-Inv most n calls h k s runs in
    let writes_in = total-member writes_of n i s.threads l in
    let both = total-pair writes_of n i j s.threads l l' (λ p. d (sym p)) in
    let reads_in = total-member reads_of n j s.threads l' in
    let writing : s.mutex.writing ≡ true = ground (arith, e, writes_in, v.writes) in
    (
      omega (arith, reads_in, v.counts, v.alone writing),
      λ f. ground (arith, both, v.writes, writing, e, f),
    )
