-- ===== src/Rwlock/Progress.antt =====
-- That calls of the lock of tunnel/rwlock/rwlock.go return, and when they do not.
use go_playit.Base.{
  ◌∙◌, ℕ, zero, suc, ◌+◌, ◌<◌, List, [], ◌∷◌, some, Bool, true, false, not, ◌==◌, ◌≡◌, ◌≢◌, ◌⊎◌,
  inl, inr, refl, arith, Bool-cases, length,
}
use go_playit.Rwlock.Family.{total, total-update, total-eq_zero, search}
use go_playit.Rwlock.Threads.{
  Call, r_lock, r_unlock, announce, enter, leave, Mutex, Phase, outside, waiting, inside, Thread,
  act, fits, System, Step, acts, calling, Runs, here, later,
}
use go_playit.Rwlock.Exclusion.{Step-Inv, reads_of, waits_of, writes_of, Inv, AllFit, Runs-Inv}

-- The calls that a thread has left.
abbrev pub work_of : Thread → ℕ
work_of t = length t.rest

act-work_of :
    (m : Mutex) (held : ℕ) (phase : Phase) (rest : List Call) (m' : Mutex) (t' : Thread)
    → act m (record { reads = held; phase = phase; rest = rest }) ≡ some (m', t')
    → work_of t' + 1 ≡ length rest
unfolding act
act-work_of m held phase [] m' t' e = absurd (cc)
act-work_of m held phase (r_lock ∷ rest) m' t' e = elim (Bool-cases m.announced) [
  | inl h ↦ absurd (ground (arith, e, h))
  | inr h ↦ ground arith
]
act-work_of m held phase (r_unlock ∷ rest) m' t' e = ground arith
act-work_of m held phase (announce ∷ rest) m' t' e = elim (Bool-cases m.announced) [
  | inl h ↦ absurd (ground (arith, e, h))
  | inr h ↦ ground arith
]
act-work_of m held phase (enter ∷ rest) m' t' e = elim (Bool-cases (m.readers == 0)) [
  | inl h ↦ ground arith
  | inr h ↦ absurd (ground (arith, e, h))
]
act-work_of m held phase (leave ∷ rest) m' t' e = ground arith

abbrev is_reading : Thread → Bool
is_reading t = not (t.reads == 0)

abbrev is_inside : Thread → Bool
is_inside t = elim t.phase [ inside ↦ true | _ ↦ false ]

abbrev is_waiting : Thread → Bool
is_waiting t = elim t.phase [ waiting ↦ true | _ ↦ false ]

abbrev has_calls : Thread → Bool
has_calls t = elim t.rest [ [] ↦ false | _ ∷ _ ↦ true ]

-- The next call of a thread can be made.
abbrev CanAct : Mutex → Thread → Type 0
CanAct m t = (m' : Mutex) × (t' : Thread) × (act m t ≡ some (m', t'))

inside-CanAct :
    (m : Mutex) (held : ℕ) (phase : Phase) (rest : List Call)
    → fits 1 held phase rest ≡ true
    → phase ≡ inside
    → CanAct m (record { reads = held; phase = phase; rest = rest })
unfolding act fits
inside-CanAct m zero inside (leave ∷ rest) h p = (_, _, refl)
inside-CanAct m _ _ _ h p = absurd (cc)

reading-CanAct :
    (m : Mutex) (held : ℕ) (phase : Phase) (rest : List Call)
    → fits 1 held phase rest ≡ true
    → held ≢ 0
    → CanAct m (record { reads = held; phase = phase; rest = rest })
unfolding act fits
reading-CanAct m zero phase rest h p = absurd (p refl)
reading-CanAct m (suc held) outside (r_unlock ∷ rest) h p = (_, _, refl)
reading-CanAct m (suc held) outside (r_lock ∷ rest) h p = absurd (ground (arith, h))
reading-CanAct m (suc held) _ _ h p = absurd (cc)

waiting-CanAct :
    (m : Mutex) (held : ℕ) (phase : Phase) (rest : List Call)
    → fits 1 held phase rest ≡ true
    → phase ≡ waiting
    → m.readers ≡ 0
    → CanAct m (record { reads = held; phase = phase; rest = rest })
unfolding act fits
waiting-CanAct m zero waiting (enter ∷ rest) h p e = rw e (_, _, refl)
waiting-CanAct m _ _ _ h p e = absurd (cc)

outside-CanAct :
    (m : Mutex) (held : ℕ) (phase : Phase) (rest : List Call)
    → fits 1 held phase rest ≡ true
    → held ≡ 0
    → phase ≡ outside
    → rest ≢ []
    → m.announced ≡ false
    → CanAct m (record { reads = held; phase = phase; rest = rest })
unfolding act fits
outside-CanAct m zero outside [] h z p d e = absurd (d refl)
outside-CanAct m zero outside (r_lock ∷ rest) h z p d e = rw e (_, _, refl)
outside-CanAct m zero outside (announce ∷ rest) h z p d e = rw e (_, _, refl)
outside-CanAct m _ _ _ h z p d e = absurd (cc)

-- All calls have returned.
abbrev pub AllReturned : ℕ → System → Type 0
AllReturned n s = (i : ℕ) → i < n → (s.threads i).rest ≡ []

-- A thread can make its next call.
abbrev pub CanStep : ℕ → System → Type 0
CanStep n s = (s' : System) × Step n s s'

step_of : (n : ℕ) (s : System) (i : ℕ) → i < n → CanAct s.mutex (s.threads i) → CanStep n s
step_of n s i l (m, t, e) = (_, acts i m t l e)

Inv-CanStep : (n : ℕ) (s : System) → Inv 1 n s → AllReturned n s ⊎ CanStep n s
Inv-CanStep n s v = elim (search has_calls n s.threads) [
  | inr quiet ↦ inl (λ i l. ground (arith, quiet i l))
  | inl (i, l, more) ↦ inr (elim (search is_inside n s.threads) [
    | inl (j, k, p) ↦
        step_of n s j k (inside-CanAct s.mutex _ _ _ (v.fitting j k) (ground (arith, p)))
    | inr none_inside ↦ elim (search is_reading n s.threads) [
      | inl (j, k, p) ↦
          step_of n s j k (reading-CanAct s.mutex _ _ _ (v.fitting j k) (λ z. ground (arith, p, z)))
      | inr none_reading ↦
          let no_reads : s.mutex.readers ≡ 0 =
            v.counts
            ∙ total-eq_zero reads_of n s.threads (λ j k. ground (arith, none_reading j k)) in
          elim (search is_waiting n s.threads) [
            | inl (j, k, p) ↦
                step_of n s j k
                  (waiting-CanAct s.mutex _ _ _ (v.fitting j k) (ground (arith, p)) no_reads)
            | inr none_waiting ↦
                let no_waits =
                  total-eq_zero waits_of n s.threads (λ j k. ground (arith, none_waiting j k)) in
                let no_writes =
                  total-eq_zero writes_of n s.threads (λ j k. ground (arith, none_inside j k)) in
                let not_announced : s.mutex.announced ≡ false =
                  ground (arith, v.announces, no_waits, no_writes) in
                step_of n s i l (
                  outside-CanAct s.mutex _ _ _ (v.fitting i l) (ground (arith, none_reading i l))
                    (ground (arith, none_waiting i l, none_inside i l))
                    (λ z. ground (arith, more, z)) not_announced)
          ]
    ]
  ])
]

Step-work_of :
    (n : ℕ) (s s' : System)
    → Step n s s'
    → total work_of n s'.threads + 1 ≡ total work_of n s.threads
Step-work_of n s _ (acts i m t l e) =
    let now = s.threads i in
    let one = act-work_of s.mutex now.reads now.phase now.rest m t e in
    omega (arith, one, total-update work_of n i s.threads t l)

pub Runs-work_of :
    (n : ℕ) (s : System) (k : ℕ) (s' : System)
    → Runs n s k s'
    → total work_of n s'.threads + k ≡ total work_of n s.threads
Runs-work_of n s _ _ here = omega arith
Runs-work_of n s (suc k) s' (later {t = t} runs step) =
    omega (arith, Step-work_of n t s' step, Runs-work_of n s k t runs)

first_step :
    (n : ℕ) (s t : System) (k : ℕ) (u : System) → Step n s t → Runs n t k u → Runs n s (suc k) u
first_step n s t _ _ step here = later here step
first_step n s t (suc k) u step (later {t = v} runs last) =
    later (first_step n s t k v step runs) last

-- Some run makes all the calls that are left.
abbrev pub Finishes : ℕ → System → Type 0
Finishes n s = (s' : System) × Runs n s (total work_of n s.threads) s' × AllReturned n s'

returned-Finishes : (n : ℕ) (s : System) → AllReturned n s → Finishes n s
returned-Finishes n s h =
    let none_left = total-eq_zero work_of n s.threads (λ i l. rw (h i l) refl) in
    rw none_left (s, here, h)

Inv-Finishes :
    (left n : ℕ) (s : System) → Inv 1 n s → total work_of n s.threads ≡ left → Finishes n s
Inv-Finishes zero n s v e = elim (Inv-CanStep n s v) [
  | inl returned ↦ returned-Finishes n s returned
  | inr (t, step) ↦ absurd (omega (arith, e, Step-work_of n s t step))
]
Inv-Finishes (suc left) n s v e = elim (Inv-CanStep n s v) [
  | inl returned ↦ returned-Finishes n s returned
  | inr (t, step) ↦
      let fewer : total work_of n t.threads ≡ left = omega (arith, e, Step-work_of n s t step) in
      let (u, runs, returned) = Inv-Finishes left n t (Step-Inv 1 n s t step v) fewer in
      let one : suc (total work_of n t.threads) ≡ total work_of n s.threads =
        omega (arith, e, fewer) in
      (u, rw one at (first_step n s t (total work_of n t.threads) u step runs), returned)
]

-- Where no thread reads a lock again while it reads it, and each call of a lock is undone, no order of the
-- calls deadlocks: each step of a run is one of the calls, a run that has not returned from all of them
-- can go on, and some way to go on returns from all that are left.
pub calls-Return :
    (n k : ℕ) (calls : ℕ → List Call) (s : System)
    → AllFit 1 n calls
    → Runs n (calling calls) k s
    → (k + total work_of n s.threads ≡ total work_of n (calling calls).threads)
      × (AllReturned n s ⊎ CanStep n s)
      × Finishes n s
calls-Return n k calls s h runs = (
  omega (arith, Runs-work_of n (calling calls) k s runs),
  Inv-CanStep n s (Runs-Inv 1 n calls h k s runs),
  Inv-Finishes (total work_of n s.threads) n s (Runs-Inv 1 n calls h k s runs) refl,
)
