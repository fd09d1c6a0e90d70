-- ===== src/Rwlock/Deadlock.antt =====
-- A thread that reads the lock of tunnel/rwlock/rwlock.go again while it reads it.
use go_playit.Base.{
  ◌∙◌, inr, inl, ℕ, zero, suc, ◌<◌, List, [], ◌∷◌, some, true, ◌==◌, ◌≡◌, ◌≢◌, refl, arith,
  Bool-cases,
}
use go_playit.Rwlock.Family.{update_other, total-member}
use go_playit.Rwlock.Threads.{
  Call, r_lock, r_unlock, announce, enter, leave, Mutex, Phase, outside, waiting, inside, Thread,
  act, fits, System, Step, acts, Runs, here, later,
}
use go_playit.Rwlock.Exclusion.{reads_of, writes_of, Inv, Step-Inv}

act_announced :
    (most : ℕ) (m : Mutex) (held : ℕ) (phase : Phase) (rest : List Call) (m' : Mutex) (t' : Thread)
    → act m (record { reads = held; phase = phase; rest = rest }) ≡ some (m', t')
    → fits most held phase rest ≡ true
    → phase ≢ inside
    → m.announced ≡ true
    → m'.announced ≡ true
unfolding act fits
act_announced most m held phase [] m' t' e f d a = absurd (cc)
act_announced most m held phase (r_lock ∷ rest) m' t' e f d a = absurd (ground (arith, e, a))
act_announced most m held phase (r_unlock ∷ rest) m' t' e f d a = ground arith
act_announced most m held phase (announce ∷ rest) m' t' e f d a = absurd (ground (arith, e, a))
act_announced most m held phase (enter ∷ rest) m' t' e f d a = elim (Bool-cases (m.readers == 0)) [
  | inl h ↦ ground arith
  | inr h ↦ absurd (ground (arith, e, h))
]
act_announced most m held inside (leave ∷ rest) m' t' e f d a = absurd (d refl)
act_announced most m zero outside (leave ∷ rest) m' t' e f d a = absurd (cc)
act_announced most m (suc held) outside (leave ∷ rest) m' t' e f d a = absurd (cc)
act_announced most m zero waiting (leave ∷ rest) m' t' e f d a = absurd (cc)
act_announced most m (suc held) waiting (leave ∷ rest) m' t' e f d a = absurd (cc)

-- A thread holds a read and wants another one, and a writer waits.
pub record IsCaught (n : ℕ) (s : System) (i : ℕ) : Type 0 where
  pub below : i < n
  pub holds : (s.threads i).reads ≢ 0
  pub calls_left : List Call
  pub wants : (s.threads i).rest ≡ r_lock ∷ calls_left
  pub announced : s.mutex.announced ≡ true

IsCaught-outside :
    (most n : ℕ) (s : System) (i : ℕ)
    → Inv most n s
    → IsCaught n s i
    → (j : ℕ) → j < n
    → (s.threads j).phase ≢ inside
IsCaught-outside most n s i v c j l e =
    let reads_in = total-member reads_of n i s.threads c.below in
    let writes_in = total-member writes_of n j s.threads l in
    let writing : s.mutex.writing ≡ true = ground (arith, e, writes_in, v.writes) in
    c.holds (omega (arith, reads_in, v.counts, v.alone writing))

act_caught :
    (m : Mutex) (held : ℕ) (phase : Phase) (rest calls_left : List Call) (m' : Mutex) (t' : Thread)
    → act m (record { reads = held; phase = phase; rest = rest }) ≡ some (m', t')
    → rest ≡ r_lock ∷ calls_left
    → m.announced ≡ true
    → ⊥
unfolding act
act_caught m held phase rest calls_left m' t' e r a = ground (arith, e, r, a)

Step-IsCaught :
    (most n : ℕ) (s s' : System) (i : ℕ)
    → Inv most n s
    → IsCaught n s i
    → Step n s s'
    → IsCaught n s' i × (s'.threads i ≡ s.threads i)
Step-IsCaught most n s _ i v c (acts j m t l e) = elim (Bool-cases (i == j)) [
  | inl same ↦
      let j_i : j ≡ i = ground (arith, same) in
      let now = s.threads i in
      let e_i : act s.mutex now ≡ some (m, t) = rw j_i at e in
      absurd
        (act_caught s.mutex now.reads now.phase now.rest c.calls_left m t e_i c.wants c.announced)
  | inr other ↦
      let kept = update_other s.threads j t i (ground (arith, other)) in
      let actor = s.threads j in
      (
        record {
          below = c.below;
          holds = rw kept c.holds;
          calls_left = c.calls_left;
          wants = rw kept c.wants;
          announced =
              act_announced most s.mutex actor.reads actor.phase actor.rest m t e (v.fitting j l)
                (IsCaught-outside most n s i v c j l) c.announced;
        },
        kept,
      )
]

-- A thread that holds a read of the lock and reads it again while a writer waits never gets it: in
-- every run that follows it has made no further call, and no thread gets to write.
pub Runs-IsCaught :
    (most n : ℕ) (s : System) (i : ℕ)
    → Inv most n s
    → IsCaught n s i
    → (k' : ℕ) (s' : System) → Runs n s k' s'
    → Inv most n s'
      × IsCaught n s' i
      × (s'.threads i ≡ s.threads i)
      × ((j : ℕ) → j < n → (s'.threads j).phase ≢ inside)
Runs-IsCaught most n s i v c _ _ here = (v, c, refl, IsCaught-outside most n s i v c)
Runs-IsCaught most n s i v c (suc k') u (later {t = t} before step) =
    let (v', c', e, none_writes) = Runs-IsCaught most n s i v c k' t before in
    let (c'', e') = Step-IsCaught most n t u i v' c' step in
    let v'' = Step-Inv most n t u step v' in (v'', c'', e' ∙ e, IsCaught-outside most n u i v'' c'')

waiting_act :
    (m : Mutex) (t : Thread) (rest : List Call) (m' : Mutex) (t' : Thread)
    → act m t ≡ some (m', t')
    → t.rest ≡ enter ∷ rest
    → m.readers ≢ 0
    → ⊥
unfolding act
waiting_act m t rest m' t' e r h = ground (arith, e, r, h)

-- Nor does a thread that waits to write.
pub Runs-waiting :
    (most n : ℕ) (s : System) (i j : ℕ) (rest : List Call)
    → Inv most n s
    → IsCaught n s i
    → (s.threads j).rest ≡ enter ∷ rest
    → (k' : ℕ) (s' : System) → Runs n s k' s'
    → s'.threads j ≡ s.threads j
Runs-waiting most n s i j rest v c w _ _ here = refl
Runs-waiting most n s i j rest v c w (suc k') _ (later {t = t} before (acts a m u l e)) =
    let stays = Runs-waiting most n s i j rest v c w k' t before in
    let (v', c', same, none_writes) = Runs-IsCaught most n s i v c k' t before in
    let reads_in = total-member reads_of n i t.threads c'.below in
    let read : t.mutex.readers ≢ 0 = λ f. c'.holds (omega (arith, reads_in, v'.counts, f)) in
    elim (Bool-cases (j == a)) [
      | inl is_j ↦
          let a_j : a ≡ j = ground (arith, is_j) in
          let its_rest : (t.threads j).rest ≡ enter ∷ rest = rw stays w in
          let acted : act t.mutex (t.threads j) ≡ some (m, u) = rw a_j at e in
          absurd (waiting_act t.mutex (t.threads j) rest m u acted its_rest read)
      | inr other ↦ update_other t.threads a u j (ground (arith, other)) ∙ stays
    ]
