-- ===== src/Rwlock/Threads.antt =====
-- The mutex of tunnel/rwlock/rwlock.go, sync.RWMutex, among threads that run in any order. A writer that
-- waits keeps new readers out, as the standard library documents.
use go_playit.Base.{
  ℕ, zero, suc, ◌+◌, ◌-◌, ◌<◌, List, [], ◌∷◌, Option, none, some, Bool, true, false, ◌&&◌, ◌==◌,
  ltb, ◌≡◌, if◌then◌else◌,
}
use go_playit.Rwlock.Family.{update}

-- The calls that a thread has left. Lock is two: it keeps new readers out, and then waits until none
-- reads.
pub data Call : Type 0 where
  r_lock r_unlock announce enter leave : Call

-- Write locks, and its second result unlocks.
abbrev pub write_calls : List Call
write_calls = announce ∷ (enter ∷ [])

abbrev pub unlock_calls : List Call
unlock_calls = leave ∷ []

-- Read locks for reading, and its second result undoes that.
abbrev pub read_calls : List Call
read_calls = r_lock ∷ []

abbrev pub r_unlock_calls : List Call
r_unlock_calls = r_unlock ∷ []

pub record Mutex : Type 0 where
  pub readers : ℕ
  pub announced : Bool
  pub writing : Bool

pub data Phase : Type 0 where
  outside waiting inside : Phase

-- A thread, with the reads that it holds.
pub record Thread : Type 0 where
  pub reads : ℕ
  pub phase : Phase
  pub rest : List Call

-- The next call of a thread; `none` where it blocks, or where none is left.
unfoldable pub act : Mutex → Thread → Option (Mutex × Thread)
act m t = elim t.rest [
  | [] ↦ none
  | call ∷ rest ↦ elim call [
    | r_lock ↦
        if m.announced
        then none
        else some
            (record m { readers = m.readers + 1 }, record t { reads = t.reads + 1; rest = rest })
    | r_unlock ↦
        some (record m { readers = m.readers - 1 }, record t { reads = t.reads - 1; rest = rest })
    | announce ↦
        if m.announced
        then none
        else some (record m { announced = true }, record t { phase = waiting; rest = rest })
    | enter ↦
        if m.readers == 0
        then some (record m { writing = true }, record t { phase = inside; rest = rest })
        else none
    | leave ↦
        some (
          record m { announced = false; writing = false },
          record t { phase = outside; rest = rest },
        )
  ]
]

-- Whether the calls that are left fit what a thread holds: each lock is undone, a writer holds no read,
-- and no more reads are held at a time than a bound.
unfoldable pub fits : ℕ → ℕ → Phase → List Call → Bool
fits most zero outside [] = true
fits most reads outside (r_lock ∷ rest) = ltb reads most && fits most (suc reads) outside rest
fits most (suc reads) outside (r_unlock ∷ rest) = fits most reads outside rest
fits most zero outside (announce ∷ rest) = fits most zero waiting rest
fits most zero waiting (enter ∷ rest) = fits most zero inside rest
fits most zero inside (leave ∷ rest) = fits most zero outside rest
fits most _ _ _ = false

pub record System : Type 0 where
  pub mutex : Mutex
  pub threads : ℕ → Thread

-- A thread below `n` makes its next call.
pub data Step (n : ℕ) (s : System) : System → Type 0 where
  acts :
      (i : ℕ) (m : Mutex) (t : Thread)
      → i < n
      → act s.mutex (s.threads i) ≡ some (m, t)
      → Step n s (record { mutex = m; threads = update s.threads i t })

-- Threads that hold nothing, with their calls.
abbrev pub calling : (ℕ → List Call) → System
calling calls = record {
  mutex = record { readers = 0; announced = false; writing = false };
  threads = λ i. record { reads = 0; phase = outside; rest = calls i };
}

-- The runs from one system, with the number of their steps.
pub data Runs (n : ℕ) (s : System) : ℕ → System → Type 0 where
  here : Runs n s 0 s
  later : {k : ℕ} {t u : System} → Runs n s k t → Step n t u → Runs n s (suc k) u
