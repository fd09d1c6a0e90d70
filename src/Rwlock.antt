-- ===== src/Rwlock.antt =====
-- tunnel/rwlock/rwlock.go: a value behind a reader-writer lock. Read and Write hand out the value
-- itself, so the caller holds a copy; the second result of each undoes the lock.
pub mod Family
pub mod Threads
pub mod Exclusion
pub mod Progress
pub mod Deadlock
use go_playit.Base.{ℕ, ◌+◌, ◌-◌, Bool, true, false}

pub record Rwlock {ℓ} (T : Type ℓ) : Type ℓ where
  pub value : T
  pub readers : ℕ
  pub writer : Bool

module _ {ℓ} {T : Type ℓ} where
  unfoldable pub write : Rwlock T → T × Rwlock T
  write rw = (rw.value, record rw { writer = true })

  unfoldable pub unlock : Rwlock T → Rwlock T
  unlock rw = record rw { writer = false }

  unfoldable pub read : Rwlock T → T × Rwlock T
  read rw = (rw.value, record rw { readers = rw.readers + 1 })

  unfoldable pub r_unlock : Rwlock T → Rwlock T
  r_unlock rw = record rw { readers = rw.readers - 1 }
