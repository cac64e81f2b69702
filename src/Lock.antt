-- ===== src/Lock.antt =====
-- The process lock on the database (app/runtime_lock.py, class RuntimeFileLock). The operating
-- system's file lock is exclusive: it has at most one holder.
use binance_bot.Base.{
  ℕ, ◌≡◌, Bool, true, false, Option, none, some, List, [], ◌∷◌, arith, ◌==◌, if◌then◌else◌,
}

-- The holder of the operating system's lock, and whether a process keeps a handle.
pub record Locks : Type 0 where
  pub holder : Option ℕ
  pub handle : ℕ → Bool

abbrev pub set_handle : ℕ → Bool → (ℕ → Bool) → ℕ → Bool
set_handle p b f q = if q == p then b else f q

-- the result of `acquire`: it returns, or raises a RuntimeError
pub data Acquired : Type 0 where
  done refused : Acquired

-- `flock(LOCK_EX | LOCK_NB)` by a process without a handle
unfoldable pub acquire_new : ℕ → Locks → Option ℕ → Acquired × Locks
acquire_new p s none =
    (Acquired.done, record { holder = some p; handle = set_handle p true s.handle })
acquire_new p s (some _) = (Acquired.refused, s)

unfoldable pub acquire : ℕ → Locks → Acquired × Locks
unfolding acquire_new
acquire p s = if s.handle p then (Acquired.done, s) else acquire_new p s s.holder

unfoldable pub release : ℕ → Locks → Locks
release p s =
    if s.handle p then record { holder = none; handle = set_handle p false s.handle } else s

pub data LockOp : Type 0 where
  acquires releases : ℕ → LockOp

unfoldable pub lock_step : LockOp → Locks → Locks
unfolding acquire release
lock_step (acquires p) s = (acquire p s).1
lock_step (releases p) s = release p s

unfoldable pub lock_run : List LockOp → Locks → Locks
unfolding lock_step
lock_run [] s = s
lock_run (op ∷ ops) s = lock_run ops (lock_step op s)

abbrev pub unlocked : Locks
unlocked = record { holder = none; handle = λ p. false }

-- a handle is kept by the holder and by nobody else
IsHeld : Locks → Type 0
IsHeld s = (p : ℕ) → s.handle p ≡ true → s.holder ≡ some p

lock_step-IsHeld : (op : LockOp) (s : Locks) → IsHeld s → IsHeld (lock_step op s)
unfolding lock_step IsHeld
lock_step-IsHeld (acquires p) s h q k = ground (arith, h q, h p)
lock_step-IsHeld (releases p) s h q k = ground (arith, h q, h p)

lock_run-IsHeld : (ops : List LockOp) (s : Locks) → IsHeld s → IsHeld (lock_run ops s)
unfolding lock_run
lock_run-IsHeld [] s h = h
lock_run-IsHeld (op ∷ ops) s h = lock_run-IsHeld ops (lock_step op s) (lock_step-IsHeld op s h)

-- Whatever processes acquire and release in any order, no two keep the lock at the same time.
pub lock_run-exclusive :
    (ops : List LockOp) (p q : ℕ)
    → (lock_run ops unlocked).handle p ≡ true
    → (lock_run ops unlocked).handle q ≡ true
    → p ≡ q
unfolding IsHeld
lock_run-exclusive ops p q h k =
    let held = lock_run-IsHeld ops unlocked (λ r e. absurd (ground arith)) in
    ground (arith, held p h, held q k)
