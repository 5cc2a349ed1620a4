-- ===== src/Lock/Processes.antt =====
-- ops_lock.py: the processes that share one lock file. Times are microseconds. `fcntl.flock` grants
-- an exclusive lock when no open file holds one, and under LOCK_NB raises `BlockingIOError` when one
-- does. Any process may move at any time, and time may pass between two moves.
use native.Mathlib.Decide.{ℕ_discrete}
use mathlib.Core.Logic.{ite}
use watchdirs.Prelude.{ℕ, ◌+◌, ◌-◌, ◌≡◌, ◌≤◌, Option, none, some, ltb, leb, ◌==◌, if◌then◌else◌}

-- `timeout_seconds`, a float
pub data Timeout : Type 0 where
  finite : ℕ → Timeout
  negative not_finite : Timeout

-- `OperationLockTimeoutError` carries the time that was waited.
pub data LockError : Type 0 where
  value_error locked_error : LockError
  timeout_error : ℕ → LockError

-- Where a process stands in `acquire_operation_lock` and in the use of the `OperationLock`.
pub data Pc : Type 0 where
  idle : Pc
  -- before `flock`, with `started_at`
  trying : ℕ → Pc
  -- in `time.sleep`, with `started_at` and the time at which the sleep is over
  sleeping : ℕ → ℕ → Pc
  holding closed : Pc
  raised : LockError → Pc

-- 0.05 seconds
abbrev pub poll : ℕ
poll = 50000

abbrev pub shorter : ℕ → ℕ → ℕ
shorter a b = if ltb b a then b else a

-- the checks before the loop
abbrev pub begin : Timeout → ℕ → Pc
begin (finite t) now = trying now
begin negative now = raised value_error
begin not_finite now = raised value_error

abbrev pub limit : Timeout → ℕ
limit (finite t) = t
limit negative = 0
limit not_finite = 0

-- the handler of `BlockingIOError`
unfoldable pub refused : ℕ → ℕ → ℕ → Pc
refused timeout started now =
    if timeout == 0
    then raised locked_error
    else if leb timeout (now - started)
    then raised (timeout_error (now - started))
    else sleeping started (now + shorter poll (timeout - (now - started)))

-- One move of process `i`, with the owner of the lock before and after it.
pub data Move (i : ℕ) (t : Timeout) (owner : Option ℕ) (now : ℕ) : Pc → Option ℕ → Pc → Type 0 where
  start : Move i t owner now idle owner (begin t now)
  grant : {s : ℕ} → owner ≡ none → Move i t owner now (trying s) (some i) holding
  refuse :
      {s j : ℕ} → owner ≡ some j → Move i t owner now (trying s) owner (refused (limit t) s now)
  wake : {s w : ℕ} → w ≤ now → Move i t owner now (sleeping s w) owner (trying s)
  release : Move i t owner now holding none closed
  -- `if self._handle.closed: return`
  release_again : Move i t owner now closed owner closed

abbrev pub update : (ℕ → Pc) → ℕ → Pc → ℕ → Pc
update pc i p j = ite (ℕ_discrete i j) p (pc j)

pub record System : Type 0 where
  pub owner : Option ℕ
  pub now : ℕ
  pub pc : ℕ → Pc

pub data Step (timeout : ℕ → Timeout) (s : System) : System → Type 0 where
  tick : (d : ℕ) → Step timeout s (record s { now = s.now + d })
  pick :
      (i : ℕ) {owner : Option ℕ} {p : Pc}
      → Move i (timeout i) s.owner s.now (s.pc i) owner p
      → Step timeout s (record { owner = owner; now = s.now; pc = update s.pc i p })

abbrev pub initial : ℕ → System
initial now = record { owner = none; now = now; pc = λ _. idle }

pub data Reach (timeout : ℕ → Timeout) : System → Type 0 where
  begun : (now : ℕ) → Reach timeout (initial now)
  later : {s s' : System} → Reach timeout s → Step timeout s s' → Reach timeout s'
