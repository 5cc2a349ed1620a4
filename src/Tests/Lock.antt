-- ===== src/Tests/Lock.antt =====
-- The theorems about ops_lock.py at concrete runs.
use native.Mathlib.Decide.{ℕ_discrete}
use watchdirs.Prelude.{ℕ, ◌+◌, ◌≤◌, some, ◌≡◌, refl, true, false, List, [], ◌∷◌, arith}
use watchdirs.Lock.Processes.{
  Timeout, finite, holding, raised, locked_error, System, Reach, begun, later, pick, start, grant,
  refuse, refused, poll,
}
use watchdirs.Lock.Exclusion.{IsTimely, mutual_exclusion, Reach-IsTimely}
use watchdirs.Lock.Waiting.{
  Attempt, IsPaced, EndsBy, acquire, acquire_end, acquire-EndsBy, acquire_freed,
}

abbrev at_once : ℕ → Timeout
at_once i = finite 0

-- process 0 has the lock, and process 1 was refused
abbrev contended : (s : System) × Reach at_once s
unfolding ℕ_discrete
contended = (
  _,
  later (later (later (later (begun 7) (pick 0 start)) (pick 0 (grant refl))) (pick 1 start))
      (pick 1 (refuse refl)),
)

mutual_exclusion_example : ◌≡◌ {A = ℕ} 0 0
unfolding ℕ_discrete refused
mutual_exclusion_example = mutual_exclusion contended.1 0 0 refl refl

Reach-IsTimely_example : IsTimely (at_once 1) 7 (raised locked_error)
unfolding ℕ_discrete refused
Reach-IsTimely_example = Reach-IsTimely contended.1 1

-- refused at once and 50 milliseconds later, and then past the timeout
abbrev in_vain : List Attempt
in_vain =
    (record { granted = false; now = 100 })
    ∷ (record { granted = false; now = 50200 })
    ∷ (record { granted = false; now = 60150 })
    ∷ []

acquire-EndsBy_example :
    EndsBy
      (100 + 60000 + 100)
      (acquire (finite 60000) 100 in_vain)
      (acquire_end (finite 60000) 100 in_vain)
unfolding IsPaced refused
acquire-EndsBy_example =
    acquire-EndsBy 100 (finite 60000) 100 in_vain
      (
        omega arith,
        omega arith,
        λ _. (omega arith, omega arith, λ _. (omega arith, omega arith, λ _. tt)),
      )
      (omega arith)

-- refused, and then granted, since the lock is free from 40000 on
abbrev in_time : List Attempt
in_time =
    (record { granted = false; now = 100 })
    ∷ (record { granted = true; now = 50200 })
    ∷ (record { granted = true; now = 50200 })
    ∷ []

acquire_freed_example :
    (acquire (finite 60000) 100 in_time ≡ holding)
    × ((at : ℕ) × (acquire_end (finite 60000) 100 in_time ≡ some at)
        × (40000 ≤ at)
        × (at ≤ 40000 + poll + 100))
unfolding IsPaced refused
acquire_freed_example =
    acquire_freed 100 60000 100 40000 in_time (omega arith) (omega arith)
      (omega arith, omega arith, λ _. (omega arith, omega arith, λ h. absurd (ground (arith, h))))
      (refl, (refl, (refl, tt))) (omega arith)
