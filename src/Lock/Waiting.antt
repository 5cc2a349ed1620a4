-- ===== src/Lock/Waiting.antt =====
-- ops_lock.py: the loop of `acquire_operation_lock` as one process sees it, and that it ends.
use watchdirs.Prelude.{
  Option, none, some, refl, ◌∙◌, ℕ, ◌+◌, ◌-◌, ◌*◌, ◌≡◌, ◌≤◌, Bool, false, List, [], ◌∷◌, ltb, leb,
  ◌==◌, ◌<◌, if◌then◌else◌, Bool-cases, inl, inr, ◌⊎◌, Empty, subst, All, arith, length,
}
use watchdirs.Lock.Processes.{
  Timeout, finite, limit, Pc, trying, sleeping, holding, LockError, locked_error, timeout_error,
  raised, begin, poll, shorter, refused,
}

-- What one turn of the loop meets: whether `flock` grants the lock, and the time if it does not.
pub record Attempt : Type 0 where
  pub granted : Bool
  pub now : ℕ

-- after an attempt: a sleep ends with the next turn
abbrev pub resume : Pc → Pc → Pc
resume (sleeping s w) next = next
resume p next = p

-- the `while` loop over the attempts that there are; `trying` when these run out
unfoldable pub attempts_from : ℕ → ℕ → List Attempt → Pc
attempts_from t started [] = trying started
attempts_from t started (a ∷ rest) =
    let next = attempts_from t started rest in
    if a.granted then holding else resume (refused t started a.now) next

abbrev wake_time : ℕ → Pc → ℕ
wake_time now (sleeping s w) = w
wake_time now p = now

-- Each turn starts when its sleep is over, and at most `late` after it: the clock never goes back,
-- and `time.sleep` and `flock` together take no more than that.
unfoldable pub IsPaced : ℕ → ℕ → ℕ → ℕ → List Attempt → Type 0
IsPaced late t started from [] = Unit
IsPaced late t started from (a ∷ rest) =
    (from ≤ a.now)
    × (a.now ≤ from + late)
    × (a.granted ≡ false → IsPaced late t started (wake_time a.now (refused t started a.now)) rest)

-- the time of the turn in which the loop ends
abbrev pub ended_after : ℕ → Pc → Option ℕ → Option ℕ
ended_after now (sleeping s w) next = next
ended_after now p next = some now

unfoldable pub ended_at : ℕ → ℕ → List Attempt → Option ℕ
ended_at t started [] = none
ended_at t started (a ∷ rest) =
    let next = ended_at t started rest in
    if a.granted then some a.now else ended_after a.now (refused t started a.now) next

-- The loop is over: with the lock, or with an exception.
abbrev pub IsOver : Pc → Type 0
IsOver holding = Unit
IsOver (raised e) = Unit
IsOver p = Empty

-- One refusal: the loop is over, or it sleeps and wakes later, within the timeout.
refused-cases :
    (t started now : ℕ)
    → started ≤ now
    → ((e : LockError) × (refused t started now ≡ raised e)) ⊎ (record {
      asleep : (w : ℕ) × (refused t started now ≡ sleeping started w);
      early : now < started + t;
      within : (now ≤ asleep.0) × (asleep.0 ≤ started + t);
      long : (started + t ≤ asleep.0) ⊎ (now + poll ≤ asleep.0);
    })
unfolding refused
refused-cases t started now le = elim (Bool-cases (t == 0)) [
  | inl none_ ↦ inl (locked_error, rw none_)
  | inr some_ ↦ elim (Bool-cases (leb t (now - started))) [
    | inl late ↦ inl (timeout_error (now - started), rw (some_, late))
    | inr soon ↦ inr (record {
      asleep = (now + shorter poll (t - (now - started)), rw (some_, soon));
      early = ground arith;
      within = ground arith;
      long = elim (Bool-cases (ltb (t - (now - started)) poll)) [
        | inl cut ↦ inl (ground arith)
        | inr full ↦ inr (ground arith)
      ];
    })
  ]
]

-- The loop is over, at a time that is no later than a bound.
abbrev pub EndsBy : ℕ → Pc → Option ℕ → Type 0
EndsBy bound p end_ = IsOver p × ((at : ℕ) × (end_ ≡ some at) × (at ≤ bound))

attempts_from-EndsBy :
    (late t started from : ℕ) (as' : List Attempt)
    → started ≤ from
    → from ≤ started + t
    → IsPaced late t started from as'
    → t + poll ≤ (from - started) + poll * length as'
    → EndsBy (started + t + late) (attempts_from t started as') (ended_at t started as')
unfolding attempts_from IsPaced ended_at
attempts_from-EndsBy late t started from [] le within paced enough = absurd (omega arith)
attempts_from-EndsBy late t started from (a ∷ rest) le within paced enough =
    let soon : a.now ≤ started + t + late = omega (arith, paced.1, within) in
    elim (Bool-cases a.granted) [
      | inl e ↦ rw e (tt, (a.now, refl, soon))
      | inr e ↦ elim (refused-cases t started a.now (omega (arith, le, paced.0))) [
        | inl (err, f) ↦ rw (e, f) (tt, (a.now, refl, soon))
        | inr s ↦
            let w = s.asleep.0 in
            let f = s.asleep.1 in
            rw (e, f)
              (attempts_from-EndsBy late t started w rest (omega arith) s.within.1
                (subst (λ p. IsPaced late t started (wake_time a.now p) rest) f (paced.2 e))
                (elim s.long [ inl u ↦ omega arith | inr u ↦ omega arith ]))
      ]
    ]

-- `acquire_operation_lock`
unfoldable pub acquire : Timeout → ℕ → List Attempt → Pc
acquire t now as' = elim (begin t now) [
  | trying started ↦ attempts_from (limit t) started as'
  | p ↦ p
]

-- the time at which it returns or raises
unfoldable pub acquire_end : Timeout → ℕ → List Attempt → Option ℕ
acquire_end t now as' = elim (begin t now) [
  | trying started ↦ ended_at (limit t) started as'
  | p ↦ some now
]

-- With any timeout the acquisition ends, with the lock or with an exception, within the timeout: at
-- most `late` after it, where each turn starts at most `late` after its sleep is over. A turn for
-- each 50 milliseconds of the timeout and one more are enough.
pub acquire-EndsBy :
    (late : ℕ) (t : Timeout) (now : ℕ) (as' : List Attempt)
    → IsPaced late (limit t) now now as'
    → limit t + poll ≤ poll * length as'
    → EndsBy (now + limit t + late) (acquire t now as') (acquire_end t now as')
unfolding acquire acquire_end
acquire-EndsBy late (finite t) now as' paced enough =
    attempts_from-EndsBy late t now now as' (omega arith) (omega arith) paced (omega arith)
acquire-EndsBy late Timeout.negative now as' paced enough = (tt, (now, refl, omega arith))
acquire-EndsBy late Timeout.not_finite now as' paced enough = (tt, (now, refl, omega arith))

-- The lock is free from the time `freed` on: before it every attempt is refused, and from then on
-- every attempt is granted.
abbrev pub IsFreed : ℕ → List Attempt → Type 0
IsFreed freed as' = All (λ a. a.granted ≡ leb freed a.now) as'

refused_early :
    (t started now : ℕ)
    → started ≤ now
    → now < started + t
    → (w : ℕ) × (refused t started now ≡ sleeping started w)
      × (w ≤ now + poll)
      × (w ≤ started + t)
      × ((started + t ≤ w) ⊎ (now + poll ≤ w))
      × (now ≤ w)
unfolding refused
refused_early t started now le early =
    let some_ : (t == 0) ≡ false = ground (arith, le, early) in
    let soon : leb t (now - started) ≡ false = ground (arith, le, early) in
    let w = now + shorter poll (t - (now - started)) in
    (
      w,
      rw (some_, soon) refl,
      ground arith,
      ground arith,
      elim (Bool-cases (ltb (t - (now - started)) poll)) [
        | inl cut ↦ inl (ground arith)
        | inr full ↦ inr (ground arith)
      ],
      ground arith,
    )

attempts_from_freed :
    (late t started freed from : ℕ) (as' : List Attempt)
    → started ≤ from
    → from ≤ started + t
    → freed ≤ started + t
    → from ≤ freed + poll
    → IsPaced late t started from as'
    → IsFreed freed as'
    → t + poll ≤ (from - started) + poll * length as'
    → (attempts_from t started as' ≡ holding)
      × ((at : ℕ) × (ended_at t started as' ≡ some at) × (freed ≤ at) × (at ≤ freed + poll + late))
unfolding attempts_from IsPaced ended_at
attempts_from_freed late t started freed from [] le within free near paced served enough =
    absurd (omega arith)
attempts_from_freed late t started freed from (a ∷ rest) le within free near paced served enough =
    elim (Bool-cases (leb freed a.now)) [
      | inl now_free ↦
          let won = served.0 ∙ now_free in
          rw won (refl, (a.now, refl, ground (arith, now_free), omega (arith, paced.1, near)))
      | inr not_yet ↦
          let lost = served.0 ∙ not_yet in
          let before : a.now < freed = ground (arith, not_yet) in
          let s =
            refused_early t started a.now (omega (arith, le, paced.0))
              (omega (arith, before, free)) in
          let w = s.0 in
          rw (lost, s.1)
            (attempts_from_freed late t started freed w rest (omega (arith, le, paced.0, s.5)) s.3
              free (omega (arith, s.2, before))
              (subst (λ p. IsPaced late t started (wake_time a.now p) rest) s.1 (paced.2 lost))
              served.1 (elim (s.4) [ inl u ↦ omega arith | inr u ↦ omega arith ]))
    ]

-- A process that waits for a lock gets it once it is released: if the lock is released at `freed`,
-- before the deadline, and is free from then on, then the acquisition ends with the lock, at most
-- 50 milliseconds and `late` after the release.
pub acquire_freed :
    (late t now freed : ℕ) (as' : List Attempt)
    → now ≤ freed
    → freed ≤ now + t
    → IsPaced late t now now as'
    → IsFreed freed as'
    → t + poll ≤ poll * length as'
    → (acquire (finite t) now as' ≡ holding)
      × ((at : ℕ) × (acquire_end (finite t) now as' ≡ some at)
          × (freed ≤ at)
          × (at ≤ freed + poll + late))
unfolding acquire acquire_end
acquire_freed late t now freed as' later free paced served enough =
    attempts_from_freed late t now freed now as' (omega arith) (omega arith) free
      (omega (arith, later)) paced served (omega (arith, enough))
