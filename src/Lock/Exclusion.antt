-- ===== src/Lock/Exclusion.antt =====
-- ops_lock.py: what holds of the processes of Lock/Processes.antt in every reachable state.
use mathlib.Core.Logic.{if_pos, if_neg}
use native.Mathlib.Decide.{ℕ_discrete}
use watchdirs.Prelude.{
  ℕ, ◌+◌, ◌-◌, ◌≡◌, ◌≢◌, ◌≤◌, refl, leb, leb→le, ◌==◌, if-cases, subst, Option, some, arith,
}
use watchdirs.Lock.Processes.{
  Timeout, finite, value_error, locked_error, timeout_error, Pc, idle, trying, sleeping, holding,
  closed, raised, limit, begin, refused, Move, start, grant, refuse, wake, release, release_again,
  update, System, Step, tick, pick, Reach, begun, later,
}

-- What the locals of a process say about its timeout and the clock.
abbrev pub IsTimely : Timeout → ℕ → Pc → Type 0
IsTimely t now (trying s) = (t ≡ finite (limit t)) × (s ≤ now)
IsTimely t now (sleeping s w) = (t ≡ finite (limit t)) × (s ≤ now) × (w ≤ s + limit t)
IsTimely t now (raised locked_error) = t ≡ finite 0
IsTimely t now (raised (timeout_error waited)) = (t ≡ finite (limit t)) × (limit t ≤ waited)
IsTimely t now (raised value_error) = t ≢ finite (limit t)
IsTimely t now holding = t ≡ finite (limit t)
IsTimely t now closed = t ≡ finite (limit t)
IsTimely t now idle = Unit

pub record Inv (timeout : ℕ → Timeout) (s : System) : Type 0 where
  pub owns : (i : ℕ) → s.pc i ≡ holding → s.owner ≡ some i
  pub held : (i : ℕ) → s.owner ≡ some i → s.pc i ≡ holding
  pub timely : (i : ℕ) → IsTimely (timeout i) s.now (s.pc i)

refused-IsTimely :
    (t : Timeout) (s now : ℕ)
    → t ≡ finite (limit t)
    → s ≤ now
    → IsTimely t now (refused (limit t) s now)
unfolding refused
refused-IsTimely t s now h le =
    if-cases (IsTimely t now) (limit t == 0) (λ e. ground arith)
      λ pos_.
        if-cases (IsTimely t now) (leb (limit t) (now - s)) (λ late. (h, leb→le _ _ late))
          (λ early. (h, le, ground arith))

-- a move that is not granted leaves a process without the lock
begin-ne-holding : (t : Timeout) (now : ℕ) → begin t now ≢ holding
begin-ne-holding (finite t) now = cc
begin-ne-holding Timeout.negative now = cc
begin-ne-holding Timeout.not_finite now = cc

refused-ne-holding : (t s now : ℕ) → refused t s now ≢ holding
unfolding refused
refused-ne-holding t s now h = ground arith

IsTimely-later : (t : Timeout) (now d : ℕ) (p : Pc) → IsTimely t now p → IsTimely t (now + d) p
IsTimely-later t now d (trying s) h = ground arith
IsTimely-later t now d (sleeping s w) h = ground arith
IsTimely-later t now d (raised locked_error) h = h
IsTimely-later t now d (raised (timeout_error waited)) h = h
IsTimely-later t now d (raised value_error) h = h
IsTimely-later t now d holding h = h
IsTimely-later t now d closed h = h
IsTimely-later t now d idle h = h

Move-IsTimely :
    {i : ℕ} {t : Timeout} {owner owner' : Option ℕ} {now : ℕ} {p p' : Pc}
    → Move i t owner now p owner' p'
    → IsTimely t now p
    → IsTimely t now p'
Move-IsTimely {t = finite d} start h = (refl, omega arith)
Move-IsTimely {t = Timeout.negative} start h = cc
Move-IsTimely {t = Timeout.not_finite} start h = cc
Move-IsTimely (grant free) h = h.0
Move-IsTimely {t} {now} (refuse {s} busy) h = refused-IsTimely t s now h.0 h.1
Move-IsTimely (wake over) h = (h.0, h.1)
Move-IsTimely release h = h
Move-IsTimely release_again h = h

module _ {timeout : ℕ → Timeout} {s : System} (inv : Inv timeout s) (i : ℕ) where
  Move-owns :
      {owner : Option ℕ} {p p' : Pc}
      → Move i (timeout i) s.owner s.now p owner p'
      → s.pc i ≡ p
      → (j : ℕ) → update s.pc i p' j ≡ holding
      → owner ≡ some j
  Move-owns {p'} start here j h = ground (arith, inv.owns j, begin-ne-holding (timeout i) s.now)
  Move-owns (grant free) here j h = ground (arith, inv.owns j)
  Move-owns (refuse {s = begun_at} busy) here j h =
      ground (arith, inv.owns j, refused-ne-holding (limit (timeout i)) begun_at s.now)
  Move-owns (wake over) here j h = ground (arith, inv.owns j)
  Move-owns release here j h = ground (arith, inv.owns j, inv.owns i)
  Move-owns release_again here j h = ground (arith, inv.owns j)

  Move-held :
      {owner : Option ℕ} {p p' : Pc}
      → Move i (timeout i) s.owner s.now p owner p'
      → s.pc i ≡ p
      → (j : ℕ) → owner ≡ some j
      → update s.pc i p' j ≡ holding
  Move-held start here j h = ground (arith, inv.held j)
  Move-held (grant free) here j h = ground (arith, inv.held j)
  Move-held (refuse busy) here j h = ground (arith, inv.held j)
  Move-held (wake over) here j h = ground (arith, inv.held j)
  Move-held release here j h = ground arith
  Move-held release_again here j h = ground (arith, inv.held j)

  Move-Inv :
      {owner : Option ℕ} {p p' : Pc}
      → Move i (timeout i) s.owner s.now p owner p'
      → s.pc i ≡ p
      → Inv timeout (record { owner = owner; now = s.now; pc = update s.pc i p' })
  Move-Inv {p} {p'} mv here = record {
    owns = Move-owns mv here;
    held = Move-held mv here;
    timely = λ j. elim (ℕ_discrete i j) [
      | yes same ↦ rw (if_pos _ same) (
          subst (λ k. IsTimely (timeout k) s.now p') same
            (Move-IsTimely mv (subst (IsTimely (timeout i) s.now) here (inv.timely i))))
      | no other ↦ rw (if_neg _ other) (inv.timely j)
    ];
  }

Step-Inv :
    {timeout : ℕ → Timeout} {s s' : System} → Step timeout s s' → Inv timeout s → Inv timeout s'
Step-Inv {timeout} {s} (tick d) inv = record {
  owns = inv.owns;
  held = inv.held;
  timely = λ i. IsTimely-later (timeout i) s.now d (s.pc i) (inv.timely i);
}
Step-Inv (pick i mv) inv = Move-Inv inv i mv refl

Reach-Inv : {timeout : ℕ → Timeout} {s : System} → Reach timeout s → Inv timeout s
Reach-Inv (begun now) = record {
  owns = λ i h. ground arith;
  held = λ i h. ground arith;
  timely = λ i. tt;
}
Reach-Inv (later r step) = Step-Inv step (Reach-Inv r)

-- Two processes never hold the lock together, in any interleaving of any number of them.
pub mutual_exclusion :
    {timeout : ℕ → Timeout} {s : System}
    → Reach timeout s
    → (i j : ℕ) → s.pc i ≡ holding
    → s.pc j ≡ holding
    → i ≡ j
mutual_exclusion r i j in_i in_j =
    let inv = Reach-Inv r in ground (arith, inv.owns i in_i, inv.owns j in_j)

-- In every reachable state a process that sleeps wakes within its timeout, one that gave up for its
-- timeout has waited that long, one that gave up at once has a timeout of 0, one that raised
-- ValueError has no finite timeout that is not negative, and only a finite timeout that is not negative leads to the
-- lock.
pub Reach-IsTimely :
    {timeout : ℕ → Timeout} {s : System}
    → Reach timeout s
    → (i : ℕ) → IsTimely (timeout i) s.now (s.pc i)
Reach-IsTimely r i = (Reach-Inv r).timely i
