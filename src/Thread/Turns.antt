-- ===== src/Thread/Turns.antt =====
-- Round robin: how long a READY thread waits.
use ko.Base.{
  ℕ, zero, suc, ◌+◌, ◌<◌, ◌≤◌, ◌≡◌, ◌≢◌, refl, true, List, arith, ◌==◌, if◌then◌else◌, Bool-cases,
  inl, inr,
}
use ko.Base.Run.{Run, done, out_of_fuel, ◌>>=◌, Returns, Returns-bind, Returns-weaken}
use ko.Thread.{Sched, ready, thread_max, ready_at, set_state, switch_to, sched_switch, thread_yield}
use ko.Thread.Elect.{turn, IsElected, sched_elect-IsElected}
use ko.Thread.Invariant.{IsValid, IsIdle, stop-IsIdle, switch_to-IsValid}

-- What one change of thread does for the READY thread at place `j`: it runs, or its turn is nearer.
abbrev Nearer : Sched → ℕ → Sched → Type 0
Nearer s j s' = s'.current_idx ≢ j → turn s' j < turn s j

switch_to-Nearer :
    {s : Sched} (i j : ℕ)
    → s.current_idx < thread_max
    → j < thread_max
    → ready_at s j ≡ true
    → IsElected s i
    → Nearer s j (switch_to (i, s))
unfolding switch_to
switch_to-Nearer {s} i j c h r el = λ ne. ground (arith, el.first j h r, el.in_table)

-- The same, with the scheduler in order again, and a thread that is not elected still READY.
record Stepped (s : Sched) (j : ℕ) (s' : Sched) : Type 0 where
  valid : IsValid s'
  nearer : Nearer s j s'
  still : s'.current_idx ≢ j → ready_at s' j ≡ true

switch_to-ready_at :
    {s : Sched} (i j : ℕ)
    → IsIdle s
    → i < thread_max
    → j < thread_max
    → ready_at s i ≡ true
    → ready_at s j ≡ true
    → (switch_to (i, s)).current_idx ≢ j
    → ready_at (switch_to (i, s)) j ≡ true
unfolding switch_to ready_at
switch_to-ready_at {s} i j v hi hj ri rj n =
    ground (arith, v.tids i hi, v.tids j hj, v.tids s.current_idx v.cur_in, v.cur)

thread_yield-Stepped :
    {s : Sched} (irqs : List (Sched → Sched)) (j : ℕ)
    → IsValid s
    → j < thread_max
    → ready_at s j ≡ true
    → Returns (Stepped s j) (thread_yield irqs s)
unfolding thread_yield sched_switch
thread_yield-Stepped {s} irqs j v h r =
    let s0 = set_state s s.current ready in
    let r0 : ready_at s0 j ≡ true = unfold ready_at in ground arith in
    let (i, e, el) = sched_elect-IsElected irqs s0 j v.cur_in h r0 in
    let v0 = stop-IsIdle ready refl v in
    rw e (record {
      valid = switch_to-IsValid i v0 el.in_table el.ready;
      nearer = switch_to-Nearer {s = s0} i j v.cur_in h r0 el;
      still = switch_to-ready_at {s = s0} i j v0 el.in_table h el.ready r0;
    })

-- `thread_yield` called by one thread after the other, until the thread at place `j` runs, at most `n`
-- times; the number of calls is counted from `k` on.
pub yield_until : ℕ → List (Sched → Sched) → ℕ → ℕ → Sched → Run (ℕ × Sched)
yield_until zero irqs j k s = out_of_fuel
yield_until (suc n) irqs j k s = thread_yield irqs s >>= λ s1.
    if s1.current_idx == j then done (k + 1, s1) else yield_until n irqs j (k + 1) s1

-- The thread at place `j` runs, the scheduler is in order, and there were at most `m` calls.
pub record IsReached (j m : ℕ) (r : ℕ × Sched) : Type 0 where
  runs : r.1.current_idx ≡ j
  valid : IsValid r.1
  calls : r.0 ≤ m

yield_until-turn :
    (n k : ℕ) {s : Sched} (irqs : List (Sched → Sched)) (j : ℕ)
    → turn s j < n
    → IsValid s
    → j < thread_max
    → ready_at s j ≡ true
    → Returns (IsReached j (k + turn s j + 1)) (yield_until n irqs j k s)
unfolding yield_until
yield_until-turn zero k irqs j l v h r = absurd (omega (arith, l))
yield_until-turn (suc n) k {s} irqs j l v h r =
    Returns-bind (Stepped s j) (IsReached j (k + turn s j + 1)) (thread_yield irqs s)
      (λ s1. if s1.current_idx == j then done (k + 1, s1) else yield_until n irqs j (k + 1) s1)
      (thread_yield-Stepped irqs j v h r)
      (λ s1 p. elim (Bool-cases (s1.current_idx == j)) [
        | inl e ↦ rw e (record { runs = ground arith; valid = p.valid; calls = omega arith })
        | inr e ↦
            let n1 : s1.current_idx ≢ j = λ z. ground (arith, z) in
            let l1 : turn s1 j < n = omega (arith, l, p.nearer n1) in
            rw e (
              Returns-weaken (IsReached j (k + 1 + turn s1 j + 1)) (IsReached j (k + turn s j + 1))
                (yield_until n irqs j (k + 1) s1)
                (yield_until-turn n (k + 1) irqs j l1 p.valid h (p.still n1))
                (λ q w. record {
                  runs = w.runs;
                  valid = w.valid;
                  calls = omega (arith, w.calls, p.nearer n1);
                }))
      ])

-- Where the scheduler is in order, a READY thread runs after at most four calls of `thread_yield`, whoever
-- runs in between: after at most one more than there are places before its own in turn.
pub yield_until-IsReached :
    {s : Sched} (irqs : List (Sched → Sched)) (j : ℕ)
    → IsValid s
    → j < thread_max
    → ready_at s j ≡ true
    → Returns (IsReached j (turn s j + 1)) (yield_until thread_max irqs j 0 s)
yield_until-IsReached {s} irqs j v h r =
    Returns-weaken (IsReached j (0 + turn s j + 1)) (IsReached j (turn s j + 1))
      (yield_until thread_max irqs j 0 s) (yield_until-turn thread_max 0 irqs j (omega arith) v h r)
      (λ q w. record { runs = w.runs; valid = w.valid; calls = omega (arith, w.calls) })
