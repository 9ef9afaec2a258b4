-- ===== src/Thread/Tests.antt =====
-- Runs of the scheduler, and the theorems at a table of two threads.
use ko.Base.{ℕ, zero, suc, ◌<◌, ◌≡◌, ◌≢◌, refl, true, false, [], arith, ◌==◌, if◌then◌else◌}
use ko.Base.Run.{done, Returns}
use ko.Thread.{
  Sched, is_running, ready_at, elect_once, running, ready, wait, zombie, sched_insert, sched_elect,
  sched_switch, switch_to, thread_yield, thread_wait, thread_exit,
}
use ko.Thread.Samples.{a_thread, tab, two_threads}
use ko.Thread.Elect.{IsElected, sched_elect-IsElected}
use ko.Thread.Invariant.{
  IsValid, IsIdle, IsLeft, thread_yield-IsValid, thread_wait-IsLeft, thread_exit-IsLeft,
}
use ko.Thread.Turns.{IsReached, yield_until, yield_until-IsReached}
use ko.Thread.Lifecycle.{IsInserted, sched_insert-IsInserted}

two_threads-IsValid : IsValid (two_threads running ready)
two_threads-IsValid = record {
  cur_in = omega arith;
  cur = refl;
  cur_some = omega arith;
  tids = tids;
  alone = alone;
}
  where
    tids : (j : ℕ) → j < 4 → tab j ≢ 0 → ((two_threads running ready).thread (tab j)).tid ≡ j
    tids zero h n = refl
    tids (suc zero) h n = absurd (n refl)
    tids (suc (suc zero)) h n = refl
    tids (suc (suc (suc j))) h n = absurd (n refl)

    alone :
        (j : ℕ)
        → j < 4
        → tab j ≢ 0
        → is_running ((two_threads running ready).thread (tab j)).state ≡ true
        → j ≡ 0
    alone zero h n e = refl
    alone (suc zero) h n e = absurd (n refl)
    alone (suc (suc zero)) h n e = cc
    alone (suc (suc (suc j))) h n e = absurd (n refl)

yields : Returns (λ s. s.current ≡ 200) (thread_yield [] (two_threads running ready))
unfolding thread_yield sched_switch sched_elect elect_once ready_at switch_to
yields = refl

sched_elect-IsElected_example :
    (i : ℕ) × (sched_elect [] (two_threads wait ready) ≡ done (i, two_threads wait ready))
    × IsElected (two_threads wait ready) i
unfolding ready_at
sched_elect-IsElected_example =
    sched_elect-IsElected [] (two_threads wait ready) 2 (omega arith) (omega arith) refl

thread_yield-IsValid_example : Returns IsValid (thread_yield [] (two_threads running ready))
thread_yield-IsValid_example = thread_yield-IsValid [] two_threads-IsValid

thread_wait-IsLeft_example :
    Returns (IsLeft (two_threads running ready) wait) (thread_wait [] (two_threads running ready))
unfolding ready_at
thread_wait-IsLeft_example =
    thread_wait-IsLeft [] 2 two_threads-IsValid refl (omega arith) (omega arith) refl

thread_exit-IsLeft_example :
    Returns
      (IsLeft (two_threads running ready) zombie)
      (thread_exit [] (two_threads running ready) 7)
unfolding ready_at
thread_exit-IsLeft_example =
    thread_exit-IsLeft [] 2 7 two_threads-IsValid (omega arith) (omega arith) (omega arith) refl

yield_until-IsReached_example :
    Returns (IsReached 2 2) (yield_until 4 [] 2 0 (two_threads running ready))
unfolding ready_at
yield_until-IsReached_example = yield_until-IsReached [] 2 two_threads-IsValid (omega arith) refl

other : (j : ℕ) → j < 4 → tab j ≢ 300
other zero h = omega arith
other (suc zero) h = omega arith
other (suc (suc zero)) h = omega arith
other (suc (suc (suc j))) h = omega arith

sched_insert-IsInserted_example :
    Returns
      (IsInserted (two_threads running ready) 300)
      (sched_insert (two_threads running ready) 300)
sched_insert-IsInserted_example =
    sched_insert-IsInserted 300 1 two_threads-IsValid (omega arith) other refl (omega arith) refl

-- Thread 100 is joined by thread 200.
abbrev joined : Sched
joined = record (two_threads running wait) {
  thread = λ p. if p == 100 then record (a_thread 0 running) { join = 200 } else a_thread 2 wait;
}

stopped-IsIdle : IsIdle (two_threads zombie wait)
stopped-IsIdle = record {
  cur_in = omega arith;
  cur = refl;
  cur_some = omega arith;
  tids = tids;
  idle = idle;
}
  where
    tids : (j : ℕ) → j < 4 → tab j ≢ 0 → ((two_threads zombie wait).thread (tab j)).tid ≡ j
    tids zero h n = refl
    tids (suc zero) h n = absurd (n refl)
    tids (suc (suc zero)) h n = refl
    tids (suc (suc (suc j))) h n = absurd (n refl)

    idle :
        (j : ℕ)
        → j < 4
        → tab j ≢ 0
        → is_running ((two_threads zombie wait).thread (tab j)).state ≡ false
    idle zero h n = refl
    idle (suc zero) h n = refl
    idle (suc (suc zero)) h n = refl
    idle (suc (suc (suc j))) h n = refl

stopped-not-ready : (j : ℕ) → j < 4 → ready_at (two_threads zombie wait) j ≡ false
unfolding ready_at
stopped-not-ready zero h = refl
stopped-not-ready (suc zero) h = refl
stopped-not-ready (suc (suc zero)) h = refl
stopped-not-ready (suc (suc (suc j))) h = refl
