-- ===== src/Thread/Samples.antt =====
-- A scheduler with two threads, for the tests.
use ko.Base.{ℕ, zero, suc, ◌≡◌, refl, [], ◌==◌, if◌then◌else◌}
use ko.Base.Run.{done}
use ko.Thread.{
  Sched, Thread, State, running, ready, wait, set_state, sched_switch, sched_elect, elect_once,
  ready_at, switch_to, thread_wait,
}

abbrev pub a_thread : ℕ → State → Thread
a_thread tid state = record {
  state = state;
  join = 0;
  retval = 0;
  ustack_b = 0;
  start = 0;
  fun = 0;
  arg = 0;
  pid = 0;
  tid = tid;
}

-- Threads at the addresses 100 (place 0) and 200 (place 2).
abbrev pub tab : ℕ → ℕ
tab zero = 100
tab (suc zero) = 0
tab (suc (suc zero)) = 200
tab _ = 0

abbrev pub two_threads : State → State → Sched
two_threads a b = record {
  tab = tab;
  current_idx = 0;
  current = 100;
  thread =
      λ p. if p == 100 then a_thread 0 a else if p == 200 then a_thread 2 b else a_thread 0 ready;
  freed_stacks = [];
  freed = [];
}

-- What is left when the first thread waits: the second runs.
abbrev pub waited : Sched
waited =
    let s = set_state (two_threads running ready) 100 wait in
    set_state (record s { current_idx = 2; current = 200 }) 200 running

pub waits_here : thread_wait [] (two_threads running ready) ≡ done waited
unfolding thread_wait sched_switch sched_elect elect_once ready_at switch_to
waits_here = refl
