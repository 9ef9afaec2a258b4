-- ===== src/Thread/Lifecycle.antt =====
-- The life of a thread: insertion, notification, exit and join, and what goes wrong there.
use ko.Base.{
  ℕ, zero, suc, ◌+◌, ◌≤◌, ◌<◌, ◌≡◌, ◌≢◌, refl, inl, inr, true, false, List, [], ◌∷◌, arith, ◌==◌,
  Bool-cases, not, ◌&&◌, dec_lt,
}
use ko.Base.Run.{done, panic, out_of_fuel, Returns}
use ko.Thread.{
  Sched, ready, running, wait, zombie, dead, thread_max, ready_at, is_running, set_state, free_tid,
  sched_insert, sched_switch, thread_wait, thread_notify, exit_current, thread_destroy, join_finish,
  process_threads_cleanup, tick_event, thread_yield, switch_to, sched_unlink,
}
use ko.Thread.Elect.{sched_elect-IsElected}
use ko.Thread.Invariant.{IsValid, IsIdle}

-- The search for a free place from `tid` on stops at the first one, or past the end.
record IsFirstFree (left : ℕ) (tab : ℕ → ℕ) (tid k : ℕ) : Type 0 where
  least : tid ≤ k
  most : k ≤ tid + left
  used : (j : ℕ) → tid ≤ j → j < k → tab j ≢ 0
  free : k < tid + left → tab k ≡ 0

free_tid-first :
    (left : ℕ) (tab : ℕ → ℕ) (tid : ℕ) → IsFirstFree left tab tid (free_tid left tab tid)
unfolding free_tid
free_tid-first zero tab tid = record {
  least = omega arith;
  most = omega arith;
  used = λ j h k. absurd (omega arith);
  free = λ h. absurd (omega arith);
}
free_tid-first (suc left) tab tid = elim (Bool-cases (tab tid == 0)) [
  | inl e ↦
      rw (e, free_tid)
        (record {
          least = omega arith;
          most = omega arith;
          used = λ j h k. absurd (omega arith);
          free = λ h. ground arith;
        })
  | inr e ↦
      let r = free_tid-first left tab (tid + 1) in
      rw (e, free_tid)
        (record {
          least = omega arith;
          most = omega arith;
          used = λ j h lt. ground (arith, r.used j);
          free = λ h. r.free (omega arith);
        })
]

-- What the insertion of the thread `t` into the table of `s` leaves.
pub record IsInserted (s : Sched) (t : ℕ) (s' : Sched) : Type 0 where
  pub valid : IsValid s'
  pub place : s'.tab (s'.thread t).tid ≡ t
  pub was_free : s.tab (s'.thread t).tid ≡ 0
  pub lowest : (j : ℕ) → j < (s'.thread t).tid → s.tab j ≢ 0
  pub others : (j : ℕ) → j ≢ (s'.thread t).tid → s'.tab j ≡ s.tab j

-- Where a place is free, a thread that is not in the table and does not run gets the lowest free place,
-- and the scheduler stays valid.
pub sched_insert-IsInserted :
    {s : Sched} (t free : ℕ)
    → IsValid s
    → t ≢ 0
    → ((j : ℕ) → j < thread_max → s.tab j ≢ t)
    → is_running (s.thread t).state ≡ false
    → free < thread_max
    → s.tab free ≡ 0
    → Returns (IsInserted s t) (sched_insert s t)
unfolding sched_insert
sched_insert-IsInserted {s} t free v nz new stopped fh fe =
    let r = free_tid-first thread_max s.tab 0 in
    let tid : ℕ = free_tid thread_max s.tab 0 in
    let lt : tid < thread_max = elim (dec_lt tid thread_max) [
      | yes p ↦ p
      | no p ↦ absurd (r.used free (omega arith) (omega arith) fe)
    ] in
    let room : (tid == thread_max) ≡ false = ground arith in
    rw (room, sched_insert)
      (record {
        valid = record {
          cur_in = v.cur_in;
          cur = ground (arith, v.cur, v.cur_some, r.free);
          cur_some = ground (arith, v.cur_some);
          tids = λ j h n. ground (arith, v.tids j h, new j h);
          alone = λ j h n. ground (arith, v.alone j h, new j h);
        };
        place = ground arith;
        was_free = ground (arith, r.free);
        lowest = λ j h. ground (arith, r.used j);
        others = λ j h. ground arith;
      })

-- A full table ends the kernel.
pub sched_insert-full :
    (s : Sched) (t : ℕ) → ((j : ℕ) → j < thread_max → s.tab j ≢ 0) → sched_insert s t ≡ panic
unfolding sched_insert
sched_insert-full s t full =
    let r = free_tid-first thread_max s.tab 0 in
    let e : (free_tid thread_max s.tab 0 == thread_max) ≡ true =
      elim (dec_lt (free_tid thread_max s.tab 0) thread_max) [
        | yes p ↦ absurd (full _ p (r.free p))
        | no p ↦ ground (arith, r.most)
      ] in
    rw e

-- If the current thread, which stands in the table, is notified before it calls `thread_wait`, that call
-- comes back, and the thread does not wait.
pub thread_wait-thread_notify :
    (irqs : List (Sched → Sched)) (s : Sched)
    → s.current_idx < thread_max
    → s.tab s.current_idx ≡ s.current
    → s.current ≢ 0
    → Returns
        (λ s'. (s'.thread s.current).state ≢ wait)
        (thread_wait irqs (thread_notify s s.current))
unfolding thread_wait thread_notify sched_switch switch_to
thread_wait-thread_notify irqs s c e nz =
    let s0 = thread_notify s s.current in
    let r : ready_at s0 s.current_idx ≡ true = unfold ready_at in ground arith in
    let (i, el, _) = sched_elect-IsElected irqs s0 s.current_idx c c r in ground (arith, el)

-- Where another thread has joined the current one, `thread_exit` keeps the return value, makes the
-- current thread a ZOMBIE, and makes the thread that joined READY.
pub exit_current-join :
    (s : Sched) (retval : ℕ)
    → (s.thread s.current).join ≢ 0
    → (s.thread s.current).join ≢ s.current
    → let s' = exit_current s retval in
      ((s'.thread s.current).retval ≡ retval)
      × ((s'.thread s.current).state ≡ zombie)
      × ((s'.thread (s.thread s.current).join).state ≡ ready)
unfolding exit_current
exit_current-join s retval j ne = ground arith

-- The value that a thread gives to `thread_exit` is the one that the end of `thread_join` returns for it;
-- the thread then leaves the table, no other does, and its stack and its structure are given back,
-- each once.
pub join_finish-exit_current :
    (s : Sched) (retval : ℕ)
    → let t = s.current in
      Returns
        (λ (value, s').
          (value ≡ retval)
          × (s'.tab (s.thread t).tid ≡ 0)
          × ((j : ℕ) → j ≢ (s.thread t).tid → s'.tab j ≡ s.tab j)
          × (s'.freed ≡ t ∷ s.freed)
          × (s'.freed_stacks ≡ (s.thread t).ustack_b ∷ s.freed_stacks))
        (join_finish (exit_current s retval) t)
unfolding join_finish thread_destroy sched_unlink exit_current
join_finish-exit_current s retval = ground arith

-- Only a DEAD thread can be destroyed.
pub thread_destroy-panic :
    (s : Sched) (t : ℕ) → (s.thread t).state ≢ dead → thread_destroy s t ≡ panic
unfolding thread_destroy
thread_destroy-panic s t h = ground arith

thread_destroy_dead :
    (s : Sched) (t : ℕ) → (s' : Sched) × (thread_destroy (set_state s t dead) t ≡ done s')
unfolding thread_destroy
thread_destroy_dead s t =
    let s1 = set_state s t dead in
    let s2 = record s1 { freed_stacks = (s1.thread t).ustack_b ∷ s1.freed_stacks } in
    (record (sched_unlink s2 t) { freed = t ∷ (sched_unlink s2 t).freed }, ground arith)

-- `process_threads_cleanup` never ends, whatever the fuel: its loop stays at thread 0.
pub process_threads_cleanup-loops :
    (fuel : ℕ) (s : Sched) (pid : ℕ) → process_threads_cleanup fuel s pid 0 ≡ out_of_fuel
unfolding process_threads_cleanup
process_threads_cleanup-loops zero s pid = refl
process_threads_cleanup-loops (suc fuel) s pid =
    elim (Bool-cases (not (s.tab 0 == 0) && (s.thread (s.tab 0)).pid == pid)) [
      | inl e ↦
          let (s', d) = thread_destroy_dead s (s.tab 0) in
          rw (e, d) (process_threads_cleanup-loops fuel s' pid)
      | inr e ↦ rw e (process_threads_cleanup-loops fuel s pid)
    ]

-- The timer's tick while the current thread has stopped and nobody else is READY: whatever the state
-- of the thread, ZOMBIE too, it is RUNNING again.
pub tick_event-forgets :
    (s : Sched)
    → IsIdle s
    → ((j : ℕ) → j < thread_max → ready_at s j ≡ false)
    → Returns
        (λ s'. (s'.current ≡ s.current) × ((s'.thread s.current).state ≡ running))
        (tick_event s)
unfolding tick_event thread_yield sched_switch switch_to
tick_event-forgets s v none_ready =
    let s0 = set_state s s.current ready in
    let r : ready_at s0 s.current_idx ≡ true =
      unfold ready_at in ground (arith, v.cur, v.cur_some) in
    let (i, e, el) = sched_elect-IsElected [] s0 s.current_idx v.cur_in v.cur_in r in
    ground (arith, e, el.ready, none_ready i el.in_table, v.cur)
