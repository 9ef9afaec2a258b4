-- ===== src/Thread/Invariant.antt =====
-- What holds of the scheduler between two calls, and that the calls keep it.
use ko.Base.{ℕ, ◌<◌, ◌≡◌, ◌≢◌, refl, sym, ap, ◌∙◌, true, false, false≢true, List, arith, ◌==◌}
use ko.Base.Run.{Returns, Returns-weaken}
use ko.Thread.{
  Sched, State, running, ready, wait, zombie, thread_max, ready_at, is_running, set_state,
  switch_to, sched_switch, thread_yield, thread_wait, thread_notify, exit_current, thread_exit,
}
use ko.Thread.Elect.{sched_elect-IsElected}

-- The current thread stands in the table, the table and the identifiers agree, and no thread but
-- the current one is RUNNING.
pub record IsValid (s : Sched) : Type 0 where
  pub cur_in : s.current_idx < thread_max
  pub cur : s.tab s.current_idx ≡ s.current
  pub cur_some : s.current ≢ 0
  pub tids : (j : ℕ) → j < thread_max → s.tab j ≢ 0 → (s.thread (s.tab j)).tid ≡ j
  pub alone :
      (j : ℕ)
      → j < thread_max
      → s.tab j ≢ 0
      → is_running (s.thread (s.tab j)).state ≡ true
      → j ≡ s.current_idx

-- The same while the processor is given up: nobody is RUNNING.
pub record IsIdle (s : Sched) : Type 0 where
  pub cur_in : s.current_idx < thread_max
  pub cur : s.tab s.current_idx ≡ s.current
  pub cur_some : s.current ≢ 0
  pub tids : (j : ℕ) → j < thread_max → s.tab j ≢ 0 → (s.thread (s.tab j)).tid ≡ j
  pub idle : (j : ℕ) → j < thread_max → s.tab j ≢ 0 → is_running (s.thread (s.tab j)).state ≡ false

-- The current thread stops running: READY, WAIT or ZOMBIE.
pub stop-IsIdle :
    {s : Sched} (x : State) → is_running x ≡ false → IsValid s → IsIdle (set_state s s.current x)
stop-IsIdle {s} x e v = record {
  cur_in = v.cur_in;
  cur = v.cur;
  cur_some = v.cur_some;
  tids = λ j h n. ground (arith, v.tids j h n);
  idle = λ j h n. ground (arith, v.alone j h n, v.cur);
}

-- Nor does a current thread run that has been notified before it waits.
IsValid-IsIdle : {s : Sched} → IsValid s → is_running (s.thread s.current).state ≡ false → IsIdle s
IsValid-IsIdle {s} v e = record {
  cur_in = v.cur_in;
  cur = v.cur;
  cur_some = v.cur_some;
  tids = v.tids;
  idle = λ j h n. ground (arith, v.alone j h n, v.cur);
}

pub switch_to-IsValid :
    {s : Sched} (i : ℕ)
    → IsIdle s
    → i < thread_max
    → ready_at s i ≡ true
    → IsValid (switch_to (i, s))
unfolding switch_to ready_at
switch_to-IsValid {s} i v h r = record {
  cur_in = ground (arith, v.cur_in);
  cur = ground (arith, v.cur);
  cur_some = ground (arith, v.cur_some);
  tids = λ j hj n. ground (arith, v.tids j hj);
  alone = λ j hj n e.
      ground (arith, v.tids j hj, v.idle j hj n, v.tids i h, v.tids s.current_idx v.cur_in, v.cur);
}

-- `thread_notify` keeps the scheduler valid, whatever the thread.
pub thread_notify-IsValid : {s : Sched} (t : ℕ) → IsValid s → IsValid (thread_notify s t)
unfolding thread_notify
thread_notify-IsValid {s} t v = record {
  cur_in = v.cur_in;
  cur = v.cur;
  cur_some = v.cur_some;
  tids = λ j h n. ground (arith, v.tids j h n);
  alone = λ j h n. ground (arith, v.alone j h n);
}

IsIdle-IsElected :
    {s : Sched} (irqs : List (Sched → Sched)) (j : ℕ)
    → IsIdle s
    → j < thread_max
    → ready_at s j ≡ true
    → Returns IsValid (sched_switch irqs s)
unfolding sched_switch
IsIdle-IsElected {s} irqs j v h r =
    let (i, e, el) = sched_elect-IsElected irqs s j v.cur_in h r in
    rw e (switch_to-IsValid i v el.in_table el.ready)

-- `thread_yield` always comes back, in a valid state, without waiting for an interrupt.
pub thread_yield-IsValid :
    {s : Sched} (irqs : List (Sched → Sched)) → IsValid s → Returns IsValid (thread_yield irqs s)
unfolding thread_yield
thread_yield-IsValid {s} irqs v =
    IsIdle-IsElected irqs s.current_idx (stop-IsIdle ready refl v) v.cur_in
      (unfold ready_at in ground (arith, v.cur, v.cur_some))

exit_current-IsIdle : {s : Sched} (retval : ℕ) → IsValid s → IsIdle (exit_current s retval)
unfolding exit_current
exit_current-IsIdle {s} retval v = record {
  cur_in = ground (arith, v.cur_in);
  cur = ground (arith, v.cur);
  cur_some = ground (arith, v.cur_some);
  tids = λ j h n. ground (arith, v.tids j h);
  idle = λ j h n. ground (arith, v.alone j h, v.cur);
}

other_thread :
    {s : Sched} (j : ℕ) → IsValid s → j < thread_max → j ≢ s.current_idx → s.tab j ≢ s.current
other_thread {s} j v h ne =
    λ e. ne (ground (arith, v.tids j h, v.tids s.current_idx v.cur_in, v.cur, v.cur_some))

set_state-ready_at :
    (s : Sched) (t : ℕ) (x : State) (j : ℕ)
    → s.tab j ≢ t
    → ready_at s j ≡ true
    → ready_at (set_state s t x) j ≡ true
unfolding ready_at
set_state-ready_at s t x j ne r = ground arith

exit_current-ready_at :
    (s : Sched) (retval j : ℕ)
    → s.tab j ≢ s.current
    → ready_at s j ≡ true
    → ready_at (exit_current s retval) j ≡ true
unfolding ready_at exit_current
exit_current-ready_at s retval j ne r = ground arith

-- Another thread runs, in a valid state, and the thread that ran has the state `x`.
pub record IsLeft (s : Sched) (x : State) (s' : Sched) : Type 0 where
  pub valid : IsValid s'
  pub other : s'.current ≢ s.current
  pub state : (s'.thread s.current).state ≡ x

switch_to-leaves :
    (s : Sched) (i : ℕ)
    → i ≢ s.current_idx
    → s.tab i ≢ s.current
    → let s' = switch_to (i, s) in
      (s'.current ≢ s.current) × ((s'.thread s.current).state ≡ (s.thread s.current).state)
unfolding switch_to
switch_to-leaves s i n d =
    let e : i == s.current_idx ≡ false = ground arith in
    let f : s.current == s.tab i ≡ false = ground arith in rw (e, f) (d, refl)

-- An idle scheduler whose current thread is not READY, as long as another thread is.
sched_switch-IsLeft :
    {s : Sched} (irqs : List (Sched → Sched)) (j : ℕ)
    → IsIdle s
    → ready_at s s.current_idx ≡ false
    → j < thread_max
    → ready_at s j ≡ true
    → Returns (IsLeft s (s.thread s.current).state) (sched_switch irqs s)
unfolding sched_switch
sched_switch-IsLeft {s} irqs j v stopped h r =
    let (i, e, el) = sched_elect-IsElected irqs s j v.cur_in h r in
    let n : i ≢ s.current_idx =
      λ z. false≢true (sym stopped ∙ ap (ready_at s) (sym z) ∙ el.ready) in
    let other : s.tab i ≢ s.current = leaves i v el.in_table n in
    rw e (record {
      valid = switch_to-IsValid i v el.in_table el.ready;
      other = (switch_to-leaves s i n other).0;
      state = (switch_to-leaves s i n other).1;
    })
  where
    leaves :
        {s : Sched} (i : ℕ) → IsIdle s → i < thread_max → i ≢ s.current_idx → s.tab i ≢ s.current
    leaves {s} i v l n =
        λ e. n (ground (arith, v.tids i l, v.tids s.current_idx v.cur_in, v.cur, v.cur_some))

-- If the current thread runs and another one is READY, `thread_wait` comes back, without waiting for an
-- interrupt and in a valid state, in another thread, and the thread that called it has the state WAIT.
pub thread_wait-IsLeft :
    {s : Sched} (irqs : List (Sched → Sched)) (j : ℕ)
    → IsValid s
    → (s.thread s.current).state ≡ running
    → j < thread_max
    → j ≢ s.current_idx
    → ready_at s j ≡ true
    → Returns (IsLeft s wait) (thread_wait irqs s)
unfolding thread_wait
thread_wait-IsLeft {s} irqs j v e h ne r =
    let s0 = set_state s s.current wait in
    let stopped : ready_at s0 s.current_idx ≡ false = unfold ready_at in ground (arith, v.cur) in
    let left =
      sched_switch-IsLeft {s = s0} irqs j (stop-IsIdle wait refl v) stopped h
        (set_state-ready_at s s.current wait j (other_thread j v h ne) r) in
    let own : s.current == s.current ≡ true = ground arith in
    rw (e, thread_wait)
      (Returns-weaken (IsLeft s0 (s0.thread s.current).state) (IsLeft s wait) (sched_switch irqs s0)
        left (λ s' l. record { valid = l.valid; other = l.other; state = l.state ∙ rw own refl }))

-- If another thread is READY and the current one has not joined itself, `thread_exit` gives the processor,
-- without waiting for an interrupt and in a valid state, to another thread, and the thread that called
-- it is a ZOMBIE.
pub thread_exit-IsLeft :
    {s : Sched} (irqs : List (Sched → Sched)) (j retval : ℕ)
    → IsValid s
    → (s.thread s.current).join ≢ s.current
    → j < thread_max
    → j ≢ s.current_idx
    → ready_at s j ≡ true
    → Returns (IsLeft s zombie) (thread_exit irqs s retval)
unfolding thread_exit
thread_exit-IsLeft {s} irqs j retval v e h ne r =
    let s0 = exit_current s retval in
    let z : (s0.thread s.current).state ≡ zombie = unfold exit_current in ground arith in
    let stopped : ready_at s0 s0.current_idx ≡ false =
      unfold ready_at exit_current in ground (arith, v.cur) in
    let same : s0.current ≡ s.current = unfold exit_current in ground arith in
    let left =
      sched_switch-IsLeft {s = s0} irqs j (exit_current-IsIdle retval v) stopped h
        (exit_current-ready_at s retval j (other_thread j v h ne) r) in
    Returns-weaken (IsLeft s0 (s0.thread s0.current).state) (IsLeft s zombie) (sched_switch irqs s0)
      left
      (λ s' l. record {
        valid = l.valid;
        other = λ q. l.other (q ∙ sym same);
        state =
            ap (λ p. (s'.thread p).state) (sym same)
            ∙ l.state
            ∙ ap (λ p. (s0.thread p).state) same
            ∙ z;
      })
