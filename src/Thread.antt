-- ===== src/Thread.antt =====
-- The threads and the scheduler of kernel/kthread.c: the thread structures by address, the table
-- of the scheduler, and the current thread. A context switch changes the current thread; the saved
-- registers and the memory of stacks are left out. A spin lock is held only over straight code.
pub mod Elect
pub mod Invariant
pub mod Turns
pub mod Lifecycle
pub mod Samples
mod Tests
use ko.Base.{
  ℕ, zero, suc, ◌+◌, ◌%◌, Bool, true, false, ◌&&◌, not, Option, none, some, List, [], ◌∷◌, ◌==◌,
  ltb, if◌then◌else◌, update,
}
use ko.Base.Run.{Run, done, panic, out_of_fuel, ◌>>=◌, panic_if}

-- `TH_STATE_…`
pub data State : Type 0 where
  running ready dead wait zombie : State

-- `struct thread_s`; `join` is a thread pointer or 0.
pub record Thread : Type 0 where
  pub state : State
  pub join : ℕ
  pub retval : ℕ
  pub ustack_b : ℕ
  pub start : ℕ
  pub fun : ℕ
  pub arg : ℕ
  pub pid : ℕ
  pub tid : ℕ

abbrev pub thread_max : ℕ
thread_max = 4

-- `ThreadTab`, `ThreadCurrentIdx`, `ThreadCurrent`, the structures, and what has been given back:
-- the user stacks (`free_ustack`) and the structures themselves (`kfree`), last first.
pub record Sched : Type 0 where
  pub tab : ℕ → ℕ
  pub current_idx : ℕ
  pub current : ℕ
  pub thread : ℕ → Thread
  pub freed_stacks : List ℕ
  pub freed : List ℕ

abbrev pub set_state : Sched → ℕ → State → Sched
set_state s t x = record s { thread = update s.thread t (record (s.thread t) { state = x }) }

-- `while ((tid < THREAD_MAX) && ThreadTab[tid]) tid++`, with the rounds left up to `THREAD_MAX`.
free_tid : ℕ → (ℕ → ℕ) → ℕ → ℕ
free_tid zero tab tid = tid
free_tid (suc left) tab tid =
    let rest = free_tid left tab (tid + 1) in if tab tid == 0 then tid else rest

-- A full table ends the kernel by `exit (1)`.
pub sched_insert : Sched → ℕ → Run Sched
unfolding free_tid
sched_insert s t =
    let tid = free_tid thread_max s.tab 0 in
    if tid == thread_max
    then panic
    else done (record s {
      thread = update s.thread t (record (s.thread t) { tid = tid });
      tab = update s.tab tid t;
      current = if s.current == 0 then t else s.current;
    })

pub sched_unlink : Sched → ℕ → Sched
sched_unlink s t = record s { tab = update s.tab (s.thread t).tid 0 }

-- `ThreadTab[th] && ThreadTab[th]->state == TH_STATE_READY`
abbrev pub is_ready : State → Bool
is_ready ready = true
is_ready _ = false

pub ready_at : Sched → ℕ → Bool
ready_at s th = not (s.tab th == 0) && is_ready (s.thread (s.tab th)).state

-- The first loop of `sched_elect`: once round the table, with interrupts off.
pub elect_once : ℕ → Sched → ℕ → Option ℕ
unfolding ready_at
elect_once zero s th = none
elect_once (suc left) s th =
    let rest = elect_once left s ((th + 1) % thread_max) in if ready_at s th then some th else rest

-- The second loop of `sched_elect`: interrupts are on, and between two rounds an interrupt may change
-- the state. `irqs` lists what happens there, round by round.
pub elect_wait : List (Sched → Sched) → Sched → ℕ → Run (ℕ × Sched)
unfolding ready_at
elect_wait [] s th = if ready_at s th then done (th, s) else out_of_fuel
elect_wait (irq ∷ irqs) s th =
    let rest = elect_wait irqs (irq s) ((th + 1) % thread_max) in
    if ready_at s th then done (th, s) else rest

pub sched_elect : List (Sched → Sched) → Sched → Run (ℕ × Sched)
unfolding elect_once elect_wait
sched_elect irqs s =
    let th = (s.current_idx + 1) % thread_max in
    elim (elect_once thread_max s th) [ some i ↦ done (i, s) | none ↦ elect_wait irqs s th ]

-- What `sched_switch` leaves once the elected thread runs.
pub switch_to : ℕ × Sched → Sched
switch_to (th_next, s) =
    let same = th_next == s.current_idx in
    let s' = record s {
      current_idx = if same then s.current_idx else th_next;
      current = if same then s.current else s.tab th_next;
    } in
    set_state s' s'.current running

pub sched_switch : List (Sched → Sched) → Sched → Run Sched
unfolding sched_elect switch_to
sched_switch irqs s = sched_elect irqs s >>= λ e. done (switch_to e)

pub thread_yield : List (Sched → Sched) → Sched → Run Sched
unfolding sched_switch
thread_yield irqs s = sched_switch irqs (set_state s s.current ready)

-- `thread_wait`: a thread that has been notified in the meantime is READY, and stays so.
abbrev is_running : State → Bool
is_running running = true
is_running _ = false

pub thread_wait : List (Sched → Sched) → Sched → Run Sched
unfolding sched_switch
thread_wait irqs s =
    sched_switch irqs
      (if is_running (s.thread s.current).state then set_state s s.current wait else s)

unfoldable pub thread_notify : Sched → ℕ → Sched
thread_notify s t = set_state s t ready

-- What `thread_exit` does before it gives the processor up for good.
pub exit_current : Sched → ℕ → Sched
exit_current s retval =
    let s' = record s {
      thread =
          update s.thread s.current
            (record (s.thread s.current) { retval = retval; state = zombie });
    } in
    let joiner = (s'.thread s'.current).join in
    if joiner == 0 then s' else set_state s' joiner ready

pub thread_exit : List (Sched → Sched) → Sched → ℕ → Run Sched
unfolding exit_current sched_switch
thread_exit irqs s retval = sched_switch irqs (exit_current s retval)

-- `free_ustack`, `sched_unlink` and `kfree`, for a thread that is DEAD.
abbrev is_dead : State → Bool
is_dead dead = true
is_dead _ = false

pub thread_destroy : Sched → ℕ → Run Sched
unfolding sched_unlink
thread_destroy s t = panic_if (not (is_dead (s.thread t).state)) (
    let s1 = record s { freed_stacks = (s.thread t).ustack_b ∷ s.freed_stacks } in
    let s2 = sched_unlink s1 t in done (record s2 { freed = t ∷ s2.freed }))

abbrev is_zombie : State → Bool
is_zombie zombie = true
is_zombie _ = false

-- `thread_join` up to the point where the caller runs again; `none` is `ESRCH`.
pub join_wait : List (Sched → Sched) → Sched → ℕ → Run (Option Sched)
unfolding sched_switch
join_wait irqs s t =
    let s' = record s { thread = update s.thread t (record (s.thread t) { join = s.current }) } in
    if t == 0
    then done none
    else if is_zombie (s'.thread t).state
    then done (some s')
    else sched_switch irqs (set_state s' s'.current wait) >>= λ s''. done (some s'')

-- The rest of `thread_join`: the return value goes through `retval`.
pub join_finish : Sched → ℕ → Run (ℕ × Sched)
unfolding thread_destroy
join_finish s t =
    let value = (s.thread t).retval in
    thread_destroy (set_state s t dead) t >>= λ s'. done (value, s')

-- `thread_create`, given the page of the structure (0 if there is none) and the top of a user stack.
-- `none` is `EAGAIN`. The page has been cleared, so what is not set is 0.
pub thread_create : Sched → (page ustack_b fun arg start : ℕ) → Run (Option Sched)
unfolding sched_insert
thread_create s page ustack_b fun arg start =
    if page == 0
    then done none
    else sched_insert
        (record s {
          thread = update s.thread page (record {
            state = ready;
            join = 0;
            retval = 0;
            ustack_b = ustack_b;
            start = start;
            fun = fun;
            arg = arg;
            pid = 0;
            tid = 0;
          });
        })
        page
      >>= λ s'. done (some s')

-- `process_threads_cleanup`: `tid` is not incremented by the loop.
pub process_threads_cleanup : ℕ → Sched → (pid tid : ℕ) → Run Sched
unfolding thread_destroy
process_threads_cleanup zero s pid tid = out_of_fuel
process_threads_cleanup (suc fuel) s pid tid =
    let t = s.tab tid in
    let stay = process_threads_cleanup fuel s pid tid in
    let destroy =
      thread_destroy (set_state s t dead) t >>= λ s'. process_threads_cleanup fuel s' pid tid in
    if ltb tid thread_max
    then if not (t == 0) && (s.thread t).pid == pid then destroy else stay
    else done s

-- The event of the timer up to `kcmd`, the shell of the kernel, on a state in which the tick finds a READY
-- thread at once.
pub tick_event : Sched → Run Sched
unfolding thread_yield
tick_event s = thread_yield [] s
