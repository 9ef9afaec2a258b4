-- ===== src/Sync.antt =====
-- The mutexes and barriers of kernel/ksynchro.c over the scheduler of kernel/kthread.c. A waiting list
-- is the sequence of its threads: the list functions that are called here act on the ring of such
-- a sequence as the functions on sequences written here do (see DList.Ops).
pub mod Handover
pub mod Barriers
mod Tests
use ko.Base.{
  ℕ, suc, ◌+◌, Bool, true, false, ◌&&◌, not, List, [], ◌∷◌, ◌++◌, ◌==◌, if◌then◌else◌, update,
}
use ko.Base.Run.{Run, done, out_of_fuel, ◌>>=◌}
use ko.Errno.{Errno, success, einval, ebusy, eperm, edeadlk, enomem}
use ko.Thread.{Sched, thread_wait, thread_notify}

-- `struct thread_mutex_s`; the owner is a thread pointer or 0.
pub record Mutex : Type 0 where
  pub lock : Bool
  pub busy : Bool
  pub wait : List ℕ
  pub owner : ℕ
  pub pid : ℕ

-- `struct thread_barrier_s`
pub record Barrier : Type 0 where
  pub magic : ℕ
  pub lock : Bool
  pub expected : ℕ
  pub waiting : ℕ
  pub wait : List ℕ
  pub pid : ℕ

abbrev pub magic_barrier : ℕ
magic_barrier = 0xDEADBABA

-- The mutexes and barriers by address, the two global lists, and what was handed to `kfree`.
pub record Sync : Type 0 where
  pub sched : Sched
  pub mutex : ℕ → Mutex
  pub mutex_groot : List ℕ
  pub barrier : ℕ → Barrier
  pub barrier_groot : List ℕ
  pub freed : List ℕ

abbrev pub current : Sync → ℕ
current s = s.sched.current

abbrev pub set_mutex : Sync → ℕ → Mutex → Sync
set_mutex s m x = record s { mutex = update s.mutex m x }

abbrev pub set_barrier : Sync → ℕ → Barrier → Sync
set_barrier s b x = record s { barrier = update s.barrier b x }

-- A call returns a code to its caller, or leaves it in `thread_wait`, where it returns
-- `SUCCESS` once it is elected again.
pub data Reply : Type 0 where
  returned : Errno → Reply
  blocked : Reply

abbrev pub is_blocked : Reply → Bool
is_blocked (returned e) = false
is_blocked blocked = true

-- `list_unlink` on a global list.
abbrev pub remove : ℕ → List ℕ → List ℕ
remove a [] = []
remove a (x ∷ xs) = if a == x then xs else x ∷ remove a xs

-- `thread_wait ()`
wait_now : List (Sched → Sched) → Sync → Run (Reply × Sync)
wait_now irqs s = thread_wait irqs s.sched >>= λ d. done (blocked, record s { sched = d })

-- `fresh` is what `kmalloc` returns, 0 if there is no memory. The new mutex goes to `*mutex`.
pub thread_mutex_init : Sync → (fresh pid : ℕ) → Errno × ℕ × Sync
thread_mutex_init s fresh pid = if fresh == 0 then (enomem, 0, s) else (
  success,
  fresh,
  record s {
    mutex_groot = s.mutex_groot ++ fresh ∷ [];
    mutex =
        update s.mutex fresh
          (record { lock = false; busy = false; wait = []; owner = 0; pid = pid });
  },
)

-- `m` is the value of `*mutex`.
pub thread_mutex_destroy : Sync → ℕ → Errno × Sync
thread_mutex_destroy s m =
    if m == 0
    then (einval, s)
    else if (s.mutex m).busy
    then (ebusy, s)
    else if (s.mutex m).owner == current s
    then (success, record s { mutex_groot = remove m s.mutex_groot; freed = m ∷ s.freed })
    else (eperm, s)

-- `spin_lock (&m->lock)`: on the one processor nobody gives a lock back that is taken already.
lock_mutex : Sync → ℕ → Run Sync
lock_mutex s m =
    if (s.mutex m).lock
    then out_of_fuel
    else done (set_mutex s m (record (s.mutex m) { lock = true }))

pub thread_mutex_lock : List (Sched → Sched) → Sync → ℕ → Run (Reply × Sync)
unfolding lock_mutex wait_now
thread_mutex_lock irqs s m =
    if m == 0
    then done (returned einval, s)
    else if (s.mutex m).busy && (s.mutex m).owner == current s
    then done (returned edeadlk, s)
    else lock_mutex s m >>= λ s1.
        let x = s1.mutex m in
        if x.busy
        then wait_now irqs
            (set_mutex s1 m (record x { wait = x.wait ++ current s1 ∷ []; lock = false }))
        else done (
          returned success,
          set_mutex s1 m (record x { busy = true; owner = current s1; lock = false }),
        )

-- What `thread_mutex_unlock` does while it has the lock: the first waiting thread becomes the owner.
hand_over : Sync → ℕ → List ℕ → Sync
hand_over s m [] = set_mutex s m (record (s.mutex m) { busy = false; owner = 0; lock = false })
hand_over s m (t ∷ ts) =
    let s1 = set_mutex s m (record (s.mutex m) { wait = ts; owner = t; lock = false }) in
    record s1 { sched = thread_notify s1.sched t }

pub thread_mutex_unlock : Sync → ℕ → Run (Errno × Sync)
unfolding lock_mutex hand_over
thread_mutex_unlock s m =
    if m == 0
    then done (einval, s)
    else if not (s.mutex m).busy
    then done (einval, s)
    else if not ((s.mutex m).owner == current s)
    then done (eperm, s)
    else lock_mutex s m >>= λ s1. done (success, hand_over s1 m (s1.mutex m).wait)

-- `process_mutexes_cleanup`: the mutexes of the process leave the list and are freed, in its order.
cleanup : (ℕ → ℕ) → ℕ → List ℕ → List ℕ → List ℕ × List ℕ
cleanup pid_of pid [] freed = ([], freed)
cleanup pid_of pid (x ∷ xs) freed =
    let mine = pid_of x == pid in
    let (kept, freed') = cleanup pid_of pid xs (if mine then x ∷ freed else freed) in
    (if mine then kept else x ∷ kept, freed')

pub process_mutexes_cleanup : Sync → ℕ → Sync
unfolding cleanup
process_mutexes_cleanup s pid =
    let (kept, freed) = cleanup (λ m. (s.mutex m).pid) pid s.mutex_groot s.freed in
    record s { mutex_groot = kept; freed = freed }

-- `spin_lock (&b->lock)`
lock_barrier : Sync → ℕ → Run Sync
lock_barrier s b =
    if (s.barrier b).lock
    then out_of_fuel
    else done (set_barrier s b (record (s.barrier b) { lock = true }))

-- `b` is the value of `*barrier`, `fresh` what `kmalloc` returns. On an old barrier each way ends
-- in a second `spin_lock` where the lock was to be given back.
pub thread_barrier_init : Sync → (b count fresh pid : ℕ) → Run (Errno × ℕ × Sync)
unfolding lock_barrier
thread_barrier_init s b count fresh pid =
    if count == 0
    then done (einval, b, s)
    else if b == 0
    then (if fresh == 0
        then done (enomem, b, s)
        else done (
          success,
          fresh,
          record s {
            barrier_groot = s.barrier_groot ++ fresh ∷ [];
            barrier = update s.barrier fresh (record {
              magic = magic_barrier;
              lock = false;
              expected = count;
              waiting = 0;
              wait = [];
              pid = pid;
            });
          },
        ))
    else if not ((s.barrier b).magic == magic_barrier)
    then done (einval, b, s)
    else lock_barrier s b >>= λ s1.
        if (s1.barrier b).waiting == 0
        then (lock_barrier (set_barrier s1 b (record (s1.barrier b) { expected = count })) b
            >>= λ s2. done (success, b, s2))
        else (lock_barrier s1 b >>= λ s2. done (ebusy, b, s2))

-- The `list_foreach` of `thread_barrier_wait`: each waiting thread is unlinked and notified.
pub notify_all : Sched → List ℕ → Sched
notify_all d [] = d
notify_all d (t ∷ ts) = notify_all (thread_notify d t) ts

pub thread_barrier_wait : List (Sched → Sched) → Sync → ℕ → Run (Reply × Sync)
unfolding lock_barrier notify_all wait_now
thread_barrier_wait irqs s b =
    if b == 0
    then done (returned einval, s)
    else if not ((s.barrier b).magic == magic_barrier)
    then done (returned einval, s)
    else lock_barrier s b >>= λ s1.
        let x = s1.barrier b in
        let arrived = x.waiting + 1 in
        if arrived == x.expected
        then done (
          returned success,
          record (set_barrier s1 b (record x { waiting = 0; wait = []; lock = false })) {
            sched = notify_all s1.sched x.wait;
          },
        )
        else wait_now irqs (
            set_barrier s1 b
              (record x { waiting = arrived; wait = x.wait ++ current s1 ∷ []; lock = false }))

pub thread_barrier_destroy : Sync → ℕ → Run (Errno × Sync)
unfolding lock_barrier
thread_barrier_destroy s b =
    if b == 0
    then done (einval, s)
    else if not ((s.barrier b).magic == magic_barrier)
    then done (einval, s)
    else lock_barrier s b >>= λ s1.
        if (s1.barrier b).waiting == 0
        then done
            (success, record s1 { barrier_groot = remove b s1.barrier_groot; freed = b ∷ s1.freed })
        else done (ebusy, set_barrier s1 b (record (s1.barrier b) { lock = false }))

pub process_barriers_cleanup : Sync → ℕ → Sync
unfolding cleanup
process_barriers_cleanup s pid =
    let (kept, freed) = cleanup (λ b. (s.barrier b).pid) pid s.barrier_groot s.freed in
    record s { barrier_groot = kept; freed = freed }
