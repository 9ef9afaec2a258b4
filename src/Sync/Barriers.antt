-- ===== src/Sync/Barriers.antt =====
-- A barrier counts its arrivals, and lets a whole generation go at the last one.
use ko.Base.{
  ℕ, ◌+◌, ◌<◌, ◌≡◌, ◌≢◌, refl, inl, inr, true, false, List, [], ◌∷◌, ◌++◌, arith, ◌==◌,
  if◌then◌else◌, Bool-cases, has, length, length-append,
}
use ko.Base.Run.{done, out_of_fuel, Returns}
use ko.Errno.{success, ebusy}
use ko.Thread.{Sched, ready, thread_wait, thread_notify}
use ko.Sync.{
  Barrier, Sync, Reply, returned, blocked, current, magic_barrier, lock_barrier, wait_now,
  notify_all, thread_barrier_init, thread_barrier_wait, thread_barrier_destroy,
}

-- What holds of a barrier between two calls.
pub record IsBarrier (x : Barrier) : Type 0 where
  pub magic : x.magic ≡ magic_barrier
  pub unlocked : x.lock ≡ false
  pub counted : x.waiting ≡ length x.wait
  pub open_still : x.waiting < x.expected

notify_all-other :
    (d : Sched) (ts : List ℕ) (t : ℕ) → has t ts ≡ false → (notify_all d ts).thread t ≡ d.thread t
unfolding notify_all thread_notify
notify_all-other d [] t o = refl
notify_all-other d (x ∷ xs) t o = ground (arith, notify_all-other (thread_notify d x) xs t)

notify_all-state :
    (d : Sched) (ts : List ℕ) (t : ℕ)
    → (d.thread t).state ≡ ready
    → ((notify_all d ts).thread t).state ≡ ready
unfolding notify_all
notify_all-state d [] t o = o
notify_all-state d (x ∷ xs) t o =
    notify_all-state (thread_notify d x) xs t (unfold thread_notify in ground arith)

-- The loop of `thread_barrier_wait` makes every thread READY that waits.
pub notify_all-ready :
    (d : Sched) (ts : List ℕ) (t : ℕ) → has t ts ≡ true → ((notify_all d ts).thread t).state ≡ ready
unfolding notify_all
notify_all-ready d [] t i = cc
notify_all-ready d (x ∷ xs) t i = elim (Bool-cases (t == x)) [
  | inl e ↦ notify_all-state (thread_notify d x) xs t (unfold thread_notify in ground arith)
  | inr n ↦ notify_all-ready (thread_notify d x) xs t (ground arith)
]

-- A new barrier waits for `count` threads, and none has arrived.
pub thread_barrier_init-IsBarrier :
    (s : Sync) (count fresh pid : ℕ)
    → count ≢ 0
    → fresh ≢ 0
    → Returns
        (λ (e, b, s').
          (e ≡ success)
          × (b ≡ fresh)
          × IsBarrier (s'.barrier b)
          × ((s'.barrier b).expected ≡ count))
        (thread_barrier_init s 0 count fresh pid)
unfolding thread_barrier_init
thread_barrier_init-IsBarrier s count fresh pid c f = ground arith

-- A barrier that exists cannot be initialised again: the call never comes back, whether threads
-- wait there or not.
pub thread_barrier_init-hangs :
    (s : Sync) (b count fresh pid : ℕ)
    → b ≢ 0
    → count ≢ 0
    → IsBarrier (s.barrier b)
    → thread_barrier_init s b count fresh pid ≡ out_of_fuel
unfolding thread_barrier_init lock_barrier
thread_barrier_init-hangs s b count fresh pid nz c v = ground (arith, v.magic, v.unlocked)

-- What `thread_barrier_wait` leaves, for a caller `me`, where `d` is the scheduler that `thread_wait` leaves.
pub record IsArrived (s : Sync) (b me : ℕ) (d : Sched) (out : Reply × Sync) : Type 0 where
  pub valid : IsBarrier (out.1.barrier b)
  pub last :
      (s.barrier b).waiting + 1 ≡ (s.barrier b).expected
      → (out.0 ≡ returned success)
        × ((out.1.barrier b).wait ≡ [])
        × (out.1.sched ≡ notify_all s.sched (s.barrier b).wait)
  pub early :
      (s.barrier b).waiting + 1 ≢ (s.barrier b).expected
      → (out.0 ≡ blocked)
        × ((out.1.barrier b).wait ≡ (s.barrier b).wait ++ me ∷ [])
        × (out.1.sched ≡ d)
  pub expected : (out.1.barrier b).expected ≡ (s.barrier b).expected

-- At a barrier in order, the last of the expected threads goes on and wakes all that wait, which leaves the
-- barrier ready for its next use; any thread before it is put at the end of the waiting list, and
-- the scheduler is then the one that `thread_wait` leaves, where that comes back.
pub thread_barrier_wait-IsArrived :
    (irqs : List (Sched → Sched)) (s : Sync) (b : ℕ) (d : Sched)
    → b ≢ 0
    → IsBarrier (s.barrier b)
    → thread_wait irqs s.sched ≡ done d
    → Returns (IsArrived s b (current s) d) (thread_barrier_wait irqs s b)
unfolding thread_barrier_wait lock_barrier wait_now
thread_barrier_wait-IsArrived irqs s b d nz v e = ground (
  arith,
  e,
  v.magic,
  v.unlocked,
  v.counted,
  v.open_still,
  length-append (s.barrier b).wait (current s ∷ []),
)

-- A barrier at which threads wait is refused, and stays in order; any other leaves the global list.
pub thread_barrier_destroy-IsBarrier :
    (s : Sync) (b : ℕ)
    → b ≢ 0
    → IsBarrier (s.barrier b)
    → Returns
        (λ (e, s').
          if (s.barrier b).waiting == 0
          then (e ≡ success) × (s'.freed ≡ b ∷ s.freed)
          else (e ≡ ebusy) × (s'.freed ≡ s.freed) × IsBarrier (s'.barrier b))
        (thread_barrier_destroy s b)
unfolding thread_barrier_destroy lock_barrier
thread_barrier_destroy-IsBarrier s b nz v = elim (Bool-cases ((s.barrier b).waiting == 0)) [
  | inl z ↦ ground (arith, v.magic, v.unlocked, z)
  | inr z ↦ ground (arith, v.magic, v.unlocked, z, v.counted, v.open_still)
]
