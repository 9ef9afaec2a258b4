-- ===== src/Sync/Tests.antt =====
-- The theorems on mutexes and barriers at a concrete state: thread 100 runs, thread 200 is READY,
-- the mutex 500 is held by 200 with 300 behind it, and at the barrier 600 one of two has arrived.
use ko.Base.{ℕ, ◌≡◌, refl, true, false, [], ◌∷◌, arith}
use ko.Base.Run.{Returns}
use ko.Thread.{running, ready}
use ko.Thread.Samples.{two_threads, waits_here, waited}
use ko.Sync.{
  Mutex, Barrier, Sync, magic_barrier, thread_mutex_lock, thread_mutex_unlock, thread_barrier_wait,
}
use ko.Sync.Handover.{
  IsMutex, IsLocked, IsUnlocked, thread_mutex_lock-IsLocked, thread_mutex_unlock-IsUnlocked,
}
use ko.Sync.Barriers.{IsBarrier, IsArrived, thread_barrier_wait-IsArrived}

abbrev held : ℕ → Mutex
held owner = record { lock = false; busy = true; wait = 300 ∷ []; owner = owner; pid = 1 }

abbrev half_full : Barrier
half_full = record {
  magic = magic_barrier;
  lock = false;
  expected = 3;
  waiting = 1;
  wait = 200 ∷ [];
  pid = 1;
}

abbrev state : ℕ → Sync
state owner = record {
  sched = two_threads running ready;
  mutex = λ _. held owner;
  mutex_groot = 500 ∷ [];
  barrier = λ _. half_full;
  barrier_groot = 600 ∷ [];
  freed = [];
}

held-IsMutex : (owner : ℕ) → ◌≡◌ {A = ℕ} owner 200 → IsMutex (held owner)
held-IsMutex owner e = ground (arith, e)

half_full-IsBarrier : IsBarrier half_full
half_full-IsBarrier = ground arith

thread_mutex_lock-IsLocked_example :
    Returns (IsLocked (state 200) 500 100 waited) (thread_mutex_lock [] (state 200) 500)
thread_mutex_lock-IsLocked_example =
    thread_mutex_lock-IsLocked [] (state 200) 500 waited (omega arith) (omega arith)
      (held-IsMutex 200 refl) refl waits_here

thread_mutex_unlock-IsUnlocked_example :
    Returns (IsUnlocked (state 100) 500 100) (thread_mutex_unlock (state 100) 500)
thread_mutex_unlock-IsUnlocked_example =
    thread_mutex_unlock-IsUnlocked (state 100) 500 (omega arith) (ground arith)

thread_barrier_wait-IsArrived_example :
    Returns (IsArrived (state 200) 600 100 waited) (thread_barrier_wait [] (state 200) 600)
thread_barrier_wait-IsArrived_example =
    thread_barrier_wait-IsArrived [] (state 200) 600 waited (omega arith) half_full-IsBarrier
      waits_here
