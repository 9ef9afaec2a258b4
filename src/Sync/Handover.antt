-- ===== src/Sync/Handover.antt =====
-- A mutex is the queue of its owner and of the threads that wait for it, first come first served.
use ko.Base.{
  ℕ, ◌≡◌, ◌≢◌, refl, inl, inr, true, false, List, [], ◌∷◌, ◌++◌, arith, ◌==◌, if◌then◌else◌,
  Bool-cases, has, has-append, Distinct,
}
use ko.Base.Run.{done, Returns}
use ko.Errno.{Errno, success, einval, ebusy, eperm, edeadlk}
use ko.Thread.{Sched, thread_wait, thread_notify}
use ko.Sync.{
  Mutex, Sync, Reply, returned, blocked, is_blocked, current, hand_over, thread_mutex_init,
  thread_mutex_lock, thread_mutex_unlock, thread_mutex_destroy, lock_mutex, wait_now,
}

-- The threads that have asked for the mutex and not given it back, the owner first.
abbrev pub holders : Mutex → List ℕ
holders x = if x.busy then x.owner ∷ x.wait else []

-- What holds of a mutex between two calls.
pub record IsMutex (x : Mutex) : Type 0 where
  pub unlocked : x.lock ≡ false
  pub free : x.busy ≡ false → (x.owner ≡ 0) × (x.wait ≡ [])
  pub named : has 0 (holders x) ≡ false
  pub distinct : Distinct (holders x)

-- What a call does to that queue.
abbrev pub lock_spec : List ℕ → ℕ → Reply × List ℕ
lock_spec [] me = (returned success, me ∷ [])
lock_spec (h ∷ hs) me =
    if h == me then (returned edeadlk, h ∷ hs) else (blocked, h ∷ (hs ++ me ∷ []))

abbrev pub unlock_spec : List ℕ → ℕ → Errno × List ℕ
unlock_spec [] me = (einval, [])
unlock_spec (h ∷ hs) me = if h == me then (success, hs) else (eperm, h ∷ hs)

Distinct-snoc : (xs : List ℕ) (a : ℕ) → Distinct xs → has a xs ≡ false → Distinct (xs ++ a ∷ [])
Distinct-snoc [] a d o = (refl, tt)
Distinct-snoc (x ∷ xs) a d o =
    (ground (arith, has-append x xs (a ∷ [])), Distinct-snoc xs a d.1 (ground arith))

-- A new mutex is free.
pub thread_mutex_init-IsMutex :
    (s : Sync) (fresh pid : ℕ)
    → fresh ≢ 0
    → let (e, m, s') = thread_mutex_init s fresh pid in
      (e ≡ success) × (m ≡ fresh) × IsMutex (s'.mutex fresh) × (holders (s'.mutex fresh) ≡ [])
unfolding thread_mutex_init
thread_mutex_init-IsMutex s fresh pid nz = ground arith

-- What `thread_mutex_lock` leaves, for the mutex `m` and the caller `me`, where `d` is the scheduler that
-- `thread_wait` leaves.
pub record IsLocked (s : Sync) (m me : ℕ) (d : Sched) (out : Reply × Sync) : Type 0 where
  pub queue : (out.0, holders (out.1.mutex m)) ≡ lock_spec (holders (s.mutex m)) me
  pub valid : IsMutex (out.1.mutex m)
  pub others : (k : ℕ) → k ≢ m → out.1.mutex k ≡ s.mutex k
  pub waits : out.1.sched ≡ (if is_blocked out.0 then d else s.sched)

-- On a mutex in order, for a thread that does not wait there yet, `thread_mutex_lock` is `lock_spec`: a
-- free mutex is taken, the owner is refused, and any other thread goes to the end of the queue. The
-- scheduler is then the one that `thread_wait` leaves, where that comes back, for a thread that goes to the
-- queue, and is as it was in the other cases.
pub thread_mutex_lock-IsLocked :
    (irqs : List (Sched → Sched)) (s : Sync) (m : ℕ) (d : Sched)
    → m ≢ 0
    → current s ≢ 0
    → IsMutex (s.mutex m)
    → has (current s) (s.mutex m).wait ≡ false
    → thread_wait irqs s.sched ≡ done d
    → Returns (IsLocked s m (current s) d) (thread_mutex_lock irqs s m)
unfolding thread_mutex_lock lock_mutex wait_now
thread_mutex_lock-IsLocked irqs s m d nz me v o e = elim (Bool-cases (s.mutex m).busy) [
  | inl b ↦
      let n = rw b at v.named in
      let d0 = rw b at v.distinct in
      elim (Bool-cases ((s.mutex m).owner == current s)) [
        | inl own ↦ rw (b, own, thread_mutex_lock) (ground (arith, v.unlocked, v.named, v.distinct))
        | inr other ↦ ground (
          arith,
          e,
          v.unlocked,
          n,
          d0,
          b,
          other,
          has-append 0 (s.mutex m).wait (current s ∷ []),
          has-append (s.mutex m).owner (s.mutex m).wait (current s ∷ []),
          Distinct-snoc (s.mutex m).wait (current s),
        )
      ]
  | inr b ↦ ground (arith, b, v.unlocked, v.free b)
]

-- What `thread_mutex_unlock` leaves.
pub record IsUnlocked (s : Sync) (m me : ℕ) (out : Errno × Sync) : Type 0 where
  pub queue : (out.0, holders (out.1.mutex m)) ≡ unlock_spec (holders (s.mutex m)) me
  pub valid : IsMutex (out.1.mutex m)
  pub others : (k : ℕ) → k ≢ m → out.1.mutex k ≡ s.mutex k
  pub woken :
      out.0 ≡ success
      → out.1.sched ≡ elim (s.mutex m).wait [ [] ↦ s.sched | t ∷ ts ↦ thread_notify s.sched t ]

unlock_by_owner :
    (s : Sync) (m : ℕ) (w : List ℕ)
    → m ≢ 0
    → IsMutex (s.mutex m)
    → (s.mutex m).wait ≡ w
    → (s.mutex m).busy ≡ true
    → ((s.mutex m).owner == current s) ≡ true
    → Returns (IsUnlocked s m (current s)) (thread_mutex_unlock s m)
unfolding thread_mutex_unlock lock_mutex hand_over
unlock_by_owner s m [] nz v e b own =
    let n : has 0 ((s.mutex m).owner ∷ ([])) ≡ false = rw (b, e) at v.named in
    let d : Distinct ((s.mutex m).owner ∷ ([])) = rw (b, e) at v.distinct in
    ground (arith, e, b, own, v.unlocked, n, d)
unlock_by_owner s m (t ∷ ts) nz v e b own =
    let n : has 0 ((s.mutex m).owner ∷ (t ∷ ts)) ≡ false = rw (b, e) at v.named in
    let d : Distinct ((s.mutex m).owner ∷ (t ∷ ts)) = rw (b, e) at v.distinct in
    ground (arith, e, b, own, v.unlocked, n, d)

-- On a mutex in order, `thread_mutex_unlock` is `unlock_spec`: the owner leaves the queue, the next thread in it owns the
-- mutex from then on and is notified, and any other caller is refused.
pub thread_mutex_unlock-IsUnlocked :
    (s : Sync) (m : ℕ)
    → m ≢ 0
    → IsMutex (s.mutex m)
    → Returns (IsUnlocked s m (current s)) (thread_mutex_unlock s m)
unfolding thread_mutex_unlock
thread_mutex_unlock-IsUnlocked s m nz v = elim (Bool-cases (s.mutex m).busy) [
  | inl b ↦ elim (Bool-cases ((s.mutex m).owner == current s)) [
    | inl own ↦ unlock_by_owner s m (s.mutex m).wait nz v refl b own
    | inr other ↦ ground (arith, b, other, v.unlocked, v.named, v.distinct)
  ]
  | inr b ↦ ground (arith, b, v.unlocked, v.free b)
]

-- No mutex that is in order can be destroyed: a busy one is refused, and so is a free one, since
-- its owner is `NULL` and not the caller.
pub thread_mutex_destroy-refused :
    (s : Sync) (m : ℕ)
    → m ≢ 0
    → current s ≢ 0
    → IsMutex (s.mutex m)
    → thread_mutex_destroy s m ≡ (if (s.mutex m).busy then ebusy else eperm, s)
unfolding thread_mutex_destroy
thread_mutex_destroy-refused s m nz me v = elim (Bool-cases (s.mutex m).busy) [
  | inl b ↦ ground (arith, b)
  | inr b ↦ ground (arith, b, v.free b)
]
