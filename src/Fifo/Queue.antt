-- ===== src/Fifo/Queue.antt =====
-- The FIFO of kernel/klibc.c is a queue of at most 19 characters.
use ko.Base.{
  ℕ, zero, suc, ◌+◌, ◌-◌, ◌%◌, ◌<◌, ◌≤◌, ◌≡◌, refl, inl, inr, true, false, List, [], ◌∷◌, ◌++◌,
  arith, ◌==◌, ltb, if◌then◌else◌, Bool-cases, length, update,
}
use ko.Errno.{Errno, success, failure}
use ko.Fifo.{Fifo, fifo_depth, fifo_push, fifo_pull}

-- The `n` characters from place `r` on, round the array.
abbrev pub from : (ℕ → ℕ) → ℕ → ℕ → List ℕ
from cells r zero = []
from cells r (suc n) = cells r ∷ from cells ((r + 1) % 20) n

abbrev pub held : Fifo → ℕ
held f = (f.pt_write + 20 - f.pt_read) % 20

-- What has been pushed and not pulled, the oldest first.
abbrev pub contents : Fifo → List ℕ
contents f = from f.data_at f.pt_read (held f)

-- Both places are in the array.
pub record IsFifo (f : Fifo) : Type 0 where
  pub reads : f.pt_read < fifo_depth
  pub writes : f.pt_write < fifo_depth

-- The queue of capacity `k`.
abbrev pub push_spec : ℕ → List ℕ → ℕ → Errno × List ℕ
push_spec k xs c = if ltb (length xs) k then (success, xs ++ c ∷ []) else (failure, xs)

abbrev pub pull_spec : List ℕ → ℕ → Errno × ℕ × List ℕ
pull_spec [] c = (failure, c, [])
pull_spec (x ∷ xs) c = (success, x, xs)

length-from : (cells : ℕ → ℕ) (r n : ℕ) → length (from cells r n) ≡ n
length-from cells r zero = refl
length-from cells r (suc n) = omega (arith, length-from cells ((r + 1) % 20) n)

from-update :
    (cells : ℕ → ℕ) (r n w c : ℕ)
    → r < 20
    → w < 20
    → n ≤ (w + 20 - r) % 20
    → from (update cells w c) r n ≡ from cells r n
from-update cells r zero w c hr hw h = refl
from-update cells r (suc n) w c hr hw h =
    let here : (r == w) ≡ false = ground arith in
    rw (here, from-update cells ((r + 1) % 20) n w c (omega arith) hw (omega arith))

from-snoc :
    (cells : ℕ → ℕ) (r n : ℕ)
    → r < 20
    → from cells r (suc n) ≡ from cells r n ++ cells ((r + n) % 20) ∷ []
from-snoc cells r zero h = let e : (r + 0) % 20 ≡ r = omega arith in rw e refl
from-snoc cells r (suc n) h =
    let e : ((r + 1) % 20 + n) % 20 ≡ (r + suc n) % 20 = omega arith in
    rw (from-snoc cells ((r + 1) % 20) n (omega arith), e) refl

-- What a push leaves, for the character `c`.
pub record IsPushed (f : Fifo) (c : ℕ) (out : Errno × Fifo) : Type 0 where
  pub valid : IsFifo out.1
  pub queue : (out.0, contents out.1) ≡ push_spec 19 (contents f) c

push-room :
    (f : Fifo) (c n : ℕ)
    → IsFifo f
    → held f ≡ n
    → n < 19
    → contents
        (record f { data_at = update f.data_at f.pt_write c; pt_write = (f.pt_write + 1) % 20 })
      ≡ contents f ++ c ∷ []
push-room f c n v e h =
    let cells' = update f.data_at f.pt_write c in
    let more : ((f.pt_write + 1) % 20 + 20 - f.pt_read) % 20 ≡ suc n =
      omega (arith, v.reads, v.writes) in
    let at : (f.pt_read + n) % 20 ≡ f.pt_write = omega (arith, v.reads, v.writes) in
    let old = from-update f.data_at f.pt_read n f.pt_write c v.reads v.writes (omega arith) in
    let new = from-snoc cells' f.pt_read n v.reads in rw (more, e, new, old, at) (ground arith)

-- `fifo_push` is the push of a queue of capacity 19: it puts the character at the end, or reports
-- FAILURE and changes nothing.
pub fifo_push-IsPushed : (f : Fifo) (c : ℕ) → IsFifo f → IsPushed f c (fifo_push f c)
unfolding fifo_push
fifo_push-IsPushed f c v = elim (Bool-cases ((f.pt_write + 1) % 20 == f.pt_read)) [
  | inl full ↦
      let n : held f ≡ 19 = ground (arith, v.reads, v.writes) in
      let l = length-from f.data_at f.pt_read (held f) in
      let no : ltb (length (contents f)) 19 ≡ false = ground (arith, l, n) in
      record { valid = rw full v; queue = rw (full, no) refl }
  | inr room ↦
      let n : held f < 19 = ground (arith, v.reads, v.writes) in
      let l = length-from f.data_at f.pt_read (held f) in
      let yes_room : ltb (length (contents f)) 19 ≡ true = ground (arith, l, n) in
      record {
        valid = rw room (record { reads = v.reads; writes = omega arith });
        queue = rw (room, yes_room) (rw (push-room f c (held f) v refl n) refl);
      }
]

-- What a pull leaves, where `*c` held `c`.
pub record IsPulled (f : Fifo) (c : ℕ) (out : Errno × ℕ × Fifo) : Type 0 where
  pub valid : IsFifo out.2
  pub queue : (out.0, out.1, contents out.2) ≡ pull_spec (contents f) c

-- `fifo_pull` is the pull of the same queue: it takes the oldest character off, or reports FAILURE and
-- leaves the caller's character alone.
pub fifo_pull-IsPulled : (f : Fifo) (c : ℕ) → IsFifo f → IsPulled f c (fifo_pull f c)
unfolding fifo_pull
fifo_pull-IsPulled f c v = elim (Bool-cases (f.pt_read == f.pt_write)) [
  | inl empty ↦
      let n : held f ≡ 0 = ground (arith, v.reads, v.writes) in
      record { valid = rw empty v; queue = rw (empty, n) refl }
  | inr some_left ↦
      let n : held f ≡ suc ((f.pt_write + 20 - (f.pt_read + 1) % 20) % 20) =
        ground (arith, v.reads, v.writes) in
      record {
        valid = rw some_left (record { reads = omega arith; writes = v.writes });
        queue = rw (some_left, n) refl;
      }
]
