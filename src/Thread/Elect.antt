-- ===== src/Thread/Elect.antt =====
-- Whom `sched_elect` chooses.
use ko.Base.{
  ℕ, zero, suc, ◌+◌, ◌-◌, ◌%◌, ◌≤◌, ◌<◌, ◌≡◌, inl, inr, true, false, none, some, List, arith,
  Bool-cases, Option-cases, sym, ◌∙◌, ap, dec_le, false≢true,
}
use ko.Base.Run.{done}
use ko.Thread.{Sched, thread_max, ready_at, elect_once, sched_elect}

before_suc :
    (s : Sched) (th k : ℕ)
    → th < 4
    → ready_at s th ≡ false
    → ((j : ℕ) → j < k → ready_at s (((th + 1) % 4 + j) % 4) ≡ false)
    → (j : ℕ) → j < suc k
    → ready_at s ((th + j) % 4) ≡ false
before_suc s th k b next before zero h = let e : (th + 0) % 4 ≡ th = omega arith in rw e next
before_suc s th k b next before (suc j) h =
    let e : (th + suc j) % 4 ≡ ((th + 1) % 4 + j) % 4 = omega arith in rw e (before j (omega arith))

-- The first loop stops at the first READY thread from `th` on.
elect_once-some :
    (left : ℕ) (s : Sched) (th i : ℕ)
    → th < 4
    → elect_once left s th ≡ some i
    → (k : ℕ) × (k < left)
      × (i ≡ (th + k) % 4)
      × (ready_at s i ≡ true)
      × ((j : ℕ) → j < k → ready_at s ((th + j) % 4) ≡ false)
unfolding elect_once
elect_once-some zero s th i b e = absurd (cc)
elect_once-some (suc left) s th i b e = elim (Bool-cases (ready_at s th)) [
  | inl here ↦ (0, omega arith, ground arith, ground arith, λ j h. absurd (omega arith))
  | inr next ↦
      let (k, lt, eq, r, before) =
        elect_once-some left s ((th + 1) % 4) i (omega arith) (rw next at e) in
      (suc k, omega arith, omega arith, r, before_suc s th k b next before)
]

-- It finds nothing only if no thread of the `left` places is READY.
elect_once-none :
    (left : ℕ) (s : Sched) (th j : ℕ)
    → th < 4
    → elect_once left s th ≡ none
    → j < left
    → ready_at s ((th + j) % 4) ≡ false
unfolding elect_once
elect_once-none zero s th j b e h = absurd (omega arith)
elect_once-none (suc left) s th zero b e h =
    let e' : (th + 0) % 4 ≡ th = omega arith in rw e' (ground arith)
elect_once-none (suc left) s th (suc j) b e h =
    let e' : (th + suc j) % 4 ≡ ((th + 1) % 4 + j) % 4 = omega arith in
    rw e' (elect_once-none left s ((th + 1) % 4) j (omega arith) (ground arith) (omega arith))

-- How many places behind the current thread's place `j` comes, from 0 to 3.
abbrev pub turn : Sched → ℕ → ℕ
turn s j = (j + 3 + 4 - s.current_idx) % 4

-- What round robin asks of an election: a READY thread of the table, and the first in turn.
pub record IsElected (s : Sched) (i : ℕ) : Type 0 where
  pub in_table : i < thread_max
  pub ready : ready_at s i ≡ true
  pub first : (j : ℕ) → j < thread_max → ready_at s j ≡ true → turn s i ≤ turn s j

pub elected :
    (s : Sched) (i : ℕ)
    → s.current_idx < thread_max
    → elect_once thread_max s ((s.current_idx + 1) % thread_max) ≡ some i
    → IsElected s i
elected s i c e =
    let (k, lt, eq, r, before) = elect_once-some 4 s ((s.current_idx + 1) % 4) i (omega arith) e in
    record {
      in_table = omega arith;
      ready = r;
      first = λ j h rj. elim (dec_le (turn s i) (turn s j)) [
        | yes p ↦ p
        | no p ↦
            let e' : ((s.current_idx + 1) % 4 + turn s j) % 4 ≡ j = omega arith in
            absurd (false≢true (sym (before (turn s j) (omega arith)) ∙ ap (ready_at s) e' ∙ rj))
      ];
    }

-- Where a thread of the table is READY, `sched_elect` ends in its first loop, with interrupts off and
-- the state as it was, and elects in turn.
pub sched_elect-IsElected :
    (irqs : List (Sched → Sched)) (s : Sched) (j : ℕ)
    → s.current_idx < thread_max
    → j < thread_max
    → ready_at s j ≡ true
    → (i : ℕ) × (sched_elect irqs s ≡ done (i, s)) × IsElected s i
unfolding sched_elect
sched_elect-IsElected irqs s j c h r =
    elim (Option-cases (elect_once thread_max s ((s.current_idx + 1) % thread_max))) [
      | inl none_ready ↦
          let e : ((s.current_idx + 1) % 4 + turn s j) % 4 ≡ j = omega arith in
          let no =
            elect_once-none 4 s ((s.current_idx + 1) % 4) (turn s j) (omega arith) none_ready
              (omega arith) in
          absurd (false≢true (sym no ∙ ap (ready_at s) e ∙ r))
      | inr (i, e) ↦ (i, rw (e, sched_elect), elected s i c e)
    ]
