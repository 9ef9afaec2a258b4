-- ===== src/Cstd/Numbers/Buffer.antt =====
-- Where itoa writes.
use ko.Base.{
  ℕ, ◌+◌, ◌-◌, ◌%◌, ◌^◌, ◌<◌, ◌≤◌, ◌≡◌, refl, ◌⊎◌, inl, inr, Bool, true, false, ◌&&◌, ◌==◌, leb,
  if◌then◌else◌, update, [], arith, Bool-cases, ◌∙◌,
}
use ko.Base.Run.{done, Returns, Returns-weaken, Returns-bind, ◌>>=◌}
use ko.Cstd.Bytes.{Memory}
use ko.Cstd.Numbers.{int_min, itoa_loop, itoa_negative, itoa}
use ko.Cstd.Numbers.Value.{IsPrinted, itoa_loop-IsPrinted}

-- The result lies in the buffer of 34 bytes and ends with the NUL in its last byte, and nothing
-- outside of the buffer has changed.
pub record IsWithin (m : Memory) (buffer : ℕ) (r : Memory × ℕ) : Type 0 where
  pub low : buffer ≤ r.1
  pub high : r.1 < buffer + 33
  pub ends : r.0 (buffer + 33) ≡ 0
  pub same : (q : ℕ) → (q < buffer) ⊎ (buffer + 34 ≤ q) → r.0 q ≡ m q

abbrev pub IsBase : ℕ → Type 0
IsBase base = (base ≡ 2) ⊎ (base ≡ 10) ⊎ (base ≡ 16)

-- One byte of the buffer is left for the sign.
abbrev Inner : Memory → ℕ → Memory × ℕ → Type 0
Inner m buffer r = IsWithin m buffer r × (buffer < r.1)

loop-Inner :
    (m : Memory) (buffer val base : ℕ)
    → 2 ≤ base
    → val < 2 ^ 31
    → Returns (Inner m buffer) (itoa_loop 32 (update m (buffer + 33) 0) (buffer + 33) val base)
loop-Inner m buffer val base b v =
    let m1 = update m (buffer + 33) 0 in
    Returns-weaken (IsPrinted m1 base (buffer + 33) 32 val []) (Inner m buffer)
      (itoa_loop 32 m1 (buffer + 33) val base)
      (itoa_loop-IsPrinted 32 m1 (buffer + 33) val base [] b (omega arith) (omega arith)
        (omega arith) tt (ground arith))
      (λ r p. (
        record {
          low = omega (arith, p.room);
          high = omega (arith, p.room);
          ends = p.same (buffer + 33) (inr (omega arith)) ∙ ground arith;
          same = λ q h. ground (arith, p.same q, p.room);
        },
        omega (arith, p.room),
      ))

negative-Inner :
    (m : Memory) (buffer size base : ℕ)
    → Inner m buffer (itoa_negative (update m (buffer + 33) 0) (buffer + 33) size base)
unfolding itoa_negative
negative-Inner m buffer size base = (
  record { low = omega arith; high = omega arith; ends = ground arith; same = λ q h. ground arith },
  omega arith,
)

part-Inner :
    (m : Memory) (buffer val base : ℕ)
    → 2 ≤ base
    → Returns (Inner m buffer) (
        if leb int_min val
        then done (itoa_negative (update m (buffer + 33) 0) (buffer + 33) (2 ^ 32 - val) base)
        else itoa_loop 32 (update m (buffer + 33) 0) (buffer + 33) val base)
part-Inner m buffer val base b = elim (Bool-cases (leb int_min val)) [
  | inl e ↦ rw e (negative-Inner m buffer (2 ^ 32 - val) base)
  | inr e ↦ rw e (loop-Inner m buffer val base b (ground arith))
]

signed-IsWithin :
    (m : Memory) (buffer : ℕ) (neg : Bool) (r : Memory × ℕ)
    → Inner m buffer r
    → IsWithin m buffer (if neg then (update r.0 (r.1 - 1) b'-', r.1 - 1) else r)
signed-IsWithin m buffer false r i = i.0
signed-IsWithin m buffer true r i = record {
  low = omega (arith, i.1);
  high = omega (arith, i.0.high);
  ends = ground (arith, i.0.ends, i.0.high);
  same = λ q h. ground (arith, i.0.same q, i.0.high, i.1);
}

pub itoa_parts :
    (m : Memory) (buffer val base : ℕ)
    → IsBase base
    → itoa m buffer val base ≡ (
        let neg = leb int_min val && (base == 10) in
        let val1 = if neg then (2 ^ 32 - val) % 2 ^ 32 else val in
        (if leb int_min val1
          then done (itoa_negative (update m (buffer + 33) 0) (buffer + 33) (2 ^ 32 - val1) base)
          else itoa_loop 32 (update m (buffer + 33) 0) (buffer + 33) val1 base)
        >>= λ r. done (if neg then (update r.0 (r.1 - 1) b'-', r.1 - 1) else r))
unfolding itoa
itoa_parts m buffer val base (inl e) = rw e refl
itoa_parts m buffer val base (inr (inl e)) = rw e refl
itoa_parts m buffer val base (inr (inr e)) = rw e refl

-- For the bases 2, 10 and 16 and every `int`, itoa returns a pointer into the buffer of 34 bytes, which
-- ends with a NUL, and changes nothing outside of it.
pub itoa-IsWithin :
    (m : Memory) (buffer val base : ℕ)
    → IsBase base
    → Returns (IsWithin m buffer) (itoa m buffer val base)
itoa-IsWithin m buffer val base b = rw (itoa_parts m buffer val base b) (
    let neg = leb int_min val && (base == 10) in
    let val1 = if neg then (2 ^ 32 - val) % 2 ^ 32 else val in
    Returns-bind (Inner m buffer) (IsWithin m buffer)
      (if leb int_min val1
        then done (itoa_negative (update m (buffer + 33) 0) (buffer + 33) (2 ^ 32 - val1) base)
        else itoa_loop 32 (update m (buffer + 33) 0) (buffer + 33) val1 base)
      (λ r. done (if neg then (update r.0 (r.1 - 1) b'-', r.1 - 1) else r))
      (part-Inner m buffer val1 base (ground arith)) (λ r. signed-IsWithin m buffer neg r))
