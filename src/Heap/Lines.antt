-- ===== src/Heap/Lines.antt =====
-- The rounding of ulib/memory.c to whole cache lines, on sizes that do not overflow an `int`.
use ko.Base.{ℕ, ◌+◌, ◌-◌, ◌*◌, ◌/◌, ◌%◌, ◌^◌, ◌≤◌, ◌<◌, ◌≡◌, true, arith, ltb}
use ko.Heap.{needed, line_ceil}
use native.Mathlib.Nat.{div-eq_of_lt-le, div-add-mod, mod-lt}

-- A whole number of lines of `w` words.
abbrev pub IsLines : ℕ → ℕ → Type 0
IsLines w q = (k : ℕ) × (q ≡ w * k)

four : (w k : ℕ) → k * (4 * w) ≡ 4 * (w * k)
four w k = grind arith

four_suc : (w k : ℕ) → (k + 1) * (4 * w) ≡ 4 * (w * k) + 4 * w
four_suc w k = grind arith

pub IsLines-add : (w a b : ℕ) → IsLines w a → IsLines w b → IsLines w (a + b)
IsLines-add w a b (k, e) (l, f) = (k + l, grind arith)

pub line_ceil-IsLines :
    (w q : ℕ) → 0 < w → IsLines w q → 4 * q + 4 * w ≤ 2 ^ 31 → line_ceil (4 * w) q ≡ q
line_ceil-IsLines w q z (k, e) h =
    let x : (4 * q + 4 * w - 1) % 2 ^ 32 ≡ 4 * q + 4 * w - 1 = omega arith in
    let low : ltb (4 * q + 4 * w - 1) (2 ^ 31) ≡ true = ground arith in
    let d : (4 * q + 4 * w - 1) / (4 * w) ≡ k =
      div-eq_of_lt-le {k = k} (4 * w) (omega (arith, four w k)) (omega (arith, four_suc w k)) in
    let f : 4 * w * k ≡ 4 * q = grind arith in rw (x, low, d, f) (omega arith)

-- What a request takes: whole lines, which hold the header and the bytes asked for.
pub needed-IsLines :
    (w size : ℕ)
    → 0 < w
    → size + 4 + 4 * w ≤ 2 ^ 31
    → IsLines w (needed (4 * w) size) × (size + 4 ≤ 4 * needed (4 * w) size)
needed-IsLines w size z h =
    let s : (size + 4) % 2 ^ 32 ≡ size + 4 = omega arith in
    let x : (size + 4 + 4 * w - 1) % 2 ^ 32 ≡ size + 4 + 4 * w - 1 = omega arith in
    let low : ltb (size + 4 + 4 * w - 1) (2 ^ 31) ≡ true = ground arith in
    let k = (size + 4 + 4 * w - 1) / (4 * w) in
    let f : 4 * w * k ≡ 4 * (w * k) = grind arith in
    let d = div-add-mod (size + 4 + 4 * w - 1) (4 * w) in
    let m = mod-lt (size + 4 + 4 * w - 1) {m = 4 * w} (omega arith) in
    rw (s, x, low, f) ((k, omega arith), omega (arith, d, m, f))
