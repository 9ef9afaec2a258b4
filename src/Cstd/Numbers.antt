-- ===== src/Cstd/Numbers.antt =====
-- itoa, atoi and strtoul of common/cstd.c. An `int` is its 32-bit pattern, negative from 2^31 on, and
-- wraps around as it does in two's complement. Texts stand in memory; a loop that stops at a NUL
-- takes fuel.
pub mod Value
pub mod Itoa
pub mod Buffer
pub mod Strtoul
pub mod Prefix
pub mod Digits
use ko.Base.{
  ℕ, zero, suc, ◌+◌, ◌-◌, ◌*◌, ◌/◌, ◌%◌, ◌^◌, Bool, true, false, not, ◌&&◌, ◌||◌, ◌==◌, ltb, leb,
  if◌then◌else◌, update, Option, none, some,
}
use ko.Base.Run.{Run, done, out_of_fuel, ◌>>=◌}
use ko.Cstd.Bytes.{Memory}

abbrev pub int_min : ℕ
int_min = 2 ^ 31

-- `(digit < 10) ? digit + '0' : digit - 10 + 'A'`
abbrev pub digit_char : ℕ → ℕ
digit_char digit = if ltb digit 10 then digit + b'0' else digit - 10 + b'A'

-- The `do … while (val > 0)` of itoa, from a value that is not negative.
pub itoa_loop : ℕ → Memory → ℕ → ℕ → ℕ → Run (Memory × ℕ)
itoa_loop zero m ptr val base = out_of_fuel
itoa_loop (suc fuel) m ptr val base =
    let m1 = update m (ptr - 1) (digit_char (val % base)) in
    let rest = itoa_loop fuel m1 (ptr - 1) (val / base) base in
    if ltb 0 (val / base) then rest else done (m1, ptr - 1)

-- One round from a negative value `- size`: the remainder is not positive, and the loop ends.
pub itoa_negative : Memory → ℕ → ℕ → ℕ → Memory × ℕ
itoa_negative m ptr size base = (update m (ptr - 1) (b'0' - size % base), ptr - 1)

-- Address 0 is the NULL of a wrong base.
pub itoa : Memory → ℕ → ℕ → ℕ → Run (Memory × ℕ)
unfolding itoa_loop itoa_negative
itoa m buffer val base =
    if not (base == 2) && not (base == 10) && not (base == 16)
    then done (m, 0)
    else (let m1 = update m (buffer + 33) 0 in
        let is_negative = leb int_min val && (base == 10) in
        let val1 = if is_negative then (2 ^ 32 - val) % 2 ^ 32 else val in
        do
          (m2, ptr) ←
              if leb int_min val1
              then done (itoa_negative m1 (buffer + 33) (2 ^ 32 - val1) base)
              else itoa_loop 32 m1 (buffer + 33) val1 base
          done (if is_negative then (update m2 (ptr - 1) b'-', ptr - 1) else (m2, ptr)))

-- `while ((*val == ' ') || (*val == '\t')) val++;`
pub skip_blanks : ℕ → Memory → ℕ → Run ℕ
skip_blanks zero m val = out_of_fuel
skip_blanks (suc fuel) m val =
    let rest = skip_blanks fuel m (val + 1) in
    if (m val == b' ') || (m val == 9) then rest else done val

-- `while (*val) { res = (res * 10) + (*val - '0'); val++; }`
pub atoi_loop : ℕ → Memory → ℕ → ℕ → Run ℕ
atoi_loop zero m val res = out_of_fuel
atoi_loop (suc fuel) m val res =
    let rest = atoi_loop fuel m (val + 1) ((res * 10 + m val + 2 ^ 32 - b'0') % 2 ^ 32) in
    if m val == 0 then done res else rest

pub atoi : ℕ → Memory → ℕ → Run ℕ
unfolding skip_blanks atoi_loop
atoi fuel m val = do
  start ← skip_blanks fuel m val
  let neg = m start == b'-'
  res ← atoi_loop fuel m (if neg then start + 1 else start) 0
  done (if neg then (2 ^ 32 - res) % 2 ^ 32 else res)

abbrev pub ulong_max : ℕ
ulong_max = 2 ^ 32 - 1

abbrev pub is_space : ℕ → Bool
is_space c = (c == b' ') || (c == 9) || (c == 10) || (c == 11) || (c == 12) || (c == 13)

pub skip_spaces : ℕ → Memory → ℕ → Run ℕ
skip_spaces zero m s = out_of_fuel
skip_spaces (suc fuel) m s =
    let rest = skip_spaces fuel m (s + 1) in if is_space (m s) then rest else done s

abbrev pub is_digit : ℕ → Bool
is_digit c = leb b'0' c && leb c b'9'

-- The base by the prefix of the text, and where its digits begin; base 0 is left where it is unknown.
pub guess_base : Memory → ℕ → ℕ × ℕ
guess_base m s =
    if m s == b'0'
    then (if (m (s + 1) == b'x') || (m (s + 1) == b'X')
        then (16, s + 2)
        else if is_digit (m (s + 1))
        then (8, s + 1)
        else (0, s + 1))
    else if is_digit (m s)
    then (10, s)
    else (0, s)

-- The value of a digit or a letter.
unfoldable pub digit_value : ℕ → Option ℕ
digit_value c =
    if is_digit c
    then some (c - b'0')
    else if leb b'a' c && leb c b'z'
    then some (c - b'a' + 10)
    else if leb b'A' c && leb c b'Z'
    then some (c - b'A' + 10)
    else none

-- The value so far, where the loop stops, and whether it stopped by an overflow.
pub strtoul_loop : ℕ → Memory → ℕ → ℕ → ℕ → Run (ℕ × ℕ × Bool)
strtoul_loop zero m s base n = out_of_fuel
strtoul_loop (suc fuel) m s base n =
    if m s == 0 then done (n, s, false) else elim (digit_value (m s)) [
      | none ↦ done (n, s, false)
      | some c ↦
          let rest = strtoul_loop fuel m (s + 1) base ((n * base + c) % 2 ^ 32) in
          if leb base c
          then done (n, s, false)
          else if ltb n (ulong_max / base) && ltb (n * base % 2 ^ 32) (ulong_max - c)
          then rest
          else done (n, s, true)
    ]

-- The value and `*endptr`.
pub strtoul : ℕ → Memory → ℕ → ℕ → Run (ℕ × ℕ)
unfolding skip_spaces guess_base strtoul_loop
strtoul fuel m s base = do
  s1 ← skip_spaces fuel m s
  let s2 = if m s1 == b'+' then s1 + 1 else s1
  let (base1, s3) = if base == 0 then guess_base m s2 else (base, s2)
  if base1 == 0
      then done (0, s3)
      else strtoul_loop fuel m s3 base1 0 >>= λ r. done (if r.2 then 0 else r.0, r.1)
