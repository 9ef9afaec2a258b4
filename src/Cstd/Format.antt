-- ===== src/Cstd/Format.antt =====
-- vsnprintf of common/cstd.c. The format and the texts of the arguments are their characters up to the
-- NUL, which the buffer does not overlap; the `va_list` is the sequence of its 32-bit words, of which
-- `%s` takes one as the address of a text and `%d` as an `int`.
pub mod Digits
pub mod Expand
pub mod Output
use ko.Base.{
  ℕ, zero, suc, ◌+◌, ◌-◌, ◌*◌, ◌/◌, ◌%◌, ◌^◌, Bool, true, false, not, ◌==◌, ltb, leb, if◌then◌else◌,
  ◌||◌, update, Option, none, some, List, [], ◌∷◌, ◌++◌, length,
}
use ko.Cstd.Bytes.{Memory}
use ko.Cstd.Numbers.{int_min}

-- `buf` and `count` with the memory.
pub record Printing : Type 0 where
  pub mem : Memory
  pub buf : ℕ
  pub count : ℕ

-- Where the code goes on: with what follows, at `abort`, or behind the NUL of the format.
pub data Step : Type 0 where
  more : Printing → Step
  abort : Printing → Step
  beyond : Step

infixl 5 ◌>>=◌
abbrev pub ◌>>=◌ : Step → (Printing → Step) → Step
more st >>= f = f st
abort st >>= f = abort st
beyond >>= f = beyond

-- `*buf++ = c; if (--count == 0) goto abort;`
pub put : ℕ → Printing → Step
put c st =
    let next : Printing = record {
      mem = update st.mem st.buf c;
      buf = st.buf + 1;
      count = (st.count + 2 ^ 32 - 1) % 2 ^ 32;
    } in
    if next.count == 0 then abort next else more next

-- `copy_tmp: while (*tmp) …`
pub put_all : List ℕ → Printing → Step
put_all [] st = more st
put_all (c ∷ cs) st = put c st >>= put_all cs

-- The digits of `%d`, from the last one on; `i` is added to the first that is made.
pub decimal_text : ℕ → ℕ → ℕ → List ℕ → List ℕ
decimal_text zero val i tmp = tmp
decimal_text (suc fuel) val i tmp =
    let tmp1 = (val % 10 + b'0' + i) ∷ tmp in
    let rest = decimal_text fuel (val / 10) 0 tmp1 in if val / 10 == 0 then tmp1 else rest

-- `xdigit[val]`
abbrev pub xdigit : ℕ → ℕ
xdigit val = if ltb val 10 then val + b'0' else val - 10 + b'a'

pub hex_text : ℕ → ℕ → List ℕ → List ℕ
hex_text zero val tmp = tmp
hex_text (suc fuel) val tmp =
    let tmp1 = xdigit (val % 16) ∷ tmp in
    let rest = hex_text fuel (val / 16) tmp1 in if val / 16 == 0 then tmp1 else rest

-- `while (i < 8) { *--tmp = '0'; i++; }`, with the rounds left.
pub pad : ℕ → List ℕ → List ℕ
pad zero tmp = tmp
pad (suc left) tmp = pad left (b'0' ∷ tmp)

-- The text that `%d` copies, and the sign in front of it.
pub decimal : ℕ → List ℕ
unfolding decimal_text
decimal val =
    let i = if val == int_min then 1 else 0 in
    let size = if leb int_min val then (2 ^ 32 - val) % 2 ^ 32 - i else val in
    decimal_text 10 size i []

pub hex : ℕ → List ℕ
unfolding hex_text
hex val = hex_text 8 val []

module _ (text : ℕ → List ℕ) (arg : ℕ → ℕ) where
  -- What `case` the character after `%` takes, with the place of the next argument.
  pub directive : ℕ → ℕ → Printing → Step
  directive c ap st =
      if c == b'%'
      then put b'%' st
      else if c == b'c'
      then put (arg ap % 2 ^ 8) st
      else if c == b's'
      then put_all
          (if arg ap == 0 then b'(' ∷ b'n' ∷ b'u' ∷ b'l' ∷ b'l' ∷ b')' ∷ [] else text (arg ap)) st
      else if c == b'd'
      then (if leb int_min (arg ap) then put b'-' st else more st) >>= put_all (decimal (arg ap))
      else if c == b'p'
      then put_all (pad (8 - length (hex (arg ap))) (hex (arg ap))) st
      else if c == b'x'
      then put_all (hex (arg ap)) st
      else put c st

  -- How many arguments it takes.
  pub takes : ℕ → ℕ
  takes c = if (c == b'c') || (c == b's') || (c == b'd') || (c == b'p') || (c == b'x') then 1 else 0

  -- The loops over the format.
  pub print : List ℕ → ℕ → Printing → Step
  print [] ap st = more st
  print (c ∷ []) ap st = if c == b'%' then put 0 st >>= (λ _. beyond) else put c st
  print (c ∷ d ∷ fmt) ap st = elim (c == b'%') [
    | true ↦ directive d ap st >>= print fmt (ap + takes d)
    | false ↦ put c st >>= print (d ∷ fmt) ap
  ]

  -- `abort: *buf = '\0'; res = buf - buffer`
  pub finish : ℕ → Step → Option (Memory × ℕ)
  finish buffer (more st) = some (update st.mem st.buf 0, st.buf - buffer)
  finish buffer (abort st) = some (update st.mem st.buf 0, st.buf - buffer)
  finish buffer beyond = none

  -- `none` where the code reads behind the format.
  pub vsnprintf : Memory → ℕ → ℕ → List ℕ → Option (Memory × ℕ)
  vsnprintf m buffer size fmt =
      finish buffer
        (print fmt 0 (record { mem = m; buf = buffer; count = (size + 2 ^ 32 - 1) % 2 ^ 32 }))
