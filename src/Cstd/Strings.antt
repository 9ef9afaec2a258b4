-- ===== src/Cstd/Strings.antt =====
-- The functions of common/cstd.c that search and compare bytes and NUL-terminated texts. A pointer is
-- an address, 0 is NULL. A function that stops at a NUL takes fuel: on memory without a NUL it
-- does not stop. The bytes are unsigned; where the source reads a plain `char`, texts are ASCII.
pub mod Compare
pub mod Search
pub mod Fill
use ko.Base.{
  ℕ, zero, suc, ◌+◌, ◌-◌, ◌%◌, ◌<◌, ◌≡◌, ◌≢◌, Bool, not, ◌==◌, ltb, if◌then◌else◌, update, List, [],
  ◌∷◌,
}
use ko.Base.Run.{Run, done, out_of_fuel}
use ko.Base.Int.{ℤ, pos, negsuc, sub_ℕ}
use ko.Cstd.Bytes.{Memory}

-- The memory holds the characters `xs` and a NUL at `p`.
abbrev pub HasText : Memory → ℕ → List ℕ → Type 0
HasText m p [] = m p ≡ 0
HasText m p (x ∷ xs) = (m p ≡ x) × (0 < x) × HasText m (p + 1) xs

pub memcmp : Memory → ℕ → ℕ → ℕ → ℤ
memcmp m s1 s2 zero = pos 0
memcmp m s1 s2 (suc n) =
    let rest = memcmp m (s1 + 1) (s2 + 1) n in
    if not (m s1 == m s2) then (if ltb (m s1) (m s2) then negsuc 0 else pos 1) else rest

pub memchr : Memory → ℕ → ℕ → ℕ → ℕ
memchr m src c zero = 0
memchr m src c (suc n) = let rest = memchr m (src + 1) c n in if m src == c then src else rest

-- `while (*buf++) n++;`
pub strlen_loop : ℕ → Memory → ℕ → ℕ → Run ℕ
strlen_loop zero m buf n = out_of_fuel
strlen_loop (suc fuel) m buf n =
    let rest = strlen_loop fuel m (buf + 1) (n + 1) in if m buf == 0 then done n else rest

pub strlen : ℕ → Memory → ℕ → Run ℕ
unfolding strlen_loop
strlen fuel m buf = if buf == 0 then done 0 else strlen_loop fuel m buf 0

-- The loop of strnlen with `left` rounds to go.
pub strnlen_loop : Memory → ℕ → ℕ → ℕ → ℕ
strnlen_loop m s i zero = i
strnlen_loop m s i (suc left) =
    let rest = strnlen_loop m s (i + 1) left in if m (s + i) == 0 then i else rest

pub strnlen : Memory → ℕ → ℕ → ℕ
unfolding strnlen_loop
strnlen m s n = strnlen_loop m s 0 n

pub strchr : ℕ → Memory → ℕ → ℕ → Run ℕ
strchr zero m s c = out_of_fuel
strchr (suc fuel) m s c =
    let rest = if m s == 0 then done 0 else strchr fuel m (s + 1) c in
    if m s == c then done s else rest

pub strrchr_loop : ℕ → Memory → ℕ → ℕ → ℕ → Run ℕ
strrchr_loop zero m s c rtnval = out_of_fuel
strrchr_loop (suc fuel) m s c rtnval =
    let found = if m s == c then s else rtnval in
    let rest = strrchr_loop fuel m (s + 1) c found in if m s == 0 then done found else rest

pub strrchr : ℕ → Memory → ℕ → ℕ → Run ℕ
unfolding strrchr_loop
strrchr fuel m s c = strrchr_loop fuel m s c 0

-- The second loop of strncpy.
pub strncpy_pad : Memory → ℕ → ℕ → ℕ → Memory
strncpy_pad m dest i zero = m
strncpy_pad m dest i (suc left) = strncpy_pad (update m (dest + i) 0) dest (i + 1) left

-- The first loop, and what follows where it stops.
pub strncpy_loop : Memory → ℕ → ℕ → ℕ → ℕ → Memory
unfolding strncpy_pad
strncpy_loop m dest src i zero = m
strncpy_loop m dest src i (suc left) =
    let rest = strncpy_loop (update m (dest + i) (m (src + i))) dest src (i + 1) left in
    if not (m (src + i) == 0) then rest else strncpy_pad m dest i (suc left)

pub strncpy : Memory → ℕ → ℕ → ℕ → Memory
unfolding strncpy_loop
strncpy m dest src n = strncpy_loop m dest src 0 n

pub strcmp : ℕ → Memory → ℕ → ℕ → Run ℤ
strcmp zero m s1 s2 = out_of_fuel
strcmp (suc fuel) m s1 s2 =
    let c1 = m s1 in
    let c2 = m s2 in
    let rest = if c1 == c2 then strcmp fuel m (s1 + 1) (s2 + 1) else done (sub_ℕ c1 c2) in
    if c1 == 0 then done (sub_ℕ c1 c2) else rest

pub strncmp : Memory → ℕ → ℕ → ℕ → ℤ
strncmp m s1 s2 zero = pos 0
strncmp m s1 s2 (suc n) =
    let c1 = m s1 in
    let c2 = m s2 in
    let again = strncmp m (s1 + 1) (s2 + 1) n in
    let rest = if c1 == c2 then (if n == 0 then sub_ℕ c1 c2 else again) else sub_ℕ c1 c2 in
    if c1 == 0 then sub_ℕ c1 c2 else rest
