-- ===== src/Cstd/Tests.antt =====
-- The standard functions on small memories.
use ko.Base.{
  ℕ, suc, ◌-◌, ◌%◌, ◌^◌, ◌<◌, ◌≡◌, ◌==◌, if◌then◌else◌, List, [], ◌∷◌, length, arith, some,
}
use ko.Base.Run.{done, Returns}
use ko.Cstd.Bytes.{Memory, memset, memmove}
use ko.Cstd.Bytes.Fill.{filled, memset-filled}
use ko.Cstd.Bytes.Move.{copied, memmove-copied}
use ko.Cstd.Strings.Compare.{take}
use ko.Cstd.Strings.Fill.{written}
use ko.Cstd.Numbers.{itoa, atoi}
use ko.Cstd.Numbers.Itoa.{itoa-atoi}
use ko.Cstd.Format.{vsnprintf}
use ko.Cstd.Format.Expand.{expand}
use ko.Cstd.Format.Output.{vsnprintf-expand}

-- Byte `q` is `q % 251`.
abbrev ramp : Memory
ramp q = q % 251

ramp_bytes : (q : ℕ) → ramp q < 2 ^ 8
ramp_bytes q = omega arith

memset-filled_example : memset ramp 103 513 9 111 ≡ filled ramp 103 9 (513 % 2 ^ 8) 111
memset-filled_example = memset-filled ramp 103 513 9 111

memmove-copied_example : memmove ramp 104 102 6 105 ≡ copied ramp 104 102 6 105
memmove-copied_example = memmove-copied ramp 104 102 6 105

-- "abd" at 8, "abc" at 16, " +0x1F;" at 24, and 0 elsewhere.
abbrev texts : Memory
texts q =
    if q == 8
    then 97
    else if q == 9
    then 98
    else if q == 10
    then 100
    else if q == 16
    then 97
    else if q == 17
    then 98
    else if q == 18
    then 99
    else if q == 24
    then 32
    else if q == 25
    then 43
    else if q == 26
    then 48
    else if q == 27
    then 120
    else if q == 28
    then 49
    else if q == 29
    then 70
    else if q == 30
    then 59
    else 0

abbrev abd : List ℕ
abd = 97 ∷ 98 ∷ 100 ∷ []

abbrev abc : List ℕ
abc = 97 ∷ 98 ∷ 99 ∷ []

abbrev number : List ℕ
number = 32 ∷ 43 ∷ 48 ∷ 120 ∷ 49 ∷ 70 ∷ 59 ∷ []

itoa-atoi_example :
    Returns (λ r. atoi 40 r.0 r.1 ≡ done (2 ^ 32 - 705)) (itoa texts 100 (2 ^ 32 - 705) 10)
itoa-atoi_example = itoa-atoi texts 100 (2 ^ 32 - 705) 40 (omega arith) (omega arith) (omega arith)

-- "n=%d" with the argument 12.
abbrev format : List ℕ
format = 110 ∷ 61 ∷ 37 ∷ 100 ∷ []

abbrev no_text : ℕ → List ℕ
no_text p = []

abbrev twelve : ℕ → ℕ
twelve i = 12

vsnprintf-expand_example :
    let shown = take (4 - 1) (expand no_text twelve format 0) in
    (m' : Memory) × (vsnprintf no_text twelve texts 100 4 format ≡ some (m', length shown))
    × (length shown < 4)
    × ((q : ℕ) → m' q ≡ written texts 100 (suc (length shown)) shown q)
vsnprintf-expand_example =
    vsnprintf-expand no_text twelve texts 100 4 format (omega arith) (omega arith) tt
