-- ===== src/Cstd/Bytes.antt =====
-- The memory functions of common/cstd.c on the 32-bit targets: an `unsigned long` is four bytes, the
-- lowest first.
pub mod Fill
pub mod Move
use ko.Base.{
  ℕ, zero, suc, ◌+◌, ◌-◌, ◌*◌, ◌/◌, ◌%◌, ◌^◌, Bool, ◌==◌, leb, ltb, if◌then◌else◌, update,
}
use Prim.Native.Nat.{bit_or}

-- The bytes at the addresses; the arrays of the program do not reach the end of the address space.
abbrev pub Memory : Type 0
Memory = ℕ → ℕ

-- `*(unsigned long *)p = w`
unfoldable pub store_word : Memory → ℕ → ℕ → Memory
store_word m p w =
    update
      (update (update (update m p (w % 2 ^ 8)) (p + 1) (w / 2 ^ 8 % 2 ^ 8)) (p + 2)
        (w / 2 ^ 16 % 2 ^ 8))
      (p + 3) (w / 2 ^ 24 % 2 ^ 8)

-- The word of four bytes `c`.
pub fill_word : ℕ → ℕ
fill_word c =
    let low = c % 2 ^ 8 in
    let half = bit_or low (low * 2 ^ 8 % 2 ^ 32) in bit_or half (half * 2 ^ 16 % 2 ^ 32)

-- Where a loop stands: the memory, the pointer and the bytes that are left.
pub record Filling : Type 0 where
  pub mem : Memory
  pub ptr : ℕ
  pub left : ℕ

-- The bytes up to the first aligned address.
pub fill_head : Memory → ℕ → ℕ → ℕ → Filling
fill_head m p c zero = record { mem = m; ptr = p; left = 0 }
fill_head m p c (suc n) =
    let rest = fill_head (update m p (c % 2 ^ 8)) (p + 1) c n in
    if p % 4 == 0 then record { mem = m; ptr = p; left = suc n } else rest

pub fill_words : Memory → ℕ → ℕ → ℕ → Filling
unfolding store_word
fill_words m p w (suc (suc (suc (suc n)))) = fill_words (store_word m p w) (p + 4) w n
fill_words m p w n = record { mem = m; ptr = p; left = n }

pub fill_bytes : Memory → ℕ → ℕ → ℕ → Memory
fill_bytes m p c zero = m
fill_bytes m p c (suc n) = fill_bytes (update m p (c % 2 ^ 8)) (p + 1) c n

pub memset : Memory → ℕ → ℕ → ℕ → Memory
unfolding fill_head fill_words fill_bytes fill_word
memset m s c n =
    let head = fill_head m s c n in
    let body = fill_words head.mem head.ptr (fill_word c) head.left in
    fill_bytes body.mem body.ptr c body.left

-- `*(long *)p`
pub load_word : Memory → ℕ → ℕ
load_word m p = m p + m (p + 1) * 2 ^ 8 + m (p + 2) * 2 ^ 16 + m (p + 3) * 2 ^ 24

pub record Copying : Type 0 where
  pub mem : Memory
  pub dst : ℕ
  pub src : ℕ
  pub left : ℕ

pub copy_head : Memory → ℕ → ℕ → ℕ → Copying
copy_head m d s zero = record { mem = m; dst = d; src = s; left = 0 }
copy_head m d s (suc n) =
    let rest = copy_head (update m d (m s)) (d + 1) (s + 1) n in
    if d % 4 == 0 then record { mem = m; dst = d; src = s; left = suc n } else rest

pub copy_words : Memory → ℕ → ℕ → ℕ → Copying
unfolding store_word load_word
copy_words m d s (suc (suc (suc (suc n)))) =
    copy_words (store_word m d (load_word m s)) (d + 4) (s + 4) n
copy_words m d s n = record { mem = m; dst = d; src = s; left = n }

-- `while (n--) *d++ = *s++;`, also the first loop of memmove.
pub copy_bytes : Memory → ℕ → ℕ → ℕ → Memory
copy_bytes m d s zero = m
copy_bytes m d s (suc n) = copy_bytes (update m d (m s)) (d + 1) (s + 1) n

pub memcpy : Memory → ℕ → ℕ → ℕ → Memory
unfolding copy_head copy_words copy_bytes
memcpy m dest src n =
    if dest % 4 == src % 4
    then (let head = copy_head m dest src n in
        let body = copy_words head.mem head.dst head.src head.left in
        copy_bytes body.mem body.dst body.src body.left)
    else copy_bytes m dest src n

-- `while (n--) *lastd-- = *lasts--;`
pub move_down : Memory → ℕ → ℕ → ℕ → Memory
move_down m lastd lasts zero = m
move_down m lastd lasts (suc n) = move_down (update m lastd (m lasts)) (lastd - 1) (lasts - 1) n

pub memmove : Memory → ℕ → ℕ → ℕ → Memory
unfolding copy_bytes move_down
memmove m dest src n =
    if ltb dest src then copy_bytes m dest src n else move_down m (dest + n - 1) (src + n - 1) n
