-- ===== src/Htopen.antt =====
-- The open addressing hash table of common/htopen.c, as the kernel and the 32-bit user programs build it.
-- A key is the text that it points to (tables of type 0) or a word (type 1); a slot holds NULL,
-- KEYFREED or a key.
pub mod Primes
pub mod Keys
pub mod Get
pub mod Set
pub mod Del
pub mod Create
pub mod Grow
mod Tests
pub mod Copy
pub mod Change
pub mod Probe
use ko.Base.{
  ℕ, zero, suc, ◌+◌, ◌-◌, ◌*◌, ◌/◌, ◌%◌, ◌^◌, ◌<◌, ◌≤◌, ◌≡◌, ◌≢◌, Bool, true, false, not, ◌==◌, ltb,
  leb, if◌then◌else◌, ◌||◌, ◌&&◌, update, Option, none, some, List, [], ◌∷◌, length,
}
use ko.Base.Int.{ℤ, pos, negsuc}
use ko.Base.Run.{Run, done, panic_if}
use ko.Cstd.Strings.Compare.{order}

pub data Key : Type 0 where
  text : List ℕ → Key
  word : ℕ → Key

abbrev pub keyfreed : ℕ
keyfreed = 0xF0000001

pub data Cell : Type 0 where
  null : Cell
  freed : Cell
  used : Key → Cell

-- `struct hto_slot_s`
pub record Slot : Type 0 where
  pub key : Cell
  pub val : ℕ

-- `struct hto_s`; `words` is the bit `type`.
pub record Table : Type 0 where
  pub words : Bool
  pub size : ℕ
  pub empty : ℕ
  pub freed_nb : ℕ
  pub bucket : ℕ → Slot

-- `for (p=1, i=2; i*i <= n && p; p = n % i++);`, the value of `p` at its end.
pub divide : ℕ → ℕ → ℕ → ℕ → ℕ
divide zero n p i = p
divide (suc fuel) n p i =
    let rest = divide fuel n (n % i) (i + 1) in if leb (i * i) n && not (p == 0) then rest else p

-- `none` is -1.
pub largest_prime : ℕ → Option ℕ
unfolding divide
largest_prime zero = none
largest_prime (suc n) =
    let rest = largest_prime n in
    if ltb 1 (suc n)
    then (if not (divide (suc n) (suc n) 1 2 == 0) then some (suc n) else rest)
    else none

-- The two hashes of a text, from the values so far.
pub hash_text : List ℕ → ℕ → ℕ → ℕ × ℕ
hash_text [] h1 h2 = (h1, h2)
hash_text (c ∷ cs) h1 h2 =
    hash_text cs ((h1 * 2 ^ 5 + h1 + c) % 2 ^ 32)
      ((c + h2 * 2 ^ 6 + h2 * 2 ^ 16 + 2 ^ 32 - h2) % 2 ^ 32)

pub hashes : Key → ℕ × ℕ
unfolding hash_text
hashes (text cs) = hash_text cs 5381 0
hashes (word w) = (w * 2654435761 % 2 ^ 32, (w * 2 ^ 6 + w * 2 ^ 16) % 2 ^ 32)

pub hash : ℕ → Key → ℕ → ℕ
unfolding hashes
hash size key try =
    let h2 = (hashes key).1 % (size - 1) + 1 in ((hashes key).0 + try * h2) % 2 ^ 32 % size

-- 0 where the keys are equal.
pub keycmp : Key → Key → ℤ
keycmp (text xs) (text ys) = order xs ys
keycmp (word a) (word b) = pos ((a + 2 ^ 32 - b) % 2 ^ 32)
keycmp (text xs) (word b) = pos 1
keycmp (word a) (text ys) = pos 1

abbrev pub is_zero : ℤ → Bool
is_zero (pos zero) = true
is_zero (pos (suc n)) = false
is_zero (negsuc n) = false

pub same_key : Key → Key → Bool
unfolding keycmp
same_key a b = is_zero (keycmp a b)

-- The cell for a key that is stored: `keydup` gives NULL where the copy of a text cannot be made,
-- and the words 0 and KEYFREED are the marks.
pub keydup : Bool → Key → Cell
keydup allocated (text cs) = if allocated then used (text cs) else null
keydup allocated (word w) = if w == 0 then null else if w == keyfreed then freed else used (word w)

abbrev pub set_slot : Table → ℕ → Cell → ℕ → Table
set_slot ht h key val = record ht { bucket = update ht.bucket h (record { key = key; val = val }) }

-- The key and the value of slot `h` go to the freed slot `s`.
pub move : Table → ℕ → ℕ → Key → ℕ → Table
move ht s h key val = set_slot (set_slot ht h freed (ht.bucket h).val) s (used key) val

-- `if (!slot) slot = &(ht->bucket[h]);`
abbrev pub first_slot : Option ℕ → ℕ → Option ℕ
first_slot none h = some h
first_slot (some s) h = some s

-- The probes of hto_get with `left` tries to go.
pub get_loop : ℕ → Table → Key → ℕ → Option ℕ → ℕ × Table
unfolding move
get_loop zero ht key try slot = (0, ht)
get_loop (suc left) ht key try slot =
    let h = hash ht.size key try in
    elim (ht.bucket h).key [
      | freed ↦ get_loop left ht key (try + 1) (first_slot slot h)
      | null ↦ (0, ht)
      | used k ↦
          let rest = get_loop left ht key (try + 1) slot in
          let val = (ht.bucket h).val in
          if same_key key k
          then (val, elim slot [ none ↦ ht | some s ↦ move ht s h k val ])
          else rest
    ]

pub hto_get : Table → Key → ℕ × Table
unfolding get_loop
hto_get ht key = get_loop ht.size ht key 0 none

abbrev pub enospc : ℕ
enospc = 13

-- Slot `s` takes a new key.
pub fill : Bool → Table → ℕ → Key → ℕ → Table
unfolding keydup
fill allocated ht s key val = set_slot ht s (keydup allocated key) val

-- Where hto_set ends with a freed slot found.
pub reuse : Bool → Table → ℕ → Key → ℕ → Table
unfolding fill
reuse allocated ht s key val = fill allocated (record ht { freed_nb = ht.freed_nb - 1 }) s key val

-- The probes of hto_set; `slot` is the first freed slot with its try.
pub set_loop : ℕ → Bool → Table → Key → ℕ → ℕ → Option (ℕ × ℕ) → ℤ × Table
unfolding move fill reuse
set_loop zero allocated ht key val try none = (negsuc (enospc - 1), ht)
set_loop zero allocated ht key val try (some (s, t)) = (pos t, reuse allocated ht s key val)
set_loop (suc left) allocated ht key val try slot =
    let h = hash ht.size key try in
    elim (ht.bucket h).key [
      | freed ↦
          set_loop left allocated ht key val (try + 1)
            (elim slot [ none ↦ some (h, try) | some st ↦ some st ])
      | null ↦ elim slot [
        | none ↦ (pos try, fill allocated (record ht { empty = ht.empty - 1 }) h key val)
        | some st ↦ (pos st.1, reuse allocated ht st.0 key val)
      ]
      | used k ↦
          let rest = set_loop left allocated ht key val (try + 1) slot in
          if same_key key k
          then (
            pos try,
            elim slot [ none ↦ set_slot ht h (used k) val | some st ↦ move ht st.0 h k val ],
          )
          else rest
    ]

abbrev pub is_keyfreed : Key → Bool
is_keyfreed (text cs) = false
is_keyfreed (word w) = w == keyfreed

pub hto_set : Bool → Table → Key → ℕ → ℤ × Table
unfolding set_loop
hto_set allocated ht key val =
    if is_keyfreed key then (negsuc 1, ht) else set_loop ht.size allocated ht key val 0 none

-- Whether `FREE (key)` comes back. A text is the copy that keydup has allocated. A word is freed as if it
-- were an address: `object` tells whether an object in use is there, and for any other address kfree panics
-- and free ends the program.
pub frees : (ℕ → Bool) → Key → Bool
frees object (text cs) = true
frees object (word w) = object w

pub del_loop : (ℕ → Bool) → ℕ → Table → Key → ℕ → Run (ℕ × Table)
unfolding frees
del_loop object zero ht key try = done (0, ht)
del_loop object (suc left) ht key try =
    let h = hash ht.size key try in
    elim (ht.bucket h).key [
      | freed ↦ del_loop object left ht key (try + 1)
      | null ↦ done (0, ht)
      | used k ↦
          let rest = del_loop object left ht key (try + 1) in
          if same_key key k
          then panic_if (not (frees object k)) (
              done
                ((ht.bucket h).val, set_slot (record ht { freed_nb = ht.freed_nb + 1 }) h freed 0))
          else rest
    ]

pub hto_del : (ℕ → Bool) → Table → Key → Run (ℕ × Table)
unfolding del_loop
hto_del object ht key = del_loop object ht.size ht key 0

-- What hto_create gives: NULL, a table, or one whose slots do not fit the memory that it has asked for.
pub data Created : Type 0 where
  no_table : Created
  new_table : Table → Created
  too_short : Created

-- `sizeof(hto_t)+nb*sizeof(hto_slot_t)`
abbrev pub table_bytes : ℕ → ℕ
table_bytes nb = (12 + nb * 8) % 2 ^ 32

abbrev pub fresh : ℕ → ℕ → Table
fresh nb type = record {
  words = not (type % 2 == 0);
  size = nb;
  empty = nb;
  freed_nb = 0;
  bucket = λ h. record { key = null; val = 0 };
}

pub hto_create : Bool → ℕ → ℕ → Created
unfolding largest_prime
hto_create allocated nb type =
    let nb1 : ℕ = elim (largest_prime nb) [ none ↦ 2 ^ 32 - 1 | some p ↦ p ] in
    if ltb 4096 (table_bytes nb1)
    then no_table
    else if not allocated
    then no_table
    else if ltb (table_bytes nb1) (12 + nb1 * 8)
    then too_short
    else new_table (fresh nb1 type)

-- The calls of the callback, with the slot, the key and the value.
pub foreach_loop : ℕ → Table → ℕ → List (ℕ × Key × ℕ)
foreach_loop zero ht h = []
foreach_loop (suc left) ht h =
    let rest = foreach_loop left ht (h + 1) in
    elim (ht.bucket h).key [
      | null ↦ rest
      | freed ↦ rest
      | used k ↦ (h, k, (ht.bucket h).val) ∷ rest
    ]

pub hto_foreach : Table → List (ℕ × Key × ℕ)
unfolding foreach_loop
hto_foreach ht = foreach_loop ht.size ht 0

-- The keys and the values that go to the functions that free them.
pub hto_destroy : Table → List (ℕ × Key × ℕ)
unfolding foreach_loop
hto_destroy ht = foreach_loop ht.size ht 0

-- The slots of the old table go into the new one.
pub rehash_loop : ℕ → Table → ℕ → Table → Table
unfolding hto_set
rehash_loop zero ht i new = new
rehash_loop (suc left) ht i new = rehash_loop left ht (i + 1) (elim (ht.bucket i).key [
  | null ↦ new
  | freed ↦ new
  | used k ↦ (hto_set true new k (ht.bucket i).val).1
])

-- `no_table` is NULL: the old table stays.
pub hto_rehash : Bool → Table → ℕ → Created
unfolding hto_create rehash_loop
hto_rehash allocated ht percent =
    let new_size = ht.size * percent % 2 ^ 32 / 100 in
    if percent == 0
    then no_table
    else if ltb new_size 2
    then no_table
    else elim (largest_prime new_size) [
      | none ↦ no_table
      | some p ↦ elim (hto_create allocated p (if ht.words then 1 else 0)) [
        | no_table ↦ no_table
        | too_short ↦ too_short
        | new_table new ↦ new_table (rehash_loop ht.size ht 0 new)
      ]
    ]

abbrev pub too_many : ℤ → ℕ → Bool
too_many (pos try) maxtry = ltb maxtry try
too_many (negsuc n) maxtry = n == 0

-- The loop of hto_set_grow from the result of a call of hto_set, for `maxtry` from 0 on; `none` where a
-- table is too short or the fuel ends.
pub grow_loop : ℕ → (ℕ → Bool) → Key → ℕ → ℕ → ℤ × Table → Option (ℤ × Table)
grow_loop zero allocated key val maxtry r = none
grow_loop (suc fuel) allocated key val maxtry r =
    let again = λ (ht : Table). grow_loop fuel allocated key val maxtry (hto_set true ht key val) in
    elim (too_many r.0 maxtry) [
      | false ↦ some r
      | true ↦ elim (hto_rehash (allocated fuel) r.1 200) [
        | no_table ↦ again r.1
        | too_short ↦ none
        | new_table new ↦ again new
      ]
    ]

pub hto_set_grow : ℕ → (ℕ → Bool) → Table → Key → ℕ → ℕ → Option (ℤ × Table)
hto_set_grow fuel allocated ht key val maxtry =
    grow_loop fuel allocated key val maxtry (hto_set true ht key val)
