-- ===== src/Htopen/Create.antt =====
-- What hto_create makes.
use ko.Base.{
  ℕ, ◌+◌, ◌-◌, ◌*◌, ◌%◌, ◌^◌, ◌<◌, ◌≤◌, ◌≡◌, ◌≢◌, ◌⊎◌, refl, Bool, true, false, not, ◌==◌, ltb,
  if◌then◌else◌, Option, none, some, arith, Bool-cases, inl, inr,
}
use ko.Htopen.{
  Key, null, used, Table, largest_prime, Created, no_table, new_table, too_short, table_bytes,
  fresh, hto_create,
}
use ko.Htopen.Primes.{IsLargest, none_there, largest, largest_prime-IsLargest}
use ko.Htopen.Change.{IsTable, Lacks}

abbrev pub max_slots : ℕ
max_slots = 510

pub fresh-IsTable : (nb type : ℕ) → 2 ≤ nb → IsTable (fresh nb type)
fresh-IsTable nb type h = record {
  sized = h;
  keys = λ g k l e. absurd (null≢used k e);
  once = λ g g' k l l' e e'. absurd (null≢used k e);
  probed = λ g k l e. absurd (null≢used k e);
}
  where
    null≢used : (k : Key) → null ≢ used k
    null≢used k e = cc

pub fresh-Lacks : (nb type : ℕ) (k : Key) → Lacks (fresh nb type) k
fresh-Lacks nb type k h l e = absurd (cc e)

-- The table that is made, or why there is none.
pub data IsMade (allocated : Bool) (nb type : ℕ) : Created → Type 0 where
  made :
      (ht : Table)
      → allocated ≡ true
      → IsTable ht
      → ((k : Key) → Lacks ht k)
      → ht.words ≡ not (type % 2 == 0)
      → IsLargest nb (some ht.size)
      → ht.size ≤ max_slots
      → IsMade allocated nb type (new_table ht)
  not_made :
      (p : ℕ)
      → IsLargest nb (some p)
      → (allocated ≡ false) ⊎ (max_slots < p)
      → IsMade allocated nb type no_table

prime_two : (nb p : ℕ) → IsLargest nb (some p) → (2 ≤ p) × (p ≤ nb)
prime_two nb q (largest p prime l above) = (prime.0, l)

-- From 2 to 2^29 - 2 slots hto_create makes an empty well-formed table, whose size is the largest prime
-- number that is not above, or returns NULL: without memory, or for more than 510 slots.
pub hto_create-IsMade :
    (allocated : Bool) (nb type : ℕ)
    → 2 ≤ nb
    → nb < 2 ^ 29 - 1
    → IsMade allocated nb type (hto_create allocated nb type)
unfolding hto_create
hto_create-IsMade allocated nb type h l = from (largest_prime nb) (largest_prime-IsLargest nb)
  where
    from :
        (o : Option ℕ)
        → IsLargest nb o
        → let nb1 : ℕ = elim o [ none ↦ 2 ^ 32 - 1 | some p ↦ p ] in
          IsMade allocated nb type (
            if ltb 4096 (table_bytes nb1)
            then no_table
            else if not allocated
            then no_table
            else if ltb (table_bytes nb1) (12 + nb1 * 8)
            then too_short
            else new_table (fresh nb1 type))
    from none (none_there s) = absurd (omega arith)
    from (some p) big =
        let (two, below) = prime_two nb p big in
        let e : (12 + p * 8) % 2 ^ 32 ≡ 12 + p * 8 = omega arith in
        elim (Bool-cases (ltb 4096 (12 + p * 8))) [
          | inl t ↦ rw (e, t) (not_made p big (inr (ground arith)))
          | inr t ↦ elim (Bool-cases allocated) [
            | inr a ↦ rw (e, t, a) (not_made p big (inl refl))
            | inl a ↦
                let irr : ltb (12 + p * 8) (12 + p * 8) ≡ false = ground arith in
                rw (e, t, a, irr)
                  (made (fresh p type) refl (fresh-IsTable p type two) (fresh-Lacks p type) refl big
                    (ground arith))
          ]
        ]

-- For fewer than 2 slots hto_create asks for 4 bytes, takes them for a table of 2^32 - 1 slots, and writes
-- behind them.
pub hto_create-too_short : (nb type : ℕ) → nb < 2 → hto_create true nb type ≡ too_short
unfolding hto_create
hto_create-too_short nb type h = from (largest_prime nb) (largest_prime-IsLargest nb)
  where
    from :
        (o : Option ℕ)
        → IsLargest nb o
        → let nb1 : ℕ = elim o [ none ↦ 2 ^ 32 - 1 | some p ↦ p ] in
          (if ltb 4096 (table_bytes nb1)
            then no_table
            else if ltb (table_bytes nb1) (12 + nb1 * 8)
            then too_short
            else new_table (fresh nb1 type))
          ≡ too_short
    from none s = refl
    from (some p) big = let (two, below) = prime_two nb p big in absurd (omega arith)
