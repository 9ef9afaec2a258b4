-- ===== src/Htopen/Grow.antt =====
-- What hto_rehash and hto_set_grow do to the pairs of a table.
use ko.Base.{
  ℕ, suc, ◌-◌, ◌*◌, ◌/◌, ◌%◌, ◌^◌, ◌<◌, ◌≤◌, ◌≡◌, ◌≢◌, ◌⊎◌, refl, Bool, true, false, not, ◌==◌, ltb,
  if◌then◌else◌, Option, none, some, arith, Bool-cases, inl, inr, ◌∙◌, subst, sym, ap,
}
use ko.Base.Int.{ℤ, pos, negsuc}
use ko.Htopen.{
  Key, used, Table, hto_set, enospc, largest_prime, Created, no_table, new_table, too_short,
  hto_create, rehash_loop, hto_rehash, too_many, grow_loop, hto_set_grow,
}
use ko.Htopen.Primes.{IsPrime, IsLargest, none_there, largest, largest_prime-IsLargest}
use ko.Htopen.Create.{IsMade, made, not_made, hto_create-IsMade}
use ko.Htopen.Keys.{IsKey}
use ko.Htopen.Change.{IsTable, Holds, Lacks}
use ko.Htopen.Set.{stored, full, hto_set-IsStored}
use ko.Htopen.Copy.{AllTaken, IsCopied, rehash_loop-IsCopied}

start-IsCopied :
    (ht new : Table)
    → IsTable new
    → ((k : Key) → Lacks new k)
    → new.words ≡ ht.words
    → IsPrime new.size
    → IsCopied ht 0 new
start-IsCopied ht new t lacks words prime = record {
  table = t;
  words = words;
  prime = prime;
  only = λ k v (h, l, e, w). absurd (lacks k h l e);
  all = λ h k l e. absurd (omega arith);
}

-- NULL, with the old table in its place; or a new well-formed table, with no pair that the old one has not,
-- and each pair of the old one, but where all probes of its key are taken.
pub data IsRehashed (ht : Table) : Created → Type 0 where
  old_stays : IsRehashed ht no_table
  rehashed :
      (new : Table)
      → IsTable new
      → new.words ≡ ht.words
      → IsPrime new.size
      → ((k : Key) (v : ℕ)
          → Holds new k v
          → (h : ℕ) × (h < ht.size) × ((ht.bucket h).key ≡ used k) × ((ht.bucket h).val ≡ v))
      → ((k : Key) (v : ℕ) → Holds ht k v → Holds new k v ⊎ AllTaken new k)
      → IsRehashed ht (new_table new)

copied-IsRehashed : (ht new : Table) → IsCopied ht ht.size new → IsRehashed ht (new_table new)
copied-IsRehashed ht new c =
    rehashed new c.table c.words c.prime c.only
      (λ k v (h, l, e, w). subst (λ y. Holds new k y ⊎ AllTaken new k) w (c.all h k l e))

-- hto_rehash of a well-formed table by any percentage.
pub hto_rehash-IsRehashed :
    (allocated : Bool) (ht : Table) (percent : ℕ)
    → IsTable ht
    → IsRehashed ht (hto_rehash allocated ht percent)
unfolding hto_rehash
hto_rehash-IsRehashed allocated ht percent valid =
    let n = ht.size * percent % 2 ^ 32 / 100 in
    elim (Bool-cases (percent == 0)) [
      | inl e ↦ rw e old_stays
      | inr e ↦ elim (Bool-cases (ltb n 2)) [
        | inl f ↦ rw (e, f) old_stays
        | inr f ↦
            rw (e, f)
              (sized n (largest_prime n) (ground arith) (omega arith) (largest_prime-IsLargest n))
      ]
    ]
  where
    prime_of : (n p : ℕ) → IsLargest n (some p) → IsPrime p
    prime_of n q (largest p prime l above) = prime

    same_words : (b w : Bool) → w ≡ not ((if b then 1 else 0) % 2 == 0) → w ≡ b
    same_words true w e = e
    same_words false w e = e

    made_new :
        (p : ℕ) (r : Created)
        → IsMade allocated p (if ht.words then 1 else 0) r
        → IsRehashed ht (elim r [
          | no_table ↦ no_table
          | too_short ↦ too_short
          | new_table new ↦ new_table (rehash_loop ht.size ht 0 new)
        ])
    made_new p r (made new a t lacks words big small) =
        copied-IsRehashed ht (rehash_loop ht.size ht 0 new) (
          rehash_loop-IsCopied ht valid ht.size 0 new (omega arith) (
            start-IsCopied ht new t lacks (same_words ht.words new.words words)
              (prime_of p new.size big)))
    made_new p r (not_made q big why) = old_stays

    sized :
        (n : ℕ) (o : Option ℕ)
        → 2 ≤ n
        → n < 2 ^ 29 - 1
        → IsLargest n o
        → IsRehashed ht (elim o [
          | none ↦ no_table
          | some p ↦ elim (hto_create allocated p (if ht.words then 1 else 0)) [
            | no_table ↦ no_table
            | too_short ↦ too_short
            | new_table new ↦ new_table (rehash_loop ht.size ht 0 new)
          ]
        ])
    sized n o b l (none_there s) = absurd (omega arith)
    sized n o b l (largest p prime le above) =
        made_new p (hto_create allocated p (if ht.words then 1 else 0))
          (hto_create-IsMade allocated p (if ht.words then 1 else 0) prime.0 (omega arith))

grow_stop :
    (fuel : ℕ) (allocated : ℕ → Bool) (key : Key) (val maxtry : ℕ) (r : ℤ × Table)
    → r.0 ≡ negsuc (enospc - 1)
    → grow_loop (suc fuel) allocated key val maxtry r ≡ some r
unfolding grow_loop
grow_stop fuel allocated key val maxtry r e =
    let stop : too_many r.0 maxtry ≡ false = ap (λ z. too_many z maxtry) e in
    rw (stop, grow_loop) refl

-- Where hto_set finds the table full, hto_set_grow does not grow it: it returns the same error, and the
-- table without the key.
pub hto_set_grow-full :
    (fuel : ℕ) (allocated : ℕ → Bool) (ht : Table) (key : Key) (val maxtry : ℕ)
    → IsTable ht
    → IsKey ht.words key
    → (hto_set true ht key val).0 ≡ negsuc (enospc - 1)
    → (hto_set_grow (suc fuel) allocated ht key val maxtry ≡ some (negsuc (enospc - 1), ht))
      × Lacks ht key
unfolding hto_set_grow
hto_set_grow-full fuel allocated ht key val maxtry valid good e =
    elim (hto_set-IsStored ht valid key good val) [
      | stored try r t p ↦ absurd (pos≢negsuc try (sym r ∙ e))
      | full r same lacks a ↦ (
        grow_stop fuel allocated key val maxtry (hto_set true ht key val) r
            ∙ ap some (λ i. (r i, same i)),
        lacks,
      )
    ]
  where
    pos≢negsuc : (n : ℕ) → pos n ≢ negsuc (enospc - 1)
    pos≢negsuc n e = cc
