-- ===== src/Htopen/Tests.antt =====
-- The hash table with a word as key.
use ko.Base.{◌≡◌, refl, true, [], ◌∷◌, arith, some, subst, sym}
use ko.Htopen.{
  Key, text, word, Table, hashes, hash, keycmp, same_key, get_loop, hto_get, set_loop, keydup, fill,
  hto_set, fresh, largest_prime, divide,
}
use ko.Htopen.Keys.{IsKey}
use ko.Htopen.Change.{IsPut}
use ko.Htopen.Get.{IsGot, hto_get-IsGot}
use ko.Htopen.Set.{IsStored, stored, full, hto_set-IsStored}
use ko.Htopen.Create.{fresh-IsTable}

abbrev seven : Key
seven = word 7

abbrev two : Key
two = word 2

-- The table of five slots with 7 mapped to 70.
abbrev one : Table
one = (hto_set true (fresh 5 1) seven 70).1

seven-IsKey : IsKey true seven
seven-IsKey = (refl, omega arith, omega arith, omega arith)

two-IsKey : IsKey true two
two-IsKey = (refl, omega arith, omega arith, omega arith)

one-IsPut : IsPut (fresh 5 1) seven 70 one
unfolding hto_set set_loop hash hashes
one-IsPut =
    elim (hto_set-IsStored (fresh 5 1) (fresh-IsTable 5 1 (omega arith)) seven seven-IsKey 70) [
      | stored try r l p ↦ p
      | full r s l a ↦ absurd (cc r)
    ]

seven-IsKey_one : IsKey one.words seven
seven-IsKey_one = subst (λ w. IsKey w seven) (sym one-IsPut.words) seven-IsKey

two-IsKey_one : IsKey one.words two
two-IsKey_one = subst (λ w. IsKey w two) (sym one-IsPut.words) two-IsKey

one-get : (hto_get one seven).0 ≡ 70
unfolding hto_get get_loop hto_set set_loop hash hashes fill keydup same_key keycmp
one-get = refl

twelve-prime : largest_prime 12 ≡ some 11
unfolding largest_prime divide
twelve-prime = refl

hto_get-IsGot_example : IsGot one seven (hto_get one seven)
hto_get-IsGot_example = hto_get-IsGot one one-IsPut.table seven seven-IsKey_one

hto_set-IsStored_example : IsStored one two 20 (hto_set true one two 20)
hto_set-IsStored_example = hto_set-IsStored one one-IsPut.table two two-IsKey_one 20

-- A table of five slots with a text as key.
abbrev name : Key
name = text (b'a' ∷ [])

abbrev named : Table
named = (hto_set true (fresh 5 0) name 70).1
