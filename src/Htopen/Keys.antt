-- ===== src/Htopen/Keys.antt =====
-- keycmp tells keys apart, and the probes stay in the table.
use ko.Base.{
  ℕ, ◌+◌, ◌-◌, ◌%◌, ◌^◌, ◌<◌, ◌≡◌, ◌≢◌, refl, Bool, true, false, ◌==◌, List, [], ◌∷◌, arith,
  Bool-cases, inl, inr, ap,
}
use ko.Base.Int.{pos}
use ko.Cstd.Strings.Compare.{order}
use ko.Htopen.{Key, text, word, keyfreed, hash, keycmp, is_zero, same_key}

-- The characters of a text are not NUL.
abbrev pub Characters : List ℕ → Type 0
Characters [] = Unit
Characters (c ∷ cs) = (0 < c) × Characters cs

-- The keys that a table of the type takes.
abbrev pub IsKey : Bool → Key → Type 0
IsKey words (text cs) = (words ≡ false) × Characters cs
IsKey words (word w) = (words ≡ true) × (0 < w) × (w < 2 ^ 32) × (w ≢ keyfreed)

order-equal : (xs : List ℕ) → order xs xs ≡ pos 0
order-equal [] = refl
order-equal (x ∷ xs) = ground (arith, order-equal xs)

is_zero-order :
    (xs ys : List ℕ) → Characters xs → Characters ys → is_zero (order xs ys) ≡ true → xs ≡ ys
is_zero-order [] [] cx cy h = refl
is_zero-order [] (y ∷ ys) cx cy h = absurd (ground arith)
is_zero-order (x ∷ xs) [] cx cy h = absurd (ground arith)
is_zero-order (x ∷ xs) (y ∷ ys) cx cy h = elim (Bool-cases (x == y)) [
  | inl e ↦ let t : xs ≡ ys = is_zero-order xs ys cx.1 cy.1 (rw e at h) in ground arith
  | inr e ↦ absurd (ground arith)
]

pub same_key_refl : (words : Bool) (k : Key) → IsKey words k → same_key k k ≡ true
unfolding same_key keycmp
same_key_refl words (text cs) h = rw (order-equal cs) refl
same_key_refl words (word w) h = let e : (w + 2 ^ 32 - w) % 2 ^ 32 ≡ 0 = omega arith in rw e refl

pub same_key-eq :
    (words : Bool) (a b : Key) → IsKey words a → IsKey words b → same_key a b ≡ true → a ≡ b
unfolding same_key keycmp
same_key-eq words (text xs) (text ys) ha hb h = ap text (is_zero-order xs ys ha.1 hb.1 h)
same_key-eq words (text xs) (word b) ha hb h = absurd (ground arith)
same_key-eq words (word a) (text ys) ha hb h = absurd (ground arith)
same_key-eq words (word a) (word b) ha hb h = ap word (same a b ha.2 hb.2 h)
  where
    same :
        (a b : ℕ)
        → a < 2 ^ 32
        → b < 2 ^ 32
        → is_zero (pos ((a + 2 ^ 32 - b) % 2 ^ 32)) ≡ true
        → a ≡ b
    same a b ha hb h = elim (Bool-cases ((a + 2 ^ 32 - b) % 2 ^ 32 == 0)) [
      | inl e ↦ let z : (a + 2 ^ 32 - b) % 2 ^ 32 ≡ 0 = ground arith in omega (arith, z)
      | inr e ↦ absurd (ground arith)
    ]

pub hash-lt : (size : ℕ) (k : Key) (try : ℕ) → 0 < size → hash size k try < size
unfolding hash
hash-lt size k try h = grind arith
