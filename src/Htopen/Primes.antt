-- ===== src/Htopen/Primes.antt =====
-- largest_prime finds the largest prime number up to its argument.
use ko.Base.{
  ℕ, zero, suc, ◌+◌, ◌*◌, ◌/◌, ◌%◌, ◌<◌, ◌≤◌, ◌≡◌, ◌≢◌, ◌⊎◌, refl, true, false, not, ◌==◌, ltb, leb,
  if◌then◌else◌, Option, none, some, arith, Bool-cases, inl, inr, subst,
}
use native.Mathlib.Nat.{mul-mod_right}
use ko.Htopen.{divide, largest_prime}

abbrev pub IsPrime : ℕ → Type 0
IsPrime n = (2 ≤ n) × ((d : ℕ) → 2 ≤ d → d < n → n % d ≢ 0)

-- No number from 2 to `i - 1` divides `n`.
abbrev Indivisible : ℕ → ℕ → Type 0
Indivisible n i = (d : ℕ) → 2 ≤ d → d < i → n % d ≢ 0

-- What the loop has found: a divisor, or that there is none up to the square root.
abbrev Divided : ℕ → ℕ → Type 0
Divided n p =
    ((p ≡ 0) × ((d : ℕ) × (2 ≤ d) × (d * d ≤ n) × (n % d ≡ 0)))
    ⊎ ((p ≢ 0) × ((d : ℕ) → 2 ≤ d → d * d ≤ n → n % d ≢ 0))

divide-stop : (n i : ℕ) → Indivisible n i → n < i * i → (d : ℕ) → 2 ≤ d → d * d ≤ n → n % d ≢ 0
divide-stop n i h l d b s = h d b (grind arith)

divide_zero : (fuel n i : ℕ) → divide fuel n 0 i ≡ 0
unfolding divide
divide_zero zero n i = refl
divide_zero (suc fuel) n i = ground arith

divide-Divided :
    (fuel n p i : ℕ)
    → 2 ≤ i
    → n < fuel + i
    → p ≢ 0
    → Indivisible n i
    → Divided n (divide fuel n p i)
unfolding divide
divide-Divided zero n p i b f h g = inr (h, divide-stop n i g (grind arith))
divide-Divided (suc fuel) n p i b f h g =
    let nz : not (p == 0) ≡ true = ground arith in
    elim (Bool-cases (leb (i * i) n)) [
      | inr e ↦ rw e (inr (h, divide-stop n i g (ground arith)))
      | inl e ↦ elim (Bool-cases (n % i == 0)) [
        | inl z ↦
            let z' : n % i ≡ 0 = ground arith in
            rw (e, nz, z', divide_zero fuel n (i + 1)) (inl (refl, (i, b, ground arith, z')))
        | inr z ↦
            rw (e, nz)
              (divide-Divided fuel n (n % i) (i + 1) (omega arith) (omega arith) (ground arith)
                (Indivisible_next n i g (ground arith)))
      ]
    ]
  where
    Indivisible_next : (n i : ℕ) → Indivisible n i → n % i ≢ 0 → Indivisible n (i + 1)
    Indivisible_next n i g z d b l = elim (Bool-cases (d == i)) [
      | inl e ↦ let q : i ≡ d = ground arith in subst (λ y. n % y ≢ 0) q z
      | inr e ↦ g d b (ground arith)
    ]

-- A divisor has a divisor beside it that is at most the square root.
cofactor :
    (n d : ℕ)
    → 2 ≤ d
    → d < n
    → n % d ≡ 0
    → n < d * d
    → (2 ≤ n / d) × (n / d * (n / d) ≤ n) × (n % (n / d) ≡ 0)
cofactor n d b l z s =
    let e : n / d * d ≡ n = grind arith in
    let two : 2 ≤ n / d = grind (arith, e) in
    let less : n / d < d = grind (arith, e) in
    (two, grind (arith, e, less), subst (λ y. y % (n / d) ≡ 0) e (mul-mod_right (n / d) d))

Divided-IsPrime :
    (n p : ℕ) → 2 ≤ n → Divided n p → (p == 0 ≡ false → IsPrime n) × (p == 0 ≡ true → ¬ IsPrime n)
Divided-IsPrime n p b (inl (z, (d, two, s, m))) =
    (λ f. absurd (ground arith), λ f (_, none_below). none_below d two (grind arith) m)
Divided-IsPrime n p b (inr (z, h)) = (
  λ f. (
    b,
    λ d two l m. elim (Bool-cases (leb (d * d) n)) [
      | inl e ↦ h d two (ground arith) m
      | inr e ↦ let (two', s', m') = cofactor n d two l m (ground arith) in h (n / d) two' s' m'
    ],
  ),
  λ f. absurd (ground arith),
)

divide-IsPrime :
    (n : ℕ)
    → 2 ≤ n
    → (divide n n 1 2 == 0 ≡ false → IsPrime n) × (divide n n 1 2 == 0 ≡ true → ¬ IsPrime n)
divide-IsPrime n b = Divided-IsPrime n (divide n n 1 2) b (
    divide-Divided n n 1 2 (omega arith) (omega arith) (omega arith)
      (λ d two l. absurd (omega arith)))

-- The largest prime number up to `n`, or that there is none.
pub data IsLargest (n : ℕ) : Option ℕ → Type 0 where
  none_there : n < 2 → IsLargest n none
  largest :
      (p : ℕ) → IsPrime p → p ≤ n → ((q : ℕ) → p < q → q ≤ n → ¬ IsPrime q) → IsLargest n (some p)

skip-IsLargest :
    (n : ℕ) (o : Option ℕ) → ¬ IsPrime (suc n) → IsLargest n o → 2 ≤ n → IsLargest (suc n) o
skip-IsLargest n o h (none_there l) c = absurd (omega arith)
skip-IsLargest n o h (largest p prime l above) c = largest p prime (omega arith) (λ q g k.
    elim (Bool-cases (q == suc n)) [
      | inl e ↦ let z : suc n ≡ q = ground arith in subst (λ y. ¬ IsPrime y) z h
      | inr e ↦ above q g (ground arith)
    ])

largest_prime_step :
    (n : ℕ)
    → 1 ≤ n
    → largest_prime (suc n)
      ≡ (if divide (suc n) (suc n) 1 2 == 0 then largest_prime n else some (suc n))
unfolding largest_prime
largest_prime_step n h =
    let test : ltb 1 (suc n) ≡ true = ground arith in
    elim (Bool-cases (divide (suc n) (suc n) 1 2 == 0)) [
      | inl e ↦ rw (test, e) refl
      | inr e ↦ rw (test, e) refl
    ]

largest_prime_small : (largest_prime 0 ≡ none) × (largest_prime 1 ≡ none)
unfolding largest_prime
largest_prime_small = (refl, refl)

step-IsLargest :
    (n : ℕ) → 1 ≤ n → IsLargest n (largest_prime n) → IsLargest (suc n) (largest_prime (suc n))
step-IsLargest n h ih =
    let (prime, composite) = divide-IsPrime (suc n) (omega arith) in
    elim (Bool-cases (divide (suc n) (suc n) 1 2 == 0)) [
      | inr e ↦
          rw (largest_prime_step n h, e)
            (largest (suc n) (prime e) (omega arith) (λ q g k. absurd (omega arith)))
      | inl e ↦
          rw (largest_prime_step n h, e)
            (skip-IsLargest n (largest_prime n) (composite e) ih (two n h (composite e)))
    ]
  where
    two : (n : ℕ) → 1 ≤ n → ¬ IsPrime (suc n) → 2 ≤ n
    two n h c = elim (Bool-cases (n == 1)) [
      | inl e ↦
          let z : n ≡ 1 = ground arith in
          absurd (subst (λ y. ¬ IsPrime (suc y)) z c (omega arith, λ d b l. absurd (omega arith)))
      | inr e ↦ ground arith
    ]

-- largest_prime returns the largest prime number that is at most `n`, and -1 exactly below 2.
pub largest_prime-IsLargest : (n : ℕ) → IsLargest n (largest_prime n)
largest_prime-IsLargest zero = rw largest_prime_small.0 (none_there (omega arith))
largest_prime-IsLargest (suc zero) = rw largest_prime_small.1 (none_there (omega arith))
largest_prime-IsLargest (suc (suc n)) =
    step-IsLargest (suc n) (omega arith) (largest_prime-IsLargest (suc n))
