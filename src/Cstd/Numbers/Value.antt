-- ===== src/Cstd/Numbers/Value.antt =====
-- The number that a text of digits stands for, and the digits that itoa puts into memory.
use ko.Base.{
  ℕ, zero, suc, ◌+◌, ◌-◌, ◌*◌, ◌/◌, ◌%◌, ◌^◌, ◌<◌, ◌≤◌, ◌≡◌, refl, ◌⊎◌, inl, inr, ltb,
  if◌then◌else◌, update, List, [], ◌∷◌, length, arith, Bool-cases, subst, sym, ◌∙◌, ap,
}
use ko.Base.Run.{Returns, Returns-weaken}
use ko.Cstd.Bytes.{Memory}
use ko.Cstd.Strings.{HasText}
use ko.Cstd.Strings.Fill.{HasText-update}
use ko.Cstd.Numbers.{digit_char, itoa_loop}

-- The value of the digits 0-9 and A-Z.
abbrev pub digit_of : ℕ → ℕ
digit_of c = if ltb c b'A' then c - b'0' else c - b'A' + 10

-- Horner's rule, from `n` on.
abbrev pub value : ℕ → ℕ → List ℕ → ℕ
value base n [] = n
value base n (c ∷ cs) = value base (n * base + digit_of c) cs

-- The characters are digits of the base.
abbrev pub Digits : ℕ → List ℕ → Type 0
Digits base [] = Unit
Digits base (c ∷ cs) = ((x : ℕ) × (x < base) × (c ≡ digit_char x)) × Digits base cs

pub digit_of-digit_char : (d : ℕ) → digit_of (digit_char d) ≡ d
digit_of-digit_char d = ground arith

-- What the loop of itoa leaves: the digits `zs` in front of what stood at `ptr`.
pub record IsPrinted (m : Memory) (base ptr fuel val : ℕ) (xs : List ℕ) (r : Memory × ℕ)
    : Type 0 where
  pub text : List ℕ
  pub holds : HasText r.0 r.1 text
  pub digits : Digits base text
  pub reads : value base 0 text ≡ value base val xs
  pub size : r.1 + length text ≡ ptr + length xs
  pub room : r.1 < ptr × ptr ≤ r.1 + fuel
  pub same : (q : ℕ) → (q < r.1) ⊎ (ptr ≤ q) → r.0 q ≡ m q

split_value : (val base : ℕ) → 2 ≤ base → val / base * base + val % base ≡ val
split_value val base h = grind arith

fits_div : (val base k : ℕ) → 2 ≤ base → val < 2 ^ suc k → val / base < 2 ^ k
fits_div val base k h l =
    let p : 2 ^ suc k ≡ 2 * 2 ^ k = omega arith in grind (arith, split_value val base)

positive : (k v : ℕ) → v < 2 ^ k → 0 < v → 0 < k
positive zero v h g = absurd (omega arith)
positive (suc k) v h g = omega arith

put_digit :
    (m : Memory) (ptr val base : ℕ) (xs : List ℕ)
    → 0 < ptr
    → HasText m ptr xs
    → HasText
        (update m (ptr - 1) (digit_char (val % base)))
        (ptr - 1)
        (digit_char (val % base) ∷ xs)
put_digit m ptr val base xs h t =
    let e : ptr - 1 + 1 ≡ ptr = omega arith in
    let w = update m (ptr - 1) (digit_char (val % base)) in
    (
      ground arith,
      ground arith,
      subst (λ z. HasText w z xs) (sym e)
          (HasText-update m ptr (ptr - 1) (digit_char (val % base)) xs (inl (omega arith)) t),
    )

value_step :
    (val base : ℕ) (xs : List ℕ)
    → 2 ≤ base
    → value base (val / base) (digit_char (val % base) ∷ xs) ≡ value base val xs
value_step val base xs h =
    let e : val / base * base + digit_of (digit_char (val % base)) ≡ val =
      rw (digit_of-digit_char (val % base)) (split_value val base h) in
    ap (λ z. value base z xs) e

-- The last digit is in place, and nothing is left to divide.
last-IsPrinted :
    (m : Memory) (base ptr fuel val : ℕ) (xs : List ℕ)
    → 2 ≤ base
    → 0 < ptr
    → 0 < fuel
    → val / base ≡ 0
    → Digits base xs
    → HasText m ptr xs
    → IsPrinted m base ptr fuel val xs (update m (ptr - 1) (digit_char (val % base)), ptr - 1)
last-IsPrinted m base ptr fuel val xs b h f e d t = record {
  text = digit_char (val % base) ∷ xs;
  holds = put_digit m ptr val base xs h t;
  digits = ((val % base, grind arith, refl), d);
  reads =
      subst (λ z. value base z (digit_char (val % base) ∷ xs) ≡ value base val xs) e
        (value_step val base xs b);
  size = omega arith;
  room = (omega arith, omega arith);
  same = λ q g. ground (arith, h);
}

more-IsPrinted :
    (m : Memory) (base ptr fuel val : ℕ) (xs : List ℕ) (r : Memory × ℕ)
    → 2 ≤ base
    → 0 < ptr
    → IsPrinted
        (update m (ptr - 1) (digit_char (val % base)))
        base
        (ptr - 1)
        fuel
        (val / base)
        (digit_char (val % base) ∷ xs)
        r
    → IsPrinted m base ptr (suc fuel) val xs r
more-IsPrinted m base ptr fuel val xs r b h p = record {
  text = p.text;
  holds = p.holds;
  digits = p.digits;
  reads = p.reads ∙ value_step val base xs b;
  size = omega (arith, p.size);
  room = (omega (arith, p.room), omega (arith, p.room));
  same = λ q g. ground (arith, p.same q, p.room);
}

pub itoa_loop-IsPrinted :
    (fuel : ℕ) (m : Memory) (ptr val base : ℕ) (xs : List ℕ)
    → 2 ≤ base
    → val < 2 ^ fuel
    → 0 < fuel
    → fuel ≤ ptr
    → Digits base xs
    → HasText m ptr xs
    → Returns (IsPrinted m base ptr fuel val xs) (itoa_loop fuel m ptr val base)
unfolding itoa_loop
itoa_loop-IsPrinted zero m ptr val base xs b v f p d t = absurd (omega arith)
itoa_loop-IsPrinted (suc fuel) m ptr val base xs b v f p d t =
    let m1 = update m (ptr - 1) (digit_char (val % base)) in
    let l = fits_div val base fuel b v in
    elim (Bool-cases (ltb 0 (val / base))) [
      | inr e ↦
          rw e (last-IsPrinted m base ptr (suc fuel) val xs b (omega arith) f (ground arith) d t)
      | inl e ↦ rw e (
          Returns-weaken
            (IsPrinted m1 base (ptr - 1) fuel (val / base) (digit_char (val % base) ∷ xs))
            (IsPrinted m base ptr (suc fuel) val xs) (itoa_loop fuel m1 (ptr - 1) (val / base) base)
            (itoa_loop-IsPrinted fuel m1 (ptr - 1) (val / base) base (digit_char (val % base) ∷ xs)
              b l (positive fuel (val / base) l (ground arith)) (omega arith)
              ((val % base, grind arith, refl), d) (put_digit m ptr val base xs (omega arith) t))
            (λ r. more-IsPrinted m base ptr fuel val xs r b (omega arith)))
    ]
