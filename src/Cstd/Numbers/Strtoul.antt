-- ===== src/Cstd/Numbers/Strtoul.antt =====
-- What strtoul reads, against the value of the digits without a bound.
use ko.Base.{
  ℕ, ◌+◌, ◌^◌, ◌<◌, ◌≤◌, ◌≡◌, refl, ◌⊎◌, inl, inr, Bool, true, false, ◌==◌, ltb, leb, if◌then◌else◌,
  List, [], ◌∷◌, length, arith, Bool-cases, ◌∙◌,
}
use ko.Base.Run.{Run, done, Returns, Returns-bind, ◌>>=◌}
use ko.Cstd.Bytes.{Memory}
use ko.Cstd.Strings.{HasText}
use ko.Cstd.Numbers.{skip_spaces, guess_base, strtoul_loop, strtoul}
use ko.Cstd.Numbers.Digits.{
  digits_value, after_digits, IsRead, loop-IsRead, loop_overflow, loop_ends,
}
use ko.Cstd.Numbers.Prefix.{
  after_spaces, after_plus, guess_zero, guess_text, number_text, At, skip_spaces-At, plus-At,
  Guessed, base-Guessed,
}

guess_zero-base : (xs : List ℕ) → ((guess_zero xs).0 ≡ 0) ⊎ (2 ≤ (guess_zero xs).0)
guess_zero-base [] = inl refl
guess_zero-base (x ∷ xs) = ground arith

guess_text-base : (xs : List ℕ) → ((guess_text xs).0 ≡ 0) ⊎ (2 ≤ (guess_text xs).0)
guess_text-base [] = inl refl
guess_text-base (x ∷ xs) = ground (arith, guess_zero-base xs)

number_text-base :
    (base : ℕ) (xs : List ℕ)
    → (base ≡ 0) ⊎ (2 ≤ base)
    → ((number_text base xs).0 ≡ 0) ⊎ (2 ≤ (number_text base xs).0)
number_text-base base xs b = elim (Bool-cases (base == 0)) [
  | inl e ↦ rw e (guess_text-base (after_plus (after_spaces xs)))
  | inr e ↦ rw e b
]

-- The result of strtoul for the base and the digits `t` of its text, which ends before `total`.
pub record IsNumber (m : Memory) (total : ℕ) (t : ℕ × List ℕ) (r : ℕ × ℕ) : Type 0 where
  pub unknown : t.0 ≡ 0 → (r.0 ≡ 0) × (r.1 + length t.1 ≡ total)
  pub exact :
      0 < t.0
      → digits_value t.0 0 t.1 + t.0 < 2 ^ 32
      → (r.0 ≡ digits_value t.0 0 t.1)
        × HasText m r.1 (after_digits t.0 t.1)
        × (r.1 + length (after_digits t.0 t.1) ≡ total)
  pub too_big : 0 < t.0 → 2 ^ 32 ≤ digits_value t.0 0 t.1 → r.0 ≡ 0

abbrev result : ℕ × ℕ × Bool → Run (ℕ × ℕ)
result r = done (if r.2 then 0 else r.0, r.1)

digits-IsNumber :
    (fuel : ℕ) (m : Memory) (total s base : ℕ) (xs : List ℕ)
    → 2 ≤ base
    → length xs < fuel
    → At m total s xs
    → Returns (IsNumber m total (base, xs)) (strtoul_loop fuel m s base 0 >>= result)
digits-IsNumber fuel m total s base xs b l a =
    let v = digits_value base 0 xs in
    let loop = strtoul_loop fuel m s base 0 in
    elim (Bool-cases (ltb (v + base) (2 ^ 32))) [
      | inl e ↦
          Returns-bind (IsRead m s base 0 xs) (IsNumber m total (base, xs)) loop result
            (loop-IsRead fuel m s base 0 xs b a.holds l (ground arith))
            (λ r i. record {
              unknown = λ z. absurd (omega arith);
              exact = λ p q. (rw i.no_flag i.reads, i.rest, omega (arith, i.place, a.place));
              too_big = λ p q. absurd (ground arith);
            })
      | inr e ↦ elim (Bool-cases (leb (2 ^ 32) v)) [
        | inl f ↦
            Returns-bind (λ r. r.2 ≡ true) (IsNumber m total (base, xs)) loop result
              (loop_overflow fuel m s base 0 xs b a.holds l (omega arith) (ground arith))
              (λ r i. record {
                unknown = λ z. absurd (omega arith);
                exact = λ p q. absurd (ground arith);
                too_big = λ p q. rw i refl;
              })
        | inr f ↦
            Returns-bind (λ r. Unit {0}) (IsNumber m total (base, xs)) loop result
              (loop_ends fuel m s base 0 xs a.holds l)
              (λ r i. record {
                unknown = λ z. absurd (omega arith);
                exact = λ p q. absurd (ground arith);
                too_big = λ p q. absurd (ground arith);
              })
      ]
    ]

Guessed-IsNumber :
    (fuel : ℕ) (m : Memory) (total : ℕ) (g : ℕ × ℕ) (t : ℕ × List ℕ)
    → (t.0 ≡ 0) ⊎ (2 ≤ t.0)
    → length t.1 < fuel
    → Guessed m total g t
    → Returns
        (IsNumber m total t)
        (if g.0 == 0 then done (0, g.1) else strtoul_loop fuel m g.1 g.0 0 >>= result)
Guessed-IsNumber fuel m total g t (inl z) l (e, a) =
    let e0 : g.0 ≡ 0 = e ∙ z in
    rw e0 record {
      unknown = λ h. (refl, a.place);
      exact = λ p q. absurd (omega arith);
      too_big = λ p q. absurd (omega arith);
    }
Guessed-IsNumber fuel m total g t (inr b) l (e, a) =
    let e0 : g.0 == 0 ≡ false = ground arith in
    rw (e0, e) (digits-IsNumber fuel m total g.1 t.0 t.1 b l a)

spaces_shorter : (xs : List ℕ) → length (after_spaces xs) ≤ length xs
spaces_shorter [] = omega arith
spaces_shorter (x ∷ xs) = ground (arith, spaces_shorter xs)

plus_shorter : (xs : List ℕ) → length (after_plus xs) ≤ length xs
plus_shorter [] = omega arith
plus_shorter (x ∷ xs) = ground arith

zero_shorter : (xs : List ℕ) → length (guess_zero xs).1 ≤ length xs
zero_shorter [] = omega arith
zero_shorter (x ∷ xs) = ground arith

guess_shorter : (xs : List ℕ) → length (guess_text xs).1 ≤ length xs
guess_shorter [] = omega arith
guess_shorter (x ∷ xs) = ground (arith, zero_shorter xs)

number_shorter : (base : ℕ) (xs : List ℕ) → length (number_text base xs).1 ≤ length xs
number_shorter base xs =
    let ys = after_plus (after_spaces xs) in
    let l : length ys ≤ length xs =
      omega (arith, spaces_shorter xs, plus_shorter (after_spaces xs)) in
    elim (Bool-cases (base == 0)) [
      | inl e ↦ rw e (omega (arith, l, guess_shorter ys))
      | inr e ↦ rw e l
    ]

-- strtoul skips the spaces and a plus sign, takes base 0 from the prefix of the text (none: 0), and
-- reads the longest sequence of digits: the value is exact where it is below 2^32 less the base,
-- with `endptr` at what follows the digits, and 0 where it is 2^32 or more.
pub strtoul-IsNumber :
    (fuel : ℕ) (m : Memory) (s base : ℕ) (xs : List ℕ)
    → (base ≡ 0) ⊎ (2 ≤ base)
    → HasText m s xs
    → length xs < fuel
    → Returns (IsNumber m (s + length xs) (number_text base xs)) (strtoul fuel m s base)
unfolding strtoul
strtoul-IsNumber fuel m s base xs b t l =
    let total = s + length xs in
    Returns-bind (λ p. At m total p (after_spaces xs)) (IsNumber m total (number_text base xs))
      (skip_spaces fuel m s) _
      (skip_spaces-At fuel m total s xs l (record { holds = t; place = refl }))
      (λ s1 a.
        let ys = after_plus (after_spaces xs) in
        let s2 = if m s1 == b'+' then s1 + 1 else s1 in
        Guessed-IsNumber fuel m total (if base == 0 then guess_base m s2 else (base, s2))
          (number_text base xs) (number_text-base base xs b) (omega (arith, number_shorter base xs))
          (base-Guessed m total s2 base ys (plus-At m total s1 (after_spaces xs) a)))
