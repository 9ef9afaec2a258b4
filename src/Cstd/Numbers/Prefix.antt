-- ===== src/Cstd/Numbers/Prefix.antt =====
-- What strtoul skips in front of the digits, and the base that it takes from the prefix.
use ko.Base.{
  ℕ, zero, suc, ◌+◌, ◌<◌, ◌≡◌, refl, inl, inr, ◌&&◌, ◌||◌, ◌==◌, leb, if◌then◌else◌, List, [], ◌∷◌,
  length, arith, Bool-cases, subst,
}
use ko.Base.Run.{Returns}
use ko.Cstd.Bytes.{Memory}
use ko.Cstd.Strings.{HasText}
use ko.Cstd.Numbers.{is_space, skip_spaces, guess_base}

abbrev pub after_spaces : List ℕ → List ℕ
after_spaces [] = []
after_spaces (x ∷ xs) = if is_space x then after_spaces xs else x ∷ xs

abbrev pub after_plus : List ℕ → List ℕ
after_plus [] = []
after_plus (x ∷ xs) = if x == b'+' then xs else x ∷ xs

-- The base that the text after a leading 0 tells, and its digits.
abbrev pub guess_zero : List ℕ → ℕ × List ℕ
guess_zero [] = (0, [])
guess_zero (x ∷ xs) =
    if (x == b'x') || (x == b'X')
    then (16, xs)
    else if leb b'0' x && leb x b'9'
    then (8, x ∷ xs)
    else (0, x ∷ xs)

abbrev pub guess_text : List ℕ → ℕ × List ℕ
guess_text [] = (0, [])
guess_text (x ∷ xs) =
    if x == b'0'
    then guess_zero xs
    else if leb b'0' x && leb x b'9'
    then (10, x ∷ xs)
    else (0, x ∷ xs)

-- The base of the number and its digits with what follows them.
abbrev pub number_text : ℕ → List ℕ → ℕ × List ℕ
number_text base xs =
    let ys = after_plus (after_spaces xs) in if base == 0 then guess_text ys else (base, ys)

-- A place in memory with a text, so that place and length keep their sum.
pub record At (m : Memory) (total p : ℕ) (xs : List ℕ) : Type 0 where
  pub holds : HasText m p xs
  pub place : p + length xs ≡ total

pub skip_spaces-At :
    (fuel : ℕ) (m : Memory) (total s : ℕ) (xs : List ℕ)
    → length xs < fuel
    → At m total s xs
    → Returns (λ p. At m total p (after_spaces xs)) (skip_spaces fuel m s)
unfolding skip_spaces
skip_spaces-At zero m total s xs l a = absurd (omega arith)
skip_spaces-At (suc fuel) m total s [] l a = let e : m s ≡ 0 = a.holds in rw e a
skip_spaces-At (suc fuel) m total s (x ∷ xs) l a =
    let e : m s ≡ x = a.holds.0 in
    elim (Bool-cases (is_space x)) [
      | inl f ↦
          rw (e, f)
            (skip_spaces-At fuel m total (s + 1) xs (omega arith)
              (record { holds = a.holds.2; place = omega (arith, a.place) }))
      | inr f ↦ rw (e, f) a
    ]

pub plus-At :
    (m : Memory) (total s : ℕ) (xs : List ℕ)
    → At m total s xs
    → At m total (if m s == b'+' then s + 1 else s) (after_plus xs)
plus-At m total s [] a = let e : m s ≡ 0 = a.holds in rw e a
plus-At m total s (x ∷ xs) a =
    let e : m s ≡ x = a.holds.0 in
    elim (Bool-cases (x == b'+')) [
      | inl f ↦ rw (e, f) (record { holds = a.holds.2; place = omega (arith, a.place) })
      | inr f ↦ rw (e, f) a
    ]

abbrev pub Guessed : Memory → ℕ → ℕ × ℕ → ℕ × List ℕ → Type 0
Guessed m total g t = (g.0 ≡ t.0) × At m total g.1 t.1

zero-Guessed :
    (m : Memory) (total s : ℕ) (xs : List ℕ)
    → At m total (s + 1) xs
    → Guessed m total
        (if (m (s + 1) == b'x') || (m (s + 1) == b'X')
          then (16, s + 2)
          else if leb b'0' (m (s + 1)) && leb (m (s + 1)) b'9'
          then (8, s + 1)
          else (0, s + 1))
        (guess_zero xs)
zero-Guessed m total s [] a = let e : m (s + 1) ≡ 0 = a.holds in rw e (refl, a)
zero-Guessed m total s (x ∷ xs) a =
    let e : m (s + 1) ≡ x = a.holds.0 in
    let two : s + 1 + 1 ≡ s + 2 = omega arith in
    elim (Bool-cases ((x == b'x') || (x == b'X'))) [
      | inl f ↦
          rw (e, f)
            (
              refl,
              record {
                holds = subst (λ z. HasText m z xs) two a.holds.2;
                place = omega (arith, a.place);
              },
            )
      | inr f ↦ elim (Bool-cases (leb b'0' x && leb x b'9')) [
        | inl g ↦ rw (e, f, g) (refl, a)
        | inr g ↦ rw (e, f, g) (refl, a)
      ]
    ]

guess_base-Guessed :
    (m : Memory) (total s : ℕ) (xs : List ℕ)
    → At m total s xs
    → Guessed m total (guess_base m s) (guess_text xs)
unfolding guess_base
guess_base-Guessed m total s [] a = let e : m s ≡ 0 = a.holds in rw e (refl, a)
guess_base-Guessed m total s (x ∷ xs) a =
    let e : m s ≡ x = a.holds.0 in
    elim (Bool-cases (x == b'0')) [
      | inl f ↦
          rw (e, f)
            (zero-Guessed m total s xs
              (record { holds = a.holds.2; place = omega (arith, a.place) }))
      | inr f ↦ elim (Bool-cases (leb b'0' x && leb x b'9')) [
        | inl g ↦ rw (e, f, g) (refl, a)
        | inr g ↦ rw (e, f, g) (refl, a)
      ]
    ]

pub base-Guessed :
    (m : Memory) (total s base : ℕ) (xs : List ℕ)
    → At m total s xs
    → Guessed m total
        (if base == 0 then guess_base m s else (base, s))
        (if base == 0 then guess_text xs else (base, xs))
base-Guessed m total s base xs a = elim (Bool-cases (base == 0)) [
  | inl e ↦ rw e (guess_base-Guessed m total s xs a)
  | inr e ↦ rw e (refl, a)
]
