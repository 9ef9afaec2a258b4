-- ===== src/Kfs/Files/Words.antt =====
-- The loops over the words of a page.
use ko.Base.{
  ℕ, zero, suc, ◌/◌, ◌%◌, ◌<◌, ◌≤◌, ◌≡◌, refl, sym, subst, ◌∙◌, ◌==◌, ltb, if◌then◌else◌, arith,
  Bool-cases, inl, inr,
}
use Prim.Native.Nat.{digits, max, bit_or, bit_or-bitwise}
use native.Mathlib.Nat.{le-max_left}
use ko.Kfs.Files.{copy_words, or_words}

pub copy_words-copied :
    (n : ℕ) (from to : ℕ → ℕ) (i : ℕ) → copy_words n from to i ≡ (if ltb i n then from i else to i)
unfolding copy_words
copy_words-copied zero from to i = ground arith
copy_words-copied (suc n) from to i = ground (arith, copy_words-copied n from to i)

digits-zero : (n a b : ℕ) → a ≤ n → digits (λ b. b) max n a b ≡ 0 → a ≡ 0
digits-zero zero a b l h = omega (arith, l)
digits-zero (suc n) zero b l h = refl
digits-zero (suc n) (suc a) b l h =
    let m = le-max_left (suc a % 2) (b % 2) in
    let low : suc a % 2 ≡ 0 = omega (arith, m, h) in
    let high = digits-zero n (suc a / 2) (b / 2) (omega (arith, l)) (omega (arith, h)) in
    omega (arith, low, high)

or_zero : (a b : ℕ) → bit_or a b ≡ 0 → (a ≡ 0) × (b ≡ 0)
or_zero a b h =
    let e : digits (λ b. b) max a a b ≡ 0 = sym (λ i. bit_or-bitwise a b i) ∙ h in
    let z = digits-zero a a b (omega arith) e in (z, subst (λ a. digits (λ b. b) max a a b ≡ 0) z e)

-- The words are all 0 if their `|` is, and the other way round.
pub or_words-zero : (n : ℕ) (from : ℕ → ℕ) → or_words n from ≡ 0 → (i : ℕ) → i < n → from i ≡ 0
unfolding or_words
or_words-zero zero from h i l = absurd (omega (arith, l))
or_words-zero (suc n) from h i l =
    let (rest, last) = or_zero (or_words n from) (from n) h in
    elim (Bool-cases (i == n)) [
      | inl e ↦ let z : n ≡ i = ground arith in subst (λ k. from k ≡ 0) z last
      | inr e ↦ or_words-zero n from rest i (ground (arith, l))
    ]
