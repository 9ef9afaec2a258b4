-- ===== src/Cstd/Format/Digits.antt =====
-- The digits that vsnprintf makes.
use ko.Base.{
  ℕ, zero, suc, ◌+◌, ◌-◌, ◌*◌, ◌/◌, ◌%◌, ◌^◌, ◌<◌, ◌≤◌, ◌≡◌, refl, ◌==◌, leb, if◌then◌else◌, List,
  [], ◌∷◌, length, arith, Bool-cases, inl, inr, ◌∙◌, subst, sym,
}
use ko.Cstd.Numbers.{int_min}
use ko.Cstd.Format.{decimal_text, decimal}

-- Horner's rule on decimal digits, from `n` on.
abbrev pub decimal_value : ℕ → List ℕ → ℕ
decimal_value n [] = n
decimal_value n (c ∷ cs) = decimal_value (n * 10 + (c - b'0')) cs

-- All characters are decimal digits.
abbrev pub Decimals : List ℕ → Type 0
Decimals [] = Unit
Decimals (c ∷ cs) = (b'0' ≤ c) × (c ≤ b'9') × Decimals cs

pub record IsText (fuel val : ℕ) (tmp out : List ℕ) : Type 0 where
  pub reads : decimal_value 0 out ≡ decimal_value val tmp
  pub size : (length tmp < length out) × (length out ≤ length tmp + fuel)
  pub digits : Decimals out

decimal_text-IsText :
    (fuel val i : ℕ) (tmp : List ℕ)
    → 0 < fuel
    → val < 10 ^ fuel
    → val % 10 + i < 10
    → Decimals tmp
    → IsText fuel (val + i) tmp (decimal_text fuel val i tmp)
unfolding decimal_text
decimal_text-IsText zero val i tmp f v h d = absurd (omega arith)
decimal_text-IsText (suc fuel) val i tmp f v h d =
    let digit = val % 10 + b'0' + i in
    let tmp1 = digit ∷ tmp in
    let e : val / 10 * 10 + (digit - b'0') ≡ val + i = omega arith in
    let d1 : Decimals tmp1 = (omega arith, omega arith, d) in
    elim (Bool-cases (val / 10 == 0)) [
      | inl t ↦
          let z : val / 10 ≡ 0 = ground arith in
          rw t record {
            reads =
                subst
                  (λ y. decimal_value (y * 10 + (digit - b'0')) tmp ≡ decimal_value (val + i) tmp) z
                  (subst (λ y. decimal_value y tmp ≡ decimal_value (val + i) tmp) (sym e) refl);
            size = (omega arith, omega arith);
            digits = d1;
          }
      | inr t ↦
          let nz : 0 < val / 10 = ground arith in
          let ih =
            decimal_text-IsText fuel (val / 10) 0 tmp1 (positive fuel val v nz) (ground arith)
              (omega arith) d1 in
          let g : val / 10 + 0 ≡ val / 10 = omega arith in
          rw t record {
            reads =
                ih.reads
                ∙ subst
                    (λ y. decimal_value (y * 10 + (digit - b'0')) tmp ≡ decimal_value (val + i) tmp)
                    (sym g)
                    (subst (λ y. decimal_value y tmp ≡ decimal_value (val + i) tmp) (sym e) refl);
            size = (omega (arith, ih.size), omega (arith, ih.size));
            digits = ih.digits;
          }
    ]
  where
    positive : (k w : ℕ) → w < 10 ^ suc k → 0 < w / 10 → 0 < k
    positive zero w a b = absurd (omega arith)
    positive (suc k) w a b = omega arith

-- The size of an `int`: for the least one 2^31.
abbrev pub magnitude : ℕ → ℕ
magnitude val = if leb int_min val then 2 ^ 32 - val else val

-- `%d` makes between one and ten digits, which fit the buffer `arg` of 16 bytes, and they are those of
-- the size of the value, for the least `int` too.
pub decimal-magnitude :
    (val : ℕ)
    → val < 2 ^ 32
    → (decimal_value 0 (decimal val) ≡ magnitude val)
      × Decimals (decimal val)
      × (0 < length (decimal val))
      × (length (decimal val) ≤ 10)
unfolding decimal
decimal-magnitude val v =
    let i : ℕ = if val == int_min then 1 else 0 in
    let size : ℕ = if leb int_min val then (2 ^ 32 - val) % 2 ^ 32 - i else val in
    let t = decimal_text-IsText 10 size i [] (omega arith) (ground arith) (ground arith) tt in
    (t.reads ∙ ground arith, t.digits, omega (arith, t.size), omega (arith, t.size))
