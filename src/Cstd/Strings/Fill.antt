-- ===== src/Cstd/Strings/Fill.antt =====
-- What strncpy leaves in memory.
use ko.Base.{
  ℕ, zero, suc, ◌+◌, ◌-◌, ◌<◌, ◌≤◌, ◌≡◌, ◌&&◌, ◌==◌, ltb, leb, if◌then◌else◌, List, [], ◌∷◌, length,
  arith, ◌⊎◌, inl, inr, update, Bool-cases, subst, sym, false, ◌∙◌,
}
use ko.Cstd.Bytes.{Memory}
use ko.Cstd.Strings.{HasText, strncpy_pad, strncpy_loop, strncpy}

pub HasText-update :
    (m : Memory) (p q v : ℕ) (xs : List ℕ)
    → (q < p) ⊎ (p + length xs < q)
    → HasText m p xs
    → HasText (update m q v) p xs
HasText-update m p q v [] f t = ground arith
HasText-update m p q v (x ∷ xs) f t =
    (ground arith, t.1, HasText-update m (p + 1) q v xs (ground arith) t.2)

-- The character at a place of a text, NUL behind its end.
abbrev pub char_at : List ℕ → ℕ → ℕ
char_at [] i = 0
char_at (x ∷ xs) zero = x
char_at (x ∷ xs) (suc i) = char_at xs i

-- The memory `m` with the `n` bytes from `d` on set to the text `xs` and NULs behind it.
abbrev pub written : Memory → ℕ → ℕ → List ℕ → Memory
written m d n xs q = if leb d q && ltb q (d + n) then char_at xs (q - d) else m q

-- The text at `p` has no byte in common with the `n` bytes from `d` on.
abbrev pub Apart : ℕ → List ℕ → ℕ → ℕ → Type 0
Apart p xs d n = (p + length xs < d) ⊎ (d + n ≤ p)

pad-written : (m : Memory) (d i n q : ℕ) → strncpy_pad m d i n q ≡ written m (d + i) n [] q
unfolding strncpy_pad
pad-written m d i zero q = ground arith
pad-written m d i (suc n) q = ground (arith, pad-written (update m (d + i) 0) d (i + 1) n q)

pub written_cons :
    (m : Memory) (d n x : ℕ) (xs : List ℕ) (q : ℕ)
    → written (update m d x) (d + 1) n xs q ≡ written m d (suc n) (x ∷ xs) q
written_cons m d n x xs q = elim (Bool-cases (ltb d q)) [
  | inl e ↦ let g : q - d ≡ suc (q - (d + 1)) = ground arith in rw g (ground arith)
  | inr e ↦ elim (Bool-cases (q == d)) [
    | inl f ↦ let g : q - d ≡ 0 = ground arith in rw g (ground arith)
    | inr f ↦ ground arith
  ]
]

loop-written :
    (m : Memory) (d s i p n q : ℕ) (xs : List ℕ)
    → p ≡ s + i
    → HasText m p xs
    → Apart p xs (d + i) n
    → strncpy_loop m d s i n q ≡ written m (d + i) n xs q
unfolding strncpy_loop
loop-written m d s i p zero q xs e t a = ground arith
loop-written m d s i p (suc n) q [] e t a = ground (arith, pad-written m d i (suc n) q)
loop-written m d s i p (suc n) q (x ∷ xs) e t a =
    let f : d + (i + 1) ≡ d + i + 1 = omega arith in
    let z : x == 0 ≡ false = ground (arith, t.1) in
    let ih =
      loop-written (update m (d + i) x) d s (i + 1) (p + 1) n q xs (omega arith)
        (HasText-update m (p + 1) (d + i) x xs (ground arith) t.2) (ground arith) in
    let here : m (s + i) ≡ x = rw (← e) t.0 in
    rw (here, z)
      (ih
        ∙ subst (λ z. written (update m (d + i) x) z n xs q ≡ written m (d + i) (suc n) (x ∷ xs) q)
            (sym f) (written_cons m (d + i) n x xs q))

-- strncpy writes exactly the `n` bytes from `dest` on: the characters of the text, cut after `n`, and
-- NULs behind them. A text of `n` characters or more leaves `dest` without a NUL.
pub strncpy-written :
    (m : Memory) (dest src n q : ℕ) (xs : List ℕ)
    → HasText m src xs
    → Apart src xs dest n
    → strncpy m dest src n q ≡ written m dest n xs q
unfolding strncpy
strncpy-written m d s n q xs t a =
    let e : d + 0 ≡ d = omega arith in
    subst (λ z. strncpy_loop m d s 0 n q ≡ written m z n xs q) e
      (loop-written m d s 0 s n q xs (omega arith) t (subst (λ z. Apart s xs z n) (sym e) a))
