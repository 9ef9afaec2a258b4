-- ===== src/Kfs/Bitmap/Bits.antt =====
-- The bits of a byte.
use ko.Base.{
  ℕ, zero, suc, ◌+◌, ◌*◌, ◌-◌, ◌/◌, ◌%◌, ◌^◌, ◌<◌, ◌≡◌, refl, sym, subst, Bool, true, false, ◌&&◌,
  not, ◌==◌, ltb, if◌then◌else◌, arith, Bool-cases, inl, inr,
}
use Prim.Native.Nat.{bit_and, bit_and-bitwise, bit_or}

unfoldable pub bit : ℕ → ℕ → Bool
bit b k = not (bit_and b (2 ^ k) == 0)

infix 4 ◌iff◌
abbrev ◌iff◌ : Bool → Bool → Bool
true iff b = b
false iff b = not b

-- What set_bit and clear_bit do to the bit `j` of the byte `b` where they change the bit `k`.
law : ℕ → ℕ → ℕ → Bool
unfolding bit
law b k j =
    (bit (bit_or b (2 ^ k) % 2 ^ 8) j iff (if j == k then true else bit b j))
    && (bit (bit_and b (2 ^ 8 - 1 - 2 ^ k)) j iff (if j == k then false else bit b j))
    && ltb (bit_and b (2 ^ 8 - 1 - 2 ^ k)) (2 ^ 8)

-- The law at every triple whose code is below `n`.
checked : ℕ → Bool
checked zero = true
checked (suc n) = if law (n / 64) (n / 8 % 8) (n % 8) then checked n else false

checked_all : checked 16384 ≡ true
unfolding checked law bit
checked_all = refl

checked-law : (m n : ℕ) → checked n ≡ true → m < n → law (m / 64) (m / 8 % 8) (m % 8) ≡ true
unfolding checked
checked-law m zero h l = absurd (omega (arith, l))
checked-law m (suc n) h l = elim (Bool-cases (m == n)) [
  | inl e ↦
      let z : n ≡ m = ground arith in
      let here : law (n / 64) (n / 8 % 8) (n % 8) ≡ true = ground (arith, h) in
      subst (λ x. law (x / 64) (x / 8 % 8) (x % 8) ≡ true) z here
  | inr e ↦ checked-law m n (ground (arith, h)) (ground arith)
]

law_holds : (b k j : ℕ) → b < 2 ^ 8 → k < 8 → j < 8 → law b k j ≡ true
law_holds b k j hb hk hj =
    let m : ℕ = b * 64 + k * 8 + j in
    let e0 : m / 64 ≡ b = omega (arith, hb, hk, hj) in
    let e1 : m / 8 % 8 ≡ k = omega (arith, hb, hk, hj) in
    let e2 : m % 8 ≡ j = omega (arith, hb, hk, hj) in
    rw (e0, e1, e2) at (checked-law m 16384 checked_all (omega (arith, hb, hk, hj)))

iff-eq : (a b : Bool) → (a iff b) ≡ true → a ≡ b
iff-eq true b h = sym h
iff-eq false true h = h
iff-eq false false h = refl

&&-parts : (a b c : Bool) → (a && b && c) ≡ true → (a ≡ true) × (b ≡ true) × (c ≡ true)
&&-parts a b c h = ground arith

module _ (b k j : ℕ) (hb : b < 2 ^ 8) (hk : k < 8) (hj : j < 8) where
  abbrev low : ℕ
  low = bit_and b (2 ^ 8 - 1 - 2 ^ k)

  parts :
      ((bit (bit_or b (2 ^ k) % 2 ^ 8) j iff (if j == k then true else bit b j)) ≡ true)
      × ((bit low j iff (if j == k then false else bit b j)) ≡ true)
      × (ltb low (2 ^ 8) ≡ true)
  unfolding law
  parts = &&-parts _ _ _ (law_holds b k j hb hk hj)

  pub bit-set : bit (bit_or b (2 ^ k) % 2 ^ 8) j ≡ (if j == k then true else bit b j)
  bit-set = iff-eq _ _ parts.0

  pub bit-clear : bit low j ≡ (if j == k then false else bit b j)
  bit-clear = iff-eq _ _ parts.1

  pub clear-lt : low < 2 ^ 8
  clear-lt = ground (arith, parts.2)

-- No bit of 0 is set.
pub bit-zero : (k : ℕ) → bit 0 k ≡ false
unfolding bit
bit-zero k = let e : bit_and 0 (2 ^ k) ≡ 0 = λ i. bit_and-bitwise 0 (2 ^ k) i in rw e refl
