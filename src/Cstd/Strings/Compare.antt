-- ===== src/Cstd/Strings/Compare.antt =====
-- memcmp, strcmp and strncmp against the comparison of lists of bytes.
use ko.Base.{
  ℕ, zero, suc, ◌+◌, ◌-◌, ◌<◌, ◌≡◌, refl, ◌==◌, if◌then◌else◌, List, [], ◌∷◌, length, arith,
}
use ko.Base.Run.{done}
use ko.Base.Int.{ℤ, pos, negsuc, sub_ℕ}
use ko.Cstd.Bytes.{Memory}
use ko.Cstd.Strings.{HasText, memcmp, strcmp, strncmp}
use mathlib.Core.Logic.{◌↔◌}

-- The difference of the first bytes that differ, where the end of a text counts as 0.
abbrev pub order : List ℕ → List ℕ → ℤ
order [] [] = pos 0
order [] (y ∷ ys) = sub_ℕ 0 y
order (x ∷ xs) [] = sub_ℕ x 0
order (x ∷ xs) (y ∷ ys) = if x == y then order xs ys else sub_ℕ x y

abbrev pub take : ℕ → List ℕ → List ℕ
take zero xs = []
take (suc n) [] = []
take (suc n) (x ∷ xs) = x ∷ take n xs

-- The `n` bytes from `p` on.
abbrev pub bytes : Memory → ℕ → ℕ → List ℕ
bytes m p zero = []
bytes m p (suc n) = m p ∷ bytes m (p + 1) n

abbrev pub sign : ℤ → ℤ
sign (pos zero) = pos 0
sign (pos (suc n)) = pos 1
sign (negsuc n) = negsuc 0

sub_ℕ-sign_less : (a b : ℕ) → a < b → sign (sub_ℕ a b) ≡ negsuc 0
sub_ℕ-sign_less a b h = ground arith

sub_ℕ-sign_more : (a b : ℕ) → b < a → sign (sub_ℕ a b) ≡ pos 1
sub_ℕ-sign_more a b h = let e : a - b ≡ suc (a - b - 1) = omega arith in ground arith

-- memcmp is the sign of the comparison of the two areas as sequences of bytes.
pub memcmp-order :
    (m : Memory) (s1 s2 n : ℕ) → memcmp m s1 s2 n ≡ sign (order (bytes m s1 n) (bytes m s2 n))
unfolding memcmp
memcmp-order m s1 s2 zero = refl
memcmp-order m s1 s2 (suc n) = ground (
  arith,
  memcmp-order m (s1 + 1) (s2 + 1) n,
  sub_ℕ-sign_less (m s1) (m s2),
  sub_ℕ-sign_more (m s1) (m s2),
)

-- The comparison is 0 exactly at equal texts.
order-eq :
    (m : Memory) (p q : ℕ) (xs ys : List ℕ)
    → HasText m p xs
    → HasText m q ys
    → (order xs ys ≡ pos 0) ↔ (xs ≡ ys)
order-eq m p q [] [] hx hy = ground arith
order-eq m p q [] (y ∷ ys) hx hy = ground arith
order-eq m p q (x ∷ xs) [] hx hy = ground arith
order-eq m p q (x ∷ xs) (y ∷ ys) hx hy = ground (arith, order-eq m (p + 1) (q + 1) xs ys hx.2 hy.2)

strcmp_loop-order :
    (m : Memory) (s1 s2 fuel : ℕ) (xs ys : List ℕ)
    → HasText m s1 xs
    → HasText m s2 ys
    → length xs < fuel
    → strcmp fuel m s1 s2 ≡ done (order xs ys)
unfolding strcmp
strcmp_loop-order m s1 s2 zero xs ys hx hy h = absurd (omega arith)
strcmp_loop-order m s1 s2 (suc fuel) [] [] hx hy h = ground arith
strcmp_loop-order m s1 s2 (suc fuel) [] (y ∷ ys) hx hy h = ground arith
strcmp_loop-order m s1 s2 (suc fuel) (x ∷ xs) [] hx hy h = ground arith
strcmp_loop-order m s1 s2 (suc fuel) (x ∷ xs) (y ∷ ys) hx hy h =
    ground (arith, strcmp_loop-order m (s1 + 1) (s2 + 1) fuel xs ys hx.2 hy.2)

-- On two texts strcmp ends with the difference of the first characters that differ (the NUL is 0),
-- and this is 0 exactly if the texts are equal.
pub strcmp-order :
    (m : Memory) (s1 s2 fuel : ℕ) (xs ys : List ℕ)
    → HasText m s1 xs
    → HasText m s2 ys
    → length xs < fuel
    → (strcmp fuel m s1 s2 ≡ done (order xs ys)) × ((order xs ys ≡ pos 0) ↔ (xs ≡ ys))
strcmp-order m s1 s2 fuel xs ys hx hy h =
    (strcmp_loop-order m s1 s2 fuel xs ys hx hy h, order-eq m s1 s2 xs ys hx hy)

strncmp_step :
    (m : Memory) (s1 s2 n x y : ℕ) (o : ℤ)
    → m s1 ≡ x
    → 0 < x
    → m s2 ≡ y
    → strncmp m (s1 + 1) (s2 + 1) (suc n) ≡ o
    → strncmp m s1 s2 (suc (suc n)) ≡ (if x == y then o else sub_ℕ x y)
unfolding strncmp
strncmp_step m s1 s2 n x y o e1 h e2 e = rw (← e, ← e1, ← e2) (ground arith)

-- strncmp is strcmp of the first `n` characters of both texts.
pub strncmp-order :
    (m : Memory) (s1 s2 n : ℕ) (xs ys : List ℕ)
    → HasText m s1 xs
    → HasText m s2 ys
    → strncmp m s1 s2 n ≡ order (take n xs) (take n ys)
unfolding strncmp
strncmp-order m s1 s2 zero xs ys hx hy = refl
strncmp-order m s1 s2 (suc n) [] [] hx hy = ground arith
strncmp-order m s1 s2 (suc n) [] (y ∷ ys) hx hy = ground arith
strncmp-order m s1 s2 (suc n) (x ∷ xs) [] hx hy = ground arith
strncmp-order m s1 s2 (suc zero) (x ∷ xs) (y ∷ ys) hx hy = ground arith
strncmp-order m s1 s2 (suc (suc n)) (x ∷ xs) (y ∷ ys) hx hy =
    strncmp_step m s1 s2 n x y _ hx.0 hx.1 hy.0
      (strncmp-order m (s1 + 1) (s2 + 1) (suc n) xs ys hx.2 hy.2)
