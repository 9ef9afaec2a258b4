-- ===== src/Cstd/Numbers/Digits.antt =====
-- The loop of strtoul over the digits, against their value without a bound.
use ko.Base.{
  ℕ, zero, suc, ◌+◌, ◌-◌, ◌*◌, ◌/◌, ◌%◌, ◌^◌, ◌<◌, ◌≤◌, ◌≡◌, refl, ◌⊎◌, inl, inr, Bool, true, false,
  ◌&&◌, ◌==◌, ltb, leb, if◌then◌else◌, List, [], ◌∷◌, length, arith, Bool-cases, subst, sym, ◌∙◌,
  none, some, Option-cases,
}
use ko.Base.Run.{done, Returns, Returns-weaken}
use ko.Cstd.Bytes.{Memory}
use ko.Cstd.Strings.{HasText}
use ko.Cstd.Numbers.{ulong_max, digit_value, strtoul_loop}

-- The value of the longest sequence of digits in front, and what follows it.
abbrev pub digits_value : ℕ → ℕ → List ℕ → ℕ
digits_value base n [] = n
digits_value base n (x ∷ xs) = elim (digit_value x) [
  | none ↦ n
  | some c ↦ let rest = digits_value base (n * base + c) xs in if leb base c then n else rest
]

abbrev pub after_digits : ℕ → List ℕ → List ℕ
after_digits base [] = []
after_digits base (x ∷ xs) = elim (digit_value x) [
  | none ↦ x ∷ xs
  | some c ↦ let rest = after_digits base xs in if leb base c then x ∷ xs else rest
]

step_value :
    (base n x c : ℕ) (xs : List ℕ)
    → digit_value x ≡ some c
    → leb base c ≡ false
    → (digits_value base n (x ∷ xs) ≡ digits_value base (n * base + c) xs)
      × (after_digits base (x ∷ xs) ≡ after_digits base xs)
step_value base n x c xs e f = (ground arith, ground arith)

stop_value :
    (base n x : ℕ) (xs : List ℕ)
    → (digit_value x ≡ none) ⊎ ((c : ℕ) × (digit_value x ≡ some c) × (leb base c ≡ true))
    → (digits_value base n (x ∷ xs) ≡ n) × (after_digits base (x ∷ xs) ≡ x ∷ xs)
stop_value base n x xs (inl e) = (ground arith, ground arith)
stop_value base n x xs (inr (c, e, f)) = (ground arith, ground arith)

digits_value-le : (base n : ℕ) (xs : List ℕ) → 1 ≤ base → n ≤ digits_value base n xs
digits_value-le base n [] b = omega arith
digits_value-le base n (x ∷ xs) b = elim (Option-cases (digit_value x)) [
  | inl e ↦ rw (stop_value base n x xs (inl e)).0 (omega arith)
  | inr (c, e) ↦ elim (Bool-cases (leb base c)) [
    | inl f ↦ rw (stop_value base n x xs (inr (c, e, f))).0 (omega arith)
    | inr f ↦
        let ih = digits_value-le base (n * base + c) xs b in
        let g : n ≤ n * base + c = grind arith in
        rw (step_value base n x c xs e f).0 (omega (arith, ih, g))
  ]
]

no_overflow :
    (n base c : ℕ)
    → 2 ≤ base
    → n * base + c + base < 2 ^ 32
    → (n < ulong_max / base)
      × (n * base % 2 ^ 32 < ulong_max - c)
      × ((n * base + c) % 2 ^ 32 ≡ n * base + c)
no_overflow n base c b h = (grind arith, omega arith, omega arith)

small_step :
    (n base c : ℕ)
    → 2 ≤ base
    → n < ulong_max / base
    → n * base % 2 ^ 32 < ulong_max - c
    → (n * base + c < 2 ^ 32) × ((n * base + c) % 2 ^ 32 ≡ n * base + c)
small_step n base c b h g =
    let k : n * base < 2 ^ 32 = grind arith in (omega (arith, k), omega (arith, k))

-- Where the loop ends without an overflow: the exact value, and a pointer to the rest of the text.
pub record IsRead (m : Memory) (s base n : ℕ) (xs : List ℕ) (r : ℕ × ℕ × Bool) : Type 0 where
  pub reads : r.0 ≡ digits_value base n xs
  pub rest : HasText m r.1 (after_digits base xs)
  pub place : r.1 + length (after_digits base xs) ≡ s + length xs
  pub no_flag : r.2 ≡ false

stop-IsRead :
    (m : Memory) (s base n x : ℕ) (xs : List ℕ)
    → HasText m s (x ∷ xs)
    → (digit_value x ≡ none) ⊎ ((c : ℕ) × (digit_value x ≡ some c) × (leb base c ≡ true))
    → IsRead m s base n (x ∷ xs) (n, s, false)
stop-IsRead m s base n x xs t h =
    let (v, a) = stop_value base n x xs h in
    record {
      reads = sym v;
      rest = subst (HasText m s) (sym a) t;
      place = rw a refl;
      no_flag = refl;
    }

more-IsRead :
    (m : Memory) (s base n x c : ℕ) (xs : List ℕ) (r : ℕ × ℕ × Bool)
    → digit_value x ≡ some c
    → leb base c ≡ false
    → IsRead m (s + 1) base (n * base + c) xs r
    → IsRead m s base n (x ∷ xs) r
more-IsRead m s base n x c xs r e f i =
    let (v, a) = step_value base n x c xs e f in
    record {
      reads = i.reads ∙ sym v;
      rest = subst (HasText m r.1) (sym a) i.rest;
      place = rw a (omega (arith, i.place));
      no_flag = i.no_flag;
    }

loop_stop :
    (fuel : ℕ) (m : Memory) (s base n x : ℕ)
    → m s ≡ x
    → 0 < x
    → (digit_value x ≡ none) ⊎ ((c : ℕ) × (digit_value x ≡ some c) × (leb base c ≡ true))
    → strtoul_loop (suc fuel) m s base n ≡ done (n, s, false)
unfolding strtoul_loop
loop_stop fuel m s base n x e p (inl h) = ground arith
loop_stop fuel m s base n x e p (inr (c, h, f)) = ground arith

loop_end :
    (fuel : ℕ) (m : Memory) (s base n : ℕ)
    → m s ≡ 0
    → strtoul_loop (suc fuel) m s base n ≡ done (n, s, false)
unfolding strtoul_loop
loop_end fuel m s base n e = ground arith

loop_more :
    (fuel : ℕ) (m : Memory) (s base n x c : ℕ)
    → m s ≡ x
    → 0 < x
    → digit_value x ≡ some c
    → leb base c ≡ false
    → strtoul_loop (suc fuel) m s base n ≡ (
        if ltb n (ulong_max / base) && ltb (n * base % 2 ^ 32) (ulong_max - c)
        then strtoul_loop fuel m (s + 1) base ((n * base + c) % 2 ^ 32)
        else done (n, s, true))
unfolding strtoul_loop
loop_more fuel m s base n x c e p h f =
    let nz : m s == 0 ≡ false = ground arith in
    let hd : digit_value (m s) ≡ some c = rw e h in rw (nz, hd, f) refl

pub loop-IsRead :
    (fuel : ℕ) (m : Memory) (s base n : ℕ) (xs : List ℕ)
    → 2 ≤ base
    → HasText m s xs
    → length xs < fuel
    → digits_value base n xs + base < 2 ^ 32
    → Returns (IsRead m s base n xs) (strtoul_loop fuel m s base n)
loop-IsRead zero m s base n xs b t l v = absurd (omega arith)
loop-IsRead (suc fuel) m s base n [] b t l v =
    rw (loop_end fuel m s base n t)
      (record { reads = refl; rest = t; place = refl; no_flag = refl })
loop-IsRead (suc fuel) m s base n (x ∷ xs) b t l v = elim (Option-cases (digit_value x)) [
  | inl e ↦ rw (loop_stop fuel m s base n x t.0 t.1 (inl e)) (stop-IsRead m s base n x xs t (inl e))
  | inr (c, e) ↦ elim (Bool-cases (leb base c)) [
    | inl f ↦
        rw (loop_stop fuel m s base n x t.0 t.1 (inr (c, e, f)))
          (stop-IsRead m s base n x xs t (inr (c, e, f)))
    | inr f ↦
        let v' : digits_value base (n * base + c) xs + base < 2 ^ 32 =
          rw (step_value base n x c xs e f).0 at v in
        let ok =
          no_overflow n base c b
            (omega (arith, digits_value-le base (n * base + c) xs (omega arith))) in
        let test : ltb n (ulong_max / base) && ltb (n * base % 2 ^ 32) (ulong_max - c) ≡ true =
          ground (arith, ok) in
        rw (loop_more fuel m s base n x c t.0 t.1 e f, test, ok.2)
          (Returns-weaken (IsRead m (s + 1) base (n * base + c) xs) (IsRead m s base n (x ∷ xs)) _
            (loop-IsRead fuel m (s + 1) base (n * base + c) xs b t.2 (omega arith) v')
            (λ r i. more-IsRead m s base n x c xs r e f i))
  ]
]

pub loop_overflow :
    (fuel : ℕ) (m : Memory) (s base n : ℕ) (xs : List ℕ)
    → 2 ≤ base
    → HasText m s xs
    → length xs < fuel
    → n < 2 ^ 32
    → 2 ^ 32 ≤ digits_value base n xs
    → Returns (λ r. r.2 ≡ true) (strtoul_loop fuel m s base n)
loop_overflow zero m s base n xs b t l h v = absurd (omega arith)
loop_overflow (suc fuel) m s base n [] b t l h v = absurd (omega arith)
loop_overflow (suc fuel) m s base n (x ∷ xs) b t l h v = elim (Option-cases (digit_value x)) [
  | inl e ↦ absurd (omega (arith, rw (stop_value base n x xs (inl e)).0 at v))
  | inr (c, e) ↦ elim (Bool-cases (leb base c)) [
    | inl f ↦ absurd (omega (arith, rw (stop_value base n x xs (inr (c, e, f))).0 at v))
    | inr f ↦
        let v' : 2 ^ 32 ≤ digits_value base (n * base + c) xs =
          rw (step_value base n x c xs e f).0 at v in
        elim (Bool-cases (ltb n (ulong_max / base) && ltb (n * base % 2 ^ 32) (ulong_max - c))) [
          | inr test ↦ rw (loop_more fuel m s base n x c t.0 t.1 e f, test) refl
          | inl test ↦
              let small = small_step n base c b (ground arith) (ground arith) in
              rw (loop_more fuel m s base n x c t.0 t.1 e f, test, small.1)
                (loop_overflow fuel m (s + 1) base (n * base + c) xs b t.2 (omega arith) small.0 v')
        ]
  ]
]

pub loop_ends :
    (fuel : ℕ) (m : Memory) (s base n : ℕ) (xs : List ℕ)
    → HasText m s xs
    → length xs < fuel
    → Returns (λ r. Unit {0}) (strtoul_loop fuel m s base n)
loop_ends zero m s base n xs t l = absurd (omega arith)
loop_ends (suc fuel) m s base n [] t l = rw (loop_end fuel m s base n t) tt
loop_ends (suc fuel) m s base n (x ∷ xs) t l = elim (Option-cases (digit_value x)) [
  | inl e ↦ rw (loop_stop fuel m s base n x t.0 t.1 (inl e)) tt
  | inr (c, e) ↦ elim (Bool-cases (leb base c)) [
    | inl f ↦ rw (loop_stop fuel m s base n x t.0 t.1 (inr (c, e, f))) tt
    | inr f ↦
        elim (Bool-cases (ltb n (ulong_max / base) && ltb (n * base % 2 ^ 32) (ulong_max - c))) [
          | inr test ↦ rw (loop_more fuel m s base n x c t.0 t.1 e f, test) tt
          | inl test ↦
              rw (loop_more fuel m s base n x c t.0 t.1 e f, test)
                (loop_ends fuel m (s + 1) base ((n * base + c) % 2 ^ 32) xs t.2 (omega arith))
        ]
  ]
]
