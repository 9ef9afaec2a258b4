-- ===== src/Kfs/Tree/Erase.antt =====
-- A dentry leaves the list of its directory.
use ko.Base.{
  ℕ, zero, suc, ◌≤◌, ◌≡◌, refl, sym, ap, subst, ◌∙◌, true, false, false≢true, ◌==◌, if◌then◌else◌,
  arith, Bool-cases, inl, inr, List, [], ◌∷◌, has, Distinct, length,
}
use ko.Base.Run.{done}
use ko.Kfs.State.{Kfs}
use ko.Kfs.Tree.{find_prev}
use ko.Kfs.Tree.Chain.{Chain, Chain-same, Chain-pos}

-- The dentry before `x`; `prev` before the first.
abbrev pub before : ℕ → ℕ → List ℕ → ℕ
before x prev [] = prev
before x prev (y ∷ ys) = if y == x then prev else before x y ys

-- The list without `x`.
abbrev pub erase : ℕ → List ℕ → List ℕ
erase x [] = []
erase x (y ∷ ys) = if y == x then ys else y ∷ erase x ys

pub find_prev-before :
    (fuel : ℕ) (s : Kfs) (x curr prev : ℕ) (xs : List ℕ)
    → Chain (λ k. (s.dentry k).next) curr xs
    → has x xs ≡ true
    → length xs ≤ fuel
    → find_prev fuel s x curr prev ≡ done (before x prev xs)
unfolding find_prev
find_prev-before fuel s x curr prev [] c h l = absurd (false≢true h)
find_prev-before zero s x curr prev (y ∷ ys) c h l = absurd (omega (arith, l))
find_prev-before (suc fuel) s x curr prev (y ∷ ys) (z, p, c) h l =
    subst (λ k. find_prev (suc fuel) s x k prev ≡ done (before x prev (y ∷ ys))) (sym z)
      (elim (Bool-cases (y == x)) [
        | inl e ↦ rw e refl
        | inr e ↦
            rw e
              (find_prev-before fuel s x (s.dentry y).next y ys c (ground arith) (omega (arith, l)))
      ])

pub before-cons :
    (x prev y : ℕ) (ys : List ℕ) → y == x ≡ false → before x prev (y ∷ ys) ≡ before x y ys
before-cons x prev y ys e = rw e refl

pub before-first : (x prev y : ℕ) (ys : List ℕ) → y == x ≡ true → before x prev (y ∷ ys) ≡ prev
before-first x prev y ys e = rw e refl

pub before-has :
    (x prev : ℕ) (xs : List ℕ) → has x xs ≡ true → has (before x prev xs) (prev ∷ xs) ≡ true
before-has x prev [] h = absurd (false≢true h)
before-has x prev (y ∷ ys) h = elim (Bool-cases (y == x)) [
  | inl e ↦
      subst (λ k. has k (prev ∷ y ∷ ys) ≡ true) (sym (before-first x prev y ys e)) (ground arith)
  | inr e ↦
      let r = before-has x y ys (ground arith) in
      subst (λ k. has k (prev ∷ y ∷ ys) ≡ true) (sym (before-cons x prev y ys e))
        (ground (arith, r))
]

-- The dentry before `x` is the one that `x` follows.
before-next :
    (next : ℕ → ℕ) (x y : ℕ) (ys : List ℕ)
    → Chain next (next y) ys
    → has x ys ≡ true
    → has y ys ≡ false
    → (y == before x y ys) ≡ (next y == x)
before-next next x y [] c h n = absurd (false≢true h)
before-next next x y (z ∷ zs) (e, p, c) h n = elim (Bool-cases (z == x)) [
  | inl g ↦ rw (g, e) (ground (arith, g))
  | inr g ↦
      let r : has (before x z zs) (z ∷ zs) ≡ true = before-has x z zs (ground arith) in
      let d : y == before x z zs ≡ false = elim (Bool-cases (y == before x z zs)) [
        | inr q ↦ q
        | inl q ↦
            let w : before x z zs ≡ y = ground arith in
            absurd (false≢true (sym n ∙ subst (λ k. has k (z ∷ zs) ≡ true) w r))
      ] in
      rw (g, e, d) (sym g)
]

-- The chain without `x`, for links `next'` that skip it.
pub Chain-erase :
    (next next' : ℕ → ℕ) (x prev first : ℕ) (xs : List ℕ)
    → Chain next first xs
    → Distinct xs
    → has x xs ≡ true
    → has prev xs ≡ false
    → ((y : ℕ)
        → has y xs ≡ true
        → y == x ≡ false
        → next' y ≡ (if y == before x prev xs then next x else next y))
    → Chain next' (if first == x then next x else first) (erase x xs)
Chain-erase next next' x prev first [] c d h n l = absurd (false≢true h)
Chain-erase next next' x prev first (y ∷ ys) (z, p, c) (m, d) h n l = elim (Bool-cases (y == x)) [
  | inl e ↦
      let w : y ≡ x = ground arith in
      rw (z, e)
        (Chain-same next next' (next x) ys
          (λ k g.
            let f : k == x ≡ false = elim (Bool-cases (k == x)) [
              | inr q ↦ q
              | inl q ↦
                  let v : k ≡ y = ground arith in
                  absurd (false≢true (sym m ∙ subst (λ k. has k ys ≡ true) v g))
            ] in
            let f' : k == prev ≡ false = elim (Bool-cases (k == prev)) [
              | inr q ↦ q
              | inl q ↦
                  let v : k ≡ prev = ground arith in
                  let in_all : has k (y ∷ ys) ≡ true = ground arith in
                  absurd (false≢true (sym n ∙ subst (λ k. has k (y ∷ ys) ≡ true) v in_all))
            ] in
            l k (ground arith) f
            ∙ ap (λ b. if k == b then next x else next k) (before-first x prev y ys e)
            ∙ rw f' refl)
          (subst (λ k. Chain next (next k) ys) w c))
  | inr e ↦
      let h' : has x ys ≡ true = ground arith in
      let here : next' y ≡ (if next y == x then next x else next y) =
        l y (ground arith) e
        ∙ ap (λ b. if y == b then next x else next y) (before-cons x prev y ys e)
        ∙ ap (λ b. if b then next x else next y) (before-next next x y ys c h' m) in
      let rest = Chain-erase next next' x y (next y) ys c d h' m (λ k g q.
        l k (ground arith) q
        ∙ ap (λ b. if k == b then next x else next k) (before-cons x prev y ys e)) in
      rw (z, e) (refl, p, subst (λ k. Chain next' k (erase x ys)) (sym here) rest)
]

pub first-before :
    (next : ℕ → ℕ) (x first : ℕ) (xs : List ℕ)
    → Chain next first xs
    → has x xs ≡ true
    → (before x 0 xs == 0) ≡ (first == x)
first-before next x first [] c h = absurd (false≢true h)
first-before next x first (y ∷ ys) (z, p, c) h = elim (Bool-cases (y == x)) [
  | inl e ↦ ap (λ k. k == 0) (before-first x 0 y ys e) ∙ sym (ap (λ k. k == x) z ∙ e)
  | inr e ↦
      let b : has (before x y ys) (y ∷ ys) ≡ true = before-has x y ys (ground arith) in
      let q = Chain-pos next first (before x y ys) (y ∷ ys) (z, p, c) b in
      let m : before x y ys == 0 ≡ false = ground arith in
      ap (λ k. k == 0) (before-cons x 0 y ys e) ∙ m ∙ sym (ap (λ k. k == x) z ∙ e)
]

pub erase-has : (x y : ℕ) (xs : List ℕ) → has y (erase x xs) ≡ true → has y xs ≡ true
erase-has x y [] h = absurd (false≢true h)
erase-has x y (z ∷ zs) h = elim (Bool-cases (z == x)) [
  | inl e ↦ ground (arith, subst (λ b. has y (if b then zs else z ∷ erase x zs) ≡ true) e h)
  | inr e ↦
      ground
        (arith, erase-has x y zs, subst (λ b. has y (if b then zs else z ∷ erase x zs) ≡ true) e h)
]

pub erase-gone : (x : ℕ) (xs : List ℕ) → Distinct xs → has x (erase x xs) ≡ false
erase-gone x [] d = refl
erase-gone x (z ∷ zs) (m, d) = elim (Bool-cases (z == x)) [
  | inl e ↦ let w : z ≡ x = ground arith in rw e (subst (λ k. has k zs ≡ false) w m)
  | inr e ↦ rw e (ground (arith, erase-gone x zs d))
]

pub erase-Distinct : (x : ℕ) (xs : List ℕ) → Distinct xs → Distinct (erase x xs)
erase-Distinct x [] d = tt
erase-Distinct x (z ∷ zs) (m, d) = elim (Bool-cases (z == x)) [
  | inl e ↦ rw e d
  | inr e ↦
      let g : has z (erase x zs) ≡ false = elim (Bool-cases (has z (erase x zs))) [
        | inr q ↦ q
        | inl q ↦ absurd (false≢true (sym m ∙ erase-has x z zs q))
      ] in
      rw e (g, erase-Distinct x zs d)
]
