-- ===== src/Kfs/Tree/Removed.antt =====
-- The directories without a dentry that was freed.
use ko.Base.{
  ℕ, ◌<◌, ◌≤◌, ◌≡◌, refl, sym, ap, subst, ◌∙◌, true, false, false≢true, ◌==◌, if◌then◌else◌, arith,
  Bool-cases, inl, inr, has, Distinct, length, update,
}
use ko.Base.Run.{Returns}
use ko.Kfs.Bitmap.Law.{used, IsCleared}
use ko.Kfs.State.{Kfs}
use ko.Kfs.Tree.{kfs_free_dentry}
use ko.Kfs.Tree.Chain.{Chain, Chain-same, Chain-pos, IsText}
use ko.Kfs.Tree.Invariant.{IsTree, Entries}
use ko.Kfs.Tree.Erase.{
  before, erase, find_prev-before, before-has, Chain-erase, first-before, erase-has, erase-gone,
  erase-Distinct,
}
use ko.Kfs.Tree.Freed.{
  freed, freed-bitmap, free-freed, freed_first, freed_later, free_again-IsCleared,
}

-- The directory `d` without `x`.
abbrev pub without : Entries → ℕ → ℕ → Entries
without e d x = update e d (erase x (e d))

module _ (s : Kfs) (e : Entries) (t : IsTree s e) (d x : ℕ) (ud : used s.bmp_dentry d ≡ true)
    (h : has x (e d) ≡ true) (n : x == d ≡ false) where
  prev : ℕ
  prev = before x 0 (e d)

  c : Kfs
  c = freed s x prev

  old_next : ℕ → ℕ
  old_next k = (s.dentry k).next

  new_next : ℕ → ℕ
  new_next k = (c.dentry k).next

  ux : used s.bmp_dentry x ≡ true
  ux = (t.member d x ud h).0

  dx : d == x ≡ false
  dx = ground arith

  positive : (y : ℕ) → has y (e d) ≡ true → 0 < y
  positive y = Chain-pos (λ k. (s.dentry k).next) (s.dentry d).leaf y (e d) (t.chain d ud)

  prev_member : prev == 0 ≡ false → has prev (e d) ≡ true
  unfolding prev
  prev_member m = let r = before-has x 0 (e d) h in ground (arith, r)

  cleared : IsCleared s.bmp_dentry x c.bmp_dentry
  unfolding c
  cleared =
      subst (IsCleared s.bmp_dentry x) (sym (freed-bitmap s x prev))
        (free_again-IsCleared 7 s.bmp_dentry x t.bitmap)

  used_then : (y : ℕ) → y == x ≡ false → used c.bmp_dentry y ≡ true → used s.bmp_dentry y ≡ true
  used_then y g u = sym (cleared.clear y ∙ rw g refl) ∙ u

  not_x : (y : ℕ) → used c.bmp_dentry y ≡ true → y == x ≡ false
  not_x y u = elim (Bool-cases (y == x)) [
    | inr g ↦ g
    | inl g ↦ absurd (false≢true (sym (cleared.clear y ∙ rw g refl) ∙ u))
  ]

  still : (y : ℕ) → y == x ≡ false → used s.bmp_dentry y ≡ true → used c.bmp_dentry y ≡ true
  still y g u = cleared.clear y ∙ rw g u

  kept :
      (y : ℕ)
      → y == x ≡ false
      → ((c.dentry y).root ≡ (s.dentry y).root) × ((c.dentry y).name ≡ (s.dentry y).name)
  unfolding c
  kept y g = elim (Bool-cases (prev == 0)) [
    | inl m ↦ let f = freed_first s x prev y g m in (f.1, f.2)
    | inr m ↦ let f = freed_later s x prev y g m in (f.1, f.2)
  ]

  root_x : (s.dentry x).root ≡ d
  root_x = (t.member d x ud h).1

  dir_next :
      (y : ℕ)
      → has y (e d) ≡ true
      → y == x ≡ false
      → new_next y ≡ (if y == prev then old_next x else old_next y)
  unfolding c new_next old_next
  dir_next y m g = elim (Bool-cases (prev == 0)) [
    | inl z ↦
        let p = positive y m in
        let a : y == prev ≡ false = ground arith in (freed_first s x prev y g z).0 ∙ rw a refl
    | inr z ↦ (freed_later s x prev y g z).0
  ]

  dir_leaf : (c.dentry d).leaf ≡ (if (s.dentry d).leaf == x then old_next x else (s.dentry d).leaf)
  unfolding c old_next prev
  dir_leaf =
      let same : (before x 0 (e d) == 0) ≡ ((s.dentry d).leaf == x) =
        first-before (λ k. (s.dentry k).next) x (s.dentry d).leaf (e d) (t.chain d ud) h in
      elim (Bool-cases (before x 0 (e d) == 0)) [
        | inl z ↦
            let a : d == (s.dentry x).root ≡ true = ground (arith, root_x) in
            let b : (s.dentry d).leaf == x ≡ true = sym same ∙ z in
            (freed_first s x prev d dx z).3 ∙ rw (a, b) refl
        | inr z ↦
            let b : (s.dentry d).leaf == x ≡ false = sym same ∙ z in
            (freed_later s x prev d dx z).3 ∙ rw b refl
      ]

  has_x : has 0 (e d) ≡ false
  has_x = elim (Bool-cases (has 0 (e d))) [
    | inr q ↦ q
    | inl q ↦ absurd (omega (arith, positive 0 q))
  ]

  dir-Chain : Chain new_next (c.dentry d).leaf (erase x (e d))
  unfolding new_next old_next prev
  dir-Chain =
      subst (λ k. Chain new_next k (erase x (e d))) (sym dir_leaf)
        (Chain-erase old_next new_next x 0 (s.dentry d).leaf (e d) (t.chain d ud) (t.distinct d ud)
          h has_x dir_next)

  module _ (a : ℕ) (ua : used s.bmp_dentry a ≡ true) (ad : a == d ≡ false)
      (ax : a == x ≡ false) where
    elsewhere : (y : ℕ) → has y (e a) ≡ true → has y (e d) ≡ false
    elsewhere y m = elim (Bool-cases (has y (e d))) [
      | inr q ↦ q
      | inl q ↦
          let z : a ≡ d = sym (t.member a y ua m).1 ∙ (t.member d y ud q).1 in
          let w : a == d ≡ true = ground arith in absurd (false≢true (sym ad ∙ w))
    ]

    pub elsewhere_x : (y : ℕ) → has y (e a) ≡ true → y == x ≡ false
    elsewhere_x y m = elim (Bool-cases (y == x)) [
      | inr q ↦ q
      | inl q ↦
          let z : x ≡ y = ground arith in
          absurd (false≢true (sym (elsewhere y m) ∙ subst (λ k. has k (e d) ≡ true) z h))
    ]

    other_next : (y : ℕ) → has y (e a) ≡ true → new_next y ≡ old_next y
    unfolding c new_next old_next
    other_next y m = elim (Bool-cases (prev == 0)) [
      | inl z ↦ (freed_first s x prev y (elsewhere_x y m) z).0
      | inr z ↦
          let b : y == prev ≡ false = elim (Bool-cases (y == prev)) [
            | inr q ↦ q
            | inl q ↦
                let w : prev ≡ y = ground arith in
                absurd (
                  false≢true
                    (sym (elsewhere y m) ∙ subst (λ k. has k (e d) ≡ true) w (prev_member z)))
          ] in
          (freed_later s x prev y (elsewhere_x y m) z).0 ∙ rw b refl
    ]

    other_leaf : (c.dentry a).leaf ≡ (s.dentry a).leaf
    unfolding c
    other_leaf = elim (Bool-cases (prev == 0)) [
      | inl z ↦
          let b : a == (s.dentry x).root ≡ false = ap (λ k. a == k) root_x ∙ ad in
          (freed_first s x prev a ax z).3 ∙ rw b refl
      | inr z ↦ (freed_later s x prev a ax z).3
    ]

    other-Chain : Chain new_next (c.dentry a).leaf (e a)
    unfolding new_next old_next
    other-Chain =
        subst (λ k. Chain new_next k (e a)) (sym other_leaf)
          (Chain-same old_next new_next (s.dentry a).leaf (e a) other_next (t.chain a ua))

  e' : Entries
  e' = without e d x

  e'-dir : e' d ≡ erase x (e d)
  unfolding e'
  e'-dir = let same : d == d ≡ true = ground arith in rw same refl

  e'-other : (a : ℕ) → a == d ≡ false → e' a ≡ e a
  unfolding e'
  e'-other a g = rw g refl

  -- A dentry in use is the directory or another one that was in use.
  two_cases :
      (P : ℕ → Type 0) (a : ℕ)
      → used c.bmp_dentry a ≡ true
      → P d
      → (used s.bmp_dentry a ≡ true → a == d ≡ false → a == x ≡ false → P a)
      → P a
  two_cases P a u at_d rest = elim (Bool-cases (a == d)) [
    | inl g ↦ let z : d ≡ a = ground arith in subst P z at_d
    | inr g ↦ rest (used_then a (not_x a u) u) g (not_x a u)
  ]

  -- A member afterwards is another dentry than `x`, and was a member.
  was_member :
      (a y : ℕ)
      → used c.bmp_dentry a ≡ true
      → has y (e' a) ≡ true
      → (used s.bmp_dentry a ≡ true) × (has y (e a) ≡ true) × (y == x ≡ false)
  was_member a y u =
      two_cases
        (λ k.
          has y (e' k) ≡ true
          → (used s.bmp_dentry k ≡ true) × (has y (e k) ≡ true) × (y == x ≡ false))
        a u
        (λ m.
          let m' : has y (erase x (e d)) ≡ true = subst (λ ys. has y ys ≡ true) e'-dir m in
          (ud, erase-has x y (e d) m', differs m'))
        (λ ua g k m.
          let m' : has y (e a) ≡ true = subst (λ ys. has y ys ≡ true) (e'-other a g) m in
          (ua, m', elsewhere_x a ua g k y m'))
    where
      differs : has y (erase x (e d)) ≡ true → y == x ≡ false
      differs m = elim (Bool-cases (y == x)) [
        | inr q ↦ q
        | inl q ↦
            let w : y ≡ x = ground arith in
            absurd (
              false≢true (
                sym (erase-gone x (e d) (t.distinct d ud))
                ∙ subst (λ k. has k (erase x (e d)) ≡ true) w m))
      ]

  removed-IsTree : IsTree c e'
  unfolding new_next
  removed-IsTree = record {
    bitmap = cleared.valid;
    few = omega (arith, cleared.same_max, t.few);
    root = let p = positive x h in still 0 (ground arith) t.root;
    within = λ a u. t.within a (used_then a (not_x a u) u);
    chain = λ a u.
        two_cases (λ k. Chain (λ j. (c.dentry j).next) (c.dentry k).leaf (e' k)) a u
          (subst (λ xs. Chain (λ j. (c.dentry j).next) (c.dentry d).leaf xs) (sym e'-dir) dir-Chain)
          (λ ua g k.
            subst (λ xs. Chain (λ j. (c.dentry j).next) (c.dentry a).leaf xs) (sym (e'-other a g))
              (other-Chain a ua g k));
    member = λ a y u m.
        let (ua, m', n') = was_member a y u m in
        (still y n' (t.member a y ua m').0, (kept y n').0 ∙ (t.member a y ua m').1);
    distinct = λ a u.
        two_cases (λ k. Distinct (e' k)) a u
          (subst Distinct (sym e'-dir) (erase-Distinct x (e d) (t.distinct d ud)))
          (λ ua g k. subst Distinct (sym (e'-other a g)) (t.distinct a ua));
    text = λ a u. subst IsText (sym (kept a (not_x a u)).1) (t.text a (used_then a (not_x a u) u));
    names = λ a y z u m k w.
        let (ua, m', n') = was_member a y u m in
        let (ub, k', o') = was_member a z u k in
        t.names a y z ua m' k' (sym (kept y n').1 ∙ w ∙ (kept z o').1);
  }

-- What kfs_free_dentry of the member `x` of `d` leaves.
pub record IsRemoved (s : Kfs) (e : Entries) (d x : ℕ) (s' : Kfs) : Type 0 where
  pub tree : IsTree s' (without e d x)
  pub gone : used s'.bmp_dentry x ≡ false
  pub others : (y : ℕ) → y == x ≡ false → used s'.bmp_dentry y ≡ used s.bmp_dentry y
  pub names : (y : ℕ) → y == x ≡ false → (s'.dentry y).name ≡ (s.dentry y).name

-- kfs_free_dentry of an entry of a directory takes it out of the list of that directory, which keeps
-- its other entries in their order, and makes the dentry free. No other directory changes, and no
-- other dentry changes its name or becomes free. It returns when the fuel is the number of entries.
pub kfs_free_dentry-IsRemoved :
    (s : Kfs) (e : Entries) (d x fuel : ℕ)
    → IsTree s e
    → used s.bmp_dentry d ≡ true
    → has x (e d) ≡ true
    → x == d ≡ false
    → length (e d) ≤ fuel
    → Returns (IsRemoved s e d x) (kfs_free_dentry fuel s x)
unfolding prev c e'
kfs_free_dentry-IsRemoved s e d x fuel t ud h n l =
    let root : (s.dentry x).root ≡ d = (t.member d x ud h).1 in
    let chain : Chain (λ k. (s.dentry k).next) (s.dentry (s.dentry x).root).leaf (e d) =
      subst (λ r. Chain (λ k. (s.dentry k).next) (s.dentry r).leaf (e d)) (sym root)
        (t.chain d ud) in
    let found = find_prev-before fuel s x (s.dentry (s.dentry x).root).leaf 0 (e d) chain h l in
    let clr = cleared s e t d x ud h n in
    subst (Returns (IsRemoved s e d x)) (sym (free-freed fuel s x (before x 0 (e d)) found))
      (record {
        tree = removed-IsTree s e t d x ud h n;
        gone = let same : x == x ≡ true = ground arith in clr.clear x ∙ rw same refl;
        others = λ y g. clr.clear y ∙ rw g refl;
        names = λ y g. (kept s e t d x ud h n y g).1;
      })
