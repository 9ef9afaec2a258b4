-- ===== src/Kfs/Tree/Added.antt =====
-- The directories after a new dentry.
use ko.Base.{
  ℕ, ◌%◌, ◌^◌, ◌<◌, ◌≤◌, ◌≡◌, ◌≢◌, ◌⊎◌, refl, sym, ap, subst, ◌∙◌, true, false, false≢true, ◌==◌,
  if◌then◌else◌, arith, Bool-cases, inl, inr, List, [], ◌∷◌, has, Distinct, length,
}
use ko.Kfs.Bitmap.{Bitmap}
use ko.Kfs.Bitmap.Law.{used, IsBitmap, IsFound}
use ko.Kfs.State.{Kfs}
use ko.Kfs.Tree.{kfs_max_name}
use ko.Kfs.Tree.Chain.{Chain, Chain-same, IsText, Lacks}
use ko.Kfs.Tree.Create.{new, new_entry}
use ko.Kfs.Tree.Invariant.{IsTree, Entries, with_entry}

pub Lacks-member :
    (s : Kfs) (xs name : List ℕ) (x : ℕ)
    → Lacks s xs name
    → has x xs ≡ true
    → (s.dentry x).name ≢ name
Lacks-member s [] name x l h = absurd (false≢true h)
Lacks-member s (y ∷ ys) name x (n, l) h = elim (Bool-cases (x == y)) [
  | inl e ↦ let z : y ≡ x = ground arith in subst (λ k. (s.dentry k).name ≢ name) z n
  | inr e ↦ Lacks-member s ys name x l (ground arith)
]

module _ (s : Kfs) (e : Entries) (t : IsTree s e) (d : ℕ) (name : List ℕ)
    (ud : used s.bmp_dentry d ≡ true) (b' : Bitmap)
    (f : IsFound s.bmp_dentry (new s d name) b') where
  abbrev r : ℕ
  r = new s d name

  unused : (x : ℕ) → used s.bmp_dentry x ≡ true → x == r ≡ false
  unused x u = elim (Bool-cases (x == r)) [
    | inr g ↦ g
    | inl g ↦
        let z : x ≡ r = ground arith in
        absurd (false≢true (sym f.free ∙ ap (λ k. used s.bmp_dentry k) (sym z) ∙ u))
  ]

  pub new-other : r == d ≡ false
  new-other = ground (arith, unused d ud)

  pub new-positive : r == 0 ≡ false
  new-positive = ground (arith, unused 0 t.root)

  small : r % 2 ^ 8 ≡ r
  small = omega (arith, f.bound, t.few)

  small_d : d % 2 ^ 8 ≡ d
  small_d = omega (arith, t.within d ud)

  module _ (short : length name < kfs_max_name) (text : IsText name) (lacks : Lacks s (e d) name)
      (c : Kfs)
      (entry : (k : ℕ)
        → c.dentry k ≡ (
            if k == d
            then record (s.dentry d) { leaf = r % 2 ^ 8 }
            else if k == r
            then new_entry s d name
            else s.dentry k))
      (bitmap : c.bmp_dentry ≡ b') where
    -- What a dentry that was in use keeps.
    kept :
        (x : ℕ)
        → used s.bmp_dentry x ≡ true
        → ((c.dentry x).next ≡ (s.dentry x).next)
          × ((c.dentry x).root ≡ (s.dentry x).root)
          × ((c.dentry x).name ≡ (s.dentry x).name)
    kept x u = elim (Bool-cases (x == d)) [
      | inl g ↦
          let z : d ≡ x = ground arith in
          let y =
            subst (λ k. c.dentry x ≡ record (s.dentry k) { leaf = r % 2 ^ 8 }) z
              (entry x ∙ rw g refl) in
          (ap (λ q. q.next) y, ap (λ q. q.root) y, ap (λ q. q.name) y)
      | inr g ↦
          let y : c.dentry x ≡ s.dentry x = entry x ∙ rw (g, unused x u) refl in
          (ap (λ q. q.next) y, ap (λ q. q.root) y, ap (λ q. q.name) y)
    ]

    at_new : c.dentry r ≡ new_entry s d name
    at_new = let same : r == r ≡ true = ground arith in entry r ∙ rw (new-other, same) refl

    at_dir : (c.dentry d).leaf ≡ r
    at_dir =
        let same : d == d ≡ true = ground arith in
        let y : c.dentry d ≡ record (s.dentry d) { leaf = r % 2 ^ 8 } = entry d ∙ rw same refl in
        ap (λ q. q.leaf) y ∙ small

    at_leaf : (x : ℕ) → x == d ≡ false → x == r ≡ false → (c.dentry x).leaf ≡ (s.dentry x).leaf
    at_leaf x g h = let y : c.dentry x ≡ s.dentry x = entry x ∙ rw (g, h) refl in ap (λ q. q.leaf) y

    was_used : (x : ℕ) → used c.bmp_dentry x ≡ true → x == r ≡ false → used s.bmp_dentry x ≡ true
    was_used x u g =
        let y : used c.bmp_dentry x ≡ used s.bmp_dentry x =
          ap (λ b. used b x) bitmap ∙ f.set x ∙ rw g refl in
        sym y ∙ u

    still_used : (x : ℕ) → used s.bmp_dentry x ≡ true → used c.bmp_dentry x ≡ true
    still_used x u = ap (λ b. used b x) bitmap ∙ f.set x ∙ rw (unused x u) u

    old-Chain :
        (a first : ℕ)
        → used s.bmp_dentry a ≡ true
        → Chain (λ k. (s.dentry k).next) first (e a)
        → Chain (λ k. (c.dentry k).next) first (e a)
    old-Chain a first u =
        Chain-same (λ k. (s.dentry k).next) (λ k. (c.dentry k).next) first (e a)
          (λ x h. (kept x (t.member a x u h).0).0)

    abbrev e' : Entries
    e' = with_entry e d r

    e'-new : e' r ≡ []
    e'-new = let same : r == r ≡ true = ground arith in rw (new-other, same) refl

    e'-dir : e' d ≡ r ∷ e d
    e'-dir = let same : d == d ≡ true = ground arith in rw same refl

    e'-old : (a : ℕ) → a == d ≡ false → a == r ≡ false → e' a ≡ e a
    e'-old a g h = rw (g, h) refl

    -- A dentry in use is the new one, the directory or another that was in use.
    dentry_cases :
        (P : ℕ → Type 0) (a : ℕ)
        → used c.bmp_dentry a ≡ true
        → P r
        → P d
        → (a == d ≡ false → a == r ≡ false → used s.bmp_dentry a ≡ true → P a)
        → P a
    dentry_cases P a u at_r at_d rest = elim (Bool-cases (a == r)) [
      | inl g ↦ let z : r ≡ a = ground arith in subst P z at_r
      | inr g ↦ elim (Bool-cases (a == d)) [
        | inl h ↦ let z : d ≡ a = ground arith in subst P z at_d
        | inr h ↦ rest h g (was_used a u g)
      ]
    ]

    new-Chain :
        (a : ℕ)
        → used c.bmp_dentry a ≡ true
        → Chain (λ k. (c.dentry k).next) (c.dentry a).leaf (e' a)
    new-Chain a u =
        dentry_cases (λ k. Chain (λ j. (c.dentry j).next) (c.dentry k).leaf (e' k)) a u
          (subst (λ xs. Chain (λ j. (c.dentry j).next) (c.dentry r).leaf xs) (sym e'-new)
            (ap (λ q. q.leaf) at_new))
          (subst (λ xs. Chain (λ j. (c.dentry j).next) (c.dentry d).leaf xs) (sym e'-dir)
            (
              at_dir,
              ground (arith, new-positive),
              subst (λ k. Chain (λ j. (c.dentry j).next) k (e d)) (sym (ap (λ q. q.next) at_new))
                  (old-Chain d (s.dentry d).leaf ud (t.chain d ud)),
            ))
          (λ g h u'.
            subst (λ xs. Chain (λ j. (c.dentry j).next) (c.dentry a).leaf xs) (sym (e'-old a g h))
              (subst (λ k. Chain (λ j. (c.dentry j).next) k (e a)) (sym (at_leaf a g h))
                (old-Chain a (s.dentry a).leaf u' (t.chain a u'))))

    old_member :
        (a x : ℕ)
        → used s.bmp_dentry a ≡ true
        → has x (e a) ≡ true
        → (used c.bmp_dentry x ≡ true) × ((c.dentry x).root ≡ a)
    old_member a x u h = let (ux, rx) = t.member a x u h in (still_used x ux, (kept x ux).1 ∙ rx)

    -- A member of the directory is the new dentry or was there.
    head_or_tail : (x : ℕ) → has x (e' d) ≡ true → (x ≡ r) ⊎ (has x (e d) ≡ true)
    head_or_tail x h =
        let h' : has x (r ∷ e d) ≡ true = subst (λ xs. has x xs ≡ true) e'-dir h in
        elim (Bool-cases (x == r)) [ inl g ↦ inl (ground arith) | inr g ↦ inr (ground arith) ]

    new_member :
        (a x : ℕ)
        → used c.bmp_dentry a ≡ true
        → has x (e' a) ≡ true
        → (used c.bmp_dentry x ≡ true) × ((c.dentry x).root ≡ a)
    new_member a x u =
        dentry_cases
          (λ k. has x (e' k) ≡ true → (used c.bmp_dentry x ≡ true) × ((c.dentry x).root ≡ k)) a u
          (λ h. absurd (false≢true (subst (λ xs. has x xs ≡ true) e'-new h)))
          (λ h. elim (head_or_tail x h) [
            | inl z ↦
                let same : r == r ≡ true = ground arith in
                subst (λ k. (used c.bmp_dentry k ≡ true) × ((c.dentry k).root ≡ d)) (sym z)
                  (
                    ap (λ b. used b r) bitmap ∙ f.set r ∙ rw same refl,
                    ap (λ q. q.root) at_new ∙ small_d,
                  )
            | inr h' ↦ old_member d x ud h'
          ])
          (λ g h u' k. old_member a x u' (subst (λ xs. has x xs ≡ true) (e'-old a g h) k))

    new-Distinct : (a : ℕ) → used c.bmp_dentry a ≡ true → Distinct (e' a)
    new-Distinct a u =
        dentry_cases (λ k. Distinct (e' k)) a u (subst Distinct (sym e'-new) tt)
          (subst Distinct (sym e'-dir) (fresh, t.distinct d ud))
          (λ g h u'. subst Distinct (sym (e'-old a g h)) (t.distinct a u'))
      where
        fresh : has r (e d) ≡ false
        fresh = elim (Bool-cases (has r (e d))) [
          | inr g ↦ g
          | inl g ↦ absurd (false≢true (sym f.free ∙ (t.member d r ud g).0))
        ]

    pub new_name : (c.dentry r).name ≡ name
    new_name = ap (λ q. q.name) at_new

    old_name :
        (a x : ℕ)
        → used s.bmp_dentry a ≡ true
        → has x (e a) ≡ true
        → (c.dentry x).name ≡ (s.dentry x).name
    old_name a x u h = (kept x (t.member a x u h).0).2

    new_names :
        (a x y : ℕ)
        → used c.bmp_dentry a ≡ true
        → has x (e' a) ≡ true
        → has y (e' a) ≡ true
        → (c.dentry x).name ≡ (c.dentry y).name
        → x ≡ y
    new_names a x y u =
        dentry_cases
          (λ k.
            has x (e' k) ≡ true
            → has y (e' k) ≡ true
            → (c.dentry x).name ≡ (c.dentry y).name
            → x ≡ y)
          a u (λ h. absurd (false≢true (subst (λ xs. has x xs ≡ true) e'-new h)))
          (λ h k n. in_dir (head_or_tail x h) (head_or_tail y k) n)
          (λ g h u' i j n.
            old_names a u' (subst (λ xs. has x xs ≡ true) (e'-old a g h) i)
              (subst (λ xs. has y xs ≡ true) (e'-old a g h) j) n)
      where
        old_names :
            (a : ℕ)
            → used s.bmp_dentry a ≡ true
            → has x (e a) ≡ true
            → has y (e a) ≡ true
            → (c.dentry x).name ≡ (c.dentry y).name
            → x ≡ y
        old_names a u i j n = t.names a x y u i j (sym (old_name a x u i) ∙ n ∙ old_name a y u j)

        in_dir :
            (x ≡ r) ⊎ (has x (e d) ≡ true)
            → (y ≡ r) ⊎ (has y (e d) ≡ true)
            → (c.dentry x).name ≡ (c.dentry y).name
            → x ≡ y
        in_dir (inl z) (inl w) n = z ∙ sym w
        in_dir (inl z) (inr j) n = absurd (
            Lacks-member s (e d) name y lacks j
              (sym (old_name d y ud j) ∙ sym n ∙ ap (λ k. (c.dentry k).name) z ∙ new_name))
        in_dir (inr i) (inl w) n = absurd (
            Lacks-member s (e d) name x lacks i
              (sym (old_name d x ud i) ∙ n ∙ ap (λ k. (c.dentry k).name) w ∙ new_name))
        in_dir (inr i) (inr j) n = old_names d ud i j n

    pub added-IsTree : IsTree c e'
    added-IsTree = record {
      bitmap = subst IsBitmap (sym bitmap) f.valid;
      few = subst (λ b. b.max ≤ 256) (sym bitmap) (omega (arith, f.same_max, t.few));
      root = still_used 0 t.root;
      within = λ a u.
          dentry_cases (λ k. k < 256) a u (omega (arith, f.bound, t.few)) (t.within d ud)
            (λ g h u'. t.within a u');
      chain = new-Chain;
      member = new_member;
      distinct = new-Distinct;
      text = λ a u.
          dentry_cases (λ k. IsText (c.dentry k).name) a u (subst IsText (sym new_name) text)
            (subst IsText (sym (kept d ud).2) (t.text d ud))
            (λ g h u'. subst IsText (sym (kept a u').2) (t.text a u'));
      names = new_names;
    }
