-- ===== src/Kfs/Files/Paged.antt =====
-- The first pages of all files, and the bitmap of the pages.
use ko.Base.{
  ℕ, ◌<◌, ◌≤◌, ◌≡◌, ◌≢◌, refl, sym, subst, ◌∙◌, true, false, false≢true, ◌==◌, ◌&&◌, if◌then◌else◌,
  arith, Bool-cases, inl, inr,
}
use ko.Kfs.Bitmap.{Bitmap}
use ko.Kfs.Bitmap.Law.{used, IsBitmap, IsFound, IsCleared}
use ko.Kfs.Files.{kfs_npg_disk}

-- Every page of a file is in use and is a page of no other file. Page 0 stands for a page that is absent.
pub record IsPaged (b : Bitmap) (page : ℕ → ℕ → ℕ) : Type 0 where
  pub bitmap : IsBitmap b
  pub some_pages : 0 < b.max
  pub few_pages : b.max ≤ kfs_npg_disk
  pub absent : used b 0 ≡ true
  pub within : (i k : ℕ) → k < 12 → page i k < b.max
  pub in_use : (i k : ℕ) → k < 12 → used b (page i k) ≡ true
  pub once :
      (i k j l : ℕ) → k < 12 → l < 12 → page i k ≢ 0 → page i k ≡ page j l → (i ≡ j) × (k ≡ l)

-- `page` with `p` at one place.
abbrev pub placed : (ℕ → ℕ → ℕ) → ℕ → ℕ → ℕ → ℕ → ℕ → ℕ
placed page i o p j l = if j == i && l == o then p else page j l

pub placed-here :
    (page : ℕ → ℕ → ℕ) (i o p j l : ℕ) → j == i && l == o ≡ true → placed page i o p j l ≡ p
placed-here page i o p j l e = rw e refl

pub placed-other :
    (page : ℕ → ℕ → ℕ) (i o p j l : ℕ) → j == i && l == o ≡ false → placed page i o p j l ≡ page j l
placed-other page i o p j l e = rw e refl

placed-once :
    (b : Bitmap) (page : ℕ → ℕ → ℕ)
    → IsPaged b page
    → (i o p : ℕ) → o < 12
    → ((j l : ℕ) → l < 12 → j == i && l == o ≡ false → page j l ≢ 0 → page j l ≢ p)
    → (j l j' l' : ℕ) → l < 12
    → l' < 12
    → placed page i o p j l ≢ 0
    → placed page i o p j l ≡ placed page i o p j' l'
    → (j ≡ j') × (l ≡ l')
placed-once b page v i o p lo d j l j' l' h h' n z = elim (Bool-cases (j == i && l == o)) [
  | inl e ↦ elim (Bool-cases (j' == i && l' == o)) [
    | inl e' ↦ ground arith
    | inr e' ↦
        let q : page j' l' ≡ p =
          sym (placed-other page i o p j' l' e') ∙ sym z ∙ placed-here page i o p j l e in
        let m : page j' l' ≢ 0 = λ w. n (placed-here page i o p j l e ∙ sym q ∙ w) in
        absurd (d j' l' h' e' m q)
  ]
  | inr e ↦
      let m : page j l ≢ 0 = λ w. n (placed-other page i o p j l e ∙ w) in
      elim (Bool-cases (j' == i && l' == o)) [
        | inl e' ↦ absurd (
            d j l h e m (sym (placed-other page i o p j l e) ∙ z ∙ placed-here page i o p j' l' e'))
        | inr e' ↦
            v.once j l j' l' h h' m
              (sym (placed-other page i o p j l e) ∙ z ∙ placed-other page i o p j' l' e')
      ]
]

module _ (b b' : Bitmap) (page : ℕ → ℕ → ℕ) (v : IsPaged b page) (i o : ℕ) where
  -- Another page than `page i o` is not that page.
  pub other-page :
      (j l : ℕ) → o < 12 → l < 12 → page i o ≢ 0 → j == i && l == o ≡ false → page j l ≢ page i o
  other-page j l lo ll n e z =
      let (a, c) = v.once i o j l lo ll n (sym z) in
      let t : j == i && l == o ≡ true = ground (arith, a, c) in false≢true (sym e ∙ t)

  pub cleared-IsPaged :
      o < 12 → page i o ≢ 0 → IsCleared b (page i o) b' → IsPaged b' (placed page i o 0)
  cleared-IsPaged lo n c = record {
    bitmap = c.valid;
    some_pages = subst (λ m. 0 < m) (sym c.same_max) v.some_pages;
    few_pages = subst (λ m. m ≤ kfs_npg_disk) (sym c.same_max) v.few_pages;
    absent = zero_used;
    within = λ j l h. elim (Bool-cases (j == i && l == o)) [
      | inl e ↦ rw (e, c.same_max) v.some_pages
      | inr e ↦ rw (e, c.same_max) (v.within j l h)
    ];
    in_use = λ j l h. elim (Bool-cases (j == i && l == o)) [
      | inl e ↦ subst (λ q. used b' q ≡ true) (sym (placed-here page i o 0 j l e)) zero_used
      | inr e ↦
          let d : page j l == page i o ≡ false = ground (arith, other-page j l lo h n e) in
          let u : used b' (page j l) ≡ true = ground (arith, c.clear (page j l), v.in_use j l h) in
          subst (λ q. used b' q ≡ true) (sym (placed-other page i o 0 j l e)) u
    ];
    once = λ j l j' l' h h' n' z.
        placed-once b page v i o 0 lo (λ j l h e m z. m z) j l j' l' h h' n' z;
  }
    where
      zero_used : used b' 0 ≡ true
      zero_used = ground (arith, c.clear 0, v.absent)

  pub found-IsPaged : (p : ℕ) → o < 12 → IsFound b p b' → IsPaged b' (placed page i o p)
  found-IsPaged p lo f = record {
    bitmap = f.valid;
    some_pages = subst (λ m. 0 < m) (sym f.same_max) v.some_pages;
    few_pages = subst (λ m. m ≤ kfs_npg_disk) (sym f.same_max) v.few_pages;
    absent = still 0 v.absent;
    within = λ j l h. elim (Bool-cases (j == i && l == o)) [
      | inl e ↦ rw (e, f.same_max) f.bound
      | inr e ↦ rw (e, f.same_max) (v.within j l h)
    ];
    in_use = λ j l h. elim (Bool-cases (j == i && l == o)) [
      | inl e ↦
          subst (λ q. used b' q ≡ true) (sym (placed-here page i o p j l e))
            (ground (arith, f.set p))
      | inr e ↦
          subst (λ q. used b' q ≡ true) (sym (placed-other page i o p j l e))
            (still (page j l) (v.in_use j l h))
    ];
    once =
        placed-once b page v i o p lo (λ j l h e m z.
          false≢true (sym f.free ∙ subst (λ q. used b q ≡ true) z (v.in_use j l h)));
  }
    where
      still : (q : ℕ) → used b q ≡ true → used b' q ≡ true
      still q u = ground (arith, f.set q, u)
