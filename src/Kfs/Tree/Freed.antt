-- ===== src/Kfs/Tree/Freed.antt =====
-- The directories after kfs_free_dentry.
use ko.Base.{
  ℕ, zero, suc, ◌≡◌, refl, ap, ◌∙◌, true, false, ◌==◌, if◌then◌else◌, arith, Bool-cases, inl, inr,
}
use ko.Base.Run.{done}
use ko.Kfs.Bitmap.{Bitmap, kfs_free_bitmap}
use ko.Kfs.Bitmap.Law.{IsBitmap, IsCleared, kfs_free_bitmap-IsCleared}
use ko.Kfs.State.{Kfs, Dentry, set_dentry, no_dentry}
use ko.Kfs.Tree.{free_again, kfs_free_dentry, find_prev}

-- Clearing a bit twice is as clearing it once.
pub free_again-IsCleared :
    (n : ℕ) (b : Bitmap) (i : ℕ) → IsBitmap b → IsCleared b i (free_again (suc n) b i)
unfolding free_again
free_again-IsCleared zero b i v = kfs_free_bitmap-IsCleared b i v
free_again-IsCleared (suc n) b i v =
    let c = kfs_free_bitmap-IsCleared b i v in
    let r = free_again-IsCleared n (kfs_free_bitmap b i) i c.valid in
    record {
      clear = λ j. elim (Bool-cases (j == i)) [
        | inl e ↦ r.clear j ∙ rw e refl
        | inr e ↦ r.clear j ∙ rw e (c.clear j ∙ rw e refl)
      ];
      same_max = r.same_max ∙ c.same_max;
      valid = r.valid;
    }

-- The tables after kfs_free_dentry of `x`, with `prev` before it.
pub freed : Kfs → ℕ → ℕ → Kfs
freed s x prev =
    let root = (s.dentry x).root in
    let s1 =
      if prev == 0
      then set_dentry s root (record (s.dentry root) { leaf = (s.dentry x).next })
      else set_dentry s prev (record (s.dentry prev) { next = (s.dentry x).next }) in
    let s2 = set_dentry s1 x no_dentry in record s2 { bmp_dentry = free_again 8 s2.bmp_dentry x }

pub free-freed :
    (fuel : ℕ) (s : Kfs) (x prev : ℕ)
    → find_prev fuel s x (s.dentry (s.dentry x).root).leaf 0 ≡ done prev
    → kfs_free_dentry fuel s x ≡ done (freed s x prev)
unfolding kfs_free_dentry freed
free-freed fuel s x prev h = rw h refl

pub freed-bitmap :
    (s : Kfs) (x prev : ℕ) → (freed s x prev).bmp_dentry ≡ free_again 8 s.bmp_dentry x
unfolding freed
freed-bitmap s x prev = elim (Bool-cases (prev == 0)) [ inl e ↦ rw e refl | inr e ↦ rw e refl ]

-- What another dentry than `x` has afterwards.
module _ (s : Kfs) (x prev y : ℕ) (n : y == x ≡ false) where
  abbrev after_y : Dentry
  after_y = (freed s x prev).dentry y

  pub freed_first :
      prev == 0 ≡ true
      → (after_y.next ≡ (s.dentry y).next)
        × (after_y.root ≡ (s.dentry y).root)
        × (after_y.name ≡ (s.dentry y).name)
        × (after_y.leaf ≡ (if y == (s.dentry x).root then (s.dentry x).next else (s.dentry y).leaf))
  unfolding freed
  freed_first e = elim (Bool-cases (y == (s.dentry x).root)) [
    | inl f ↦
        let z : (s.dentry x).root ≡ y = ground arith in rw (e, n, f, z) (refl, refl, refl, refl)
    | inr f ↦ rw (e, n, f) (refl, refl, refl, refl)
  ]

  pub freed_later :
      prev == 0 ≡ false
      → (after_y.next ≡ (if y == prev then (s.dentry x).next else (s.dentry y).next))
        × (after_y.root ≡ (s.dentry y).root)
        × (after_y.name ≡ (s.dentry y).name)
        × (after_y.leaf ≡ (s.dentry y).leaf)
  unfolding freed
  freed_later e = elim (Bool-cases (y == prev)) [
    | inl f ↦
        let z : prev ≡ y = ground arith in
        rw (e, n, f)
          (
            refl,
            ap (λ k. (s.dentry k).root) z,
            ap (λ k. (s.dentry k).name) z,
            ap (λ k. (s.dentry k).leaf) z,
          )
    | inr f ↦ rw (e, n, f) (refl, refl, refl, refl)
  ]
