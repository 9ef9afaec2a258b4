-- ===== src/Kfs/Tree/Invariant.antt =====
-- The directories of a disk: each one's dentries, in the order of its list.
use ko.Base.{ℕ, ◌<◌, ◌≤◌, ◌≡◌, true, List, [], ◌∷◌, has, Distinct, update}
use ko.Kfs.Bitmap.Law.{used, IsBitmap}
use ko.Kfs.State.{Kfs}
use ko.Kfs.Tree.Chain.{Chain, IsText}

-- The dentries of a directory.
abbrev pub Entries : Type 0
Entries = ℕ → List ℕ

-- The lists of the dentries in use are well-formed: each member is in use, is in one directory, which is
-- its `root`, and no other member has its name.
pub record IsTree (s : Kfs) (e : Entries) : Type 0 where
  pub bitmap : IsBitmap s.bmp_dentry
  pub few : s.bmp_dentry.max ≤ 256
  pub root : used s.bmp_dentry 0 ≡ true
  pub within : (d : ℕ) → used s.bmp_dentry d ≡ true → d < 256
  pub chain :
      (d : ℕ) → used s.bmp_dentry d ≡ true → Chain (λ k. (s.dentry k).next) (s.dentry d).leaf (e d)
  pub member :
      (d x : ℕ)
      → used s.bmp_dentry d ≡ true
      → has x (e d) ≡ true
      → (used s.bmp_dentry x ≡ true) × ((s.dentry x).root ≡ d)
  pub distinct : (d : ℕ) → used s.bmp_dentry d ≡ true → Distinct (e d)
  pub text : (d : ℕ) → used s.bmp_dentry d ≡ true → IsText (s.dentry d).name
  pub names :
      (d x y : ℕ)
      → used s.bmp_dentry d ≡ true
      → has x (e d) ≡ true
      → has y (e d) ≡ true
      → (s.dentry x).name ≡ (s.dentry y).name
      → x ≡ y

-- The directory `d` gets the new dentry `r`, which is itself empty.
abbrev pub with_entry : Entries → ℕ → ℕ → Entries
with_entry e d r = update (update e r []) d (r ∷ e d)
