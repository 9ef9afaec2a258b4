-- ===== src/Kfs/Tree/Openat.antt =====
-- What kfs_openat returns.
use ko.Base.{
  ℕ, ◌<◌, ◌≡◌, ◌⊎◌, refl, sym, ap, subst, ◌∙◌, Bool, true, false, false≢true, ◌==◌, if◌then◌else◌,
  arith, Bool-cases, inl, inr, List, [], ◌∷◌, has, length,
}
use ko.Base.Run.{done, Returns, Returns-bind}
use ko.Kfs.Bitmap.{Bitmap, kfs_alloc_bitmap}
use ko.Kfs.Bitmap.Law.{used, IsBitmap, IsFound, kfs_alloc_bitmap-IsAllocated}
use ko.Kfs.State.{Kfs, Inode, kfs_dir, set_inode}
use ko.Kfs.Tree.{kfs_openat, create, find, kfs_max_name}
use ko.Kfs.Tree.Chain.{Chain, IsText, Lacks, Named, IsSearched, find-IsSearched}
use ko.Kfs.Tree.Create.{new_inode, create_lem, created, created-bitmap, created-dentry}
use ko.Kfs.Tree.Invariant.{IsTree, Entries, with_entry}
use ko.Kfs.Tree.Added.{new_name, added-IsTree, new-other, new-positive}

-- The tree does not depend on the inodes.
pub IsTree-inode :
    (s : Kfs) (e : Entries) (i : ℕ → Inode) → IsTree s e → IsTree (record s { inode = i }) e
IsTree-inode s e i t = record {
  bitmap = t.bitmap;
  few = t.few;
  root = t.root;
  within = t.within;
  chain = t.chain;
  member = t.member;
  distinct = t.distinct;
  text = t.text;
  names = t.names;
}

-- A bitmap has a clear bit.
abbrev pub HasFree : Bitmap → Type 0
HasFree b = (i : ℕ) × (i < b.max) × (used b i ≡ false)

pub free-IsFound :
    (b : Bitmap) → IsBitmap b → HasFree b → IsFound b (kfs_alloc_bitmap b).0 (kfs_alloc_bitmap b).1
free-IsFound b v (i, l, h) = elim (kfs_alloc_bitmap-IsAllocated b v) [
  | inl f ↦ f
  | inr f ↦ absurd (false≢true (sym h ∙ f.full i l))
]

pub found-nonzero :
    (b : Bitmap) (r : ℕ) (b' : Bitmap) → used b 0 ≡ true → IsFound b r b' → r == 0 ≡ false
found-nonzero b r b' u f = elim (Bool-cases (r == 0)) [
  | inr e ↦ e
  | inl e ↦
      let z : r ≡ 0 = ground arith in absurd (false≢true (sym f.free ∙ ap (λ k. used b k) z ∙ u))
]

-- The inodes of the superblock: inode 0 is that of the root.
pub record HasInodes (s : Kfs) : Type 0 where
  pub bitmap : IsBitmap s.bmp_inode
  pub root : used s.bmp_inode 0 ≡ true
  pub free : HasFree s.bmp_inode

-- The dentry that was there, or a new one.
abbrev pub IsOpened : Kfs → Entries → ℕ → List ℕ → ℕ × Kfs → Type 0
IsOpened s e d name (r, s') =
    (has r (e d) ≡ true) × ((s.dentry r).name ≡ name) × (s'.dentry ≡ s.dentry) × IsTree s' e
    ⊎ Lacks s (e d) name
      × (used s.bmp_dentry r ≡ false)
      × ((s'.dentry r).name ≡ name)
      × IsTree s' (with_entry e d r)

named :
    (s : Kfs) (e : Entries) (t : IsTree s e) (d : ℕ)
    → used s.bmp_dentry d ≡ true
    → (xs : List ℕ) → ((x : ℕ) → has x xs ≡ true → has x (e d) ≡ true)
    → Named s xs
named s e t d u [] h = tt
named s e t d u (x ∷ xs) h = (
  t.text x (t.member d x u (h x (ground arith))).0,
  named s e t d u xs (λ y k. h y (ground arith)),
)

module _ (s : Kfs) (e : Entries) (t : IsTree s e) (d : ℕ) (u : used s.bmp_dentry d ≡ true)
    (name : List ℕ) (text : IsText name) where
  create-IsOpened :
      length name < kfs_max_name
      → HasFree s.bmp_dentry
      → HasInodes s
      → Lacks s (e d) name
      → IsOpened s e d name (create s d name)
  create-IsOpened short free i lacks =
      let f = free-IsFound s.bmp_dentry t.bitmap free in
      let fi = free-IsFound s.bmp_inode i.bitmap i.free in
      let b = (kfs_alloc_bitmap s.bmp_dentry).1 in
      let other = new-other s e t d name u b f in
      let some_dentry = new-positive s e t d name u b f in
      let some_inode =
        found-nonzero s.bmp_inode (new_inode s d name) (kfs_alloc_bitmap s.bmp_inode).1 i.root fi in
      let c = created s d name short some_dentry some_inode other in
      let entry = created-dentry s d name short some_dentry some_inode other in
      rw (create_lem s d name short some_dentry some_inode other) (
        inr (
          lacks,
          f.free,
          new_name s e t d name u b f short text lacks c entry
              (created-bitmap s d name short some_dentry some_inode other),
          added-IsTree s e t d name u b f short text lacks c entry
              (created-bitmap s d name short some_dentry some_inode other),
        ))

  choose :
      length name < kfs_max_name
      → HasFree s.bmp_dentry
      → HasInodes s
      → (r : ℕ × Bool) → IsSearched s (e d) name r
      → Returns (IsOpened s e d name) (if r.1 then done (r.0, s) else done (create s d name))
  choose short free i (r, true) (h, n) = inl (h, n, refl, t)
  choose short free i (r, false) lacks = create-IsOpened short free i lacks

searched :
    (s : Kfs) (fuel first : ℕ) (xs name : List ℕ)
    → Chain (λ k. (s.dentry k).next) first xs
    → Named s xs
    → IsText name
    → length xs < fuel
    → Returns
        (IsSearched s xs name)
        (if first == 0 then done (0, false) else find fuel s first name)
searched s fuel first [] name c n t l = rw c tt
searched s fuel first (x ∷ xs) name (z, p, c) n t l =
    let some_leaf : first == 0 ≡ false = ground arith in
    rw some_leaf (
      subst (λ k. Returns (IsSearched s (x ∷ xs) name) (find fuel s k name)) (sym z)
        (find-IsSearched fuel s x xs name (refl, p, c) n t (omega (arith, l))))

-- kfs_openat in a directory in use, for a name of at most 27 characters. With a dentry and an inode
-- free and fuel for the entries of the directory it returns. If the directory has the name, it returns
-- that dentry and changes no dentry; if not, a dentry that was not in use gets the name and
-- becomes the first of the directory, and every other directory keeps its entries.
pub kfs_openat-IsOpened :
    (s : Kfs) (e : Entries) (d : ℕ) (name : List ℕ) (fuel : ℕ)
    → IsTree s e
    → used s.bmp_dentry d ≡ true
    → IsText name
    → length name < kfs_max_name
    → HasFree s.bmp_dentry
    → HasInodes s
    → length (e d) < fuel
    → Returns (IsOpened s e d name) (kfs_openat fuel s d name)
unfolding kfs_openat
kfs_openat-IsOpened s e d name fuel t u text short free i l =
    let k = (s.dentry d).inode in
    let s1 = set_inode s k (record (s.inode k) { type = kfs_dir }) in
    let t1 = IsTree-inode s e s1.inode t in
    let i1 : HasInodes s1 = record { bitmap = i.bitmap; root = i.root; free = i.free } in
    Returns-bind (IsSearched s1 (e d) name) (IsOpened s e d name)
      (if (s1.dentry d).leaf == 0 then done (0, false) else find fuel s1 (s1.dentry d).leaf name)
      (λ r. if r.1 then done (r.0, s1) else done (create s1 d name))
      (searched s1 fuel (s1.dentry d).leaf (e d) name (t1.chain d u)
        (named s1 e t1 d u (e d) (λ x h. h)) text l)
      (choose s1 e t1 d u name text short free i1)
