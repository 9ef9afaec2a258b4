-- ===== src/Kfs/Tests.antt =====
-- A disk with nothing but the root, and one with a file in it.
use ko.Base.{
  ℕ, zero, suc, ◌+◌, ◌<◌, ◌/◌, ◌%◌, ◌≡◌, refl, arith, true, false, false≢true, ◌==◌, if◌then◌else◌,
  Bool-cases, inl, inr, List, [], ◌∷◌, has, update, Distinct, sym, ◌∙◌, subst,
}
use ko.Base.Run.{done, Returns, ◌>>=◌}
use ko.Base.Int.{pos, negsuc}
use ko.Kfs.Bitmap.{Bitmap}
use ko.Kfs.Bitmap.Bits.{bit, bit-zero}
use ko.Kfs.Bitmap.Law.{used, IsBitmap}
use ko.Kfs.State.{Kfs, Dentry, no_dentry, no_inode, kfs_file}
use ko.Kfs.Tree.{kfs_openat, kfs_open, kfs_free_dentry, starts_with_slash}
use ko.Kfs.Tree.Chain.{Chain, IsText}
use ko.Kfs.Tree.Invariant.{IsTree, Entries}
use ko.Kfs.Tree.Openat.{HasInodes, IsOpened, kfs_openat-IsOpened}
use ko.Kfs.Tree.Path.{names_of, walk, kfs_open-walk}
use ko.Kfs.Tree.Removed.{IsRemoved, kfs_free_dentry-IsRemoved}
use ko.Kfs.Files.{kfs_write, kfs_read}
use ko.Kfs.Files.Paged.{IsPaged}
use ko.Kfs.Files.Direct.{pages, IsWritten, is_ok}
use ko.Kfs.Files.Store.{kfs_write-IsWritten, kfs_read-kfs_write}
use ko.Kfs.Files.Levels.{is_split, IsSame, IsSplit, kfs_ppage-kfs_page}
use ko.Kfs.Walk.{kfs_tree_cb}
use ko.Kfs.Walk.Preorder.{Forest, empty, entry, preorder, kfs_tree_cb-preorder}

-- The bit 0 is set, of 256.
abbrev first : Bitmap
first = record { bytes = λ i. if i == 0 then 1 else 0; cur = 1; max = 256 }

first-0 : used first 0 ≡ true
unfolding bit
first-0 = refl

first-1 : used first 1 ≡ false
unfolding bit
first-1 = refl

first-within : (i : ℕ) → used first i ≡ true → i < 256
first-within i h = elim (Bool-cases (i / 8 == 0)) [
  | inl e ↦ ground arith
  | inr e ↦ absurd (
      false≢true
        (sym (bit-zero (i % 8)) ∙ subst (λ b. bit (if b then 1 else 0) (i % 8) ≡ true) e h))
]

first-IsBitmap : IsBitmap first
first-IsBitmap = record {
  byte = λ i. ground arith;
  cur = omega arith;
  max = omega arith;
  before = λ i l. let z : 0 ≡ i = omega (arith, l) in subst (λ k. used first k ≡ true) z first-0;
}

abbrev disk : Kfs
disk = record {
  bmp_dentry = first;
  bmp_inode = first;
  bmp_fmap = first;
  bmp_page = first;
  dentry = λ k. no_dentry;
  inode = λ k. no_inode;
  fmap = λ m k. 0;
  disk = λ p w. 0;
  offset = λ k. 0;
  next = [];
}

abbrev nothing : Entries
nothing d = []

disk-IsTree : IsTree disk nothing
disk-IsTree = record {
  bitmap = first-IsBitmap;
  few = omega arith;
  root = first-0;
  within = first-within;
  chain = λ d u. refl;
  member = λ d x u h. absurd (false≢true h);
  distinct = λ d u. tt;
  text = λ d u. tt;
  names = λ d x y u h. absurd (false≢true h);
}

disk-HasInodes : HasInodes disk
disk-HasInodes = record {
  bitmap = first-IsBitmap;
  root = first-0;
  free = (1, omega arith, first-1);
}

abbrev name : List ℕ
name = b'a' ∷ []

kfs_openat-IsOpened_example : Returns (IsOpened disk nothing 0 name) (kfs_openat 1 disk 0 name)
kfs_openat-IsOpened_example =
    kfs_openat-IsOpened disk nothing 0 name 1 disk-IsTree first-0 (omega arith, tt) (omega arith)
      (1, omega arith, first-1) disk-HasInodes (omega arith)

abbrev path : List ℕ
path = b'/' ∷ b'a' ∷ b'/' ∷ b'/' ∷ b'b' ∷ []

kfs_open-walk_example : kfs_open 9 disk path ≡ (
    if starts_with_slash path
    then (walk 9 disk 0 (names_of [] path) >>= λ (dentry, s1).
        done (pos dentry, record s1 { offset = update s1.offset (s1.dentry dentry).inode 0 }))
    else done (negsuc 0, disk))
kfs_open-walk_example = kfs_open-walk 9 disk path

-- With a file of two pages.
abbrev file : Kfs
file = record disk {
  bmp_dentry = record { bytes = λ i. if i == 0 then 3 else 0; cur = 2; max = 256 };
  dentry = λ k.
      if k == 1
      then record { root = 0; next = 0; leaf = 0; inode = 1; name = name }
      else if k == 0
      then record no_dentry { leaf = 1 }
      else no_dentry;
  inode = λ k. if k == 1 then record no_inode { type = kfs_file; size = 8192 } else no_inode;
}

abbrev one_file : Entries
one_file d = if d == 0 then 1 ∷ [] else []

-- What a member of a directory of this disk is.
only_file : (d x : ℕ) → has x (one_file d) ≡ true → (d ≡ 0) × (x ≡ 1)
only_file d x h = elim (Bool-cases (d == 0)) [
  | inl e ↦ (ground arith, ground (arith, subst (λ b. has x (if b then 1 ∷ [] else []) ≡ true) e h))
  | inr e ↦ absurd (false≢true (subst (λ b. has x (if b then 1 ∷ [] else []) ≡ true) e h))
]

file-within : (i : ℕ) → used file.bmp_dentry i ≡ true → i < 256
file-within i h = elim (Bool-cases (i / 8 == 0)) [
  | inl e ↦ ground arith
  | inr e ↦ absurd (
      false≢true
        (sym (bit-zero (i % 8)) ∙ subst (λ b. bit (if b then 3 else 0) (i % 8) ≡ true) e h))
]

file-0 : used file.bmp_dentry 0 ≡ true
unfolding bit
file-0 = refl

file-1 : used file.bmp_dentry 1 ≡ true
unfolding bit
file-1 = refl

file-IsBitmap : IsBitmap file.bmp_dentry
file-IsBitmap = record {
  byte = λ i. ground arith;
  cur = omega arith;
  max = omega arith;
  before = before_cur;
}
  where
    before_cur : (i : ℕ) → i < 2 → used file.bmp_dentry i ≡ true
    before_cur zero l = file-0
    before_cur (suc zero) l = file-1
    before_cur (suc (suc i)) l = absurd (omega (arith, l))

-- The dentries are those of the root, of the file and those that are free.
three_cases :
    (P : ℕ → Dentry → Type 0)
    → P 0 (record no_dentry { leaf = 1 })
    → P 1 (record no_dentry { inode = 1; name = name })
    → ((d : ℕ) → d == 0 ≡ false → P d no_dentry)
    → (d : ℕ) → P d (file.dentry d)
three_cases P a b c d = elim (Bool-cases (d == 1)) [
  | inl e ↦ let z : 1 ≡ d = ground arith in subst (λ k. P k (file.dentry k)) z b
  | inr e ↦ elim (Bool-cases (d == 0)) [
    | inl f ↦ let z : 0 ≡ d = ground arith in subst (λ k. P k (file.dentry k)) z a
    | inr f ↦ rw (e, f) (c d f)
  ]
]

no_entries : (d : ℕ) → d == 0 ≡ false → one_file d ≡ []
no_entries d e = rw e refl

file-IsTree : IsTree file one_file
file-IsTree = record {
  bitmap = file-IsBitmap;
  few = omega arith;
  root = file-0;
  within = file-within;
  chain = λ d u.
      three_cases (λ k t. Chain (λ j. (file.dentry j).next) t.leaf (one_file k))
        (refl, omega arith, refl) refl
        (λ k f. subst (Chain (λ j. (file.dentry j).next) 0) (sym (no_entries k f)) refl) d;
  member = λ d x u h.
      let (a, b) = only_file d x h in
      (
        subst (λ k. used file.bmp_dentry k ≡ true) (sym b) file-1,
        subst (λ k. (file.dentry k).root ≡ d) (sym b) (sym a),
      );
  distinct = λ d u.
      three_cases (λ k t. Distinct (one_file k)) (refl, tt) tt
        (λ k f. subst Distinct (sym (no_entries k f)) tt) d;
  text = λ d u. three_cases (λ k t. IsText t.name) tt (omega arith, tt) (λ k f. tt) d;
  names =
      λ d x y u h k w. let (a, b) = only_file d x h in let (a', b') = only_file d y k in b ∙ sym b';
}

kfs_free_dentry-IsRemoved_example : Returns (IsRemoved file one_file 0 1) (kfs_free_dentry 1 file 1)
kfs_free_dentry-IsRemoved_example =
    kfs_free_dentry-IsRemoved file one_file 0 1 1 file-IsTree file-0 refl refl (omega arith)

abbrev entries : Forest
entries = entry 1 empty empty

kfs_tree_cb-preorder_example :
    kfs_tree_cb 4 file 0
    ≡ done (2, (record { dentry = 0; depth = 0; position = 0 }) ∷ preorder entries 1 0)
kfs_tree_cb-preorder_example =
    kfs_tree_cb-preorder file 0 4 entries
      (refl, omega arith, refl, (λ z. omega (arith, z)), refl, refl) (omega arith)

file-IsPaged : IsPaged file.bmp_page (pages file)
file-IsPaged = record {
  bitmap = first-IsBitmap;
  some_pages = omega arith;
  few_pages = omega arith;
  absent = first-0;
  within = λ i k l. subst (λ p. p < 256) (sym (no_page i k)) (omega arith);
  in_use = λ i k l. subst (λ p. used first p ≡ true) (sym (no_page i k)) first-0;
  once = λ i k j l a b n z. absurd (n (no_page i k));
}
  where
    no_page : (i k : ℕ) → pages file i k ≡ 0
    no_page i k = elim (Bool-cases (i == 1)) [
      | inl e ↦ rw (e, pages) refl
      | inr e ↦ rw (e, pages) refl
    ]

abbrev buffer : ℕ → ℕ
buffer w = w + 7

kfs_write-IsWritten_example :
    (let r = kfs_write file 1 1 buffer in IsWritten file 1 1 buffer r.0 r.1)
kfs_write-IsWritten_example = kfs_write-IsWritten file 1 1 buffer file-IsPaged (omega arith)

written : is_ok (kfs_write file 1 1 buffer).0 ≡ true
written =
    let w = kfs_write-IsWritten file 1 1 buffer file-IsPaged (omega arith) in
    elim (Bool-cases (is_ok (kfs_write file 1 1 buffer).0)) [
      | inl e ↦ e
      | inr e ↦ absurd (false≢true (sym first-1 ∙ (w.full e).1 1 (omega arith)))
    ]

kfs_read-kfs_write_example : (kfs_read (kfs_write file 1 1 buffer).1 1 1 (λ w. 0)).1 3 ≡ 10
kfs_read-kfs_write_example =
    kfs_read-kfs_write file 1 1 3 buffer (λ w. 0) file-IsPaged
      (omega arith, omega arith, omega arith) written (omega arith)

-- A file of 30 pages, whose first level is the file map 3 and refers to the file map 4.
abbrev big : Kfs
big = record file {
  inode = λ k. record no_inode { type = kfs_file; size = 122880; fmap = 3 };
  fmap = λ m k. if m == 3 then 4 else 70 + k;
}

kfs_ppage-kfs_page_example : if is_split big 1 29 then IsSplit big 1 29 else IsSame big 1 29
kfs_ppage-kfs_page_example =
    kfs_ppage-kfs_page big 1 29
      (omega arith, omega arith, inr (omega arith, omega arith, (λ z. omega (arith, z))))
