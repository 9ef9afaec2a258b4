-- ===== src/Kfs/Files/Store.antt =====
-- A disk as the contents of its files: kfs_write and kfs_read of the first 12 pages of a file.
use ko.Base.{
  ℕ, ◌/◌, ◌%◌, ◌^◌, ◌<◌, ◌≤◌, ◌≡◌, ◌≢◌, ◌⊎◌, refl, sym, ap, subst, ◌∙◌, true, false, false≢true,
  ◌==◌, ltb, arith, Bool-cases, inl, inr, fun_ext, some,
}
use ko.Base.Int.{ℤ, pos, negsuc}
use ko.Kfs.Bitmap.{Bitmap, kfs_alloc_bitmap}
use ko.Kfs.Bitmap.Law.{used, IsFound, IsFull, kfs_alloc_bitmap-IsAllocated}
use ko.Kfs.State.{Kfs, Dentry}
use ko.Kfs.Files.{
  page_words, in_inode, set_box, kfs_alloc_page, kfs_page, kfs_read_page, kfs_read, read_at,
  write_box, write_at, kfs_write,
}
use ko.Kfs.Files.Words.{copy_words-copied}
use ko.Kfs.Files.Paged.{IsPaged, placed, placed-here, placed-other, found-IsPaged}
use ko.Kfs.Files.Direct.{
  pages, content, word, is_ok, IsWritten, set_box-size, set_box-pages, direct, write_box-IsWritten,
}

-- A new page for an absent page of a file.
module _ (s : Kfs) (v : IsPaged s.bmp_page (pages s)) (i o : ℕ) (lo : o < 12) (z : pages s i o ≡ 0)
    (buf : ℕ → ℕ) (b : Bitmap) where
  s2 : ℕ → Kfs
  s2 p = set_box (record s { bmp_page = b }) (in_inode i o) p

  s2-pages : (p : ℕ) → p < 2 ^ 16 → pages (s2 p) ≡ placed (pages s) i o p
  unfolding s2
  s2-pages p l = set_box-pages (record s { bmp_page = b }) i o p l

  new_page :
      (p : ℕ)
      → IsFound s.bmp_page p b
      → p ≢ 0
      → (let r = write_box (s2 p) (in_inode i o) buf in IsWritten s i o buf r.0 r.1)
  unfolding s2
  new_page p f n =
      let l : p < 2 ^ 16 = omega (arith, f.bound, v.few_pages) in
      let e : pages (s2 p) ≡ placed (pages s) i o p = s2-pages p l in
      let here : pages (s2 p) i o ≡ p =
        ap (λ q. q i o) e ∙ placed-here (pages s) i o p i o (ground arith) in
      let v2 : IsPaged b (pages (s2 p)) =
        subst (IsPaged b) (sym e) (found-IsPaged s.bmp_page b (pages s) v i o p lo f) in
      let (w, ok) = write_box-IsWritten (s2 p) v2 i o lo (λ h. n (sym here ∙ h)) buf in
      record {
        paged = w.paged;
        here = λ k h. w.here k h ∙ rw ok refl;
        others = λ j k m h g.
            w.others j k m h g
            ∙ ap (λ q. word s.disk (q j k) m) e
            ∙ ap (λ q. word s.disk q m) (placed-other (pages s) i o p j k g);
        sizes = λ j. w.sizes j ∙ set_box-size (record s { bmp_page = b }) i o p j;
        dentries = w.dentries;
        code = λ h. absurd (false≢true (sym h ∙ ok));
        refused = λ h all. absurd (false≢true (sym f.free ∙ all p f.bound));
        full = λ h. absurd (false≢true (sym h ∙ ok));
      }

  same_pages : pages (s2 0) ≡ pages s
  same_pages = s2-pages 0 (omega arith) ∙ fun_ext (λ j. fun_ext (λ k. ground (arith, z)))

  no_page : IsFull s.bmp_page 0 b → IsWritten s i o buf (negsuc 0) (s2 0)
  unfolding s2
  no_page f =
      let still : (p : ℕ) → used s.bmp_page p ≡ true → used b p ≡ true = λ p u. f.same p ∙ u in
      record {
        paged = subst (IsPaged b) (sym same_pages) (record {
          bitmap = f.valid;
          some_pages = subst (λ m. 0 < m) (sym f.same_max) v.some_pages;
          few_pages = subst (λ m. m ≤ 8192) (sym f.same_max) v.few_pages;
          absent = still 0 v.absent;
          within = λ j k h. subst (λ m. pages s j k < m) (sym f.same_max) (v.within j k h);
          in_use = λ j k h. still (pages s j k) (v.in_use j k h);
          once = v.once;
        });
        here = λ w l. ap (λ q. word s.disk (q i o) w) same_pages;
        others = λ j k w h e. ap (λ q. word s.disk (q j k) w) same_pages;
        sizes = λ j. set_box-size (record s { bmp_page = b }) i o 0 j;
        dentries = refl;
        code = λ e. refl;
        refused = λ h all. refl;
        full = λ e. (z, f.full);
      }

  no_page_write : write_box (s2 0) (in_inode i o) buf ≡ (negsuc 0, s2 0)
  unfolding write_box
  no_page_write =
      let e : pages (s2 0) i o == 0 ≡ true = ground (arith, ap (λ q. q i o) same_pages, z) in
      rw e refl

  pub absent_page :
      b ≡ (kfs_alloc_bitmap s.bmp_page).1
      → (let r = write_at s (some (in_inode i o)) buf in IsWritten s i o buf r.0 r.1)
  unfolding write_at kfs_alloc_page s2
  absent_page g =
      let p = (kfs_alloc_bitmap s.bmp_page).0 in
      let a : IsFound s.bmp_page p b ⊎ IsFull s.bmp_page p b =
        subst (λ b. IsFound s.bmp_page p b ⊎ IsFull s.bmp_page p b) (sym g)
          (kfs_alloc_bitmap-IsAllocated s.bmp_page v.bitmap) in
      let e : pages s i o == 0 ≡ true = ground arith in
      rw (e, sym g)
        (elim a [
          | inl f ↦
              let l : p % 2 ^ 16 ≡ p = omega (arith, f.bound, v.few_pages) in
              let n : p ≢ 0 =
                λ h. false≢true (sym f.free ∙ ap (λ q. used s.bmp_page q) h ∙ v.absent) in
              rw l (new_page p f n)
          | inr f ↦
              let l : p % 2 ^ 16 ≡ 0 = omega (arith, f.none) in
              rw (l, no_page_write) (no_page (subst (λ q. IsFull s.bmp_page q b) f.none f))
        ])

present_page :
    (s : Kfs) (v : IsPaged s.bmp_page (pages s)) (i o : ℕ)
    → o < 12
    → pages s i o == 0 ≡ false
    → (buf : ℕ → ℕ) → (let r = write_at s (some (in_inode i o)) buf in IsWritten s i o buf r.0 r.1)
unfolding write_at
present_page s v i o lo e buf = rw e (write_box-IsWritten s v i o lo (ground arith) buf).0

-- kfs_write of one of the first 12 pages of a file, on a disk where every page of a file is in use and is a
-- page of no other file: the page then holds the buffer, also if that is all 0 and no page of the disk is
-- kept for it; none of the other pages below 12 of any file has another content, no file has another size, and
-- these pages are in use and of one file again. If the page was absent and the disk is full, and only then,
-- kfs_write returns -1, and changes no content.
pub kfs_write-IsWritten :
    (s : Kfs) (d o : ℕ) (buf : ℕ → ℕ)
    → IsPaged s.bmp_page (pages s)
    → o < 12
    → (let r = kfs_write s d o buf in IsWritten s (s.dentry d).inode o buf r.0 r.1)
kfs_write-IsWritten s d o buf v lo =
    let i = (s.dentry d).inode in
    subst (λ (r : ℤ × Kfs). IsWritten s i o buf r.0 r.1) (sym (direct s d o buf lo))
      (elim (Bool-cases (pages s i o == 0)) [
        | inl e ↦ absent_page s v i o lo (ground arith) buf (kfs_alloc_bitmap s.bmp_page).1 refl
        | inr e ↦ present_page s v i o lo e buf
      ])

-- The page is one of the first 12 and begins within the size of the file.
abbrev pub IsInside : Kfs → ℕ → ℕ → Type 0
IsInside s i o = (o < 12) × (0 < (s.inode i).size) × (o ≤ (s.inode i).size / 2 ^ 12)

read_page-content :
    (s : Kfs) (buf : ℕ → ℕ) (p w : ℕ)
    → p < 2 ^ 16
    → w < page_words
    → (kfs_read_page s buf (p % 2 ^ 16)).1 w ≡ word s.disk p w
unfolding kfs_read_page
read_page-content s buf p w l h = elim (Bool-cases (p == 0)) [
  | inl e ↦
      let m : p % 2 ^ 16 ≡ p = omega (arith, l) in
      rw (m, e) (ground (arith, copy_words-copied page_words (λ a. 0) buf w))
  | inr e ↦
      let m : p % 2 ^ 16 ≡ p = omega (arith, l) in
      rw (m, e) (ground (arith, copy_words-copied page_words (s.disk p) buf w))
]

page-direct : (s : Kfs) (i o : ℕ) → IsInside s i o → kfs_page s i o ≡ pos (pages s i o)
unfolding kfs_page
page-direct s i o (l, n, h) =
    let e : (s.inode i).size == 0 ≡ false = ground arith in
    let f : ltb ((s.inode i).size / 2 ^ 12) o ≡ false = ground arith in
    let g : ltb o 12 ≡ true = ground arith in rw (e, f, g) refl

-- kfs_read of one of the first 12 pages of a file gives the content of the page, if it begins within the size
-- of the file.
pub kfs_read-content :
    (s : Kfs) (d o w : ℕ) (buf : ℕ → ℕ)
    → IsPaged s.bmp_page (pages s)
    → IsInside s (s.dentry d).inode o
    → w < page_words
    → (kfs_read s d o buf).1 w ≡ content s (s.dentry d).inode o w
unfolding kfs_read read_at
kfs_read-content s d o w buf v h l =
    let i = (s.dentry d).inode in
    let lo : pages s i o < 2 ^ 16 = omega (arith, v.within i o h.0, v.few_pages) in
    ap (λ z. (read_at s z buf).1 w) (page-direct s i o h)
    ∙ read_page-content s buf (pages s i o) w lo l

-- A page that was written is read again: kfs_read gives the buffer of kfs_write, after any
-- kfs_write that succeeded of one of the first 12 pages, within the size of the file.
pub kfs_read-kfs_write :
    (s : Kfs) (d o w : ℕ) (buf to : ℕ → ℕ)
    → IsPaged s.bmp_page (pages s)
    → IsInside s (s.dentry d).inode o
    → is_ok (kfs_write s d o buf).0 ≡ true
    → w < page_words
    → (kfs_read (kfs_write s d o buf).1 d o to).1 w ≡ buf w
kfs_read-kfs_write s d o w buf to v h ok l =
    let i = (s.dentry d).inode in
    let (r, s') = kfs_write s d o buf in
    let k = kfs_write-IsWritten s d o buf v h.0 in
    let same : (s'.dentry d).inode ≡ i = ap (λ (e : ℕ → Dentry). (e d).inode) k.dentries in
    let h' : IsInside s' i o = (
      h.0,
      subst (λ z. 0 < z) (sym (k.sizes i)) h.1,
      subst (λ z. o ≤ z / 2 ^ 12) (sym (k.sizes i)) h.2,
    ) in
    kfs_read-content s' d o w to k.paged (subst (λ j. IsInside s' j o) (sym same) h') l
    ∙ ap (λ j. content s' j o w) same
    ∙ k.here w l
    ∙ rw ok refl
