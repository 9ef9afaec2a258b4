-- ===== src/Kfs/Files/Direct.antt =====
-- Reading and writing the first 12 pages of a file.
use ko.Base.{
  ℕ, ◌%◌, ◌^◌, ◌<◌, ◌≡◌, ◌≢◌, refl, sym, ap, subst, ◌∙◌, Bool, true, false, ◌==◌, ◌&&◌, ltb, leb,
  if◌then◌else◌, arith, Bool-cases, inl, inr, update, fun_ext, some, Option,
}
use ko.Base.Int.{ℤ, pos, negsuc}
use ko.Kfs.Bitmap.{kfs_free_bitmap}
use ko.Kfs.Bitmap.Law.{used, kfs_free_bitmap-IsCleared}
use ko.Kfs.State.{Kfs}
use ko.Kfs.Files.{
  kfs_npg_disk, page_words, in_inode, set_box, kfs_free_page, kfs_ppage, copy_words, or_words,
  kfs_write_page, write_box, write_at, kfs_write, Box,
}
use ko.Kfs.Files.Words.{copy_words-copied, or_words-zero}
use ko.Kfs.Files.Paged.{IsPaged, placed, placed-here, placed-other, other-page, cleared-IsPaged}

abbrev pub pages : Kfs → ℕ → ℕ → ℕ
pages s i k = (s.inode i).page k

-- The word `w` of a page of the disk, and of the page `k` of a file.
abbrev pub word : (ℕ → ℕ → ℕ) → ℕ → ℕ → ℕ
word disk p w = if p == 0 then 0 else disk p w

abbrev pub content : Kfs → ℕ → ℕ → ℕ → ℕ
content s i k w = word s.disk (pages s i k) w

abbrev pub is_ok : ℤ → Bool
is_ok (pos n) = true
is_ok (negsuc n) = false

-- The page `o` of the file `i` holds the buffer, or nothing was written since the page was absent and the
-- disk is full; none of the other pages below 12 of any file has another content, and no file has another
-- size or name.
pub record IsWritten (s : Kfs) (i o : ℕ) (buf : ℕ → ℕ) (r : ℤ) (s' : Kfs) : Type 0 where
  pub paged : IsPaged s'.bmp_page (pages s')
  pub here :
      (w : ℕ) → w < page_words → content s' i o w ≡ (if is_ok r then buf w else content s i o w)
  pub others : (j l w : ℕ) → l < 12 → j == i && l == o ≡ false → content s' j l w ≡ content s j l w
  pub sizes : (j : ℕ) → (s'.inode j).size ≡ (s.inode j).size
  pub dentries : s'.dentry ≡ s.dentry
  pub code : is_ok r ≡ false → r ≡ negsuc 0
  pub refused :
      pages s i o ≡ 0 → ((p : ℕ) → p < s.bmp_page.max → used s.bmp_page p ≡ true) → r ≡ negsuc 0
  pub full :
      is_ok r ≡ false
      → (pages s i o ≡ 0) × ((p : ℕ) → p < s.bmp_page.max → used s.bmp_page p ≡ true)

set_box-page :
    (s : Kfs) (i o p j l : ℕ)
    → ((set_box s (in_inode i o) p).inode j).page l ≡ placed (pages s) i o (p % 2 ^ 16) j l
set_box-page s i o p j l = elim (Bool-cases (j == i)) [
  | inl e ↦ let z : i ≡ j = ground arith in rw (e, z) refl
  | inr e ↦ rw e refl
]

pub set_box-size :
    (s : Kfs) (i o p j : ℕ) → ((set_box s (in_inode i o) p).inode j).size ≡ (s.inode j).size
set_box-size s i o p j = elim (Bool-cases (j == i)) [
  | inl e ↦ let z : i ≡ j = ground arith in rw (e, z) refl
  | inr e ↦ rw e refl
]

pub set_box-pages :
    (s : Kfs) (i o p : ℕ) → p < 2 ^ 16 → pages (set_box s (in_inode i o) p) ≡ placed (pages s) i o p
set_box-pages s i o p l = fun_ext (λ j.
    fun_ext
      (λ k. set_box-page s i o p j k ∙ ap (λ q. placed (pages s) i o q j k) (omega (arith, l))))

pub ppage-direct :
    (s : Kfs) (i o : ℕ) → o < 12 → kfs_ppage s i (o % 2 ^ 16) ≡ (some (in_inode i o), s)
unfolding kfs_ppage
ppage-direct s i o l =
    let e : o % 2 ^ 16 ≡ o = omega (arith, l) in
    let f : ltb o 12 ≡ true = ground arith in rw (e, f) refl

pub direct :
    (s : Kfs) (d o : ℕ) (buf : ℕ → ℕ)
    → o < 12
    → kfs_write s d o buf ≡ write_at s (some (in_inode (s.dentry d).inode o)) buf
unfolding kfs_write
direct s d o buf l =
    ap (λ (r : Option Box × Kfs). write_at r.1 r.0 buf) (ppage-direct s (s.dentry d).inode o l)

word-other :
    (disk : ℕ → ℕ → ℕ) (p q w : ℕ) (words : ℕ → ℕ)
    → q ≢ p
    → word (update disk p words) q w ≡ word disk q w
word-other disk p q w words n = ground arith

word-here :
    (disk : ℕ → ℕ → ℕ) (p w : ℕ) (buf : ℕ → ℕ)
    → p ≢ 0
    → w < page_words
    → word (update disk p (copy_words page_words buf (disk p))) p w ≡ buf w
word-here disk p w buf n l =
    let e : p == 0 ≡ false = ground arith in
    let f : p == p ≡ true = ground arith in
    let g : ltb w page_words ≡ true = ground arith in
    let h : copy_words page_words buf (disk p) w ≡ buf w =
      copy_words-copied page_words buf (disk p) w ∙ rw g refl in
    rw (e, f) h

-- A file in the page `p` of the disk, which is not 0.
module _ (s : Kfs) (v : IsPaged s.bmp_page (pages s)) (i o : ℕ) (lo : o < 12) (n : pages s i o ≢ 0)
    (buf : ℕ → ℕ) where
  p : ℕ
  p = pages s i o

  box : Box
  box = in_inode i o

  -- After the write, and before the page is freed if the words are all 0.
  s1 : Kfs
  s1 = record s { disk = update s.disk p (copy_words page_words buf (s.disk p)) }

  written_box : write_box s box buf ≡ (
      if or_words page_words buf == 0
      then (pos 0, set_box (kfs_free_page s1 p) box 0)
      else (pos 1, s1))
  unfolding write_box kfs_write_page p box s1
  written_box =
      let e : pages s i o == 0 ≡ false = ground arith in
      let f : leb kfs_npg_disk (pages s i o) ≡ false =
        ground (arith, v.within i o lo, v.few_pages) in
      elim (Bool-cases (or_words page_words buf == 0)) [
        | inl z ↦ rw (e, f, z) refl
        | inr z ↦ rw (e, f, z) refl
      ]

  other_pages : (j l : ℕ) → l < 12 → j == i && l == o ≡ false → pages s j l ≢ p
  unfolding p
  other_pages j l h e = other-page s.bmp_page s.bmp_page (pages s) v i o j l lo h n e

  kept_page : IsWritten s i o buf (pos 1) s1
  unfolding s1 p
  kept_page = record {
    paged = v;
    here = λ w l. word-here s.disk (pages s i o) w buf n l;
    others = λ j l w h e.
        word-other s.disk (pages s i o) (pages s j l) w
          (copy_words page_words buf (s.disk (pages s i o))) (other_pages j l h e);
    sizes = λ j. refl;
    dentries = refl;
    code = λ e. cc;
    refused = λ z f. absurd (n z);
    full = λ e. cc;
  }

  freed_pages : pages (set_box (kfs_free_page s1 p) box 0) ≡ placed (pages s) i o 0
  unfolding s1 p box kfs_free_page
  freed_pages = set_box-pages (kfs_free_page s1 p) i o 0 (omega arith)

  freed-IsPaged : IsPaged (kfs_free_bitmap s.bmp_page p) (placed (pages s) i o 0)
  unfolding p
  freed-IsPaged =
      cleared-IsPaged s.bmp_page (kfs_free_bitmap s.bmp_page p) (pages s) v i o lo n
        (kfs_free_bitmap-IsCleared s.bmp_page (pages s i o) v.bitmap)

  freed_page :
      or_words page_words buf ≡ 0 → IsWritten s i o buf (pos 0) (set_box (kfs_free_page s1 p) box 0)
  unfolding s1 p box kfs_free_page
  freed_page z = record {
    paged = subst (IsPaged (kfs_free_bitmap s.bmp_page p)) (sym freed_pages) freed-IsPaged;
    here = λ w l.
        ap (λ q. word s1.disk (q i o) w) freed_pages
        ∙ ap (λ q. word s1.disk q w) (placed-here (pages s) i o 0 i o (ground arith))
        ∙ sym (or_words-zero page_words buf z w l);
    others = λ j l w h e.
        ap (λ q. word s1.disk (q j l) w) freed_pages
        ∙ ap (λ q. word s1.disk q w) (placed-other (pages s) i o 0 j l e)
        ∙ word-other s.disk (pages s i o) (pages s j l) w
            (copy_words page_words buf (s.disk (pages s i o))) (other_pages j l h e);
    sizes = λ j. set_box-size (kfs_free_page s1 p) i o 0 j;
    dentries = refl;
    code = λ e. cc;
    refused = λ z f. absurd (n z);
    full = λ e. cc;
  }

  pub write_box-IsWritten :
      (let r = write_box s (in_inode i o) buf in IsWritten s i o buf r.0 r.1 × (is_ok r.0 ≡ true))
  unfolding box
  write_box-IsWritten = elim (Bool-cases (or_words page_words buf == 0)) [
    | inl e ↦
        let z : or_words page_words buf ≡ 0 = ground arith in
        subst (λ (r : ℤ × Kfs). IsWritten s i o buf r.0 r.1 × (is_ok r.0 ≡ true))
          (sym (written_box ∙ rw e refl)) (freed_page z, refl)
    | inr e ↦
        subst (λ (r : ℤ × Kfs). IsWritten s i o buf r.0 r.1 × (is_ok r.0 ≡ true))
          (sym (written_box ∙ rw e refl)) (kept_page, refl)
  ]
