-- ===== src/Kfs/Files/Levels.antt =====
-- Where kfs_page and kfs_ppage look for the number of a page.
use ko.Base.{
  ℕ, ◌-◌, ◌*◌, ◌/◌, ◌%◌, ◌^◌, ◌<◌, ◌≤◌, ◌≡◌, ◌≢◌, ◌⊎◌, refl, Bool, true, false, ◌==◌, ltb, leb,
  ◌&&◌, if◌then◌else◌, Bool-cases, ◌∙◌, arith, inl, inr, some,
}
use ko.Base.Int.{pos}
use ko.Kfs.State.{Kfs}
use ko.Kfs.Files.{Box, in_inode, in_fmap, get_fmap, get_box, kfs_page, kfs_ppage}

-- The page `o` begins within the size of the file, and a page from 28 on is in the second level of a file of
-- more than 28 pages, where that has the file map for it.
abbrev pub IsMapped : Kfs → ℕ → ℕ → Type 0
IsMapped s i o =
    (0 < (s.inode i).size)
    × (o ≤ (s.inode i).size / 2 ^ 12)
    × ((o < 28)
        ⊎ (28 ≤ o)
          × (28 * 2 ^ 12 < (s.inode i).size)
          × (get_fmap s (s.inode i).fmap ((o - 12) / 16) ≢ 0))

-- One of the pages 12 to 27 of a file of more than 28 pages.
abbrev pub is_split : Kfs → ℕ → ℕ → Bool
is_split s i o = leb 12 o && (ltb o 28 && ltb (28 * 2 ^ 12) (s.inode i).size)

-- kfs_ppage gives a box and changes nothing, and kfs_page gives what is in the box.
abbrev pub IsSame : Kfs → ℕ → ℕ → Type 0
IsSame s i o =
    (box : Box) × (kfs_ppage s i o ≡ (some box, s)) × (kfs_page s i o ≡ pos (get_box s box))

-- kfs_ppage gives the box in the first level, and kfs_page what is in the second level.
abbrev pub IsSplit : Kfs → ℕ → ℕ → Type 0
IsSplit s i o =
    let map1 = (s.inode i).fmap in
    (kfs_ppage s i o ≡ (some (in_fmap map1 (o - 12)), s))
    × (kfs_page s i o ≡ pos (get_fmap s (get_fmap s map1 0) (o - 12)))

module _ (s : Kfs) (i o : ℕ) (n : 0 < (s.inode i).size) (h : o ≤ (s.inode i).size / 2 ^ 12) where
  some_size : (s.inode i).size == 0 ≡ false
  some_size = ground arith

  within : ltb ((s.inode i).size / 2 ^ 12) o ≡ false
  within = ground arith

  in_inode-IsSame : o < 12 → IsSame s i o
  unfolding kfs_ppage kfs_page
  in_inode-IsSame a =
      let g : ltb o 12 ≡ true = ground arith in
      (in_inode i o, rw g refl, rw (some_size, within, g) refl)

  ppage-first_level :
      12 ≤ o → o < 28 → kfs_ppage s i o ≡ (some (in_fmap (s.inode i).fmap (o - 12)), s)
  unfolding kfs_ppage
  ppage-first_level a b =
      let g : ltb o 12 ≡ false = ground arith in
      let k : ltb ((s.inode i).size / 2 ^ 12) 12 ≡ false = ground arith in
      let m : ltb (o - 12) 16 ≡ true = ground arith in rw (g, k, m) refl

  first_level-IsSame : 12 ≤ o → o < 28 → (s.inode i).size ≤ 28 * 2 ^ 12 → IsSame s i o
  unfolding kfs_page
  first_level-IsSame a b c =
      let g : ltb o 12 ≡ false = ground arith in
      let q : leb (s.inode i).size (28 * 2 ^ 12) ≡ true = ground arith in
      (in_fmap (s.inode i).fmap (o - 12), ppage-first_level a b, rw (some_size, within, g, q) refl)

  page-second_level :
      12 ≤ o
      → 28 * 2 ^ 12 < (s.inode i).size
      → kfs_page s i o
        ≡ pos (get_fmap s (get_fmap s (s.inode i).fmap ((o - 12) / 16)) ((o - 12) % 16))
  unfolding kfs_page
  page-second_level a b =
      let g : ltb o 12 ≡ false = ground arith in
      let q : leb (s.inode i).size (28 * 2 ^ 12) ≡ false = ground arith in
      rw (some_size, within, g, q) refl

  first_level-IsSplit : 12 ≤ o → o < 28 → 28 * 2 ^ 12 < (s.inode i).size → IsSplit s i o
  first_level-IsSplit a b c =
      let d : (o - 12) / 16 ≡ 0 = omega (arith, a, b) in
      let m : (o - 12) % 16 ≡ o - 12 = omega (arith, a, b) in
      (ppage-first_level a b, page-second_level a c ∙ rw (d, m) refl)

  second_level-IsSame :
      28 ≤ o
      → 28 * 2 ^ 12 < (s.inode i).size
      → get_fmap s (s.inode i).fmap ((o - 12) / 16) ≢ 0
      → IsSame s i o
  unfolding kfs_ppage
  second_level-IsSame a b c =
      let g : ltb o 12 ≡ false = ground arith in
      let k : ltb ((s.inode i).size / 2 ^ 12) 12 ≡ false = ground arith in
      let m : ltb (o - 12) 16 ≡ false = ground arith in
      let r : ltb ((s.inode i).size / 2 ^ 12) 28 ≡ false = ground arith in
      let z : get_fmap s (s.inode i).fmap ((o - 12) / 16) == 0 ≡ false = ground arith in
      (
        in_fmap (get_fmap s (s.inode i).fmap ((o - 12) / 16)) ((o - 12) % 16),
        rw (g, k, m, r, z) refl,
        page-second_level (omega (arith, a)) b,
      )

-- For a page that begins within the size of the file and, from page 28 on, has its second level file map,
-- kfs_ppage, which kfs_write uses, allocates no file map and gives the very box in which kfs_page, which
-- kfs_read uses, looks; but for the pages 12 to 27 of a file of more than 28 pages kfs_ppage gives a box of the
-- first level, where the numbers of file maps are, and kfs_page looks in the second level.
pub kfs_ppage-kfs_page :
    (s : Kfs) (i o : ℕ) → IsMapped s i o → if is_split s i o then IsSplit s i o else IsSame s i o
kfs_ppage-kfs_page s i o (n, h, inl a) = elim (Bool-cases (leb 12 o)) [
  | inr e ↦
      let f : is_split s i o ≡ false = rw e refl in rw f (in_inode-IsSame s i o n h (ground arith))
  | inl e ↦
      let l : ltb o 28 ≡ true = ground arith in
      elim (Bool-cases (ltb (28 * 2 ^ 12) (s.inode i).size)) [
        | inl f ↦
            let g : is_split s i o ≡ true = rw (e, l, f) refl in
            rw g (first_level-IsSplit s i o n h (ground arith) a (ground arith))
        | inr f ↦
            let g : is_split s i o ≡ false = rw (e, l, f) refl in
            rw g (first_level-IsSame s i o n h (ground arith) a (ground arith))
      ]
]
kfs_ppage-kfs_page s i o (n, h, inr (a, b, c)) =
    let e : leb 12 o ≡ true = ground arith in
    let l : ltb o 28 ≡ false = ground arith in
    let f : is_split s i o ≡ false = rw (e, l) refl in rw f (second_level-IsSame s i o n h a b c)
