-- ===== src/Kfs/Files.antt =====
-- The pages of files (fs/kfs/kfs.c, built for the host, where the disk is an array of pages).
pub mod Words
pub mod Paged
pub mod Direct
pub mod Store
pub mod Levels
use ko.Base.{
  ℕ, zero, suc, ◌+◌, ◌-◌, ◌/◌, ◌%◌, ◌^◌, ◌*◌, Bool, true, false, not, ◌==◌, ltb, leb, ◌||◌,
  if◌then◌else◌, update, Option, none, some,
}
use Prim.Native.Nat.{bit_or}
use ko.Base.Run.{Run, done, panic, out_of_fuel, ◌>>=◌}
use ko.Base.Int.{ℤ, pos, negsuc}
use ko.Kfs.Bitmap.{Bitmap, kfs_alloc_bitmap, kfs_free_bitmap}
use ko.Kfs.State.{Kfs, Inode, set_inode, no_inode}

-- `KFS_NPG_DISK`
abbrev pub kfs_npg_disk : ℕ
kfs_npg_disk = 8192

-- `sizeof(kfs_page_t) / 4`
abbrev pub page_words : ℕ
page_words = 1024

-- The entry `k` of a file map, also behind its end, where the next file map follows.
abbrev pub get_fmap : Kfs → ℕ → ℕ → ℕ
get_fmap s m k = s.fmap (m + k / 16) (k % 16)

abbrev pub set_fmap : Kfs → ℕ → ℕ → ℕ → Kfs
set_fmap s m k p = record s {
  fmap = update s.fmap (m + k / 16) (update (s.fmap (m + k / 16)) (k % 16) (p % 2 ^ 16));
}

-- A pointer to the number of a page: in an inode or in a file map.
pub data Box : Type 0 where
  in_inode : ℕ → ℕ → Box
  in_fmap : ℕ → ℕ → Box

abbrev pub get_box : Kfs → Box → ℕ
get_box s (in_inode i k) = (s.inode i).page k
get_box s (in_fmap m k) = get_fmap s m k

abbrev pub set_box : Kfs → Box → ℕ → Kfs
set_box s (in_inode i k) p =
    set_inode s i (record (s.inode i) { page = update (s.inode i).page k (p % 2 ^ 16) })
set_box s (in_fmap m k) p = set_fmap s m k p

pub kfs_alloc_fmap : Kfs → ℕ × Kfs
kfs_alloc_fmap s = let (fmap, b) = kfs_alloc_bitmap s.bmp_fmap in (fmap, record s { bmp_fmap = b })

pub kfs_free_fmap : Kfs → ℕ → Kfs
kfs_free_fmap s fmap =
    let s1 = record s { fmap = update s.fmap fmap (λ k. 0) } in
    record s1 { bmp_fmap = kfs_free_bitmap s1.bmp_fmap fmap }

pub kfs_alloc_page : Kfs → ℕ × Kfs
kfs_alloc_page s =
    let (page, b) = kfs_alloc_bitmap s.bmp_page in (page % 2 ^ 16, record s { bmp_page = b })

pub kfs_free_page : Kfs → ℕ → Kfs
kfs_free_page s page = record s { bmp_page = kfs_free_bitmap s.bmp_page page }

pub kfs_free_inode : Kfs → ℕ → Kfs
kfs_free_inode s inode =
    let s1 = set_inode s inode no_inode in
    record s1 { bmp_inode = kfs_free_bitmap s1.bmp_inode inode }

pub kfs_page : Kfs → ℕ → ℕ → ℤ
kfs_page s inode pg_offset =
    let size = (s.inode inode).size in
    if size == 0 || ltb (size / 2 ^ 12) pg_offset
    then negsuc 0
    else if ltb pg_offset 12
    then pos ((s.inode inode).page pg_offset)
    else (let map1 = (s.inode inode).fmap in
        if leb size (28 * 2 ^ 12)
        then pos (get_fmap s map1 (pg_offset - 12))
        else (let map2 = get_fmap s map1 ((pg_offset - 12) / 16) in
            pos (get_fmap s map2 ((pg_offset - 12) % 16))))

abbrev pub set_inode_fmap : Kfs → ℕ → ℕ → Kfs
set_inode_fmap s inode fmap = set_inode s inode (record (s.inode inode) { fmap = fmap % 2 ^ 16 })

-- kfs_ppage for a page that is in the second level.
pub second_level : Kfs → ℕ → ℕ → Option Box × Kfs
unfolding kfs_alloc_fmap
second_level s inode k =
    let map1 = (s.inode inode).fmap in
    if get_fmap s map1 (k / 16) == 0
    then (let (fmap, s1) = kfs_alloc_fmap s in
        if fmap == 0
        then (none, s1)
        else (let s2 = set_fmap s1 map1 (k / 16) fmap in
            (some (in_fmap (get_fmap s2 map1 (k / 16)) (k % 16)), s2)))
    else (some (in_fmap (get_fmap s map1 (k / 16)) (k % 16)), s)

-- kfs_ppage for the page `k + 12`.
pub in_fmaps : Kfs → ℕ → ℕ → ℕ → Option Box × Kfs
unfolding second_level
in_fmaps s inode old_pg_size k =
    if ltb k 16
    then (some (in_fmap (s.inode inode).fmap k), s)
    else if ltb old_pg_size 28
    then (let (fmap, s1) = kfs_alloc_fmap s in
        if fmap == 0
        then (none, s1)
        else (let s2 = set_fmap s1 fmap 0 (s1.inode inode).fmap in
            second_level (set_inode_fmap s2 inode fmap) inode k))
    else second_level s inode k

pub kfs_ppage : Kfs → ℕ → ℕ → Option Box × Kfs
unfolding in_fmaps
kfs_ppage s inode pg_offset =
    let old_pg_size = (s.inode inode).size / 2 ^ 12 in
    if ltb pg_offset 12
    then (some (in_inode inode pg_offset), s)
    else if ltb old_pg_size 12
    then (let (fmap, s1) = kfs_alloc_fmap s in
        if fmap == 0
        then (none, s1)
        else in_fmaps (set_inode_fmap s1 inode fmap) inode old_pg_size (pg_offset - 12))
    else in_fmaps s inode old_pg_size (pg_offset - 12)

-- `for (…; a++, *p++ = *q++);`
pub copy_words : ℕ → (ℕ → ℕ) → (ℕ → ℕ) → ℕ → ℕ
copy_words zero from to = to
copy_words (suc n) from to = update (copy_words n from to) n (from n)

-- `res |= …` over the words.
pub or_words : ℕ → (ℕ → ℕ) → ℕ
or_words zero from = 0
or_words (suc n) from = bit_or (or_words n from) (from n)

-- The value, and what is in the buffer.
pub kfs_read_page : Kfs → (ℕ → ℕ) → ℕ → ℤ × (ℕ → ℕ)
kfs_read_page s buf page =
    if page == 0
    then (pos 0, copy_words page_words (λ a. 0) buf)
    else (pos 1, copy_words page_words (s.disk page) buf)

pub kfs_write_page : Kfs → (ℕ → ℕ) → ℕ → ℤ × Kfs
kfs_write_page s buf page = if page == 0 || leb kfs_npg_disk page then (negsuc 0, s) else (
  if or_words page_words buf == 0 then pos 0 else pos 1,
  record s { disk = update s.disk page (copy_words page_words buf (s.disk page)) },
)

abbrev pub is_zero : ℤ → Bool
is_zero (pos n) = n == 0
is_zero (negsuc n) = false

-- The part of kfs_read after kfs_page.
pub read_at : Kfs → ℤ → (ℕ → ℕ) → ℤ × (ℕ → ℕ)
read_at s (pos page) buf = kfs_read_page s buf (page % 2 ^ 16)
read_at s (negsuc n) buf = (pos 0, buf)

pub kfs_read : Kfs → ℕ → ℕ → (ℕ → ℕ) → ℤ × (ℕ → ℕ)
kfs_read s dentry pg_offset buf = read_at s (kfs_page s (s.dentry dentry).inode pg_offset) buf

-- The part of kfs_write with the number of the page in the box.
pub write_box : Kfs → Box → (ℕ → ℕ) → ℤ × Kfs
write_box s box buf =
    if get_box s box == 0
    then (negsuc 0, s)
    else (let (res, s1) = kfs_write_page s buf (get_box s box) in
        if not (is_zero res)
        then (pos 1, s1)
        else (pos 0, set_box (kfs_free_page s1 (get_box s1 box)) box 0))

-- The part of kfs_write after kfs_ppage.
pub write_at : Kfs → Option Box → (ℕ → ℕ) → ℤ × Kfs
write_at s none buf = (negsuc 0, s)
write_at s (some box) buf =
    if get_box s box == 0
    then (let (page, s1) = kfs_alloc_page s in write_box (set_box s1 box page) box buf)
    else write_box s box buf

pub kfs_write : Kfs → ℕ → ℕ → (ℕ → ℕ) → ℤ × Kfs
kfs_write s dentry pg_offset buf =
    let (ppage, s1) = kfs_ppage s (s.dentry dentry).inode (pg_offset % 2 ^ 16) in
    write_at s1 ppage buf

pub kfs_set_size : Kfs → ℕ → ℕ → ℕ × Kfs
kfs_set_size s dentry newsize =
    let i = (s.dentry dentry).inode in
    let s1 = set_inode s i (record (s.inode i) { size = newsize % 2 ^ 24 }) in
    ((s1.inode i).size, s1)
