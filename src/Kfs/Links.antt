-- ===== src/Kfs/Links.antt =====
-- kfs_link and kfs_unlink (fs/kfs/kfs.c).
use ko.Base.{ℕ, zero, suc, ◌+◌, ◌-◌, ◌/◌, ◌%◌, ◌^◌, ◌*◌, ◌==◌, ltb, leb, if◌then◌else◌, List}
use ko.Base.Run.{Run, done, ◌>>=◌}
use ko.Base.Int.{ℤ, pos, negsuc}
use ko.Kfs.State.{Kfs, set_dentry, set_inode}
use ko.Kfs.Tree.{kfs_open, kfs_free_dentry}
use ko.Kfs.Files.{get_fmap, kfs_free_fmap, kfs_free_page, kfs_free_inode}

-- The conversion of an int to `u16_t`.
abbrev pub to_u16 : ℤ → ℕ
to_u16 (pos n) = n % 2 ^ 16
to_u16 (negsuc n) = 2 ^ 16 - 1 - n % 2 ^ 16

-- kfs_link with the two dentries.
pub link_dentry : Kfs → ℕ → ℕ → ℕ × Kfs
link_dentry s src_dentry dst_dentry =
    let src_inode = (s.dentry src_dentry).inode in
    let dst_inode = (s.dentry dst_dentry).inode in
    let s1 = set_dentry s dst_dentry (record (s.dentry dst_dentry) { inode = src_inode }) in
    let s2 =
      set_inode s1 src_inode
        (record (s1.inode src_inode) { count = ((s1.inode src_inode).count + 1) % 4 }) in
    (dst_dentry, kfs_free_inode s2 dst_inode)

pub kfs_link : ℕ → Kfs → List ℕ → List ℕ → Run (ℕ × Kfs)
kfs_link fuel s src_name dst_name = kfs_open fuel s src_name >>= λ src.
    kfs_open fuel src.1 dst_name >>= λ dst. done (link_dentry dst.1 (to_u16 src.0) (to_u16 dst.0))

-- The locals `fmap2` and `freemap`, and the page of the round.
pub record Locals : Type 0 where
  pub ppage : ℕ
  pub fmap2 : ℕ
  pub freemap : ℕ

-- The first part of a round: which page, and which maps end with it.
pub unlink_page : Kfs → ℕ → ℕ → ℕ → ℕ → ℕ → ℕ → Locals
unlink_page s inode size fmap1 p fmap2 freemap =
    if ltb p 12
    then record { ppage = (s.inode inode).page p; fmap2 = fmap2; freemap = freemap }
    else if leb size (28 * 2 ^ 12)
    then record {
      ppage = get_fmap s fmap1 (p - 12);
      fmap2 = fmap2;
      freemap = if p == size / 2 ^ 12 then 1 else freemap;
    }
    else (let map2 = get_fmap s fmap1 ((p - 12) / 16) in
        record {
          ppage = get_fmap s map2 ((p - 12) % 16);
          fmap2 = map2;
          freemap = if p == size / 2 ^ 12 then 3 else if (p - 12) % 16 == 15 then 2 else freemap;
        })

-- The loop of kfs_unlink with `rounds` to go.
pub unlink_loop : ℕ → Kfs → ℕ → ℕ → ℕ → ℕ → ℕ → ℕ → Kfs
unlink_loop zero s inode size fmap1 p fmap2 freemap = s
unlink_loop (suc rounds) s inode size fmap1 p fmap2 freemap =
    let l = unlink_page s inode size fmap1 p fmap2 freemap in
    let s1 = kfs_free_page s l.ppage in
    let s2 = if l.freemap % 2 == 1 then kfs_free_fmap s1 (fmap1 % 2 ^ 16) else s1 in
    let s3 = if l.freemap / 2 == 1 then kfs_free_fmap s2 (l.fmap2 % 2 ^ 16) else s2 in
    unlink_loop rounds s3 inode size fmap1 (p + 1) l.fmap2 l.freemap

-- kfs_unlink with the dentry.
pub unlink_dentry : ℕ → Kfs → ℕ → Run Kfs
unlink_dentry fuel s dentry =
    let inode = (s.dentry dentry).inode in
    let size = (s.inode inode).size in
    let fmap1 = (s.inode inode).fmap in
    kfs_free_dentry fuel s dentry >>= λ s1.
    let count = (s1.inode inode).count in
    let s2 = set_inode s1 inode (record (s1.inode inode) { count = (count + 3) % 4 }) in
    done (
      if count == 0
      then kfs_free_inode (unlink_loop ((size + 4095) / 2 ^ 12) s2 inode size fmap1 0 0 0) inode
      else s2)

pub kfs_unlink : ℕ → Kfs → List ℕ → Run (ℤ × Kfs)
kfs_unlink fuel s name =
    kfs_open fuel s name >>= λ r. unlink_dentry fuel r.1 (to_u16 r.0) >>= λ s1. done (pos 0, s1)
