-- ===== src/Kfs/State.antt =====
-- The tables of a disk in memory (fs/kfs/kfs.c): dentries, inodes, file maps and pages.
use ko.Base.{ℕ, List, [], Bool, true, false, update}
use ko.Kfs.Bitmap.{Bitmap}

-- `enum kfs_type_e`
pub data KfsType : Type 0 where
  kfs_dir : KfsType
  kfs_file : KfsType
  kfs_pipe : KfsType
  kfs_slink : KfsType

-- `kfs_dentry_t`. A name is a text of at most 28 characters; if it has 28 its NUL is the byte `root` of the
-- next dentry.
pub record Dentry : Type 0 where
  pub root : ℕ
  pub next : ℕ
  pub leaf : ℕ
  pub inode : ℕ
  pub name : List ℕ

-- `kfs_inode_t`
pub record Inode : Type 0 where
  pub type : KfsType
  pub mode : ℕ
  pub size : ℕ
  pub count : ℕ
  pub owner : ℕ
  pub mtime : ℕ
  pub page : ℕ → ℕ
  pub fmap : ℕ

-- `kfs_sblock_t` with the tables, the pages of the disk as 1024 words each, and the static `next` of
-- kfs_getname.
pub record Kfs : Type 0 where
  pub bmp_dentry : Bitmap
  pub bmp_inode : Bitmap
  pub bmp_fmap : Bitmap
  pub bmp_page : Bitmap
  pub dentry : ℕ → Dentry
  pub inode : ℕ → Inode
  pub fmap : ℕ → ℕ → ℕ
  pub disk : ℕ → ℕ → ℕ
  pub offset : ℕ → ℕ
  pub next : List ℕ

abbrev pub set_dentry : Kfs → ℕ → Dentry → Kfs
set_dentry s k d = record s { dentry = update s.dentry k d }

abbrev pub set_inode : Kfs → ℕ → Inode → Kfs
set_inode s k i = record s { inode = update s.inode k i }

-- All words 0.
abbrev pub no_dentry : Dentry
no_dentry = record { root = 0; next = 0; leaf = 0; inode = 0; name = [] }

abbrev pub no_inode : Inode
no_inode = record {
  type = kfs_dir;
  mode = 0;
  size = 0;
  count = 0;
  owner = 0;
  mtime = 0;
  page = λ _. 0;
  fmap = 0;
}

abbrev pub is_dir : KfsType → Bool
is_dir kfs_dir = true
is_dir kfs_file = false
is_dir kfs_pipe = false
is_dir kfs_slink = false
