-- ===== src/Vfs/State.antt =====
-- The tables of fs/vfs.c and the structures of fs/vfs.h. A pointer is an address, 0 for NULL; `M` is what
-- the functions of a file system change besides.
use ko.Base.{ℕ, ◌-◌, ◌%◌, ◌^◌, Bool, true, false, ◌==◌, ◌&&◌, update, Option, List, [], ◌∷◌}
use ko.Base.Int.{ℤ, pos, negsuc}

-- `superblock_t`
pub record Superblock : Type 0 where
  pub bdev : ℕ
  pub mnt_id : ℤ
  pub ops : ℕ
  pub root : ℕ
  pub fs_data : ℕ

-- `vfs_inode_t`, without its links; `fs_data` is its `data`.
pub record Inode : Type 0 where
  pub sb : ℕ
  pub ino : ℕ
  pub size : ℕ
  pub mode : ℕ
  pub refcount : ℕ
  pub flags : ℕ
  pub fs_data : ℕ
  pub mapping : ℕ
  pub dentries : ℕ

-- `vfs_file_t`
pub record File : Type 0 where
  pub inode : ℕ
  pub offset : ℕ

-- `struct mount_point_s`
pub record MountPoint : Type 0 where
  pub path : Option (List ℕ)
  pub inode : ℕ
  pub sb : ℕ

-- The global variables, and what the pointers point to. `icache_lru` is the sequence of the inodes in
-- the list of that name, and `none` where the links of the list are no ring any more.
pub record Vfs (M : Type 0) : Type 0 where
  pub registry : ℕ → ℕ
  pub mount_table : ℕ → MountPoint
  pub mount_max : ℕ
  pub superblock : ℕ → Superblock
  pub inode : ℕ → Inode
  pub file : ℕ → File
  pub icache_lru : Option (List ℕ)
  pub memory : M

-- `vfs_fs_type_t`: the functions that this file calls.
pub record FsType (M : Type 0) : Type 0 where
  pub name : Option (List ℕ)
  pub mount : Option (ℕ → ℕ → Vfs M → ℤ × Vfs M)
  pub unmount : Option (ℕ → Vfs M → ℤ × Vfs M)
  pub lookup : Option (ℕ → ℕ → List ℕ → Vfs M → ℕ × Vfs M)
  pub read : Option (ℕ → ℕ → ℕ → ℕ → Vfs M → ℤ × Vfs M)

abbrev pub eexist : ℤ
eexist = negsuc 4

abbrev pub einval : ℤ
einval = negsuc 6

abbrev pub enomem : ℤ
enomem = negsuc 9

abbrev pub enospc : ℤ
enospc = negsuc 12

abbrev pub enoent : ℤ
enoent = negsuc 15

abbrev pub enodev : ℤ
enodev = negsuc 18

abbrev pub is_negative : ℤ → Bool
is_negative (pos n) = false
is_negative (negsuc n) = true

-- `strcmp (a, b) == 0`
abbrev pub same_text : List ℕ → List ℕ → Bool
same_text [] [] = true
same_text [] (d ∷ ds) = false
same_text (c ∷ cs) [] = false
same_text (c ∷ cs) (d ∷ ds) = (c == d) && same_text cs ds

-- An int as an unsigned number of 32 bits.
abbrev pub to_u32 : ℤ → ℕ
to_u32 (pos n) = n % 2 ^ 32
to_u32 (negsuc n) = 2 ^ 32 - 1 - n % 2 ^ 32

module _ {M : Type 0} where
  abbrev pub set_superblock : Vfs M → ℕ → Superblock → Vfs M
  set_superblock s k sb = record s { superblock = update s.superblock k sb }

  abbrev pub set_inode : Vfs M → ℕ → Inode → Vfs M
  set_inode s k i = record s { inode = update s.inode k i }

  abbrev pub set_file : Vfs M → ℕ → File → Vfs M
  set_file s k f = record s { file = update s.file k f }
