-- ===== src/Vfs/Kern.antt =====
-- Mounting (fs/vfs.c): the superblock, the functions of the file system and the table together. A call of a
-- function that is NULL is `panic`; kmalloc is the address that it returns.
pub mod Enter
use ko.Base.{
  ℕ, Bool, true, false, not, ◌==◌, ◌||◌, ◌&&◌, if◌then◌else◌, Option, none, some, List, [], ◌∷◌,
}
use ko.Base.Run.{Run, done, panic, ◌>>=◌}
use ko.Base.Int.{ℤ, pos, negsuc}
use ko.Vfs.State.{
  Vfs, Superblock, FsType, set_superblock, einval, eexist, enomem, enodev, is_negative,
}
use ko.Vfs.Registry.{vfs_filesystem_register}
use ko.Vfs.Mount.{vfs_mount_register, vfs_mount_unregister}
use ko.Vfs.Files.{vfs_resolve}

abbrev pub is_missing {ℓ} : {A : Type ℓ} → Option A → Bool
is_missing none = true
is_missing (some a) = false

abbrev pub is_zero : ℤ → Bool
is_zero (pos n) = n == 0
is_zero (negsuc n) = false

abbrev pub is_eexist : ℤ → Bool
is_eexist (pos n) = false
is_eexist (negsuc n) = n == 4

module _ {M : Type 0} (fs : ℕ → FsType M) where
  pub vfs_superblock_alloc : Vfs M → ℕ → ℕ × Vfs M
  vfs_superblock_alloc s new =
      if new == 0
      then (0, s)
      else (new, set_superblock s new (record (s.superblock new) { mnt_id = negsuc 0 }))

  -- vfs_kern_mount with arguments that are not NULL.
  pub call_mount : Vfs M → ℕ → ℕ → ℕ → Run (ℤ × Vfs M)
  call_mount s sb bdev ops =
      let s1 =
        set_superblock s sb (record (s.superblock sb) { ops = ops; bdev = bdev; fs_data = 0 }) in
      elim ((fs ops).mount) [ none ↦ panic | some mount ↦ done (mount sb bdev s1) ]

  pub vfs_kern_mount : Vfs M → ℕ → ℕ → ℕ → Run (ℤ × Vfs M)
  vfs_kern_mount s sb bdev ops =
      if sb == 0 || (bdev == 0 || ops == 0) then done (einval, s) else call_mount s sb bdev ops

  pub call_unmount : Vfs M → ℕ → Run (ℤ × Vfs M)
  call_unmount s sb = elim ((fs (s.superblock sb).ops).unmount) [
    | none ↦ panic
    | some unmount ↦ done (unmount sb s)
  ]

  pub vfs_kern_unmount : Vfs M → ℕ → Run (ℤ × Vfs M)
  vfs_kern_unmount s sb =
      if sb == 0 || ((s.superblock sb).ops == 0 || is_missing (fs (s.superblock sb).ops).mount)
      then done (einval, s)
      else call_unmount s sb

  -- vfs_mount after vfs_mount_register.
  pub or_undo : ℕ → ℤ × Vfs M → Run (ℤ × Vfs M)
  or_undo sb (ret, s) =
      if is_negative ret then (vfs_kern_unmount s sb >>= λ r. done (ret, r.1)) else done (ret, s)

  -- vfs_mount after vfs_kern_mount.
  pub enter : List ℕ → ℕ → ℕ → ℤ × Vfs M → Run (ℤ × Vfs M)
  enter path inode sb (ret, s) =
      if is_negative ret then done (ret, s) else or_undo sb (vfs_mount_register s path inode sb)

  pub vfs_mount : Vfs M → List ℕ → ℕ → ℕ → ℕ → Run (ℤ × Vfs M)
  vfs_mount s path sb bdev ops = vfs_resolve fs s 0 (some path) >>= λ (inode, s1).
      vfs_kern_mount s1 sb bdev ops >>= enter path inode sb

  pub vfs_umount : Vfs M → Option (List ℕ) → Run (ℤ × Vfs M)
  vfs_umount s path = vfs_mount_unregister s path >>= λ (sb, s1). vfs_kern_unmount s1 sb

  -- vfs_init after vfs_filesystem_register; `bdev` is what blockdev_get returns, `icache` what
  -- vfs_icache_init returns.
  pub init_root : ℕ → ℕ → ℤ → ℕ → ℤ × Vfs M → Run (ℤ × Vfs M)
  init_root new bdev icache fs1_ops (err, s) =
      if not (is_zero err) && not (is_eexist err)
      then done (err, s)
      else (let (sb, s1) = vfs_superblock_alloc s new in
          if sb == 0
          then done (enomem, s1)
          else if bdev == 0
          then done (enodev, s1)
          else (vfs_mount s1 (b'/' ∷ []) sb bdev fs1_ops >>= λ (err, s2).
              done (if not (is_zero err) then err else icache, s2)))

  pub vfs_init : Vfs M → ℕ → ℕ → ℤ → ℕ → Run (ℤ × Vfs M)
  vfs_init s new bdev icache fs1_ops =
      init_root new bdev icache fs1_ops (vfs_filesystem_register fs s fs1_ops)
