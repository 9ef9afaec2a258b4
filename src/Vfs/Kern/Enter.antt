-- ===== src/Vfs/Kern/Enter.antt =====
-- A file system that was mounted enters the table or is unmounted again.
use ko.Base.{
  ℕ, ◌<◌, ◌≡◌, ◌≢◌, ◌⊎◌, refl, sym, ap, ◌∙◌, true, false, ◌==◌, if◌then◌else◌, arith, inl, inr,
  some, List,
}
use ko.Base.Run.{done, Returns, Returns-weaken}
use ko.Base.Int.{ℤ, pos, negsuc}
use ko.Vfs.State.{Vfs, FsType, set_superblock, is_negative, enospc}
use ko.Vfs.Registry.{vfs_filesystem_max}
use ko.Vfs.Mount.{is_null}
use ko.Vfs.Mount.Table.{mounted, IsTable}
use ko.Vfs.Mount.Register.{vfs_mount_register-IsMounted}
use ko.Vfs.Files.{vfs_resolve}
use ko.Vfs.Kern.{
  vfs_kern_mount, call_mount, vfs_mount, is_missing, vfs_kern_unmount, call_unmount, or_undo, enter,
}

module _ {M : Type 0} (fs : ℕ → FsType M) where
  -- The file system is at the first place that was empty; or all places are in use, and it was unmounted again.
  abbrev pub IsEntered : Vfs M → List ℕ → ℕ → ℕ → (ℕ → Vfs M → ℤ × Vfs M) → ℤ × Vfs M → Type 0
  IsEntered s path inode sb unmount (r, s') =
      ((id : ℕ) × (r ≡ pos id)
        × (is_null (mounted s id).path ≡ true)
        × ((k : ℕ) → k < id → is_null (mounted s k).path ≡ false)
        × ((q : ℕ)
            → mounted s' q ≡ (
                if q == id
                then record { path = some path; inode = inode; sb = sb }
                else mounted s q))
        × ((s'.superblock sb).mnt_id ≡ pos id)
        × IsTable s')
      ⊎ (r ≡ enospc)
        × ((id : ℕ) → id < vfs_filesystem_max → is_null (mounted s id).path ≡ false)
        × (s' ≡ (unmount sb s).1)

  called :
      (s : Vfs M) (sb : ℕ) (unmount : ℕ → Vfs M → ℤ × Vfs M)
      → (fs (s.superblock sb).ops).unmount ≡ some unmount
      → call_unmount fs s sb ≡ done (unmount sb s)
  unfolding call_unmount
  called s sb unmount u = rw (u, call_unmount) refl

  undone :
      (s : Vfs M) (sb : ℕ) (unmount : ℕ → Vfs M → ℤ × Vfs M)
      → sb ≢ 0
      → (s.superblock sb).ops ≢ 0
      → is_missing (fs (s.superblock sb).ops).mount ≡ false
      → (fs (s.superblock sb).ops).unmount ≡ some unmount
      → vfs_kern_unmount fs s sb ≡ done (unmount sb s)
  unfolding vfs_kern_unmount
  undone s sb unmount n o m u =
      let a : sb == 0 ≡ false = ground arith in
      let b : (s.superblock sb).ops == 0 ≡ false = ground arith in
      rw (a, b, m) (called s sb unmount u)

  -- What vfs_mount does after the file system has been mounted.
  enter-IsEntered :
      (s : Vfs M) (path : List ℕ) (inode sb n : ℕ) (unmount : ℕ → Vfs M → ℤ × Vfs M)
      → IsTable s
      → sb ≢ 0
      → (s.superblock sb).ops ≢ 0
      → is_missing (fs (s.superblock sb).ops).mount ≡ false
      → (fs (s.superblock sb).ops).unmount ≡ some unmount
      → Returns (IsEntered s path inode sb unmount) (enter fs path inode sb (pos n, s))
  unfolding enter or_undo
  enter-IsEntered s path inode sb n unmount t ns os nm u =
      elim (vfs_mount_register-IsMounted s path inode sb t) [
        | inl (id, r, few, z, h, q, m, t') ↦ rw r (inl (id, refl, z, h, q, m, t'))
        | inr (r, full, same) ↦
            rw (r, same, undone s sb unmount ns os nm u) (inr (refl, full, refl))
      ]

  call-mounted :
      (s : Vfs M) (sb bdev ops : ℕ) (mount : ℕ → ℕ → Vfs M → ℤ × Vfs M)
      → (fs ops).mount ≡ some mount
      → call_mount fs s sb bdev ops
        ≡ done (
            mount sb bdev (
              set_superblock s sb
                (record (s.superblock sb) { ops = ops; bdev = bdev; fs_data = 0 })))
  unfolding call_mount
  call-mounted s sb bdev ops mount m = rw (m, call_mount) refl

  kern_mount-mounted :
      (s : Vfs M) (sb bdev ops : ℕ) (mount : ℕ → ℕ → Vfs M → ℤ × Vfs M)
      → sb ≢ 0
      → bdev ≢ 0
      → ops ≢ 0
      → (fs ops).mount ≡ some mount
      → vfs_kern_mount fs s sb bdev ops
        ≡ done (
            mount sb bdev (
              set_superblock s sb
                (record (s.superblock sb) { ops = ops; bdev = bdev; fs_data = 0 })))
  unfolding vfs_kern_mount
  kern_mount-mounted s sb bdev ops mount n b o m =
      let x : sb == 0 ≡ false = ground arith in
      let y : bdev == 0 ≡ false = ground arith in
      let z : ops == 0 ≡ false = ground arith in rw (x, y, z) (call-mounted s sb bdev ops mount m)

  -- The file system has refused, with the result `r`; or it is in the table or unmounted again.
  abbrev pub IsTried : ℤ → Vfs M → List ℕ → ℕ → ℕ → (ℕ → Vfs M → ℤ × Vfs M) → ℤ × Vfs M → Type 0
  IsTried r s path inode sb unmount q =
      (is_negative r ≡ true) × (q ≡ (r, s))
      ⊎ (is_negative r ≡ false) × IsEntered s path inode sb unmount q

  tried :
      (r : ℤ) (s : Vfs M) (path : List ℕ) (inode sb : ℕ) (unmount : ℕ → Vfs M → ℤ × Vfs M)
      → IsTable s
      → sb ≢ 0
      → (s.superblock sb).ops ≢ 0
      → is_missing (fs (s.superblock sb).ops).mount ≡ false
      → (fs (s.superblock sb).ops).unmount ≡ some unmount
      → Returns (IsTried r s path inode sb unmount) (enter fs path inode sb (r, s))
  unfolding enter
  tried (negsuc n) s path inode sb unmount t ns os nm u = inl (refl, refl)
  tried (pos n) s path inode sb unmount t ns os nm u =
      Returns-weaken (IsEntered s path inode sb unmount) (IsTried (pos n) s path inode sb unmount)
        (enter fs path inode sb (pos n, s)) (enter-IsEntered s path inode sb n unmount t ns os nm u)
        (λ q h. inr (refl, h))

  -- vfs_mount, when the path was looked up and `mount` of the file system then returns `r` and leaves the table
  -- well-formed and the superblock with its operations: if `r` is negative that is the result. If not,
  -- vfs_mount returns the number of the first empty place, where the file system now is in the table, with
  -- its path and the inode below it, and changes no other place; or all 8 places are in use, it returns -ENOSPC, and `unmount`
  -- of the file system has been called.
  pub vfs_mount-IsTried :
      (s s1 s2 : Vfs M) (path : List ℕ) (inode sb bdev ops : ℕ) (r : ℤ)
      (mount : ℕ → ℕ → Vfs M → ℤ × Vfs M) (unmount : ℕ → Vfs M → ℤ × Vfs M)
      → vfs_resolve fs s 0 (some path) ≡ done (inode, s1)
      → sb ≢ 0
      → bdev ≢ 0
      → ops ≢ 0
      → (fs ops).mount ≡ some mount
      → (fs ops).unmount ≡ some unmount
      → mount sb bdev
          (set_superblock s1 sb (record (s1.superblock sb) { ops = ops; bdev = bdev; fs_data = 0 }))
        ≡ (r, s2)
      → (s2.superblock sb).ops ≡ ops
      → IsTable s2
      → Returns (IsTried r s2 path inode sb unmount) (vfs_mount fs s path sb bdev ops)
  unfolding vfs_mount
  vfs_mount-IsTried s s1 s2 path inode sb bdev ops r mount unmount e ns nb os m u f g t =
      let k : vfs_kern_mount fs s1 sb bdev ops ≡ done (r, s2) =
        kern_mount-mounted s1 sb bdev ops mount ns nb os m ∙ ap done f in
      let some_mount : is_missing (fs (s2.superblock sb).ops).mount ≡ false =
        ap (λ o. is_missing (fs o).mount) g ∙ ap is_missing m in
      rw (e, k)
        (tried r s2 path inode sb unmount t ns (λ z. os (sym g ∙ z)) some_mount
          (ap (λ o. (fs o).unmount) g ∙ u))
