-- ===== src/Vfs/Mount/Put.antt =====
-- The accessors that write a place, together.
use ko.Base.{
  ℕ, ◌≡◌, refl, ap, ◌∙◌, true, ◌==◌, ltb, arith, Bool-cases, inl, inr, update, fun_ext, Option,
  some, List,
}
use ko.Base.Int.{pos}
use ko.Vfs.State.{Vfs, MountPoint, set_superblock}
use ko.Vfs.Mount.{vfs_mount_path_set, vfs_mount_inode_set, vfs_mount_sb_set, register_at}

module _ {M : Type 0} where
  abbrev pub put : Vfs M → ℕ → MountPoint → Vfs M
  put s id m = record s { mount_table = update s.mount_table id m }

  set_path :
      (s : Vfs M) (id : ℕ) (path : Option (List ℕ))
      → ltb id s.mount_max ≡ true
      → vfs_mount_path_set s id path ≡ put s id (record (s.mount_table id) { path = path })
  unfolding vfs_mount_path_set
  set_path s id path e = rw e refl

  set_inode :
      (s : Vfs M) (id inode : ℕ)
      → ltb id s.mount_max ≡ true
      → vfs_mount_inode_set s id inode ≡ put s id (record (s.mount_table id) { inode = inode })
  unfolding vfs_mount_inode_set
  set_inode s id inode e = rw e refl

  set_sb :
      (s : Vfs M) (id sb : ℕ)
      → ltb id s.mount_max ≡ true
      → vfs_mount_sb_set s id sb ≡ put s id (record (s.mount_table id) { sb = sb })
  unfolding vfs_mount_sb_set
  set_sb s id sb e = rw e refl

  -- The three setters together.
  pub set_all :
      (s : Vfs M) (id inode sb : ℕ) (path : Option (List ℕ))
      → ltb id s.mount_max ≡ true
      → vfs_mount_sb_set (vfs_mount_inode_set (vfs_mount_path_set s id path) id inode) id sb
        ≡ put s id (record { path = path; inode = inode; sb = sb })
  set_all s id inode sb path e =
      let m = s.mount_table id in
      ap (λ z. vfs_mount_sb_set (vfs_mount_inode_set z id inode) id sb) (set_path s id path e)
      ∙ ap (λ z. vfs_mount_sb_set z id sb)
          (set_inode (put s id (record m { path = path })) id inode e)
      ∙ set_sb
          (put (put s id (record m { path = path })) id
            (record (update s.mount_table id (record m { path = path }) id) { inode = inode }))
          id sb e
      ∙ ap (λ t. record s { mount_table = t }) (fun_ext point)
    where
      m : MountPoint
      m = s.mount_table id

      t1 : ℕ → MountPoint
      t1 = update s.mount_table id (record m { path = path })

      t2 : ℕ → MountPoint
      t2 = update t1 id (record (t1 id) { inode = inode })

      point :
          (q : ℕ)
          → update t2 id (record (t2 id) { sb = sb }) q
            ≡ update s.mount_table id (record { path = path; inode = inode; sb = sb }) q
      point q =
          let r : id == id ≡ true = ground arith in
          elim (Bool-cases (q == id)) [ inl f ↦ rw (f, r) refl | inr f ↦ rw f refl ]

  pub register_at-put :
      (path : List ℕ) (inode sb id : ℕ) (s : Vfs M)
      → ltb id s.mount_max ≡ true
      → register_at path inode sb (pos id, s) ≡ (
        pos id,
        put
            (set_superblock s sb (record (s.superblock sb) { mnt_id = pos id }))
            id
            (record { path = some path; inode = inode; sb = sb }),
      )
  unfolding register_at
  register_at-put path inode sb id s e =
      ap (λ z. (pos id, z))
        (set_all (set_superblock s sb (record (s.superblock sb) { mnt_id = pos id })) id inode sb
          (some path) e)
