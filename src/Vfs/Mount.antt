-- ===== src/Vfs/Mount.antt =====
-- The table of the mounted file systems (fs/vfs.c). kstrdup gives a copy of the path, or panics.
pub mod Table
pub mod Put
pub mod Register
pub mod Unregister
pub mod Lookup
pub mod Resolve
use ko.Base.{
  ℕ, zero, suc, ◌+◌, ◌-◌, Bool, true, false, not, ◌==◌, ◌&&◌, ◌||◌, ltb, leb, if◌then◌else◌, update,
  Option, none, some, List, [], ◌∷◌, length,
}
use ko.Base.Run.{Run, done, panic, ◌>>=◌}
use ko.Base.Int.{ℤ, pos, negsuc}
use ko.Vfs.State.{Vfs, MountPoint, set_superblock, same_text, enospc, enoent, is_negative}
use ko.Vfs.Registry.{vfs_filesystem_max}

abbrev pub is_null : Option (List ℕ) → Bool
is_null none = true
is_null (some p) = false

-- `path[0] == '/'`
abbrev pub is_absolute : List ℕ → Bool
is_absolute [] = false
is_absolute (c ∷ cs) = c == b'/'

-- `strncmp (path, mnt, strlen (mnt)) == 0` and then `path[len]` is a slash or the end.
abbrev pub is_below : List ℕ → List ℕ → Bool
is_below [] [] = true
is_below (c ∷ cs) [] = c == b'/'
is_below [] (d ∷ ds) = false
is_below (c ∷ cs) (d ∷ ds) = (c == d) && is_below cs ds

module _ {M : Type 0} where
  pub vfs_mount_path_get : Vfs M → ℕ → Option (List ℕ)
  vfs_mount_path_get s id = if ltb id s.mount_max then (s.mount_table id).path else none

  pub vfs_mount_path_set : Vfs M → ℕ → Option (List ℕ) → Vfs M
  vfs_mount_path_set s id path =
      if ltb id s.mount_max
      then record s {
        mount_table = update s.mount_table id (record (s.mount_table id) { path = path });
      }
      else s

  pub vfs_mount_inode_get : Vfs M → ℕ → ℕ
  vfs_mount_inode_get s id = if ltb id s.mount_max then (s.mount_table id).inode else 0

  pub vfs_mount_inode_set : Vfs M → ℕ → ℕ → Vfs M
  vfs_mount_inode_set s id inode =
      if ltb id s.mount_max
      then record s {
        mount_table = update s.mount_table id (record (s.mount_table id) { inode = inode });
      }
      else s

  pub vfs_mount_sb_get : Vfs M → ℕ → ℕ
  vfs_mount_sb_get s id = if ltb id s.mount_max then (s.mount_table id).sb else 0

  pub vfs_mount_sb_set : Vfs M → ℕ → ℕ → Vfs M
  vfs_mount_sb_set s id sb =
      if ltb id s.mount_max
      then record s {
        mount_table = update s.mount_table id (record (s.mount_table id) { sb = sb });
      }
      else s

  -- The loop of vfs_mount_update_max: the places up to the last that is in use, of the first `n`.
  pub last_used : Vfs M → ℕ → ℕ
  last_used s zero = 0
  last_used s (suc i) =
      let rest = last_used s i in if is_null (s.mount_table i).path then rest else suc i

  pub vfs_mount_update_max : Vfs M → ℕ → Vfs M
  vfs_mount_update_max s id =
      if leb s.mount_max id
      then record s { mount_max = id + 1 }
      else record s { mount_max = last_used s s.mount_max }

  -- The loop of vfs_mount_alloc.
  pub mount_alloc_loop : ℕ → ℕ → Vfs M → ℤ × Vfs M
  mount_alloc_loop zero id s = (enospc, s)
  mount_alloc_loop (suc left) id s =
      let rest = mount_alloc_loop left (id + 1) s in
      if is_null (vfs_mount_path_get s id) then (pos id, vfs_mount_update_max s id) else rest

  pub vfs_mount_alloc : Vfs M → ℤ × Vfs M
  vfs_mount_alloc s = mount_alloc_loop vfs_filesystem_max 0 s

  -- vfs_mount_register with the place.
  pub register_at : List ℕ → ℕ → ℕ → ℤ × Vfs M → ℤ × Vfs M
  register_at path inode sb (negsuc n, s) = (enospc, s)
  register_at path inode sb (pos id, s) =
      let s1 = set_superblock s sb (record (s.superblock sb) { mnt_id = pos id }) in
      let s2 = vfs_mount_path_set s1 id (some path) in
      let s3 = vfs_mount_inode_set s2 id inode in (pos id, vfs_mount_sb_set s3 id sb)

  pub vfs_mount_register : Vfs M → List ℕ → ℕ → ℕ → ℤ × Vfs M
  vfs_mount_register s path inode sb = register_at path inode sb (vfs_mount_alloc s)

  -- The loop of vfs_mount_lookup. For a place without a path strcmp reads through NULL, which is `panic`.
  pub lookup_loop : ℕ → ℕ → Vfs M → List ℕ → Run ℤ
  lookup_loop zero id s path = done enoent
  lookup_loop (suc left) id s path =
      let rest = lookup_loop left (id + 1) s path in
      elim (vfs_mount_path_get s id) [
        | none ↦ panic
        | some curpath ↦ if same_text path curpath then done (pos id) else rest
      ]

  pub vfs_mount_lookup : Vfs M → Option (List ℕ) → Run ℤ
  vfs_mount_lookup s none = done enoent
  vfs_mount_lookup s (some path) = lookup_loop s.mount_max 0 s path

  -- vfs_mount_unregister with the place.
  pub unregister_at : Vfs M → ℤ → ℕ × Vfs M
  unregister_at s (negsuc n) = (0, s)
  unregister_at s (pos id) =
      let sb = vfs_mount_sb_get s id in
      let s1 = vfs_mount_path_set s id none in
      let s2 = vfs_mount_inode_set s1 id 0 in
      let s3 = vfs_mount_sb_set s2 id 0 in
      let s4 = vfs_mount_update_max s3 id in
      (sb, set_superblock s4 sb (record (s4.superblock sb) { mnt_id = negsuc 0 }))

  pub vfs_mount_unregister : Vfs M → Option (List ℕ) → Run (ℕ × Vfs M)
  vfs_mount_unregister s path = vfs_mount_lookup s path >>= λ id. done (unregister_at s id)

  -- The loop of vfs_mount_resolve: `best_len` is the length of the best path so far and 1, or 0.
  unfoldable pub resolve_loop : ℕ → ℕ → Vfs M → List ℕ → ℕ → ℕ → ℕ
  resolve_loop zero id s path best_sb best_len = best_sb
  resolve_loop (suc left) id s path best_sb best_len = elim (vfs_mount_path_get s id) [
    | none ↦ resolve_loop left (id + 1) s path best_sb best_len
    | some mnt ↦
        let sb = vfs_mount_sb_get s id in
        let better = not (sb == 0) && ltb best_len (length mnt + 1) && is_below path mnt in
        resolve_loop left (id + 1) s path (if better then sb else best_sb)
          (if better then length mnt + 1 else best_len)
  ]

  unfoldable pub vfs_mount_resolve : Vfs M → Option (List ℕ) → ℕ
  vfs_mount_resolve s none = 0
  vfs_mount_resolve s (some path) =
      if is_absolute path then resolve_loop s.mount_max 0 s path 0 0 else 0
