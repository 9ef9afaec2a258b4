-- ===== src/Vfs/Registry.antt =====
-- The types of file systems that are known (fs/vfs.c).
pub mod Law
use ko.Base.{
  ℕ, zero, suc, ◌+◌, Bool, true, false, not, ◌==◌, ◌&&◌, if◌then◌else◌, update, Option, none, some,
  List, [], ◌∷◌,
}
use ko.Base.Int.{ℤ, pos, negsuc}
use ko.Vfs.State.{Vfs, FsType, same_text, einval, eexist, enospc}

-- `VFS_FILESYSTEM_MAX`
abbrev pub vfs_filesystem_max : ℕ
vfs_filesystem_max = 8

abbrev pub is_named : Option (List ℕ) → List ℕ → Bool
is_named none name = false
is_named (some n) name = same_text n name

module _ {M : Type 0} (fs : ℕ → FsType M) where
  -- The loop of vfs_filesystem_get.
  pub get_loop : ℕ → ℕ → (ℕ → ℕ) → List ℕ → ℕ
  get_loop zero i registry name = 0
  get_loop (suc left) i registry name =
      let rest = get_loop left (i + 1) registry name in
      if not (registry i == 0) && is_named (fs (registry i)).name name then registry i else rest

  pub vfs_filesystem_get : Vfs M → Option (List ℕ) → ℕ
  vfs_filesystem_get s none = 0
  vfs_filesystem_get s (some name) = get_loop vfs_filesystem_max 0 s.registry name

  -- The loop of vfs_filesystem_register.
  pub register_loop : ℕ → ℕ → Vfs M → ℕ → ℤ × Vfs M
  register_loop zero i s ops = (enospc, s)
  register_loop (suc left) i s ops =
      let rest = register_loop left (i + 1) s ops in
      if s.registry i == 0 then (pos 0, record s { registry = update s.registry i ops }) else rest

  -- vfs_filesystem_register of a type with the name.
  pub register_named : Vfs M → ℕ → Option (List ℕ) → ℤ × Vfs M
  register_named s ops none = (einval, s)
  register_named s ops (some name) =
      if not (vfs_filesystem_get s (some name) == 0)
      then (eexist, s)
      else register_loop vfs_filesystem_max 0 s ops

  pub vfs_filesystem_register : Vfs M → ℕ → ℤ × Vfs M
  vfs_filesystem_register s ops =
      if ops == 0 then (einval, s) else register_named s ops (fs ops).name
