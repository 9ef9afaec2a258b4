-- ===== src/Vfs/Tests.antt =====
-- A file system that mounts without doing anything, and an empty mount table.
use ko.Base.{ltb, ◌≡◌, true, ℕ, refl, arith, false≢true, none, some, List, [], ◌∷◌}
use ko.Base.Run.{done, Returns, ◌>>=◌}
use ko.Base.Int.{ℤ, pos, negsuc}
use ko.Vfs.State.{set_superblock, Vfs, FsType, Inode}
use ko.Vfs.Registry.{vfs_filesystem_register}
use ko.Vfs.Registry.Law.{IsRegistered, vfs_filesystem_register-IsRegistered}
use ko.Vfs.Mount.{vfs_mount_register, vfs_mount_resolve, resolve_loop, vfs_mount_unregister}
use ko.Vfs.Mount.Table.{IsTable, no_mount}
use ko.Vfs.Mount.Register.{IsMounted, vfs_mount_register-IsMounted}
use ko.Vfs.Mount.Resolve.{IsResolved, vfs_mount_resolve-IsResolved}
use ko.Vfs.Files.{vfs_open, walk, vfs_close, vfs_resolve}
use ko.Vfs.Files.Counts.{IsClosed, vfs_close-vfs_open}
use ko.Vfs.Mount.Lookup.{HasNoHole, IsLeft, vfs_mount_unregister-IsLeft}
use ko.Vfs.Kern.{vfs_mount}
use ko.Vfs.Kern.Enter.{IsTried, vfs_mount-IsTried}
use ko.Vfs.Split.{strsplit, split_loop, skip_delimiters, token, behind_token}

abbrev call : ℕ → Vfs Unit → ℤ × Vfs Unit
call sb s = (pos 0, s)

abbrev fs1_name : List ℕ
fs1_name = b'f' ∷ b's' ∷ b'1' ∷ []

abbrev fs : ℕ → FsType Unit
fs k = record {
  name = some fs1_name;
  mount = some (λ sb bdev s. (pos 0, s));
  unmount = some call;
  lookup = none;
  read = none;
}

abbrev inode_0 : Inode
inode_0 = record {
  sb = 0;
  ino = 0;
  size = 0;
  mode = 0;
  refcount = 0;
  flags = 0;
  fs_data = 0;
  mapping = 0;
  dentries = 0;
}

abbrev start : Vfs Unit
start = record {
  registry = λ k. 0;
  mount_table = λ k. no_mount;
  mount_max = 0;
  superblock = λ k. record { bdev = 0; mnt_id = negsuc 0; ops = 1; root = 0; fs_data = 0 };
  inode = λ k. inode_0;
  file = λ k. record { inode = 0; offset = 0 };
  icache_lru = some [];
  memory = tt;
}

start-IsTable : IsTable start
start-IsTable = record {
  few = omega arith;
  holes = λ id l. absurd (omega (arith, l));
  last = λ l. absurd (omega (arith, l));
}

abbrev mnt : List ℕ
mnt = b'/' ∷ b'm' ∷ []

-- With a file system below /m.
abbrev one : Vfs Unit
one = record start {
  mount_table = λ k. record { path = some mnt; inode = 5; sb = 6 };
  mount_max = 1;
}

one-IsTable : IsTable one
one-IsTable = record {
  few = omega arith;
  holes = λ id l z. absurd (false≢true z);
  last = λ l. refl;
}

vfs_filesystem_register-IsRegistered_example :
    IsRegistered fs start 1 fs1_name (vfs_filesystem_register fs start 1)
vfs_filesystem_register-IsRegistered_example =
    vfs_filesystem_register-IsRegistered fs start 1 fs1_name (λ z. omega (arith, z)) refl

vfs_mount_register-IsMounted_example : IsMounted one mnt 7 8 (vfs_mount_register one mnt 7 8)
vfs_mount_register-IsMounted_example = vfs_mount_register-IsMounted one mnt 7 8 one-IsTable

abbrev below : List ℕ
below = b'/' ∷ b'm' ∷ b'/' ∷ b'a' ∷ []

vfs_mount_resolve-IsResolved_example : IsResolved one below (vfs_mount_resolve one (some below))
vfs_mount_resolve-IsResolved_example = vfs_mount_resolve-IsResolved one below refl

one-HasNoHole : HasNoHole one
one-HasNoHole id l = let e : ltb id 1 ≡ true = ground arith in rw e refl

vfs_mount_unregister-IsLeft_example : Returns (IsLeft one mnt) (vfs_mount_unregister one (some mnt))
vfs_mount_unregister-IsLeft_example = vfs_mount_unregister-IsLeft one mnt one-IsTable one-HasNoHole

-- Nothing is mounted, so no inode is below the path.
not_found : vfs_resolve fs start 0 (some mnt) ≡ done (0, start)
unfolding vfs_resolve strsplit split_loop skip_delimiters token behind_token vfs_mount_resolve
    resolve_loop
not_found = refl

abbrev mounting : Vfs Unit
mounting = set_superblock start 8 (record (start.superblock 8) { ops = 1; bdev = 7; fs_data = 0 })

mounting-IsTable : IsTable mounting
mounting-IsTable = record {
  few = omega arith;
  holes = λ id l. absurd (omega (arith, l));
  last = λ l. absurd (omega (arith, l));
}

vfs_mount-IsTried_example :
    Returns (IsTried fs (pos 0) mounting mnt 0 8 call) (vfs_mount fs start mnt 8 7 1)
vfs_mount-IsTried_example =
    vfs_mount-IsTried fs start start mounting mnt 0 8 7 1 (pos 0) (λ sb bdev s. (pos 0, s)) call
      not_found (λ z. omega (arith, z)) (λ z. omega (arith, z)) (λ z. omega (arith, z)) refl refl
      refl refl mounting-IsTable

-- The path `.` leads to where it begins.
here : vfs_resolve fs start 3 (some (b'.' ∷ [])) ≡ done (3, start)
unfolding vfs_resolve strsplit split_loop skip_delimiters token behind_token walk
here = refl

vfs_close-vfs_open_example :
    Returns
      (IsClosed fs start 3 [])
      (vfs_open fs start 3 (some (b'.' ∷ [])) 4 >>= λ r. vfs_close r.1 r.0)
vfs_close-vfs_open_example =
    vfs_close-vfs_open fs start start 3 3 4 (some (b'.' ∷ [])) [] here (λ z. omega (arith, z))
      (λ z. omega (arith, z)) (omega arith) refl (λ z. refl)
