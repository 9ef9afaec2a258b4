-- ===== src/Vfs/Files.antt =====
-- Inodes, files and paths (fs/vfs.c). The list icache_lru is a sequence, as DList/Ops allows, and `none`
-- where its links are no ring any more; kmalloc is the address that it returns.
pub mod Counts
use ko.Base.{
  ℕ, zero, suc, ◌+◌, ◌-◌, ◌%◌, ◌^◌, Bool, true, false, not, ◌==◌, ◌&&◌, ◌||◌, ltb, if◌then◌else◌,
  update, Option, none, some, List, [], ◌∷◌, has,
}
use ko.Base.Run.{Run, done, panic, out_of_fuel, ◌>>=◌}
use ko.Base.Int.{ℤ, pos, negsuc}
use ko.Vfs.State.{Vfs, Inode, File, FsType, set_inode, set_file, einval, to_u32, same_text}
use ko.Vfs.Mount.{vfs_mount_inode_get, vfs_mount_sb_get, vfs_mount_resolve, is_absolute}
use ko.Vfs.Split.{strsplit}

abbrev pub take : ℕ → List ℕ → List ℕ
take zero cs = []
take (suc n) [] = []
take (suc n) (c ∷ cs) = c ∷ take n cs

-- `list_addfirst (&Vfs_icache_lru, &inode->list)`. An inode that is in the list already gets other links
-- while its old neighbours still point to it: what is left is no ring.
pub add_lru : ℕ → Option (List ℕ) → Option (List ℕ)
add_lru inode none = none
add_lru inode (some lru) = if has inode lru then none else some (inode ∷ lru)

module _ {M : Type 0} where
  pub vfs_inode_create : Vfs M → ℕ → ℕ → ℕ → ℕ → ℕ → ℕ → ℕ × Vfs M
  vfs_inode_create s new sb ino size mode fs_data = if new == 0 then (0, s) else (
    new,
    set_inode s new (record {
      sb = sb;
      ino = ino;
      size = size;
      mode = mode;
      refcount = 1;
      flags = 0;
      fs_data = fs_data;
      mapping = 0;
      dentries = 0;
    }),
  )

  pub vfs_inode_get : Vfs M → ℕ → Vfs M
  vfs_inode_get s inode =
      set_inode s inode
        (record (s.inode inode) { refcount = ((s.inode inode).refcount + 1) % 2 ^ 32 })

  pub vfs_inode_release : Vfs M → ℕ → Run (Vfs M)
  unfolding add_lru
  vfs_inode_release s inode =
      let count = (s.inode inode).refcount in
      if inode == 0
      then done s
      else if count == 0
      then panic
      else (let s1 = set_inode s inode (record (s.inode inode) { refcount = count - 1 }) in
          done
            (if count - 1 == 0 then record s1 { icache_lru = add_lru inode s1.icache_lru } else s1))

  -- The loop of vfs_resolve over the mount table: the superblock that is mounted on the inode.
  pub crossing_loop : ℕ → ℕ → Vfs M → ℕ → Option ℕ
  crossing_loop zero id s inode = none
  crossing_loop (suc left) id s inode =
      let rest = crossing_loop left (id + 1) s inode in
      let mnt_sb = vfs_mount_sb_get s id in
      if not (mnt_sb == 0) && vfs_mount_inode_get s id == inode then some mnt_sb else rest

  -- The superblock and the inode after the test of the mount table.
  pub cross : Vfs M → ℕ → ℕ → ℕ × ℕ
  cross s sb inode = elim (crossing_loop s.mount_max 0 s inode) [
    | none ↦ (sb, inode)
    | some mnt_sb ↦ (mnt_sb, (s.superblock mnt_sb).root)
  ]

  pub vfs_seek : Vfs M → ℕ → ℤ → ℕ → ℤ × Vfs M
  vfs_seek s file offset whence =
      let f = s.file file in
      if whence == 0
      then (pos 0, set_file s file (record f { offset = to_u32 offset }))
      else if whence == 1
      then (pos 0, set_file s file (record f { offset = (f.offset + to_u32 offset) % 2 ^ 32 }))
      else if whence == 2
      then (
        pos 0,
        set_file s file (record f { offset = ((s.inode f.inode).size + to_u32 offset) % 2 ^ 32 }),
      )
      else (negsuc 0, s)

  -- vfs_close; kfree is left out.
  pub vfs_close : Vfs M → ℕ → Run (ℤ × Vfs M)
  vfs_close s file = vfs_inode_release s (s.file file).inode >>= λ s1. done (pos 0, s1)

  module _ (fs : ℕ → FsType M) where
    -- The loop of vfs_resolve over the parts of the path.
    unfoldable pub walk : List (List ℕ) → Vfs M → ℕ → ℕ → Run (ℕ × Vfs M)
    walk [] s sb inode = done (inode, s)
    walk (part ∷ parts) s sb inode =
        if same_text part [] || same_text part (b'.' ∷ [])
        then walk parts s sb inode
        else elim ((fs (s.superblock sb).ops).lookup) [
          | none ↦ panic
          | some lookup ↦
              let (found, s1) = lookup sb inode part s in
              if found == 0
              then done (0, s1)
              else walk parts s1 (cross s1 sb found).0 (cross s1 sb found).1
        ]

    unfoldable pub vfs_resolve : Vfs M → ℕ → Option (List ℕ) → Run (ℕ × Vfs M)
    vfs_resolve s base none = done (0, s)
    vfs_resolve s base (some []) = done (0, s)
    vfs_resolve s base (some (c ∷ cs)) = strsplit (take 4095 (c ∷ cs)) (b'/' ∷ []) 32 >>= λ parts.
        if c == b'/'
        then (let sb = vfs_mount_resolve s (some (c ∷ cs)) in
            if not (base == 0) || (sb == 0 || (s.superblock sb).root == 0)
            then done (0, s)
            else walk parts s sb (s.superblock sb).root)
        else if base == 0
        then done (0, s)
        else walk parts s (s.inode base).sb base

    -- vfs_open with the inode of the path and the address of the new file.
    pub open_inode : Vfs M → ℕ → ℕ → Run (ℕ × Vfs M)
    open_inode s inode new =
        if inode == 0
        then done (0, s)
        else if new == 0
        then (vfs_inode_release s inode >>= λ s1. done (0, s1))
        else (let s1 = vfs_inode_get s inode in
            done (new, set_file s1 new (record { inode = inode; offset = 0 })))

    pub vfs_open : Vfs M → ℕ → Option (List ℕ) → ℕ → Run (ℕ × Vfs M)
    vfs_open s base path new = vfs_resolve s base path >>= λ r. open_inode r.1 r.0 new

    -- vfs_read after the call of the file system.
    pub advance : ℕ → ℤ × Vfs M → ℤ × Vfs M
    advance file (negsuc n, s) = (negsuc n, s)
    advance file (pos n, s) =
        let f = s.file file in
        (pos n, set_file s file (record f { offset = (f.offset + n) % 2 ^ 32 }))

    pub vfs_read : Vfs M → ℕ → ℕ → ℕ → ℤ × Vfs M
    vfs_read s file buffer size =
        let inode = (s.file file).inode in
        let sb = (s.inode inode).sb in
        let ops = (s.superblock sb).ops in
        if file == 0 || (buffer == 0 || size == 0)
        then (einval, s)
        else if inode == 0 || (sb == 0 || ops == 0)
        then (einval, s)
        else elim ((fs ops).read) [
          | none ↦ (einval, s)
          | some read ↦ advance file (read inode buffer (s.file file).offset size s)
        ]
