-- ===== src/Kfs/Tree.antt =====
-- The names and directories of fs/kfs/kfs.c. A directory is the list of its dentries, linked by `next`
-- from its `leaf`.
pub mod Chain
pub mod Invariant
pub mod Create
pub mod Added
pub mod Openat
pub mod Path
pub mod Erase
pub mod Freed
pub mod Removed
use ko.Base.{
  ℕ, zero, suc, ◌+◌, ◌-◌, ◌%◌, ◌^◌, Bool, true, false, not, ◌==◌, ltb, leb, ◌||◌, if◌then◌else◌,
  update, Option, none, some, List, [], ◌∷◌, length,
}
use ko.Base.Run.{Run, done, panic, out_of_fuel, ◌>>=◌, panic_if}
use ko.Base.Int.{ℤ, pos, negsuc, sub_ℕ}
use ko.Kfs.Bitmap.{Bitmap, kfs_alloc_bitmap, kfs_free_bitmap}
use ko.Kfs.State.{
  Kfs, Dentry, Inode, KfsType, kfs_dir, kfs_file, set_dentry, set_inode, no_dentry, no_inode,
  is_dir,
}

abbrev pub kfs_max_name : ℕ
kfs_max_name = 28

abbrev pub slash : ℕ
slash = b'/'

-- The text up to a `/`, and what begins there.
pub segment : List ℕ → List ℕ
segment [] = []
segment (c ∷ cs) = if c == slash then [] else c ∷ segment cs

pub after : List ℕ → List ℕ
after [] = []
after (c ∷ cs) = let rest = after cs in if c == slash then c ∷ cs else rest

-- `while (*next == '/') next++;`
pub skip_slashes : List ℕ → List ℕ
skip_slashes [] = []
skip_slashes (c ∷ cs) = let rest = skip_slashes cs in if c == slash then rest else c ∷ cs

abbrev pub past_slash : List ℕ → List ℕ
past_slash [] = []
past_slash (c ∷ cs) = cs

-- `sizeof(name)` in kfs_getname
abbrev pub name_size : ℕ
name_size = 32

-- kfs_getname after the test of its argument, with the static `next`. A name that does not fit into the
-- buffer with its NUL is written behind it, and nothing is known of what follows.
pub next_name : List ℕ → Run (Option (List ℕ) × List ℕ)
unfolding segment after skip_slashes
next_name [] = done (none, [])
next_name (c ∷ cs) =
    panic_if (leb name_size (length (segment (c ∷ cs))))
      (done (some (segment (c ∷ cs)), skip_slashes (past_slash (after (c ∷ cs)))))

abbrev pub starts_with_slash : List ℕ → Bool
starts_with_slash [] = false
starts_with_slash (c ∷ cs) = c == slash

-- The name and the new `next`.
pub kfs_getname : Option (List ℕ) → List ℕ → Run (Option (List ℕ) × List ℕ)
unfolding next_name
kfs_getname none next = next_name next
kfs_getname (some pathname) next =
    if starts_with_slash pathname then next_name pathname else done (none, next)

pub kfs_strcmp : List ℕ → List ℕ → ℤ
kfs_strcmp [] [] = pos 0
kfs_strcmp [] (d ∷ ds) = sub_ℕ 0 d
kfs_strcmp (c ∷ cs) [] = sub_ℕ c 0
kfs_strcmp (c ∷ cs) (d ∷ ds) = let rest = kfs_strcmp cs ds in if c == d then rest else sub_ℕ c d

abbrev pub is_equal : ℤ → Bool
is_equal (pos n) = n == 0
is_equal (negsuc n) = false

pub take : ℕ → List ℕ → List ℕ
take zero cs = []
take (suc n) [] = []
take (suc n) (c ∷ cs) = c ∷ take n cs

-- kfs_strcpy to the name of a dentry.
pub kfs_strcpy : Kfs → ℕ → List ℕ → Kfs
unfolding take
kfs_strcpy s k name =
    let s1 = set_dentry s k (record (s.dentry k) { name = take kfs_max_name name }) in
    if ltb (length name) kfs_max_name
    then s1
    else set_dentry s1 (k + 1) (record (s1.dentry (k + 1)) { root = 0 })

pub kfs_alloc_dentry : Kfs → List ℕ → ℕ × Kfs
kfs_alloc_dentry s name =
    let (new, b) = kfs_alloc_bitmap s.bmp_dentry in
    let s1 = record s { bmp_dentry = b } in
    if new == 0 then (0, s1) else (new, kfs_strcpy s1 new name)

pub kfs_alloc_inode : Kfs → KfsType → ℕ × Kfs
kfs_alloc_inode s type =
    let (new, b) = kfs_alloc_bitmap s.bmp_inode in
    let s1 = record s { bmp_inode = b } in
    if new == 0 then (0, s1) else (
      new % 2 ^ 16,
      set_inode s1 new (record (s1.inode new) { type = type; mode = 63; count = 1 }),
    )

-- The search of kfs_openat from the dentry `leaf` on: the last one looked at, and whether it has the name.
pub find : ℕ → Kfs → ℕ → List ℕ → Run (ℕ × Bool)
find zero s leaf name = out_of_fuel
find (suc fuel) s leaf name =
    let next = (s.dentry leaf).next in
    let rest = find fuel s next name in
    if is_equal (kfs_strcmp (s.dentry leaf).name name)
    then done (leaf, true)
    else if next == 0
    then done (leaf, false)
    else rest

-- The new dentry `leaf` becomes the first of the directory `root`.
pub link : Kfs → ℕ → ℕ → ℕ → Kfs
link s root leaf inode =
    let s1 = set_dentry s leaf (record (s.dentry leaf) { inode = inode % 2 ^ 8 }) in
    let s2 = set_dentry s1 leaf (record (s1.dentry leaf) { leaf = 0 }) in
    let s3 = set_dentry s2 leaf (record (s2.dentry leaf) { root = root % 2 ^ 8 }) in
    let s4 = set_dentry s3 leaf (record (s3.dentry leaf) { next = (s3.dentry root).leaf }) in
    set_dentry s4 root (record (s4.dentry root) { leaf = leaf % 2 ^ 8 })

-- The part of kfs_openat for a name that is not there.
pub create : Kfs → ℕ → List ℕ → ℕ × Kfs
create s root name =
    let (leaf, s1) = kfs_alloc_dentry s name in
    let (inode, s2) = kfs_alloc_inode s1 kfs_file in (leaf, link s2 root leaf inode)

pub kfs_openat : ℕ → Kfs → ℕ → List ℕ → Run (ℕ × Kfs)
kfs_openat fuel s root name =
    let i = (s.dentry root).inode in
    let s1 = set_inode s i (record (s.inode i) { type = kfs_dir }) in
    let leaf = (s1.dentry root).leaf in
    (if leaf == 0 then done (0, false) else find fuel s1 leaf name) >>= λ r.
    if r.1 then done (r.0, s1) else done (create s1 root name)

-- The loop of kfs_open with `next` of kfs_getname.
pub open_loop : ℕ → ℕ → Kfs → List ℕ → ℕ → Run (ℕ × Kfs)
open_loop zero fuel s next dentry = out_of_fuel
open_loop (suc rounds) fuel s next dentry = kfs_getname none next >>= λ (name, next'). elim name [
  | none ↦ done (dentry, record s { next = next' })
  | some name ↦ kfs_openat fuel s dentry name >>= λ r. open_loop rounds fuel r.1 next' r.0
]

pub kfs_open : ℕ → Kfs → List ℕ → Run (ℤ × Kfs)
kfs_open fuel s pathname = kfs_getname (some pathname) s.next >>= λ (name, next). elim name [
  | none ↦ done (negsuc 0, record s { next = next })
  | some name ↦ open_loop (suc (length next)) fuel s next 0 >>= λ (dentry, s1).
      done (pos dentry, record s1 { offset = update s1.offset (s1.dentry dentry).inode 0 })
]

-- The value, and what is in the buffer.
unfoldable pub kfs_readdir : Kfs → ℕ → ℕ → Option (List ℕ) → ℤ × Option (List ℕ)
kfs_readdir s root leaf buf =
    if not (is_dir (s.inode (s.dentry root).inode).type)
    then (negsuc 0, buf)
    else (let name : Option (List ℕ) = elim buf [
      | none ↦ none
      | some _ ↦ some (s.dentry leaf).name
    ] in
        if leaf == root
        then (pos (s.dentry root).leaf, name)
        else if not ((s.dentry leaf).root == root)
        then (negsuc 0, name)
        else (pos (s.dentry leaf).next, name))

-- The search of kfs_free_dentry for the dentry before `dentry`, 0 if it is the first.
pub find_prev : ℕ → Kfs → ℕ → ℕ → ℕ → Run ℕ
find_prev zero s dentry curr prev = out_of_fuel
find_prev (suc fuel) s dentry curr prev =
    let rest = find_prev fuel s dentry (s.dentry curr).next curr in
    if not (curr == dentry) then rest else done prev

-- The loop that erases a dentry calls kfs_free_bitmap for each of its 8 words.
pub free_again : ℕ → Bitmap → ℕ → Bitmap
free_again zero b dentry = b
free_again (suc n) b dentry = free_again n (kfs_free_bitmap b dentry) dentry

pub kfs_free_dentry : ℕ → Kfs → ℕ → Run Kfs
kfs_free_dentry fuel s dentry =
    let root = (s.dentry dentry).root in
    find_prev fuel s dentry (s.dentry root).leaf 0 >>= λ prev.
    let after_it = (s.dentry dentry).next in
    let s1 =
      if prev == 0
      then set_dentry s root (record (s.dentry root) { leaf = after_it })
      else set_dentry s prev (record (s.dentry prev) { next = after_it }) in
    let s2 = set_dentry s1 dentry no_dentry in
    done (record s2 { bmp_dentry = free_again 8 s2.bmp_dentry dentry })
