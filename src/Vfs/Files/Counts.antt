-- ===== src/Vfs/Files/Counts.antt =====
-- The reference counts of inodes.
use ko.Base.{
  ℕ, ◌+◌, ◌-◌, ◌%◌, ◌^◌, ◌<◌, ◌≡◌, ◌≢◌, refl, sym, ap, subst, ◌∙◌, true, false, ◌==◌, if◌then◌else◌,
  arith, Bool-cases, inl, inr, update, Option, some, List, ◌∷◌, has,
}
use ko.Base.Run.{done, Returns, Returns-bind, ◌>>=◌}
use ko.Base.Int.{ℤ, pos}
use ko.Vfs.State.{Vfs, Inode, FsType, set_file}
use ko.Vfs.Files.{
  vfs_resolve, vfs_open, add_lru, vfs_inode_get, vfs_inode_release, vfs_close, open_inode,
}

updated :
    (t : ℕ → Inode) (x i r : ℕ)
    → (update t x (record (t x) { refcount = r }) i).refcount
      ≡ (if i == x then r else (t i).refcount)
updated t x i r = elim (Bool-cases (i == x)) [ inl e ↦ rw e refl | inr e ↦ rw e refl ]

module _ {M : Type 0} where
  abbrev count : Vfs M → ℕ → ℕ
  count s i = (s.inode i).refcount

  get-count :
      (s : Vfs M) (inode i : ℕ)
      → count s inode + 1 < 2 ^ 32
      → count (vfs_inode_get s inode) i ≡ (if i == inode then count s inode + 1 else count s i)
  unfolding vfs_inode_get
  get-count s inode i l =
      let m : (count s inode + 1) % 2 ^ 32 ≡ count s inode + 1 = omega (arith, l) in
      updated s.inode inode i ((count s inode + 1) % 2 ^ 32)
      ∙ ap (λ k. if i == inode then k else count s i) m

  get-lru : (s : Vfs M) (inode : ℕ) → (vfs_inode_get s inode).icache_lru ≡ s.icache_lru
  unfolding vfs_inode_get
  get-lru s inode = refl

  -- One reference less; without references the inode goes to icache_lru.
  abbrev pub IsReleased : Vfs M → ℕ → Vfs M → Type 0
  IsReleased s inode s' =
      ((i : ℕ) → count s' i ≡ (if i == inode then count s inode - 1 else count s i))
      × (s'.icache_lru
          ≡ (if count s inode - 1 == 0 then add_lru inode s.icache_lru else s.icache_lru))

  pub release-IsReleased :
      (s : Vfs M) (inode : ℕ)
      → inode ≢ 0
      → count s inode ≢ 0
      → Returns (IsReleased s inode) (vfs_inode_release s inode)
  unfolding vfs_inode_release
  release-IsReleased s inode i n =
      let a : inode == 0 ≡ false = ground arith in
      let b : count s inode == 0 ≡ false = ground arith in
      elim (Bool-cases (count s inode - 1 == 0)) [
        | inl e ↦ rw (a, b, e) ((λ j. updated s.inode inode j (count s inode - 1)), refl)
        | inr e ↦ rw (a, b, e) ((λ j. updated s.inode inode j (count s inode - 1)), refl)
      ]

module _ {M : Type 0} (fs : ℕ → FsType M) where
  -- All counts are as before; an inode that nobody refers to is now the first of icache_lru.
  abbrev pub IsClosed : Vfs M → ℕ → List ℕ → ℤ × Vfs M → Type 0
  IsClosed s inode lru (r, s') =
      (r ≡ pos 0)
      × ((i : ℕ) → (s'.inode i).refcount ≡ (s.inode i).refcount)
      × (s'.icache_lru ≡ some (if (s.inode inode).refcount == 0 then inode ∷ lru else lru))

  add_new :
      (n inode : ℕ) (lru : List ℕ)
      → (n ≡ 0 → has inode lru ≡ false)
      → (if n == 0 then add_lru inode (some lru) else some lru)
        ≡ some (if n == 0 then inode ∷ lru else lru)
  unfolding add_lru
  add_new n inode lru h = elim (Bool-cases (n == 0)) [
    | inl e ↦ let z : n ≡ 0 = ground arith in rw (e, h z) refl
    | inr e ↦ rw e refl
  ]

  abbrev opened : Vfs M → ℕ → ℕ → Vfs M
  opened s inode new = set_file (vfs_inode_get s inode) new (record { inode = inode; offset = 0 })

  open-opened :
      (s : Vfs M) (inode new : ℕ)
      → inode ≢ 0
      → new ≢ 0
      → open_inode fs s inode new ≡ done (new, opened s inode new)
  unfolding open_inode
  open-opened s inode new i n =
      let a : inode == 0 ≡ false = ground arith in
      let b : new == 0 ≡ false = ground arith in rw (a, b) refl

  close-release :
      (s : Vfs M) (inode new : ℕ)
      → vfs_close (opened s inode new) new
        ≡ (vfs_inode_release (opened s inode new) inode >>= λ s1. done (pos 0, s1))
  unfolding vfs_close
  close-release s inode new = let own : new == new ≡ true = ground arith in rw own refl

  vfs_close-open_inode :
      (s : Vfs M) (inode new : ℕ) (lru : List ℕ)
      → inode ≢ 0
      → new ≢ 0
      → (s.inode inode).refcount + 1 < 2 ^ 32
      → s.icache_lru ≡ some lru
      → ((s.inode inode).refcount ≡ 0 → has inode lru ≡ false)
      → Returns (IsClosed s inode lru) (open_inode fs s inode new >>= λ r. vfs_close r.1 r.0)
  vfs_close-open_inode s inode new lru i n l z h =
      let s1 = opened s inode new in
      let here : count s1 inode ≡ count s inode + 1 = get-count s inode inode l ∙ ground arith in
      let minus : count s1 inode - 1 ≡ count s inode = omega (arith, here) in
      let some_count : count s1 inode ≢ 0 = λ z. omega (arith, here, z) in
      subst (λ r. Returns (IsClosed s inode lru) (r >>= λ r. vfs_close r.1 r.0))
        (sym (open-opened s inode new i n))
        (subst (Returns (IsClosed s inode lru)) (sym (close-release s inode new)) (
          Returns-bind (IsReleased s1 inode) (IsClosed s inode lru) (vfs_inode_release s1 inode)
            (λ s2. done (pos 0, s2)) (release-IsReleased s1 inode i some_count)
            (λ s2 (c, f). (
              refl,
              (λ j. c j ∙ elim (Bool-cases (j == inode)) [
                | inl e ↦
                    let same : inode ≡ j = ground arith in
                    rw e (ap (λ k. k - 1) here ∙ omega arith ∙ ap (count s) same)
                | inr e ↦ rw e (get-count s inode j l ∙ rw e refl)
              ]),
              f
                  ∙ ap (λ l. if count s1 inode - 1 == 0 then add_lru inode l else l)
                      (get-lru s inode ∙ z)
                  ∙ ap (λ k. if k == 0 then add_lru inode (some lru) else some lru) minus
                  ∙ add_new (count s inode) inode lru h,
            ))))

  -- vfs_open of a path that leads to an inode, and then vfs_close of the file: all reference counts are as
  -- they were when the path was found, and icache_lru gets the inode if nobody referred to it, and is as
  -- it was otherwise. The list has to be a ring, in which an inode that nobody refers to does not stand yet.
  pub vfs_close-vfs_open :
      (s s1 : Vfs M) (base inode new : ℕ) (path : Option (List ℕ)) (lru : List ℕ)
      → vfs_resolve fs s base path ≡ done (inode, s1)
      → inode ≢ 0
      → new ≢ 0
      → (s1.inode inode).refcount + 1 < 2 ^ 32
      → s1.icache_lru ≡ some lru
      → ((s1.inode inode).refcount ≡ 0 → has inode lru ≡ false)
      → Returns (IsClosed s1 inode lru) (vfs_open fs s base path new >>= λ r. vfs_close r.1 r.0)
  unfolding vfs_open
  vfs_close-vfs_open s s1 base inode new path lru e i n l z h =
      rw e (vfs_close-open_inode s1 inode new lru i n l z h)
