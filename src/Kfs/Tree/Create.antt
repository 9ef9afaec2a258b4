-- ===== src/Kfs/Tree/Create.antt =====
-- A new dentry.
use ko.Base.{
  ℕ, ◌%◌, ◌^◌, ◌<◌, ◌≡◌, refl, ◌∙◌, true, false, ◌==◌, ltb, if◌then◌else◌, arith, Bool-cases, inl,
  inr, List, length,
}
use ko.Kfs.Bitmap.{kfs_alloc_bitmap}
use ko.Kfs.State.{Kfs, Dentry, kfs_file, set_dentry, set_inode}
use ko.Kfs.Tree.{kfs_alloc_dentry, kfs_alloc_inode, kfs_strcpy, link, create, kfs_max_name}
use ko.Kfs.Tree.Chain.{take_all}

module _ (s : Kfs) (root leaf inode : ℕ) (other : leaf == root ≡ false) where
  same_leaf : leaf == leaf ≡ true
  same_leaf = ground arith

  other_way : root == leaf ≡ false
  other_way = ground arith

  -- The two dentries that link changes.
  pub link-dentry :
      (k : ℕ)
      → (link s root leaf inode).dentry k ≡ (
          if k == root
          then record (s.dentry root) { leaf = leaf % 2 ^ 8 }
          else if k == leaf
          then record (s.dentry leaf) {
            inode = inode % 2 ^ 8;
            leaf = 0;
            root = root % 2 ^ 8;
            next = (s.dentry root).leaf;
          }
          else s.dentry k)
  unfolding link
  link-dentry k = elim (Bool-cases (k == root)) [
    | inl e ↦ rw (e, other_way) refl
    | inr e ↦ elim (Bool-cases (k == leaf)) [
      | inl f ↦ rw (e, f, other_way, same_leaf) refl
      | inr f ↦ rw (e, f) refl
    ]
  ]

module _ (s : Kfs) (d : ℕ) (name : List ℕ) where
  abbrev pub new : ℕ
  new = (kfs_alloc_bitmap s.bmp_dentry).0

  abbrev pub new_inode : ℕ
  new_inode = (kfs_alloc_bitmap s.bmp_inode).0

  -- What create makes of the table of dentries.
  abbrev pub new_entry : Dentry
  new_entry = record {
    root = d % 2 ^ 8;
    next = (s.dentry d).leaf;
    leaf = 0;
    inode = new_inode % 2 ^ 16 % 2 ^ 8;
    name = name;
  }

  module _ (short : length name < kfs_max_name) (found : new == 0 ≡ false)
      (found_inode : new_inode == 0 ≡ false) (other : new == d ≡ false) where
    alloc_dentry_lem : kfs_alloc_dentry s name ≡ (
      new,
      set_dentry
          (record s { bmp_dentry = (kfs_alloc_bitmap s.bmp_dentry).1 })
          new
          (record (s.dentry new) { name = name }),
    )
    unfolding kfs_alloc_dentry kfs_strcpy
    alloc_dentry_lem =
        let fits : ltb (length name) kfs_max_name ≡ true = ground (arith, short) in
        rw (found, fits, take_all kfs_max_name name (omega (arith, short))) refl

    alloc_inode_lem :
        (s1 : Kfs)
        → s1.bmp_inode ≡ s.bmp_inode
        → kfs_alloc_inode s1 kfs_file ≡ (
          new_inode % 2 ^ 16,
          set_inode
              (record s1 { bmp_inode = (kfs_alloc_bitmap s.bmp_inode).1 })
              new_inode
              (record (s1.inode new_inode) { type = kfs_file; mode = 63; count = 1 }),
        )
    unfolding kfs_alloc_inode
    alloc_inode_lem s1 e = rw (e, found_inode) refl

    abbrev named : Kfs
    named =
        set_dentry (record s { bmp_dentry = (kfs_alloc_bitmap s.bmp_dentry).1 }) new
          (record (s.dentry new) { name = name })

    abbrev made : Kfs
    made =
        set_inode (record named { bmp_inode = (kfs_alloc_bitmap s.bmp_inode).1 }) new_inode
          (record (s.inode new_inode) { type = kfs_file; mode = 63; count = 1 })

    pub create_lem : create s d name ≡ (new, link made d new (new_inode % 2 ^ 16))
    unfolding create
    create_lem = rw (alloc_dentry_lem, alloc_inode_lem named refl) refl

    abbrev pub created : Kfs
    created = link made d new (new_inode % 2 ^ 16)

    pub created-bitmap : created.bmp_dentry ≡ (kfs_alloc_bitmap s.bmp_dentry).1
    unfolding link
    created-bitmap = refl

    pub created-dentry :
        (k : ℕ)
        → created.dentry k ≡ (
            if k == d
            then record (s.dentry d) { leaf = new % 2 ^ 8 }
            else if k == new
            then new_entry
            else s.dentry k)
    created-dentry k =
        let same : new == new ≡ true = ground arith in
        let other_way : d == new ≡ false = ground (arith, other) in
        link-dentry made d new (new_inode % 2 ^ 16) other k ∙ (elim (Bool-cases (k == d)) [
          | inl e ↦ rw (e, other_way) refl
          | inr e ↦ elim (Bool-cases (k == new)) [
            | inl f ↦ rw (e, f, same, other_way) refl
            | inr f ↦ rw (e, f) refl
          ]
        ])
