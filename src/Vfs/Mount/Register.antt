-- ===== src/Vfs/Mount/Register.antt =====
-- A file system enters the table, and leaves it.
use ko.Base.{
  ℕ, zero, suc, ◌+◌, ◌-◌, ◌<◌, ◌≤◌, ◌≡◌, ◌⊎◌, refl, sym, ap, subst, ◌∙◌, true, false, false≢true,
  ◌==◌, ltb, leb, if◌then◌else◌, arith, Bool-cases, inl, inr, update, none, some, List,
}
use ko.Base.Int.{ℤ, pos}
use ko.Vfs.State.{Vfs, MountPoint, set_superblock, enospc}
use ko.Vfs.Registry.{vfs_filesystem_max}
use ko.Vfs.Mount.{
  is_null, vfs_mount_path_get, vfs_mount_update_max, mount_alloc_loop, vfs_mount_alloc, register_at,
  vfs_mount_register,
}
use ko.Vfs.Mount.Table.{mounted, IsTable, path_get-mounted, last_used-same}
use ko.Vfs.Mount.Put.{put, register_at-put}

module _ {M : Type 0} where
  -- The first place without a path, or none.
  alloc_loop-cases :
      (left id : ℕ) (s : Vfs M)
      → ((j : ℕ) × (id ≤ j)
          × (j < id + left)
          × (is_null (vfs_mount_path_get s j) ≡ true)
          × ((k : ℕ) → id ≤ k → k < j → is_null (vfs_mount_path_get s k) ≡ false)
          × (mount_alloc_loop left id s ≡ (pos j, vfs_mount_update_max s j)))
        ⊎ (mount_alloc_loop left id s ≡ (enospc, s))
          × ((k : ℕ) → id ≤ k → k < id + left → is_null (vfs_mount_path_get s k) ≡ false)
  unfolding mount_alloc_loop
  alloc_loop-cases zero id s = inr (refl, λ k a b. absurd (omega (arith, a, b)))
  alloc_loop-cases (suc left) id s = elim (Bool-cases (is_null (vfs_mount_path_get s id))) [
    | inl e ↦
        inl (id, omega arith, omega arith, e, (λ k a b. absurd (omega (arith, a, b))), rw e refl)
    | inr e ↦
        let also : (j : ℕ)
            → ((k : ℕ) → id + 1 ≤ k → k < j → is_null (vfs_mount_path_get s k) ≡ false)
            → (k : ℕ) → id ≤ k
            → k < j
            → is_null (vfs_mount_path_get s k) ≡ false =
          λ j h k a b. elim (Bool-cases (id == k)) [
            | inl g ↦
                let w : id ≡ k = ground arith in
                subst (λ m. is_null (vfs_mount_path_get s m) ≡ false) w e
            | inr g ↦ h k (ground (arith, a)) b
          ] in
        elim (alloc_loop-cases left (id + 1) s) [
          | inl (j, a, b, z, h, r) ↦
              inl (j, omega (arith, a), omega (arith, b), z, also j h, rw e r)
          | inr (r, h) ↦
              inr (rw e r, λ k a b. also (id + suc left) (λ k c d. h k c (omega (arith, d))) k a b)
        ]
  ]

  -- The state after the place `j` was chosen and `mount_max` is `m`.
  module _ (s : Vfs M) (t : IsTable s) (j m sb inode : ℕ) (path : List ℕ) (l : j < m)
      (few : m ≤ vfs_filesystem_max) (same : (q : ℕ) → q == j ≡ false → ltb q m ≡ ltb q s.mount_max)
      (end : m ≡ s.mount_max ⊎ m ≡ j + 1) where
    abbrev new : MountPoint
    new = record { path = some path; inode = inode; sb = sb }

    abbrev pub filled : Vfs M
    filled =
        put
          (set_superblock (record s { mount_max = m }) sb
            (record (s.superblock sb) { mnt_id = pos j }))
          j new

    filled-mounted : (q : ℕ) → mounted filled q ≡ (if q == j then new else mounted s q)
    filled-mounted q = elim (Bool-cases (q == j)) [
      | inl e ↦ let d : ltb q m ≡ true = ground arith in rw (d, e) refl
      | inr e ↦ let d = same q e in rw (e, d) refl
    ]

    filled-last : (q : ℕ) → q + 1 ≡ m → is_null (update s.mount_table j new q).path ≡ false
    filled-last q e = elim (Bool-cases (q == j)) [
      | inl f ↦ rw f refl
      | inr f ↦ rw f (elim end [
        | inl g ↦
            let w : s.mount_max - 1 ≡ q = omega (arith, e, g) in
            subst (λ k. is_null (s.mount_table k).path ≡ false) w (t.last (omega (arith, e, g)))
        | inr g ↦ absurd (ground arith)
      ])
    ]

    filled-IsTable : IsTable filled
    filled-IsTable = record {
      few = few;
      holes = λ id h z. elim (Bool-cases (id == j)) [
        | inl f ↦ absurd (
            false≢true (subst (λ b. is_null (if b then new else s.mount_table id).path ≡ true) f z))
        | inr f ↦
            let d = same id f in
            let h' : id < s.mount_max = ground arith in
            rw f (
              t.holes id h'
                (subst (λ b. is_null (if b then new else s.mount_table id).path ≡ true) f z))
      ];
      last = λ p. filled-last (m - 1) (omega (arith, p));
    }

  -- What is mounted after vfs_mount_register: the new file system at the first place that was empty, and
  -- what was there; or all 8 places are in use and nothing changes.
  abbrev pub IsMounted : Vfs M → List ℕ → ℕ → ℕ → ℤ × Vfs M → Type 0
  IsMounted s path inode sb (r, s') =
      ((id : ℕ) × (r ≡ pos id)
        × (id < vfs_filesystem_max)
        × (is_null (mounted s id).path ≡ true)
        × ((k : ℕ) → k < id → is_null (mounted s k).path ≡ false)
        × ((q : ℕ)
            → mounted s' q ≡ (
                if q == id
                then record { path = some path; inode = inode; sb = sb }
                else mounted s q))
        × ((s'.superblock sb).mnt_id ≡ pos id)
        × IsTable s')
      ⊎ (r ≡ enospc)
        × ((id : ℕ) → id < vfs_filesystem_max → is_null (mounted s id).path ≡ false)
        × (s' ≡ s)

  -- A place before which all places have a path is not behind `mount_max`.
  within_max :
      (s : Vfs M) (j : ℕ)
      → ((k : ℕ) → 0 ≤ k → k < j → is_null (vfs_mount_path_get s k) ≡ false)
      → j ≤ s.mount_max
  unfolding vfs_mount_path_get
  within_max s j h = elim (Bool-cases (ltb s.mount_max j)) [
    | inr e ↦ ground arith
    | inl e ↦
        let n = h s.mount_max (omega arith) (ground arith) in
        let z : ltb s.mount_max s.mount_max ≡ false = ground arith in
        let null : is_null
              (if ltb s.mount_max s.mount_max then (s.mount_table s.mount_max).path else none)
            ≡ true =
          rw z refl in
        absurd (false≢true (sym n ∙ null))
  ]

  update_max-lem :
      (s : Vfs M) (t : IsTable s) (j : ℕ)
      → j ≤ s.mount_max
      → (m : ℕ) × (vfs_mount_update_max s j ≡ record s { mount_max = m })
        × (j < m)
        × (m ≤ s.mount_max ⊎ m ≡ j + 1)
        × ((q : ℕ) → q == j ≡ false → ltb q m ≡ ltb q s.mount_max)
        × (m ≡ s.mount_max ⊎ m ≡ j + 1)
  unfolding vfs_mount_update_max
  update_max-lem s t j l = elim (Bool-cases (leb s.mount_max j)) [
    | inl e ↦ (j + 1, rw e refl, omega arith, inr refl, (λ q f. ground arith), inr refl)
    | inr e ↦
        let z = last_used-same s s.mount_max t.last in
        (s.mount_max, rw (e, z) refl, ground arith, inl (omega arith), (λ q f. refl), inl refl)
  ]

  registered_place :
      (s : Vfs M) (t : IsTable s) (path : List ℕ) (inode sb j : ℕ)
      → j < vfs_filesystem_max
      → is_null (vfs_mount_path_get s j) ≡ true
      → ((k : ℕ) → 0 ≤ k → k < j → is_null (vfs_mount_path_get s k) ≡ false)
      → IsMounted s path inode sb (register_at path inode sb (pos j, vfs_mount_update_max s j))
  registered_place s t path inode sb j few z h =
      let (m, u, l, a, same, end) = update_max-lem s t j (within_max s j h) in
      let few_all : m ≤ vfs_filesystem_max = elim a [
        | inl b ↦ omega (arith, b, t.few)
        | inr b ↦ omega (arith, b, few)
      ] in
      let d : ltb j m ≡ true = ground arith in
      let r = register_at-put path inode sb j (record s { mount_max = m }) d in
      let own : sb == sb ≡ true = ground arith in
      subst (IsMounted s path inode sb) (sym (ap (λ w. register_at path inode sb (pos j, w)) u ∙ r))
        (inl (
          j,
          refl,
          few,
          ap is_null (sym (path_get-mounted s j)) ∙ z,
          (λ k l. ap is_null (sym (path_get-mounted s k)) ∙ h k (omega arith) l),
          filled-mounted s t j m sb inode path l few_all same end,
          rw own refl,
          filled-IsTable s t j m sb inode path l few_all same end,
        ))

  -- vfs_mount_register fills the first of 8 places that is empty: there the accessors show the path, the
  -- inode and the superblock, at every other place what they showed, and the superblock gets the
  -- number of the place. If no place is empty it returns -ENOSPC and changes nothing.
  pub vfs_mount_register-IsMounted :
      (s : Vfs M) (path : List ℕ) (inode sb : ℕ)
      → IsTable s
      → IsMounted s path inode sb (vfs_mount_register s path inode sb)
  unfolding vfs_mount_register vfs_mount_alloc register_at
  vfs_mount_register-IsMounted s path inode sb t = elim (alloc_loop-cases 8 0 s) [
    | inl (j, a, b, z, h, r) ↦
        subst (IsMounted s path inode sb) (sym (ap (register_at path inode sb) r))
          (registered_place s t path inode sb j b z h)
    | inr (r, h) ↦
        subst (IsMounted s path inode sb) (sym (ap (register_at path inode sb) r ∙ full)) (
          inr
            (refl, (λ id l. ap is_null (sym (path_get-mounted s id)) ∙ h id (omega arith) l), refl))
  ]
    where
      full : register_at path inode sb (enospc, s) ≡ (enospc, s)
      full = refl
