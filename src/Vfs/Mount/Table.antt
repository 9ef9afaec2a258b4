-- ===== src/Vfs/Mount/Table.antt =====
-- The table as a map from places to what is mounted there.
use ko.Base.{
  ℕ, zero, suc, ◌-◌, ◌<◌, ◌≤◌, ◌≡◌, refl, subst, true, false, ◌==◌, ltb, if◌then◌else◌, arith,
  Bool-cases, inl, inr, none,
}
use ko.Vfs.State.{Vfs, MountPoint}
use ko.Vfs.Registry.{vfs_filesystem_max}
use ko.Vfs.Mount.{is_null, vfs_mount_path_get, vfs_mount_sb_get, last_used}

-- What the accessors show of a place.
abbrev pub no_mount : MountPoint
no_mount = record { path = none; inode = 0; sb = 0 }

module _ {M : Type 0} where
  abbrev pub mounted : Vfs M → ℕ → MountPoint
  mounted s id = if ltb id s.mount_max then s.mount_table id else no_mount

  -- A place below `mount_max` without a path is empty, and the last one has a path.
  pub record IsTable (s : Vfs M) : Type 0 where
    pub few : s.mount_max ≤ vfs_filesystem_max
    pub holes :
        (id : ℕ)
        → id < s.mount_max
        → is_null (s.mount_table id).path ≡ true
        → s.mount_table id ≡ no_mount
    pub last : 0 < s.mount_max → is_null (s.mount_table (s.mount_max - 1)).path ≡ false

  pub path_get-mounted : (s : Vfs M) (id : ℕ) → vfs_mount_path_get s id ≡ (mounted s id).path
  unfolding vfs_mount_path_get
  path_get-mounted s id = elim (Bool-cases (ltb id s.mount_max)) [
    | inl e ↦ rw e refl
    | inr e ↦ rw e refl
  ]

  pub sb_get-mounted : (s : Vfs M) (id : ℕ) → vfs_mount_sb_get s id ≡ (mounted s id).sb
  unfolding vfs_mount_sb_get
  sb_get-mounted s id = elim (Bool-cases (ltb id s.mount_max)) [
    | inl e ↦ rw e refl
    | inr e ↦ rw e refl
  ]

  -- last_used: the places from there on have no path, and the one before has one.
  pub last_used-le : (s : Vfs M) (n : ℕ) → last_used s n ≤ n
  unfolding last_used
  last_used-le s zero = omega arith
  last_used-le s (suc n) = elim (Bool-cases (is_null (s.mount_table n).path)) [
    | inl e ↦ rw e (omega (arith, last_used-le s n))
    | inr e ↦ rw e (omega arith)
  ]

  pub last_used-null :
      (s : Vfs M) (n id : ℕ) → last_used s n ≤ id → id < n → is_null (s.mount_table id).path ≡ true
  unfolding last_used
  last_used-null s zero id a b = absurd (omega (arith, b))
  last_used-null s (suc n) id a b = elim (Bool-cases (is_null (s.mount_table n).path)) [
    | inl e ↦ elim (Bool-cases (id == n)) [
      | inl g ↦
          let w : n ≡ id = ground arith in subst (λ k. is_null (s.mount_table k).path ≡ true) w e
      | inr g ↦
          last_used-null s n id (subst (λ b. (if b then last_used s n else suc n) ≤ id) e a)
            (ground (arith, b))
    ]
    | inr e ↦ absurd (omega (arith, subst (λ b. (if b then last_used s n else suc n) ≤ id) e a, b))
  ]

  pub last_used-last :
      (s : Vfs M) (n : ℕ)
      → 0 < last_used s n
      → is_null (s.mount_table (last_used s n - 1)).path ≡ false
  unfolding last_used
  last_used-last s zero p = absurd (omega (arith, p))
  last_used-last s (suc n) p = elim (Bool-cases (is_null (s.mount_table n).path)) [
    | inl e ↦ rw e (last_used-last s n (subst (λ b. 0 < (if b then last_used s n else suc n)) e p))
    | inr e ↦ rw e (subst (λ k. is_null (s.mount_table k).path ≡ false) (omega arith) e)
  ]

  pub last_used-same :
      (s : Vfs M) (n : ℕ)
      → (0 < n → is_null (s.mount_table (n - 1)).path ≡ false)
      → last_used s n ≡ n
  unfolding last_used
  last_used-same s zero h = refl
  last_used-same s (suc n) h =
      let e : is_null (s.mount_table n).path ≡ false =
        subst (λ k. is_null (s.mount_table k).path ≡ false) (omega arith) (h (omega arith)) in
      rw e refl
