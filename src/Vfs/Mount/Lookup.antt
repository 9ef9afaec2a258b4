-- ===== src/Vfs/Mount/Lookup.antt =====
-- The search for a path in the table, and a file system that leaves it by its path.
use ko.Base.{
  ℕ, zero, suc, ◌+◌, ◌<◌, ◌≤◌, ◌≡◌, ◌⊎◌, refl, sym, ap, subst, ◌∙◌, true, false, false≢true, ◌==◌,
  arith, Bool-cases, inl, inr, Option-cases, none, some, List,
}
use ko.Base.Run.{done, Returns, Returns-bind, Returns-weaken}
use ko.Base.Int.{ℤ, pos, negsuc}
use ko.Vfs.State.{Vfs, same_text, enoent}
use ko.Vfs.Mount.{
  is_null, vfs_mount_path_get, lookup_loop, vfs_mount_lookup, unregister_at, vfs_mount_unregister,
}
use ko.Vfs.Mount.Table.{mounted, IsTable, path_get-mounted}
use ko.Vfs.Mount.Unregister.{IsUnmounted, unregister_at-IsUnmounted}

module _ {M : Type 0} where
  -- The places before `mount_max` all have a path, as when the last mounted leaves first.
  abbrev pub HasNoHole : Vfs M → Type 0
  HasNoHole s = (id : ℕ) → id < s.mount_max → is_null (mounted s id).path ≡ false

  -- The path is that of the place `id`.
  abbrev pub IsAt : Vfs M → List ℕ → ℕ → Type 0
  IsAt s path id = (p : List ℕ) × ((mounted s id).path ≡ some p) × (same_text path p ≡ true)

  -- The first place with the path, or none.
  abbrev pub IsLookedUp : Vfs M → List ℕ → ℕ → ℤ → Type 0
  IsLookedUp s path from (pos id) =
      (id < s.mount_max) × IsAt s path id × ((k : ℕ) → from ≤ k → k < id → ¬ IsAt s path k)
  IsLookedUp s path from (negsuc n) =
      (negsuc n ≡ enoent) × ((k : ℕ) → from ≤ k → k < s.mount_max → ¬ IsAt s path k)

  step-found :
      (left id : ℕ) (s : Vfs M) (path p : List ℕ)
      → vfs_mount_path_get s id ≡ some p
      → same_text path p ≡ true
      → lookup_loop (suc left) id s path ≡ done (pos id)
  unfolding lookup_loop
  step-found left id s path p z f = rw (z, f, lookup_loop) refl

  step-other :
      (left id : ℕ) (s : Vfs M) (path p : List ℕ)
      → vfs_mount_path_get s id ≡ some p
      → same_text path p ≡ false
      → lookup_loop (suc left) id s path ≡ lookup_loop left (id + 1) s path
  unfolding lookup_loop
  step-other left id s path p z f = rw (z, f, lookup_loop) refl

  not-IsAt :
      (id : ℕ) (s : Vfs M) (path p : List ℕ)
      → vfs_mount_path_get s id ≡ some p
      → same_text path p ≡ false
      → ¬ IsAt s path id
  not-IsAt id s path p z f (q, w, g) =
      let e : q ≡ p =
        ap (λ o. elim o [ none ↦ q | some x ↦ x ]) (sym w ∙ sym (path_get-mounted s id) ∙ z) in
      false≢true (sym f ∙ subst (λ r. same_text path r ≡ true) e g)

  later :
      (id : ℕ) (s : Vfs M) (path : List ℕ) (r : ℤ)
      → ¬ IsAt s path id
      → IsLookedUp s path (id + 1) r
      → IsLookedUp s path id r
  later id s path (pos j) n (l, a, h) = (
    l,
    a,
    λ k b c. elim (Bool-cases (k == id)) [
      | inl e ↦ let z : id ≡ k = ground arith in subst (λ m. ¬ IsAt s path m) z n
      | inr e ↦ h k (ground (arith, b)) c
    ],
  )
  later id s path (negsuc j) n (e, h) = (
    e,
    λ k b c. elim (Bool-cases (k == id)) [
      | inl e ↦ let z : id ≡ k = ground arith in subst (λ m. ¬ IsAt s path m) z n
      | inr e ↦ h k (ground (arith, b)) c
    ],
  )

  lookup_loop-IsLookedUp :
      (left id : ℕ) (s : Vfs M) (path : List ℕ)
      → HasNoHole s
      → id + left ≡ s.mount_max
      → Returns (IsLookedUp s path id) (lookup_loop left id s path)
  unfolding lookup_loop
  lookup_loop-IsLookedUp zero id s path h e = (refl, λ k a b c. omega (arith, e, a, b))
  lookup_loop-IsLookedUp (suc left) id s path h e = elim (Option-cases (vfs_mount_path_get s id)) [
    | inl z ↦
        absurd (
          false≢true (sym (h id (omega (arith, e))) ∙ ap is_null (sym (path_get-mounted s id) ∙ z)))
    | inr (p, z) ↦ elim (Bool-cases (same_text path p)) [
      | inl f ↦ subst (Returns (IsLookedUp s path id)) (sym (step-found left id s path p z f)) (
        omega (arith, e),
        (p, sym (path_get-mounted s id) ∙ z, f),
        λ k a b c. omega (arith, a, b),
      )
      | inr f ↦ subst (Returns (IsLookedUp s path id)) (sym (step-other left id s path p z f)) (
          Returns-weaken (IsLookedUp s path (id + 1)) (IsLookedUp s path id)
            (lookup_loop left (id + 1) s path)
            (lookup_loop-IsLookedUp left (id + 1) s path h (omega (arith, e)))
            (λ r. later id s path r (not-IsAt id s path p z f)))
    ]
  ]

  -- The first place with the path is empty afterwards; or no place has the path and nothing changes.
  abbrev pub IsLeft : Vfs M → List ℕ → ℕ × Vfs M → Type 0
  IsLeft s path (sb, s') =
      ((id : ℕ) × IsAt s path id × ((k : ℕ) → k < id → ¬ IsAt s path k) × IsUnmounted s id sb s')
      ⊎ (sb ≡ 0) × (s' ≡ s) × ((k : ℕ) → k < s.mount_max → ¬ IsAt s path k)

  unregistered :
      (s : Vfs M) (path : List ℕ) (r : ℤ)
      → IsTable s
      → IsLookedUp s path 0 r
      → IsLeft s path (unregister_at s r)
  unfolding unregister_at
  unregistered s path (pos id) t (l, a, h) =
      inl (id, a, (λ k b. h k (omega arith) b), unregister_at-IsUnmounted s t id l)
  unregistered s path (negsuc n) t (e, h) = inr (refl, refl, λ k b. h k (omega arith) b)

  -- vfs_mount_unregister, when every place up to the last in use has a path: the first place with the given path
  -- is empty afterwards and every other place shows what it showed; the superblock that was there is
  -- returned and has no place any more; the table ends with a place in use again. If no place has the
  -- path it returns NULL and changes nothing.
  pub vfs_mount_unregister-IsLeft :
      (s : Vfs M) (path : List ℕ)
      → IsTable s
      → HasNoHole s
      → Returns (IsLeft s path) (vfs_mount_unregister s (some path))
  unfolding vfs_mount_unregister vfs_mount_lookup
  vfs_mount_unregister-IsLeft s path t h =
      Returns-bind (IsLookedUp s path 0) (IsLeft s path) (lookup_loop s.mount_max 0 s path)
        (λ id. done (unregister_at s id))
        (lookup_loop-IsLookedUp s.mount_max 0 s path h (omega arith)) (λ r. unregistered s path r t)
