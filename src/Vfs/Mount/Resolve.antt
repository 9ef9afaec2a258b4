-- ===== src/Vfs/Mount/Resolve.antt =====
-- Which file system a path belongs to.
use ko.Base.{
  ℕ, zero, suc, ◌+◌, ◌<◌, ◌≤◌, ◌≡◌, ◌≢◌, ◌⊎◌, refl, sym, ap, subst, ◌∙◌, Bool, true, false,
  false≢true, not, ◌==◌, ◌&&◌, ltb, arith, Bool-cases, inl, inr, none, some, Option-cases, List,
  length,
}
use ko.Vfs.State.{Vfs}
use ko.Vfs.Mount.{
  is_null, is_below, is_absolute, vfs_mount_path_get, vfs_mount_sb_get, resolve_loop,
  vfs_mount_resolve,
}

module _ {M : Type 0} (s : Vfs M) (path : List ℕ) where
  -- The place `id` has a path that `path` is below, and a superblock.
  abbrev pub IsCandidate : ℕ → List ℕ → Type 0
  IsCandidate id mnt =
      (vfs_mount_path_get s id ≡ some mnt)
      × (vfs_mount_sb_get s id ≢ 0)
      × (is_below path mnt ≡ true)

  -- After the first `n` places: the best candidate, with the length of its path and 1, or 0 if there is none.
  IsUpper : ℕ → ℕ → Type 0
  IsUpper n best_len = (id : ℕ) (mnt : List ℕ) → id < n → IsCandidate id mnt → length mnt < best_len

  IsChosen : ℕ → ℕ → ℕ → Type 0
  IsChosen n best_sb best_len =
      (best_sb ≡ 0) × (best_len ≡ 0)
      ⊎ ((id : ℕ) × (mnt : List ℕ) × (id < n)
          × IsCandidate id mnt
          × (best_sb ≡ vfs_mount_sb_get s id)
          × (best_len ≡ length mnt + 1))

  IsChosen-more : (n b l : ℕ) → IsChosen n b l → IsChosen (n + 1) b l
  unfolding IsChosen
  IsChosen-more n b l (inl e) = inl e
  IsChosen-more n b l (inr (id, mnt, k, c, e, f)) = inr (id, mnt, omega (arith, k), c, e, f)

  IsUpper-more :
      (n l l' : ℕ)
      → IsUpper n l
      → l ≤ l'
      → ((mnt : List ℕ) → IsCandidate n mnt → length mnt < l')
      → IsUpper (n + 1) l'
  unfolding IsUpper
  IsUpper-more n l l' u a h id mnt k c = elim (Bool-cases (id == n)) [
    | inl e ↦ let z : id ≡ n = ground arith in h mnt (subst (λ j. IsCandidate j mnt) z c)
    | inr e ↦ omega (arith, u id mnt (ground (arith, k)) c, a)
  ]

  -- The test of the loop for the place `n` with the path `mnt`.
  abbrev better : ℕ → List ℕ → ℕ → Bool
  better n mnt l = not (vfs_mount_sb_get s n == 0) && ltb l (length mnt + 1) && is_below path mnt

  same_path :
      (n : ℕ) (mnt mnt' : List ℕ)
      → vfs_mount_path_get s n ≡ some mnt
      → IsCandidate n mnt'
      → mnt' ≡ mnt
  same_path n mnt mnt' e (f, c, d) = some_inj (sym f ∙ e)
    where
      some_inj : {a b : List ℕ} → some a ≡ some b → a ≡ b
      some_inj {a} {b} q = ap (λ o. elim o [ none ↦ a | some x ↦ x ]) q

  IsBest : ℕ → ℕ → Type 0
  IsBest n r = (l : ℕ) × IsUpper n l × IsChosen n r l

  step-none :
      (left n b l : ℕ)
      → vfs_mount_path_get s n ≡ none
      → resolve_loop (suc left) n s path b l ≡ resolve_loop left (n + 1) s path b l
  unfolding resolve_loop
  step-none left n b l e = rw (e, resolve_loop) refl

  step-better :
      (left n b l : ℕ) (mnt : List ℕ)
      → vfs_mount_path_get s n ≡ some mnt
      → better n mnt l ≡ true
      → resolve_loop (suc left) n s path b l
        ≡ resolve_loop left (n + 1) s path (vfs_mount_sb_get s n) (length mnt + 1)
  unfolding resolve_loop
  step-better left n b l mnt e f = rw (e, f, resolve_loop) refl

  step-worse :
      (left n b l : ℕ) (mnt : List ℕ)
      → vfs_mount_path_get s n ≡ some mnt
      → better n mnt l ≡ false
      → resolve_loop (suc left) n s path b l ≡ resolve_loop left (n + 1) s path b l
  unfolding resolve_loop
  step-worse left n b l mnt e f = rw (e, f, resolve_loop) refl

  better-longer : (n : ℕ) (mnt : List ℕ) (l : ℕ) → better n mnt l ≡ true → l ≤ length mnt + 1
  better-longer n mnt l f = ground arith

  better-IsChosen :
      (n : ℕ) (mnt : List ℕ) (l : ℕ)
      → vfs_mount_path_get s n ≡ some mnt
      → better n mnt l ≡ true
      → IsChosen (n + 1) (vfs_mount_sb_get s n) (length mnt + 1)
  unfolding IsChosen
  better-IsChosen n mnt l e f =
      inr (n, mnt, omega arith, (e, ground arith, ground arith), refl, refl)

  worse-short :
      (n l : ℕ) (mnt mnt' : List ℕ)
      → vfs_mount_path_get s n ≡ some mnt
      → better n mnt l ≡ false
      → IsCandidate n mnt'
      → length mnt' < l
  worse-short n l mnt mnt' e f (g, sb, below) =
      let q = same_path n mnt mnt' e (g, sb, below) in
      let below' : is_below path mnt ≡ true = subst (λ m. is_below path m ≡ true) q below in
      let some_sb : vfs_mount_sb_get s n == 0 ≡ false = ground arith in
      let short : ltb l (length mnt + 1) ≡ false = ground arith in ground (arith, ap length q)

  resolve_loop-IsBest :
      (left n b l : ℕ)
      → IsUpper n l
      → IsChosen n b l
      → IsBest (n + left) (resolve_loop left n s path b l)
  unfolding resolve_loop IsBest
  resolve_loop-IsBest zero n b l u c =
      let z : n ≡ n + 0 = omega arith in subst (λ k. IsBest k b) z (l, u, c)
  resolve_loop-IsBest (suc left) n b l u c =
      let z : n + 1 + left ≡ n + suc left = omega arith in
      subst (λ k. IsBest k (resolve_loop (suc left) n s path b l)) z
        (elim (Option-cases (vfs_mount_path_get s n)) [
          | inl e ↦ subst (IsBest (n + 1 + left)) (sym (step-none left n b l e)) (
              resolve_loop-IsBest left (n + 1) b l
                (IsUpper-more n l l u (omega arith)
                  (λ mnt k. absurd (false≢true (ap is_null (sym k.0 ∙ e)))))
                (IsChosen-more n b l c))
          | inr (mnt, e) ↦ elim (Bool-cases (better n mnt l)) [
            | inl f ↦ subst (IsBest (n + 1 + left)) (sym (step-better left n b l mnt e f)) (
                resolve_loop-IsBest left (n + 1) (vfs_mount_sb_get s n) (length mnt + 1)
                  (IsUpper-more n l (length mnt + 1) u (better-longer n mnt l f)
                    (λ mnt' k. omega (arith, ap length (same_path n mnt mnt' e k))))
                  (better-IsChosen n mnt l e f))
            | inr f ↦ subst (IsBest (n + 1 + left)) (sym (step-worse left n b l mnt e f)) (
                resolve_loop-IsBest left (n + 1) b l
                  (IsUpper-more n l l u (omega arith) (λ mnt' k. worse-short n l mnt mnt' e f k))
                  (IsChosen-more n b l c))
          ]
        ])

module _ {M : Type 0} where
  -- The superblock of the place with the longest path that `path` is below, or NULL if there is none.
  abbrev pub IsResolved : Vfs M → List ℕ → ℕ → Type 0
  IsResolved s path r =
      (r ≡ 0) × ((id : ℕ) (mnt : List ℕ) → id < s.mount_max → ¬ IsCandidate s path id mnt)
      ⊎ ((id : ℕ) × (mnt : List ℕ) × (id < s.mount_max)
          × IsCandidate s path id mnt
          × (r ≡ vfs_mount_sb_get s id)
          × ((id' : ℕ) (mnt' : List ℕ)
              → id' < s.mount_max
              → IsCandidate s path id' mnt'
              → length mnt' ≤ length mnt))

  -- vfs_mount_resolve of an absolute path gives the superblock of the mounted file system with the longest
  -- path that is a prefix of it up to a slash or its end, and NULL exactly if there is no such file system.
  pub vfs_mount_resolve-IsResolved :
      (s : Vfs M) (path : List ℕ)
      → is_absolute path ≡ true
      → IsResolved s path (vfs_mount_resolve s (some path))
  unfolding vfs_mount_resolve IsBest IsUpper IsChosen
  vfs_mount_resolve-IsResolved s path a =
      let (l, u, c) =
        resolve_loop-IsBest s path s.mount_max 0 0 0 (λ id mnt k. absurd (omega (arith, k)))
          (inl (refl, refl)) in
      rw a (elim c [
        | inl (z, y) ↦ inl (z, λ id mnt k d. omega (arith, u id mnt (omega (arith, k)) d, y))
        | inr (id, mnt, k, d, e, f) ↦ inr (
          id,
          mnt,
          omega (arith, k),
          d,
          e,
          λ id' mnt' k' d'. omega (arith, u id' mnt' (omega (arith, k')) d', f),
        )
      ])
