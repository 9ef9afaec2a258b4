-- ===== src/Vfs/Registry/Law.antt =====
-- The types of file systems as a map from names.
use ko.Base.{
  ℕ, zero, suc, ◌+◌, ◌<◌, ◌≤◌, ◌≡◌, ◌≢◌, ◌⊎◌, refl, sym, subst, ◌∙◌, true, false, false≢true, not,
  ◌==◌, ◌&&◌, if◌then◌else◌, arith, Bool-cases, inl, inr, update, some, List, [], ◌∷◌,
}
use ko.Base.Int.{ℤ, pos}
use ko.Vfs.State.{Vfs, FsType, same_text, eexist, enospc}
use ko.Vfs.Registry.{
  vfs_filesystem_max, is_named, get_loop, vfs_filesystem_get, register_loop, register_named,
  vfs_filesystem_register,
}

pub same_text_refl : (a : List ℕ) → same_text a a ≡ true
same_text_refl [] = refl
same_text_refl (x ∷ xs) = let e : x == x ≡ true = ground arith in rw e (same_text_refl xs)

module _ {M : Type 0} (fs : ℕ → FsType M) where
  -- An entry that does not have the name, put where nothing was, does not change the search.
  get_loop-other :
      (left i j ops : ℕ) (registry : ℕ → ℕ) (n : List ℕ)
      → registry j ≡ 0
      → is_named (fs ops).name n ≡ false
      → get_loop fs left i (update registry j ops) n ≡ get_loop fs left i registry n
  unfolding get_loop
  get_loop-other zero i j ops registry n z e = refl
  get_loop-other (suc left) i j ops registry n z e =
      let rest = get_loop-other left (i + 1) j ops registry n z e in
      elim (Bool-cases (i == j)) [
        | inl g ↦
            (let w : registry i ≡ 0 = subst (λ k. registry k ≡ 0) (ground arith) z in
              elim (Bool-cases (ops == 0)) [
                | inl f ↦ rw (g, w, f, rest) refl
                | inr f ↦ rw (g, w, f, e, rest) refl
              ])
        | inr g ↦ rw (g, rest) refl
      ]

  get_loop-new :
      (left i j ops : ℕ) (registry : ℕ → ℕ) (n : List ℕ)
      → registry j ≡ 0
      → ops ≢ 0
      → is_named (fs ops).name n ≡ true
      → i ≤ j
      → j < i + left
      → get_loop fs left i registry n ≡ 0
      → get_loop fs left i (update registry j ops) n ≡ ops
  unfolding get_loop
  get_loop-new zero i j ops registry n z o e a b h = absurd (omega (arith, a, b))
  get_loop-new (suc left) i j ops registry n z o e a b h = elim (Bool-cases (i == j)) [
    | inl g ↦ (let f : ops == 0 ≡ false = ground arith in rw (g, f, e) refl)
    | inr g ↦ (elim (Bool-cases (not (registry i == 0) && is_named (fs (registry i)).name n)) [
      | inl c ↦
          let w : registry i ≡ 0 =
            subst (λ b. (if b then registry i else get_loop fs left (i + 1) registry n) ≡ 0) c h in
          let v : (not (registry i == 0) && is_named (fs (registry i)).name n) ≡ false =
            rw w refl in
          absurd (false≢true (sym v ∙ c))
      | inr c ↦
          let w =
            subst (λ b. (if b then registry i else get_loop fs left (i + 1) registry n) ≡ 0) c h in
          let far : i ≢ j = ground arith in
          rw (g, c)
            (get_loop-new left (i + 1) j ops registry n z o e (omega (arith, a, far))
              (omega (arith, b)) w)
    ])
  ]

  -- The first slot that is empty, or none.
  register_loop-cases :
      (left i ops : ℕ) (s : Vfs M)
      → ((j : ℕ) × (i ≤ j)
          × (j < i + left)
          × (s.registry j ≡ 0)
          × (register_loop fs left i s ops
              ≡ (pos 0, record s { registry = update s.registry j ops })))
        ⊎ (register_loop fs left i s ops ≡ (enospc, s))
          × ((j : ℕ) → i ≤ j → j < i + left → s.registry j ≢ 0)
  unfolding register_loop
  register_loop-cases zero i ops s = inr (refl, λ j a b. absurd (omega (arith, a, b)))
  register_loop-cases (suc left) i ops s = elim (Bool-cases (s.registry i == 0)) [
    | inl e ↦ inl (i, omega arith, omega arith, ground arith, rw e refl)
    | inr e ↦ elim (register_loop-cases left (i + 1) ops s) [
      | inl (j, a, b, z, r) ↦ inl (j, omega (arith, a), omega (arith, b), z, rw e r)
      | inr (r, full) ↦ inr (
        rw e r,
        λ j a b. elim (Bool-cases (i == j)) [
          | inl g ↦ let w : i ≡ j = ground arith in subst (λ k. s.registry k ≢ 0) w (ground arith)
          | inr g ↦ full j (ground (arith, a)) (omega (arith, b))
        ],
      )
    ]
  ]

  -- The type `ops` is found by its name, and every other name finds what it found; or nothing changes, since the
  -- name is known, or since no slot is empty.
  abbrev pub IsRegistered : Vfs M → ℕ → List ℕ → ℤ × Vfs M → Type 0
  IsRegistered s ops name (r, s') =
      (r ≡ pos 0)
        × (vfs_filesystem_get fs s (some name) ≡ 0)
        × (vfs_filesystem_get fs s' (some name) ≡ ops)
        × ((n : List ℕ)
            → same_text name n ≡ false
            → vfs_filesystem_get fs s' (some n) ≡ vfs_filesystem_get fs s (some n))
      ⊎ (r ≡ eexist) × (vfs_filesystem_get fs s (some name) ≢ 0) × (s' ≡ s)
      ⊎ (r ≡ enospc)
        × (vfs_filesystem_get fs s (some name) ≡ 0)
        × ((j : ℕ) → j < vfs_filesystem_max → s.registry j ≢ 0)
        × (s' ≡ s)

  -- vfs_filesystem_register adds a type to the map from names to types that vfs_filesystem_get looks up, unless
  -- its name is there already (-EEXIST) or the 8 slots are in use (-ENOSPC); then nothing changes.
  pub vfs_filesystem_register-IsRegistered :
      (s : Vfs M) (ops : ℕ) (name : List ℕ)
      → ops ≢ 0
      → (fs ops).name ≡ some name
      → IsRegistered s ops name (vfs_filesystem_register fs s ops)
  unfolding vfs_filesystem_register register_named vfs_filesystem_get
  vfs_filesystem_register-IsRegistered s ops name o e =
      let f : ops == 0 ≡ false = ground arith in
      elim (Bool-cases (get_loop fs vfs_filesystem_max 0 s.registry name == 0)) [
        | inr g ↦ rw (f, e, g) (inr (inl (refl, ground arith, refl)))
        | inl g ↦ elim (register_loop-cases 8 0 ops s) [
          | inl (j, a, b, z, r) ↦
              let known : is_named (fs ops).name name ≡ true = rw e (same_text_refl name) in
              rw (f, e, g, r)
                (inl (
                  refl,
                  ground arith,
                  get_loop-new 8 0 j ops s.registry name z o known a b (ground arith),
                  λ n d. get_loop-other 8 0 j ops s.registry n z (rw e d),
                ))
          | inr (r, full) ↦
              rw (f, e, g, r)
                (inr (
                  inr (refl, ground arith, (λ j b. full j (omega arith) (omega (arith, b))), refl)))
        ]
      ]
