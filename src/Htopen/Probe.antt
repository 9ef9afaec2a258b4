-- ===== src/Htopen/Probe.antt =====
-- The loops of hto_get, hto_set and hto_del over the probes of a key.
use ko.Base.{
  ℕ, ◌+◌, ◌<◌, ◌≤◌, ◌≡◌, ◌≢◌, ◌⊎◌, refl, true, false, ◌==◌, ltb, Option, none, some, arith,
  Bool-cases, inl, inr, ◌∙◌, subst, sym,
}
use ko.Htopen.{Key, Cell, null, freed, used, Table, hash, same_key, first_slot}
use ko.Htopen.Keys.{IsKey, hash-lt, same_key_refl, same_key-eq}
use ko.Htopen.Change.{Reached, IsTable, Lacks}

-- The first `try` probes are neither empty nor the key.
abbrev pub Scanned : Table → Key → ℕ → Type 0
Scanned ht key try =
    (u : ℕ)
    → u < try
    → ((ht.bucket (hash ht.size key u)).key ≢ null)
      × ((ht.bucket (hash ht.size key u)).key ≢ used key)

-- One of the first `try` probes is the free slot `s`.
abbrev pub FreeProbe : Table → Key → ℕ → ℕ → Type 0
FreeProbe ht key try s =
    (t : ℕ) × (t < try) × (hash ht.size key t ≡ s) × ((ht.bucket s).key ≡ freed)

abbrev pub Best : Table → Key → ℕ → Option ℕ → Type 0
Best ht key try none = Unit
Best ht key try (some s) = FreeProbe ht key try s

pub Cell-cases : (c : Cell) → (c ≡ null) ⊎ (c ≡ freed) ⊎ ((k : Key) × (c ≡ used k))
Cell-cases null = inl refl
Cell-cases freed = inr (inl refl)
Cell-cases (used k) = inr (inr (k, refl))

module _ (ht : Table) (table : IsTable ht) (key : Key) (good : IsKey ht.words key) where
  abbrev pub probe : ℕ → ℕ
  probe try = hash ht.size key try

  abbrev pub at_probe : ℕ → Cell
  at_probe try = (ht.bucket (probe try)).key

  pub probe-lt : (try : ℕ) → probe try < ht.size
  probe-lt try = hash-lt ht.size key try (omega (arith, table.sized))

  pub Scanned-next :
      (try : ℕ)
      → Scanned ht key try
      → at_probe try ≢ null
      → at_probe try ≢ used key
      → Scanned ht key (try + 1)
  Scanned-next try sc n m u l = elim (Bool-cases (u == try)) [
    | inl e ↦
        let z : try ≡ u = ground arith in
        subst (λ y. (at_probe y ≢ null) × (at_probe y ≢ used key)) z (n, m)
    | inr e ↦ sc u (ground arith)
  ]

  pub Best-next : (try : ℕ) (slot : Option ℕ) → Best ht key try slot → Best ht key (try + 1) slot
  Best-next try none b = tt
  Best-next try (some s) (t, l, e, f) = (t, omega arith, e, f)

  pub Best-first :
      (try : ℕ) (slot : Option ℕ)
      → at_probe try ≡ freed
      → Best ht key try slot
      → Best ht key (try + 1) (first_slot slot (probe try))
  Best-first try none f b = (try, omega arith, refl, f)
  Best-first try (some s) f (t, l, e, g) = (t, omega arith, e, g)

  pub FreeProbe-Reached :
      (try s : ℕ)
      → try ≤ ht.size
      → Scanned ht key try
      → FreeProbe ht key try s
      → (s < ht.size) × Reached ht key s
  FreeProbe-Reached try s l sc (t, lt, e, f) =
      (subst (λ y. y < ht.size) e (probe-lt t), (t, omega arith, e, λ u lu. (sc u (omega arith)).0))

  -- The key is not in the table when all probes are scanned, or an empty slot is met.
  pub Lacks-all : Scanned ht key ht.size → Lacks ht key
  Lacks-all sc h l e =
      let (t, lt, eh, f) = table.probed h key l e in
      (sc t lt).1 (subst (λ y. (ht.bucket y).key ≡ used key) (sym eh) e)

  pub Lacks-null : (try : ℕ) → Scanned ht key try → at_probe try ≡ null → Lacks ht key
  Lacks-null try sc n h l e =
      let (t, lt, eh, f) = table.probed h key l e in
      let here : at_probe t ≡ used key = subst (λ y. (ht.bucket y).key ≡ used key) (sym eh) e in
      elim (Bool-cases (ltb t try)) [
        | inl c ↦ (sc t (ground arith)).1 here
        | inr c ↦ elim (Bool-cases (ltb try t)) [
          | inl d ↦ f try (ground arith) n
          | inr d ↦
              let z : t ≡ try = ground arith in
              null≢used (sym n ∙ subst (λ y. at_probe y ≡ used key) z here)
        ]
      ]
    where
      null≢used : null ≢ used key
      null≢used e = cc

  pub differs :
      (try : ℕ) (k : Key) → at_probe try ≡ used k → same_key key k ≡ false → at_probe try ≢ used key
  differs try k e d f =
      let z : k ≡ key = used_inj (sym e ∙ f) in
      true≢false (sym (same_key_refl ht.words key good) ∙ subst (λ y. same_key key y ≡ false) z d)
    where
      used_inj : used k ≡ used key → k ≡ key
      used_inj e = cc

      true≢false : true ≢ false
      true≢false e = cc

  pub found : (try : ℕ) (k : Key) → at_probe try ≡ used k → same_key key k ≡ true → k ≡ key
  found try k e d =
      sym (same_key-eq ht.words key k good (table.keys (probe try) k (probe-lt try) e) d)
