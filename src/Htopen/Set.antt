-- ===== src/Htopen/Set.antt =====
-- What hto_set does to the pairs of a table.
use ko.Base.{
  ℕ, zero, suc, ◌+◌, ◌-◌, ◌<◌, ◌≤◌, ◌≡◌, ◌≢◌, refl, Bool, true, false, ◌==◌, Option, none, some,
  arith, Bool-cases, inl, inr, ◌∙◌, subst, sym, ap,
}
use ko.Base.Int.{ℤ, pos, negsuc}
use ko.Htopen.{
  Key, text, word, null, freed, used, Table, hash, same_key, set_slot, move, keydup, fill, reuse,
  set_loop, hto_set, enospc, is_keyfreed, keyfreed,
}
use ko.Htopen.Keys.{IsKey}
use ko.Htopen.Change.{IsTable, Lacks, IsPut, take_slot-IsPut, move_slot-IsPut, overwrite-IsPut}
use ko.Htopen.Probe.{
  Scanned, FreeProbe, Cell-cases, probe, at_probe, probe-lt, Scanned-next, FreeProbe-Reached,
  Lacks-all, Lacks-null, differs, found,
}

-- What hto_set returns: the key has the value and all else is the same; or the table is full, without
-- the key, and is not changed.
pub data IsStored (ht : Table) (key : Key) (val : ℕ) (r : ℤ × Table) : Type 0 where
  stored : (try : ℕ) → r.0 ≡ pos try → try < ht.size → IsPut ht key val r.1 → IsStored ht key val r
  full :
      r.0 ≡ negsuc (enospc - 1)
      → r.1 ≡ ht
      → Lacks ht key
      → ((u : ℕ) → u < ht.size → (k : Key) × ((ht.bucket (hash ht.size key u)).key ≡ used k))
      → IsStored ht key val r

-- All of the first probes are keys, where no free slot has been met.
abbrev BestTry : Table → Key → ℕ → Option (ℕ × ℕ) → Type 0
BestTry ht key try none =
    (u : ℕ) → u < try → (k : Key) × ((ht.bucket (hash ht.size key u)).key ≡ used k)
BestTry ht key try (some st) = FreeProbe ht key try st.0 × (st.1 < try)

keydup-used : (words : Bool) (key : Key) → IsKey words key → keydup true key ≡ used key
unfolding keydup
keydup-used words (text cs) h = refl
keydup-used words (word w) h =
    let z : w == 0 ≡ false = ground (arith, h) in
    let f : w == keyfreed ≡ false = ground (arith, h) in rw (z, f) refl

-- The counters do not matter.
IsPut-counters :
    (ht ht' : Table) (key : Key) (val e f : ℕ)
    → IsPut ht key val ht'
    → IsPut ht key val (record ht' { empty = e; freed_nb = f })
IsPut-counters ht ht' key val e f p = record {
  table = record {
    sized = p.table.sized;
    keys = p.table.keys;
    once = p.table.once;
    probed = p.table.probed;
  };
  size = p.size;
  words = p.words;
  here = p.here;
  others = p.others;
  taken = p.taken;
}

module _ (ht : Table) (table : IsTable ht) (key : Key) (good : IsKey ht.words key) (val : ℕ) where
  reuse-IsPut :
      (try s : ℕ)
      → try ≤ ht.size
      → Scanned ht key try
      → FreeProbe ht key try s
      → Lacks ht key
      → IsPut ht key val (reuse true ht s key val)
  unfolding reuse fill
  reuse-IsPut try s l sc b lacks =
      let (ls, reached) = FreeProbe-Reached ht table key good try s l sc b in
      rw (keydup-used ht.words key good) (
        IsPut-counters ht (set_slot ht s (used key) val) key val ht.empty (ht.freed_nb - 1)
          (take_slot-IsPut ht table key s ls val good lacks (λ k f. not_free k s b.3 f) reached))
    where
      not_free : (k : Key) (s : ℕ) → (ht.bucket s).key ≡ freed → (ht.bucket s).key ≢ used k
      not_free k s e f = ground arith

  new-IsPut :
      (try : ℕ)
      → try < ht.size
      → Scanned ht key try
      → at_probe ht table key good try ≡ null
      → IsPut ht key val
          (fill true (record ht { empty = ht.empty - 1 }) (probe ht table key good try) key val)
  unfolding fill
  new-IsPut try l sc c =
      let s = probe ht table key good try in
      rw (keydup-used ht.words key good) (
        IsPut-counters ht (set_slot ht s (used key) val) key val (ht.empty - 1) ht.freed_nb (
          take_slot-IsPut ht table key s (probe-lt ht table key good try) val good
            (Lacks-null ht table key good try sc c) (λ k f. ground arith)
            (try, l, refl, λ u lu. (sc u lu).0)))

  hit-IsPut :
      (try : ℕ) (slot : Option (ℕ × ℕ)) (k : Key)
      → try < ht.size
      → Scanned ht key try
      → BestTry ht key try slot
      → at_probe ht table key good try ≡ used k
      → k ≡ key
      → let h = probe ht table key good try in
        IsPut ht key val
          (elim slot [ none ↦ set_slot ht h (used k) val | some st ↦ move ht st.0 h k val ])
  unfolding move
  hit-IsPut try none k l sc b e same =
      let h = probe ht table key good try in
      subst (λ y. IsPut ht key val (set_slot ht h (used y) val)) (sym same)
        (overwrite-IsPut ht table key h (probe-lt ht table key good try) val (e ∙ ap used same))
  hit-IsPut try (some st) k l sc b e same =
      let h = probe ht table key good try in
      let w = (ht.bucket h).val in
      let (ls, reached) = FreeProbe-Reached ht table key good try st.0 (omega arith) sc b.0 in
      subst (λ y. IsPut ht key val (set_slot (set_slot ht h freed w) st.0 (used y) val)) (sym same)
        (move_slot-IsPut ht table key h (probe-lt ht table key good try) val w st.0
          (e ∙ ap used same) ls b.0.3 reached)

  BestTry-used :
      (try : ℕ) (slot : Option (ℕ × ℕ)) (k : Key)
      → at_probe ht table key good try ≡ used k
      → BestTry ht key try slot
      → BestTry ht key (try + 1) slot
  BestTry-used try none k e b = λ u l. elim (Bool-cases (u == try)) [
    | inl c ↦
        let z : try ≡ u = ground arith in
        (k, subst (λ y. at_probe ht table key good y ≡ used k) z e)
    | inr c ↦ b u (ground arith)
  ]
  BestTry-used try (some st) k e ((t, l, p, f), m) = ((t, omega arith, p, f), omega arith)

  BestTry-freed :
      (try : ℕ) (slot : Option (ℕ × ℕ))
      → at_probe ht table key good try ≡ freed
      → BestTry ht key try slot
      → BestTry ht key
          (try + 1)
          (elim slot [ none ↦ some (probe ht table key good try, try) | some st ↦ some st ])
  BestTry-freed try none e b = ((try, omega arith, refl, e), omega arith)
  BestTry-freed try (some st) e ((t, l, p, f), m) = ((t, omega arith, p, f), omega arith)

  end-IsStored :
      (slot : Option (ℕ × ℕ))
      → Scanned ht key ht.size
      → BestTry ht key ht.size slot
      → IsStored ht key val (set_loop 0 true ht key val ht.size slot)
  unfolding set_loop
  end-IsStored none sc b = full refl refl (Lacks-all ht table key good sc) b
  end-IsStored (some (s, t)) sc b =
      stored t refl b.1
        (reuse-IsPut ht.size s (omega arith) sc b.0 (Lacks-all ht table key good sc))

  empty-IsStored :
      (left try : ℕ) (slot : Option (ℕ × ℕ))
      → try < ht.size
      → Scanned ht key try
      → BestTry ht key try slot
      → at_probe ht table key good try ≡ null
      → IsStored ht key val (set_loop (suc left) true ht key val try slot)
  unfolding set_loop
  empty-IsStored left try none l sc b c =
      rw (c, set_loop) (stored try refl l (new-IsPut try l sc c))
  empty-IsStored left try (some st) l sc b c =
      rw (c, set_loop)
        (stored st.1 refl (omega (arith, b.1))
          (reuse-IsPut try st.0 (omega arith) sc b.0 (Lacks-null ht table key good try sc c)))

  set_loop-IsStored :
      (left try : ℕ) (slot : Option (ℕ × ℕ))
      → left + try ≡ ht.size
      → Scanned ht key try
      → BestTry ht key try slot
      → IsStored ht key val (set_loop left true ht key val try slot)
  unfolding set_loop
  set_loop-IsStored zero try slot e sc b =
      let z : ht.size ≡ try = omega arith in
      subst (λ y. IsStored ht key val (set_loop 0 true ht key val y slot)) z
        (end-IsStored slot (subst (Scanned ht key) (sym z) sc)
          (subst (λ y. BestTry ht key y slot) (sym z) b))
  set_loop-IsStored (suc left) try slot e sc b =
      elim (Cell-cases (at_probe ht table key good try)) [
        | inl c ↦ empty-IsStored left try slot (omega arith) sc b c
        | inr (inl c) ↦
            rw (c, set_loop)
              (set_loop-IsStored left (try + 1) _ (omega arith)
                (Scanned-next ht table key good try sc (λ f. ground arith) (λ f. ground arith))
                (BestTry-freed try slot c b))
        | inr (inr (k, c)) ↦ elim (Bool-cases (same_key key k)) [
          | inl d ↦
              rw (c, set_loop, d)
                (stored try refl (omega arith)
                  (hit-IsPut try slot k (omega arith) sc b c (found ht table key good try k c d)))
          | inr d ↦
              rw (c, set_loop, d)
                (set_loop-IsStored left (try + 1) slot (omega arith)
                  (Scanned-next ht table key good try sc (λ f. ground arith)
                    (differs ht table key good try k c d))
                  (BestTry-used try slot k c b))
        ]
      ]

  -- hto_set of a well-formed table, when a copy of the key can be made: the key is mapped to the value,
  -- all other pairs are the same and the table is well-formed; or all slots that the probes reach
  -- are taken by other keys, and the table is not changed.
  pub hto_set-IsStored : IsStored ht key val (hto_set true ht key val)
  unfolding hto_set
  hto_set-IsStored =
      let e : is_keyfreed key ≡ false = not_mark ht.words key good in
      rw e (
        set_loop-IsStored ht.size 0 none (omega arith) (λ u l. absurd (omega arith))
          (λ u l. absurd (omega arith)))
    where
      not_mark : (words : Bool) (key : Key) → IsKey words key → is_keyfreed key ≡ false
      not_mark words (text cs) h = refl
      not_mark words (word w) h = ground (arith, h)
