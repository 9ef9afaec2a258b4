-- ===== src/Htopen/Get.antt =====
-- What hto_get does to the pairs of a table.
use ko.Base.{
  ℕ, zero, suc, ◌+◌, ◌<◌, ◌≡◌, refl, Option, none, some, arith, Bool-cases, inl, inr, ◌∙◌, subst,
  sym, ap,
}
use ko.Htopen.{Key, freed, used, Table, same_key, set_slot, move, first_slot, get_loop, hto_get}
use ko.Htopen.Keys.{IsKey}
use ko.Htopen.Change.{IsTable, Holds, Lacks, IsPut, move_slot-IsPut}
use ko.Htopen.Probe.{
  Scanned, Best, Cell-cases, probe, at_probe, probe-lt, Scanned-next, Best-next, Best-first,
  FreeProbe-Reached, Lacks-all, Lacks-null, differs, found,
}

-- What hto_get returns: 0 and the same table for a key that is not there, and otherwise its value with
-- a table of the same pairs, in which the key may have moved to an earlier slot.
pub data IsGot (ht : Table) (key : Key) (r : ℕ × Table) : Type 0 where
  missing : Lacks ht key → r.0 ≡ 0 → r.1 ≡ ht → IsGot ht key r
  there : Holds ht key r.0 → IsPut ht key r.0 r.1 → IsGot ht key r

module _ (ht : Table) (table : IsTable ht) (key : Key) (good : IsKey ht.words key) where
  hit-IsGot :
      (try : ℕ) (slot : Option ℕ) (k : Key)
      → try < ht.size
      → Scanned ht key try
      → Best ht key try slot
      → at_probe ht table key good try ≡ used k
      → k ≡ key
      → let h = probe ht table key good try in
        let val = (ht.bucket h).val in
        IsGot ht key (val, elim slot [ none ↦ ht | some s ↦ move ht s h k val ])
  unfolding move
  hit-IsGot try none k l sc b e same =
      let h = probe ht table key good try in
      let lh = probe-lt ht table key good try in
      let e' : at_probe ht table key good try ≡ used key = e ∙ ap used same in
      there (h, lh, e', refl)
        record {
          table = table;
          size = refl;
          words = refl;
          here = (h, lh, e', refl);
          others = λ q w n. (λ x. x, λ x. x);
          taken = λ g n. n;
        }
  hit-IsGot try (some s) k l sc b e same =
      let h = probe ht table key good try in
      let lh = probe-lt ht table key good try in
      let e' : at_probe ht table key good try ≡ used key = e ∙ ap used same in
      let (ls, reached) = FreeProbe-Reached ht table key good try s (omega arith) sc b in
      there (h, lh, e', refl)
        (subst
          (λ y.
            IsPut ht key (ht.bucket h).val
              (set_slot (set_slot ht h freed (ht.bucket h).val) s (used y) (ht.bucket h).val))
          (sym same)
          (move_slot-IsPut ht table key h lh (ht.bucket h).val (ht.bucket h).val s e' ls b.3
            reached))

  get_loop-IsGot :
      (left try : ℕ) (slot : Option ℕ)
      → left + try ≡ ht.size
      → Scanned ht key try
      → Best ht key try slot
      → IsGot ht key (get_loop left ht key try slot)
  unfolding get_loop
  get_loop-IsGot zero try slot e sc b =
      missing (Lacks-all ht table key good (subst (Scanned ht key) (omega arith) sc)) refl refl
  get_loop-IsGot (suc left) try slot e sc b = elim (Cell-cases (at_probe ht table key good try)) [
    | inl c ↦ rw (c, get_loop) (missing (Lacks-null ht table key good try sc c) refl refl)
    | inr (inl c) ↦
        rw (c, get_loop)
          (get_loop-IsGot left (try + 1) (first_slot slot (probe ht table key good try))
            (omega arith)
            (Scanned-next ht table key good try sc (λ f. ground arith) (λ f. ground arith))
            (Best-first ht table key good try slot c b))
    | inr (inr (k, c)) ↦ elim (Bool-cases (same_key key k)) [
      | inl d ↦
          rw (c, get_loop, d)
            (hit-IsGot try slot k (omega arith) sc b c (found ht table key good try k c d))
      | inr d ↦
          rw (c, get_loop, d)
            (get_loop-IsGot left (try + 1) slot (omega arith)
              (Scanned-next ht table key good try sc (λ f. ground arith)
                (differs ht table key good try k c d))
              (Best-next ht table key good try slot b))
    ]
  ]

  -- hto_get on a well-formed table: 0 and no change for a key that is not there, otherwise the value
  -- that the table maps the key to, and a well-formed table with the same pairs.
  pub hto_get-IsGot : IsGot ht key (hto_get ht key)
  unfolding hto_get
  hto_get-IsGot = get_loop-IsGot ht.size 0 none (omega arith) (λ u l. absurd (omega arith)) tt
