-- ===== src/Htopen/Change.antt =====
-- The invariant of a hash table, the pairs that it holds, and how a change of one slot changes them.
use ko.Base.{
  ℕ, ◌<◌, ◌≤◌, ◌≡◌, ◌≢◌, ◌⊎◌, refl, true, false, ◌==◌, arith, Bool-cases, inl, inr, ◌∙◌, subst, sym,
  ap, fun_ext,
}
use mathlib.Core.Logic.{◌↔◌}
use ko.Htopen.{Key, Cell, null, freed, used, Table, hash, set_slot}
use ko.Htopen.Keys.{IsKey}

-- `h` is a probe of `key` that the search reaches: no earlier probe is an empty slot.
abbrev pub Reached : Table → Key → ℕ → Type 0
Reached ht key h =
    (t : ℕ) × (t < ht.size)
    × (hash ht.size key t ≡ h)
    × ((u : ℕ) → u < t → (ht.bucket (hash ht.size key u)).key ≢ null)

pub record IsTable (ht : Table) : Type 0 where
  pub sized : 2 ≤ ht.size
  pub keys : (h : ℕ) (k : Key) → h < ht.size → (ht.bucket h).key ≡ used k → IsKey ht.words k
  pub once :
      (g h : ℕ) (k : Key)
      → g < ht.size
      → h < ht.size
      → (ht.bucket g).key ≡ used k
      → (ht.bucket h).key ≡ used k
      → g ≡ h
  pub probed : (h : ℕ) (k : Key) → h < ht.size → (ht.bucket h).key ≡ used k → Reached ht k h

-- The table maps `k` to `v`: the abstract view, which does not look at the probes.
abbrev pub Holds : Table → Key → ℕ → Type 0
Holds ht k v = (h : ℕ) × (h < ht.size) × ((ht.bucket h).key ≡ used k) × ((ht.bucket h).val ≡ v)

-- No slot has the key.
abbrev pub Lacks : Table → Key → Type 0
Lacks ht k = (h : ℕ) → h < ht.size → (ht.bucket h).key ≢ used k

-- The pairs of the other keys are the same.
abbrev pub SameOthers : Table → Key → Table → Type 0
SameOthers ht key ht' = (k : Key) (v : ℕ) → k ≢ key → Holds ht' k v ↔ Holds ht k v

-- The table maps `key` to `val`, and all else is the same.
pub record IsPut (ht : Table) (key : Key) (val : ℕ) (ht' : Table) : Type 0 where
  pub table : IsTable ht'
  pub size : ht'.size ≡ ht.size
  pub words : ht'.words ≡ ht.words
  pub here : Holds ht' key val
  pub others : SameOthers ht key ht'
  pub taken : (g : ℕ) → (ht.bucket g).key ≢ null → (ht'.bucket g).key ≢ null

-- The table has lost `key`, and all else is the same.
pub record IsRemoved (ht : Table) (key : Key) (ht' : Table) : Type 0 where
  pub table : IsTable ht'
  pub size : ht'.size ≡ ht.size
  pub words : ht'.words ≡ ht.words
  pub absent : Lacks ht' key
  pub others : SameOthers ht key ht'
  pub taken : (g : ℕ) → (ht.bucket g).key ≢ null → (ht'.bucket g).key ≢ null

freed≢used : (k : Key) → freed ≢ used k
freed≢used k e = cc

null≢used : (k : Key) → null ≢ used k
null≢used k e = cc

used_inj : (a b : Key) → used a ≡ used b → a ≡ b
used_inj a b e = cc

taken_kept :
    (ht : Table) (s : ℕ) (c : Cell) (v : ℕ)
    → c ≢ null
    → (a : ℕ) → (ht.bucket a).key ≢ null
    → ((set_slot ht s c v).bucket a).key ≢ null
taken_kept ht s c v n a f = elim (Bool-cases (a == s)) [ inl e ↦ rw e n | inr e ↦ rw e f ]

Reached-kept :
    (ht : Table) (s : ℕ) (c : Cell) (v : ℕ) (key : Key) (h : ℕ)
    → c ≢ null
    → Reached ht key h
    → Reached (set_slot ht s c v) key h
Reached-kept ht s c v key h n (t, l, e, f) =
    (t, l, e, λ u g. taken_kept ht s c v n (hash ht.size key u) (f u g))

module _ (ht : Table) (table : IsTable ht) (key : Key) (h : ℕ) (l : h < ht.size) where
  -- The slot of a key becomes free.
  pub free_slot-IsRemoved :
      (v : ℕ) → (ht.bucket h).key ≡ used key → IsRemoved ht key (set_slot ht h freed v)
  free_slot-IsRemoved v e = record {
    table = record {
      sized = table.sized;
      keys = λ g k lg eg. table.keys g k lg (kept g k eg).1;
      once = λ g g' k lg lg' eg eg'. table.once g g' k lg lg' (kept g k eg).1 (kept g' k eg').1;
      probed = λ g k lg eg.
          Reached-kept ht h freed v k g (ground arith) (table.probed g k lg (kept g k eg).1);
    };
    size = refl;
    words = refl;
    absent = λ g lg eg. (kept g key eg).0 (table.once g h key lg l (kept g key eg).1 e);
    others = λ k w n. (
      λ (g, lg, eg, vg). (g, lg, (kept g k eg).1, same_val g (kept g k eg).0 vg),
      λ (g, lg, eg, vg). (g, lg, stays g k n eg, same_val' g k n eg vg),
    );
    taken = taken_kept ht h freed v (λ f. ground arith);
  }
    where
      kept :
          (g : ℕ) (k : Key)
          → ((set_slot ht h freed v).bucket g).key ≡ used k
          → (g ≢ h) × ((ht.bucket g).key ≡ used k)
      kept g k eg = elim (Bool-cases (g == h)) [
        | inl f ↦ absurd (freed≢used k (rw f at eg))
        | inr f ↦ (ground arith, rw f at eg)
      ]

      same_val :
          (g : ℕ)
          → g ≢ h
          → {w : ℕ} → ((set_slot ht h freed v).bucket g).val ≡ w
          → (ht.bucket g).val ≡ w
      same_val g n eg = let f : g == h ≡ false = ground arith in rw f at eg

      other : (g : ℕ) (k : Key) → k ≢ key → (ht.bucket g).key ≡ used k → g == h ≡ false
      other g k n eg = elim (Bool-cases (g == h)) [
        | inl f ↦
            let z : g ≡ h = ground arith in
            absurd
              (n (used_inj k key (sym eg ∙ subst (λ y. (ht.bucket y).key ≡ used key) (sym z) e)))
        | inr f ↦ f
      ]

      stays :
          (g : ℕ) (k : Key)
          → k ≢ key
          → (ht.bucket g).key ≡ used k
          → ((set_slot ht h freed v).bucket g).key ≡ used k
      stays g k n eg = let f : g == h ≡ false = other g k n eg in rw f eg

      same_val' :
          (g : ℕ) (k : Key)
          → k ≢ key
          → (ht.bucket g).key ≡ used k
          → {w : ℕ} → (ht.bucket g).val ≡ w
          → ((set_slot ht h freed v).bucket g).val ≡ w
      same_val' g k n eg eq = let f : g == h ≡ false = other g k n eg in rw f eq

module _ (ht : Table) (table : IsTable ht) (key : Key) (s : ℕ) (l : s < ht.size) (v : ℕ) where
  abbrev after : Table
  after = set_slot ht s (used key) v

  -- What a slot holds after the change: the new key, or what it held before.
  split :
      (g : ℕ) (k : Key)
      → (after.bucket g).key ≡ used k
      → ((g ≡ s) × (k ≡ key)) ⊎ ((g == s ≡ false) × ((ht.bucket g).key ≡ used k))
  split g k eg = elim (Bool-cases (g == s)) [
    | inl f ↦ inl (ground arith, sym (used_inj key k (rw f at eg)))
    | inr f ↦ inr (f, rw f at eg)
  ]

  -- A free slot that the search for an absent key reaches takes the key.
  pub take_slot-IsPut :
      IsKey ht.words key
      → Lacks ht key
      → ((k : Key) → (ht.bucket s).key ≢ used k)
      → Reached ht key s
      → IsPut ht key v (set_slot ht s (used key) v)
  take_slot-IsPut good lacks free reached = record {
    table = record {
      sized = table.sized;
      keys = λ g k lg eg. elim (split g k eg) [
        | inl (f, same) ↦ subst (IsKey ht.words) (sym same) good
        | inr (f, old) ↦ table.keys g k lg old
      ];
      once = λ g h k lg lh eg eh. elim (split g k eg) [
        | inl (f, same) ↦ elim (split h k eh) [
          | inl (f', same') ↦ f ∙ sym f'
          | inr (f', old') ↦ absurd (lacks h lh (old' ∙ ap used same))
        ]
        | inr (f, old) ↦ elim (split h k eh) [
          | inl (f', same') ↦ absurd (lacks g lg (old ∙ ap used same'))
          | inr (f', old') ↦ table.once g h k lg lh old old'
        ]
      ];
      probed = λ g k lg eg. elim (split g k eg) [
        | inl (f, same) ↦
            subst (λ a. Reached after a g) (sym same)
              (subst (Reached after key) (sym f)
                (Reached-kept ht s (used key) v key s (λ e. null≢used key (sym e)) reached))
        | inr (f, old) ↦
            Reached-kept ht s (used key) v k g (λ e. null≢used key (sym e))
              (table.probed g k lg old)
      ];
    };
    size = refl;
    words = refl;
    here = (s, l, ground arith, ground arith);
    others = λ k w n. (
      λ (g, lg, eg, vg). elim (split g k eg) [
        | inl (f, same) ↦ absurd (n same)
        | inr (f, old) ↦ (g, lg, old, rw f at vg)
      ],
      λ (g, lg, eg, vg). let f : g == s ≡ false = outside g k lg eg in (g, lg, rw f eg, rw f vg),
    );
    taken = taken_kept ht s (used key) v (λ f. ground arith);
  }
    where
      outside : (g : ℕ) (k : Key) → g < ht.size → (ht.bucket g).key ≡ used k → g == s ≡ false
      outside g k lg eg = elim (Bool-cases (g == s)) [
        | inl f ↦
            let z : g ≡ s = ground arith in
            absurd (free k (subst (λ y. (ht.bucket y).key ≡ used k) z eg))
        | inr f ↦ f
      ]

IsRemoved-IsPut :
    (ht h1 h2 : Table) (key : Key) (v : ℕ)
    → IsRemoved ht key h1
    → IsPut h1 key v h2
    → IsPut ht key v h2
IsRemoved-IsPut ht h1 h2 key v r p = record {
  table = p.table;
  size = p.size ∙ r.size;
  words = p.words ∙ r.words;
  here = p.here;
  others = λ k w n. (
    λ x. (r.others k w n).0 ((p.others k w n).0 x),
    λ x. (p.others k w n).1 ((r.others k w n).1 x),
  );
  taken = λ g n. p.taken g (r.taken g n);
}

module _ (ht : Table) (table : IsTable ht) (key : Key) (h : ℕ) (l : h < ht.size) where
  -- A key moves from its slot to a free one that the search reaches.
  pub move_slot-IsPut :
      (v w s : ℕ)
      → (ht.bucket h).key ≡ used key
      → s < ht.size
      → (ht.bucket s).key ≡ freed
      → Reached ht key s
      → IsPut ht key v (set_slot (set_slot ht h freed w) s (used key) v)
  move_slot-IsPut v w s e ls es reached =
      let r = free_slot-IsRemoved ht table key h l w e in
      IsRemoved-IsPut ht (set_slot ht h freed w) (set_slot (set_slot ht h freed w) s (used key) v)
        key v r
        (take_slot-IsPut (set_slot ht h freed w) r.table key s ls v (table.keys h key l e) r.absent
          (λ k f. freed≢used k (sym (still k f)))
          (Reached-kept ht h freed w key s (ground arith) reached))
    where
      still : (k : Key) → ((set_slot ht h freed w).bucket s).key ≡ used k → used k ≡ freed
      still k f = elim (Bool-cases (s == h)) [
        | inl c ↦ sym (rw c at f)
        | inr c ↦ sym (rw c at f) ∙ es
      ]

  set_slot_twice : (c d : Cell) (w v : ℕ) → set_slot (set_slot ht h c w) h d v ≡ set_slot ht h d v
  set_slot_twice c d w v = ap (λ b. record ht { bucket = b }) (fun_ext (λ q. ground arith))

  -- A key gets a new value.
  pub overwrite-IsPut :
      (v : ℕ) → (ht.bucket h).key ≡ used key → IsPut ht key v (set_slot ht h (used key) v)
  overwrite-IsPut v e =
      let r = free_slot-IsRemoved ht table key h l 0 e in
      subst (IsPut ht key v) (set_slot_twice freed (used key) 0 v) (
        IsRemoved-IsPut ht (set_slot ht h freed 0) (set_slot (set_slot ht h freed 0) h (used key) v)
          key v r
          (take_slot-IsPut (set_slot ht h freed 0) r.table key h l v (table.keys h key l e) r.absent
            (λ k f. still k f)
            (Reached-kept ht h freed 0 key h (ground arith) (table.probed h key l e))))
    where
      still : (k : Key) → ((set_slot ht h freed 0).bucket h).key ≢ used k
      still k f = let c : h == h ≡ true = ground arith in freed≢used k (rw c at f)
