-- ===== src/Radix/Law.antt =====
-- The table of common/radix.c as a table: what radix_set promises to radix_get.
use ko.Base.{
  ℕ, ◌^◌, ◌≤◌, ◌<◌, ◌≡◌, ◌≢◌, ◌∙◌, sym, refl, inl, inr, List, [], arith, ◌==◌, ltb, Bool-cases, ap,
  Option, some, none,
}
use ko.Radix.{
  Radix, l1, l2, radix_create, radix_get, radix_set, put_l3, put_l2, put_l1, put_l0, top_l3, top_l2,
  top_l1, top_l0,
}
use ko.Radix.Tree.{AreFresh, IsTree, walk, walk_null, index_of}
use ko.Radix.Changes.{Step}
use ko.Radix.Put.{Ends, bind-Ends, Puts, put_l3-Puts, put_l2-Puts, put_l1-Puts, put_l0-Puts}
use ko.Radix.Raise.{root, way, radix_get-walk, Leads-root, IsSame}
use ko.Radix.Top.{IsTop, IsOut}
use ko.Radix.Roots.{top_l3-Tops, top_l2-Tops}
use ko.Radix.Upper.{top_l1-Tops, top_l0-Tops}

-- The nodes are a tree, with levels and indexes that fit.
pub record IsTable (rx : Radix) : Type 0 where
  pub lev : ℕ → ℕ
  pub pre : ℕ → ℕ
  pub tree : IsTree rx lev pre

-- The slot numbers of an index below the root of its case are not 0.
abbrev pub IsPlain : ℕ → Type 0
IsPlain i = (0x10000 ≤ i → l2 i ≢ 0) × (0x1000000 ≤ i → l1 i ≢ 0)

-- What a `radix_set` that returns 0 leaves.
pub record IsWritten (rx : Radix) (i val : ℕ) (rx' : Radix) : Type 0 where
  pub table : IsTable rx'
  pub read : radix_get rx' i ≡ val
  pub others : (j : ℕ) → j < 2 ^ 32 → j ≢ i → radix_get rx' j ≡ radix_get rx j

-- What a `radix_set` that returns -1 leaves.
pub record IsRefused (rx rx' : Radix) : Type 0 where
  pub table : IsTable rx'
  pub same : (j : ℕ) → j < 2 ^ 32 → radix_get rx' j ≡ radix_get rx j
  pub no_memory : rx'.supply ≡ []

-- The new table is in order, and has `NULL` everywhere.
pub radix_create-IsTable :
    (supply : List ℕ)
    → AreFresh (λ _. 0) supply
    → IsTable (radix_create supply) × ((j : ℕ) → radix_get (radix_create supply) j ≡ 0)
unfolding radix_create radix_get
radix_create-IsTable supply f = (
  record {
    lev = λ _. 0;
    pre = λ _. 0;
    tree = record {
      null = refl;
      child_lev = λ n c h z. absurd (z refl);
      child_pre = λ n c h z. absurd (z refl);
      at_l0 = λ z. absurd (z refl);
      at_l1 = λ z. absurd (z refl);
      at_l2 = λ z. absurd (z refl);
      at_l3 = λ z. absurd (z refl);
      fresh = f;
    };
  },
  λ j. radix_get-walk (radix_create supply) j ∙ ground arith,
)

index_of-way :
    {rx : Radix} {lev pre : ℕ → ℕ} (j : ℕ)
    → IsTree rx lev pre
    → j < 2 ^ 32
    → root rx j ≢ 0
    → index_of (pre (root rx j)) (way j) ≡ j
index_of-way {rx} {lev} {pre} j t h = elim (Bool-cases (ltb j 0x100)) [
  | inl a ↦ rw a (λ z. let p = (t.at_l3 z).1 in rw p (ground arith))
  | inr a ↦ elim (Bool-cases (ltb j 0x10000)) [
    | inl b ↦ rw (a, b) (λ z. let p = (t.at_l2 z).1 in rw p (ground arith))
    | inr b ↦ elim (Bool-cases (ltb j 0x1000000)) [
      | inl c ↦ rw (a, b, c) (λ z. let p = (t.at_l1 z).1 in rw p (ground arith))
      | inr c ↦ rw (a, b, c) (λ z. let p = (t.at_l0 z).1 in rw p (ground arith))
    ]
  ]
]

module _ {C : ℕ → Type 0} {rx rx' : Radix} {lev pre : ℕ → ℕ} (t : IsTree rx lev pre)
    (s : Step C rx lev pre rx') where
  Step-root : (j : ℕ) → root rx' j ≡ root rx j
  Step-root j = rw (s.same_l0, s.same_l1, s.same_l2, s.same_l3) refl

  Step-get : (j : ℕ) → j < 2 ^ 32 → (C j → ⊥) → radix_get rx' j ≡ radix_get rx j
  Step-get j h out =
      radix_get-walk rx' j
      ∙ ap (λ r. walk rx'.slots r (way j)) (Step-root j)
      ∙ elim (Bool-cases (root rx j == 0)) [
        | inl z ↦
            let e : root rx j ≡ 0 = ground arith in
            rw (e, walk_null rx'.slots (way j), walk_null rx.slots (way j)) refl
        | inr z ↦
            let nz : root rx j ≢ 0 = ground arith in
            let i = index_of-way {rx = rx} {lev = lev} {pre = pre} j t h nz in
            s.others (root rx j) (way j) nz (Leads-root j t) (rw i out)
      ]
      ∙ sym (radix_get-walk rx j)

abbrev Sets : Radix → (i val : ℕ) → Option (Unit {0}) × Radix → Type 0
Sets rx i val = Ends (λ _. IsWritten rx i val) (IsRefused rx)

finish :
    {rx rx1 : Radix} {lev pre : ℕ → ℕ} (s : IsSame rx lev pre rx1) (i val n : ℕ)
    (r : Option (Unit {0}) × Radix)
    → root rx1 i ≡ n
    → Puts i val n (way i) rx1 s.lev' s.pre' r
    → Sets rx i val r
finish s i val n (some u, rx2) e p = record {
  table = record { lev = p.step.lev'; pre = p.step.pre'; tree = p.step.tree };
  read =
      radix_get-walk rx2 i
      ∙ ap (λ q. walk rx2.slots q (way i)) (Step-root s.tree p.step i ∙ e)
      ∙ p.read;
  others = λ j h ne. Step-get s.tree p.step j h ne ∙ s.same j h;
}
finish s i val n (none, rx2) e p = record {
  table = record { lev = p.step.lev'; pre = p.step.pre'; tree = p.step.tree };
  same = λ j h. Step-get s.tree p.step j h (λ o. o) ∙ s.same j h;
  no_memory = p.no_memory;
}

refuse : {rx rx' : Radix} {lev pre : ℕ → ℕ} → IsOut rx lev pre rx' → IsRefused rx rx'
refuse o = record {
  table = record { lev = o.step.lev'; pre = o.step.pre'; tree = o.step.tree };
  same = o.step.same;
  no_memory = o.no_memory;
}

-- For an index whose slot numbers below the root are not 0, `radix_set` writes that element and no
-- other, and keeps the table in order; it fails only where there is no memory, and then no element
-- has changed.
pub radix_set-IsWritten :
    (rx : Radix) (i val : ℕ)
    → IsTable rx
    → i < 2 ^ 32
    → IsPlain i
    → Ends (λ _. IsWritten rx i val) (IsRefused rx) (radix_set rx i val)
unfolding radix_set
radix_set-IsWritten rx i val v h plain = elim (Bool-cases (ltb i 0x100)) [
  | inl a ↦ rw a (
      bind-Ends (IsTop (λ rx'. rx'.root_l3) 1 rx v.lev v.pre) (IsOut rx v.lev v.pre)
        (λ _. IsWritten rx i val) (IsRefused rx) top_l3 (put_l3 i val) rx
        (top_l3-Tops rx v.lev v.pre v.tree)
        (λ n rx1 tp. finish tp.step i val n (put_l3 i val n rx1) (rw a tp.stands) (
          rw a (
            put_l3-Puts rx1 tp.step.lev' tp.step.pre' i val n tp.step.tree tp.real tp.level
              (ground (arith, tp.prefix)))))
        (λ rx1 o. refuse o))
  | inr a ↦ elim (Bool-cases (ltb i 0x10000)) [
    | inl b ↦
        rw (a, b)
          (bind-Ends (IsTop (λ rx'. rx'.root_l2) 2 rx v.lev v.pre) (IsOut rx v.lev v.pre)
            (λ _. IsWritten rx i val) (IsRefused rx) top_l2 (put_l2 i val) rx
            (top_l2-Tops rx v.lev v.pre v.tree)
            (λ n rx1 tp. finish tp.step i val n (put_l2 i val n rx1) (rw (a, b) tp.stands) (
              rw (a, b)
                (put_l2-Puts rx1 tp.step.lev' tp.step.pre' i val n tp.step.tree tp.real tp.level
                  (ground (arith, tp.prefix)) (ground arith))))
            (λ rx1 o. refuse o))
    | inr b ↦ elim (Bool-cases (ltb i 0x1000000)) [
      | inl c ↦
          rw (a, b, c)
            (bind-Ends (IsTop (λ rx'. rx'.root_l1) 3 rx v.lev v.pre) (IsOut rx v.lev v.pre)
              (λ _. IsWritten rx i val) (IsRefused rx) top_l1 (put_l1 i val) rx
              (top_l1-Tops rx v.lev v.pre v.tree)
              (λ n rx1 tp. finish tp.step i val n (put_l1 i val n rx1) (rw (a, b, c) tp.stands) (
                rw (a, b, c)
                  (put_l1-Puts rx1 tp.step.lev' tp.step.pre' i val n tp.step.tree tp.real tp.level
                    (ground (arith, tp.prefix)) (ground arith) (ground (arith, plain.0)))))
              (λ rx1 o. refuse o))
      | inr c ↦
          rw (a, b, c)
            (bind-Ends (IsTop (λ rx'. rx'.root_l0) 4 rx v.lev v.pre) (IsOut rx v.lev v.pre)
              (λ _. IsWritten rx i val) (IsRefused rx) top_l0 (put_l0 i val) rx
              (top_l0-Tops rx v.lev v.pre v.tree)
              (λ n rx1 tp. finish tp.step i val n (put_l0 i val n rx1) (rw (a, b, c) tp.stands) (
                rw (a, b, c)
                  (put_l0-Puts rx1 tp.step.lev' tp.step.pre' i val n tp.step.tree tp.real tp.level
                    tp.prefix h (ground arith) (ground (arith, plain.1))
                    (ground (arith, plain.0)))))
              (λ rx1 o. refuse o))
    ]
  ]
]
