-- ===== src/Radix/Changes.antt =====
-- What the parts of radix_set of common/radix.c may change, and what the single writes do change.
use ko.Base.{
  ℕ, ◌+◌, ◌*◌, ◌-◌, ◌≤◌, ◌≡◌, ◌≢◌, ◌∙◌, refl, inl, inr, false, List, [], ◌∷◌, arith, ◌==◌,
  Bool-cases, update, subst,
}
use ko.Radix.{Radix, write}
use ko.Radix.Tree.{
  AreFresh, AreFresh-update, IsTree, walk, walk_null, walk_link, index_of, Leads, Leads-child,
}
use ko.Radix.Steps.{allocated}

-- From a tree to a tree, with the same roots, the same way to each node, and the same elements but
-- for the indexes of which `C` holds.
pub record Step (C : ℕ → Type 0) (rx : Radix) (lev pre : ℕ → ℕ) (rx' : Radix) : Type 0 where
  pub lev' : ℕ → ℕ
  pub pre' : ℕ → ℕ
  pub tree : IsTree rx' lev' pre'
  pub keep_lev : (n : ℕ) → lev n ≢ 0 → lev' n ≡ lev n
  pub keep_pre : (n : ℕ) → lev n ≢ 0 → pre' n ≡ pre n
  pub same_l0 : rx'.root_l0 ≡ rx.root_l0
  pub same_l1 : rx'.root_l1 ≡ rx.root_l1
  pub same_l2 : rx'.root_l2 ≡ rx.root_l2
  pub same_l3 : rx'.root_l3 ≡ rx.root_l3
  pub others :
      (n : ℕ) (cs : List ℕ)
      → n ≢ 0
      → Leads lev n cs
      → (C (index_of (pre n) cs) → ⊥)
      → walk rx'.slots n cs ≡ walk rx.slots n cs
  pub kept : (n c : ℕ) → 2 ≤ lev n → rx.slots n c ≢ 0 → rx'.slots n c ≡ rx.slots n c

abbrev pub Nothing : ℕ → Type 0
Nothing j = ⊥

Leads-keep :
    (lev lev' : ℕ → ℕ) (n : ℕ) (cs : List ℕ)
    → ((x : ℕ) → lev x ≢ 0 → lev' x ≡ lev x)
    → Leads lev n cs
    → Leads lev' n cs
Leads-keep lev lev' n [] k l = tt
Leads-keep lev lev' n (c ∷ cs) k l = λ nz. ground (arith, l nz, k n (ground (arith, l nz)))

-- Nothing has been done.
abbrev pub unchanged :
    {rx : Radix} {lev pre : ℕ → ℕ} → IsTree rx lev pre → Step Nothing rx lev pre rx
unchanged {rx} {lev} {pre} t = record {
  lev' = lev;
  pre' = pre;
  tree = t;
  keep_lev = λ n h. refl;
  keep_pre = λ n h. refl;
  same_l0 = refl;
  same_l1 = refl;
  same_l2 = refl;
  same_l3 = refl;
  others = λ n cs nz l c. refl;
  kept = λ n c h z. refl;
}

-- A part that changes no element, and then one that may.
pub Step-then :
    {C : ℕ → Type 0} {rx rx1 rx2 : Radix} {lev pre : ℕ → ℕ} (s : Step Nothing rx lev pre rx1)
    → Step C rx1 s.lev' s.pre' rx2
    → Step C rx lev pre rx2
Step-then {C} {rx} {rx1} {rx2} {lev} {pre} s u = record {
  lev' = u.lev';
  pre' = u.pre';
  tree = u.tree;
  keep_lev = λ n h. ground (arith, s.keep_lev n h, u.keep_lev n);
  keep_pre = λ n h. ground (arith, s.keep_lev n h, s.keep_pre n h, u.keep_pre n);
  same_l0 = ground (arith, s.same_l0, u.same_l0);
  same_l1 = ground (arith, s.same_l1, u.same_l1);
  same_l2 = ground (arith, s.same_l2, u.same_l2);
  same_l3 = ground (arith, s.same_l3, u.same_l3);
  others = others;
  kept = λ n c h z. ground (arith, s.kept n c h z, s.keep_lev n (ground arith), u.kept n c);
}
  where
    others :
        (n : ℕ) (cs : List ℕ)
        → n ≢ 0
        → Leads lev n cs
        → (C (index_of (pre n) cs) → ⊥)
        → walk rx2.slots n cs ≡ walk rx.slots n cs
    others n [] nz l out = refl
    others n (c ∷ cs) nz l out =
        let live : lev n ≢ 0 = ground (arith, l nz) in
        u.others n (c ∷ cs) nz (Leads-keep lev s.lev' n (c ∷ cs) s.keep_lev l)
          (rw (s.keep_pre n live) out)
        ∙ s.others n (c ∷ cs) nz l (λ e. e)

-- What `child_of` gives for the slot `c` of the node `m`.
pub record IsChild (rx : Radix) (lev pre : ℕ → ℕ) (m c n : ℕ) (rx' : Radix) : Type 0 where
  pub step : Step Nothing rx lev pre rx'
  pub real : n ≢ 0
  pub level : step.lev' n + 1 ≡ lev m
  pub prefix : step.pre' n ≡ pre m * 256 + c
  pub linked : rx'.slots m c ≡ n

abbrev pub link : Radix → (m c n : ℕ) → List ℕ → Radix
link rx m c n ns = write m c n (allocated rx n ns)

link-IsTree :
    (rx : Radix) (lev pre : ℕ → ℕ) (m c n k : ℕ) (ns : List ℕ)
    → IsTree rx lev pre
    → 2 ≤ lev m
    → k + 1 ≡ lev m
    → rx.slots m c ≡ 0
    → AreFresh lev (n ∷ ns)
    → IsTree (link rx m c n ns) (update lev n k) (update pre n (pre m * 256 + c))
link-IsTree rx lev pre m c n k ns t h e z0 (nz, free, once, rest) = record {
  null = ground (arith, t.null);
  child_lev = λ x d hx z. ground (arith, t.child_lev x d);
  child_pre = λ x d hx z. ground (arith, t.child_lev x d, t.child_pre x d);
  at_l0 = λ r. ground (arith, t.at_l0 r);
  at_l1 = λ r. ground (arith, t.at_l1 r);
  at_l2 = λ r. ground (arith, t.at_l2 r);
  at_l3 = λ r. ground (arith, t.at_l3 r);
  fresh = AreFresh-update lev n k ns once rest;
}

pub link-IsChild :
    (rx : Radix) (lev pre : ℕ → ℕ) (m c n : ℕ) (ns : List ℕ)
    → IsTree rx lev pre
    → 2 ≤ lev m
    → rx.slots m c ≡ 0
    → rx.supply ≡ n ∷ ns
    → IsChild rx lev pre m c n (link rx m c n ns)
link-IsChild rx lev pre m c n ns t h z0 su =
    let f : AreFresh lev (n ∷ ns) = subst (AreFresh lev) su t.fresh in
    let other : m ≢ n = ground (arith, f.1) in
    record {
      step = record {
        lev' = update lev n (lev m - 1);
        pre' = update pre n (pre m * 256 + c);
        tree = link-IsTree rx lev pre m c n (lev m - 1) ns t h (omega arith) z0 f;
        keep_lev = λ x l. ground (arith, f.1);
        keep_pre = λ x l. ground (arith, f.1);
        same_l0 = refl;
        same_l1 = refl;
        same_l2 = refl;
        same_l3 = refl;
        others = λ x cs nz l out.
            walk_link rx (link rx m c n ns).slots lev pre m c n x cs t h z0
              (λ d. ground (arith, other)) (ground arith) (λ y d hy o. ground (arith, f.1)) l;
        kept = λ x d hx z. ground (arith, f.1);
      };
      real = f.0;
      level = ground arith;
      prefix = ground arith;
      linked = ground arith;
    }

-- A write into a leaf changes the one element.
pub walk-write :
    (rx : Radix) (lev pre : ℕ → ℕ) (n c val x : ℕ) (ds : List ℕ)
    → IsTree rx lev pre
    → lev n ≡ 1
    → x ≢ 0
    → Leads lev x ds
    → index_of (pre x) ds ≢ pre n * 256 + c
    → walk (write n c val rx).slots x ds ≡ walk rx.slots x ds
walk-write rx lev pre n c val x [] t h nz l ne = refl
walk-write rx lev pre n c val x (d ∷ []) t h nz l ne = ground arith
walk-write rx lev pre n c val x (d ∷ e ∷ ds) t h nz l ne =
    let above : (x == n) ≡ false = ground (arith, l nz) in
    let real : (x == 0) ≡ false = ground arith in
    elim (Bool-cases (rx.slots x d == 0)) [
      | inl z ↦
          let z' : rx.slots x d ≡ 0 = ground arith in
          rw (real, above, z', walk_null (write n c val rx).slots ds, walk_null rx.slots ds) refl
      | inr z ↦
          let nz' : rx.slots x d ≢ 0 = ground arith in
          let p = t.child_pre x d (ground (arith, l nz)) nz' in
          rw (real, above)
            (walk-write rx lev pre n c val (rx.slots x d) (e ∷ ds) t h nz'
              (Leads-child {rx = rx} {lev = lev} {pre = pre} x d (e ∷ ds) t nz l) (rw p ne))
    ]
