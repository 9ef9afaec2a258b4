-- ===== src/Radix/Raise.antt =====
-- A new root above the old ones, in radix_set of common/radix.c: no element changes.
use ko.Base.{
  ℕ, ◌+◌, ◌^◌, ◌<◌, ◌≡◌, ◌≢◌, ◌∙◌, sym, refl, ◌⊎◌, inl, inr, List, [], ◌∷◌, arith, ◌==◌, ltb,
  if◌then◌else◌, Bool-cases, update,
}
use ko.Radix.{Radix, l0, l1, l2, l3, radix_get}
use ko.Radix.Tree.{AreFresh, IsTree, walk, walk_null, walk_empty, walk_frame, Leads}

-- The root from which an index is looked up, and the slots on its way.
abbrev pub root : Radix → ℕ → ℕ
root rx j =
    if ltb j 0x100
    then rx.root_l3
    else if ltb j 0x10000
    then rx.root_l2
    else if ltb j 0x1000000
    then rx.root_l1
    else rx.root_l0

abbrev pub way : ℕ → List ℕ
way j =
    if ltb j 0x100
    then l3 j ∷ []
    else if ltb j 0x10000
    then l2 j ∷ l3 j ∷ []
    else if ltb j 0x1000000
    then l1 j ∷ l2 j ∷ l3 j ∷ []
    else l0 j ∷ l1 j ∷ l2 j ∷ l3 j ∷ []

pub radix_get-walk : (rx : Radix) (j : ℕ) → radix_get rx j ≡ walk rx.slots (root rx j) (way j)
unfolding radix_get
radix_get-walk rx j = elim (Bool-cases (ltb j 0x100)) [
  | inl a ↦ rw a refl
  | inr a ↦ elim (Bool-cases (ltb j 0x10000)) [
    | inl b ↦ rw (a, b) refl
    | inr b ↦ elim (Bool-cases (ltb j 0x1000000)) [
      | inl c ↦ rw (a, b, c) refl
      | inr c ↦ rw (a, b, c) refl
    ]
  ]
]

pub Leads-root :
    {rx : Radix} {lev pre : ℕ → ℕ} (j : ℕ) → IsTree rx lev pre → Leads lev (root rx j) (way j)
Leads-root {rx} {lev} {pre} j t = elim (Bool-cases (ltb j 0x100)) [
  | inl a ↦ rw a (λ z. (t.at_l3 z).0)
  | inr a ↦ elim (Bool-cases (ltb j 0x10000)) [
    | inl b ↦ rw (a, b) (λ z. (t.at_l2 z).0)
    | inr b ↦ elim (Bool-cases (ltb j 0x1000000)) [
      | inl c ↦ rw (a, b, c) (λ z. (t.at_l1 z).0)
      | inr c ↦ rw (a, b, c) (λ z. (t.at_l0 z).0)
    ]
  ]
]

-- The same roots, and the same slots of the nodes.
pub radix_get-frame :
    (rx rx' : Radix) (lev pre : ℕ → ℕ) (j : ℕ)
    → IsTree rx lev pre
    → rx'.root_l0 ≡ rx.root_l0
    → rx'.root_l1 ≡ rx.root_l1
    → rx'.root_l2 ≡ rx.root_l2
    → rx'.root_l3 ≡ rx.root_l3
    → ((x d : ℕ) → lev x ≢ 0 → rx'.slots x d ≡ rx.slots x d)
    → radix_get rx' j ≡ radix_get rx j
radix_get-frame rx rx' lev pre j t e0 e1 e2 e3 k =
    let e : root rx' j ≡ root rx j = rw (e0, e1, e2, e3) refl in
    radix_get-walk rx' j
    ∙ rw e (walk_frame rx rx'.slots lev pre (root rx j) (way j) t k (Leads-root j t))
    ∙ sym (radix_get-walk rx j)

-- A tree with the same elements.
pub record IsSame (rx : Radix) (lev pre : ℕ → ℕ) (rx' : Radix) : Type 0 where
  pub lev' : ℕ → ℕ
  pub pre' : ℕ → ℕ
  pub tree : IsTree rx' lev' pre'
  pub same : (j : ℕ) → j < 2 ^ 32 → radix_get rx' j ≡ radix_get rx j

abbrev pub same_then :
    {rx rx1 rx2 : Radix} {lev pre : ℕ → ℕ} (s : IsSame rx lev pre rx1)
    → IsSame rx1 s.lev' s.pre' rx2
    → IsSame rx lev pre rx2
same_then s u = record {
  lev' = u.lev';
  pre' = u.pre';
  tree = u.tree;
  same = λ j h. u.same j h ∙ s.same j h;
}

-- One of the roots is new, or is as it was.
abbrev pub NewRoot : (n r r' : ℕ) → Type 0
NewRoot n r r' = (r' ≡ r) ⊎ ((r ≡ 0) × (r' ≡ n))

-- The new root `n` of level `k`, with the old root `t` in its first slot.
pub record IsRaise (rx : Radix) (lev pre : ℕ → ℕ) (n k t : ℕ) (rx' : Radix) : Type 0 where
  pub free : lev n ≡ 0
  pub real : n ≢ 0
  pub agree : (x d : ℕ) → x ≢ n → rx'.slots x d ≡ rx.slots x d
  pub node : (d : ℕ) → rx'.slots n d ≡ (if d == 0 then t else 0)
  pub below : t ≢ 0 → (lev t + 1 ≡ k) × (pre t ≡ 0)
  pub leaf : rx'.root_l3 ≡ n → t ≡ 0
  pub new_l0 : (rx'.root_l0 ≡ rx.root_l0) ⊎ ((rx.root_l0 ≡ 0) × (rx'.root_l0 ≡ n) × (k ≡ 4))
  pub new_l1 : (rx'.root_l1 ≡ rx.root_l1) ⊎ ((rx.root_l1 ≡ 0) × (rx'.root_l1 ≡ n) × (k ≡ 3))
  pub new_l2 : (rx'.root_l2 ≡ rx.root_l2) ⊎ ((rx.root_l2 ≡ 0) × (rx'.root_l2 ≡ n) × (k ≡ 2))
  pub new_l3 : (rx'.root_l3 ≡ rx.root_l3) ⊎ ((rx.root_l3 ≡ 0) × (rx'.root_l3 ≡ n) × (k ≡ 1))
  pub fresh : AreFresh (update lev n k) rx'.supply

module _ {rx rx' : Radix} {lev pre : ℕ → ℕ} {n k t : ℕ} (tr : IsTree rx lev pre)
    (r : IsRaise rx lev pre n k t rx') where
  pub raise-IsTree : IsTree rx' (update lev n k) (update pre n 0)
  raise-IsTree = record {
    null = ground (arith, tr.null, r.real);
    child_lev = λ x d h z. ground (arith, tr.child_lev x d, r.agree x d, r.node d, r.below, r.free);
    child_pre = λ x d h z.
        ground (arith, tr.child_lev x d, tr.child_pre x d, r.agree x d, r.node d, r.below, r.free);
    at_l0 = λ z. ground (arith, r.new_l0, tr.at_l0, r.free);
    at_l1 = λ z. ground (arith, r.new_l1, tr.at_l1, r.free);
    at_l2 = λ z. ground (arith, r.new_l2, tr.at_l2, r.free);
    at_l3 = λ z. ground (arith, r.new_l3, tr.at_l3, r.free);
    fresh = r.fresh;
  }

  from_root :
      (q q' c : ℕ) (cs : List ℕ)
      → NewRoot n q q'
      → (q' ≡ n → q ≡ 0 → rx'.slots n c ≡ 0)
      → Leads lev q (c ∷ cs)
      → walk rx'.slots q' (c ∷ cs) ≡ walk rx.slots q (c ∷ cs)
  from_root q q' c cs (inl e) z l = rw e (
      walk_frame rx rx'.slots lev pre q (c ∷ cs) tr
        (λ x d h. r.agree x d (λ f. h (ground (arith, r.free)))) l)
  from_root q q' c cs (inr (e, f)) z l =
      rw (e, f) (walk_empty rx'.slots n c cs (z f e) ∙ sym (walk_null rx.slots cs))

  weaker : {q q' i : ℕ} → (q' ≡ q) ⊎ ((q ≡ 0) × (q' ≡ n) × (k ≡ i)) → NewRoot n q q'
  weaker (inl e) = inl e
  weaker (inr (e, f, g)) = inr (e, f)

  at_slot : (c : ℕ) → c ≢ 0 → rx'.slots n c ≡ 0
  at_slot c h = ground (arith, r.node c)

  pub raise-same : (j : ℕ) → j < 2 ^ 32 → radix_get rx' j ≡ radix_get rx j
  raise-same j h =
      rw (radix_get-walk rx' j, radix_get-walk rx j)
        (elim (Bool-cases (ltb j 0x100)) [
          | inl a ↦ rw a (
              from_root rx.root_l3 rx'.root_l3 (l3 j) [] (weaker r.new_l3)
                (λ e z. ground (arith, r.leaf e, r.node (l3 j))) (λ z. (tr.at_l3 z).0))
          | inr a ↦ elim (Bool-cases (ltb j 0x10000)) [
            | inl b ↦
                rw (a, b)
                  (from_root rx.root_l2 rx'.root_l2 (l2 j) (l3 j ∷ []) (weaker r.new_l2)
                    (λ e z. at_slot (l2 j) (ground arith)) (λ z. (tr.at_l2 z).0))
            | inr b ↦ elim (Bool-cases (ltb j 0x1000000)) [
              | inl c ↦
                  rw (a, b, c)
                    (from_root rx.root_l1 rx'.root_l1 (l1 j) (l2 j ∷ l3 j ∷ []) (weaker r.new_l1)
                      (λ e z. at_slot (l1 j) (ground arith)) (λ z. (tr.at_l1 z).0))
              | inr c ↦
                  rw (a, b, c)
                    (from_root rx.root_l0 rx'.root_l0 (l0 j) (l1 j ∷ l2 j ∷ l3 j ∷ [])
                      (weaker r.new_l0) (λ e z. at_slot (l0 j) (ground arith))
                      (λ z. (tr.at_l0 z).0))
            ]
          ]
        ])

  abbrev pub raised : IsSame rx lev pre rx'
  raised = record {
    lev' = update lev n k;
    pre' = update pre n 0;
    tree = raise-IsTree;
    same = raise-same;
  }
