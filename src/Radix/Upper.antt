-- ===== src/Radix/Upper.antt =====
-- The roots of the two upper cases of radix_set of common/radix.c, which first fill up the levels below.
use ko.Base.{
  ℕ, ◌≡◌, ◌∙◌, sym, refl, inl, inr, false, List, [], ◌∷◌, arith, ◌==◌, Bool-cases, subst, some,
  none,
}
use ko.Radix.{
  Radix, M, ◌>>=◌, ◌>>◌, modify, pure, write, set_root_l1, new_node, grow_l2, grow_l1, top_l1,
  top_l0,
}
use ko.Radix.Tree.{IsTree}
use ko.Radix.Steps.{allocated}
use ko.Radix.Raise.{same_then, raised}
use ko.Radix.Top.{IsTop, IsOut, still, aside_l1-IsRaise, aside_l0-IsRaise, allocated-IsSame}
use ko.Radix.Roots.{Tops, IsGrown, grow_l2-IsGrown, grow_l1-IsGrown}
use ko.Radix.Put.{bind-Ends}

module _ (rx : Radix) (lev pre : ℕ → ℕ) (t : IsTree rx lev pre) where
  pub top_l1-Tops : Tops (λ rx'. rx'.root_l1) 3 rx lev pre (top_l1 rx)
  unfolding top_l1 new_node
  top_l1-Tops = elim (Bool-cases (rx.root_l1 == 0)) [
    | inl z ↦ absent rx.supply refl (ground arith)
    | inr z ↦ subst (Tops (λ rx'. rx'.root_l1) 3 rx lev pre) (sym (there z)) (record {
      step = still t;
      real = ground arith;
      level = (t.at_l1 (ground arith)).0;
      prefix = (t.at_l1 (ground arith)).1;
      stands = refl;
    })
  ]
    where
      there : (rx.root_l1 == 0) ≡ false → top_l1 rx ≡ (some rx.root_l1, rx)
      there z = ground (arith, z)

      rest : ℕ → M ℕ
      rest n = modify (λ rx'. write n 0 rx'.root_l2 rx') >> (modify (set_root_l1 n) >> pure n)

      absent :
          (su : List ℕ)
          → rx.supply ≡ su
          → rx.root_l1 ≡ 0
          → Tops (λ rx'. rx'.root_l1) 3 rx lev pre (top_l1 rx)
      absent [] e z =
          let q : top_l1 rx ≡ (none, rx) = ground (arith, e, z) in
          subst (Tops (λ rx'. rx'.root_l1) 3 rx lev pre) (sym q)
            (record { step = still t; no_memory = e })
      absent (n ∷ ns) e z =
          let rx1 = allocated rx n ns in
          let (s, a) = allocated-IsSame {rx = rx} {lev = lev} {pre = pre} n ns t e in
          let q : top_l1 rx ≡ (grow_l2 >>= λ _. rest n) rx1 = rw (z, e) refl in
          subst (Tops (λ rx'. rx'.root_l1) 3 rx lev pre) (sym q) (
            bind-Ends (λ _ rx'. IsGrown n rx1 s.lev' s.pre' rx' × (rx'.root_l1 ≡ rx1.root_l1))
              (IsOut rx1 s.lev' s.pre') (IsTop (λ rx'. rx'.root_l1) 3 rx lev pre) (IsOut rx lev pre)
              grow_l2 (λ _. rest n) rx1 (grow_l2-IsGrown rx1 s.lev' s.pre' n a)
              (λ _ rx2 (g, k).
                let r =
                  aside_l1-IsRaise {rx = rx2} {lev = g.step.lev'} {pre = g.step.pre'} n g.aside
                    (k ∙ z) in
                record {
                  step = same_then s (same_then g.step (raised g.step.tree r));
                  real = a.real;
                  level = ground arith;
                  prefix = ground arith;
                  stands = refl;
                })
              (λ rx2 o. record { step = same_then s o.step; no_memory = o.no_memory }))

  pub top_l0-Tops : Tops (λ rx'. rx'.root_l0) 4 rx lev pre (top_l0 rx)
  unfolding top_l0 new_node
  top_l0-Tops = elim (Bool-cases (rx.root_l0 == 0)) [
    | inl z ↦ absent rx.supply refl (ground arith)
    | inr z ↦ subst (Tops (λ rx'. rx'.root_l0) 4 rx lev pre) (sym (there z)) (record {
      step = still t;
      real = ground arith;
      level = (t.at_l0 (ground arith)).0;
      prefix = (t.at_l0 (ground arith)).1;
      stands = refl;
    })
  ]
    where
      there : (rx.root_l0 == 0) ≡ false → top_l0 rx ≡ (some rx.root_l0, rx)
      there z = ground (arith, z)

      rest : ℕ → M ℕ
      rest n =
          modify (λ rx'. write n 0 rx'.root_l1 rx')
          >> (modify (λ rx'. record rx' { root_l0 = n }) >> pure n)

      absent :
          (su : List ℕ)
          → rx.supply ≡ su
          → rx.root_l0 ≡ 0
          → Tops (λ rx'. rx'.root_l0) 4 rx lev pre (top_l0 rx)
      absent [] e z =
          let q : top_l0 rx ≡ (none, rx) = ground (arith, e, z) in
          subst (Tops (λ rx'. rx'.root_l0) 4 rx lev pre) (sym q)
            (record { step = still t; no_memory = e })
      absent (n ∷ ns) e z =
          let rx1 = allocated rx n ns in
          let (s, a) = allocated-IsSame {rx = rx} {lev = lev} {pre = pre} n ns t e in
          let q : top_l0 rx ≡ (grow_l2 >>= λ _. grow_l1 >>= λ _. rest n) rx1 = rw (z, e) refl in
          subst (Tops (λ rx'. rx'.root_l0) 4 rx lev pre) (sym q) (
            bind-Ends (λ _ rx'. IsGrown n rx1 s.lev' s.pre' rx' × (rx'.root_l1 ≡ rx1.root_l1))
              (IsOut rx1 s.lev' s.pre') (IsTop (λ rx'. rx'.root_l0) 4 rx lev pre) (IsOut rx lev pre)
              grow_l2 (λ _. grow_l1 >>= λ _. rest n) rx1 (grow_l2-IsGrown rx1 s.lev' s.pre' n a)
              (λ _ rx2 (g, _).
                bind-Ends (λ _. IsGrown n rx2 g.step.lev' g.step.pre')
                  (IsOut rx2 g.step.lev' g.step.pre') (IsTop (λ rx'. rx'.root_l0) 4 rx lev pre)
                  (IsOut rx lev pre) grow_l1 (λ _. rest n) rx2
                  (grow_l1-IsGrown rx2 g.step.lev' g.step.pre' n g.aside)
                  (λ _ rx3 h.
                    let r =
                      aside_l0-IsRaise {rx = rx3} {lev = h.step.lev'} {pre = h.step.pre'} n h.aside
                        (h.keep_l0 ∙ g.keep_l0 ∙ z) in
                    record {
                      step =
                          same_then s (same_then g.step (same_then h.step (raised h.step.tree r)));
                      real = a.real;
                      level = ground arith;
                      prefix = ground arith;
                      stands = refl;
                    })
                  (λ rx3 o. record {
                    step = same_then s (same_then g.step o.step);
                    no_memory = o.no_memory;
                  }))
              (λ rx2 o. record { step = same_then s o.step; no_memory = o.no_memory }))
