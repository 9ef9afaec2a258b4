-- ===== src/Radix/Roots.antt =====
-- The first parts of radix_set of common/radix.c, with their allocations: `top_l3` to `top_l0`.
use ko.Base.{
  ℕ, ◌≡◌, sym, refl, inl, inr, true, false, ◌&&◌, not, List, [], ◌∷◌, arith, ◌==◌, Bool-cases,
  subst, Option, some, none,
}
use ko.Radix.{
  Radix, write, set_root_l1, set_root_l2, set_root_l3, new_node, grow_l2, grow_l1, top_l3, top_l2,
}
use ko.Radix.Tree.{IsTree}
use ko.Radix.Steps.{allocated}
use ko.Radix.Raise.{IsSame, raised}
use ko.Radix.Top.{IsTop, IsOut, still, new_l3-IsRaise, new_l2-IsRaise, new_l1-IsRaise, IsAside}
use ko.Radix.Put.{Ends}

abbrev pub Tops : (Radix → ℕ) → ℕ → Radix → (lev pre : ℕ → ℕ) → Option ℕ × Radix → Type 0
Tops at k rx lev pre = Ends (IsTop at k rx lev pre) (IsOut rx lev pre)

module _ (rx : Radix) (lev pre : ℕ → ℕ) (t : IsTree rx lev pre) where
  pub top_l3-Tops : Tops (λ rx'. rx'.root_l3) 1 rx lev pre (top_l3 rx)
  unfolding top_l3 new_node
  top_l3-Tops = elim (Bool-cases (rx.root_l3 == 0)) [
    | inl z ↦ absent rx.supply refl (ground arith)
    | inr z ↦ subst (Tops (λ rx'. rx'.root_l3) 1 rx lev pre) (sym (there z)) (record {
      step = still t;
      real = ground arith;
      level = (t.at_l3 (ground arith)).0;
      prefix = (t.at_l3 (ground arith)).1;
      stands = refl;
    })
  ]
    where
      there : (rx.root_l3 == 0) ≡ false → top_l3 rx ≡ (some rx.root_l3, rx)
      there z = ground (arith, z)

      absent :
          (su : List ℕ)
          → rx.supply ≡ su
          → rx.root_l3 ≡ 0
          → Tops (λ rx'. rx'.root_l3) 1 rx lev pre (top_l3 rx)
      absent [] e z =
          let q : top_l3 rx ≡ (none, rx) = ground (arith, e, z) in
          subst (Tops (λ rx'. rx'.root_l3) 1 rx lev pre) (sym q)
            (record { step = still t; no_memory = e })
      absent (n ∷ ns) e z =
          let q : top_l3 rx ≡ (some n, set_root_l3 n (allocated rx n ns)) = ground (arith, e, z) in
          let r = new_l3-IsRaise {rx = rx} {lev = lev} {pre = pre} n ns t e z in
          subst (Tops (λ rx'. rx'.root_l3) 1 rx lev pre) (sym q) (record {
            step = raised t r;
            real = r.real;
            level = ground arith;
            prefix = ground arith;
            stands = refl;
          })

  pub top_l2-Tops : Tops (λ rx'. rx'.root_l2) 2 rx lev pre (top_l2 rx)
  unfolding top_l2 new_node
  top_l2-Tops = elim (Bool-cases (rx.root_l2 == 0)) [
    | inl z ↦ absent rx.supply refl (ground arith)
    | inr z ↦ subst (Tops (λ rx'. rx'.root_l2) 2 rx lev pre) (sym (there z)) (record {
      step = still t;
      real = ground arith;
      level = (t.at_l2 (ground arith)).0;
      prefix = (t.at_l2 (ground arith)).1;
      stands = refl;
    })
  ]
    where
      there : (rx.root_l2 == 0) ≡ false → top_l2 rx ≡ (some rx.root_l2, rx)
      there z = ground (arith, z)

      absent :
          (su : List ℕ)
          → rx.supply ≡ su
          → rx.root_l2 ≡ 0
          → Tops (λ rx'. rx'.root_l2) 2 rx lev pre (top_l2 rx)
      absent [] e z =
          let q : top_l2 rx ≡ (none, rx) = ground (arith, e, z) in
          subst (Tops (λ rx'. rx'.root_l2) 2 rx lev pre) (sym q)
            (record { step = still t; no_memory = e })
      absent (n ∷ ns) e z =
          let q : top_l2 rx ≡ (some n, set_root_l2 n (write n 0 rx.root_l3 (allocated rx n ns))) =
            ground (arith, e, z) in
          let r = new_l2-IsRaise {rx = rx} {lev = lev} {pre = pre} n ns t e z in
          subst (Tops (λ rx'. rx'.root_l2) 2 rx lev pre) (sym q) (record {
            step = raised t r;
            real = r.real;
            level = ground arith;
            prefix = ground arith;
            stands = refl;
          })

-- A root that is allocated below a node which stands aside.
pub record IsGrown (n : ℕ) (rx : Radix) (lev pre : ℕ → ℕ) (rx' : Radix) : Type 0 where
  pub step : IsSame rx lev pre rx'
  pub aside : IsAside rx' step.lev' step.pre' n
  pub keep_l0 : rx'.root_l0 ≡ rx.root_l0

module _ (rx : Radix) (lev pre : ℕ → ℕ) (n : ℕ) (a : IsAside rx lev pre n) where
  pub grow_l2-IsGrown :
      Ends
        (λ _ rx'. IsGrown n rx lev pre rx' × (rx'.root_l1 ≡ rx.root_l1))
        (IsOut rx lev pre)
        (grow_l2 rx)
  unfolding grow_l2 new_node
  grow_l2-IsGrown = elim (Bool-cases ((rx.root_l2 == 0) && not (rx.root_l3 == 0))) [
    | inl b ↦ absent rx.supply refl b (ground arith)
    | inr b ↦ rw b (record { step = still a.tree; aside = a; keep_l0 = refl }, refl)
  ]
    where
      absent :
          (su : List ℕ)
          → rx.supply ≡ su
          → ((rx.root_l2 == 0) && not (rx.root_l3 == 0)) ≡ true
          → rx.root_l2 ≡ 0
          → Ends
              (λ _ rx'. IsGrown n rx lev pre rx' × (rx'.root_l1 ≡ rx.root_l1))
              (IsOut rx lev pre)
              (grow_l2 rx)
      absent [] e b z =
          let q : grow_l2 rx ≡ (none, rx) = ground (arith, e, b) in
          subst
            (Ends (λ _ rx'. IsGrown n rx lev pre rx' × (rx'.root_l1 ≡ rx.root_l1))
              (IsOut rx lev pre))
            (sym q) (record { step = still a.tree; no_memory = e })
      absent (m ∷ ms) e b z =
          let rx' = set_root_l2 m (write m 0 rx.root_l3 (allocated rx m ms)) in
          let q : grow_l2 rx ≡ (some tt, rx') = ground (arith, e, b) in
          let r = new_l2-IsRaise {rx = rx} {lev = lev} {pre = pre} m ms a.tree e z in
          let s = raised a.tree r in
          let g = rw e at a.gone in
          subst
            (Ends (λ _ rx'. IsGrown n rx lev pre rx' × (rx'.root_l1 ≡ rx.root_l1))
              (IsOut rx lev pre))
            (sym q)
            (
              record {
                step = s;
                aside = record {
                  tree = s.tree;
                  real = a.real;
                  free = ground (arith, a.free, g);
                  gone = ground (arith, g);
                  blank = λ d. ground (arith, a.blank d, g);
                };
                keep_l0 = refl;
              },
              refl,
            )

  pub grow_l1-IsGrown : Ends (λ _. IsGrown n rx lev pre) (IsOut rx lev pre) (grow_l1 rx)
  unfolding grow_l1 new_node
  grow_l1-IsGrown = elim (Bool-cases ((rx.root_l1 == 0) && not (rx.root_l2 == 0))) [
    | inl b ↦ absent rx.supply refl b (ground arith)
    | inr b ↦ rw b (record { step = still a.tree; aside = a; keep_l0 = refl })
  ]
    where
      absent :
          (su : List ℕ)
          → rx.supply ≡ su
          → ((rx.root_l1 == 0) && not (rx.root_l2 == 0)) ≡ true
          → rx.root_l1 ≡ 0
          → Ends (λ _. IsGrown n rx lev pre) (IsOut rx lev pre) (grow_l1 rx)
      absent [] e b z =
          let q : grow_l1 rx ≡ (none, rx) = ground (arith, e, b) in
          subst (Ends (λ _. IsGrown n rx lev pre) (IsOut rx lev pre)) (sym q)
            (record { step = still a.tree; no_memory = e })
      absent (m ∷ ms) e b z =
          let rx' = set_root_l1 m (write m 0 rx.root_l2 (allocated rx m ms)) in
          let q : grow_l1 rx ≡ (some tt, rx') = ground (arith, e, b) in
          let r = new_l1-IsRaise {rx = rx} {lev = lev} {pre = pre} m ms a.tree e z in
          let s = raised a.tree r in
          let g = rw e at a.gone in
          subst (Ends (λ _. IsGrown n rx lev pre) (IsOut rx lev pre)) (sym q) (record {
            step = s;
            aside = record {
              tree = s.tree;
              real = a.real;
              free = ground (arith, a.free, g);
              gone = ground (arith, g);
              blank = λ d. ground (arith, a.blank d, g);
            };
            keep_l0 = refl;
          })
