-- ===== src/Radix/Top.antt =====
-- The first parts of radix_set of common/radix.c: the root of each case, allocated if it is absent.
use ko.Base.{ℕ, ◌≡◌, ◌≢◌, refl, inl, inr, false, List, [], ◌∷◌, arith, has, subst}
use ko.Radix.{Radix, write, set_root_l1, set_root_l2, set_root_l3}
use ko.Radix.Tree.{AreFresh, AreFresh-update, IsTree}
use ko.Radix.Steps.{allocated}
use ko.Radix.Raise.{IsSame, IsRaise, radix_get-frame}

-- The root `n` of level `k`, which stands in the field `at`.
pub record IsTop (at : Radix → ℕ) (k : ℕ) (rx : Radix) (lev pre : ℕ → ℕ) (n : ℕ) (rx' : Radix)
    : Type 0 where
  pub step : IsSame rx lev pre rx'
  pub real : n ≢ 0
  pub level : step.lev' n ≡ k
  pub prefix : step.pre' n ≡ 0
  pub stands : at rx' ≡ n

-- No memory: the elements are as they were.
pub record IsOut (rx : Radix) (lev pre : ℕ → ℕ) (rx' : Radix) : Type 0 where
  pub step : IsSame rx lev pre rx'
  pub no_memory : rx'.supply ≡ []

abbrev pub still : {rx : Radix} {lev pre : ℕ → ℕ} → IsTree rx lev pre → IsSame rx lev pre rx
still {rx} {lev} {pre} t = record { lev' = lev; pre' = pre; tree = t; same = λ j h. refl }

pub new_l3-IsRaise :
    {rx : Radix} {lev pre : ℕ → ℕ} (n : ℕ) (ns : List ℕ)
    → IsTree rx lev pre
    → rx.supply ≡ n ∷ ns
    → rx.root_l3 ≡ 0
    → IsRaise rx lev pre n 1 0 (set_root_l3 n (allocated rx n ns))
new_l3-IsRaise {rx} {lev} {pre} n ns t su z =
    let f : AreFresh lev (n ∷ ns) = subst (AreFresh lev) su t.fresh in
    record {
      free = f.1;
      real = f.0;
      agree = λ x d ne. ground arith;
      node = λ d. ground arith;
      below = λ nz. absurd (nz refl);
      leaf = λ e. refl;
      new_l0 = inl refl;
      new_l1 = inl refl;
      new_l2 = inl refl;
      new_l3 = inr (z, refl, refl);
      fresh = AreFresh-update lev n 1 ns f.2 f.3;
    }

pub new_l2-IsRaise :
    {rx : Radix} {lev pre : ℕ → ℕ} (n : ℕ) (ns : List ℕ)
    → IsTree rx lev pre
    → rx.supply ≡ n ∷ ns
    → rx.root_l2 ≡ 0
    → IsRaise rx lev pre n 2 rx.root_l3 (set_root_l2 n (write n 0 rx.root_l3 (allocated rx n ns)))
new_l2-IsRaise {rx} {lev} {pre} n ns t su z =
    let f : AreFresh lev (n ∷ ns) = subst (AreFresh lev) su t.fresh in
    record {
      free = f.1;
      real = f.0;
      agree = λ x d ne. ground arith;
      node = λ d. ground arith;
      below = λ nz. ground (arith, t.at_l3 nz);
      leaf = λ e. ground (arith, e, t.at_l3, f.1, f.0);
      new_l0 = inl refl;
      new_l1 = inl refl;
      new_l2 = inr (z, refl, refl);
      new_l3 = inl refl;
      fresh = AreFresh-update lev n 2 ns f.2 f.3;
    }

pub new_l1-IsRaise :
    {rx : Radix} {lev pre : ℕ → ℕ} (n : ℕ) (ns : List ℕ)
    → IsTree rx lev pre
    → rx.supply ≡ n ∷ ns
    → rx.root_l1 ≡ 0
    → IsRaise rx lev pre n 3 rx.root_l2 (set_root_l1 n (write n 0 rx.root_l2 (allocated rx n ns)))
new_l1-IsRaise {rx} {lev} {pre} n ns t su z =
    let f : AreFresh lev (n ∷ ns) = subst (AreFresh lev) su t.fresh in
    record {
      free = f.1;
      real = f.0;
      agree = λ x d ne. ground arith;
      node = λ d. ground arith;
      below = λ nz. ground (arith, t.at_l2 nz);
      leaf = λ e. ground (arith, e, t.at_l3, f.1, f.0);
      new_l0 = inl refl;
      new_l1 = inr (z, refl, refl);
      new_l2 = inl refl;
      new_l3 = inl refl;
      fresh = AreFresh-update lev n 3 ns f.2 f.3;
    }

-- A node that has been allocated and is not in the tree yet.
pub record IsAside (rx : Radix) (lev pre : ℕ → ℕ) (n : ℕ) : Type 0 where
  pub tree : IsTree rx lev pre
  pub real : n ≢ 0
  pub free : lev n ≡ 0
  pub gone : has n rx.supply ≡ false
  pub blank : (d : ℕ) → rx.slots n d ≡ 0

pub aside_l1-IsRaise :
    {rx : Radix} {lev pre : ℕ → ℕ} (n : ℕ)
    → IsAside rx lev pre n
    → rx.root_l1 ≡ 0
    → IsRaise rx lev pre n 3 rx.root_l2 (set_root_l1 n (write n 0 rx.root_l2 rx))
aside_l1-IsRaise {rx} {lev} {pre} n a z = record {
  free = a.free;
  real = a.real;
  agree = λ x d ne. ground arith;
  node = λ d. ground (arith, a.blank d);
  below = λ nz. ground (arith, a.tree.at_l2 nz);
  leaf = λ e. ground (arith, e, a.tree.at_l3, a.free, a.real);
  new_l0 = inl refl;
  new_l1 = inr (z, refl, refl);
  new_l2 = inl refl;
  new_l3 = inl refl;
  fresh = AreFresh-update lev n 3 rx.supply a.gone a.tree.fresh;
}

pub aside_l0-IsRaise :
    {rx : Radix} {lev pre : ℕ → ℕ} (n : ℕ)
    → IsAside rx lev pre n
    → rx.root_l0 ≡ 0
    → IsRaise rx lev pre n 4 rx.root_l1 (record (write n 0 rx.root_l1 rx) { root_l0 = n })
aside_l0-IsRaise {rx} {lev} {pre} n a z = record {
  free = a.free;
  real = a.real;
  agree = λ x d ne. ground arith;
  node = λ d. ground (arith, a.blank d);
  below = λ nz. ground (arith, a.tree.at_l1 nz);
  leaf = λ e. ground (arith, e, a.tree.at_l3, a.free, a.real);
  new_l0 = inr (z, refl, refl);
  new_l1 = inl refl;
  new_l2 = inl refl;
  new_l3 = inl refl;
  fresh = AreFresh-update lev n 4 rx.supply a.gone a.tree.fresh;
}

-- `new_node` alone changes no element.
pub allocated-IsSame :
    {rx : Radix} {lev pre : ℕ → ℕ} (n : ℕ) (ns : List ℕ)
    → IsTree rx lev pre
    → rx.supply ≡ n ∷ ns
    → (s : IsSame rx lev pre (allocated rx n ns)) × IsAside (allocated rx n ns) s.lev' s.pre' n
allocated-IsSame {rx} {lev} {pre} n ns t su =
    let f : AreFresh lev (n ∷ ns) = subst (AreFresh lev) su t.fresh in
    let t' : IsTree (allocated rx n ns) lev pre = record {
      null = t.null;
      child_lev = λ x d h z. ground (arith, t.child_lev x d, f.1);
      child_pre = λ x d h z. ground (arith, t.child_pre x d, f.1);
      at_l0 = t.at_l0;
      at_l1 = t.at_l1;
      at_l2 = t.at_l2;
      at_l3 = t.at_l3;
      fresh = f.3;
    } in
    (
      record {
        lev' = lev;
        pre' = pre;
        tree = t';
        same = λ j h.
            radix_get-frame rx (allocated rx n ns) lev pre j t refl refl refl refl
              (λ x d l. ground (arith, f.1));
      },
      record { tree = t'; real = f.0; free = f.1; gone = f.2; blank = λ d. ground arith },
    )
