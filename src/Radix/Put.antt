-- ===== src/Radix/Put.antt =====
-- The ends of radix_set of common/radix.c: from the node of each level on, down to the leaf.
use ko.Base.{
  ℕ, ◌+◌, ◌*◌, ◌/◌, ◌^◌, ◌≤◌, ◌<◌, ◌≡◌, ◌≢◌, sym, refl, inl, inr, false, Option, some, none, List,
  [], ◌∷◌, arith, ◌==◌, Bool-cases, subst,
}
use ko.Radix.{
  Radix, M, ◌>>=◌, l0, l1, l2, l3, child_of, set_root_l1, set_root_l2, set_root_l3, put_l3, put_l2,
  put_l1, put_l0,
}
use ko.Radix.Tree.{IsTree, walk}
use ko.Radix.Steps.{child_of-present, child_of-fresh, child_of-full, bind_some, bind_none}
use ko.Radix.Changes.{Step, Nothing, unchanged, Step-then, IsChild, link-IsChild, walk-write}

-- How a part ends: with a result, or with `return -1`.
abbrev pub Ends : {A : Type 0} → (A → Radix → Type 0) → (Radix → Type 0) → Option A × Radix → Type 0
Ends P Q (some a, rx) = P a rx
Ends P Q (none, rx) = Q rx

pub bind-Ends :
    {A B : Type 0} (P : A → Radix → Type 0) (Q : Radix → Type 0) (P' : B → Radix → Type 0)
    (Q' : Radix → Type 0) (m : M A) (f : A → M B) (rx : Radix)
    → Ends P Q (m rx)
    → ((a : A) (rx' : Radix) → P a rx' → Ends P' Q' (f a rx'))
    → ((rx' : Radix) → Q rx' → Q' rx')
    → Ends P' Q' ((m >>= f) rx)
bind-Ends {A = A} P Q P' Q' m f rx e next stop = go (m rx) refl e
  where
    go : (r : Option A × Radix) → m rx ≡ r → Ends P Q r → Ends P' Q' ((m >>= f) rx)
    go (some a, rx') eq p = subst (Ends P' Q') (sym (bind_some m f rx eq)) (next a rx' p)
    go (none, rx') eq q = subst (Ends P' Q') (sym (bind_none m f rx eq)) (stop rx' q)

-- No memory: nothing is changed that can be read.
pub record IsFull (rx : Radix) (lev pre : ℕ → ℕ) (rx' : Radix) : Type 0 where
  pub step : Step Nothing rx lev pre rx'
  pub no_memory : rx'.supply ≡ []

child_of-IsChild :
    (set_root : ℕ → Radix → Radix) (rx : Radix) (lev pre : ℕ → ℕ) (m c : ℕ)
    → IsTree rx lev pre
    → 2 ≤ lev m
    → c ≢ 0
    → Ends (IsChild rx lev pre m c) (IsFull rx lev pre) (child_of set_root m c rx)
child_of-IsChild set_root rx lev pre m c t h nc = elim (Bool-cases (rx.slots m c == 0)) [
  | inl z ↦ absent rx.supply refl (ground arith)
  | inr z ↦
      let there : rx.slots m c ≢ 0 = ground arith in
      subst (Ends (IsChild rx lev pre m c) (IsFull rx lev pre))
        (sym (child_of-present set_root m c rx there))
        (record {
          step = unchanged t;
          real = there;
          level = t.child_lev m c h there;
          prefix = t.child_pre m c h there;
          linked = refl;
        })
]
  where
    absent :
        (su : List ℕ)
        → rx.supply ≡ su
        → rx.slots m c ≡ 0
        → Ends (IsChild rx lev pre m c) (IsFull rx lev pre) (child_of set_root m c rx)
    absent [] e z =
        subst (Ends (IsChild rx lev pre m c) (IsFull rx lev pre))
          (sym (child_of-full set_root m c rx z e)) (record { step = unchanged t; no_memory = e })
    absent (n ∷ ns) e z =
        let low : (c == 0) ≡ false = ground arith in
        subst (Ends (IsChild rx lev pre m c) (IsFull rx lev pre))
          (sym (rw low at (child_of-fresh set_root m c n ns rx z e)))
          (link-IsChild rx lev pre m c n ns t h z e)

-- What `radix_set` has done from the node `n` on, at the slots `cs`, for the index `i`.
pub record IsPut (i val n : ℕ) (cs : List ℕ) (rx : Radix) (lev pre : ℕ → ℕ) (rx' : Radix)
    : Type 0 where
  pub step : Step (λ j. j ≡ i) rx lev pre rx'
  pub read : walk rx'.slots n cs ≡ val

abbrev pub Puts :
    (i val n : ℕ) → List ℕ → Radix → (lev pre : ℕ → ℕ) → Option (Unit {0}) × Radix → Type 0
Puts i val n cs rx lev pre = Ends (λ _. IsPut i val n cs rx lev pre) (IsFull rx lev pre)

pub put_l3-Puts :
    (rx : Radix) (lev pre : ℕ → ℕ) (i val n : ℕ)
    → IsTree rx lev pre
    → n ≢ 0
    → lev n ≡ 1
    → pre n ≡ i / 256
    → Puts i val n (l3 i ∷ []) rx lev pre (put_l3 i val n rx)
unfolding put_l3
put_l3-Puts rx lev pre i val n t nz h p = record {
  step = record {
    lev' = lev;
    pre' = pre;
    tree = record {
      null = t.null;
      child_lev = λ x d hx z. ground (arith, t.child_lev x d);
      child_pre = λ x d hx z. ground (arith, t.child_pre x d);
      at_l0 = t.at_l0;
      at_l1 = t.at_l1;
      at_l2 = t.at_l2;
      at_l3 = t.at_l3;
      fresh = t.fresh;
    };
    keep_lev = λ x l. refl;
    keep_pre = λ x l. refl;
    same_l0 = refl;
    same_l1 = refl;
    same_l2 = refl;
    same_l3 = refl;
    others =
        λ x cs nx l out. walk-write rx lev pre n (l3 i) val x cs t h nx l (λ e. out (omega arith));
    kept = λ x d hx z. ground arith;
  };
  read = ground arith;
}

-- From one level to the next.
descend :
    (set_root : ℕ → Radix → Radix) (put : ℕ → M (Unit {0})) (rx : Radix) (lev pre : ℕ → ℕ)
    (i val m c : ℕ) (cs : List ℕ)
    → IsTree rx lev pre
    → m ≢ 0
    → 2 ≤ lev m
    → c ≢ 0
    → ((rx1 : Radix) (lev1 pre1 : ℕ → ℕ) (n : ℕ)
        → IsTree rx1 lev1 pre1
        → n ≢ 0
        → lev1 n + 1 ≡ lev m
        → pre1 n ≡ pre m * 256 + c
        → Puts i val n cs rx1 lev1 pre1 (put n rx1))
    → Puts i val m (c ∷ cs) rx lev pre ((child_of set_root m c >>= put) rx)
descend set_root put rx lev pre i val m c cs t nz h nc next =
    bind-Ends (IsChild rx lev pre m c) (IsFull rx lev pre) (λ _. IsPut i val m (c ∷ cs) rx lev pre)
      (IsFull rx lev pre) (child_of set_root m c) put rx
      (child_of-IsChild set_root rx lev pre m c t h nc) down (λ rx' q. q)
  where
    on :
        (n : ℕ) (rx1 : Radix) (ch : IsChild rx lev pre m c n rx1) (r : Option (Unit {0}) × Radix)
        → Puts i val n cs rx1 ch.step.lev' ch.step.pre' r
        → Puts i val m (c ∷ cs) rx lev pre r
    on n rx1 ch (some u, rx2) p =
        let real : (m == 0) ≡ false = ground arith in
        let l1 : ch.step.lev' m ≡ lev m = ch.step.keep_lev m (omega arith) in
        let k : rx2.slots m c ≡ n = ground (arith, p.step.kept m c, ch.linked, ch.real, l1, h) in
        record { step = Step-then ch.step p.step; read = rw (real, k) p.read }
    on n rx1 ch (none, rx2) q = record { step = Step-then ch.step q.step; no_memory = q.no_memory }

    down :
        (n : ℕ) (rx1 : Radix)
        → IsChild rx lev pre m c n rx1
        → Puts i val m (c ∷ cs) rx lev pre (put n rx1)
    down n rx1 ch =
        on n rx1 ch (put n rx1)
          (next rx1 ch.step.lev' ch.step.pre' n ch.step.tree ch.real ch.level ch.prefix)

pub put_l2-Puts :
    (rx : Radix) (lev pre : ℕ → ℕ) (i val n : ℕ)
    → IsTree rx lev pre
    → n ≢ 0
    → lev n ≡ 2
    → pre n ≡ i / 65536
    → l2 i ≢ 0
    → Puts i val n (l2 i ∷ l3 i ∷ []) rx lev pre (put_l2 i val n rx)
unfolding put_l2
put_l2-Puts rx lev pre i val n t nz h p d2 =
    descend set_root_l3 (put_l3 i val) rx lev pre i val n (l2 i) (l3 i ∷ []) t nz (omega arith) d2
      (λ rx1 lev1 pre1 n1 t1 nz1 h1 p1.
        put_l3-Puts rx1 lev1 pre1 i val n1 t1 nz1 (omega arith) (omega arith))

pub put_l1-Puts :
    (rx : Radix) (lev pre : ℕ → ℕ) (i val n : ℕ)
    → IsTree rx lev pre
    → n ≢ 0
    → lev n ≡ 3
    → pre n ≡ i / 16777216
    → l1 i ≢ 0
    → l2 i ≢ 0
    → Puts i val n (l1 i ∷ l2 i ∷ l3 i ∷ []) rx lev pre (put_l1 i val n rx)
unfolding put_l1
put_l1-Puts rx lev pre i val n t nz h p d1 d2 =
    descend set_root_l2 (put_l2 i val) rx lev pre i val n (l1 i) (l2 i ∷ l3 i ∷ []) t nz
      (omega arith) d1
      (λ rx1 lev1 pre1 n1 t1 nz1 h1 p1.
        put_l2-Puts rx1 lev1 pre1 i val n1 t1 nz1 (omega arith) (omega arith) d2)

pub put_l0-Puts :
    (rx : Radix) (lev pre : ℕ → ℕ) (i val n : ℕ)
    → IsTree rx lev pre
    → n ≢ 0
    → lev n ≡ 4
    → pre n ≡ 0
    → i < 2 ^ 32
    → l0 i ≢ 0
    → l1 i ≢ 0
    → l2 i ≢ 0
    → Puts i val n (l0 i ∷ l1 i ∷ l2 i ∷ l3 i ∷ []) rx lev pre (put_l0 i val n rx)
unfolding put_l0
put_l0-Puts rx lev pre i val n t nz h p small d0 d1 d2 =
    descend set_root_l1 (put_l1 i val) rx lev pre i val n (l0 i) (l1 i ∷ l2 i ∷ l3 i ∷ []) t nz
      (omega arith) d0
      (λ rx1 lev1 pre1 n1 t1 nz1 h1 p1.
        put_l1-Puts rx1 lev1 pre1 i val n1 t1 nz1 (omega arith) (omega arith) d1 d2)
