-- ===== src/Radix/Steps.antt =====
-- The steps of radix_set of common/radix.c, case by case.
use ko.Base.{ℕ, ◌≡◌, ◌≢◌, ap, Option, some, none, List, [], ◌∷◌, arith, ◌==◌, if◌then◌else◌, update}
use ko.Radix.{Radix, M, ◌>>=◌, write, new_node, child_of, top_l1}

-- The rest of a run, from what its first part leaves.
abbrev after : {A B : Type 0} → (A → M B) → Option A × Radix → Option B × Radix
after f r = let (out, rx) = r in elim out [ none ↦ (none, rx) | some a ↦ f a rx ]

pub bind_some :
    {A B : Type 0} (m : M A) (f : A → M B) (rx : Radix) {rx' : Radix} {a : A}
    → m rx ≡ (some a, rx')
    → (m >>= f) rx ≡ f a rx'
bind_some m f rx e = ap (after f) e

pub bind_none :
    {A B : Type 0} (m : M A) (f : A → M B) (rx : Radix) {rx' : Radix}
    → m rx ≡ (none, rx')
    → (m >>= f) rx ≡ (none, rx')
bind_none m f rx e = ap (after f) e

-- What `new_node` leaves when it gives `n`.
abbrev pub allocated : Radix → ℕ → List ℕ → Radix
allocated rx n ns = record rx { slots = update rx.slots n (λ _. 0); supply = ns }

pub child_of-present :
    (set_root : ℕ → Radix → Radix) (node c : ℕ) (rx : Radix)
    → rx.slots node c ≢ 0
    → child_of set_root node c rx ≡ (some (rx.slots node c), rx)
unfolding child_of
child_of-present set_root node c rx h = ground arith

pub child_of-fresh :
    (set_root : ℕ → Radix → Radix) (node c n : ℕ) (ns : List ℕ) (rx : Radix)
    → rx.slots node c ≡ 0
    → rx.supply ≡ n ∷ ns
    → let rx' = write node c n (allocated rx n ns) in
      child_of set_root node c rx ≡ (some n, if c == 0 then set_root n rx' else rx')
unfolding child_of new_node
child_of-fresh set_root node c n ns rx h su = ground (arith, su)

pub child_of-full :
    (set_root : ℕ → Radix → Radix) (node c : ℕ) (rx : Radix)
    → rx.slots node c ≡ 0
    → rx.supply ≡ []
    → child_of set_root node c rx ≡ (none, rx)
unfolding child_of new_node
child_of-full set_root node c rx h su = ground (arith, su)

pub top_l1-present : (rx : Radix) → rx.root_l1 ≢ 0 → top_l1 rx ≡ (some rx.root_l1, rx)
unfolding top_l1
top_l1-present rx h = ground arith
