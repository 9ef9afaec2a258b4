-- ===== src/DList/Ring.antt =====
-- What a circular list of common/list.h stands for: the ring of its links and the items on it.
use ko.Base.{ℕ, ◌≡◌, true, false, List, [], ◌∷◌, ◌++◌, arith, ◌==◌, has, has-append, Distinct}
use ko.DList.{Links, null}

-- From `a` the `next` links lead through `xs` to `b`, and the `prev` links back.
abbrev pub Linked : Links → ℕ → List ℕ → ℕ → Type 0
Linked m a [] b = (m.next a ≡ b) × (m.prev b ≡ a)
Linked m a (x ∷ xs) b = (m.next a ≡ x) × (m.prev x ≡ a) × Linked m x xs b

-- The root and the items are distinct addresses, none is `NULL`, and the links go round.
pub record IsRing (m : Links) (root : ℕ) (xs : List ℕ) : Type 0 where
  pub linked : Linked m root xs root
  pub distinct : Distinct (root ∷ xs)
  pub addressed : has null (root ∷ xs) ≡ false

-- A segment depends only on the `next` of its sources and the `prev` of its targets.
pub frame :
    (m n : Links) (a : ℕ) (xs : List ℕ) (b : ℕ)
    → Linked m a xs b
    → ((p : ℕ) → has p (a ∷ xs) ≡ true → n.next p ≡ m.next p)
    → ((p : ℕ) → has p (b ∷ xs) ≡ true → n.prev p ≡ m.prev p)
    → Linked n a xs b
frame m n a [] b l hn hp = ground (arith, hn a, hp b)
frame m n a (x ∷ xs) b l hn hp =
    let (e, f, r) = l in
    (
      ground (arith, hn a),
      ground (arith, hp x),
      frame m n x xs b r (λ p i. hn p (ground arith)) (λ p i. hp p (ground arith)),
    )

-- The node before the end of a segment is on it.
pub mem-prev :
    (m : Links) (a : ℕ) (xs : List ℕ) (b : ℕ) → Linked m a xs b → has (m.prev b) (a ∷ xs) ≡ true
mem-prev m a [] b l = ground arith
mem-prev m a (x ∷ xs) b l = ground (arith, mem-prev m x xs b l.2)

-- A new end `c` for the segment that led to `b`: two writes.
pub relink :
    (m n : Links) (a : ℕ) (xs : List ℕ) (b c : ℕ)
    → Linked m a xs b
    → Distinct (a ∷ xs)
    → has c xs ≡ false
    → ((p : ℕ) → has p (a ∷ xs) ≡ true → (p == m.prev b) ≡ false → n.next p ≡ m.next p)
    → n.next (m.prev b) ≡ c
    → ((p : ℕ) → has p xs ≡ true → n.prev p ≡ m.prev p)
    → n.prev c ≡ m.prev b
    → Linked n a xs c
relink m n a [] b c l d o hn en hp ep = ground arith
relink m n a (x ∷ xs) b c l d o hn en hp ep =
    let (e, f, r) = l in
    (
      ground (arith, hn a, mem-prev m x xs b r),
      ground (arith, hp x),
      relink m n x xs b c r d.1 (ground arith) (λ p i. hn p (ground arith)) en
          (λ p i. hp p (ground arith)) ep,
    )

pub Linked-append :
    (m : Links) (a : ℕ) (xs : List ℕ) (c : ℕ) (ys : List ℕ) (b : ℕ)
    → Linked m a xs c
    → Linked m c ys b
    → Linked m a (xs ++ c ∷ ys) b
Linked-append m a [] c ys b l r = (l.0, l.1, r)
Linked-append m a (x ∷ xs) c ys b l r = (l.0, l.1, Linked-append m x xs c ys b l.2 r)

pub Linked-split :
    (m : Links) (a : ℕ) (xs : List ℕ) (c : ℕ) (ys : List ℕ) (b : ℕ)
    → Linked m a (xs ++ c ∷ ys) b
    → Linked m a xs c × Linked m c ys b
Linked-split m a [] c ys b l = ((l.0, l.1), l.2)
Linked-split m a (x ∷ xs) c ys b l =
    let (p, q) = Linked-split m x xs c ys b l.2 in ((l.0, l.1, p), q)

Distinct-append :
    (xs ys : List ℕ)
    → Distinct xs
    → Distinct ys
    → ((p : ℕ) → has p xs ≡ true → has p ys ≡ false)
    → Distinct (xs ++ ys)
Distinct-append [] ys d e o = e
Distinct-append (x ∷ xs) ys d e o = (
  ground (arith, has-append x xs ys, o x),
  Distinct-append xs ys d.1 e (λ p i. o p (ground arith)),
)

Distinct-split :
    (xs ys : List ℕ)
    → Distinct (xs ++ ys)
    → Distinct xs × Distinct ys × ((p : ℕ) → has p xs ≡ true → has p ys ≡ false)
Distinct-split [] ys d = (tt, d, λ p i. ground arith)
Distinct-split (x ∷ xs) ys d =
    let (p, q, o) = Distinct-split xs ys d.1 in
    ((ground (arith, has-append x xs ys), p), q, λ a i. ground (arith, o a, has-append x xs ys))

-- A ring may be read from any of its nodes.
pub rotate :
    {m : Links} (a : ℕ) (xs : List ℕ) (c : ℕ) (ys : List ℕ)
    → IsRing m a (xs ++ c ∷ ys)
    → IsRing m c (ys ++ a ∷ xs)
rotate {m} a xs c ys r =
    let (l, k) = Linked-split m a xs c ys a r.linked in
    let (dx, dc, o) = Distinct-split (a ∷ xs) (c ∷ ys) r.distinct in
    record {
      linked = Linked-append m c ys a xs c k l;
      distinct = Distinct-append (c ∷ ys) (a ∷ xs) dc dx (λ p i. ground (arith, o p));
      addressed =
          ground (arith, r.addressed, has-append null xs (c ∷ ys), has-append null ys (a ∷ xs));
    }
