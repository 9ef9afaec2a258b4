-- ===== src/Radix/Tree.antt =====
-- The tree behind the table of common/radix.c: what level each node has, and which indexes lead to it.
use ko.Base.{
  ℕ, suc, ◌+◌, ◌*◌, ◌≤◌, ◌≡◌, ◌≢◌, ◌∙◌, sym, refl, inl, inr, true, false, ◌&&◌, List, [], ◌∷◌,
  arith, ◌==◌, Bool-cases, has, length, update,
}
use ko.Radix.{Radix, follow}

-- The slots that `calloc` has still to give are nodes of no level.
abbrev pub AreFresh : (ℕ → ℕ) → List ℕ → Type 0
AreFresh lev [] = Unit
AreFresh lev (n ∷ ns) = (n ≢ 0) × (lev n ≡ 0) × (has n ns ≡ false) × AreFresh lev ns

pub AreFresh-update :
    (lev : ℕ → ℕ) (n k : ℕ) (ns : List ℕ)
    → has n ns ≡ false
    → AreFresh lev ns
    → AreFresh (update lev n k) ns
AreFresh-update lev n k [] o f = tt
AreFresh-update lev n k (x ∷ xs) o (nz, free, once, rest) =
    (nz, ground arith, once, AreFresh-update lev n k xs (ground arith) rest)

-- `lev n` is the level of the node `n`, from 1 for a leaf to 4, and 0 for what is no node; `pre n` is
-- what the indexes that lead to it have in front.
pub record IsTree (rx : Radix) (lev pre : ℕ → ℕ) : Type 0 where
  pub null : lev 0 ≡ 0
  pub child_lev : (n c : ℕ) → 2 ≤ lev n → rx.slots n c ≢ 0 → lev (rx.slots n c) + 1 ≡ lev n
  pub child_pre : (n c : ℕ) → 2 ≤ lev n → rx.slots n c ≢ 0 → pre (rx.slots n c) ≡ pre n * 256 + c
  pub at_l0 : rx.root_l0 ≢ 0 → (lev rx.root_l0 ≡ 4) × (pre rx.root_l0 ≡ 0)
  pub at_l1 : rx.root_l1 ≢ 0 → (lev rx.root_l1 ≡ 3) × (pre rx.root_l1 ≡ 0)
  pub at_l2 : rx.root_l2 ≢ 0 → (lev rx.root_l2 ≡ 2) × (pre rx.root_l2 ≡ 0)
  pub at_l3 : rx.root_l3 ≢ 0 → (lev rx.root_l3 ≡ 1) × (pre rx.root_l3 ≡ 0)
  pub fresh : AreFresh lev rx.supply

-- From a node along the slots that an index names.
abbrev pub walk : (ℕ → ℕ → ℕ) → ℕ → List ℕ → ℕ
walk slots n [] = n
walk slots n (c ∷ cs) = walk slots (follow slots n c) cs

-- The index that such a way belongs to.
abbrev pub index_of : ℕ → List ℕ → ℕ
index_of p [] = p
index_of p (c ∷ cs) = index_of (p * 256 + c) cs

pub walk_null : (slots : ℕ → ℕ → ℕ) (cs : List ℕ) → walk slots 0 cs ≡ 0
walk_null slots [] = refl
walk_null slots (c ∷ cs) = walk_null slots cs

-- A node without children leads nowhere.
pub walk_empty :
    (slots : ℕ → ℕ → ℕ) (n c : ℕ) (cs : List ℕ) → slots n c ≡ 0 → walk slots n (c ∷ cs) ≡ 0
walk_empty slots n c cs e = elim (Bool-cases (n == 0)) [
  | inl z ↦ rw z (walk_null slots cs)
  | inr z ↦ rw (z, e) (walk_null slots cs)
]

-- The way is as long as the level of the node that it starts at.
abbrev pub Leads : (ℕ → ℕ) → ℕ → List ℕ → Type 0
Leads lev n [] = Unit
Leads lev n (c ∷ cs) = n ≢ 0 → lev n ≡ suc (length cs)

pub Leads-child :
    {rx : Radix} {lev pre : ℕ → ℕ} (n c : ℕ) (cs : List ℕ)
    → IsTree rx lev pre
    → n ≢ 0
    → Leads lev n (c ∷ cs)
    → Leads lev (rx.slots n c) cs
Leads-child n c [] t nz l = tt
Leads-child n c (d ∷ ds) t nz l =
    λ h. ground (arith, l nz, t.child_lev n c (ground (arith, l nz)) h)

-- A change outside of the nodes is not seen.
pub walk_frame :
    (rx : Radix) (slots : ℕ → ℕ → ℕ) (lev pre : ℕ → ℕ) (n : ℕ) (cs : List ℕ)
    → IsTree rx lev pre
    → ((x d : ℕ) → lev x ≢ 0 → slots x d ≡ rx.slots x d)
    → Leads lev n cs
    → walk slots n cs ≡ walk rx.slots n cs
walk_frame rx slots lev pre n [] t k l = refl
walk_frame rx slots lev pre n (c ∷ cs) t k l = elim (Bool-cases (n == 0)) [
  | inl z ↦ rw (z, walk_null slots cs, walk_null rx.slots cs) refl
  | inr z ↦
      let nz : n ≢ 0 = ground arith in
      let e : slots n c ≡ rx.slots n c = k n c (ground (arith, l nz)) in
      rw (z, e)
        (walk_frame rx slots lev pre (rx.slots n c) cs t k
          (Leads-child {rx = rx} {lev = lev} {pre = pre} n c cs t nz l))
]

-- A new node without children, in a slot that was empty, is not seen.
pub walk_link :
    (rx : Radix) (slots : ℕ → ℕ → ℕ) (lev pre : ℕ → ℕ) (m c n x : ℕ) (ds : List ℕ)
    → IsTree rx lev pre
    → 2 ≤ lev m
    → rx.slots m c ≡ 0
    → ((d : ℕ) → slots n d ≡ 0)
    → slots m c ≡ n
    → ((y d : ℕ) → lev y ≢ 0 → ((y == m) && (d == c)) ≡ false → slots y d ≡ rx.slots y d)
    → Leads lev x ds
    → walk slots x ds ≡ walk rx.slots x ds
walk_link rx slots lev pre m c n x [] t h z0 zn e k l = refl
walk_link rx slots lev pre m c n x (d ∷ ds) t h z0 zn e k l = elim (Bool-cases (x == 0)) [
  | inl z ↦ rw (z, walk_null slots ds, walk_null rx.slots ds) refl
  | inr z ↦
      let nz : x ≢ 0 = ground arith in
      elim (Bool-cases ((x == m) && (d == c))) [
        | inl here ↦ at_slot ds z here l
        | inr other ↦
            let f : slots x d ≡ rx.slots x d = k x d (ground (arith, l nz)) other in
            rw (z, f)
              (walk_link rx slots lev pre m c n (rx.slots x d) ds t h z0 zn e k
                (Leads-child {rx = rx} {lev = lev} {pre = pre} x d ds t nz l))
      ]
]
  where
    at_slot :
        (es : List ℕ)
        → (x == 0) ≡ false
        → ((x == m) && (d == c)) ≡ true
        → Leads lev x (d ∷ es)
        → walk slots x (d ∷ es) ≡ walk rx.slots x (d ∷ es)
    at_slot [] z here l = absurd (ground (arith, h, here, z, l))
    at_slot (e1 ∷ es) z here l =
        let a : slots x d ≡ n = ground (arith, here, e) in
        let b : rx.slots x d ≡ 0 = ground (arith, here, z0) in
        rw (z, a, b) (walk_empty slots n e1 es (zn e1) ∙ sym (walk_null rx.slots es))
