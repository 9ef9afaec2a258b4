-- ===== src/DList/Walk.antt =====
-- The walks along a ring: `list_nbobj` and `list_addsort`.
use ko.Base.{
  ℕ, zero, suc, ◌+◌, ◌<◌, ◌≡◌, ◌∙◌, inl, inr, Bool, false, some, List, [], ◌∷◌, ◌++◌, append-nil,
  append_assoc, arith, ◌==◌, if◌then◌else◌, Bool-cases, length, has, has-append, ap, subst,
}
use ko.DList.{Links, null, nbobj_loop, list_nbobj, list_addlast, addsort_loop, list_addsort}
use ko.DList.Ring.{Linked, IsRing, rotate}
use ko.DList.Ops.{list_addlast-IsRing}

nbobj_loop-length :
    (fuel : ℕ) (m : Links) (root a : ℕ) (xs : List ℕ) (n : ℕ)
    → Linked m a xs root
    → has root xs ≡ false
    → length xs < fuel
    → nbobj_loop fuel m root (m.next a) (m.next (m.next a)) n ≡ some (n + length xs)
unfolding nbobj_loop
nbobj_loop-length zero m root a xs n l o h = absurd (omega arith)
nbobj_loop-length (suc fuel) m root a [] n l o h = ground (arith, l)
nbobj_loop-length (suc fuel) m root a (x ∷ xs) n l o h =
    rw l.0 (ground (arith, nbobj_loop-length fuel m root x xs (n + 1) l.2))

-- `list_nbobj` counts the items of a ring, once it is given a round more than there are items.
pub list_nbobj-length :
    {m : Links} (root : ℕ) (xs : List ℕ) (fuel : ℕ)
    → IsRing m root xs
    → length xs < fuel
    → list_nbobj fuel m root ≡ some (length xs)
unfolding list_nbobj
list_nbobj-length {m} root xs fuel r h =
    nbobj_loop-length fuel m root root xs 0 r.linked r.distinct.0 h ∙ ap some (omega arith)

-- Where the caller's order puts a new item: before the first item that is not below it.
abbrev pub sorted_insert : (ℕ → ℕ → Bool) → ℕ → List ℕ → List ℕ
sorted_insert cmp a [] = a ∷ []
sorted_insert cmp a (x ∷ xs) = if cmp x a then a ∷ x ∷ xs else x ∷ sorted_insert cmp a xs

-- Insertion before an item.
addprev-IsRing :
    {m : Links} (root : ℕ) (us : List ℕ) (x : ℕ) (xs : List ℕ) (a : ℕ)
    → IsRing m root (us ++ x ∷ xs)
    → has a (null ∷ root ∷ (us ++ x ∷ xs)) ≡ false
    → IsRing (list_addlast m x a) root (us ++ a ∷ x ∷ xs)
addprev-IsRing {m} root us x xs a r o =
    let there =
      list_addlast-IsRing x (xs ++ root ∷ us) a (rotate root us x xs r)
        (ground (arith, has-append a us (x ∷ xs), has-append a xs (root ∷ us))) in
    rw append_assoc at (rotate x xs root (us ++ a ∷ []) (rw append_assoc at there))

-- The loop stands behind the items `us`, which are all below the new one, with `xs` ahead.
addsort_loop-IsRing :
    (cmp : ℕ → ℕ → Bool) (fuel : ℕ) {m : Links} (root p : ℕ) (us xs : List ℕ) (a : ℕ)
    → IsRing m root (us ++ xs)
    → Linked m p xs root
    → has a (null ∷ root ∷ (us ++ xs)) ≡ false
    → length xs < fuel
    → (n : Links) × (addsort_loop cmp fuel m root (m.next p) (m.next (m.next p)) a ≡ some n)
      × IsRing n root (us ++ sorted_insert cmp a xs)
unfolding addsort_loop
addsort_loop-IsRing cmp zero root p us xs a r l o h = absurd (omega arith)
addsort_loop-IsRing cmp (suc fuel) {m} root p us [] a r l o h = (
  list_addlast m root a,
  ground (arith, l),
  list_addlast-IsRing root us a (rw append-nil at r) (rw append-nil at o),
)
addsort_loop-IsRing cmp (suc fuel) {m} root p us (x ∷ xs) a r l o h =
    let ahead : (x == root) ≡ false = ground (arith, r.distinct, has-append root us (x ∷ xs)) in
    elim (Bool-cases (cmp x a)) [
      | inl stop ↦ (
        list_addlast m x a,
        rw (l.0, ahead, stop),
        subst (λ l. IsRing (list_addlast m x a) root (us ++ l)) (rw stop)
            (addprev-IsRing root us x xs a r o),
      )
      | inr more ↦
          let (n, e, k) =
            addsort_loop-IsRing cmp fuel root x (us ++ x ∷ []) xs a (rw append_assoc r) l.2
              (rw append_assoc o) (omega arith) in
          (
            n,
            rw (l.0, ahead, more) e,
            subst (λ l. IsRing n root (us ++ l)) (rw more) (rw append_assoc at k),
          )
    ]

-- `list_addsort` ends, and puts the new item before the first item that is not below it.
pub list_addsort-IsRing :
    (cmp : ℕ → ℕ → Bool) {m : Links} (root : ℕ) (xs : List ℕ) (a fuel : ℕ)
    → IsRing m root xs
    → has a (null ∷ root ∷ xs) ≡ false
    → length xs < fuel
    → (n : Links) × (list_addsort cmp fuel m root a ≡ some n)
      × IsRing n root (sorted_insert cmp a xs)
unfolding list_addsort
list_addsort-IsRing cmp root xs a fuel r o h =
    addsort_loop-IsRing cmp fuel root root [] xs a r r.linked o h
