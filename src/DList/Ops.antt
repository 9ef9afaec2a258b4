-- ===== src/DList/Ops.antt =====
-- The functions of common/list.h on a ring, against the sequence of its items.
use ko.Base.{
  ℕ, ◌≡◌, ◌≢◌, refl, false, List, [], ◌∷◌, ◌++◌, append-nil, append_assoc, arith, has, has-append,
  sym, subst,
}
use ko.DList.{
  Links, null, list_init, list_isempty, list_first, list_last, list_addfirst, list_addlast,
  list_unlink, list_getfirst, list_getlast, list_replace,
}
use ko.DList.Ring.{Linked, IsRing, frame, mem-prev, relink, rotate}

-- `list_init` makes the empty ring of any memory.
pub list_init-IsRing : (m : Links) (root : ℕ) → root ≢ null → IsRing (list_init m root) root []
unfolding list_init
list_init-IsRing m root nn = ground arith

addfirst-root :
    {m : Links} (root : ℕ) (xs : List ℕ) (a : ℕ)
    → IsRing m root xs
    → has a (null ∷ root ∷ xs) ≡ false
    → IsRing (list_addfirst m root a) root (a ∷ xs)
unfolding list_addfirst
addfirst-root {m} root [] a r o = ground (arith, r.linked, r.addressed)
addfirst-root {m} root (x ∷ xs) a r o =
    let rest =
      frame m (list_addfirst m root a) x xs root r.linked.2
        (λ p i. ground (arith, r.linked, r.distinct))
        (λ p i. ground (arith, r.linked, r.distinct)) in
    record {
      linked = ground (arith, r.linked, r.distinct, rest);
      distinct = ground (arith, r.distinct);
      addressed = ground (arith, r.addressed);
    }

-- `list_addfirst` at the root puts the new item in front, and at an item (`list_addnext`) right
-- behind that item.
pub list_addfirst-IsRing :
    {m : Links} (root : ℕ) (us : List ℕ) (c : ℕ) (vs : List ℕ) (a : ℕ)
    → IsRing m root (us ++ c ∷ vs)
    → has a (null ∷ root ∷ (us ++ c ∷ vs)) ≡ false
    → IsRing (list_addfirst m c a) root (us ++ c ∷ a ∷ vs)
list_addfirst-IsRing root us c vs a r o = rotate c (a ∷ vs) root us (
    addfirst-root c (vs ++ root ∷ us) a (rotate root us c vs r)
      (ground (arith, has-append a us (c ∷ vs), has-append a vs (root ∷ us))))

-- The last of `x ∷ xs`, and what stands before it.
abbrev pub last_of : ℕ → List ℕ → ℕ
last_of x [] = x
last_of x (y ∷ ys) = last_of y ys

abbrev pub but_last : ℕ → List ℕ → List ℕ
but_last x [] = []
but_last x (y ∷ ys) = x ∷ but_last y ys

pub but_last-last_of : (x : ℕ) (xs : List ℕ) → but_last x xs ++ last_of x xs ∷ [] ≡ x ∷ xs
but_last-last_of x [] = refl
but_last-last_of x (y ∷ ys) = rw (but_last-last_of y ys)

prev-root :
    (m : Links) (a x : ℕ) (xs : List ℕ) (b : ℕ) → Linked m a (x ∷ xs) b → m.prev b ≡ last_of x xs
prev-root m a x [] b l = l.2.1
prev-root m a x (y ∷ ys) b l = prev-root m x y ys b l.2

addlast-snoc :
    {m : Links} (root : ℕ) (us : List ℕ) (c a : ℕ)
    → m.prev root ≡ c
    → IsRing m root (us ++ c ∷ [])
    → has a (null ∷ root ∷ (us ++ c ∷ [])) ≡ false
    → IsRing (list_addlast m root a) root ((us ++ c ∷ []) ++ a ∷ [])
unfolding list_addlast
addlast-snoc root us c a e r o = rw (e, append_assoc) (list_addfirst-IsRing root us c [] a r o)

-- `list_addlast` puts the new item behind all others.
pub list_addlast-IsRing :
    {m : Links} (root : ℕ) (xs : List ℕ) (a : ℕ)
    → IsRing m root xs
    → has a (null ∷ root ∷ xs) ≡ false
    → IsRing (list_addlast m root a) root (xs ++ a ∷ [])
unfolding list_addlast
list_addlast-IsRing {m} root [] a r o = rw r.linked.1 (addfirst-root root [] a r o)
list_addlast-IsRing {m} root (x ∷ xs) a r o =
    let e = but_last-last_of x xs in
    subst (λ l. IsRing (list_addlast m root a) root (l ++ a ∷ [])) e
      (addlast-snoc root (but_last x xs) (last_of x xs) a (prev-root m root x xs root r.linked)
        (subst (λ l. IsRing m root l) (sym e) r) (rw e o))

-- Taking the root itself off a ring leaves the ring of the other nodes.
unlink-root :
    {m : Links} (c z : ℕ) (zs : List ℕ) → IsRing m c (z ∷ zs) → IsRing (list_unlink m c) z zs
unfolding list_unlink
unlink-root {m} c z zs r = record {
  linked =
      relink m (list_unlink m c) z zs c z r.linked.2 r.distinct.1 r.distinct.1.0
        (λ p i ne. ground (arith, r.linked, r.distinct)) (ground (arith, r.linked, r.distinct))
        (λ p i. ground (arith, r.linked, r.distinct)) (ground (arith, r.linked, r.distinct));
  distinct = r.distinct.1;
  addressed = ground (arith, r.addressed);
}

-- `list_unlink` takes exactly its argument off the list, wherever that stands.
pub list_unlink-IsRing :
    {m : Links} (root : ℕ) (us : List ℕ) (c : ℕ) (vs : List ℕ)
    → IsRing m root (us ++ c ∷ vs)
    → IsRing (list_unlink m c) root (us ++ vs)
list_unlink-IsRing root us c [] r = rw append-nil (unlink-root c root us (rotate root us c [] r))
list_unlink-IsRing root us c (z ∷ vs) r =
    rotate z vs root us (unlink-root c z (vs ++ root ∷ us) (rotate root us c (z ∷ vs) r))

abbrev pub first_or_null : List ℕ → ℕ
first_or_null [] = null
first_or_null (x ∷ xs) = x

abbrev pub rest : List ℕ → List ℕ
rest [] = []
rest (x ∷ xs) = xs

abbrev pub last_or_null : List ℕ → ℕ
last_or_null [] = null
last_or_null (x ∷ xs) = last_of x xs

abbrev pub all_but_last : List ℕ → List ℕ
all_but_last [] = []
all_but_last (x ∷ xs) = but_last x xs

-- `list_getfirst` returns the first item, or `NULL` from an empty list, and takes it off.
pub list_getfirst-IsRing :
    {m : Links} (root : ℕ) (xs : List ℕ)
    → IsRing m root xs
    → ((list_getfirst m root).0 ≡ first_or_null xs) × IsRing (list_getfirst m root).1 root (rest xs)
unfolding list_getfirst
list_getfirst-IsRing {m} root [] r = ground (arith, r.linked)
list_getfirst-IsRing {m} root (x ∷ xs) r =
    ground (arith, r.linked, r.distinct, list_unlink-IsRing {m = m} root [] x xs r)

getlast-snoc :
    {m : Links} (root : ℕ) (us : List ℕ) (c : ℕ)
    → m.prev root ≡ c
    → list_isempty m root ≡ false
    → IsRing m root (us ++ c ∷ [])
    → ((list_getlast m root).0 ≡ c) × IsRing (list_getlast m root).1 root us
unfolding list_getlast
getlast-snoc {m} root us c e full r =
    rw (full, e) (refl, rw append-nil at (list_unlink-IsRing root us c [] r))

-- `list_getlast` returns the last item, or `NULL` from an empty list, and takes it off.
pub list_getlast-IsRing :
    {m : Links} (root : ℕ) (xs : List ℕ)
    → IsRing m root xs
    → ((list_getlast m root).0 ≡ last_or_null xs)
      × IsRing (list_getlast m root).1 root (all_but_last xs)
unfolding list_isempty
list_getlast-IsRing {m} root [] r = unfold list_getlast in ground (arith, r.linked)
list_getlast-IsRing {m} root (x ∷ xs) r =
    getlast-snoc root (but_last x xs) (last_of x xs) (prev-root m root x xs root r.linked)
      (ground (arith, r.linked, r.distinct))
      (subst (λ l. IsRing m root l) (sym (but_last-last_of x xs)) r)

-- `list_isempty`, `list_first` and `list_last` read the ring.
pub list_consult :
    {m : Links} (root : ℕ) (xs : List ℕ)
    → IsRing m root xs
    → (list_first m root ≡ first_or_null xs) × (list_last m root ≡ last_or_null xs)
unfolding list_first list_last
list_consult {m} root [] r = ground (arith, r.linked)
list_consult {m} root (x ∷ xs) r =
    ground (arith, r.linked, r.distinct, prev-root m root x xs root r.linked)

replace-root :
    {m : Links} (c z : ℕ) (zs : List ℕ) (a : ℕ)
    → IsRing m c (z ∷ zs)
    → has a (null ∷ c ∷ z ∷ zs) ≡ false
    → IsRing (list_replace m c a) a (z ∷ zs) × IsRing (list_replace m c a) c []
unfolding list_replace
replace-root {m} c z zs a r o =
    let last = mem-prev m z zs c r.linked.2 in
    let n = list_replace m c a in
    let back : Linked n z zs a =
      relink m n z zs c a r.linked.2 r.distinct.1 (ground (arith, o))
        (λ p i ne. ground (arith, r.distinct)) (ground (arith, r.distinct))
        (λ p i. ground (arith, r.distinct)) (ground (arith, r.distinct)) in
    (
      record {
        linked = ground (arith, back, r.linked, r.distinct);
        distinct = ground (arith, r.distinct);
        addressed = ground (arith, r.addressed);
      },
      ground (arith, r.addressed, r.linked),
    )

-- `list_replace` puts the new node at the place of the old one, and leaves the old one alone. The
-- replaced node may be an item, or the root of a list that is not empty.
pub list_replace-IsRing :
    {m : Links} (root : ℕ) (us : List ℕ) (c : ℕ) (vs : List ℕ) (a : ℕ)
    → IsRing m root (us ++ c ∷ vs)
    → has a (null ∷ root ∷ (us ++ c ∷ vs)) ≡ false
    → IsRing (list_replace m c a) root (us ++ a ∷ vs) × IsRing (list_replace m c a) c []
list_replace-IsRing root us c [] a r o =
    let (p, q) =
      replace-root c root us a (rotate root us c [] r) (ground (arith, has-append a us (c ∷ []))) in
    (rotate a [] root us p, q)
list_replace-IsRing root us c (z ∷ vs) a r o =
    let (p, q) =
      replace-root c z (vs ++ root ∷ us) a (rotate root us c (z ∷ vs) r)
        (ground (arith, has-append a us (c ∷ z ∷ vs), has-append a vs (root ∷ us))) in
    (rotate a (z ∷ vs) root us p, q)
