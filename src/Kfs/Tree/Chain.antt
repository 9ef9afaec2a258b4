-- ===== src/Kfs/Tree/Chain.antt =====
-- A directory as the sequence of its dentries, and the search for a name in it.
use ko.Base.{
  ℕ, zero, suc, ◌<◌, ◌≤◌, ◌≡◌, ◌≢◌, refl, sym, ap, subst, ◌∙◌, Bool, true, false, false≢true, ◌==◌,
  if◌then◌else◌, arith, Bool-cases, inl, inr, List, [], ◌∷◌, has, length,
}
use ko.Base.Run.{Run, Returns, Returns-weaken}
use ko.Kfs.State.{Kfs}
use ko.Kfs.Tree.{kfs_strcmp, is_equal, find, take}

-- The dentries `xs` follow each other by `next` from `first` on.
abbrev pub Chain : (ℕ → ℕ) → ℕ → List ℕ → Type 0
Chain next first [] = first ≡ 0
Chain next first (x ∷ xs) = (first ≡ x) × (0 < x) × Chain next (next x) xs

pub Chain-same :
    (f g : ℕ → ℕ) (first : ℕ) (xs : List ℕ)
    → ((x : ℕ) → has x xs ≡ true → g x ≡ f x)
    → Chain f first xs
    → Chain g first xs
Chain-same f g first [] same c = c
Chain-same f g first (x ∷ xs) same (e, p, c) =
    let here : has x (x ∷ xs) ≡ true = ground arith in
    (
      e,
      p,
      subst (λ y. Chain g y xs) (sym (same x here))
          (Chain-same f g (f x) xs (λ y h. same y (ground arith)) c),
    )

pub Chain-pos : (f : ℕ → ℕ) (first x : ℕ) (xs : List ℕ) → Chain f first xs → has x xs ≡ true → 0 < x
Chain-pos f first x [] c h = cc
Chain-pos f first x (y ∷ ys) (e, p, c) h = elim (Bool-cases (x == y)) [
  | inl z ↦ ground arith
  | inr z ↦ Chain-pos f (f y) x ys c (ground arith)
]

-- The characters of a text are not NUL.
abbrev pub IsText : List ℕ → Type 0
IsText [] = Unit
IsText (c ∷ cs) = (0 < c) × IsText cs

-- kfs_strcmp is 0 exactly at equal texts.
pub strcmp-equal :
    (xs ys : List ℕ) → IsText xs → IsText ys → is_equal (kfs_strcmp xs ys) ≡ true → xs ≡ ys
unfolding kfs_strcmp
strcmp-equal [] [] tx ty h = refl
strcmp-equal [] (y ∷ ys) tx ty h = ground arith
strcmp-equal (x ∷ xs) [] tx ty h = ground arith
strcmp-equal (x ∷ xs) (y ∷ ys) tx ty h = ground (arith, strcmp-equal xs ys)

pub strcmp-same : (xs : List ℕ) → is_equal (kfs_strcmp xs xs) ≡ true
unfolding kfs_strcmp
strcmp-same [] = refl
strcmp-same (x ∷ xs) = ground (arith, strcmp-same xs)

pub take_all : (n : ℕ) (cs : List ℕ) → length cs ≤ n → take n cs ≡ cs
unfolding take
take_all zero [] h = refl
take_all zero (c ∷ cs) h = absurd (omega arith)
take_all (suc n) [] h = refl
take_all (suc n) (c ∷ cs) h = ap (λ l. c ∷ l) (take_all n cs (omega (arith, h)))

-- No dentry of the list has the name.
abbrev pub Lacks : Kfs → List ℕ → List ℕ → Type 0
Lacks s [] name = Unit
Lacks s (x ∷ xs) name = ((s.dentry x).name ≢ name) × Lacks s xs name

-- All names are texts.
abbrev pub Named : Kfs → List ℕ → Type 0
Named s [] = Unit
Named s (x ∷ xs) = IsText (s.dentry x).name × Named s xs

-- The dentry of the list with the name, or none.
abbrev pub IsSearched : Kfs → List ℕ → List ℕ → ℕ × Bool → Type 0
IsSearched s xs name (r, found) =
    if found then (has r xs ≡ true) × ((s.dentry r).name ≡ name) else Lacks s xs name

differs : (a b : List ℕ) → is_equal (kfs_strcmp a b) ≡ false → a ≢ b
differs a b e z =
    false≢true (sym (subst (λ y. is_equal (kfs_strcmp a y) ≡ false) (sym z) e) ∙ strcmp-same a)

-- What a longer list adds.
IsSearched-more :
    (s : Kfs) (x : ℕ) (xs name : List ℕ)
    → (s.dentry x).name ≢ name
    → (r : ℕ × Bool) → IsSearched s xs name r
    → IsSearched s (x ∷ xs) name r
IsSearched-more s x xs name n (r, true) (h, e) = (ground arith, e)
IsSearched-more s x xs name n (r, false) h = (n, h)

Returns-more :
    (s : Kfs) (x : ℕ) (xs name : List ℕ)
    → (s.dentry x).name ≢ name
    → (r : Run (ℕ × Bool)) → Returns (IsSearched s xs name) r
    → Returns (IsSearched s (x ∷ xs) name) r
Returns-more s x xs name n r h =
    Returns-weaken (IsSearched s xs name) (IsSearched s (x ∷ xs) name) r h
      (IsSearched-more s x xs name n)

pub find-IsSearched :
    (fuel : ℕ) (s : Kfs) (x : ℕ) (xs name : List ℕ)
    → Chain (λ k. (s.dentry k).next) x (x ∷ xs)
    → Named s (x ∷ xs)
    → IsText name
    → length xs < fuel
    → Returns (IsSearched s (x ∷ xs) name) (find fuel s x name)
unfolding find
find-IsSearched zero s x xs name c n t l = absurd (omega (arith, l))
find-IsSearched (suc fuel) s x [] name (z, p, c) n t l =
    elim (Bool-cases (is_equal (kfs_strcmp (s.dentry x).name name))) [
      | inl e ↦ rw e (ground arith, strcmp-equal (s.dentry x).name name n.0 t e)
      | inr e ↦
          let last : (s.dentry x).next == 0 ≡ true = ground (arith, c) in
          rw (e, last) (differs (s.dentry x).name name e, tt)
    ]
find-IsSearched (suc fuel) s x (y ∷ ys) name (z, p, c) n t l =
    elim (Bool-cases (is_equal (kfs_strcmp (s.dentry x).name name))) [
      | inl e ↦ rw e (ground arith, strcmp-equal (s.dentry x).name name n.0 t e)
      | inr e ↦
          let more : (s.dentry x).next == 0 ≡ false = ground (arith, c.0, c.1) in
          let rest = find-IsSearched fuel s y ys name c' n.1 t (omega (arith, l)) in
          rw (e, more)
            (Returns-more s x (y ∷ ys) name (differs (s.dentry x).name name e)
              (find fuel s (s.dentry x).next name)
              (subst (λ k. Returns (IsSearched s (y ∷ ys) name) (find fuel s k name)) (sym c.0)
                rest))
    ]
  where
    c' : Chain (λ k. (s.dentry k).next) y (y ∷ ys)
    c' = (refl, c.1, c.2)
