-- ===== src/Heap/Blocks.antt =====
-- The heap of ulib/memory.c as the sequence of its blocks.
use ko.Base.{
  ℕ, zero, suc, ◌+◌, ◌-◌, ◌^◌, ◌≤◌, ◌<◌, ◌≡◌, ◌∙◌, sym, refl, inl, inr, Bool, true, false, ◌&&◌,
  ◌||◌, not, List, [], ◌∷◌, arith, ◌==◌, ltb, if◌then◌else◌, Bool-cases, length, subst,
}
use ko.Base.Run.{done}
use ko.Heap.Lines.{IsLines, IsLines-add}
use ko.Heap.{Block, Heap, magic_heap, search}

-- From the address `p` to the end of the heap the blocks `bs` stand one behind the other, each in
-- order and of whole cache lines of `w` words.
abbrev pub Tiles : (w : ℕ) → (ℕ → Block) → (p end : ℕ) → List Block → Type 0
Tiles w info p end [] = p ≡ end
Tiles w info p end (b ∷ bs) =
    (info p ≡ b)
    × (b.magic ≡ magic_heap)
    × (0 < b.size)
    × IsLines w b.size
    × (b.size < 2 ^ 24)
    × Tiles w info (p + b.size) end bs

abbrev pub fits : ℕ → Block → Bool
fits n b = not b.full && not (ltb b.size n)

abbrev pub any_fits : ℕ → List Block → Bool
any_fits n [] = false
any_fits n (b ∷ bs) = fits n b || any_fits n bs

-- First fit: where, and what becomes of the blocks.
abbrev pub first_fit : ℕ → ℕ → List Block → ℕ
first_fit n p [] = p
first_fit n p (b ∷ bs) = if fits n b then p else first_fit n (p + b.size) bs

abbrev pub split : ℕ → Block → List Block → List Block
split n b bs =
    if b.size == n
    then record b { full = true } ∷ bs
    else record { full = true; magic = magic_heap; size = n }
      ∷ record { full = false; magic = magic_heap; size = b.size - n }
      ∷ bs

abbrev pub take_first : ℕ → List Block → List Block
take_first n [] = []
take_first n (b ∷ bs) = if fits n b then split n b bs else b ∷ take_first n bs

pub Tiles-below :
    (w : ℕ) (info : ℕ → Block) (p end : ℕ) (bs : List Block) → Tiles w info p end bs → p ≤ end
Tiles-below w info p end [] t = ground (arith, t)
Tiles-below w info p end (b ∷ bs) t =
    ground (arith, t.2, Tiles-below w info (p + b.size) end bs t.5)

-- What lies before `p` does not matter.
pub Tiles-frame :
    (w : ℕ) (info info' : ℕ → Block) (p end : ℕ) (bs : List Block)
    → Tiles w info p end bs
    → ((x : ℕ) → p ≤ x → info' x ≡ info x)
    → Tiles w info' p end bs
Tiles-frame w info info' p end [] t k = t
Tiles-frame w info info' p end (b ∷ bs) (i, m, s, a, l, t) k = (
  k p (omega arith) ∙ i,
  m,
  s,
  a,
  l,
  Tiles-frame w info info' (p + b.size) end bs t (λ x h. k x (omega arith)),
)

pub search-first_fit :
    (fuel w : ℕ) (h : Heap) (n p : ℕ) (bs : List Block)
    → Tiles w h.info p h.end bs
    → length bs < fuel
    → search fuel h n p ≡ done (first_fit n p bs)
unfolding search
search-first_fit zero w h n p bs t f = absurd (omega arith)
search-first_fit (suc fuel) w h n p [] t f =
    let e : ltb p h.end ≡ false = ground (arith, t) in rw e refl
search-first_fit (suc fuel) w h n p (b ∷ bs) (i, m, s, a, l, t) f =
    let below = Tiles-below w h.info (p + b.size) h.end bs t in
    let e : ltb p h.end ≡ true = ground arith in
    elim (Bool-cases (fits n b)) [
      | inl y ↦ rw (e, i, y) (ground (arith, y))
      | inr y ↦
          let r = search-first_fit fuel w h n (p + b.size) bs t (omega arith) in
          rw (e, i, y) (ground (arith, y, r))
    ]

pub first_fit-below :
    (w : ℕ) (h : Heap) (n p : ℕ) (bs : List Block)
    → Tiles w h.info p h.end bs
    → ltb (first_fit n p bs) h.end ≡ any_fits n bs
first_fit-below w h n p [] t = ground (arith, t)
first_fit-below w h n p (b ∷ bs) (i, m, s, a, l, t) =
    let below = Tiles-below w h.info (p + b.size) h.end bs t in
    elim (Bool-cases (fits n b)) [
      | inl y ↦ rw y (ground arith)
      | inr y ↦ rw y (first_fit-below w h n (p + b.size) bs t)
    ]

pub first_fit-least : (n p : ℕ) (bs : List Block) → p ≤ first_fit n p bs
first_fit-least n p [] = omega arith
first_fit-least n p (b ∷ bs) = ground (arith, first_fit-least n (p + b.size) bs)

-- Where the first block that fits stands.
pub first_fit-in :
    (w : ℕ) (h : Heap) (n p : ℕ) (bs : List Block)
    → IsLines w p
    → Tiles w h.info p h.end bs
    → any_fits n bs ≡ true
    → let q = first_fit n p bs in (p ≤ q) × (q + n ≤ h.end) × IsLines w q
first_fit-in w h n p [] a t y = absurd (cc)
first_fit-in w h n p (b ∷ bs) a (i, m, s, al, l, t) y =
    let below = Tiles-below w h.info (p + b.size) h.end bs t in
    elim (Bool-cases (fits n b)) [
      | inl f ↦ rw f (omega arith, ground (arith, f), a)
      | inr f ↦
          let (x, y', z) =
            first_fit-in w h n (p + b.size) bs (IsLines-add w p b.size a al) t (ground arith) in
          rw f (omega arith, y', z)
    ]

-- The size of the full block whose header is at `x`, or 0.
abbrev pub size_at : (x p : ℕ) → List Block → ℕ
size_at x p [] = 0
size_at x p (b ∷ bs) = if b.full && x == p then b.size else size_at x (p + b.size) bs

pub size_at-before :
    (w : ℕ) (info : ℕ → Block) (end x p : ℕ) (bs : List Block)
    → Tiles w info p end bs
    → x < p
    → size_at x p bs ≡ 0
size_at-before w info end x p [] t h = refl
size_at-before w info end x p (b ∷ bs) (i, m, s, a, l, t) h =
    let ne : (x == p) ≡ false = ground arith in
    rw ne (ground (arith, size_at-before w info end x (p + b.size) bs t (omega arith)))

-- The block that is taken was free, and is the only one that is new.
pub take_first-size_at :
    (w : ℕ) (info : ℕ → Block) (end n p : ℕ) (bs : List Block)
    → 0 < n
    → Tiles w info p end bs
    → any_fits n bs ≡ true
    → (size_at (first_fit n p bs) p bs ≡ 0)
      × ((x : ℕ)
          → size_at x p (take_first n bs) ≡ (if x == first_fit n p bs then n else size_at x p bs))
take_first-size_at w info end n p [] nz t y = absurd (cc)
take_first-size_at w info end n p (b ∷ bs) nz (i, m, s, a, l, t) y = elim (Bool-cases (fits n b)) [
  | inl f ↦
      let z = size_at-before w info end p (p + b.size) bs t (omega arith) in
      let free : b.full ≡ false = ground (arith, f) in
      let here : first_fit n p (b ∷ bs) ≡ p = ground (arith, f) in
      (
        subst (λ q. size_at q p (b ∷ bs) ≡ 0) (sym here) (rw free z),
        rw (here, f)
            (λ x. elim (Bool-cases (b.size == n)) [
              | inl same ↦ rw (same, free) (ground arith)
              | inr more ↦
                  let le : n < b.size = ground (arith, f) in
                  let jump : p + n + (b.size - n) ≡ p + b.size = omega arith in
                  rw (more, free, jump) (ground arith)
            ]),
      )
  | inr f ↦
      let y' : any_fits n bs ≡ true = ground arith in
      let (u, v) = take_first-size_at w info end n (p + b.size) bs nz t y' in
      let low = first_fit-least n (p + b.size) bs in
      let on : first_fit n p (b ∷ bs) ≡ first_fit n (p + b.size) bs = rw f refl in
      (
        subst (λ q. size_at q p (b ∷ bs) ≡ 0) (sym on) (ground (arith, u)),
        rw (on, f) (λ x. ground (arith, v x)),
      )
]

pub take_first-none : (n : ℕ) (bs : List Block) → any_fits n bs ≡ false → take_first n bs ≡ bs
take_first-none n [] e = refl
take_first-none n (b ∷ bs) e =
    let f : fits n b ≡ false = ground arith in rw (f, take_first-none n bs (ground arith)) refl
