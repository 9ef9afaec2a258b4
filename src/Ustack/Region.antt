-- ===== src/Ustack/Region.antt =====
-- Which stacks are in use, in kernel/kmemuser.c.
use ko.Base.{
  ℕ, ◌+◌, ◌-◌, ◌%◌, ◌^◌, ◌≤◌, ◌<◌, ◌≡◌, ◌∙◌, sym, subst, Bool, refl, inl, inr, true, false, List,
  [], ◌∷◌, none, arith, ◌==◌, ◌&&◌, ◌||◌, not, ltb, leb, Bool-cases, has,
}
use ko.Base.Run.{done, Returns}
use ko.DList.Ops.{last_of, but_last}
use ko.DList.Walk.{sorted_insert}
use ko.Ustack.{
  UserMem, magic_stack, mark, malloc_ustack, shrink, cmp_addr, free_ustack, set_next, before_last,
}

-- Free stacks above `lo` and below `hi`, in order, a whole number of stacks apart.
abbrev pub Ascends : (lo hi : ℕ) → List ℕ → Type 0
Ascends lo hi [] = Unit
Ascends lo hi (x ∷ xs) = (lo < x) × (x % 16384 ≡ hi % 16384) × (x + 16384 ≤ hi) × Ascends x hi xs

-- The region is a whole number of stacks and has at most 2 GiB, the free ones are listed in order, and the lowest of all, if
-- there is one, is in use.
pub record IsRegion (s : UserMem) : Type 0 where
  pub whole : s.ustack_end % 16384 ≡ s.ustack_beg % 16384
  pub below : s.ustack_end ≤ s.ustack_beg
  pub small : s.ustack_beg < 2 ^ 30
  pub near : s.ustack_beg ≤ s.ustack_end + 2 ^ 29
  pub sorted : Ascends s.ustack_end s.ustack_beg s.free_stacks

-- Whether the stack whose lowest word is `x` is in use.
abbrev pub is_used : UserMem → ℕ → Bool
is_used s x =
    leb s.ustack_end x
    && (ltb x s.ustack_beg && (x % 16384 == s.ustack_beg % 16384))
    && not (has x s.free_stacks)

has-above : (lo hi : ℕ) (xs : List ℕ) (y : ℕ) → Ascends lo hi xs → y ≤ lo → has y xs ≡ false
has-above lo hi [] y a h = refl
has-above lo hi (x ∷ xs) y a h = ground (arith, has-above x hi xs y a.3)

-- The last free stack, and the others.
last_of-Ascends :
    (lo hi x : ℕ) (xs : List ℕ)
    → Ascends lo hi (x ∷ xs)
    → let l = last_of x xs in
      Ascends lo hi (but_last x xs)
      × (lo < l)
      × (l % 16384 ≡ hi % 16384)
      × (l + 16384 ≤ hi)
      × ((y : ℕ) → has y (but_last x xs) ≡ (has y (x ∷ xs) && not (y == l)))
last_of-Ascends lo hi x [] a = (tt, a.0, a.1, a.2, λ y. ground arith)
last_of-Ascends lo hi x (z ∷ zs) (a0, a1, a2, a3) =
    let (b, c, d, e, f) = last_of-Ascends x hi z zs a3 in
    ((a0, a1, a2, b), omega arith, d, e, λ y. ground (arith, f y))

has-last_of : (x : ℕ) (xs : List ℕ) → has (last_of x xs) (x ∷ xs) ≡ true
has-last_of x [] = ground arith
has-last_of x (z ∷ zs) = ground (arith, has-last_of z zs)

-- What `malloc_ustack` leaves.
pub record IsStack (s : UserMem) (out : ℕ × UserMem) : Type 0 where
  pub region : IsRegion out.1
  pub was_free : is_used s (out.0 + 1 - 16384) ≡ false
  pub used : (y : ℕ) → is_used out.1 y ≡ ((y == out.0 + 1 - 16384) || is_used s y)
  pub marked : (out.1.word out.0 ≡ magic_stack) × (out.1.word (out.0 + 1 - 16384) ≡ magic_stack)

-- Where a free stack is left or the region has room above the heap and below 2 GiB, `malloc_ustack` gives a stack that
-- was not in use, and changes the use of no other.
pub malloc_ustack-IsStack :
    (s : UserMem)
    → IsRegion s
    → (s.free_stacks ≡ []
        → (s.uheap_end + 16384 ≤ s.ustack_end) × (s.ustack_beg + 16384 ≤ s.ustack_end + 2 ^ 29))
    → Returns (IsStack s) (malloc_ustack s)
unfolding malloc_ustack
malloc_ustack-IsStack s v room = go s.free_stacks refl
  where
    go : (fs : List ℕ) → s.free_stacks ≡ fs → Returns (IsStack s) (malloc_ustack s)
    go [] e =
        let w : (s.ustack_end + 2 ^ 30 - 16384) % 2 ^ 30 ≡ s.ustack_end - 16384 =
          omega (arith, v.below, v.small, room e) in
        let p : ltb (s.ustack_end - 16384) s.uheap_end ≡ false = ground (arith, room e) in
        let end = s.ustack_end - 16384 in
        let q : malloc_ustack s ≡ done (mark (record s { ustack_end = end }) end) =
          rw (e, w, p) refl in
        let back : end + 16384 - 1 + 1 - 16384 ≡ end = omega arith in
        rw q (record {
          region = record {
            whole = omega (arith, v.whole, room e);
            below = omega (arith, v.below);
            small = v.small;
            near = omega (arith, room e);
            sorted = subst (Ascends end s.ustack_beg) (sym e) tt;
          };
          was_free = rw back (ground (arith, room e));
          used = λ y. rw back (ground (arith, e, v.whole, v.below, room e));
          marked = ground arith;
        })
    go (x ∷ xs) e =
        let sorted : Ascends s.ustack_end s.ustack_beg (x ∷ xs) =
          subst (Ascends s.ustack_end s.ustack_beg) e v.sorted in
        let (b, c, d, f, g) = last_of-Ascends s.ustack_end s.ustack_beg x xs sorted in
        let l = last_of x xs in
        let q : malloc_ustack s
            ≡ done (
                mark
                  (record s {
                    free_stacks = but_last x xs;
                    word = set_next s.word (before_last none x xs) s.root;
                  })
                  l) =
          rw e refl in
        let back : l + 16384 - 1 + 1 - 16384 ≡ l = omega arith in
        let there : has l s.free_stacks ≡ true = rw e (has-last_of x xs) in
        rw q (record {
          region = record {
            whole = v.whole;
            below = v.below;
            small = v.small;
            near = v.near;
            sorted = b;
          };
          was_free = rw back (ground (arith, there));
          used = λ y. rw back (ground (arith, e, g y, c, d, f));
          marked = ground arith;
        })

-- The words between `e` and `hi` where a stack may begin, but for a list of some.
abbrev starts_in : (e hi y : ℕ) → List ℕ → Bool
starts_in e hi y xs = leb e y && (ltb y hi && (y % 16384 == hi % 16384)) && not (has y xs)

-- The region gives up its free stacks at the low end.
shrink-Ascends :
    (p hi : ℕ) (xs : List ℕ)
    → p % 16384 ≡ hi % 16384
    → p + 16384 ≤ hi
    → Ascends p hi xs
    → let (e, rest) = shrink (p + 16384) xs in
      (e % 16384 ≡ hi % 16384)
      × (e ≤ hi)
      × (p ≤ e)
      × Ascends e hi rest
      × ((y : ℕ) → starts_in e hi y rest ≡ starts_in (p + 16384) hi y xs)
unfolding shrink
shrink-Ascends p hi [] m h a = (omega arith, h, omega arith, tt, λ y. refl)
shrink-Ascends p hi (x ∷ xs) m h (a0, a1, a2, a3) = elim (Bool-cases (x == p + 16384)) [
  | inl e ↦
      let (b, c, g, d, f) = shrink-Ascends x hi xs a1 a2 a3 in
      rw e (b, c, omega (arith, g, a0), d, λ y. f y ∙ ground (arith, has-above x hi xs y a3))
  | inr n ↦ rw n (omega arith, h, omega arith, (ground arith, a1, a2, a3), λ y. refl)
]

-- Within 2 GiB, cmp_addr is the order of the addresses.
cmp_addr-leb :
    (x a lo hi : ℕ)
    → lo < x
    → x + 16384 ≤ hi
    → lo < a
    → a + 16384 ≤ hi
    → hi ≤ lo + 2 ^ 29
    → hi < 2 ^ 30
    → cmp_addr x a ≡ leb a x
unfolding cmp_addr
cmp_addr-leb x a lo hi p q r t n s = ground (arith, p, q, r, t, n, s)

sorted_insert-Ascends :
    (lo hi a : ℕ) (xs : List ℕ)
    → Ascends lo hi xs
    → lo < a
    → a % 16384 ≡ hi % 16384
    → a + 16384 ≤ hi
    → has a xs ≡ false
    → hi ≤ lo + 2 ^ 29
    → hi < 2 ^ 30
    → let ys = sorted_insert cmp_addr a xs in
      Ascends lo hi ys × ((y : ℕ) → has y ys ≡ ((y == a) || has y xs))
sorted_insert-Ascends lo hi a [] t l m h o near small = ((l, m, h, tt), λ y. refl)
sorted_insert-Ascends lo hi a (x ∷ xs) (a0, a1, a2, a3) l m h o near small =
    let same = cmp_addr-leb x a lo hi a0 a2 l h near small in
    elim (Bool-cases (leb a x)) [
      | inl e ↦ rw (same, e) ((l, m, h, (ground arith, a1, a2, a3)), λ y. refl)
      | inr n ↦
          let (b, c) =
            sorted_insert-Ascends x hi a xs a3 (ground arith) m h (ground arith)
              (omega (arith, near, a0)) small in
          rw (same, n) ((a0, a1, a2, b), λ y. ground (arith, c y))
    ]

-- What `free_ustack` leaves, for the stack `x`.
pub record IsFreed (s : UserMem) (x : ℕ) (s' : UserMem) : Type 0 where
  pub region : IsRegion s'
  pub used : (y : ℕ) → is_used s' y ≡ (is_used s y && not (y == x))

-- `free_ustack` of a stack in use whose two marks are intact ends the use of that stack and of no other,
-- and leaves the region, of 2 GiB at most, in order: its lowest stack, if it has any, is in use.
pub free_ustack-IsFreed :
    (s : UserMem) (x : ℕ)
    → IsRegion s
    → is_used s x ≡ true
    → s.word x ≡ magic_stack
    → s.word (x + 16384 - 1) ≡ magic_stack
    → Returns (IsFreed s x) (free_ustack s (x + 16384 - 1))
unfolding free_ustack
free_ustack-IsFreed s x v u m1 m2 =
    let back : 1 + (x + 16384 - 1) - 16384 ≡ x = omega arith in
    let c1 : (s.word x == magic_stack) ≡ true = ground arith in
    let c2 : (s.word (x + 16384 - 1) == magic_stack) ≡ true = ground arith in
    let top : x + 16384 ≤ s.ustack_beg = ground (arith, v.whole, v.below) in
    elim (Bool-cases (x == s.ustack_end)) [
      | inl low ↦
          let (b, c, g, d, f) =
            shrink-Ascends s.ustack_end s.ustack_beg s.free_stacks v.whole (ground arith)
              v.sorted in
          rw (c2, back, c1, low)
            (record {
              region = record {
                whole = b;
                below = c;
                small = v.small;
                near = omega (arith, v.near, g);
                sorted = d;
              };
              used = λ y.
                  f y
                  ∙ ground (arith, has-above s.ustack_end s.ustack_beg s.free_stacks y v.sorted);
            })
      | inr high ↦
          let (b, c) =
            sorted_insert-Ascends s.ustack_end s.ustack_beg x s.free_stacks v.sorted (ground arith)
              (ground arith) top (ground arith) v.near v.small in
          rw (c2, back, c1, high)
            (record {
              region = record {
                whole = v.whole;
                below = v.below;
                small = v.small;
                near = v.near;
                sorted = b;
              };
              used = λ y. ground (arith, c y);
            })
    ]
