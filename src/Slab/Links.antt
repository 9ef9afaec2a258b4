-- ===== src/Slab/Links.antt =====
-- What the list functions of common/list.h write into the free objects and pages of a list, in which
-- `list_t` lies at their start: `next` in the first word and `prev` in the second. The root of the list lies
-- outside of the heap, and its own links are the sequence.
use ko.Base.{
  ℕ, ◌+◌, ◌≡◌, refl, ◌∙◌, Bool, false, leb, ltb, ◌&&◌, ◌||◌, if◌then◌else◌, arith, Bool-cases, inl,
  inr, Option, none, some, List, [], ◌∷◌,
}
use ko.Cstd.Bytes.{Memory, store_word}

-- A neighbour of an item: another item, or none for the root.
abbrev address : ℕ → Option ℕ → ℕ
address root none = root
address root (some x) = x

-- `item->next = a` and `item->prev = a`, where the item may be the root.
pub set_next : Memory → Option ℕ → ℕ → Memory
set_next m none a = m
set_next m (some x) a = store_word m x a

pub set_prev : Memory → Option ℕ → ℕ → Memory
set_prev m none a = m
set_prev m (some x) a = store_word m (x + 4) a

abbrev pub head_of : List ℕ → Option ℕ
head_of [] = none
head_of (x ∷ xs) = some x

pub last_of : Option ℕ → List ℕ → Option ℕ
last_of before [] = before
last_of before (x ∷ xs) = last_of (some x) xs

-- `list_addfirst (root, item)` between `before`, which is the root or an item, and `after`.
pub add_between : Memory → ℕ → Option ℕ → ℕ → Option ℕ → Memory
unfolding set_next set_prev
add_between m root before item after =
    let m1 = set_next m (some item) (address root after) in
    let m2 = set_prev m1 (some item) (address root before) in
    let m3 = set_prev m2 after item in set_next m3 before item

-- `list_addfirst (root, item)` on the list `xs`.
pub add_first : Memory → ℕ → ℕ → List ℕ → Memory
unfolding add_between
add_first m root item xs = add_between m root none item (head_of xs)

-- `list_addlast (root, x)` for each x of a sequence, where `before` is the last of the list.
pub add_all : Memory → ℕ → Option ℕ → List ℕ → Memory
unfolding add_between
add_all m root before [] = m
add_all m root before (x ∷ xs) = add_all (add_between m root before x none) root (some x) xs

-- `list_unlink` of an item between `before` and `after`.
pub unlink_between : Memory → ℕ → Option ℕ → Option ℕ → Memory
unfolding set_next set_prev
unlink_between m root before after =
    set_prev (set_next m before (address root after)) after (address root before)

-- The loop that unlinks the items that `goes` tells.
pub unlink_all : Memory → ℕ → (ℕ → Bool) → Option ℕ → List ℕ → Memory
unfolding unlink_between
unlink_all m root goes before [] = m
unlink_all m root goes before (x ∷ xs) =
    let gone = unlink_all (unlink_between m root before (head_of xs)) root goes before xs in
    let kept = unlink_all m root goes (some x) xs in if goes x then gone else kept

-- Whether the byte `q` is one of the links of an item.
abbrev pub in_link : ℕ → ℕ → Bool
in_link q x = leb x q && ltb q (x + 8)

abbrev pub in_option : ℕ → Option ℕ → Bool
in_option q none = false
in_option q (some x) = in_link q x

unfoldable pub in_links : ℕ → List ℕ → Bool
in_links q [] = false
in_links q (x ∷ xs) = let rest = in_links q xs in in_link q x || rest

set_next-kept :
    (m : Memory) (x : Option ℕ) (a q : ℕ) → in_option q x ≡ false → set_next m x a q ≡ m q
unfolding set_next store_word
set_next-kept m none a q h = refl
set_next-kept m (some x) a q h = ground (arith, h)

set_prev-kept :
    (m : Memory) (x : Option ℕ) (a q : ℕ) → in_option q x ≡ false → set_prev m x a q ≡ m q
unfolding set_prev store_word
set_prev-kept m none a q h = refl
set_prev-kept m (some x) a q h = ground (arith, h)

head_of-out : (q : ℕ) (xs : List ℕ) → in_links q xs ≡ false → in_option q (head_of xs) ≡ false
unfolding in_links
head_of-out q [] h = refl
head_of-out q (x ∷ xs) h = ground (arith, h)

head-out : (q x : ℕ) (xs : List ℕ) → in_links q (x ∷ xs) ≡ false → in_link q x ≡ false
unfolding in_links
head-out q x xs h = ground (arith, h)

pub tail-out : (q x : ℕ) (xs : List ℕ) → in_links q (x ∷ xs) ≡ false → in_links q xs ≡ false
unfolding in_links
tail-out q x xs h = ground (arith, h)

pub last_of-out :
    (q : ℕ) (before : Option ℕ) (xs : List ℕ)
    → in_option q before ≡ false
    → in_links q xs ≡ false
    → in_option q (last_of before xs) ≡ false
unfolding last_of
last_of-out q before [] b h = b
last_of-out q before (x ∷ xs) b h =
    last_of-out q (some x) xs (head-out q x xs h) (tail-out q x xs h)

add_between-kept :
    (m : Memory) (root : ℕ) (before : Option ℕ) (item : ℕ) (after : Option ℕ) (q : ℕ)
    → in_option q before ≡ false
    → in_link q item ≡ false
    → in_option q after ≡ false
    → add_between m root before item after q ≡ m q
unfolding add_between
add_between-kept m root before item after q b i a =
    let m1 = set_next m (some item) (address root after) in
    let m2 = set_prev m1 (some item) (address root before) in
    let m3 = set_prev m2 after item in
    set_next-kept m3 before item q b
    ∙ set_prev-kept m2 after item q a
    ∙ set_prev-kept m1 (some item) (address root before) q i
    ∙ set_next-kept m (some item) (address root after) q i

pub cons-out :
    (q x : ℕ) (xs : List ℕ)
    → in_link q x ≡ false
    → in_links q xs ≡ false
    → in_links q (x ∷ xs) ≡ false
unfolding in_links
cons-out q x xs a b = ground (arith, a, b)

-- The list functions write into the links of the items only.
pub add_first-kept :
    (m : Memory) (root item : ℕ) (xs : List ℕ) (q : ℕ)
    → in_link q item ≡ false
    → in_links q xs ≡ false
    → add_first m root item xs q ≡ m q
unfolding add_first
add_first-kept m root item xs q i h =
    add_between-kept m root none item (head_of xs) q refl i (head_of-out q xs h)

pub add_all-kept :
    (m : Memory) (root : ℕ) (before : Option ℕ) (xs : List ℕ) (q : ℕ)
    → in_option q before ≡ false
    → in_links q xs ≡ false
    → add_all m root before xs q ≡ m q
unfolding add_all
add_all-kept m root before [] q b h = refl
add_all-kept m root before (x ∷ xs) q b h =
    add_all-kept (add_between m root before x none) root (some x) xs q (head-out q x xs h)
      (tail-out q x xs h)
    ∙ add_between-kept m root before x none q b (head-out q x xs h) refl

pub unlink_between-kept :
    (m : Memory) (root : ℕ) (before : Option ℕ) (xs : List ℕ) (q : ℕ)
    → in_option q before ≡ false
    → in_links q xs ≡ false
    → unlink_between m root before (head_of xs) q ≡ m q
unfolding unlink_between
unlink_between-kept m root before xs q b h =
    set_prev-kept (set_next m before (address root (head_of xs))) (head_of xs) (address root before)
      q (head_of-out q xs h)
    ∙ set_next-kept m before (address root (head_of xs)) q b

pub unlink_all-kept :
    (m : Memory) (root : ℕ) (goes : ℕ → Bool) (before : Option ℕ) (xs : List ℕ) (q : ℕ)
    → in_option q before ≡ false
    → in_links q xs ≡ false
    → unlink_all m root goes before xs q ≡ m q
unfolding unlink_all
unlink_all-kept m root goes before [] q b h = refl
unlink_all-kept m root goes before (x ∷ xs) q b h = elim (Bool-cases (goes x)) [
  | inl e ↦ rw e (
      unlink_all-kept (unlink_between m root before (head_of xs)) root goes before xs q b
        (tail-out q x xs h)
      ∙ unlink_between-kept m root before xs q b (tail-out q x xs h))
  | inr e ↦ rw e (unlink_all-kept m root goes (some x) xs q (head-out q x xs h) (tail-out q x xs h))
]
