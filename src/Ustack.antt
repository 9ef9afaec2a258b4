-- ===== src/Ustack.antt =====
-- The user stacks and sbrk of kernel/kmemuser.c. Addresses are counted in words, as the pointer
-- arithmetic of the code does; the stacks fill the user memory from `ustack_beg` downward, and a stack is
-- named by its lowest word. The list of free stacks is the sequence of its items (see DList); the links of an
-- item are its two lowest words, `next` and `prev`, and are written to the memory.
pub mod Region
mod Tests
use ko.Base.{
  ℕ, ◌+◌, ◌-◌, ◌%◌, ◌^◌, Bool, Option, none, some, List, [], ◌∷◌, ◌==◌, ltb, leb, not,
  if◌then◌else◌, update,
}
use ko.Base.Run.{Run, done, panic_if}
use ko.DList.Ops.{last_of, but_last}
use ko.DList.Walk.{sorted_insert}

-- `USTACK_SIZE / sizeof (int)`
abbrev pub stack_words : ℕ
stack_words = 16384

abbrev pub magic_stack : ℕ
magic_stack = 0xDEADF00D

-- The fields of `__usermem`, the words of the memory, and `FreeUserStack` with its address `root`.
pub record UserMem : Type 0 where
  pub root : ℕ
  pub ustack_beg : ℕ
  pub ustack_end : ℕ
  pub uheap_end : ℕ
  pub word : ℕ → ℕ
  pub free_stacks : List ℕ

-- `*top = *end = MAGIC_STACK`, with `top` the highest word.
abbrev pub mark : UserMem → (end : ℕ) → ℕ × UserMem
mark s end =
    let top = end + stack_words - 1 in
    (top, record s { word = update (update s.word end magic_stack) top magic_stack })

-- A neighbour in the list: a free stack, or none for the root, whose links are the sequence.
abbrev address : ℕ → Option ℕ → ℕ
address root none = root
address root (some x) = x

abbrev pub set_next : (ℕ → ℕ) → Option ℕ → ℕ → ℕ → ℕ
set_next word none a = word
set_next word (some x) a = update word x a

abbrev set_prev : (ℕ → ℕ) → Option ℕ → ℕ → ℕ → ℕ
set_prev word none a = word
set_prev word (some x) a = update word (x + 1) a

abbrev head_of : List ℕ → Option ℕ
head_of [] = none
head_of (x ∷ xs) = some x

-- The item before the last one of `x ∷ xs`, where `before` is before `x`.
pub before_last : Option ℕ → ℕ → List ℕ → Option ℕ
before_last before x [] = before
before_last before x (y ∷ ys) = before_last (some x) y ys

-- `list_addprev (after, item)`, behind `before`.
abbrev add_between : (ℕ → ℕ) → ℕ → Option ℕ → ℕ → Option ℕ → ℕ → ℕ
add_between word root before item after =
    set_next
      (set_prev (update (update word item (address root after)) (item + 1) (address root before))
        after item)
      before item

-- The last free stack is taken off the list; without one the region grows downward.
pub malloc_ustack : UserMem → Run (ℕ × UserMem)
unfolding before_last
malloc_ustack s = elim s.free_stacks [
  | [] ↦
      let end = (s.ustack_end + 2 ^ 30 - stack_words) % 2 ^ 30 in
      panic_if (ltb end s.uheap_end) (done (mark (record s { ustack_end = end }) end))
  | x ∷ xs ↦ done (
      mark
        (record s {
          free_stacks = but_last x xs;
          word = set_next s.word (before_last none x xs) s.root;
        })
        (last_of x xs))
]

-- The loop of `free_ustack`: free stacks that have become the lowest leave the list.
pub shrink : ℕ → List ℕ → ℕ × List ℕ
shrink end [] = (end, [])
shrink end (x ∷ xs) =
    let rest = shrink (x + stack_words) xs in if x == end then rest else (end, x ∷ xs)

-- What that loop writes: each free stack that leaves is unlinked from the root.
pub shrink_links : (ℕ → ℕ) → ℕ → ℕ → List ℕ → ℕ → ℕ
shrink_links word root end [] = word
shrink_links word root end (x ∷ xs) =
    let rest = shrink_links (set_prev word (head_of xs) root) root (x + stack_words) xs in
    if x == end then rest else word

-- `cmp_addr (curr, new) >= 0`: the difference of the addresses as a signed 32-bit number of bytes.
pub cmp_addr : (curr new : ℕ) → Bool
cmp_addr curr new = ltb ((curr + 2 ^ 30 - new) % 2 ^ 30) (2 ^ 29)

-- What `list_addsort` writes.
pub sorted_links : (ℕ → ℕ) → ℕ → Option ℕ → ℕ → List ℕ → ℕ → ℕ
unfolding cmp_addr
sorted_links word root before new [] = add_between word root before new none
sorted_links word root before new (curr ∷ rest) =
    let later = sorted_links word root (some curr) new rest in
    if cmp_addr curr new then add_between word root before new (some curr) else later

pub free_ustack : UserMem → (top : ℕ) → Run UserMem
unfolding shrink shrink_links cmp_addr sorted_links
free_ustack s top =
    let end = 1 + top - stack_words in
    panic_if (not (s.word top == magic_stack)) (
      panic_if (not (s.word end == magic_stack)) (
        if end == s.ustack_end
        then (let (end', rest) = shrink (s.ustack_end + stack_words) s.free_stacks in
            done (record s {
              ustack_end = end';
              free_stacks = rest;
              word = shrink_links s.word s.root (s.ustack_end + stack_words) s.free_stacks;
            }))
        else done (record s {
          free_stacks = sorted_insert cmp_addr end s.free_stacks;
          word = sorted_links s.word s.root none end s.free_stacks;
        })))
