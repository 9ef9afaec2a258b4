-- ===== src/Radix.antt =====
-- The radix tree of common/radix.c: a table of 2^32 pointers, in nodes of 256 slots and up to four
-- levels. The nodes are an explicit memory, since nodes can be reached by two ways. `calloc`
-- hands out the addresses of `supply` in turn, and `NULL` when there is none left.
pub mod Tree
pub mod Steps
pub mod Changes
pub mod Put
pub mod Raise
pub mod Top
pub mod Roots
pub mod Upper
pub mod Law
pub mod Sharing
mod Tests
use ko.Base.{
  ℕ, ◌+◌, ◌/◌, ◌%◌, ◌^◌, Option, none, some, List, [], ◌∷◌, ◌==◌, ltb, if◌then◌else◌, update, Bool,
  ◌&&◌, not,
}

-- `struct radix_s`, the slots of every node, and the nodes that `calloc` can still give.
pub record Radix : Type 0 where
  pub root_l0 : ℕ
  pub root_l1 : ℕ
  pub root_l2 : ℕ
  pub root_l3 : ℕ
  pub slots : ℕ → ℕ → ℕ
  pub supply : List ℕ

-- `radix_create`, on a memory that `calloc` clears. The nodes that it can give are `supply`.
pub radix_create : List ℕ → Radix
radix_create supply = record {
  root_l0 = 0;
  root_l1 = 0;
  root_l2 = 0;
  root_l3 = 0;
  slots = λ _ _. 0;
  supply = supply;
}

-- `L0` to `L3`
abbrev pub l0 : ℕ → ℕ
l0 i = i / 2 ^ 24 % 256

abbrev pub l1 : ℕ → ℕ
l1 i = i / 2 ^ 16 % 256

abbrev pub l2 : ℕ → ℕ
l2 i = i / 2 ^ 8 % 256

abbrev pub l3 : ℕ → ℕ
l3 i = i % 256

-- `node->slots[c]`; where the node is `NULL`, the code returns `NULL`, and so does all that follows.
abbrev pub follow : (ℕ → ℕ → ℕ) → ℕ → ℕ → ℕ
follow slots node c = if node == 0 then 0 else slots node c

pub radix_get : Radix → ℕ → ℕ
radix_get rx index =
    let at = follow rx.slots in
    if ltb index 0x100
    then at rx.root_l3 (l3 index)
    else if ltb index 0x10000
    then at (at rx.root_l2 (l2 index)) (l3 index)
    else if ltb index 0x1000000
    then at (at (at rx.root_l1 (l1 index)) (l2 index)) (l3 index)
    else at (at (at (at rx.root_l0 (l0 index)) (l1 index)) (l2 index)) (l3 index)

-- Code that may fail on the way, `return -1`, and leaves what it has done so far.
abbrev pub M : Type 0 → Type 0
M A = Radix → Option A × Radix

infixl 5 ◌>>=◌ ◌>>◌
abbrev pub ◌>>=◌ : {A B : Type 0} → M A → (A → M B) → M B
◌>>=◌ m f rx = let (out, rx') = m rx in elim out [ none ↦ (none, rx') | some a ↦ f a rx' ]

abbrev pub ◌>>◌ : {B : Type 0} → M (Unit {0}) → M B → M B
m >> k = m >>= λ _. k

abbrev pub pure : {A : Type 0} → A → M A
pure a rx = (some a, rx)

abbrev pub modify : (Radix → Radix) → M (Unit {0})
modify f rx = (some tt, f rx)

pub new_node : M ℕ
new_node rx = elim rx.supply [
  | [] ↦ (none, rx)
  | n ∷ ns ↦ (some n, record rx { slots = update rx.slots n (λ _. 0); supply = ns })
]

-- `node->slots[c] = val`
abbrev pub write : ℕ → ℕ → ℕ → Radix → Radix
write node c val rx = record rx { slots = update rx.slots node (update (rx.slots node) c val) }

abbrev pub set_root_l1 : ℕ → Radix → Radix
set_root_l1 n rx = record rx { root_l1 = n }

abbrev pub set_root_l2 : ℕ → Radix → Radix
set_root_l2 n rx = record rx { root_l2 = n }

abbrev pub set_root_l3 : ℕ → Radix → Radix
set_root_l3 n rx = record rx { root_l3 = n }

-- `if (!(child = node->slots[c])) { if (!(child = new_node ())) return -1; node->slots[c] = child;
-- if (c == 0) root = child; }`, which the code has for each level and its root.
pub child_of : (ℕ → Radix → Radix) → (node c : ℕ) → M ℕ
unfolding new_node
child_of set_root node c rx =
    let child = rx.slots node c in
    if not (child == 0)
    then (some child, rx)
    else (do
      child ← new_node
      modify (write node c child)
      modify (λ rx. if c == 0 then set_root child rx else rx)
      pure child)
        rx

-- `if (!rx->root_l2 && rx->root_l3) { if (!(rx->root_l2 = new_node ())) return -1; … }`
pub grow_l2 : M (Unit {0})
unfolding new_node
grow_l2 rx =
    if (rx.root_l2 == 0) && not (rx.root_l3 == 0)
    then (do n ← new_node; modify (set_root_l2 n); modify (λ rx. write rx.root_l2 0 rx.root_l3 rx))
        rx
    else (some tt, rx)

-- `if (!rx->root_l1 && rx->root_l2) { if (!(rx->root_l1 = new_node ())) return -1; … }`
pub grow_l1 : M (Unit {0})
unfolding new_node
grow_l1 rx =
    if (rx.root_l1 == 0) && not (rx.root_l2 == 0)
    then (do n ← new_node; modify (set_root_l1 n); modify (λ rx. write rx.root_l1 0 rx.root_l2 rx))
        rx
    else (some tt, rx)

-- The roots of the four cases of `radix_set`, allocated if they are absent.
pub top_l3 : M ℕ
unfolding new_node
top_l3 rx =
    if not (rx.root_l3 == 0)
    then (some rx.root_l3, rx)
    else (do n ← new_node; modify (set_root_l3 n); pure n) rx

pub top_l2 : M ℕ
unfolding new_node
top_l2 rx =
    if not (rx.root_l2 == 0)
    then (some rx.root_l2, rx)
    else (do n ← new_node; modify (λ rx. write n 0 rx.root_l3 rx); modify (set_root_l2 n); pure n)
        rx

pub top_l1 : M ℕ
unfolding new_node grow_l2
top_l1 rx =
    if not (rx.root_l1 == 0)
    then (some rx.root_l1, rx)
    else (do
      n ← new_node
      grow_l2
      modify (λ rx. write n 0 rx.root_l2 rx)
      modify (set_root_l1 n)
      pure n)
        rx

pub top_l0 : M ℕ
unfolding new_node grow_l2 grow_l1
top_l0 rx =
    if not (rx.root_l0 == 0)
    then (some rx.root_l0, rx)
    else (do
      n ← new_node
      grow_l2
      grow_l1
      modify (λ rx. write n 0 rx.root_l1 rx)
      modify (λ rx. record rx { root_l0 = n })
      pure n)
        rx

-- The ends of the four cases of `radix_set`, from the node of each level on.
pub put_l3 : (index val : ℕ) → ℕ → M (Unit {0})
put_l3 index val n3 = modify (write n3 (l3 index) val)

pub put_l2 : (index val : ℕ) → ℕ → M (Unit {0})
unfolding child_of put_l3
put_l2 index val n2 = child_of set_root_l3 n2 (l2 index) >>= put_l3 index val

pub put_l1 : (index val : ℕ) → ℕ → M (Unit {0})
unfolding child_of put_l2
put_l1 index val n1 = child_of set_root_l2 n1 (l1 index) >>= put_l2 index val

pub put_l0 : (index val : ℕ) → ℕ → M (Unit {0})
unfolding child_of put_l1
put_l0 index val n0 = child_of set_root_l1 n0 (l0 index) >>= put_l1 index val

pub radix_set : Radix → (index val : ℕ) → Option (Unit {0}) × Radix
unfolding top_l3 top_l2 top_l1 top_l0 put_l3 put_l2 put_l1 put_l0
radix_set rx index val =
    if ltb index 0x100
    then (top_l3 >>= put_l3 index val) rx
    else if ltb index 0x10000
    then (top_l2 >>= put_l2 index val) rx
    else if ltb index 0x1000000
    then (top_l1 >>= put_l1 index val) rx
    else (top_l0 >>= put_l0 index val) rx
