-- ===== src/DList.antt =====
-- The intrusive circular list of common/list.h over a memory of link cells: `next` and `prev` give
-- the two fields of the `list_t` at each address. A root and an item are both addresses of `list_t`.
pub mod Ring
pub mod Ops
pub mod Walk
mod Tests
use ko.Base.{ℕ, zero, suc, ◌+◌, Bool, Option, none, some, ◌==◌, if◌then◌else◌, update}

-- Every `list_t` of the memory, by address. Address 0 is `NULL`.
pub record Links : Type 0 where
  pub next : ℕ → ℕ
  pub prev : ℕ → ℕ

abbrev pub null : ℕ
null = 0

-- `p->next = v`
abbrev pub set_next : Links → ℕ → ℕ → Links
set_next m p v = record m { next = update m.next p v }

-- `p->prev = v`
abbrev pub set_prev : Links → ℕ → ℕ → Links
set_prev m p v = record m { prev = update m.prev p v }

pub list_isempty : Links → ℕ → Bool
list_isempty m root = root == m.next root

pub list_first : Links → ℕ → ℕ
unfolding list_isempty
list_first m root = if list_isempty m root then null else m.next root

pub list_last : Links → ℕ → ℕ
unfolding list_isempty
list_last m root = if list_isempty m root then null else m.prev root

pub list_init : Links → ℕ → Links
list_init m root = set_next (set_prev m root root) root root

pub list_addfirst : Links → ℕ → ℕ → Links
list_addfirst m root added_item =
    let m1 = set_next m added_item (m.next root) in
    let m2 = set_prev m1 added_item root in
    let m3 = set_prev m2 (m2.next root) added_item in set_next m3 root added_item

pub list_addlast : Links → ℕ → ℕ → Links
list_addlast m root added_item = list_addfirst m (m.prev root) added_item

-- The item that the C function returns is its argument.
pub list_unlink : Links → ℕ → Links
list_unlink m item =
    let m1 = set_next m (m.prev item) (m.next item) in set_prev m1 (m1.next item) (m1.prev item)

pub list_getfirst : Links → ℕ → ℕ × Links
unfolding list_isempty list_unlink
list_getfirst m root =
    if list_isempty m root then (null, m) else (m.next root, list_unlink m (m.next root))

pub list_getlast : Links → ℕ → ℕ × Links
unfolding list_isempty list_unlink
list_getlast m root =
    if list_isempty m root then (null, m) else (m.prev root, list_unlink m (m.prev root))

-- `a->next->prev = a->prev->next = b` stores `b` at the right place first.
pub list_replace : Links → ℕ → ℕ → Links
unfolding list_init
list_replace m old_item new_item =
    let m1 = set_next m (m.prev old_item) new_item in
    let m2 = set_prev m1 (m1.next old_item) new_item in
    let m3 = set_next m2 new_item (m2.next old_item) in
    let m4 = set_prev m3 new_item (m3.prev old_item) in list_init m4 old_item

-- `list_foreach (root, item) nbobj++;`, the next item being read one round ahead. `none` stands for
-- a loop that has not ended within the fuel.
nbobj_loop : ℕ → Links → (root item after nbobj : ℕ) → Option ℕ
nbobj_loop zero m root item after nbobj = none
nbobj_loop (suc fuel) m root item after nbobj =
    let rest = nbobj_loop fuel m root after (m.next after) (nbobj + 1) in
    if item == root then some nbobj else rest

pub list_nbobj : ℕ → Links → ℕ → Option ℕ
unfolding nbobj_loop
list_nbobj fuel m root = nbobj_loop fuel m root (m.next root) (m.next (m.next root)) 0

-- `cmp a b` says whether the comparison function of the caller returns a number that is at least 0.
addsort_loop : (ℕ → ℕ → Bool) → ℕ → Links → (root item after added_item : ℕ) → Option Links
unfolding list_addlast
addsort_loop cmp zero m root item after added_item = none
addsort_loop cmp (suc fuel) m root item after added_item =
    let rest = addsort_loop cmp fuel m root after (m.next after) added_item in
    if item == root
    then some (list_addlast m root added_item)
    else if cmp item added_item
    then some (list_addlast m item added_item)
    else rest

pub list_addsort : (ℕ → ℕ → Bool) → ℕ → Links → (root added_item : ℕ) → Option Links
unfolding addsort_loop
list_addsort cmp fuel m root added_item =
    addsort_loop cmp fuel m root (m.next root) (m.next (m.next root)) added_item
