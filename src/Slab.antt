-- ===== src/Slab.antt =====
-- The allocator of the kernel (kernel/kmemkernel.c): pages, and slabs of objects of one size. The free
-- lists are the sequences of their addresses, as DList/Ops allows; what the list functions write into the
-- free objects is written to the memory (Slab/Links).
pub mod Links
pub mod Accessors
pub mod Arith
pub mod Invariant
pub mod Entry
pub mod Init
pub mod Used
pub mod Cut
pub mod Refill
pub mod Alloc
pub mod Release
pub mod Unlink
pub mod Kfree
pub mod Cycle
mod Tests
use ko.Base.{
  ℕ, zero, suc, ◌+◌, ◌-◌, ◌*◌, ◌/◌, ◌%◌, ◌^◌, Bool, true, false, not, ◌==◌, ltb, leb, if◌then◌else◌,
  ◌||◌, ◌&&◌, update, none, List, [], ◌∷◌, ◌++◌,
}
use ko.Base.Run.{Run, done, panic, panic_if, ◌>>=◌}
use ko.Cstd.Bytes.{Memory, memset}
use ko.Slab.Links.{add_first, add_all, last_of, unlink_between, unlink_all, head_of}

abbrev pub page_size : ℕ
page_size = 4096

-- `PAGE_FREE`, `PAGE_SLAB`, `PAGE_BLOCK`
pub data PageType : Type 0 where
  page_free : PageType
  page_slab : PageType
  page_block : PageType

-- `page_t`, a union of 64 bits: `count` is `slab.nbused` and `block.refcount`, which are the same bits
-- 24 to 31; `type` is the same in both, and `lines` lies in bits that a block does not use.
pub record Page : Type 0 where
  pub type : PageType
  pub bdev : ℕ
  pub dirty : Bool
  pub lock : Bool
  pub valid : Bool
  pub lines : ℕ
  pub count : ℕ
  pub lba : ℕ

-- `raw = PAGE_FREE`
abbrev pub raw_free : Page
raw_free = record {
  type = page_free;
  bdev = 0;
  dirty = false;
  lock = false;
  valid = false;
  lines = 0;
  count = 0;
  lba = 0;
}

-- The variables of the file, with `kmb` and `kme`, the address of `Slab`, and the contents of memory.
pub record Slabs : Type 0 where
  pub roots : ℕ
  pub kmb : ℕ
  pub nb_pages : ℕ
  pub line : ℕ
  pub max_line : ℕ
  pub slab : ℕ → List ℕ
  pub objects : ℕ → ℕ
  pub page : ℕ → Page
  pub mem : Memory

-- `&Slab[i]`
abbrev pub root : Slabs → ℕ → ℕ
root s i = s.roots + 8 * i

abbrev pub kme : Slabs → ℕ
kme s = s.kmb + s.nb_pages * page_size

-- `PAGE(page)`, on 32-bit pointers whose difference is an `int`.
pub page_number : ℕ → ℕ → ℕ → ℕ
page_number kmb nb_pages a =
    let x = (a + 2 ^ 32 - kmb) % 2 ^ 32 in
    (if ltb x (2 ^ 31) then x / 2 ^ 12 else x / 2 ^ 12 + (2 ^ 32 - 2 ^ 20)) % nb_pages

abbrev pub page_index : Slabs → ℕ → ℕ
page_index s a = page_number s.kmb s.nb_pages a

abbrev pub page_of : Slabs → ℕ → Page
page_of s a = s.page (page_index s a)

abbrev pub set_page : Slabs → ℕ → Page → Slabs
set_page s a p = record s { page = update s.page (page_index s a) p }

pub segfault : Slabs → ℕ → Bool
segfault s a = ltb a s.kmb || leb (kme s) a

-- `NBLINE(n)`
pub nb_line : Slabs → ℕ → ℕ
nb_line s n = (n + s.line - 1) / s.line

-- The pages from `p` on, in their order.
pub pages_from : ℕ → ℕ → List ℕ
pages_from zero p = []
pages_from (suc n) p = p ∷ pages_from n (p + page_size)

abbrev pub ceil : ℕ → ℕ → ℕ
ceil a n = (a + n - 1) / n * n

pub kmemkernel_init : ℕ → ℕ → ℕ → ℕ → Memory → Slabs
unfolding pages_from
kmemkernel_init roots kmb nb_pages cachelinesize mem =
    let line = ceil cachelinesize 16 in
    record {
      roots = roots;
      kmb = kmb;
      nb_pages = nb_pages;
      line = line;
      max_line = page_size / line;
      slab = λ i. if i == 0 then pages_from nb_pages kmb else [];
      objects = λ i. 0;
      page = λ i. raw_free;
      mem = add_all mem roots none (pages_from nb_pages kmb);
    }

-- `for (char *p=page; p+size<=page+PAGE_SIZE; p+=size)`, the addresses that it adds.
pub cut : ℕ → ℕ → ℕ → ℕ → List ℕ
cut zero page size p = []
cut (suc fuel) page size p =
    let rest = cut fuel page size (p + size) in
    if leb (p + size) (page + page_size) then p ∷ rest else []

-- `list_getfirst (&Slab[i])`, NULL of an empty list.
pub get_first : Slabs → ℕ → ℕ × Slabs
get_first s i = elim (s.slab i) [
  | [] ↦ (0, s)
  | x ∷ xs ↦ (
    x,
    record s { slab = update s.slab i xs; mem = unlink_between s.mem (root s i) none (head_of xs) },
  )
]

-- The end of kmalloc: an object of `lines` lines, `size` bytes, from its list.
pub take_object : Slabs → ℕ → ℕ → ℕ × Slabs
unfolding get_first
take_object s lines size =
    let i = lines % s.max_line in
    let (res, s1) = get_first s i in
    let p = page_of s1 res in
    let s2 =
      set_page s1 res (record p { lines = i; count = (p.count + 1) % 2 ^ 8; type = page_slab }) in
    (
      res,
      record s2 {
        objects = update s2.objects i ((s2.objects i + 1) % 2 ^ 32);
        mem = memset s2.mem res 0 size;
      },
    )

abbrev pub is_empty : List ℕ → Bool
is_empty [] = true
is_empty (x ∷ xs) = false

-- kmalloc of a whole page, where kmalloc calls itself: a page is a whole number of lines, so that `size`
-- is still `PAGE_SIZE` after the rounding.
pub kmalloc_page : Slabs → Run (ℕ × Slabs)
kmalloc_page s =
    panic_if (is_empty (s.slab 0))
      (done (take_object s (nb_line s page_size) (nb_line s page_size * s.line)))

-- An empty slab gets the objects of a new page.
pub refill : Slabs → ℕ → ℕ → Run Slabs
unfolding kmalloc_page cut
refill s lines size = do
  (page, s1) ← kmalloc_page s
  let s2 = set_page s1 page (record (page_of s1 page) { count = 0 })
  let new = cut page_size page size page
  done (record s2 {
    slab = update s2.slab lines (s2.slab lines ++ new);
    mem = add_all s2.mem (root s2 lines) (last_of none (s2.slab lines)) new;
  })

pub kmalloc : Slabs → ℕ → Run (ℕ × Slabs)
kmalloc s size = panic_if (ltb page_size size) (
    panic_if ((size == page_size) && is_empty (s.slab 0)) (
      let lines = nb_line s size in
      let size1 = lines * s.line in
      (if not (size1 == page_size) && is_empty (s.slab lines) then refill s lines size1 else done s)
      >>= λ s1. done (take_object s1 lines size1)))

pub kcalloc : Slabs → ℕ → ℕ → Run (ℕ × Slabs)
unfolding kmalloc
kcalloc s n size = kmalloc s (n * size % 2 ^ 32)

-- The loop that unlinks the objects of a page from their list.
pub unlink_page : Slabs → ℕ → List ℕ → List ℕ
unlink_page s i [] = []
unlink_page s i (x ∷ xs) =
    let rest = unlink_page s i xs in if page_index s x == i then rest else x ∷ rest

-- `(size_t)obj & ~0xFFF`
abbrev pub page_start : ℕ → ℕ
page_start a = a / 2 ^ 12 * 2 ^ 12

-- The page of the object has no more objects in use.
pub free_page : Slabs → ℕ → ℕ → Slabs
unfolding unlink_page
free_page s obj lines =
    let s1 = record s {
      slab = update s.slab lines (unlink_page s (page_index s obj) (s.slab lines));
      mem =
          unlink_all s.mem (root s lines) (λ x. page_index s x == page_index s obj) none
            (s.slab lines);
    } in
    let s2 = set_page s1 obj raw_free in
    record s2 {
      slab = update s2.slab 0 (page_start obj ∷ s2.slab 0);
      mem = add_first s2.mem (root s2 0) (page_start obj) (s2.slab 0);
      objects = update s2.objects 0 ((s2.objects 0 + 2 ^ 32 - 1) % 2 ^ 32);
    }

abbrev pub is_page_free : PageType → Bool
is_page_free page_free = true
is_page_free page_slab = false
is_page_free page_block = false

-- kfree behind its tests.
pub put_back : Slabs → ℕ → Slabs
unfolding free_page
put_back s obj =
    let lines = (page_of s obj).lines in
    let s1 = record s {
      slab = update s.slab lines (obj ∷ s.slab lines);
      mem = add_first s.mem (root s lines) obj (s.slab lines);
      objects = update s.objects lines ((s.objects lines + 2 ^ 32 - 1) % 2 ^ 32);
    } in
    if lines == 0
    then set_page s1 obj raw_free
    else (let p = page_of s1 obj in
        let s2 = set_page s1 obj (record p { count = (p.count + 2 ^ 8 - 1) % 2 ^ 8 }) in
        if (page_of s2 obj).count == 0 then free_page s2 obj lines else s2)

pub kfree : Slabs → ℕ → Run Slabs
unfolding segfault put_back
kfree s obj =
    panic_if (segfault s obj) (panic_if (is_page_free (page_of s obj).type) (done (put_back s obj)))
