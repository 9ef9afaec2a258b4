-- ===== src/Slab/Tests.antt =====
-- The allocator on a heap of two pages.
use ko.Base.{ℕ, ◌≡◌, refl, [], ◌∷◌, arith}
use ko.Base.Run.{Run, done, panic, out_of_fuel, Returns, ◌>>=◌}
use ko.Slab.{
  Slabs, page_number, kmemkernel_init, pages_from, kmalloc, kfree, nb_line, refill, kmalloc_page,
  take_object, get_first, cut,
}
use ko.Slab.Invariant.{IsSlabs}
use ko.Slab.Init.{IsHeap, kmemkernel_init-IsSlabs}
use ko.Slab.Alloc.{IsGiven, kmalloc-IsGiven}
use ko.Slab.Kfree.{IsFreed, kfree-IsFreed}

-- Two pages from 4096 on, with lines of 16 bytes.
abbrev heap : Slabs
heap = kmemkernel_init 256 4096 2 16 (λ q. 7)

heap-lists : heap.slab 0 ≡ 4096 ∷ 8192 ∷ []
unfolding kmemkernel_init pages_from
heap-lists = refl

two_pages : IsHeap 4096 2 16
two_pages = record {
  start = omega arith;
  aligned = refl;
  some_pages = omega arith;
  few_pages = omega arith;
  fits = omega arith;
  some_line = omega arith;
  lines = refl;
}

abbrev value_of : Run (ℕ × Slabs) → ℕ × Slabs
value_of (done r) = r
value_of panic = (1, heap)
value_of out_of_fuel = (2, heap)

abbrev first_of : Run (ℕ × Slabs) → ℕ
first_of r = (value_of r).0

kmalloc_2000 : first_of (kmalloc heap 2000) ≡ 4096
unfolding kmemkernel_init pages_from kmalloc refill kmalloc_page take_object get_first cut nb_line
kmalloc_2000 = refl

kmalloc_2000_twice : first_of (kmalloc heap 2000 >>= λ r. kmalloc r.1 2000) ≡ 6096
unfolding kmemkernel_init pages_from kmalloc refill kmalloc_page take_object get_first cut nb_line
    page_number
kmalloc_2000_twice = refl

heap-IsSlabs : IsSlabs heap
heap-IsSlabs = kmemkernel_init-IsSlabs 256 4096 2 16 (λ q. 7) two_pages

kmalloc-IsGiven_example : Returns (IsGiven heap 2000) (kmalloc heap 2000)
kmalloc-IsGiven_example =
    kmalloc-IsGiven heap heap-IsSlabs 2000 4096 (8192 ∷ []) heap-lists (omega arith) (omega arith)

-- The heap with an object in use.
abbrev given : ℕ × Slabs
given = value_of (kmalloc heap 2000)

given-IsGiven : IsGiven heap 2000 given
unfolding kmemkernel_init pages_from kmalloc refill kmalloc_page take_object get_first cut nb_line
given-IsGiven =
    kmalloc-IsGiven heap heap-IsSlabs 2000 4096 (8192 ∷ []) heap-lists (omega arith) (omega arith)

kfree-IsFreed_example : Returns (IsFreed given.1 given.0) (kfree given.1 given.0)
kfree-IsFreed_example =
    kfree-IsFreed given.1 given-IsGiven.slabs given.0 (given-IsGiven.used, given-IsGiven.unlisted)
