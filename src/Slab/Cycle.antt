-- ===== src/Slab/Cycle.antt =====
-- What kmalloc returns can be given to kfree.
use ko.Base.{ℕ, ◌<◌, ◌≤◌, ◌≡◌, List, ◌∷◌}
use ko.Base.Run.{Returns, Returns-weaken}
use ko.Slab.{Slabs, page_size, kmalloc, kfree}
use ko.Slab.Invariant.{IsSlabs}
use ko.Slab.Alloc.{IsGiven, kmalloc-IsGiven}
use ko.Slab.Kfree.{IsFreed, kfree-IsFreed}

-- Where there is a free page, kmalloc of 1 to 4096 bytes and then kfree of what it returned both return:
-- the object, or its page, is free again, in well-formed lists.
pub kfree-kmalloc :
    (s : Slabs) (v : IsSlabs s) (size p : ℕ) (ps : List ℕ)
    → s.slab 0 ≡ p ∷ ps
    → 0 < size
    → size ≤ page_size
    → Returns (λ r. Returns (IsFreed r.1 r.0) (kfree r.1 r.0)) (kmalloc s size)
kfree-kmalloc s v size p ps e pos l =
    Returns-weaken (IsGiven s size) (λ r. Returns (IsFreed r.1 r.0) (kfree r.1 r.0))
      (kmalloc s size) (kmalloc-IsGiven s v size p ps e pos l)
      (λ r g. kfree-IsFreed r.1 g.slabs r.0 (g.used, g.unlisted))
