-- ===== src/Blockio/Tests.antt =====
-- A disk whose driver keeps the numbers of the blocks that it writes.
use ko.Base.{ℕ, ◌≡◌, refl, arith, List, [], ◌∷◌, some}
use ko.Base.Int.{ℤ, pos}
use ko.Base.Run.{Returns, ◌>>=◌}
use ko.Cstd.Bytes.{Memory}
use ko.Slab.{Slabs, kmemkernel_init, pages_from}
use ko.Slab.Accessors.{page_set_dirty}
use ko.Slab.Init.{kmemkernel_init-IsSlabs, kmemkernel_init-first}
use ko.Slab.Invariant.{IsSlabs}
use ko.Blockio.{BlockDev, blockio_get, blockio_release}
use ko.Blockio.Pages.{block_page}
use ko.Blockio.Get.{IsLoaded, block_page-IsLoaded}
use ko.Blockio.Release.{IsReleased, blockio_release-IsReleased}
use ko.Blockio.Cycle.{IsUnwritten, blockio_release-blockio_get}

abbrev read : ℕ → ℕ → ℕ → Memory → List ℕ → ℤ × Memory × List ℕ
read lba buf count mem log = (pos 0, mem, log)

abbrev write : ℕ → ℕ → ℕ → Memory → List ℕ → ℤ × List ℕ
write lba buf count mem log = (pos 0, lba ∷ log)

abbrev disks : ℕ → BlockDev (List ℕ)
disks minor = record { blockdev_read = some read; blockdev_write = some write }

abbrev bytes : Memory
bytes q = 7

abbrev heap : Slabs
heap = kmemkernel_init 256 4096 2 16 bytes

heap-IsSlabs : IsSlabs heap
heap-IsSlabs = kmemkernel_init-IsSlabs 256 4096 2 16 bytes (record {
  start = omega arith;
  aligned = refl;
  some_pages = omega arith;
  few_pages = omega arith;
  fits = omega arith;
  some_line = omega arith;
  lines = refl;
})

abbrev others : List ℕ
others = pages_from 1 8192

free : heap.slab 0 ≡ 4096 ∷ others
free = kmemkernel_init-first 256 4096 1 16 bytes

-- The page after blockio_get.
abbrev loaded_page : Slabs
loaded_page = block_page heap heap-IsSlabs 4096 others free 3 5 bytes

loaded_page-IsLoaded : IsLoaded loaded_page 4096 3 5
loaded_page-IsLoaded =
    block_page-IsLoaded disks heap heap-IsSlabs 4096 others free 3 5 bytes (omega arith)
      (omega arith)

blockio_release-IsReleased_example :
    IsReleased disks loaded_page [] 4096 (blockio_release disks loaded_page [] 4096)
blockio_release-IsReleased_example =
    blockio_release-IsReleased disks loaded_page loaded_page-IsLoaded.slabs [] 4096
      loaded_page-IsLoaded.used loaded_page-IsLoaded.unlisted

blockio_release-blockio_get_example :
    Returns (IsUnwritten [] 4096) (
      blockio_get disks heap [] 3 5 >>= λ (a, s, w). blockio_release disks (page_set_dirty s a) w a)
blockio_release-blockio_get_example =
    blockio_release-blockio_get disks heap heap-IsSlabs 4096 others free 3 5 read [] refl
      (omega arith) (omega arith) refl
