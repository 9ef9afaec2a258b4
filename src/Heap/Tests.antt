-- ===== src/Heap/Tests.antt =====
-- Runs of the heap, and the theorems at a heap with one block in use and one free block.
use ko.Base.{◌≡◌, refl, true, false, [], ◌∷◌, arith, ◌==◌, if◌then◌else◌, none}
use ko.Base.Run.{Returns}
use ko.Heap.{Block, Heap, magic_heap, search, take_block, try_malloc, malloc, free}
use ko.Heap.Blocks.{Tiles}
use ko.Heap.Law.{IsHeap, IsGiven, malloc-IsGiven}
use ko.Heap.Free.{IsReleased, free-IsReleased}

abbrev used : Block
used = record { full = true; magic = magic_heap; size = 16 }

abbrev left : Block
left = record { full = false; magic = magic_heap; size = 48 }

-- Lines of four words; the blocks at the words 1024 and 1040.
abbrev two_blocks : Heap
two_blocks = record {
  info = λ p. if p == 1024 then used else left;
  beg = 1024;
  end = 1088;
  line = 16;
  errno = none;
}

two_blocks-Tiles : Tiles 4 two_blocks.info 1024 1088 (used ∷ left ∷ [])
two_blocks-Tiles = (
  refl,
  refl,
  omega arith,
  (4, refl),
  omega arith,
  (refl, refl, omega arith, (12, refl), omega arith, refl),
)

two_blocks-IsHeap : IsHeap 4 two_blocks (used ∷ left ∷ [])
two_blocks-IsHeap = record {
  some_words = omega arith;
  line = refl;
  beg_lines = (256, refl);
  low = omega arith;
  room = omega arith;
  tiles = two_blocks-Tiles;
}

gives : Returns (λ (p, h). p ≡ 1041) (malloc 9 two_blocks 20)
unfolding malloc try_malloc search take_block
gives = refl

malloc-IsGiven_example :
    Returns (IsGiven 4 two_blocks (used ∷ left ∷ []) 20) (malloc 9 two_blocks 20)
malloc-IsGiven_example =
    malloc-IsGiven 9 4 two_blocks (used ∷ left ∷ []) 20 two_blocks-IsHeap (omega arith)
      (omega arith)

free-IsReleased_example :
    Returns (IsReleased 4 two_blocks (used ∷ left ∷ []) 1024) (free two_blocks 1025)
free-IsReleased_example =
    free-IsReleased 4 two_blocks (used ∷ left ∷ []) 1024 two_blocks-IsHeap (omega arith)
