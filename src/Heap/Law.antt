-- ===== src/Heap/Law.antt =====
-- What malloc and free of ulib/memory.c promise about the blocks that are in use.
use ko.Base.{
  ℕ, ◌+◌, ◌-◌, ◌*◌, ◌^◌, ◌≤◌, ◌<◌, ◌≡◌, ◌≢◌, ◌∙◌, sym, refl, inl, inr, true, false, List, arith,
  ◌==◌, if◌then◌else◌, Bool-cases, length, subst, ap, some,
}
use ko.Base.Run.{done, ◌>>=◌, Returns, Returns-bind}
use ko.Errno.{enomem}
use ko.Heap.{Block, Heap, needed, take_block, try_malloc, merge, malloc, free}
use ko.Heap.Lines.{IsLines, needed-IsLines}
use ko.Heap.Blocks.{
  Tiles, any_fits, first_fit, take_first, search-first_fit, first_fit-below, size_at,
  take_first-size_at, take_first-none,
}
use ko.Heap.Take.{take_block-Tiles}
use ko.Heap.Merge.{IsMerged, IsJoined, merge-IsJoined}

-- The heap is a row of blocks of whole cache lines of `w` words, in the lower half of the memory.
pub record IsHeap (w : ℕ) (h : Heap) (bs : List Block) : Type 0 where
  pub some_words : 0 < w
  pub line : h.line ≡ 4 * w
  pub beg_lines : IsLines w h.beg
  pub low : 4 * h.end + 4 * w ≤ 2 ^ 31
  pub room : h.end < h.beg + 2 ^ 24
  pub tiles : Tiles w h.info h.beg h.end bs

-- The size in words, header included, of the block in use whose header is at `x`; 0 if there is none.
abbrev pub in_use : Heap → List Block → ℕ → ℕ
in_use h bs x = size_at x h.beg bs

-- What `try_malloc` leaves.
record IsTried (w : ℕ) (h : Heap) (bs : List Block) (n : ℕ) (out : ℕ × Heap) : Type 0 where
  heap : IsHeap w out.1 (take_first n bs)
  pointer : out.0 ≡ (if any_fits n bs then first_fit n h.beg bs + 1 else 0)
  same_beg : out.1.beg ≡ h.beg

take_block-fields :
    (h : Heap) (n q : ℕ)
    → ((take_block h n q).beg ≡ h.beg)
      × ((take_block h n q).end ≡ h.end)
      × ((take_block h n q).line ≡ h.line)
unfolding take_block
take_block-fields h n q = ground arith

try_malloc-IsTried :
    (fuel w : ℕ) (h : Heap) (bs : List Block) (size : ℕ)
    → IsHeap w h bs
    → size + 4 + 4 * w ≤ 2 ^ 31
    → length bs < fuel
    → Returns (IsTried w h bs (needed h.line size)) (try_malloc fuel h size)
unfolding try_malloc
try_malloc-IsTried fuel w h bs size v small l =
    let n = needed h.line size in
    let lines : IsLines w n = rw v.line (needed-IsLines w size v.some_words small).0 in
    let big : size + 4 ≤ 4 * n = rw v.line (needed-IsLines w size v.some_words small).1 in
    let s = search-first_fit fuel w h n h.beg bs v.tiles l in
    let b = first_fit-below w h n h.beg bs v.tiles in
    let (e1, e2, e3) = take_block-fields h n (first_fit n h.beg bs) in
    elim (Bool-cases (any_fits n bs)) [
      | inl y ↦
          rw (s, b, y)
            (record {
              heap = record {
                some_words = v.some_words;
                line = e3 ∙ v.line;
                beg_lines = rw e1 v.beg_lines;
                low = rw e2 v.low;
                room = rw (e1, e2) v.room;
                tiles =
                    rw (e1, e2)
                      (take_block-Tiles w h n v.some_words v.line (omega (arith, big)) lines v.low
                        h.beg bs v.beg_lines y v.tiles);
              };
              pointer = rw y refl;
              same_beg = e1;
            })
      | inr f ↦
          rw (s, b, f)
            (record { heap = rw (take_first-none n bs f) v; pointer = rw f refl; same_beg = refl })
    ]

-- What `malloc` leaves, for a request of `size` bytes: a block that was not in use and holds them, or
-- `NULL` where even after merging no free block is large enough. No other block changes.
pub record IsGiven (w : ℕ) (h : Heap) (bs : List Block) (size : ℕ) (out : ℕ × Heap) : Type 0 where
  pub blocks : List Block
  pub heap : IsHeap w out.1 blocks
  pub holds : out.0 ≢ 0 → size + 4 ≤ 4 * in_use out.1 blocks (out.0 - 1)
  pub was_free : out.0 ≢ 0 → in_use h bs (out.0 - 1) ≡ 0
  pub others : (x : ℕ) → (out.0 ≢ 0 → x ≢ out.0 - 1) → in_use out.1 blocks x ≡ in_use h bs x
  pub refused :
      out.0 ≡ 0
      → IsMerged blocks
        × (any_fits (needed h.line size) blocks ≡ false)
        × (out.1.errno ≡ some enomem)

given :
    (w : ℕ) (h h1 : Heap) (bs bs1 : List Block) (size : ℕ) (out : ℕ × Heap)
    → IsHeap w h1 bs1
    → size + 4 ≤ 4 * needed h.line size
    → IsTried w h1 bs1 (needed h.line size) out
    → any_fits (needed h.line size) bs1 ≡ true
    → ((x : ℕ) → in_use h1 bs1 x ≡ in_use h bs x)
    → IsGiven w h bs size out
given w h h1 bs bs1 size out v big tried y k =
    let n = needed h.line size in
    let q = first_fit n h1.beg bs1 in
    let (free, sizes) =
      take_first-size_at w h1.info h1.end n h1.beg bs1 (omega (arith, big)) v.tiles y in
    let p : out.0 ≡ q + 1 = tried.pointer ∙ rw y refl in
    let at : out.0 - 1 ≡ q = omega (arith, p) in
    let now : (x : ℕ) → in_use out.1 (take_first n bs1) x ≡ (if x == q then n else in_use h bs x) =
      λ x.
        subst (λ b. size_at x b (take_first n bs1) ≡ (if x == q then n else in_use h bs x))
          (sym tried.same_beg) (sizes x ∙ ap (λ z. if x == q then n else z) (k x)) in
    record {
      blocks = take_first n bs1;
      heap = tried.heap;
      holds = λ nz. rw (at, now q) (ground (arith, big));
      was_free = λ nz. rw at (sym (k q) ∙ free);
      others = λ x ne. now x ∙ ground (arith, p, at, ne);
      refused = λ z. absurd (omega (arith, p, z));
    }

try_malloc-none :
    (fuel w : ℕ) (h : Heap) (bs : List Block) (size : ℕ)
    → IsHeap w h bs
    → length bs < fuel
    → any_fits (needed h.line size) bs ≡ false
    → try_malloc fuel h size ≡ done (0, h)
unfolding try_malloc
try_malloc-none fuel w h bs size v l f =
    let n = needed h.line size in
    let s = search-first_fit fuel w h n h.beg bs v.tiles l in
    let b = first_fit-below w h n h.beg bs v.tiles in rw (s, b, f) refl

merged-IsHeap :
    (w : ℕ) (h h2 : Heap) (bs : List Block) (j : IsJoined w h h.beg bs h2)
    → IsHeap w h bs
    → IsHeap w h2 j.blocks
merged-IsHeap w h h2 bs j v = record {
  some_words = v.some_words;
  line = j.same_line ∙ v.line;
  beg_lines = rw j.same_beg v.beg_lines;
  low = rw j.same_end v.low;
  room = rw (j.same_beg, j.same_end) v.room;
  tiles = rw (j.same_beg, j.same_end) j.tiles;
}

set_errno :
    (w : ℕ) (h : Heap) (bs : List Block)
    → IsHeap w h bs
    → IsHeap w (record h { errno = some enomem }) bs
set_errno w h bs v = record {
  some_words = v.some_words;
  line = v.line;
  beg_lines = v.beg_lines;
  low = v.low;
  room = v.room;
  tiles = v.tiles;
}

after_merge :
    (fuel w : ℕ) (h h2 : Heap) (bs : List Block) (size : ℕ) (j : IsJoined w h h.beg bs h2)
    → IsMerged j.blocks
    → IsHeap w h bs
    → size + 4 + 4 * w ≤ 2 ^ 31
    → length bs + 1 < fuel
    → Returns (IsGiven w h bs size) (
        try_malloc fuel h2 size >>= λ (ptr, h3).
        done (ptr, if ptr == 0 then record h3 { errno = some enomem } else h3))
after_merge fuel w h h2 bs size j mg v small l =
    let v2 = merged-IsHeap w h h2 bs j v in
    let k : (x : ℕ) → in_use h2 j.blocks x ≡ in_use h bs x = λ x. rw j.same_beg (j.sizes x) in
    let big : size + 4 ≤ 4 * needed h.line size =
      rw v.line (needed-IsLines w size v.some_words small).1 in
    elim (Bool-cases (any_fits (needed h2.line size) j.blocks)) [
      | inl y ↦
          Returns-bind (IsTried w h2 j.blocks (needed h2.line size)) (IsGiven w h bs size)
            (try_malloc fuel h2 size)
            (λ (ptr, h3). done (ptr, if ptr == 0 then record h3 { errno = some enomem } else h3))
            (try_malloc-IsTried fuel w h2 j.blocks size v2 small (omega (arith, j.shorter)))
            (λ out tr.
              let nz : (out.0 == 0) ≡ false = ground (arith, tr.pointer, y) in
              rw nz (
                given w h h2 bs j.blocks size out v2 big
                  (subst (λ l. IsTried w h2 j.blocks (needed l size) out) j.same_line tr)
                  (subst (λ l. any_fits (needed l size) j.blocks ≡ true) j.same_line y) k))
      | inr f ↦
          rw (try_malloc-none fuel w h2 j.blocks size v2 (omega (arith, j.shorter)) f) (record {
            blocks = j.blocks;
            heap = set_errno w h2 j.blocks v2;
            holds = λ nz. absurd (nz refl);
            was_free = λ nz. absurd (nz refl);
            others = λ x ne. k x;
            refused = λ z.
                (mg, subst (λ l. any_fits (needed l size) j.blocks ≡ false) j.same_line f, refl);
          })
    ]

-- On a heap of blocks in order, `malloc` ends, keeps the heap in order, and gives a block that was not
-- in use and holds the bytes asked for; it gives `NULL` only where after merging no free block is
-- large enough. No other block in use changes. The request must not overflow an `int`.
pub malloc-IsGiven :
    (fuel w : ℕ) (h : Heap) (bs : List Block) (size : ℕ)
    → IsHeap w h bs
    → size + 4 + 4 * w ≤ 2 ^ 31
    → length bs + 1 < fuel
    → Returns (IsGiven w h bs size) (malloc fuel h size)
unfolding malloc
malloc-IsGiven fuel w h bs size v small l =
    let big : size + 4 ≤ 4 * needed h.line size =
      rw v.line (needed-IsLines w size v.some_words small).1 in
    elim (Bool-cases (any_fits (needed h.line size) bs)) [
      | inl y ↦
          Returns-bind (IsTried w h bs (needed h.line size)) (IsGiven w h bs size)
            (try_malloc fuel h size) _ (try_malloc-IsTried fuel w h bs size v small (omega arith))
            (λ out tr.
              let nz : (out.0 == 0) ≡ false = ground (arith, tr.pointer, y) in
              rw nz (given w h h bs bs size out v big tr y (λ x. refl)))
      | inr f ↦ rw (try_malloc-none fuel w h bs size v (omega arith) f) (
          Returns-bind (λ h2. (j : IsJoined w h h.beg bs h2) × IsMerged j.blocks)
            (IsGiven w h bs size) (merge fuel h h.beg) _
            (merge-IsJoined fuel w h h.beg bs v.tiles v.room l)
            (λ h2 (j, mg). after_merge fuel w h h2 bs size j mg v small l))
    ]
