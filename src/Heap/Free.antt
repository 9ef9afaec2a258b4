-- ===== src/Heap/Free.antt =====
-- malloc_init and free of ulib/memory.c.
use ko.Base.{
  ℕ, ◌+◌, ◌-◌, ◌*◌, ◌/◌, ◌%◌, ◌^◌, ◌≤◌, ◌<◌, ◌≡◌, ◌≢◌, sym, refl, inl, inr, true, false, ◌&&◌, List,
  [], ◌∷◌, arith, ◌==◌, if◌then◌else◌, Bool-cases, update, some,
}
use native.Mathlib.Nat.{mul-sub, div-add-mod, mod-lt}
use ko.Base.Run.{panic, Returns}
use ko.Heap.{Block, Heap, magic_heap, free, malloc_init}
use ko.Heap.Blocks.{Tiles, Tiles-frame, size_at, size_at-before}
use ko.Heap.Law.{IsHeap, in_use}

-- The block whose header is at `x` is given back.
abbrev pub release : (x p : ℕ) → List Block → List Block
release x p [] = []
release x p (b ∷ bs) =
    if b.full && x == p then record b { full = false } ∷ bs else b ∷ release x (p + b.size) bs

-- The header of a block in use.
size_at-full :
    (w : ℕ) (info : ℕ → Block) (end x p : ℕ) (bs : List Block)
    → Tiles w info p end bs
    → size_at x p bs ≢ 0
    → ((info x).full ≡ true) × ((info x).magic ≡ magic_heap) × (p ≤ x)
size_at-full w info end x p [] t h = absurd (h refl)
size_at-full w info end x p (b ∷ bs) (i, m, s, a, l, t) h = elim (Bool-cases (b.full && x == p)) [
  | inl y ↦
      let e : x ≡ p = ground arith in rw e (ground (arith, i, y), ground (arith, i, m), omega arith)
  | inr n ↦
      let h' : size_at x (p + b.size) bs ≢ 0 = rw n at h in
      let (f, g, k) = size_at-full w info end x (p + b.size) bs t h' in (f, g, omega arith)
]

release-Tiles :
    (w : ℕ) (info : ℕ → Block) (end x p : ℕ) (bs : List Block)
    → Tiles w info p end bs
    → size_at x p bs ≢ 0
    → Tiles w (update info x (record (info x) { full = false })) p end (release x p bs)
release-Tiles w info end x p [] t h = absurd (h refl)
release-Tiles w info end x p (b ∷ bs) (i, m, s, a, l, t) h =
    let info' = update info x (record (info x) { full = false }) in
    elim (Bool-cases (b.full && x == p)) [
      | inl y ↦ rw y (
        ground (arith, i, y),
        m,
        s,
        a,
        l,
        Tiles-frame w info info' (p + b.size) end bs t (λ z k. ground (arith, y)),
      )
      | inr n ↦
          let h' : size_at x (p + b.size) bs ≢ 0 = rw n at h in
          let (_, _, k) = size_at-full w info end x (p + b.size) bs t h' in
          rw n (ground (arith, i, k), m, s, a, l, release-Tiles w info end x (p + b.size) bs t h')
    ]

release-size_at :
    (w : ℕ) (info : ℕ → Block) (end x p : ℕ) (bs : List Block) (y : ℕ)
    → Tiles w info p end bs
    → size_at y p (release x p bs) ≡ (if y == x then 0 else size_at y p bs)
release-size_at w info end x p [] y t = ground arith
release-size_at w info end x p (b ∷ bs) y (i, m, s, a, l, t) =
    elim (Bool-cases (b.full && x == p)) [
      | inl e ↦ rw e (elim (Bool-cases (y == x)) [
        | inl same ↦
            let f : y ≡ p = ground (arith, e, same) in
            rw same (size_at-before w info end y (p + b.size) bs t (omega arith))
        | inr ne ↦ rw ne (ground (arith, e, ne))
      ])
      | inr n ↦ rw n (ground (arith, n, release-size_at w info end x (p + b.size) bs y t))
    ]

-- What `free` leaves.
pub record IsReleased (w : ℕ) (h : Heap) (bs : List Block) (x : ℕ) (h' : Heap) : Type 0 where
  pub heap : IsHeap w h' (release x h.beg bs)
  pub sizes : (y : ℕ) → in_use h' (release x h.beg bs) y ≡ (if y == x then 0 else in_use h bs y)
  pub again : free h' (x + 1) ≡ panic

-- `free` of a block in use ends it and no other, and keeps the heap in order; a second `free` of the
-- same pointer ends the program.
pub free-IsReleased :
    (w : ℕ) (h : Heap) (bs : List Block) (x : ℕ)
    → IsHeap w h bs
    → in_use h bs x ≢ 0
    → Returns (IsReleased w h bs x) (free h (x + 1))
unfolding free
free-IsReleased w h bs x v used =
    let (f, m, k) = size_at-full w h.info h.end x h.beg bs v.tiles used in
    let e : x + 1 - 1 ≡ x = omega arith in
    let nz : (x + 1 == 0) ≡ false = ground arith in
    let g : ((h.info x).magic == magic_heap) ≡ true = ground (arith, m) in
    rw (e, nz, f, g)
      (record {
        heap = record {
          some_words = v.some_words;
          line = v.line;
          beg_lines = v.beg_lines;
          low = v.low;
          room = v.room;
          tiles = release-Tiles w h.info h.end x h.beg bs v.tiles used;
        };
        sizes = λ y. release-size_at w h.info h.end x h.beg bs y v.tiles;
        again = ground (arith, nz);
      })

-- `malloc_init` makes a heap of one free block of the whole lines between its bounds, if there are
-- some and they are in the lower half of the memory.
pub malloc_init-IsHeap :
    (w : ℕ) (h : Heap) (beg boundary : ℕ)
    → 0 < w
    → h.line ≡ 4 * w
    → beg + w ≤ boundary
    → 4 * boundary + 4 * w ≤ 2 ^ 31
    → boundary < beg + 2 ^ 23
    → w < 2 ^ 23
    → Returns
        (λ h'.
          (b : Block) × (b.full ≡ false)
          × (beg < h'.beg + w)
          × (boundary < h'.end + w)
          × IsHeap w h' (b ∷ []))
        (malloc_init h beg (some boundary))
unfolding malloc_init
malloc_init-IsHeap w h beg boundary z e le low room wl =
    let words : h.line / 4 ≡ w = omega (arith, e) in
    let b = w * (beg / w) in
    let n = w * (boundary / w) in
    let d1 = div-add-mod beg w in
    let m1 = mod-lt beg {m = w} z in
    let d2 = div-add-mod boundary w in
    let m2 = mod-lt boundary {m = w} z in
    let small : (n - b) % 2 ^ 24 ≡ n - b = omega (arith, d1, m1, d2, m2) in
    let jump : b + (n - b) ≡ n = omega (arith, d1, m1, d2, m2) in
    rw (words, small)
      (
        record { full = false; magic = magic_heap; size = n - b },
        refl,
        omega (arith, d1, m1),
        omega (arith, d2, m2),
        record {
          some_words = z;
          line = e;
          beg_lines = (beg / w, refl);
          low = omega (arith, d2, m2);
          room = omega (arith, d1, m1, d2, m2);
          tiles = (
            ground arith,
            refl,
            omega (arith, d1, m1, d2, m2),
            (boundary / w - beg / w, sym (mul-sub w (boundary / w) (beg / w))),
            omega (arith, d1, m1, d2, m2),
            jump,
          );
        },
      )
