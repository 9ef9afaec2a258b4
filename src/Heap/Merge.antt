-- ===== src/Heap/Merge.antt =====
-- merge of ulib/memory.c joins the free blocks that touch each other.
use ko.Base.{
  ℕ, zero, suc, ◌+◌, ◌%◌, ◌^◌, ◌≤◌, ◌<◌, ◌≡◌, ◌∙◌, sym, refl, inl, inr, Bool, true, false, ◌&&◌,
  ◌||◌, not, List, [], ◌∷◌, arith, ◌==◌, if◌then◌else◌, Bool-cases, length, update,
}
use ko.Base.Run.{done, Returns, Returns-weaken, Returns-bind}
use ko.Heap.{Block, Heap, merge_next, merge}
use ko.Heap.Lines.{IsLines-add}
use ko.Heap.Blocks.{Tiles, Tiles-below, Tiles-frame, size_at}

-- No two free blocks touch.
abbrev pub IsMerged : List Block → Type 0
IsMerged [] = Unit
IsMerged (b ∷ []) = Unit
IsMerged (b ∷ c ∷ bs) = ((b.full || c.full) ≡ true) × IsMerged (c ∷ bs)

abbrev pub starts_full : List Block → Bool
starts_full [] = true
starts_full (b ∷ bs) = b.full

-- What the work from `p` on leaves: the same full blocks, in the same heap.
pub record IsJoined (w : ℕ) (h : Heap) (p : ℕ) (bs : List Block) (h' : Heap) : Type 0 where
  pub blocks : List Block
  pub tiles : Tiles w h'.info p h.end blocks
  pub shorter : length blocks ≤ length bs
  pub sizes : (x : ℕ) → size_at x p blocks ≡ size_at x p bs
  pub head : starts_full bs ≡ true → starts_full blocks ≡ true
  pub before : (x : ℕ) → x < p → h'.info x ≡ h.info x
  pub same_beg : h'.beg ≡ h.beg
  pub same_end : h'.end ≡ h.end
  pub same_line : h'.line ≡ h.line

-- A free block, with what it has joined.
pub record IsGathered (w : ℕ) (h : Heap) (p : ℕ) (b : Block) (bs : List Block) (h' : Heap)
    : Type 0 where
  pub block : Block
  pub rest : List Block
  pub free : block.full ≡ false
  pub stop : starts_full rest ≡ true
  pub tiles : Tiles w h'.info p h.end (block ∷ rest)
  pub shorter : length rest ≤ length bs
  pub sizes : (x : ℕ) → size_at x (p + block.size) rest ≡ size_at x (p + b.size) bs
  pub before : (x : ℕ) → x < p → h'.info x ≡ h.info x
  pub same_beg : h'.beg ≡ h.beg
  pub same_end : h'.end ≡ h.end
  pub same_line : h'.line ≡ h.line

abbrev go_on : Heap → ℕ → Bool
go_on h ptr = let next = ptr + (h.info ptr).size in not (next == h.end) && not (h.info next).full

abbrev joined : Heap → ℕ → Heap
joined h ptr =
    let next = ptr + (h.info ptr).size in
    record h {
      info =
          update h.info ptr
            (record (h.info ptr) { size = ((h.info ptr).size + (h.info next).size) % 2 ^ 24 });
    }

merge_next-IsGathered :
    (fuel w : ℕ) (h : Heap) (p : ℕ) (b : Block) (bs : List Block)
    → Tiles w h.info p h.end (b ∷ bs)
    → b.full ≡ false
    → h.end < p + 2 ^ 24
    → length bs < fuel
    → Returns (IsGathered w h p b bs) (merge_next fuel h p)
unfolding merge_next
merge_next-IsGathered zero w h p b bs t f r l = absurd (omega arith)
merge_next-IsGathered (suc fuel) w h p b [] (i, m, s, a, sz, t) f r l =
    let e : (p + b.size == h.end) ≡ true = ground (arith, t) in
    rw (i, e)
      (record {
        block = b;
        rest = [];
        free = f;
        stop = refl;
        tiles = (i, m, s, a, sz, t);
        shorter = omega arith;
        sizes = λ x. refl;
        before = λ x k. refl;
        same_beg = refl;
        same_end = refl;
        same_line = refl;
      })
merge_next-IsGathered (suc fuel) w h p b (c ∷ bs) (i, m, s, a, sz, (j, m2, s2, a2, sz2, t)) f r l =
    let below = Tiles-below w h.info (p + b.size + c.size) h.end bs t in
    let e : (p + b.size == h.end) ≡ false = ground arith in
    elim (Bool-cases c.full) [
      | inl full ↦
          let code : go_on h p ≡ false = ground (arith, i, e, j, full) in
          rw code (record {
            block = b;
            rest = c ∷ bs;
            free = f;
            stop = full;
            tiles = (i, m, s, a, sz, (j, m2, s2, a2, sz2, t));
            shorter = omega arith;
            sizes = λ x. refl;
            before = λ x k. refl;
            same_beg = refl;
            same_end = refl;
            same_line = refl;
          })
      | inr free2 ↦
          let code : go_on h p ≡ true = ground (arith, i, e, j, free2) in
          let d = record b { size = b.size + c.size } in
          let h1 = joined h p in
          let jump : p + (b.size + c.size) ≡ p + b.size + c.size = omega arith in
          let t1 : Tiles w h1.info p h.end (d ∷ bs) = (
            ground (arith, i, j),
            m,
            omega arith,
            IsLines-add w b.size c.size a a2,
            omega arith,
            rw jump (
                Tiles-frame w h.info h1.info (p + b.size + c.size) h.end bs t
                  (λ x k. ground arith)),
          ) in
          rw code (
            Returns-weaken (IsGathered w h1 p d bs) (IsGathered w h p b (c ∷ bs))
              (merge_next fuel h1 p) (merge_next-IsGathered fuel w h1 p d bs t1 f r (omega arith))
              (λ h2 g. record {
                block = g.block;
                rest = g.rest;
                free = g.free;
                stop = g.stop;
                tiles = g.tiles;
                shorter = omega (arith, g.shorter);
                sizes = λ x. g.sizes x ∙ ground (arith, jump, free2);
                before = λ x k. g.before x k ∙ ground arith;
                same_beg = g.same_beg;
                same_end = g.same_end;
                same_line = g.same_line;
              }))
    ]

-- One round of `merge`: the block at `p` is full, or what follows it is.
record IsRound (w : ℕ) (h : Heap) (p : ℕ) (b : Block) (bs : List Block) (h' : Heap) : Type 0 where
  block : Block
  rest : List Block
  as_before : block.full ≡ b.full
  joint : (block.full || starts_full rest) ≡ true
  tiles : Tiles w h'.info p h.end (block ∷ rest)
  shorter : length rest ≤ length bs
  sizes : (x : ℕ) → size_at x p (block ∷ rest) ≡ size_at x p (b ∷ bs)
  before : (x : ℕ) → x < p → h'.info x ≡ h.info x
  same_beg : h'.beg ≡ h.beg
  same_end : h'.end ≡ h.end
  same_line : h'.line ≡ h.line

merge_next-IsRound :
    (fuel w : ℕ) (h : Heap) (p : ℕ) (b : Block) (bs : List Block)
    → Tiles w h.info p h.end (b ∷ bs)
    → h.end < p + 2 ^ 24
    → length bs < fuel
    → Returns (IsRound w h p b bs) (if (h.info p).full then done h else merge_next fuel h p)
merge_next-IsRound fuel w h p b bs t r l = elim (Bool-cases b.full) [
  | inl full ↦
      let code : (h.info p).full ≡ true = ground (arith, t.0, full) in
      rw code (record {
        block = b;
        rest = bs;
        as_before = refl;
        joint = ground (arith, full);
        tiles = t;
        shorter = omega arith;
        sizes = λ x. refl;
        before = λ x k. refl;
        same_beg = refl;
        same_end = refl;
        same_line = refl;
      })
  | inr free ↦
      let code : (h.info p).full ≡ false = ground (arith, t.0, free) in
      rw code (
        Returns-weaken (IsGathered w h p b bs) (IsRound w h p b bs) (merge_next fuel h p)
          (merge_next-IsGathered fuel w h p b bs t free r l)
          (λ h2 g. record {
            block = g.block;
            rest = g.rest;
            as_before = g.free ∙ sym free;
            joint = ground (arith, g.stop);
            tiles = g.tiles;
            shorter = g.shorter;
            sizes = λ x. ground (arith, g.sizes x, g.free, free);
            before = g.before;
            same_beg = g.same_beg;
            same_end = g.same_end;
            same_line = g.same_line;
          }))
]

IsMerged-cons :
    (b : Block) (bs : List Block)
    → (b.full || starts_full bs) ≡ true
    → IsMerged bs
    → IsMerged (b ∷ bs)
IsMerged-cons b [] e m = tt
IsMerged-cons b (c ∷ bs) e m = (e, m)

-- `merge` ends, keeps the full blocks, and leaves no two free blocks that touch.
pub merge-IsJoined :
    (fuel w : ℕ) (h : Heap) (p : ℕ) (bs : List Block)
    → Tiles w h.info p h.end bs
    → h.end < p + 2 ^ 24
    → length bs + 1 < fuel
    → Returns (λ h'. (r : IsJoined w h p bs h') × IsMerged r.blocks) (merge fuel h p)
unfolding merge
merge-IsJoined zero w h p bs t r l = absurd (omega arith)
merge-IsJoined (suc fuel) w h p [] t r l =
    let e : (p == h.end) ≡ true = ground (arith, t) in
    rw e (
      record {
        blocks = [];
        tiles = t;
        shorter = omega arith;
        sizes = λ x. refl;
        head = λ f. refl;
        before = λ x k. refl;
        same_beg = refl;
        same_end = refl;
        same_line = refl;
      },
      tt,
    )
merge-IsJoined (suc fuel) w h p (b ∷ bs) (i, m, s, a, sz, t) r l =
    let below = Tiles-below w h.info (p + b.size) h.end bs t in
    let e : (p == h.end) ≡ false = ground arith in
    rw e (
      Returns-bind (IsRound w h p b bs) (λ h'. (j : IsJoined w h p (b ∷ bs) h') × IsMerged j.blocks)
        (if (h.info p).full then done h else merge_next fuel h p)
        (λ h'. merge fuel h' (p + (h'.info p).size))
        (merge_next-IsRound fuel w h p b bs (i, m, s, a, sz, t) r (omega arith))
        (λ h2 n.
          let tail : Tiles w h2.info (p + n.block.size) h2.end n.rest = rw n.same_end n.tiles.5 in
          let at : (h2.info p).size ≡ n.block.size = ground (arith, n.tiles.0) in
          rw at (
            Returns-weaken
              (λ h'. (j : IsJoined w h2 (p + n.block.size) n.rest h') × IsMerged j.blocks)
              (λ h'. (j : IsJoined w h p (b ∷ bs) h') × IsMerged j.blocks)
              (merge fuel h2 (p + n.block.size))
              (merge-IsJoined fuel w h2 (p + n.block.size) n.rest tail (ground (arith, n.same_end))
                (omega (arith, n.shorter)))
              (λ h3 (j, mg). extend h2 n h3 j mg))))
  where
    extend :
        (h2 : Heap) (n : IsRound w h p b bs h2) (h3 : Heap)
        (j : IsJoined w h2 (p + n.block.size) n.rest h3)
        → IsMerged j.blocks
        → (k : IsJoined w h p (b ∷ bs) h3) × IsMerged k.blocks
    extend h2 n h3 j mg =
        let (i2, m2, s2, a2, z2, t2) = n.tiles in
        (
          record {
            blocks = n.block ∷ j.blocks;
            tiles = (j.before p (omega arith) ∙ i2, m2, s2, a2, z2, rw n.same_end at j.tiles);
            shorter = omega (arith, j.shorter, n.shorter);
            sizes = λ x. ground (arith, j.sizes x, n.sizes x);
            head = λ f. n.as_before ∙ f;
            before = λ x k. j.before x (omega arith) ∙ n.before x k;
            same_beg = j.same_beg ∙ n.same_beg;
            same_end = j.same_end ∙ n.same_end;
            same_line = j.same_line ∙ n.same_line;
          },
          IsMerged-cons n.block j.blocks (ground (arith, n.joint, j.head)) mg,
        )
