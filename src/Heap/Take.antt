-- ===== src/Heap/Take.antt =====
-- try_malloc of ulib/memory.c takes the first block that fits.
use ko.Base.{
  ℕ, ◌+◌, ◌-◌, ◌*◌, ◌%◌, ◌^◌, ◌≤◌, ◌<◌, ◌≡◌, ◌≢◌, ◌∙◌, sym, refl, inl, inr, true, false, List, [],
  ◌∷◌, arith, ◌==◌, Bool-cases,
}
use native.Mathlib.Nat.{mul-sub}
use ko.Heap.{Block, Heap, magic_heap, line_ceil, take_block}
use ko.Heap.Lines.{IsLines, IsLines-add, line_ceil-IsLines}
use ko.Heap.Blocks.{
  Tiles, fits, any_fits, first_fit, split, take_first, Tiles-below, Tiles-frame, first_fit-in,
}

-- Only two headers change.
take_block-other :
    (h : Heap) (n q x : ℕ)
    → line_ceil h.line (q + n) ≡ q + n
    → x ≢ q
    → x ≢ q + n
    → (take_block h n q).info x ≡ h.info x
unfolding take_block
take_block-other h n q x e a b = rw e (ground arith)

take_block-whole :
    (h : Heap) (n q : ℕ)
    → line_ceil h.line (q + n) ≡ q + n
    → (h.info q).size ≡ n
    → ((take_block h n q).info q ≡ record (h.info q) { full = true })
      × ((x : ℕ) → x ≢ q → (take_block h n q).info x ≡ h.info x)
unfolding take_block
take_block-whole h n q e s =
    let same : (q + n == q + (h.info q).size) ≡ true = ground arith in
    rw (e, same) (ground arith, λ x ne. ground arith)

take_block-cut :
    (h : Heap) (n q : ℕ)
    → line_ceil h.line (q + n) ≡ q + n
    → 0 < n
    → n < (h.info q).size
    → (h.info q).size < 2 ^ 24
    → ((take_block h n q).info q ≡ record { full = true; magic = magic_heap; size = n })
      × ((take_block h n q).info (q + n)
          ≡ record { full = false; magic = magic_heap; size = (h.info q).size - n })
unfolding take_block
take_block-cut h n q e z lt small =
    let more : (q + n == q + (h.info q).size) ≡ false = ground arith in
    let a : (q + n - q) % 2 ^ 24 ≡ n = omega arith in
    let b : (q + (h.info q).size - (q + n)) % 2 ^ 24 ≡ (h.info q).size - n = omega arith in
    rw (e, more, a, b) (ground arith, ground arith)

IsLines-sub : (w a b : ℕ) → IsLines w a → IsLines w b → b ≤ a → IsLines w (a - b)
IsLines-sub w a b (k, e) (l, f) le = (k - l, rw (e, f) (sym (mul-sub w k l)))

module _ (w : ℕ) (h : Heap) (n : ℕ) (wz : 0 < w) (line : h.line ≡ 4 * w) (nz : 0 < n)
    (al : IsLines w n) (top : 4 * h.end + 4 * w ≤ 2 ^ 31) where
  rounds : (q : ℕ) → IsLines w q → q + n ≤ h.end → line_ceil h.line (q + n) ≡ q + n
  rounds q a i = rw line (line_ceil-IsLines w (q + n) wz (IsLines-add w q n a al) (omega arith))

  take_block-head :
      (p : ℕ) (b : Block) (bs : List Block)
      → IsLines w p
      → fits n b ≡ true
      → Tiles w h.info p h.end (b ∷ bs)
      → Tiles w (take_block h n p).info p h.end (split n b bs)
  take_block-head p b bs a f (i, m, s, bl, l, t) =
      let below = Tiles-below w h.info (p + b.size) h.end bs t in
      let le : n ≤ b.size = ground (arith, f) in
      let e = rounds p a (omega arith) in
      elim (Bool-cases (b.size == n)) [
        | inl same ↦
            let (c, k) = take_block-whole h n p e (ground (arith, i)) in
            rw same (
              c ∙ ground (arith, i),
              m,
              s,
              bl,
              l,
              Tiles-frame w h.info (take_block h n p).info (p + b.size) h.end bs t
                  (λ x hx. k x (omega arith)),
            )
        | inr more ↦
            let sz : (h.info p).size ≡ b.size = ground (arith, i) in
            let (c, d) = take_block-cut h n p e nz (ground arith) (omega arith) in
            let jump : p + n + (b.size - n) ≡ p + b.size = omega arith in
            rw more (
              c,
              refl,
              nz,
              al,
              omega arith,
              (
                rw sz at d,
                refl,
                ground arith,
                IsLines-sub w b.size n bl al le,
                omega arith,
                rw jump (
                    Tiles-frame w h.info (take_block h n p).info (p + b.size) h.end bs t
                      (λ x hx. take_block-other h n p x e (omega arith) (ground arith))),
              ),
            )
      ]

  -- The blocks that `try_malloc` leaves.
  pub take_block-Tiles :
      (p : ℕ) (bs : List Block)
      → IsLines w p
      → any_fits n bs ≡ true
      → Tiles w h.info p h.end bs
      → Tiles w (take_block h n (first_fit n p bs)).info p h.end (take_first n bs)
  take_block-Tiles p [] a y t = absurd (cc)
  take_block-Tiles p (b ∷ bs) a y (i, m, s, bl, l, t) = elim (Bool-cases (fits n b)) [
    | inl f ↦ rw f (take_block-head p b bs a f (i, m, s, bl, l, t))
    | inr f ↦
        let y' : any_fits n bs ≡ true = ground arith in
        let a' = IsLines-add w p b.size a bl in
        let (low, high, q) = first_fit-in w h n (p + b.size) bs a' t y' in
        let e = rounds (first_fit n (p + b.size) bs) q high in
        rw f (
          take_block-other h n (first_fit n (p + b.size) bs) p e (omega arith) (omega arith) ∙ i,
          m,
          s,
          bl,
          l,
          take_block-Tiles (p + b.size) bs a' y' t,
        )
  ]
