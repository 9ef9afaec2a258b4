-- ===== src/Slab/Arith.antt =====
-- Addresses and page numbers.
use ko.Base.{ℕ, ◌+◌, ◌-◌, ◌*◌, ◌/◌, ◌%◌, ◌^◌, ◌<◌, ◌≤◌, ◌≡◌, refl, true, false, ltb, arith}
use ko.Slab.{Slabs, page_size, kme, page_index, page_number, segfault, nb_line}

-- The region of the kernel heap, and the sizes of its lines and pages.
pub record IsRegion (s : Slabs) : Type 0 where
  pub start : 0 < s.kmb
  pub aligned : s.kmb % page_size ≡ 0
  pub some_pages : 0 < s.nb_pages
  pub few_pages : s.nb_pages ≤ 2 ^ 16
  pub fits : s.kmb + s.nb_pages * page_size ≤ 2 ^ 32
  pub wide : 16 ≤ s.line
  pub lines : s.line * s.max_line ≡ page_size

abbrev pub InRegion : Slabs → ℕ → Type 0
InRegion s a = (s.kmb ≤ a) × (a < kme s)

module _ (s : Slabs) (r : IsRegion s) where
  pub page_index_lem :
      (a : ℕ)
      → InRegion s a
      → (page_index s a ≡ (a - s.kmb) / page_size) × (page_index s a < s.nb_pages)
  unfolding page_number
  page_index_lem a (lo, hi) =
      let x : (a + 2 ^ 32 - s.kmb) % 2 ^ 32 ≡ a - s.kmb = omega (arith, r.fits) in
      let small : ltb (a - s.kmb) (2 ^ 31) ≡ true = ground (arith, r.few_pages) in
      let below : (a - s.kmb) / 2 ^ 12 < s.nb_pages = omega (arith, hi) in
      let same : (a - s.kmb) / 2 ^ 12 % s.nb_pages ≡ (a - s.kmb) / 2 ^ 12 = grind (arith, below) in
      rw (x, small, same) (refl, below)

  -- Two pages with one number are the same.
  pub page_index_inj :
      (a b : ℕ)
      → InRegion s a
      → InRegion s b
      → a % page_size ≡ 0
      → b % page_size ≡ 0
      → page_index s a ≡ page_index s b
      → a ≡ b
  page_index_inj a b ra rb ea eb e =
      omega (arith, r.aligned, (page_index_lem a ra).0, (page_index_lem b rb).0, e, ra, rb)

  -- The bytes of a page have its number.
  pub page_index_inside :
      (a k : ℕ)
      → InRegion s a
      → a % page_size ≡ 0
      → k < page_size
      → InRegion s (a + k) × (page_index s (a + k) ≡ page_index s a)
  page_index_inside a k ra ea l =
      let hi : a + k < kme s = omega (arith, r.aligned, ra, ea) in
      let lo : s.kmb ≤ a + k = omega (arith, ra) in
      (
        (lo, hi),
        omega (arith, r.aligned, (page_index_lem a ra).0, (page_index_lem (a + k) (lo, hi)).0, ra),
      )

  pub segfault-region : (a : ℕ) → InRegion s a → segfault s a ≡ false
  unfolding segfault
  segfault-region a (lo, hi) = ground arith

  pub max_line_pos : (0 < s.max_line) × (s.max_line ≤ 256)
  max_line_pos = (grind (arith, r.lines), grind (arith, r.lines, r.wide))

  -- A request of at least one byte gets between one line and a page of lines.
  pub nb_line_bounds :
      (n : ℕ)
      → 0 < n
      → n ≤ page_size
      → (0 < nb_line s n)
        × (nb_line s n ≤ s.max_line)
        × (n ≤ nb_line s n * s.line)
        × (nb_line s n * s.line ≤ page_size)
  unfolding nb_line
  nb_line_bounds n p l =
      let k = (n + s.line - 1) / s.line in
      let lower : n ≤ k * s.line = grind (arith, r.wide) in
      let pos : 0 < k = grind (arith, r.wide) in
      let upper : k ≤ s.max_line = grind (arith, r.wide, r.lines) in
      (pos, upper, lower, grind (arith, upper, r.lines))
