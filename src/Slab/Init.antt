-- ===== src/Slab/Init.antt =====
-- The free lists after kmemkernel_init.
use ko.Base.{
  ℕ, zero, suc, ◌+◌, ◌-◌, ◌*◌, ◌/◌, ◌%◌, ◌^◌, ◌<◌, ◌≤◌, ◌≡◌, refl, true, false, ◌==◌, arith,
  Bool-cases, inl, inr, sym, ◌∷◌, has, Distinct,
}
use ko.Cstd.Bytes.{Memory}
use ko.Slab.{page_size, pages_from, ceil, kmemkernel_init}
use ko.Slab.Invariant.{IsSlabs, true≢false}

-- The pages have the addresses `p`, `p + page_size` and so on.
has-pages_from :
    (n p a : ℕ)
    → has a (pages_from n p) ≡ true
    → (p ≤ a) × (a < p + n * page_size) × ((a - p) % page_size ≡ 0)
unfolding pages_from
has-pages_from zero p a h = absurd (true≢false (sym h))
has-pages_from (suc n) p a h = elim (Bool-cases (a == p)) [
  | inl e ↦ (ground arith, ground arith, ground arith)
  | inr e ↦
      let h' : has a (pages_from n (p + page_size)) ≡ true = ground arith in
      let (lo, hi, m) = has-pages_from n (p + page_size) a h' in
      (omega arith, omega arith, omega arith)
]

pages_from-Distinct : (n p : ℕ) → Distinct (pages_from n p)
unfolding pages_from
pages_from-Distinct zero p = tt
pages_from-Distinct (suc n) p = (new, pages_from-Distinct n (p + page_size))
  where
    new : has p (pages_from n (p + page_size)) ≡ false
    new = elim (Bool-cases (has p (pages_from n (p + page_size)))) [
      | inr e ↦ e
      | inl e ↦ let (lo, hi, m) = has-pages_from n (p + page_size) p e in absurd (omega arith)
    ]

-- What the linker script and the processor give: an aligned heap of 1 to 2^16 pages below 2^32 that does
-- not start at 0, and lines of which a page has a whole number.
pub record IsHeap (kmb nb_pages cachelinesize : ℕ) : Type 0 where
  pub start : 0 < kmb
  pub aligned : kmb % page_size ≡ 0
  pub some_pages : 0 < nb_pages
  pub few_pages : nb_pages ≤ 2 ^ 16
  pub fits : kmb + nb_pages * page_size ≤ 2 ^ 32
  pub some_line : 0 < cachelinesize
  pub lines : ceil cachelinesize 16 * (page_size / ceil cachelinesize 16) ≡ page_size

-- After kmemkernel_init, all pages are free, none is listed twice, and no other list has an object.
pub kmemkernel_init-IsSlabs :
    (roots kmb nb_pages cachelinesize : ℕ) (mem : Memory)
    → IsHeap kmb nb_pages cachelinesize
    → IsSlabs (kmemkernel_init roots kmb nb_pages cachelinesize mem)
unfolding kmemkernel_init
kmemkernel_init-IsSlabs roots kmb nb_pages cachelinesize mem r = record {
  region = record {
    start = r.start;
    aligned = r.aligned;
    some_pages = r.some_pages;
    few_pages = r.few_pages;
    fits = r.fits;
    wide = omega (arith, r.some_line);
    lines = r.lines;
  };
  pages = λ a h.
      let (lo, hi, m) = has-pages_from nb_pages kmb a h in
      record {
        inside = (lo, hi);
        aligned = omega (arith, r.aligned, m, lo);
        type = refl;
        count = refl;
      };
  objects =
      λ i a pos l h. let e : i == 0 ≡ false = ground arith in absurd (true≢false (sym (rw e at h)));
  distinct = λ i l. elim (Bool-cases (i == 0)) [
    | inl e ↦ rw e (pages_from-Distinct nb_pages kmb)
    | inr e ↦ rw e tt
  ];
}

pub kmemkernel_init-first :
    (roots kmb n cachelinesize : ℕ) (mem : Memory)
    → (kmemkernel_init roots kmb (suc n) cachelinesize mem).slab 0
      ≡ kmb ∷ pages_from n (kmb + page_size)
unfolding kmemkernel_init pages_from
kmemkernel_init-first roots kmb n cachelinesize mem = refl
