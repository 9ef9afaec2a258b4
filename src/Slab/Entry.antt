-- ===== src/Slab/Entry.antt =====
-- A change to the entry of a page in use, and to the bytes in memory.
use ko.Base.{
  ℕ, ◌<◌, ◌≡◌, ◌≢◌, refl, true, false, ◌==◌, arith, Bool-cases, fun_ext, inl, inr, ◌∙◌, sym, ap,
  update,
}
use ko.Cstd.Bytes.{Memory}
use ko.Slab.{Slabs, Page, page_free, page_of, set_page, page_index}
use ko.Slab.Invariant.{IsFreePage, IsObject, IsSlabs}
use ko.Slab.Used.{IsUsedPage}

abbrev pub entry_changed : Slabs → ℕ → Page → Memory → Slabs
entry_changed s a q m = record s { page = update s.page (page_index s a) q; mem = m }

page_of-set_page : (s : Slabs) (a : ℕ) (q : Page) → page_of (set_page s a q) a ≡ q
page_of-set_page s a q =
    let same : page_index s a == page_index s a ≡ true = ground arith in rw same refl

-- The last of two changes counts.
set_page-set_page :
    (s : Slabs) (a : ℕ) (p q : Page) → set_page (set_page s a p) a q ≡ set_page s a q
set_page-set_page s a p q =
    ap (λ f. record s { page = f })
      (fun_ext
        (λ k. elim (Bool-cases (k == page_index s a)) [ inl e ↦ rw e refl | inr e ↦ rw e refl ]))

-- A change that keeps a part of the entry.
pub set_page-modify :
    (s : Slabs) (a : ℕ) (q : Page) (f : Page → Page)
    → set_page (set_page s a q) a (f (page_of (set_page s a q) a)) ≡ set_page s a (f q)
set_page-modify s a q f =
    ap (λ x. set_page (set_page s a q) a (f x)) (page_of-set_page s a q)
    ∙ set_page-set_page s a q (f q)

module _ (s : Slabs) (v : IsSlabs s) (a : ℕ) (u : IsUsedPage s a) (q : Page) (m : Memory) where
  free_other : (b : ℕ) → IsFreePage s b → page_index s b == page_index s a ≡ false
  free_other b p = elim (Bool-cases (page_index s b == page_index s a)) [
    | inr e ↦ e
    | inl e ↦
        let z : page_index s b ≡ page_index s a = ground arith in
        absurd (u.used (sym (ap (λ k. (s.page k).type) z) ∙ p.type))
  ]

  object_other : (i b : ℕ) → 0 < i → IsObject s i b → page_index s b == page_index s a ≡ false
  object_other i b pos o = elim (Bool-cases (page_index s b == page_index s a)) [
    | inr e ↦ e
    | inl e ↦
        let z : page_index s b ≡ page_index s a = ground arith in
        let i0 : i ≡ 0 = sym o.lines ∙ ap (λ k. (s.page k).lines) z ∙ u.lines in
        absurd (omega (arith, i0, pos))
  ]

  pub entry_changed-IsSlabs : IsSlabs (entry_changed s a q m)
  entry_changed-IsSlabs = record {
    region = record {
      start = v.region.start;
      aligned = v.region.aligned;
      some_pages = v.region.some_pages;
      few_pages = v.region.few_pages;
      fits = v.region.fits;
      wide = v.region.wide;
      lines = v.region.lines;
    };
    pages = λ b h.
        let p = v.pages b h in
        let e = free_other b p in
        record { inside = p.inside; aligned = p.aligned; type = rw e p.type; count = rw e p.count };
    objects = λ i b pos l h.
        let o = v.objects i b pos l h in
        let e = object_other i b pos o in
        record {
          inside = o.inside;
          fits = o.fits;
          place = o.place;
          type = rw e o.type;
          lines = rw e o.lines;
        };
    distinct = v.distinct;
  }

  pub entry_changed-IsUsedPage :
      q.type ≢ page_free → q.lines ≡ 0 → IsUsedPage (entry_changed s a q m) a
  entry_changed-IsUsedPage t l =
      let same : page_index s a == page_index s a ≡ true = ground arith in
      record { inside = u.inside; aligned = u.aligned; used = rw same t; lines = rw same l }
