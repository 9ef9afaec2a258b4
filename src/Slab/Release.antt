-- ===== src/Slab/Release.antt =====
-- A page or an object goes back to its free list.
use ko.Base.{
  ℕ, ◌%◌, ◌<◌, ◌≡◌, ◌≢◌, ◌⊎◌, true, false, ◌==◌, arith, Bool-cases, inl, inr, ◌∙◌, subst, sym, ap,
  List, ◌∷◌, has, Distinct, update,
}
use ko.Cstd.Bytes.{Memory}
use ko.Slab.{Slabs, Page, page_free, page_size, page_index, page_of, raw_free}
use ko.Slab.Arith.{IsRegion, InRegion, max_line_pos}
use ko.Slab.Used.{slab≢free}
use ko.Slab.Invariant.{IsFreePage, IsObject, IsSlabs, Unlisted}

pub head_or_tail : (a x : ℕ) (xs : List ℕ) → has a (x ∷ xs) ≡ true → (a ≡ x) ⊎ (has a xs ≡ true)
head_or_tail a x xs h = ground arith

-- The state with other lists, pages, counters and bytes.
module _ (s : Slabs) (v : IsSlabs s) (slab : ℕ → List ℕ) (objects : ℕ → ℕ) (page : ℕ → Page)
    (mem : Memory) where
  abbrev pub changed : Slabs
  changed = record s { slab = slab; objects = objects; page = page; mem = mem }

  changed-IsRegion : IsRegion changed
  changed-IsRegion = record {
    start = v.region.start;
    aligned = v.region.aligned;
    some_pages = v.region.some_pages;
    few_pages = v.region.few_pages;
    fits = v.region.fits;
    wide = v.region.wide;
    lines = v.region.lines;
  }

  page_same :
      (a : ℕ)
      → page (page_index s a) ≡ s.page (page_index s a)
      → IsFreePage s a
      → IsFreePage changed a
  page_same a e q = record {
    inside = q.inside;
    aligned = q.aligned;
    type = ap (λ p. p.type) e ∙ q.type;
    count = ap (λ p. p.count) e ∙ q.count;
  }

  IsObject-same :
      (i a : ℕ)
      → (page (page_index s a)).type ≡ (page_of s a).type
      → (page (page_index s a)).lines ≡ (page_of s a).lines
      → IsObject s i a
      → IsObject changed i a
  IsObject-same i a e f q = record {
    inside = q.inside;
    fits = q.fits;
    place = q.place;
    type = e ∙ q.type;
    lines = f ∙ q.lines;
  }

  -- A free page is not the page of what is in use.
  used_other :
      (obj a : ℕ)
      → IsFreePage s a
      → (page_of s obj).type ≢ page_free
      → page_index s a ≢ page_index s obj
  used_other obj a p t z = t (sym (ap (λ k. (s.page k).type) z) ∙ p.type)

  lines_other :
      (obj j a : ℕ) → IsObject s j a → (page_of s obj).lines ≢ j → page_index s a ≢ page_index s obj
  lines_other obj j a o n z = n (sym (ap (λ k. (s.page k).lines) z) ∙ o.lines)

  -- The page of `obj` is free again: no list but that of the pages has a part of it.
  pub page_back-IsSlabs :
      (obj start : ℕ)
      → (page_of s obj).type ≢ page_free
      → InRegion s start
      → start % page_size ≡ 0
      → page_index s start ≡ page_index s obj
      → slab 0 ≡ start ∷ s.slab 0
      → ((j a : ℕ)
          → 0 < j
          → j < s.max_line
          → has a (slab j) ≡ true
          → (has a (s.slab j) ≡ true) × (page_index s a ≢ page_index s obj))
      → ((j : ℕ) → 0 < j → j < s.max_line → Distinct (slab j))
      → page (page_index s obj) ≡ raw_free
      → ((k : ℕ) → k ≢ page_index s obj → page k ≡ s.page k)
      → IsSlabs changed
  page_back-IsSlabs obj start t inside aligned same e old distinct here there = record {
    region = changed-IsRegion;
    pages = λ a h. elim (head_or_tail a start (s.slab 0) (subst (λ l. has a l ≡ true) e h)) [
      | inl z ↦ subst (λ b. IsFreePage changed b) (sym z) start-IsFreePage
      | inr h' ↦
          let q = v.pages a h' in page_same a (there (page_index s a) (used_other obj a q t)) q
    ];
    objects = λ i a pos l h.
        let (h', n) = old i a pos l h in
        let p = there (page_index s a) n in
        IsObject-same i a (ap (λ p. p.type) p) (ap (λ p. p.lines) p) (v.objects i a pos l h');
    distinct = λ i l. elim (Bool-cases (i == 0)) [
      | inl f ↦
          let z : i ≡ 0 = ground arith in
          subst (λ k. Distinct (slab k)) (sym z)
            (subst Distinct (sym e) (fresh, v.distinct 0 (max_line_pos s v.region).0))
      | inr f ↦ distinct i (ground arith) l
    ];
  }
    where
      start_page : page (page_index s start) ≡ raw_free
      start_page = ap page same ∙ here

      start-IsFreePage : IsFreePage changed start
      start-IsFreePage = record {
        inside = inside;
        aligned = aligned;
        type = ap (λ p. p.type) start_page;
        count = ap (λ p. p.count) start_page;
      }

      fresh : has start (s.slab 0) ≡ false
      fresh = elim (Bool-cases (has start (s.slab 0))) [
        | inr f ↦ f
        | inl f ↦ absurd (used_other obj start (v.pages start f) t same)
      ]

  -- The object `obj` is in the list of its slab again.
  pub object_back-IsSlabs :
      (obj i : ℕ)
      → 0 < i
      → i < s.max_line
      → IsObject s i obj
      → Unlisted s obj
      → slab ≡ update s.slab i (obj ∷ s.slab i)
      → (page (page_index s obj)).type ≡ (page_of s obj).type
      → (page (page_index s obj)).lines ≡ (page_of s obj).lines
      → ((k : ℕ) → k ≢ page_index s obj → page k ≡ s.page k)
      → IsSlabs changed
  object_back-IsSlabs obj i pos l o unlisted e same_type same_lines there = record {
    region = changed-IsRegion;
    pages = λ a h.
        let h' : has a (update s.slab i (obj ∷ s.slab i) 0) ≡ true =
          ap (λ f. has a (f 0)) (sym e) ∙ h in
        let q = v.pages a (ground arith) in
        page_same a (there (page_index s a) (used_other obj a q (λ z. slab≢free (sym o.type ∙ z))))
          q;
    objects = λ j a posj lj h. kept j a (old j a posj lj (ap (λ f. has a (f j)) (sym e) ∙ h));
    distinct = λ j lj.
        subst (λ f. Distinct (f j)) (sym e)
          (elim (Bool-cases (j == i)) [
            | inl f ↦ rw f (unlisted i l, v.distinct i l)
            | inr f ↦ rw f (v.distinct j lj)
          ]);
  }
    where
      kept : (j a : ℕ) → IsObject s j a → IsObject changed j a
      kept j a q = elim (Bool-cases (page_index s a == page_index s obj)) [
        | inl f ↦
            let z : page_index s a ≡ page_index s obj = ground arith in
            IsObject-same j a (subst (λ k. (page k).type ≡ (s.page k).type) (sym z) same_type)
              (subst (λ k. (page k).lines ≡ (s.page k).lines) (sym z) same_lines) q
        | inr f ↦
            let p = there (page_index s a) (λ z. ground arith) in
            IsObject-same j a (ap (λ p. p.type) p) (ap (λ p. p.lines) p) q
      ]

      old :
          (j a : ℕ)
          → 0 < j
          → j < s.max_line
          → has a (update s.slab i (obj ∷ s.slab i) j) ≡ true
          → IsObject s j a
      old j a posj lj h = elim (Bool-cases (j == i)) [
        | inr f ↦ v.objects j a posj lj (rw f at h)
        | inl f ↦
            let z : j ≡ i = ground arith in
            subst (λ k. IsObject s k a) (sym z)
              (elim (head_or_tail a obj (s.slab i) (rw f at h)) [
                | inl y ↦ subst (λ b. IsObject s i b) (sym y) o
                | inr y ↦ v.objects i a pos l y
              ])
      ]
