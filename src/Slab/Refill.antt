-- ===== src/Slab/Refill.antt =====
-- An empty slab that gets the objects of a new page.
use ko.Base.{
  ℕ, ◌+◌, ◌*◌, ◌%◌, ◌<◌, ◌≤◌, ◌≡◌, ◌≢◌, refl, true, false, ◌==◌, arith, Bool-cases, inl, inr, subst,
  sym, none, List, ◌∷◌, ◌++◌, has, update,
}
use ko.Base.Run.{done}
use ko.Slab.Links.{add_all, last_of}
use ko.Slab.{
  Slabs, root, page_free, page_slab, page_size, page_index, page_of, set_page, cut, refill,
}
use ko.Slab.Arith.{IsRegion, InRegion, page_index_inside}
use ko.Slab.Invariant.{
  IsFreePage, IsObject, IsSlabs, Unlisted, taken, taken_page-IsSlabs, taken_page-Unlisted, has_head,
  has_tail,
}
use native.Mathlib.Nat.{mul-mod_left}
use ko.Slab.Cut.{cut_places, cut-Distinct, kmalloc_page-taken}

-- The state after an empty slab of `i` lines has got the objects of the free page `p`.
abbrev pub refilled : Slabs → ℕ → ℕ → ℕ → List ℕ → Slabs
refilled s i size p ps =
    let s1 = taken s 0 p ps page_size in
    let s2 = set_page s1 p (record (page_of s1 p) { count = 0 }) in
    record s2 {
      slab = update s2.slab i (s2.slab i ++ cut page_size p size p);
      mem = add_all s2.mem (root s2 i) (last_of none (s2.slab i)) (cut page_size p size p);
    }

pub refill-refilled :
    (s : Slabs) (i size p : ℕ) (ps : List ℕ)
    → IsRegion s
    → s.slab 0 ≡ p ∷ ps
    → refill s i size ≡ done (refilled s i size p ps)
unfolding refill
refill-refilled s i size p ps r e = rw (kmalloc_page-taken s p ps r e) refl

module _ (s : Slabs) (v : IsSlabs s) (i p : ℕ) (ps rest : List ℕ) where
  abbrev start : Slabs
  start = taken s 0 p ps page_size

  abbrev pub final : Slabs
  final = taken (refilled s i (i * s.line) p ps) i p rest (i * s.line)

  module _ (pos : 0 < i) (less : i < s.max_line) (free : s.slab 0 ≡ p ∷ ps) where
    start-IsSlabs : IsSlabs start
    start-IsSlabs = taken_page-IsSlabs s v p ps page_size free

    own : IsFreePage s p
    own = v.pages p (rw free (has_head p ps))

    -- What the lists of `start` hold is not on the new page.
    page_other : (a : ℕ) → IsFreePage start a → page_index s a == page_index s p ≡ false
    page_other a q = elim (Bool-cases (page_index s a == page_index s p)) [
      | inr e ↦ e
      | inl e ↦ absurd (differ (sym (rw e at q.type)))
    ]
      where
        differ : page_free ≢ page_slab
        differ g = cc

    object_other : (j a : ℕ) → 0 < j → IsObject start j a → page_index s a == page_index s p ≡ false
    object_other j a posj q = elim (Bool-cases (page_index s a == page_index s p)) [
      | inr e ↦ e
      | inl e ↦ let z : 0 ≡ j = rw e at q.lines in absurd (omega arith)
    ]

    final_page : (a : ℕ) → IsFreePage start a → IsFreePage final a
    final_page a q =
        let e = page_other a q in
        record {
          inside = q.inside;
          aligned = q.aligned;
          type = rw e (rw e at q.type);
          count = rw e (rw e at q.count);
        }

    final-IsObject : (j a : ℕ) → 0 < j → IsObject start j a → IsObject final j a
    final-IsObject j a posj q =
        let e = object_other j a posj q in
        record {
          inside = q.inside;
          fits = q.fits;
          place = q.place;
          type = rw e (rw e at q.type);
          lines = rw e (rw e at q.lines);
        }

    -- The objects of the new page.
    pub new-IsObject :
        (j a : ℕ) → a ≡ p + j * (i * s.line) → a + i * s.line ≤ p + page_size → IsObject final i a
    new-IsObject j a e l =
        let size = i * s.line in
        let k = j * size in
        let big : 0 < size = grind (arith, v.region.wide) in
        let small : k < page_size = omega (arith, l, e, big) in
        let (inside, same) = page_index_inside s v.region p k own.inside own.aligned small in
        let z : page_index s a == page_index s p ≡ true =
          subst (λ y. page_index s y == page_index s p ≡ true) (sym e) (ground (arith, same)) in
        let offset : a % page_size ≡ k = omega (arith, e, own.aligned, small) in
        record {
          inside = subst (InRegion s) (sym e) inside;
          fits = omega (arith, offset, l, e);
          place = rw offset (mul-mod_left j size);
          type = rw z refl;
          lines = rw z refl;
        }

    module _ (cut_all : cut page_size p (i * s.line) p ≡ p ∷ rest) where
      big : 0 < i * s.line
      big = grind (arith, v.region.wide)

      rest_places :
          (a : ℕ)
          → has a (p ∷ rest) ≡ true
          → (j : ℕ) × (0 ≤ j) × (a ≡ p + j * (i * s.line)) × (a + i * s.line ≤ p + page_size)
      rest_places a h = cut_places page_size p (i * s.line) p 0 a (omega arith) (rw cut_all h)

      pub final-IsSlabs : IsSlabs final
      final-IsSlabs = record {
        region = record {
          start = v.region.start;
          aligned = v.region.aligned;
          some_pages = v.region.some_pages;
          few_pages = v.region.few_pages;
          fits = v.region.fits;
          wide = v.region.wide;
          lines = v.region.lines;
        };
        pages = λ a h.
            let other : 0 == i ≡ false = ground arith in
            final_page a (start-IsSlabs.pages a (rw other at h));
        objects = λ j a posj lj h. elim (Bool-cases (j == i)) [
          | inl f ↦
              let z : i ≡ j = ground arith in
              let h' : has a rest ≡ true = rw f at h in
              let (k, _, e, l) = rest_places a (has_tail a p rest h') in
              subst (λ y. IsObject final y a) z (new-IsObject k a e l)
          | inr f ↦ final-IsObject j a posj (start-IsSlabs.objects j a posj lj (rw f at h))
        ];
        distinct = λ j lj. elim (Bool-cases (j == i)) [
          | inl f ↦
              rw f (rw cut_all at (cut-Distinct page_size p (i * s.line) p 0 big (omega arith))).1
          | inr f ↦ rw f (start-IsSlabs.distinct j lj)
        ];
      }

      pub final-Unlisted : Unlisted final p
      final-Unlisted j lj = elim (Bool-cases (j == i)) [
        | inl f ↦
            rw f (rw cut_all at (cut-Distinct page_size p (i * s.line) p 0 big (omega arith))).0
        | inr f ↦ rw f (taken_page-Unlisted s v p ps page_size free j lj)
      ]
