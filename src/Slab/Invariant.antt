-- ===== src/Slab/Invariant.antt =====
-- The free lists hold free pages and free objects, and kmalloc takes what it returns out of them.
use ko.Base.{
  ℕ, ◌+◌, ◌*◌, ◌%◌, ◌^◌, ◌<◌, ◌≤◌, ◌≡◌, ◌≢◌, refl, true, false, ◌==◌, arith, Bool-cases, inl, inr,
  ◌∙◌, subst, sym, ap, none, List, ◌∷◌, has, Distinct, update,
}
use ko.Cstd.Bytes.{memset}
use ko.Slab.Links.{in_links, head_of, unlink_between}
use ko.Slab.{
  Slabs, root, page_free, page_slab, page_size, page_index, page_of, get_first, take_object,
}
use ko.Slab.Arith.{IsRegion, InRegion, page_index_inj, max_line_pos}

-- A page that is free.
pub record IsFreePage (s : Slabs) (a : ℕ) : Type 0 where
  pub inside : InRegion s a
  pub aligned : a % page_size ≡ 0
  pub type : (page_of s a).type ≡ page_free
  pub count : (page_of s a).count ≡ 0

-- A place for an object of `i` lines in a page for such objects.
pub record IsObject (s : Slabs) (i a : ℕ) : Type 0 where
  pub inside : InRegion s a
  pub fits : a % page_size + i * s.line ≤ page_size
  pub place : a % page_size % (i * s.line) ≡ 0
  pub type : (page_of s a).type ≡ page_slab
  pub lines : (page_of s a).lines ≡ i

pub record IsSlabs (s : Slabs) : Type 0 where
  pub region : IsRegion s
  pub pages : (a : ℕ) → has a (s.slab 0) ≡ true → IsFreePage s a
  pub objects : (i a : ℕ) → 0 < i → i < s.max_line → has a (s.slab i) ≡ true → IsObject s i a
  pub distinct : (i : ℕ) → i < s.max_line → Distinct (s.slab i)

-- No free list has the address.
abbrev pub Unlisted : Slabs → ℕ → Type 0
Unlisted s a = (i : ℕ) → i < s.max_line → has a (s.slab i) ≡ false

-- The byte `q` is in the links of no free object or page.
abbrev pub Unlinked : Slabs → ℕ → Type 0
Unlinked s q = (i : ℕ) → i < s.max_line → in_links q (s.slab i) ≡ false

pub has_head : (x : ℕ) (xs : List ℕ) → has x (x ∷ xs) ≡ true
has_head x xs = ground arith

pub has_tail : (a x : ℕ) (xs : List ℕ) → has a xs ≡ true → has a (x ∷ xs) ≡ true
has_tail a x xs h = ground arith

pub true≢false : true ≢ false
true≢false e = cc

-- A free object and a free page are on different pages.
pub apart :
    (s : Slabs) (i a x : ℕ)
    → IsFreePage s a
    → IsObject s i x
    → page_index s a == page_index s x ≡ false
apart s i a x p o = elim (Bool-cases (page_index s a == page_index s x)) [
  | inr e ↦ e
  | inl e ↦
      let z : page_index s a ≡ page_index s x = ground arith in
      absurd (differ (sym p.type ∙ ap (λ j. (s.page j).type) z ∙ o.type))
]
  where
    differ : page_free ≢ page_slab
    differ e = cc

-- What take_object does where the list of `i` lines is `x ∷ xs`.
abbrev pub taken : Slabs → ℕ → ℕ → List ℕ → ℕ → Slabs
taken s i x xs size =
    let p = page_of s x in
    record s {
      slab = update s.slab i xs;
      page =
          update s.page (page_index s x)
            (record p { lines = i; count = (p.count + 1) % 2 ^ 8; type = page_slab });
      objects = update s.objects i ((s.objects i + 1) % 2 ^ 32);
      mem = memset (unlink_between s.mem (root s i) none (head_of xs)) x 0 size;
    }

pub take_object-taken :
    (s : Slabs) (lines size x : ℕ) (xs : List ℕ)
    → s.slab (lines % s.max_line) ≡ x ∷ xs
    → take_object s lines size ≡ (x, taken s (lines % s.max_line) x xs size)
unfolding take_object get_first
take_object-taken s lines size x xs e = rw (e, get_first) refl

module _ (s : Slabs) (v : IsSlabs s) (x : ℕ) (xs : List ℕ) (size : ℕ) where
  IsRegion-kept : (i : ℕ) → IsRegion (taken s i x xs size)
  IsRegion-kept i = record {
    start = v.region.start;
    aligned = v.region.aligned;
    some_pages = v.region.some_pages;
    few_pages = v.region.few_pages;
    fits = v.region.fits;
    wide = v.region.wide;
    lines = v.region.lines;
  }

  -- What is on another page stays what it is.
  pub page_kept :
      (i a : ℕ)
      → page_index s a == page_index s x ≡ false
      → IsFreePage s a
      → IsFreePage (taken s i x xs size) a
  page_kept i a e p = record {
    inside = p.inside;
    aligned = p.aligned;
    type = rw e p.type;
    count = rw e p.count;
  }

  pub IsObject-kept :
      (i j a : ℕ)
      → page_index s a == page_index s x ≡ false
      → IsObject s j a
      → IsObject (taken s i x xs size) j a
  IsObject-kept i j a e p = record {
    inside = p.inside;
    fits = p.fits;
    place = p.place;
    type = rw e p.type;
    lines = rw e p.lines;
  }

  -- An object of the same slab may share the page of the one that is taken.
  pub IsObject-same : (i a : ℕ) → IsObject s i a → IsObject (taken s i x xs size) i a
  IsObject-same i a p = elim (Bool-cases (page_index s a == page_index s x)) [
    | inr e ↦ IsObject-kept i i a e p
    | inl e ↦ record {
      inside = p.inside;
      fits = p.fits;
      place = p.place;
      type = rw e refl;
      lines = rw e refl;
    }
  ]

  -- Objects of different slabs are on different pages.
  pub slabs_apart :
      (i j a : ℕ)
      → i ≢ j
      → IsObject s j a
      → IsObject s i x
      → page_index s a == page_index s x ≡ false
  slabs_apart i j a n p o = elim (Bool-cases (page_index s a == page_index s x)) [
    | inr e ↦ e
    | inl e ↦
        let z : page_index s a ≡ page_index s x = ground arith in
        absurd (n (sym o.lines ∙ sym (ap (λ k. (s.page k).lines) z) ∙ p.lines))
  ]

  -- A page is taken.
  pub taken_page-IsSlabs : s.slab 0 ≡ x ∷ xs → IsSlabs (taken s 0 x xs size)
  taken_page-IsSlabs e =
      let px = v.pages x (rw e (has_head x xs)) in
      record {
        region = IsRegion-kept 0;
        pages = λ a h.
            let p = v.pages a (rw e (has_tail a x xs h)) in page_kept 0 a (others a h p px) p;
        objects = λ i a pos l h.
            let h' : has a (s.slab i) ≡ true = ground arith in
            let o = v.objects i a pos l h' in IsObject-kept 0 i a (apart' i a px o) o;
        distinct = λ i l. elim (Bool-cases (i == 0)) [
          | inl f ↦ rw f (rw e at (v.distinct 0 (max_line_pos s v.region).0)).1
          | inr f ↦ rw f (v.distinct i l)
        ];
      }
    where
      apart' :
          (i a : ℕ) → IsFreePage s x → IsObject s i a → page_index s a == page_index s x ≡ false
      apart' i a p o = let f = apart s i x a p o in ground arith

      others :
          (a : ℕ)
          → has a xs ≡ true
          → IsFreePage s a
          → IsFreePage s x
          → page_index s a == page_index s x ≡ false
      others a h p q = elim (Bool-cases (page_index s a == page_index s x)) [
        | inr f ↦ f
        | inl f ↦
            let z =
              page_index_inj s v.region a x p.inside q.inside p.aligned q.aligned (ground arith) in
            let d : has x xs ≡ false = (rw e at (v.distinct 0 (max_line_pos s v.region).0)).0 in
            absurd (true≢false (sym h ∙ subst (λ y. has y xs ≡ false) (sym z) d))
      ]

  -- An object is taken.
  pub taken_object-IsSlabs :
      (i : ℕ) → 0 < i → i < s.max_line → s.slab i ≡ x ∷ xs → IsSlabs (taken s i x xs size)
  taken_object-IsSlabs i pos l e =
      let ox = v.objects i x pos l (rw e (has_head x xs)) in
      record {
        region = IsRegion-kept i;
        pages = λ a h.
            let h' : has a (s.slab 0) ≡ true = ground arith in
            let p = v.pages a h' in page_kept i a (apart s i a x p ox) p;
        objects = λ j a posj lj h. elim (Bool-cases (j == i)) [
          | inl f ↦
              let z : i ≡ j = ground arith in
              let h' : has a xs ≡ true = rw f at h in
              subst (λ k. IsObject (taken s i x xs size) k a) z
                (IsObject-same i a (v.objects i a pos l (rw e (has_tail a x xs h'))))
          | inr f ↦
              let h' : has a (s.slab j) ≡ true = rw f at h in
              let o = v.objects j a posj lj h' in
              IsObject-kept i j a (slabs_apart i j a (ground arith) o ox) o
        ];
        distinct = λ j lj. elim (Bool-cases (j == i)) [
          | inl f ↦ rw f (rw e at (v.distinct i l)).1
          | inr f ↦ rw f (v.distinct j lj)
        ];
      }

  same_false : page_index s x == page_index s x ≡ false → true ≡ false
  same_false h = ground arith

  -- What is taken is in no list any more.
  pub taken_page-Unlisted : s.slab 0 ≡ x ∷ xs → Unlisted (taken s 0 x xs size) x
  taken_page-Unlisted e i l = elim (Bool-cases (i == 0)) [
    | inl f ↦ rw f (rw e at (v.distinct 0 (max_line_pos s v.region).0)).0
    | inr f ↦ rw f (other i l (ground arith))
  ]
    where
      other : (i : ℕ) → i < s.max_line → 0 < i → has x (s.slab i) ≡ false
      other i l pos = elim (Bool-cases (has x (s.slab i))) [
        | inr g ↦ g
        | inl g ↦ absurd (
            true≢false (
              same_false
                (apart s i x x (v.pages x (rw e (has_head x xs))) (v.objects i x pos l g))))
      ]

  pub taken_object-Unlisted :
      (i : ℕ) → 0 < i → i < s.max_line → s.slab i ≡ x ∷ xs → Unlisted (taken s i x xs size) x
  taken_object-Unlisted i pos l e j lj = elim (Bool-cases (j == i)) [
    | inl f ↦ rw f (rw e at (v.distinct i l)).0
    | inr f ↦ rw f (other j lj (ground arith))
  ]
    where
      ox : IsObject s i x
      ox = v.objects i x pos l (rw e (has_head x xs))

      other : (j : ℕ) → j < s.max_line → j ≢ i → has x (s.slab j) ≡ false
      other j lj n = elim (Bool-cases (has x (s.slab j))) [
        | inr g ↦ g
        | inl g ↦ elim (Bool-cases (j == 0)) [
          | inl z ↦
              let z' : j ≡ 0 = ground arith in
              absurd (
                true≢false (
                  same_false
                    (apart s i x x (v.pages x (subst (λ k. has x (s.slab k) ≡ true) z' g)) ox)))
          | inr z ↦ absurd (
              true≢false (
                same_false
                  (slabs_apart i j x (λ q. n (sym q)) (v.objects j x (ground arith) lj g) ox)))
        ]
      ]
