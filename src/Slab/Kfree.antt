-- ===== src/Slab/Kfree.antt =====
-- What kfree does to the free lists.
use ko.Base.{
  ℕ, ◌+◌, ◌-◌, ◌%◌, ◌^◌, ◌<◌, ◌≡◌, ◌≢◌, ◌⊎◌, refl, true, false, ◌==◌, arith, Bool-cases, inl, inr,
  ◌∙◌, subst, sym, ap, none, List, ◌∷◌, has, Distinct, update,
}
use ko.Base.Run.{done, panic, Returns}
use ko.Slab.{
  Slabs, root, page_start, PageType, page_free, page_slab, page_block, page_index, page_of,
  raw_free, segfault, unlink_page, free_page, is_page_free, put_back, kfree,
}
use ko.Slab.Arith.{InRegion, max_line_pos, segfault-region}
use ko.Slab.Links.{in_link, add_first, add_first-kept, unlink_all, unlink_all-kept, cons-out}
use ko.Slab.Invariant.{IsObject, IsSlabs, Unlisted, Unlinked, has_head}
use ko.Cstd.Bytes.{Memory}
use ko.Slab.Used.{IsUsedPage, IsUsed, slab≢free}
use ko.Slab.Unlink.{page_start_lem, has-unlink_page, unlink_page-Distinct}
use ko.Slab.Release.{changed, head_or_tail, page_back-IsSlabs, object_back-IsSlabs}

-- The object is back in the list of its slab, or its page is free and to free it again panics.
pub record IsFreed (s : Slabs) (obj : ℕ) (s' : Slabs) : Type 0 where
  pub slabs : IsSlabs s'
  pub back :
      ((page_of s obj).lines ≢ 0) × (has obj (s'.slab (page_of s obj).lines) ≡ true)
      ⊎ (has (page_start obj) (s'.slab 0) ≡ true) × (kfree s' obj ≡ panic)
  pub memory :
      (q : ℕ)
      → in_link q obj ≡ false
      → in_link q (page_start obj) ≡ false
      → Unlinked s q
      → s'.mem q ≡ s.mem q

-- An object of a free page.
free_panics : (s : Slabs) (a : ℕ) → (page_of s a).type ≡ page_free → kfree s a ≡ panic
unfolding kfree
free_panics s a e =
    rw e (elim (Bool-cases (segfault s a)) [ inl f ↦ rw f refl | inr f ↦ rw f refl ])

-- The tests of kfree let an object in use pass.
passes :
    (s : Slabs) (v : IsSlabs s) (a : ℕ)
    → InRegion s a
    → (page_of s a).type ≢ page_free
    → kfree s a ≡ done (put_back s a)
unfolding kfree
passes s v a r e = rw (segfault-region s v.region a r, not_free (page_of s a).type e) refl
  where
    not_free : (t : PageType) → t ≢ page_free → is_page_free t ≡ false
    not_free page_free d = absurd (d refl)
    not_free page_slab d = refl
    not_free page_block d = refl

module _ (s : Slabs) (v : IsSlabs s) (obj : ℕ) where
  abbrev n : ℕ
  n = page_index s obj

  abbrev i : ℕ
  i = (page_of s obj).lines

  abbrev left : ℕ
  left = ((page_of s obj).count + 2 ^ 8 - 1) % 2 ^ 8

  abbrev listed : ℕ → List ℕ
  listed = update s.slab i (obj ∷ s.slab i)

  abbrev counted : ℕ → ℕ
  counted = update s.objects i ((s.objects i + 2 ^ 32 - 1) % 2 ^ 32)

  abbrev linked : Memory
  linked = add_first s.mem (root s i) obj (s.slab i)

  linked-kept : i < s.max_line → (q : ℕ) → in_link q obj ≡ false → Unlinked s q → linked q ≡ s.mem q
  linked-kept l q o u = add_first-kept s.mem (root s i) obj (s.slab i) q o (u i l)

  abbrev with_page : Slabs
  with_page = changed s v listed counted (update s.page n raw_free) linked

  abbrev with_object : Slabs
  with_object =
      changed s v listed counted (update s.page n (record (page_of s obj) { count = left })) linked

  same : n == n ≡ true
  same = ground arith

  put_back-page : i == 0 ≡ true → put_back s obj ≡ with_page
  unfolding put_back
  put_back-page e = rw e refl

  put_back-object : i == 0 ≡ false → left == 0 ≡ false → put_back s obj ≡ with_object
  unfolding put_back
  put_back-object e c = rw (e, same, c) refl

  put_back-last : i == 0 ≡ false → left == 0 ≡ true → put_back s obj ≡ free_page with_object obj i
  unfolding put_back
  put_back-last e c = rw (e, same, c) refl

  page-IsFreed : IsUsedPage s obj → Unlisted s obj → IsFreed s obj with_page
  page-IsFreed u l = record {
    slabs =
        page_back-IsSlabs s v listed counted (update s.page n raw_free) linked obj obj u.used
          u.inside u.aligned refl (rw u.lines refl)
          (λ j a pos lj h.
            let f : j == 0 ≡ false = ground arith in
            let h' : has a (s.slab j) ≡ true = (rw (u.lines, f) at h) in
            (h', lines_other' j a (v.objects j a pos lj h') (λ z. ground arith)))
          (λ j pos lj. let f : j == 0 ≡ false = ground arith in rw (u.lines, f) (v.distinct j lj))
          (rw same refl) (λ k d. ground arith);
    back = inr (
      subst (λ a. has a (with_page.slab 0) ≡ true) start (rw u.lines (has_head obj (s.slab 0))),
      free_panics with_page obj (rw same refl),
    );
    memory = λ q o p z.
        linked-kept (subst (λ k. k < s.max_line) (sym u.lines) (max_line_pos s v.region).0) q o z;
  }
    where
      start : obj ≡ page_start obj
      start = omega (arith, u.aligned)

      lines_other' : (j a : ℕ) → IsObject s j a → i ≢ j → page_index s a ≢ n
      lines_other' j a o d z = d (sym (ap (λ k. (s.page k).lines) z) ∙ o.lines)

  object-IsFreed :
      0 < i → i < s.max_line → IsObject s i obj → Unlisted s obj → IsFreed s obj with_object
  object-IsFreed pos l o u = record {
    slabs =
        object_back-IsSlabs s v listed counted
          (update s.page n (record (page_of s obj) { count = left })) linked obj i pos l o u refl
          (rw same refl) (rw same refl) (λ k d. ground arith);
    back = inl (not_zero, listed_has);
    memory = λ q z p w. linked-kept l q z w;
  }
    where
      listed_has : has obj (listed i) ≡ true
      listed_has = let e : i == i ≡ true = ground arith in rw e (has_head obj (s.slab i))

      not_zero : i ≢ 0
      not_zero z = omega (arith, z)

  abbrev unlinked : List ℕ
  unlinked = unlink_page with_object n (listed i)

  abbrev unlinked_links : Memory
  unlinked_links = unlink_all linked (root s i) (λ x. page_index s x == n) none (listed i)

  abbrev freed_links : Memory
  freed_links = add_first unlinked_links (root s 0) (page_start obj) (update listed i unlinked 0)

  freed_links-kept :
      0 < i
      → i < s.max_line
      → (q : ℕ) → in_link q obj ≡ false
      → in_link q (page_start obj) ≡ false
      → Unlinked s q
      → freed_links q ≡ s.mem q
  freed_links-kept pos l q o p u =
      let e : 0 == i ≡ false = ground (arith, pos) in
      let f : i == i ≡ true = ground arith in
      add_first-kept unlinked_links (root s 0) (page_start obj) (update listed i unlinked 0) q p
        (rw e (u 0 (max_line_pos s v.region).0))
      ∙ unlink_all-kept linked (root s i) (λ x. page_index s x == n) none (listed i) q refl
          (rw f (cons-out q obj (s.slab i) o (u i l)))
      ∙ linked-kept l q o u

  abbrev with_free : Slabs
  with_free =
      changed s v
        (update (update listed i unlinked) 0 (page_start obj ∷ update listed i unlinked 0))
        (update counted 0 ((counted 0 + 2 ^ 32 - 1) % 2 ^ 32))
        (update (update s.page n (record (page_of s obj) { count = left })) n raw_free) freed_links

  free_page-with_free : free_page with_object obj i ≡ with_free
  unfolding free_page
  free_page-with_free = refl

  -- What a list has after the objects of the page are unlinked.
  unlinked_has :
      0 < i
      → i < s.max_line
      → IsObject s i obj
      → (j a : ℕ) → 0 < j
      → j < s.max_line
      → has a (with_free.slab j) ≡ true
      → (has a (s.slab j) ≡ true) × (page_index s a ≢ n)
  unlinked_has pos l o j a posj lj h = elim (Bool-cases (j == i)) [
    | inl f ↦
        let z : j ≡ i = ground arith in
        let e : j == 0 ≡ false = ground arith in
        let h1 : has a unlinked ≡ true = (rw (e, f) at h) in
        let (h', d) = has-unlink_page with_object n a (listed i) h1 in
        let ii : i == i ≡ true = ground arith in
        elim (head_or_tail a obj (s.slab i) (rw ii at h')) [
          | inl y ↦ absurd (d (ap (λ b. page_index s b) y))
          | inr y ↦ (subst (λ k. has a (s.slab k) ≡ true) (sym z) y, d)
        ]
    | inr f ↦
        let e : j == 0 ≡ false = ground arith in
        let h1 : has a (s.slab j) ≡ true = (rw (e, f) at h) in
        (h1, λ z. false_is f (sym (v.objects j a posj lj h1).lines ∙ ap (λ k. (s.page k).lines) z))
  ]
    where
      false_is : {j i : ℕ} → j == i ≡ false → j ≢ i
      false_is f z = ground arith

  unlinked-Distinct :
      Unlisted s obj
      → 0 < i
      → i < s.max_line
      → (j : ℕ) → 0 < j
      → j < s.max_line
      → Distinct (with_free.slab j)
  unlinked-Distinct u pos l j posj lj = elim (Bool-cases (j == i)) [
    | inl f ↦
        let e : j == 0 ≡ false = ground arith in
        let ii : i == i ≡ true = ground arith in
        rw (e, f) (unlink_page-Distinct with_object n (listed i) (rw ii (u i l, v.distinct i l)))
    | inr f ↦ let e : j == 0 ≡ false = ground arith in rw (e, f) (v.distinct j lj)
  ]

  last-IsFreed :
      0 < i → i < s.max_line → IsObject s i obj → Unlisted s obj → IsFreed s obj with_free
  last-IsFreed pos l o u =
      let (inside, aligned, index) = page_start_lem s v.region obj o.inside in
      let here : with_free.page n ≡ raw_free = (rw same refl) in
      record {
        slabs =
            page_back-IsSlabs s v with_free.slab with_free.objects with_free.page freed_links obj
              (page_start obj) (λ z. slab≢free (sym o.type ∙ z)) inside aligned index listed_first
              (unlinked_has pos l o) (unlinked-Distinct u pos l) here (λ k d. ground arith);
        back = inr (
          has_head (page_start obj) (update listed i unlinked 0),
          free_panics with_free obj (ap (λ p. p.type) here),
        );
        memory = λ q z p w. freed_links-kept pos l q z p w;
      }
    where
      listed_first : with_free.slab 0 ≡ page_start obj ∷ s.slab 0
      listed_first = let e : 0 == i ≡ false = ground (arith, pos) in rw e refl

-- kfree returns for an object or a page that is in use. The free lists stay well-formed, and no byte changes
-- but those of the links, 8 at the start of each, of the object, of its page and of what was free; the object is in the list of its slab again, or its page is in the list of the free
-- pages and a second kfree of the object panics.
pub kfree-IsFreed :
    (s : Slabs) (v : IsSlabs s) (obj : ℕ) → IsUsed s obj → Returns (IsFreed s obj) (kfree s obj)
kfree-IsFreed s v obj (inl u, l) = rw (passes s v obj u.inside u.used) (
    subst (IsFreed s obj) (sym (put_back-page s v obj (rw u.lines refl)))
      (page-IsFreed s v obj u l))
kfree-IsFreed s v obj (inr (i, pos, l, o), u) =
    let z = o.lines in
    let pos' : 0 < (page_of s obj).lines = subst (λ k. 0 < k) (sym z) pos in
    let l' : (page_of s obj).lines < s.max_line = subst (λ k. k < s.max_line) (sym z) l in
    let o' = subst (λ k. IsObject s k obj) (sym z) o in
    let e : (page_of s obj).lines == 0 ≡ false = ground (arith, pos') in
    rw (passes s v obj o.inside (λ z. slab≢free (sym o.type ∙ z)))
      (elim (Bool-cases (((page_of s obj).count + 2 ^ 8 - 1) % 2 ^ 8 == 0)) [
        | inl c ↦
            subst (IsFreed s obj) (sym (put_back-last s v obj e c ∙ free_page-with_free s v obj))
              (last-IsFreed s v obj pos' l' o' u)
        | inr c ↦
            subst (IsFreed s obj) (sym (put_back-object s v obj e c))
              (object-IsFreed s v obj pos' l' o' u)
      ])
