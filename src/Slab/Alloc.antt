-- ===== src/Slab/Alloc.antt =====
-- What kmalloc returns.
use ko.Base.{
  ℕ, ◌+◌, ◌*◌, ◌/◌, ◌%◌, ◌<◌, ◌≤◌, ◌≡◌, ◌≢◌, ◌⊎◌, refl, true, false, ◌==◌, ltb, leb, ◌&&◌, not,
  if◌then◌else◌, arith, Bool-cases, inl, inr, ◌∙◌, subst, sym, none, List, [], ◌∷◌, has, update,
}
use ko.Base.Run.{done, Returns, ◌>>=◌}
use ko.Cstd.Bytes.{Memory, memset}
use ko.Cstd.Bytes.Fill.{memset-filled}
use ko.Slab.{
  Slabs, root, page_size, page_index, take_object, nb_line, cut, is_empty, refill, kmalloc,
}
use ko.Slab.Arith.{InRegion, max_line_pos, nb_line_bounds}
use ko.Slab.Invariant.{
  IsSlabs, Unlisted, Unlinked, taken, take_object-taken, IsObject-same, taken_page-IsSlabs,
  taken_object-IsSlabs, taken_page-Unlisted, taken_object-Unlisted, has_head,
}
use ko.Slab.Used.{IsUsedPart, slab≢free}
use ko.Slab.Cut.{cut_more, cut-out}
use ko.Slab.Links.{
  in_links, head_of, last_of, last_of-out, tail-out, unlink_between, unlink_between-kept,
  add_all-kept,
}
use ko.Slab.Refill.{refilled, refill-refilled, new-IsObject, final, final-IsSlabs, final-Unlisted}

List-cases : (xs : List ℕ) → (xs ≡ []) ⊎ ((y : ℕ) × (ys : List ℕ) × (xs ≡ y ∷ ys))
List-cases [] = inl refl
List-cases (y ∷ ys) = inr (y, ys, refl)

-- The object at `a` of `size` bytes that was free and is in use in `s'`.
pub record IsGiven (s : Slabs) (size : ℕ) (r : ℕ × Slabs) : Type 0 where
  pub slabs : IsSlabs r.1
  pub was_free :
      (i : ℕ) × (i < s.max_line) × ((has r.0 (s.slab i) ≡ true) ⊎ (has r.0 (s.slab 0) ≡ true))
  pub used : IsUsedPart r.1 r.0
  pub unlisted : Unlisted r.1 r.0
  pub inside : InRegion s r.0
  pub room : r.0 % page_size + size ≤ page_size
  pub cleared : (q : ℕ) → r.0 ≤ q → q < r.0 + size → r.1.mem q ≡ 0
  pub kept : (q : ℕ) → q / page_size ≢ r.0 / page_size → Unlinked s q → r.1.mem q ≡ s.mem q

memset_cleared : (m : Memory) (a n q : ℕ) → a ≤ q → q < a + n → memset m a 0 n q ≡ 0
memset_cleared m a n q l h = memset-filled m a 0 n q ∙ ground arith

memset_kept :
    (m : Memory) (a n q : ℕ)
    → a % page_size + n ≤ page_size
    → q / page_size ≢ a / page_size
    → memset m a 0 n q ≡ m q
memset_kept m a n q l d = memset-filled m a 0 n q ∙ ground (arith, outside m a n q l d)
  where
    outside :
        (m : Memory) (a n q : ℕ)
        → a % page_size + n ≤ page_size
        → q / page_size ≢ a / page_size
        → (q < a) ⊎ (a + n ≤ q)
    outside m a n q l d = elim (Bool-cases (ltb q a)) [
      | inl e ↦ inl (ground arith)
      | inr e ↦ elim (Bool-cases (leb (a + n) q)) [
        | inl f ↦ inr (ground arith)
        | inr f ↦
            let lo : a ≤ q = ground arith in
            let hi : q < a + n = ground arith in absurd (d (omega (arith, lo, hi, l)))
      ]
    ]

module _ (s : Slabs) (v : IsSlabs s) (size : ℕ) where
  -- The memory after the first of a list has left it.
  abbrev unlinked : ℕ → List ℕ → Memory
  unlinked i xs = unlink_between s.mem (root s i) none (head_of xs)

  unlinked-kept :
      (i x : ℕ) (xs : List ℕ) (q : ℕ)
      → s.slab i ≡ x ∷ xs
      → i < s.max_line
      → Unlinked s q
      → unlinked i xs q ≡ s.mem q
  unlinked-kept i x xs q e l u =
      unlink_between-kept s.mem (root s i) none xs q refl (tail-out q x xs (rw e at (u i l)))

  page-IsGiven :
      (x : ℕ) (xs : List ℕ)
      → size ≤ page_size
      → s.slab 0 ≡ x ∷ xs
      → IsGiven s size (x, taken s 0 x xs page_size)
  page-IsGiven x xs l e =
      let own = v.pages x (rw e (has_head x xs)) in
      record {
        slabs = taken_page-IsSlabs s v x xs page_size e;
        was_free = (0, (max_line_pos s v.region).0, inr (rw e (has_head x xs)));
        used =
            let same : page_index s x == page_index s x ≡ true = ground arith in
            inl (record {
              inside = own.inside;
              aligned = own.aligned;
              used = rw same slab≢free;
              lines = rw same refl;
            });
        unlisted = taken_page-Unlisted s v x xs page_size e;
        inside = own.inside;
        room = omega (arith, own.aligned, l);
        cleared = λ q lo hi. memset_cleared (unlinked 0 xs) x page_size q lo (omega (arith, l));
        kept = λ q d u.
            memset_kept (unlinked 0 xs) x page_size q (omega (arith, own.aligned)) d
            ∙ unlinked-kept 0 x xs q e (max_line_pos s v.region).0 u;
      }

  object-IsGiven :
      (i x : ℕ) (xs : List ℕ)
      → 0 < i
      → i < s.max_line
      → size ≤ i * s.line
      → s.slab i ≡ x ∷ xs
      → IsGiven s size (x, taken s i x xs (i * s.line))
  object-IsGiven i x xs pos less l e =
      let own = v.objects i x pos less (rw e (has_head x xs)) in
      record {
        slabs = taken_object-IsSlabs s v x xs (i * s.line) i pos less e;
        was_free = (i, less, inl (rw e (has_head x xs)));
        used = inr (i, pos, less, IsObject-same s v x xs (i * s.line) i x own);
        unlisted = taken_object-Unlisted s v x xs (i * s.line) i pos less e;
        inside = own.inside;
        room = omega (arith, own.fits, l);
        cleared = λ q lo hi. memset_cleared (unlinked i xs) x (i * s.line) q lo (omega (arith, l));
        kept = λ q d u.
            memset_kept (unlinked i xs) x (i * s.line) q own.fits d
            ∙ unlinked-kept i x xs q e less u;
      }

  refill-IsGiven :
      (i p : ℕ) (ps rest : List ℕ)
      → 0 < i
      → i < s.max_line
      → size ≤ i * s.line
      → i * s.line ≤ page_size
      → s.slab 0 ≡ p ∷ ps
      → cut page_size p (i * s.line) p ≡ p ∷ rest
      → IsGiven s size (p, final s v i p ps rest)
  refill-IsGiven i p ps rest pos less l small e c =
      let own = v.pages p (rw e (has_head p ps)) in
      let m0 = memset (unlinked 0 ps) p 0 page_size in
      let m1 = (refilled s i (i * s.line) p ps).mem in
      let m2 = unlink_between m1 (root s i) none (head_of rest) in
      record {
        slabs = final-IsSlabs s v i p ps rest pos less e c;
        was_free = (i, less, inr (rw e (has_head p ps)));
        used = inr (
          i,
          pos,
          less,
          new-IsObject s v i p ps rest pos less e 0 p (omega arith) (omega (arith, small)),
        );
        unlisted = final-Unlisted s v i p ps rest pos less e c;
        inside = own.inside;
        room = omega (arith, own.aligned, l, small);
        cleared = λ q lo hi. memset_cleared m2 p (i * s.line) q lo (omega (arith, l));
        kept = λ q d u.
            let off : in_links q (cut page_size p (i * s.line) p) ≡ false =
              cut-out page_size p (i * s.line) p q (grind (arith, pos, v.region.wide)) own.aligned
                (omega arith) d in
            let other : i == 0 ≡ false = ground arith in
            memset_kept m2 p (i * s.line) q (omega (arith, own.aligned, small)) d
            ∙ unlink_between-kept m1 (root s i) none rest q refl (tail-out q p rest (rw c at off))
            ∙ add_all-kept m0 (root s i) (last_of none (update s.slab 0 ps i))
                (cut page_size p (i * s.line) p) q
                (rw other (last_of-out q none (s.slab i) refl (u i less))) off
            ∙ memset_kept (unlinked 0 ps) p page_size q (omega (arith, own.aligned)) d
            ∙ unlinked-kept 0 p ps q e (max_line_pos s v.region).0 u;
      }

  -- kmalloc behind its guards.
  pub kmalloc_guarded :
      (p : ℕ) (ps : List ℕ)
      → s.slab 0 ≡ p ∷ ps
      → size ≤ page_size
      → let lines = nb_line s size in
        kmalloc s size ≡ (
          (if not (lines * s.line == page_size) && is_empty (s.slab lines)
            then refill s lines (lines * s.line)
            else done s)
          >>= λ s1. done (take_object s1 lines (lines * s.line)))
  unfolding kmalloc
  kmalloc_guarded p ps e l =
      let not_big : ltb page_size size ≡ false = ground arith in
      let full : is_empty (s.slab 0) ≡ false = rw e refl in
      let guard : (size == page_size) && is_empty (s.slab 0) ≡ false = ground (arith, full) in
      rw (not_big, guard) refl

  give :
      (s1 : Slabs) (lines i x : ℕ) (xs : List ℕ) (bytes : ℕ)
      → lines % s1.max_line ≡ i
      → s1.slab i ≡ x ∷ xs
      → IsGiven s size (x, taken s1 i x xs bytes)
      → IsGiven s size (take_object s1 lines bytes)
  give s1 lines i x xs bytes m e g =
      subst (IsGiven s size)
        (sym (
          subst (λ k. take_object s1 lines bytes ≡ (x, taken s1 k x xs bytes)) m
            (take_object-taken s1 lines bytes x xs (subst (λ k. s1.slab k ≡ x ∷ xs) (sym m) e))))
        g

  page_case :
      (p : ℕ) (ps : List ℕ)
      → s.slab 0 ≡ p ∷ ps
      → size ≤ page_size
      → nb_line s size * s.line ≡ page_size
      → Returns (IsGiven s size) (kmalloc s size)
  page_case p ps e l w =
      let all : nb_line s size ≡ s.max_line = grind (arith, w, v.region.lines, v.region.wide) in
      let zero : nb_line s size % s.max_line ≡ 0 =
        rw all (grind (arith, (max_line_pos s v.region).0)) in
      let test : nb_line s size * s.line == page_size ≡ true = rw w refl in
      rw (kmalloc_guarded p ps e l, test, w)
        (give s (nb_line s size) 0 p ps page_size zero e (page-IsGiven p ps l e))

  object_case :
      (p : ℕ) (ps : List ℕ)
      → s.slab 0 ≡ p ∷ ps
      → size ≤ page_size
      → 0 < nb_line s size
      → nb_line s size < s.max_line
      → size ≤ nb_line s size * s.line
      → nb_line s size * s.line < page_size
      → Returns (IsGiven s size) (kmalloc s size)
  object_case p ps e l pos less enough fits =
      let lines = nb_line s size in
      let same : lines % s.max_line ≡ lines = grind (arith, less) in
      let test : lines * s.line == page_size ≡ false = ground (arith, fits) in
      elim (List-cases (s.slab lines)) [
        | inr (x, xs, f) ↦
            let some_left : is_empty (s.slab lines) ≡ false = rw f refl in
            rw (kmalloc_guarded p ps e l, test, some_left)
              (give s lines lines x xs (lines * s.line) same f
                (object-IsGiven lines x xs pos less enough f))
        | inl f ↦
            let empty : is_empty (s.slab lines) ≡ true = rw f refl in
            let rest = cut 4095 p (lines * s.line) (p + lines * s.line) in
            let c : cut page_size p (lines * s.line) p ≡ p ∷ rest =
              cut_more 4095 p (lines * s.line) (omega (arith, fits)) in
            let other : lines == 0 ≡ false = ground arith in
            let list : (refilled s lines (lines * s.line) p ps).slab lines ≡ p ∷ rest =
              filled_list lines p ps rest other f c in
            rw
              (
                kmalloc_guarded p ps e l,
                test,
                empty,
                refill-refilled s lines (lines * s.line) p ps v.region e,
              )
              (give (refilled s lines (lines * s.line) p ps) lines lines p rest (lines * s.line)
                same list
                (refill-IsGiven lines p ps rest pos less enough (omega (arith, fits)) e c))
      ]
    where
      filled_list :
          (i p : ℕ) (ps rest : List ℕ)
          → i == 0 ≡ false
          → s.slab i ≡ []
          → cut page_size p (i * s.line) p ≡ p ∷ rest
          → (refilled s i (i * s.line) p ps).slab i ≡ p ∷ rest
      filled_list i p ps rest o f c =
          let self : i == i ≡ true = ground arith in rw (self, o, f, c) refl

  -- Where there is a free page, kmalloc of 1 to 4096 bytes does not panic and returns an object of that
  -- size inside of one page, which was free, is in no free list any more and reads as 0; the free
  -- lists stay well-formed, and no byte of another page changes but those of the links, 8 at the start of
  -- each, of what was free.
  pub kmalloc-IsGiven :
      (p : ℕ) (ps : List ℕ)
      → s.slab 0 ≡ p ∷ ps
      → 0 < size
      → size ≤ page_size
      → Returns (IsGiven s size) (kmalloc s size)
  kmalloc-IsGiven p ps e pos l =
      let (lpos, lmax, enough, fits) = nb_line_bounds s v.region size pos l in
      elim (Bool-cases (nb_line s size * s.line == page_size)) [
        | inl w ↦ page_case p ps e l (ground arith)
        | inr w ↦
            let less : nb_line s size * s.line < page_size = ground (arith, fits) in
            object_case p ps e l lpos (grind (arith, less, v.region.lines)) enough less
      ]
