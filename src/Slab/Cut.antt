-- ===== src/Slab/Cut.antt =====
-- How a page is cut into objects, and kmalloc of a page.
use ko.Base.{
  ℕ, zero, suc, ◌+◌, ◌*◌, ◌/◌, ◌%◌, ◌<◌, ◌≤◌, ◌≡◌, ◌≢◌, refl, true, false, ◌==◌, leb, arith,
  Bool-cases, inl, inr, subst, sym, List, ◌∷◌, has, Distinct,
}
use ko.Base.Run.{done}
use ko.Slab.{Slabs, page_size, take_object, nb_line, cut, kmalloc_page}
use ko.Slab.Links.{in_link, in_links, cons-out}
use ko.Slab.Arith.{IsRegion, max_line_pos, nb_line_bounds}
use ko.Slab.Invariant.{taken, take_object-taken, true≢false}

-- The addresses that a page is cut into.
pub cut_places :
    (fuel page size p k a : ℕ)
    → p ≡ page + k * size
    → has a (cut fuel page size p) ≡ true
    → (j : ℕ) × (k ≤ j) × (a ≡ page + j * size) × (a + size ≤ page + page_size)
unfolding cut
cut_places zero page size p k a e h = absurd (true≢false (sym h))
cut_places (suc fuel) page size p k a e h = elim (Bool-cases (leb (p + size) (page + page_size))) [
  | inr f ↦ absurd (true≢false (sym (rw f at h)))
  | inl f ↦
      let h' : has a (p ∷ cut fuel page size (p + size)) ≡ true = rw f at h in
      elim (Bool-cases (a == p)) [
        | inl g ↦
            let z : a ≡ p = ground arith in (k, omega arith, omega (arith, z, e), ground arith)
        | inr g ↦
            let (j, l, q, w) =
              cut_places fuel page size (p + size) (k + 1) a (grind (arith, e)) (rw g at h') in
            (j, omega arith, q, w)
      ]
]

-- A byte that is not on the page is in the links of no object of it.
pub cut-out :
    (fuel page size p q : ℕ)
    → 8 ≤ size
    → page % page_size ≡ 0
    → page ≤ p
    → q / page_size ≢ page / page_size
    → in_links q (cut fuel page size p) ≡ false
unfolding cut in_links
cut-out zero page size p q l a b d = refl
cut-out (suc fuel) page size p q l a b d = elim (Bool-cases (leb (p + size) (page + page_size))) [
  | inr f ↦ rw f refl
  | inl f ↦
      let off : in_link q p ≡ false = elim (Bool-cases (in_link q p)) [
        | inr g ↦ g
        | inl g ↦
            let lo : p ≤ q = ground arith in
            let hi : q < p + 8 = ground arith in
            let end : p + size ≤ page + page_size = ground arith in
            absurd (d (omega (arith, lo, hi, end, l, a, b)))
      ] in
      rw f (
        cons-out q p (cut fuel page size (p + size)) off
          (cut-out fuel page size (p + size) q l a (omega (arith, b)) d))
]

pub cut-Distinct :
    (fuel page size p k : ℕ) → 0 < size → p ≡ page + k * size → Distinct (cut fuel page size p)
unfolding cut
cut-Distinct zero page size p k z e = tt
cut-Distinct (suc fuel) page size p k z e = elim (Bool-cases (leb (p + size) (page + page_size))) [
  | inr f ↦ rw f tt
  | inl f ↦ rw f (fresh fuel, cut-Distinct fuel page size (p + size) (k + 1) z (grind (arith, e)))
]
  where
    fresh : (fuel : ℕ) → has p (cut fuel page size (p + size)) ≡ false
    fresh fuel = elim (Bool-cases (has p (cut fuel page size (p + size)))) [
      | inr g ↦ g
      | inl g ↦
          let (j, l, q, w) = cut_places fuel page size (p + size) (k + 1) p (grind (arith, e)) g in
          absurd (grind (arith, e, q, l, z))
    ]

pub cut_more :
    (n page size : ℕ)
    → size ≤ page_size
    → cut (suc n) page size page ≡ page ∷ cut n page size (page + size)
unfolding cut
cut_more n page size l =
    let f : leb (page + size) (page + page_size) ≡ true = ground arith in rw f refl

pub nb_line_page : (s : Slabs) → IsRegion s → nb_line s page_size ≡ s.max_line
unfolding nb_line
nb_line_page s r =
    let b = nb_line_bounds s r page_size (omega arith) (omega arith) in
    grind (arith, r.lines, r.wide)

-- kmalloc of a page takes the first free page.
pub kmalloc_page-taken :
    (s : Slabs) (p : ℕ) (ps : List ℕ)
    → IsRegion s
    → s.slab 0 ≡ p ∷ ps
    → kmalloc_page s ≡ done (p, taken s 0 p ps page_size)
unfolding kmalloc_page
kmalloc_page-taken s p ps r e =
    let z : s.max_line % s.max_line ≡ 0 = grind (arith, (max_line_pos s r).0) in
    let size : s.max_line * s.line ≡ page_size = grind (arith, r.lines) in
    let t =
      take_object-taken s s.max_line page_size p ps (subst (λ k. s.slab k ≡ p ∷ ps) (sym z) e) in
    let t' : take_object s s.max_line page_size ≡ (p, taken s 0 p ps page_size) =
      subst (λ k. take_object s s.max_line page_size ≡ (p, taken s k p ps page_size)) z t in
    rw (nb_line_page s r, size, t', e) refl
