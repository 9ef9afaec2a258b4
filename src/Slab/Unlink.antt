-- ===== src/Slab/Unlink.antt =====
-- The objects of a page leave their free list.
use ko.Base.{
  ℕ, ◌+◌, ◌%◌, ◌≡◌, ◌≢◌, true, false, ◌==◌, arith, Bool-cases, inl, inr, ◌∙◌, subst, sym, List, [],
  ◌∷◌, has, Distinct,
}
use ko.Slab.{Slabs, page_size, page_index, page_start, unlink_page}
use ko.Slab.Arith.{IsRegion, InRegion, page_index_inside}
use ko.Slab.Invariant.{true≢false}

pub page_start_lem :
    (s : Slabs)
    → IsRegion s
    → (a : ℕ) → InRegion s a
    → InRegion s (page_start a)
      × (page_start a % page_size ≡ 0)
      × (page_index s (page_start a) ≡ page_index s a)
page_start_lem s r a (lo, hi) =
    let al : page_start a % page_size ≡ 0 = omega arith in
    let inside : InRegion s (page_start a) = (omega (arith, r.aligned, lo), omega (arith, hi)) in
    let e = page_index_inside s r (page_start a) (a % page_size) inside al (omega arith) in
    let sum : page_start a + a % page_size ≡ a = omega arith in
    (inside, al, sym (subst (λ b. page_index s b ≡ page_index s (page_start a)) sum e.1))

-- What unlink_page leaves.
pub has-unlink_page :
    (s : Slabs) (n a : ℕ) (xs : List ℕ)
    → has a (unlink_page s n xs) ≡ true
    → (has a xs ≡ true) × (page_index s a ≢ n)
unfolding unlink_page
has-unlink_page s n a [] h = (h, λ z. true≢false (sym h))
has-unlink_page s n a (x ∷ xs) h = elim (Bool-cases (page_index s x == n)) [
  | inl e ↦ let (h', d) = has-unlink_page s n a xs (rw e at h) in (ground arith, d)
  | inr e ↦ elim (Bool-cases (a == x)) [
    | inl f ↦ (ground arith, λ z. ground arith)
    | inr f ↦
        let h1 = rw e at h in
        let h2 : has a (unlink_page s n xs) ≡ true = ground arith in
        let (h', d) = has-unlink_page s n a xs h2 in (ground arith, d)
  ]
]

has-unlink_page-false :
    (s : Slabs) (n a : ℕ) (xs : List ℕ) → has a xs ≡ false → has a (unlink_page s n xs) ≡ false
has-unlink_page-false s n a xs h = elim (Bool-cases (has a (unlink_page s n xs))) [
  | inr e ↦ e
  | inl e ↦ absurd (true≢false (sym (has-unlink_page s n a xs e).0 ∙ h))
]

pub unlink_page-Distinct :
    (s : Slabs) (n : ℕ) (xs : List ℕ) → Distinct xs → Distinct (unlink_page s n xs)
unfolding unlink_page
unlink_page-Distinct s n [] d = d
unlink_page-Distinct s n (x ∷ xs) (f, d) = elim (Bool-cases (page_index s x == n)) [
  | inl e ↦ rw e (unlink_page-Distinct s n xs d)
  | inr e ↦ rw e (has-unlink_page-false s n x xs f, unlink_page-Distinct s n xs d)
]
