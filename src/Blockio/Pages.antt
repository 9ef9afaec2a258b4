-- ===== src/Blockio/Pages.antt =====
-- The page that blockio_get takes, and its entry.
use ko.Base.{ℕ, ◌*◌, ◌%◌, ◌^◌, ◌≡◌, ◌≢◌, refl, true, ◌==◌, arith, ◌∙◌, subst, sym, ap, List, ◌∷◌}
use ko.Base.Run.{done}
use ko.Cstd.Bytes.{Memory}
use ko.Slab.{
  Slabs, Page, page_free, page_block, page_size, page_of, set_page, page_index, kmalloc,
  take_object,
}
use ko.Slab.Accessors.{page_set_lba, page_set_block, page_inc_refcount, page_set_valid}
use ko.Slab.Arith.{max_line_pos}
use ko.Slab.Invariant.{
  IsSlabs, Unlisted, taken, take_object-taken, taken_page-IsSlabs, taken_page-Unlisted, has_head,
}
use ko.Slab.Used.{IsUsedPage, slab≢free}
use ko.Slab.Entry.{entry_changed, set_page-modify, entry_changed-IsSlabs, entry_changed-IsUsedPage}
use ko.Slab.Cut.{nb_line_page}
use ko.Slab.Alloc.{kmalloc_guarded}

-- kmalloc of a whole page takes the first free page.
pub kmalloc-page :
    (s : Slabs) (v : IsSlabs s) (p : ℕ) (ps : List ℕ)
    → s.slab 0 ≡ p ∷ ps
    → kmalloc s page_size ≡ done (p, taken s 0 p ps page_size)
kmalloc-page s v p ps e =
    let z : s.max_line % s.max_line ≡ 0 = grind (arith, (max_line_pos s v.region).0) in
    let size : s.max_line * s.line ≡ page_size = grind (arith, v.region.lines) in
    let t =
      take_object-taken s s.max_line page_size p ps (subst (λ k. s.slab k ≡ p ∷ ps) (sym z) e) in
    let t' : take_object s s.max_line page_size ≡ (p, taken s 0 p ps page_size) =
      subst (λ k. take_object s s.max_line page_size ≡ (p, taken s k p ps page_size)) z t in
    kmalloc_guarded s v page_size p ps e (omega arith)
    ∙ rw (nb_line_page s v.region, size) (rw t' refl)

pub block≢free : page_block ≢ page_free
block≢free e = cc

-- The memory after the free page `p`, before `ps`, was unlinked and cleared by kmalloc.
abbrev pub taken_memory : Slabs → ℕ → List ℕ → Memory
taken_memory s p ps = (taken s 0 p ps page_size).mem

module _ (s : Slabs) (v : IsSlabs s) (p : ℕ) (ps : List ℕ) (free : s.slab 0 ≡ p ∷ ps)
    (bdev lba : ℕ) where
  abbrev pub start : Slabs
  start = taken s 0 p ps page_size

  pub start-IsSlabs : IsSlabs start
  start-IsSlabs = taken_page-IsSlabs s v p ps page_size free

  pub same : page_index s p == page_index s p ≡ true
  same = ground arith

  pub start-IsUsedPage : IsUsedPage start p
  start-IsUsedPage =
      let own = v.pages p (rw free (has_head p ps)) in
      record {
        inside = own.inside;
        aligned = own.aligned;
        used = rw same slab≢free;
        lines = rw same refl;
      }

  -- The entry of the page for the block `lba` of `bdev`.
  abbrev with_lba : Page
  with_lba = record (page_of start p) { bdev = bdev % 2 ^ 4; lba = lba % 2 ^ 32 }

  abbrev pub with_block : Page
  with_block = record with_lba { type = page_block }

  abbrev pub block_entry : Page
  block_entry = record with_block { count = 2; valid = true }

  abbrev pub block_page : Memory → Slabs
  block_page m = entry_changed start p block_entry m

  pub typed : page_set_block (page_set_lba start p bdev lba) p ≡ set_page start p with_block
  unfolding page_set_block page_set_lba
  typed = set_page-modify start p with_lba (λ q. record q { type = page_block })

  pub counted :
      page_inc_refcount (set_page start p with_block) p
      ≡ done (2, set_page start p (record with_block { count = 2 }))
  unfolding page_inc_refcount
  counted =
      let c : (page_of s p).count ≡ 0 = (v.pages p (rw free (has_head p ps))).count in
      let c1 : (page_of (set_page start p with_block) p).count ≡ 1 = rw (same, c) refl in
      rw c1
        (ap (λ x. done (2, x)) (set_page-modify start p with_block (λ q. record q { count = 2 })))

  pub valid_page :
      page_set_valid (set_page start p (record with_block { count = 2 })) p ≡ block_page start.mem
  unfolding page_set_valid
  valid_page =
      set_page-modify start p (record with_block { count = 2 }) (λ q. record q { valid = true })

  pub block_page-IsSlabs : (m : Memory) → IsSlabs (block_page m)
  block_page-IsSlabs m = entry_changed-IsSlabs start start-IsSlabs p start-IsUsedPage block_entry m

  pub block_page-IsUsedPage : (m : Memory) → IsUsedPage (block_page m) p
  block_page-IsUsedPage m =
      entry_changed-IsUsedPage start start-IsSlabs p start-IsUsedPage block_entry m block≢free
        (rw same refl)

  pub block_page-Unlisted : (m : Memory) → Unlisted (block_page m) p
  block_page-Unlisted m = taken_page-Unlisted s v p ps page_size free
