-- ===== src/Blockio/Get.antt =====
-- What blockio_get returns.
use ko.Base.{
  ℕ, ◌^◌, ◌<◌, ◌≡◌, ◌⊎◌, refl, true, false, ◌==◌, arith, inl, inr, subst, List, ◌∷◌, has, some,
  Bool-cases,
}
use ko.Base.Int.{ℤ}
use ko.Base.Run.{done, Returns, Returns-bind}
use ko.Cstd.Bytes.{Memory}
use ko.Slab.{Slabs, page_block, page_of, page_index, page_start, kfree}
use ko.Slab.Invariant.{IsSlabs, Unlisted, has_head}
use ko.Slab.Used.{IsUsedPage}
use ko.Slab.Kfree.{IsFreed, kfree-IsFreed}
use ko.Blockio.{BlockDev, is_zero, loaded, blockio_get}
use ko.Blockio.Pages.{
  kmalloc-page, taken_memory, start, block_page, typed, counted, valid_page, block_page-IsSlabs,
  block_page-IsUsedPage, block_page-Unlisted,
}

-- The page `p` holds the block `lba` of `bdev`.
pub record IsLoaded (s : Slabs) (p bdev lba : ℕ) : Type 0 where
  pub slabs : IsSlabs s
  pub used : IsUsedPage s p
  pub unlisted : Unlisted s p
  pub type : (page_of s p).type ≡ page_block
  pub valid : (page_of s p).valid ≡ true
  pub disk : (page_of s p).bdev ≡ bdev
  pub block : (page_of s p).lba ≡ lba
  pub count : (page_of s p).count ≡ 2

-- The page `p` with what the driver read, or NULL and `p` free again.
abbrev pub IsGot : {W : Type 0} → ℕ → ℕ → ℕ → ℤ × Memory × W → ℕ × Slabs × W → Type 0
IsGot p bdev lba (err, mem, w1) (a, s, w) =
    ((is_zero err ≡ true) × (a ≡ p) × IsLoaded s p bdev lba × (s.mem ≡ mem)
      ⊎ (is_zero err ≡ false) × (a ≡ 0) × IsSlabs s × (has p (s.slab 0) ≡ true))
    × (w ≡ w1)

module _ {W : Type 0} (blockdev_get : ℕ → BlockDev W) (s : Slabs) (v : IsSlabs s) (p : ℕ)
    (ps : List ℕ) (free : s.slab 0 ≡ p ∷ ps) (bdev lba : ℕ) where
  pub block_page-IsLoaded :
      (m : Memory)
      → bdev < 2 ^ 4
      → lba < 2 ^ 32
      → IsLoaded (block_page s v p ps free bdev lba m) p bdev lba
  block_page-IsLoaded m b l =
      let same : page_index s p == page_index s p ≡ true = ground arith in
      record {
        slabs = block_page-IsSlabs s v p ps free bdev lba m;
        used = block_page-IsUsedPage s v p ps free bdev lba m;
        unlisted = block_page-Unlisted s v p ps free bdev lba m;
        type = rw same refl;
        valid = rw same refl;
        disk = rw same (omega (arith, b));
        block = rw same (omega (arith, l));
        count = rw same refl;
      }

  -- A page that is freed is in the list of the free pages.
  back_in_list :
      (m : Memory) (s' : Slabs)
      → IsFreed (block_page s v p ps free bdev lba m) p s'
      → has p (s'.slab 0) ≡ true
  back_in_list m s' f =
      let u = block_page-IsUsedPage s v p ps free bdev lba m in
      elim f.back [
        | inl (n, _) ↦ absurd (n u.lines)
        | inr (h, _) ↦
            let e : page_start p ≡ p = omega (arith, u.aligned) in
            subst (λ a. has a (s'.slab 0) ≡ true) e h
      ]

  loaded-IsGot :
      (r : ℤ × Memory × W)
      → bdev < 2 ^ 4
      → lba < 2 ^ 32
      → Returns (IsGot p bdev lba r) (
          loaded blockdev_get
            (block_page s v p ps free bdev lba (start s v p ps free bdev lba).mem)
            p
            r)
  unfolding loaded
  loaded-IsGot (err, mem, w) b l = elim (Bool-cases (is_zero err)) [
    | inl e ↦ rw e (inl (e, refl, block_page-IsLoaded mem b l, refl), refl)
    | inr e ↦ rw e (
        Returns-bind (IsFreed (block_page s v p ps free bdev lba mem) p)
          (IsGot p bdev lba (err, mem, w)) (kfree (block_page s v p ps free bdev lba mem) p)
          (λ s2. done (0, s2, w))
          (kfree-IsFreed (block_page s v p ps free bdev lba mem)
            (block_page-IsSlabs s v p ps free bdev lba mem) p
            (
              inl (block_page-IsUsedPage s v p ps free bdev lba mem),
              block_page-Unlisted s v p ps free bdev lba mem,
            ))
          (λ s2 f. (inr (e, refl, f.slabs, back_in_list mem s2 f), refl)))
  ]

  -- Where there is a free page `p` and the disk has a driver that reads, blockio_get returns. If the driver
  -- reports success, it returns `p`: a page of the block, valid, with what the driver read from the
  -- page that was cleared, and with a reference count of 2. If not, it returns NULL, and `p` is free again.
  pub blockio_get-IsGot :
      (read : ℕ → ℕ → ℕ → Memory → W → ℤ × Memory × W) (w : W)
      → (blockdev_get bdev).blockdev_read ≡ some read
      → bdev < 2 ^ 4
      → lba < 2 ^ 32
      → Returns
          (IsGot p bdev lba (read lba p 1 (taken_memory s p ps) w))
          (blockio_get blockdev_get s w bdev lba)
  unfolding blockio_get
  blockio_get-IsGot read w e b l =
      let not_null : p == 0 ≡ false =
        ground (arith, v.region.start, (v.pages p (rw free (has_head p ps))).inside.0) in
      rw
        (
          e,
          blockio_get,
          kmalloc-page s v p ps free,
          not_null,
          typed s v p ps free bdev lba,
          counted s v p ps free bdev lba,
          valid_page s v p ps free bdev lba,
        )
        (loaded-IsGot (read lba p 1 (taken_memory s p ps) w) b l)
