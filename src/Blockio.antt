-- ===== src/Blockio.antt =====
-- The blocks of disks in pages (kernel/kblockio.c). A driver is a parameter: its functions take the state
-- `w` of the devices, and write to the buffer only.
pub mod Pages
pub mod Get
pub mod Release
pub mod Cycle
mod Tests
use ko.Base.{ℕ, Bool, true, false, not, ◌==◌, if◌then◌else◌, Option, none, some}
use ko.Base.Int.{ℤ, pos, negsuc}
use ko.Base.Run.{Run, done, panic, ◌>>=◌}
use ko.Cstd.Bytes.{Memory}
use ko.Slab.{Slabs, page_size, kmalloc, kfree}
use ko.Slab.Accessors.{
  page_set_lba, page_set_block, page_inc_refcount, page_set_valid, page_get_refcount,
  page_dec_refcount, page_is_dirty, page_get_lba, page_clr_dirty,
}

-- `blockdev_t` with its `ops`: the functions take the block, the buffer and the number of blocks.
pub record BlockDev (W : Type 0) : Type 0 where
  pub blockdev_read : Option (ℕ → ℕ → ℕ → Memory → W → ℤ × Memory × W)
  pub blockdev_write : Option (ℕ → ℕ → ℕ → Memory → W → ℤ × W)

abbrev pub is_zero : ℤ → Bool
is_zero (pos n) = n == 0
is_zero (negsuc n) = false

-- `-EINVAL` and `-EIO`
abbrev pub einval : ℤ
einval = negsuc 6

abbrev pub eio : ℤ
eio = negsuc 22

module _ {W : Type 0} (blockdev_get : ℕ → BlockDev W) where
  -- The end of blockio_get, by what the driver returned.
  pub loaded : Slabs → ℕ → ℤ × Memory × W → Run (ℕ × Slabs × W)
  loaded s page (err, mem, w) =
      let s1 = record s { mem = mem } in
      if not (is_zero err) then (kfree s1 page >>= λ s2. done (0, s2, w)) else done (page, s1, w)

  pub blockio_get : Slabs → W → ℕ → ℕ → Run (ℕ × Slabs × W)
  blockio_get s w bdev lba = elim ((blockdev_get bdev).blockdev_read) [
    | none ↦ done (0, s, w)
    | some read ↦ do
      (page, s1) ← kmalloc s page_size
      if page == 0 then done (0, s1, w) else (do
        (_, s2) ← page_inc_refcount (page_set_block (page_set_lba s1 page bdev lba) page) page
        let s3 = page_set_valid s2 page
        loaded s3 page (read lba page 1 s3.mem w))
  ]

  pub blockio_sync : Slabs → W → ℕ → ℤ × Slabs × W
  blockio_sync s w page =
      if page == 0
      then (einval, s, w)
      else if not (page_is_dirty s page)
      then (pos 0, s, w)
      else (let (bdev, lba) = page_get_lba s page in
          elim ((blockdev_get bdev).blockdev_write) [
            | none ↦ (eio, s, w)
            | some write ↦
                let (err, w1) = write lba page 1 s.mem w in (err, page_clr_dirty s page, w1)
          ])

  -- The end of blockio_release.
  pub drop_reference : ℤ × Slabs × W → ℕ → Run (ℤ × Slabs × W)
  drop_reference (err, s, w) page = page_dec_refcount s page >>= λ r.
      if r.0 == 0 then (kfree r.1 page >>= λ s3. done (err, s3, w)) else done (err, r.1, w)

  pub blockio_release : Slabs → W → ℕ → Run (ℤ × Slabs × W)
  blockio_release s w page =
      drop_reference
        (if page_get_refcount s page == 1 then blockio_sync s w page else (pos 0, s, w)) page
