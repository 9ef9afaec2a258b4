-- ===== src/Slab/Accessors.antt =====
-- The entry of a page in the table of the pages: the accessor functions of kernel/kmemkernel.c.
use ko.Base.{ℕ, ◌+◌, ◌-◌, ◌%◌, ◌^◌, Bool, true, false, ◌==◌}
use ko.Base.Run.{Run, done, panic_if}
use ko.Slab.{Slabs, page_free, page_slab, page_block, page_of, set_page}

unfoldable pub page_set_free : Slabs → ℕ → Slabs
page_set_free s page = set_page s page (record (page_of s page) { type = page_free })

unfoldable pub page_set_block : Slabs → ℕ → Slabs
page_set_block s page = set_page s page (record (page_of s page) { type = page_block })

unfoldable pub page_set_slab : Slabs → ℕ → Slabs
page_set_slab s page = set_page s page (record (page_of s page) { type = page_slab })

unfoldable pub page_set_valid : Slabs → ℕ → Slabs
page_set_valid s page = set_page s page (record (page_of s page) { valid = true })

unfoldable pub page_set_lock : Slabs → ℕ → Slabs
page_set_lock s page = set_page s page (record (page_of s page) { lock = true })

unfoldable pub page_set_dirty : Slabs → ℕ → Slabs
page_set_dirty s page = set_page s page (record (page_of s page) { dirty = true })

unfoldable pub page_clr_valid : Slabs → ℕ → Slabs
page_clr_valid s page = set_page s page (record (page_of s page) { valid = false })

unfoldable pub page_clr_lock : Slabs → ℕ → Slabs
page_clr_lock s page = set_page s page (record (page_of s page) { lock = false })

unfoldable pub page_clr_dirty : Slabs → ℕ → Slabs
page_clr_dirty s page = set_page s page (record (page_of s page) { dirty = false })

unfoldable pub page_is_dirty : Slabs → ℕ → Bool
page_is_dirty s page = (page_of s page).dirty

unfoldable pub page_get_refcount : Slabs → ℕ → ℕ
page_get_refcount s page = (page_of s page).count

unfoldable pub page_inc_refcount : Slabs → ℕ → Run (ℕ × Slabs)
page_inc_refcount s page =
    let refcount = (page_of s page).count in
    panic_if (refcount == 255) (
      done (
        (refcount + 1) % 2 ^ 8,
        set_page s page (record (page_of s page) { count = (refcount + 1) % 2 ^ 8 }),
      ))

unfoldable pub page_dec_refcount : Slabs → ℕ → Run (ℕ × Slabs)
page_dec_refcount s page =
    let refcount = (page_of s page).count in
    panic_if (refcount == 0)
      (done (refcount - 1, set_page s page (record (page_of s page) { count = refcount - 1 })))

unfoldable pub page_set_lba : Slabs → ℕ → ℕ → ℕ → Slabs
page_set_lba s page bdev lba =
    set_page s page (record (page_of s page) { bdev = bdev % 2 ^ 4; lba = lba % 2 ^ 32 })

-- `*bdev` and `*lba`
unfoldable pub page_get_lba : Slabs → ℕ → ℕ × ℕ
page_get_lba s page = ((page_of s page).bdev, (page_of s page).lba)
