-- ===== src/Blockio/Cycle.antt =====
-- blockio_release after blockio_get.
use ko.Base.{
  ℕ, ◌-◌, ◌^◌, ◌<◌, ◌≡◌, refl, sym, inl, inr, true, false≢true, ◌==◌, arith, ◌∙◌, List, ◌∷◌, some,
}
use ko.Base.Int.{ℤ, pos}
use ko.Base.Run.{Returns, Returns-bind, ◌>>=◌}
use ko.Cstd.Bytes.{Memory}
use ko.Slab.{Slabs, Page, page_of, set_page, page_index}
use ko.Slab.Invariant.{IsSlabs}
use ko.Slab.Accessors.{page_set_dirty}
use ko.Slab.Used.{IsUsedPage}
use ko.Slab.Entry.{entry_changed-IsSlabs, entry_changed-IsUsedPage}
use ko.Blockio.{BlockDev, is_zero, blockio_get, blockio_release}
use ko.Blockio.Pages.{taken_memory}
use ko.Blockio.Get.{IsLoaded, IsGot, blockio_get-IsGot}
use ko.Blockio.Release.{not_one, more_left}

-- The page is still in use and still dirty, and nothing was written.
pub record IsUnwritten {W : Type 0} (w : W) (p : ℕ) (r : ℤ × Slabs × W) : Type 0 where
  pub success : r.0 ≡ pos 0
  pub disk : r.2 ≡ w
  pub used : IsUsedPage r.1 p
  pub dirty : (page_of r.1 p).dirty ≡ true
  pub count : (page_of r.1 p).count ≡ 1

-- A page with a count of 2 that is made dirty.
released_once :
    {W : Type 0} (blockdev_get : ℕ → BlockDev W) (s : Slabs) (w : W) (p bdev lba : ℕ)
    → IsLoaded s p bdev lba
    → Returns (IsUnwritten w p) (blockio_release blockdev_get (page_set_dirty s p) w p)
unfolding page_set_dirty
released_once blockdev_get s w p bdev lba l =
    let q : Page = record (page_of s p) { dirty = true } in
    let s1 : Slabs = set_page s p q in
    let same : page_index s p == page_index s p ≡ true = ground arith in
    let v = entry_changed-IsSlabs s l.slabs p l.used q s.mem in
    let u = entry_changed-IsUsedPage s l.slabs p l.used q s.mem l.used.used l.used.lines in
    let c : (page_of s1 p).count ≡ 2 = rw same l.count in
    let q1 : Page = record (page_of s1 p) { count = (page_of s1 p).count - 1 } in
    let u1 = entry_changed-IsUsedPage s1 v p u q1 s.mem u.used u.lines in
    let e =
      not_one blockdev_get s1 v w p u l.unlisted (rw c refl)
      ∙ more_left blockdev_get s1 v w p u l.unlisted (rw c refl) (rw c refl) in
    rw e (record {
      success = refl;
      disk = refl;
      used = u1;
      dirty = rw same refl;
      count = rw (same, l.count) refl;
    })

-- blockio_get of a block whose driver reads it, then page_set_dirty, then blockio_release by the caller that
-- got the page: blockio_release reports success, but writes nothing to the disk and keeps the page, still
-- dirty, with one reference, since kmalloc counts the page as an object in use too.
pub blockio_release-blockio_get :
    {W : Type 0} (blockdev_get : ℕ → BlockDev W) (s : Slabs) (v : IsSlabs s) (p : ℕ) (ps : List ℕ)
    (free : s.slab 0 ≡ p ∷ ps) (bdev lba : ℕ) (read : ℕ → ℕ → ℕ → Memory → W → ℤ × Memory × W)
    (w : W)
    → (blockdev_get bdev).blockdev_read ≡ some read
    → bdev < 2 ^ 4
    → lba < 2 ^ 32
    → let (err, mem, w1) = read lba p 1 (taken_memory s p ps) w in
      is_zero err ≡ true
      → Returns (IsUnwritten w1 p) (
          blockio_get blockdev_get s w bdev lba >>= λ (a, s1, w2).
          blockio_release blockdev_get (page_set_dirty s1 a) w2 a)
blockio_release-blockio_get {W} blockdev_get s v p ps free bdev lba read w e b l z =
    let r = read lba p 1 (taken_memory s p ps) w in
    Returns-bind (IsGot p bdev lba r) (IsUnwritten r.2 p) (blockio_get blockdev_get s w bdev lba)
      (λ (a, s1, w2). blockio_release blockdev_get (page_set_dirty s1 a) w2 a)
      (blockio_get-IsGot blockdev_get s v p ps free bdev lba read w e b l)
      (λ (a, s1, w2) (g, d). elim g [
        | inr (n, _, _, _) ↦ absurd (false≢true (sym n ∙ z))
        | inl (_, same, loaded, _) ↦
            rw (same, d) (released_once blockdev_get s1 r.2 p bdev lba loaded)
      ])
