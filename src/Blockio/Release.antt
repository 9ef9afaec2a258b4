-- ===== src/Blockio/Release.antt =====
-- What blockio_release does with a page.
use ko.Base.{
  ℕ, ◌-◌, ◌≤◌, ◌≡◌, ◌≢◌, ◌⊎◌, refl, true, false, ◌==◌, arith, inl, inr, ◌∙◌, subst, ap, has, Option,
  none, some, Bool-cases, if◌then◌else◌,
}
use ko.Base.Int.{ℤ, pos}
use ko.Base.Run.{Run, done, panic, Returns, Returns-bind, ◌>>=◌}
use ko.Cstd.Bytes.{Memory}
use ko.Slab.{Slabs, Page, page_free, page_of, set_page, page_index, page_start, kfree}
use ko.Slab.Accessors.{
  page_get_refcount, page_dec_refcount, page_is_dirty, page_get_lba, page_clr_dirty,
}
use ko.Slab.Invariant.{IsSlabs, Unlisted}
use ko.Slab.Used.{IsUsedPage}
use ko.Slab.Entry.{set_page-modify, entry_changed-IsSlabs, entry_changed-IsUsedPage}
use ko.Slab.Kfree.{IsFreed, kfree-IsFreed}
use ko.Blockio.{BlockDev, eio, blockio_sync, drop_reference, blockio_release}

module _ {W : Type 0} (blockdev_get : ℕ → BlockDev W) where
  -- What the disk and the caller get: nothing from a page that is not dirty, and else what the driver does.
  abbrev pub flushed : Slabs → W → ℕ → ℤ × W
  flushed s w p =
      if (page_of s p).dirty
      then (elim ((blockdev_get (page_of s p).bdev).blockdev_write) [
        | none ↦ (eio, w)
        | some write ↦ write (page_of s p).lba p 1 s.mem w
      ])
      else (pos 0, w)

  -- A page with no reference, with one, and with more.
  abbrev pub IsReleased : Slabs → W → ℕ → Run (ℤ × Slabs × W) → Type 0
  IsReleased s w p r =
      ((page_of s p).count ≡ 0) × (r ≡ panic)
      ⊎ ((page_of s p).count ≡ 1)
        × Returns
            (λ (err, s', w'). IsSlabs s' × (has p (s'.slab 0) ≡ true) × ((err, w') ≡ flushed s w p))
            r
      ⊎ (2 ≤ (page_of s p).count)
        × (r
            ≡ done
                (pos 0, set_page s p (record (page_of s p) { count = (page_of s p).count - 1 }), w))

  module _ (s : Slabs) (v : IsSlabs s) (w : W) (p : ℕ) (u : IsUsedPage s p)
      (unlisted : Unlisted s p) where
    freed :
        (q : Page) (x : ℤ × W)
        → q.type ≢ page_free
        → q.lines ≡ 0
        → x ≡ flushed s w p
        → Returns
            (λ (err, s', w'). IsSlabs s' × (has p (s'.slab 0) ≡ true) × ((err, w') ≡ flushed s w p))
            (kfree (set_page s p q) p >>= λ s3. done (x.0, s3, x.1))
    freed q x t l e =
        let used = entry_changed-IsUsedPage s v p u q s.mem t l in
        Returns-bind (IsFreed (set_page s p q) p)
          (λ (err, s', w'). IsSlabs s' × (has p (s'.slab 0) ≡ true) × ((err, w') ≡ flushed s w p))
          (kfree (set_page s p q) p) (λ s3. done (x.0, s3, x.1))
          (kfree-IsFreed (set_page s p q) (entry_changed-IsSlabs s v p u q s.mem) p
            (inl used, unlisted))
          (λ s3 f. (f.slabs, listed s3 used f, e))
      where
        listed :
            (s3 : Slabs)
            → IsUsedPage (set_page s p q) p
            → IsFreed (set_page s p q) p s3
            → has p (s3.slab 0) ≡ true
        listed s3 used f = elim f.back [
          | inl (n, _) ↦ absurd (n used.lines)
          | inr (h, _) ↦
              let e : page_start p ≡ p = omega (arith, used.aligned) in
              subst (λ a. has a (s3.slab 0) ≡ true) e h
        ]

    drop_last :
        (q : Page) (s1 : Slabs) (x : ℤ × W)
        → q.type ≢ page_free
        → q.lines ≡ 0
        → x ≡ flushed s w p
        → page_dec_refcount s1 p ≡ done (0, set_page s p q)
        → Returns
            (λ (err, s', w'). IsSlabs s' × (has p (s'.slab 0) ≡ true) × ((err, w') ≡ flushed s w p))
            (drop_reference blockdev_get (x.0, s1, x.1) p)
    unfolding drop_reference
    drop_last q s1 x t l e d = rw d (freed q x t l e)

    not_null : p == 0 ≡ false
    not_null = ground (arith, v.region.start, u.inside.0)

    abbrev SameState : Type 0
    SameState = blockio_sync blockdev_get s w p ≡ ((flushed s w p).0, s, (flushed s w p).1)

    sync-clean : (page_of s p).dirty ≡ false → SameState
    unfolding blockio_sync page_is_dirty
    sync-clean d = rw (not_null, d) refl

    sync-none :
        (page_of s p).dirty ≡ true
        → (blockdev_get (page_of s p).bdev).blockdev_write ≡ none
        → SameState
    unfolding blockio_sync page_is_dirty page_get_lba
    sync-none d e = rw (not_null, d, e) refl

    sync-write :
        (write : ℕ → ℕ → ℕ → Memory → W → ℤ × W)
        → (page_of s p).dirty ≡ true
        → (blockdev_get (page_of s p).bdev).blockdev_write ≡ some write
        → blockio_sync blockdev_get s w p
          ≡ ((flushed s w p).0, page_clr_dirty s p, (flushed s w p).1)
    unfolding blockio_sync page_is_dirty page_get_lba
    sync-write write d e = rw (not_null, d, e) refl

    abbrev empty_entry : Page
    empty_entry = record (page_of s p) { count = 0 }

    abbrev clean_entry : Page
    clean_entry = record (page_of s p) { dirty = false }

    dec-same : (page_of s p).count ≡ 1 → page_dec_refcount s p ≡ done (0, set_page s p empty_entry)
    unfolding page_dec_refcount
    dec-same c = rw c refl

    dec-clean :
        (page_of s p).count ≡ 1
        → page_dec_refcount (page_clr_dirty s p) p
          ≡ done (0, set_page s p (record clean_entry { count = 0 }))
    unfolding page_dec_refcount page_clr_dirty
    dec-clean c =
        let same : page_index s p == page_index s p ≡ true = ground arith in
        let one : (page_of (set_page s p clean_entry) p).count ≡ 1 = rw same c in
        rw one
          (ap (λ x. done (0, x)) (set_page-modify s p clean_entry (λ q. record q { count = 0 })))

    last :
        (page_of s p).count ≡ 1
        → Returns
            (λ (err, s', w'). IsSlabs s' × (has p (s'.slab 0) ≡ true) × ((err, w') ≡ flushed s w p))
            (drop_reference blockdev_get (blockio_sync blockdev_get s w p) p)
    last c = elim (Bool-cases ((page_of s p).dirty)) [
      | inr d ↦
          rw (sync-clean d)
            (drop_last empty_entry s (flushed s w p) u.used u.lines refl (dec-same c))
      | inl d ↦ written d ((blockdev_get (page_of s p).bdev).blockdev_write) refl
    ]
      where
        written :
            (page_of s p).dirty ≡ true
            → (f : Option (ℕ → ℕ → ℕ → Memory → W → ℤ × W))
            → (blockdev_get (page_of s p).bdev).blockdev_write ≡ f
            → Returns
                (λ (err, s', w').
                  IsSlabs s' × (has p (s'.slab 0) ≡ true) × ((err, w') ≡ flushed s w p))
                (drop_reference blockdev_get (blockio_sync blockdev_get s w p) p)
        written d none e =
            rw (sync-none d e)
              (drop_last empty_entry s (flushed s w p) u.used u.lines refl (dec-same c))
        written d (some write) e = rw (sync-write write d e) (
            drop_last (record clean_entry { count = 0 }) (page_clr_dirty s p) (flushed s w p) u.used
              u.lines refl (dec-clean c))

    -- The test of blockio_release.
    pub one :
        (page_of s p).count == 1 ≡ true
        → blockio_release blockdev_get s w p
          ≡ drop_reference blockdev_get (blockio_sync blockdev_get s w p) p
    unfolding blockio_release page_get_refcount
    one e = rw e refl

    pub not_one :
        (page_of s p).count == 1 ≡ false
        → blockio_release blockdev_get s w p ≡ drop_reference blockdev_get (pos 0, s, w) p
    unfolding blockio_release page_get_refcount
    not_one e = rw e refl

    none_left : (page_of s p).count ≡ 0 → drop_reference blockdev_get (pos 0, s, w) p ≡ panic
    unfolding drop_reference page_dec_refcount
    none_left e = rw e refl

    pub more_left :
        (page_of s p).count == 0 ≡ false
        → (page_of s p).count - 1 == 0 ≡ false
        → drop_reference blockdev_get (pos 0, s, w) p
          ≡ done (pos 0, set_page s p (record (page_of s p) { count = (page_of s p).count - 1 }), w)
    unfolding drop_reference page_dec_refcount
    more_left e f = rw (e, f) refl

  -- blockio_release of a page in use panics if its reference count is 0, and else returns. If the count
  -- is 1, the block is written through the driver where the page is dirty, the caller gets the driver's
  -- result, and the page is free. If the count is 2 or more, the count is one less and nothing else changes.
  pub blockio_release-IsReleased :
      (s : Slabs) (v : IsSlabs s) (w : W) (p : ℕ)
      → IsUsedPage s p
      → Unlisted s p
      → IsReleased s w p (blockio_release blockdev_get s w p)
  blockio_release-IsReleased s v w p u unlisted = elim (Bool-cases ((page_of s p).count == 0)) [
    | inl e ↦
        let z : (page_of s p).count ≡ 0 = ground arith in
        inl (z, not_one s v w p u unlisted (rw z refl) ∙ none_left s v w p u unlisted z)
    | inr e ↦ elim (Bool-cases ((page_of s p).count == 1)) [
      | inl f ↦
          let z : (page_of s p).count ≡ 1 = ground arith in
          inr (inl (z, rw (one s v w p u unlisted f) (last s v w p u unlisted z)))
      | inr f ↦
          let more : 2 ≤ (page_of s p).count = ground arith in
          let g : (page_of s p).count - 1 == 0 ≡ false = ground arith in
          inr (inr (more, not_one s v w p u unlisted f ∙ more_left s v w p u unlisted e g))
    ]
  ]
