-- ===== src/Vfs/Mount/Unregister.antt =====
-- A file system leaves the table.
use ko.Base.{
  ℕ, ◌<◌, ◌≤◌, ◌≡◌, refl, sym, subst, ◌∙◌, true, false, ◌==◌, ltb, leb, if◌then◌else◌, arith,
  Bool-cases, inl, inr, none,
}
use ko.Base.Int.{pos, negsuc}
use ko.Vfs.State.{Vfs, set_superblock}
use ko.Vfs.Mount.{is_null, last_used, vfs_mount_update_max, unregister_at}
use ko.Vfs.Mount.Table.{
  mounted, no_mount, IsTable, sb_get-mounted, last_used-le, last_used-null, last_used-last,
}
use ko.Vfs.Mount.Put.{put, set_all}

module _ {M : Type 0} where
  -- The place is empty, every other shows what it showed, and the superblock that was there has no place.
  pub record IsUnmounted (s : Vfs M) (id : ℕ) (sb : ℕ) (s' : Vfs M) : Type 0 where
    pub returned : sb ≡ (mounted s id).sb
    pub places : (q : ℕ) → mounted s' q ≡ (if q == id then no_mount else mounted s q)
    pub unplaced : (s'.superblock sb).mnt_id ≡ negsuc 0
    pub table : IsTable s'

  module _ (s : Vfs M) (t : IsTable s) (id : ℕ) (l : id < s.mount_max) where
    emptied : Vfs M
    emptied = put s id no_mount

    top : ℕ
    top = last_used emptied s.mount_max

    after : Vfs M
    after =
        set_superblock (record emptied { mount_max = top }) (mounted s id).sb
          (record (s.superblock (mounted s id).sb) { mnt_id = negsuc 0 })

    unregister-after : unregister_at s (pos id) ≡ ((mounted s id).sb, after)
    unfolding unregister_at vfs_mount_update_max after top emptied
    unregister-after =
        let d : ltb id s.mount_max ≡ true = ground arith in
        let e : leb s.mount_max id ≡ false = ground arith in
        rw (sb_get-mounted s id, set_all s id 0 0 none d, e) refl

    empty_null :
        (q : ℕ)
        → q == id ≡ false
        → is_null (emptied.mount_table q).path ≡ is_null (s.mount_table q).path
    unfolding emptied
    empty_null q e = rw e refl

    top_le : top ≤ s.mount_max
    unfolding top
    top_le = last_used-le emptied s.mount_max

    top_null : (q : ℕ) → top ≤ q → q < s.mount_max → is_null (emptied.mount_table q).path ≡ true
    unfolding top
    top_null q a b = last_used-null emptied s.mount_max q a b

    after-mounted : (q : ℕ) → mounted after q ≡ (if q == id then no_mount else mounted s q)
    unfolding after emptied
    after-mounted q = elim (Bool-cases (q == id)) [
      | inl e ↦ elim (Bool-cases (ltb q top)) [ inl f ↦ rw (f, e) refl | inr f ↦ rw (f, e) refl ]
      | inr e ↦ elim (Bool-cases (ltb q top)) [
        | inl f ↦
            let k : top ≤ s.mount_max = top_le in
            let g : ltb q s.mount_max ≡ true = ground arith in rw (f, e, g) refl
        | inr f ↦ elim (Bool-cases (ltb q s.mount_max)) [
          | inr g ↦ rw (f, e, g) refl
          | inl g ↦
              rw (f, e, g)
                (sym (
                  t.holes q (ground arith)
                    (sym (empty_null q e) ∙ top_null q (ground arith) (ground arith))))
        ]
      ]
    ]

    after-IsTable : IsTable after
    unfolding after emptied top
    after-IsTable = record {
      few = omega (arith, t.few, top_le);
      holes = λ q h z. elim (Bool-cases (q == id)) [
        | inl e ↦ rw e refl
        | inr e ↦ rw e (t.holes q (omega (arith, h, top_le)) (sym (empty_null q e) ∙ z))
      ];
      last = λ p. last_used-last emptied s.mount_max p;
    }

    after-unplaced : (after.superblock (mounted s id).sb).mnt_id ≡ negsuc 0
    unfolding after
    after-unplaced =
        let sb = (mounted s id).sb in let own : sb == sb ≡ true = ground arith in rw own refl

    -- What unregister_at does with a place in use.
    pub unregister_at-IsUnmounted : (let r = unregister_at s (pos id) in IsUnmounted s id r.0 r.1)
    unregister_at-IsUnmounted =
        subst (λ (r : ℕ × Vfs M). IsUnmounted s id r.0 r.1) (sym unregister-after)
          (record {
            returned = refl;
            places = after-mounted;
            unplaced = after-unplaced;
            table = after-IsTable;
          })
