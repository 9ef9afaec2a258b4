-- ===== src/Radix/Sharing.antt =====
-- What goes wrong in radix_set of common/radix.c: a leaf that two indexes share.
use ko.Base.{ℕ, ◌≤◌, ◌<◌, ◌≡◌, ◌≢◌, ◌∙◌, refl, false, true, some, List, ◌∷◌, arith, ltb}
use ko.Radix.{
  Radix, l1, l2, l3, radix_get, radix_set, put_l1, put_l2, put_l3, child_of, top_l1, set_root_l2,
  set_root_l3, write,
}
use ko.Radix.Steps.{allocated, top_l1-present, child_of-present, child_of-fresh, bind_some}

-- Where the node of level 2 exists and the leaf does not, `radix_set` at an index of three levels with
-- L2(index) = 0 succeeds and the new leaf becomes `root_l3` too: the element at L3(index), which is
-- another index, reads the new value, whatever it was before.
pub radix_set-overwrites :
    (rx : Radix) (index val n : ℕ) (ns : List ℕ)
    → 0x10000 ≤ index
    → index < 0x1000000
    → l2 index ≡ 0
    → rx.root_l1 ≢ 0
    → rx.slots rx.root_l1 (l1 index) ≢ 0
    → rx.slots (rx.slots rx.root_l1 (l1 index)) 0 ≡ 0
    → rx.supply ≡ n ∷ ns
    → n ≢ 0
    → ((radix_set rx index val).0 ≡ some tt)
      × (l3 index ≢ index)
      × (radix_get (radix_set rx index val).1 (l3 index) ≡ val)
unfolding radix_set put_l1 put_l2 put_l3 radix_get
radix_set-overwrites rx index val n ns lo hi z r1 c1 c2 su nn =
    let m1 = rx.root_l1 in
    let m2 = rx.slots m1 (l1 index) in
    let a : ltb index 0x100 ≡ false = ground arith in
    let b : ltb index 0x10000 ≡ false = ground arith in
    let c : ltb index 0x1000000 ≡ true = ground arith in
    let low : ltb (l3 index) 0x100 ≡ true = ground arith in
    let twice : l3 (l3 index) ≡ l3 index = omega arith in
    let linked = set_root_l3 n (write m2 0 n (allocated rx n ns)) in
    let last : child_of set_root_l3 m2 (l2 index) rx ≡ (some n, linked) =
      rw z (child_of-fresh set_root_l3 m2 0 n ns rx c2 su) in
    let run : radix_set rx index val ≡ (some tt, write n (l3 index) val linked) =
      rw (a, b, c)
        (bind_some top_l1 (put_l1 index val) rx (top_l1-present rx r1)
          ∙ bind_some (child_of set_root_l2 m1 (l1 index)) (put_l2 index val) rx
              (child_of-present set_root_l2 m1 (l1 index) rx c1)
          ∙ bind_some (child_of set_root_l3 m2 (l2 index)) (put_l3 index val) rx last) in
    rw run (refl, ground arith, rw (low, twice) (ground arith))
