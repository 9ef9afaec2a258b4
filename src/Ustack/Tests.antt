-- ===== src/Ustack/Tests.antt =====
-- Runs of the user stacks, and the theorems at a region of three stacks, the middle one free.
use ko.Base.{◌≡◌, [], ◌∷◌, arith, refl}
use ko.Base.Run.{Returns}
use ko.Ustack.{UserMem, magic_stack, free_ustack, shrink, shrink_links}
use ko.Ustack.Region.{IsRegion, IsFreed, free_ustack-IsFreed}

abbrev three : UserMem
three = record {
  root = 64;
  ustack_beg = 81920;
  ustack_end = 32768;
  uheap_end = 100;
  word = λ _. magic_stack;
  free_stacks = 49152 ∷ [];
}

three-IsRegion : IsRegion three
three-IsRegion = record {
  whole = refl;
  below = omega arith;
  small = omega arith;
  near = omega arith;
  sorted = (omega arith, refl, omega arith, tt);
}

-- The lowest stack goes, and the free one above it with it.
shrinks : Returns (λ s. s.ustack_end ≡ 65536) (free_ustack three 49151)
unfolding free_ustack shrink shrink_links
shrinks = refl

free_ustack-IsFreed_example : Returns (IsFreed three 32768) (free_ustack three 49151)
free_ustack-IsFreed_example = free_ustack-IsFreed three 32768 three-IsRegion refl refl refl
