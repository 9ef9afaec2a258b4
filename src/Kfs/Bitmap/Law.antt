-- ===== src/Kfs/Bitmap/Law.antt =====
-- What allocation and release do to the set of the bits in use.
use ko.Base.{
  ℕ, zero, suc, ◌+◌, ◌-◌, ◌/◌, ◌%◌, ◌^◌, ◌<◌, ◌≤◌, ◌≡◌, ◌⊎◌, refl, sym, subst, Bool, true, false,
  ◌==◌, ltb, if◌then◌else◌, arith, Bool-cases, inl, inr,
}
use Prim.Native.Nat.{bit_and}
use ko.Kfs.Bitmap.{Bitmap, set_bit, clear_bit, alloc_loop, kfs_alloc_bitmap, kfs_free_bitmap}
use ko.Kfs.Bitmap.Bits.{bit, bit-set, bit-clear, clear-lt}

-- Whether the bit `i` is set.
abbrev pub used : Bitmap → ℕ → Bool
used b i = bit (b.bytes (i / 8)) (i % 8)

-- All bits before `cur` are set.
pub record IsBitmap (b : Bitmap) : Type 0 where
  pub byte : (i : ℕ) → b.bytes i < 2 ^ 8
  pub cur : b.cur ≤ b.max
  pub max : b.max < 2 ^ 32
  pub before : (i : ℕ) → i < b.cur → used b i ≡ true

same_place : (i j : ℕ) → (i == j) ≡ (if i / 8 == j / 8 then i % 8 == j % 8 else false)
same_place i j = ground arith

module _ (b : Bitmap) (byte : (i : ℕ) → b.bytes i < 2 ^ 8) (i : ℕ) where
  pub used-set_bit : (j : ℕ) → used (set_bit b i) j ≡ (if j == i then true else used b j)
  unfolding set_bit
  used-set_bit j = elim (Bool-cases (j / 8 == i / 8)) [
    | inr e ↦ let f : j == i ≡ false = ground arith in rw (e, f) refl
    | inl e ↦
        let z : i / 8 ≡ j / 8 = ground arith in
        let f : (j == i) ≡ (j % 8 == i % 8) = ground (arith, same_place j i) in
        let law =
          bit-set (b.bytes (j / 8)) (i % 8) (j % 8) (byte (j / 8)) (omega arith) (omega arith) in
        rw (e, f, z) law
  ]

  pub used-clear_bit : (j : ℕ) → used (clear_bit b i) j ≡ (if j == i then false else used b j)
  unfolding clear_bit
  used-clear_bit j = elim (Bool-cases (j / 8 == i / 8)) [
    | inr e ↦ let f : j == i ≡ false = ground arith in rw (e, f) refl
    | inl e ↦
        let z : i / 8 ≡ j / 8 = ground arith in
        let f : (j == i) ≡ (j % 8 == i % 8) = ground (arith, same_place j i) in
        let law =
          bit-clear (b.bytes (j / 8)) (i % 8) (j % 8) (byte (j / 8)) (omega arith) (omega arith) in
        rw (e, f, z) law
  ]

  pub set_bit-byte : (k : ℕ) → (set_bit b i).bytes k < 2 ^ 8
  unfolding set_bit
  set_bit-byte k = ground (arith, byte k)

  pub clear_bit-byte : (k : ℕ) → (clear_bit b i).bytes k < 2 ^ 8
  unfolding clear_bit
  clear_bit-byte k =
      let l = clear-lt (b.bytes (i / 8)) (i % 8) 0 (byte (i / 8)) (omega arith) (omega arith) in
      ground (arith, byte k, l)

-- The lowest free bit is set.
pub record IsFound (b : Bitmap) (r : ℕ) (b' : Bitmap) : Type 0 where
  pub bound : r < b.max
  pub free : used b r ≡ false
  pub lowest : (i : ℕ) → i < r → used b i ≡ true
  pub set : (i : ℕ) → used b' i ≡ (if i == r then true else used b i)
  pub same_max : b'.max ≡ b.max
  pub valid : IsBitmap b'

-- No bit is free.
pub record IsFull (b : Bitmap) (r : ℕ) (b' : Bitmap) : Type 0 where
  pub none : r ≡ 0
  pub full : (i : ℕ) → i < b.max → used b i ≡ true
  pub same : (i : ℕ) → used b' i ≡ used b i
  pub same_max : b'.max ≡ b.max
  pub valid : IsBitmap b'

abbrev pub IsAllocated : Bitmap → ℕ × Bitmap → Type 0
IsAllocated b (r, b') = IsFound b r b' ⊎ IsFull b r b'

kept : (b : Bitmap) (i : ℕ) → (set_bit b i).max ≡ b.max
unfolding set_bit
kept b i = refl

kept_cur : (b : Bitmap) (i : ℕ) → (set_bit b i).cur ≡ b.cur
unfolding set_bit
kept_cur b i = refl

clear_max : (b : Bitmap) (i : ℕ) → (clear_bit b i).max ≡ b.max
unfolding clear_bit
clear_max b i = refl

clear_cur : (b : Bitmap) (i : ℕ) → (clear_bit b i).cur ≡ b.cur
unfolding clear_bit
clear_cur b i = refl

-- The test of the loop.
clear :
    (b : Bitmap)
    → bit_and (b.bytes (b.cur / 8)) (2 ^ (b.cur % 8)) == 0 ≡ true
    → used b b.cur ≡ false
unfolding bit
clear b e = rw e refl

taken :
    (b : Bitmap)
    → bit_and (b.bytes (b.cur / 8)) (2 ^ (b.cur % 8)) == 0 ≡ false
    → used b b.cur ≡ true
unfolding bit
taken b e = rw e refl

next :
    (b : Bitmap)
    → IsBitmap b
    → b.cur < b.max
    → used b b.cur ≡ true
    → IsBitmap (record b { cur = (b.cur + 1) % 2 ^ 32 })
next b v l u = record {
  byte = v.byte;
  cur = omega (arith, l, v.max);
  max = v.max;
  before = λ i h. elim (Bool-cases (i == b.cur)) [
    | inl e ↦ let z : b.cur ≡ i = ground arith in subst (λ j. used b j ≡ true) z u
    | inr e ↦ v.before i (ground (arith, h, v.max))
  ];
}

set_bit-IsFound :
    (b : Bitmap)
    → IsBitmap b
    → b.cur < b.max
    → used b b.cur ≡ false
    → IsFound b b.cur (set_bit b b.cur)
set_bit-IsFound b v l free = record {
  bound = l;
  free = free;
  lowest = v.before;
  set = used-set_bit b v.byte b.cur;
  same_max = max_same;
  valid = record {
    byte = set_bit-byte b v.byte b.cur;
    cur =
        subst (λ c. c ≤ (set_bit b b.cur).max) (sym cur_same)
          (subst (λ m. b.cur ≤ m) (sym max_same) v.cur);
    max = subst (λ m. m < 2 ^ 32) (sym max_same) v.max;
    before = λ i h.
        let l : i < b.cur = subst (λ c. i < c) cur_same h in
        ground (arith, used-set_bit b v.byte b.cur i, v.before i l);
  };
}
  where
    max_same : (set_bit b b.cur).max ≡ b.max
    max_same = kept b b.cur

    cur_same : (set_bit b b.cur).cur ≡ b.cur
    cur_same = kept_cur b b.cur

alloc_loop-IsAllocated :
    (left : ℕ) (b : Bitmap) → IsBitmap b → b.cur + left ≡ b.max → IsAllocated b (alloc_loop left b)
unfolding alloc_loop
alloc_loop-IsAllocated zero b v e = inr (record {
  none = refl;
  full = λ i l. v.before i (omega (arith, e));
  same = λ i. refl;
  same_max = refl;
  valid = v;
})
alloc_loop-IsAllocated (suc left) b v e =
    elim (Bool-cases (bit_and (b.bytes (b.cur / 8)) (2 ^ (b.cur % 8)) == 0)) [
      | inl f ↦ rw f (inl (set_bit-IsFound b v (omega (arith, e)) (clear b f)))
      | inr f ↦
          rw f
            (elim (alloc_loop-IsAllocated left (record b { cur = (b.cur + 1) % 2 ^ 32 })
              (next b v (omega (arith, e)) (taken b f)) (omega (arith, e, v.max))) [
                | inl r ↦ inl (record {
                  bound = r.bound;
                  free = r.free;
                  lowest = r.lowest;
                  set = r.set;
                  same_max = r.same_max;
                  valid = r.valid;
                })
                | inr r ↦ inr (record {
                  none = r.none;
                  full = r.full;
                  same = r.same;
                  same_max = r.same_max;
                  valid = r.valid;
                })
              ])
    ]

-- kfs_alloc_bitmap of a well-formed bitmap sets the lowest bit that was clear, sets no other, and
-- returns its position; or all bits are set, none changes and it returns 0.
pub kfs_alloc_bitmap-IsAllocated : (b : Bitmap) → IsBitmap b → IsAllocated b (kfs_alloc_bitmap b)
unfolding kfs_alloc_bitmap
kfs_alloc_bitmap-IsAllocated b v =
    alloc_loop-IsAllocated ((b.max + 2 ^ 32 - b.cur) % 2 ^ 32) b v (omega (arith, v.cur, v.max))

-- The bit `i` is clear, and no other changes.
pub record IsCleared (b : Bitmap) (i : ℕ) (b' : Bitmap) : Type 0 where
  pub clear : (j : ℕ) → used b' j ≡ (if j == i then false else used b j)
  pub same_max : b'.max ≡ b.max
  pub valid : IsBitmap b'

-- kfs_free_bitmap clears the bit, whether it was set or not, and no other.
pub kfs_free_bitmap-IsCleared :
    (b : Bitmap) (i : ℕ) → IsBitmap b → IsCleared b i (kfs_free_bitmap b i)
unfolding kfs_free_bitmap
kfs_free_bitmap-IsCleared b i v = elim (Bool-cases (ltb i (clear_bit b i).cur)) [
  | inl f ↦ rw f (record {
    clear = used-clear_bit b v.byte i;
    same_max = clear_max b i;
    valid = record {
      byte = clear_bit-byte b v.byte i;
      cur =
          subst (λ m. i ≤ m) (sym (clear_max b i))
            (omega (arith, subst (λ c. i < c) (clear_cur b i) (ground (arith, f)), v.cur));
      max = subst (λ m. m < 2 ^ 32) (sym (clear_max b i)) v.max;
      before = λ j h.
          let less : i < b.cur = subst (λ c. i < c) (clear_cur b i) (ground (arith, f)) in
          ground (arith, used-clear_bit b v.byte i j, v.before j (omega (arith, less, h)));
    };
  })
  | inr f ↦ rw f (record {
    clear = used-clear_bit b v.byte i;
    same_max = clear_max b i;
    valid = record {
      byte = clear_bit-byte b v.byte i;
      cur =
          subst (λ c. c ≤ (clear_bit b i).max) (sym (clear_cur b i))
            (subst (λ m. b.cur ≤ m) (sym (clear_max b i)) v.cur);
      max = subst (λ m. m < 2 ^ 32) (sym (clear_max b i)) v.max;
      before = λ j h.
          let l : j < b.cur = subst (λ c. j < c) (clear_cur b i) h in
          let not_less : ltb i b.cur ≡ false = subst (λ c. ltb i c ≡ false) (clear_cur b i) f in
          ground (arith, used-clear_bit b v.byte i j, v.before j l);
    };
  })
]
