-- ===== src/Kfs/Bitmap.antt =====
-- The allocator of dentries, inodes, file maps and pages (fs/kfs/kfs.c): a bitmap that is read and
-- written by bytes.
pub mod Bits
pub mod Law
use ko.Base.{ℕ, zero, suc, ◌+◌, ◌-◌, ◌/◌, ◌%◌, ◌^◌, Bool, ◌==◌, ltb, if◌then◌else◌, update}
use Prim.Native.Nat.{bit_and, bit_or}

-- A bitmap of the superblock with its `cur` and `max`.
pub record Bitmap : Type 0 where
  pub bytes : ℕ → ℕ
  pub cur : ℕ
  pub max : ℕ

-- `bitmap[i/8] |= (1 << (i%8))`
pub set_bit : Bitmap → ℕ → Bitmap
set_bit b i = record b {
  bytes = update b.bytes (i / 8) (bit_or (b.bytes (i / 8)) (2 ^ (i % 8)) % 2 ^ 8);
}

-- `bitmap[i/8] &= ~(1<<i%8)`
pub clear_bit : Bitmap → ℕ → Bitmap
clear_bit b i = record b {
  bytes = update b.bytes (i / 8) (bit_and (b.bytes (i / 8)) (2 ^ 8 - 1 - 2 ^ (i % 8)));
}

-- The loop of kfs_alloc_bitmap with `left` rounds to go until `*start` is `max`.
pub alloc_loop : ℕ → Bitmap → ℕ × Bitmap
unfolding set_bit
alloc_loop zero b = (0, b)
alloc_loop (suc left) b =
    let rest = alloc_loop left (record b { cur = (b.cur + 1) % 2 ^ 32 }) in
    if bit_and (b.bytes (b.cur / 8)) (2 ^ (b.cur % 8)) == 0 then (b.cur, set_bit b b.cur) else rest

pub kfs_alloc_bitmap : Bitmap → ℕ × Bitmap
unfolding alloc_loop
kfs_alloc_bitmap b = alloc_loop ((b.max + 2 ^ 32 - b.cur) % 2 ^ 32) b

pub kfs_free_bitmap : Bitmap → ℕ → Bitmap
unfolding clear_bit
kfs_free_bitmap b bit =
    let b1 = clear_bit b bit in if ltb bit b1.cur then record b1 { cur = bit } else b1
