-- ===== src/Heap.antt =====
-- The user heap of ulib/memory.c: blocks one behind the other, each with its header in its first
-- word. Pointers to a header are counted in words of four bytes, as the pointer arithmetic of the
-- code does; the pointer that `malloc` returns is the word behind the header.
pub mod Lines
pub mod Blocks
pub mod Take
pub mod Merge
pub mod Law
pub mod Free
mod Tests
use ko.Base.{
  ℕ, zero, suc, ◌+◌, ◌-◌, ◌*◌, ◌/◌, ◌%◌, ◌^◌, Option, some, none, Bool, true, false, ◌&&◌, ◌||◌,
  not, ◌==◌, ltb, if◌then◌else◌, update,
}
use ko.Base.Run.{Run, done, panic, out_of_fuel, ◌>>=◌, panic_if}
use ko.Errno.{Errno, enomem}

-- `block_info_t`, of which `size` has 24 bits.
pub record Block : Type 0 where
  pub full : Bool
  pub magic : ℕ
  pub size : ℕ

abbrev pub magic_heap : ℕ
magic_heap = 0x5A

-- `struct heap_s`, the headers by address, `CacheLineSize` in bytes and `errno`.
pub record Heap : Type 0 where
  pub info : ℕ → Block
  pub beg : ℕ
  pub end : ℕ
  pub line : ℕ
  pub errno : Option Errno

-- `CEIL (a,b)` on `int`, which rounds to zero, and is read as `unsigned` again.
abbrev pub ceil : ℕ → ℕ → ℕ
ceil a b =
    let x = (a + b - 1) % 2 ^ 32 in
    if ltb x (2 ^ 31) then b * (x / b) else (2 ^ 32 - b * ((2 ^ 32 - x) / b))

-- The size in headers that a request of `size` bytes takes.
abbrev pub needed : ℕ → ℕ → ℕ
needed line size = ceil ((size + 4) % 2 ^ 32) line / 4

-- `LINE_CEIL (p)`
abbrev pub line_ceil : ℕ → ℕ → ℕ
line_ceil line p = ceil (4 * p) line / 4

-- The loop of `try_malloc`.
pub search : ℕ → Heap → (size new : ℕ) → Run ℕ
search zero h size new = out_of_fuel
search (suc fuel) h size new =
    let rest = search fuel h size (new + (h.info new).size) in
    if ltb new h.end && ((h.info new).full || ltb (h.info new).size size) then rest else done new

-- What `try_malloc` does with the block that it has found.
pub take_block : Heap → (size new : ℕ) → Heap
take_block h size new =
    let old = (h.info new).size in
    let oldnext = new + old in
    let newnext = line_ceil h.line (new + size) in
    let h1 = record h { info = update h.info new (record (h.info new) { full = true }) } in
    if newnext == oldnext then h1 else record h1 {
      info =
          update
            (update h1.info new
              (record (h1.info new) { size = (newnext - new) % 2 ^ 24; magic = magic_heap }))
            newnext
            (record { full = false; magic = magic_heap; size = (oldnext - newnext) % 2 ^ 24 });
    }

-- The pointer is 0 where the code returns `NULL`.
pub try_malloc : ℕ → Heap → (size : ℕ) → Run (ℕ × Heap)
unfolding search take_block
try_malloc fuel h size =
    let n = needed h.line size in
    search fuel h n h.beg >>= λ new.
    if ltb new h.end then done (new + 1, take_block h n new) else done (0, h)

-- The inner loop of `merge`: the free blocks behind `ptr` go into it.
pub merge_next : ℕ → Heap → (ptr : ℕ) → Run Heap
merge_next zero h ptr = out_of_fuel
merge_next (suc fuel) h ptr =
    let next = ptr + (h.info ptr).size in
    let rest =
      merge_next fuel
        (record h {
          info =
              update h.info ptr
                (record (h.info ptr) { size = ((h.info ptr).size + (h.info next).size) % 2 ^ 24 });
        })
        ptr in
    if not (next == h.end) && not (h.info next).full then rest else done h

pub merge : ℕ → Heap → (ptr : ℕ) → Run Heap
unfolding merge_next
merge zero h ptr = out_of_fuel
merge (suc fuel) h ptr =
    let next = if (h.info ptr).full then done h else merge_next fuel h ptr in
    let rest = next >>= λ h'. merge fuel h' (ptr + (h'.info ptr).size) in
    if ptr == h.end then done h else rest

pub malloc : ℕ → Heap → (size : ℕ) → Run (ℕ × Heap)
unfolding try_malloc merge
malloc fuel h size = try_malloc fuel h size >>= λ (ptr, h1).
    if not (ptr == 0)
    then done (ptr, h1)
    else (merge fuel h1 h1.beg >>= λ h2. try_malloc fuel h2 size >>= λ (ptr', h3).
        done (ptr', if ptr' == 0 then record h3 { errno = some enomem } else h3))

-- `free` ends the program on a pointer that is no full block.
pub free : Heap → (ptr : ℕ) → Run Heap
free h ptr =
    let info = ptr - 1 in
    panic_if ((ptr == 0) || (not (h.info info).full || not ((h.info info).magic == magic_heap)))
      (done (record h { info = update h.info info (record (h.info info) { full = false }) }))

-- `malloc_init`, given the address that `sbrk` returns, in words. `sbrk` failing ends the program.
pub malloc_init : Heap → (beg : ℕ) → (boundary : Option ℕ) → Run Heap
malloc_init h beg none = panic
malloc_init h beg (some boundary) =
    let words = h.line / 4 in
    let b = words * (beg / words) in
    let e = words * (boundary / words) in
    done (record h {
      beg = b;
      end = e;
      info = update h.info b (record { full = false; magic = magic_heap; size = (e - b) % 2 ^ 24 });
    })
