-- ===== src/Device.antt =====
-- The list of devices of kernel/kdev.c: its items in order, the oldest first. The list functions act on
-- the ring of such a sequence as the functions on sequences written here do (see DList.Ops).
pub mod Names
pub mod Removal
mod Tests
use ko.Base.{ℕ, ◌+◌, ◌%◌, ◌^◌, Option, none, some, List, [], ◌∷◌, ◌++◌, ◌==◌, ◌&&◌, if◌then◌else◌}

-- `device_t`, with its address.
pub record Device : Type 0 where
  pub at : ℕ
  pub tag : ℕ
  pub minor : ℕ

-- The order of `list_foreach_rev`.
abbrev pub backward : List Device → List Device
backward [] = []
backward (d ∷ ds) = backward ds ++ d ∷ []

-- The loop of `dev_next_minor`, with what it returns at its end.
abbrev pub next_of : (tag otherwise : ℕ) → List Device → ℕ
next_of tag otherwise [] = otherwise
next_of tag otherwise (d ∷ ds) =
    if d.tag == tag then (d.minor + 1) % 2 ^ 32 else next_of tag otherwise ds

pub dev_next_minor : List Device → (tag : ℕ) → ℕ
dev_next_minor devs tag = next_of tag 0 (backward devs)

-- `fresh` is the address that `kmalloc` returns, which panics where there is no memory.
pub dev_alloc : List Device → (tag fresh : ℕ) → Device × List Device
unfolding dev_next_minor
dev_alloc devs tag fresh =
    let dev : Device = record { at = fresh; tag = tag; minor = dev_next_minor devs tag } in
    (dev, devs ++ dev ∷ [])

pub dev_get : List Device → (tag minor : ℕ) → Option Device
dev_get [] tag minor = none
dev_get (d ∷ ds) tag minor =
    if d.tag == tag && d.minor == minor then some d else dev_get ds tag minor

-- `list_unlink` of the device at the address `dev`.
pub dev_free : List Device → (dev : ℕ) → List Device
dev_free [] dev = []
dev_free (d ∷ ds) dev = if d.at == dev then ds else d ∷ dev_free ds dev
