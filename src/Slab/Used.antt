-- ===== src/Slab/Used.antt =====
-- Pages and objects that are in use.
use ko.Base.{ℕ, ◌%◌, ◌<◌, ◌≡◌, ◌≢◌, ◌⊎◌}
use ko.Slab.{Slabs, page_free, page_slab, page_size, page_of}
use ko.Slab.Arith.{InRegion}
use ko.Slab.Invariant.{IsObject, Unlisted}

-- A page that is in use as a whole.
pub record IsUsedPage (s : Slabs) (a : ℕ) : Type 0 where
  pub inside : InRegion s a
  pub aligned : a % page_size ≡ 0
  pub used : (page_of s a).type ≢ page_free
  pub lines : (page_of s a).lines ≡ 0

-- A page in use as a whole, or an object.
abbrev pub IsUsedPart : Slabs → ℕ → Type 0
IsUsedPart s a = IsUsedPage s a ⊎ ((i : ℕ) × (0 < i) × (i < s.max_line) × IsObject s i a)

-- No free list has it.
abbrev pub IsUsed : Slabs → ℕ → Type 0
IsUsed s a = IsUsedPart s a × Unlisted s a

pub slab≢free : page_slab ≢ page_free
slab≢free e = cc
