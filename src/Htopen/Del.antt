-- ===== src/Htopen/Del.antt =====
-- What hto_del does to the pairs of a table.
use ko.Base.{ℕ, ◌≡◌, Bool, true, false}
use ko.Base.Run.{Run, done, panic}
use ko.Htopen.{Key, Table, frees}
use ko.Htopen.Change.{Holds, Lacks, IsRemoved}

-- What hto_del does: it returns 0 and the same table for a key that is not there, and otherwise the value
-- of the key with a table that has lost the key, or it ends the program where the key cannot be freed.
pub data IsDeleted (object : ℕ → Bool) (ht : Table) (key : Key) (r : Run (ℕ × Table)) : Type 0 where
  missing : Lacks ht key → r ≡ done (0, ht) → IsDeleted object ht key r
  deleted :
      (v : ℕ) (ht' : Table)
      → Holds ht key v
      → frees object key ≡ true
      → IsRemoved ht key ht'
      → r ≡ done (v, ht')
      → IsDeleted object ht key r
  stopped :
      (v : ℕ) → Holds ht key v → frees object key ≡ false → r ≡ panic → IsDeleted object ht key r
