-- ===== src/Fifo.antt =====
-- The character FIFO of kernel/klibc.c between an interrupt routine of a terminal and its reader.
pub mod Queue
mod Tests
use ko.Base.{ℕ, ◌+◌, ◌%◌, ◌==◌, if◌then◌else◌, not, update}
use ko.Errno.{Errno, success, failure}

abbrev pub fifo_depth : ℕ
fifo_depth = 20

-- `struct fifo_s`
pub record Fifo : Type 0 where
  pub data_at : ℕ → ℕ
  pub pt_read : ℕ
  pub pt_write : ℕ

pub fifo_push : Fifo → ℕ → Errno × Fifo
fifo_push fifo c =
    let pt_write_next = (fifo.pt_write + 1) % fifo_depth in
    if not (pt_write_next == fifo.pt_read)
    then (
      success,
      record fifo { data_at = update fifo.data_at fifo.pt_write c; pt_write = pt_write_next },
    )
    else (failure, fifo)

-- `c` is what `*c` holds before the call, and comes back as what it holds after.
pub fifo_pull : Fifo → ℕ → Errno × ℕ × Fifo
fifo_pull fifo c =
    if not (fifo.pt_read == fifo.pt_write)
    then (
      success,
      fifo.data_at fifo.pt_read,
      record fifo { pt_read = (fifo.pt_read + 1) % fifo_depth },
    )
    else (failure, c, fifo)
