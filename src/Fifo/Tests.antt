-- ===== src/Fifo/Tests.antt =====
-- Runs of the FIFO, and the theorems at a FIFO whose characters go round the end of the array.
use ko.Base.{◌≡◌, refl, [], ◌∷◌, arith, ◌==◌, if◌then◌else◌}
use ko.Fifo.{Fifo, fifo_push}
use ko.Fifo.Queue.{IsFifo, IsPushed, contents, fifo_push-IsPushed}

-- The characters 7 (place 19) and 8 (place 0).
abbrev around : Fifo
around = record { data_at = λ i. if i == 19 then 7 else 8; pt_read = 19; pt_write = 1 }

around-contents : contents (fifo_push around 9).1 ≡ 7 ∷ 8 ∷ 9 ∷ []
unfolding fifo_push
around-contents = refl

around-IsFifo : IsFifo around
around-IsFifo = record { reads = omega arith; writes = omega arith }

fifo_push-IsPushed_example : IsPushed around 9 (fifo_push around 9)
fifo_push-IsPushed_example = fifo_push-IsPushed around 9 around-IsFifo
