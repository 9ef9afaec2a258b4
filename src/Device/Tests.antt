-- ===== src/Device/Tests.antt =====
-- Runs of the device list, and the theorems at a list of two terminals and a disk.
use ko.Base.{◌≡◌, List, [], ◌∷◌, refl, arith}
use ko.Device.{Device, dev_alloc, dev_next_minor}
use ko.Device.Names.{IsOrdered, IsListed, dev_alloc-IsListed}

abbrev tty1 : Device
tty1 = record { at = 300; tag = 2; minor = 1 }

abbrev three : List Device
three =
    record { at = 100; tag = 2; minor = 0 } ∷ record { at = 200; tag = 5; minor = 0 } ∷ tty1 ∷ []

three-IsOrdered : IsOrdered three
three-IsOrdered = ground arith

third : (dev_alloc three 2 400).0.minor ≡ 2
unfolding dev_alloc dev_next_minor
third = refl

dev_alloc-IsListed_example : IsListed three 2 400 (dev_alloc three 2 400)
unfolding dev_next_minor
dev_alloc-IsListed_example = dev_alloc-IsListed three 2 400 three-IsOrdered (omega arith)
