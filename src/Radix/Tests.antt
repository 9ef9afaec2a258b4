-- ===== src/Radix/Tests.antt =====
-- Runs of the radix tree.
use ko.Base.{ℕ, ◌≡◌, refl, List, [], ◌∷◌, arith, ◌==◌, if◌then◌else◌}
use ko.Radix.{Radix, radix_create, radix_get, radix_set}
use ko.Radix.Tree.{AreFresh}
use ko.Radix.Put.{Ends}
use ko.Radix.Law.{IsWritten, IsRefused, radix_create-IsTable, radix_set-IsWritten}

abbrev nodes : List ℕ
nodes = 10 ∷ 20 ∷ 30 ∷ 40 ∷ 50 ∷ 60 ∷ 70 ∷ []

abbrev empty : Radix
empty = radix_create nodes

read_back : radix_get (radix_set (radix_set empty 5 77).1 0x1234 88).1 0x1234 ≡ 88
unfolding radix_get radix_set radix_create
read_back = refl

lost : radix_get (radix_set (radix_set empty 5 77).1 0x10005 88).1 5 ≡ 88
unfolding radix_get radix_set radix_create
lost = refl

-- The nodes 10 (level 1) and 20 (level 2, for the indexes from 0x10000 on) exist.
abbrev middle : Radix
middle = record {
  root_l0 = 0;
  root_l1 = 10;
  root_l2 = 0;
  root_l3 = 0;
  slots = λ n c. if n == 10 then (if c == 1 then 20 else 0) else 0;
  supply = 30 ∷ [];
}

nodes-AreFresh : AreFresh (λ _. 0) nodes
nodes-AreFresh = ground arith

radix_set-IsWritten_example :
    Ends
      (λ _. IsWritten (radix_create nodes) 0x1234567 88)
      (IsRefused (radix_create nodes))
      (radix_set (radix_create nodes) 0x1234567 88)
radix_set-IsWritten_example =
    radix_set-IsWritten (radix_create nodes) 0x1234567 88
      (radix_create-IsTable nodes nodes-AreFresh).0 (omega arith) (ground arith)
