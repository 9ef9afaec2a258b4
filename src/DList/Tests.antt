-- ===== src/DList/Tests.antt =====
-- Runs of the list functions, and the theorems at a ring of two items.
use ko.Base.{◌≡◌, refl, [], ◌∷◌, update}
use ko.DList.{Links, list_init, list_addfirst, list_addlast, list_unlink}
use ko.DList.Ring.{IsRing}
use ko.DList.Ops.{list_unlink-IsRing}

-- Root 10 with the items 20 and 40.
abbrev two : Links
two = record {
  next = update (update (update (λ _. 0) 10 20) 20 40) 40 10;
  prev = update (update (update (λ _. 0) 10 40) 20 10) 40 20;
}

two-IsRing : IsRing two 10 (20 ∷ 40 ∷ [])
two-IsRing = record {
  linked = (refl, refl, (refl, refl, (refl, refl)));
  distinct = (refl, (refl, (refl, tt)));
  addressed = refl;
}

built : (list_addfirst (list_addlast (list_init two 10) 10 40) 10 20).next 10 ≡ 20
unfolding list_addfirst list_addlast list_init
built = refl

list_unlink-IsRing_example : IsRing (list_unlink two 20) 10 (40 ∷ [])
list_unlink-IsRing_example = list_unlink-IsRing 10 [] 20 (40 ∷ []) two-IsRing
