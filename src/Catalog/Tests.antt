-- ===== src/Catalog/Tests.antt =====
-- Runs of map_body_to_size on the body classes that its comment lists.
use raycarwash_project.Base.{◌≡◌, refl, none, some}
use raycarwash_project.Catalog.{small, medium, large, xl, codes, map_body_to_size}

pickup_is_large : map_body_to_size (some (codes " Pickup ")) ≡ large
unfolding map_body_to_size
pickup_is_large = refl

suv_is_medium : map_body_to_size (some (codes "Sport Utility Vehicle (SUV)")) ≡ medium
unfolding map_body_to_size
suv_is_medium = refl

minivan_is_xl : map_body_to_size (some (codes "Minivan")) ≡ xl
unfolding map_body_to_size
minivan_is_xl = refl

unknown_is_small : map_body_to_size none ≡ small
unfolding map_body_to_size
unknown_is_small = refl
