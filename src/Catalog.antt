-- ===== src/Catalog.antt =====
-- The service catalogue: backend/domains/vehicles/models.py (VehicleSize), SIZE_MULTIPLIERS of
-- backend/app/db/seed.py, the priced columns of Service and Addon in
-- backend/domains/services_catalog/models.py, and map_body_to_size of
-- backend/infrastructure/nhtsa/client.py. Keys (UUIDs) are only compared, so they are numbers.
mod Tests
use Prim.Native.Char.{code}
use Prim.Native.String.{String}
use mathlib.Core.List.{reverse}
use raycarwash_project.Base.{
  ℕ, ◌+◌, Bool, true, false, ◌&&◌, ◌||◌, Option, none, some, List, [], ◌∷◌, map, leb, ◌==◌,
  if◌then◌else◌,
}
use raycarwash_project.Float.{Double, of_ratio}

pub data VehicleSize : Type 0 where
  small medium large xl : VehicleSize

-- the literals 1.0, 1.2, 1.5 and 2.0
unfoldable pub size_multiplier : VehicleSize → Double
size_multiplier small = of_ratio 1 1
size_multiplier medium = of_ratio 12 10
size_multiplier large = of_ratio 15 10
size_multiplier xl = of_ratio 2 1

pub record Service : Type 0 where
  pub id : ℕ
  pub base_price_cents : ℕ
  pub base_duration_minutes : ℕ
  pub price_small : ℕ
  pub price_medium : ℕ
  pub price_large : ℕ
  pub price_xl : ℕ
  pub is_active : Bool
  pub is_deleted : Bool

pub record Addon : Type 0 where
  pub id : ℕ
  pub price_cents : ℕ
  pub duration_minutes : ℕ
  pub is_active : Bool
  pub is_deleted : Bool

pub record Vehicle : Type 0 where
  pub id : ℕ
  pub owner_id : ℕ
  pub body_class : Option (List ℕ)
  pub is_deleted : Bool

-- The code points of a text.
abbrev pub codes : String → List ℕ
codes String.[] = []
codes (String.◌∷◌ c s) = code c ∷ codes s

-- `str.lower` and `str.strip` on ASCII text, which is what NHTSA returns.
unfoldable pub lower_code : ℕ → ℕ
lower_code c = if leb b'A' c && leb c b'Z' then c + 32 else c

unfoldable pub is_space : ℕ → Bool
is_space c = c == 32 || (leb 9 c && leb c 13) || (leb 28 c && leb c 31)

unfoldable pub lstrip : List ℕ → List ℕ
lstrip [] = []
lstrip (c ∷ s) = elim (is_space c) [ true ↦ lstrip s | false ↦ c ∷ s ]

unfoldable pub strip : List ℕ → List ℕ
unfolding lstrip
strip s = reverse (lstrip (reverse (lstrip s)))

starts : List ℕ → List ℕ → Bool
starts [] s = true
starts (p ∷ ps) [] = false
starts (p ∷ ps) (c ∷ s) = p == c && starts ps s

-- `needle in text`
contains : List ℕ → List ℕ → Bool
contains needle [] = starts needle []
contains needle (c ∷ s) = starts needle (c ∷ s) || contains needle s

unfoldable pub map_body_to_size : Option (List ℕ) → VehicleSize
unfolding lower_code is_space lstrip strip starts contains
map_body_to_size body_class =
    let bc = strip (map lower_code (elim body_class [ none ↦ [] | some s ↦ s ])) in
    if contains (codes "pickup") bc
    then large
    else if contains (codes "utility vehicle") bc
        || contains (codes "suv") bc
        || contains (codes "crossover") bc
        || contains (codes "cuv") bc
    then medium
    else if contains (codes "van") bc || contains (codes "minivan") bc
    then xl
    else small
