-- ===== src/Tests/Members.antt =====
-- src/engine/dim_cache.rs at one dimension with two levels.
use mallard_cube.Prelude.{ℕ, true, false, none, [], ◌∷◌, ◌==◌, if◌then◌else◌, Text, codes}
use mallard_cube.Engine.DimCache.{DimMembers, Dimension, Backend, build, DimCache, store_built}

abbrev date_dimension : Text → Dimension
date_dimension id = record {
  id = id;
  physical_field = codes "d";
  columns = codes "y" ∷ codes "m" ∷ [];
}

abbrev dates : Text → Text
dates id = codes "dates"

-- The first epoch has one month, the second two.
abbrev data_at : ℕ → Backend
data_at epoch query =
    if epoch == 1 then codes "2024|1" ∷ [] else codes "2024|1" ∷ codes "2025|1" ∷ []

abbrev dim_at : Dimension
dim_at = date_dimension (codes "Date")

abbrev built_by : Backend → DimMembers
built_by query = build query dim_at (codes "dates") []

-- A dictionary of the first epoch, and one of a failed query that is not kept.
abbrev one_kept : DimCache
one_kept = store_built (1, codes "Date", none) (built_by (data_at 1)) false []

abbrev one_lost : DimCache
one_lost = store_built (2, codes "Date", none) (built_by (λ query. [])) true one_kept
