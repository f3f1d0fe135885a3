-- ===== src/Config/Units/Rates.antt =====
-- The round trip of a rate between `UnmarshalText` and `String`.
use orbit_depot_prototype.Base.Text.{Text}
