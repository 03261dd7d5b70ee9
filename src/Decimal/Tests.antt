-- ===== src/Decimal/Tests.antt =====
-- Prices of the scale 8.
use fandos.Prelude.{refl, pos, negsuc, ◌^◌, ◌-◌}
use fandos.Decimal.Fixed64.{Fixed}
use fandos.Decimal.Fixed64.Refinement.{Refines, fixed-Refines}

abbrev price : Fixed
price = record { unscaled = pos 4200000000; scale = pos 8 }

abbrev least : Fixed
least = record { unscaled = negsuc (2 ^ 63 - 1); scale = pos 8 }

fixed-Refines_example : Refines price least (pos 3)
fixed-Refines_example = fixed-Refines price least refl refl (pos 3)
