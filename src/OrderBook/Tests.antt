-- ===== src/OrderBook/Tests.antt =====
-- Three levels of asks, one without quantity.
use fandos.Prelude.{◌≡◌, refl, ℤ, pos, List, [], ◌∷◌, ◌+ℤ◌, ◌-ℤ◌, ◌*ℤ◌}
use fandos.Decimal.Example.{integers}
use fandos.OrderBook.{
  PriceLevel, vwap_buy, vwap_sell, walk, walked, walk_levels, take_level, check_depth_sufficient,
}
use fandos.OrderBook.Laws.{IsFill, vwap-IsFill}
use fandos.OrderBook.Depth.{check_depth_sufficient-vwap}

abbrev level : ℤ → ℤ → PriceLevel ℤ
level price qty = record { price = price; qty = qty }

abbrev asks : List (PriceLevel ℤ)
asks = level (pos 100) (pos 2) ∷ level (pos 101) (pos 0) ∷ level (pos 104) (pos 5) ∷ []

-- 2 at 100 and 2 at 104.
average : (vwap_buy integers asks (pos 4)).vwap ≡ pos 102
unfolding vwap_buy walk walked walk_levels take_level ◌+ℤ◌ ◌-ℤ◌ ◌*ℤ◌
average = refl

vwap-IsFill_example :
    IsFill integers (pos 100) (pos 104) (pos 4) (vwap_buy integers asks (pos 4))
    × IsFill integers (pos 100) (pos 104) (pos 4) (vwap_sell integers asks (pos 4))
vwap-IsFill_example =
    vwap-IsFill integers (pos 100) (pos 104) (pos 4) asks tt tt refl
      ((refl, refl), ((refl, refl), ((refl, refl), tt)))

check_depth_sufficient-vwap_example :
    (check_depth_sufficient integers asks (pos 4) ≡ (vwap_buy integers asks (pos 4)).fully_filled)
    × (check_depth_sufficient integers asks (pos 4)
        ≡ (vwap_sell integers asks (pos 4)).fully_filled)
check_depth_sufficient-vwap_example =
    check_depth_sufficient-vwap integers asks (pos 4) refl (refl, (refl, (refl, tt)))
