-- ===== src/Allocation/Tests.antt =====
-- Two requests for the same exchange, of which the second meets its limit.
use native.Mathlib.Nat.{div-mul-le_self}
use fandos.Prelude.{ℤ, pos, negsuc, refl, All, [], ◌∷◌, arith, ◌*ℤ◌, ◌+ℤ◌}
use fandos.Decimal.Example.{integers}
use fandos.Allocation.{CandidateRequest, Limits, allocate}
use fandos.Allocation.Plans.{IsWithin, IsCheap, allocate-IsWithin}
use fandos.Allocation.Grants.{IsNear}

abbrev first : CandidateRequest ℤ
first = record {
  id = "a";
  asset = "BTC";
  long_exchange = "okx";
  short_exchange = "gate";
  composite_score = pos 7;
  desired_qty = pos 5;
  notional_per_unit = pos 10;
}

abbrev second : CandidateRequest ℤ
second = record first { id = "b"; asset = "ETH"; short_exchange = "mexc"; composite_score = pos 9 }

abbrev limits : Limits ℤ
limits = record {
  max_exposure = ("okx", pos 80) ∷ [];
  current_exposure = ("okx", pos 5) ∷ [];
  max_correlated = ("BTC", pos 40) ∷ [];
  current_correlated = [];
  total_budget = pos 200;
  current_total = pos 5;
}

-- The quotient of integers does not go up at all.
near : IsNear integers (pos 1)
unfolding ◌*ℤ◌ ◌+ℤ◌
near (pos m) (pos n) ha hu h = ground (arith, div-mul-le_self m n)
near (negsuc m) u ha hu h = ground arith
near (pos m) (negsuc n) ha hu h = ground arith

cheap : All (IsCheap integers (pos 10) (pos 1)) (first ∷ second ∷ [])
unfolding ◌*ℤ◌
cheap = (refl, (refl, tt))

allocate-IsWithin_example :
    IsWithin integers (pos 10) limits "okx" "BTC" (allocate integers (first ∷ second ∷ []) limits)
allocate-IsWithin_example =
    allocate-IsWithin integers (pos 10) limits "okx" "BTC" (pos 1) near (first ∷ second ∷ []) cheap
