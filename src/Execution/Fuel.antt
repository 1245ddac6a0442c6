-- ===== src/Execution/Fuel.antt =====
-- A run that ends on some fuel ends in the same way on more.
use sisop_2012_2c.Shared.{◌≡◌}
use sisop_2012_2c.Shared.Outcome.{Outcome, ok}
use sisop_2012_2c.Doubles.{Doubles}
use sisop_2012_2c.Machine.{Machine}

-- Where the first gives a value, the second gives the same.
record Extends {A : Type 0} (x y : Outcome A) : Type 0 where
  of_ok : (a : A) → x ≡ ok a → y ≡ ok a
