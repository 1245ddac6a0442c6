-- ===== src/Doubles.antt =====
-- C's `double`, which the scheduler compares and the dispatcher averages: a parameter with the two
-- properties of `>` that IEEE 754 gives, NaN included.
use sisop_2012_2c.Shared.{◌≡◌, Bool, true, false}
use sisop_2012_2c.Shared.Int.{ℤ}

pub record Doubles (D : Type 0) : Type 0 where
  pub gt : D → D → Bool
  pub of_int : ℤ → D
  pub add : D → D → D
  pub sub : D → D → D
  pub mul : D → D → D
  pub gt_asymm : (x y : D) → gt x y ≡ true → gt y x ≡ false
  pub gt_trans : (x y z : D) → gt x y ≡ true → gt y z ≡ true → gt x z ≡ true
