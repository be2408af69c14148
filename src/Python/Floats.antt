-- ===== src/Python/Floats.antt =====
-- The floating-point numbers, of which the runners use only how they are read and whether they
-- count as true.
use bpftime_benchmark.Prelude.{Bool, Option}
use bpftime_benchmark.Text.Base.{Text}
use bpftime_benchmark.Text.Scan.{Decimal}

pub record Floats : Type 1 where
  pub Float : Type 0
  -- `float(match.group(1))`.
  pub of_decimal : Decimal → Float
  -- Not zero.
  pub truthy : Float → Bool
  -- `float(s)`, where it does not raise.
  pub of_text : Text → Option Float
