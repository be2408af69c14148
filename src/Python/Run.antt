-- ===== src/Python/Run.antt =====
-- A script's state: its global variables, and the world outside.
use bpftime_benchmark.Python.Exec.{Exec, ok}
use bpftime_benchmark.Python.World.{World}

pub record Run (B : Type 0) (W : World) : Type 0 where
  pub book : B
  pub world : W.State

module _ {B A : Type 0} (W : World) where
  -- An operation of the world leaves the global variables alone.
  unfoldable pub io : Exec W.State A → Exec (Run B W) A
  io m s = let (r, w) = m s.world in (r, record s { world = w })

module _ {B : Type 0} {W : World} where
  -- An assignment to global variables.
  unfoldable pub modify : (B → B) → Exec (Run B W) (Unit {0})
  modify f s = (ok tt, record s { book = f s.book })
