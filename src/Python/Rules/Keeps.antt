-- ===== src/Python/Rules/Keeps.antt =====
-- Invariants of the global variables: they hold after an action that returns and after one that
-- raises.
use bpftime_benchmark.Prelude.{ℕ, zero, suc, ◌+◌, Bool, true, false, List, [], ◌∷◌, if◌then◌else◌}
use bpftime_benchmark.Text.Base.{Text}
use bpftime_benchmark.Python.Exec.{
  Exn, timeout_expired, error, keyboard_interrupt, system_exit, Result, ok, raised, Exec, pure,
  raise, gets, try_except, on_exception, on_timeout, try_finally, continue, recover, ◌>>=◌,
  for_range, repeat, for_each,
}
use bpftime_benchmark.Python.World.{World}
use bpftime_benchmark.Python.Run.{Run, io, modify}

pub record Keeps {B A : Type 0} {W : World} (P : B → Type 0) (m : Exec (Run B W) A) : Type 0 where
  pub at : (s : Run B W) → P s.book → P (m s).1.book

module _ {B A : Type 0} {W : World} {P : B → Type 0} where
  pub Keeps-pure : (a : A) → Keeps {W = W} P (pure a)
  unfolding pure
  Keeps-pure a = record { at = λ s h. h }

  pub Keeps-raise : (e : Exn) → Keeps {A = A} {W = W} P (raise e)
  unfolding raise
  Keeps-raise e = record { at = λ s h. h }

  pub Keeps-gets : (f : Run B W → A) → Keeps P (gets f)
  unfolding gets
  Keeps-gets f = record { at = λ s h. h }

  pub Keeps-io : (m : Exec W.State A) → Keeps P (io {B = B} W m)
  unfolding io
  Keeps-io m = record { at = λ s h. h }

  pub Keeps-if :
      (b : Bool) (m n : Exec (Run B W) A) → Keeps P m → Keeps P n → Keeps P (if b then m else n)
  Keeps-if true m n km kn = km
  Keeps-if false m n km kn = kn

  Keeps-recover :
      (r : Result A) (h : Exn → Exec (Run B W) A)
      → ((e : Exn) → Keeps P (h e))
      → Keeps P (recover r h)
  Keeps-recover (ok a) h kh = record { at = λ s p. p }
  Keeps-recover (raised e) h kh = kh e

  pub Keeps-try :
      (m : Exec (Run B W) A) (h : Exn → Exec (Run B W) A)
      → Keeps P m
      → ((e : Exn) → Keeps P (h e))
      → Keeps P (try_except m h)
  unfolding try_except
  Keeps-try m h km kh = record { at = λ s p. (Keeps-recover (m s).0 h kh).at (m s).1 (km.at s p) }

  pub Keeps-on_exception :
      (h : Text → Exec (Run B W) A) (e : Exn)
      → ((t : Text) → Keeps P (h t))
      → Keeps P (on_exception h e)
  unfolding on_exception
  Keeps-on_exception h (timeout_expired t) kh = kh t
  Keeps-on_exception h (error t) kh = kh t
  Keeps-on_exception h keyboard_interrupt kh = Keeps-raise keyboard_interrupt
  Keeps-on_exception h (system_exit n) kh = Keeps-raise (system_exit n)

  pub Keeps-on_timeout :
      (t h : Exec (Run B W) A) (e : Exn) → Keeps P t → Keeps P h → Keeps P (on_timeout t h e)
  unfolding on_timeout
  Keeps-on_timeout t h (timeout_expired m) kt kh = kt
  Keeps-on_timeout t h (error m) kt kh = kh
  Keeps-on_timeout t h keyboard_interrupt kt kh = Keeps-raise keyboard_interrupt
  Keeps-on_timeout t h (system_exit n) kt kh = Keeps-raise (system_exit n)

module _ {B A C : Type 0} {W : World} {P : B → Type 0} where
  pub Keeps-finally :
      (m : Exec (Run B W) A) (fin : Exec (Run B W) C)
      → Keeps P m
      → Keeps P fin
      → Keeps P (try_finally m fin)
  unfolding try_finally
  Keeps-finally m fin km kf = record { at = λ s p. kf.at (m s).1 (km.at s p) }

  Keeps-continue :
      (r : Result A) (f : A → Exec (Run B W) C) → ((a : A) → Keeps P (f a)) → Keeps P (continue r f)
  Keeps-continue (ok a) f kf = kf a
  Keeps-continue (raised e) f kf = record { at = λ s p. p }

  pub Keeps-bind :
      (m : Exec (Run B W) A) (f : A → Exec (Run B W) C)
      → Keeps P m
      → ((a : A) → Keeps P (f a))
      → Keeps P (m >>= f)
  unfolding ◌>>=◌
  Keeps-bind m f km kf = record { at = λ s p. (Keeps-continue (m s).0 f kf).at (m s).1 (km.at s p) }

  pub Keeps-then :
      (m : Exec (Run B W) A) (n : Exec (Run B W) C) → Keeps P m → Keeps P n → Keeps P (m >>= λ _. n)
  Keeps-then m n km kn = Keeps-bind m (λ _. n) km (λ _. kn)

module _ {B : Type 0} {W : World} {P : B → Type 0} where
  pub Keeps-repeat :
      (n i : ℕ) (body : ℕ → Exec (Run B W) (Unit {0}))
      → ((j : ℕ) → Keeps P (body j))
      → Keeps P (repeat n i body)
  unfolding repeat
  Keeps-repeat zero i body k = Keeps-pure tt
  Keeps-repeat (suc n) i body k = Keeps-bind (body i) _ (k i) (λ _. Keeps-repeat n (i + 1) body k)

  Keeps-break :
      (b : Bool) (rest : Exec (Run B W) Bool)
      → Keeps P rest
      → Keeps P (elim b [ true ↦ pure true | false ↦ rest ])
  Keeps-break true rest k = Keeps-pure true
  Keeps-break false rest k = k

  pub Keeps-for_range :
      (n i : ℕ) (body : ℕ → Exec (Run B W) Bool)
      → ((j : ℕ) → Keeps P (body j))
      → Keeps P (for_range n i body)
  unfolding for_range
  Keeps-for_range zero i body k = Keeps-pure false
  Keeps-for_range (suc n) i body k =
      Keeps-bind (body i) _ (k i) (λ b. Keeps-break b _ (Keeps-for_range n (i + 1) body k))

  pub Keeps-for_each :
      {X : Type 0} (xs : List X) (body : X → Exec (Run B W) (Unit {0}))
      → ((x : X) → Keeps P (body x))
      → Keeps P (for_each xs body)
  unfolding for_each
  Keeps-for_each [] body k = Keeps-pure tt
  Keeps-for_each (x ∷ xs) body k = Keeps-bind (body x) _ (k x) (λ _. Keeps-for_each xs body k)

  -- An assignment is judged where it stands.
  pub Keeps-modify : (f : B → B) → ((b : B) → P b → P (f b)) → Keeps {W = W} P (modify f)
  unfolding modify
  Keeps-modify f k = record { at = λ s p. k s.book p }

pub ruleset keeps_rules = (
  Keeps-pure, Keeps-raise, Keeps-gets, Keeps-io, Keeps-if, Keeps-try, Keeps-on_exception,
  Keeps-on_timeout, Keeps-finally, Keeps-then, Keeps-bind, Keeps-repeat, Keeps-for_range,
  Keeps-for_each,
)
