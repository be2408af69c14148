-- ===== src/Python/Rules/AtMost.antt =====
-- A counter never falls and grows by at most `k`, in an action that returns and in one that raises.
use bpftime_benchmark.Prelude.{
  ℕ, zero, suc, ◌+◌, ◌*◌, ◌≤◌, ◌≡◌, refl, Bool, true, false, arith, if◌then◌else◌,
}
use bpftime_benchmark.Text.Base.{Text}
use bpftime_benchmark.Python.Exec.{
  Exn, timeout_expired, error, keyboard_interrupt, system_exit, Result, ok, raised, Exec, pure,
  raise, gets, try_except, on_exception, on_timeout, try_finally, continue, recover, ◌>>=◌,
  for_range, repeat,
}
use bpftime_benchmark.Python.World.{World}
use bpftime_benchmark.Python.Run.{Run, io, modify}
use bpftime_benchmark.Python.Rules.Keeps.{Keeps}
use bpftime_benchmark.Python.Rules.Adds.{Adds, Grew}

abbrev pub Between : ℕ → ℕ → ℕ → Type 0
Between n k n' = (n ≤ n') × (n' ≤ n + k)

Between-trans : (n j n' k n'' : ℕ) → Between n j n' → Between n' k n'' → Between n (j + k) n''
Between-trans n j n' k n'' h g = omega arith

pub record AtMost {B A : Type 0} {W : World} (f : B → ℕ) (k : ℕ) (m : Exec (Run B W) A)
    : Type 0 where
  pub at : (s : Run B W) → Between (f s.book) k (f (m s).1.book)

module _ {B A : Type 0} {W : World} {f : B → ℕ} where
  pub AtMost-mono : {j k : ℕ} (m : Exec (Run B W) A) → AtMost f j m → j ≤ k → AtMost f k m
  AtMost-mono {j} {k} m am h = record { at = λ s. go s (am.at s) }
    where
      go :
          (s : Run B W)
          → Between (f s.book) j (f (m s).1.book)
          → Between (f s.book) k (f (m s).1.book)
      go s g = omega arith

  -- An exact count is a bound.
  pub AtMost-Adds : {a b k : ℕ} (m : Exec (Run B W) A) → Adds f a b m → a ≤ k → b ≤ k → AtMost f k m
  AtMost-Adds {a} {b} {k} m am ha hb = record { at = λ s. go s (m s).0 (f (m s).1.book) (am.at s) }
    where
      go : (s : Run B W) (r : Result A) (n : ℕ) → Grew (f s.book) a b r n → Between (f s.book) k n
      go s (ok x) n g = omega arith
      go s (raised e) n g = omega arith

  -- What keeps every value of a counter does not move it.
  pub AtMost-Keeps : (m : Exec (Run B W) A) → ((n : ℕ) → Keeps (λ b. f b ≡ n) m) → AtMost f 0 m
  AtMost-Keeps m h = record { at = λ s. go s ((h (f s.book)).at s refl) }
    where
      go : (s : Run B W) → f (m s).1.book ≡ f s.book → Between (f s.book) 0 (f (m s).1.book)
      go s e = omega arith

  pub AtMost-pure : (x : A) → AtMost {W = W} f 0 (pure x)
  unfolding pure
  AtMost-pure x = record { at = λ s. omega arith }

  pub AtMost-return : {k : ℕ} (x : A) → AtMost {W = W} f k (pure x)
  AtMost-return x = AtMost-mono _ (AtMost-pure x) (omega arith)

  pub AtMost-raise : (e : Exn) → AtMost {A = A} {W = W} f 0 (raise e)
  unfolding raise
  AtMost-raise e = record { at = λ s. omega arith }

  pub AtMost-gets : (g : Run B W → A) → AtMost f 0 (gets g)
  unfolding gets
  AtMost-gets g = record { at = λ s. omega arith }

  pub AtMost-io : (m : Exec W.State A) → AtMost f 0 (io {B = B} W m)
  unfolding io
  AtMost-io m = record { at = λ s. omega arith }

  pub AtMost-if :
      {k : ℕ} (c : Bool) (m n : Exec (Run B W) A)
      → AtMost f k m
      → AtMost f k n
      → AtMost f k (if c then m else n)
  AtMost-if true m n am an = am
  AtMost-if false m n am an = an

  AtMost-recover :
      {k : ℕ} (r : Result A) (h : Exn → Exec (Run B W) A)
      → ((e : Exn) → AtMost f k (h e))
      → AtMost f k (recover r h)
  AtMost-recover (ok x) h ah = record { at = λ s. omega arith }
  AtMost-recover (raised e) h ah = ah e

  pub AtMost-try :
      {j k : ℕ} (m : Exec (Run B W) A) (h : Exn → Exec (Run B W) A)
      → AtMost f j m
      → ((e : Exn) → AtMost f k (h e))
      → AtMost f (j + k) (try_except m h)
  unfolding try_except
  AtMost-try m h am ah = record {
    at = λ s. Between-trans _ _ _ _ _ (am.at s) ((AtMost-recover (m s).0 h ah).at (m s).1);
  }

  pub AtMost-on_exception :
      {k : ℕ} (h : Text → Exec (Run B W) A) (e : Exn)
      → ((t : Text) → AtMost f k (h t))
      → AtMost f k (on_exception h e)
  unfolding on_exception
  AtMost-on_exception h (timeout_expired t) ah = ah t
  AtMost-on_exception h (error t) ah = ah t
  AtMost-on_exception h keyboard_interrupt ah =
      AtMost-mono _ (AtMost-raise keyboard_interrupt) (omega arith)
  AtMost-on_exception h (system_exit n) ah =
      AtMost-mono _ (AtMost-raise (system_exit n)) (omega arith)

  pub AtMost-on_timeout :
      {k : ℕ} (t h : Exec (Run B W) A) (e : Exn)
      → AtMost f k t
      → AtMost f k h
      → AtMost f k (on_timeout t h e)
  unfolding on_timeout
  AtMost-on_timeout t h (timeout_expired m) ak ah = ak
  AtMost-on_timeout t h (error m) ak ah = ah
  AtMost-on_timeout t h keyboard_interrupt ak ah =
      AtMost-mono _ (AtMost-raise keyboard_interrupt) (omega arith)
  AtMost-on_timeout t h (system_exit n) ak ah =
      AtMost-mono _ (AtMost-raise (system_exit n)) (omega arith)

module _ {B A C : Type 0} {W : World} {f : B → ℕ} where
  AtMost-continue :
      {k : ℕ} (r : Result A) (g : A → Exec (Run B W) C)
      → ((x : A) → AtMost f k (g x))
      → AtMost f k (continue r g)
  AtMost-continue (ok x) g ag = ag x
  AtMost-continue (raised e) g ag = record { at = λ s. omega arith }

  pub AtMost-bind :
      {j k : ℕ} (m : Exec (Run B W) A) (g : A → Exec (Run B W) C)
      → AtMost f j m
      → ((x : A) → AtMost f k (g x))
      → AtMost f (j + k) (m >>= g)
  unfolding ◌>>=◌
  AtMost-bind m g am ag = record {
    at = λ s. Between-trans _ _ _ _ _ (am.at s) ((AtMost-continue (m s).0 g ag).at (m s).1);
  }

  -- What does not move the counter may stand in front.
  pub AtMost-after :
      {k : ℕ} (m : Exec (Run B W) A) (g : A → Exec (Run B W) C)
      → AtMost f 0 m
      → ((x : A) → AtMost f k (g x))
      → AtMost f k (m >>= g)
  AtMost-after m g am ag = AtMost-mono _ (AtMost-bind m g am ag) (omega arith)

  -- Or behind.
  pub AtMost-before :
      {k : ℕ} (m : Exec (Run B W) A) (g : A → Exec (Run B W) C)
      → AtMost f k m
      → ((x : A) → AtMost f 0 (g x))
      → AtMost f k (m >>= g)
  AtMost-before m g am ag = AtMost-mono _ (AtMost-bind m g am ag) (omega arith)

  pub AtMost-finally :
      {j k : ℕ} (m : Exec (Run B W) A) (fin : Exec (Run B W) C)
      → AtMost f j m
      → AtMost f k fin
      → AtMost f (j + k) (try_finally m fin)
  unfolding try_finally
  AtMost-finally m fin am af = record {
    at = λ s. Between-trans _ _ _ _ _ (am.at s) (af.at (m s).1);
  }

module _ {B : Type 0} {W : World} {f : B → ℕ} where
  pub AtMost-modify :
      {k : ℕ} (g : B → B) → ((b : B) → Between (f b) k (f (g b))) → AtMost {W = W} f k (modify g)
  unfolding modify
  AtMost-modify g h = record { at = λ s. h s.book }

  pub AtMost-repeat :
      {k : ℕ} (n i : ℕ) (body : ℕ → Exec (Run B W) (Unit {0}))
      → ((j : ℕ) → AtMost f k (body j))
      → AtMost f (n * k) (repeat n i body)
  unfolding repeat
  AtMost-repeat zero i body h = AtMost-mono _ (AtMost-pure tt) (omega arith)
  AtMost-repeat (suc n) i body h =
      AtMost-mono _ (AtMost-bind (body i) _ (h i) (λ _. AtMost-repeat n (i + 1) body h))
        (grind arith)

  AtMost-break :
      {k : ℕ} (b : Bool) (rest : Exec (Run B W) Bool)
      → AtMost f k rest
      → AtMost f k (elim b [ true ↦ pure true | false ↦ rest ])
  AtMost-break true rest h = AtMost-mono _ (AtMost-pure true) (omega arith)
  AtMost-break false rest h = h

  pub AtMost-for_range :
      {k : ℕ} (n i : ℕ) (body : ℕ → Exec (Run B W) Bool)
      → ((j : ℕ) → AtMost f k (body j))
      → AtMost f (n * k) (for_range n i body)
  unfolding for_range
  AtMost-for_range zero i body h = AtMost-mono _ (AtMost-pure false) (omega arith)
  AtMost-for_range (suc n) i body h =
      AtMost-mono _
        (AtMost-bind (body i) _ (h i) (λ b. AtMost-break b _ (AtMost-for_range n (i + 1) body h)))
        (grind arith)
