-- ===== src/Python/Rules/Adds.antt =====
-- How far a counter moves: by exactly `a` in an action that returns, and by at most `b` in one that
-- raises.
use bpftime_benchmark.Prelude.{ℕ, zero, suc, ◌+◌, ◌≤◌, ◌≡◌, Bool, true, false, arith, if◌then◌else◌}
use bpftime_benchmark.Text.Base.{Text}
use bpftime_benchmark.Python.Exec.{
  Exn, timeout_expired, error, keyboard_interrupt, system_exit, Result, ok, raised, Exec, pure,
  raise, gets, try_except, on_exception, on_timeout, try_finally, settle, continue, recover, ◌>>=◌,
  repeat,
}
use bpftime_benchmark.Python.World.{World}
use bpftime_benchmark.Python.Run.{Run, io, modify}

-- From the value `n`.
abbrev pub Grew : {A : Type 0} → ℕ → ℕ → ℕ → Result A → ℕ → Type 0
Grew n a b (ok x) n' = n' ≡ n + a
Grew n a b (raised e) n' = (n ≤ n') × (n' ≤ n + b)

Grew-same : {A : Type 0} (n : ℕ) (r : Result A) → Grew n 0 0 r n
Grew-same n (ok x) = omega arith
Grew-same n (raised e) = omega arith

pub record Adds {B A : Type 0} {W : World} (f : B → ℕ) (a b : ℕ) (m : Exec (Run B W) A)
    : Type 0 where
  pub at : (s : Run B W) → Grew (f s.book) a b (m s).0 (f (m s).1.book)

module _ {B A : Type 0} {W : World} {f : B → ℕ} where
  pub Adds-weaken : {a b k : ℕ} (m : Exec (Run B W) A) → b ≤ k → Adds f a b m → Adds f a k m
  Adds-weaken {a} {b} {k} m le am = record { at = λ s. go s (m s).0 (f (m s).1.book) (am.at s) }
    where
      go : (s : Run B W) (r : Result A) (n : ℕ) → Grew (f s.book) a b r n → Grew (f s.book) a k r n
      go s (ok x) n g = g
      go s (raised e) n g = omega arith

  pub Adds-pure : (x : A) → Adds {W = W} f 0 0 (pure x)
  unfolding pure
  Adds-pure x = record { at = λ s. omega arith }

  pub Adds-raise : (a b : ℕ) (e : Exn) → Adds {A = A} {W = W} f a b (raise e)
  unfolding raise
  Adds-raise a b e = record { at = λ s. omega arith }

  pub Adds-gets : (g : Run B W → A) → Adds f 0 0 (gets g)
  unfolding gets
  Adds-gets g = record { at = λ s. omega arith }

  pub Adds-io : (m : Exec W.State A) → Adds f 0 0 (io {B = B} W m)
  unfolding io
  Adds-io m = record { at = λ s. Grew-same (f s.book) (m s.world).0 }

  pub Adds-if :
      {a b : ℕ} (c : Bool) (m n : Exec (Run B W) A)
      → Adds f a b m
      → Adds f a b n
      → Adds f a b (if c then m else n)
  Adds-if true m n am an = am
  Adds-if false m n am an = an

  -- What moves the counter only when it returns may be retried by a handler.
  pub Adds-try :
      {a b : ℕ} (m : Exec (Run B W) A) (h : Exn → Exec (Run B W) A)
      → Adds f a 0 m
      → ((e : Exn) → Adds f a b (h e))
      → Adds f a b (try_except m h)
  unfolding try_except
  Adds-try {a} {b} m h am ah = record { at = λ s. go s (m s).0 (m s).1 (am.at s) }
    where
      go :
          (s : Run B W) (r : Result A) (s' : Run B W)
          → Grew (f s.book) a 0 r (f s'.book)
          → Grew (f s.book) a b (recover r h s').0 (f (recover r h s').1.book)
      go s (ok x) s' g = g
      go s (raised e) s' g =
          let same : f s'.book ≡ f s.book = omega arith in rw same at ((ah e).at s')

  pub Adds-on_exception :
      {a b : ℕ} (h : Text → Exec (Run B W) A) (e : Exn)
      → ((t : Text) → Adds f a b (h t))
      → Adds f a b (on_exception h e)
  unfolding on_exception
  Adds-on_exception h (timeout_expired t) ah = ah t
  Adds-on_exception h (error t) ah = ah t
  Adds-on_exception h keyboard_interrupt ah = Adds-raise _ _ keyboard_interrupt
  Adds-on_exception h (system_exit n) ah = Adds-raise _ _ (system_exit n)

  pub Adds-on_timeout :
      {a b : ℕ} (t h : Exec (Run B W) A) (e : Exn)
      → Adds f a b t
      → Adds f a b h
      → Adds f a b (on_timeout t h e)
  unfolding on_timeout
  Adds-on_timeout t h (timeout_expired m) ak ah = ak
  Adds-on_timeout t h (error m) ak ah = ah
  Adds-on_timeout t h keyboard_interrupt ak ah = Adds-raise _ _ keyboard_interrupt
  Adds-on_timeout t h (system_exit n) ak ah = Adds-raise _ _ (system_exit n)

module _ {B A C : Type 0} {W : World} {f : B → ℕ} where
  -- A silent action in front of one that counts, or one that counts and does not lose count.
  pub Adds-bind :
      {a b : ℕ} (m : Exec (Run B W) A) (g : A → Exec (Run B W) C)
      → Adds f 0 0 m
      → ((x : A) → Adds f a b (g x))
      → Adds f a b (m >>= g)
  unfolding ◌>>=◌
  Adds-bind {a} {b} m g am ag = record { at = λ s. go s (m s).0 (m s).1 (am.at s) }
    where
      go :
          (s : Run B W) (r : Result A) (s' : Run B W)
          → Grew (f s.book) 0 0 r (f s'.book)
          → Grew (f s.book) a b (continue r g s').0 (f (continue r g s').1.book)
      go s (ok x) s' e = let same : f s'.book ≡ f s.book = omega arith in rw same at ((ag x).at s')
      go s (raised e) s' h = omega arith

  -- A round that counts, and the rounds after it.
  pub Adds-then :
      {a c d : ℕ} (m : Exec (Run B W) A) (g : Exec (Run B W) C)
      → Adds f a a m
      → Adds f c d g
      → Adds f (a + c) (a + d) (m >>= λ _. g)
  unfolding ◌>>=◌
  Adds-then {a} {c} {d} m g am ag = record { at = λ s. go s (m s).0 (m s).1 (am.at s) }
    where
      after :
          (n n' : ℕ) (r : Result C) (k : ℕ)
          → n' ≡ n + a
          → Grew n' c d r k
          → Grew n (a + c) (a + d) r k
      after n n' (ok x) k e h = omega arith
      after n n' (raised x) k e h = omega arith

      go :
          (s : Run B W) (r : Result A) (s' : Run B W)
          → Grew (f s.book) a a r (f s'.book)
          → Grew
              (f s.book)
              (a + c)
              (a + d)
              (continue r (λ _. g) s').0
              (f (continue r (λ _. g) s').1.book)
      go s (ok x) s' e = after (f s.book) (f s'.book) (g s').0 _ e (ag.at s')
      go s (raised e) s' h = omega arith

  -- What is returned does not matter.
  pub Adds-return :
      {a b : ℕ} (m : Exec (Run B W) A) (x : C) → Adds f a b m → Adds f a b (m >>= λ _. pure x)
  unfolding ◌>>=◌ pure
  Adds-return {a} {b} m x am = record { at = λ s. go s (m s).0 (m s).1 (am.at s) }
    where
      go :
          (s : Run B W) (r : Result A) (s' : Run B W)
          → Grew (f s.book) a b r (f s'.book)
          → Grew
              (f s.book)
              a
              b
              (continue r (λ _. pure x) s').0
              (f (continue r (λ _. pure x) s').1.book)
      go s (ok y) s' g = g
      go s (raised e) s' g = g

  pub Adds-finally :
      {a b : ℕ} (m : Exec (Run B W) A) (fin : Exec (Run B W) C)
      → Adds f a b m
      → Adds f 0 0 fin
      → a ≤ b
      → Adds f a b (try_finally m fin)
  unfolding try_finally
  Adds-finally {a} {b} m fin am af small = record {
    at = λ s. go s (m s).0 (f (m s).1.book) (fin (m s).1).0 _ (am.at s) (af.at (m s).1);
  }
    where
      go :
          (s : Run B W) (r : Result A) (n : ℕ) (q : Result C) (n' : ℕ)
          → Grew (f s.book) a b r n
          → Grew n 0 0 q n'
          → Grew (f s.book) a b (settle r q) n'
      go s (ok x) n (ok y) n' h k = omega arith
      go s (ok x) n (raised y) n' h k = omega arith
      go s (raised x) n (ok y) n' h k = omega arith
      go s (raised x) n (raised y) n' h k = omega arith

module _ {B : Type 0} {W : World} {f : B → ℕ} where
  pub Adds-modify :
      {a : ℕ} (g : B → B) → ((b : B) → f (g b) ≡ f b + a) → Adds {W = W} f a 0 (modify g)
  unfolding modify
  Adds-modify g h = record { at = λ s. h s.book }

  -- `n` rounds that count one each, and at most one in a round that raises.
  pub Adds-repeat :
      (n i : ℕ) (body : ℕ → Exec (Run B W) (Unit {0}))
      → ((j : ℕ) → Adds f 1 1 (body j))
      → Adds f n n (repeat n i body)
  unfolding repeat
  Adds-repeat zero i body h = Adds-pure tt
  Adds-repeat (suc n) i body h =
      let e : 1 + n ≡ suc n = omega arith in
      rw e at (Adds-then (body i) (repeat n (i + 1) body) (h i) (Adds-repeat n (i + 1) body h))

pub ruleset adds_rules = (
  Adds-pure, Adds-raise, Adds-gets, Adds-io, Adds-if, Adds-try, Adds-on_exception, Adds-on_timeout,
  Adds-bind,
)
