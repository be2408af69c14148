-- ===== src/Python/Rules/Wins.antt =====
-- A counter that moves by one where the action returns `true`, stays where it returns `false`, and
-- moves by at most `b` where it raises.
use bpftime_benchmark.Prelude.{
  ℕ, zero, suc, ◌+◌, ◌≤◌, ◌≡◌, refl, Bool, true, false, arith, if◌then◌else◌,
}
use bpftime_benchmark.Python.Exec.{
  Exn, Result, ok, raised, Exec, pure, raise, try_except, try_finally, on_timeout, settle, continue,
  recover, ◌>>=◌, for_range, timeout_expired, error, keyboard_interrupt, system_exit,
}
use bpftime_benchmark.Python.World.{World}
use bpftime_benchmark.Python.Run.{Run}
use bpftime_benchmark.Python.Rules.Adds.{Adds, Grew}

abbrev pub Won : ℕ → ℕ → Result Bool → ℕ → Type 0
Won n b (ok true) n' = n' ≡ n + 1
Won n b (ok false) n' = n' ≡ n
Won n b (raised e) n' = (n ≤ n') × (n' ≤ n + b)

pub record Wins {B : Type 0} {W : World} (f : B → ℕ) (b : ℕ) (m : Exec (Run B W) Bool)
    : Type 0 where
  pub at : (s : Run B W) → Won (f s.book) b (m s).0 (f (m s).1.book)

module _ {B : Type 0} {W : World} {f : B → ℕ} where
  pub Wins-weaken : {b k : ℕ} (m : Exec (Run B W) Bool) → b ≤ k → Wins f b m → Wins f k m
  Wins-weaken {b} {k} m le wm = record { at = λ s. go s (m s).0 (f (m s).1.book) (wm.at s) }
    where
      go : (s : Run B W) (r : Result Bool) (n : ℕ) → Won (f s.book) b r n → Won (f s.book) k r n
      go s (ok true) n g = g
      go s (ok false) n g = g
      go s (raised e) n g = omega arith

  pub Wins-if :
      {b : ℕ} (c : Bool) (m n : Exec (Run B W) Bool)
      → Wins f b m
      → Wins f b n
      → Wins f b (if c then m else n)
  Wins-if true m n wm wn = wm
  Wins-if false m n wm wn = wn

  pub Wins-raise : {b : ℕ} (e : Exn) → Wins {W = W} f b (raise e)
  unfolding raise
  Wins-raise e = record { at = λ s. omega arith }

  pub Wins-try :
      {b : ℕ} (m : Exec (Run B W) Bool) (h : Exn → Exec (Run B W) Bool)
      → Wins f 0 m
      → ((e : Exn) → Wins f b (h e))
      → Wins f b (try_except m h)
  unfolding try_except
  Wins-try {b} m h wm wh = record { at = λ s. go s (m s).0 (m s).1 (wm.at s) }
    where
      go :
          (s : Run B W) (r : Result Bool) (s' : Run B W)
          → Won (f s.book) 0 r (f s'.book)
          → Won (f s.book) b (recover r h s').0 (f (recover r h s').1.book)
      go s (ok true) s' g = g
      go s (ok false) s' g = g
      go s (raised e) s' g =
          let same : f s'.book ≡ f s.book = omega arith in rw same at ((wh e).at s')

  pub Wins-on_timeout :
      {b : ℕ} (t h : Exec (Run B W) Bool) (e : Exn)
      → Wins f b t
      → Wins f b h
      → Wins f b (on_timeout t h e)
  unfolding on_timeout
  Wins-on_timeout t h (timeout_expired m) wt wh = wt
  Wins-on_timeout t h (error m) wt wh = wh
  Wins-on_timeout t h keyboard_interrupt wt wh = Wins-raise keyboard_interrupt
  Wins-on_timeout t h (system_exit n) wt wh = Wins-raise (system_exit n)

module _ {B A : Type 0} {W : World} {f : B → ℕ} where
  pub Wins-bind :
      {b : ℕ} (m : Exec (Run B W) A) (g : A → Exec (Run B W) Bool)
      → Adds f 0 0 m
      → ((x : A) → Wins f b (g x))
      → Wins f b (m >>= g)
  unfolding ◌>>=◌
  Wins-bind {b} m g am wg = record { at = λ s. go s (m s).0 (m s).1 (am.at s) }
    where
      go :
          (s : Run B W) (r : Result A) (s' : Run B W)
          → Grew (f s.book) 0 0 r (f s'.book)
          → Won (f s.book) b (continue r g s').0 (f (continue r g s').1.book)
      go s (ok x) s' e = let same : f s'.book ≡ f s.book = omega arith in rw same at ((wg x).at s')
      go s (raised e) s' h = omega arith

  -- An action that counts, reported.
  pub Wins-true : {b : ℕ} (m : Exec (Run B W) A) → Adds f 1 b m → Wins f b (m >>= λ _. pure true)
  unfolding ◌>>=◌ pure
  Wins-true {b} m am = record { at = λ s. go s (m s).0 (m s).1 (am.at s) }
    where
      go :
          (s : Run B W) (r : Result A) (s' : Run B W)
          → Grew (f s.book) 1 b r (f s'.book)
          → Won
              (f s.book)
              b
              (continue r (λ _. pure true) s').0
              (f (continue r (λ _. pure true) s').1.book)
      go s (ok x) s' g = g
      go s (raised e) s' g = g

  pub Wins-false : (m : Exec (Run B W) A) → Adds f 0 0 m → Wins f 0 (m >>= λ _. pure false)
  unfolding ◌>>=◌ pure
  Wins-false m am = record { at = λ s. go s (m s).0 (m s).1 (am.at s) }
    where
      go :
          (s : Run B W) (r : Result A) (s' : Run B W)
          → Grew (f s.book) 0 0 r (f s'.book)
          → Won
              (f s.book)
              0
              (continue r (λ _. pure false) s').0
              (f (continue r (λ _. pure false) s').1.book)
      go s (ok x) s' g = omega arith
      go s (raised e) s' g = g

  pub Wins-finally :
      (m : Exec (Run B W) Bool) (fin : Exec (Run B W) A)
      → Wins f 1 m
      → Adds f 0 0 fin
      → Wins f 1 (try_finally m fin)
  unfolding try_finally
  Wins-finally m fin wm af = record {
    at = λ s. go s (m s).0 (f (m s).1.book) (fin (m s).1).0 _ (wm.at s) (af.at (m s).1);
  }
    where
      go :
          (s : Run B W) (r : Result Bool) (n : ℕ) (q : Result A) (n' : ℕ)
          → Won (f s.book) 1 r n
          → Grew n 0 0 q n'
          → Won (f s.book) 1 (settle r q) n'
      go s (ok true) n (ok y) n' h k = omega arith
      go s (ok false) n (ok y) n' h k = omega arith
      go s (ok true) n (raised y) n' h k = omega arith
      go s (ok false) n (raised y) n' h k = omega arith
      go s (raised x) n (ok y) n' h k = omega arith
      go s (raised x) n (raised y) n' h k = omega arith

module _ {B : Type 0} {W : World} {f : B → ℕ} where
  -- A loop that breaks at its first success has at most one.
  pub Wins-for_range :
      (n i : ℕ) (body : ℕ → Exec (Run B W) Bool)
      → ((j : ℕ) → Wins f 1 (body j))
      → Wins f 1 (for_range n i body)
  unfolding for_range pure ◌>>=◌
  Wins-for_range zero i body h = record { at = λ s. refl }
  Wins-for_range (suc n) i body h = record {
    at = λ s.
        go (for_range n (i + 1) body) (Wins-for_range n (i + 1) body h) s (body i s).0 (body i s).1
          ((h i).at s);
  }
    where
      go :
          (rest : Exec (Run B W) Bool)
          → Wins f 1 rest
          → (s : Run B W) (r : Result Bool) (s' : Run B W) → Won (f s.book) 1 r (f s'.book)
          → let after : Bool → Exec (Run B W) Bool =
              λ b. elim b [ true ↦ pure true | false ↦ rest ] in
            Won (f s.book) 1 (continue r after s').0 (f (continue r after s').1.book)
      go rest wr s (ok true) s' g = g
      go rest wr s (ok false) s' g = rw g at (wr.at s')
      go rest wr s (raised e) s' g = g
